-- ===== src/Kernel/Start.antt =====
-- src/kernel/src/start.c: `_start`, up to its endless loop. `none` is for a run that does not come so
-- far: it halts, or does what C leaves undefined.
pub mod Boot
pub mod Formats
pub mod Listing
pub mod Complete
pub mod Screen
mod Tests
use mathlib.Core.Option
use amethyst_os_old.Base.{
  ℕ, ◌+◌, ◌&&◌, Option, none, some, List, [], ◌∷◌, codes, ◌==◌, if◌then◌else◌, for_to, ◌>>=◌,
}
use amethyst_os_old.Kernel.Font.{font_6x8}
use amethyst_os_old.Kernel.Console.{Console, clear, set_font}
use amethyst_os_old.Kernel.Pic.{Ports, pic_remap_irq0}
use amethyst_os_old.Kernel.Idt.{Isr, Idt, idt_init, idt_set_descriptor, interrupt_gate}
use amethyst_os_old.Kernel.Alloc.{Heap, alloc_init}
use amethyst_os_old.Kernel.Pci.{
  Device, Devices, of_bits, PciRead, value, halted, undefined, pci_read, pci_init, pci_vendor_id,
  pci_device_id, pci_prog_if, pci_subclass, pci_class, pci_bar0, pci_bar1,
}
use amethyst_os_old.Kernel.Isr.{printf}

-- The variables of all parts, and what was written to the ports.
pub record Kernel : Type 0 where
  pub console : Console
  pub ports : Ports
  pub idt : Idt
  pub heap : Heap
  pub devices : Devices

-- `HEAP_START` and `HEAP_SIZE`
abbrev pub heap_start : ℕ
heap_start = 0x100_0000

abbrev pub heap_size : ℕ
heap_size = 0x100_0000

-- The value that a read returns, if it comes back.
abbrev pub returned : PciRead → Option ℕ
returned (value v) = some v
returned halted = none
returned undefined = none

-- The listing of the devices. `string_at` is the memory that `%s` would read a string from.
module _ (string_at : ℕ → List ℕ) (config : ℕ → ℕ) where
  -- The `if` on the programming interface of a USB controller.
  unfoldable pub list_usb : Device → ℕ → ℕ → Console → Option Console
  list_usb device prog_if bar0 t =
      if prog_if == 0x20
      then printf string_at (codes "EHCI:%08X\n") (bar0 ∷ []) t
      else if prog_if == 0x30
      then (do
        bar1 ← returned (pci_read config device pci_bar1)
        printf string_at (codes "XHCI:%08X.%08X\n") (bar1 ∷ bar0 ∷ []) t)
      else some t

  -- The `if` on the class of a device, behind the first `printf`.
  unfoldable pub list_class : Device → ℕ → ℕ → ℕ → Console → Option Console
  list_class device class subclass prog_if t =
      if class == 0xc && subclass == 0x3
      then (do bar0 ← returned (pci_read config device pci_bar0); list_usb device prog_if bar0 t)
      else printf string_at (codes "Cl: %02X-%02X\n") (class ∷ subclass ∷ []) t

  -- The body of the loop, on one element of `pciDevices`.
  unfoldable pub list_device : Device → Console → Option Console
  list_device device t = do
    vendor ← returned (pci_read config device pci_vendor_id)
    id ← returned (pci_read config device pci_device_id)
    class ← returned (pci_read config device pci_class)
    subclass ← returned (pci_read config device pci_subclass)
    prog_if ← returned (pci_read config device pci_prog_if)
    t' ←
        printf string_at (codes "Vendor:%04X, Device:%04X, ") (vendor ∷ id ∷ class ∷ subclass ∷ [])
          t
    list_class device class subclass prog_if t'

  -- The first `n` rounds of the loop.
  unfoldable pub list_devices : ℕ → (ℕ → ℕ) → Console → Option Console
  list_devices n entry t = for_to n (λ i r. r >>= list_device (of_bits (entry i))) (some t)

-- The addresses that the linker chooses: of the handlers, of `dispatch`, and of the font's bitmaps.
-- `config` and `junk` are those of `pci_init`.
module _ (address : Isr → ℕ) (dispatch font_address : ℕ) (config : ℕ → ℕ) (junk : Device) where
  -- The calls before the message. 0xAA is the vector of the system calls.
  unfoldable pub init_all : Kernel → Kernel
  init_all k = record {
    console = set_font (some (font_6x8 font_address)) (clear k.console);
    ports = pic_remap_irq0 k.ports;
    idt = idt_set_descriptor 0xaa dispatch interrupt_gate (idt_init address k.idt);
    heap = alloc_init heap_start heap_size k.heap;
    devices = pci_init config junk k.devices;
  }

  unfoldable pub boot : (ℕ → List ℕ) → Kernel → Option Kernel
  boot string_at k =
      let k' = init_all k in
      Option.map (λ t. record k' { console = t })
        (printf string_at (codes "Everything is init!\n") [] k'.console)

  -- The whole of `_start`: the state in which it loops for ever.
  unfoldable pub start : (ℕ → List ℕ) → Kernel → Option Kernel
  start string_at k = do
    k' ← boot string_at k
    t ← list_devices string_at config k'.devices.count k'.devices.entry k'.console
    some (record k' { console = t })
