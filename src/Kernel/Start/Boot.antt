-- ===== src/Kernel/Start/Boot.antt =====
-- What the kernel has set up when it prints that all is initialised.
use amethyst_os_old.Base.{
  ℕ, ◌+◌, ◌<◌, ◌≡◌, refl, ◌∙◌, Option, none, some, List, [], ◌∷◌, ◌++◌, arith, ◌==◌, if◌then◌else◌,
  length, get_elem?, codes,
}
use amethyst_os_old.Kernel.Font.{font_6x8}
use amethyst_os_old.Kernel.Vga.{Store}
use amethyst_os_old.Kernel.Console.{Console, console_start, clear, set_font, puts}
use amethyst_os_old.Kernel.Console.Cursor.{IsReady, puts-IsReady}
use amethyst_os_old.Kernel.Console.Colors.{cleared-IsReady}
use amethyst_os_old.Kernel.Pic.{Ports, outb, command_words, pic_remap_irq0, pic1_data, pic2_data}
use amethyst_os_old.Kernel.Idt.{Isr, isr_list, Idt, idt_init}
use amethyst_os_old.Kernel.Idt.Gates.{IsGate, idt_set_descriptor_lem, idt_init_lem}
use amethyst_os_old.Kernel.Alloc.{Heap}
use amethyst_os_old.Kernel.Alloc.Facts.{IsHeap}
use amethyst_os_old.Kernel.Alloc.Live.{alloc_init-IsHeap}
use amethyst_os_old.Kernel.Pci.{Device, Devices, dev_max_count}
use amethyst_os_old.Kernel.Pci.Scan.{entries, present, pci_init_lem}
use amethyst_os_old.Kernel.Isr.Report.{printf_plain}
use amethyst_os_old.Kernel.Start.{Kernel, heap_start, heap_size, init_all, boot}

-- What a port was written last.
abbrev pub last_write : ℕ → Ports → Option ℕ
last_write port [] = none
last_write port ((q, v) ∷ p) = elim (last_write port p) [
  | some w ↦ some w
  | none ↦ if q == port then some v else none
]

last_write_outb :
    (port q v : ℕ) (p : Ports)
    → last_write port (p ++ (q, v) ∷ []) ≡ (if q == port then some v else last_write port p)
last_write_outb port q v [] = refl
last_write_outb port q v (w ∷ p) = ground (arith, last_write_outb port q v p)

-- Both controllers mask all their interrupts in the end.
pic_remap_irq0-last_write :
    (p : Ports)
    → (last_write pic1_data (pic_remap_irq0 p) ≡ some 0xff)
      × (last_write pic2_data (pic_remap_irq0 p) ≡ some 0xff)
unfolding pic_remap_irq0
pic_remap_irq0-last_write p = (
  last_write_outb pic1_data pic2_data 0xff (outb pic1_data 0xff (command_words p))
      ∙ last_write_outb pic1_data pic1_data 0xff (command_words p),
  last_write_outb pic2_data pic2_data 0xff (outb pic1_data 0xff (command_words p)),
)

-- The message.
abbrev pub greeting : List ℕ
greeting = codes "Everything is init!\n"

module _ (address : Isr → ℕ) (dispatch font_address : ℕ) (config : ℕ → ℕ) (junk : Device) where
  -- All parts are set up, and no interrupt of a device is let through yet.
  pub record IsBooted (k : Kernel) : Type 0 where
    pub console : IsReady (font_6x8 font_address) k.console
    pub heap : IsHeap heap_start (heap_start + heap_size) k.heap
    pub handlers :
        (v : ℕ) (isr : Isr)
        → v < 0x20
        → get_elem? isr_list v ≡ some (some isr)
        → IsGate (k.idt.entry v) (address isr)
    pub system_calls : IsGate (k.idt.entry 0xaa) dispatch
    pub devices : entries k.devices.count k.devices.entry ≡ present config junk dev_max_count
    pub masked₁ : last_write pic1_data k.ports ≡ some 0xff
    pub masked₂ : last_write pic2_data k.ports ≡ some 0xff

  -- The state before the message.
  abbrev pub set_up : Store → Ports → Idt → Heap → Devices → Kernel
  set_up m p t h s =
      init_all address dispatch font_address config junk
        (record { console = console_start m; ports = p; idt = t; heap = h; devices = s })

  pub set_up-IsBooted :
      (m : Store) (p : Ports) (t : Idt) (h : Heap) (s : Devices)
      → 0 < length h.freed
      → IsBooted (set_up m p t h s)
  unfolding init_all font_6x8
  set_up-IsBooted m p t h s room = record {
    console =
        cleared-IsReady (font_6x8 font_address) m (omega arith) (omega arith) (omega arith)
          (omega arith);
    heap = (alloc_init-IsHeap heap_start heap_size h (omega arith) (omega arith) room).0;
    handlers = λ v isr lt e.
        let other = (idt_set_descriptor_lem 0xaa dispatch (idt_init address t) v).1 in
        rw (other (omega arith)) ((idt_init_lem address v t).0 isr lt e);
    system_calls = (idt_set_descriptor_lem 0xaa dispatch (idt_init address t) 0xaa).0;
    devices = (pci_init_lem config junk s).0;
    masked₁ = (pic_remap_irq0-last_write p).0;
    masked₂ = (pic_remap_irq0-last_write p).1;
  }

  pub set_up-console :
      (m : Store) (p : Ports) (t : Idt) (h : Heap) (s : Devices)
      → (set_up m p t h s).console
        ≡ set_font (some (font_6x8 font_address)) (clear (console_start m))
  unfolding init_all
  set_up-console m p t h s = refl

  -- Whatever keeps the console ready keeps the kernel booted.
  pub console-IsBooted :
      (c : Console) (k : Kernel)
      → IsBooted k
      → IsReady (font_6x8 font_address) c
      → IsBooted (record k { console = c })
  console-IsBooted c k b ready = record {
    console = ready;
    heap = b.heap;
    handlers = b.handlers;
    system_calls = b.system_calls;
    devices = b.devices;
    masked₁ = b.masked₁;
    masked₂ = b.masked₂;
  }

  -- Printing keeps the kernel booted.
  pub puts-IsBooted :
      (text : List ℕ) (k : Kernel)
      → IsBooted k
      → IsBooted (record k { console = puts text k.console })
  puts-IsBooted text k b =
      console-IsBooted (puts text k.console) k b
        (puts-IsReady (font_6x8 font_address) text k.console b.console)

  -- From any memory, tables and ports, if the table of free blocks has a slot, `_start` comes to its
  -- message and prints it. By then the console has its font and the cursor on the screen, the heap is
  -- valid, each exception and the system calls have their gates, the device table lists the devices
  -- that answer, and both interrupt controllers mask all interrupts.
  pub boot-IsBooted :
      (string_at : ℕ → List ℕ) (m : Store) (p : Ports) (t : Idt) (h : Heap) (s : Devices)
      → 0 < length h.freed
      → let k = set_up m p t h s in
        let k' = record k { console = puts greeting k.console } in
        (boot address dispatch font_address config junk string_at
            (record { console = console_start m; ports = p; idt = t; heap = h; devices = s })
          ≡ some k')
        × IsBooted k'
  unfolding boot
  boot-IsBooted string_at m p t h s room =
      let k = set_up m p t h s in
      (
        rw (printf_plain string_at greeting [] k.console (omega arith) (omega arith)) refl,
        puts-IsBooted greeting k (set_up-IsBooted m p t h s room),
      )
