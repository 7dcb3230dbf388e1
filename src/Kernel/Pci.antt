-- ===== src/Kernel/Pci.antt =====
-- src/kernel/src/kernel/pci.c and src/kernel/include/kernel/pci.h: reading the PCI configuration space and
-- listing the devices. The hardware is the parameter `config`: what a read of port 0xCFC gives after
-- an address is written to port 0xCF8.
pub mod Bits
pub mod Read
pub mod Scan
mod Tests
use amethyst_os_old.Base.{
  ℕ, ◌+◌, ◌*◌, ◌/◌, ◌%◌, ◌^◌, Bool, false, some, none, List, [], ◌∷◌, ◌++◌, ◌==◌, if◌then◌else◌,
  for_to, get_elem?, replicate,
}

-- The bit fields of `pci_device_t`.
pub record Device : Type 0 where
  pub zero_bits : ℕ
  pub field : ℕ
  pub function : ℕ
  pub slot : ℕ
  pub bus : ℕ
  pub reserved : ℕ
  pub enable : ℕ

-- The other member of the union: the fields from the lowest bit on.
abbrev pub bits : Device → ℕ
bits d =
    d.zero_bits
    + 2 ^ 2 * d.field
    + 2 ^ 8 * d.function
    + 2 ^ 11 * d.slot
    + 2 ^ 16 * d.bus
    + 2 ^ 24 * d.reserved
    + 2 ^ 31 * d.enable

-- The fields of a device from its `bits`.
abbrev pub of_bits : ℕ → Device
of_bits n = record {
  zero_bits = n % 4;
  field = n / 2 ^ 2 % 64;
  function = n / 2 ^ 8 % 8;
  slot = n / 2 ^ 11 % 32;
  bus = n / 2 ^ 16 % 256;
  reserved = n / 2 ^ 24 % 128;
  enable = n / 2 ^ 31 % 2;
}

-- `PCI_VENDOR_NONE`, `PCI_BUS_COUNT`, `PCI_DEV_PER_BUS`, `PCI_FUNC_PER_DEV`, `PCI_DEV_MAX_COUNT`
abbrev pub vendor_none : ℕ
vendor_none = 0xffff

abbrev pub bus_count : ℕ
bus_count = 256

abbrev pub dev_per_bus : ℕ
dev_per_bus = 32

abbrev pub func_per_dev : ℕ
func_per_dev = 8

abbrev pub dev_max_count : ℕ
dev_max_count = bus_count * dev_per_bus * func_per_dev

-- `pci_size_map`, with the zeros of the fields that it does not name.
pub pci_size_map : List ℕ
pci_size_map =
    2
    ∷ 0
    ∷ 2
    ∷ 0
    ∷ 2
    ∷ 0
    ∷ 2
    ∷ 0
    ∷ 1
    ∷ 1
    ∷ 1
    ∷ 1
    ∷ 1
    ∷ 1
    ∷ 1
    ∷ 1
    ∷ 4
    ∷ 0
    ∷ 0
    ∷ 0
    ∷ 4
    ∷ 0
    ∷ 0
    ∷ 0
    ∷ 4
    ∷ 0
    ∷ 0
    ∷ 0
    ∷ 4
    ∷ 0
    ∷ 0
    ∷ 0
    ∷ 4
    ∷ 0
    ∷ 0
    ∷ 0
    ∷ 4
    ∷ (replicate 23 0 ++ 1 ∷ [])

-- The offsets of pci.h that `_start` reads.
abbrev pub pci_vendor_id : ℕ
pci_vendor_id = 0x00

abbrev pub pci_device_id : ℕ
pci_device_id = 0x02

abbrev pub pci_prog_if : ℕ
pci_prog_if = 0x09

abbrev pub pci_subclass : ℕ
pci_subclass = 0x0a

abbrev pub pci_class : ℕ
pci_class = 0x0b

abbrev pub pci_bar0 : ℕ
pci_bar0 = 0x10

abbrev pub pci_bar1 : ℕ
pci_bar1 = 0x14

-- What `pci_read` does: it returns a value, or it prints and halts, or it reads past the end of
-- `pci_size_map`, which is undefined.
pub data PciRead : Type 0 where
  value : ℕ → PciRead
  halted : PciRead
  undefined : PciRead

-- The address that `pci_read` writes to the port. A bit field keeps the low bits of its value.
unfoldable pub config_address : Device → ℕ → ℕ
config_address dev field = bits (record dev { enable = 1; field = field / 4 % 64 })

-- The cases of its `switch`, on the double word that it read.
pub pick : ℕ → ℕ → ℕ → PciRead
pick size field word =
    if size == 1
    then value (word / 2 ^ (field % 4 * 8) % 256)
    else if size == 2
    then value (word / 2 ^ (field / 2 % 2 * 2 * 8) % 65536)
    else if size == 4
    then value word
    else halted

module _ (config : ℕ → ℕ) where
  pub pci_read : Device → ℕ → PciRead
  pci_read dev field = elim (get_elem? pci_size_map field) [
    | none ↦ undefined
    | some size ↦ pick size field (config (config_address dev field))
  ]

-- `pciDeviceCount` and `pciDevices`, whose elements are the `bits` of the devices.
pub record Devices : Type 0 where
  pub count : ℕ
  pub entry : ℕ → ℕ

pub pci_add_device : Device → Devices → Devices
pci_add_device dev s = record {
  count = s.count + 1;
  entry = λ i. if i == s.count then bits dev else s.entry i;
}

-- `== PCI_VENDOR_NONE`, on the result of a read.
pub is_none : PciRead → Bool
is_none (value v) = v == vendor_none
is_none halted = false
is_none undefined = false

-- The device of the loops: `junk` is the uninitialised variable, whose other fields stay.
abbrev pub probe : Device → ℕ → ℕ → ℕ → Device
probe junk bus slot fn = record junk { bus = bus % 256; slot = slot % 32; function = fn % 8 }

module _ (config : ℕ → ℕ) (junk : Device) where
  -- The body of the innermost loop.
  pub scan_function : ℕ → ℕ → ℕ → Devices → Devices
  scan_function bus slot fn s =
      if is_none (pci_read config (probe junk bus slot fn) 0)
      then s
      else pci_add_device (probe junk bus slot fn) s

  pub scan_slot : ℕ → ℕ → Devices → Devices
  scan_slot bus slot s = for_to func_per_dev (scan_function bus slot) s

  pub scan_bus : ℕ → Devices → Devices
  scan_bus bus s = for_to dev_per_bus (scan_slot bus) s

  -- The scan of the first `n` buses.
  pub scan_buses : ℕ → Devices → Devices
  scan_buses n s = for_to n scan_bus (record s { count = 0 })

  pub pci_scan : Devices → Devices
  pci_scan s = scan_buses bus_count s

  pub pci_init : Devices → Devices
  pci_init s = pci_scan s
