-- ===== src/Kernel/Pci/Tests.antt =====
-- A machine with one PCI device, and the theorems there.
use amethyst_os_old.Base.{ℕ, ◌+◌, ◌*◌, ◌^◌, ◌≤◌, ◌≡◌, refl, ◌==◌, if◌then◌else◌}
use amethyst_os_old.Kernel.Pci.{
  Device, Devices, value, halted, config_address, pick, pci_size_map, pci_read, pci_init,
  dev_max_count,
}
use amethyst_os_old.Kernel.Pci.Scan.{entries, present, pci_init_lem}

-- Slot 3 of bus 0 holds device 0x100e of vendor 0x8086.
abbrev machine : ℕ → ℕ
machine a = if a == 2 ^ 31 + 2 ^ 11 * 3 then 0x100e_8086 else 0xffff_ffff

abbrev blank : Device
blank = record {
  zero_bits = 0;
  field = 0;
  function = 0;
  slot = 0;
  bus = 0;
  reserved = 0;
  enable = 0;
}

abbrev card : Device
card = record blank { slot = 3 }

device_id : pci_read machine card 2 ≡ value 0x100e
unfolding pci_read pci_size_map config_address pick
device_id = refl

no_such_field : pci_read machine card 1 ≡ halted
unfolding pci_read pci_size_map config_address pick
no_such_field = refl

abbrev nothing : Devices
nothing = record { count = 0; entry = λ i. 0 }

pci_init_lem_example :
    (entries (pci_init machine blank nothing).count (pci_init machine blank nothing).entry
      ≡ present machine blank dev_max_count)
    × ((pci_init machine blank nothing).count ≤ dev_max_count)
pci_init_lem_example = pci_init_lem machine blank nothing
