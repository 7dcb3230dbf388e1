-- ===== src/Kernel/Pci/Read.antt =====
-- What `pci_read` returns.
use amethyst_os_old.Base.{
  ℕ, zero, suc, ◌+◌, ◌*◌, ◌/◌, ◌%◌, ◌^◌, ◌<◌, ◌≡◌, ◌≢◌, ◌⊎◌, inl, inr, refl, ap, Bool, true, ◌&&◌,
  ◌||◌, List, [], ◌∷◌, some, arith, ◌==◌, get_elem?,
}
use amethyst_os_old.Kernel.Pci.{
  Device, pci_size_map, value, config_address, pick, pci_read, pci_vendor_id, pci_device_id,
  pci_prog_if, pci_subclass, pci_class, pci_bar0, pci_bar1,
}

-- Each size of the table from index `i` on suits the alignment of its field.
aligned : ℕ → List ℕ → Bool
aligned i [] = true
aligned i (size ∷ l) =
    (size == 0 || size == 1 || (size == 2 && (i % 2 == 0)) || (size == 4 && (i % 4 == 0)))
    && aligned (i + 1) l

abbrev IsAligned : ℕ → ℕ → Type 0
IsAligned field size =
    (size ≡ 0) ⊎ (size ≡ 1) ⊎ ((size ≡ 2) × (field % 2 ≡ 0)) ⊎ ((size ≡ 4) × (field % 4 ≡ 0))

aligned_at :
    (l : List ℕ) (i k size : ℕ)
    → aligned i l ≡ true
    → get_elem? l k ≡ some size
    → IsAligned (i + k) size
unfolding aligned
aligned_at [] i k size a e = cc
aligned_at (s ∷ l) i zero size a e = ground arith
aligned_at (s ∷ l) i (suc k) size a e =
    let p : i + 1 + k ≡ i + suc k = omega arith in
    rw p at (aligned_at l (i + 1) k size (ground arith) e)

size_map_aligned : aligned 0 pci_size_map ≡ true
unfolding aligned pci_size_map
size_map_aligned = refl

field-IsAligned : (field size : ℕ) → get_elem? pci_size_map field ≡ some size → IsAligned field size
field-IsAligned field size e =
    let start : 0 + field ≡ field = omega arith in
    rw start at (aligned_at pci_size_map 0 field size size_map_aligned e)

pick_lem :
    (size field w : ℕ)
    → IsAligned field size
    → size ≢ 0
    → w < 2 ^ 32
    → pick size field w ≡ value (w / 2 ^ (field % 4 * 8) % 2 ^ (size * 8))
unfolding pick
pick_lem size field w (inl e) ne fits = absurd (ne e)
pick_lem size field w (inr (inl e)) ne fits = rw e
pick_lem size field w (inr (inr (inl (e, even)))) ne fits =
    let shift : field / 2 % 2 * 2 * 8 ≡ field % 4 * 8 = omega arith in rw (e, shift)
pick_lem size field w (inr (inr (inr (e, multiple)))) ne fits =
    rw (e, multiple) (ap value (omega arith))

pub pci_read_lem :
    (config : ℕ → ℕ) (dev : Device) (field size : ℕ)
    → ((a : ℕ) → config a < 2 ^ 32)
    → get_elem? pci_size_map field ≡ some size
    → size ≢ 0
    → pci_read config dev field
      ≡ value (config (config_address dev field) / 2 ^ (field % 4 * 8) % 2 ^ (size * 8))
unfolding pci_read
pci_read_lem config dev field size word e ne =
    rw (e, pci_read)
      (pick_lem size field (config (config_address dev field)) (field-IsAligned field size e) ne
        (word (config_address dev field)))

-- The register of `size` bytes at `field` in the configuration space of a device.
abbrev pub register : (ℕ → ℕ) → Device → ℕ → ℕ → ℕ
register config d field size =
    config (config_address d field) / 2 ^ (field % 4 * 8) % 2 ^ (size * 8)

-- The registers that `_start` reads.
module _ (config : ℕ → ℕ) (word : (a : ℕ) → config a < 2 ^ 32) (d : Device) where
  pub pci_read_ids :
      (pci_read config d pci_vendor_id ≡ value (register config d pci_vendor_id 2))
      × (pci_read config d pci_device_id ≡ value (register config d pci_device_id 2))
      × (pci_read config d pci_class ≡ value (register config d pci_class 1))
      × (pci_read config d pci_subclass ≡ value (register config d pci_subclass 1))
      × (pci_read config d pci_prog_if ≡ value (register config d pci_prog_if 1))
  unfolding pci_size_map
  pci_read_ids = (
    pci_read_lem config d pci_vendor_id 2 word refl (omega arith),
    pci_read_lem config d pci_device_id 2 word refl (omega arith),
    pci_read_lem config d pci_class 1 word refl (omega arith),
    pci_read_lem config d pci_subclass 1 word refl (omega arith),
    pci_read_lem config d pci_prog_if 1 word refl (omega arith),
  )

  pub pci_read_bars :
      (pci_read config d pci_bar0 ≡ value (register config d pci_bar0 4))
      × (pci_read config d pci_bar1 ≡ value (register config d pci_bar1 4))
  unfolding pci_size_map
  pci_read_bars = (
    pci_read_lem config d pci_bar0 4 word refl (omega arith),
    pci_read_lem config d pci_bar1 4 word refl (omega arith),
  )
