-- ===== src/Kernel/Pci/Scan.antt =====
-- `pci_scan` lists the devices that are present, in order.
use amethyst_os_old.Base.{
  ℕ, Bool, zero, suc, ◌+◌, ◌*◌, ◌/◌, ◌%◌, ◌≤◌, ◌<◌, ◌≡◌, refl, ap, ap₂, ◌∙◌, List, [], ◌∷◌, ◌++◌,
  arith, ◌==◌, if◌then◌else◌, for_to, Bool-cases, inl, inr,
}
use amethyst_os_old.Kernel.Pci.{
  Device, bits, Devices, pci_add_device, is_none, config_address, pick, pci_size_map, probe,
  pci_read, scan_function, scan_slot, scan_bus, pci_scan, pci_init, scan_buses, bus_count,
  dev_max_count,
}

-- The first `n` elements of `pciDevices`.
abbrev pub entries : ℕ → (ℕ → ℕ) → List ℕ
entries zero e = []
entries (suc n) e = entries n e ++ e n ∷ []

entries_set :
    (k n v : ℕ) (e : ℕ → ℕ) → k ≤ n → entries k (λ i. if i == n then v else e i) ≡ entries k e
entries_set zero n v e le = refl
entries_set (suc k) n v e le = ground (arith, entries_set k n v e)

entries_add :
    (n v : ℕ) (e : ℕ → ℕ) → entries (n + 1) (λ i. if i == n then v else e i) ≡ entries n e ++ v ∷ []
entries_add n v e =
    let next : n + 1 ≡ suc n = omega arith in rw next (ground (arith, entries_set n n v e))

module _ (config : ℕ → ℕ) (junk : Device) where
  -- The device of number `k`: eight functions to a slot, and 32 slots to a bus.
  abbrev pub numbered : ℕ → Device
  numbered k = probe junk (k / 256) (k / 8 % 32) (k % 8)

  probe-numbered :
      (bus slot n : ℕ)
      → slot < 32
      → n < 8
      → probe junk bus slot n ≡ numbered (bus * 256 + slot * 8 + n)
  probe-numbered bus slot n small le = ground arith

  -- The first double word of a device has its vendor in the low half: 0xffff for no device.
  abbrev pub absent : Device → Bool
  absent dev = config (config_address dev 0) % 0x10000 == 0xffff

  absent_lem : (dev : Device) → is_none (pci_read config dev 0) ≡ absent dev
  unfolding is_none pci_read pci_size_map pick
  absent_lem dev = ground arith

  -- The devices that answer among the first `n`, as `bits`.
  pub present : ℕ → List ℕ
  present zero = []
  present (suc n) = if absent (numbered n) then present n else present n ++ bits (numbered n) ∷ []

  -- The devices listed so far are those that answer among the first `n`, and `n` at most.
  record Lists (n : ℕ) (s : Devices) : Type 0 where
    same : entries s.count s.entry ≡ present n
    few : s.count ≤ n

  step-Lists :
      (n bus slot fn : ℕ) (s : Devices)
      → probe junk bus slot fn ≡ numbered n
      → Lists n s
      → Lists (suc n) (scan_function config junk bus slot fn s)
  unfolding scan_function pci_add_device present
  step-Lists n bus slot fn s e h = elim (Bool-cases (absent (numbered n))) [
    | inl t ↦
        rw (e, absent_lem (numbered n), t)
          (record { same = rw t h.same; few = omega (arith, h.few) })
    | inr t ↦
        rw (e, absent_lem (numbered n), t)
          (record {
            same = rw t (
                entries_add s.count (bits (probe junk bus slot fn)) s.entry
                ∙ ap₂ ◌++◌ h.same (ap (λ d. bits d ∷ []) e));
            few = omega (arith, h.few);
          })
  ]

  scan_slot-Lists :
      (bus slot n : ℕ) (s : Devices)
      → slot < 32
      → n ≤ 8
      → Lists (bus * 256 + slot * 8) s
      → Lists (bus * 256 + slot * 8 + n) (for_to n (scan_function config junk bus slot) s)
  scan_slot-Lists bus slot zero s small le h =
      let same : bus * 256 + slot * 8 + 0 ≡ bus * 256 + slot * 8 = omega arith in rw same h
  scan_slot-Lists bus slot (suc n) s small le h =
      let next : bus * 256 + slot * 8 + suc n ≡ suc (bus * 256 + slot * 8 + n) = omega arith in
      rw next (
        step-Lists (bus * 256 + slot * 8 + n) bus slot n
          (for_to n (scan_function config junk bus slot) s)
          (probe-numbered bus slot n small (omega arith))
          (scan_slot-Lists bus slot n s small (omega arith) h))

  scan_bus-Lists :
      (bus n : ℕ) (s : Devices)
      → n ≤ 32
      → Lists (bus * 256) s
      → Lists (bus * 256 + n * 8) (for_to n (scan_slot config junk bus) s)
  unfolding scan_slot
  scan_bus-Lists bus zero s le h =
      let same : bus * 256 + 0 * 8 ≡ bus * 256 = omega arith in rw same h
  scan_bus-Lists bus (suc n) s le h =
      let next : bus * 256 + suc n * 8 ≡ bus * 256 + n * 8 + 8 = omega arith in
      rw next (
        scan_slot-Lists bus n 8 (for_to n (scan_slot config junk bus) s) (omega arith) (omega arith)
          (scan_bus-Lists bus n s (omega arith) h))

  scan_buses-Lists : (n : ℕ) (s : Devices) → Lists (n * 256) (scan_buses config junk n s)
  unfolding scan_buses scan_bus present
  scan_buses-Lists zero s =
      let same : 0 * 256 ≡ 0 = omega arith in rw same (record { same = refl; few = omega arith })
  scan_buses-Lists (suc n) s =
      let next : suc n * 256 ≡ n * 256 + 32 * 8 = omega arith in
      rw next
        (scan_bus-Lists n 32 (scan_buses config junk n s) (omega arith) (scan_buses-Lists n s))

  -- After `pci_init` the table holds exactly the devices that answer, in the order of their buses,
  -- slots and functions, whatever it held before, and they fit in it.
  pub pci_init_lem :
      (s : Devices)
      → (entries (pci_init config junk s).count (pci_init config junk s).entry
          ≡ present dev_max_count)
        × ((pci_init config junk s).count ≤ dev_max_count)
  unfolding pci_init pci_scan
  pci_init_lem s = let v = scan_buses-Lists bus_count s in (v.same, v.few)
