-- ===== src/Kernel/Start/Listing.antt =====
-- The lines that `_start` prints for the PCI devices.
use mathlib.Core.List.{append-nil, append_assoc}
use amethyst_os_old.Base.{
  ℕ, zero, suc, ◌^◌, ◌<◌, ◌≡◌, ◌≢◌, refl, sym, ap, ◌∙◌, List, [], ◌∷◌, ◌++◌, some, arith, codes,
  true, false, ◌&&◌, ◌==◌, if◌then◌else◌, All-append, Bool-cases, inl, inr, Bool,
}
use amethyst_os_old.Libc.Number.Hex.{hex, hex-ne}
use amethyst_os_old.Kernel.Console.{Console, puts}
use amethyst_os_old.Kernel.Console.Text.{NoZero, puts-append}
use amethyst_os_old.Kernel.Pci.{
  Device, of_bits, value, pci_read, pci_vendor_id, pci_device_id, pci_prog_if, pci_subclass,
  pci_class, pci_bar0, pci_bar1,
}
use amethyst_os_old.Kernel.Pci.Read.{register, pci_read_ids, pci_read_bars}
use amethyst_os_old.Kernel.Pci.Scan.{entries}
use amethyst_os_old.Kernel.Start.{list_usb, list_class, list_device, list_devices}
use amethyst_os_old.Kernel.Start.Formats.{
  ids_text, other_text, ehci_text, xhci_text, printf_ids, printf_other, printf_ehci, printf_xhci,
}

-- The end of a device's line: nothing for a USB controller of another programming interface.
unfoldable pub class_text : ℕ → ℕ → ℕ → ℕ → ℕ → List ℕ
class_text class subclass prog_if bar0 bar1 =
    if class == 0xc && subclass == 0x3
    then (if prog_if == 0x20
        then ehci_text bar0
        else if prog_if == 0x30
        then xhci_text bar1 bar0
        else [])
    else other_text class subclass

-- A literal, a number in hexadecimal, and the rest.
part-NoZero :
    (a : List ℕ) (k n : ℕ) (r : List ℕ) → NoZero a → NoZero r → NoZero (a ++ (hex k n ++ r))
part-NoZero a k n r h h' =
    All-append (λ c. c ≢ 0) a (hex k n ++ r) h (All-append (λ c. c ≢ 0) (hex k n) r (hex-ne k n) h')

ids_text-NoZero : (v d : ℕ) → NoZero (ids_text v d)
ids_text-NoZero v d =
    part-NoZero (codes "Vendor:") 4 v (codes ", Device:" ++ (hex 4 d ++ codes ", ")) (omega arith)
      (part-NoZero (codes ", Device:") 4 d (codes ", ") (omega arith) (omega arith))

ehci_text-NoZero : (b : ℕ) → NoZero (ehci_text b)
ehci_text-NoZero b = part-NoZero (codes "EHCI:") 8 b (codes "\n") (omega arith) (omega arith)

xhci_text-NoZero : (b c : ℕ) → NoZero (xhci_text b c)
xhci_text-NoZero b c =
    part-NoZero (codes "XHCI:") 8 b (codes "." ++ (hex 8 c ++ codes "\n")) (omega arith)
      (part-NoZero (codes ".") 8 c (codes "\n") (omega arith) (omega arith))

other_text-NoZero : (c s : ℕ) → NoZero (other_text c s)
other_text-NoZero c s =
    part-NoZero (codes "Cl: ") 2 c (codes "-" ++ (hex 2 s ++ codes "\n")) (omega arith)
      (part-NoZero (codes "-") 2 s (codes "\n") (omega arith) (omega arith))

class_text-NoZero : (c s p b₀ b₁ : ℕ) → NoZero (class_text c s p b₀ b₁)
unfolding class_text
class_text-NoZero c s p b₀ b₁ =
    choose (c == 0xc && s == 0x3)
      (if p == 0x20 then ehci_text b₀ else if p == 0x30 then xhci_text b₁ b₀ else [])
      (other_text c s)
      (choose (p == 0x20) (ehci_text b₀) (if p == 0x30 then xhci_text b₁ b₀ else [])
        (ehci_text-NoZero b₀) (choose (p == 0x30) (xhci_text b₁ b₀) [] (xhci_text-NoZero b₁ b₀) tt))
      (other_text-NoZero c s)
  where
    choose : (b : Bool) (x y : List ℕ) → NoZero x → NoZero y → NoZero (if b then x else y)
    choose true x y h h' = h
    choose false x y h h' = h'

module _ (config : ℕ → ℕ) where
  -- What is printed for a device.
  abbrev pub line : Device → List ℕ
  line d =
      ids_text (register config d pci_vendor_id 2) (register config d pci_device_id 2)
      ++ class_text (register config d pci_class 1) (register config d pci_subclass 1)
          (register config d pci_prog_if 1) (register config d pci_bar0 4)
          (register config d pci_bar1 4)

  -- What is printed for devices that are given by their `bits`.
  abbrev pub listing : List ℕ → List ℕ
  listing [] = []
  listing (n ∷ l) = line (of_bits n) ++ listing l

  line-NoZero : (d : Device) → NoZero (line d)
  line-NoZero d =
      All-append (λ c. c ≢ 0) (ids_text _ _) (class_text _ _ _ _ _) (ids_text-NoZero _ _)
        (class_text-NoZero _ _ _ _ _)

  listing-append : (l r : List ℕ) → listing (l ++ r) ≡ listing l ++ listing r
  listing-append [] r = refl
  listing-append (n ∷ l) r =
      ap (λ x. line (of_bits n) ++ x) (listing-append l r)
      ∙ sym (append_assoc (line (of_bits n)) (listing l) (listing r))

  listing-NoZero : (l : List ℕ) → NoZero (listing l)
  listing-NoZero [] = tt
  listing-NoZero (n ∷ l) =
      All-append (λ c. c ≢ 0) (line (of_bits n)) (listing l) (line-NoZero (of_bits n))
        (listing-NoZero l)

module _ (string_at : ℕ → List ℕ) (config : ℕ → ℕ) where
  list_class_lem :
      (d : Device) (c s p b₀ b₁ : ℕ) (t : Console)
      → (pci_read config d pci_bar0 ≡ value b₀) × (pci_read config d pci_bar1 ≡ value b₁)
      → (b₀ < 2 ^ 32) × (b₁ < 2 ^ 32) × (c < 2 ^ 8) × (s < 2 ^ 8)
      → list_class string_at config d c s p t ≡ some (puts (class_text c s p b₀ b₁) t)
  unfolding list_class list_usb puts class_text
  list_class_lem d c s p b₀ b₁ t (e₀, e₁) (fits₀, fits₁, fits₂, fits₃) =
      elim (Bool-cases (c == 0xc && s == 0x3)) [
        | inr e ↦ rw (e, list_class, class_text) (printf_other string_at c s t fits₂ fits₃)
        | inl e ↦ elim (Bool-cases (p == 0x20)) [
          | inl e' ↦
              rw (e, e₀, e', list_class, class_text, list_usb) (printf_ehci string_at b₀ t fits₀)
          | inr e' ↦ elim (Bool-cases (p == 0x30)) [
            | inl e'' ↦
                rw (e, e₀, e', e'', e₁, list_class, class_text, list_usb)
                  (printf_xhci string_at b₁ b₀ t fits₁ fits₀)
            | inr e'' ↦ rw (e, e₀, e', e'', list_class, class_text, list_usb) refl
          ]
        ]
      ]

  module _ (word : (a : ℕ) → config a < 2 ^ 32) where
    list_device_lem :
        (d : Device) (t : Console)
        → list_device string_at config d t ≡ some (puts (line config d) t)
    unfolding list_device
    list_device_lem d t =
        let (e₁, e₂, e₃, e₄, e₅) = pci_read_ids config word d in
        let ids =
          ids_text (register config d pci_vendor_id 2) (register config d pci_device_id 2) in
        rw
          (
            e₁,
            e₂,
            e₃,
            e₄,
            e₅,
            list_device,
            printf_ids string_at (register config d pci_vendor_id 2)
                (register config d pci_device_id 2)
                (register config d pci_class 1 ∷ register config d pci_subclass 1 ∷ []) t
                (omega arith) (omega arith),
            list_class_lem d (register config d pci_class 1) (register config d pci_subclass 1)
                (register config d pci_prog_if 1) (register config d pci_bar0 4)
                (register config d pci_bar1 4) (puts ids t) (pci_read_bars config word d)
                (omega arith, omega arith, omega arith, omega arith),
          )
          (ap some (sym (puts-append ids (class_text _ _ _ _ _) t (ids_text-NoZero _ _))))

    -- The loop prints the lines of the devices of the table, in order.
    pub list_devices_lem :
        (n : ℕ) (entry : ℕ → ℕ) (t : Console)
        → list_devices string_at config n entry t ≡ some (puts (listing config (entries n entry)) t)
    unfolding list_devices
    list_devices_lem zero entry t = unfold puts in refl
    list_devices_lem (suc n) entry t =
        let last = of_bits (entry n) in
        rw
          (
            list_devices_lem n entry t,
            list_devices,
            list_device_lem last (puts (listing config (entries n entry)) t),
            listing-append config (entries n entry) (entry n ∷ []),
            puts-append (listing config (entries n entry)) (line config last ++ []) t
                (listing-NoZero config (entries n entry)),
            append-nil (line config last),
          )
          refl
