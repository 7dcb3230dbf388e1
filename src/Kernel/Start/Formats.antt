-- ===== src/Kernel/Start/Formats.antt =====
-- The texts that `_start` prints for a PCI device, format by format.
use mathlib.Core.List.{append_assoc}
use amethyst_os_old.Base.{ℕ, ◌^◌, ◌<◌, ◌≡◌, refl, List, [], ◌∷◌, ◌++◌, some, arith, codes}
use amethyst_os_old.Base.Int.{pos, negsuc}
use amethyst_os_old.Libc.Strings.{isdigit}
use amethyst_os_old.Libc.Number.{number, number_text}
use amethyst_os_old.Libc.Number.Hex.{hex, zero_flags, number_text-hex}
use amethyst_os_old.Libc.Directive.{
  read_flags, read_width, read_precision, read_qualifier, is_flag, add_flag, skip_atoi,
}
use amethyst_os_old.Libc.Format.{
  vsprintf, format_loop, directive, switch, with_arg, convert, integer_case, takes_arg, narrow,
}
use amethyst_os_old.Kernel.Isr.{printf}
use amethyst_os_old.Kernel.Isr.Report.{printf_text}
use amethyst_os_old.Kernel.Console.{Console, puts}

-- A number as `%0kX` prints it.
abbrev padded : ℕ → ℕ → List ℕ
padded k n = number_text n 16 (pos k) (negsuc 0) zero_flags

-- The texts, from the numbers.
abbrev pub ids_text : ℕ → ℕ → List ℕ
ids_text v d = codes "Vendor:" ++ (hex 4 v ++ (codes ", Device:" ++ (hex 4 d ++ codes ", ")))

abbrev pub other_text : ℕ → ℕ → List ℕ
other_text c s = codes "Cl: " ++ (hex 2 c ++ (codes "-" ++ (hex 2 s ++ codes "\n")))

abbrev pub ehci_text : ℕ → List ℕ
ehci_text b = codes "EHCI:" ++ (hex 8 b ++ codes "\n")

abbrev pub xhci_text : ℕ → ℕ → List ℕ
xhci_text b c = codes "XHCI:" ++ (hex 8 b ++ (codes "." ++ (hex 8 c ++ codes "\n")))

module _ (string_at : ℕ → List ℕ) where
  format_ids :
      (v d : ℕ) (more : List ℕ)
      → vsprintf string_at (codes "Vendor:%04X, Device:%04X, ") (v ∷ d ∷ more)
        ≡ some (record {
          text =
              codes "Vendor:" ++ (padded 4 v ++ (codes ", Device:" ++ (padded 4 d ++ codes ", ")));
          args = more;
          stores = [];
        })
  unfolding vsprintf format_loop directive switch with_arg convert integer_case takes_arg narrow
      number read_flags read_width read_precision read_qualifier is_flag isdigit skip_atoi add_flag
  format_ids v d more = simp append_assoc

  format_class :
      (c s : ℕ)
      → vsprintf string_at (codes "Cl: %02X-%02X\n") (c ∷ s ∷ [])
        ≡ some (record {
          text = codes "Cl: " ++ (padded 2 c ++ (codes "-" ++ (padded 2 s ++ codes "\n")));
          args = [];
          stores = [];
        })
  unfolding vsprintf format_loop directive switch with_arg convert integer_case takes_arg narrow
      number read_flags read_width read_precision read_qualifier is_flag isdigit skip_atoi add_flag
  format_class c s = simp append_assoc

  format_ehci :
      (b : ℕ)
      → vsprintf string_at (codes "EHCI:%08X\n") (b ∷ [])
        ≡ some
            (record { text = codes "EHCI:" ++ (padded 8 b ++ codes "\n"); args = []; stores = [] })
  unfolding vsprintf format_loop directive switch with_arg convert integer_case takes_arg narrow
      number read_flags read_width read_precision read_qualifier is_flag isdigit skip_atoi add_flag
  format_ehci b = simp append_assoc

  format_xhci :
      (b c : ℕ)
      → vsprintf string_at (codes "XHCI:%08X.%08X\n") (b ∷ c ∷ [])
        ≡ some (record {
          text = codes "XHCI:" ++ (padded 8 b ++ (codes "." ++ (padded 8 c ++ codes "\n")));
          args = [];
          stores = [];
        })
  unfolding vsprintf format_loop directive switch with_arg convert integer_case takes_arg narrow
      number read_flags read_width read_precision read_qualifier is_flag isdigit skip_atoi add_flag
  format_xhci b c = simp append_assoc

  pub printf_ids :
      (v d : ℕ) (more : List ℕ) (t : Console)
      → v < 2 ^ 16
      → d < 2 ^ 16
      → printf string_at (codes "Vendor:%04X, Device:%04X, ") (v ∷ d ∷ more) t
        ≡ some (puts (ids_text v d) t)
  printf_ids v d more t fits fits' =
      printf_text string_at _ (v ∷ d ∷ more) _ (ids_text v d) t (format_ids v d more)
        (rw
          (
            number_text-hex 4 v (omega arith) (omega arith) (omega arith),
            number_text-hex 4 d (omega arith) (omega arith) (omega arith),
          )
          refl)
        (omega arith)

  pub printf_other :
      (c s : ℕ) (t : Console)
      → c < 2 ^ 8
      → s < 2 ^ 8
      → printf string_at (codes "Cl: %02X-%02X\n") (c ∷ s ∷ []) t ≡ some (puts (other_text c s) t)
  printf_other c s t fits fits' =
      printf_text string_at _ (c ∷ s ∷ []) _ (other_text c s) t (format_class c s)
        (rw
          (
            number_text-hex 2 c (omega arith) (omega arith) (omega arith),
            number_text-hex 2 s (omega arith) (omega arith) (omega arith),
          )
          refl)
        (omega arith)

  pub printf_ehci :
      (b : ℕ) (t : Console)
      → b < 2 ^ 32
      → printf string_at (codes "EHCI:%08X\n") (b ∷ []) t ≡ some (puts (ehci_text b) t)
  printf_ehci b t fits =
      printf_text string_at _ (b ∷ []) _ (ehci_text b) t (format_ehci b)
        (rw (number_text-hex 8 b (omega arith) (omega arith) (omega arith)) refl) (omega arith)

  pub printf_xhci :
      (b c : ℕ) (t : Console)
      → b < 2 ^ 32
      → c < 2 ^ 32
      → printf string_at (codes "XHCI:%08X.%08X\n") (b ∷ c ∷ []) t ≡ some (puts (xhci_text b c) t)
  printf_xhci b c t fits fits' =
      printf_text string_at _ (b ∷ c ∷ []) _ (xhci_text b c) t (format_xhci b c)
        (rw
          (
            number_text-hex 8 b (omega arith) (omega arith) (omega arith),
            number_text-hex 8 c (omega arith) (omega arith) (omega arith),
          )
          refl)
        (omega arith)
