-- ===== src/Kernel/Syscalls/Printed.antt =====
-- What the system calls print.
use mathlib.Core.List.{append_assoc}
use amethyst_os_old.Base.{
  ℕ, ◌%◌, ◌^◌, ◌≤◌, ◌<◌, ◌≡◌, refl, List, [], ◌∷◌, ◌++◌, none, some, arith, codes, length-append,
  ◌==◌, ◌≢◌, All, All-append, get_elem?, if◌then◌else◌,
}
use amethyst_os_old.Libc.Strings.{isdigit}
use amethyst_os_old.Libc.Number.{number}
use amethyst_os_old.Libc.Number.Signed.{decimal, decimal-ne, number_text_signed, decimal_short}
use amethyst_os_old.Libc.Directive.{read_flags, read_width, read_precision, read_qualifier, is_flag}
use amethyst_os_old.Libc.Format.{
  vsprintf, format_loop, directive, switch, with_arg, convert, integer_case, takes_arg, narrow,
}
use amethyst_os_old.Kernel.Isr.Report.{printf_plain, printf_text}
use amethyst_os_old.Kernel.Console.{Console, puts}
use amethyst_os_old.Kernel.Syscalls.{
  example1, example2, syscall_list, dispatch, call, _example1, _example2,
}

abbrev pub example1_text : List ℕ
example1_text = codes "Example 1 has been called!\n"

abbrev pub example2_text : ℕ → List ℕ
example2_text ebx =
    codes "Example 2 has been called and the argument is " ++ (decimal ebx ++ codes "!\n")

pub example2_text-NoZero : (ebx : ℕ) → All (λ c. c ≢ 0) (example2_text ebx)
example2_text-NoZero ebx =
    All-append (λ c. c ≢ 0) (codes "Example 2 has been called and the argument is ")
      (decimal ebx ++ codes "!\n") (omega arith)
      (All-append (λ c. c ≢ 0) (decimal ebx) (codes "!\n") (decimal-ne ebx) (omega arith))

module _ (string_at : ℕ → List ℕ) where
  format_example2 :
      (ebx : ℕ)
      → ebx < 2 ^ 32
      → vsprintf string_at (codes "Example 2 has been called and the argument is %d!\n") (ebx ∷ [])
        ≡ some (record { text = example2_text ebx; args = []; stores = [] })
  unfolding vsprintf format_loop directive switch with_arg convert integer_case takes_arg narrow
      number read_flags read_width read_precision read_qualifier is_flag isdigit
  format_example2 ebx lt = rw (number_text_signed ebx lt) (simp append_assoc)

  _example2_lem :
      (ebx : ℕ) (t : Console)
      → ebx < 2 ^ 32
      → _example2 string_at ebx t ≡ some (puts (example2_text ebx) t)
  unfolding _example2
  _example2_lem ebx t lt =
      printf_text string_at _ (ebx ∷ []) _ (example2_text ebx) t (format_example2 ebx lt) refl
        (omega (arith, decimal_short ebx, length-append (decimal ebx) (codes "!\n")))

  first_lem :
      (eax ebx : ℕ) (t : Console)
      → eax % 2 ^ 16 ≡ 0
      → dispatch string_at eax ebx t ≡ some (puts example1_text t)
  unfolding dispatch syscall_list call _example1
  first_lem eax ebx t e =
      rw (e, dispatch) (printf_plain string_at example1_text [] t (omega arith) (omega arith))

  second_lem :
      (eax ebx : ℕ) (t : Console)
      → ebx < 2 ^ 32
      → eax % 2 ^ 16 ≡ 1
      → dispatch string_at eax ebx t ≡ some (puts (example2_text ebx) t)
  unfolding dispatch syscall_list call
  second_lem eax ebx t lt e = rw (e, dispatch) (_example2_lem ebx t lt)

  past_lem : (eax ebx : ℕ) (t : Console) → 2 ≤ eax % 2 ^ 16 → dispatch string_at eax ebx t ≡ none
  unfolding dispatch syscall_list
  past_lem eax ebx t le = rw (past (eax % 2 ^ 16) le, dispatch) refl
    where
      past : (n : ℕ) → 2 ≤ n → get_elem? (example1 ∷ example2 ∷ []) n ≡ none
      past n le = ground arith

  -- System call 0 prints its message, and system call 1 prints the word in EBX as a signed number,
  -- whatever the upper half of EAX holds. A call of any other number is undefined.
  pub dispatch_lem :
      (eax ebx : ℕ) (t : Console)
      → ebx < 2 ^ 32
      → dispatch string_at eax ebx t ≡ (
          if eax % 2 ^ 16 == 0
          then some (puts example1_text t)
          else if eax % 2 ^ 16 == 1
          then some (puts (example2_text ebx) t)
          else none)
  dispatch_lem eax ebx t lt =
      ground (arith, first_lem eax ebx t, second_lem eax ebx t lt, past_lem eax ebx t)
