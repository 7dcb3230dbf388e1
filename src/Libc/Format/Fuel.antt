-- ===== src/Libc/Format/Fuel.antt =====
-- `vsprintf` ends: with an argument for each `%` and each `*` of the format it always produces a text.
use amethyst_os_old.Base.{
  ℕ, zero, suc, ◌+◌, ◌-◌, ◌*◌, ◌≤◌, ◌≡◌, ◌≢◌, refl, true, Option, none, some, List, [], ◌∷◌, arith,
  ◌==◌, ◌||◌, if◌then◌else◌, length, Bool-cases, Option-cases, inl, inr,
}
use amethyst_os_old.Libc.Number.{Flags, number}
use amethyst_os_old.Libc.Directive.{
  Directive, no_flags, add_flag, head_or, tail, skip_atoi, read_flags, read_width, read_digits,
  read_precision, read_qualifier, star_width,
}
use amethyst_os_old.Libc.Format.{
  Output, fresh, emit, convert, switch, directive, format_loop, vsprintf, takes_arg, with_arg,
  integer_case,
}

-- How many arguments a format takes at most: one for each `%` and each `*`.
abbrev pub needs : List ℕ → ℕ
needs [] = 0
needs (c ∷ s) = (if c == b'%' || c == b'*' then 1 else 0) + needs s

skip_atoi-le :
    (s : List ℕ) (i : ℕ)
    → (length (skip_atoi s i).1 ≤ length s) × (needs (skip_atoi s i).1 ≤ needs s)
unfolding skip_atoi
skip_atoi-le [] i = (omega arith, omega arith)
skip_atoi-le (c ∷ s) i = ground (arith, skip_atoi-le s (i * 10 + (c - b'0')))

read_flags-le :
    (s : List ℕ) (f : Flags)
    → (length (read_flags s f).1 ≤ length s) × (needs (read_flags s f).1 ≤ needs s)
unfolding read_flags
read_flags-le [] f = (omega arith, omega arith)
read_flags-le (c ∷ s) f = ground (arith, read_flags-le s (add_flag c f))

-- There is an argument for the directive itself, and for all that is left of the format.
abbrev Covered : Directive → Type 0
Covered d = needs d.fmt + 1 ≤ length d.args

-- A step succeeds, adds no characters, and leaves arguments enough.
abbrev Reads : Directive → Option Directive → Type 0
Reads d none = ⊥
Reads d (some d') = (length d'.fmt ≤ length d.fmt) × Covered d'

tail_shorter :
    (s : List ℕ) (c : ℕ)
    → c ≢ 0
    → head_or s ≡ c
    → (length (tail s) + 1 ≡ length s)
      × (needs s ≡ (if c == b'%' || c == b'*' then 1 else 0) + needs (tail s))
tail_shorter [] c ne e = absurd (ne (omega arith))
tail_shorter (x ∷ s) c ne e = ground arith

read_width-Reads : (d : Directive) → Covered d → Reads d (read_width d)
unfolding read_width star_width
read_width-Reads d h = ground (arith, skip_atoi-le d.fmt 0, tail_shorter d.fmt b'*')

read_digits-Reads : (d : Directive) → Covered d → Reads d (read_digits d)
unfolding read_digits
read_digits-Reads d h = ground (arith, skip_atoi-le d.fmt 0, tail_shorter d.fmt b'*')

read_precision-Reads : (d : Directive) → Covered d → Reads d (read_precision d)
unfolding read_precision
read_precision-Reads d h = elim (Bool-cases (head_or d.fmt == b'.')) [
  | inl e ↦
      let dot = tail_shorter d.fmt b'.' (omega arith) (ground arith) in
      rw e (
        after_dot (read_digits (record d { fmt = tail d.fmt }))
          (read_digits-Reads (record d { fmt = tail d.fmt }) (omega arith)) (omega arith))
  | inr e ↦ rw e (omega arith)
]
  where
    after_dot :
        (r : Option Directive)
        → Reads (record d { fmt = tail d.fmt }) r
        → length (tail d.fmt) ≤ length d.fmt
        → Reads d r
    after_dot none g le = g
    after_dot (some d') g le = omega arith

read_qualifier-Reads : (d : Directive) → Covered d → Reads d (some (read_qualifier d))
unfolding read_qualifier
read_qualifier-Reads d h =
    ground (arith, tail_shorter d.fmt b'h', tail_shorter d.fmt b'l', tail_shorter d.fmt b'L')

-- A directive that succeeds on the format `n` characters long.
abbrev Goes : ℕ → Option (Output × List ℕ) → Type 0
Goes n none = ⊥
Goes n (some (o, s)) = (length s ≤ n) × (needs s ≤ length o.args)

Goes-mono : {m n : ℕ} (r : Option (Output × List ℕ)) → m ≤ n → Goes m r → Goes n r
Goes-mono none le g = g
Goes-mono (some (o, s)) le g = (omega arith, g.1)

-- A conversion succeeds, and leaves the arguments that it is told to.
abbrev Leaves : List ℕ → Option Output → Type 0
Leaves args none = ⊥
Leaves args (some o) = o.args ≡ args

convert-Leaves :
    (string_at : ℕ → List ℕ) (d : Directive) (c w : ℕ) (args : List ℕ) (o : Output)
    → takes_arg c ≡ true
    → Leaves args (convert string_at d c w args o)
unfolding convert takes_arg integer_case number
convert-Leaves string_at d c w args o t = ground arith

tail-le : (s : List ℕ) → (length (tail s) ≤ length s) × (needs (tail s) ≤ needs s)
tail-le [] = (omega arith, omega arith)
tail-le (c ∷ s) = (omega arith, omega arith)

with_arg-Goes :
    (string_at : ℕ → List ℕ) (d : Directive) (c n : ℕ) (args : List ℕ) (o : Output)
    → takes_arg c ≡ true
    → length (tail d.fmt) ≤ n
    → needs (tail d.fmt) + 1 ≤ length args
    → Goes n (with_arg string_at d c args o)
unfolding with_arg
with_arg-Goes string_at d c n [] o t e le = absurd (omega arith)
with_arg-Goes string_at d c n (w ∷ args) o t e le =
    ground (arith, convert-Leaves string_at d c w args o t)

switch-Goes :
    (string_at : ℕ → List ℕ) (d : Directive) (o : Output)
    → Covered d
    → Goes (length d.fmt) (switch string_at d o)
unfolding switch
switch-Goes string_at d o h =
    ground (arith, tail-le d.fmt, with_arg-Goes string_at d (head_or d.fmt) (length d.fmt) d.args o)

-- After the qualifier comes the `switch`.
finish-Goes :
    (string_at : ℕ → List ℕ) (n : ℕ) (o : Output) (d : Directive) (r : Option Directive)
    → length d.fmt ≤ n
    → Reads d r
    → Goes n (elim r [ none ↦ none | some d' ↦ switch string_at (read_qualifier d') o ])
finish-Goes string_at n o d none le g = g
finish-Goes string_at n o d (some d') le g =
    Goes-mono (switch string_at (read_qualifier d') o) (omega (arith, read_qualifier-Reads d' g.1))
      (switch-Goes string_at (read_qualifier d') o (read_qualifier-Reads d' g.1).1)

middle-Goes :
    (string_at : ℕ → List ℕ) (n : ℕ) (o : Output) (d : Directive) (r : Option Directive)
    → length d.fmt ≤ n
    → Reads d r
    → Goes n (elim r [
      | none ↦ none
      | some d' ↦ elim (read_precision d') [
        | none ↦ none
        | some e ↦ switch string_at (read_qualifier e) o
      ]
    ])
middle-Goes string_at n o d none le g = g
middle-Goes string_at n o d (some d') le g =
    finish-Goes string_at n o d' (read_precision d') (omega arith) (read_precision-Reads d' g.1)

directive-Goes :
    (string_at : ℕ → List ℕ) (s : List ℕ) (o : Output)
    → needs s + 1 ≤ length o.args
    → Goes (length s) (directive string_at s o)
unfolding directive
directive-Goes string_at s o le =
    let (f, t) = read_flags s no_flags in
    let shorter = read_flags-le s no_flags in
    middle-Goes string_at (length s) o (fresh f t o.args) (read_width (fresh f t o.args)) shorter.0
      (read_width-Reads (fresh f t o.args) (omega arith))

-- With enough fuel and arguments the loop ends with a text.
format_loop_total :
    (fuel : ℕ) (string_at : ℕ → List ℕ) (s : List ℕ) (o : Output)
    → length s ≤ fuel
    → needs s ≤ length o.args
    → (o' : Output) × (format_loop fuel string_at s o ≡ some o')
unfolding format_loop
format_loop_total fuel string_at [] o le args = (o, refl)
format_loop_total zero string_at (c ∷ s) o le args = absurd (omega arith)
format_loop_total (suc fuel) string_at (c ∷ s) o le args = elim (Bool-cases (c == 0)) [
  | inl e ↦ (o, rw (e, format_loop))
  | inr e ↦ elim (Bool-cases (c == b'%')) [
    | inl p ↦
        let more : needs s + 1 ≤ length o.args = ground arith in
        elim (Option-cases (directive string_at s o)) [
          | inl bad ↦ absurd (rw bad at (directive-Goes string_at s o more))
          | inr (r, good) ↦
              let g : Goes (length s) (some r) = rw good at (directive-Goes string_at s o more) in
              let (o', done) =
                format_loop_total fuel string_at r.1 r.0 (omega arith) (omega arith) in
              (o', rw (e, p, good, format_loop) done)
        ]
    | inr p ↦
        let (o', done) =
          format_loop_total fuel string_at s (emit (c ∷ []) o.args o) (omega arith) (omega arith) in
        (o', rw (e, p, format_loop) done)
  ]
]

-- `vsprintf` ends with a text for every format, if there is an argument for each of its characters
-- `%` and `*`.
pub vsprintf_total :
    (string_at : ℕ → List ℕ) (fmt args : List ℕ)
    → needs fmt ≤ length args
    → (o : Output) × (vsprintf string_at fmt args ≡ some o)
unfolding vsprintf
vsprintf_total string_at fmt args enough =
    format_loop_total (length fmt) string_at fmt (record { text = []; args = args; stores = [] })
      (omega arith) enough
