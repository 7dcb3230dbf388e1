-- ===== src/Libc/Number/Layout.antt =====
-- How wide the text is that `number` writes.
use Prim.Native.Nat.{max}
use amethyst_os_old.Base.{
  ℕ, ◌+◌, ◌-◌, ◌≤◌, ◌≡◌, refl, ap, ◌∙◌, Bool, true, false, not, ◌&&◌, ◌||◌, some, List, [], ◌∷◌,
  ◌++◌, arith, if◌then◌else◌, length, length-append, length-replicate, replicate,
}
use amethyst_os_old.Base.Int.{ℤ, pos, negsuc, to_ℕ, take_away}
use amethyst_os_old.Libc.Number.{
  Flags, number, number_text, layout, fill, drain, sign_part, prefix, tmp_digits, reverse_onto,
}

pub length-reverse_onto : (l out : List ℕ) → length (reverse_onto l out) ≡ length l + length out
unfolding reverse_onto
length-reverse_onto [] out = omega arith
length-reverse_onto (d ∷ l) out = omega (arith, length-reverse_onto l (d ∷ out))

-- The parts of the text, one behind the other.
length_parts :
    (a b c d e f g : List ℕ)
    → length (a ++ (b ++ (c ++ (d ++ (e ++ (f ++ g))))))
      ≡ length a + length b + length c + length d + length e + length f + length g
length_parts a b c d e f g = omega (
  arith,
  length-append a (b ++ (c ++ (d ++ (e ++ (f ++ g))))),
  length-append b (c ++ (d ++ (e ++ (f ++ g)))),
  length-append c (d ++ (e ++ (f ++ g))),
  length-append d (e ++ (f ++ g)),
  length-append e (f ++ g),
  length-append f g,
)

-- One of the three padding loops runs.
pads :
    (zeropad left : Bool) (c : ℕ) (size : ℤ)
    → let plain = not (zeropad || left) in
      let size₁ = if plain then drain size else size in
      let size₂ = if left then size₁ else drain size₁ in
      length (if plain then fill size b' ' else [])
        + length (if left then [] else fill size₁ c)
        + length (fill size₂ b' ')
      ≡ to_ℕ size
unfolding drain
pads true true c (pos n) = omega (arith, length-replicate {A = ℕ} n b' ')
pads true true c (negsuc n) = refl
pads true false c (pos n) = omega (arith, length-replicate n c)
pads true false c (negsuc n) = refl
pads false true c (pos n) = omega (arith, length-replicate {A = ℕ} n b' ')
pads false true c (negsuc n) = refl
pads false false c (pos n) = omega (arith, length-replicate {A = ℕ} n b' ')
pads false false c (negsuc n) = refl

length-layout :
    (f : Flags) (zeropad : Bool) (c : ℕ) (s p d : List ℕ) (wanted : ℕ) (size : ℤ)
    → length (layout f zeropad c s p d wanted size)
      ≡ to_ℕ size + length s + length p + (wanted - length d) + length d
unfolding layout
length-layout f zeropad c s p d wanted size =
    length_parts _ s p _ (replicate (wanted - length d) b'0') (reverse_onto d []) _
    ∙ omega (
      arith,
      pads zeropad f.left c size,
      length-replicate {A = ℕ} (wanted - length d) b'0',
      length-reverse_onto d [],
    )

to_ℕ-take_away : (z : ℤ) (k : ℕ) → to_ℕ (take_away z k) ≡ to_ℕ z - k
to_ℕ-take_away (pos n) k = ground arith
to_ℕ-take_away (negsuc n) k = ground arith

take_away-zero : (z : ℤ) → take_away z 0 ≡ z
take_away-zero (pos n) = ground arith
take_away-zero (negsuc n) = ground arith

-- The sign is paid for by the size.
sign_part-size :
    (f : Flags) (num : ℕ) (size : ℤ)
    → (sign_part f num size).2 ≡ take_away size (length (sign_part f num size).0)
unfolding sign_part
sign_part-size f num size = ground (arith, take_away-zero size)

-- The sign, the prefix and the digits that `number` prints.
abbrev pub needed : ℕ → ℕ → ℤ → ℤ → Flags → ℕ
needed num base size precision f =
    length (sign_part f num size).0
    + length (prefix f base)
    + max (length (tmp_digits f.small base (sign_part f num size).1)) (to_ℕ precision)

length-number_text :
    (num base : ℕ) (size precision : ℤ) (f : Flags)
    → length (number_text num base size precision f)
      ≡ max (to_ℕ size) (needed num base size precision f)
unfolding number_text
length-number_text num base size precision f =
    let (s, value, size₁) = sign_part f num size in
    let d = tmp_digits f.small base value in
    let wanted = max (length d) (to_ℕ precision) in
    let size₂ = take_away size₁ (length (prefix f base)) in
    length-layout f (f.zeropad && not f.left) _ s (prefix f base) d wanted (take_away size₂ wanted)
    ∙ omega (
      arith,
      to_ℕ-take_away size₂ wanted,
      to_ℕ-take_away size₁ (length (prefix f base)),
      to_ℕ-take_away size (length s),
      ap to_ℕ (sign_part-size f num size),
    )

-- For a base from 2 to 16 `number` returns a text. It is as wide as the field asks, or as wide as the
-- sign, the prefix and the digits need, of which there are at least as many as the precision asks.
pub number_width :
    (num base : ℕ) (size precision : ℤ) (f : Flags)
    → 2 ≤ base
    → base ≤ 16
    → (out : List ℕ) × (number num base size precision f ≡ some out)
      × (length out ≡ max (to_ℕ size) (needed num base size precision f))
unfolding number
number_width num base size precision f lo hi = (
  number_text num base size precision f,
  ground arith,
  length-number_text num base size precision f,
)
