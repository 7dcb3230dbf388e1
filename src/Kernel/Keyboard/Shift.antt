-- ===== src/Kernel/Keyboard/Shift.antt =====
-- What a sequence of keys types: the status byte against a shift key that is down or up.
use Prim.Native.Nat.{bit_and, bit_or}
use amethyst_os_old.Base.{
  ℕ, ◌+◌, ◌*◌, ◌/◌, ◌%◌, ◌<◌, ◌≡◌, refl, ap, ap₂, ◌∙◌, Bool, true, false, ◌&&◌, List, [], ◌∷◌,
  arith, ◌==◌, if◌then◌else◌,
}
use amethyst_os_old.Base.Table.{passes, passes_sound}
use amethyst_os_old.Kernel.Keyboard.{
  Keyboard, shift_pressed, shift_released, update_status, kb_update,
}

-- The characters of the keys, one call of `kb_update` for each, and the keyboard after them.
pub type_keys : Keyboard → List ℕ → List ℕ × Keyboard
type_keys kb [] = ([], kb)
type_keys kb (c ∷ codes) =
    let (char, kb') = kb_update kb c in
    let (chars, last) = type_keys kb' codes in (char ∷ chars, last)

-- Whether shift is down after a key, if the plain layout gives `key` for it.
abbrev pub next_shift : ℕ → Bool → Bool
next_shift key down =
    if key == shift_pressed then true else if key == shift_released then false else down

-- The characters that the layouts give for the keys, and whether shift is down in the end.
abbrev pub typed : (ℕ → ℕ) → (ℕ → ℕ) → Bool → List ℕ → List ℕ × Bool
typed plain shifted down [] = ([], down)
typed plain shifted down (c ∷ codes) =
    let down' = next_shift (plain c) down in
    let (chars, last) = typed plain shifted down' codes in
    ((if down' then shifted c else plain c) ∷ chars, last)

-- The status is a byte whose lowest bit says whether shift is down; `rest` are its other bits.
abbrev pub IsStatus : ℕ → Bool → ℕ → Type 0
IsStatus rest down status = (status < 256) × (status ≡ rest * 2 + (if down then 1 else 0))

-- The three operations on the lowest bit.
abbrev bits_agree : ℕ → Bool
bits_agree s = bit_or s 1 == s / 2 * 2 + 1 && (bit_and s 0xfe == s / 2 * 2 && bit_and s 1 == s % 2)

bit_table : passes bits_agree 256 ≡ true
unfolding passes
bit_table = refl

bits_lem :
    (s : ℕ)
    → s < 256
    → (bit_or s 1 ≡ s / 2 * 2 + 1) × (bit_and s 0xfe ≡ s / 2 * 2) × (bit_and s 1 ≡ s % 2)
bits_lem s lt = ground (arith, passes_sound bits_agree 256 s lt bit_table)

update_status-IsStatus :
    (rest key status : ℕ) (down : Bool)
    → IsStatus rest down status
    → IsStatus rest (next_shift key down) (update_status key status)
unfolding update_status
update_status-IsStatus rest key status down v = ground (arith, bits_lem status v.0)

mode_lem :
    (rest status : ℕ) (down : Bool)
    → IsStatus rest down status
    → bit_and status 1 ≡ (if down then 1 else 0)
mode_lem rest status down v = ground (arith, bits_lem status v.0)

-- One key keeps the layouts, and the status says whether shift is down after it.
kb_update_lem :
    (rest c : ℕ) (kb : Keyboard) (down : Bool)
    → IsStatus rest down kb.status
    → ((kb_update kb c).0 ≡ kb.keys (if next_shift (kb.keys 0 c) down then 1 else 0) c)
      × IsStatus rest (next_shift (kb.keys 0 c) down) (kb_update kb c).1.status
      × ((kb_update kb c).1.keys ≡ kb.keys)
unfolding kb_update
kb_update_lem rest c kb down v =
    let v' = update_status-IsStatus rest (kb.keys 0 c) kb.status down v in
    (ap (λ m. kb.keys m c) (mode_lem rest (update_status (kb.keys 0 c) kb.status) _ v'), v', refl)

pick_layout :
    (keys : ℕ → ℕ → ℕ) (c : ℕ) (down : Bool)
    → keys (if down then 1 else 0) c ≡ (if down then keys 1 c else keys 0 c)
pick_layout keys c true = refl
pick_layout keys c false = refl

-- What the calls of `kb_update` come to, from a keyboard whose status says whether shift is down:
-- each key gives the character of the layout with shift from a press of shift on, and of the plain
-- layout from its release on. The other bits of the status and the layouts stay.
pub type_keys_lem :
    (rest : ℕ) (codes : List ℕ) (kb : Keyboard) (down : Bool)
    → IsStatus rest down kb.status
    → ((type_keys kb codes).0 ≡ (typed (kb.keys 0) (kb.keys 1) down codes).0)
      × IsStatus rest (typed (kb.keys 0) (kb.keys 1) down codes).1 (type_keys kb codes).1.status
      × ((type_keys kb codes).1.keys ≡ kb.keys)
unfolding type_keys
type_keys_lem rest [] kb down v = (refl, v, refl)
type_keys_lem rest (c ∷ codes) kb down v =
    let (char, v', same) = kb_update_lem rest c kb down v in
    let kb' = (kb_update kb c).1 in
    let (chars, last, kept) = type_keys_lem rest codes kb' (next_shift (kb.keys 0 c) down) v' in
    (
      ap₂ ◌∷◌ (char ∙ pick_layout kb.keys c (next_shift (kb.keys 0 c) down)) (rw same at chars),
      rw same at last,
      kept ∙ same,
    )
