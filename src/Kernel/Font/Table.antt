-- ===== src/Kernel/Font/Table.antt =====
-- The bitmaps of the font: how many bytes there are, and which pixels they may set.
use amethyst_os_old.Base.{
  ℕ, zero, suc, ◌%◌, ◌<◌, ◌≡◌, refl, Bool, true, ◌&&◌, some, List, [], ◌∷◌, arith, ◌==◌, ltb,
  length, get_elem?, get_or,
}
use amethyst_os_old.Kernel.Font.{fontdata_6x8}

-- Bytes that set none but the six pixels on the left.
narrow : List ℕ → Bool
narrow [] = true
narrow (b ∷ l) = ltb b 256 && (b % 4 == 0) && narrow l

narrow-get_elem? :
    (l : List ℕ) (i : ℕ)
    → narrow l ≡ true
    → i < length l
    → (b : ℕ) × (get_elem? l i ≡ some b) × (b < 256) × (b % 4 ≡ 0)
unfolding narrow
narrow-get_elem? [] i n lt = absurd (omega arith)
narrow-get_elem? (b ∷ l) zero n lt = (b, refl, ground arith, ground arith)
narrow-get_elem? (b ∷ l) (suc i) n lt = narrow-get_elem? l i (ground arith) (omega arith)

fontdata_narrow : narrow fontdata_6x8 ≡ true
unfolding narrow fontdata_6x8
fontdata_narrow = refl

pub length-fontdata : length fontdata_6x8 ≡ 2048
unfolding fontdata_6x8
length-fontdata = refl

-- A byte of the table.
pub fontdata_get :
    (i : ℕ) → i < 2048 → (b : ℕ) × (get_elem? fontdata_6x8 i ≡ some b) × (b < 256) × (b % 4 ≡ 0)
fontdata_get i lt = narrow-get_elem? fontdata_6x8 i fontdata_narrow (omega (arith, length-fontdata))

narrow-get_or : (l : List ℕ) (i : ℕ) → narrow l ≡ true → get_or l i 0 < 256
unfolding narrow
narrow-get_or [] i n = omega arith
narrow-get_or (b ∷ l) zero n = ground arith
narrow-get_or (b ∷ l) (suc i) n = narrow-get_or l i (ground arith)

-- All of the table are bytes.
pub fontdata_byte : (i : ℕ) → get_or fontdata_6x8 i 0 < 256
fontdata_byte i = narrow-get_or fontdata_6x8 i fontdata_narrow
