-- ===== src/Kernel/Console/Row.antt =====
-- A text on one line of the screen.
use amethyst_os_old.Base.{
  ℕ, suc, ◌+◌, ◌-◌, ◌*◌, ◌/◌, ◌%◌, ◌<◌, ◌≡◌, refl, sym, ap, ◌∙◌, Bool, true, false, ◌&&◌, ◌||◌,
  List, [], ◌∷◌, arith, ltb, leb, ◌==◌, if◌then◌else◌, get_or, length, All,
}
use amethyst_os_old.Kernel.Vga.{vga_width, vga_height}
use amethyst_os_old.Kernel.Vga.Pixel.{screen}
use amethyst_os_old.Kernel.Console.{Console, putchar, puts, sign_extend}
use amethyst_os_old.Kernel.Console.Colors.{putchar-colors}
use amethyst_os_old.Kernel.Console.Picture.{
  picture, IsDrawn, IsFitted, HasRoom, putchar-IsFitted, putchar_draws,
}

-- The pixel lies in columns `from` to `to` of the characters on the cursor's line.
abbrev In : Console → ℕ → ℕ → ℕ → ℕ → Bool
In t from to px py =
    leb (t.cur_y * 8) py && ltb py (t.cur_y * 8 + 8) && (leb (from * 6) px && ltb px (to * 6))

-- What the text shows at a pixel of the line.
abbrev pub shown : List ℕ → Console → ℕ → ℕ → ℕ
shown s t px py =
    picture (get_or s (px / 6 - t.cur_x) 0) t.bg_color t.fg_color (px % 6) (py - t.cur_y * 8)

-- After the text, each pixel of its cells shows its character, and all other pixels are as before.
abbrev pub ShowsRow : List ℕ → Console → Console → Type 0
ShowsRow s t t' =
    (px py : ℕ)
    → px < vga_width
    → py < vga_height
    → screen t'.memory px py
      ≡ (if In t t.cur_x (t.cur_x + length s) px py then shown s t px py else screen t.memory px py)

get_or_first : (c k : ℕ) (s : List ℕ) → k ≡ 0 → get_or (c ∷ s) k 0 ≡ c
get_or_first c k s e = rw e refl

get_or_later : (c k j : ℕ) (s : List ℕ) → k ≡ suc j → get_or (c ∷ s) k 0 ≡ get_or s j 0
get_or_later c k j s e = rw e refl

-- Two cases of a drawing, one behind the other.
splice :
    (later now both : Bool) (new mid old p q r : ℕ)
    → new ≡ (if later then p else mid)
    → mid ≡ (if now then q else old)
    → both ≡ (later || now)
    → (later ≡ true → p ≡ r)
    → (now ≡ true → q ≡ r)
    → new ≡ (if both then r else old)
splice later now both new mid old p q r e e' b h k = ground (arith, h, k)

-- The first character, and the others.
In_split :
    (t : Console) (n px py : ℕ)
    → In t t.cur_x (t.cur_x + suc n) px py
      ≡ (In t (t.cur_x + 1) (t.cur_x + 1 + n) px py || In t t.cur_x (t.cur_x + 1) px py)
In_split t n px py = ground arith

shown_later :
    (c : ℕ) (s : List ℕ) (t : Console) (px py : ℕ)
    → In t (t.cur_x + 1) (t.cur_x + 1 + length s) px py ≡ true
    → picture
        (get_or s (px / 6 - (t.cur_x + 1)) 0)
        t.bg_color
        t.fg_color
        (px % 6)
        (py - t.cur_y * 8)
      ≡ shown (c ∷ s) t px py
shown_later c s t px py e =
    ap (λ d. picture d t.bg_color t.fg_color (px % 6) (py - t.cur_y * 8))
      (sym (get_or_later c (px / 6 - t.cur_x) (px / 6 - (t.cur_x + 1)) s (ground arith)))

shown_first :
    (c : ℕ) (s : List ℕ) (t : Console) (px py : ℕ)
    → In t t.cur_x (t.cur_x + 1) px py ≡ true
    → picture c t.bg_color t.fg_color (px - t.cur_x * 6) (py - t.cur_y * 8) ≡ shown (c ∷ s) t px py
shown_first c s t px py e =
    let column : px - t.cur_x * 6 ≡ px % 6 = ground arith in
    rw column (
      ap (λ d. picture d t.bg_color t.fg_color (px % 6) (py - t.cur_y * 8))
        (sym (get_or_first c (px / 6 - t.cur_x) s (ground arith))))

-- The end of a text's character, in the terms of `putchar_draws`.
In_one :
    (t : Console) (px py : ℕ)
    → (leb (t.cur_y * 8) py
        && ltb py (t.cur_y * 8 + 8)
        && (leb (t.cur_x * 6) px && ltb px (t.cur_x * 6 + 6)))
      ≡ In t t.cur_x (t.cur_x + 1) px py
In_one t px py = ground arith

module _ (address : ℕ) where
  -- A text of ASCII characters for which there is room on the line of the cursor is drawn there, in the
  -- bitmaps of the kernel's font and in the console's colours, and nothing else on the screen changes.
  -- The cursor ends up behind it.
  pub puts-ShowsRow :
      (s : List ℕ) (t : Console)
      → All IsDrawn s
      → HasRoom (length s) t
      → IsFitted address t
      → ShowsRow s t (puts s t)
        × IsFitted address (puts s t)
        × ((puts s t).cur_x ≡ t.cur_x + length s)
        × ((puts s t).cur_y ≡ t.cur_y)
  unfolding puts putchar
  puts-ShowsRow [] t d r h = (λ px py hx hy. ground arith, h, omega arith, refl)
  puts-ShowsRow (c ∷ s) t d r h =
      let plain : sign_extend c ≡ c = ground arith in
      let going : c == 0 ≡ false = ground arith in
      let one : HasRoom 1 t = record { columns = omega (arith, r.columns); lines = r.lines } in
      let t' = putchar c t in
      let (fg, bg) = putchar-colors c t in
      let (draws, x, y) = putchar_draws address c t 0 0 d.0 one h (omega arith) (omega arith) in
      let room : HasRoom (length s) t' = record {
        columns = omega (arith, r.columns, x);
        lines = omega (arith, r.lines, y);
      } in
      let (row, fitted, x', y') =
        puts-ShowsRow s t' d.1 room (putchar-IsFitted address c t d.0 one h) in
      rw (going, plain)
        (
          λ px py hx hy.
              splice (In t (t.cur_x + 1) (t.cur_x + 1 + length s) px py)
                (In t t.cur_x (t.cur_x + 1) px py) _ _ _ _ _ _ _
                (rw (x, y, fg, bg) at (row px py hx hy))
                (rw (In_one t px py) at ((putchar_draws address c t px py d.0 one h hx hy).0))
                (In_split t (length s) px py) (shown_later c s t px py) (shown_first c s t px py),
          fitted,
          omega (arith, x', x),
          y' ∙ y,
        )
