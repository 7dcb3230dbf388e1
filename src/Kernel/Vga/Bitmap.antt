-- ===== src/Kernel/Vga/Bitmap.antt =====
-- What `vga_draw_bitmap` draws.
use amethyst_os_old.Base.{
  ℕ, zero, suc, ◌+◌, ◌-◌, ◌*◌, ◌/◌, ◌%◌, ◌^◌, ◌≤◌, ◌<◌, ◌≡◌, refl, ◌∙◌, Bool, ◌&&◌, arith, inl, inr,
  Bool-cases, ◌==◌, ltb, leb, if◌then◌else◌, for_to_inv, to_u16, add32,
}
use amethyst_os_old.Kernel.Vga.{
  Store, vga_width, vga_height, byte_count, ink, draw_bit, draw_bits, draw_bytes, vga_draw_bitmap,
}
use amethyst_os_old.Kernel.Vga.Pixel.{screen, IsOutside, screen-draw_pixel, draw_pixel_outside}

draw_bit_outside :
    (x line w left scan bg fg bit : ℕ) (m : Store) (a : ℕ)
    → IsOutside a
    → draw_bit x line w left scan bg fg bit m a ≡ m a
unfolding draw_bit
draw_bit_outside x line w left scan bg fg bit m a out =
    ground (arith, draw_pixel_outside (to_u16 (x + (left + bit))) line (ink scan bit bg fg) m a out)

draw_bits_outside :
    (x line w left scan bg fg n : ℕ) (m : Store) (a : ℕ)
    → IsOutside a
    → draw_bits x line w left scan bg fg n m a ≡ m a
unfolding draw_bits
draw_bits_outside x line w left scan bg fg n m a out =
    for_to_inv (λ s. s a ≡ m a) n (draw_bit x line w left scan bg fg) m
      (λ i s lt e. draw_bit_outside x line w left scan bg fg i s a out ∙ e) refl

draw_bytes_outside :
    (x line w bitmap row bg fg n : ℕ) (m : Store) (a : ℕ)
    → IsOutside a
    → draw_bytes x line w bitmap row bg fg n m a ≡ m a
unfolding draw_bytes
draw_bytes_outside x line w bitmap row bg fg n m a out =
    for_to_inv (λ s. s a ≡ m a) n
      (λ byte s. draw_bits x line w (byte * 8) (s (add32 bitmap (row + byte))) bg fg 8 s) m
      (λ i s lt e.
        draw_bits_outside x line w (i * 8) (s (add32 bitmap (row + i))) bg fg 8 s a out ∙ e)
      refl

-- Whatever its arguments, `vga_draw_bitmap` writes nowhere but in the frame buffer.
pub draw_bitmap_outside :
    (x y w h bitmap bg fg : ℕ) (m : Store) (a : ℕ)
    → IsOutside a
    → vga_draw_bitmap x y w h bitmap bg fg m a ≡ m a
unfolding vga_draw_bitmap
draw_bitmap_outside x y w h bitmap bg fg m a out =
    for_to_inv (λ s. s a ≡ m a) h
      (λ yoff s.
        draw_bytes x (to_u16 (y + yoff)) w bitmap (yoff * byte_count w) bg fg (byte_count w) s)
      m
      (λ i s lt e.
        draw_bytes_outside x (to_u16 (y + i)) w bitmap (i * byte_count w) bg fg (byte_count w) s a
          out
        ∙ e)
      refl

-- The colour that column `gx` and line `gy` of a bitmap are drawn in.
abbrev pub painted : Store → ℕ → ℕ → ℕ → ℕ → ℕ → ℕ → ℕ
painted m bitmap w bg fg gx gy = ink (m (add32 bitmap (gy * byte_count w + gx / 8))) (gx % 8) bg fg

-- Column `px` of line `py` lies in columns `left` to `right` of a bitmap of width `w` at `x`.
abbrev In : ℕ → ℕ → ℕ → ℕ → ℕ → ℕ → ℕ → Bool
In px py x line w left right =
    py == line && (leb (x + left) px && (ltb px (x + right) && ltb px (x + w)))

-- A line painted up to a column, and what one more column makes of it.
paint_column :
    (px py x line w left n new old before : ℕ) (f : ℕ → ℕ)
    → new ≡ (if px == x + (left + n) && (py == line && ltb (left + n) w) then f n else before)
    → before ≡ (if In px py x line w left (left + n) then f (px - (x + left)) else old)
    → new ≡ (if In px py x line w left (left + suc n) then f (px - (x + left)) else old)
paint_column px py x line w left n new old before f e e' = ground arith

-- A line painted up to a byte of the bitmap, and what the next byte makes of it.
paint_byte :
    (px py x line w n new old before : ℕ) (f : ℕ → ℕ → ℕ)
    → new ≡ (if In px py x line w (n * 8) (n * 8 + 8) then f n (px - (x + n * 8)) else before)
    → before ≡ (if In px py x line w 0 (n * 8) then f ((px - x) / 8) ((px - x) % 8) else old)
    → new ≡ (if In px py x line w 0 (suc n * 8) then f ((px - x) / 8) ((px - x) % 8) else old)
paint_byte px py x line w n new old before f e e' = ground arith

byte_count_enough : (w : ℕ) → w ≤ 2 ^ 16 → w ≤ byte_count w * 8
byte_count_enough w fits = ground arith

last_line : (h bytes w k : ℕ) → k < w → w ≤ bytes * 8 → h * bytes + k / 8 < suc h * bytes
last_line h bytes w k lt enough = omega arith

-- A rectangle painted up to line `y + h`, and what that line makes of it.
paint_line :
    (px py x y w h bytes new old before : ℕ) (f : ℕ → ℕ → ℕ)
    → w ≤ bytes * 8
    → new ≡ (if In px py x (y + h) w 0 (bytes * 8) then f (px - x) h else before)
    → before ≡ (
        if leb y py && ltb py (y + h) && (leb x px && ltb px (x + w))
        then f (px - x) (py - y)
        else old)
    → new ≡ (
        if leb y py && ltb py (y + suc h) && (leb x px && ltb px (x + w))
        then f (px - x) (py - y)
        else old)
paint_line px py x y w h bytes new old before f enough e e' = ground arith

-- Inside the painted columns one byte may stand for another that is equal.
swap_ink :
    (px py x line w bytes new before scan scan' bit bg fg : ℕ)
    → new ≡ (if In px py x line w 0 (bytes * 8) then ink scan bit bg fg else before)
    → (px - x < w → scan ≡ scan')
    → new ≡ (if In px py x line w 0 (bytes * 8) then ink scan' bit bg fg else before)
swap_ink px py x line w bytes new before scan scan' bit bg fg e same = ground arith

module _ (px py : ℕ) (hx : px < vga_width) (hy : py < vga_height) where
  screen-draw_bit :
      (x line w left scan bg fg bit : ℕ) (m : Store)
      → x + w ≤ 2 ^ 16
      → screen (draw_bit x line w left scan bg fg bit m) px py ≡ (
          if px == x + (left + bit) && (py == line && ltb (left + bit) w)
          then ink scan bit bg fg
          else screen m px py)
  unfolding draw_bit
  screen-draw_bit x line w left scan bg fg bit m fits = elim (Bool-cases (leb w (left + bit))) [
    | inl e ↦ rw e (ground arith)
    | inr e ↦ rw e (
        screen-draw_pixel (to_u16 (x + (left + bit))) line (ink scan bit bg fg) m px py hx hy
        ∙ ground arith)
  ]

  screen-draw_bits :
      (x line w left scan bg fg n : ℕ) (m : Store)
      → x + w ≤ 2 ^ 16
      → screen (draw_bits x line w left scan bg fg n m) px py ≡ (
          if In px py x line w left (left + n)
          then ink scan (px - (x + left)) bg fg
          else screen m px py)
  unfolding draw_bits
  screen-draw_bits x line w left scan bg fg zero m fits = ground arith
  screen-draw_bits x line w left scan bg fg (suc n) m fits =
      paint_column px py x line w left n _ (screen m px py)
        (screen (draw_bits x line w left scan bg fg n m) px py) (λ bit. ink scan bit bg fg)
        (screen-draw_bit x line w left scan bg fg n (draw_bits x line w left scan bg fg n m) fits)
        (screen-draw_bits x line w left scan bg fg n m fits)

  screen-draw_bytes :
      (x line w bitmap row bg fg n : ℕ) (m : Store)
      → x + w ≤ 2 ^ 16
      → ((k : ℕ) → k < n → IsOutside (add32 bitmap (row + k)))
      → screen (draw_bytes x line w bitmap row bg fg n m) px py ≡ (
          if In px py x line w 0 (n * 8)
          then ink (m (add32 bitmap (row + (px - x) / 8))) ((px - x) % 8) bg fg
          else screen m px py)
  unfolding draw_bytes
  screen-draw_bytes x line w bitmap row bg fg zero m fits out = ground arith
  screen-draw_bytes x line w bitmap row bg fg (suc n) m fits out =
      let before = draw_bytes x line w bitmap row bg fg n m in
      let at = add32 bitmap (row + n) in
      let kept : before at ≡ m at =
        draw_bytes_outside x line w bitmap row bg fg n m at (out n (omega arith)) in
      paint_byte px py x line w n _ (screen m px py) (screen before px py)
        (λ byte bit. ink (m (add32 bitmap (row + byte))) bit bg fg)
        (rw (← kept) (screen-draw_bits x line w (n * 8) (before at) bg fg 8 before fits))
        (screen-draw_bytes x line w bitmap row bg fg n m fits (λ k lt. out k (omega arith)))

  pub screen-painted :
      (x y w h bitmap bg fg : ℕ) (m : Store)
      → x + w ≤ 2 ^ 16
      → y + h ≤ 2 ^ 16
      → ((k : ℕ) → k < h * byte_count w → IsOutside (add32 bitmap k))
      → screen (vga_draw_bitmap x y w h bitmap bg fg m) px py ≡ (
          if leb y py && ltb py (y + h) && (leb x px && ltb px (x + w))
          then painted m bitmap w bg fg (px - x) (py - y)
          else screen m px py)
  unfolding vga_draw_bitmap
  screen-painted x y w zero bitmap bg fg m fx fy out = ground arith
  screen-painted x y w (suc h) bitmap bg fg m fx fy out =
      let bytes = byte_count w in
      let enough = byte_count_enough w (omega arith) in
      let before = vga_draw_bitmap x y w h bitmap bg fg m in
      let line : to_u16 (y + h) ≡ y + h = omega arith in
      let at = add32 bitmap (h * bytes + (px - x) / 8) in
      let kept : px - x < w → before at ≡ m at = λ lt.
        draw_bitmap_outside x y w h bitmap bg fg m at
          (out (h * bytes + (px - x) / 8) (last_line h bytes w (px - x) lt enough)) in
      rw line (
        paint_line px py x y w h bytes _ (screen m px py) (screen before px py)
          (λ gx gy. painted m bitmap w bg fg gx gy) enough
          (swap_ink px py x (y + h) w bytes _ (screen before px py) (before at) (m at)
            ((px - x) % 8) bg fg
            (screen-draw_bytes x (y + h) w bitmap (h * bytes) bg fg bytes before fx
              (λ k lt. out (h * bytes + k) (omega arith)))
            kept)
          (screen-painted x y w h bitmap bg fg m fx (omega arith) (λ k lt. out k (omega arith))))
