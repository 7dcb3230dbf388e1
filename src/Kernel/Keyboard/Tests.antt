-- ===== src/Kernel/Keyboard/Tests.antt =====
-- Typing on a layout of three keys: shift down, shift up, and the letter.
use amethyst_os_old.Base.{◌≡◌, false, [], ◌∷◌, arith, codes, ◌==◌, if◌then◌else◌}
use amethyst_os_old.Kernel.Keyboard.{Keyboard}
use amethyst_os_old.Kernel.Keyboard.Shift.{IsStatus, type_keys, typed, type_keys_lem}

abbrev board : Keyboard
board = record {
  id = 0;
  name = codes "small";
  status = 4;
  keys = λ mode c. if c == 42 then 1 else if c == 170 then 2 else if mode == 0 then b'a' else b'A';
}

type_keys_lem_example :
    ((type_keys board (30 ∷ 42 ∷ 30 ∷ 170 ∷ 30 ∷ [])).0
      ≡ (typed (board.keys 0) (board.keys 1) false (30 ∷ 42 ∷ 30 ∷ 170 ∷ 30 ∷ [])).0)
    × IsStatus 2 false (type_keys board (30 ∷ 42 ∷ 30 ∷ 170 ∷ 30 ∷ [])).1.status
    × ((type_keys board (30 ∷ 42 ∷ 30 ∷ 170 ∷ 30 ∷ [])).1.keys ≡ board.keys)
type_keys_lem_example =
    type_keys_lem 2 (30 ∷ 42 ∷ 30 ∷ 170 ∷ 30 ∷ []) board false (omega arith, omega arith)
