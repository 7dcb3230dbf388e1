-- ===== src/Kernel/Keyboard.antt =====
-- src/kernel/src/libc/sys/layout.c: a keyboard's layouts, and its shift state.
pub mod Shift
mod Tests
use Prim.Native.Nat.{bit_and, bit_or}
use amethyst_os_old.Base.{ℕ, ◌-◌, List, ◌==◌, if◌then◌else◌}

-- `__keyboard`. A layout is a table of 256 bytes; `keys` has two, without and with shift.
pub record Keyboard : Type 0 where
  pub id : ℕ
  pub name : List ℕ
  pub status : ℕ
  pub keys : ℕ → ℕ → ℕ

-- `__KBMODE_SHIFT`, `__KBP_SHI`, `__KBR_SHI`
abbrev pub mode_shift : ℕ
mode_shift = 1

abbrev pub shift_pressed : ℕ
shift_pressed = 1

abbrev pub shift_released : ℕ
shift_released = 2

pub keychr : (ℕ → ℕ) → ℕ → ℕ
keychr layout keycode = layout keycode

-- `status |= __KBMODE_SHIFT`, or `status &= ~__KBMODE_SHIFT` on a byte, or nothing.
pub update_status : ℕ → ℕ → ℕ
update_status key status =
    if key == shift_pressed
    then bit_or status mode_shift
    else if key == shift_released
    then bit_and status (0xff - mode_shift)
    else status

-- The character of a key, as a byte, and the keyboard after it.
pub kb_update : Keyboard → ℕ → ℕ × Keyboard
kb_update kb keycode =
    let status = update_status (kb.keys 0 keycode) kb.status in
    (kb.keys (bit_and status mode_shift) keycode, record kb { status = status })
