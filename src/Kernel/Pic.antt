-- ===== src/Kernel/Pic.antt =====
-- src/kernel/src/kernel/pic.c: the interrupt controllers. The ports are the list of the bytes written
-- to them, in order.
use amethyst_os_old.Base.{ℕ, List, [], ◌∷◌, ◌++◌}

abbrev pub Ports : Type 0
Ports = List (ℕ × ℕ)

abbrev pub outb : ℕ → ℕ → Ports → Ports
outb port val p = p ++ (port, val) ∷ []

-- `PIC1_COMMAND`, `PIC1_DATA`, `PIC2_COMMAND`, `PIC2_DATA`
abbrev pub pic1_command : ℕ
pic1_command = 0x20

abbrev pub pic1_data : ℕ
pic1_data = 0x21

abbrev pub pic2_command : ℕ
pic2_command = 0xa0

abbrev pub pic2_data : ℕ
pic2_data = 0xa1

-- The four command words. `0x11` is `ICW1_INIT | ICW1_ICW4`; `0x20` and `0x28` are `PIC1_OFFSET` and
-- `PIC2_OFFSET`.
abbrev pub command_words : Ports → Ports
command_words p₀ =
    let p₁ = outb pic2_command 0x11 (outb pic1_command 0x11 p₀) in
    let p₂ = outb pic2_data 0x28 (outb pic1_data 0x20 p₁) in
    let p₃ = outb pic2_data 0x02 (outb pic1_data 0x04 p₂) in
    outb pic2_data 0x01 (outb pic1_data 0x01 p₃)

unfoldable pub pic_remap_irq0 : Ports → Ports
pic_remap_irq0 p = outb pic2_data 0xff (outb pic1_data 0xff (command_words p))
