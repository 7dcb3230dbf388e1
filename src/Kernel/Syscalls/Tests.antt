-- ===== src/Kernel/Syscalls/Tests.antt =====
-- System call 1 with the argument -5.
use amethyst_os_old.Base.{◌≡◌, refl, codes}
use amethyst_os_old.Libc.Number.{tmp_digits, digit_loop, digit, reverse_onto}
use amethyst_os_old.Kernel.Syscalls.Printed.{example2_text}

minus_five : example2_text 0xffff_fffb ≡ codes "Example 2 has been called and the argument is -5!\n"
unfolding tmp_digits digit_loop digit reverse_onto
minus_five = refl
