-- ===== src/Installer/Alloc/Memory.antt =====
-- The heap's calls change its tables, and no memory.
use amethyst_os_old.Base.{ℕ, ◌≡◌, arith}
use amethyst_os_old.Installer.Machine.{Machine}
use amethyst_os_old.Installer.Alloc.{malloc, free}

pub free-memory : (p : ℕ) (m : Machine) → (free p m).memory ≡ m.memory
unfolding free
free-memory p m = ground arith

pub malloc-memory : (n : ℕ) (m : Machine) → (malloc n m).1.memory ≡ m.memory
unfolding malloc
malloc-memory n m = ground arith
