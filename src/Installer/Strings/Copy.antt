-- ===== src/Installer/Strings/Copy.antt =====
-- What `memcpy` writes.
use amethyst_os_old.Base.{
  ℕ, zero, suc, ◌+◌, ◌-◌, ◌^◌, ◌≤◌, ◌<◌, ◌≡◌, ◌≢◌, ◌⊎◌, ap, refl, true, false, ◌∙◌, ◌&&◌, arith,
  ◌==◌, leb, ltb, if◌then◌else◌, add32,
}
use amethyst_os_old.Kernel.Vga.{Store}
use amethyst_os_old.Installer.Machine.{Machine}
use amethyst_os_old.Installer.Strings.{copy_bytes, memcpy}

-- No byte of one region is in the other.
abbrev pub Apart : ℕ → ℕ → ℕ → Type 0
Apart dest src count = (src + count ≤ dest) ⊎ (dest + count ≤ src)

-- The memory with the bytes from `src` on copied to `dest`.
abbrev pub copied : ℕ → ℕ → ℕ → Store → Store
copied dest src count m a = if leb dest a && ltb a (dest + count) then m (src + (a - dest)) else m a

pub copied_at :
    (dest src count : ℕ) (m : Store) (a k : ℕ)
    → a ≡ dest + k
    → k < count
    → copied dest src count m a ≡ m (src + k)
copied_at dest src count m a k at lt =
    let inside : (leb dest a && ltb a (dest + count)) ≡ true = ground arith in
    rw inside (ap (λ x. m (src + x)) (omega arith))

pub copied_away :
    (dest src count : ℕ) (m : Store) (a : ℕ)
    → (a < dest) ⊎ (dest + count ≤ a)
    → copied dest src count m a ≡ m a
copied_away dest src count m a away = ground arith

copy_step :
    (dest i a new here before old : ℕ)
    → here ≡ (if leb dest a && ltb a (dest + i) then new else before)
    → (a ≡ dest + i → old ≡ new)
    → (if a == dest + i then old else here)
      ≡ (if leb dest a && ltb a (dest + suc i) then new else before)
copy_step dest i a new here before old e same = ground arith

untouched :
    (dest src i : ℕ) (m : Store)
    → Apart dest src (suc i)
    → copied dest src i m (src + i) ≡ m (src + i)
untouched dest src i m apart = ground arith

pub copy_bytes_lem :
    (dest src count : ℕ) (m : Store) (a : ℕ)
    → dest + count ≤ 2 ^ 32
    → src + count ≤ 2 ^ 32
    → Apart dest src count
    → copy_bytes dest src count m a ≡ copied dest src count m a
unfolding copy_bytes
copy_bytes_lem dest src zero m a fits fits' apart = ground arith
copy_bytes_lem dest src (suc i) m a fits fits' apart =
    let apart' : Apart dest src i = ground arith in
    let at : add32 dest i ≡ dest + i = omega arith in
    let from : add32 src i ≡ src + i = omega arith in
    let source = copy_bytes_lem dest src i m (src + i) (omega arith) (omega arith) apart' in
    let old = copy_bytes_lem dest src i m a (omega arith) (omega arith) apart' in
    rw (at, from)
      (copy_step dest i a (m (src + (a - dest))) (copy_bytes dest src i m a) (m a)
        (copy_bytes dest src i m (src + i)) old
        (λ e. source ∙ untouched dest src i m apart ∙ ap (λ k. m (src + k)) (omega arith)))

-- A `memcpy` of regions that do not overlap and lie below 2 ^ 32, to a pointer that is not null,
-- returns the pointer and copies exactly the bytes of the source to it.
pub memcpy_lem :
    (dest src count : ℕ) (m : Machine)
    → dest ≢ 0
    → dest + count ≤ 2 ^ 32
    → src + count ≤ 2 ^ 32
    → Apart dest src count
    → ((memcpy dest src count m).0 ≡ dest)
      × ((a : ℕ) → (memcpy dest src count m).1.memory a ≡ copied dest src count m.memory a)
unfolding memcpy
memcpy_lem dest src count m given fits fits' apart =
    let is_given : (dest == 0) ≡ false = ground arith in
    rw (is_given, memcpy) (refl, λ a. copy_bytes_lem dest src count m.memory a fits fits' apart)
