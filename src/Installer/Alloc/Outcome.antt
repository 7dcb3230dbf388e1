-- ===== src/Installer/Alloc/Outcome.antt =====
-- What a call of the heap reports in `_err`.
use amethyst_os_old.Base.{
  ℕ, ◌^◌, ◌<◌, ◌≡◌, ◌≢◌, ◌⊎◌, refl, inl, inr, arith, ◌==◌, Option-cases, Bool-cases,
}
use amethyst_os_old.Kernel.Alloc.{insert_chunk, remove_chunk_by_size}
use amethyst_os_old.Kernel.Alloc.Facts.{IsHeap, cut}
use amethyst_os_old.Kernel.Alloc.Fits.{
  IsFull, Lacks, insert_chunk_full, IsFull-of_insert_chunk, remove_chunk_by_size-Lacks,
  Lacks-of_remove_chunk_by_size,
}
use amethyst_os_old.Installer.Error.{Error}
use amethyst_os_old.Installer.Machine.{Machine}
use amethyst_os_old.Installer.Alloc.{malloc}

-- What `malloc` returns and reports, by its cause: a size of 0, no free block that is large enough,
-- a table of allocated chunks that is full, or none of these.
abbrev pub Outcome : ℕ → Machine → ℕ × Machine → Type 0
Outcome n m (p, m') =
    (n ≡ 0) × (p ≡ 0) × (m'.err ≡ Error.invarg)
    ⊎ (0 < n) × Lacks n m.heap.freed × (p ≡ 0) × (m'.err ≡ Error.heapfull)
    ⊎ (0 < n)
      × (¬ Lacks n m.heap.freed)
      × IsFull m.heap.allocated
      × (p ≡ 0)
      × (m'.err ≡ Error.internal)
    ⊎ (0 < n) × (¬ Lacks n m.heap.freed) × (¬ IsFull m.heap.allocated) × (p ≢ 0) × (m'.err ≡ m.err)

-- On a valid heap of a region that starts above address 0 and ends below 2 ^ 32, `malloc` sets `_err`
-- to `_ERR_INVARG` for a size of 0, to `_ERR_HEAPFULL` if no free block is large enough, and to
-- `_ERR_INTERNAL` if the table of allocated chunks is full, and returns `NULL`. Else it returns a
-- pointer other than `NULL`, and leaves `_err` alone.
pub malloc-Outcome :
    (base limit n : ℕ) (m : Machine)
    → 0 < base
    → limit < 2 ^ 32
    → IsHeap base limit m.heap
    → Outcome n m (malloc n m)
unfolding malloc
malloc-Outcome base limit n m low high v = elim (Bool-cases (n == 0)) [
  | inl z ↦ rw z (inl (ground arith, refl, refl))
  | inr nz ↦
      let pos : 0 < n = ground arith in
      elim (Option-cases (remove_chunk_by_size m.heap.freed n)) [
        | inl e ↦
            rw (nz, e) (inr (inl (pos, Lacks-of_remove_chunk_by_size m.heap.freed n e, refl, refl)))
        | inr (r, e) ↦
            let enough : ¬ Lacks n m.heap.freed =
              λ w. cc (remove_chunk_by_size-Lacks m.heap.freed n w) in
            elim (Option-cases (insert_chunk r.0 m.heap.allocated)) [
              | inl e₁ ↦
                  rw (nz, e, e₁)
                    (inr (
                      inr (
                        inl (
                          pos,
                          enough,
                          IsFull-of_insert_chunk r.0 m.heap.allocated e₁,
                          refl,
                          refl,
                        ))))
              | inr (l, e₁) ↦
                  rw (nz, e, e₁)
                    (inr (
                      inr (
                        inr (
                          pos,
                          enough,
                          λ w. cc (insert_chunk_full r.0 m.heap.allocated w),
                          λ q. omega (
                            arith,
                            (cut base limit low high n m.heap.freed pos v.freed_slots e).0,
                          ),
                          refl,
                        ))))
            ]
      ]
]
