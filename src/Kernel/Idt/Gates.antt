-- ===== src/Kernel/Idt/Gates.antt =====
-- Which gates `idt_init` sets, and to what.
use native.Mathlib.Decide.{ℕ_discrete}
use amethyst_os_old.Base.{
  ℕ, zero, suc, ◌+◌, ◌*◌, ◌^◌, ◌≤◌, ◌<◌, ◌≡◌, ◌≢◌, refl, ap, ◌∙◌, Option, some, none, arith,
  get_elem?, inl, inr, ◌⊎◌,
}
use amethyst_os_old.Kernel.Idt.{
  Isr, isr_list, Entry, Idt, interrupt_gate, idt_set_descriptor, load_idtr, set_gate, set_gates,
  idt_init,
}

-- The address that an interrupt through the gate jumps to.
abbrev pub target : Entry → ℕ
target e = e.addr_high * 2 ^ 16 + e.addr_low

-- The gate is a present 32-bit interrupt gate of the kernel's code segment, to the address.
pub record IsGate (e : Entry) (address : ℕ) : Type 0 where
  pub goes : target e ≡ address
  pub code : e.segment ≡ 8
  pub kind : e.attributs ≡ 0x8e
  pub clean : e.reserved ≡ 0

-- `idt_set_descriptor` makes the gate of one vector, and leaves all others.
pub idt_set_descriptor_lem :
    (vector addr : ℕ) (t : Idt) (v : ℕ)
    → IsGate ((idt_set_descriptor vector addr interrupt_gate t).entry vector) addr
      × (v ≢ vector → (idt_set_descriptor vector addr interrupt_gate t).entry v ≡ t.entry v)
unfolding idt_set_descriptor
idt_set_descriptor_lem vector addr t v = ground arith

module _ (address : Isr → ℕ) where
  -- What the vector `v` of the table should be, if the first `n` vectors are set from `old`.
  abbrev pub Gate : ℕ → ℕ → Idt → Idt → Type 0
  Gate n v old new =
      ((isr : Isr)
        → v < n
        → get_elem? isr_list v ≡ some (some isr)
        → IsGate (new.entry v) (address isr))
      × ((n ≤ v) ⊎ (get_elem? isr_list v ≡ some none) → new.entry v ≡ old.entry v)

  set_gate_other :
      (i v : ℕ) (o : Option (Option Isr)) (t : Idt)
      → v ≢ i
      → (set_gate address i o t).entry v ≡ t.entry v
  unfolding set_gate
  set_gate_other i v none t ne = refl
  set_gate_other i v (some none) t ne = refl
  set_gate_other i v (some (some isr)) t ne = (idt_set_descriptor_lem i (address isr) t v).1 ne

  set_gate_self :
      (v : ℕ) (isr : Isr) (o : Option (Option Isr)) (t : Idt)
      → o ≡ some (some isr)
      → IsGate ((set_gate address v o t).entry v) (address isr)
  unfolding set_gate
  set_gate_self v isr o t e = rw e ((idt_set_descriptor_lem v (address isr) t v).0)

  set_gate_null :
      (v : ℕ) (o : Option (Option Isr)) (t : Idt)
      → o ≡ some none
      → (set_gate address v o t).entry v ≡ t.entry v
  unfolding set_gate
  set_gate_null v o t e = rw e

  set_gates-Gate : (n v : ℕ) (t : Idt) → Gate n v t (set_gates address n t)
  unfolding set_gates
  set_gates-Gate zero v t = (λ isr lt e. absurd (omega arith), λ why. refl)
  set_gates-Gate (suc n) v t =
      let s = set_gates address n t in
      let (set, kept) = set_gates-Gate n v t in
      elim (ℕ_discrete v n) [
        | yes same ↦ (
          λ isr lt e. rw same (set_gate_self n isr (get_elem? isr_list n) s (rw same at e)),
          λ why. elim why [
            | inl le ↦ absurd (omega arith)
            | inr null ↦ rw same (
                set_gate_null n (get_elem? isr_list n) s (rw same at null)
                ∙ (rw same at (kept (inl (omega arith)))))
          ],
        )
        | no other ↦ (
          λ isr lt e.
              rw (set_gate_other n v (get_elem? isr_list n) s other) (set isr (omega arith) e),
          λ why.
              set_gate_other n v (get_elem? isr_list n) s other
              ∙ kept (elim why [ inl le ↦ inl (omega arith) | inr null ↦ inr null ]),
        )
      ]

  set_gate-limit :
      (i : ℕ) (o : Option (Option Isr)) (t : Idt) → (set_gate address i o t).limit ≡ t.limit
  unfolding set_gate idt_set_descriptor
  set_gate-limit i none t = refl
  set_gate-limit i (some none) t = refl
  set_gate-limit i (some (some isr)) t = refl

  set_gates-limit : (n : ℕ) (t : Idt) → (set_gates address n t).limit ≡ t.limit
  unfolding set_gates
  set_gates-limit zero t = refl
  set_gates-limit (suc n) t =
      set_gate-limit n (get_elem? isr_list n) (set_gates address n t) ∙ set_gates-limit n t

  -- `idt_init` sets the gate of each exception that `isr_list` has a handler for, to that handler.
  -- It leaves the vectors without a handler and those from 32 on, and covers all 256 entries by the
  -- limit that it loads.
  pub idt_init_lem :
      (v : ℕ) (t : Idt)
      → ((isr : Isr)
          → v < 0x20
          → get_elem? isr_list v ≡ some (some isr)
          → IsGate ((idt_init address t).entry v) (address isr))
        × ((0x20 ≤ v) ⊎ (get_elem? isr_list v ≡ some none)
            → (idt_init address t).entry v ≡ t.entry v)
        × ((idt_init address t).limit + 1 ≡ 8 * 256)
  unfolding idt_init load_idtr
  idt_init_lem v t =
      let (set, kept) = set_gates-Gate 0x20 v (load_idtr t) in
      (set, kept, ap (λ l. l + 1) (set_gates-limit 0x20 (load_idtr t)))
