-- ===== src/Kernel/Idt.antt =====
-- src/kernel/src/kernel/idt.c, its headers, and the table `isr_list` of isr.c: the interrupt descriptor
-- table. Where the linker puts the handlers is a parameter.
pub mod Gates
mod Tests
use Prim.Native.Nat.{bit_or}
use amethyst_os_old.Base.{
  ℕ, ◌+◌, ◌-◌, ◌*◌, ◌/◌, ◌%◌, ◌^◌, Option, some, none, List, [], ◌∷◌, ◌==◌, if◌then◌else◌, for_to,
  get_elem?, to_u16,
}

-- The handlers of isr.c.
pub data Isr : Type 0 where
  division_error debug nmi breakpoint overflow bound_range_exceeded : Isr
  invalid_opcode device_not_available double_fault coprocessor_segment_overrun : Isr
  invalid_tss segment_not_present stack_segment_fault general_protected_fault page_fault : Isr
  x87_floating_point_exception alignement_check machine_check : Isr
  smid_floating_point_exception virtualization_exception control_protected_exception : Isr
  hypervisor_injection_exception vmm_communication_exception security_exception : Isr

-- `isr_list`; `none` is `NULL`.
unfoldable pub isr_list : List (Option Isr)
isr_list =
    some division_error
    ∷ some debug
    ∷ some nmi
    ∷ some breakpoint
    ∷ some overflow
    ∷ some bound_range_exceeded
    ∷ some invalid_opcode
    ∷ some device_not_available
    ∷ some double_fault
    ∷ some coprocessor_segment_overrun
    ∷ some invalid_tss
    ∷ some segment_not_present
    ∷ some stack_segment_fault
    ∷ some general_protected_fault
    ∷ some page_fault
    ∷ none
    ∷ some x87_floating_point_exception
    ∷ some alignement_check
    ∷ some machine_check
    ∷ some smid_floating_point_exception
    ∷ some virtualization_exception
    ∷ some control_protected_exception
    ∷ none
    ∷ none
    ∷ none
    ∷ none
    ∷ none
    ∷ none
    ∷ some hypervisor_injection_exception
    ∷ some vmm_communication_exception
    ∷ some security_exception
    ∷ none
    ∷ []

-- `idt_entry_t`
pub record Entry : Type 0 where
  pub addr_low : ℕ
  pub segment : ℕ
  pub reserved : ℕ
  pub attributs : ℕ
  pub addr_high : ℕ

-- `IDT_PRESENT | IDT_GATE_INT32 | IDT_RING_KERNEL`
abbrev pub interrupt_gate : ℕ
interrupt_gate = bit_or (bit_or (2 ^ 7) 0xe) 0

abbrev pub entry_count : ℕ
entry_count = 256

-- `_idt` as a function of the vector, and the limit that `idt_init` puts in `_idtr`.
pub record Idt : Type 0 where
  pub entry : ℕ → Entry
  pub limit : ℕ

pub idt_set_descriptor : ℕ → ℕ → ℕ → Idt → Idt
idt_set_descriptor vector addr attrs t = record t {
  entry = λ v.
      if v == vector
      then record {
        addr_low = addr % 2 ^ 16;
        segment = 8;
        reserved = 0;
        attributs = attrs;
        addr_high = addr / 2 ^ 16;
      }
      else t.entry v;
}

-- An `Entry` takes eight bytes.
pub load_idtr : Idt → Idt
load_idtr t = record t { limit = to_u16 (8 * entry_count - 1) }

module _ (address : Isr → ℕ) where
  -- The body of the loop of `idt_init`, on the entry of `isr_list`. Past the end of the list, where
  -- the loop never goes, nothing is set.
  pub set_gate : ℕ → Option (Option Isr) → Idt → Idt
  set_gate i none t = t
  set_gate i (some none) t = t
  set_gate i (some (some isr)) t = idt_set_descriptor i (address isr) interrupt_gate t

  -- The first `n` rounds of that loop.
  pub set_gates : ℕ → Idt → Idt
  set_gates n t = for_to n (λ i s. set_gate i (get_elem? isr_list i) s) t

  pub idt_init : Idt → Idt
  idt_init t = set_gates 0x20 (load_idtr t)
