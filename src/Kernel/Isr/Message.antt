-- ===== src/Kernel/Isr/Message.antt =====
-- What the exception handlers say, as a table, and that their code says it.
use amethyst_os_old.Base.{
  ℕ, ◌-◌, ◌<◌, ◌≡◌, refl, arith, Bool, ◌&&◌, ◌==◌, List, ◌∷◌, length, codes, get_or, All,
  if◌then◌else◌,
}
use amethyst_os_old.Libc.Format.Plain.{IsPlain}
use amethyst_os_old.Kernel.Console.{Console}
use amethyst_os_old.Kernel.Console.Picture.{IsDrawn}
use amethyst_os_old.Kernel.Idt.{Isr}
use amethyst_os_old.Kernel.Isr.{
  Exit, halt, return_interrupt, report, handle, isr_division_error, isr_debug, isr_nmi,
  isr_breakpoint, isr_overflow, isr_bound_range_exceeded, isr_invalid_opcode,
  isr_device_not_available, isr_double_fault, isr_coprocessor_segment_overrun, isr_invalid_tss,
  isr_segment_not_present, isr_stack_segment_fault, isr_general_protected_fault, isr_page_fault,
  isr_x87_floating_point_exception, isr_alignement_check, isr_machine_check,
  isr_smid_floating_point_exception, isr_virtualization_exception, isr_control_protected_exception,
  hypervisor_injection_exception, vmm_communication_exception, security_exception,
}

-- The text of an exception.
unfoldable pub message : Isr → List ℕ
message Isr.division_error = codes "Division by 0, halt"
message Isr.debug = codes "Debug is not supported"
message Isr.nmi = codes "NMI are not supported"
message Isr.breakpoint = codes "Breakpoint are not supported!"
message Isr.overflow = codes "Overflow, halt"
message Isr.bound_range_exceeded = codes "Bound range exceeded, halt"
message Isr.invalid_opcode = codes "Invalid opcode"
message Isr.device_not_available = codes "Device is not available"
message Isr.double_fault = codes "double fault, halt"
message Isr.coprocessor_segment_overrun = codes "Coprocessor segment overrun, halt"
message Isr.invalid_tss = codes "Invalid TSS, halt"
message Isr.segment_not_present = codes "Segment is not present, halt"
message Isr.stack_segment_fault = codes "Stack segment fault, halt"
message Isr.general_protected_fault = codes "Invalid protected fault, halt"
message Isr.page_fault = codes "Page fault, halt"
message Isr.x87_floating_point_exception = codes "X87 floating-point exception, halt"
message Isr.alignement_check = codes "Alignement check"
message Isr.machine_check = codes "Machine check"
message Isr.smid_floating_point_exception = codes "SMID floating-point exception, halt"
message Isr.virtualization_exception = codes "Virtualization exception, halt"
message Isr.control_protected_exception = codes "control protected exception, halt"
message Isr.hypervisor_injection_exception = codes "hypervisor injection exception, halt"
message Isr.vmm_communication_exception = codes "VMM communication exception, halt"
message Isr.security_exception = codes "Security exception, halt"

-- The last word of a text is "halt".
abbrev pub says_halt : List ℕ → Bool
says_halt s =
    get_or s (length s - 4) 0 == b'h'
    && get_or s (length s - 3) 0 == b'a'
    && get_or s (length s - 2) 0 == b'l'
    && get_or s (length s - 1) 0 == b't'

-- A handler halts the machine if its text says so.
unfoldable pub ending : Isr → Exit
ending isr = if says_halt (message isr) then halt else return_interrupt

-- The colour of the text: the fatal one, or that of information.
abbrev pub severity : Exit → ℕ
severity exit = elim exit [ halt ↦ 0x28 | return_interrupt ↦ 0xf ]

-- Every text is drawn on one line, and has no directives.
pub record IsShort (s : List ℕ) : Type 0 where
  pub drawn : All IsDrawn s
  pub plain : All IsPlain s
  pub narrow : length s < 53

pub message-IsShort : (isr : Isr) → IsShort (message isr)
unfolding message
message-IsShort Isr.division_error = record {
  drawn = omega arith;
  plain = omega arith;
  narrow = omega arith;
}
message-IsShort Isr.debug = record {
  drawn = omega arith;
  plain = omega arith;
  narrow = omega arith;
}
message-IsShort Isr.nmi = record { drawn = omega arith; plain = omega arith; narrow = omega arith }
message-IsShort Isr.breakpoint = record {
  drawn = omega arith;
  plain = omega arith;
  narrow = omega arith;
}
message-IsShort Isr.overflow = record {
  drawn = omega arith;
  plain = omega arith;
  narrow = omega arith;
}
message-IsShort Isr.bound_range_exceeded = record {
  drawn = omega arith;
  plain = omega arith;
  narrow = omega arith;
}
message-IsShort Isr.invalid_opcode = record {
  drawn = omega arith;
  plain = omega arith;
  narrow = omega arith;
}
message-IsShort Isr.device_not_available = record {
  drawn = omega arith;
  plain = omega arith;
  narrow = omega arith;
}
message-IsShort Isr.double_fault = record {
  drawn = omega arith;
  plain = omega arith;
  narrow = omega arith;
}
message-IsShort Isr.coprocessor_segment_overrun = record {
  drawn = omega arith;
  plain = omega arith;
  narrow = omega arith;
}
message-IsShort Isr.invalid_tss = record {
  drawn = omega arith;
  plain = omega arith;
  narrow = omega arith;
}
message-IsShort Isr.segment_not_present = record {
  drawn = omega arith;
  plain = omega arith;
  narrow = omega arith;
}
message-IsShort Isr.stack_segment_fault = record {
  drawn = omega arith;
  plain = omega arith;
  narrow = omega arith;
}
message-IsShort Isr.general_protected_fault = record {
  drawn = omega arith;
  plain = omega arith;
  narrow = omega arith;
}
message-IsShort Isr.page_fault = record {
  drawn = omega arith;
  plain = omega arith;
  narrow = omega arith;
}
message-IsShort Isr.x87_floating_point_exception = record {
  drawn = omega arith;
  plain = omega arith;
  narrow = omega arith;
}
message-IsShort Isr.alignement_check = record {
  drawn = omega arith;
  plain = omega arith;
  narrow = omega arith;
}
message-IsShort Isr.machine_check = record {
  drawn = omega arith;
  plain = omega arith;
  narrow = omega arith;
}
message-IsShort Isr.smid_floating_point_exception = record {
  drawn = omega arith;
  plain = omega arith;
  narrow = omega arith;
}
message-IsShort Isr.virtualization_exception = record {
  drawn = omega arith;
  plain = omega arith;
  narrow = omega arith;
}
message-IsShort Isr.control_protected_exception = record {
  drawn = omega arith;
  plain = omega arith;
  narrow = omega arith;
}
message-IsShort Isr.hypervisor_injection_exception = record {
  drawn = omega arith;
  plain = omega arith;
  narrow = omega arith;
}
message-IsShort Isr.vmm_communication_exception = record {
  drawn = omega arith;
  plain = omega arith;
  narrow = omega arith;
}
message-IsShort Isr.security_exception = record {
  drawn = omega arith;
  plain = omega arith;
  narrow = omega arith;
}

pub handle_lem :
    (string_at : ℕ → List ℕ) (isr : Isr) (t : Console)
    → handle string_at isr t
      ≡ report string_at 0 (severity (ending isr)) (b'\n' ∷ message isr) (ending isr) t
unfolding handle message ending isr_division_error isr_debug isr_nmi isr_breakpoint isr_overflow
    isr_bound_range_exceeded isr_invalid_opcode isr_device_not_available isr_double_fault
    isr_coprocessor_segment_overrun isr_invalid_tss isr_segment_not_present isr_stack_segment_fault
    isr_general_protected_fault isr_page_fault isr_x87_floating_point_exception isr_alignement_check
    isr_machine_check isr_smid_floating_point_exception isr_virtualization_exception
    isr_control_protected_exception hypervisor_injection_exception vmm_communication_exception
    security_exception
handle_lem string_at Isr.division_error t = refl
handle_lem string_at Isr.debug t = refl
handle_lem string_at Isr.nmi t = refl
handle_lem string_at Isr.breakpoint t = refl
handle_lem string_at Isr.overflow t = refl
handle_lem string_at Isr.bound_range_exceeded t = refl
handle_lem string_at Isr.invalid_opcode t = refl
handle_lem string_at Isr.device_not_available t = refl
handle_lem string_at Isr.double_fault t = refl
handle_lem string_at Isr.coprocessor_segment_overrun t = refl
handle_lem string_at Isr.invalid_tss t = refl
handle_lem string_at Isr.segment_not_present t = refl
handle_lem string_at Isr.stack_segment_fault t = refl
handle_lem string_at Isr.general_protected_fault t = refl
handle_lem string_at Isr.page_fault t = refl
handle_lem string_at Isr.x87_floating_point_exception t = refl
handle_lem string_at Isr.alignement_check t = refl
handle_lem string_at Isr.machine_check t = refl
handle_lem string_at Isr.smid_floating_point_exception t = refl
handle_lem string_at Isr.virtualization_exception t = refl
handle_lem string_at Isr.control_protected_exception t = refl
handle_lem string_at Isr.hypervisor_injection_exception t = refl
handle_lem string_at Isr.vmm_communication_exception t = refl
handle_lem string_at Isr.security_exception t = refl
