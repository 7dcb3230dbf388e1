-- ===== src/Kernel/Run/Tests/Linked.antt =====
-- A kernel as a linker may place it.
use amethyst_os_old.Base.{ℕ, ◌+◌, ◌-◌, ◌≡◌, refl, Option, some, List, [], ◌∷◌, get_elem?}
use amethyst_os_old.Kernel.Idt.{Isr}
use amethyst_os_old.Kernel.Run.{Code, handler, system_calls}
use amethyst_os_old.Kernel.Run.Served.{IsLinked}

-- The handlers lie from 0x10000 on, and `dispatch` behind them.
abbrev place : Isr → ℕ
place Isr.division_error = 0
place Isr.debug = 1
place Isr.nmi = 2
place Isr.breakpoint = 3
place Isr.overflow = 4
place Isr.bound_range_exceeded = 5
place Isr.invalid_opcode = 6
place Isr.device_not_available = 7
place Isr.double_fault = 8
place Isr.coprocessor_segment_overrun = 9
place Isr.invalid_tss = 10
place Isr.segment_not_present = 11
place Isr.stack_segment_fault = 12
place Isr.general_protected_fault = 13
place Isr.page_fault = 14
place Isr.x87_floating_point_exception = 15
place Isr.alignement_check = 16
place Isr.machine_check = 17
place Isr.smid_floating_point_exception = 18
place Isr.virtualization_exception = 19
place Isr.control_protected_exception = 20
place Isr.hypervisor_injection_exception = 21
place Isr.vmm_communication_exception = 22
place Isr.security_exception = 23

abbrev linked_code : List Code
linked_code =
    handler Isr.division_error
    ∷ handler Isr.debug
    ∷ handler Isr.nmi
    ∷ handler Isr.breakpoint
    ∷ handler Isr.overflow
    ∷ handler Isr.bound_range_exceeded
    ∷ handler Isr.invalid_opcode
    ∷ handler Isr.device_not_available
    ∷ handler Isr.double_fault
    ∷ handler Isr.coprocessor_segment_overrun
    ∷ handler Isr.invalid_tss
    ∷ handler Isr.segment_not_present
    ∷ handler Isr.stack_segment_fault
    ∷ handler Isr.general_protected_fault
    ∷ handler Isr.page_fault
    ∷ handler Isr.x87_floating_point_exception
    ∷ handler Isr.alignement_check
    ∷ handler Isr.machine_check
    ∷ handler Isr.smid_floating_point_exception
    ∷ handler Isr.virtualization_exception
    ∷ handler Isr.control_protected_exception
    ∷ handler Isr.hypervisor_injection_exception
    ∷ handler Isr.vmm_communication_exception
    ∷ handler Isr.security_exception
    ∷ system_calls
    ∷ []

abbrev pub address : Isr → ℕ
address isr = 0x1_0000 + place isr

abbrev pub code_at : ℕ → Option Code
code_at a = get_elem? linked_code (a - 0x1_0000)

handlers_linked : (isr : Isr) → code_at (address isr) ≡ some (handler isr)
handlers_linked Isr.division_error = refl
handlers_linked Isr.debug = refl
handlers_linked Isr.nmi = refl
handlers_linked Isr.breakpoint = refl
handlers_linked Isr.overflow = refl
handlers_linked Isr.bound_range_exceeded = refl
handlers_linked Isr.invalid_opcode = refl
handlers_linked Isr.device_not_available = refl
handlers_linked Isr.double_fault = refl
handlers_linked Isr.coprocessor_segment_overrun = refl
handlers_linked Isr.invalid_tss = refl
handlers_linked Isr.segment_not_present = refl
handlers_linked Isr.stack_segment_fault = refl
handlers_linked Isr.general_protected_fault = refl
handlers_linked Isr.page_fault = refl
handlers_linked Isr.x87_floating_point_exception = refl
handlers_linked Isr.alignement_check = refl
handlers_linked Isr.machine_check = refl
handlers_linked Isr.smid_floating_point_exception = refl
handlers_linked Isr.virtualization_exception = refl
handlers_linked Isr.control_protected_exception = refl
handlers_linked Isr.hypervisor_injection_exception = refl
handlers_linked Isr.vmm_communication_exception = refl
handlers_linked Isr.security_exception = refl

pub linked : IsLinked code_at address 0x1_0018
linked = record { handlers = handlers_linked; calls = refl }
