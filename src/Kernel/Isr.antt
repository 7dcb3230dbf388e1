-- ===== src/Kernel/Isr.antt =====
-- src/kernel/src/kernel/isr.c: the exception handlers, and src/kernel/src/libc/printf.c: `printf` on the
-- console. A handler prints on the console, and then calls `halt` or `return_interrupt`.
pub mod Report
pub mod Message
mod Tests
use mathlib.Core.Option
use amethyst_os_old.Base.{ℕ, Option, none, some, List, [], length, leb, if◌then◌else◌, codes}
use amethyst_os_old.Libc.Format.{Output, vsprintf}
use amethyst_os_old.Kernel.Console.{Console, puts, set_fg_color, set_bg_color}
use amethyst_os_old.Kernel.Idt
use amethyst_os_old.Kernel.Idt.{Isr}

-- The size of `printf_buf`. A longer text runs over it, which is undefined in C.
abbrev pub buffer_size : ℕ
buffer_size = 1024

-- `none` is for what is undefined: an argument that is not there, or a text that overruns the buffer.
pub printf : (ℕ → List ℕ) → List ℕ → List ℕ → Console → Option Console
printf string_at fmt args t = elim (vsprintf string_at fmt args) [
  | none ↦ none
  | some o ↦ if leb buffer_size (length o.text) then none else some (puts o.text t)
]

-- The function that a handler calls last, neither of which comes back to it. `halt` stops the
-- processor. `return_interrupt` is a bare `iret`: called as a function, it takes the handler's own
-- return address and the words behind it on the stack for what the interrupt saved, so it does not
-- resume what was interrupted, and what runs then is not known.
pub data Exit : Type 0 where
  halt return_interrupt : Exit

abbrev info_bg_color : ℕ
info_bg_color = 0

abbrev info_fg_color : ℕ
info_fg_color = 0xf

abbrev fatal_bg_color : ℕ
fatal_bg_color = 0

abbrev fatal_fg_color : ℕ
fatal_fg_color = 0x28

module _ (string_at : ℕ → List ℕ) where
  -- The body that all handlers share.
  pub report : ℕ → ℕ → List ℕ → Exit → Console → Option (Console × Exit)
  report bg fg text exit t =
      Option.map (λ t'. (t', exit)) (printf string_at text [] (set_fg_color fg (set_bg_color bg t)))

  pub isr_division_error : Console → Option (Console × Exit)
  isr_division_error = report fatal_bg_color fatal_fg_color (codes "\nDivision by 0, halt") halt

  pub isr_debug : Console → Option (Console × Exit)
  isr_debug = report info_bg_color info_fg_color (codes "\nDebug is not supported") return_interrupt

  pub isr_nmi : Console → Option (Console × Exit)
  isr_nmi = report info_bg_color info_fg_color (codes "\nNMI are not supported") return_interrupt

  pub isr_breakpoint : Console → Option (Console × Exit)
  isr_breakpoint =
      report info_bg_color info_fg_color (codes "\nBreakpoint are not supported!") return_interrupt

  pub isr_overflow : Console → Option (Console × Exit)
  isr_overflow = report fatal_bg_color fatal_fg_color (codes "\nOverflow, halt") halt

  pub isr_bound_range_exceeded : Console → Option (Console × Exit)
  isr_bound_range_exceeded =
      report fatal_bg_color fatal_fg_color (codes "\nBound range exceeded, halt") halt

  pub isr_invalid_opcode : Console → Option (Console × Exit)
  isr_invalid_opcode =
      report info_bg_color info_fg_color (codes "\nInvalid opcode") return_interrupt

  pub isr_device_not_available : Console → Option (Console × Exit)
  isr_device_not_available =
      report info_bg_color info_fg_color (codes "\nDevice is not available") return_interrupt

  pub isr_double_fault : Console → Option (Console × Exit)
  isr_double_fault = report fatal_bg_color fatal_fg_color (codes "\ndouble fault, halt") halt

  pub isr_coprocessor_segment_overrun : Console → Option (Console × Exit)
  isr_coprocessor_segment_overrun =
      report fatal_bg_color fatal_fg_color (codes "\nCoprocessor segment overrun, halt") halt

  pub isr_invalid_tss : Console → Option (Console × Exit)
  isr_invalid_tss = report fatal_bg_color fatal_fg_color (codes "\nInvalid TSS, halt") halt

  pub isr_segment_not_present : Console → Option (Console × Exit)
  isr_segment_not_present =
      report fatal_bg_color fatal_fg_color (codes "\nSegment is not present, halt") halt

  pub isr_stack_segment_fault : Console → Option (Console × Exit)
  isr_stack_segment_fault =
      report fatal_bg_color fatal_fg_color (codes "\nStack segment fault, halt") halt

  pub isr_general_protected_fault : Console → Option (Console × Exit)
  isr_general_protected_fault =
      report fatal_bg_color fatal_fg_color (codes "\nInvalid protected fault, halt") halt

  pub isr_page_fault : Console → Option (Console × Exit)
  isr_page_fault = report fatal_bg_color fatal_fg_color (codes "\nPage fault, halt") halt

  pub isr_x87_floating_point_exception : Console → Option (Console × Exit)
  isr_x87_floating_point_exception =
      report fatal_bg_color fatal_fg_color (codes "\nX87 floating-point exception, halt") halt

  pub isr_alignement_check : Console → Option (Console × Exit)
  isr_alignement_check =
      report info_bg_color info_fg_color (codes "\nAlignement check") return_interrupt

  pub isr_machine_check : Console → Option (Console × Exit)
  isr_machine_check = report info_bg_color info_fg_color (codes "\nMachine check") return_interrupt

  pub isr_smid_floating_point_exception : Console → Option (Console × Exit)
  isr_smid_floating_point_exception =
      report fatal_bg_color fatal_fg_color (codes "\nSMID floating-point exception, halt") halt

  pub isr_virtualization_exception : Console → Option (Console × Exit)
  isr_virtualization_exception =
      report fatal_bg_color fatal_fg_color (codes "\nVirtualization exception, halt") halt

  pub isr_control_protected_exception : Console → Option (Console × Exit)
  isr_control_protected_exception =
      report fatal_bg_color fatal_fg_color (codes "\ncontrol protected exception, halt") halt

  pub hypervisor_injection_exception : Console → Option (Console × Exit)
  hypervisor_injection_exception =
      report fatal_bg_color fatal_fg_color (codes "\nhypervisor injection exception, halt") halt

  pub vmm_communication_exception : Console → Option (Console × Exit)
  vmm_communication_exception =
      report fatal_bg_color fatal_fg_color (codes "\nVMM communication exception, halt") halt

  pub security_exception : Console → Option (Console × Exit)
  security_exception =
      report fatal_bg_color fatal_fg_color (codes "\nSecurity exception, halt") halt

  -- What an interrupt runs, through the gate that `idt_init` sets for the handler.
  pub handle : Isr → Console → Option (Console × Exit)
  handle Isr.division_error = isr_division_error
  handle Isr.debug = isr_debug
  handle Isr.nmi = isr_nmi
  handle Isr.breakpoint = isr_breakpoint
  handle Isr.overflow = isr_overflow
  handle Isr.bound_range_exceeded = isr_bound_range_exceeded
  handle Isr.invalid_opcode = isr_invalid_opcode
  handle Isr.device_not_available = isr_device_not_available
  handle Isr.double_fault = isr_double_fault
  handle Isr.coprocessor_segment_overrun = isr_coprocessor_segment_overrun
  handle Isr.invalid_tss = isr_invalid_tss
  handle Isr.segment_not_present = isr_segment_not_present
  handle Isr.stack_segment_fault = isr_stack_segment_fault
  handle Isr.general_protected_fault = isr_general_protected_fault
  handle Isr.page_fault = isr_page_fault
  handle Isr.x87_floating_point_exception = isr_x87_floating_point_exception
  handle Isr.alignement_check = isr_alignement_check
  handle Isr.machine_check = isr_machine_check
  handle Isr.smid_floating_point_exception = isr_smid_floating_point_exception
  handle Isr.virtualization_exception = isr_virtualization_exception
  handle Isr.control_protected_exception = isr_control_protected_exception
  handle Isr.hypervisor_injection_exception = hypervisor_injection_exception
  handle Isr.vmm_communication_exception = vmm_communication_exception
  handle Isr.security_exception = security_exception
