-- ===== src/Kernel/Idt/Tests.antt =====
-- The table at vector 3, for handlers that the linker put 16 bytes apart.
use amethyst_os_old.Base.{ℕ, ◌+◌, ◌*◌, ◌≤◌, ◌<◌, ◌≡◌, ◌≢◌, ◌⊎◌, refl, some, none, get_elem?}
use amethyst_os_old.Kernel.Idt.{
  Isr, isr_list, Idt, interrupt_gate, idt_set_descriptor, load_idtr, set_gate, set_gates, idt_init,
}
use amethyst_os_old.Kernel.Idt.Gates.{IsGate, idt_set_descriptor_lem, idt_init_lem}

abbrev handler : Isr → ℕ
handler Isr.breakpoint = 0x12_3456
handler _ = 0x1_0000

abbrev empty : Idt
empty = record {
  entry = λ v. record { addr_low = 0; segment = 0; reserved = 0; attributs = 0; addr_high = 0 };
  limit = 0;
}

breakpoint_low : ((idt_init handler empty).entry 3).addr_low ≡ 0x3456
unfolding idt_init load_idtr set_gates set_gate idt_set_descriptor isr_list
breakpoint_low = refl

reserved_vector : ((idt_init handler empty).entry 0xf).attributs ≡ 0
unfolding idt_init load_idtr set_gates set_gate idt_set_descriptor isr_list
reserved_vector = refl

idt_set_descriptor_lem_example :
    IsGate ((idt_set_descriptor 0xaa 0x12_3456 interrupt_gate empty).entry 0xaa) 0x12_3456
    × (◌≢◌ {A = ℕ} 3 0xaa
        → (idt_set_descriptor 0xaa 0x12_3456 interrupt_gate empty).entry 3 ≡ empty.entry 3)
idt_set_descriptor_lem_example = idt_set_descriptor_lem 0xaa 0x12_3456 empty 3

idt_init_lem_example :
    ((isr : Isr)
      → 3 < 0x20
      → get_elem? isr_list 3 ≡ some (some isr)
      → IsGate ((idt_init handler empty).entry 3) (handler isr))
    × ((0x20 ≤ 3) ⊎ (get_elem? isr_list 3 ≡ some none)
        → (idt_init handler empty).entry 3 ≡ empty.entry 3)
    × ((idt_init handler empty).limit + 1 ≡ 8 * 256)
idt_init_lem_example = idt_init_lem handler 3 empty
