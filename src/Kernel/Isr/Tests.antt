-- ===== src/Kernel/Isr/Tests.antt =====
-- A page fault on a console with the kernel's font.
use amethyst_os_old.Base.{ℕ, ◌≡◌, refl, List, [], some, arith, codes}
use amethyst_os_old.Kernel.Font.{font_6x8}
use amethyst_os_old.Kernel.Console.{Console}
use amethyst_os_old.Kernel.Console.Loaded.{loaded, loaded-IsMemory, loaded-IsStored}
use amethyst_os_old.Kernel.Console.Picture.{IsFitted}
use amethyst_os_old.Kernel.Console.Row.{ShowsRow}
use amethyst_os_old.Kernel.Idt.{Isr}
use amethyst_os_old.Kernel.Isr.{halt, return_interrupt, handle}
use amethyst_os_old.Kernel.Isr.Message.{message, ending}
use amethyst_os_old.Kernel.Isr.Report.{below, handle-ShowsRow}

abbrev no_strings : ℕ → List ℕ
no_strings p = []

abbrev running : Console
running = record {
  cur_x = 12;
  cur_y = 3;
  bg_color = 1;
  fg_color = 15;
  font = some (font_6x8 0x2_0000);
  memory = loaded;
}

running-IsFitted : IsFitted 0x2_0000 running
unfolding font_6x8
running-IsFitted = record {
  ready = record {
    chosen = refl;
    wide = omega arith;
    width_fits = omega arith;
    high = omega arith;
    height_fits = omega arith;
    column = omega arith;
    line = omega arith;
  };
  typed = record { bytes = loaded-IsMemory; bg = omega arith; fg = omega arith };
  stored = loaded-IsStored;
}

page_fault_text : message Isr.page_fault ≡ codes "Page fault, halt"
unfolding message
page_fault_text = refl

endings : (ending Isr.page_fault ≡ halt) × (ending Isr.breakpoint ≡ return_interrupt)
unfolding message ending
endings = (refl, refl)

handle-ShowsRow_example :
    (t' : Console) × (handle no_strings Isr.page_fault running ≡ some (t', ending Isr.page_fault))
    × ShowsRow (message Isr.page_fault) (below Isr.page_fault running) t'
    × IsFitted 0x2_0000 t'
handle-ShowsRow_example =
    handle-ShowsRow 0x2_0000 Isr.page_fault running running-IsFitted (omega arith) (omega arith)
      no_strings
