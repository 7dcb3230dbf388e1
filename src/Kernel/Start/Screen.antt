-- ===== src/Kernel/Start/Screen.antt =====
-- The screen when `_start` has printed its message.
use amethyst_os_old.Base.{
  ℕ, ◌*◌, ◌/◌, ◌%◌, ◌<◌, ◌≡◌, ap, ◌∙◌, some, ◌&&◌, List, arith, ltb, if◌then◌else◌, get_or, length,
  codes,
}
use amethyst_os_old.Kernel.Vga.{Store, vga_width, vga_height}
use amethyst_os_old.Kernel.Vga.Pixel.{screen}
use amethyst_os_old.Kernel.Vga.Glyph.{IsMemory}
use amethyst_os_old.Kernel.Console.{console_start, puts}
use amethyst_os_old.Kernel.Console.Picture.{picture, IsStored}
use amethyst_os_old.Kernel.Console.Cleared.{first_line}
use amethyst_os_old.Kernel.Pic.{Ports}
use amethyst_os_old.Kernel.Idt.{Isr, Idt}
use amethyst_os_old.Kernel.Alloc.{Heap}
use amethyst_os_old.Kernel.Pci.{Device, Devices}
use amethyst_os_old.Kernel.Start.{Kernel, boot}
use amethyst_os_old.Kernel.Start.Boot.{boot-IsBooted, set_up, set_up-console, greeting}

-- The message, less its line feed.
abbrev pub message : List ℕ
message = codes "Everything is init!"

module _ (address : Isr → ℕ) (dispatch font_address : ℕ) (config : ℕ → ℕ) (junk : Device) where
  -- If memory holds bytes, with the table of the font below the frame buffer, and the table of free
  -- blocks has a slot, `_start` comes to its message, and then the screen shows the message in white
  -- in the top left corner, in the bitmaps of the font, and black everywhere else.
  pub boot-screen :
      (string_at : ℕ → List ℕ) (m : Store) (p : Ports) (t : Idt) (h : Heap) (s : Devices)
      (px py : ℕ)
      → 0 < length h.freed
      → IsMemory m
      → IsStored font_address m
      → px < vga_width
      → py < vga_height
      → (k : Kernel) × (boot address dispatch font_address config junk string_at
            (record { console = console_start m; ports = p; idt = t; heap = h; devices = s })
          ≡ some k)
        × (screen (k.console).memory px py ≡ (
            if ltb py 8 && ltb px (length message * 6)
            then picture (get_or message (px / 6) 0) 0 0xf (px % 6) py
            else 0))
  boot-screen string_at m p t h s px py room bytes stored hx hy =
      let (run, booted) =
        boot-IsBooted address dispatch font_address config junk string_at m p t h s room in
      let k = set_up address dispatch font_address config junk m p t h s in
      (
        record k { console = puts greeting k.console },
        run,
        ap (λ c. screen (puts greeting c).memory px py)
              (set_up-console address dispatch font_address config junk m p t h s)
            ∙ first_line font_address m bytes stored message (omega arith) (omega arith)
                (omega arith) px py hx hy,
      )
