-- ===== src/Kernel/Start/Tests.antt =====
-- The start of the kernel on a machine with one PCI device, over tables of two slots.
use amethyst_os_old.Base.{
  ◌/◌, ◌%◌, ◌&&◌, true, ◌-◌, leb, ltb, get_or, length, codes, refl, ◌<◌, ◌++◌, ℕ, ◌+◌, ◌*◌, ◌^◌,
  ◌≡◌, some, List, [], ◌∷◌, arith, ◌==◌, if◌then◌else◌,
}
use amethyst_os_old.Kernel.Vga.{Store}
use amethyst_os_old.Kernel.Console.{console_start, clear, set_font, puts}
use amethyst_os_old.Kernel.Idt.{Isr, Idt}
use amethyst_os_old.Kernel.Alloc.{Chunk, Heap}
use amethyst_os_old.Kernel.Pci.{Device, Devices}
use amethyst_os_old.Kernel.Start.{Kernel, boot, start}
use amethyst_os_old.Kernel.Start.Screen.{message, boot-screen}
use amethyst_os_old.Kernel.Console.Picture.{picture, IsStored}
use amethyst_os_old.Kernel.Vga.Pixel.{screen}
use amethyst_os_old.Kernel.Vga.Glyph.{IsMemory}
use amethyst_os_old.Kernel.Font.Table.{fontdata_byte}
use amethyst_os_old.Kernel.Start.Boot.{IsBooted, greeting}
use amethyst_os_old.Kernel.Start.Listing.{class_text, listing}
use amethyst_os_old.Kernel.Start.Complete.{start-IsBooted}
use amethyst_os_old.Kernel.Pci.{config_address, dev_max_count}
use amethyst_os_old.Kernel.Pci.Scan.{present}
use amethyst_os_old.Kernel.Font.{font_6x8, fontdata_6x8}
use amethyst_os_old.Libc.Number.{digit}

abbrev black : Store
black a = 0

abbrev handler : Isr → ℕ
handler isr = 0x1_0000

abbrev machine : ℕ → ℕ
machine a = if a == 2 ^ 31 + 2 ^ 11 * 3 then 0x100e_8086 else 0xffff_ffff

abbrev blank : Device
blank = record {
  zero_bits = 0;
  field = 0;
  function = 0;
  slot = 0;
  bus = 0;
  reserved = 0;
  enable = 0;
}

abbrev no_gates : Idt
no_gates = record {
  entry = λ v. record { addr_low = 0; segment = 0; reserved = 0; attributs = 0; addr_high = 0 };
  limit = 0;
}

abbrev empty_slots : List Chunk
empty_slots = record { start = 0; size = 0 } ∷ record { start = 0; size = 0 } ∷ []

abbrev no_heap : Heap
no_heap = record { allocated = empty_slots; freed = empty_slots }

abbrev no_devices : Devices
no_devices = record { count = 0; entry = λ i. 0 }

machine_word : (a : ℕ) → machine a < 2 ^ 32
machine_word a = ground arith

abbrev before : Kernel
before = record {
  console = console_start black;
  ports = [];
  idt = no_gates;
  heap = no_heap;
  devices = no_devices;
}

start-IsBooted_example :
    (k : Kernel) × (start handler 0x2_0000 0x3_0000 machine blank (λ p. []) before ≡ some k)
    × IsBooted handler 0x2_0000 0x3_0000 machine blank k
    × (k.console
        ≡ puts
            (greeting ++ listing machine (present machine blank dev_max_count))
            (set_font (some (font_6x8 0x3_0000)) (clear (console_start black))))
start-IsBooted_example =
    start-IsBooted handler 0x2_0000 0x3_0000 machine blank (λ p. []) black [] no_gates no_heap
      no_devices (omega arith) machine_word

-- The line of the device.
card_line : listing machine (2 ^ 11 * 3 ∷ []) ≡ codes "Vendor:8086, Device:100E, Cl: FF-FF\n"
unfolding class_text digit config_address
card_line = refl

-- A USB controller with a programming interface that `_start` does not know gets no line end.
abbrev uhci : ℕ → ℕ
uhci a = 0x0c03_0000

uhci_line : listing uhci (0 ∷ []) ≡ codes "Vendor:0000, Device:0C03, "
unfolding class_text digit config_address
uhci_line = refl

-- A memory that holds the font's table.
abbrev loaded : Store
loaded a =
    if leb 0x3_0000 a && ltb a (0x3_0000 + 2048) then get_or fontdata_6x8 (a - 0x3_0000) 0 else 0

loaded-IsMemory : IsMemory loaded
loaded-IsMemory a = ground (arith, fontdata_byte (a - 0x3_0000))

loaded-IsStored : IsStored 0x3_0000 loaded
loaded-IsStored = record {
  same = λ i lt.
      let there : 0x3_0000 + i - 0x3_0000 ≡ i = omega arith in
      let inside : leb 0x3_0000 (0x3_0000 + i) && ltb (0x3_0000 + i) (0x3_0000 + 2048) ≡ true =
        ground arith in
      rw (inside, there) refl;
  below = omega arith;
}

-- The column 2 of line 0 of the E.
boot-screen_example :
    (k : Kernel) × (boot handler 0x2_0000 0x3_0000 machine blank
        (λ p. [])
        (record before { console = console_start loaded })
      ≡ some k)
    × (screen (k.console).memory 2 0 ≡ (
        if ltb 0 8 && ltb 2 (length message * 6)
        then picture (get_or message (2 / 6) 0) 0 0xf (2 % 6) 0
        else 0))
boot-screen_example =
    boot-screen handler 0x2_0000 0x3_0000 machine blank (λ p. []) loaded [] no_gates no_heap
      no_devices 2 0 (omega arith) loaded-IsMemory loaded-IsStored (omega arith) (omega arith)

-- That pixel is white.
white : picture (get_or message 0 0) 0 0xf 2 0 ≡ 0xf
unfolding picture fontdata_6x8
white = refl
