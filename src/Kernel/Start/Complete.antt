-- ===== src/Kernel/Start/Complete.antt =====
-- `_start` as a whole.
use amethyst_os_old.Base.{ℕ, ◌^◌, ◌<◌, ◌≡◌, refl, sym, ap₂, ◌∙◌, some, List, ◌++◌, arith, length}
use amethyst_os_old.Kernel.Font.{font_6x8}
use amethyst_os_old.Kernel.Vga.{Store}
use amethyst_os_old.Kernel.Console.{console_start, clear, set_font, puts}
use amethyst_os_old.Kernel.Console.Text.{puts-append}
use amethyst_os_old.Kernel.Pic.{Ports}
use amethyst_os_old.Kernel.Idt.{Isr, Idt}
use amethyst_os_old.Kernel.Alloc.{Heap}
use amethyst_os_old.Kernel.Pci.{Device, Devices, dev_max_count}
use amethyst_os_old.Kernel.Pci.Scan.{entries, present}
use amethyst_os_old.Kernel.Start.{Kernel, start}
use amethyst_os_old.Kernel.Start.Boot.{
  IsBooted, boot-IsBooted, set_up, set_up-console, puts-IsBooted, greeting,
}
use amethyst_os_old.Kernel.Start.Listing.{listing, list_devices_lem}

module _ (address : Isr → ℕ) (dispatch font_address : ℕ) (config : ℕ → ℕ) (junk : Device) where
  -- From any memory, tables and ports, if the table of free blocks has a slot and the words of the
  -- configuration space have 32 bits, `_start` comes to its endless loop. By then the kernel is
  -- booted, and on the cleared console it has printed its message and, for each device that answers,
  -- in order, its vendor and number, and behind them on the line its class, or for a USB controller
  -- the base address of EHCI or the two of XHCI. For a USB controller of another programming interface
  -- nothing follows, not even the end of the line.
  pub start-IsBooted :
      (string_at : ℕ → List ℕ) (m : Store) (p : Ports) (t : Idt) (h : Heap) (s : Devices)
      → 0 < length h.freed
      → ((a : ℕ) → config a < 2 ^ 32)
      → (k : Kernel) × (start address dispatch font_address config junk string_at
            (record { console = console_start m; ports = p; idt = t; heap = h; devices = s })
          ≡ some k)
        × IsBooted address dispatch font_address config junk k
        × (k.console
            ≡ puts
                (greeting ++ listing config (present config junk dev_max_count))
                (set_font (some (font_6x8 font_address)) (clear (console_start m))))
  unfolding start
  start-IsBooted string_at m p t h s room word =
      let (run, booted) =
        boot-IsBooted address dispatch font_address config junk string_at m p t h s room in
      let k = set_up address dispatch font_address config junk m p t h s in
      let k' = record k { console = puts greeting k.console } in
      let text = listing config (entries k.devices.count k.devices.entry) in
      (
        record k' { console = puts text k'.console },
        rw
            (
              run,
              start,
              list_devices_lem string_at config word k.devices.count k.devices.entry k'.console,
            )
            refl,
        puts-IsBooted address dispatch font_address config junk text k' booted,
        sym (
              puts-append greeting text
                (set_up address dispatch font_address config junk m p t h s).console (omega arith))
            ∙ ap₂ (λ l c. puts (greeting ++ listing config l) c) booted.devices
                (set_up-console address dispatch font_address config junk m p t h s),
      )
