-- ===== src/Kernel/Pci/Bits.antt =====
-- The two members of the union `pci_device_t`.
use amethyst_os_old.Base.{ℕ, ◌/◌, ◌%◌, ◌^◌, ◌<◌, ◌≡◌, arith}
use amethyst_os_old.Kernel.Pci.{Device, bits, of_bits}

-- Each bit field holds what its width can.
pub record IsDevice (d : Device) : Type 0 where
  pub zero_bits : d.zero_bits < 2 ^ 2
  pub field : d.field < 2 ^ 6
  pub function : d.function < 2 ^ 3
  pub slot : d.slot < 2 ^ 5
  pub bus : d.bus < 2 ^ 8
  pub reserved : d.reserved < 2 ^ 7
  pub enable : d.enable < 2

-- The fields of a device come back from its `bits`, which are a word of 32 bits.
pub of_bits-bits : (d : Device) → IsDevice d → (of_bits (bits d) ≡ d) × (bits d < 2 ^ 32)
of_bits-bits d h = (
  λ i. record {
    zero_bits = z₀ i;
    field = z₁ i;
    function = z₂ i;
    slot = z₃ i;
    bus = z₄ i;
    reserved = z₅ i;
    enable = z₆ i;
  },
  omega arith,
)
  where
    z₀ : bits d % 4 ≡ d.zero_bits
    z₀ = omega arith

    z₁ : bits d / 2 ^ 2 % 64 ≡ d.field
    z₁ = omega arith

    z₂ : bits d / 2 ^ 8 % 8 ≡ d.function
    z₂ = omega arith

    z₃ : bits d / 2 ^ 11 % 32 ≡ d.slot
    z₃ = omega arith

    z₄ : bits d / 2 ^ 16 % 256 ≡ d.bus
    z₄ = omega arith

    z₅ : bits d / 2 ^ 24 % 128 ≡ d.reserved
    z₅ = omega arith

    z₆ : bits d / 2 ^ 31 % 2 ≡ d.enable
    z₆ = omega arith

-- Every word of 32 bits is the `bits` of its fields.
pub bits-of_bits : (n : ℕ) → n < 2 ^ 32 → bits (of_bits n) ≡ n
bits-of_bits n lt = omega arith
