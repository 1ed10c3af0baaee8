-- ===== src/Registers.antt =====
-- The single registers of src/device/xhci/registers.rs, as the values that they hold. Atomic accesses are
-- one step each. What waits for a register to be written is left out.
pub mod Portsc
pub mod Operational
pub mod Changes
pub mod Resets
mod Tests
use usbvfiod.Prelude.{ℕ, ◌-◌, ◌^◌, bit_xor}

-- `!x` on a `u64`.
abbrev pub not_u64 : ℕ → ℕ
not_u64 x = bit_xor x (2 ^ 64 - 1)
