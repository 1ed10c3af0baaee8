-- ===== src/DynamicBus.antt =====
-- src/dynamic_bus.rs: a bus whose devices come and go. The lock and the swap of the bus are one step.
pub mod Mapping
pub mod Building
pub mod Remapping
mod Tests
use usbvfiod.Prelude.{ℕ, List}
use usbvfiod.Bus.Device.{Device}
use usbvfiod.Bus.Routing.{Bus}

-- `DeviceEntry` of src/dynamic_bus.rs
pub record Segment (S : Type 0) : Type 0 where
  pub start_addr : ℕ
  pub device : Device S

pub record DynamicBus (S : Type 0) : Type 0 where
  pub segments : List (Segment S)
  pub bus : Bus S
