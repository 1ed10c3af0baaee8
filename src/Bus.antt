-- ===== src/Bus.antt =====
-- The memory bus: src/device/bus.rs.
-- Request has the requests, Device the trait `BusDevice` with its default methods, Routing the bus
-- itself and Bulk its bulk accesses. The other children prove what they do.
pub mod Request
pub mod Device
pub mod Routing
pub mod Bulk
pub mod Validity
pub mod Dispatch
pub mod Coverage
pub mod BulkLoops
pub mod BulkAccess
mod Tests
