-- ===== src/Trb.antt =====
-- Transfer request blocks: src/device/xhci/trb.rs. A buffer is a list of 16 bytes.
-- Types has what the blocks share, Event the blocks that the controller writes, and Command,
-- Transfer and Link those that it parses. The driver's side of each is an independent description.
pub mod TrbTypes
pub mod Types
pub mod Event
pub mod Command
pub mod Transfer
pub mod Link
pub mod EventView
pub mod CommandParsing
pub mod TransferParsing
pub mod LinkParsing
mod Tests
