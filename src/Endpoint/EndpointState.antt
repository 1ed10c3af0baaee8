-- ===== src/Endpoint/EndpointState.antt =====
-- The states of an endpoint, as src/device/pci/constants.rs numbers them in `endpoint_state`.
use usbvfiod.Prelude.{ℕ}

abbrev pub disabled : ℕ
disabled = 0

abbrev pub running : ℕ
running = 1

abbrev pub halted : ℕ
halted = 2

abbrev pub stopped : ℕ
stopped = 3

abbrev pub error : ℕ
error = 4
