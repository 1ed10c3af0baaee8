-- ===== src/Trb/TrbTypes.antt =====
-- The block types of src/device/pci/constants.rs, `rings::trb_types`.
use usbvfiod.Prelude.{ℕ}

abbrev pub normal : ℕ
normal = 1

abbrev pub setup_stage : ℕ
setup_stage = 2

abbrev pub data_stage : ℕ
data_stage = 3

abbrev pub status_stage : ℕ
status_stage = 4

abbrev pub isoch : ℕ
isoch = 5

abbrev pub link : ℕ
link = 6

abbrev pub event_data : ℕ
event_data = 7

abbrev pub no_op : ℕ
no_op = 8

abbrev pub enable_slot_command : ℕ
enable_slot_command = 9

abbrev pub disable_slot_command : ℕ
disable_slot_command = 10

abbrev pub address_device_command : ℕ
address_device_command = 11

abbrev pub configure_endpoint_command : ℕ
configure_endpoint_command = 12

abbrev pub evaluate_context_command : ℕ
evaluate_context_command = 13

abbrev pub reset_endpoint_command : ℕ
reset_endpoint_command = 14

abbrev pub stop_endpoint_command : ℕ
stop_endpoint_command = 15

abbrev pub set_tr_dequeue_pointer_command : ℕ
set_tr_dequeue_pointer_command = 16

abbrev pub reset_device_command : ℕ
reset_device_command = 17

abbrev pub force_event_command : ℕ
force_event_command = 18

abbrev pub negotiate_bandwidth_command : ℕ
negotiate_bandwidth_command = 19

abbrev pub set_latency_tolerance_value_command : ℕ
set_latency_tolerance_value_command = 20

abbrev pub get_port_bandwidth_command : ℕ
get_port_bandwidth_command = 21

abbrev pub force_header_command : ℕ
force_header_command = 22

abbrev pub no_op_command : ℕ
no_op_command = 23

abbrev pub transfer_event : ℕ
transfer_event = 32

abbrev pub command_completion_event : ℕ
command_completion_event = 33

abbrev pub port_status_change_event : ℕ
port_status_change_event = 34
