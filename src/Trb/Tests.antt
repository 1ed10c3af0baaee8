-- ===== src/Trb/Tests.antt =====
-- The blocks of src/device/xhci/trb.rs at concrete values.
use usbvfiod.Prelude.{◌≡◌, refl, true, false, some, [], ◌∷◌, arith}
use usbvfiod.Trb.Types.{success, code}
use usbvfiod.Trb.Event
use usbvfiod.Trb.Event.{EventTrb, to_bytes, trb_data, new_command_completion_event_trb}
use usbvfiod.Trb.EventView.{view, fields, view-to_bytes}
use usbvfiod.Trb.Command
use usbvfiod.Trb.CommandParsing.{
  encode_command, parse-encode_command, set_tr_dequeue_pointer_bytes,
  parse-set_tr_dequeue_pointer_bytes,
}
use usbvfiod.Trb.Transfer
use usbvfiod.Trb.TransferParsing.{encode_transfer, parse-encode_transfer}

abbrev completion_event : EventTrb
completion_event = Event.command_completion (record {
  command_trb_pointer = 0x1234567890;
  command_completion_parameter = 0x11;
  completion_code = success;
  slot_id = 2;
})

-- The bytes of a completion event.
to_bytes_test :
    to_bytes completion_event true
    ≡ 0x90 ∷ 0x78 ∷ 0x56 ∷ 0x34 ∷ 0x12 ∷ 0 ∷ 0 ∷ 0 ∷ 0x11 ∷ 0 ∷ 0 ∷ 1 ∷ 1 ∷ 132 ∷ 0 ∷ 2 ∷ []
unfolding to_bytes trb_data Event.command_completion_to_bytes code
to_bytes_test = refl

view-to_bytes_example : view (to_bytes completion_event true) ≡ fields completion_event true
view-to_bytes_example = view-to_bytes completion_event true (omega arith, omega arith)

abbrev address_command : Command.CommandTrbVariant
address_command =
    Command.address_device
      (record { input_context_pointer = 0x10000; block_set_address_request = true; slot_id = 1 })

parse-encode_command_example :
    Command.parse (encode_command true address_command) ≡ some address_command
parse-encode_command_example = parse-encode_command true address_command (omega arith, omega arith)

parse-set_tr_dequeue_pointer_bytes_example :
    Command.parse (set_tr_dequeue_pointer_bytes 0x1000 true 1 5 true 3 1)
    ≡ some (
        Command.set_tr_dequeue_pointer (record {
          dequeue_cycle_state = true;
          stream_context_type = 2;
          dequeue_pointer = 0x1000;
          stream_id = 256;
          endpoint_id = 3;
          slot_id = 1;
        }))
parse-set_tr_dequeue_pointer_bytes_example =
    parse-set_tr_dequeue_pointer_bytes 0x1000 true 1 5 true 3 1 (omega arith) (omega arith)
      (omega arith) (omega arith)

abbrev normal_block : Transfer.TransferTrbVariant
normal_block = Transfer.normal (record {
  data_pointer = 0x2004;
  transfer_length = 0x10010;
  chain = true;
  interrupt_on_completion = true;
  immediate_data = false;
  interrupt_on_short = true;
})

parse-encode_transfer_example :
    Transfer.parse (encode_transfer false normal_block) ≡ some normal_block
parse-encode_transfer_example = parse-encode_transfer false normal_block (omega arith, omega arith)
