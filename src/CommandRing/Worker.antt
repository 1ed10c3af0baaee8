-- ===== src/CommandRing/Worker.antt =====
-- `CommandWorker` of src/device/xhci/command_ring.rs: the rounds of `run_loop`, one function for each state.
use usbvfiod.Prelude.{
  ℕ, ◌==◌, if◌then◌else◌, true, false, Option, none, some, List, [], ◌∷◌, M, pure, panic, ◌>>=◌,
  bit_and,
}
use usbvfiod.Bus.Device.{Device}
use usbvfiod.Trb.Types.{CompletionCode, success, trb_error, command_ring_stopped}
use usbvfiod.Trb.Event.{EventTrb, new_command_completion_event_trb}
use usbvfiod.Trb.Command
use usbvfiod.Trb.Command.{
  CommandTrb, CommandTrbVariant, no_op, enable_slot, disable_slot, address_device,
  configure_endpoint, evaluate_context, reset_endpoint, stop_endpoint, set_tr_dequeue_pointer,
  reset_device, force_header, unrecognized,
}
use usbvfiod.LinkedRing
use usbvfiod.LinkedRing.{LinkedRing, RawTrb}
use usbvfiod.SlotManager.{Answer, gone, done, ◌>>?◌}
use usbvfiod.SlotManager.Table.{Allocated, ok, err}
use usbvfiod.CommandRing.{
  WorkerState, stopped, idle, looking_for_new_command, stopping, processing_command, WorkerMessage,
  set_dequeue_pointer_and_cs, doorbell, stop, reset, CommandRing, Output, event, reset_done, Slots,
}

-- `usbcmd::RS`
abbrev pub rs : ℕ
rs = 0x1

abbrev pub Round : Type 0
Round = CommandRing × Option Output

-- `WorkerState::Stopped`, on a message.
unfoldable pub in_stopped : CommandRing → ℕ → WorkerMessage → Round
in_stopped c usbcmd (reset completion) =
    (record c { running = false }, some (reset_done completion))
in_stopped c usbcmd (set_dequeue_pointer_and_cs dp cs) =
    (record c { ring = LinkedRing.set_dequeue_pointer c.ring dp cs }, none)
in_stopped c usbcmd doorbell =
    if bit_and usbcmd rs == rs
    then (record c { running = true; state = looking_for_new_command }, none)
    else (c, none)
in_stopped c usbcmd stop = (c, none)

-- `WorkerState::Idle`, on a message.
unfoldable pub in_idle : CommandRing → WorkerMessage → Round
in_idle c (reset completion) =
    (record c { running = false; state = stopped }, some (reset_done completion))
in_idle c doorbell = (record c { state = looking_for_new_command }, none)
in_idle c stop = (record c { state = stopping }, none)
in_idle c (set_dequeue_pointer_and_cs dp cs) = (c, none)

-- How the loop over messages in `WorkerState::LookingForNewCommand` ends: the channel is closed, or it
-- leaves for the next round, or goes on to look for a command.
pub data Consumed : Type 0 where
  lost : Consumed
  leaves : CommandRing → Consumed
  goes_on : CommandRing → Option Output → Consumed

unfoldable pub consume : CommandRing → List WorkerMessage → Consumed
consume c [] = if c.abandoned then lost else goes_on (record c { inbox = [] }) none
consume c (reset completion ∷ msgs) =
    goes_on (record c { inbox = msgs; running = false; state = stopped })
      (some (reset_done completion))
consume c (doorbell ∷ msgs) = consume c msgs
consume c (stop ∷ msgs) = leaves (record c { inbox = msgs; state = stopping })
consume c (set_dequeue_pointer_and_cs dp cs ∷ msgs) = consume c msgs

module _ {S : Type 0} where
  -- `event_sender.send(event)?`
  unfoldable pub send : CommandRing → Option EventTrb → M S (Answer Round)
  send c none = panic
  send c (some e) = if c.listened then pure (done (c, some (event e))) else pure gone

  -- `WorkerState::Stopping`
  unfoldable pub in_stopping : CommandRing → M S (Answer Round)
  unfolding send
  in_stopping c =
      let (dequeue_pointer, cs) = LinkedRing.get_dequeue_pointer c.ring in
      send (record c { running = false; state = stopped })
        (new_command_completion_event_trb dequeue_pointer 0 command_ring_stopped 0)

module _ {S : Type 0} (dma : Device S) (slots : Slots S) where
  -- What `map_or` makes of a block, and of none.
  unfoldable pub take_command : CommandRing → Option RawTrb → M S CommandRing
  take_command c none = pure (record c { state = idle })
  take_command c (some trb) = elim (Command.parse trb.buffer) [
    | none ↦ panic
    | some variant ↦ pure (record c {
      state = processing_command (record { address = trb.address; variant = variant });
    })
  ]

  unfoldable pub look : CommandRing → ℕ → Option Output → M S (Answer Round)
  unfolding take_command
  look c usbcmd out =
      if bit_and usbcmd rs == 0
      then pure (done (record c { state = stopped }, out))
      else (LinkedRing.next_trb dma c.ring >>= λ (trb, ring).
          take_command (record c { ring = ring }) trb >>= λ c'. pure (done (c', out)))

  abbrev pub look_after : ℕ → Consumed → M S (Answer Round)
  look_after usbcmd lost = pure gone
  look_after usbcmd (leaves c) = pure (done (c, none))
  look_after usbcmd (goes_on c out) = look c usbcmd out

  -- `WorkerState::LookingForNewCommand`
  unfoldable pub looking : CommandRing → ℕ → M S (Answer Round)
  unfolding consume look
  looking c usbcmd = look_after usbcmd (consume c c.inbox)

  -- What `process_command` reports of a command for the slot `slot_id`.
  abbrev pub report : ℕ → ℕ → M S (Answer CompletionCode) → M S (Answer (Option EventTrb))
  report address slot_id m = m >>? λ completion_code.
      pure (done (new_command_completion_event_trb address 0 completion_code slot_id))

  abbrev pub enabled : ℕ → Allocated → Option EventTrb
  enabled address (ok slot_id) = new_command_completion_event_trb address 0 success slot_id
  enabled address (err code) = new_command_completion_event_trb address 0 code 0

  -- `CommandWorker::process_command` up to its event; `none` as the event is a failed assertion.
  unfoldable pub completion_event : ℕ → CommandTrbVariant → M S (Answer (Option EventTrb))
  completion_event address enable_slot =
      slots.enable_slot >>? λ result. pure (done (enabled address result))
  completion_event address (disable_slot d) =
      report address d.slot_id (slots.disable_slot d.slot_id)
  completion_event address (address_device d) = report address d.slot_id (slots.address_device d)
  completion_event address (configure_endpoint d) =
      report address d.slot_id (slots.configure_endpoint d)
  completion_event address (evaluate_context d) =
      report address d.slot_id (slots.evaluate_context d)
  completion_event address (reset_endpoint d) =
      report address d.slot_id (slots.reset_endpoint d.slot_id d.endpoint_id)
  completion_event address (stop_endpoint d) =
      report address d.slot_id (slots.stop_endpoint d.slot_id d.endpoint_id)
  completion_event address (set_tr_dequeue_pointer d) =
      report address d.slot_id (slots.set_tr_dequeue_pointer d)
  completion_event address (reset_device d) =
      report address d.slot_id (slots.reset_device d.slot_id)
  completion_event address force_header = panic
  completion_event address no_op =
      pure (done (new_command_completion_event_trb address 0 success 0))
  completion_event address (unrecognized b e) =
      pure (done (new_command_completion_event_trb address 0 trb_error 0))

  -- `WorkerState::ProcessingCommand`
  unfoldable pub processing : CommandRing → CommandTrb → M S (Answer Round)
  unfolding completion_event send
  processing c trb = completion_event trb.address trb.variant >>? λ e.
      send (record c { ring = LinkedRing.advance c.ring; state = looking_for_new_command }) e

  abbrev pub receive :
      CommandRing
      → (CommandRing → WorkerMessage → Round)
      → List WorkerMessage
      → Option (M S (Answer Round))
  receive c handler [] = if c.abandoned then some (pure gone) else none
  receive c handler (msg ∷ msgs) = some (pure (done (handler (record c { inbox = msgs }) msg)))

  -- One round of `run_loop`; `none` where the worker waits for a message.
  unfoldable pub round : CommandRing → ℕ → WorkerState → Option (M S (Answer Round))
  unfolding in_stopped in_idle in_stopping looking processing
  round c usbcmd stopped = receive c (λ c'. in_stopped c' usbcmd) c.inbox
  round c usbcmd idle = receive c in_idle c.inbox
  round c usbcmd looking_for_new_command = some (looking c usbcmd)
  round c usbcmd (processing_command trb) = some (processing c trb)
  round c usbcmd stopping = some (in_stopping c)
