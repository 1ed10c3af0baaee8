-- ===== src/CommandRing/Tests.antt =====
-- src/device/xhci/command_ring.rs with a memory full of no-op commands, and a slot worker that has slot 1.
use usbvfiod.Prelude.{
  arith, ℕ, ◌*◌, ◌/◌, ◌%◌, ◌==◌, ◌≡◌, ◌≢◌, refl, true, false, none, some, [], ◌∷◌, M, pure,
  replicate,
}
use usbvfiod.Bus.Device.{Device}
use usbvfiod.Trb.Types.{RawTrbBuffer, CompletionCode, success, slot_not_enabled_error}
use usbvfiod.Trb.Command
use usbvfiod.Trb.Command.{CommandTrb, CommandTrbVariant, no_op, disable_slot, force_header}
use usbvfiod.Trb.Link
use usbvfiod.LinkedRing.{LinkedRing, next_trb, next_trb_raw, fresh, follow_links}
use usbvfiod.SlotManager.{Answer, done, Workers}
use usbvfiod.SlotManager.Table.{ok, num_slots_enabled}
use usbvfiod.CommandRing.{
  stopped, looking_for_new_command, processing_command, doorbell, reset, CommandRing, reset_done,
  Slots,
}
use usbvfiod.CommandRing.Register.{crr, ring_doorbell, control, status}
use usbvfiod.CommandRing.Worker.{consume, look, looking, take_command, processing, Round}
use usbvfiod.CommandRing.Completion.{Served, completes, processing-completes}
use usbvfiod.CommandRing.Handle.{SlotTask, slot_worker_handle}
use usbvfiod.SlotManager.Worker
use usbvfiod.SlotManager.Worker.{Senders, disable, slot_ref}
use usbvfiod.CommandRing.Control.{Turns, at_rest, control-starts, looking-stale, looking-reset}

abbrev Nothing : Type 0
Nothing = Unit {0}

abbrev block : RawTrbBuffer
block = 0 ∷ 0 ∷ 0 ∷ 0 ∷ 0 ∷ 0 ∷ 0 ∷ 0 ∷ 0 ∷ 0 ∷ 0 ∷ 0 ∷ 1 ∷ 92 ∷ 0 ∷ 0 ∷ []

abbrev memory : {S : Type 0} → Device S
memory = record {
  size = 0x2000;
  read = λ req s. some (0, s);
  write = λ req v s. some (tt, s);
  read_bulk = λ a n s. some (block, s);
  write_bulk = λ a bs s. some (tt, s);
}

abbrev says : CompletionCode → M Nothing (Answer CompletionCode)
says code = pure (done code)

abbrev slots : Slots Nothing
slots = record {
  enable_slot = pure (done (ok 1));
  disable_slot = λ id. says slot_not_enabled_error;
  address_device = λ d. says success;
  configure_endpoint = λ d. says success;
  evaluate_context = λ d. says success;
  reset_endpoint = λ id ep. says success;
  stop_endpoint = λ id ep. says success;
  set_tr_dequeue_pointer = λ d. says success;
  reset_device = λ id. says success;
}

abbrev ring : LinkedRing
ring = record { dequeue_pointer = 0x1000; cycle_state = true }

abbrev disabling : CommandTrb
disabling = record { address = 0x1000; variant = disable_slot (record { slot_id = 3 }) }

abbrev busy : CommandRing
busy = at_rest true (processing_command disabling) ring true

-- The modelled slot worker with eight slots, none of them in use.
abbrev tasks : Workers Nothing ℕ
tasks = record {
  request_launch = λ slot ep port context. pure (done ep);
  terminate = λ e. pure (done tt);
}

abbrev senders : Senders Nothing ℕ
senders = record {
  doorbell = λ e. pure (done tt);
  stop = λ e. pure (done tt);
  reset = λ e. pure (done tt);
  set_tr_dequeue_pointer = λ e ptr cs. pure (done tt);
}

abbrev handled : Slots (SlotTask Nothing ℕ)
handled = slot_worker_handle memory tasks senders (says success)

abbrev slot_task : SlotTask Nothing ℕ
slot_task = record {
  memory = tt;
  worker = some (record { slots = replicate 8 none; config_reg = 8; dcbaap = 0x100 });
}

disables : handled.disable_slot 3 slot_task ≡ some (done slot_not_enabled_error, slot_task)
unfolding slot_worker_handle Worker.round disable slot_ref num_slots_enabled
disables = refl

no_slot :
    processing memory handled busy disabling slot_task
    ≡ some (done (completes busy disabling slot_not_enabled_error 3), slot_task)
no_slot =
    (processing-completes memory handled busy disabling slot_task slot_task refl refl).0
      slot_not_enabled_error 3 (disables, refl)

processing-completes_example :
    ((code : CompletionCode) (slot : ℕ)
      → Served handled disabling.variant slot_task code slot slot_task
      → processing memory handled busy disabling slot_task
        ≡ some (done (completes busy disabling code slot), slot_task))
    × ((r : Round)
        → processing memory handled busy disabling slot_task ≡ some (done r, slot_task)
        → (code : CompletionCode) × (slot : ℕ) × Served handled disabling.variant slot_task code
            slot slot_task
          × (r ≡ completes busy disabling code slot))
processing-completes_example =
    processing-completes memory handled busy disabling slot_task slot_task refl refl

control-starts_example :
    (mid : CommandRing) × Turns memory slots
      (ring_doorbell (control (at_rest false stopped ring true) 0x2001))
      1
      tt
      mid
      none
      tt
    × Turns memory slots mid 1 tt
        (at_rest true looking_for_new_command
          (record { dequeue_pointer = 0x2001 / 64 * 64; cycle_state = 0x2001 % 2 == 1 })
          true)
        none
        tt
control-starts_example = control-starts memory slots 0x2001 1 ring true tt (omega arith) refl

looking-stale_example :
    Turns memory slots
      (at_rest true looking_for_new_command ring true)
      0
      tt
      (at_rest true stopped ring true)
      none
      tt
    × (status (at_rest true stopped ring true) ≡ crr)
    × (control (at_rest true stopped ring true) 0x2001 ≡ at_rest true stopped ring true)
looking-stale_example = looking-stale memory slots 0x2001 0 ring true tt refl refl refl

abbrev reset_first : CommandRing
reset_first = record (at_rest true looking_for_new_command ring true) {
  inbox = reset 5 ∷ doorbell ∷ [];
}

-- The worker goes on to the block that lies at its pointer.
abbrev went_on : CommandRing
went_on = record {
  running = false;
  inbox = doorbell ∷ [];
  abandoned = false;
  state = processing_command (record { address = 0x1000; variant = no_op });
  ring = ring;
  listened = true;
}

goes_on_after_reset :
    looking memory slots reset_first 1 tt ≡ some (done (went_on, some (reset_done 5)), tt)
unfolding looking consume look take_command next_trb next_trb_raw fresh follow_links Link.parse
    Command.parse
goes_on_after_reset = refl

looking-reset_example :
    (went_on.running ≡ false)
    × (some (reset_done 5) ≡ some (reset_done 5))
    × (went_on.inbox ≡ doorbell ∷ [])
    × (went_on.state ≢ stopped)
looking-reset_example =
    looking-reset memory slots reset_first went_on (doorbell ∷ []) 5 1 (some (reset_done 5)) tt tt
      refl refl goes_on_after_reset
