-- ===== src/Interrupter/Worker.antt =====
-- `EventWorker` of src/device/xhci/interrupter.rs.
use usbvfiod.Prelude.{
  ℕ, ◌%◌, ◌^◌, if◌then◌else◌, Bool, true, false, Option, none, some, List, [], ◌∷◌, M, pure, ◌>>=◌,
}
use usbvfiod.Bus.Device.{Device}
use usbvfiod.EventRing
use usbvfiod.EventRing.{EventRing}
use usbvfiod.Registers.Operational.{erstba}
use usbvfiod.SlotManager.{Answer, gone, done}
use usbvfiod.Interrupter.{
  InterrupterRegisters, EventWorker, InterrupterMessage, send_event, update_interrupt_line, reset,
  Signal, interrupted, completed,
}

-- `IMOD_DEFAULT`
abbrev pub imod_default : ℕ
imod_default = 4000

-- `InterrupterRegisters::default`
abbrev pub default : InterrupterRegisters
default = record {
  interrupt_management = 0;
  interrupt_moderation_interval = imod_default;
  erst_base_address = 0;
  erst_size = 0;
  eventring_dequeue_pointer = 0;
}

-- The worker that `Interrupter::new` starts.
abbrev pub new : Bool → EventWorker
new suppressed = record {
  registers = default;
  interrupt_line = none;
  event_ring = EventRing.new;
  configured = false;
  suppressed = suppressed;
}

-- `InterruptLine::interrupt`; the dummy line does nothing.
abbrev pub interrupt : Option ℕ → List Signal
interrupt none = []
interrupt (some line) = interrupted line ∷ []

abbrev pub Round : Type 0
Round = EventWorker × List Signal

-- `EventWorker::reset`, after which the worker waits for ERSTBA.
unfoldable pub reset_all : EventWorker → EventWorker
unfolding EventRing.reset
reset_all w = record w {
  registers = default;
  event_ring = EventRing.reset w.event_ring;
  configured = false;
}

-- `reset` and `completion.send_anyhow(())?`
abbrev pub finish_reset : EventWorker → Bool → Answer Round
finish_reset w true = done (reset_all w, completed ∷ [])
finish_reset w false = gone

-- `wait_for_event_ring_configuration` on a message.
abbrev pub waiting : EventWorker → InterrupterMessage → Answer Round
waiting w (send_event e) = done (w, [])
waiting w (update_interrupt_line line) = done (record w { interrupt_line = some line }, [])
waiting w (reset heard) = finish_reset w heard

module _ {S : Type 0} (dma : Device S) where
  -- The end of `wait_for_event_ring_configuration`, when ERSTBA has been written.
  unfoldable pub configure : EventWorker → M S EventWorker
  configure w =
      EventRing.configure dma w.event_ring (erstba w.registers.erst_base_address)
        (w.registers.erst_size % 2 ^ 32)
      >>= λ ring. pure (record w { event_ring = ring; configured = true })

  -- `run_configured`
  abbrev pub run_configured : EventWorker → InterrupterMessage → M S (Answer Round)
  run_configured w (send_event e) =
      EventRing.enqueue dma w.event_ring e (erstba w.registers.erst_base_address)
        (w.registers.erst_size % 2 ^ 32) w.registers.eventring_dequeue_pointer
      >>= λ ring. pure (done (record w { event_ring = ring }, interrupt w.interrupt_line))
  run_configured w (update_interrupt_line line) = pure (
      done (
        record w { interrupt_line = some line },
        if w.suppressed then [] else interrupt (some line),
      ))
  run_configured w (reset heard) = pure (finish_reset w heard)

  -- One message of `run_loop`.
  unfoldable pub round : EventWorker → InterrupterMessage → M S (Answer Round)
  unfolding reset_all
  round w msg = if w.configured then run_configured w msg else pure (waiting w msg)
