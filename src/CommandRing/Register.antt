-- ===== src/CommandRing/Register.antt =====
-- What a driver reaches of src/device/xhci/command_ring.rs: the register CRCR and the doorbell.
use usbvfiod.Prelude.{
  ℕ, ◌-◌, ◌^◌, ◌==◌, if◌then◌else◌, Bool, false, not, [], ◌∷◌, ◌++◌, bit_and, bit_xor,
}
use usbvfiod.LinkedRing
use usbvfiod.CommandRing.{
  stopped, WorkerMessage, set_dequeue_pointer_and_cs, doorbell, stop, reset, CommandRing,
}

-- The bits of CRCR: ring cycle state, command stop, command abort, command ring running.
abbrev pub rcs : ℕ
rcs = 0x1

abbrev pub cs : ℕ
cs = 0x2

abbrev pub ca : ℕ
ca = 0x4

abbrev pub crr : ℕ
crr = 0x8

-- `!0x3f`
abbrev pub dequeue_pointer_mask : ℕ
dequeue_pointer_mask = bit_xor 0x3f (2 ^ 64 - 1)

-- `value & mask != 0`
abbrev pub masked : ℕ → ℕ → Bool
masked value mask = not (bit_and value mask == 0)

-- `CommandRing::new`
unfoldable pub new : Bool → CommandRing
new listened = record {
  running = false;
  inbox = [];
  abandoned = false;
  state = stopped;
  ring = LinkedRing.new 0 false;
  listened = listened;
}

unfoldable pub send_to_worker : CommandRing → WorkerMessage → CommandRing
send_to_worker c msg = record c { inbox = c.inbox ++ (msg ∷ []) }

-- `CommandRing::doorbell`
unfoldable pub ring_doorbell : CommandRing → CommandRing
unfolding send_to_worker
ring_doorbell c = send_to_worker c doorbell

-- `CommandRingResetSender::send_reset`
unfoldable pub send_reset : CommandRing → ℕ → CommandRing
unfolding send_to_worker
send_reset c completion_notifier = send_to_worker c (reset completion_notifier)

-- `CommandRing::control`
unfoldable pub control : CommandRing → ℕ → CommandRing
unfolding send_to_worker
control c value =
    if c.running
    then (if masked value ca
        then send_to_worker c stop
        else if masked value cs
        then send_to_worker c stop
        else c)
    else send_to_worker c
        (set_dequeue_pointer_and_cs (bit_and value dequeue_pointer_mask) (masked value rcs))

-- `CommandRing::status`
unfoldable pub status : CommandRing → ℕ
status c = if c.running then crr else 0
