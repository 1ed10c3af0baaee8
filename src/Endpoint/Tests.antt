-- ===== src/Endpoint/Tests.antt =====
-- src/device/xhci/endpoint.rs at an endpoint context at 0x100, whose memory is its state and its pointer.
use usbvfiod.Prelude.{
  arith, ℕ, ◌%◌, ◌==◌, ◌≡◌, refl, true, if◌then◌else◌, Option, none, some, List, [], ◌∷◌, pure,
}
use usbvfiod.Bus.Request.{u64_mod}
use usbvfiod.Bus.Device.{Device}
use usbvfiod.Trb.Types.{RawTrbBuffer, success}
use usbvfiod.Trb.Link
use usbvfiod.LinkedRing
use usbvfiod.LinkedRing.{
  LinkedRing, next_trb, next_trb_raw, fresh, follow_links, get_dequeue_pointer, set_dequeue_pointer,
}
use usbvfiod.SlotManager.{done}
use usbvfiod.Endpoint.{
  Sender, WorkerState, wait_for_doorbell, wait_for_trb_completion, stopped,
  stopped_with_continuable_trb, error, doorbell, stop, reset, set_tr_dequeue_pointer, terminate,
  EndpointWorker, stall, completed, continue, message, completion, alone, RealEndpoint,
}
use usbvfiod.Endpoint.Context.{
  bulk_in, get_dequeue_pointer_and_cycle_state, set_dequeue_pointer_and_cycle_state, set_state,
  get_endpoint_type,
}
use usbvfiod.Endpoint.Worker.{
  launch, publish, waiting_for_doorbell, looking_for_trb, transferring, completing, fail_with,
  wind_back, in_halt, send_anyhow, round, state_error, answer_error, try_get_completion_code_sender,
}
use usbvfiod.Endpoint.Runs.{Runs, launched, rounds}
use usbvfiod.Endpoint.Memory.{ContextView, Published}
use usbvfiod.Endpoint.Rounds.{Agrees}
use usbvfiod.Endpoint.Agreement.{Runs-Agrees}
use usbvfiod.Endpoint.Replies.{pending, Runs-answered}
use usbvfiod.Endpoint.Diagram.{Verdict, running, round-Verdict}
use usbvfiod.Endpoint.Progress.{Turns, moved, set_tr_dequeue_pointer-done}
use usbvfiod.Endpoint.Answering.{Responding, Answered, expected, resets, request-Answered}
use usbvfiod.Endpoint.EndpointState

abbrev Memory : Type 0
Memory = ℕ × ℕ

-- A no-op transfer with the cycle bit set.
abbrev block : RawTrbBuffer
block = 0 ∷ 0 ∷ 0 ∷ 0 ∷ 0 ∷ 0 ∷ 0 ∷ 0 ∷ 0 ∷ 0 ∷ 0 ∷ 0 ∷ 1 ∷ 32 ∷ 0 ∷ 0 ∷ []

abbrev memory : Device Memory
memory = record {
  size = 0x2000;
  read = λ req s. some ((if req.addr == 0x108 then s.1 else 0x30), s);
  write = λ req v s. some (tt, (if req.addr == 0x100 then (v % 256, s.1) else (s.0, v % u64_mod)));
  read_bulk = λ a n s. some (block, s);
  write_bulk = λ a bs s. some (tt, s);
}

abbrev real : RealEndpoint Memory
real = record {
  submit_trb = λ trb. pure (done tt);
  cancel = pure (done tt);
  clear_halt = pure (done tt);
}

-- Only the worker changes this memory.
abbrev Still : Memory → Memory → Type 0
Still s t = (t.0 ≡ s.0) × (t.1 ≡ s.1)

unchanged :
    {A : Type 0} {a b : A} {s t : Memory}
    → ◌≡◌ {A = Option (A × Memory)} (some (a, s)) (some (b, t))
    → Still s t
unchanged e = ground arith

abbrev view : ContextView memory real 0x100
view = record {
  state_of = λ s. s.0;
  pointer_of = λ s. s.1;
  writes_state = λ s v. ((v % 256, s.1), refl, refl, refl);
  writes_pointer = λ s v. ((s.0, v % u64_mod), refl, refl, refl);
  reads = λ a n s t bs e. unchanged e;
  reads_word = λ q s t v e. unchanged e;
  submits = λ trb s t r e. unchanged e;
  cancels = λ s t r e. unchanged e;
  clears = λ s t r e. unchanged e;
}

abbrev asking : ℕ → Sender
asking id = record { id = id; waiting = true }

abbrev worker : WorkerState → ℕ → EndpointWorker
worker state ptr = record {
  state = state;
  context = 0x100;
  transfer_ring = record { dequeue_pointer = ptr; cycle_state = true };
}

abbrev RunsOf : EndpointWorker → Memory → List ℕ → List ℕ → Type 0
RunsOf w s asked answered = Runs memory real Still 0x100 (0, 0x1001) w s asked answered

starts : RunsOf (worker wait_for_doorbell 0x1000) (1, 0x1001) [] []
unfolding launch set_state get_dequeue_pointer_and_cycle_state LinkedRing.new
starts = launched refl

-- A doorbell, and the first block handed to the real endpoint.
transfers : RunsOf (worker wait_for_trb_completion 0x1000) (1, 0x1001) [] []
unfolding round waiting_for_doorbell looking_for_trb next_trb next_trb_raw fresh follow_links
    Link.parse
transfers = rounds (rounds starts (message doorbell) _ none refl refl) alone _ none refl refl

-- The block stalls, and the endpoint is reset.
recovers_from_stall : RunsOf (worker stopped 0x1000) (3, 0x1001) (7 ∷ []) (7 ∷ [])
unfolding round completing fail_with wind_back publish set_state set_dequeue_pointer_and_cycle_state
    get_dequeue_pointer in_halt send_anyhow
recovers_from_stall =
    rounds (rounds transfers (completion (done (stall none))) _ none refl refl)
      (message (reset (asking 7))) _ (some (completed 7 success)) refl refl

Runs-Agrees_example : Agrees view (worker stopped 0x1000) none (3, 0x1001)
Runs-Agrees_example = Runs-Agrees view Still (λ s t h. h) recovers_from_stall

Runs-answered_example : ◌≡◌ {A = List ℕ} (7 ∷ []) (pending stopped (7 ∷ []))
Runs-answered_example = Runs-answered recovers_from_stall

stopping :
    round memory real
      (worker wait_for_trb_completion 0x1000)
      wait_for_trb_completion
      (message (stop (asking 5)))
    ≡ some (transferring memory real (worker wait_for_trb_completion 0x1000) (stop (asking 5)))
unfolding round
stopping = refl

stops_now :
    transferring memory real (worker wait_for_trb_completion 0x1000) (stop (asking 5)) (1, 0)
    ≡ some (
      done (continue (worker stopped_with_continuable_trb 0x1000) (some (completed 5 success))),
      (3, 0x1001),
    )
unfolding transferring publish set_state set_dequeue_pointer_and_cycle_state get_dequeue_pointer
    send_anyhow
stops_now = refl

round-Verdict_example :
    Verdict
      (stop (asking 5))
      running
      (worker wait_for_trb_completion 0x1000)
      (worker stopped_with_continuable_trb 0x1000)
      (some (completed 5 success))
round-Verdict_example =
    round-Verdict memory real (worker wait_for_trb_completion 0x1000)
      (worker stopped_with_continuable_trb 0x1000) (stop (asking 5)) _ (1, 0) (3, 0x1001)
      (some (completed 5 success)) stopping stops_now

set_tr_dequeue_pointer-done_example :
    (t : Memory) × Turns memory real
      (worker error 0x1000)
      (message (set_tr_dequeue_pointer 0x2000 true (asking 4)))
      (4, 0x1001)
      (continue
        (worker (WorkerState.setting_tr_dequeue_pointer 0x2000 true (asking 4)) 0x1000)
        none)
      (4, 0x1001)
    × Turns memory real
        (worker (WorkerState.setting_tr_dequeue_pointer 0x2000 true (asking 4)) 0x1000)
        alone
        (4, 0x1001)
        (continue
          (moved view (worker error 0x1000) refl error (asking 4) (4, 0x1001) 0x2000 true)
          (some (completed 4 success)))
        t
    × Published view EndpointState.stopped
        (LinkedRing.set_dequeue_pointer (worker error 0x1000).transfer_ring 0x2000 true)
        t
set_tr_dequeue_pointer-done_example =
    set_tr_dequeue_pointer-done view (worker error 0x1000) refl error (asking 4) (4, 0x1001) 0x2000
      true tt refl refl

responding : Responding real
responding = record { cancels = λ s. (done tt, s, refl); clears = λ s. (done tt, s, refl) }

request-Answered_example :
    Answered memory real
      (worker WorkerState.halted 0x1000)
      (reset (asking 6))
      (2, 0x1001)
      6
      (expected WorkerState.halted (reset (asking 6)))
request-Answered_example =
    request-Answered (worker WorkerState.halted 0x1000) view responding refl (asking 6) refl
      WorkerState.halted (reset (asking 6)) (2, 0x1001) tt resets

-- A request to terminate during a transfer is thrown away.
throws_away :
    Turns memory real
      (worker wait_for_trb_completion 0x1000)
      (message (terminate (asking 6)))
      (1, 0x1001)
      (continue (worker wait_for_trb_completion 0x1000) none)
      (1, 0x1001)
unfolding round transferring state_error answer_error try_get_completion_code_sender
throws_away = (_, refl, refl)

reads_type : get_endpoint_type memory 0x100 (1, 0x1001) ≡ some (bulk_in, (1, 0x1001))
unfolding get_endpoint_type
reads_type = refl
