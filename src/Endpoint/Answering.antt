-- ===== src/Endpoint/Answering.antt =====
-- src/device/xhci/endpoint.rs: whoever waits for an endpoint to stop, to reset or to take a new pointer
-- hears of it.
use usbvfiod.Prelude.{
  ℕ, ◌≡◌, refl, Bool, true, M, ◌⊎◌, inl, inr, none, some, ◌>>=◌, bit_and, ==_iff,
}
use usbvfiod.Bus.Device.{Device}
use usbvfiod.Trb.Types.{CompletionCode, success, context_state_error}
use usbvfiod.LinkedRing
use usbvfiod.LinkedRing.{get_dequeue_pointer}
use usbvfiod.SlotManager.{Answer, gone, done}
use usbvfiod.Endpoint.{
  Sender, WorkerState, wait_for_doorbell, look_for_trb, wait_for_trb_completion, halted, error,
  stopped_with_continuable_trb, stopped, setting_tr_dequeue_pointer, terminating, EndpointMessage,
  stop, reset, set_tr_dequeue_pointer, EndpointWorker, completed, Round, continue, message, alone,
  RealEndpoint,
}
use usbvfiod.Endpoint.Context.{pointer_word, set_state, set_dequeue_pointer_and_cycle_state}
use usbvfiod.Endpoint.Worker.{
  go, publish, waiting_for_doorbell, transferring, in_halt, in_error, in_stop, setting, round,
  state_error, answer_error, try_get_completion_code_sender, send_anyhow,
}
use usbvfiod.Endpoint.Memory.{ContextView}
use usbvfiod.Endpoint.Progress.{Turns}
use usbvfiod.Endpoint.EndpointState

-- The requests that `c` waits for, a pointer being one to a block.
pub data Request (c : Sender) : EndpointMessage → Type 0 where
  stops : Request c (stop c)
  resets : Request c (reset c)
  points : (ptr : ℕ) (cs : Bool) → bit_and ptr 0xf ≡ 0 → Request c (set_tr_dequeue_pointer ptr cs c)

-- The states that take messages.
abbrev pub IsListening : WorkerState → Type 0
IsListening wait_for_doorbell = Unit
IsListening wait_for_trb_completion = Unit
IsListening halted = Unit
IsListening error = Unit
IsListening stopped_with_continuable_trb = Unit
IsListening stopped = Unit
IsListening look_for_trb = ⊥
IsListening (setting_tr_dequeue_pointer ptr cs c) = ⊥
IsListening (terminating c) = ⊥

-- What a request is answered: a running endpoint stops, a halted one resets, and one that is stopped or
-- in error takes a pointer.
unfoldable pub expected : WorkerState → EndpointMessage → CompletionCode
expected wait_for_doorbell (stop c) = success
expected wait_for_trb_completion (stop c) = success
expected halted (reset c) = success
expected error (set_tr_dequeue_pointer ptr cs c) = success
expected stopped_with_continuable_trb (set_tr_dequeue_pointer ptr cs c) = success
expected stopped (set_tr_dequeue_pointer ptr cs c) = success
expected st msg = context_state_error

-- The device's endpoint responds when it is told to give up a transfer or to clear a halt, be it with
-- an error.
pub record Responding {S : Type 0} (real : RealEndpoint S) : Type 0 where
  pub cancels : (s : S) → (r : Answer (Unit {0})) × (t : S) × (real.cancel s ≡ some (r, t))
  pub clears : (s : S) → (r : Answer (Unit {0})) × (t : S) × (real.clear_halt s ≡ some (r, t))

module _ {S : Type 0} (dma : Device S) (real : RealEndpoint S) where
  -- The device's endpoint fails to give up a transfer after a stop has been published, or to clear a
  -- halt.
  pub data Failure (w : EndpointWorker) (s t : S) : WorkerState → EndpointMessage → Type 0 where
    cancel_fails :
        {u : S} {c : Sender}
        → publish dma real w.context EndpointState.stopped w.transfer_ring s ≡ some (tt, u)
        → real.cancel u ≡ some (gone, t)
        → Failure w s t wait_for_trb_completion (stop c)
    clear_fails : {c : Sender} → real.clear_halt s ≡ some (gone, t) → Failure w s t halted (reset c)

  -- The request is answered with this code, at once, or in the round after it was taken, in which the
  -- worker takes no message. Otherwise the device's endpoint fails, and so does the round.
  abbrev pub Answered : EndpointWorker → EndpointMessage → S → ℕ → CompletionCode → Type 0
  Answered w msg s id code =
      ((w' : EndpointWorker) × (t : S) × Turns dma real w (message msg) s
          (continue w' (some (completed id code))) t)
      ⊎ (((mid : EndpointWorker) × (w' : EndpointWorker) × (u : S) × (t : S) × Turns dma real w
              (message msg) s (continue mid none) u
            × Turns dma real mid alone u (continue w' (some (completed id code))) t)
          ⊎ ((t : S) × Failure w s t w.state msg
              × (m : M S (Answer Round)) × (round dma real w w.state (message msg) ≡ some m)
              × (m s ≡ some (gone, t))))

module _ {S : Type 0} {dma : Device S} {real : RealEndpoint S} (w : EndpointWorker)
    (view : ContextView dma real w.context) (responding : Responding real)
    (aligned : bit_and w.transfer_ring.dequeue_pointer 0xf ≡ 0) (c : Sender)
    (waits : c.waiting ≡ true) where
  answers :
      (code : CompletionCode) (w' : EndpointWorker) (s : S)
      → send_anyhow c code w' s ≡ some (done (continue w' (some (completed c.id code))), s)
  unfolding send_anyhow
  answers code w' s = rw waits refl

  publish-runs :
      (code : ℕ) (s : S)
      → (t : S) × (publish dma real w.context code w.transfer_ring s ≡ some (tt, t))
  unfolding publish set_state set_dequeue_pointer_and_cycle_state get_dequeue_pointer
  publish-runs code s =
      let (u, first, _, _) = view.writes_state s code in
      let ring = w.transfer_ring in
      let (t, second, _, _) =
        view.writes_pointer u (pointer_word ring.dequeue_pointer ring.cycle_state) in
      (t, rw (first, ◌>>=◌) (rw ((==_iff (bit_and ring.dequeue_pointer 0xf) 0).1 aligned) second))

  setting-answers :
      (ptr : ℕ) (cs : Bool) (s : S)
      → bit_and ptr 0xf ≡ 0
      → (w' : EndpointWorker) × (t : S) × Turns dma real
          (go w (setting_tr_dequeue_pointer ptr cs c))
          alone
          s
          (continue w' (some (completed c.id success)))
          t
  unfolding round setting set_state set_dequeue_pointer_and_cycle_state send_anyhow
  setting-answers ptr cs s h =
      let (u, first, _, _) = view.writes_state s EndpointState.stopped in
      let (t, second, _, _) = view.writes_pointer u (pointer_word ptr cs) in
      (
        record w {
          state = stopped;
          transfer_ring = LinkedRing.set_dequeue_pointer w.transfer_ring ptr cs;
        },
        t,
        (
          _,
          refl,
          rw (first, ◌>>=◌)
              (rw ((==_iff (bit_and ptr 0xf) 0).1 h) (rw (second, ◌>>=◌) (answers _ _ _))),
        ),
      )

  takes :
      (st : WorkerState) (msg : EndpointMessage) (ptr : ℕ) (cs : Bool) (s : S)
      → bit_and ptr 0xf ≡ 0
      → Turns dma real
          (go w st)
          (message msg)
          s
          (continue (go w (setting_tr_dequeue_pointer ptr cs c)) none)
          s
      → Answered dma real (go w st) msg s c.id success
  takes st msg ptr cs s h turn =
      let (w', t, last) = setting-answers ptr cs s h in inr (inl (_, w', s, t, turn, last))

  cancel_result :
      (s u : S)
      → publish dma real w.context EndpointState.stopped w.transfer_ring s ≡ some (tt, u)
      → (r : Answer (Unit {0})) (t : S) → real.cancel u ≡ some (r, t)
      → Answered dma real (go w wait_for_trb_completion) (stop c) s c.id success
  unfolding round transferring
  cancel_result s u run gone t failed =
      inr (inr (t, cancel_fails run failed, _, refl, rw (run, ◌>>=◌) (rw (failed, ◌>>=◌) refl)))
  cancel_result s u run (done tt) t cancelled = inl (
    go w stopped_with_continuable_trb,
    t,
    (_, refl, rw (run, ◌>>=◌) (rw (cancelled, ◌>>=◌) (answers _ _ _))),
  )

  clear_result :
      (s : S) (r : Answer (Unit {0})) (u : S)
      → real.clear_halt s ≡ some (r, u)
      → Answered dma real (go w halted) (reset c) s c.id success
  unfolding round in_halt
  clear_result s gone u failed = inr (inr (u, clear_fails failed, _, refl, rw (failed, ◌>>=◌) refl))
  clear_result s (done x) u cleared =
      let (t, run) = publish-runs EndpointState.stopped u in
      inl (go w stopped, t, (_, refl, rw (cleared, ◌>>=◌) (rw (run, ◌>>=◌) (answers _ _ _))))

  -- An endpoint that takes messages, with its context in guest memory and its ring at a block, answers
  -- whoever waits for it to stop, to reset or to take a pointer to a block: at once, or in the round
  -- after, before any other message. The answer is success where a running endpoint is to stop, a halted
  -- one is to reset, or a stopped or failed one is to take a pointer, and a context state error
  -- elsewhere. The one exception is a stop during a transfer, or a reset of a halted endpoint, where the
  -- device's endpoint responds with an error: the round then fails, and the worker ends.
  pub request-Answered :
      (st : WorkerState) (msg : EndpointMessage) (s : S)
      → IsListening st
      → Request c msg
      → Answered dma real (go w st) msg s c.id (expected st msg)
  unfolding round waiting_for_doorbell transferring in_halt in_error in_stop state_error
      answer_error try_get_completion_code_sender send_anyhow expected
  request-Answered wait_for_doorbell msg s h stops =
      let (t, run) = publish-runs EndpointState.stopped s in
      inl (go w stopped, t, (_, refl, rw (run, ◌>>=◌) (answers _ _ _)))
  request-Answered wait_for_doorbell msg s h resets =
      inl (go w wait_for_doorbell, s, (_, refl, answers _ _ s))
  request-Answered wait_for_doorbell msg s h (points ptr cs k) =
      inl (go w wait_for_doorbell, s, (_, refl, answers _ _ s))
  request-Answered wait_for_trb_completion msg s h stops =
      let (u, run) = publish-runs EndpointState.stopped s in
      let (r, t, cancelled) = responding.cancels u in cancel_result s u run r t cancelled
  request-Answered wait_for_trb_completion msg s h resets =
      inl (go w wait_for_trb_completion, s, (_, refl, answers _ _ s))
  request-Answered wait_for_trb_completion msg s h (points ptr cs k) =
      inl (go w wait_for_trb_completion, s, (_, refl, answers _ _ s))
  request-Answered halted msg s h stops = inl (go w halted, s, (_, refl, answers _ _ s))
  request-Answered halted msg s h resets =
      let (r, u, cleared) = responding.clears s in clear_result s r u cleared
  request-Answered halted msg s h (points ptr cs k) = inl (go w halted, s, (_, refl, answers _ _ s))
  request-Answered error msg s h stops = inl (go w error, s, (_, refl, answers _ _ s))
  request-Answered error msg s h resets = inl (go w error, s, (_, refl, answers _ _ s))
  request-Answered error msg s h (points ptr cs k) = takes error msg ptr cs s k (_, refl, refl)
  request-Answered stopped_with_continuable_trb msg s h stops =
      inl (go w stopped_with_continuable_trb, s, (_, refl, answers _ _ s))
  request-Answered stopped_with_continuable_trb msg s h resets =
      inl (go w stopped_with_continuable_trb, s, (_, refl, answers _ _ s))
  request-Answered stopped_with_continuable_trb msg s h (points ptr cs k) =
      takes stopped_with_continuable_trb msg ptr cs s k (_, refl, refl)
  request-Answered stopped msg s h stops = inl (go w stopped, s, (_, refl, answers _ _ s))
  request-Answered stopped msg s h resets = inl (go w stopped, s, (_, refl, answers _ _ s))
  request-Answered stopped msg s h (points ptr cs k) = takes stopped msg ptr cs s k (_, refl, refl)
  request-Answered look_for_trb msg s h r = absurd h
  request-Answered (setting_tr_dequeue_pointer p k d) msg s h r = absurd h
  request-Answered (terminating d) msg s h r = absurd h
