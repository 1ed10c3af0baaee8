-- ===== src/Endpoint/Progress.antt =====
-- src/device/xhci/endpoint.rs: requests that take a worker more than one round come to their end.
use usbvfiod.Prelude.{
  ℕ, ◌≡◌, refl, sym, subst, ◌∙◌, Bool, true, none, some, M, ◌>>=◌, bit_and, ==_iff,
}
use usbvfiod.Bus.Device.{Device}
use usbvfiod.Trb.Types.{success}
use usbvfiod.LinkedRing
use usbvfiod.LinkedRing.{set_dequeue_pointer}
use usbvfiod.SlotManager.{Answer, done}
use usbvfiod.Endpoint.{
  Sender, WorkerState, wait_for_doorbell, look_for_trb, wait_for_trb_completion, halted, error,
  stopped_with_continuable_trb, stopped, setting_tr_dequeue_pointer, terminating,
  set_tr_dequeue_pointer, terminate, EndpointWorker, completed, terminated, Round, continue, break,
  Input, message, alone, RealEndpoint,
}
use usbvfiod.Endpoint.Context.{pointer_word, set_state, set_dequeue_pointer_and_cycle_state}
use usbvfiod.Endpoint.Worker.{
  go, waiting_for_doorbell, in_halt, in_error, in_stop, setting, terminate_now, round, send_anyhow,
}
use usbvfiod.Endpoint.Memory.{ContextView, Published}
use usbvfiod.Endpoint.EndpointState

module _ {S : Type 0} (dma : Device S) (real : RealEndpoint S) where
  -- A round with this input, from one state to another, or to its end.
  abbrev pub Turns : EndpointWorker → Input → S → Round → S → Type 0
  Turns w input s result t =
      (m : M S (Answer Round)) × (round dma real w w.state input ≡ some m)
      × (m s ≡ some (done result, t))

-- The states that a pointer can be set in.
abbrev pub IsSettable : WorkerState → Type 0
IsSettable stopped = Unit
IsSettable stopped_with_continuable_trb = Unit
IsSettable error = Unit
IsSettable wait_for_doorbell = ⊥
IsSettable look_for_trb = ⊥
IsSettable wait_for_trb_completion = ⊥
IsSettable halted = ⊥
IsSettable (setting_tr_dequeue_pointer ptr cs c) = ⊥
IsSettable (terminating c) = ⊥

-- The states that listen to a termination.
abbrev pub IsEnding : WorkerState → Type 0
IsEnding wait_for_doorbell = Unit
IsEnding halted = Unit
IsEnding stopped = Unit
IsEnding stopped_with_continuable_trb = Unit
IsEnding look_for_trb = ⊥
IsEnding wait_for_trb_completion = ⊥
IsEnding error = ⊥
IsEnding (setting_tr_dequeue_pointer ptr cs c) = ⊥
IsEnding (terminating c) = ⊥

module _ {S : Type 0} (dma : Device S) (real : RealEndpoint S) (w : EndpointWorker) (c : Sender)
    (s : S) where
  takes_pointer :
      (st : WorkerState) (ptr : ℕ) (cs : Bool)
      → IsSettable st
      → Turns dma real
          (go w st)
          (message (set_tr_dequeue_pointer ptr cs c))
          s
          (continue (go w (setting_tr_dequeue_pointer ptr cs c)) none)
          s
  unfolding round in_stop in_error
  takes_pointer stopped ptr cs h = (_, refl, refl)
  takes_pointer stopped_with_continuable_trb ptr cs h = (_, refl, refl)
  takes_pointer error ptr cs h = (_, refl, refl)
  takes_pointer wait_for_doorbell ptr cs h = absurd h
  takes_pointer look_for_trb ptr cs h = absurd h
  takes_pointer wait_for_trb_completion ptr cs h = absurd h
  takes_pointer halted ptr cs h = absurd h
  takes_pointer (setting_tr_dequeue_pointer p k d) ptr cs h = absurd h
  takes_pointer (terminating d) ptr cs h = absurd h

  takes_termination :
      (st : WorkerState)
      → IsEnding st
      → Turns dma real (go w st) (message (terminate c)) s (continue (go w (terminating c)) none) s
  unfolding round waiting_for_doorbell in_halt in_stop
  takes_termination wait_for_doorbell h = (_, refl, refl)
  takes_termination halted h = (_, refl, refl)
  takes_termination stopped h = (_, refl, refl)
  takes_termination stopped_with_continuable_trb h = (_, refl, refl)
  takes_termination look_for_trb h = absurd h
  takes_termination wait_for_trb_completion h = absurd h
  takes_termination error h = absurd h
  takes_termination (setting_tr_dequeue_pointer p k d) h = absurd h
  takes_termination (terminating d) h = absurd h

module _ {S : Type 0} {dma : Device S} {real : RealEndpoint S} {context : ℕ}
    (view : ContextView dma real context) (w : EndpointWorker) (here : w.context ≡ context)
    (st : WorkerState) (c : Sender) (s : S) where
  -- The worker that a new pointer leaves behind.
  abbrev pub moved : ℕ → Bool → EndpointWorker
  moved ptr cs = record w {
    state = stopped;
    transfer_ring = LinkedRing.set_dequeue_pointer w.transfer_ring ptr cs;
  }

  -- A stopped or failed endpoint that is given an aligned pointer takes two rounds: it then has answered
  -- success, its ring stands at the pointer, and its context shows that, and a stopped endpoint.
  pub set_tr_dequeue_pointer-done :
      (ptr : ℕ) (cs : Bool)
      → IsSettable st
      → c.waiting ≡ true
      → bit_and ptr 0xf ≡ 0
      → (t : S) × Turns dma real
          (go w st)
          (message (set_tr_dequeue_pointer ptr cs c))
          s
          (continue (go w (setting_tr_dequeue_pointer ptr cs c)) none)
          s
        × Turns dma real
            (go w (setting_tr_dequeue_pointer ptr cs c))
            alone
            s
            (continue (moved ptr cs) (some (completed c.id success)))
            t
        × Published view EndpointState.stopped (moved ptr cs).transfer_ring t
  unfolding set_state set_dequeue_pointer_and_cycle_state round setting set_dequeue_pointer
      send_anyhow
  set_tr_dequeue_pointer-done ptr cs h waits aligned =
      let (u, first, shows, _) = view.writes_state s EndpointState.stopped in
      let (t, second, keeps, points) = view.writes_pointer u (pointer_word ptr cs) in
      let stores =
        subst (λ k. set_state dma k EndpointState.stopped s ≡ some (tt, u)) (sym here) first in
      let points_to =
        subst (λ k. set_dequeue_pointer_and_cycle_state dma k ptr cs u ≡ some (tt, t)) (sym here)
          (rw ((==_iff (bit_and ptr 0xf) 0).1 aligned) second) in
      (
        t,
        takes_pointer dma real w c s st ptr cs h,
        (_, refl, rw (stores, ◌>>=◌) (rw (points_to, ◌>>=◌) (rw waits refl))),
        (keeps ∙ shows, points),
      )

  -- An endpoint that waits for a doorbell, is halted or is stopped takes two rounds to terminate: it
  -- then has said so, and its context shows a disabled endpoint.
  pub terminate-ends :
      IsEnding st
      → c.waiting ≡ true
      → (t : S) × Turns dma real
          (go w st)
          (message (terminate c))
          s
          (continue (go w (terminating c)) none)
          s
        × Turns dma real (go w (terminating c)) alone s (break (terminated c.id)) t
        × (view.state_of t ≡ EndpointState.disabled)
  unfolding set_state round terminate_now
  terminate-ends h waits =
      let (t, first, shows, _) = view.writes_state s EndpointState.disabled in
      let stores =
        subst (λ k. set_state dma k EndpointState.disabled s ≡ some (tt, t)) (sym here) first in
      (
        t,
        takes_termination dma real w c s st h,
        (_, refl, rw (stores, ◌>>=◌) (rw waits refl)),
        shows,
      )
