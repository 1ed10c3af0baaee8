-- ===== src/Endpoint/Agreement.antt =====
-- src/device/xhci/endpoint.rs: what the guest sees of an endpoint in its context is what the worker does.
use usbvfiod.Prelude.{
  ℕ, ◌≡◌, refl, ◌∙◌, List, Bool, Option, none, some, M, ◌>>=◌, bind_some, pure, arith, subst,
}
use usbvfiod.Bus.Device.{Device}
use usbvfiod.LinkedRing
use usbvfiod.LinkedRing.{LinkedRing, RawTrb, set_dequeue_pointer, next_trb}
use usbvfiod.SlotManager.{Answer, gone, done}
use usbvfiod.Endpoint.{
  WorkerState, wait_for_doorbell, look_for_trb, wait_for_trb_completion, halted, error,
  stopped_with_continuable_trb, stopped, setting_tr_dequeue_pointer, terminating,
  TrbProcessingResult, EndpointWorker, Round, Input, message, closed, completion, alone,
  RealEndpoint,
}
use usbvfiod.Endpoint.Context.{get_dequeue_pointer_and_cycle_state, set_state}
use usbvfiod.Endpoint.Worker.{launch, round, finish}
use usbvfiod.Endpoint.Runs.{
  After, terminate_now-After, Runs, launched, rounds, elsewhere, After-round,
}
use usbvfiod.Endpoint.Memory.{ContextView, Same, set_state-view, get_pointer-Same}
use usbvfiod.Endpoint.EndpointState
use usbvfiod.Endpoint.Rounds.{
  Shows, Agrees, waiting_for_doorbell-Agrees, looking_for_trb-Agrees, completing-Agrees,
  transferring-Agrees, in_halt-Agrees, in_error-Agrees, in_stop-Agrees, setting-Agrees,
}

module _ {S : Type 0} {dma : Device S} {real : RealEndpoint S} {context : ℕ}
    (view : ContextView dma real context) where
  finish-Agrees :
      (w : EndpointWorker) (result : Answer TrbProcessingResult) (s : S)
      → w.context ≡ context
      → view.state_of s ≡ EndpointState.running
      → After (Agrees view) (finish dma real w result s)
  finish-Agrees w gone s h run = tt
  finish-Agrees w (done result) s h run = completing-Agrees view w result s h run

  Shows-Same :
      (st : WorkerState) (ring : LinkedRing) (s t : S)
      → Same view s t
      → Shows view st ring s
      → Shows view st ring t
  Shows-Same wait_for_doorbell ring s t (a, b) h = a ∙ h
  Shows-Same look_for_trb ring s t (a, b) h = a ∙ h
  Shows-Same wait_for_trb_completion ring s t (a, b) h = a ∙ h
  Shows-Same halted ring s t (a, b) (h, k) = (a ∙ h, b ∙ k)
  Shows-Same error ring s t (a, b) (h, k) = (a ∙ h, b ∙ k)
  Shows-Same stopped_with_continuable_trb ring s t (a, b) (h, k) = (a ∙ h, b ∙ k)
  Shows-Same stopped ring s t (a, b) (h, k) = (a ∙ h, b ∙ k)
  Shows-Same (setting_tr_dequeue_pointer ptr cs sender) ring s t e h = tt
  Shows-Same (terminating sender) ring s t e h = tt

  -- In place of the result of a round there may be no round.
  abbrev Rounds : S → Option (M S (Answer Round)) → Type 0
  Rounds s none = Unit
  Rounds s (some m) = After (Agrees view) (m s)

  round-Agrees :
      (w : EndpointWorker) (st : WorkerState) (input : Input) (s : S)
      → Agrees view w none s
      → Shows view st w.transfer_ring s
      → Rounds s (round dma real w st input)
  unfolding round
  round-Agrees w wait_for_doorbell (message msg) s a run =
      waiting_for_doorbell-Agrees view w msg s a.0 run a
  round-Agrees w wait_for_doorbell closed s a run = tt
  round-Agrees w look_for_trb alone s a run = looking_for_trb-Agrees view w s a.0 run
  round-Agrees w wait_for_trb_completion (message msg) s a run =
      transferring-Agrees view w msg s a.0 a
  round-Agrees w wait_for_trb_completion (completion result) s a run =
      finish-Agrees w result s a.0 run
  round-Agrees w wait_for_trb_completion closed s a run = tt
  round-Agrees w halted (message msg) s a run = in_halt-Agrees view w msg s a.0 a
  round-Agrees w halted closed s a run = tt
  round-Agrees w error (message msg) s a run = in_error-Agrees view w msg s a.0 a
  round-Agrees w error closed s a run = tt
  round-Agrees w stopped_with_continuable_trb (message msg) s a run =
      in_stop-Agrees view w msg s a.0 a
  round-Agrees w stopped_with_continuable_trb closed s a run = tt
  round-Agrees w stopped (message msg) s a run = in_stop-Agrees view w msg s a.0 a
  round-Agrees w stopped closed s a run = tt
  round-Agrees w (setting_tr_dequeue_pointer ptr cs sender) alone s a run =
      setting-Agrees view w ptr cs sender s a.0
  round-Agrees w (terminating sender) alone s a run =
      terminate_now-After dma real (Agrees view) w sender s
  round-Agrees w st input s a run = tt

  abbrev start_at : ℕ × Bool → EndpointWorker
  start_at p = record {
    state = wait_for_doorbell;
    context = context;
    transfer_ring = LinkedRing.new p.0 p.1;
  }

  abbrev start : ℕ × Bool → M S EndpointWorker
  start p = pure (start_at p)

  abbrev Started : Option (EndpointWorker × S) → Type 0
  Started none = Unit
  Started (some (w, t)) = Agrees view w none t

  launch-Agrees :
      (s t : S) (w : EndpointWorker)
      → launch dma real context s ≡ some (w, t)
      → Agrees view w none t
  unfolding launch
  launch-Agrees s t w e =
      let (_, u, first, rest) =
        bind_some (set_state dma context EndpointState.running)
          (λ _. get_dequeue_pointer_and_cycle_state dma context >>= start) s t w e in
      let (p, v, second, last) =
        bind_some (get_dequeue_pointer_and_cycle_state dma context) start u t w rest in
      let shows = (set_state-view view EndpointState.running s u (omega arith) first).0 in
      let same = (get_pointer-Same view u v p second).0 in
      let e : some (start_at p, v) ≡ some (w, t) = last in
      subst (λ (o : Option (EndpointWorker × S)). Started o) e (refl, same ∙ shows)

  module _ (Outside : S → S → Type 0) (apart : (s t : S) → Outside s t → Same view s t) where
    -- At every time of every run the context agrees with the worker: it shows an endpoint that runs
    -- as running, and one that is halted, failed or stopped as such, with the place of its ring.
    pub Runs-Agrees :
        {s₀ : S} {w : EndpointWorker} {s : S} {asked answered : List ℕ}
        → Runs dma real Outside context s₀ w s asked answered
        → Agrees view w none s
    Runs-Agrees {w = w} {s = s} (launched e) = launch-Agrees _ s w e
    Runs-Agrees (rounds {w = w} {w' = w'} {s = s} {t = t} runs input m r e run) =
        let a = Runs-Agrees runs in
        let agrees = subst (Rounds s) e (round-Agrees w w.state input s a a.1) in
        After-round (Agrees view) {w = w'} {r = r} {t = t} agrees run
    Runs-Agrees (elsewhere {w = w} {s = s} {t = t} runs out) =
        let (h, shows) = Runs-Agrees runs in
        (h, Shows-Same w.state w.transfer_ring s t (apart s t out) shows)
