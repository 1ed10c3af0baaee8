-- ===== src/Endpoint/Replies.antt =====
-- src/device/xhci/endpoint.rs: who waits for the answer to a request gets one, in the order of requests.
use usbvfiod.Prelude.{
  ℕ, ◌≡◌, refl, sym, ap, subst, ◌∙◌, Bool, Option, none, some, List, [], ◌∷◌, M, ◌>>=◌,
  Option-cases, inl, inr,
}
use usbvfiod.Bus.Device.{Device}
use usbvfiod.Trb.Types.{success, context_state_error}
use usbvfiod.LinkedRing
use usbvfiod.LinkedRing.{LinkedRing, RawTrb, next_trb}
use usbvfiod.SlotManager.{Answer, gone, done}
use usbvfiod.Endpoint.{
  Sender, WorkerState, wait_for_doorbell, look_for_trb, wait_for_trb_completion, halted, error,
  stopped_with_continuable_trb, stopped, setting_tr_dequeue_pointer, terminating, EndpointMessage,
  doorbell, stop, reset, set_tr_dequeue_pointer, terminate, TrbProcessingResult, processed,
  trb_error, stall, transaction_error, EndpointWorker, Reply, Round, Input, message, closed,
  completion, alone, RealEndpoint,
}
use usbvfiod.Endpoint.Context.{
  get_dequeue_pointer_and_cycle_state, set_state, set_dequeue_pointer_and_cycle_state,
}
use usbvfiod.Endpoint.Worker.{
  go, wind_back, publish, launch, waiting_for_doorbell, looking_for_trb, submit, fail_with,
  completing, transferring, in_halt, in_error, in_stop, setting, terminate_now, finish, round,
  state_error, try_get_completion_code_sender,
}
use usbvfiod.Endpoint.Runs.{
  After, Runs, launched, rounds, elsewhere, note_request, note_reply, bind-After, answer-After,
  send_anyhow-After, state_error-After, After-round, terminate_now-After,
}
use usbvfiod.Endpoint.EndpointState

-- The request that a worker has taken and not answered yet, in front of others.
abbrev pub pending : WorkerState → List ℕ → List ℕ
pending (setting_tr_dequeue_pointer ptr cs sender) ids = sender.id ∷ ids
pending wait_for_doorbell ids = ids
pending look_for_trb ids = ids
pending wait_for_trb_completion ids = ids
pending halted ids = ids
pending error ids = ids
pending stopped_with_continuable_trb ids = ids
pending stopped ids = ids
pending (terminating sender) ids = ids

-- A worker that has answered all it has taken.
abbrev Settled : EndpointWorker → Type 0
Settled w = (l : List ℕ) → pending w.state l ≡ l

-- What a round takes, in front of `before`, is answered in it or waits after it.
abbrev Balanced :
    {S : Type 0} → Input → List ℕ → List ℕ → EndpointWorker → Option Reply → S → Type 0
Balanced input before ids w r s = note_request input before ≡ pending w.state (note_reply r ids)

module _ {S : Type 0} (dma : Device S) (real : RealEndpoint S) (ids : List ℕ) where
  abbrev Answers : EndpointMessage → Option (Answer Round × S) → Type 0
  Answers msg = After (Balanced (message msg) ids ids)

  refuse :
      (w : EndpointWorker) (msg : EndpointMessage) (s : S)
      → Settled w
      → Answers msg (state_error w msg s)
  unfolding try_get_completion_code_sender
  refuse w doorbell s h = state_error-After _ w doorbell s (sym (h ids))
  refuse w (terminate sender) s h = state_error-After _ w (terminate sender) s (sym (h ids))
  refuse w (stop sender) s h = state_error-After _ w (stop sender) s (sym (h (sender.id ∷ ids)))
  refuse w (reset sender) s h = state_error-After _ w (reset sender) s (sym (h (sender.id ∷ ids)))
  refuse w (set_tr_dequeue_pointer ptr cs sender) s h =
      state_error-After _ w (set_tr_dequeue_pointer ptr cs sender) s (sym (h (sender.id ∷ ids)))

  waiting_for_doorbell-Answers :
      (w : EndpointWorker) (msg : EndpointMessage) (s : S)
      → Settled w
      → Answers msg (waiting_for_doorbell dma real w msg s)
  unfolding waiting_for_doorbell
  waiting_for_doorbell-Answers w doorbell s h = refl
  waiting_for_doorbell-Answers w (stop sender) s h =
      bind-After _ (publish dma real w.context EndpointState.stopped w.transfer_ring) _ s
        (λ _ t e. send_anyhow-After _ sender success (go w stopped) t refl)
  waiting_for_doorbell-Answers w (terminate sender) s h = refl
  waiting_for_doorbell-Answers w (reset sender) s h = refuse w (reset sender) s h
  waiting_for_doorbell-Answers w (set_tr_dequeue_pointer ptr cs sender) s h =
      refuse w (set_tr_dequeue_pointer ptr cs sender) s h

  transferring-Answers :
      (w : EndpointWorker) (msg : EndpointMessage) (s : S)
      → Settled w
      → Answers msg (transferring dma real w msg s)
  unfolding transferring
  transferring-Answers w (stop sender) s h =
      bind-After _ (publish dma real w.context EndpointState.stopped w.transfer_ring) _ s (λ _ t e.
        answer-After _ real.cancel _ t
          (λ _ u k. send_anyhow-After _ sender success (go w stopped_with_continuable_trb) u refl))
  transferring-Answers w doorbell s h = sym (h ids)
  transferring-Answers w (reset sender) s h = refuse w (reset sender) s h
  transferring-Answers w (set_tr_dequeue_pointer ptr cs sender) s h =
      refuse w (set_tr_dequeue_pointer ptr cs sender) s h
  transferring-Answers w (terminate sender) s h = refuse w (terminate sender) s h

  in_halt-Answers :
      (w : EndpointWorker) (msg : EndpointMessage) (s : S)
      → Settled w
      → Answers msg (in_halt dma real w msg s)
  unfolding in_halt
  in_halt-Answers w (reset sender) s h = answer-After _ real.clear_halt _ s (λ _ t e.
      bind-After _ (publish dma real w.context EndpointState.stopped w.transfer_ring) _ t
        (λ _ u k. send_anyhow-After _ sender success (go w stopped) u refl))
  in_halt-Answers w (stop sender) s h =
      send_anyhow-After _ sender context_state_error w s (sym (h (sender.id ∷ ids)))
  in_halt-Answers w (terminate sender) s h = refl
  in_halt-Answers w doorbell s h = refuse w doorbell s h
  in_halt-Answers w (set_tr_dequeue_pointer ptr cs sender) s h =
      refuse w (set_tr_dequeue_pointer ptr cs sender) s h

  in_error-Answers :
      (w : EndpointWorker) (msg : EndpointMessage) (s : S)
      → Settled w
      → Answers msg (in_error w msg s)
  unfolding in_error
  in_error-Answers w (set_tr_dequeue_pointer ptr cs sender) s h = refl
  in_error-Answers w doorbell s h = refuse w doorbell s h
  in_error-Answers w (stop sender) s h = refuse w (stop sender) s h
  in_error-Answers w (reset sender) s h = refuse w (reset sender) s h
  in_error-Answers w (terminate sender) s h = refuse w (terminate sender) s h

  in_stop-Answers :
      (w : EndpointWorker) (msg : EndpointMessage) (s : S)
      → Settled w
      → Answers msg (in_stop dma real w msg s)
  unfolding in_stop
  in_stop-Answers w doorbell s h =
      bind-After _ (set_state dma w.context EndpointState.running) _ s (λ _ t e. refl)
  in_stop-Answers w (set_tr_dequeue_pointer ptr cs sender) s h = refl
  in_stop-Answers w (terminate sender) s h = refl
  in_stop-Answers w (stop sender) s h = refuse w (stop sender) s h
  in_stop-Answers w (reset sender) s h = refuse w (reset sender) s h

  looking_for_trb-Answers :
      (w : EndpointWorker) (s : S) → After (Balanced alone ids ids) (looking_for_trb dma real w s)
  unfolding looking_for_trb
  looking_for_trb-Answers w s =
      bind-After _ (next_trb dma w.transfer_ring) _ s
        (λ (r : Option RawTrb × LinkedRing) t e. submitted r.0 r.1 t)
    where
      submitted :
          (o : Option RawTrb) (ring : LinkedRing) (t : S)
          → After (Balanced alone ids ids) (submit dma real (record w { transfer_ring = ring }) o t)
      submitted none ring t = refl
      submitted (some trb) ring t = answer-After _ (real.submit_trb trb) _ t (λ _ u e. refl)

  finish-Answers :
      (w : EndpointWorker) (result : Answer TrbProcessingResult) (s : S)
      → After (Balanced (completion result) ids ids) (finish dma real w result s)
  unfolding completing fail_with
  finish-Answers w gone s = tt
  finish-Answers w (done processed) s = refl
  finish-Answers w (done (stall addr)) s =
      bind-After _
        (publish dma real w.context EndpointState.halted (wind_back w.transfer_ring addr)) _ s
        (λ _ t e. refl)
  finish-Answers w (done (transaction_error addr)) s =
      bind-After _
        (publish dma real w.context EndpointState.halted (wind_back w.transfer_ring addr)) _ s
        (λ _ t e. refl)
  finish-Answers w (done trb_error) s =
      bind-After _ (publish dma real w.context EndpointState.error w.transfer_ring) _ s
        (λ _ t e. refl)

  setting-Answers :
      (w : EndpointWorker) (ptr : ℕ) (cs : Bool) (sender : Sender) (s : S)
      → After (Balanced alone (sender.id ∷ ids) ids) (setting dma real w ptr cs sender s)
  unfolding setting
  setting-Answers w ptr cs sender s =
      bind-After _ (set_state dma w.context EndpointState.stopped) _ s (λ _ t e.
        bind-After _ (set_dequeue_pointer_and_cycle_state dma w.context ptr cs) _ t (λ _ u k.
          send_anyhow-After _ sender success
            (record w {
              state = stopped;
              transfer_ring = LinkedRing.set_dequeue_pointer w.transfer_ring ptr cs;
            })
            u refl))

  terminate_now-Answers :
      (w : EndpointWorker) (sender : Sender) (s : S)
      → After (Balanced alone ids ids) (terminate_now dma real w sender s)
  terminate_now-Answers w sender s = terminate_now-After dma real _ w sender s

  abbrev Rounds : Input → List ℕ → S → Option (M S (Answer Round)) → Type 0
  Rounds input before s none = Unit
  Rounds input before s (some m) = After (Balanced input before ids) (m s)

  round-Answers :
      (w : EndpointWorker) (st : WorkerState) (input : Input) (s : S)
      → ((l : List ℕ) → pending w.state l ≡ pending st l)
      → Rounds input (pending st ids) s (round dma real w st input)
  unfolding round
  round-Answers w wait_for_doorbell (message msg) s h = waiting_for_doorbell-Answers w msg s h
  round-Answers w wait_for_doorbell closed s h = tt
  round-Answers w look_for_trb alone s h = looking_for_trb-Answers w s
  round-Answers w wait_for_trb_completion (message msg) s h = transferring-Answers w msg s h
  round-Answers w wait_for_trb_completion (completion result) s h = finish-Answers w result s
  round-Answers w wait_for_trb_completion closed s h = tt
  round-Answers w halted (message msg) s h = in_halt-Answers w msg s h
  round-Answers w halted closed s h = tt
  round-Answers w error (message msg) s h = in_error-Answers w msg s h
  round-Answers w error closed s h = tt
  round-Answers w stopped_with_continuable_trb (message msg) s h = in_stop-Answers w msg s h
  round-Answers w stopped_with_continuable_trb closed s h = tt
  round-Answers w stopped (message msg) s h = in_stop-Answers w msg s h
  round-Answers w stopped closed s h = tt
  round-Answers w (setting_tr_dequeue_pointer ptr cs sender) alone s h =
      setting-Answers w ptr cs sender s
  round-Answers w (terminating sender) alone s h = terminate_now-Answers w sender s
  round-Answers w st input s h = tt

abbrev Settles : {S : Type 0} → Option (EndpointWorker × S) → Type 0
Settles none = Unit
Settles (some (w, t)) = pending w.state [] ≡ []

Settles-bind :
    {S A : Type 0} (m : M S A) (f : A → M S EndpointWorker) (s : S)
    → ((a : A) (t : S) → Settles (f a t))
    → Settles ((m >>= f) s)
Settles-bind m f s h = elim (Option-cases (m s)) [
  | inl e ↦ rw (e, ◌>>=◌) tt
  | inr ((a, t), e) ↦ rw (e, ◌>>=◌) (h a t)
]

launch-Settles :
    {S : Type 0} (dma : Device S) (real : RealEndpoint S) (context : ℕ) (s : S)
    → Settles (launch dma real context s)
unfolding launch
launch-Settles dma real context s =
    Settles-bind (set_state dma context EndpointState.running) _ s
      (λ _ t. Settles-bind (get_dequeue_pointer_and_cycle_state dma context) _ t (λ _ u. refl))

module _ {S : Type 0} {dma : Device S} {real : RealEndpoint S} {Outside : S → S → Type 0}
    {context : ℕ} {s₀ : S} where
  -- In every run of rounds that the worker comes back from, from its launch on, the requests to stop, to
  -- reset and to take a new pointer are answered in the order they are taken in, none twice and none that
  -- was not taken: the requests so far are the answers so far, and one more while a pointer is being set.
  -- Terminations are not counted, and a round that ends the worker is in no run.
  pub Runs-answered :
      {w : EndpointWorker} {s : S} {asked answered : List ℕ}
      → Runs dma real Outside context s₀ w s asked answered
      → asked ≡ pending w.state answered
  Runs-answered {w = w} {s = s} (launched e) =
      sym (subst Settles e (launch-Settles dma real context s₀))
  Runs-answered
        (rounds {w = w} {w' = w'} {s = s} {t = t} {answered = answered} runs input m r e run) =
      let before = Runs-answered runs in
      let now =
        subst (Rounds dma real answered input (pending w.state answered) s) e
          (round-Answers dma real answered w w.state input s (λ l. refl)) in
      ap (note_request input) before ∙ After-round _ {w = w'} {r = r} {t = t} now run
  Runs-answered (elsewhere runs out) = Runs-answered runs
