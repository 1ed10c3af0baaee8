-- ===== src/Endpoint/Diagram.antt =====
-- src/device/xhci/endpoint.rs against the states of an endpoint: xHCI specification, section 4.8.3.
use usbvfiod.Prelude.{ℕ, ◌≡◌, refl, subst, ◌⊎◌, inl, inr, Bool, Option, none, some, M}
use usbvfiod.Bus.Device.{Device}
use usbvfiod.Trb.Types.{success, context_state_error}
use usbvfiod.SlotManager.{Answer, done}
use usbvfiod.Endpoint.{
  Sender, WorkerState, wait_for_doorbell, look_for_trb, wait_for_trb_completion, halted, error,
  stopped_with_continuable_trb, stopped, setting_tr_dequeue_pointer, terminating, EndpointMessage,
  doorbell, stop, reset, set_tr_dequeue_pointer, terminate, EndpointWorker, Reply, completed,
  terminated, Round, continue, message, RealEndpoint,
}
use usbvfiod.Endpoint.Context.{set_state}
use usbvfiod.Endpoint.Worker.{
  go, publish, waiting_for_doorbell, transferring, in_halt, in_error, in_stop, round, state_error,
  try_get_completion_code_sender,
}
use usbvfiod.Endpoint.Runs.{
  After, bind-After, answer-After, send_anyhow-After, state_error-After, After-round,
}
use usbvfiod.Endpoint.EndpointState

-- The states of an endpoint that a driver knows; `changing` is a worker between two of them.
pub data Seen : Type 0 where
  running in_halt_state in_error_state in_stop_state changing : Seen

abbrev pub seen : WorkerState → Seen
seen wait_for_doorbell = running
seen look_for_trb = running
seen wait_for_trb_completion = running
seen halted = in_halt_state
seen error = in_error_state
seen stopped_with_continuable_trb = in_stop_state
seen stopped = in_stop_state
seen (setting_tr_dequeue_pointer ptr cs sender) = changing
seen (terminating sender) = changing

-- What Stop Endpoint, Reset Endpoint and Set TR Dequeue Pointer do to a state.
pub data Transition : EndpointMessage → Seen → Seen → Type 0 where
  stops : {c : Sender} → Transition (stop c) running in_stop_state
  resets : {c : Sender} → Transition (reset c) in_halt_state in_stop_state
  moves :
      {ptr : ℕ} {cs : Bool} {c : Sender}
      → Transition (set_tr_dequeue_pointer ptr cs c) in_stop_state in_stop_state
  recovers :
      {ptr : ℕ} {cs : Bool} {c : Sender}
      → Transition (set_tr_dequeue_pointer ptr cs c) in_error_state in_stop_state

-- The request that a message makes.
abbrev pub Asks : EndpointMessage → ℕ → Type 0
Asks doorbell id = ⊥
Asks (stop c) id = id ≡ c.id
Asks (reset c) id = id ≡ c.id
Asks (set_tr_dequeue_pointer ptr cs c) id = id ≡ c.id
Asks (terminate c) id = ⊥

-- What a worker that is seen in state `from` makes of a message. It answers success to a step of the diagram that it has
-- taken, and a context state error where there is none, which leaves it as it was. It answers nothing if
-- nothing was asked for, or if it goes on to set the pointer.
abbrev pub Verdict :
    EndpointMessage → Seen → EndpointWorker → EndpointWorker → Option Reply → Type 0
Verdict msg from w w' (some (completed id code)) =
    Asks msg id
    × (((code ≡ success) × Transition msg from (seen w'.state))
        ⊎ ((code ≡ context_state_error) × (w' ≡ w) × ((t : Seen) → Transition msg from t → ⊥)))
Verdict msg from w w' (some (terminated id)) = ⊥
Verdict msg from w w' none =
    ((id : ℕ) → Asks msg id → ⊥)
    ⊎ ((ptr : ℕ) × (cs : Bool) × (c : Sender) × (msg ≡ set_tr_dequeue_pointer ptr cs c)
        × (w'.state ≡ setting_tr_dequeue_pointer ptr cs c)
        × Transition msg from in_stop_state)

module _ {S : Type 0} (dma : Device S) (real : RealEndpoint S) where
  abbrev Judges : Seen → EndpointMessage → EndpointWorker → Option (Answer Round × S) → Type 0
  Judges from msg w = After (λ w' r s. Verdict msg from w w' r)

  refuse :
      (from : Seen) (msg : EndpointMessage) (w : EndpointWorker) (s : S)
      → ((t : Seen) → Transition msg from t → ⊥)
      → Judges from msg w (state_error w msg s)
  unfolding try_get_completion_code_sender
  refuse from doorbell w s h = state_error-After _ w doorbell s (inl (λ id a. a))
  refuse from (terminate c) w s h = state_error-After _ w (terminate c) s (inl (λ id a. a))
  refuse from (stop c) w s h = state_error-After _ w (stop c) s (refl, inr (refl, refl, h))
  refuse from (reset c) w s h = state_error-After _ w (reset c) s (refl, inr (refl, refl, h))
  refuse from (set_tr_dequeue_pointer ptr cs c) w s h =
      state_error-After _ w (set_tr_dequeue_pointer ptr cs c) s (refl, inr (refl, refl, h))

  waiting_for_doorbell-Verdict :
      (msg : EndpointMessage) (w : EndpointWorker) (s : S)
      → Judges running msg w (waiting_for_doorbell dma real w msg s)
  unfolding waiting_for_doorbell
  waiting_for_doorbell-Verdict doorbell w s = inl (λ id a. a)
  waiting_for_doorbell-Verdict (terminate c) w s = inl (λ id a. a)
  waiting_for_doorbell-Verdict (stop c) w s =
      bind-After _ (publish dma real w.context EndpointState.stopped w.transfer_ring) _ s
        (λ _ t e. send_anyhow-After _ c success (go w stopped) t (refl, inl (refl, stops)))
  waiting_for_doorbell-Verdict (reset c) w s = refuse running (reset c) w s (λ t h. elim h [ ])
  waiting_for_doorbell-Verdict (set_tr_dequeue_pointer ptr cs c) w s =
      refuse running (set_tr_dequeue_pointer ptr cs c) w s (λ t h. elim h [ ])

  transferring-Verdict :
      (msg : EndpointMessage) (w : EndpointWorker) (s : S)
      → Judges running msg w (transferring dma real w msg s)
  unfolding transferring
  transferring-Verdict doorbell w s = inl (λ id a. a)
  transferring-Verdict (terminate c) w s = refuse running (terminate c) w s (λ t h. elim h [ ])
  transferring-Verdict (stop c) w s =
      bind-After _ (publish dma real w.context EndpointState.stopped w.transfer_ring) _ s (λ _ t e.
        answer-After _ real.cancel _ t (λ _ u k.
          send_anyhow-After _ c success (go w stopped_with_continuable_trb) u
            (refl, inl (refl, stops))))
  transferring-Verdict (reset c) w s = refuse running (reset c) w s (λ t h. elim h [ ])
  transferring-Verdict (set_tr_dequeue_pointer ptr cs c) w s =
      refuse running (set_tr_dequeue_pointer ptr cs c) w s (λ t h. elim h [ ])

  in_halt-Verdict :
      (msg : EndpointMessage) (w : EndpointWorker) (s : S)
      → Judges in_halt_state msg w (in_halt dma real w msg s)
  unfolding in_halt
  in_halt-Verdict doorbell w s = refuse in_halt_state doorbell w s (λ t h. elim h [ ])
  in_halt-Verdict (terminate c) w s = inl (λ id a. a)
  in_halt-Verdict (stop c) w s =
      send_anyhow-After _ c context_state_error w s (refl, inr (refl, refl, λ t h. elim h [ ]))
  in_halt-Verdict (reset c) w s = answer-After _ real.clear_halt _ s (λ _ t e.
      bind-After _ (publish dma real w.context EndpointState.stopped w.transfer_ring) _ t
        (λ _ u k. send_anyhow-After _ c success (go w stopped) u (refl, inl (refl, resets))))
  in_halt-Verdict (set_tr_dequeue_pointer ptr cs c) w s =
      refuse in_halt_state (set_tr_dequeue_pointer ptr cs c) w s (λ t h. elim h [ ])

  in_error-Verdict :
      (msg : EndpointMessage) (w : EndpointWorker) (s : S)
      → Judges in_error_state msg w (in_error w msg s)
  unfolding in_error
  in_error-Verdict doorbell w s = refuse in_error_state doorbell w s (λ t h. elim h [ ])
  in_error-Verdict (terminate c) w s = refuse in_error_state (terminate c) w s (λ t h. elim h [ ])
  in_error-Verdict (stop c) w s = refuse in_error_state (stop c) w s (λ t h. elim h [ ])
  in_error-Verdict (reset c) w s = refuse in_error_state (reset c) w s (λ t h. elim h [ ])
  in_error-Verdict (set_tr_dequeue_pointer ptr cs c) w s = inr (ptr, cs, c, refl, refl, recovers)

  in_stop-Verdict :
      (msg : EndpointMessage) (w : EndpointWorker) (s : S)
      → Judges in_stop_state msg w (in_stop dma real w msg s)
  unfolding in_stop
  in_stop-Verdict doorbell w s =
      bind-After _ (set_state dma w.context EndpointState.running) _ s (λ _ t e. inl (λ id a. a))
  in_stop-Verdict (terminate c) w s = inl (λ id a. a)
  in_stop-Verdict (stop c) w s = refuse in_stop_state (stop c) w s (λ t h. elim h [ ])
  in_stop-Verdict (reset c) w s = refuse in_stop_state (reset c) w s (λ t h. elim h [ ])
  in_stop-Verdict (set_tr_dequeue_pointer ptr cs c) w s = inr (ptr, cs, c, refl, refl, moves)

  abbrev Rounds :
      WorkerState → EndpointMessage → EndpointWorker → S → Option (M S (Answer Round)) → Type 0
  Rounds st msg w s none = Unit
  Rounds st msg w s (some m) = Judges (seen st) msg w (m s)

  round-Judges :
      (st : WorkerState) (msg : EndpointMessage) (w : EndpointWorker) (s : S)
      → Rounds st msg w s (round dma real w st (message msg))
  unfolding round
  round-Judges wait_for_doorbell msg w s = waiting_for_doorbell-Verdict msg w s
  round-Judges look_for_trb msg w s = tt
  round-Judges wait_for_trb_completion msg w s = transferring-Verdict msg w s
  round-Judges halted msg w s = in_halt-Verdict msg w s
  round-Judges error msg w s = in_error-Verdict msg w s
  round-Judges stopped_with_continuable_trb msg w s = in_stop-Verdict msg w s
  round-Judges stopped msg w s = in_stop-Verdict msg w s
  round-Judges (setting_tr_dequeue_pointer ptr cs c) msg w s = tt
  round-Judges (terminating c) msg w s = tt

  -- A round that takes a message treats it as the state diagram says: it answers success to a step that
  -- the diagram has and that it has taken, and a context state error to a request that the diagram has no
  -- step for, where the worker stays as it was. It leaves out the answer if the message asks for none, or
  -- if the diagram has the step and the worker goes on to set the pointer.
  pub round-Verdict :
      (w w' : EndpointWorker) (msg : EndpointMessage) (m : M S (Answer Round)) (s t : S)
      (r : Option Reply)
      → round dma real w w.state (message msg) ≡ some m
      → m s ≡ some (done (continue w' r), t)
      → Verdict msg (seen w.state) w w' r
  round-Verdict w w' msg m s t r e run =
      let judged = subst (Rounds w.state msg w s) e (round-Judges w.state msg w s) in
      After-round (λ w' r s. Verdict msg (seen w.state) w w' r) {w = w'} {r = r} {t = t} judged run
