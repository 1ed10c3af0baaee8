-- ===== src/Endpoint/Runs.antt =====
-- The rounds of src/device/xhci/endpoint.rs one after another, and how a fact about what a round returns
-- is proved along its calls.
use usbvfiod.Prelude.{
  ℕ, ◌≡◌, subst, if◌then◌else◌, Bool, true, false, Option, none, some, List, [], ◌∷◌, M, ◌>>=◌,
  Option-cases, inl, inr,
}
use usbvfiod.Bus.Device.{Device}
use usbvfiod.Trb.Types.{CompletionCode, context_state_error}
use usbvfiod.SlotManager.{Answer, gone, done, ◌>>?◌}
use usbvfiod.Endpoint.{
  Sender, EndpointMessage, doorbell, stop, reset, set_tr_dequeue_pointer, terminate, EndpointWorker,
  Reply, completed, terminated, Round, continue, break, Input, message, closed, completion, alone,
  RealEndpoint,
}
use usbvfiod.Endpoint.EndpointState
use usbvfiod.Endpoint.Context.{set_state}
use usbvfiod.Endpoint.Worker.{
  try_get_completion_code_sender, send_anyhow, answer_error, state_error, launch, round,
  terminate_now,
}

-- The requests that a round takes and those that it answers, in front of the earlier ones.
abbrev pub note_request : Input → List ℕ → List ℕ
note_request (message doorbell) ids = ids
note_request (message (stop sender)) ids = sender.id ∷ ids
note_request (message (reset sender)) ids = sender.id ∷ ids
note_request (message (set_tr_dequeue_pointer ptr cs sender)) ids = sender.id ∷ ids
note_request (message (terminate sender)) ids = ids
note_request closed ids = ids
note_request (completion result) ids = ids
note_request alone ids = ids

abbrev pub note_reply : Option Reply → List ℕ → List ℕ
note_reply none ids = ids
note_reply (some (completed id code)) ids = id ∷ ids
note_reply (some (terminated id)) ids = ids

-- The runs of a worker from its launch on. Between two rounds the rest of the system may step by
-- `Outside`.
pub data Runs {S : Type 0} (dma : Device S) (real : RealEndpoint S) (Outside : S → S → Type 0)
    (context : ℕ) (s₀ : S) : EndpointWorker → S → List ℕ → List ℕ → Type 0 where
  launched :
      {w : EndpointWorker} {s : S}
      → launch dma real context s₀ ≡ some (w, s)
      → Runs dma real Outside context s₀ w s [] []
  rounds :
      {w w' : EndpointWorker} {s t : S} {asked answered : List ℕ}
      → Runs dma real Outside context s₀ w s asked answered
      → (input : Input) (m : M S (Answer Round)) (r : Option Reply)
      → round dma real w w.state input ≡ some m
      → m s ≡ some (done (continue w' r), t)
      → Runs dma real Outside context s₀ w' t (note_request input asked) (note_reply r answered)
  elsewhere :
      {w : EndpointWorker} {s t : S} {asked answered : List ℕ}
      → Runs dma real Outside context s₀ w s asked answered
      → Outside s t
      → Runs dma real Outside context s₀ w t asked answered

-- What holds of the next round, where there is one.
abbrev pub After :
    {S : Type 0} → (EndpointWorker → Option Reply → S → Type 0) → Option (Answer Round × S) → Type 0
After P none = Unit
After P (some (gone, t)) = Unit
After P (some (done (break r), t)) = Unit
After P (some (done (continue w r), t)) = P w r t

module _ {S : Type 0} (P : EndpointWorker → Option Reply → S → Type 0) where
  pub bind-After :
      {A : Type 0} (m : M S A) (f : A → M S (Answer Round)) (s : S)
      → ((a : A) (t : S) → m s ≡ some (a, t) → After P (f a t))
      → After P ((m >>= f) s)
  bind-After m f s h = elim (Option-cases (m s)) [
    | inl e ↦ rw (e, ◌>>=◌) tt
    | inr ((a, t), e) ↦ rw (e, ◌>>=◌) (h a t e)
  ]

  pub answer-After :
      {A : Type 0} (m : M S (Answer A)) (f : A → M S (Answer Round)) (s : S)
      → ((a : A) (t : S) → m s ≡ some (done a, t) → After P (f a t))
      → After P ((m >>? f) s)
  answer-After m f s h = elim (Option-cases (m s)) [
    | inl e ↦ rw (e, ◌>>=◌) tt
    | inr ((gone, t), e) ↦ rw (e, ◌>>=◌) tt
    | inr ((done a, t), e) ↦ rw (e, ◌>>=◌) (h a t e)
  ]

  pub send_anyhow-After :
      (sender : Sender) (code : CompletionCode) (w : EndpointWorker) (s : S)
      → P w (some (completed sender.id code)) s
      → After P (send_anyhow sender code w s)
  unfolding send_anyhow
  send_anyhow-After sender code w s h = waits sender.waiting
    where
      waits :
          (b : Bool)
          → After P (
              if◌then◌else◌ {A = M S (Answer Round)} b
                (λ s. some (done (continue w (some (completed sender.id code))), s))
                (λ s. some (gone, s))
                s)
      waits true = h
      waits false = tt

  -- The two outcomes of a message that the state refuses.
  abbrev pub Refused : EndpointWorker → S → Option Sender → Type 0
  Refused w s none = P w none s
  Refused w s (some sender) = P w (some (completed sender.id context_state_error)) s

  pub state_error-After :
      (w : EndpointWorker) (msg : EndpointMessage) (s : S)
      → Refused w s (try_get_completion_code_sender msg)
      → After P (state_error w msg s)
  unfolding state_error answer_error try_get_completion_code_sender
  state_error-After w doorbell s h = h
  state_error-After w (terminate sender) s h = h
  state_error-After w (stop sender) s h = send_anyhow-After sender context_state_error w s h
  state_error-After w (reset sender) s h = send_anyhow-After sender context_state_error w s h
  state_error-After w (set_tr_dequeue_pointer ptr cs sender) s h =
      send_anyhow-After sender context_state_error w s h

  pub After-round :
      {o : Option (Answer Round × S)} {w : EndpointWorker} {r : Option Reply} {t : S}
      → After P o
      → o ≡ some (done (continue w r), t)
      → P w r t
  After-round h e = subst (After P) e h

-- No round follows a termination.
pub terminate_now-After :
    {S : Type 0} (dma : Device S) (real : RealEndpoint S)
    (P : EndpointWorker → Option Reply → S → Type 0) (w : EndpointWorker) (sender : Sender) (s : S)
    → After P (terminate_now dma real w sender s)
unfolding terminate_now
terminate_now-After {S} dma real P w sender s =
    bind-After P (set_state dma w.context EndpointState.disabled) _ s
      (λ _ t e. leaves sender.waiting t)
  where
    leaves :
        (b : Bool) (t : S)
        → After P (
            if◌then◌else◌ {A = M S (Answer Round)} b
              (λ s. some (done (break (terminated sender.id)), s))
              (λ s. some (gone, s))
              t)
    leaves true t = tt
    leaves false t = tt
