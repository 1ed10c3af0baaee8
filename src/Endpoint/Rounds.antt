-- ===== src/Endpoint/Rounds.antt =====
-- src/device/xhci/endpoint.rs: each round leaves a context behind that agrees with the worker.
use usbvfiod.Prelude.{ℕ, ◌%◌, ◌≡◌, ◌∙◌, Bool, Option, none, some, M, ◌>>=◌, arith, subst, sym, ◌<◌}
use usbvfiod.Bus.Request.{u64_mod}
use usbvfiod.Bus.Device.{Device}
use usbvfiod.Trb.Types.{success, context_state_error}
use usbvfiod.LinkedRing
use usbvfiod.LinkedRing.{LinkedRing, RawTrb, set_dequeue_pointer, next_trb}
use usbvfiod.SlotManager.{Answer, done}
use usbvfiod.Endpoint.{
  Sender, WorkerState, wait_for_doorbell, look_for_trb, wait_for_trb_completion, halted, error,
  stopped_with_continuable_trb, stopped, setting_tr_dequeue_pointer, terminating, EndpointMessage,
  doorbell, stop, reset, set_tr_dequeue_pointer, terminate, TrbProcessingResult, processed,
  trb_error, stall, transaction_error, EndpointWorker, Reply, Round, RealEndpoint,
}
use usbvfiod.Endpoint.Context.{set_state, set_dequeue_pointer_and_cycle_state, pointer_word}
use usbvfiod.Endpoint.Worker.{
  go, wind_back, publish, waiting_for_doorbell, looking_for_trb, fail_with, completing,
  transferring, in_halt, in_error, in_stop, setting, submit, state_error,
  try_get_completion_code_sender,
}
use usbvfiod.Endpoint.Runs.{
  After, bind-After, answer-After, send_anyhow-After, state_error-After, Refused,
}
use usbvfiod.Endpoint.Memory.{
  ContextView, Published, set_state-view, set_pointer-view, publish-Published, next_trb-Same,
}
use usbvfiod.Endpoint.EndpointState

module _ {S : Type 0} {dma : Device S} {real : RealEndpoint S} {context : ℕ}
    (view : ContextView dma real context) where
  -- The context of an endpoint that runs says so; that of one that is halted, stopped or failed says
  -- this and where its ring stands. While a pointer is being set, it is the old state.
  abbrev pub Shows : WorkerState → LinkedRing → S → Type 0
  Shows wait_for_doorbell ring s = view.state_of s ≡ EndpointState.running
  Shows look_for_trb ring s = view.state_of s ≡ EndpointState.running
  Shows wait_for_trb_completion ring s = view.state_of s ≡ EndpointState.running
  Shows halted ring s = Published view EndpointState.halted ring s
  Shows error ring s = Published view EndpointState.error ring s
  Shows stopped_with_continuable_trb ring s = Published view EndpointState.stopped ring s
  Shows stopped ring s = Published view EndpointState.stopped ring s
  Shows (setting_tr_dequeue_pointer ptr cs sender) ring s = Unit
  Shows (terminating sender) ring s = Unit

  abbrev pub Agrees : EndpointWorker → Option Reply → S → Type 0
  Agrees w r s = (w.context ≡ context) × Shows w.state w.transfer_ring s

  -- The calls that write the context, with the address that the worker keeps.
  publish-After :
      (w : EndpointWorker) (code : ℕ) (ring : LinkedRing) (s : S)
      (f : Unit {0} → M S (Answer Round))
      → w.context ≡ context
      → code < 256
      → ((t : S) → Published view code ring t → After Agrees (f tt t))
      → After Agrees ((publish dma real w.context code ring >>= f) s)
  publish-After w code ring s f h lt k =
      subst (λ c. After Agrees ((publish dma real c code ring >>= f) s)) (sym h)
        (bind-After Agrees (publish dma real context code ring) f s
          (λ _ t e. k t (publish-Published view code ring s t lt e)))

  set_state-After :
      (w : EndpointWorker) (code : ℕ) (s : S) (f : Unit {0} → M S (Answer Round))
      → w.context ≡ context
      → code < 256
      → ((t : S) → view.state_of t ≡ code → After Agrees (f tt t))
      → After Agrees ((set_state dma w.context code >>= f) s)
  set_state-After w code s f h lt k =
      subst (λ c. After Agrees ((set_state dma c code >>= f) s)) (sym h)
        (bind-After Agrees (set_state dma context code) f s
          (λ _ t e. k t (set_state-view view code s t lt e).0))

  set_pointer-After :
      (w : EndpointWorker) (ptr : ℕ) (cs : Bool) (s : S) (f : Unit {0} → M S (Answer Round))
      → w.context ≡ context
      → ((t : S)
          → (view.state_of t ≡ view.state_of s)
          → (view.pointer_of t ≡ pointer_word ptr cs % u64_mod)
          → After Agrees (f tt t))
      → After Agrees ((set_dequeue_pointer_and_cycle_state dma w.context ptr cs >>= f) s)
  set_pointer-After w ptr cs s f h k =
      subst (λ c. After Agrees ((set_dequeue_pointer_and_cycle_state dma c ptr cs >>= f) s)) (sym h)
        (bind-After Agrees (set_dequeue_pointer_and_cycle_state dma context ptr cs) f s
          (λ _ t e. let (keeps, points) = set_pointer-view view ptr cs s t e in k t keeps points))

  -- A message that the state refuses changes neither the worker nor the context.
  refuse :
      (w : EndpointWorker) (msg : EndpointMessage) (s : S)
      → Agrees w none s
      → After Agrees (state_error w msg s)
  refuse w msg s h = state_error-After Agrees w msg s (refused (try_get_completion_code_sender msg))
    where
      refused : (o : Option Sender) → Refused Agrees w s o
      refused none = h
      refused (some sender) = h

  pub waiting_for_doorbell-Agrees :
      (w : EndpointWorker) (msg : EndpointMessage) (s : S)
      → w.context ≡ context
      → view.state_of s ≡ EndpointState.running
      → Agrees w none s
      → After Agrees (waiting_for_doorbell dma real w msg s)
  unfolding waiting_for_doorbell
  waiting_for_doorbell-Agrees w doorbell s h run a = (h, run)
  waiting_for_doorbell-Agrees w (stop sender) s h run a =
      publish-After w EndpointState.stopped w.transfer_ring s _ h (omega arith)
        (λ t p. send_anyhow-After Agrees sender success (go w stopped) t (h, p))
  waiting_for_doorbell-Agrees w (terminate sender) s h run a = (h, tt)
  waiting_for_doorbell-Agrees w (reset sender) s h run a = refuse w (reset sender) s a
  waiting_for_doorbell-Agrees w (set_tr_dequeue_pointer ptr cs sender) s h run a =
      refuse w (set_tr_dequeue_pointer ptr cs sender) s a

  pub looking_for_trb-Agrees :
      (w : EndpointWorker) (s : S)
      → w.context ≡ context
      → view.state_of s ≡ EndpointState.running
      → After Agrees (looking_for_trb dma real w s)
  unfolding looking_for_trb
  looking_for_trb-Agrees w s h run =
      bind-After Agrees (next_trb dma w.transfer_ring) _ s (λ (r : Option RawTrb × LinkedRing) t e.
        submitted r.0 r.1 t ((next_trb-Same view w.transfer_ring s t r e).0 ∙ run))
    where
      submitted :
          (o : Option RawTrb) (ring : LinkedRing) (t : S)
          → view.state_of t ≡ EndpointState.running
          → After Agrees (submit dma real (record w { transfer_ring = ring }) o t)
      submitted none ring t shows = (h, shows)
      submitted (some trb) ring t shows =
          answer-After Agrees (real.submit_trb trb) _ t
            (λ (_ : Unit {0}) u e. (h, (view.submits trb t u (done tt) e).0 ∙ shows))

  pub fail_with-Agrees :
      (w : EndpointWorker) (ring : LinkedRing) (s : S)
      → w.context ≡ context
      → After Agrees (fail_with dma real w ring EndpointState.halted halted s)
        × After Agrees (fail_with dma real w ring EndpointState.error error s)
  unfolding fail_with
  fail_with-Agrees w ring s h = (
    publish-After w EndpointState.halted ring s _ h (omega arith) (λ t p. (h, p)),
    publish-After w EndpointState.error ring s _ h (omega arith) (λ t p. (h, p)),
  )

  pub completing-Agrees :
      (w : EndpointWorker) (result : TrbProcessingResult) (s : S)
      → w.context ≡ context
      → view.state_of s ≡ EndpointState.running
      → After Agrees (completing dma real w result s)
  unfolding completing
  completing-Agrees w processed s h run = (h, run)
  completing-Agrees w (stall addr) s h run =
      (fail_with-Agrees w (wind_back w.transfer_ring addr) s h).0
  completing-Agrees w (transaction_error addr) s h run =
      (fail_with-Agrees w (wind_back w.transfer_ring addr) s h).0
  completing-Agrees w trb_error s h run = (fail_with-Agrees w w.transfer_ring s h).1

  pub transferring-Agrees :
      (w : EndpointWorker) (msg : EndpointMessage) (s : S)
      → w.context ≡ context
      → Agrees w none s
      → After Agrees (transferring dma real w msg s)
  unfolding transferring
  transferring-Agrees w (stop sender) s h a =
      publish-After w EndpointState.stopped w.transfer_ring s _ h (omega arith) (λ t p.
        answer-After Agrees real.cancel _ t (λ (_ : Unit {0}) u e.
          let (same, points) = view.cancels t u (done tt) e in
          send_anyhow-After Agrees sender success (go w stopped_with_continuable_trb) u
            (h, (same ∙ p.0, points ∙ p.1))))
  transferring-Agrees w doorbell s h a = a
  transferring-Agrees w (reset sender) s h a = refuse w (reset sender) s a
  transferring-Agrees w (set_tr_dequeue_pointer ptr cs sender) s h a =
      refuse w (set_tr_dequeue_pointer ptr cs sender) s a
  transferring-Agrees w (terminate sender) s h a = refuse w (terminate sender) s a

  pub in_halt-Agrees :
      (w : EndpointWorker) (msg : EndpointMessage) (s : S)
      → w.context ≡ context
      → Agrees w none s
      → After Agrees (in_halt dma real w msg s)
  unfolding in_halt
  in_halt-Agrees w (reset sender) s h a =
      answer-After Agrees real.clear_halt _ s (λ (_ : Unit {0}) t e.
        publish-After w EndpointState.stopped w.transfer_ring t _ h (omega arith)
          (λ u p. send_anyhow-After Agrees sender success (go w stopped) u (h, p)))
  in_halt-Agrees w (stop sender) s h a = send_anyhow-After Agrees sender context_state_error w s a
  in_halt-Agrees w (terminate sender) s h a = (h, tt)
  in_halt-Agrees w doorbell s h a = refuse w doorbell s a
  in_halt-Agrees w (set_tr_dequeue_pointer ptr cs sender) s h a =
      refuse w (set_tr_dequeue_pointer ptr cs sender) s a

  pub in_error-Agrees :
      (w : EndpointWorker) (msg : EndpointMessage) (s : S)
      → w.context ≡ context
      → Agrees w none s
      → After Agrees (in_error w msg s)
  unfolding in_error
  in_error-Agrees w (set_tr_dequeue_pointer ptr cs sender) s h a = (h, tt)
  in_error-Agrees w doorbell s h a = refuse w doorbell s a
  in_error-Agrees w (stop sender) s h a = refuse w (stop sender) s a
  in_error-Agrees w (reset sender) s h a = refuse w (reset sender) s a
  in_error-Agrees w (terminate sender) s h a = refuse w (terminate sender) s a

  pub in_stop-Agrees :
      (w : EndpointWorker) (msg : EndpointMessage) (s : S)
      → w.context ≡ context
      → Agrees w none s
      → After Agrees (in_stop dma real w msg s)
  unfolding in_stop
  in_stop-Agrees w doorbell s h a =
      set_state-After w EndpointState.running s _ h (omega arith) (λ t shows. (h, shows))
  in_stop-Agrees w (set_tr_dequeue_pointer ptr cs sender) s h a = (h, tt)
  in_stop-Agrees w (terminate sender) s h a = (h, tt)
  in_stop-Agrees w (stop sender) s h a = refuse w (stop sender) s a
  in_stop-Agrees w (reset sender) s h a = refuse w (reset sender) s a

  pub setting-Agrees :
      (w : EndpointWorker) (ptr : ℕ) (cs : Bool) (sender : Sender) (s : S)
      → w.context ≡ context
      → After Agrees (setting dma real w ptr cs sender s)
  unfolding setting set_dequeue_pointer
  setting-Agrees w ptr cs sender s h =
      set_state-After w EndpointState.stopped s _ h (omega arith) (λ t shows.
        set_pointer-After w ptr cs t _ h (λ u keeps points.
          send_anyhow-After Agrees sender success
            (record w {
              state = stopped;
              transfer_ring = LinkedRing.set_dequeue_pointer w.transfer_ring ptr cs;
            })
            u (h, (keeps ∙ shows, points))))
