-- ===== src/SlotManager/Resetting.antt =====
-- What a reset of all slots in src/device/xhci/slot_manager.rs does, and what it leaves.
use usbvfiod.Prelude.{
  ◌≡◌, refl, ap, ◌∙◌, Bool, true, false, ◌&&◌, Option, none, some, List, [], ◌∷◌, ◌++◌, ◌>>=◌,
  length, replicate,
}
use usbvfiod.Bus.Device.{Device}
use usbvfiod.SlotManager.{Answer, gone, done, Workers}
use usbvfiod.SlotManager.Slot.{Slot}
use usbvfiod.SlotManager.Table.{SlotWorker, max_slots, new}
use usbvfiod.SlotManager.Endings.{Responds}
use usbvfiod.SlotManager.Worker.{
  Senders, Reply, both, reset_all_slots, reset_done, terminate_all, pre_drop, drop_all, emptied,
  reset, round,
}

-- The endpoints of a slot, and those of all slots, in order.
pub endpoints_of : {E : Type 0} → List (Option E) → List E
endpoints_of [] = []
endpoints_of (none ∷ senders) = endpoints_of senders
endpoints_of (some e ∷ senders) = e ∷ endpoints_of senders

pub all_endpoints : {E : Type 0} → List (Option (Slot E)) → List E
unfolding endpoints_of
all_endpoints [] = []
all_endpoints (none ∷ slots) = all_endpoints slots
all_endpoints (some slot ∷ slots) = endpoints_of slot.endpoint_senders ++ all_endpoints slots

-- Each of these endpoints is asked to terminate, one after another, from one state to another, and the
-- flag says whether all of them do.
pub data Asked {S E : Type 0} (workers : Workers S E) : List E → S → Bool → S → Type 0 where
  nobody : {s : S} → Asked workers [] s true s
  obeys :
      {e : E} {es : List E} {s t u : S} {b : Bool}
      → workers.terminate e s ≡ some (done tt, t)
      → Asked workers es t b u
      → Asked workers (e ∷ es) s b u
  fails :
      {e : E} {es : List E} {s t u : S} {b : Bool}
      → workers.terminate e s ≡ some (gone, t)
      → Asked workers es t b u
      → Asked workers (e ∷ es) s false u

abbrev answer_of : Bool → Answer (Unit {0})
answer_of true = done tt
answer_of false = gone

-- What comes of the reset: the table as it was made, and an answer, where all endpoints terminate.
abbrev pub outcome : {E : Type 0} → Bool → Answer (SlotWorker E × Reply)
outcome true = done (new, reset_done)
outcome false = gone

emptied-replicate :
    {E : Type 0} (slots : List (Option (Slot E))) → emptied slots ≡ replicate (length slots) none
unfolding emptied
emptied-replicate [] = refl
emptied-replicate (slot ∷ slots) = ap (λ rest. none ∷ rest) (emptied-replicate slots)

both_assoc : (a b c : Answer (Unit {0})) → both (both a b) c ≡ both a (both b c)
both_assoc gone b c = refl
both_assoc (done a) b c = refl

both-answer_of : (a b : Bool) → both (answer_of a) (answer_of b) ≡ answer_of (a && b)
both-answer_of true b = refl
both-answer_of false b = refl

module _ {S E : Type 0} (workers : Workers S E) where
  Asked-append :
      {es fs : List E} {s t u : S} {a b : Bool}
      → Asked workers es s a t
      → Asked workers fs t b u
      → Asked workers (es ++ fs) s (a && b) u
  Asked-append nobody k = k
  Asked-append (obeys run h) k = obeys run (Asked-append h k)
  Asked-append (fails run h) k = fails run (Asked-append h k)

  -- A loop that is given `result` asks these endpoints, and has a result.
  abbrev Asks : List E → (S → Option (Answer (Unit {0}) × S)) → Answer (Unit {0}) → Type 0
  Asks es m result =
      (s : S)
      → (b : Bool) × (t : S) × Asked workers es s b t × (m s ≡ some (both result (answer_of b), t))

module _ {S E : Type 0} (workers : Workers S E)
    (terminates : (e : E) → Responds (workers.terminate e)) where
  terminate_all-Asks :
      (senders : List (Option E)) (result : Answer (Unit {0}))
      → Asks workers (endpoints_of senders) (terminate_all workers senders result) result
  unfolding terminate_all endpoints_of
  terminate_all-Asks [] gone s = (true, s, nobody, refl)
  terminate_all-Asks [] (done x) s = (true, s, nobody, refl)
  terminate_all-Asks (none ∷ senders) result s = terminate_all-Asks senders result s
  terminate_all-Asks (some e ∷ senders) result s =
      let (r, t, run) = terminates e s in
      let (b, u, asked, rest) = terminate_all-Asks senders (both result r) t in
      answered r t b u run asked
        (rw (run, ◌>>=◌) (rest ∙ ap (λ x. some (x, u)) (both_assoc result r (answer_of b))))
    where
      answered :
          (r : Answer (Unit {0})) (t : S) (b : Bool) (u : S)
          → workers.terminate e s ≡ some (r, t)
          → Asked workers (endpoints_of senders) t b u
          → terminate_all workers (some e ∷ senders) result s
            ≡ some (both result (both r (answer_of b)), u)
          → (a : Bool) × (v : S) × Asked workers (e ∷ endpoints_of senders) s a v
            × (terminate_all workers (some e ∷ senders) result s
                ≡ some (both result (answer_of a), v))
      answered gone t b u run asked all = (false, u, fails run asked, all)
      answered (done x) t b u run asked all = (b, u, obeys run asked, all)

  drop_all-Asks :
      (slots : List (Option (Slot E))) (result : Answer (Unit {0}))
      → Asks workers (all_endpoints slots) (drop_all workers slots result) result
  unfolding drop_all pre_drop all_endpoints
  drop_all-Asks [] gone s = (true, s, nobody, refl)
  drop_all-Asks [] (done x) s = (true, s, nobody, refl)
  drop_all-Asks (none ∷ slots) result s = drop_all-Asks slots result s
  drop_all-Asks (some slot ∷ slots) result s =
      let (a, t, here, run) = terminate_all-Asks slot.endpoint_senders (done tt) s in
      let (b, u, there, rest) = drop_all-Asks slots (both result (answer_of a)) t in
      (
        a && b,
        u,
        Asked-append workers here there,
        rw (run, ◌>>=◌)
            (rest
              ∙ ap (λ x. some (x, u))
                  (both_assoc result (answer_of a) (answer_of b)
                    ∙ ap (both result) (both-answer_of a b))),
      )

  -- A reset of all slots that someone waits for returns, where each call to terminate an endpoint does,
  -- with an answer or an error. It asks every endpoint of every slot to terminate, one after another,
  -- also after an error. If all of them do, the table of eight slots is as it was made, with both
  -- registers zero, and the reset is answered; if one of them fails, the slot worker ends.
  pub round-new :
      (dma : Device S) (senders : Senders S E) (w : SlotWorker E) (s : S)
      → length w.slots ≡ max_slots
      → (b : Bool) × (t : S) × Asked workers (all_endpoints w.slots) s b t
        × (round dma workers senders w reset_all_slots true s ≡ some (outcome b, t))
  unfolding round reset new
  round-new dma senders w s size =
      let (b, t, asked, run) = drop_all-Asks w.slots (done tt) s in (b, t, asked, finished b t run)
    where
      finished :
          (b : Bool) (t : S)
          → drop_all workers w.slots (done tt) s ≡ some (answer_of b, t)
          → round dma workers senders w reset_all_slots true s ≡ some (outcome b, t)
      finished true t run =
          rw (run, ◌>>=◌)
            (ap
              (λ slots.
                some (done (record { slots = slots; config_reg = 0; dcbaap = 0 }, reset_done), t))
              (emptied-replicate w.slots ∙ ap (λ n. replicate n none) size))
      finished false t run = rw (run, ◌>>=◌) refl
