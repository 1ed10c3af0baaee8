-- ===== src/Interrupter/Delivery.antt =====
-- What src/device/xhci/interrupter.rs makes of events and of changes of the interrupt line.
use usbvfiod.Prelude.{
  ℕ, ◌%◌, ◌^◌, ◌≡◌, ◌≢◌, refl, ap, ◌∙◌, if◌then◌else◌, true, false, Option, some, List, [], ◌∷◌,
  ◌++◌, length, M, pure, ◌>>=◌,
}
use usbvfiod.Bus.Device.{Device}
use usbvfiod.Trb.Event.{EventTrb, to_bytes}
use usbvfiod.EventRing
use usbvfiod.EventRing.Segments.{
  Segment, Position, IsTable, InTable, address, next, ring_of, Holds, next-InTable,
}
use usbvfiod.EventRing.Slots.{enqueue-next}
use usbvfiod.EventRing.Laps.{Sent, after, place, NeverFull}
use usbvfiod.Registers.Operational.{erstba}
use usbvfiod.SlotManager.{Answer, done, ◌>>?◌}
use usbvfiod.Interrupter.{
  EventWorker, InterrupterMessage, send_event, update_interrupt_line, Signal, interrupted,
}
use usbvfiod.Interrupter.Worker.{round, run_configured, waiting, interrupt, Round}

-- An event, with the dequeue pointer that the guest has written by then, or a new interrupt line.
pub data Arrival : Type 0 where
  event : EventTrb → ℕ → Arrival
  line : ℕ → Arrival

abbrev pub events : List Arrival → List Sent
events [] = []
events (event e dequeue_pointer ∷ xs) = (e, dequeue_pointer) ∷ events xs
events (line l ∷ xs) = events xs

-- One interrupt for each event, on the line of its time, and one on each new line.
abbrev pub signals : Option ℕ → List Arrival → List Signal
signals l [] = []
signals l (event e dequeue_pointer ∷ xs) = interrupt l ++ signals l xs
signals l (line l' ∷ xs) = interrupted l' ∷ signals (some l') xs

abbrev pub last_line : Option ℕ → List Arrival → Option ℕ
last_line l [] = l
last_line l (event e dequeue_pointer ∷ xs) = last_line l xs
last_line l (line l' ∷ xs) = last_line (some l') xs

module _ {S : Type 0} (dma : Device S) where
  abbrev pub arrive : EventWorker → Arrival → M S (Answer Round)
  arrive w (event e dequeue_pointer) =
      round dma
        (record w {
          registers = record w.registers { eventring_dequeue_pointer = dequeue_pointer };
        })
        (send_event e)
  arrive w (line l) = round dma w (update_interrupt_line l)

  -- Arrivals one after another, with all the signals.
  unfoldable pub arrive_all : EventWorker → List Arrival → M S (Answer Round)
  unfolding round
  arrive_all w [] = pure (done (w, []))
  arrive_all w (a ∷ xs) = arrive w a >>? λ (w', before).
      arrive_all w' xs >>? λ (w'', later). pure (done (w'', before ++ later))

module _ {S : Type 0} (dma : Device S) (n : ℕ) (segments : ℕ → Segment) (base_address : ℕ)
    (put : ℕ → List ℕ → S → S) (I : S → Type 0) where
  -- The worker runs on a table, before a slot.
  pub record Running (w : EventWorker) (p : Position) : Type 0 where
    pub configured : w.configured ≡ true
    pub kicks : w.suppressed ≡ false
    pub base : erstba w.registers.erst_base_address ≡ base_address
    pub size : w.registers.erst_size % 2 ^ 32 ≡ n
    pub ring : w.event_ring ≡ ring_of n segments p

  abbrev pub Delivered : EventWorker → Position → List Arrival → S → Type 0
  Delivered w p xs s =
      (w' : EventWorker) × (arrive_all dma w xs s
        ≡ some (done (w', signals w.interrupt_line xs), place n segments put p (events xs) s))
      × Running w' (after n segments (length (events xs)) p)
      × (w'.interrupt_line ≡ last_line w.interrupt_line xs)

  -- The worker after an event.
  abbrev sent : EventWorker → ℕ → EventRing.EventRing → EventWorker
  sent w dequeue_pointer ring = record w {
    registers = record w.registers { eventring_dequeue_pointer = dequeue_pointer };
    event_ring = ring;
  }

  round-configured :
      (w : EventWorker) (msg : InterrupterMessage) (s : S)
      → w.configured ≡ true
      → round dma w msg s ≡ run_configured dma w msg s
  unfolding round
  round-configured w msg s h =
      ap (λ b. (if b then run_configured dma w msg else pure (waiting w msg)) s) h

  enqueued :
      (w : EventWorker) (p : Position) (e : EventTrb) (dequeue_pointer : ℕ) (s : S)
      → IsTable n segments
      → Holds n segments dma base_address put I
      → I s
      → InTable n segments p
      → dequeue_pointer ≢ address n segments (next n segments p)
      → Running w p
      → EventRing.enqueue dma w.event_ring e
          (erstba w.registers.erst_base_address)
          (w.registers.erst_size % 2 ^ 32)
          dequeue_pointer
          s
        ≡ some (
          ring_of n segments (next n segments p),
          put (address n segments p) (to_bytes e p.cycle) s,
        )
  enqueued w p e d s t m i k free r =
      rw (r.ring, r.base, r.size)
        (enqueue-next dma n segments base_address put I p e d s t m i k free)

  arrive-event :
      (w : EventWorker) (p : Position) (e : EventTrb) (dequeue_pointer : ℕ) (s : S)
      → IsTable n segments
      → Holds n segments dma base_address put I
      → I s
      → InTable n segments p
      → dequeue_pointer ≢ address n segments (next n segments p)
      → Running w p
      → arrive dma w (event e dequeue_pointer) s
        ≡ some (
          done (
            sent w dequeue_pointer (ring_of n segments (next n segments p)),
            interrupt w.interrupt_line,
          ),
          put (address n segments p) (to_bytes e p.cycle) s,
        )
  arrive-event w p e d s t m i k free r =
      let w₀ = record w { registers = record w.registers { eventring_dequeue_pointer = d } } in
      round-configured w₀ (send_event e) s r.configured
      ∙ rw (enqueued w p e d s t m i k free r, ◌>>=◌) refl

  arrive-line :
      (w : EventWorker) (p : Position) (l : ℕ) (s : S)
      → Running w p
      → arrive dma w (line l) s
        ≡ some (done (record w { interrupt_line = some l }, interrupted l ∷ []), s)
  arrive-line w p l s r =
      round-configured w (update_interrupt_line l) s r.configured
      ∙ ap
          (λ b.
            some (
              done (record w { interrupt_line = some l }, if b then [] else interrupted l ∷ []),
              s,
            ))
          r.kicks

  -- The rest of the arrivals after the first.
  arrive_all_cons :
      (w w' : EventWorker) (x : Arrival) (xs : List Arrival) (before : List Signal) (s s' : S)
      (r : EventWorker) (later : List Signal) (s'' : S)
      → arrive dma w x s ≡ some (done (w', before), s')
      → arrive_all dma w' xs s' ≡ some (done (r, later), s'')
      → arrive_all dma w (x ∷ xs) s ≡ some (done (r, before ++ later), s'')
  unfolding arrive_all
  arrive_all_cons w w' x xs before s s' r later s'' e h = rw (arrive_all, ◌>>=◌, e, h) refl

  -- While the worker runs on a table in guest memory, and no event finds the driver's pointer on the
  -- slot after its own: events and changes of the interrupt line put each event into the slot after the
  -- last, with its cycle bit, raise one interrupt for it on the line of that time, and raise one on
  -- each new line after all earlier events are on the ring.
  pub arrive_all-Delivered :
      (w : EventWorker) (p : Position) (xs : List Arrival) (s : S)
      → IsTable n segments
      → Holds n segments dma base_address put I
      → I s
      → InTable n segments p
      → NeverFull n segments p (events xs)
      → Running w p
      → Delivered w p xs s
  unfolding arrive_all
  arrive_all-Delivered w p [] s t m i k h r = (w, refl, r, refl)
  arrive_all-Delivered w p (event e d ∷ xs) s t m i k h r =
      let q = next n segments p in
      let w₁ = sent w d (ring_of n segments q) in
      let r₁ : Running w₁ q = record {
        configured = r.configured;
        kicks = r.kicks;
        base = r.base;
        size = r.size;
        ring = refl;
      } in
      let s₁ = put (address n segments p) (to_bytes e p.cycle) s in
      let (w₂, run, r₂, line₂) =
        arrive_all-Delivered w₁ q xs s₁ t m (m.keeps s p _ i k) (next-InTable n segments p t k) h.1
          r₁ in
      (
        w₂,
        arrive_all_cons w w₁ (event e d) xs (interrupt w.interrupt_line) s s₁ w₂
            (signals w.interrupt_line xs) _ (arrive-event w p e d s t m i k h.0 r) run,
        r₂,
        line₂,
      )
  arrive_all-Delivered w p (line l ∷ xs) s t m i k h r =
      let w₁ = record w { interrupt_line = some l } in
      let r₁ : Running w₁ p = record {
        configured = r.configured;
        kicks = r.kicks;
        base = r.base;
        size = r.size;
        ring = r.ring;
      } in
      let (w₂, run, r₂, line₂) = arrive_all-Delivered w₁ p xs s t m i k h r₁ in
      (
        w₂,
        arrive_all_cons w w₁ (line l) xs (interrupted l ∷ []) s s w₂ (signals (some l) xs) _
            (arrive-line w p l s r) run,
        r₂,
        line₂,
      )
