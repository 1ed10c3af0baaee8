-- ===== src/Endpoint/Memory.antt =====
-- What the worker of src/device/xhci/endpoint.rs relies on of guest memory: an endpoint context that
-- nothing else writes to.
use usbvfiod.Prelude.{
  ℕ, zero, suc, ◌-◌, ◌%◌, ◌^◌, ◌==◌, ◌≡◌, ◌<◌, inl, inr, ◌∙◌, Bool, Option, none, some, List, pure,
  Option-cases, Bool-cases, bind_some, bit_and, bit_xor, not, arith,
}
use usbvfiod.Bus.Request.{Request, size1, size8, u64_mod}
use usbvfiod.Bus.Device.{Device}
use usbvfiod.Trb.Types.{RawTrbBuffer}
use usbvfiod.Trb.Link
use usbvfiod.LinkedRing.{
  LinkedRing, RawTrb, fresh, follow, follow_links, next_trb, next_trb_raw, get_dequeue_pointer,
  trb_size, link_limit,
}
use usbvfiod.SlotManager.{Answer}
use usbvfiod.SlotManager.Slot.{wrapping_add}
use usbvfiod.Endpoint.{RealEndpoint}
use usbvfiod.Endpoint.Context.{
  get_dequeue_pointer_and_cycle_state, pointer_word, set_state, set_dequeue_pointer_and_cycle_state,
}
use usbvfiod.Endpoint.Worker.{publish}

-- An endpoint context at `context` in guest memory, as its state and its pointer word. Writes to it
-- are read back, and neither reads of memory nor the real endpoint change it.
pub record ContextView {S : Type 0} (dma : Device S) (real : RealEndpoint S) (context : ℕ)
    : Type 0 where
  pub state_of : S → ℕ
  pub pointer_of : S → ℕ
  pub writes_state :
      (s : S) (v : ℕ)
      → (t : S) × (dma.write (record { addr = context; size = size1 }) v s ≡ some (tt, t))
        × (state_of t ≡ v % 256)
        × (pointer_of t ≡ pointer_of s)
  pub writes_pointer :
      (s : S) (v : ℕ)
      → (t : S) × (dma.write (record { addr = wrapping_add context 8; size = size8 }) v s
          ≡ some (tt, t))
        × (state_of t ≡ state_of s)
        × (pointer_of t ≡ v % u64_mod)
  pub reads :
      (a n : ℕ) (s t : S) (bs : List ℕ)
      → dma.read_bulk a n s ≡ some (bs, t)
      → (state_of t ≡ state_of s) × (pointer_of t ≡ pointer_of s)
  pub reads_word :
      (q : Request) (s t : S) (v : ℕ)
      → dma.read q s ≡ some (v, t)
      → (state_of t ≡ state_of s) × (pointer_of t ≡ pointer_of s)
  pub submits :
      (trb : RawTrb) (s t : S) (r : Answer (Unit {0}))
      → real.submit_trb trb s ≡ some (r, t)
      → (state_of t ≡ state_of s) × (pointer_of t ≡ pointer_of s)
  pub cancels :
      (s t : S) (r : Answer (Unit {0}))
      → real.cancel s ≡ some (r, t)
      → (state_of t ≡ state_of s) × (pointer_of t ≡ pointer_of s)
  pub clears :
      (s t : S) (r : Answer (Unit {0}))
      → real.clear_halt s ≡ some (r, t)
      → (state_of t ≡ state_of s) × (pointer_of t ≡ pointer_of s)

module _ {S : Type 0} {dma : Device S} {real : RealEndpoint S} {context : ℕ}
    (view : ContextView dma real context) where
  abbrev pub Same : S → S → Type 0
  Same s t = (view.state_of t ≡ view.state_of s) × (view.pointer_of t ≡ view.pointer_of s)

  -- The context shows this state and the pointer of this ring.
  abbrev pub Published : ℕ → LinkedRing → S → Type 0
  Published code ring s =
      (view.state_of s ≡ code)
      × (view.pointer_of s ≡ pointer_word ring.dequeue_pointer ring.cycle_state % u64_mod)

  pub set_state-view :
      (code : ℕ) (s t : S)
      → code < 256
      → set_state dma context code s ≡ some (tt, t)
      → (view.state_of t ≡ code) × (view.pointer_of t ≡ view.pointer_of s)
  unfolding set_state
  set_state-view code s t lt e =
      let (u, run, shows, keeps) = view.writes_state s code in ground (arith)

  pub set_pointer-view :
      (ptr : ℕ) (cs : Bool) (s t : S)
      → set_dequeue_pointer_and_cycle_state dma context ptr cs s ≡ some (tt, t)
      → (view.state_of t ≡ view.state_of s) × (view.pointer_of t ≡ pointer_word ptr cs % u64_mod)
  unfolding set_dequeue_pointer_and_cycle_state
  set_pointer-view ptr cs s t e = elim (Bool-cases (bit_and ptr 0xf == 0)) [
    | inl aligned ↦
        let (u, run, shows, keeps) = view.writes_pointer s (pointer_word ptr cs) in
        let e' = rw aligned at e in ground arith
    | inr other ↦ cc (rw other at e)
  ]

  pub get_pointer-Same :
      (s t : S) (p : ℕ × Bool)
      → get_dequeue_pointer_and_cycle_state dma context s ≡ some (p, t)
      → Same s t
  unfolding get_dequeue_pointer_and_cycle_state
  get_pointer-Same s t p e =
      let request : Request = record { addr = wrapping_add context 8; size = size8 } in
      let (v, u, run, last) =
        bind_some (dma.read request)
          (λ v. pure (bit_and v (bit_xor 0xf (2 ^ 64 - 1)), not (bit_and v 0x1 == 0))) s t p e in
      let (a, b) = view.reads_word request s u v run in ground arith

  pub publish-Published :
      (code : ℕ) (ring : LinkedRing) (s t : S)
      → code < 256
      → publish dma real context code ring s ≡ some (tt, t)
      → Published code ring t
  unfolding publish get_dequeue_pointer
  publish-Published code ring s t lt e =
      let (a, u, first, rest) =
        bind_some (set_state dma context code)
          (λ _.
            set_dequeue_pointer_and_cycle_state dma context ring.dequeue_pointer ring.cycle_state)
          s t tt e in
      let (shows, _) = set_state-view code s u lt first in
      let (keeps, pointer) = set_pointer-view ring.dequeue_pointer ring.cycle_state u t rest in
      (keeps ∙ shows, pointer)

  next_trb_raw-Same :
      (ring : LinkedRing) (s t : S) (o : Option RawTrbBuffer)
      → next_trb_raw dma ring s ≡ some (o, t)
      → Same s t
  unfolding next_trb_raw
  next_trb_raw-Same ring s t o e =
      let (bs, u, run, last) =
        bind_some (dma.read_bulk ring.dequeue_pointer trb_size) (λ b. pure (fresh ring b)) s t o
          e in
      let (a, b) = view.reads ring.dequeue_pointer trb_size s u bs run in ground arith

  follow_links-Same :
      (n : ℕ) (ring : LinkedRing) (o : Option RawTrbBuffer) (s t : S)
      (r : Option RawTrb × LinkedRing)
      → follow_links dma n ring o s ≡ some (r, t)
      → Same s t
  unfolding follow_links
  follow_links-Same n ring none s t r e = ground arith
  follow_links-Same zero ring (some b) s t r e = ground arith
  follow_links-Same (suc n) ring (some b) s t r e = elim (Option-cases (Link.parse b)) [
    | inl block ↦ ground arith
    | inr (link, h) ↦
        let (o, u, run, last) =
          bind_some (next_trb_raw dma (follow ring link)) (follow_links dma n (follow ring link)) s
            t r (rw (h, follow_links) at e) in
        let (a, b) = next_trb_raw-Same (follow ring link) s u o run in
        let (c, d) = follow_links-Same n (follow ring link) o u t r last in (c ∙ a, d ∙ b)
  ]

  pub next_trb-Same :
      (ring : LinkedRing) (s t : S) (r : Option RawTrb × LinkedRing)
      → next_trb dma ring s ≡ some (r, t)
      → Same s t
  unfolding next_trb
  next_trb-Same ring s t r e =
      let (o, u, run, last) =
        bind_some (next_trb_raw dma ring) (follow_links dma link_limit ring) s t r e in
      let (a, b) = next_trb_raw-Same ring s u o run in
      let (c, d) = follow_links-Same link_limit ring o u t r last in (c ∙ a, d ∙ b)
