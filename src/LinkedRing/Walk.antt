-- ===== src/LinkedRing/Walk.antt =====
-- The links that `LinkedRing::next_trb` of src/device/xhci/linked_ring.rs follows, as a relation on
-- the rings that it passes through.
use usbvfiod.Prelude.{
  ℕ, zero, suc, ◌+◌, ◌≤◌, ◌≡◌, ◌⊎◌, ◌≢◌, if◌then◌else◌, refl, not, Option, none, some, arith, subst,
  sym, ◌>>=◌, Option-cases, inl, inr,
}
use usbvfiod.Bus.Device.{Device}
use usbvfiod.Trb.Types.{RawTrbBuffer, flag}
use usbvfiod.Trb.Link
use usbvfiod.Trb.Link.{LinkTrb}
use usbvfiod.LinkedRing.{
  RawTrb, LinkedRing, link_limit, trb_size, follow, fresh, next_trb_raw, follow_links, next_trb,
}

-- `dma` reads the blocks of `mem` and leaves the state as it is.
abbrev pub Reads : {S : Type 0} → Device S → S → (ℕ → RawTrbBuffer) → Type 0
Reads dma s mem = (a : ℕ) → dma.read_bulk a trb_size s ≡ some (mem a, s)

-- Where a link leads: to its pointer, and to the other cycle state if it toggles.
abbrev pub led_by : LinkedRing → LinkTrb → LinkedRing
led_by ring link = record {
  dequeue_pointer = link.ring_segment_pointer;
  cycle_state = if link.toggle_cycle then not ring.cycle_state else ring.cycle_state;
}

module _ (mem : ℕ → RawTrbBuffer) where
  -- The block at the dequeue pointer.
  abbrev pub current : LinkedRing → RawTrbBuffer
  current ring = mem ring.dequeue_pointer

  -- Its cycle bit is the ring's.
  abbrev pub IsFresh : LinkedRing → Type 0
  IsFresh ring = flag (current ring) 12 0x1 ≡ ring.cycle_state

  pub record IsLink (ring : LinkedRing) (link : LinkTrb) : Type 0 where
    pub is_fresh : IsFresh ring
    pub parsed : Link.parse (current ring) ≡ some link

  -- From one ring to another over a number of fresh links.
  pub data Follows : ℕ → LinkedRing → LinkedRing → Type 0 where
    here : {ring : LinkedRing} → Follows zero ring ring
    there :
        {n : ℕ} {ring last : LinkedRing} {link : LinkTrb}
        → IsLink ring link
        → Follows n (led_by ring link) last
        → Follows (suc n) ring last

  -- Where the walk ends, and what is returned there.
  pub data Ends : ℕ → LinkedRing → Option RawTrb → Type 0 where
    block :
        {n : ℕ} {ring : LinkedRing}
        → IsFresh ring
        → Link.parse (current ring) ≡ none
        → Ends n ring (some (record { address = ring.dequeue_pointer; buffer = current ring }))
    stale :
        {n : ℕ} {ring : LinkedRing}
        → flag (current ring) 12 0x1 ≢ ring.cycle_state
        → Ends n ring none
    too_many :
        {n : ℕ} {ring : LinkedRing} {link : LinkTrb}
        → n ≡ link_limit
        → IsLink ring link
        → Ends n ring none

abbrev pub NoLink : (ℕ → RawTrbBuffer) → LinkedRing → Type 0
NoLink mem ring =
    (flag (current mem ring) 12 0x1 ≢ ring.cycle_state)
    ⊎ (IsFresh mem ring × (Link.parse (current mem ring) ≡ none))

IsFresh-cases :
    (mem : ℕ → RawTrbBuffer) (ring : LinkedRing)
    → (flag (current mem ring) 12 0x1 ≢ ring.cycle_state) ⊎ IsFresh mem ring
IsFresh-cases mem ring = ground arith

pub fresh-IsFresh :
    (mem : ℕ → RawTrbBuffer) (ring : LinkedRing)
    → IsFresh mem ring
    → fresh ring (current mem ring) ≡ some (current mem ring)
unfolding fresh
fresh-IsFresh mem ring h = ground arith

fresh-stale :
    (mem : ℕ → RawTrbBuffer) (ring : LinkedRing)
    → flag (current mem ring) 12 0x1 ≢ ring.cycle_state
    → fresh ring (current mem ring) ≡ none
unfolding fresh
fresh-stale mem ring h = ground arith

IsLink-cases :
    (mem : ℕ → RawTrbBuffer) (ring : LinkedRing)
    → NoLink mem ring ⊎ ((link : LinkTrb) × IsLink mem ring link)
IsLink-cases mem ring = elim (IsFresh-cases mem ring) [
  | inl old ↦ inl (inl old)
  | inr new ↦ elim (Option-cases (Link.parse (current mem ring))) [
    | inl p ↦ inl (inr (new, p))
    | inr (link, p) ↦ inr (link, record { is_fresh = new; parsed = p })
  ]
]

module _ {S : Type 0} (dma : Device S) (s : S) (mem : ℕ → RawTrbBuffer) where
  pub next_trb_raw-lem :
      (ring : LinkedRing)
      → Reads dma s mem
      → next_trb_raw dma ring s ≡ some (fresh ring (current mem ring), s)
  unfolding next_trb_raw
  next_trb_raw-lem ring r = rw (next_trb_raw, ◌>>=◌, r ring.dequeue_pointer) refl

  pub next_trb-lem :
      (ring : LinkedRing)
      → Reads dma s mem
      → next_trb dma ring s ≡ follow_links dma link_limit ring (fresh ring (current mem ring)) s
  unfolding next_trb
  next_trb-lem ring r = rw (next_trb, ◌>>=◌, next_trb_raw-lem ring r) refl

  -- What a run returns that has followed `k` links before `ring`.
  abbrev pub Run : ℕ → LinkedRing → Option ((Option RawTrb × LinkedRing) × S) → Type 0
  Run k ring result =
      (m : ℕ) × (o : Option RawTrb) × (last : LinkedRing) × (result ≡ some ((o, last), s))
      × (k + m ≤ link_limit)
      × Follows mem m ring last
      × Ends mem (k + m) last o

  -- The loop ends on a block that is old or no link, whatever `n` is.
  NoLink-Run :
      (n k : ℕ) (ring : LinkedRing)
      → k ≤ link_limit
      → NoLink mem ring
      → Run k ring (follow_links dma n ring (fresh ring (current mem ring)) s)
  unfolding follow_links follow
  NoLink-Run n k ring h (inl old) =
      (0, none, ring, rw (fresh-stale mem ring old) refl, omega arith, Follows.here, Ends.stale old)
  NoLink-Run zero k ring h (inr (new, p)) = (
    0,
    some _,
    ring,
    rw (fresh-IsFresh mem ring new, follow_links, p) refl,
    omega arith,
    Follows.here,
    Ends.block new p,
  )
  NoLink-Run (suc n) k ring h (inr (new, p)) = (
    0,
    some _,
    ring,
    rw (fresh-IsFresh mem ring new, follow_links, p) refl,
    omega arith,
    Follows.here,
    Ends.block new p,
  )

  follow_links-Run :
      (n k : ℕ) (ring : LinkedRing)
      → Reads dma s mem
      → k + n ≡ link_limit
      → Run k ring (follow_links dma n ring (fresh ring (current mem ring)) s)
  unfolding follow_links follow
  follow_links-Run zero k ring r e = elim (IsLink-cases mem ring) [
    | inl h ↦ NoLink-Run zero k ring (omega arith) h
    | inr (link, h) ↦ (
      0,
      none,
      ring,
      rw (fresh-IsFresh mem ring h.is_fresh, follow_links, h.parsed) refl,
      omega arith,
      Follows.here,
      Ends.too_many (omega arith) h,
    )
  ]
  follow_links-Run (suc n) k ring r e = elim (IsLink-cases mem ring) [
    | inl h ↦ NoLink-Run (suc n) k ring (omega arith) h
    | inr (link, h) ↦
        let (m, o, last, run, le, walk, end) =
          follow_links-Run n (suc k) (led_by ring link) r (omega arith) in
        (
          suc m,
          o,
          last,
          rw
              (
                fresh-IsFresh mem ring h.is_fresh,
                follow_links,
                h.parsed,
                ◌>>=◌,
                next_trb_raw-lem (led_by ring link) r,
              )
              run,
          omega arith,
          Follows.there h walk,
          subst (λ t. Ends mem t last o) (omega arith) end,
        )
  ]

  pub next_trb-walks : (ring : LinkedRing) → Reads dma s mem → Run 0 ring (next_trb dma ring s)
  next_trb-walks ring r =
      subst (Run 0 ring) (sym (next_trb-lem ring r)) (follow_links-Run link_limit 0 ring r refl)
