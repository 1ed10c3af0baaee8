-- ===== src/LinkedRing/Freshness.antt =====
-- What a caller of `LinkedRing::next_trb` of src/device/xhci/linked_ring.rs can rely on.
use usbvfiod.Prelude.{
  ℕ, zero, suc, ◌+◌, ◌%◌, ◌≤◌, ◌≡◌, refl, Option, none, some, ◌∙◌, sym, subst, ap, ◌-◌, ◌>>=◌,
  arith,
}
use usbvfiod.Bus.Request.{u64_mod}
use usbvfiod.Bus.Device.{Device}
use usbvfiod.Trb.Types.{RawTrbBuffer, flag}
use usbvfiod.Trb.Link
use usbvfiod.Trb.Link.{LinkTrb}
use usbvfiod.LinkedRing.{
  RawTrb, LinkedRing, advance, set_dequeue_pointer, link_limit, fresh, found, follow, next_trb,
  follow_links,
}
use usbvfiod.LinkedRing.Walk.{
  Reads, current, IsFresh, fresh-IsFresh, led_by, IsLink, Follows, here, there, Ends, block, stale,
  too_many, next_trb-walks, next_trb-lem, next_trb_raw-lem,
}

-- What `next_trb` hands out: the block at the dequeue pointer, which is fresh and no link.
pub record IsBlock (mem : ℕ → RawTrbBuffer) (trb : RawTrb) (last : LinkedRing) : Type 0 where
  pub address : trb.address ≡ last.dequeue_pointer
  pub in_memory : trb.buffer ≡ mem trb.address
  pub is_fresh : flag trb.buffer 12 0x1 ≡ last.cycle_state
  pub no_link : Link.parse trb.buffer ≡ none

Ends-IsBlock :
    {mem : ℕ → RawTrbBuffer} {n : ℕ} (last : LinkedRing) (o : Option RawTrb) (trb : RawTrb)
    → Ends mem n last o
    → o ≡ some trb
    → IsBlock mem trb last
Ends-IsBlock {mem} last _ trb (block new p) e =
    subst (λ t. IsBlock mem t last) (cc e)
      (record { address = refl; in_memory = refl; is_fresh = new; no_link = p })
Ends-IsBlock last _ trb (stale old) e = absurd (cc e)
Ends-IsBlock last _ trb (too_many q h) e = absurd (cc e)

IsBlock-IsFresh :
    (mem : ℕ → RawTrbBuffer) (last : LinkedRing) (trb : RawTrb)
    → IsBlock mem trb last
    → IsFresh mem last
IsBlock-IsFresh mem last trb b =
    subst (λ a. flag (mem a) 12 0x1 ≡ last.cycle_state) b.address
      (subst (λ c. flag c 12 0x1 ≡ last.cycle_state) b.in_memory b.is_fresh)

IsBlock-found :
    (mem : ℕ → RawTrbBuffer) (last : LinkedRing) (trb : RawTrb)
    → IsBlock mem trb last
    → (Link.parse (current mem last) ≡ none) × (found last (current mem last) ≡ (some trb, last))
IsBlock-found mem last trb b =
    let e : trb.buffer ≡ current mem last = b.in_memory ∙ ap mem b.address in
    (subst (λ c. Link.parse c ≡ none) e b.no_link, cc (b.address, e))

-- A set of rings that all point to a fresh link, and that the links do not leave.
abbrev pub AllLinks : (ℕ → RawTrbBuffer) → (LinkedRing → Type 0) → Type 0
AllLinks mem P = (r : LinkedRing) → P r → (link : LinkTrb) × IsLink mem r link × P (led_by r link)

follows-AllLinks :
    {mem : ℕ → RawTrbBuffer} {P : LinkedRing → Type 0} (n : ℕ) (ring last : LinkedRing)
    → AllLinks mem P
    → P ring
    → Follows mem n ring last
    → P last
follows-AllLinks _ ring _ h p here = p
follows-AllLinks {P = P} _ ring last h p (there {n} {link = link} k walk) =
    let (link', k', q) = h ring p in
    follows-AllLinks n (led_by ring link) last h
      (subst (λ t. P (led_by ring t)) {x = link'} {y = link} (cc (k.parsed, k'.parsed)) q) walk

Ends-IsLink :
    {mem : ℕ → RawTrbBuffer} (n : ℕ) (last : LinkedRing) (link : LinkTrb) (o : Option RawTrb)
    → IsLink mem last link
    → Ends mem n last o
    → (n ≡ link_limit) × (o ≡ none)
Ends-IsLink n last link _ k (block new p) = absurd (cc (k.parsed, p))
Ends-IsLink n last link _ k (stale old) = absurd (old k.is_fresh)
Ends-IsLink n last link _ k (too_many q h) = (q, refl)

module _ {S : Type 0} (dma : Device S) (s : S) (mem : ℕ → RawTrbBuffer) where
  -- Where the bus reads the blocks of a memory, a block that `next_trb` hands out is the one in memory at the dequeue pointer that it leaves, its
  -- cycle bit is that of the ring, and it is never a link.
  pub next_trb-IsBlock :
      (ring last : LinkedRing) (trb : RawTrb) (t : S)
      → Reads dma s mem
      → next_trb dma ring s ≡ some ((some trb, last), t)
      → IsBlock mem trb last
  next_trb-IsBlock ring last trb t r h =
      let (m, o, last', run, le, walk, end) = next_trb-walks dma s mem ring r in
      let e : some ((o, last'), s) ≡ some ((some trb, last), t) = sym run ∙ h in
      subst (IsBlock mem trb) (cc e) (Ends-IsBlock last' o trb end (cc e))

  follow_links-block :
      (n : ℕ) (ring : LinkedRing)
      → IsFresh mem ring
      → Link.parse (current mem ring) ≡ none
      → follow_links dma n ring (fresh ring (current mem ring)) s
        ≡ some (found ring (current mem ring), s)
  unfolding follow_links follow
  follow_links-block zero ring new p = rw (fresh-IsFresh mem ring new, follow_links, p) refl
  follow_links-block (suc n) ring new p = rw (fresh-IsFresh mem ring new, follow_links, p) refl

  follow_links-Follows :
      (j n k : ℕ) (ring last : LinkedRing)
      → Reads dma s mem
      → j ≡ n + k
      → Follows mem n ring last
      → follow_links dma j ring (fresh ring (current mem ring)) s
        ≡ follow_links dma k last (fresh last (current mem last)) s
  unfolding follow_links follow
  follow_links-Follows j _ k ring _ r e here =
      ap (λ t. follow_links dma t ring (fresh ring (current mem ring)) s) (omega arith)
  follow_links-Follows zero _ k ring last r e (there {n} h walk) = absurd (omega arith)
  follow_links-Follows (suc j) _ k ring last r e (there {n} {link = link} h walk) =
      rw
        (
          fresh-IsFresh mem ring h.is_fresh,
          follow_links,
          h.parsed,
          ◌>>=◌,
          next_trb_raw-lem dma s mem (led_by ring link) r,
        )
        (follow_links-Follows j n k (led_by ring link) last r (omega arith) walk)

  pub next_trb-finds :
      (n : ℕ) (ring last : LinkedRing)
      → Reads dma s mem
      → n ≤ link_limit
      → Follows mem n ring last
      → IsFresh mem last
      → Link.parse (current mem last) ≡ none
      → next_trb dma ring s ≡ some (found last (current mem last), s)
  next_trb-finds n ring last r le walk new p =
      next_trb-lem dma s mem ring r
      ∙ follow_links-Follows link_limit n (link_limit - n) ring last r (omega arith) walk
      ∙ follow_links-block (link_limit - n) last new p

  -- Where the bus reads the blocks of a memory, a block that has been handed out is handed out again
  -- without `advance`, and the ring stays as it is.
  pub next_trb-again :
      (ring last : LinkedRing) (trb : RawTrb) (t : S)
      → Reads dma s mem
      → next_trb dma ring s ≡ some ((some trb, last), t)
      → next_trb dma last s ≡ some ((some trb, last), s)
  next_trb-again ring last trb t r h =
      let b = next_trb-IsBlock ring last trb t r h in
      let (no_link, same_found) = IsBlock-found mem last trb b in
      next_trb-finds 0 last last r (omega arith) here (IsBlock-IsFresh mem last trb b) no_link
      ∙ ap (λ t. some (t, s)) same_found

  -- Where the bus reads the blocks of a memory, and every ring of a set points to a fresh link that
  -- leads to a ring of the set, the loop ends all the same on a ring of the set:
  -- `next_trb` gives up after exactly 256 links, and hands out nothing.
  pub next_trb-endless :
      (ring : LinkedRing) (P : LinkedRing → Type 0)
      → Reads dma s mem
      → AllLinks mem P
      → P ring
      → (last : LinkedRing) × (next_trb dma ring s ≡ some ((none, last), s))
        × Follows mem link_limit ring last
  next_trb-endless ring P r h p =
      let (m, o, last, run, le, walk, end) = next_trb-walks dma s mem ring r in
      let (link, k, q) = h last (follows-AllLinks m ring last h p walk) in
      let (full, nothing) = Ends-IsLink (0 + m) last link o k end in
      (
        last,
        run ∙ ap (λ t. some ((t, last), s)) nothing,
        subst (λ t. Follows mem t ring last) (omega arith) walk,
      )

  -- Where the bus reads the blocks of a memory, after `advance` the next block of the segment is handed out with an address that is 16 higher,
  -- modulo 2 ^ 64, where its cycle bit is the ring's and it is no link.
  pub next_trb-advance :
      (ring last : LinkedRing) (trb : RawTrb) (t : S)
      → Reads dma s mem
      → next_trb dma ring s ≡ some ((some trb, last), t)
      → flag (mem ((trb.address + 16) % u64_mod)) 12 0x1 ≡ last.cycle_state
      → Link.parse (mem ((trb.address + 16) % u64_mod)) ≡ none
      → next_trb dma (advance last) s
        ≡ some (
          (
            some (record {
              address = (trb.address + 16) % u64_mod;
              buffer = mem ((trb.address + 16) % u64_mod);
            }),
            set_dequeue_pointer last ((trb.address + 16) % u64_mod) last.cycle_state,
          ),
          s,
        )
  unfolding advance set_dequeue_pointer
  next_trb-advance ring last trb t r h f p =
      let b = next_trb-IsBlock ring last trb t r h in
      let e : (trb.address + 16) % u64_mod ≡ (last.dequeue_pointer + 16) % u64_mod =
        omega (arith, b.address) in
      next_trb-finds 0 (advance last) (advance last) r (omega arith) here
        (subst (λ a. flag (mem a) 12 0x1 ≡ last.cycle_state) e f)
        (subst (λ a. Link.parse (mem a) ≡ none) e p)
      ∙ rw e refl
