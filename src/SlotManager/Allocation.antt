-- ===== src/SlotManager/Allocation.antt =====
-- Which slot `SlotWorker::allocate_slot` of src/device/xhci/slot_manager.rs gives out.
use usbvfiod.Prelude.{
  ℕ, zero, suc, ◌+◌, ◌-◌, ◌*◌, ◌≤◌, ◌<◌, ◌≡◌, refl, ◌⊎◌, inl, inr, Option, none, some, List, length,
  get_elem?, arith, ap, ◌∙◌, subst, ◌≢◌, ◌%◌, [], ◌∷◌, get_elem?-set_self, get_elem?-set_ne,
}
use usbvfiod.Bus.Request.{u64_mod}
use usbvfiod.Trb.Types.{no_slots_available_error}
use usbvfiod.SlotManager.Slot
use usbvfiod.SlotManager.Slot.{Slot, one_indexed, wrapping_add}
use usbvfiod.SlotManager.Table.{
  SlotWorker, max_slots, num_slots_enabled, find_free, Allocated, ok, err, allocate_found,
  allocate_slot,
}

-- The slot with a number from 1 on is in use, or is free.
abbrev pub Taken : {E : Type 0} → List (Option (Slot E)) → ℕ → Type 0
Taken {E} slots k = (slot : Slot E) × (get_elem? slots (k - 1) ≡ some (some slot))

abbrev pub Free : {E : Type 0} → List (Option (Slot E)) → ℕ → Type 0
Free slots k = get_elem? slots (k - 1) ≡ some none

-- The first free slot of a range, if it has one.
abbrev pub FirstFree : {E : Type 0} → List (Option (Slot E)) → ℕ → ℕ → Option ℕ → Type 0
FirstFree slots from to none = (k : ℕ) → from ≤ k → k < to → Taken slots k
FirstFree slots from to (some j) =
    (from ≤ j) × (j < to) × Free slots j × ((k : ℕ) → from ≤ k → k < j → Taken slots k)

in_range : {A : Type 0} (xs : List A) (i : ℕ) → i < length xs → (a : A) × (get_elem? xs i ≡ some a)
in_range [] i h = absurd (omega arith)
in_range (x ∷ xs) zero h = (x, refl)
in_range (x ∷ xs) (suc i) h = in_range xs i (omega arith)

at_or_after : (from k : ℕ) → from ≤ k → (from ≡ k) ⊎ (from + 1 ≤ k)
at_or_after from k h = ground arith

one_indexed-lem : (k : ℕ) → 1 ≤ k → k ≤ max_slots → one_indexed k ≡ k - 1
one_indexed-lem k lo hi = omega arith

module _ {E : Type 0} (slots : List (Option (Slot E))) where
  cons-Taken :
      (from to : ℕ)
      → Taken slots from
      → ((k : ℕ) → from + 1 ≤ k → k < to → Taken slots k)
      → (k : ℕ) → from ≤ k
      → k < to
      → Taken slots k
  cons-Taken from to t f k lo hi = elim (at_or_after from k lo) [
    | inl e ↦ subst (Taken slots) e t
    | inr later ↦ f k later hi
  ]

  cons-FirstFree :
      (from to : ℕ) (found : Option ℕ)
      → Taken slots from
      → FirstFree slots (from + 1) to found
      → FirstFree slots from to found
  cons-FirstFree from to none t f = cons-Taken from to t f
  cons-FirstFree from to (some j) t f = (omega (arith, f.0), f.1, f.2, cons-Taken from j t f.3)

  find_free-FirstFree :
      (from n : ℕ)
      → 1 ≤ from
      → from + n ≤ length slots + 1
      → from + n ≤ max_slots + 1
      → (found : Option ℕ) × (find_free slots from n ≡ some found)
        × FirstFree slots from (from + n) found
  unfolding find_free
  find_free-FirstFree from zero p h m = (none, refl, λ k lo hi. absurd (omega arith))
  find_free-FirstFree from (suc n) p h m =
      let (a, e) = in_range slots (from - 1) (omega arith) in
      let later = find_free-FirstFree (from + 1) n (omega arith) (omega arith) (omega arith) in
      step a (ap (get_elem? slots) (one_indexed-lem from p (omega arith)) ∙ e) e later
    where
      step :
          (a : Option (Slot E))
          → get_elem? slots (one_indexed from) ≡ some a
          → get_elem? slots (from - 1) ≡ some a
          → ((found : Option ℕ) × (find_free slots (from + 1) n ≡ some found)
              × FirstFree slots (from + 1) (from + 1 + n) found)
          → (found : Option ℕ) × (find_free slots from (suc n) ≡ some found)
            × FirstFree slots from (from + suc n) found
      step none e' e later = (
        some from,
        rw (find_free, e') refl,
        (omega arith, omega arith, e, λ k lo hi. absurd (omega arith)),
      )
      step (some slot) e' e later =
          let (found, run, first) = later in
          let end : from + 1 + n ≡ from + suc n = omega arith in
          (
            found,
            rw (find_free, e') run,
            cons-FirstFree from (from + suc n) found (slot, e)
                (subst (λ t. FirstFree slots (from + 1) t found) end first),
          )

-- A slot that is not in use is given out where there is one.
abbrev pub Result : {E : Type 0} → SlotWorker E → Option ℕ → Allocated × SlotWorker E → Type 0
Result w none r = r ≡ (err no_slots_available_error, w)
Result w (some j) r =
    (r.0 ≡ ok j)
    × (get_elem? r.1.slots (j - 1) ≡ some (some (Slot.new j ((w.dcbaap + j * 8) % u64_mod))))
    × ((i : ℕ) → j - 1 ≢ i → get_elem? r.1.slots i ≡ get_elem? w.slots i)
    × (r.1.config_reg ≡ w.config_reg)
    × (r.1.dcbaap ≡ w.dcbaap)

-- On a table with its 8 slots, of which at most 8 are enabled, `allocate_slot` gives out the free slot
-- with the lowest number among the enabled ones, as a slot in state Enabled at its entry of the device
-- context base address array, and changes no other. Where they are all in use it answers that no slot
-- is available, and changes nothing.
pub allocate_slot-FirstFree :
    {E : Type 0} (w : SlotWorker E)
    → length w.slots ≡ max_slots
    → num_slots_enabled w ≤ max_slots
    → (found : Option ℕ) × (r : Allocated × SlotWorker E) × (allocate_slot w ≡ some r)
      × FirstFree w.slots 1 (1 + num_slots_enabled w) found
      × Result w found r
unfolding allocate_slot
allocate_slot-FirstFree w h m =
    let (found, run, first) =
      find_free-FirstFree w.slots 1 (num_slots_enabled w) (omega arith) (omega (arith, h, m))
        (omega (arith, m)) in
    (found, allocate_found w found, rw (allocate_slot, run) refl, first, result found first)
  where
    result :
        (found : Option ℕ)
        → FirstFree w.slots 1 (1 + num_slots_enabled w) found
        → Result w found (allocate_found w found)
    result none f = refl
    result (some j) f =
        let e = one_indexed-lem j f.0 (omega (arith, f.1, m)) in
        (
          refl,
          rw e (get_elem?-set_self w.slots (j - 1) _ (omega (arith, h, m, f.0, f.1))),
          λ i ne. rw e (get_elem?-set_ne w.slots _ ne),
          refl,
          refl,
        )
