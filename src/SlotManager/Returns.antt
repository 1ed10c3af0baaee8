-- ===== src/SlotManager/Returns.antt =====
-- Claims about whatever a computation returns, should it return.
use usbvfiod.Prelude.{◌≡◌, some, M, pure, ◌>>=◌, bind_some, subst}
use usbvfiod.SlotManager.{Answer, gone, done, ◌>>?◌}

-- The claim `P` holds of each answer of `m` that is no error.
abbrev pub Holds : {A : Type 0} → (A → Type 0) → Answer A → Type 0
Holds P gone = Unit {0}
Holds P (done a) = P a

pub record Returns {S A : Type 0} (m : M S (Answer A)) (P : A → Type 0) : Type 0 where
  pub at : (s t : S) (r : Answer A) → m s ≡ some (r, t) → Holds P r

pub Holds-any : {A : Type 0} (r : Answer A) → Holds (λ _. Unit {0}) r
Holds-any gone = tt
Holds-any (done a) = tt

module _ {S : Type 0} where
  pub Returns-done : {A : Type 0} (P : A → Type 0) (a : A) → P a → Returns (pure {S = S} (done a)) P
  Returns-done P a p = record { at = λ s t r e. subst (Holds P) {x = done a} {y = r} (cc e) p }

  pub Returns-bind :
      {A B : Type 0} (P : B → Type 0) (m : M S A) (f : A → M S (Answer B))
      → ((a : A) → Returns (f a) P)
      → Returns (m >>= f) P
  Returns-bind P m f h = record {
    at = λ s t r e. let (a, u, run, last) = bind_some m f s t r e in (h a).at u t r last;
  }

  pub Returns-answer :
      {A B : Type 0} (Q : A → Type 0) (P : B → Type 0) (m : M S (Answer A)) (f : A → M S (Answer B))
      → Returns m Q
      → ((a : A) → Q a → Returns (f a) P)
      → Returns (m >>? f) P
  Returns-answer {A = A} {B = B} Q P m f k h = record {
    at = λ s t r e.
        let (a, u, run, last) = bind_some m _ s t r e in answer_at a (k.at s u a run) u t r last;
  }
    where
      answer_at :
          (a : Answer A)
          → Holds Q a
          → (u t : S) (r : Answer B)
          → (elim a as (λ _. M S (Answer B)) [ gone ↦ pure gone | done b ↦ f b ]) u ≡ some (r, t)
          → Holds P r
      answer_at gone q u t r e = subst (Holds P) {x = gone} {y = r} (cc e) tt
      answer_at (done b) q u t r e = (h b q).at u t r e

  pub Returns-any : {A : Type 0} (m : M S (Answer A)) → Returns m (λ _. Unit {0})
  Returns-any m = record { at = λ s t r e. Holds-any r }

  pub Returns-map :
      {A : Type 0} (P Q : A → Type 0) (m : M S (Answer A))
      → ((a : A) → P a → Q a)
      → Returns m P
      → Returns m Q
  Returns-map {A = A} P Q m f h = record { at = λ s t r e. mapped r (h.at s t r e) }
    where
      mapped : (r : Answer A) → Holds P r → Holds Q r
      mapped gone p = tt
      mapped (done a) p = f a p
