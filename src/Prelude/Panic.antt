-- ===== src/Prelude/Panic.antt =====
-- Code that works on a shared state `S` and may panic. `none` is a panic: a failed `assert!`, an
-- index out of bounds, an `unwrap` of nothing, or an arithmetic overflow that is checked.
use mathlib.Core.Path.{◌≡◌, refl, fun_ext}
use mathlib.Core.Bool.{Bool, true, false}
use mathlib.Core.Option.{Option, none, some}
use usbvfiod.Prelude.Tests.{if◌then◌else◌}

abbrev pub M : Type 0 → Type 0 → Type 0
M S A = S → Option (A × S)

module _ {S : Type 0} where
  abbrev pub pure : {A : Type 0} → A → M S A
  pure a s = some (a, s)

  abbrev pub panic : {A : Type 0} → M S A
  panic s = none

  infixl 5 ◌>>=◌ ◌>>◌
  abbrev pub ◌>>=◌ : {A B : Type 0} → M S A → (A → M S B) → M S B
  ◌>>=◌ m f s = elim (m s) [ none ↦ none | some (a, s') ↦ f a s' ]

  abbrev pub ◌>>◌ : {B : Type 0} → M S (Unit {0}) → M S B → M S B
  m >> k = m >>= λ _. k

  -- `assert!`
  abbrev pub assert : Bool → M S (Unit {0})
  assert true s = some (tt, s)
  assert false s = none

module _ {S : Type 0} where
  bind_assoc_at :
      {A B C : Type 0} (m : M S A) (f : A → M S B) (g : B → M S C) (s : S) (r : Option (A × S))
      → m s ≡ r
      → ((m >>= f) >>= g) s ≡ (m >>= λ a. f a >>= g) s
  bind_assoc_at m f g s none e = rw (e, ◌>>=◌)
  bind_assoc_at m f g s (some (a, t)) e = rw (e, ◌>>=◌)

  pub bind_assoc :
      {A B C : Type 0} (m : M S A) (f : A → M S B) (g : B → M S C)
      → ((m >>= f) >>= g) ≡ (m >>= λ a. f a >>= g)
  bind_assoc m f g = fun_ext (λ s. bind_assoc_at m f g s (m s) refl)

  bind_pure_at :
      {A : Type 0} (m : M S A) (s : S) (r : Option (A × S)) → m s ≡ r → (m >>= pure) s ≡ m s
  bind_pure_at m s none e = rw (e, ◌>>=◌)
  bind_pure_at m s (some p) e = rw (e, ◌>>=◌)

  pub bind_pure : {A : Type 0} (m : M S A) → (m >>= pure) ≡ m
  bind_pure m = fun_ext (λ s. bind_pure_at m s (m s) refl)

  bind_some_at :
      {A B : Type 0} (m : M S A) (f : A → M S B) (s t : S) (b : B) (r : Option (A × S))
      → m s ≡ r
      → (m >>= f) s ≡ some (b, t)
      → (a : A) × (u : S) × (m s ≡ some (a, u)) × (f a u ≡ some (b, t))
  bind_some_at m f s t b none e h = cc (rw (e, ◌>>=◌) at h)
  bind_some_at m f s t b (some (a, u)) e h = (a, u, e, rw (e, ◌>>=◌) at h)

  -- Inversion of a step that does not panic.
  pub bind_some :
      {A B : Type 0} (m : M S A) (f : A → M S B) (s t : S) (b : B)
      → (m >>= f) s ≡ some (b, t)
      → (a : A) × (u : S) × (m s ≡ some (a, u)) × (f a u ≡ some (b, t))
  bind_some m f s t b h = bind_some_at m f s t b (m s) refl h

  bind_agree_at :
      {A B : Type 0} (m : M S A) (f g : A → M S B) (s : S) (r : Option (A × S))
      → m s ≡ r
      → ((a : A) (t : S) → m s ≡ some (a, t) → f a t ≡ g a t)
      → (m >>= f) s ≡ (m >>= g) s
  bind_agree_at m f g s none e h = rw (e, ◌>>=◌)
  bind_agree_at m f g s (some (a, t)) e h = rw (e, ◌>>=◌) (h a t e)

  -- Two continuations that agree on what the first step can return.
  pub bind_agree :
      {A B : Type 0} (m : M S A) (f g : A → M S B)
      → ((s : S) (a : A) (t : S) → m s ≡ some (a, t) → f a t ≡ g a t)
      → (m >>= f) ≡ (m >>= g)
  bind_agree m f g h = fun_ext (λ s. bind_agree_at m f g s (m s) refl (h s))

-- What holds where a computation does not panic.
abbrev pub Ends : {S A : Type 0} → (A → S → Type 0) → Option (A × S) → Type 0
Ends P none = Unit
Ends P (some (a, s)) = P a s

module _ {S A B : Type 0} (P : B → S → Type 0) where
  pub bind-Ends :
      (m : M S A) (f : A → M S B) (s : S)
      → ((a : A) (t : S) → m s ≡ some (a, t) → Ends P (f a t))
      → Ends P ((m >>= f) s)
  bind-Ends m f s h = ended (m s) refl
    where
      ended : (r : Option (A × S)) → m s ≡ r → Ends P ((m >>= f) s)
      ended none e = rw (e, ◌>>=◌) tt
      ended (some (a, t)) e = rw (e, ◌>>=◌) (h a t e)

module _ {S B : Type 0} (P : B → S → Type 0) where
  pub if-Ends :
      (c : Bool) (x y : M S B) (s : S)
      → Ends P (x s)
      → Ends P (y s)
      → Ends P ((if c then x else y) s)
  if-Ends true x y s h k = h
  if-Ends false x y s h k = k
