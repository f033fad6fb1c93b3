-- ===== src/Exec.antt =====
-- A method that changes a state and may raise. What was written before a raise stays written, so
-- the state comes back beside the exception too.
pub mod Raises
use fastapi_better_auth.Base.{◌≡◌, refl}
use fastapi_better_auth.Errors.{Raised, Result, ok, raise}

abbrev pub Exec : Type 0 → Type 0 → Type 0
Exec S A = S → Result A × S

module _ {S A : Type 0} where
  abbrev pub pure : A → Exec S A
  pure a s = (ok a, s)

  abbrev pub throw : Raised → Exec S A
  throw e s = (raise e, s)

  abbrev pub lift : Result A → Exec S A
  lift r s = (r, s)

infixl 5 ◌>>=◌ ◌>>◌
abbrev pub after : {S A B : Type 0} → Result A → (A → Exec S B) → Exec S B
after (ok a) f s = f a s
after (raise e) f s = (raise e, s)

abbrev pub ◌>>=◌ : {S A B : Type 0} → Exec S A → (A → Exec S B) → Exec S B
◌>>=◌ m f s = let (r, s') = m s in after r f s'

abbrev pub ◌>>◌ : {S A B : Type 0} → Exec S A → Exec S B → Exec S B
m >> k = m >>= λ _. k

-- Inversion of a sequence that returned.
pub bind-eq-ok :
    {S A B : Type 0} (m : Exec S A) (f : A → Exec S B) (s : S) {b : B}
    → ((m >>= f) s).0 ≡ ok b
    → (a : A) × (u : S) × (m s ≡ (ok a, u)) × ((f a u).0 ≡ ok b)
bind-eq-ok {S} {A} {B} m f s {b} h = go (m s) refl h
  where
    go :
        (p : Result A × S)
        → m s ≡ p
        → (after p.0 f p.1).0 ≡ ok b
        → (a : A) × (u : S) × (m s ≡ (ok a, u)) × ((f a u).0 ≡ ok b)
    go (ok a, u) e k = (a, u, e, k)
    go (raise x, u) e k = absurd (cc)

pub lift-eq-ok :
    {S A B : Type 0} (r : Result A) (f : A → Exec S B) (s : S) {b : B}
    → ((lift r >>= f) s).0 ≡ ok b
    → (a : A) × (r ≡ ok a) × ((f a s).0 ≡ ok b)
lift-eq-ok (ok a) f s h = (a, refl, h)
lift-eq-ok (raise e) f s h = absurd (cc)

-- ... with the state that it left.
pub bind-eq-pair :
    {S A B : Type 0} (m : Exec S A) (f : A → Exec S B) (s : S) {b : B} {t : S}
    → (m >>= f) s ≡ (ok b, t)
    → (a : A) × (u : S) × (m s ≡ (ok a, u)) × (f a u ≡ (ok b, t))
bind-eq-pair {S} {A} {B} m f s {b} {t} h = go (m s) refl h
  where
    go :
        (p : Result A × S)
        → m s ≡ p
        → after p.0 f p.1 ≡ (ok b, t)
        → (a : A) × (u : S) × (m s ≡ (ok a, u)) × (f a u ≡ (ok b, t))
    go (ok a, u) e k = (a, u, e, k)
    go (raise x, u) e k = absurd (cc)

pub lift-eq-pair :
    {S A B : Type 0} (r : Result A) (f : A → Exec S B) (s : S) {b : B} {t : S}
    → (lift r >>= f) s ≡ (ok b, t)
    → (a : A) × (r ≡ ok a) × (f a s ≡ (ok b, t))
lift-eq-pair (ok a) f s h = (a, refl, h)
lift-eq-pair (raise e) f s h = absurd (cc)

-- A step whose result and state are known.
pub bind-of :
    {S A B : Type 0} (m : Exec S A) (f : A → Exec S B) (s : S) {r : Result A} {u : S}
    → m s ≡ (r, u)
    → (m >>= f) s ≡ after r f u
bind-of m f s h = rw h refl
