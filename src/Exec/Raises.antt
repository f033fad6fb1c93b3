-- ===== src/Exec/Raises.antt =====
-- Which exceptions may leave a method that changes a state.
use fastapi_better_auth.Base.{◌≡◌, refl, ap}
use fastapi_better_auth.Errors.{Raised, Result, ok, raise}
use fastapi_better_auth.Exec.{Exec, after, ◌>>=◌}

-- every exception of the method has the property
abbrev pub Raises : {W A : Type 0} → (Raised → Type 0) → Exec W A → Type 0
Raises P m = (w : _) (e : Raised) → (m w).0 ≡ raise e → P e

-- a failure, with the type that should have been returned
abbrev pub failed : (A : Type 0) → Raised → Result A
failed A e = raise e

raised_of : Raised → {A : Type 0} → Result A → Raised
raised_of e (ok a) = e
raised_of e (raise d) = d

pub raise_of : (A : Type 0) {d e : Raised} → failed A d ≡ raise e → d ≡ e
unfolding raised_of
raise_of A {d} {e} h = ap (raised_of d) h

module _ (P : Raised → Type 0) where
  pub pure-Raises : {W A : Type 0} (a : A) → Raises {W = W} P (λ w. (ok a, w))
  pure-Raises a w e h = absurd (cc)

  pub throw-Raises :
      {W A : Type 0} (d : Raised) → P d → Raises {W = W} {A = A} P (λ w. (raise d, w))
  throw-Raises {A = A} d p w e h = rw (← raise_of A h) p

  pub bind-Raises :
      {W A B : Type 0} (m : Exec W A) (f : A → Exec W B)
      → Raises P m
      → ((a : A) → Raises P (f a))
      → Raises P (m >>= f)
  bind-Raises {W = W} {A = A} {B} m f hm hf w e h = go (m w) refl h
    where
      go : (p : Result A × W) → m w ≡ p → (after p.0 f p.1).0 ≡ raise e → P e
      go (ok a, u) eq k = hf a u e k
      go (raise d, u) eq k = hm w e (rw eq (ap raise (raise_of B k)))
