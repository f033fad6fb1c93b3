-- ===== src/Latches/Outage/Laws.antt =====
-- stores/outage.py: what the latch admits over an outage.
use fastapi_better_auth.Base.{
  ℕ, suc, ◌+◌, ◌≤◌, ◌≡◌, Bool, true, false, List, [], ◌∷◌, ◌++◌, arith, length, length-append,
}
use fastapi_better_auth.Latches.Outage.{
  OutageLatch, new_outage, Admission, report, overflow, silent, admit, is_reported,
}

abbrev pub reports : List Admission → ℕ
reports [] = 0
reports (report ∷ more) = suc (reports more)
reports (overflow ∷ more) = reports more
reports (silent ∷ more) = reports more

abbrev pub overflows : List Admission → ℕ
overflows [] = 0
overflows (overflow ∷ more) = suc (overflows more)
overflows (report ∷ more) = overflows more
overflows (silent ∷ more) = overflows more

module _ {K : Type 0} (kind_eq : K → K → Bool) where
  -- the admissions of a sequence of failures between two successes
  unfoldable pub admissions : List K → OutageLatch K → List Admission
  admissions [] l = []
  admissions (k ∷ ks) l = let (l', a) = admit kind_eq k l in a ∷ admissions ks l'

  abbrev quiet : Bool → ℕ
  quiet true = 0
  quiet false = 1

  admissions_from :
      (ks : List K) (l : OutageLatch K)
      → length l.reported ≤ 8
      → (reports (admissions ks l) + length l.reported ≤ 8)
        × (overflows (admissions ks l) ≤ quiet l.overflowed)
  unfolding admissions admit
  admissions_from [] l h = omega arith
  admissions_from (k ∷ ks) l h =
      ground (arith, admissions_from ks (admit kind_eq k l).0, length-append l.reported (k ∷ []))

  -- However many failures of however many kinds an outage brings, it is logged at most eight times
  -- by kind and at most once as an overflow.
  pub admissions_bounds :
      (ks : List K)
      → (reports (admissions ks new_outage) ≤ 8) × (overflows (admissions ks new_outage) ≤ 1)
  admissions_bounds ks =
      let (r, o) = admissions_from ks new_outage (omega arith) in (omega arith, o)

  is_reported-append :
      (k : K) (js : List K) → kind_eq k k ≡ true → is_reported kind_eq k (js ++ k ∷ []) ≡ true
  unfolding is_reported
  is_reported-append k [] h = rw h
  is_reported-append k (j ∷ js) h = ground (arith, is_reported-append k js h)

  -- A kind that was admitted is silent until a success re-arms the latch.
  pub admit_again :
      (k : K) (l : OutageLatch K)
      → kind_eq k k ≡ true
      → (admit kind_eq k (admit kind_eq k l).0).1 ≡ silent
  unfolding admit
  admit_again k l h = ground (arith, is_reported-append k l.reported h)
