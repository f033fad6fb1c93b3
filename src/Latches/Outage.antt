-- ===== src/Latches/Outage.antt =====
-- stores/outage.py: the latch of a store outage, which reports each kind of failure once.
pub mod Laws
use fastapi_better_auth.Base.{
  ℕ, suc, Bool, true, false, ◌||◌, Option, List, [], ◌∷◌, ◌++◌, leb, if◌then◌else◌, length,
}

abbrev pub max_reported_kinds : ℕ
max_reported_kinds = 8

pub data Admission : Type 0 where
  report overflow silent : Admission

-- FailureKind is a frozen dataclass: kinds are compared by a test of their fields
pub record OutageLatch (K : Type 0) : Type 0 where
  pub reported : List K
  pub overflowed : Bool

abbrev pub new_outage : {K : Type 0} → OutageLatch K
new_outage = record { reported = []; overflowed = false }

module _ {K : Type 0} (kind_eq : K → K → Bool) where
  unfoldable pub is_reported : K → List K → Bool
  is_reported k [] = false
  is_reported k (j ∷ js) = kind_eq j k || is_reported k js

  -- OutageLatch.admit
  unfoldable pub admit : K → OutageLatch K → OutageLatch K × Admission
  unfolding is_reported
  admit k l =
      if l.overflowed || is_reported k l.reported
      then (l, silent)
      else if leb max_reported_kinds (length l.reported)
      then (record l { overflowed = true }, overflow)
      else (record l { reported = l.reported ++ k ∷ [] }, report)

-- OutageLatch.rearm
unfoldable pub rearm : {K : Type 0} → OutageLatch K → OutageLatch K
rearm l = elim l.reported [ [] ↦ l | k ∷ ks ↦ new_outage ]
