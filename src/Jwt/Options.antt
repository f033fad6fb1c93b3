-- ===== src/Jwt/Options.antt =====
-- jwt_verifier.py: what the constructor accepts as algorithms, as clock skew and as a token's lifetime.
pub mod Laws
use fastapi_better_auth.Base.{
  ℤ, leb_ℤ, ℕ, ◌*◌, ◌+◌, Bool, true, false, not, ◌&&◌, ◌||◌, Option, none, some, List, [], ◌∷◌,
  ◌++◌, if◌then◌else◌, pos, negsuc,
}
use fastapi_better_auth.Text.{Str, lit}
use fastapi_better_auth.Errors.{
  Raised, configuration, Result, ok, raise, refuse_if, ◌>>=◌, ◌>>◌, bad_algorithms, no_algorithms,
  unsupported_algorithm, bad_leeway, bad_lifetime,
}
use fastapi_better_auth.Cookies.{member}
use fastapi_better_auth.Jwks.Parse.{loader_of}

-- what is passed as `algorithms`: a sequence, whose entries are none where they are no str, or a bare
-- str, bytes or anything else
pub data Algorithms : Type 0 where
  sequence : List (Option Str) → Algorithms
  foreign : Algorithms

-- what is passed as a number of seconds: a finite int or float, an infinity or a NaN, or anything else
pub data Amount : Type 0 where
  finite : ℤ → Amount
  endless foreign : Amount

-- SUPPORTED_ALGORITHMS, the keys of LOADERS
unfoldable pub is_supported : Str → Bool
is_supported algorithm = elim (loader_of algorithm) [ none ↦ false | some loader ↦ true ]

-- `if entry not in checked: checked.append(entry)`
unfoldable pub listed_once : Str → List Str → List Str
listed_once entry checked = if member entry checked then checked else checked ++ (entry ∷ [])

-- the loop of _validated_algorithms
unfoldable pub checked_from : List Str → List (Option Str) → Result (List Str)
unfolding is_supported listed_once
checked_from checked [] = ok checked
checked_from checked (none ∷ entries) = raise (configuration unsupported_algorithm)
checked_from checked (some entry ∷ entries) =
    refuse_if (not (is_supported entry)) (configuration unsupported_algorithm)
    >> checked_from (listed_once entry checked) entries

-- _validated_algorithms
unfoldable pub validated_algorithms : Algorithms → Result (List Str)
validated_algorithms Algorithms.foreign = raise (configuration bad_algorithms)
validated_algorithms (sequence []) = raise (configuration no_algorithms)
validated_algorithms (sequence (e ∷ es)) = checked_from [] (e ∷ es)

abbrev pub max_leeway : ℕ
max_leeway = 60

abbrev pub default_lifetime : ℕ
default_lifetime = 900

abbrev pub max_lifetime : ℕ
max_lifetime = 86400

-- `second` is a second, in the unit of the amounts
module _ (second : ℕ) where
  -- _validated_leeway
  unfoldable pub validated_leeway : Amount → Result ℕ
  validated_leeway (finite (negsuc n)) = raise (configuration bad_leeway)
  validated_leeway (finite (pos n)) =
      refuse_if (not (leb_ℤ (pos n) (pos (max_leeway * second)))) (configuration bad_leeway) >> ok n
  validated_leeway amount = raise (configuration bad_leeway)

  -- a max_token_lifetime that is not None
  unfoldable pub chosen_lifetime : Amount → Result ℕ
  chosen_lifetime (finite (pos n)) =
      refuse_if (leb_ℤ (pos n) (pos 0) || not (leb_ℤ (pos n) (pos (max_lifetime * second))))
        (configuration bad_lifetime)
      >> ok n
  chosen_lifetime amount = raise (configuration bad_lifetime)

  -- _validated_lifetime
  unfoldable pub validated_lifetime : Option Amount → ℕ → Result ℕ
  unfolding chosen_lifetime
  validated_lifetime none leeway = ok (default_lifetime * second + leeway)
  validated_lifetime (some amount) leeway = chosen_lifetime amount

  -- What the constructor takes, and what it keeps of it.
  pub record Arguments : Type 0 where
    pub algorithms : Algorithms
    pub leeway : Amount
    pub max_token_lifetime : Option Amount

  pub record Kept : Type 0 where
    pub algorithms : List Str
    pub leeway : ℕ
    pub max_token_lifetime : ℕ

  -- JwtVerifier.__init__, after base_url
  unfoldable pub validated : Arguments → Result Kept
  validated a = do
    algorithms ← validated_algorithms a.algorithms
    leeway ← validated_leeway a.leeway
    lifetime ← validated_lifetime a.max_token_lifetime leeway
    ok (record { algorithms = algorithms; leeway = leeway; max_token_lifetime = lifetime })
