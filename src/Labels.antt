-- ===== src/Labels.antt =====
-- labels.py: the labels by which two verifiers that read one credential are told apart.
pub mod Laws
use fastapi_better_auth.Base.{
  ℕ, zero, suc, Option, none, some, List, [], ◌∷◌, ◌++◌, drop, length, if◌then◌else◌, not,
}
use fastapi_better_auth.Text.{Str, lit, strip, casefold, starts_with}

abbrev pub cookie_prefix : Str
cookie_prefix = lit "cookie:"

abbrev pub browser_cookie_prefixes : List Str
browser_cookie_prefixes = lit "__secure-" ∷ lit "__host-" ∷ []

unfoldable pub cookie_source : Str → Str
cookie_source cookie = cookie_prefix ++ cookie

-- `name or None`
or_none : Str → Option Str
or_none [] = none
or_none (c ∷ s) = some (c ∷ s)

unfoldable pub cookie_named : Str → Option Str
unfolding or_none
cookie_named source =
    let stripped = strip source in
    if not (starts_with cookie_prefix (casefold stripped))
    then none
    else or_none (strip (drop (length cookie_prefix) stripped))

unfoldable pub first_prefix : List Str → Str → Option Str
first_prefix [] folded = none
first_prefix (p ∷ ps) folded =
    let rest = first_prefix ps folded in if starts_with p folded then some p else rest

-- The loop of _base: every turn drops a prefix, so the length of the text is fuel enough.
base_from : ℕ → Str → Str
unfolding first_prefix
base_from zero folded = folded
base_from (suc fuel) folded = elim (first_prefix browser_cookie_prefixes folded) [
  | none ↦ folded
  | some prefix ↦ base_from fuel (drop (length prefix) folded)
]

-- _base
unfoldable pub base_of : Str → Str
unfolding base_from
base_of folded = base_from (length folded) folded

unfoldable pub collision_key : Str → Str
collision_key source = elim (cookie_named source) [
  | none ↦ casefold (strip source)
  | some cookie ↦ cookie_source (base_of (casefold cookie))
]
