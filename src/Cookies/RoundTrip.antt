-- ===== src/Cookies/RoundTrip.antt =====
-- cookie_parsing.py: `cookie_pairs` on headers as browsers write them.
use fastapi_better_auth.Base.{◌≡◌, refl, ap, ◌∙◌, true, false, List, [], ◌∷◌, ◌++◌, map, arith, All}
use fastapi_better_auth.Text.{
  Str, lit, contains, is_space, join, split_on, strip, partition, cons_head,
}
use fastapi_better_auth.Text.Laws.{
  starts_solid, ends_solid, strip_solid, strip-space, starts_solid-append, ends_solid-append,
  split_on-append, split_on_free, partition-append, contains-append,
}
use fastapi_better_auth.Cookies.{Pair, cookie_pairs, pairs_of, add_pair}

-- name=value
abbrev pub render : Pair → Str
render (name, value) = name ++ (b'=' ∷ value)

-- A pair that a Cookie header can carry: neither part holds a ";" or has whitespace at an end, and
-- the name holds no "=".
pub record IsClean (p : Pair) : Type 0 where
  pub name_free : contains b';' p.0 ≡ false
  pub name_no_equals : contains b'=' p.0 ≡ false
  pub name_starts : starts_solid p.0 ≡ true
  pub name_ends : ends_solid p.0 ≡ true
  pub value_free : contains b';' p.1 ≡ false
  pub value_starts : starts_solid p.1 ≡ true
  pub value_ends : ends_solid p.1 ≡ true

render_free : (p : Pair) → IsClean p → contains b';' (render p) ≡ false
unfolding contains
render_free (n, v) c = rw (contains-append b';' n (b'=' ∷ v)) (ground arith)

strip-render : (p : Pair) → IsClean p → strip (render p) ≡ render p
strip-render (n, v) c =
    strip_solid (n ++ (b'=' ∷ v))
      (starts_solid-append b'=' n v c.name_starts (unfold is_space in refl))
      (ends_solid-append b'=' n v c.value_ends (unfold is_space in refl))

pairs_of-render :
    (p : Pair) (f : Str) (rest : List Str)
    → IsClean p
    → strip f ≡ render p
    → pairs_of (f ∷ rest) ≡ p ∷ pairs_of rest
unfolding pairs_of add_pair
pairs_of-render (n, v) f rest c e =
    rw (e, partition-append b'=' n v c.name_no_equals)
      (rw (strip_solid n c.name_starts c.name_ends, strip_solid v c.value_starts c.value_ends))

-- what follows the first pair, each behind a space
spaced : List Pair → List Str
spaced [] = []
spaced (p ∷ ps) = (32 ∷ render p) ∷ spaced ps

pairs_of-spaced : (ps : List Pair) → All IsClean ps → pairs_of (spaced ps) ≡ ps
unfolding spaced
pairs_of-spaced [] h = unfold pairs_of in refl
pairs_of-spaced (p ∷ ps) (c, h) =
    pairs_of-render p (32 ∷ render p) (spaced ps) c
      (strip-space 32 (render p) (unfold is_space in refl) ∙ strip-render p c)
    ∙ ap (◌∷◌ p) (pairs_of-spaced ps h)

abbrev pub header_of : List Pair → Str
header_of ps = join (lit "; ") (map render ps)

split_on-space :
    (s : Str) (w : Str) (ws : List Str)
    → split_on b';' s ≡ w ∷ ws
    → split_on b';' (32 ∷ s) ≡ (32 ∷ w) ∷ ws
unfolding split_on cons_head
split_on-space s w ws e = rw (e, cons_head)

split_on-header :
    (p : Pair) (ps : List Pair)
    → IsClean p
    → All IsClean ps
    → split_on b';' (header_of (p ∷ ps)) ≡ render p ∷ spaced ps
unfolding spaced join
split_on-header p [] c h = split_on_free b';' (render p) (render_free p c)
split_on-header p (q ∷ qs) c (d, h) =
    split_on-append b';' (render p) (32 ∷ header_of (q ∷ qs)) (render_free p c)
    ∙ ap (◌∷◌ (render p))
        (split_on-space (header_of (q ∷ qs)) (render q) (spaced qs) (split_on-header q qs d h))

-- A header written as browsers write it, "name=value" joined by "; ", is read back as exactly its
-- pairs, in order and with duplicates kept.
pub cookie_pairs-header_of : (ps : List Pair) → All IsClean ps → cookie_pairs (header_of ps) ≡ ps
unfolding cookie_pairs
cookie_pairs-header_of [] h = unfold pairs_of add_pair split_on join partition strip in refl
cookie_pairs-header_of (p ∷ ps) (c, h) =
    ap pairs_of (split_on-header p ps c h)
    ∙ pairs_of-render p (render p) (spaced ps) c (strip-render p c)
    ∙ ap (◌∷◌ p) (pairs_of-spaced ps h)
