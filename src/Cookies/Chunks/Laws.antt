-- ===== src/Cookies/Chunks/Laws.antt =====
-- cookie_parsing.py: `resolve_named_cookie` and the cookies that carry a value.
use mathlib.Core.List.{Mem, Nodup, Perm, Permᴰ}
use mathlib.Core.List
use mathlib.Core.List.Perm
use mathlib.Core.Logic.{∥∥₁_elim}
use fastapi_better_auth.Base.{
  ◌≤◌, ◌≡◌, refl, sym, ap, ◌∙◌, ◌≢◌, ◌↔◌, Option, none, some, List, [], ◌∷◌, arith, if◌then◌else◌,
  length, inl, inr, ◌⊎◌,
}
use fastapi_better_auth.Text.{Str, str_eq, to_int}
use fastapi_better_auth.Errors.{ok, bind-eq-ok}
use fastapi_better_auth.Cookies.{Pair}
use fastapi_better_auth.Cookies.Chunks.{
  Chunk, is_chunk, suffix_of, whole_values, chunks_of, sort, concat, reassembled, chosen,
  value_for_base, present, resolve_named_cookie,
}
use fastapi_better_auth.Cookies.Chunks.Sorted.{
  enumerate, values, joined, sort-perm, runs_from-enumerate, enumerate_of_runs_from,
  sort_of_perm-enumerate, concat-enumerate,
}

-- The chunks are those of one list of values, numbered from 0, in any order.
pub record IsRun (chunks : List Chunk) (value : Str) : Type 0 where
  pub parts : List Str
  pub numbered : Perm chunks (enumerate 0 parts)
  pub whole : value ≡ joined parts
  pub short : length value ≤ 8192

reassembled_sound : (cs : List Chunk) (v : Str) → reassembled cs ≡ ok v → IsRun cs v
unfolding reassembled
reassembled_sound cs v h =
    let e : sort cs ≡ enumerate 0 (values (sort cs)) =
      enumerate_of_runs_from 0 (sort cs) (ground arith) in
    let value : concat (sort cs) ≡ v = ground arith in
    record {
      parts = values (sort cs);
      numbered = rw (← e) (Perm.symm (sort-perm cs));
      whole = sym value ∙ ap concat e ∙ concat-enumerate 0 (values (sort cs));
      short = ground arith;
    }

reassembled_complete : (cs : List Chunk) (v : Str) → IsRun cs v → reassembled cs ≡ ok v
unfolding reassembled
reassembled_complete cs v r =
    rw (sort_of_perm-enumerate r.parts r.numbered, runs_from-enumerate, concat-enumerate, ← r.whole)
      (ground (arith, r.short))

-- What the pairs of a request carry under the configured name: one whole cookie and no chunk, or
-- no whole cookie and a complete run of chunks.
pub data Carries (pairs : List Pair) (base value : Str) : Type 0 where
  whole :
      whole_values pairs base ≡ value ∷ [] → chunks_of pairs base ≡ [] → Carries pairs base value
  chunked :
      whole_values pairs base ≡ []
      → chunks_of pairs base ≢ []
      → IsRun (chunks_of pairs base) value
      → Carries pairs base value

chosen_sound :
    (ws : List Str) (cs : List Chunk) (v : Str)
    → chosen ws cs ≡ ok (some v)
    → ((ws ≡ v ∷ []) × (cs ≡ [])) ⊎ ((ws ≡ []) × (cs ≢ []) × IsRun cs v)
unfolding chosen
chosen_sound [] [] v h = cc
chosen_sound (w ∷ ws) (c ∷ cs) v h = cc
chosen_sound (w ∷ []) [] v h = inl (ground arith, refl)
chosen_sound (w ∷ w' ∷ ws) [] v h = cc
chosen_sound [] (c ∷ cs) v h =
    let (w, e, same) = bind-eq-ok (reassembled (c ∷ cs)) _ h in
    inr (refl, cc, reassembled_sound (c ∷ cs) v (e ∙ cc))

chosen_run : (cs : List Chunk) (v : Str) → cs ≢ [] → IsRun cs v → chosen [] cs ≡ ok (some v)
unfolding chosen
chosen_run [] v h r = absurd (h refl)
chosen_run (c ∷ cs) v h r = rw (reassembled_complete (c ∷ cs) v r)

present-eq-ok :
    (base : Str) (o : Option Str) {n v : Str}
    → present base o ≡ ok (n, v)
    → (n ≡ base) × (o ≡ some v)
unfolding present
present-eq-ok base none h = cc
present-eq-ok base (some w) h = ground arith

resolve_sound :
    (pairs : List Pair) (base n v : Str)
    → resolve_named_cookie pairs base ≡ ok (n, v)
    → (n ≡ base) × Carries pairs base v
unfolding resolve_named_cookie value_for_base
resolve_sound pairs base n v h =
    let (o, e, kept) = bind-eq-ok (value_for_base pairs base) _ h in
    let (same, found) = present-eq-ok base o kept in
    (
      same,
      carried (chosen_sound (whole_values pairs base) (chunks_of pairs base) v (e ∙ ap ok found)),
    )
  where
    carried :
        ((whole_values pairs base ≡ v ∷ []) × (chunks_of pairs base ≡ []))
          ⊎ ((whole_values pairs base ≡ [])
              × (chunks_of pairs base ≢ [])
              × IsRun (chunks_of pairs base) v)
        → Carries pairs base v
    carried (inl (w, c)) = Carries.whole w c
    carried (inr (w, c, r)) = Carries.chunked w c r

resolve_complete :
    (pairs : List Pair) (base v : Str)
    → Carries pairs base v
    → resolve_named_cookie pairs base ≡ ok (base, v)
unfolding resolve_named_cookie value_for_base present
resolve_complete pairs base v (Carries.whole w c) = unfold chosen in rw (w, c)
resolve_complete pairs base v (Carries.chunked w c r) =
    rw (w, chosen_run (chunks_of pairs base) v c r)

-- A cookie is resolved, to the configured name and a value, exactly when the request carries either
-- one whole cookie of that name and no chunk, or no whole cookie and chunks that are a run from 0
-- in some order, of at most 8192 characters together; the value is theirs in order of index.
pub resolve_named_cookie_iff :
    (pairs : List Pair) (base n v : Str)
    → (resolve_named_cookie pairs base ≡ ok (n, v)) ↔ ((n ≡ base) × Carries pairs base v)
resolve_named_cookie_iff pairs base n v =
    (resolve_sound pairs base n v, λ p. rw p.0 (resolve_complete pairs base v p.1))

whole_of : Str → Pair → Option Str
whole_of base (name, value) = if str_eq name base then some value else none

chunk_of : Str → Pair → Option Chunk
chunk_of base (name, value) =
    if is_chunk name base then some (to_int (suffix_of base name), value) else none

whole_values-filter_map :
    (ps : List Pair) (base : Str) → whole_values ps base ≡ List.filter_map (whole_of base) ps
unfolding whole_values whole_of List.filter_map
whole_values-filter_map [] base = refl
whole_values-filter_map ((n, v) ∷ ps) base = ground (arith, whole_values-filter_map ps base)

chunks_of-filter_map :
    (ps : List Pair) (base : Str) → chunks_of ps base ≡ List.filter_map (chunk_of base) ps
unfolding chunks_of chunk_of List.filter_map
chunks_of-filter_map [] base = refl
chunks_of-filter_map ((n, v) ∷ ps) base = ground (arith, chunks_of-filter_map ps base)

module _ {ps qs : List Pair} (base : Str) (p : Perm ps qs) where
  whole_values-perm : Perm (whole_values ps base) (whole_values qs base)
  whole_values-perm =
      rw (whole_values-filter_map ps base, whole_values-filter_map qs base)
        (Perm.filter_map (whole_of base) p)

  chunks_of-perm : Perm (chunks_of ps base) (chunks_of qs base)
  chunks_of-perm =
      rw (chunks_of-filter_map ps base, chunks_of-filter_map qs base)
        (Perm.filter_map (chunk_of base) p)

singleton_permᴰ : {l m : List Str} (v : Str) → Permᴰ l m → l ≡ v ∷ [] → m ≡ v ∷ []
singleton_permᴰ v Permᴰ.nil h = cc
singleton_permᴰ v (Permᴰ.cons {l₁ = []} e p) h = ground (arith, Perm.nil-eq ∣ p ∣₁)
singleton_permᴰ v (Permᴰ.cons {l₁ = x ∷ l} e p) h = cc
singleton_permᴰ v (Permᴰ.swap e f) h = cc
singleton_permᴰ v (Permᴰ.trans p q) h = singleton_permᴰ v q (singleton_permᴰ v p h)

Strs-set : IsSet (List Str)
Strs-set = hlevel

singleton_perm : {m : List Str} (v : Str) → Perm (v ∷ []) m → m ≡ v ∷ []
singleton_perm v p = ∥∥₁_elim p (Strs-set _ _) (λ q. singleton_permᴰ v q refl)

Carries-perm :
    (ps qs : List Pair) (base v : Str) → Perm ps qs → Carries ps base v → Carries qs base v
Carries-perm ps qs base v p (Carries.whole w c) =
    Carries.whole (singleton_perm v (rw w at (whole_values-perm base p)))
      (sym (Perm.nil-eq (rw c at (chunks_of-perm base p))))
Carries-perm ps qs base v p (Carries.chunked w c r) =
    Carries.chunked (sym (Perm.nil-eq (rw w at (whole_values-perm base p))))
      (λ e. c (Perm.eq-nil (rw e at (chunks_of-perm base p))))
      (record {
        parts = r.parts;
        numbered = Perm.trans (Perm.symm (chunks_of-perm base p)) r.numbered;
        whole = r.whole;
        short = r.short;
      })

-- The order in which a request's cookies stand changes neither whether the session cookie is
-- resolved nor its value.
pub resolve_named_cookie-perm :
    (ps qs : List Pair) (base n v : Str)
    → Perm ps qs
    → (resolve_named_cookie ps base ≡ ok (n, v)) ↔ (resolve_named_cookie qs base ≡ ok (n, v))
resolve_named_cookie-perm ps qs base n v p = (moved ps qs p, moved qs ps (Perm.symm p))
  where
    moved :
        (xs ys : List Pair)
        → Perm xs ys
        → resolve_named_cookie xs base ≡ ok (n, v)
        → resolve_named_cookie ys base ≡ ok (n, v)
    moved xs ys p h =
        let (same, c) = resolve_sound xs base n v h in
        rw same (resolve_complete ys base v (Carries-perm xs ys base v p c))
