-- ===== src/Cookies/Chunks/RoundTrip.antt =====
-- cookie_parsing.py: `resolve_named_cookie` on a value split into numbered chunks.
use mathlib.Core.List.{Perm}
use mathlib.Core.List.Perm
use fastapi_better_auth.Base.{
  ℕ, zero, suc, ◌+◌, ◌≤◌, ◌<◌, ◌≡◌, refl, sym, ap, ◌∙◌, ◌≢◌, Bool, true, false, ◌&&◌, List, [], ◌∷◌,
  ◌++◌, arith, ◌==◌, ==_iff, length, drop, append_assoc, drop-append, length-append,
}
use fastapi_better_auth.Text.{Str, str_eq, starts_with, is_ascii, is_digits, to_int, decimal}
use fastapi_better_auth.Text.Laws.{starts_with-append, str_eq_iff}
use fastapi_better_auth.Errors.{ok}
use fastapi_better_auth.Cookies.{Pair, chunk_name}
use fastapi_better_auth.Cookies.Chunks.{
  is_chunk, suffix_of, whole_values, chunks_of, resolve_named_cookie,
}
use fastapi_better_auth.Cookies.Chunks.Sorted.{enumerate, joined}
use fastapi_better_auth.Cookies.Chunks.Laws.{
  Carries, resolve_named_cookie_iff, resolve_named_cookie-perm,
}

-- the cookies that carry `parts` under the names of their chunks, from number `i` on
abbrev pub chunk_cookies : Str → ℕ → List Str → List Pair
chunk_cookies base i [] = []
chunk_cookies base i (v ∷ vs) = (chunk_name base i, v) ∷ chunk_cookies base (suc i) vs

reads_back : ℕ → Bool
reads_back i = is_ascii (decimal i) && (is_digits (decimal i) && to_int (decimal i) == i)

-- every number before `bound` reads back
each_reads_back : ℕ → Bool
each_reads_back zero = true
each_reads_back (suc bound) = each_reads_back bound && reads_back bound

reads_back_before : (i bound : ℕ) → i < bound → each_reads_back bound ≡ true → reads_back i ≡ true
unfolding each_reads_back
reads_back_before i zero before table = absurd (omega arith)
reads_back_before i (suc bound) before table = ground (arith, reads_back_before i bound)

decimal_table : each_reads_back 100 ≡ true
unfolding each_reads_back reads_back decimal is_ascii is_digits to_int
decimal_table = refl

decimal_reads_back :
    (i : ℕ)
    → i < 100
    → (is_ascii (decimal i) ≡ true) × (is_digits (decimal i) ≡ true) × (to_int (decimal i) ≡ i)
unfolding reads_back
decimal_reads_back i h =
    let e = reads_back_before i 100 h decimal_table in
    ground (arith, e, ==_iff (to_int (decimal i)) i)

drop_name : (s : Str) (c : ℕ) (t : Str) → drop (length s + 1) (s ++ (c ∷ t)) ≡ t
drop_name s c t =
    rw (← length-append s (c ∷ []))
      (rw (← append_assoc s (c ∷ []) t) (drop-append (s ++ (c ∷ [])) t))

suffix_of-chunk_name : (base : Str) (i : ℕ) → suffix_of base (chunk_name base i) ≡ decimal i
unfolding chunk_name
suffix_of-chunk_name base i = drop_name base b'.' (decimal i)

starts_chunk_name :
    (base : Str) (i : ℕ) → starts_with (base ++ (b'.' ∷ [])) (chunk_name base i) ≡ true
unfolding chunk_name
starts_chunk_name base i =
    rw (← append_assoc base (b'.' ∷ []) (decimal i))
      (starts_with-append (base ++ (b'.' ∷ [])) (decimal i))

longer-ne : (s : Str) (c : ℕ) (t : Str) → s ++ (c ∷ t) ≢ s
longer-ne s c t e = omega (arith, ap length e, length-append s (c ∷ t))

module _ (base : Str) (i : ℕ) (h : i < 100) where
  is_chunk-chunk_name : is_chunk (chunk_name base i) base ≡ true
  unfolding is_chunk
  is_chunk-chunk_name =
      let (ascii, digits, value) = decimal_reads_back i h in
      rw (starts_chunk_name base i, suffix_of-chunk_name base i, ascii, digits, value)
        (ground arith)

  chunk_name-ne_base : str_eq (chunk_name base i) base ≡ false
  unfolding chunk_name
  chunk_name-ne_base =
      ground (arith, str_eq_iff (base ++ (b'.' ∷ decimal i)) base, longer-ne base b'.' (decimal i))

chunks_of-chunk_cookies :
    (base : Str) (i : ℕ) (vs : List Str)
    → i + length vs ≤ 100
    → chunks_of (chunk_cookies base i vs) base ≡ enumerate i vs
unfolding chunks_of
chunks_of-chunk_cookies base i [] h = refl
chunks_of-chunk_cookies base i (v ∷ vs) h =
    rw
      (
        is_chunk-chunk_name base i (omega arith),
        suffix_of-chunk_name base i,
        (decimal_reads_back i (omega arith)).2,
      )
      (ap (◌∷◌ (i, v)) (chunks_of-chunk_cookies base (suc i) vs (omega arith)))

whole_values-chunk_cookies :
    (base : Str) (i : ℕ) (vs : List Str)
    → i + length vs ≤ 100
    → whole_values (chunk_cookies base i vs) base ≡ []
unfolding whole_values
whole_values-chunk_cookies base i [] h = refl
whole_values-chunk_cookies base i (v ∷ vs) h =
    rw (chunk_name-ne_base base i (omega arith))
      (whole_values-chunk_cookies base (suc i) vs (omega arith))

-- A value of at most 8192 characters that was split into between 1 and 100 chunks, sent as cookies
-- "base.0", "base.1" and so on in any order, is resolved to the configured name and that value.
pub resolve_named_cookie-chunk_cookies :
    (pairs : List Pair) (base v : Str) (vs : List Str)
    → length (v ∷ vs) ≤ 100
    → length (joined (v ∷ vs)) ≤ 8192
    → Perm pairs (chunk_cookies base 0 (v ∷ vs))
    → resolve_named_cookie pairs base ≡ ok (base, joined (v ∷ vs))
resolve_named_cookie-chunk_cookies pairs base v vs h short p =
    let parts : List Str = v ∷ vs in
    let sent : List Pair = chunk_cookies base 0 parts in
    let chunks : chunks_of sent base ≡ enumerate 0 parts =
      chunks_of-chunk_cookies base 0 parts (omega arith) in
    (resolve_named_cookie-perm pairs sent base base (joined parts) p).1 (
      (resolve_named_cookie_iff sent base base (joined parts)).1 (
        refl,
        Carries.chunked (whole_values-chunk_cookies base 0 parts (omega arith))
            (λ e. cc (sym chunks ∙ e))
            (record {
              parts = parts;
              numbered = rw chunks (Perm.refl _);
              whole = refl;
              short = short;
            }),
      ))
