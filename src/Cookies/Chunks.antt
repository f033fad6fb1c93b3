-- ===== src/Cookies/Chunks.antt =====
-- cookie_parsing.py: `resolve_named_cookie`, `resolve_cookie_value` and what they call.
pub mod Sorted
pub mod Laws
pub mod RoundTrip
use fastapi_better_auth.Base.{
  ℕ, zero, suc, ◌+◌, ◌-◌, ◌<◌, Bool, true, false, not, ◌&&◌, ◌||◌, Option, none, some, List, [],
  ◌∷◌, ◌++◌, map, ltb, leb, ◌==◌, if◌then◌else◌, length, drop,
}
use fastapi_better_auth.Text.{Str, lit, str_eq, starts_with, is_ascii, is_digits, to_int}
use fastapi_better_auth.Errors.{
  Raised, session, SessionKind, Reason, Result, ok, raise, ◌>>=◌, ◌>>◌, refuse_if,
}
use fastapi_better_auth.Errors.{invalid_credential}
use fastapi_better_auth.Errors.{
  no_material, whole_and_chunked, duplicated_name, chunks_not_contiguous, reassembled_too_long,
}
use fastapi_better_auth.Cookies.{Pair, max_chunks, max_cookie_bytes}

abbrev pub invalid : Reason → Raised
invalid = session invalid_credential

abbrev pub Chunk : Type 0
Chunk = ℕ × Str

abbrev suffix_of : Str → Str → Str
suffix_of base name = drop (length base + 1) name

-- _is_chunk, of a suffix that int() takes: one of thousands of digits raises there, and `extract` lets no such name
-- through
unfoldable pub is_chunk : Str → Str → Bool
is_chunk name base =
    starts_with (base ++ (b'.' ∷ [])) name
    && (is_ascii (suffix_of base name)
        && (is_digits (suffix_of base name) && ltb (to_int (suffix_of base name)) max_chunks))

unfoldable pub whole_values : List Pair → Str → List Str
whole_values [] base = []
whole_values ((name, value) ∷ pairs) base =
    let rest = whole_values pairs base in if str_eq name base then value ∷ rest else rest

unfoldable pub chunks_of : List Pair → Str → List Chunk
unfolding is_chunk
chunks_of [] base = []
chunks_of ((name, value) ∷ pairs) base =
    let rest = chunks_of pairs base in
    if is_chunk name base then (to_int (suffix_of base name), value) ∷ rest else rest

-- sorted(chunks, key=lambda item: item[0]), which is stable
unfoldable pub insert : Chunk → List Chunk → List Chunk
insert c [] = c ∷ []
insert c (d ∷ ds) = let rest = insert c ds in if leb c.0 d.0 then c ∷ d ∷ ds else d ∷ rest

unfoldable pub sort : List Chunk → List Chunk
unfolding insert
sort [] = []
sort (c ∷ cs) = insert c (sort cs)

-- `indices == list(range(i, i + len(indices)))`
unfoldable pub runs_from : ℕ → List Chunk → Bool
runs_from i [] = true
runs_from i (c ∷ cs) = (c.0 == i) && runs_from (suc i) cs

unfoldable pub concat : List Chunk → Str
concat [] = []
concat (c ∷ cs) = c.1 ++ concat cs

-- _reassembled
unfoldable pub reassembled : List Chunk → Result Str
reassembled chunks =
    let ordered = sort chunks in
    if not (runs_from 0 ordered)
    then raise (invalid chunks_not_contiguous)
    else if ltb max_cookie_bytes (length (concat ordered))
    then raise (invalid reassembled_too_long)
    else ok (concat ordered)

-- the branches of _value_for_base
unfoldable pub chosen : List Str → List Chunk → Result (Option Str)
unfolding reassembled
chosen [] [] = ok none
chosen (v ∷ vs) (c ∷ cs) = raise (invalid whole_and_chunked)
chosen (v ∷ []) [] = ok (some v)
chosen (v ∷ w ∷ vs) [] = raise (invalid duplicated_name)
chosen [] (c ∷ cs) = do value ← reassembled (c ∷ cs); ok (some value)

unfoldable pub value_for_base : List Pair → Str → Result (Option Str)
unfolding chosen whole_values chunks_of
value_for_base pairs base = chosen (whole_values pairs base) (chunks_of pairs base)

present : Str → Option Str → Result Pair
present base none = raise (invalid no_material)
present base (some value) = ok (base, value)

-- resolve_named_cookie
unfoldable pub resolve_named_cookie : List Pair → Str → Result Pair
unfolding value_for_base present
resolve_named_cookie pairs base = do found ← value_for_base pairs base; present base found

-- resolve_cookie_value
unfoldable pub resolve_cookie_value : List Pair → Str → Result Str
unfolding resolve_named_cookie
resolve_cookie_value pairs base = do (name, value) ← resolve_named_cookie pairs base; ok value
