-- ===== src/CookieVerifier/Extract.antt =====
-- cookie_verifier.py: `extract` on the Cookie header of a browser.
use fastapi_better_auth.Base.{
  ℕ, ◌≤◌, ◌≡◌, refl, true, false, some, List, [], ◌∷◌, ◌++◌, arith, ltb, All, length,
}
use fastapi_better_auth.Text.{Str, lit, join, starts_with, is_blank}
use fastapi_better_auth.Text.Laws.{str_eq_refl}
use fastapi_better_auth.Errors.{ok}
use fastapi_better_auth.Cookies.{Pair, cookie_pairs, acceptable_names, member}
use fastapi_better_auth.Cookies.RoundTrip.{IsClean, header_of, cookie_pairs-header_of}
use fastapi_better_auth.Cookies.Chunks.{
  resolve_named_cookie, resolve_cookie_value, is_chunk, whole_values, chunks_of, chosen,
  value_for_base,
}
use fastapi_better_auth.Csrf.{Connection, get_list, from_connection}
use fastapi_better_auth.Latches.{Once}
use fastapi_better_auth.CookieVerifier.{
  Config, matched, joined_cookie_header, credential_of, extract,
}

not-starts_with_longer : (s : Str) (c : ℕ) → starts_with (s ++ (c ∷ [])) s ≡ false
unfolding starts_with
not-starts_with_longer [] c = refl
not-starts_with_longer (a ∷ s) c = ground (arith, not-starts_with_longer s c)

-- another cookie: its name is none that this verifier accepts
abbrev pub IsOther : List Str → Pair → Type 0
IsOther acceptable p = member p.0 acceptable ≡ false

matched_others :
    (acceptable : List Str) (ps : List Pair)
    → All (IsOther acceptable) ps
    → matched acceptable ps ≡ []
unfolding matched
matched_others acceptable [] h = refl
matched_others acceptable (p ∷ ps) (o, h) = rw (o, matched_others acceptable ps h)

matched_among :
    (acceptable : List Str) (p : Pair) (xs ys : List Pair)
    → member p.0 acceptable ≡ true
    → is_blank p.1 ≡ false
    → All (IsOther acceptable) xs
    → All (IsOther acceptable) ys
    → matched acceptable (xs ++ (p ∷ ys)) ≡ p ∷ []
unfolding matched
matched_among acceptable p [] ys m b hx hy = rw (m, b, matched_others acceptable ys hy)
matched_among acceptable p (x ∷ xs) ys m b (o, hx) hy =
    rw (o, matched_among acceptable p xs ys m b hx hy)

member_base : (base : Str) → member base (acceptable_names base) ≡ true
unfolding member acceptable_names
member_base base = rw (str_eq_refl base)

resolve_alone : (base value : Str) → resolve_cookie_value ((base, value) ∷ []) base ≡ ok value
unfolding resolve_cookie_value resolve_named_cookie value_for_base whole_values chunks_of is_chunk
    chosen
resolve_alone base value = rw (str_eq_refl base, not-starts_with_longer base b'.')

extract_found :
    (config : Config) (connection : Connection) (once : Once) (ps : List Pair) (p : Pair)
    → ltb 16384 (length (joined_cookie_header connection)) ≡ false
    → cookie_pairs (joined_cookie_header connection) ≡ ps
    → ltb 512 (length ps) ≡ false
    → matched config.acceptable ps ≡ p ∷ []
    → (extract config connection once).0
      ≡ some (record { pairs = p ∷ []; facts = from_connection connection config.policy })
unfolding extract credential_of
extract_found config connection once ps p short pairs few found = rw (short, pairs, few, found)

joined_alone :
    (connection : Connection) (h : Str)
    → get_list (lit "cookie") connection.headers ≡ h ∷ []
    → joined_cookie_header connection ≡ h
unfolding joined_cookie_header join
joined_alone connection h e = rw e

ltb-false : (m n : ℕ) → n ≤ m → ltb m n ≡ false
ltb-false m n h = ground arith

module _ (config : Config) (connection : Connection) (once : Once) (base value : Str)
    (xs ys : List Pair) where
  abbrev pub sent : List Pair
  sent = xs ++ ((base, value) ∷ ys)

  -- A browser's Cookie header, within the library's bounds, that carries the session cookie once
  -- among other cookies yields a credential of exactly that cookie, from which its value is resolved.
  pub extract_among :
      All IsClean sent
      → get_list (lit "cookie") connection.headers ≡ header_of sent ∷ []
      → length (header_of sent) ≤ 16384
      → length sent ≤ 512
      → config.acceptable ≡ acceptable_names base
      → is_blank value ≡ false
      → All (IsOther config.acceptable) xs
      → All (IsOther config.acceptable) ys
      → ((extract config connection once).0
          ≡ some (record {
            pairs = (base, value) ∷ [];
            facts = from_connection connection config.policy;
          }))
        × (resolve_cookie_value ((base, value) ∷ []) base ≡ ok value)
  extract_among clean header short few names filled hx hy =
      let joined = joined_alone connection (header_of sent) header in
      let found : matched config.acceptable sent ≡ (base, value) ∷ [] =
        matched_among config.acceptable (base, value) xs ys (rw names (member_base base)) filled hx
          hy in
      (
        extract_found config connection once sent (base, value)
            (rw joined (ltb-false 16384 (length (header_of sent)) short))
            (rw joined (cookie_pairs-header_of sent clean)) (ltb-false 512 (length sent) few) found,
        resolve_alone base value,
      )
