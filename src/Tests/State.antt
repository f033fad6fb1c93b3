-- ===== src/Tests/State.antt =====
-- Inputs of the caches, the latches and the error classes.
use fastapi_better_auth.Base.{◌≡◌, refl, true, false, some, List, [], ◌∷◌, ◌==◌, ==_iff, Any}
use fastapi_better_auth.Text.{Bytes, lit, str_eq, utf8, contains, lower, strip, is_space}
use fastapi_better_auth.Errors.{Field, Headers, Status, ok, SessionKind, response}
use fastapi_better_auth.Errors.Declare.{sanctioned}
use fastapi_better_auth.Errors.Declare.Laws.{response-sanctioned}
use fastapi_better_auth.Errors.Refusal.{text_pairs, judge_refusal, authorization_refused}
use fastapi_better_auth.Latches.Laws.{firsts, fire_all, fire_all-eq-firsts}
use fastapi_better_auth.NegativeCache.{NegativeCache, new, holds, remember, evict, get, assign}
use fastapi_better_auth.NegativeCache.History.{Reach, Covers, note, holds-covered}

fire_all-eq-firsts_example :
    fire_all (λ a b. a == b) ==_iff (1 ∷ 2 ∷ 1 ∷ []) [] ≡ true ∷ true ∷ false ∷ []
unfolding firsts
fire_all-eq-firsts_example = fire_all-eq-firsts (λ a b. a == b) ==_iff (1 ∷ 2 ∷ 1 ∷ [])

abbrev toy_sha256 : Bytes → Bytes
toy_sha256 s = s

abbrev cache : NegativeCache
cache = new 30 2

abbrev filled : NegativeCache
filled = record { ttl = 30; max = 2; entries = (lit "x", 7) ∷ [] }

remembered : remember toy_sha256 7 (lit "x") cache ≡ some filled
unfolding remember utf8 evict assign
remembered = refl

holds-remember_hit : (holds toy_sha256 36 (lit "x") filled).1 ≡ true
unfolding holds get str_eq utf8
holds-remember_hit = refl

holds-covered_example : Any (Covers toy_sha256 30 2 36 (lit "x")) (note 7 (lit "x") ∷ [])
holds-covered_example =
    holds-covered toy_sha256 30 2 (note 7 (lit "x") ∷ []) filled 36 (lit "x")
      (Reach.noted 7 (lit "x") Reach.start remembered) holds-remember_hit

response-sanctioned_example : sanctioned 401 ≡ some (response SessionKind.session_expired)
unfolding response
response-sanctioned_example = response-sanctioned SessionKind.session_expired

abbrev retry_after : List (Field × Field)
retry_after = (Field.text (lit "Retry-After"), Field.text (lit "5")) ∷ []

built :
    authorization_refused (Status.int_subclass 404) (Headers.mapping retry_after)
    ≡ ok (record { status_code = Status.int 404; headers = Headers.dict retry_after })
unfolding authorization_refused judge_refusal contains lower strip str_eq text_pairs is_space
built = refl
