-- ===== src/Tests/Verifier.antt =====
-- A request to the remote verifier, with a server that has one session, and one under a rate limit.
use fastapi_better_auth.Base.{
  ℕ, ◌≡◌, refl, true, false, Option, none, some, [], ◌∷◌, ◌++◌, inr, suc,
}
use fastapi_better_auth.Text.{
  Bytes, lit, str_eq, starts_with, contains, rpartition, split_on, strip, lower, is_space, is_blank,
  is_encodable, is_ascii,
}
use fastapi_better_auth.Codec.{unquote, b64decode, b64encode}
use fastapi_better_auth.Cookies.Signed.{parse_signed_value}
use fastapi_better_auth.Signing.{expected, verify_signature}
use fastapi_better_auth.Latches.{latched, observe}
use fastapi_better_auth.Cookies.Chunks.{
  resolve_named_cookie, value_for_base, whole_values, chunks_of, is_chunk, chosen,
}
use fastapi_better_auth.Remote.Rungs.{rung_one, rung_two, token_of, translated, proved, embedded}
use fastapi_better_auth.Remote.Response.{
  is_cacheable_null, session_document_from, media_type, is_json, header,
}
use fastapi_better_auth.Remote.Document.{
  parse_session_document, parsed_pair, session_with, parse_stored_user, user_with, ban_of,
  expiry_of, as_text, as_flag, as_moment, is_absent, with_offset,
}
use fastapi_better_auth.Errors.{Raised, Result, ok, raise}
use fastapi_better_auth.Cookies.{acceptable_names}
use fastapi_better_auth.Csrf.{Connection, csrf_disabled, from_connection, enforce_policy}
use fastapi_better_auth.NegativeCache.{new, holds, get}
use fastapi_better_auth.CookieVerifier.{
  CookieCredential, snapshot, session_of, check_expiry, check_ban, parse_user,
}
use fastapi_better_auth.Remote.Verifier.{
  Config, Network, State, Times, verify, remembered_dead, backing_off, ready, may_probe,
  attempt_probe, fetched, observed, document,
}
use fastapi_better_auth.Remote.Verifier.Laws.{IsRemoteSession, verify-IsRemoteSession}
use fastapi_better_auth.Remote.Verifier.Gated.{verify-unasked}
use fastapi_better_auth.Tests.Remote.{response, fromisoformat, read_int, stored}
use fastapi_better_auth.Tests.Parsing.{toy_hmac, toy_signature}

abbrev pub config : Config
config = record {
  secrets = [];
  base = lit "s";
  acceptable = acceptable_names (lit "s");
  policy = csrf_disabled;
}

abbrev connection : Connection
connection = record {
  method = some (lit "GET");
  websocket = false;
  headers = (lit "cookie", lit "s=t1.sig") ∷ [];
}

abbrev pub credential : CookieCredential
credential = record {
  pairs = (lit "s", lit "t1.sig") ∷ [];
  facts = from_connection connection csrf_disabled;
}

-- the state of the network counts its calls
abbrev pub network : Network ℕ ℕ
network = record {
  get = λ cookie n. (ok response, suc n);
  run_probe = λ n. (ok tt, suc n);
  acquire = λ n. (ok true, n);
  release = λ n. n;
}

abbrev pub state_until : Option ℕ → State ℕ
state_until blocked = record {
  network = 0;
  cache = new 30 4;
  backoff = record { blocked_until = blocked };
  probed_ok = false;
  contract_failure = none;
  probe_attempted_at = none;
}

abbrev pub times : Times
times = record {
  held = 1;
  blocked = 2;
  probing = 3;
  attempted = 3;
  observed = 5;
  remembered = 5;
  expiry = 2029;
  ban = 2029;
}

abbrev pub validate : ℕ → ℕ → Result (Option ℕ)
validate model payload = ok (some payload)

abbrev pub same_bytes : Bytes → Bytes
same_bytes s = s

-- a keyring, and a cookie that is signed under the second of its secrets
abbrev keyed : Config
keyed = record config { secrets = lit "old" ∷ lit "new" ∷ [] }

abbrev signed : CookieCredential
signed = record credential { pairs = (lit "s", lit "t1." ++ toy_signature) ∷ [] }

returns :
    (verify network validate toy_hmac same_bytes fromisoformat read_int
      (λ n. true)
      keyed
      (snapshot signed)
      1
      times
      (state_until none)).0
    ≡ ok (session_of stored (lit "t1") 2)
unfolding verify resolve_named_cookie value_for_base whole_values chunks_of is_chunk chosen str_eq
    starts_with rung_one token_of unquote contains rpartition enforce_policy rung_two
    remembered_dead holds get backing_off latched ready may_probe attempt_probe fetched translated
    observed observe document is_cacheable_null session_document_from media_type is_json header
    split_on strip lower is_space is_blank is_encodable parse_session_document parsed_pair
    session_with parse_stored_user user_with ban_of expiry_of as_text as_flag as_moment is_absent
    with_offset proved embedded check_expiry check_ban parse_user session_of parse_signed_value
    verify_signature b64decode b64encode expected is_ascii
returns = refl

verify-IsRemoteSession_example :
    IsRemoteSession network validate toy_hmac same_bytes fromisoformat read_int
      (λ n. true)
      keyed
      signed
      1
      times
      (state_until none)
      (session_of stored (lit "t1") 2)
verify-IsRemoteSession_example =
    verify-IsRemoteSession network validate toy_hmac same_bytes fromisoformat read_int (λ n. true)
      keyed signed 1 times (state_until none) (session_of stored (lit "t1") 2) returns

verify-unasked_example :
    ((e : Raised) × ((verify network validate toy_hmac same_bytes fromisoformat read_int
          (λ n. true)
          config
          (snapshot credential)
          1
          times
          (state_until (some 9))).0
        ≡ raise e))
    × ((verify network validate toy_hmac same_bytes fromisoformat read_int
          (λ n. true)
          config
          (snapshot credential)
          1
          times
          (state_until (some 9))).1.network
        ≡ 0)
unfolding resolve_named_cookie str_eq starts_with latched
verify-unasked_example =
    verify-unasked network validate toy_hmac same_bytes fromisoformat read_int (λ n. true) config
      credential 1 times (state_until (some 9)) (lit "s", lit "t1.sig") refl (inr refl)
