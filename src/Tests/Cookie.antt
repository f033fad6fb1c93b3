-- ===== src/Tests/Cookie.antt =====
-- A request to the cookie verifier, with a store that holds one session and then one that fails.
use fastapi_better_auth.Base.{
  ℕ, ◌≡◌, ◌++◌, refl, inl, inr, true, false, Option, none, some, List, [], ◌∷◌, arith, All, length,
  ◌≤◌, ap,
}
use fastapi_better_auth.Text.{
  Str, Bytes, lit, contains, is_space, is_blank, is_encodable, str_eq, starts_with, join, lower,
}
use fastapi_better_auth.Text.Laws.{starts_solid, ends_solid}
use fastapi_better_auth.Codec.{b64encode}
use fastapi_better_auth.Errors.{Raised, Result, ok, raise, other}
use fastapi_better_auth.Cookies.{Pair, acceptable_names, chunk_name, member}
use fastapi_better_auth.Cookies.Chunks.{
  resolve_cookie_value, resolve_named_cookie, value_for_base, whole_values, chunks_of, is_chunk,
  chosen,
}
use fastapi_better_auth.Cookies.RoundTrip.{IsClean, header_of}
use fastapi_better_auth.Csrf.{Connection, csrf_disabled, from_connection, get_list}
use fastapi_better_auth.Latches.{new_once}
use fastapi_better_auth.Latches.Outage.{new_outage}
use fastapi_better_auth.Signing.{expected}
use fastapi_better_auth.CookieVerifier.{
  StoredUser, StoredSession, CookieCredential, snapshot, Config, State, SessionStore, Failures,
  verify, extract, session_of,
}
use fastapi_better_auth.CookieVerifier.Sound.{IsAuthentic}
use fastapi_better_auth.CookieVerifier.Complete.{verify_iff}
use fastapi_better_auth.CookieVerifier.Forged.{IsGenuine, verify_forged}
use fastapi_better_auth.CookieVerifier.Extract.{extract_among}
use fastapi_better_auth.Tests.Parsing.{toy_hmac, material, cookie, cookie-IsSigned}

abbrev pub config : Config
config = record {
  secrets = lit "secret" ∷ [];
  base = lit "s";
  acceptable = acceptable_names (lit "s");
  data_name = lit "d";
  policy = csrf_disabled;
}

abbrev connection : Connection
connection = record {
  method = some (lit "GET");
  websocket = false;
  headers = (lit "cookie", lit "a=1; s=v; b=2") ∷ [];
}

abbrev pub credential_of : Str → CookieCredential
credential_of value = record {
  pairs = (lit "s", value) ∷ [];
  facts = from_connection connection csrf_disabled;
}

abbrev failures : Failures ℕ
failures = record { kind_of = λ e. 0; same = λ a b. true }

abbrev user : StoredUser ℕ
user = record { id = lit "u"; payload = 7; banned = some true; ban_expires = some 5 }

abbrev stored : StoredSession ℕ
stored = record {
  token = lit "tok.en";
  user_id = lit "u";
  expires_at = 20;
  payload = 9;
  user = none;
  impersonated_by = none;
}

-- the state of the store counts the lookups
abbrev store : SessionStore ℕ ℕ
store = record {
  fetch_session_by_token = λ t s. (ok (some stored), s);
  fetch_user_by_id = λ i s. (ok (some user), s);
}

abbrev broken : SessionStore ℕ ℕ
broken = record {
  fetch_session_by_token = λ t s. (raise (other 3), s);
  fetch_user_by_id = λ i s. (raise (other 4), s);
}

abbrev state : State ℕ ℕ
state = record {
  store = 0;
  session_data_once = new_once;
  session_outage = new_outage;
  user_outage = new_outage;
}

abbrev validate : ℕ → ℕ → Result (Option ℕ)
validate model payload = ok (some payload)

authentic :
    IsAuthentic store toy_hmac validate config
      (credential_of material)
      1
      10
      10
      0
      (session_of stored (lit "tok.en") 7)
unfolding resolve_cookie_value resolve_named_cookie value_for_base whole_values chunks_of is_chunk
    chosen str_eq starts_with expected b64encode is_encodable
authentic = record {
  material = material;
  cookie = cookie;
  resolves = refl;
  signed = cookie-IsSigned;
  allowed = refl;
  encodable = refl;
  matches = inl refl;
  live = record {
    stored = stored;
    found = refl;
    alive = omega arith;
    user = user;
    user_found = inr (refl, refl);
    may_sign_in = inr (5, refl, omega arith);
    parsed = 7;
    valid = refl;
    same = refl;
  };
}

verify_iff_example :
    (verify failures store toy_hmac validate config
      (snapshot (credential_of material))
      1
      10
      10
      state).0
    ≡ ok (session_of stored (lit "tok.en") 7)
verify_iff_example =
    (verify_iff failures store toy_hmac validate config (credential_of material) 1 10 10 state
        (session_of stored (lit "tok.en") 7)).1
      authentic

-- a second toy hash, which no cookie signed with the first matches
abbrev other_hmac : Bytes → Bytes → Bytes
other_hmac k m = 0 ∷ []

four : (s : Str) → length s ≡ 44 → length s ≡ 4 → ⊥
four s h k = omega arith

cookie-not-IsGenuine : ¬ IsGenuine other_hmac config (credential_of material)
unfolding expected b64encode
cookie-not-IsGenuine g = elim g.matches [
  | inl e ↦ absurd (four g.cookie.signature g.signed.signature_size (ap length e))
  | inr b ↦ b
]

verify_forged_example :
    (e : Raised) × (verify failures store other_hmac validate config
        (snapshot (credential_of material))
        1
        10
        10
        state
      ≡ (raise e, state))
verify_forged_example =
    verify_forged failures store other_hmac validate config (credential_of material) 1 10 10 state
      cookie-not-IsGenuine

abbrev before : List Pair
before = (lit "a", lit "1") ∷ []

abbrev following : List Pair
following = (lit "b", lit "2") ∷ []

clean : All IsClean (before ++ ((lit "s", lit "v") ∷ following))
unfolding contains starts_solid ends_solid is_space
clean = (
  record {
    name_free = refl;
    name_no_equals = refl;
    name_starts = refl;
    name_ends = refl;
    value_free = refl;
    value_starts = refl;
    value_ends = refl;
  },
  (
    record {
      name_free = refl;
      name_no_equals = refl;
      name_starts = refl;
      name_ends = refl;
      value_free = refl;
      value_starts = refl;
      value_ends = refl;
    },
    (
      record {
        name_free = refl;
        name_no_equals = refl;
        name_starts = refl;
        name_ends = refl;
        value_free = refl;
        value_starts = refl;
        value_ends = refl;
      },
      tt,
    ),
  ),
)

carried :
    get_list (lit "cookie") connection.headers
    ≡ header_of (before ++ ((lit "s", lit "v") ∷ following)) ∷ []
unfolding get_list str_eq join lower
carried = refl

sizes :
    (length (header_of (before ++ ((lit "s", lit "v") ∷ following))) ≤ 16384)
    × (is_blank (lit "v") ≡ false)
unfolding join is_blank is_space
sizes = (omega arith, refl)

others :
    (member (lit "a") (acceptable_names (lit "s")) ≡ false)
    × (member (lit "b") (acceptable_names (lit "s")) ≡ false)
unfolding member acceptable_names str_eq chunk_name
others = (refl, refl)

extract_among_example :
    ((extract config connection new_once).0 ≡ some (credential_of (lit "v")))
    × (resolve_cookie_value ((lit "s", lit "v") ∷ []) (lit "s") ≡ ok (lit "v"))
extract_among_example =
    extract_among config connection new_once (lit "s") (lit "v") before following clean carried
      sizes.0 (omega arith) refl sizes.1 (others.0, tt) (others.1, tt)
