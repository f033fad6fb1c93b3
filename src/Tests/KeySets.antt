-- ===== src/Tests/KeySets.antt =====
-- A key set with one RSA key, and two calls of the client that fetches it.
use fastapi_better_auth.Base.{ℕ, ◌≡◌, refl, Bool, false, Option, some, List, [], ◌∷◌, arith}
use fastapi_better_auth.Text.{Str, lit}
use fastapi_better_auth.Errors.{Raised, ok, raise, other}
use fastapi_better_auth.Jwks.Parse.{
  Published, Entry, Keys, Document, Declared, Response, Jwk, Library,
}
use fastapi_better_auth.Jwks.{
  Config, Client, new_client, Times, fresh_hit, is_fresh, may_fetch, key_for,
}
use fastapi_better_auth.Jwks.Window.{key_for-window, Calls}
use fastapi_better_auth.Jwks.Reach.{IsSound, IsRight, new_client-IsSound, key_for-IsSound}

abbrev pub published : Published
published = record {
  kid = some (lit "k");
  alg = some (lit "RS256");
  used_for = Declared.fitting;
  key_ops = Declared.absent;
  number = 7;
}

abbrev pub response : Response
response = record {
  status_code = 200;
  content_type = lit "application/json; charset=utf-8";
  content = Document.object (Keys.list (Entry.object published ∷ []));
}

abbrev pub library : Library ℕ
library = record { from_jwk = λ l p. some p.number; rsa_bits = λ k. 2048 }

abbrev pub keys : List (Str × Jwk ℕ)
keys = (lit "k", record { kid = lit "k"; algorithm = lit "RS256"; key = 7 }) ∷ []

abbrev pub config : Config
config = record {
  algorithms = lit "RS256" ∷ [];
  cache_ttl = 300;
  negative_ttl = 60;
  refetch_interval = 10;
  max_keys = 32;
}

abbrev pub at : ℕ → Times
at n = record {
  outside = n;
  inside = n;
  window = n;
  started = n;
  fetched = n;
  recalled = n;
  answered = n;
  noted = n;
}

abbrev never : Raised → Bool
never e = false

abbrev after_fetch : Client ℕ
after_fetch = (key_for config library never (at 0) (lit "k") (ok response) new_client).1

-- after a miss of an unknown kid
abbrev after_miss : Client ℕ
after_miss = (key_for config library never (at 4) (lit "x") (ok response) after_fetch).1

key_for-window_example :
    key_for config library never (at 9) (lit "y") (ok response) after_miss
    ≡ key_for config library never (at 9) (lit "y") (raise (other 3)) after_miss
unfolding fresh_hit is_fresh may_fetch
key_for-window_example =
    key_for-window config library never (at 0) (at 9) (lit "k") (lit "y") (ok response)
      (ok response) (raise (other 3)) new_client after_miss (λ e h. refl) refl refl refl
      (Calls.then_key_for (at 4) (lit "x") (ok response) (omega arith) Calls.none_yet) (omega arith)

key_for-IsSound_example :
    IsSound config library never
      (key_for config library never (at 0) (lit "k") (ok response) new_client).1
    × ((a : Option (Jwk ℕ))
        → (key_for config library never (at 0) (lit "k") (ok response) new_client).0 ≡ ok a
        → IsRight config library never
            (lit "k")
            (key_for config library never (at 0) (lit "k") (ok response) new_client).1
            a)
key_for-IsSound_example =
    key_for-IsSound config library never (at 0) (lit "k") (ok response) new_client
      (new_client-IsSound config library never)
