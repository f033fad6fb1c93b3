-- ===== src/Tests/Redis.antt =====
-- A client of Redis with one session, which the caller passed in.
use fastapi_better_auth.Redis.Laws.{fetch_session_by_token-IsAnswer, IsAnswer, Holds, Answers}
use fastapi_better_auth.Redis.{
  Store, fetch_session_by_token, Arguments, new_store, Client, validated_prefix, validated_cap,
  Value,
}
use fastapi_better_auth.Tests.Remote.{document, fromisoformat, stored, reads}
use fastapi_better_auth.Base.{ℕ, ◌≡◌, true, none, some, [], suc, false, pos, refl, arith, ap}
use fastapi_better_auth.Text.{lit, is_blank, is_space, is_encodable, str_eq}
use fastapi_better_auth.Errors.{ok}
use fastapi_better_auth.Remote.Response.{Body}

abbrev arguments : Arguments
arguments = record {
  url = none;
  has_client = true;
  key_prefix = some [];
  max_bytes = some (pos 65536);
}

abbrev store : Store
store = record { prefix = []; max_bytes = 65536; is_built = false }

built : new_store (λ url. true) arguments ≡ ok store
unfolding new_store validated_prefix validated_cap
built = refl

-- the state of the client counts its calls
abbrev client : Client ℕ ℕ
client = record {
  get = λ key calls. (ok (Value.stored (some 200) (Body.object document)), suc calls);
  aclose = λ calls. (ok tt, suc calls);
}

-- the value names `t1`, and a lookup of another token misses
fetch_session_by_token-IsAnswer_example :
    (fetch_session_by_token client fromisoformat store (lit "t2") 0).0 ≡ ok none
unfolding is_blank is_space is_encodable str_eq
fetch_session_by_token-IsAnswer_example =
    (fetch_session_by_token-IsAnswer fromisoformat client store (lit "t2") 0 none).1 (
      IsAnswer.reached (Value.stored (some 200) (Body.object document)) (some document) none refl
        refl (Holds.object 200 document (omega arith))
        (Answers.of_another document stored refl reads
          (λ e. absurd (cc (ap (λ s. str_eq s (lit "t2")) e)))))
