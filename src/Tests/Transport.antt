-- ===== src/Tests/Transport.antt =====
-- A response of two chunks, and one that does not end within the cap.
use fastapi_better_auth.Transport.Laws.{fetch_iff}
use fastapi_better_auth.Transport.Body.{read_from-length, delivered}
use fastapi_better_auth.Base.{
  ◌∷◌, ℕ, length, [], suc, ◌≡◌, ◌≤◌, ◌+◌, true, refl, arith, false, none, some, pos,
}
use fastapi_better_auth.Text.{lit, lower, str_eq}
use fastapi_better_auth.Errors.{ok}
use fastapi_better_auth.Transport.{
  StreamedResponse, TransportResponse, Client, lowered, read_from, updated, chunk, put, ended, find,
  fetch,
}

abbrev streamed : StreamedResponse
streamed = record {
  status_code = 200;
  headers = (lit "Content-Type", lit "application/json") ∷ [];
  raw = chunk (1 ∷ 2 ∷ []) (chunk (3 ∷ []) ended);
}

abbrev client : Client ℕ
client = record {
  stream = λ request calls. (ok streamed, suc calls);
  aclose = λ calls. (ok tt, suc calls);
}

abbrev delivered_response : TransportResponse
delivered_response = record {
  status_code = 200;
  headers = (lit "content-type", lit "application/json") ∷ [];
  content = 1 ∷ 2 ∷ 3 ∷ [];
}

fetch_iff_example :
    (fetch client
      (λ e. false)
      (lit "GET")
      (lit "https://a.example/jwks")
      none
      []
      (some (pos 3))
      0).0
    ≡ ok delivered_response
unfolding lowered updated put lower find str_eq delivered
fetch_iff_example =
    (fetch_iff client (λ e. false) (lit "GET") (lit "https://a.example/jwks") none [] (some (pos 3))
        0 delivered_response).1
      (record {
        limit = 3;
        given = refl;
        positive = omega arith;
        streamed = streamed;
        answered = refl;
        read = record { plain = refl; arrived = refl; short = omega arith };
        status = refl;
        names = refl;
      })

overlong : read_from 1 [] streamed.raw ≡ ok (1 ∷ 2 ∷ [], true)
unfolding read_from
overlong = refl

read_from-length_example : length {A = ℕ} (1 ∷ 2 ∷ []) ≤ 1 + 1
read_from-length_example =
    read_from-length 1 [] streamed.raw (1 ∷ 2 ∷ []) true (omega arith) overlong
