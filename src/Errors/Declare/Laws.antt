-- ===== src/Errors/Declare/Laws.antt =====
-- errors.py: the subclasses of SessionError and their answers.
use fastapi_better_auth.Base.{ℕ, ◌≡◌, refl, true, Option, none, some, List, [], ◌∷◌, ap, arith}
use fastapi_better_auth.Text.{Str}
use fastapi_better_auth.Text.Laws.{str_eq_iff}
use fastapi_better_auth.Errors.{ok, SessionKind, Response, response}
use fastapi_better_auth.Errors.Declare.{
  ClassBody, sanctioned, pairs_eq, headers_eq, checked_constants, declare_subclass, answers,
}

eq_of_pairs_eq : (ps qs : List (Str × Str)) → pairs_eq ps qs ≡ true → ps ≡ qs
unfolding pairs_eq
eq_of_pairs_eq [] [] h = refl
eq_of_pairs_eq [] (q ∷ qs) h = cc
eq_of_pairs_eq (p ∷ ps) [] h = cc
eq_of_pairs_eq ((m, v) ∷ ps) ((n, w) ∷ qs) h =
    ground (arith, eq_of_pairs_eq ps qs, str_eq_iff m n, str_eq_iff v w)

eq_of_headers_eq : (a b : Option (List (Str × Str))) → headers_eq a b ≡ true → a ≡ b
unfolding headers_eq
eq_of_headers_eq none none h = refl
eq_of_headers_eq none (some q) h = cc
eq_of_headers_eq (some p) none h = cc
eq_of_headers_eq (some p) (some q) h = ap some (eq_of_pairs_eq p q h)

checked_constants_sound :
    (c : ClassBody) (r : Option Response)
    → checked_constants c r ≡ ok tt
    → (s : Response) × (r ≡ some s)
      × (c.response_detail ≡ s.detail)
      × (c.response_headers ≡ s.headers)
unfolding checked_constants
checked_constants_sound c none h = cc
checked_constants_sound c (some r) h = (
  r,
  refl,
  ground (arith, str_eq_iff c.response_detail r.detail),
  ground (arith, eq_of_headers_eq c.response_headers r.headers),
)

sanctioned-status : (n : ℕ) (r : Response) → sanctioned n ≡ some r → r.status ≡ n
unfolding sanctioned
sanctioned-status n r h = ground arith

-- A subclass of SessionError whose declaration is accepted answers exactly the sanctioned response
-- of its status: two accepted subclasses with one status cannot be told apart by a client.
pub declare_subclass-sanctioned :
    (c : ClassBody) → declare_subclass c ≡ ok tt → sanctioned c.response_status ≡ some (answers c)
unfolding declare_subclass answers
declare_subclass-sanctioned c h =
    let (s, e, d, k) = checked_constants_sound c (sanctioned c.response_status) (ground arith) in
    ground (arith, sanctioned-status c.response_status s)

-- Every SessionError of the library answers the sanctioned response of its status.
pub response-sanctioned : (k : SessionKind) → sanctioned (response k).status ≡ some (response k)
unfolding sanctioned response
response-sanctioned SessionKind.invalid_credential = refl
response-sanctioned _ = refl
