-- ===== src/Errors/Declare.antt =====
-- errors.py: the checks that SessionError runs when a subclass is declared.
pub mod Laws
use fastapi_better_auth.Base.{
  ℕ, Bool, true, false, not, ◌&&◌, ◌||◌, Option, none, some, List, [], ◌∷◌, ◌==◌, if◌then◌else◌,
  any,
}
use fastapi_better_auth.Text.{Str, lit, str_eq}
use fastapi_better_auth.Errors.{
  Result, raise, type_error, Response, challenge, ◌>>◌, refuse_if, shadowed_attribute,
  unsanctioned_status, unsanctioned_detail, unsanctioned_headers,
}

-- The attributes that a class body sets, and the three constants that it has or inherits.
pub record ClassBody : Type 0 where
  pub attributes : List Str
  pub response_status : ℕ
  pub response_detail : Str
  pub response_headers : Option (List (Str × Str))

abbrev is_shadowed : Str → Bool
is_shadowed name =
    str_eq name (lit "status_code") || str_eq name (lit "detail") || str_eq name (lit "headers")

-- SANCTIONED_RESPONSES
unfoldable pub sanctioned : ℕ → Option Response
sanctioned status =
    if status == 400
    then some (record { status = 400; detail = lit "Ambiguous request"; headers = none })
    else if status == 401
    then some (record { status = 401; detail = lit "Not authenticated"; headers = challenge })
    else if status == 403
    then some (record { status = 403; detail = lit "Forbidden"; headers = none })
    else none

pairs_eq : List (Str × Str) → List (Str × Str) → Bool
pairs_eq [] [] = true
pairs_eq ((m, v) ∷ ps) ((n, w) ∷ qs) = str_eq m n && (str_eq v w && pairs_eq ps qs)
pairs_eq _ _ = false

headers_eq : Option (List (Str × Str)) → Option (List (Str × Str)) → Bool
unfolding pairs_eq
headers_eq none none = true
headers_eq (some ps) (some qs) = pairs_eq ps qs
headers_eq _ _ = false

checked_constants : ClassBody → Option Response → Result (Unit {0})
unfolding headers_eq
checked_constants c none = raise (type_error unsanctioned_status)
checked_constants c (some r) = do
  refuse_if (not (str_eq c.response_detail r.detail)) (type_error unsanctioned_detail)
  refuse_if (not (headers_eq c.response_headers r.headers)) (type_error unsanctioned_headers)

-- SessionError.__init_subclass__
unfoldable pub declare_subclass : ClassBody → Result (Unit {0})
unfolding checked_constants sanctioned
declare_subclass c = do
  refuse_if (any is_shadowed c.attributes) (type_error shadowed_attribute)
  checked_constants c (sanctioned c.response_status)

-- what an instance of the declared class answers
unfoldable pub answers : ClassBody → Response
answers c = record {
  status = c.response_status;
  detail = c.response_detail;
  headers = c.response_headers;
}
