-- ===== src/Tests/Gates.antt =====
-- Rules that allow a request, and rules that raise.
use fastapi_better_auth.Base.{ℕ, ◌≡◌, refl, inl, arith, suc}
use fastapi_better_auth.Text.{Str, lit, is_space}
use fastapi_better_auth.Errors.{
  session, ok, raise, other, is_better_auth, is_session_error, is_exception, unwrapped,
  not_authorized, escaped_rule,
}
use fastapi_better_auth.Exec.{Exec}
use fastapi_better_auth.Exec.Raises.{Raises, pure-Raises}
use fastapi_better_auth.Authz.{
  Answer, Found, Lookup, require, require_membership, permitted, handled, judged, awaited,
}
use fastapi_better_auth.Authz.Laws.{IsUserId, require_iff, require_membership_iff}
use fastapi_better_auth.Authz.Contained.{IsAnswerable, require-IsAnswerable}

-- the session is the number 7, and the state counts the rules that ran
abbrev current : Exec ℕ ℕ
current w = (ok 7, w)

abbrev allow : ℕ → Exec ℕ Answer
allow s w = (ok Answer.is_true, suc w)

abbrev fail : ℕ → Exec ℕ Answer
fail s w = (raise (other 3), w)

abbrev member : Str → ℕ → Exec ℕ (Lookup ℕ ℕ)
member id s w = (ok (Lookup.awaitable (λ u. (ok (Found.grant 5), u))), suc w)

require_iff_example : require current allow 0 ≡ (ok 7, 1)
require_iff_example = (require_iff current allow 7 0 1).1 (0, refl, refl)

org : IsUserId (lit "org")
unfolding is_space
org = record {
  short = omega arith;
  visible = inl refl;
  printable = (
    (omega arith, (λ e. absurd (omega (arith, e)))),
    (
      (omega arith, (λ e. absurd (omega (arith, e)))),
      ((omega arith, (λ e. absurd (omega (arith, e)))), tt),
    ),
  );
}

require_membership_iff_example :
    require_membership current member (lit "org") 0
    ≡ (ok (record { session = 7; resource_id = lit "org"; grant = 5 }), 1)
unfolding awaited
require_membership_iff_example =
    (require_membership_iff current member (lit "org")
        (record { session = 7; resource_id = lit "org"; grant = 5 }) 0 1).1
      (org, refl, 0, refl, refl)

current_answers : Raises IsAnswerable current
current_answers = pure-Raises IsAnswerable 7

refused_by_failure : (require current fail 0).0 ≡ raise (session not_authorized escaped_rule)
unfolding require permitted handled judged is_better_auth is_session_error is_exception unwrapped
refused_by_failure = refl

require-IsAnswerable_example : IsAnswerable (session not_authorized escaped_rule)
require-IsAnswerable_example =
    require-IsAnswerable current fail current_answers 0 (session not_authorized escaped_rule)
      refused_by_failure
