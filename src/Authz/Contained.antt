-- ===== src/Authz/Contained.antt =====
-- authz.py: the exceptions that leave a gate.
use fastapi_better_auth.Base.{
  ◌≡◌, refl, ◌⊎◌, inl, inr, Bool, true, false, Option, List, Bool-cases, Option-cases,
}
use fastapi_better_auth.Text.{Str}
use fastapi_better_auth.Errors.{
  Raised, session, refused, Refused, Status, Result, ok, raise, is_better_auth, is_session_error,
  is_exception, unwrapped,
}
use fastapi_better_auth.Errors.Refusal.{judge_refusal, dict_of}
use fastapi_better_auth.Errors.Refusal.Laws.{IsSafe, judge_refusal-IsSafe}
use fastapi_better_auth.Exec.{Exec}
use fastapi_better_auth.Exec.Raises.{Raises, raise_of, pure-Raises, throw-Raises, bind-Raises}
use fastapi_better_auth.Authz.{
  Answer, Found, Lookup, is_honoured, answered, judged, handled, exactly_true, allowed, member_of,
  permitted, require, granted, authorized, require_membership, is_user_id, not_authorized,
  unusable_id,
}

-- A refusal that the rule raised on purpose, as it is answered: 403 or 404, with headers that cannot
-- split the response or carry the authentication challenge.
pub record IsRefusal (e : Raised) : Type 0 where
  pub refusal : Refused
  pub raised : e ≡ refused refusal
  pub status : (refusal.status_code ≡ Status.int 403) ⊎ (refusal.status_code ≡ Status.int 404)
  pub headers : Option (List (Str × Str))
  pub written : refusal.headers ≡ dict_of headers
  pub safe : IsSafe headers

-- ... or an error of the library's, or no Exception at all (a cancellation).
abbrev pub IsAnswerable : Raised → Type 0
IsAnswerable e = ((is_honoured e ≡ true) ⊎ (is_exception e ≡ false)) ⊎ IsRefusal e

answered-IsAnswerable : (r : Refused) → IsAnswerable (answered r)
unfolding answered is_session_error is_better_auth
answered-IsAnswerable r = elim (Option-cases (judge_refusal r.status_code r.headers).breach) [
  | inr (b, bad) ↦ rw (answered, bad) (inl (inl refl))
  | inl fine ↦
      let (status, safe, same) = judge_refusal-IsSafe r.status_code r.headers fine in
      rw (answered, fine)
        (inr (record {
          refusal = record r { headers = dict_of (judge_refusal r.status_code r.headers).headers };
          raised = refl;
          status = status;
          headers = (judge_refusal r.status_code r.headers).headers;
          written = refl;
          safe = safe;
        }))
]

judged-IsAnswerable : (e : Raised) → IsAnswerable (judged e)
unfolding judged is_session_error is_better_auth
judged-IsAnswerable (refused r) = answered-IsAnswerable r
judged-IsAnswerable e = inl (inl refl)

handled-IsAnswerable :
    {A : Type 0} (r : Result A) (e : Raised) → handled r ≡ raise e → IsAnswerable e
unfolding handled
handled-IsAnswerable (ok a) e h = absurd (cc)
handled-IsAnswerable {A} (raise d) e h = elim (Bool-cases (is_honoured d)) [
  | inl ours ↦ inl (inl (rw (← raise_of A (rw ours at h)) ours))
  | inr other ↦ elim (Bool-cases (is_exception d)) [
    | inr exit ↦ inl (inr (rw (← raise_of A (rw (other, exit) at h)) exit))
    | inl accident ↦
        rw (← raise_of A (rw (other, accident) at h)) (judged-IsAnswerable (unwrapped d))
  ]
]

exactly_true-Raises :
    {W : Type 0} (a : Answer) → Raises {W = W} IsAnswerable (λ w. (exactly_true a, w))
unfolding exactly_true is_better_auth
exactly_true-Raises Answer.is_true = pure-Raises IsAnswerable true
exactly_true-Raises Answer.awaitable = throw-Raises IsAnswerable _ (inl (inl refl))
exactly_true-Raises Answer.other = pure-Raises IsAnswerable false

allowed-Raises :
    {W S : Type 0} (s : S) (b : Bool) → Raises {W = W} IsAnswerable (λ w. (allowed s b, w))
unfolding allowed is_session_error is_better_auth
allowed-Raises s true = pure-Raises IsAnswerable s
allowed-Raises s false = throw-Raises IsAnswerable _ (inl (inl refl))

member_of-Raises :
    {W S G : Type 0} (s : S) (resource_id : Str) (g : Found G)
    → Raises {W = W} IsAnswerable (λ w. (member_of s resource_id g, w))
unfolding member_of is_session_error is_better_auth
member_of-Raises s resource_id Found.nothing = throw-Raises IsAnswerable _ (inl (inl refl))
member_of-Raises s resource_id Found.is_false = throw-Raises IsAnswerable _ (inl (inl refl))
member_of-Raises s resource_id (Found.grant g) = pure-Raises IsAnswerable _

module _ {W Session : Type 0} where
  permitted-Raises :
      (predicate : Session → Exec W Answer) (s : Session)
      → Raises IsAnswerable (permitted predicate s)
  unfolding permitted
  permitted-Raises predicate s =
      bind-Raises IsAnswerable (λ w. (handled (predicate s w).0, (predicate s w).1)) _
        (λ w e h. handled-IsAnswerable _ e h) exactly_true-Raises

  -- What leaves `require` is an error of the library's, no Exception at all (a cancellation), or an
  -- honoured refusal that the rule raised on purpose, provided that what the dependency of
  -- current_session raises is so: nothing else that the rule raises gets through.
  pub require-IsAnswerable :
      (current : Exec W Session) (predicate : Session → Exec W Answer)
      → Raises IsAnswerable current
      → (w : W) (e : Raised) → (require current predicate w).0 ≡ raise e
      → IsAnswerable e
  unfolding require
  require-IsAnswerable current predicate h = bind-Raises IsAnswerable current _ h (λ s.
      bind-Raises IsAnswerable (permitted predicate s) _ (permitted-Raises predicate s)
        (allowed-Raises s))

  module _ {Grant : Type 0} (member : Str → Session → Exec W (Lookup W Grant))
      (resource_id : Str) where
    authorized-Raises : (s : Session) → Raises IsAnswerable (authorized member resource_id s)
    unfolding authorized granted is_session_error is_better_auth
    authorized-Raises s = elim (Bool-cases (is_user_id resource_id)) [
      | inr unusable ↦
          rw (authorized, unusable)
            (throw-Raises IsAnswerable (session not_authorized unusable_id) (inl (inl refl)))
      | inl usable ↦
          rw (authorized, usable)
            (bind-Raises IsAnswerable (granted member resource_id s) _
              (λ w e h. handled-IsAnswerable _ e h) (λ g. member_of-Raises s resource_id g))
    ]

    -- What leaves `require_membership` is an error of the library's, no Exception at all, or an
    -- honoured refusal that the lookup raised on purpose, provided that what the dependency of
    -- current_session raises is so.
    pub require_membership-IsAnswerable :
        (current : Exec W Session)
        → Raises IsAnswerable current
        → (w : W) (e : Raised) → (require_membership current member resource_id w).0 ≡ raise e
        → IsAnswerable e
    unfolding require_membership
    require_membership-IsAnswerable current h =
        bind-Raises IsAnswerable current _ h authorized-Raises
