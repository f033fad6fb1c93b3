-- ===== src/Jwks/Window.antt =====
-- jwks.py: the window between two attempts to fetch.
use fastapi_better_auth.Base.{
  ◌+◌, ◌<◌, ◌≡◌, refl, sym, ap, ◌∙◌, Bool, true, false, none, some, arith, Option-cases, inl, inr,
  ℕ, Bool-cases, leb,
}
use fastapi_better_auth.Text.{Str}
use fastapi_better_auth.Errors.{Raised, Result, ok, raise, Result-cases}
use fastapi_better_auth.Exec.{after}
use fastapi_better_auth.Jwks.Parse.{Response, Library, fetched}
use fastapi_better_auth.Jwks.{
  Config, Client, Times, fresh_hit, may_fetch, answer, remember, failed, refresh, locked, key_for,
  recalled, is_remembered, get,
}

module _ (config : Config) {Key : Type 0} (library : Library Key) (cancelled : Raised → Bool) where
  locked_closed :
      (t : Times) (kid : Str) (r r' : Result Response) (c : Client Key)
      → may_fetch config t.window c ≡ false
      → locked config library cancelled t kid r c ≡ locked config library cancelled t kid r' c
  unfolding locked
  locked_closed t kid r r' c h = elim (Option-cases (fresh_hit config t.inside kid c)) [
    | inl missed ↦ rw (locked, missed, h) refl
    | inr (jwk, hit) ↦ rw (locked, hit) refl
  ]

  key_for_closed :
      (t : Times) (kid : Str) (r r' : Result Response) (c : Client Key)
      → may_fetch config t.window c ≡ false
      → key_for config library cancelled t kid r c ≡ key_for config library cancelled t kid r' c
  unfolding key_for
  key_for_closed t kid r r' c h = elim (Option-cases (fresh_hit config t.outside kid c)) [
    | inl missed ↦ rw (key_for, missed) (locked_closed t kid r r' c h)
    | inr (jwk, hit) ↦ rw (key_for, hit) refl
  ]

  attempted-answer :
      (t : Times) (kid : Str) (c : Client Key)
      → (answer config t kid c).1.attempted_at ≡ c.attempted_at
  unfolding answer remember
  attempted-answer t kid c = ground arith

  attempted-refresh :
      (t : Times) (r : Result Response) (c : Client Key)
      → ((e : Raised)
          → fetched library config.algorithms config.max_keys r ≡ raise e
          → cancelled e ≡ false)
      → (refresh config library cancelled t r c).1.attempted_at ≡ some t.started
  unfolding refresh failed
  attempted-refresh t r c h =
      elim (Result-cases (fetched library config.algorithms config.max_keys r)) [
        | inl (keys, fine) ↦ rw (refresh, fine) refl
        | inr (e, bad) ↦ stays e (h e bad) bad
      ]
    where
      stays :
          (e : Raised)
          → cancelled e ≡ false
          → fetched library config.algorithms config.max_keys r ≡ raise e
          → (refresh config library cancelled t r c).1.attempted_at ≡ some t.started
      stays e kept bad = rw (refresh, bad) (ground (arith, kept))

  attempted-locked :
      (t : Times) (kid : Str) (r : Result Response) (c : Client Key)
      → ((e : Raised)
          → fetched library config.algorithms config.max_keys r ≡ raise e
          → cancelled e ≡ false)
      → fresh_hit config t.inside kid c ≡ none
      → may_fetch config t.window c ≡ true
      → (locked config library cancelled t kid r c).1.attempted_at ≡ some t.started
  unfolding locked
  attempted-locked t kid r c h missed opened =
      rw (locked, missed, opened) (ended (refresh config library cancelled t r c) refl)
    where
      ended :
          (p : Result (Unit {0}) × Client Key)
          → refresh config library cancelled t r c ≡ p
          → (after p.0 (λ _. answer config t kid) p.1).1.attempted_at ≡ some t.started
      ended (ok u, s) e =
          attempted-answer t kid s
          ∙ (ap (λ q. q.1.attempted_at) (sym e) ∙ attempted-refresh t r c h)
      ended (raise x, s) e = ap (λ q. q.1.attempted_at) (sym e) ∙ attempted-refresh t r c h

  attempted-recalled :
      (t : Times) (kid : Str) (c : Client Key)
      → (recalled config library cancelled t kid
          (is_remembered config t.recalled kid c)).1.attempted_at
        ≡ c.attempted_at
  unfolding recalled is_remembered
  attempted-recalled t kid c = elim (Option-cases (get kid c.missing)) [
    | inl new ↦ rw (is_remembered, new) (attempted-answer t kid c)
    | inr (at, noted) ↦ elim (Bool-cases (leb (at + config.negative_ttl) t.recalled)) [
      | inl lapsed ↦ rw (is_remembered, noted, lapsed) (attempted-answer t kid _)
      | inr standing ↦ rw (is_remembered, noted, standing) refl
    ]
  ]

  -- a call that finds the window shut leaves the last attempt as it is
  attempted-key_for :
      (t : Times) (kid : Str) (r : Result Response) (c : Client Key)
      → may_fetch config t.window c ≡ false
      → (key_for config library cancelled t kid r c).1.attempted_at ≡ c.attempted_at
  unfolding key_for locked
  attempted-key_for t kid r c h = elim (Option-cases (fresh_hit config t.outside kid c)) [
    | inr (jwk, hit) ↦ rw (key_for, hit) refl
    | inl out ↦ elim (Option-cases (fresh_hit config t.inside kid c)) [
      | inr (jwk, hit) ↦ rw (key_for, out) (rw (locked, hit) refl)
      | inl missed ↦ rw (key_for, out) (rw (locked, missed, h) (attempted-recalled t kid c))
    ]
  ]

  shut :
      (started : ℕ) (t : Times) (s : Client Key)
      → t.window < started + config.refetch_interval
      → s.attempted_at ≡ some started
      → may_fetch config t.window s ≡ false
  unfolding may_fetch
  shut started t s early e = rw (may_fetch, e) (ground arith)

  -- Calls of `key_for`, whatever their kids and whatever the transport would answer, that all read the window
  -- before `until`.
  pub data Calls (until : ℕ) : Client Key → Client Key → Type 0 where
    none_yet : {c : Client Key} → Calls until c c
    then_key_for :
        {c last : Client Key} (t : Times) (kid : Str) (r : Result Response)
        → t.window < until
        → Calls until (key_for config library cancelled t kid r c).1 last
        → Calls until c last

  attempted-Calls :
      (started : ℕ) {c last : Client Key}
      → Calls (started + config.refetch_interval) c last
      → c.attempted_at ≡ some started
      → last.attempted_at ≡ some started
  attempted-Calls started Calls.none_yet e = e
  attempted-Calls started {c} (Calls.then_key_for t kid r early rest) e =
      attempted-Calls started rest (attempted-key_for t kid r c (shut started t c early e) ∙ e)

  -- After a call that fetched, unless it was cancelled, none of the calls inside the refetch interval
  -- fetches, however many came before it and for whatever kids: what the transport would answer makes no
  -- difference to it. So unknown kids cannot make the client fetch more than once in an interval.
  pub key_for-window :
      (t t' : Times) (kid kid' : Str) (r r₁ r₂ : Result Response) (c last : Client Key)
      → ((e : Raised)
          → fetched library config.algorithms config.max_keys r ≡ raise e
          → cancelled e ≡ false)
      → fresh_hit config t.outside kid c ≡ none
      → fresh_hit config t.inside kid c ≡ none
      → may_fetch config t.window c ≡ true
      → Calls
          (t.started + config.refetch_interval)
          (key_for config library cancelled t kid r c).1
          last
      → t'.window < t.started + config.refetch_interval
      → key_for config library cancelled t' kid' r₁ last
        ≡ key_for config library cancelled t' kid' r₂ last
  unfolding key_for
  key_for-window t t' kid kid' r r₁ r₂ c last h out missed opened calls early =
      key_for_closed t' kid' r₁ r₂ last (
        shut t.started t' last early (
          attempted-Calls t.started calls
            (rw (key_for, out) (attempted-locked t kid r c h missed opened))))
