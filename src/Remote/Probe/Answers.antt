-- ===== src/Remote/Probe/Answers.antt =====
-- remote_probe.py: how one answer is translated and judged.
use fastapi_better_auth.Text.{lit, Str}
use fastapi_better_auth.Base.{
  ◌≡◌, ◌↔◌, refl, sym, ap, ◌∙◌, Bool-cases, Bool, none, ◌||◌, false, true, some, inl, ◌⊎◌, inr,
  Option, ◌&&◌, not,
}
use fastapi_better_auth.Errors.{
  Raised, Result, ok, raise, is_exception, ok_of, configuration, is_better_auth, Reason,
  is_session_error,
}
use fastapi_better_auth.Remote.Response.{Response, header}
use fastapi_better_auth.Remote.Probe.{State, Transport, translated, Str, answered, posture}
use fastapi_better_auth.Remote.Probe.Contract.{IsNullContract}

-- What the request with a manufactured bearer token may bring: no cookie, or, where a permissive upstream
-- is only warned of, any response or any Exception.
pub data IsAccepted {Payload : Type 0} (refuse : Bool) (second : Result (Response Payload))
    : Type 0 where
  unset :
      (r : Response Payload)
      → second ≡ ok r
      → header (lit "set-cookie") r.headers ≡ none
      → IsAccepted refuse second
  advisory : (r : Response Payload) → second ≡ ok r → refuse ≡ false → IsAccepted refuse second
  swallowed :
      (e : Raised)
      → second ≡ raise e
      → is_exception e ≡ true
      → refuse ≡ false
      → IsAccepted refuse second

-- A configuration error that is the deployment's fault, or the transport's own.
pub data IsFault {Payload : Type 0} (refuse : Bool) (first second : Result (Response Payload))
    (q : Reason) : Type 0 where
  broken_contract :
      (r : Response Payload) → first ≡ ok r → ¬ IsNullContract r → IsFault refuse first second q
  permissive :
      (r : Response Payload) (cookie : Str)
      → second ≡ ok r
      → header (lit "set-cookie") r.headers ≡ some cookie
      → refuse ≡ true
      → IsFault refuse first second q
  of_transport :
      (first ≡ raise (configuration q)) ⊎ (second ≡ raise (configuration q))
      → IsFault refuse first second q

-- a library's own error is an Exception
own-is_exception :
    (e : Raised) → (is_better_auth e || is_session_error e) ≡ true → is_exception e ≡ true
unfolding is_better_auth is_session_error is_exception
own-is_exception (Raised.session k r) h = refl
own-is_exception (Raised.configuration r) h = refl
own-is_exception (Raised.better_auth n) h = refl
own-is_exception (Raised.type_error r) h = absurd (cc)
own-is_exception (Raised.value_error r) h = absurd (cc)
own-is_exception (Raised.refused r) h = absurd (cc)
own-is_exception (Raised.other n) h = absurd (cc)
own-is_exception (Raised.exit n) h = absurd (cc)
own-is_exception (Raised.group es) h = absurd (cc)

pub raised_of : {A : Type 0} {d e : Raised} → ◌≡◌ {A = Result A} (raise d) (raise e) → d ≡ e
raised_of h = cc

module _ {T Payload : Type 0} (transport : Transport T Payload) where
  pub answer_kept : (r : Response Payload) → translated transport (ok r) ≡ ok r
  unfolding translated
  answer_kept r = refl

  pub translated-ok :
      (r : Result (Response Payload)) (a : Response Payload)
      → translated transport r ≡ ok a
      → r ≡ ok a
  unfolding translated
  translated-ok (ok r) a h = h
  translated-ok (raise e) a h = elim (Bool-cases (is_better_auth e || is_session_error e)) [
    | inl own ↦ absurd (cc (rw own at h))
    | inr other ↦ elim (Bool-cases (is_exception e)) [
      | inl x ↦ absurd (cc (rw (other, x) at h))
      | inr x ↦ absurd (cc (rw (other, x) at h))
    ]
  ]

  -- what the probe judges of an Exception, and of no Exception
  translated-raised :
      (e : Raised)
      → (d : Raised) × (translated transport (raise e) ≡ raise d)
        × ((is_better_auth d || is_session_error d) ≡ is_exception e)
  unfolding translated is_session_error is_better_auth
  translated-raised e = elim (Bool-cases (is_better_auth e || is_session_error e)) [
    | inl own ↦ rw own (e, refl, own ∙ sym (own-is_exception e own))
    | inr other ↦ elim (Bool-cases (is_exception e)) [
      | inl x ↦ rw (other, x) (_, refl, refl)
      | inr x ↦ rw (other, x) (e, refl, other)
    ]
  ]

  -- a configuration error is passed on, and none is made
  pub translated-configuration :
      (r : Result (Response Payload)) (q : Reason)
      → translated transport r ≡ raise (configuration q)
      → r ≡ raise (configuration q)
  unfolding translated is_better_auth is_session_error is_exception
  translated-configuration (ok r) q h = absurd (cc)
  translated-configuration (raise e) q h =
      elim (Bool-cases (is_better_auth e || is_session_error e)) [
        | inl own ↦ rw own at h
        | inr other ↦ elim (Bool-cases (is_exception e)) [
          | inl x ↦ absurd (cc (rw (other, x) at h))
          | inr x ↦ rw (other, x) at h
        ]
      ]

  cookie_of : Response Payload → Option Str
  cookie_of r = header (lit "set-cookie") r.headers

  posture_iff :
      (refuse : Bool) (cookie : Option Str) (st : State T)
      → (posture transport refuse cookie st).0 ≡ ok tt
      → (cookie ≡ none) ⊎ (refuse ≡ false)
  unfolding posture
  posture_iff refuse none st h = inl refl
  posture_iff false (some c) st h = inr refl
  posture_iff true (some c) st h = absurd (cc)

  posture_advisory :
      (cookie : Option Str) (st : State T) → (posture transport false cookie st).0 ≡ ok tt
  unfolding posture
  posture_advisory none st = refl
  posture_advisory (some c) st = refl

  pub answered_iff :
      (refuse : Bool) (second : Result (Response Payload)) (st : State T)
      → ((answered transport refuse (translated transport second) st).0 ≡ ok tt)
        ↔ IsAccepted refuse second
  unfolding answered
  answered_iff refuse (ok r) st = (
    λ h.
        elim (posture_iff refuse (header (lit "set-cookie") r.headers) st
          (unfold translated in h)) [
            | inl bare ↦ IsAccepted.unset r refl bare
            | inr lax ↦ IsAccepted.advisory r refl lax
          ],
    λ a. elim a [
      | IsAccepted.unset s e k ↦
          let same : r ≡ s = ok_of e in
          unfold translated in
          rw (ap (λ (x : Response Payload). header (lit "set-cookie") x.headers) same ∙ k)
            (unfold posture in refl)
      | IsAccepted.advisory s e k ↦ unfold translated in rw k (posture_advisory _ st)
      | IsAccepted.swallowed e k x f ↦ absurd (cc)
    ],
  )
  answered_iff refuse (raise e) st =
      let (d, judged, own) = translated-raised e in
      rw judged (
        λ h. elim (Bool-cases (is_exception e)) [
          | inl x ↦ elim (Bool-cases refuse) [
            | inl strict ↦ absurd (cc (rw (own, x, strict) at h))
            | inr lax ↦ IsAccepted.swallowed e refl x lax
          ]
          | inr x ↦ absurd (cc (rw (own, x) at h))
        ],
        λ a. elim a [
          | IsAccepted.unset s k f ↦ absurd (cc)
          | IsAccepted.advisory s k f ↦ absurd (cc)
          | IsAccepted.swallowed f k x lax ↦
              let same : e ≡ f = cc in rw (own, ap is_exception same ∙ x, lax) refl
        ],
      )

  posture_fault :
      (refuse : Bool) (cookie : Option Str) (st : State T) (e : Raised)
      → (posture transport refuse cookie st).0 ≡ raise e
      → (refuse ≡ true) × ((c : Str) × (cookie ≡ some c))
  unfolding posture
  posture_fault refuse none st e h = absurd (cc)
  posture_fault true (some c) st e h = (refl, (c, refl))
  posture_fault false (some c) st e h = absurd (cc)

  pub answered-IsFault :
      (refuse : Bool) (first second : Result (Response Payload)) (st : State T) (q : Reason)
      → (answered transport refuse (translated transport second) st).0 ≡ raise (configuration q)
      → IsFault refuse first second q
  unfolding answered
  answered-IsFault refuse first (ok r) st q h =
      let (strict, (c, set)) =
        posture_fault refuse (header (lit "set-cookie") r.headers) st (configuration q)
          (rw (answer_kept r) at h) in
      IsFault.permissive r c refl set strict
  answered-IsFault refuse first (raise e) st q h =
      let (d, judged, own) = translated-raised e in
      elim (Bool-cases ((is_better_auth d || is_session_error d) && not refuse)) [
        | inl passed ↦ absurd (cc (rw (judged, passed) at h))
        | inr kept ↦
            let k : d ≡ configuration q = raised_of (rw (judged, kept) at h) in
            IsFault.of_transport (inr (translated-configuration (raise e) q (judged ∙ ap raise k)))
      ]
