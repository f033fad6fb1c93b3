-- ===== src/Transport/Laws.antt =====
-- httpx_transports.py: which responses are delivered, and what a fetch raises.
use fastapi_better_auth.Base.{
  ℤ, pos, negsuc, ℕ, ◌≤◌, ◌≡◌, ◌↔◌, refl, sym, ap, ◌∙◌, inl, inr, Bool, true, false, Option, none,
  some, List, ltb, arith, Bool-cases,
}
use fastapi_better_auth.Text.{Str, Bytes}
use fastapi_better_auth.Errors.{
  Raised, value_error, Result, ok, raise, ok_of, bind-eq-ok, Result-cases, is_exception,
  bad_byte_cap,
}
use fastapi_better_auth.Transport.{
  StreamedResponse, TransportResponse, lowered, capped, response_of, Client, Request, handled,
  is_untrusted, fetch, fetch_checked, sent, request_headers, validate_cap, transport_failure,
  timeout_error,
}
use fastapi_better_auth.Transport.Body.{IsRead, capped-IsRead}

response_of_iff :
    (limit : ℕ) (s : StreamedResponse) (r : TransportResponse)
    → (response_of limit s ≡ ok r) ↔ (
        IsRead s limit r.content
        × (r.status_code ≡ s.status_code)
        × (r.headers ≡ lowered s.headers))
unfolding response_of
response_of_iff limit s r = (
  λ h.
      let (body, read, same) = bind-eq-ok (capped s limit) _ h in
      let e : record { status_code = s.status_code; headers = lowered s.headers; content = body }
          ≡ r =
        ok_of same in
      rw (← e) ((capped-IsRead s limit body).0 read, refl, refl),
  λ (read, status, names). rw ((capped-IsRead s limit r.content).1 read, ← status, ← names) refl,
)

validate_cap_iff :
    (given : Option ℤ) (limit : ℕ)
    → (validate_cap given ≡ ok limit) ↔ ((given ≡ some (pos limit)) × (1 ≤ limit))
unfolding validate_cap
validate_cap_iff none limit = (λ h. absurd (cc), λ (e, f). absurd (cc))
validate_cap_iff (some (negsuc n)) limit = (λ h. absurd (cc), λ (e, f). absurd (cc))
validate_cap_iff (some (pos n)) limit = elim (Bool-cases (ltb n 1)) [
  | inl small ↦
      rw small
        (λ h. absurd (cc), λ (e, f). let k : n ≡ limit = cc in absurd (ground (arith, small, k, f)))
  | inr fine ↦ rw fine (
    λ h. let k : n ≡ limit = ok_of h in (ap (λ m. some (pos m)) k, ground (arith, fine, k)),
    λ (e, f). let k : n ≡ limit = cc in ap ok k,
  )
]

cap_fault :
    (given : Option ℤ) (e : Raised) → validate_cap given ≡ raise e → e ≡ value_error bad_byte_cap
unfolding validate_cap
cap_fault none e h = cc
cap_fault (some (negsuc n)) e h = cc
cap_fault (some (pos n)) e h = elim (Bool-cases (ltb n 1)) [
  | inl small ↦ cc (rw small at h)
  | inr fine ↦ absurd (cc (rw fine at h))
]

handled_iff :
    {A : Type 0} (is_timeout : Raised → Bool) (r : Result A) (a : A)
    → (handled is_timeout r ≡ ok a) ↔ (r ≡ ok a)
unfolding handled
handled_iff is_timeout (ok b) a = (λ h. h, λ h. h)
handled_iff is_timeout (raise e) a = (
  λ h. elim (Bool-cases (is_untrusted e)) [
    | inl x ↦ absurd (cc (rw x at h))
    | inr x ↦ elim (Bool-cases (is_timeout e)) [
      | inl y ↦ absurd (cc (rw (x, y) at h))
      | inr y ↦ elim (Bool-cases (is_exception e)) [
        | inl z ↦ absurd (cc (rw (x, y, z) at h))
        | inr z ↦ absurd (cc (rw (x, y, z) at h))
      ]
    ]
  ],
  λ h. absurd (cc),
)

-- What a failed fetch raises: nothing of the client's own, unless no handler of Exception catches it.
pub data IsOpaque (e : Raised) : Type 0 where
  bad_cap : e ≡ value_error bad_byte_cap → IsOpaque e
  untrusted : is_untrusted e ≡ true → IsOpaque e
  timed_out : e ≡ timeout_error → IsOpaque e
  unreached : e ≡ transport_failure → IsOpaque e
  uncaught : is_exception e ≡ false → IsOpaque e

handled-IsOpaque :
    {A : Type 0} (is_timeout : Raised → Bool) (r : Result A) (e : Raised)
    → handled is_timeout r ≡ raise e
    → IsOpaque e
unfolding handled
handled-IsOpaque is_timeout (ok a) e h = absurd (cc)
handled-IsOpaque is_timeout (raise x) e h = elim (Bool-cases (is_untrusted x)) [
  | inl u ↦ let k : x ≡ e = cc (rw u at h) in IsOpaque.untrusted (ap is_untrusted (sym k) ∙ u)
  | inr u ↦ elim (Bool-cases (is_timeout x)) [
    | inl t ↦ IsOpaque.timed_out (cc (rw (u, t) at h))
    | inr t ↦ elim (Bool-cases (is_exception x)) [
      | inl y ↦ IsOpaque.unreached (cc (rw (u, t, y) at h))
      | inr y ↦
          let k : x ≡ e = cc (rw (u, t, y) at h) in IsOpaque.uncaught (ap is_exception (sym k) ∙ y)
    ]
  ]
]

module _ {C : Type 0} (client : Client C) (is_timeout : Raised → Bool) (method url : Str)
    (headers : Option (List (Str × Str))) (content : Bytes) (max_bytes : Option ℤ) (c : C) where
  -- the request that is sent
  abbrev pub request : Request
  request = record {
    method = method;
    url = url;
    headers = request_headers headers;
    content = content;
    follow_redirects = false;
  }

  -- A fetch that returns.
  pub record IsDelivered (r : TransportResponse) : Type 0 where
    pub limit : ℕ
    pub given : max_bytes ≡ some (pos limit)
    pub positive : 1 ≤ limit
    pub streamed : StreamedResponse
    pub answered : (client.stream request c).0 ≡ ok streamed
    pub read : IsRead streamed limit r.content
    pub status : r.status_code ≡ streamed.status_code
    pub names : r.headers ≡ lowered streamed.headers

  -- A fetch returns a response exactly if the cap is a positive number and the client answers the request,
  -- sent with redirects off, by a response without a content encoding whose stream reaches its end within
  -- the cap; what is returned is its status, its headers in lower case and its body, whole.
  pub fetch_iff :
      (r : TransportResponse)
      → ((fetch client is_timeout method url headers content max_bytes c).0 ≡ ok r) ↔ IsDelivered r
  unfolding fetch sent
  fetch_iff r = (
    λ h. elim (Result-cases (validate_cap max_bytes)) [
      | inr (e, bad) ↦ absurd (cc (rw (fetch_checked, bad) at h))
      | inl (limit, good) ↦
          let (given, positive) = (validate_cap_iff max_bytes limit).0 good in
          let sent_ok = rw (fetch_checked, good) at h in
          let (s, answered, k) =
            bind-eq-ok (client.stream request c).0 _ ((handled_iff is_timeout _ r).0 sent_ok) in
          let (read, status, names) = (response_of_iff limit s r).0 k in
          record {
            limit = limit;
            given = given;
            positive = positive;
            streamed = s;
            answered = answered;
            read = read;
            status = status;
            names = names;
          }
    ],
    λ d.
        rw (fetch_checked, (validate_cap_iff max_bytes d.limit).1 (d.given, d.positive), d.answered)
          ((handled_iff is_timeout (response_of d.limit d.streamed) r).1
            ((response_of_iff d.limit d.streamed r).1 (d.read, d.status, d.names))),
  )

  -- Whatever the client raises, a fetch raises a ValueError for its cap, an UntrustedResponse, a
  -- TimeoutError or a TransportFailure, or what no handler of Exception catches.
  pub fetch-IsOpaque :
      (e : Raised)
      → (fetch client is_timeout method url headers content max_bytes c).0 ≡ raise e
      → IsOpaque e
  unfolding fetch sent
  fetch-IsOpaque e h = elim (Result-cases (validate_cap max_bytes)) [
    | inl (limit, good) ↦ handled-IsOpaque is_timeout _ e (rw (fetch_checked, good) at h)
    | inr (x, bad) ↦
        let k : x ≡ e = cc (rw (fetch_checked, bad) at h) in
        IsOpaque.bad_cap (sym k ∙ cap_fault max_bytes x bad)
  ]
