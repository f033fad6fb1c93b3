-- ===== src/Remote/Response/Laws.antt =====
-- remote_response.py: which responses have a record, and which a null.
use fastapi_better_auth.Base.{
  ℤ, ℕ, ◌+◌, ◌≤◌, ◌<◌, ◌≡◌, refl, sym, ◌∙◌, ◌↔◌, Bool, true, false, not, Option, none, some, List,
  [], ◌∷◌, ◌==◌, arith, Bool-cases, Option-cases, inl, inr,
}
use fastapi_better_auth.Text.{Str, lit, str_eq}
use fastapi_better_auth.Text.Laws.{str_eq_iff}
use fastapi_better_auth.Errors.{
  Reason, session, auth_service_unavailable, upstream_status, upstream_media, upstream_not_json,
  upstream_not_object, upstream_unreadable, ok, raise, refuse_if, refuse_if-ok, bind-eq-ok, Result,
}
use fastapi_better_auth.Latches.Laws.{observe_window}
use fastapi_better_auth.CookieVerifier.{StoredSession}
use fastapi_better_auth.Latches.{Backoff, latched, observe}
use fastapi_better_auth.Remote.Document.{Document, parse_session_document}
use fastapi_better_auth.Remote.Response.{
  Body, Response, header, clamped, wait_of, first_wait, retry_after_seconds, media_type, is_json,
  is_null, is_cacheable_null, null_outcome, record_or, record_of, session_document_from, strip,
}

-- A response of a document.
pub record IsDocument {Payload : Type 0} (r : Response Payload) (d : Document Payload)
    : Type 0 where
  pub status : r.status_code ≡ 200
  pub media : media_type r ≡ lit "application/json"
  pub content : r.content ≡ Body.object d

module _ (read_int : Str → Option ℤ) where
  clamped_bounds : (n : ℤ) → (1 ≤ clamped n) × (clamped n ≤ 60)
  unfolding clamped
  clamped_bounds (ℤ.pos n) = ground arith
  clamped_bounds (ℤ.negsuc n) = (omega arith, omega arith)

  wait_bounds : (o : Option Str) (n : ℕ) → wait_of read_int o ≡ some n → (1 ≤ n) × (n ≤ 60)
  unfolding wait_of
  wait_bounds none n h = absurd (cc)
  wait_bounds (some raw) n h = elim (Option-cases (read_int (strip raw))) [
    | inl unread ↦ absurd (cc (rw (wait_of, unread) at h))
    | inr (i, read) ↦
        let e : clamped i ≡ n = cc (rw (wait_of, read) at h) in rw (← e) (clamped_bounds i)
  ]

  first_wait_bounds :
      (names : List Str) (headers : List (Str × Str))
      → (1 ≤ first_wait read_int names headers) × (first_wait read_int names headers ≤ 60)
  unfolding first_wait wait_of clamped
  first_wait_bounds [] headers = (omega arith, omega arith)
  first_wait_bounds (name ∷ names) headers =
      elim (Option-cases (wait_of read_int (header name headers))) [
        | inl unread ↦ rw (first_wait, unread) (first_wait_bounds names headers)
        | inr (n, read) ↦ rw (first_wait, read) (wait_bounds (header name headers) n read)
      ]

  -- Whatever the headers of a 429 say, the latch that it trips blocks calls from then on, and for at most
  -- 60 seconds, the waits being in the clock's unit of a second.
  pub observe-retry_after :
      (headers : List (Str × Str)) (at now : ℕ) (b : Backoff)
      → (latched at b).1 ≡ false
      → ((latched at (observe at 429 (retry_after_seconds read_int headers) b).0).1 ≡ true)
        × ((latched now (observe at 429 (retry_after_seconds read_int headers) b).0).1 ≡ true
            → now < at + 60)
  unfolding retry_after_seconds
  observe-retry_after headers at now b h =
      let (least, most) =
        first_wait_bounds (lit "retry-after" ∷ lit "x-retry-after" ∷ []) headers in
      let wait = retry_after_seconds read_int headers in
      (
        (observe_window at at wait b h).1 ∙ ground (arith, least),
        λ e. ground (arith, most, sym (observe_window at now wait b h).1 ∙ e),
      )

module _ {Payload : Type 0} (fromisoformat : Str → Option ℕ) where
  is_json_iff :
      (r : Response Payload) → (is_json r ≡ true) ↔ (media_type r ≡ lit "application/json")
  unfolding is_json
  is_json_iff r = str_eq_iff (media_type r) (lit "application/json")

  record_or_sound :
      (o : Option (StoredSession Payload)) (s : StoredSession Payload)
      → record_or o ≡ ok s
      → o ≡ some s
  unfolding record_or
  record_or_sound none s h = absurd (cc)
  record_or_sound (some t) s h = cc

  record_of_sound :
      (verified : Bool) (b : Body Payload) (s : StoredSession Payload)
      → record_of fromisoformat verified b ≡ ok s
      → (d : Document Payload) × (b ≡ Body.object d)
        × (parse_session_document fromisoformat d ≡ some s)
  unfolding record_of
  record_of_sound verified Body.not_json s h = absurd (cc)
  record_of_sound verified Body.null s h = absurd (cc)
  record_of_sound verified Body.not_object s h = absurd (cc)
  record_of_sound verified (Body.object d) s h = (d, refl, record_or_sound _ s h)

  abbrev refused : Reason → Result (StoredSession Payload)
  refused why = raise (session auth_service_unavailable why)

  -- a refusal as unavailable is no null
  no_null :
      (why : Reason) (verified : Bool)
      → (false ≡ true) ↔ (refused why ≡ raise (null_outcome verified))
  unfolding null_outcome
  no_null why true = (λ h. absurd (cc), λ h. absurd (cc))
  no_null why false = (λ h. absurd (cc), λ h. absurd (cc))

  record_of_null :
      (verified : Bool) (b : Body Payload)
      → (is_null b ≡ true) ↔ (record_of fromisoformat verified b ≡ raise (null_outcome verified))
  unfolding record_of is_null null_outcome record_or
  record_of_null verified Body.null = (λ h. refl, λ h. refl)
  record_of_null verified Body.not_json = no_null upstream_not_json verified
  record_of_null verified Body.not_object = no_null upstream_not_object verified
  record_of_null verified (Body.object d) =
      elim (Option-cases (parse_session_document fromisoformat d)) [
        | inl none_read ↦ rw none_read (no_null upstream_unreadable verified)
        | inr (t, read) ↦ rw read (λ h. absurd (cc), λ h. absurd (cc))
      ]

  -- A response has a record exactly if its status is 200, it is served as JSON, and it is a document
  -- from which that record is read.
  pub session_document_from_iff :
      (verified : Bool) (r : Response Payload) (s : StoredSession Payload)
      → (session_document_from fromisoformat verified r ≡ ok s) ↔ (
          (d : Document Payload) × IsDocument r d
          × (parse_session_document fromisoformat d ≡ some s))
  unfolding session_document_from record_of record_or is_json str_eq media_type
  session_document_from_iff verified r s =
      (sound, λ (d, i, e). rw (i.status, (is_json_iff r).1 i.media, i.content, e) refl)
    where
      sound :
          session_document_from fromisoformat verified r ≡ ok s
          → (d : Document Payload) × IsDocument r d
            × (parse_session_document fromisoformat d ≡ some s)
      sound h =
          let (_, good, h₁) =
            bind-eq-ok
              (refuse_if (not (r.status_code == 200))
                (session auth_service_unavailable upstream_status))
              _ h in
          let (_, json, h₂) =
            bind-eq-ok
              (refuse_if (not (is_json r)) (session auth_service_unavailable upstream_media)) _
              h₁ in
          let (d, content, e) = record_of_sound verified r.content s h₂ in
          (
            d,
            record {
              status = ground (arith, refuse_if-ok _ _ good);
              media = (is_json_iff r).0 (ground (arith, refuse_if-ok _ _ json));
              content = content;
            },
            e,
          )

  -- Exactly the responses that say there is no session are cacheable: a response is remembered as dead if
  -- and only if reading it raises the refusal of a null, whether or not the signature was verified.
  pub is_cacheable_null_iff :
      (verified : Bool) (r : Response Payload)
      → (is_cacheable_null r ≡ true)
        ↔ (session_document_from fromisoformat verified r ≡ raise (null_outcome verified))
  unfolding session_document_from is_cacheable_null null_outcome
  is_cacheable_null_iff verified r = elim (Bool-cases (r.status_code == 200)) [
    | inr bad ↦ rw bad (no_null upstream_status verified)
    | inl good ↦ elim (Bool-cases (is_json r)) [
      | inr bad ↦ rw (good, bad) (no_null upstream_media verified)
      | inl json ↦ rw (good, json) (record_of_null verified r.content)
    ]
  ]
