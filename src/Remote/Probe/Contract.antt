-- ===== src/Remote/Probe/Contract.antt =====
-- remote_probe.py: the tests on the response to a request without a credential.
use fastapi_better_auth.Base.{
  ℕ, Bool, not, ◌||◌, Option, none, some, ◌==◌, if◌then◌else◌, ◌≡◌, ◌↔◌, refl, arith, true,
}
use fastapi_better_auth.Text.{Str}
use fastapi_better_auth.Errors.{
  Reason, configuration, Result, ok, raise, refuse_if, ◌>>◌, bind-eq-ok, refuse_if-ok,
  probe_routing, probe_status, probe_media, probe_not_json, probe_dead_jar, probe_not_null,
}
use fastapi_better_auth.CookieVerifier.{StoredSession}
use fastapi_better_auth.Remote.Document.{parse_session_document}
use fastapi_better_auth.Remote.Response.{Body, Response, is_json}

-- `status in ROUTING_STATUSES`
unfoldable pub is_routing : ℕ → Bool
is_routing status = status == 404 || status == 405 || status == 415

-- _status_message
status_reason : ℕ → Reason
status_reason status = if is_routing status then probe_routing else probe_status

module _ {Payload : Type 0} (fromisoformat : Str → Option ℕ) where
  document_reason : Option (StoredSession Payload) → Reason
  document_reason none = probe_not_null
  document_reason (some r) = probe_dead_jar

  -- _decoded, and the tests on what it returns
  body_contract : Body Payload → Result (Unit {0})
  unfolding document_reason
  body_contract Body.not_json = raise (configuration probe_not_json)
  body_contract Body.null = ok tt
  body_contract Body.not_object = raise (configuration probe_not_null)
  body_contract (Body.object d) =
      raise (configuration (document_reason (parse_session_document fromisoformat d)))

  -- _assert_null_contract; its _media_type is the one of remote_response.py
  unfoldable pub assert_null_contract : Response Payload → Result (Unit {0})
  unfolding body_contract status_reason
  assert_null_contract r = do
    refuse_if (not (r.status_code == 200)) (configuration (status_reason r.status_code))
    refuse_if (not (is_json r)) (configuration probe_media)
    body_contract r.content

-- The answer to a request without a credential: 200, as JSON, null.
pub record IsNullContract {Payload : Type 0} (r : Response Payload) : Type 0 where
  pub status : r.status_code ≡ 200
  pub media : is_json r ≡ true
  pub body : r.content ≡ Body.null

module _ {Payload : Type 0} (fromisoformat : Str → Option ℕ) where
  body_contract-ok : (b : Body Payload) → body_contract fromisoformat b ≡ ok tt → b ≡ Body.null
  unfolding body_contract
  body_contract-ok Body.not_json h = absurd (cc)
  body_contract-ok Body.null h = refl
  body_contract-ok Body.not_object h = absurd (cc)
  body_contract-ok (Body.object d) h = absurd (cc)

  pub assert_null_contract-IsNullContract :
      (r : Response Payload) → (assert_null_contract fromisoformat r ≡ ok tt) ↔ IsNullContract r
  unfolding assert_null_contract
  assert_null_contract-IsNullContract r = (
    λ h.
        let (_, s, h₁) = bind-eq-ok (refuse_if (not (r.status_code == 200)) _) _ h in
        let (_, m, h₂) = bind-eq-ok (refuse_if (not (is_json r)) _) _ h₁ in
        record {
          status = let e = refuse_if-ok _ _ s in ground arith;
          media = let e = refuse_if-ok _ _ m in ground arith;
          body = body_contract-ok r.content h₂;
        },
    λ c. rw (c.media, c.status, c.body) (unfold body_contract in refl),
  )
