-- ===== src/Redis/Laws.antt =====
-- stores/redis_store.py: the values that have a record, and who closes the client.
use fastapi_better_auth.Base.{
  ℕ, ◌≡◌, ◌≤◌, ◌↔◌, refl, ap, ◌∙◌, Bool, true, false, Option, none, some, ◌++◌, ltb, Bool-cases,
  Option-cases, inl, inr, arith, ◌≢◌, ◌<◌,
}
use fastapi_better_auth.Text.{Str, is_blank, str_eq, is_encodable}
use fastapi_better_auth.Text.Laws.{str_eq_iff}
use fastapi_better_auth.Errors.{ok, ok_of}
use fastapi_better_auth.Errors.{bind-eq-ok as result-eq-ok}
use fastapi_better_auth.Exec.{bind-eq-ok, lift-eq-ok}
use fastapi_better_auth.CookieVerifier.{StoredSession}
use fastapi_better_auth.Remote.Document.{Document, parse_session_document, same_text}
use fastapi_better_auth.Remote.Document.Laws.{same_text-ok}
use fastapi_better_auth.Remote.Response.{Body}
use fastapi_better_auth.Redis.{
  Value, absent, stored, Client, Store, Arguments, given, exactly_one, built_client,
  validated_prefix, validated_cap, new_store, object_of, sized, document, own, record_of, asked,
  fetch_session_by_token, aclose,
}

module _ {Payload : Type 0} where
  -- What a value holds: a JSON object within the cap; or nothing that can be read, where it is absent, neither
  -- bytes nor a text, over the cap or not a JSON object.
  pub data Holds (cap : ℕ) : Value Payload → Option (Document Payload) → Type 0 where
    nothing : Holds cap absent none
    unknown : Holds cap Value.foreign none
    oversized :
        (size : ℕ) (body : Body Payload) → cap < size → Holds cap (stored (some size) body) none
    no_object :
        (size : ℕ) (body : Body Payload)
        → size ≤ cap
        → ((d : Document Payload) → body ≢ Body.object d)
        → Holds cap (stored (some size) body) none
    object :
        (size : ℕ) (d : Document Payload)
        → size ≤ cap
        → Holds cap (stored (some size) (Body.object d)) (some d)

  document_sound :
      (cap : ℕ) (v : Value Payload) (o : Option (Document Payload))
      → document cap v ≡ ok o
      → Holds cap v o
  unfolding document sized object_of
  document_sound cap absent o h = rw (← ok_of h) Holds.nothing
  document_sound cap Value.foreign o h = rw (← ok_of h) Holds.unknown
  document_sound cap (stored none body) o h = absurd (cc)
  document_sound cap (stored (some size) body) o h = elim (Bool-cases (ltb cap size)) [
    | inl over ↦ rw (← ok_of (rw over at h)) (Holds.oversized size body (ground (arith, over)))
    | inr fits ↦ inside body (ground (arith, fits)) (ok_of (rw fits at h))
  ]
    where
      inside :
          (body : Body Payload)
          → size ≤ cap
          → object_of body ≡ o
          → Holds cap (stored (some size) body) o
      inside (Body.object d) short e = rw (← e) (Holds.object size d short)
      inside Body.null short e =
          rw (← e) (Holds.no_object size Body.null short (λ d k. absurd (cc)))
      inside Body.not_json short e =
          rw (← e) (Holds.no_object size Body.not_json short (λ d k. absurd (cc)))
      inside Body.not_object short e =
          rw (← e) (Holds.no_object size Body.not_object short (λ d k. absurd (cc)))

  document_complete :
      (cap : ℕ) (v : Value Payload) (o : Option (Document Payload))
      → Holds cap v o
      → document cap v ≡ ok o
  unfolding document sized object_of
  document_complete cap v o Holds.nothing = refl
  document_complete cap v o Holds.unknown = refl
  document_complete cap v o (Holds.oversized size body over) =
      let e : ltb cap size ≡ true = ground (arith, over) in rw e refl
  document_complete cap v o (Holds.no_object size body short other) =
      let e : ltb cap size ≡ false = ground (arith, short) in rw e (ap ok (unreadable body other))
    where
      unreadable :
          (b : Body Payload) → ((d : Document Payload) → b ≢ Body.object d) → object_of b ≡ none
      unreadable (Body.object d) k = absurd (k d refl)
      unreadable Body.null k = refl
      unreadable Body.not_json k = refl
      unreadable Body.not_object k = refl
  document_complete cap v o (Holds.object size d short) =
      let e : ltb cap size ≡ false = ground (arith, short) in rw e refl

  module _ (fromisoformat : Str → Option ℕ) where
    -- What is answered for what a value holds: a record of the very token, or a miss where nothing is held,
    -- the document is no session document, or its record names another token than its key.
    pub data Answers (token : Str)
        : Option (Document Payload) → Option (StoredSession Payload) → Type 0 where
      unheld : Answers token none none
      unread :
          (d : Document Payload)
          → parse_session_document fromisoformat d ≡ none
          → Answers token (some d) none
      of_another :
          (d : Document Payload) (r : StoredSession Payload)
          → is_encodable token ≡ true
          → parse_session_document fromisoformat d ≡ some r
          → r.token ≢ token
          → Answers token (some d) none
      of_token :
          (d : Document Payload) (r : StoredSession Payload)
          → is_encodable token ≡ true
          → parse_session_document fromisoformat d ≡ some r
          → r.token ≡ token
          → Answers token (some d) (some r)

    record_of_sound :
        (token : Str) (o : Option (Document Payload)) (a : Option (StoredSession Payload))
        → record_of fromisoformat token o ≡ ok a
        → Answers token o a
    unfolding record_of own
    record_of_sound token none a h = rw (← ok_of h) Answers.unheld
    record_of_sound token (some d) a h =
        elim (Option-cases (parse_session_document fromisoformat d)) [
          | inl bad ↦ rw (← ok_of (rw bad at h)) (Answers.unread d bad)
          | inr (r, parsed) ↦
              let (b, compared, k) = result-eq-ok (same_text r.token token) _ (rw parsed at h) in
              let (fine, equal) = same_text-ok r.token token b compared in
              elim (Bool-cases b) [
                | inl same ↦
                    rw (← ok_of (rw same at k)) (
                      Answers.of_token d r fine parsed
                        ((str_eq_iff r.token token).0 (equal ∙ same)))
                | inr other ↦ rw (← ok_of (rw other at k)) (
                    Answers.of_another d r fine parsed
                      (λ e. absurd (cc ((str_eq_iff r.token token).1 e))))
              ]
        ]

    record_of_complete :
        (token : Str) (o : Option (Document Payload)) (a : Option (StoredSession Payload))
        → Answers token o a
        → record_of fromisoformat token o ≡ ok a
    unfolding record_of own same_text
    record_of_complete token o a Answers.unheld = refl
    record_of_complete token o a (Answers.unread d bad) = rw bad refl
    record_of_complete token o a (Answers.of_another d r fine parsed other) =
        elim (Bool-cases (str_eq r.token token)) [
          | inl same ↦ absurd (other ((str_eq_iff r.token token).0 same))
          | inr differs ↦ rw (parsed, fine, differs) refl
        ]
    record_of_complete token o a (Answers.of_token d r fine parsed same) =
        rw (parsed, fine, (str_eq_iff r.token token).1 same) refl

    module _ {C : Type 0} (client : Client C Payload) (store : Store) where
      -- What a lookup answers: a miss for a blank token, which the client is not asked for, and else what is
      -- answered for the value under the token's key.
      pub data IsAnswer (token : Str) (c : C) : Option (StoredSession Payload) → Type 0 where
        blank : is_blank token ≡ true → IsAnswer token c none
        reached :
            (value : Value Payload) (o : Option (Document Payload))
            (a : Option (StoredSession Payload))
            → is_blank token ≡ false
            → (client.get (store.prefix ++ token) c).0 ≡ ok value
            → Holds store.max_bytes value o
            → Answers token o a
            → IsAnswer token c a

      asked_sound :
          (token : Str) (c : C) (a : Option (StoredSession Payload))
          → is_blank token ≡ false
          → (asked client fromisoformat store token c).0 ≡ ok a
          → IsAnswer token c a
      unfolding asked
      asked_sound token c a filled h =
          let (value, u, e, k) = bind-eq-ok (client.get (store.prefix ++ token)) _ c h in
          let (o, read, k₁) = lift-eq-ok (document store.max_bytes value) _ u k in
          IsAnswer.reached value o a filled (ap (λ p. p.0) e)
            (document_sound store.max_bytes value o read) (record_of_sound token o a k₁)

      -- A lookup answers exactly so: a miss for a blank token; a miss where the value that the client has for
      -- the token's key is absent, neither bytes nor a text, over the cap, no JSON object or no session
      -- document; a miss where the document names another token than its key; and else the document's
      -- record. Where the token cannot be encoded and there is a record to compare it with, there is no answer:
      -- the lookup raises.
      pub fetch_session_by_token-IsAnswer :
          (token : Str) (c : C) (a : Option (StoredSession Payload))
          → ((fetch_session_by_token client fromisoformat store token c).0 ≡ ok a)
            ↔ IsAnswer token c a
      unfolding fetch_session_by_token
      fetch_session_by_token-IsAnswer token c a = (
        λ h. elim (Bool-cases (is_blank token)) [
          | inl empty ↦ rw (← ok_of (rw empty at h)) (IsAnswer.blank empty)
          | inr filled ↦ asked_sound token c a filled (rw filled at h)
        ],
        answered,
      )
        where
          answered :
              {o : Option (StoredSession Payload)}
              → IsAnswer token c o
              → (fetch_session_by_token client fromisoformat store token c).0 ≡ ok o
          answered (IsAnswer.blank empty) = rw empty refl
          answered (IsAnswer.reached value o b filled got holds answers) =
              unfold asked in
              rw
                (
                  filled,
                  got,
                  document_complete store.max_bytes value o holds,
                  record_of_complete token o b answers,
                )
                refl

  module _ {C : Type 0} (client : Client C Payload) (fromisoformat : Str → Option ℕ)
      (store : Store) where
    -- A store that was given a client never closes it.
    pub aclose_borrowed :
        (builds : Str → Bool) (a : Arguments) (c : C)
        → new_store builds a ≡ ok store
        → a.has_client ≡ true
        → aclose client fromisoformat store c ≡ (ok tt, c)
    unfolding new_store aclose
    aclose_borrowed builds a c h borrowed =
        let (_, one, k₁) = result-eq-ok (exactly_one (given a.url) a.has_client) _ h in
        let (prefix, p, k₂) = result-eq-ok (validated_prefix a.key_prefix) _ k₁ in
        let (cap, m, k₃) = result-eq-ok (validated_cap a.max_bytes) _ k₂ in
        let (_, b, k₄) = result-eq-ok (built_client builds a.url) _ k₃ in
        let not_built : given a.url ≡ false = lone (given a.url) (rw borrowed at one) in
        rw (← ok_of k₄, not_built) refl
      where
        lone : (b : Bool) → exactly_one b true ≡ ok tt → b ≡ false
        lone true e = absurd (cc)
        lone false e = refl
