-- ===== src/Remote/Document/Laws.antt =====
-- stores/session_document.py: the documents that have a record.
use fastapi_better_auth.Errors.{ok_of}
use fastapi_better_auth.Base.{
  ℕ, ◌≡◌, refl, ap, ◌∙◌, ◌↔◌, inl, inr, Bool, true, false, Option, none, some, Option-cases,
  Bool-cases,
}
use fastapi_better_auth.Text.{Str, is_blank, is_encodable}
use fastapi_better_auth.CookieVerifier.{StoredUser, StoredSession}
use fastapi_better_auth.Remote.Document.{
  Member, text, flag, SessionObject, UserObject, Document, as_text, as_flag, is_absent, as_moment,
  expiry_of, ban_of, user_with, parse_stored_user, session_with, parsed_pair,
  parse_session_document, same_text, ok, str_eq,
}

-- The member is a usable text.
pub record IsText (m : Member) (s : Str) : Type 0 where
  pub member : m ≡ text s
  pub filled : is_blank s ≡ false
  pub encodable : is_encodable s ≡ true

as_text_iff : (m : Member) (s : Str) → (as_text m ≡ some s) ↔ IsText m s
unfolding as_text
as_text_iff m s = (sound m, λ i. rw (i.member, i.filled, i.encodable) refl)
  where
    sound : (m : Member) → as_text m ≡ some s → IsText m s
    sound (text t) h = elim (Bool-cases (is_blank t)) [
      | inl blank ↦ absurd (cc (rw blank at h))
      | inr filled ↦ elim (Bool-cases (is_encodable t)) [
        | inr lone ↦ absurd (cc (rw (filled, lone) at h))
        | inl fine ↦
            let e : t ≡ s = cc (rw (filled, fine) at h) in
            record { member = ap text e; filled = rw (← e) filled; encodable = rw (← e) fine }
      ]
    ]
    sound (flag b) h = absurd (cc)
    sound Member.absent h = absurd (cc)
    sound Member.other h = absurd (cc)

-- what a member that need not be there says of a ban: it is absent, or exactly what is recorded
abbrev pub Says : {A : Type 0} → (Member → Option A) → Member → Option A → Type 0
Says read m none = m ≡ Member.absent
Says read m (some a) = read m ≡ some a

absent_of : (m : Member) → is_absent m ≡ true → m ≡ Member.absent
unfolding is_absent
absent_of Member.absent h = refl
absent_of Member.other h = absurd (cc)
absent_of (text s) h = absurd (cc)
absent_of (flag b) h = absurd (cc)

abbrev both : Option Bool → Option ℕ → Option Bool × Option ℕ
both b x = (b, x)

module _ (fromisoformat : Str → Option ℕ) where
  abbrev moment : Member → Option ℕ
  moment = as_moment fromisoformat

  parts :
      (b c : Option Bool) (x y : Option ℕ) → some (both b x) ≡ some (both c y) → (b ≡ c) × (x ≡ y)
  parts b c x y h = (cc, cc)

  expiry_of_sound :
      (b c : Option Bool) (m : Member) (at : Option ℕ)
      → expiry_of fromisoformat b m ≡ some (c, at)
      → (b ≡ c) × Says (as_moment fromisoformat) m at
  unfolding expiry_of
  expiry_of_sound b c m at h = elim (Option-cases (moment m)) [
    | inr (x, read) ↦
        let (e, f) = parts b c (some x) at (rw (expiry_of, read) at h) in (e, rw (← f) read)
    | inl unread ↦ elim (Bool-cases (is_absent m)) [
      | inl none_there ↦
          let (e, f) = parts b c none at (rw (expiry_of, unread, none_there) at h) in
          (e, rw (← f) (absent_of m none_there))
      | inr unusable ↦ absurd (cc (rw (expiry_of, unread, unusable) at h))
    ]
  ]

  ban_of_sound :
      (banned recorded : Member) (b : Option Bool) (at : Option ℕ)
      → ban_of fromisoformat banned recorded ≡ some (b, at)
      → Says as_flag banned b × Says (as_moment fromisoformat) recorded at
  unfolding ban_of
  ban_of_sound banned recorded b at h = elim (Option-cases (as_flag banned)) [
    | inr (x, read) ↦
        let (e, f) = expiry_of_sound (some x) b recorded at (rw (ban_of, read) at h) in
        (rw (← e) read, f)
    | inl unread ↦ elim (Bool-cases (is_absent banned)) [
      | inl none_there ↦
          let (e, f) = expiry_of_sound none b recorded at (rw (ban_of, unread, none_there) at h) in
          (rw (← e) (absent_of banned none_there), f)
      | inr unusable ↦ absurd (cc (rw (ban_of, unread, unusable) at h))
    ]
  ]

  module _ {Payload : Type 0} where
    -- The user object is read as this user: a usable id, and of a ban exactly what the object says.
    pub record IsUser (u : UserObject Payload) (user : StoredUser Payload) : Type 0 where
      pub id : IsText u.id user.id
      pub payload : user.payload ≡ u.payload
      pub banned : Says as_flag u.banned user.banned
      pub ban_expires : Says (as_moment fromisoformat) u.ban_expires user.ban_expires

    -- The document is read as this record.
    pub record IsRecord (d : Document Payload) (r : StoredSession Payload) : Type 0 where
      pub session : SessionObject Payload
      pub has_session : d.session ≡ some session
      pub user_object : UserObject Payload
      pub has_user : d.user ≡ some user_object
      pub token : IsText session.token r.token
      pub user_id : IsText session.user_id r.user_id
      pub expires_at : as_moment fromisoformat session.expires_at ≡ some r.expires_at
      pub payload : r.payload ≡ session.payload
      pub user : StoredUser Payload
      pub embedded : r.user ≡ some user
      pub is_user : IsUser user_object user

    user_with_sound :
        (u : UserObject Payload) (id : Str) (o : Option (Option Bool × Option ℕ))
        (user : StoredUser Payload)
        → IsText u.id id
        → ban_of fromisoformat u.banned u.ban_expires ≡ o
        → user_with fromisoformat u id o ≡ some user
        → IsUser u user
    unfolding user_with
    user_with_sound u id none user i e h = absurd (cc)
    user_with_sound u id (some (b, at)) user i e h =
        let same : record { id = id; payload = u.payload; banned = b; ban_expires = at } ≡ user =
          cc in
        let (says_b, says_at) = ban_of_sound u.banned u.ban_expires b at e in
        rw (← same) (record { id = i; payload = refl; banned = says_b; ban_expires = says_at })

    parse_stored_user_sound :
        (u : UserObject Payload) (user : StoredUser Payload)
        → parse_stored_user fromisoformat u ≡ some user
        → IsUser u user
    unfolding parse_stored_user
    parse_stored_user_sound u user h = elim (Option-cases (as_text u.id)) [
      | inl unusable ↦ absurd (cc (rw (parse_stored_user, unusable) at h))
      | inr (id, read) ↦
          user_with_sound u id (ban_of fromisoformat u.banned u.ban_expires) user
            ((as_text_iff u.id id).0 read) refl (rw (parse_stored_user, read) at h)
    ]

    session_with_sound :
        (s : SessionObject Payload) (e : Option ℕ) (i t : Option Str)
        (u : Option (StoredUser Payload)) (r : StoredSession Payload)
        → session_with fromisoformat s e i t u ≡ some r
        → (e ≡ some r.expires_at)
          × (i ≡ some r.user_id)
          × (t ≡ some r.token)
          × (u ≡ r.user)
          × (r.payload ≡ s.payload)
          × (user : StoredUser Payload) × (r.user ≡ some user)
    unfolding session_with
    session_with_sound s (some e) (some i) (some t) (some u) r h =
        let same : record {
          token = t;
          user_id = i;
          expires_at = e;
          payload = s.payload;
          user = some u;
          impersonated_by = as_text s.impersonated_by;
        }
            ≡ r =
          cc in
        rw (← same) (refl, refl, refl, refl, refl, u, refl)
    session_with_sound s _ _ _ _ r h = absurd (cc)

    -- A document that has a record carries a session and a user object, with a usable token, user id and
    -- date of expiry, and the record says of the user's ban exactly what the object says: no `banned`
    -- that is not a Boolean and no unreadable date is read as the absence of a ban.
    pub parse_session_document-IsRecord :
        (d : Document Payload) (r : StoredSession Payload)
        → parse_session_document fromisoformat d ≡ some r
        → IsRecord d r
    unfolding parse_session_document parsed_pair
    parse_session_document-IsRecord d r h = both_there d.session d.user refl refl h
      where
        both_there :
            (s : Option (SessionObject Payload)) (u : Option (UserObject Payload))
            → d.session ≡ s
            → d.user ≡ u
            → parsed_pair fromisoformat s u ≡ some r
            → IsRecord d r
        both_there none u e f k = absurd (cc)
        both_there (some s) none e f k = absurd (cc)
        both_there (some s) (some u) e f k =
            let (expiry, id, token, user, payload, stored, embedded) =
              session_with_sound s (as_moment fromisoformat s.expires_at) (as_text s.user_id)
                (as_text s.token) (parse_stored_user fromisoformat u) r k in
            record {
              session = s;
              has_session = e;
              user_object = u;
              has_user = f;
              token = (as_text_iff s.token r.token).0 token;
              user_id = (as_text_iff s.user_id r.user_id).0 id;
              expires_at = expiry;
              payload = payload;
              user = stored;
              embedded = embedded;
              is_user = parse_stored_user_sound u stored (user ∙ embedded);
            }

-- A comparison that returns found the presented text encodable.
pub same_text-ok :
    (known presented : Str) (b : Bool)
    → same_text known presented ≡ ok b
    → (is_encodable presented ≡ true) × (str_eq known presented ≡ b)
unfolding same_text
same_text-ok known presented b h = elim (Bool-cases (is_encodable presented)) [
  | inl fine ↦ (fine, ok_of (rw fine at h))
  | inr bad ↦ absurd (cc (rw bad at h))
]
