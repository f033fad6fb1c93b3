-- ===== src/Sql/Rows/Laws.antt =====
-- stores/sqlalchemy_core.py: the rows that have a record.
use fastapi_better_auth.Base.{
  ℕ, ◌≡◌, refl, sym, ap, ◌∙◌, inl, inr, Bool, true, Option, none, some, List, [], ◌∷◌, Bool-cases,
}
use fastapi_better_auth.Text.{Str, lit, str_eq}
use fastapi_better_auth.Text.Laws.{str_eq_iff}
use fastapi_better_auth.Errors.{ok, ok_of, bind-eq-ok}
use fastapi_better_auth.Cookies.{member}
use fastapi_better_auth.Remote.Document.{same_text}
use fastapi_better_auth.Remote.Document.Laws.{same_text-ok}
use fastapi_better_auth.CookieVerifier.{StoredUser, StoredSession}
use fastapi_better_auth.Sql.Plan.{Plan, session_prefix, user_prefix}
use fastapi_better_auth.Sql.Rows.{
  Cell, characters, Row, find, value_or_null, get, is_null, text_of, as_db_flag, only, moment_of,
  aware, built, payload_of, user_record, banned_user, identified, user_of_row, joined, session_from,
  session_of_row, user_from,
}
use fastapi_better_auth.Sql.Rows.Payload.{
  get_found, only_sound, payload_find, text_found, payload_has, expiry_read, moment-not_null,
}

module _ (fromisoformat : Str → Option ℕ) where
  -- The user of a row: its id, and its ban as the row says it.
  pub record IsUser (plan : Plan) (row : Row) (user : StoredUser Row) : Type 0 where
    pub id : find (lit "u_id") row ≡ some (characters user.id)
    pub ban :
        (c : Cell)
        → member (lit "banned") plan.user_columns ≡ true
        → find (lit "u_banned") row ≡ some c
        → (user.banned ≡ as_db_flag c) × (user.banned ≡ none → is_null c ≡ true)

  banned_sound :
      (id : Str) (payload : Row) (flag : Option Bool) (user : StoredUser Row)
      → banned_user fromisoformat id payload flag ≡ some user
      → (user.id ≡ id)
        × (user.banned ≡ flag)
        × (flag ≡ none → is_null (get (lit "banned") payload) ≡ true)
  unfolding banned_user user_record
  banned_sound id payload (some b) user h =
      let e : user_record fromisoformat id payload (some b) ≡ user = cc in
      rw (← e) (refl, refl, λ k. absurd (cc))
  banned_sound id payload none user h = elim (Bool-cases (is_null (get (lit "banned") payload))) [
    | inr readable ↦ absurd (cc (rw readable at h))
    | inl blank ↦
        let e : user_record fromisoformat id payload none ≡ user = cc (rw blank at h) in
        rw (← e) (refl, refl, λ k. blank)
  ]

  IsUser-sound :
      (checked : Option Str) (plan : Plan) (row : Row) (user : StoredUser Row)
      → user_of_row fromisoformat checked plan (some row) ≡ ok (some user)
      → IsUser plan row user × ((subject : Str) → checked ≡ some subject → user.id ≡ subject)
  unfolding user_of_row identified aware member str_eq
  IsUser-sound checked plan row user h =
      let (payload, built, k) =
        bind-eq-ok (payload_of fromisoformat user_prefix row plan.user_columns) _ h in
      named payload built checked (text_of (get (lit "id") payload)) refl k
    where
      kept :
          (payload : Row) (id : Str)
          → payload_of fromisoformat user_prefix row plan.user_columns ≡ ok payload
          → text_of (get (lit "id") payload) ≡ some id
          → banned_user fromisoformat id payload (as_db_flag (get (lit "banned") payload))
            ≡ some user
          → IsUser plan row user × (user.id ≡ id)
      kept payload id made has_id e =
          let (same, ban, unknown) = banned_sound id payload _ user e in
          (
            record {
              id =
                  text_found fromisoformat user_prefix row plan.user_columns payload (lit "id") id
                    made has_id (λ c. refl)
                  ∙ ap (λ x. some (characters x)) (sym same);
              ban = λ c selected there.
                  let found =
                    payload_has fromisoformat user_prefix row plan.user_columns payload
                      (lit "banned") c made selected there in
                  let read : get (lit "banned") payload ≡ c =
                    unfold get value_or_null in rw found refl in
                  (
                    ban ∙ ap as_db_flag read,
                    λ none_read. ap is_null (sym read) ∙ unknown (sym ban ∙ none_read),
                  );
            },
            same,
          )

      named :
          (payload : Row)
          → payload_of fromisoformat user_prefix row plan.user_columns ≡ ok payload
          → (checked : Option Str) (id : Option Str) → text_of (get (lit "id") payload) ≡ id
          → identified fromisoformat checked payload id ≡ ok (some user)
          → IsUser plan row user × ((subject : Str) → checked ≡ some subject → user.id ≡ subject)
      named payload made checked none has_id e = absurd (cc)
      named payload made none (some id) has_id e =
          let (is_user, same) = kept payload id made has_id (ok_of e) in
          (is_user, λ subject k. absurd (cc))
      named payload made (some subject) (some id) has_id e =
          let (b, compared, k) = bind-eq-ok (same_text id subject) _ e in
          elim (Bool-cases b) [
            | inr other ↦ absurd (cc (rw other at k))
            | inl own ↦
                let (is_user, same) = kept payload id made has_id (ok_of (rw own at k)) in
                let equal = (same_text-ok id subject b compared).1 ∙ own in
                (is_user, λ x k. same ∙ ((str_eq_iff id subject).0 equal ∙ cc))
          ]

  -- The record of one row, found under a token.
  pub record IsRecord (presented : Str) (plan : Plan) (rows : List Row) (r : StoredSession Row)
      : Type 0 where
    pub row : Row
    pub alone : rows ≡ row ∷ []
    pub token : find (lit "s_token") row ≡ some (characters presented)
    pub same_token : r.token ≡ presented
    pub user_id : find (lit "s_userId") row ≡ some (characters r.user_id)
    pub expiry : Cell
    pub has_expiry : find (lit "s_expiresAt") row ≡ some expiry
    pub expires_at : moment_of fromisoformat expiry ≡ some r.expires_at
    pub user : StoredUser Row
    pub embedded : r.user ≡ some user
    pub is_user : IsUser plan row user

  joined_sound :
      (presented : Str) (payload : Row) (at : Option ℕ) (id token : Option Str)
      (user : Option (StoredUser Row)) (r : StoredSession Row)
      → joined fromisoformat presented payload at id token user ≡ ok (some r)
      → (at ≡ some r.expires_at)
        × (id ≡ some r.user_id)
        × (token ≡ some r.token)
        × (r.token ≡ presented)
        × (user ≡ r.user)
        × ((u : StoredUser Row) × (r.user ≡ some u))
  unfolding joined
  joined_sound presented payload (some a) (some i) (some t) (some u) r h =
      let (b, compared, k) = bind-eq-ok (same_text t presented) _ h in
      elim (Bool-cases b) [
        | inr other ↦ absurd (cc (rw other at k))
        | inl own ↦
            let e : record {
              token = t;
              user_id = i;
              expires_at = a;
              payload = payload;
              user = some u;
              impersonated_by = text_of (get (lit "impersonatedBy") payload);
            }
                ≡ r =
              cc (rw own at k) in
            let equal = (same_text-ok t presented b compared).1 ∙ own in
            rw (← e) (refl, refl, refl, (str_eq_iff t presented).0 equal, refl, (u, refl))
      ]
  joined_sound presented payload none i t u r h = absurd (cc)
  joined_sound presented payload (some a) none t u r h = absurd (cc)
  joined_sound presented payload (some a) (some i) none u r h = absurd (cc)
  joined_sound presented payload (some a) (some i) (some t) none r h = absurd (cc)

  -- A record is built of exactly one row, whose token is the presented one character for character, with a
  -- user id and a date of expiry that are read, and whose user has a usable id and a ban that is read as
  -- the row says it: a `banned` that is neither a Boolean, 0, 1 nor null has no record.
  pub session_from-IsRecord :
      (presented : Str) (plan : Plan) (rows : List Row) (r : StoredSession Row)
      → session_from fromisoformat presented plan rows ≡ ok (some r)
      → IsRecord presented plan rows r
  unfolding session_from session_of_row user_from aware member str_eq
  session_from-IsRecord presented plan rows r h = found (only rows) refl h
    where
      found :
          (o : Option Row)
          → only rows ≡ o
          → session_of_row fromisoformat presented plan rows o ≡ ok (some r)
          → IsRecord presented plan rows r
      found none e k = absurd (cc)
      found (some row) e k =
          let (payload, made, k₁) =
            bind-eq-ok (payload_of fromisoformat session_prefix row plan.session_columns) _ k in
          let (user, got, k₂) = bind-eq-ok (user_from fromisoformat none plan rows) _ k₁ in
          let (at, id, token, own, same_user, (u, embedded)) =
            joined_sound presented payload (moment_of fromisoformat (get (lit "expiresAt") payload))
              (text_of (get (lit "userId") payload)) (text_of (get (lit "token") payload)) user r
              k₂ in
          let (cell, there, is_cell) =
            payload_find fromisoformat session_prefix row plan.session_columns payload
              (lit "expiresAt") (get (lit "expiresAt") payload) made
              (get_found (lit "expiresAt") payload
                (moment-not_null fromisoformat _ r.expires_at at)) in
          let of_row : user_of_row fromisoformat none plan (some row) ≡ ok (some u) =
            ap (λ o. user_of_row fromisoformat none plan o) (sym e)
            ∙ (got ∙ ap ok (same_user ∙ embedded)) in
          record {
            row = row;
            alone = only_sound rows row e;
            token =
                text_found fromisoformat session_prefix row plan.session_columns payload
                  (lit "token") presented made (token ∙ ap some own) (λ c. refl);
            same_token = own;
            user_id =
                text_found fromisoformat session_prefix row plan.session_columns payload
                  (lit "userId") r.user_id made id (λ c. refl);
            expiry = cell;
            has_expiry = there;
            expires_at =
                expiry_read fromisoformat cell r.expires_at
                  (ap (moment_of fromisoformat) (sym is_cell) ∙ at);
            user = u;
            embedded = embedded;
            is_user = (IsUser-sound none plan row u of_row).0;
          }
