-- ===== src/Sql/Rows/Payload.antt =====
-- stores/sqlalchemy_core.py: what a payload says of its row.
use fastapi_better_auth.Base.{
  ℕ, ◌≡◌, refl, sym, ap, ◌∙◌, inl, inr, true, false, Option, some, List, [], ◌∷◌, ◌++◌, Bool-cases,
  Option-cases,
}
use fastapi_better_auth.Text.{Str, lit, str_eq, is_blank, is_encodable}
use fastapi_better_auth.Text.Laws.{str_eq_iff}
use fastapi_better_auth.Errors.{ok, ok_of, bind-eq-ok}
use fastapi_better_auth.Cookies.{member}
use fastapi_better_auth.Remote.Document.{as_text, as_moment, Member}
use fastapi_better_auth.Sql.Rows.{
  Cell, null, characters, Row, find, value_or_null, get, is_null, text_of, only, moment_of,
  moment_cell, aware, built, payload_of, moment_cell,
}

pub text_of_sound : (v : Cell) (s : Str) → text_of v ≡ some s → v ≡ characters s
unfolding text_of as_text
text_of_sound (characters t) s h = elim (Bool-cases (is_blank t)) [
  | inl blank ↦ absurd (cc (rw blank at h))
  | inr filled ↦ elim (Bool-cases (is_encodable t)) [
    | inl fine ↦ cc (rw (filled, fine) at h)
    | inr bad ↦ absurd (cc (rw (filled, bad) at h))
  ]
]
text_of_sound null s h = absurd (cc)
text_of_sound (Cell.date_time n) s h = absurd (cc)
text_of_sound (Cell.naive_date_time n) s h = absurd (cc)
text_of_sound (Cell.boolean b) s h = absurd (cc)
text_of_sound (Cell.integer n) s h = absurd (cc)
text_of_sound (Cell.other n) s h = absurd (cc)

pub get_found :
    (name : Str) (p : Row) → is_null (get name p) ≡ false → find name p ≡ some (get name p)
unfolding get value_or_null is_null
get_found name p h = elim (Option-cases (find name p)) [
  | inl gone ↦ absurd (cc (rw gone at h))
  | inr (v, there) ↦ rw there refl
]

pub only_sound : (rows : List Row) (row : Row) → only rows ≡ some row → rows ≡ row ∷ []
unfolding only
only_sound [] row h = absurd (cc)
only_sound (r ∷ []) row h = cc
only_sound (r ∷ s ∷ rows) row h = absurd (cc)

module _ (fromisoformat : Str → Option ℕ) where
  pub payload_find :
      (prefix : Str) (row : Row) (names : List Str) (p : Row) (name : Str) (v : Cell)
      → payload_of fromisoformat prefix row names ≡ ok p
      → find name p ≡ some v
      → (c : Cell) × (find (prefix ++ name) row ≡ some c) × (v ≡ aware fromisoformat name c)
  unfolding payload_of built find
  payload_find prefix row [] p name v h f = absurd (cc (rw (← ok_of h) at f))
  payload_find prefix row (n ∷ names) p name v h f = elim (Option-cases (find (prefix ++ n) row)) [
    | inl gone ↦ absurd (cc (rw gone at h))
    | inr (c, there) ↦
        let (rest, e, k) =
          bind-eq-ok (payload_of fromisoformat prefix row names) _ (rw there at h) in
        elim (Bool-cases (str_eq n name)) [
          | inl same ↦
              let found : aware fromisoformat n c ≡ v = cc (rw (← ok_of k, same) at f) in
              (
                c,
                rw (← (str_eq_iff n name).0 same) there,
                sym found ∙ ap (λ x. aware fromisoformat x c) ((str_eq_iff n name).0 same),
              )
          | inr other ↦ payload_find prefix row names rest name v e (rw (← ok_of k, other) at f)
        ]
  ]

  -- a text of a payload is a text of the row
  pub text_found :
      (prefix : Str) (row : Row) (names : List Str) (p : Row) (name s : Str)
      → payload_of fromisoformat prefix row names ≡ ok p
      → text_of (get name p) ≡ some s
      → ((c : Cell) → aware fromisoformat name c ≡ c)
      → find (prefix ++ name) row ≡ some (characters s)
  text_found prefix row names p name s h t plain =
      let v = text_of_sound (get name p) s t in
      let (c, there, e) =
        payload_find prefix row names p name (characters s) h
          (get_found name p (rw v (unfold is_null in refl)) ∙ ap some v) in
      there ∙ ap some (sym (e ∙ plain c))

  pub payload_has :
      (prefix : Str) (row : Row) (names : List Str) (p : Row) (name : Str) (c : Cell)
      → payload_of fromisoformat prefix row names ≡ ok p
      → member name names ≡ true
      → find (prefix ++ name) row ≡ some c
      → find name p ≡ some (aware fromisoformat name c)
  unfolding payload_of built find member
  payload_has prefix row [] p name c h m f = absurd (cc)
  payload_has prefix row (n ∷ names) p name c h m f = elim (Option-cases (find (prefix ++ n) row)) [
    | inl gone ↦ absurd (cc (rw gone at h))
    | inr (d, there) ↦
        let (rest, e, k) =
          bind-eq-ok (payload_of fromisoformat prefix row names) _ (rw there at h) in
        elim (Bool-cases (str_eq n name)) [
          | inl same ↦
              let named : n ≡ name = (str_eq_iff n name).0 same in
              let known : d ≡ c = cc (sym there ∙ (ap (λ x. find (prefix ++ x) row) named ∙ f)) in
              rw (← ok_of k, same, named, known) refl
          | inr other ↦
              rw (← ok_of k, other)
                (payload_has prefix row names rest name c e
                  (elim (Bool-cases (str_eq name n)) [
                    | inl same ↦
                        absurd (cc ((str_eq_iff n name).1 (sym ((str_eq_iff name n).0 same))))
                    | inr apart ↦ rw apart at m
                  ])
                  f)
        ]
  ]

  pub expiry_read :
      (c : Cell) (at : ℕ)
      → moment_of fromisoformat (aware fromisoformat (lit "expiresAt") c) ≡ some at
      → moment_of fromisoformat c ≡ some at
  unfolding aware moment_of moment_cell member str_eq is_null
  expiry_read (Cell.date_time n) at h = h
  expiry_read (Cell.naive_date_time n) at h = h
  expiry_read null at h = h
  expiry_read (Cell.boolean b) at h = h
  expiry_read (Cell.integer n) at h = h
  expiry_read (Cell.other n) at h = h
  expiry_read (characters s) at h = elim (Option-cases (as_moment fromisoformat (Member.text s))) [
    | inl unread ↦ absurd (cc (rw unread at h))
    | inr (n, read) ↦ read ∙ (rw read at h)
  ]

  pub moment-not_null :
      (v : Cell) (at : ℕ) → moment_of fromisoformat v ≡ some at → is_null v ≡ false
  unfolding moment_of is_null
  moment-not_null null at h = absurd (cc)
  moment-not_null (Cell.date_time n) at h = refl
  moment-not_null (Cell.naive_date_time n) at h = refl
  moment-not_null (characters s) at h = refl
  moment-not_null (Cell.boolean b) at h = absurd (cc)
  moment-not_null (Cell.integer n) at h = absurd (cc)
  moment-not_null (Cell.other n) at h = absurd (cc)
