-- ===== src/Sql/Plan/Laws.antt =====
-- stores/sqlalchemy_core.py: which columns a plan selects.
use fastapi_better_auth.Base.{
  ◌≡◌, refl, sym, ap, ◌∙◌, Bool, true, false, not, ◌&&◌, ◌||◌, Option, some, List, [], ◌∷◌, ◌++◌,
  Bool-cases, Option-cases, inl, inr,
}
use fastapi_better_auth.Text.{Str, str_eq}
use fastapi_better_auth.Text.Laws.{str_eq_iff}
use fastapi_better_auth.Errors.{ok, ok_of, bind-eq-ok, refuse_if, refuse_if-ok}
use fastapi_better_auth.Cookies.{member}
use fastapi_better_auth.Sql.Plan.{
  select_if, absent_from, is_filled, may_travel, extras, unknown_names, accepted_of, accepted,
  columns_of, Columns, Plan, Config, plan_for, session_required, session_optional, session_admin,
  user_required, user_optional, user_admin,
}

member-append : (a : Str) (l m : List Str) → member a (l ++ m) ≡ (member a l || member a m)
unfolding member
member-append a [] m = refl
member-append a (b ∷ l) m = elim (Bool-cases (str_eq a b)) [
  | inl same ↦ rw same refl
  | inr other ↦ rw other (member-append a l m)
]

&&_false : (b : Bool) → (b && false) ≡ false
&&_false true = refl
&&_false false = refl

member-select_if :
    (test : Str → Bool) (a : Str) (l : List Str)
    → member a (select_if test l) ≡ (member a l && test a)
unfolding member select_if
member-select_if test a [] = refl
member-select_if test a (b ∷ l) = elim (Bool-cases (str_eq a b)) [
  | inl same ↦
      let e : a ≡ b = (str_eq_iff a b).0 same in
      elim (Bool-cases (test b)) [
        | inl passes ↦ rw (passes, same, ap test e ∙ passes) refl
        | inr fails ↦
            rw (fails, same, member-select_if test a l, ap test e ∙ fails) (&&_false (member a l))
      ]
  | inr other ↦ elim (Bool-cases (test b)) [
    | inl passes ↦ rw (other, passes, other) (member-select_if test a l)
    | inr fails ↦ rw (other, fails) (member-select_if test a l)
  ]
]

unfilled : (l : List Str) → is_filled l ≡ false → l ≡ []
unfolding is_filled
unfilled [] h = refl
unfilled (a ∷ l) h = absurd (cc)

all_there :
    (columns names : List Str) (a : Str)
    → is_filled (absent_from columns names) ≡ false
    → member a names ≡ true
    → member a columns ≡ true
all_there columns names a h m =
    let none_absent : (member a names && not (member a columns)) ≡ false =
      sym (member-select_if (λ name. not (member name columns)) a names)
      ∙ (ap (λ l. member a l) (unfilled _ h) ∙ unfold member in refl) in
    elim (Bool-cases (member a columns)) [
      | inl there ↦ there
      | inr gone ↦ absurd (cc (rw (m, gone) at none_absent))
    ]

-- required, optional or admin, in the table, may travel
chosen :
    (r o c t : Bool)
    → (r ≡ true → c ≡ true)
    → ((r || (o && c)) || (c && (not (r || (o && c)) && t))) ≡ (c && ((r || o) || t))
chosen true o true t h = refl
chosen true o false t h = absurd (cc (h refl))
chosen false true true t h = refl
chosen false true false t h = refl
chosen false false true t h = refl
chosen false false false t h = refl

accepted_columns :
    (columns required optional admin : List Str) (allowed : Option (List Str)) (out : List Str)
    → accepted_of columns required optional admin allowed ≡ ok out
    → ((name : Str) → member name required ≡ true → member name columns ≡ true)
      × ((name : Str)
          → member name out ≡ (
              member name columns
              && ((member name required || member name (optional ++ admin))
                  || may_travel allowed name)))
unfolding accepted_of extras
accepted_columns columns required optional admin allowed out h =
    let (_, complete, h₁) =
      bind-eq-ok (refuse_if (is_filled (absent_from columns required)) _) _ h in
    let (_, known, h₂) =
      bind-eq-ok (refuse_if (is_filled (unknown_names columns allowed)) _) _ h₁ in
    let there = λ (name : Str). all_there columns required name (refuse_if-ok _ _ complete) in
    (
      there,
      λ name.
          let known : List Str =
            required ++ select_if (λ n. member n columns) (optional ++ admin) in
          let in_known : member name known
              ≡ (member name required || (member name (optional ++ admin) && member name columns)) =
            rw
              (
                member-append name required (select_if (λ n. member n columns) (optional ++ admin)),
                member-select_if (λ n. member n columns) name (optional ++ admin),
              )
              refl in
          rw
            (
              ← ok_of h₂,
              member-append name known (extras columns known allowed),
              member-select_if (λ n. not (member n known) && may_travel allowed n) name columns,
              in_known,
            )
            (chosen (member name required) (member name (optional ++ admin)) (member name columns)
              (may_travel allowed name) (there name)),
    )

accepted_sound :
    (table : Str) (present : Columns) (required optional admin : List Str)
    (allowed : Option (List Str)) (out : List Str)
    → accepted table present required optional admin allowed ≡ ok out
    → (columns : List Str) × (columns_of table present ≡ some columns)
      × ((name : Str) → member name required ≡ true → member name columns ≡ true)
      × ((name : Str)
          → member name out ≡ (
              member name columns
              && ((member name required || member name (optional ++ admin))
                  || may_travel allowed name)))
unfolding accepted
accepted_sound table present required optional admin allowed out h =
    elim (Option-cases (columns_of table present)) [
      | inl gone ↦ absurd (cc (rw (accepted, gone) at h))
      | inr (columns, there) ↦
          let (a, b) =
            accepted_columns columns required optional admin allowed out
              (rw (accepted, there) at h) in
          (columns, there, a, b)
    ]

-- The selected columns of one table.
pub record IsComplete (present : Columns) (table : Str) (required others : List Str)
    (allowed : Option (List Str)) (selected : List Str) : Type 0 where
  pub columns : List Str
  pub there : columns_of table present ≡ some columns
  pub usable : (name : Str) → member name required ≡ true → member name selected ≡ true
  pub exact :
      (name : Str)
      → member name selected ≡ (
          member name columns
          && ((member name required || member name others) || may_travel allowed name))

IsComplete-of :
    (present : Columns) (table : Str) (required optional admin : List Str)
    (allowed : Option (List Str)) (out : List Str)
    → accepted table present required optional admin allowed ≡ ok out
    → IsComplete present table required (optional ++ admin) allowed out
IsComplete-of present table required optional admin allowed out h =
    let (columns, there, complete, exact) =
      accepted_sound table present required optional admin allowed out h in
    record {
      columns = columns;
      there = there;
      usable = λ name m. rw (exact name, complete name m, m) refl;
      exact = exact;
    }

-- Of a schema that a plan is made for, both tables are there with every column that a lookup reads, and
-- the plan selects exactly the columns that the table has and that are Better Auth's own or may travel: an
-- allow-list adds to Better Auth's columns and never takes one away, `banned` and `banExpires` included.
pub plan_for-IsComplete :
    (config : Config) (present : Columns) (plan : Plan)
    → plan_for config present ≡ ok plan
    → IsComplete present config.session_table session_required
        (session_optional ++ session_admin)
        config.session_allowed
        plan.session_columns
      × IsComplete present config.user_table user_required
          (user_optional ++ user_admin)
          config.user_allowed
          plan.user_columns
unfolding plan_for
plan_for-IsComplete config present plan h =
    let (session, s, h₁) =
      bind-eq-ok
        (accepted config.session_table present session_required session_optional session_admin
          config.session_allowed)
        _ h in
    let (user, u, h₂) =
      bind-eq-ok
        (accepted config.user_table present user_required user_optional user_admin
          config.user_allowed)
        _ h₁ in
    rw (← ok_of h₂) (
      IsComplete-of present config.session_table session_required session_optional session_admin
          config.session_allowed session s,
      IsComplete-of present config.user_table user_required user_optional user_admin
          config.user_allowed user u,
    )
