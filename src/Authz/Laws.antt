-- ===== src/Authz/Laws.antt =====
-- authz.py: what a gate lets through.
use fastapi_better_auth.Base.{
  ◌≤◌, ◌≡◌, ◌≢◌, refl, sym, ap, ◌∙◌, ◌↔◌, inl, inr, Bool, true, false, ◌||◌, [], ◌∷◌, ltb, ◌==◌,
  any, length, All, Any, arith, Bool-cases,
}
use fastapi_better_auth.Text.{Str, is_blank, is_space}
use fastapi_better_auth.Errors.{Result, ok, raise, is_exception}
use fastapi_better_auth.Exec.{Exec, lift, ◌>>=◌, bind-eq-pair, lift-eq-pair}
use fastapi_better_auth.Models.{is_user_id, is_accepted_id}
use fastapi_better_auth.Authz.{
  Answer, Found, Lookup, Membership, is_honoured, handled, exactly_true, awaited, allowed,
  member_of, permitted, require, granted, authorized, require_membership,
}

-- An id that may be looked up: a character that is no whitespace, no control character, and a
-- length that a column holds.
pub record IsUserId (s : Str) : Type 0 where
  pub short : length s ≤ 255
  pub visible : Any (λ c. is_space c ≡ false) s
  pub printable : All (λ c. (32 ≤ c) × (c ≢ 127)) s

visible_of : (s : Str) → is_blank s ≡ false → Any (λ c. is_space c ≡ false) s
unfolding is_blank
visible_of [] h = absurd (cc)
visible_of (c ∷ s) h = elim (Bool-cases (is_space c)) [
  | inl blank ↦ inr (visible_of s (ground arith))
  | inr seen ↦ inl seen
]

filled_of : (s : Str) → Any (λ c. is_space c ≡ false) s → (is_blank s ≡ false) × (1 ≤ length s)
unfolding is_blank
filled_of [] h = absurd h
filled_of (c ∷ s) (inl h) = (ground arith, omega arith)
filled_of (c ∷ s) (inr h) = let (b, l) = filled_of s h in (ground arith, omega arith)

printable_iff :
    (s : Str) → (any (λ c. ltb c 0x20 || c == 0x7f) s ≡ false) ↔ All (λ c. (32 ≤ c) × (c ≢ 127)) s
printable_iff [] = (λ h. tt, λ h. refl)
printable_iff (c ∷ s) = ground (arith, printable_iff s)

is_user_id_iff : (s : Str) → (is_user_id s ≡ true) ↔ IsUserId s
unfolding is_user_id is_accepted_id
is_user_id_iff s = (
  λ h. record {
    short = ground arith;
    visible = visible_of s (ground arith);
    printable = (printable_iff s).0 (ground arith);
  },
  λ i. ground (arith, i.short, filled_of s i.visible, (printable_iff s).1 i.printable),
)

handled-ok : {A : Type 0} (r : Result A) (a : A) → handled r ≡ ok a → r ≡ ok a
unfolding handled
handled-ok (ok b) a h = h
handled-ok (raise e) a h = elim (Bool-cases (is_honoured e)) [
  | inl ours ↦ absurd (cc (rw ours at h))
  | inr other ↦ elim (Bool-cases (is_exception e)) [
    | inl accident ↦ absurd (cc (rw (other, accident) at h))
    | inr exit ↦ absurd (cc (rw (other, exit) at h))
  ]
]

pair_of : {A B : Type 0} (p : A × B) {a : A} {b : B} → p.0 ≡ a → p.1 ≡ b → p ≡ (a, b)
pair_of (x, y) e f = rw (e, f) refl

true_of : (a : Answer) → exactly_true a ≡ ok true → a ≡ Answer.is_true
unfolding exactly_true
true_of Answer.is_true h = refl
true_of Answer.awaitable h = absurd (cc)
true_of Answer.other h = absurd (cc)

abbrev both : {A B : Type 0} → A → B → A × B
both a b = (a, b)

first_of : {A B : Type 0} {a c : A} {b d : B} → both a b ≡ both c d → a ≡ c
first_of h = ap (λ p. p.0) h

second_of : {A B : Type 0} {a c : A} {b d : B} → both a b ≡ both c d → b ≡ d
second_of h = ap (λ p. p.1) h

module _ {W Session : Type 0} where
  permitted_sound :
      (predicate : Session → Exec W Answer) (s : Session) (w u : W)
      → permitted predicate s w ≡ (ok true, u)
      → predicate s w ≡ (ok Answer.is_true, u)
  unfolding permitted
  permitted_sound predicate s w u h =
      let (a, ran, rest) =
        lift-eq-pair (handled (predicate s w).0) (λ answer. lift (exactly_true answer))
          (predicate s w).1 h in
      pair_of (predicate s w) (handled-ok _ _ ran ∙ ap ok (true_of a (first_of rest)))
        (second_of rest)

  permitted_complete :
      (predicate : Session → Exec W Answer) (s : Session) (w u : W)
      → predicate s w ≡ (ok Answer.is_true, u)
      → permitted predicate s w ≡ (ok true, u)
  unfolding permitted handled exactly_true
  permitted_complete predicate s w u h = rw h refl

  -- `require` lets a request through exactly if its session was found and the rule, run on it,
  -- answered the object True: no other answer, however truthy, passes. The session goes on unchanged.
  pub require_iff :
      (current : Exec W Session) (predicate : Session → Exec W Answer) (s : Session) (w u : W)
      → (require current predicate w ≡ (ok s, u))
        ↔ ((v : W) × (current w ≡ (ok s, v)) × (predicate s v ≡ (ok Answer.is_true, u)))
  unfolding require allowed
  require_iff current predicate s w u =
      (sound, λ (v, found, h). rw (found, permitted_complete predicate s v u h) refl)
    where
      same_of :
          (t : Session) (b : Bool) (x : W)
          → lift (allowed t b) x ≡ (ok s, u)
          → (t ≡ s) × (b ≡ true) × (x ≡ u)
      same_of t true x h = (cc, refl, cc)
      same_of t false x h = absurd (cc)

      ran_on :
          (t : Session) (v : W)
          → (permitted predicate t >>= λ b. lift (allowed t b)) v ≡ (ok s, u)
          → (t ≡ s) × (permitted predicate t v ≡ (ok true, u))
      ran_on t v h =
          let (b, x, ran, rest) = bind-eq-pair (permitted predicate t) _ v h in
          let (same, answer, last) = same_of t b x rest in (same, ran ∙ rw (answer, last) refl)

      sound :
          require current predicate w ≡ (ok s, u)
          → (v : W) × (current w ≡ (ok s, v)) × (predicate s v ≡ (ok Answer.is_true, u))
      sound h =
          let (t, v, found, rest) = bind-eq-pair current _ w h in
          let (same, ran) = ran_on t v rest in
          (
            v,
            found ∙ ap (λ x. (ok x, v)) same,
            ap (λ x. predicate x v) (sym same) ∙ permitted_sound predicate t v u ran,
          )

  module _ {Grant : Type 0} (current : Exec W Session)
      (member : Str → Session → Exec W (Lookup W Grant)) where
    granted_sound :
        (resource_id : Str) (s : Session) (g : Found Grant) (v u : W)
        → granted member resource_id s v ≡ (ok g, u)
        → (member resource_id s >>= awaited) v ≡ (ok g, u)
    unfolding granted
    granted_sound resource_id s g v u h = pair_of _ (handled-ok _ g (first_of h)) (second_of h)

    membership_of :
        (s : Session) (resource_id : Str) (g : Found Grant) (m : Membership Session Grant)
        → member_of s resource_id g ≡ ok m
        → (s ≡ m.session) × (m.resource_id ≡ resource_id) × (g ≡ Found.grant m.grant)
    unfolding member_of
    membership_of s resource_id Found.nothing m h = absurd (cc)
    membership_of s resource_id Found.is_false m h = absurd (cc)
    membership_of s resource_id (Found.grant g) m h =
        let e : record { session = s; resource_id = resource_id; grant = g } ≡ m = cc in
        (ap (λ n. n.session) e, sym (ap (λ n. n.resource_id) e), ap (λ n. Found.grant n.grant) e)

    authorized_sound :
        (resource_id : Str) (s : Session) (m : Membership Session Grant) (v u : W)
        → authorized member resource_id s v ≡ (ok m, u)
        → (is_user_id resource_id ≡ true)
          × (s ≡ m.session)
          × (m.resource_id ≡ resource_id)
          × ((member resource_id s >>= awaited) v ≡ (ok (Found.grant m.grant), u))
    unfolding authorized
    authorized_sound resource_id s m v u h = elim (Bool-cases (is_user_id resource_id)) [
      | inr unusable ↦ absurd (cc (rw (authorized, unusable) at h))
      | inl usable ↦
          let (g, x, ran, rest) =
            bind-eq-pair (granted member resource_id s) _ v (rw (authorized, usable) at h) in
          let (same, id, given) = membership_of s resource_id g m (first_of rest) in
          (
            usable,
            same,
            id,
            granted_sound resource_id s g v x ran ∙ rw (given, second_of rest) refl,
          )
    ]

    -- `require_membership` lets a request through exactly if its session was found, its resource id is
    -- usable, and the lookup returned an awaitable that gave a grant other than None and False.
    -- What goes on is the session, the id and that grant.
    pub require_membership_iff :
        (resource_id : Str) (m : Membership Session Grant) (w u : W)
        → (require_membership current member resource_id w ≡ (ok m, u)) ↔ (
            IsUserId resource_id
            × (m.resource_id ≡ resource_id)
            × (v : W) × (current w ≡ (ok m.session, v))
            × ((member resource_id m.session >>= awaited) v ≡ (ok (Found.grant m.grant), u)))
    unfolding require_membership authorized granted handled member_of
    require_membership_iff resource_id m w u = (
      λ h.
          let (s, v, found, rest) = bind-eq-pair current _ w h in
          let (usable, same, id, ran) = authorized_sound resource_id s m v u rest in
          (
            (is_user_id_iff resource_id).0 usable,
            id,
            v,
            found ∙ ap (λ x. (ok x, v)) same,
            ap (λ x. (member resource_id x >>= awaited) v) (sym same) ∙ ran,
          ),
      λ (usable, id, v, found, ran).
          rw (found, (is_user_id_iff resource_id).1 usable, ran, ← id) refl,
    )
