-- ===== src/Labels/Laws.antt =====
-- labels.py: the key of a cookie and of its prefixed forms.
use fastapi_better_auth.Base.{
  ℕ, zero, suc, ◌+◌, ◌≤◌, ◌≡◌, ◌≢◌, refl, sym, ap, ◌∙◌, ◌⊎◌, inl, inr, true, false, none, some, [],
  ◌∷◌, ◌++◌, arith, length, drop, Bool-cases, drop-append, length-append, Option,
}
use fastapi_better_auth.Text.{Str, lit, casefold, starts_with, is_space}
use fastapi_better_auth.Text.Laws.{strip_solid, starts_solid, ends_solid, ends_solid-append}
use fastapi_better_auth.Labels.{
  cookie_prefix, browser_cookie_prefixes, cookie_source, cookie_named, first_prefix, base_from,
  base_of, collision_key, or_none,
}

-- the prefix that is dropped first, or none
first_prefix-cases :
    (s : Str)
    → ((first_prefix browser_cookie_prefixes s ≡ none)
        × (starts_with (lit "__secure-") s ≡ false)
        × (starts_with (lit "__host-") s ≡ false))
      ⊎ ((p : Str) × (first_prefix browser_cookie_prefixes s ≡ some p)
          × (1 ≤ length p)
          × (starts_with p s ≡ true))
unfolding first_prefix
first_prefix-cases s = elim (Bool-cases (starts_with (lit "__secure-") s)) [
  | inl secure ↦ inr (lit "__secure-", rw secure refl, omega arith, secure)
  | inr plain ↦ elim (Bool-cases (starts_with (lit "__host-") s)) [
    | inl host ↦ inr (lit "__host-", rw (plain, host) refl, omega arith, host)
    | inr bare ↦ inl (rw (plain, bare) refl, plain, bare)
  ]
]

length-drop_prefix :
    (p s : Str) → starts_with p s ≡ true → length p + length (drop (length p) s) ≡ length s
unfolding starts_with
length-drop_prefix [] s h = omega arith
length-drop_prefix (a ∷ p) [] h = absurd (cc)
length-drop_prefix (a ∷ p) (b ∷ s) h = ground (arith, length-drop_prefix p s)

-- A folded name that no prefix begins.
abbrev pub IsBare : Str → Type 0
IsBare s = (starts_with (lit "__secure-") s ≡ false) × (starts_with (lit "__host-") s ≡ false)

base_from-IsBare : (fuel : ℕ) (s : Str) → length s ≤ fuel → IsBare (base_from fuel s)
unfolding base_from starts_with
base_from-IsBare zero [] h = (refl, refl)
base_from-IsBare zero (c ∷ s) h = absurd (omega arith)
base_from-IsBare (suc fuel) s h = elim (first_prefix-cases s) [
  | inl (none_left, no_secure, no_host) ↦ rw none_left (no_secure, no_host)
  | inr (p, found, long, starts) ↦
      rw found
        (base_from-IsBare fuel (drop (length p) s) (omega (arith, length-drop_prefix p s starts)))
]

-- more fuel than the length changes nothing
base_from_more : (f g : ℕ) (s : Str) → length s ≤ f → length s ≤ g → base_from f s ≡ base_from g s
unfolding base_from first_prefix starts_with
base_from_more zero zero s h k = refl
base_from_more zero (suc g) [] h k = refl
base_from_more zero (suc g) (c ∷ s) h k = absurd (omega arith)
base_from_more (suc f) zero [] h k = refl
base_from_more (suc f) zero (c ∷ s) h k = absurd (omega arith)
base_from_more (suc f) (suc g) s h k = elim (first_prefix-cases s) [
  | inl (none_left, no_secure, no_host) ↦ rw none_left refl
  | inr (p, found, long, starts) ↦
      let shorter = length-drop_prefix p s starts in
      rw found
        (base_from_more f g (drop (length p) s) (omega (arith, shorter)) (omega (arith, shorter)))
]

base_from_step :
    (f : ℕ) (s p : Str)
    → first_prefix browser_cookie_prefixes s ≡ some p
    → base_from (suc f) s ≡ base_from f (drop (length p) s)
unfolding base_from starts_with
base_from_step f s p h = rw h refl

abbrev pub dropped_or_kept : Option Str → Str → Str
dropped_or_kept none s = s
dropped_or_kept (some prefix) s = base_of (drop (length prefix) s)

-- The loop that drops prefixes ends for every name: the fuel suffices, since what it computes is the
-- loop's own equation, one prefix dropped and the loop again, or the name where none begins it; and what
-- is left begins with no prefix.
pub base_of_loop :
    (s : Str)
    → (base_of s ≡ dropped_or_kept (first_prefix browser_cookie_prefixes s) s) × IsBare (base_of s)
unfolding base_of
base_of_loop s = (turn s, base_from-IsBare (length s) s (omega arith))
  where
    turn :
        (t : Str)
        → base_from (length t) t ≡ dropped_or_kept (first_prefix browser_cookie_prefixes t) t
    turn [] = unfold first_prefix starts_with in refl
    turn (c ∷ t) = elim (first_prefix-cases (c ∷ t)) [
      | inl (none_left, no_secure, no_host) ↦ rw (base_from, none_left) refl
      | inr (p, found, long, starts) ↦
          base_from_step (length t) (c ∷ t) p found
          ∙ (rw found (
              base_from_more (length t) (length (drop (length p) (c ∷ t))) (drop (length p) (c ∷ t))
                (omega (arith, length-drop_prefix p (c ∷ t) starts)) (omega arith)))
    ]

base_of-prefixed :
    (p t : Str)
    → 1 ≤ length p
    → first_prefix browser_cookie_prefixes (p ++ t) ≡ some p
    → base_of (p ++ t) ≡ base_of t
unfolding base_of
base_of-prefixed [] t h k = absurd (omega arith)
base_of-prefixed (c ∷ p) t h k =
    base_from_step (length (p ++ t)) ((c ∷ p) ++ t) (c ∷ p) k
    ∙ (rw (drop-append (c ∷ p) t) (
        base_from_more (length (p ++ t)) (length t) t (omega (arith, length-append p t))
          (omega arith)))

prefix_solid : (n : Str) → starts_solid (cookie_prefix ++ n) ≡ true
unfolding starts_solid is_space
prefix_solid n = refl

cookie_prefixed : (n : Str) → starts_with cookie_prefix (casefold (cookie_prefix ++ n)) ≡ true
unfolding casefold starts_with
cookie_prefixed n = refl

cookie_named_solid :
    (c : ℕ) (n : Str)
    → starts_solid (c ∷ n) ≡ true
    → ends_solid (c ∷ n) ≡ true
    → cookie_named (cookie_source (c ∷ n)) ≡ some (c ∷ n)
unfolding cookie_named cookie_source or_none is_space
cookie_named_solid c n h k =
    rw
      (
        strip_solid (cookie_prefix ++ (c ∷ n)) (prefix_solid (c ∷ n))
            (ends_solid-append 58 (lit "cookie") (c ∷ n) k refl),
        cookie_prefixed (c ∷ n),
        strip_solid (c ∷ n) h k,
      )
      refl

collision_key_solid :
    (n : Str)
    → n ≢ []
    → starts_solid n ≡ true
    → ends_solid n ≡ true
    → collision_key (cookie_source n) ≡ cookie_source (base_of (casefold n))
unfolding collision_key
collision_key_solid [] e h k = absurd (e refl)
collision_key_solid (c ∷ n) e h k = rw (collision_key, cookie_named_solid c n h k) refl

module _ (n : Str) (named : n ≢ []) (starts : starts_solid n ≡ true)
    (ends : ends_solid n ≡ true) where
  base_of_secure : base_of (casefold (lit "__Secure-" ++ n)) ≡ base_of (casefold n)
  unfolding casefold first_prefix starts_with
  base_of_secure = base_of-prefixed (lit "__secure-") (casefold n) (omega arith) refl

  base_of_host : base_of (casefold (lit "__Host-" ++ n)) ≡ base_of (casefold n)
  unfolding casefold first_prefix starts_with
  base_of_host = base_of-prefixed (lit "__host-") (casefold n) (omega arith) refl

  -- A cookie's name and its __Secure- and __Host- forms have one key, in which no such prefix is
  -- left, so verifiers on any two of them collide. The name is not empty and does not begin or end
  -- with whitespace.
  pub collision_key-prefixed :
      (collision_key (cookie_source (lit "__Secure-" ++ n)) ≡ collision_key (cookie_source n))
      × (collision_key (cookie_source (lit "__Host-" ++ n)) ≡ collision_key (cookie_source n))
      × (base : Str) × (collision_key (cookie_source n) ≡ cookie_source base)
      × IsBare base
  unfolding base_of starts_solid is_space
  collision_key-prefixed = (
    collision_key_solid (lit "__Secure-" ++ n) (λ e. cc) refl
          (ends_solid-append 45 (lit "__Secure") n ends refl)
        ∙ (ap cookie_source base_of_secure ∙ sym (collision_key_solid n named starts ends)),
    collision_key_solid (lit "__Host-" ++ n) (λ e. cc) refl
          (ends_solid-append 45 (lit "__Host") n ends refl)
        ∙ (ap cookie_source base_of_host ∙ sym (collision_key_solid n named starts ends)),
    base_of (casefold n),
    collision_key_solid n named starts ends,
    base_from-IsBare (length (casefold n)) (casefold n) (omega arith),
  )
