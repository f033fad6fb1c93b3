-- ===== src/Jwks/Reach.antt =====
-- jwks.py: the states of the client, over any sequence of calls.
use fastapi_better_auth.Base.{
  ℕ, ◌+◌, ◌≤◌, ◌≡◌, ◌⊎◌, Bool, ◌&&◌, Option, none, some, List, arith, leb, length, All, Bool-cases,
  Option-cases, inl, inr,
}
use fastapi_better_auth.Text.{Str}
use fastapi_better_auth.Errors.{Raised, Result, ok, raise, Result-cases}
use fastapi_better_auth.Exec.{after}
use fastapi_better_auth.Jwks.Parse.{Response, Jwk, Library, lookup, fetched}
use fastapi_better_auth.Jwks.Parse.Usable.{IsVerifying, parsed-IsVerifying}
use fastapi_better_auth.Jwks.{
  Config, Client, new_client, Times, get, evict, keys_of, on_hand, is_some, fresh_hit, is_fresh,
  may_fetch, answer, remember, is_remembered, failed, refresh, recalled, locked, key_for,
}
use fastapi_better_auth.Jwks.Misses.{evict-All, assign-All, delete-All, get-All, lookup-All}

module _ (config : Config) {Key : Type 0} (library : Library Key) (cancelled : Raised → Bool) where
  abbrev pub on_client : Client Key → List (Str × Jwk Key)
  on_client c = keys_of config c.keys

  -- A well-formed client: every key on hand may verify a signature, no remembered miss is on hand,
  -- and at most 256 are remembered.
  pub record IsSound (c : Client Key) : Type 0 where
    pub verifying : All (IsVerifying library config.algorithms) (on_client c)
    pub absent : All (λ m. lookup m.0 (on_client c) ≡ none) c.missing
    pub few : length c.missing ≤ 256

  -- A right answer of a client to a kid: a key of that kid that may verify a signature, or none
  -- where the set on hand has no such kid.
  abbrev pub IsRight : Str → Client Key → Option (Jwk Key) → Type 0
  IsRight kid c none = lookup kid (on_client c) ≡ none
  IsRight kid c (some jwk) = IsVerifying library config.algorithms (kid, jwk)

  -- ... of a method: the next state is well-formed, and what was returned is right in it
  abbrev IsFine : Str → Result (Option (Jwk Key)) × Client Key → Type 0
  IsFine kid p = IsSound p.1 × ((a : Option (Jwk Key)) → p.0 ≡ ok a → IsRight kid p.1 a)

  found-IsRight :
      (kid : Str) (jwk : Jwk Key) (c : Client Key)
      → IsSound c
      → on_hand config kid c ≡ some jwk
      → IsRight kid c (some jwk)
  unfolding on_hand
  found-IsRight kid jwk c s e =
      lookup-All (IsVerifying library config.algorithms) kid jwk (on_client c) e s.verifying

  some_right :
      (kid : Str) (jwk : Jwk Key) (c : Client Key)
      → IsSound c
      → IsRight kid c (some jwk)
      → IsFine kid (ok (some jwk), c)
  some_right kid jwk c s r = (s, λ a e. let same : some jwk ≡ a = cc in rw (← same) r)

  none_right :
      (kid : Str) (c : Client Key) → IsSound c → IsRight kid c none → IsFine kid (ok none, c)
  none_right kid c s r = (s, λ a e. let same : none ≡ a = cc in rw (← same) r)

  raise_right : (kid : Str) (x : Raised) (c : Client Key) → IsSound c → IsFine kid (raise x, c)
  raise_right kid x c s = (s, λ a e. absurd (cc))

  remember-IsSound :
      (now : ℕ) (kid : Str) (c : Client Key)
      → IsSound c
      → lookup kid (on_client c) ≡ none
      → IsSound (remember config now kid c)
  unfolding remember
  remember-IsSound now kid c s e =
      let P : Str × ℕ → Type 0 = λ m. lookup m.0 (on_client c) ≡ none in
      let (kept, room) = evict-All P c.missing s.absent in
      let (more, fits) = assign-All P kid now (evict c.missing) (λ at. e) kept in
      record { verifying = s.verifying; absent = more; few = omega arith }

  answer-IsFine :
      (t : Times) (kid : Str) (c : Client Key) → IsSound c → IsFine kid (answer config t kid c)
  unfolding answer on_hand
  answer-IsFine t kid c s = elim (Option-cases (on_hand config kid c)) [
    | inr (jwk, found) ↦
        rw (answer, found) (some_right kid jwk c s (found-IsRight kid jwk c s found))
    | inl absent ↦ elim (Bool-cases (is_some config c.keys && is_fresh config t.answered c)) [
      | inl fresh ↦
          rw (answer, absent, fresh)
            (none_right kid _ (remember-IsSound t.noted kid c s absent) (unfold remember in absent))
      | inr stale ↦ rw (answer, absent, stale) (raise_right kid _ c s)
    ]
  ]

  fetched-IsVerifying :
      (r : Result Response) (keys : List (Str × Jwk Key))
      → fetched library config.algorithms config.max_keys r ≡ ok keys
      → All (IsVerifying library config.algorithms) keys
  unfolding fetched
  fetched-IsVerifying (ok r) keys h =
      (parsed-IsVerifying library config.algorithms config.max_keys r keys h).0
  fetched-IsVerifying (raise e) keys h = absurd (ground arith)

  restamped :
      (at : Option ℕ) (c : Client Key) → IsSound c → IsSound (record c { attempted_at = at })
  restamped at c s = record { verifying = s.verifying; absent = s.absent; few = s.few }

  failed_client :
      (e : Raised) (previous c : Client Key)
      → ((failed config library cancelled e previous c).1 ≡ c)
        ⊎ ((failed config library cancelled e previous c).1
            ≡ record c { attempted_at = previous.attempted_at })
  unfolding failed
  failed_client e previous c = ground arith

  refresh-IsSound :
      (t : Times) (r : Result Response) (c : Client Key)
      → IsSound c
      → IsSound (refresh config library cancelled t r c).1
  unfolding refresh keys_of
  refresh-IsSound t r c s =
      elim (Result-cases (fetched library config.algorithms config.max_keys r)) [
        | inl (keys, fine) ↦
            rw (refresh, fine)
              (record {
                verifying = fetched-IsVerifying r keys fine;
                absent = tt;
                few = omega arith;
              })
        | inr (e, bad) ↦ elim (failed_client e c (record c { attempted_at = some t.started })) [
          | inl kept ↦ rw (refresh, bad) (rw kept (restamped (some t.started) c s))
          | inr rolled ↦ rw (refresh, bad) (rw rolled (restamped c.attempted_at c s))
        ]
      ]

  recalled-IsFine :
      (t : Times) (kid : Str) (c : Client Key)
      → IsSound c
      → IsFine kid (recalled config library cancelled t kid (is_remembered config t.recalled kid c))
  unfolding recalled is_remembered
  recalled-IsFine t kid c s = elim (Option-cases (get kid c.missing)) [
    | inl new ↦ rw (is_remembered, new) (answer-IsFine t kid c s)
    | inr (at, noted) ↦ elim (Bool-cases (leb (at + config.negative_ttl) t.recalled)) [
      | inr standing ↦
          rw (is_remembered, noted, standing)
            (none_right kid c s
              (get-All (λ m. lookup m.0 (on_client c) ≡ none) kid at c.missing noted s.absent))
      | inl lapsed ↦
          let (kept, fits) =
            delete-All (λ m. lookup m.0 (on_client c) ≡ none) kid c.missing s.absent in
          rw (is_remembered, noted, lapsed)
            (answer-IsFine t kid _
              (record { verifying = s.verifying; absent = kept; few = omega (arith, s.few) }))
    ]
  ]

  hit-IsRight :
      (now : ℕ) (kid : Str) (jwk : Jwk Key) (c : Client Key)
      → IsSound c
      → fresh_hit config now kid c ≡ some jwk
      → IsRight kid c (some jwk)
  unfolding fresh_hit
  hit-IsRight now kid jwk c s h = elim (Bool-cases (is_fresh config now c)) [
    | inl fresh ↦ found-IsRight kid jwk c s (rw fresh at h)
    | inr stale ↦ absurd (cc (rw stale at h))
  ]

  pub new_client-IsSound : IsSound new_client
  unfolding keys_of
  new_client-IsSound = record { verifying = tt; absent = tt; few = omega arith }

  locked-IsFine :
      (t : Times) (kid : Str) (r : Result Response) (c : Client Key)
      → IsSound c
      → IsFine kid (locked config library cancelled t kid r c)
  unfolding locked fresh_hit
  locked-IsFine t kid r c s = elim (Option-cases (fresh_hit config t.inside kid c)) [
    | inr (jwk, hit) ↦
        rw (locked, hit) (some_right kid jwk c s (hit-IsRight t.inside kid jwk c s hit))
    | inl missed ↦ elim (Bool-cases (may_fetch config t.window c)) [
      | inl opened ↦
          rw (locked, missed, opened)
            (ended (refresh config library cancelled t r c) (refresh-IsSound t r c s))
      | inr shut ↦ rw (locked, missed, shut) (recalled-IsFine t kid c s)
    ]
  ]
    where
      ended :
          (p : Result (Unit {0}) × Client Key)
          → IsSound p.1
          → IsFine kid (after p.0 (λ _. answer config t kid) p.1)
      ended (ok u, d) q = answer-IsFine t kid d q
      ended (raise x, d) q = raise_right kid x d q

  -- From a well-formed client, whatever the clock reads and the transport does, `key_for` leaves a
  -- well-formed client, and returns either a key of the asked kid that may verify a signature, or none
  -- where the key set on hand has no such kid. In particular at most 256 misses are remembered.
  pub key_for-IsSound :
      (t : Times) (kid : Str) (r : Result Response) (c : Client Key)
      → IsSound c
      → IsSound (key_for config library cancelled t kid r c).1
        × ((a : Option (Jwk Key))
            → (key_for config library cancelled t kid r c).0 ≡ ok a
            → IsRight kid (key_for config library cancelled t kid r c).1 a)
  unfolding key_for
  key_for-IsSound t kid r c s = elim (Option-cases (fresh_hit config t.outside kid c)) [
    | inr (jwk, hit) ↦
        rw (key_for, hit) (some_right kid jwk c s (hit-IsRight t.outside kid jwk c s hit))
    | inl missed ↦ rw (key_for, missed) (locked-IsFine t kid r c s)
  ]
