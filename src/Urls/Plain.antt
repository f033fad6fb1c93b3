-- ===== src/Urls/Plain.antt =====
-- urls.py: a canonical origin is plain text, as the comparisons of origins in csrf.py want it.
use fastapi_better_auth.Text.{
  Str, lit, is_ascii, contains, split_on, cons_head, decimal, decimal_from,
}
use fastapi_better_auth.Csrf.Origin.{IsPlain}
use fastapi_better_auth.Urls.{Address, is_label, is_hostname, is_host_char}
use fastapi_better_auth.Urls.Laws.{IsHost, IsPort, IsOrigin}
use fastapi_better_auth.Base.{
  all, ◌<◌, ◌≡◌, ◌++◌, List, ℕ, true, ◌∷◌, ◌==◌, suc, false, arith, Bool-cases, [], ltb, inl, refl,
  ◌+◌, inr, ◌/◌, ◌%◌, Option, zero, some, Bool,
}

append-IsPlain : (s t : Str) → IsPlain s → IsPlain t → IsPlain (s ++ t)
unfolding is_ascii contains
append-IsPlain [] t h k = k
append-IsPlain (c ∷ s) t (a, b) k =
    let (x, y) = append-IsPlain s t (ground (arith, a), ground (arith, b)) k in
    (ground (arith, x, a), ground (arith, y, b))

cons-IsPlain : (c : ℕ) (s : Str) → c < 128 → (c == 63) ≡ false → IsPlain s → IsPlain (c ∷ s)
unfolding is_ascii contains
cons-IsPlain c s h k (a, b) = (ground (arith, a), ground (arith, b))

host_char-IsPlain : (c : ℕ) (s : Str) → is_host_char c ≡ true → IsPlain s → IsPlain (c ∷ s)
unfolding is_host_char
host_char-IsPlain c s h k = cons-IsPlain c s (ground (arith, h)) (ground (arith, h)) k

labels-IsPlain : (s : Str) → all (λ w. all is_host_char w) (split_on b'.' s) ≡ true → IsPlain s
unfolding split_on
labels-IsPlain [] h = unfold is_ascii contains in (refl, refl)
labels-IsPlain (c ∷ s) h = elim (Bool-cases (c == b'.')) [
  | inl dot ↦
      cons-IsPlain c s (ground (arith, dot)) (ground (arith, dot)) (labels-IsPlain s (rw dot at h))
  | inr other ↦
      let (first, rest) = headed (split_on b'.' s) (rw other at h) in
      host_char-IsPlain c s first (labels-IsPlain s rest)
]
  where
    headed :
        (ws : List Str)
        → all (λ w. all is_host_char w) (cons_head c ws) ≡ true
        → (is_host_char c ≡ true) × (all (λ w. all is_host_char w) ws ≡ true)
    headed [] k = unfold cons_head in (ground (arith, k), refl)
    headed (w ∷ ws) k = unfold cons_head in (ground (arith, k), ground (arith, k))

label_chars : (ws : List Str) → all is_label ws ≡ true → all (λ w. all is_host_char w) ws ≡ true
unfolding is_label
label_chars [] h = refl
label_chars ([] ∷ ws) h = absurd (ground (arith, h))
label_chars ((c ∷ w) ∷ ws) h = let k = label_chars ws (ground (arith, h)) in ground (arith, h, k)

decimal_from-IsPlain : (f n : ℕ) (acc : Str) → IsPlain acc → IsPlain (decimal_from f n acc)
unfolding decimal_from
decimal_from-IsPlain zero n acc h = h
decimal_from-IsPlain (suc f) n acc h = elim (Bool-cases (ltb n 10)) [
  | inl one ↦ rw one (cons-IsPlain (48 + n) acc (ground (arith, one)) (ground (arith, one)) h)
  | inr more ↦ rw more (
      decimal_from-IsPlain f (n / 10) ((48 + n % 10) ∷ acc)
        (cons-IsPlain (48 + n % 10) acc (ground arith) (ground arith) h))
]

decimal-IsPlain : (n : ℕ) → IsPlain (decimal n)
unfolding decimal is_ascii contains
decimal-IsPlain n = decimal_from-IsPlain (suc n) n [] (refl, refl)

port-IsPlain : (standard : ℕ) (text : Str) → IsPort standard text → IsPlain text
unfolding is_ascii contains
port-IsPlain standard text (IsPort.omitted e) = rw e (refl, refl)
port-IsPlain standard text (IsPort.written n e other positive small) =
    rw e (cons-IsPlain b':' (decimal n) (omega arith) refl (decimal-IsPlain n))

module _ (ip_address : Str → Option Address)
    (addresses : (text : Str) (a : Address) → ip_address text ≡ some a → IsPlain a.compressed) where
  host-IsPlain : (host : Str) (loopback : Bool) → IsHost ip_address host loopback → IsPlain host
  unfolding is_hostname
  host-IsPlain host loopback (IsHost.named h short unknown e) =
      labels-IsPlain host (label_chars (split_on b'.' host) h)
  host-IsPlain host loopback (IsHost.ipv4 text a free e same k) = rw same (addresses text a e)
  host-IsPlain host loopback (IsHost.ipv6 text a colon zoneless e unmapped same k) = rw same (
      cons-IsPlain b'[' (a.compressed ++ (b']' ∷ [])) (omega arith) refl (
        append-IsPlain a.compressed (b']' ∷ []) (addresses text a e)
          (unfold is_ascii contains in (refl, refl))))

  -- a canonical origin
  pub origin-IsPlain : (origin : Str) → IsOrigin ip_address origin → IsPlain origin
  origin-IsPlain origin o = rw o.parts (
      append-IsPlain o.scheme (lit "://" ++ (o.host ++ o.port)) scheme_plain (
        append-IsPlain (lit "://") (o.host ++ o.port) (unfold is_ascii contains in (refl, refl)) (
          append-IsPlain o.host o.port (host-IsPlain o.host o.loopback o.has_host)
            (port-IsPlain _ o.port o.has_port))))
    where
      scheme_plain : IsPlain o.scheme
      scheme_plain = elim o.has_scheme [
        | inl https ↦ rw https (unfold is_ascii contains in (refl, refl))
        | inr (http, loopback) ↦ rw http (unfold is_ascii contains in (refl, refl))
      ]
