-- ===== src/Urls/Laws.antt =====
-- urls.py: what a canonical origin is.
use fastapi_better_auth.Base.{
  ℕ, ◌≤◌, ◌≡◌, ◌≢◌, refl, sym, ap, ◌∙◌, ◌⊎◌, inl, inr, Bool, true, false, not, ◌||◌, ◌&&◌, Option,
  none, some, [], ◌∷◌, ◌++◌, arith, Bool-cases, length, ◌==◌, ltb, leb,
}
use fastapi_better_auth.Text.{Str, lit, str_eq, contains, decimal, is_digits, is_ascii, to_int}
use fastapi_better_auth.Text.Laws.{str_eq_iff}
use fastapi_better_auth.Errors.{ok, refuse_if, refuse_if-ok, ok_of, bind-eq-ok, ◌>>=◌}
use fastapi_better_auth.Urls.Split.{SplitResult, hostname, has_userinfo, port, port_of, host_info}
use fastapi_better_auth.Urls.{
  Address, as_text, split, scheme, canonical_host, ip_literal, literal_of, bracketed, named_host,
  plain_host, remove_dot, is_hostname, max_host_length, default_port, port_suffix, port_text,
  reject_extras, normalize_base_url,
}

-- A canonical port: none where it is the scheme's own.
pub data IsPort (standard : ℕ) (text : Str) : Type 0 where
  omitted : text ≡ [] → IsPort standard text
  written :
      (n : ℕ) → text ≡ b':' ∷ decimal n → n ≢ standard → n ≢ 0 → n ≤ 65535 → IsPort standard text

-- A canonical host, and whether it is a loopback host.
pub data IsHost (ip_address : Str → Option Address) (host : Str) (loopback : Bool) : Type 0 where
  named :
      is_hostname host ≡ true
      → length host ≤ 253
      → ip_address host ≡ none
      → loopback ≡ str_eq host (lit "localhost")
      → IsHost ip_address host loopback
  ipv4 :
      (text : Str) (a : Address)
      → contains b':' text ≡ false
      → ip_address text ≡ some a
      → host ≡ a.compressed
      → loopback ≡ a.is_loopback
      → IsHost ip_address host loopback
  ipv6 :
      (text : Str) (a : Address)
      → contains b':' text ≡ true
      → contains b'%' text ≡ false
      → ip_address text ≡ some a
      → a.is_mapped ≡ false
      → host ≡ b'[' ∷ (a.compressed ++ (b']' ∷ []))
      → loopback ≡ a.is_loopback
      → IsHost ip_address host loopback

-- A canonical origin. Cleartext is for a loopback host only.
pub record IsOrigin (ip_address : Str → Option Address) (origin : Str) : Type 0 where
  pub scheme : Str
  pub host : Str
  pub port : Str
  pub loopback : Bool
  pub parts : origin ≡ scheme ++ (lit "://" ++ (host ++ port))
  pub has_scheme : (scheme ≡ lit "https") ⊎ ((scheme ≡ lit "http") × (loopback ≡ true))
  pub has_host : IsHost ip_address host loopback
  pub has_port : IsPort (default_port scheme) port

scheme_sound : (s : SplitResult) (t : Str) → scheme s ≡ ok t → (t ≡ lit "https") ⊎ (t ≡ lit "http")
unfolding scheme
scheme_sound s t h =
    let (_, filled, h₁) = bind-eq-ok (refuse_if (str_eq s.scheme []) _) _ h in
    let (_, known, h₂) =
      bind-eq-ok (refuse_if (not (str_eq s.scheme (lit "https") || str_eq s.scheme (lit "http"))) _)
        _ h₁ in
    let listed = refuse_if-ok _ _ known in
    elim (Bool-cases (str_eq s.scheme (lit "https"))) [
      | inl https ↦ inl (sym (ok_of h₂) ∙ (str_eq_iff s.scheme (lit "https")).0 https)
      | inr other ↦
          inr
            (sym (ok_of h₂) ∙ (str_eq_iff s.scheme (lit "http")).0 (ground (arith, listed, other)))
    ]

port_range : (text : Str) (n : ℕ) → port_of text ≡ some (some n) → n ≤ 65535
unfolding port_of
port_range [] n h = absurd (cc)
port_range (c ∷ s) n h = elim (Bool-cases (is_digits (c ∷ s) && leb (to_int (c ∷ s)) 65535)) [
  | inr bad ↦ absurd (cc (rw bad at h))
  | inl fine ↦
      let e : to_int (c ∷ s) ≡ n = cc (rw fine at h) in
      let small : leb (to_int (c ∷ s)) 65535 ≡ true = ground arith in
      rw (← e) (ground (arith, small))
]

port_suffix-IsPort :
    (standard n : ℕ) (text : Str)
    → port_suffix standard (some (some n)) ≡ ok text
    → n ≤ 65535
    → IsPort standard text
unfolding port_suffix
port_suffix-IsPort standard n text h small = elim (Bool-cases (n == standard)) [
  | inl own ↦ IsPort.omitted (sym (ok_of (rw own at h)))
  | inr other ↦ elim (Bool-cases (n == 0)) [
    | inl zero_ ↦ absurd (cc (rw (other, zero_) at h))
    | inr positive ↦
        IsPort.written n (sym (ok_of (rw (other, positive) at h)))
          (λ e. absurd (ground (arith, other, e))) (λ e. absurd (ground (arith, positive, e))) small
  ]
]

port_text-IsPort :
    (s : SplitResult) (t text : Str) → port_text s t ≡ ok text → IsPort (default_port t) text
unfolding port_text
port_text-IsPort s t text h = go (port s) refl h
  where
    go :
        (p : Option (Option ℕ))
        → port s ≡ p
        → port_suffix (default_port t) p ≡ ok text
        → IsPort (default_port t) text
    go none e k = absurd (unfold port_suffix in cc)
    go (some none) e k = IsPort.omitted (sym (ok_of (unfold port_suffix in k)))
    go (some (some n)) e k =
        port_suffix-IsPort (default_port t) n text k
          (port_range (host_info s.netloc).1 n (unfold port in e))

contains-remove_dot : (c : ℕ) (s : Str) → contains c s ≡ false → contains c (remove_dot s) ≡ false
unfolding contains remove_dot
contains-remove_dot c [] h = refl
contains-remove_dot c (a ∷ []) h = elim (Bool-cases (a == b'.')) [
  | inl dot ↦ rw dot refl
  | inr other ↦ rw other h
]
contains-remove_dot c (a ∷ b ∷ s) h = ground (arith, contains-remove_dot c (b ∷ s), h)

module _ (accepts_netloc : Str → Bool) (ip_address : Str → Option Address) where
  name_sound :
      (name host : Str) (loopback : Bool) (o : Option Address)
      → contains b':' name ≡ false
      → ip_address name ≡ o
      → named_host accepts_netloc ip_address name o ≡ ok (host, loopback)
      → IsHost ip_address host loopback
  unfolding named_host
  name_sound name host loopback (some a) free e h =
      let k : (a.compressed, a.is_loopback) ≡ (host, loopback) = ok_of h in
      IsHost.ipv4 name a free e (ap (λ p. p.0) (sym k)) (ap (λ p. p.1) (sym k))
  name_sound name host loopback none free e h =
      let (_, fine, h₁) =
        bind-eq-ok (refuse_if (not (is_hostname name) || ltb max_host_length (length name)) _) _
          h in
      let passes = refuse_if-ok _ _ fine in
      let matches : is_hostname name ≡ true = ground (arith, passes) in
      let short : length name ≤ 253 = ground (arith, passes) in
      let k : (name, str_eq name (lit "localhost")) ≡ (host, loopback) = ok_of h₁ in
      let same : name ≡ host = ap (λ p. p.0) k in
      IsHost.named (ap is_hostname (sym same) ∙ matches) (rw (← same) short)
        (ap ip_address (sym same) ∙ e)
        (ap (λ p. p.1) (sym k) ∙ ap (λ n. str_eq n (lit "localhost")) same)

  literal_sound :
      (raw host : Str) (loopback : Bool)
      → contains b':' raw ≡ true
      → (ip_literal accepts_netloc ip_address raw >>= bracketed accepts_netloc ip_address)
        ≡ ok (host, loopback)
      → IsHost ip_address host loopback
  unfolding ip_literal bracketed
  literal_sound raw host loopback colon h =
      let (a, found, h₁) = bind-eq-ok (ip_literal accepts_netloc ip_address raw) _ h in
      let k = ok_of h₁ in
      let (_, plain, h₂) = bind-eq-ok (refuse_if (contains b'%' raw) _) _ found in
      go a (ip_address raw) (refuse_if-ok _ _ plain) refl h₂ k
    where
      go :
          (a : Address) (o : Option Address)
          → contains b'%' raw ≡ false
          → ip_address raw ≡ o
          → literal_of accepts_netloc ip_address o ≡ ok a
          → ◌≡◌ {A = Str × Bool}
              (b'[' ∷ (a.compressed ++ (b']' ∷ [])), a.is_loopback)
              (host, loopback)
          → IsHost ip_address host loopback
      go a none zoneless e f k = absurd (unfold literal_of in cc)
      go a (some b) zoneless e f k =
          let (_, unmapped, f₁) = bind-eq-ok (refuse_if b.is_mapped _) _ (unfold literal_of in f) in
          let same : b ≡ a = ok_of f₁ in
          IsHost.ipv6 raw a colon zoneless (e ∙ ap some same)
            (ap (λ (x : Address). x.is_mapped) (sym same) ∙ refuse_if-ok _ _ unmapped)
            (ap (λ p. p.0) (sym k)) (ap (λ p. p.1) (sym k))

  canonical_host-IsHost :
      (raw host : Str) (loopback : Bool)
      → canonical_host accepts_netloc ip_address raw ≡ ok (host, loopback)
      → IsHost ip_address host loopback
  unfolding canonical_host plain_host
  canonical_host-IsHost raw host loopback h =
      let (_, filled, h₁) = bind-eq-ok (refuse_if (str_eq raw []) _) _ h in
      elim (Bool-cases (contains b':' raw)) [
        | inl colon ↦ literal_sound raw host loopback colon (rw colon at h₁)
        | inr none_ ↦
            let (_, ascii, h₂) = bind-eq-ok (refuse_if (not (is_ascii raw)) _) _ (rw none_ at h₁) in
            name_sound (remove_dot raw) host loopback (ip_address (remove_dot raw))
              (contains-remove_dot b':' raw none_) refl h₂
      ]

  -- A URL that is accepted is reduced to a canonical origin, and nothing else: https, or http for a
  -- loopback host; a host name of at most 253 characters in lower case or an address in its compressed
  -- form; and a port between 1 and 65535 unless it is the scheme's own. No credentials, path, query or
  -- fragment are left in it.
  pub normalize_base_url-IsOrigin :
      (value : Option Str) (origin : Str)
      → normalize_base_url accepts_netloc ip_address value ≡ ok origin
      → IsOrigin ip_address origin
  unfolding normalize_base_url
  normalize_base_url-IsOrigin value origin h =
      let (text, _, h₁) = bind-eq-ok (as_text value) _ h in
      let (s, _, h₂) = bind-eq-ok (split accepts_netloc ip_address text) _ h₁ in
      let (t, known, h₃) = bind-eq-ok (scheme s) _ h₂ in
      let (_, _, h₄) = bind-eq-ok (refuse_if (has_userinfo s) _) _ h₃ in
      let (host, is_host, h₅) =
        bind-eq-ok (canonical_host accepts_netloc ip_address (hostname s)) _ h₄ in
      let (_, sealed, h₆) = bind-eq-ok (refuse_if (str_eq t (lit "http") && not host.1) _) _ h₅ in
      let (text_, is_port, h₇) = bind-eq-ok (port_text s t) _ h₆ in
      let (_, _, h₈) = bind-eq-ok (reject_extras s) _ h₇ in
      record {
        scheme = t;
        host = host.0;
        port = text_;
        loopback = host.1;
        parts = sym (ok_of h₈);
        has_scheme = elim (scheme_sound s t known) [
          | inl https ↦ inl https
          | inr http ↦ inr (
            http,
            let clear = refuse_if-ok _ _ sealed in
                let e = (str_eq_iff t (lit "http")).1 http in ground (arith, clear, e),
          )
        ];
        has_host = canonical_host-IsHost (hostname s) host.0 host.1 is_host;
        has_port = port_text-IsPort s t text_ is_port;
      }
