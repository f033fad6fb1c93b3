-- ===== src/Urls/Idempotent.antt =====
-- urls.py: normalizing a canonical origin again.
use fastapi_better_auth.Base.{
  ℕ, ◌≡◌, ◌≢◌, refl, ap, ◌∙◌, ◌⊎◌, Bool, true, false, not, ◌&&◌, Option, some, [], ◌∷◌, ◌++◌,
  append_assoc, arith, inl, inr, all, length, ltb,
}
use fastapi_better_auth.Text.{Str, lit, str_eq, contains, is_space}
use fastapi_better_auth.Text.Laws.{rpartition_free}
use fastapi_better_auth.Errors.{ok}
use fastapi_better_auth.Urls.{
  Address, as_text, split, scheme, canonical_host, ip_literal, literal_of, bracketed, named_host,
  plain_host, default_port, port_text, reject_extras, checked_split, unusable_port,
  normalize_base_url, is_control,
}
use fastapi_better_auth.Urls.Split.{has_userinfo, port}
use fastapi_better_auth.Urls.Laws.{IsPort, IsHost, normalize_base_url-IsOrigin}
use fastapi_better_auth.Urls.Netloc.{
  is_plain_char, is_calm, all-append, calm_plain, strip_calm, uncontrolled, contains_plain,
  is_ascii_plain, IsBare, hostname-IsBare,
}
use fastapi_better_auth.Urls.Authority.{
  IsPortRead, port-IsPortRead, IsAuthority, bare-IsAuthority, bracketed-IsAuthority,
  hostname-IsAuthority, origin_split, urlsplit_origin,
}

str_eq_filled : (s : Str) → s ≢ [] → str_eq s [] ≡ false
unfolding str_eq
str_eq_filled [] k = absurd (k refl)
str_eq_filled (c ∷ s) k = refl

divided_filled : (c : ℕ) (s : Str) → contains c s ≡ true → str_eq s [] ≡ false
unfolding contains str_eq
divided_filled c [] h = absurd (cc)
divided_filled c (a ∷ s) h = refl

bracketed_calm :
    (inner port : Str)
    → all is_plain_char inner ≡ true
    → all is_plain_char port ≡ true
    → all is_calm (b'[' ∷ (inner ++ (b']' ∷ port))) ≡ true
unfolding is_calm is_control is_space
bracketed_calm inner port h k =
    all-append is_calm inner (b']' ∷ port) (calm_plain inner h) (calm_plain port k)

module _ (accepts_netloc : Str → Bool) (ip_address : Str → Option Address) where
  -- What the standard library does: it reads an address that it rendered as that address, renders one
  -- without a ":" as a bare text and one with a ":" in hexadecimal digits and ":", and takes an ASCII
  -- authority and one of a bracketed address and a port.
  pub record IsLibrary : Type 0 where
    pub ipv4 :
        (text : Str) (a : Address)
        → contains b':' text ≡ false
        → ip_address text ≡ some a
        → IsBare a.compressed × (ip_address a.compressed ≡ some a)
    pub ipv6 :
        (text : Str) (a : Address)
        → contains b':' text ≡ true
        → contains b'%' text ≡ false
        → ip_address text ≡ some a
        → (all is_plain_char a.compressed ≡ true)
          × (contains b':' a.compressed ≡ true)
          × (ip_address a.compressed ≡ some a)
    pub takes_plain :
        (netloc : Str) → all is_plain_char netloc ≡ true → accepts_netloc netloc ≡ true
    pub takes_bracketed :
        (text : Str) (a : Address) (standard : ℕ) (port : Str)
        → contains b':' text ≡ true
        → contains b'%' text ≡ false
        → ip_address text ≡ some a
        → IsPort standard port
        → accepts_netloc (b'[' ∷ (a.compressed ++ (b']' ∷ port))) ≡ true

  -- A host and a port, as an authority that is read back.
  record IsReadBack (host port : Str) (loopback : Bool) (digits : Str) : Type 0 where
    raw : Str
    reads : IsAuthority (host ++ port) raw digits
    accepted : accepts_netloc (host ++ port) ≡ true
    calm : all is_calm (host ++ port) ≡ true
    canonical : canonical_host accepts_netloc ip_address raw ≡ ok (host, loopback)

  bare_host :
      (host : Str) (loopback : Bool)
      → IsBare host
      → named_host accepts_netloc ip_address host (ip_address host) ≡ ok (host, loopback)
      → canonical_host accepts_netloc ip_address host ≡ ok (host, loopback)
  unfolding canonical_host plain_host
  bare_host host loopback b h =
      rw (str_eq_filled host b.filled, b.undivided, is_ascii_plain host b.chars, b.undotted) h

  bare_back :
      (standard : ℕ) (host port : Str) (loopback : Bool) (r : IsPortRead standard port)
      → IsLibrary
      → IsBare host
      → named_host accepts_netloc ip_address host (ip_address host) ≡ ok (host, loopback)
      → IsReadBack host port loopback r.digits
  bare_back standard host port loopback r library b h =
      let chars = all-append is_plain_char host port b.chars r.chars in
      record {
        raw = host;
        reads = bare-IsAuthority host standard port r b;
        accepted = library.takes_plain (host ++ port) chars;
        calm = calm_plain (host ++ port) chars;
        canonical = bare_host host loopback b h;
      }

  bracketed_back :
      (standard : ℕ) (text port : Str) (a : Address) (r : IsPortRead standard port)
      → IsLibrary
      → contains b':' text ≡ true
      → contains b'%' text ≡ false
      → ip_address text ≡ some a
      → a.is_mapped ≡ false
      → IsPort standard port
      → IsReadBack (b'[' ∷ (a.compressed ++ (b']' ∷ []))) port a.is_loopback r.digits
  unfolding canonical_host ip_literal literal_of bracketed
  bracketed_back standard text port a r library colon zoneless known unmapped p =
      let (chars, divided, same) = library.ipv6 text a colon zoneless known in
      let apart : (b'[' ∷ (a.compressed ++ (b']' ∷ []))) ++ port
          ≡ b'[' ∷ (a.compressed ++ (b']' ∷ port)) =
        ap (λ l. b'[' ∷ l) (append_assoc a.compressed (b']' ∷ []) port) in
      record {
        raw = a.compressed;
        reads = rw apart (bracketed-IsAuthority a.compressed standard port r chars);
        accepted = rw apart (library.takes_bracketed text a standard port colon zoneless known p);
        calm = ap (all is_calm) apart ∙ bracketed_calm a.compressed port chars r.chars;
        canonical =
            let zone = contains_plain b'%' a.compressed (unfold is_plain_char in refl) chars in
            rw (divided_filled b':' a.compressed divided, divided, zone, same, unmapped) refl;
      }

  host_back :
      (standard : ℕ) (host port : Str) (loopback : Bool) (r : IsPortRead standard port)
      → IsLibrary
      → IsHost ip_address host loopback
      → IsPort standard port
      → IsReadBack host port loopback r.digits
  unfolding named_host
  host_back standard host port loopback r library (IsHost.named h short unknown e) p =
      bare_back standard host port loopback r library (hostname-IsBare host h) (
        let fits : ltb 253 (length host) ≡ false = ground (arith, short) in
        rw (unknown, h, fits, e) refl)
  host_back standard host port loopback r library (IsHost.ipv4 text a free known same e) p =
      let (b, again) = library.ipv4 text a free known in
      bare_back standard host port loopback r library (rw same b) (rw (same, again, e) refl)
  host_back standard host port loopback r library
        (IsHost.ipv6 text a colon zoneless known unmapped same e) p =
      rw (same, e) (bracketed_back standard text port a r library colon zoneless known unmapped p)

  module _ (t netloc raw digits : Str) (known : (t ≡ lit "https") ⊎ (t ≡ lit "http"))
      (i : IsAuthority netloc raw digits) (calm : all is_calm netloc ≡ true) where
    as_text_again : as_text (some (t ++ (lit "://" ++ netloc))) ≡ ok (t ++ (lit "://" ++ netloc))
    unfolding as_text
    as_text_again = rw (strip_calm _ quiet, uncontrolled _ quiet) refl
      where
        begins : all is_calm t ≡ true
        begins = elim known [
          | inl e ↦ rw e (unfold is_calm is_control is_space in refl)
          | inr e ↦ rw e (unfold is_calm is_control is_space in refl)
        ]

        quiet : all is_calm (t ++ (lit "://" ++ netloc)) ≡ true
        quiet =
            all-append is_calm t (lit "://" ++ netloc) begins
              (unfold is_calm is_control is_space in calm)

    port_again :
        (standard : ℕ) (text : Str) (r : IsPortRead standard text)
        → r.digits ≡ digits
        → port (origin_split t netloc) ≡ some r.value
    unfolding port
    port_again standard text r e = rw (i.info, ← e) r.reads

    port_text_again :
        (text : Str) (r : IsPortRead (default_port t) text)
        → r.digits ≡ digits
        → port_text (origin_split t netloc) t ≡ ok text
    unfolding port_text
    port_text_again text r e = rw (port_again (default_port t) text r e) r.renders

    scheme_again : scheme (origin_split t netloc) ≡ ok t
    unfolding scheme str_eq
    scheme_again = elim known [ inl e ↦ rw e refl | inr e ↦ rw e refl ]

    no_userinfo : has_userinfo (origin_split t netloc) ≡ false
    unfolding has_userinfo
    no_userinfo = ap (λ p. p.found) (rpartition_free b'@' netloc i.anonymous)

  renormalized :
      (t host port_ : Str) (loopback : Bool) (r : IsPortRead (default_port t) port_)
      → (t ≡ lit "https") ⊎ (t ≡ lit "http")
      → (str_eq t (lit "http") && not loopback) ≡ false
      → IsReadBack host port_ loopback r.digits
      → normalize_base_url accepts_netloc ip_address (some (t ++ (lit "://" ++ (host ++ port_))))
        ≡ ok (t ++ (lit "://" ++ (host ++ port_)))
  unfolding normalize_base_url split checked_split unusable_port reject_extras str_eq
  renormalized t host port_ loopback r known sealed b =
      let read =
        port_again t (host ++ port_) b.raw r.digits known b.reads b.calm (default_port t) port_ r
          refl in
      rw
        (
          as_text_again t (host ++ port_) b.raw r.digits known b.reads b.calm,
          urlsplit_origin accepts_netloc t (host ++ port_) b.raw r.digits known b.reads b.accepted,
          read,
          scheme_again t (host ++ port_) b.raw r.digits known b.reads b.calm,
          no_userinfo t (host ++ port_) b.raw r.digits known b.reads b.calm,
          hostname-IsAuthority (origin_split t (host ++ port_)) b.raw r.digits b.reads,
          b.canonical,
          sealed,
          port_text_again t (host ++ port_) b.raw r.digits known b.reads b.calm port_ r refl,
        )
        refl

  sealed_of :
      (t : Str) (loopback : Bool)
      → (t ≡ lit "https") ⊎ ((t ≡ lit "http") × (loopback ≡ true))
      → (str_eq t (lit "http") && not loopback) ≡ false
  unfolding str_eq
  sealed_of t loopback (inl e) = rw e refl
  sealed_of t loopback (inr (e, l)) = rw (e, l) refl

  known_of :
      (t : Str) (loopback : Bool)
      → (t ≡ lit "https") ⊎ ((t ≡ lit "http") × (loopback ≡ true))
      → (t ≡ lit "https") ⊎ (t ≡ lit "http")
  known_of t loopback (inl e) = inl e
  known_of t loopback (inr (e, l)) = inr e

  -- Normalizing is idempotent: a canonical origin is normalized to itself. The condition is what the
  -- standard library does with the addresses that it renders and with an ASCII authority.
  pub normalize_base_url-idempotent :
      (value : Option Str) (origin : Str)
      → IsLibrary
      → normalize_base_url accepts_netloc ip_address value ≡ ok origin
      → normalize_base_url accepts_netloc ip_address (some origin) ≡ ok origin
  normalize_base_url-idempotent value origin library h =
      let o = normalize_base_url-IsOrigin accepts_netloc ip_address value origin h in
      let r = port-IsPortRead (default_port o.scheme) o.port o.has_port in
      rw o.parts (
        renormalized o.scheme o.host o.port o.loopback r (known_of o.scheme o.loopback o.has_scheme)
          (sealed_of o.scheme o.loopback o.has_scheme)
          (host_back (default_port o.scheme) o.host o.port o.loopback r library o.has_host
            o.has_port))
