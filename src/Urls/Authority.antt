-- ===== src/Urls/Authority.antt =====
-- urls.py: a canonical origin is split into the parts that it was made of.
use fastapi_better_auth.Base.{
  ℕ, ◌≡◌, refl, ◌⊎◌, Bool, true, false, Option, none, some, [], ◌∷◌, ◌++◌, append-nil, arith, inl,
  inr, all, ◌==◌,
}
use fastapi_better_auth.Text.{Str, lit, contains, partition, lower, decimal}
use fastapi_better_auth.Text.Laws.{partition-append, rpartition_free, contains-append}
use fastapi_better_auth.Errors.{ok}
use fastapi_better_auth.Urls.{port_suffix}
use fastapi_better_auth.Urls.Split.{
  SplitResult, urlsplit, scheme_of, is_scheme, is_letter, is_scheme_char, netloc_of, split_of,
  split_at, split_after, authority, is_bracketed_well, host_info, hostname, port_of,
}
use fastapi_better_auth.Urls.Laws.{IsPort}
use fastapi_better_auth.Urls.Netloc.{
  is_plain_char, all-append, contains_plain, authority_whole, partition_free, lower_plain,
  decimal_plain, port_of-decimal, IsBare,
}

-- A port's text as it is read: the digits after its ":", and the port.
pub record IsPortRead (standard : ℕ) (text : Str) : Type 0 where
  pub digits : Str
  pub value : Option ℕ
  pub shape : ((text ≡ []) × (digits ≡ [])) ⊎ (text ≡ b':' ∷ digits)
  pub chars : all is_plain_char text ≡ true
  pub reads : port_of digits ≡ some value
  pub renders : port_suffix standard (some value) ≡ ok text

pub port-IsPortRead : (standard : ℕ) (text : Str) → IsPort standard text → IsPortRead standard text
unfolding port_of port_suffix is_plain_char
port-IsPortRead standard text (IsPort.omitted e) = record {
  digits = [];
  value = none;
  shape = inl (e, refl);
  chars = rw e refl;
  reads = refl;
  renders = rw e refl;
}
port-IsPortRead standard text (IsPort.written n e other positive small) = record {
  digits = decimal n;
  value = some n;
  shape = inr e;
  chars = rw e (decimal_plain n);
  reads = port_of-decimal n positive small;
  renders = written;
}
  where
    written : port_suffix standard (some (some n)) ≡ ok text
    written =
        let a : (n == standard) ≡ false = ground (arith, other) in
        let b : (n == 0) ≡ false = ground (arith, positive) in rw (a, b, e) refl

-- a host and a port that are put together
pub joined_port :
    (host : Str) (standard : ℕ) (text : Str) (r : IsPortRead standard text)
    → contains b':' host ≡ false
    → ((partition b':' (host ++ text)).before ≡ host)
      × ((partition b':' (host ++ text)).after ≡ r.digits)
joined_port host standard text r free = elim r.shape [
  | inl (e, d) ↦ rw (e, append-nil host, partition_free b':' host free, d) (refl, refl)
  | inr e ↦ rw (e, partition-append b':' host r.digits free) (refl, refl)
]

-- An authority that is read as a host, which may stand in brackets there, and a port.
pub record IsAuthority (netloc host digits : Str) : Type 0 where
  pub whole : authority netloc ≡ (netloc, [])
  pub well : is_bracketed_well netloc ≡ true
  pub anonymous : contains b'@' netloc ≡ false
  pub info : host_info netloc ≡ (host, digits)
  pub chars : all is_plain_char host ≡ true

pub bare-IsAuthority :
    (host : Str) (standard : ℕ) (text : Str) (r : IsPortRead standard text)
    → IsBare host
    → IsAuthority (host ++ text) host r.digits
unfolding host_info is_bracketed_well
bare-IsAuthority host standard text r b =
    let chars = all-append is_plain_char host text b.chars r.chars in
    let free : (c : ℕ) → is_plain_char c ≡ false → contains c (host ++ text) ≡ false =
      λ c other. contains_plain c (host ++ text) other chars in
    let at = free b'@' (unfold is_plain_char in refl) in
    let open_ = free b'[' (unfold is_plain_char in refl) in
    let close_ = free b']' (unfold is_plain_char in refl) in
    let (before, after) = joined_port host standard text r b.undivided in
    record {
      whole =
          authority_whole (host ++ text) (free b'/' (unfold is_plain_char in refl))
            (free b'?' (unfold is_plain_char in refl)) (free b'#' (unfold is_plain_char in refl));
      well = rw (open_, close_) refl;
      anonymous = at;
      info =
          rw
            (
              rpartition_free b'@' (host ++ text) at,
              partition_free b'[' (host ++ text) open_,
              before,
              after,
            )
            refl;
      chars = b.chars;
    }

bracketed_free :
    (c : ℕ) (inner text : Str)
    → is_plain_char c ≡ false
    → (b'[' == c) ≡ false
    → (b']' == c) ≡ false
    → all is_plain_char inner ≡ true
    → all is_plain_char text ≡ true
    → contains c (b'[' ∷ (inner ++ (b']' ∷ text))) ≡ false
unfolding contains
bracketed_free c inner text other p q h k =
    rw
      (
        p,
        contains-append c inner (b']' ∷ text),
        contains_plain c inner other h,
        q,
        contains_plain c text other k,
      )
      refl

pub bracketed-IsAuthority :
    (inner : Str) (standard : ℕ) (text : Str) (r : IsPortRead standard text)
    → all is_plain_char inner ≡ true
    → IsAuthority (b'[' ∷ (inner ++ (b']' ∷ text))) inner r.digits
unfolding host_info is_bracketed_well contains partition
bracketed-IsAuthority inner standard text r h =
    let free : (c : ℕ)
        → is_plain_char c ≡ false
        → (b'[' == c) ≡ false
        → (b']' == c) ≡ false
        → contains c (b'[' ∷ (inner ++ (b']' ∷ text))) ≡ false =
      λ c other p q. bracketed_free c inner text other p q h r.chars in
    let at = free b'@' (unfold is_plain_char in refl) refl refl in
    let closed = contains_plain b']' inner (unfold is_plain_char in refl) h in
    let (before, after) = joined_port [] standard text r refl in
    record {
      whole =
          authority_whole (b'[' ∷ (inner ++ (b']' ∷ text)))
            (free b'/' (unfold is_plain_char in refl) refl refl)
            (free b'?' (unfold is_plain_char in refl) refl refl)
            (free b'#' (unfold is_plain_char in refl) refl refl);
      well = rw (contains-append b']' inner (b']' ∷ text), closed) refl;
      anonymous = at;
      info =
          rw
            (
              rpartition_free b'@' (b'[' ∷ (inner ++ (b']' ∷ text))) at,
              partition-append b']' inner text closed,
              after,
            )
            refl;
      chars = h;
    }

pub hostname-IsAuthority :
    (s : SplitResult) (host digits : Str) → IsAuthority s.netloc host digits → hostname s ≡ host
unfolding hostname
hostname-IsAuthority s host digits i =
    rw
      (
        i.info,
        partition_free b'%' host (contains_plain b'%' host (unfold is_plain_char in refl) i.chars),
        lower_plain host i.chars,
      )
      refl

-- what the parts of an origin are
abbrev pub origin_split : Str → Str → SplitResult
origin_split scheme netloc = record {
  scheme = scheme;
  netloc = netloc;
  path = [];
  query = [];
  fragment = [];
}

pub urlsplit_origin :
    (accepts_netloc : Str → Bool) (scheme netloc host digits : Str)
    → (scheme ≡ lit "https") ⊎ (scheme ≡ lit "http")
    → IsAuthority netloc host digits
    → accepts_netloc netloc ≡ true
    → urlsplit accepts_netloc (scheme ++ (lit "://" ++ netloc)) ≡ some (origin_split scheme netloc)
unfolding urlsplit scheme_of split_after split_of netloc_of split_at partition is_scheme is_letter
    is_scheme_char lower
urlsplit_origin accepts_netloc scheme netloc host digits known i h = elim known [
  | inl https ↦ rw https (rw (i.whole, i.well, h) refl)
  | inr http ↦ rw http (rw (i.whole, i.well, h) refl)
]
