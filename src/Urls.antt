-- ===== src/Urls.antt =====
-- urls.py: `normalize_base_url`. ipaddress.ip_address is a parameter, and so is what a version of urlsplit asks of
-- an authority.
pub mod Split
pub mod Laws
pub mod Plain
pub mod Netloc
pub mod Authority
pub mod Idempotent
use fastapi_better_auth.Base.{
  ℕ, Bool, true, false, not, ◌&&◌, ◌||◌, Option, none, some, List, [], ◌∷◌, ◌++◌, ◌==◌, leb, ltb,
  if◌then◌else◌, all, any, length,
}
use fastapi_better_auth.Text.{
  Str, lit, str_eq, contains, between, strip, is_space, is_ascii, split_on, decimal,
}
use fastapi_better_auth.Errors.{
  Raised, Reason, configuration, Result, ok, raise, refuse_if, ◌>>=◌, ◌>>◌, url_not_text,
  url_whitespace, url_unusable, url_no_scheme, url_scheme, url_credentials, url_no_host,
  url_not_ascii, url_host, url_ipv6, url_mapped, url_cleartext, url_port_zero, url_path, url_query,
  url_fragment,
}
use fastapi_better_auth.Urls.Split.{SplitResult, urlsplit, hostname, has_userinfo, port}

-- an IPv4Address or IPv6Address, as far as it is read
pub record Address : Type 0 where
  pub compressed : Str
  pub is_loopback : Bool
  pub is_mapped : Bool

abbrev refused : Reason → Raised
refused = configuration

abbrev pub max_host_length : ℕ
max_host_length = 253

-- a character that must not be in a URL
unfoldable pub is_control : ℕ → Bool
is_control c = is_space c || ltb c 32 || c == 127

-- _as_text, where none is no str
unfoldable pub as_text : Option Str → Result Str
as_text none = raise (refused url_not_text)
as_text (some value) =
    refuse_if (any is_control (strip value)) (refused url_whitespace) >> ok (strip value)

-- _scheme
unfoldable pub scheme : SplitResult → Result Str
scheme s = do
  refuse_if (str_eq s.scheme []) (refused url_no_scheme)
  refuse_if (not (str_eq s.scheme (lit "https") || str_eq s.scheme (lit "http")))
      (refused url_scheme)
  ok s.scheme

-- `[a-z0-9-]`
unfoldable pub is_host_char : ℕ → Bool
is_host_char c = between 97 122 c || between 48 57 c || c == b'-'

last_is_dash : Str → Bool
last_is_dash [] = false
last_is_dash (c ∷ []) = c == b'-'
last_is_dash (c ∷ d ∷ s) = last_is_dash (d ∷ s)

-- one label of HOSTNAME
unfoldable pub is_label : Str → Bool
unfolding last_is_dash
is_label [] = false
is_label (c ∷ s) =
    all is_host_char (c ∷ s)
    && leb (length (c ∷ s)) 63
    && not (c == b'-')
    && not (last_is_dash (c ∷ s))

-- HOSTNAME.fullmatch
unfoldable pub is_hostname : Str → Bool
is_hostname host = all is_label (split_on b'.' host)

-- str.removesuffix(".")
unfoldable pub remove_dot : Str → Str
remove_dot [] = []
remove_dot (c ∷ []) = if c == b'.' then [] else c ∷ []
remove_dot (c ∷ d ∷ s) = c ∷ remove_dot (d ∷ s)

-- DEFAULT_PORTS, of an allowed scheme
unfoldable pub default_port : Str → ℕ
default_port scheme = if str_eq scheme (lit "https") then 443 else 80

pub port_suffix : ℕ → Option (Option ℕ) → Result Str
port_suffix standard none = raise (refused url_unusable)
port_suffix standard (some none) = ok []
port_suffix standard (some (some n)) =
    if n == standard
    then ok []
    else (refuse_if (n == 0) (refused url_port_zero) >> ok (b':' ∷ decimal n))

-- _port
unfoldable pub port_text : SplitResult → Str → Result Str
unfolding port_suffix
port_text s scheme = port_suffix (default_port scheme) (port s)

-- _reject_extras
unfoldable pub reject_extras : SplitResult → Result (Unit {0})
reject_extras s = do
  refuse_if (not (str_eq s.path [] || str_eq s.path (b'/' ∷ []))) (refused url_path)
  refuse_if (not (str_eq s.query [])) (refused url_query)
  refuse_if (not (str_eq s.fragment [])) (refused url_fragment)

-- `_split`, where `none` is a ValueError of urlsplit or of `port`
unusable_port : SplitResult → Option (Option ℕ) → Result SplitResult
unusable_port s none = raise (refused url_unusable)
unusable_port s (some p) = ok s

checked_split : Option SplitResult → Result SplitResult
unfolding unusable_port
checked_split none = raise (refused url_unusable)
checked_split (some s) = unusable_port s (port s)

module _ (accepts_netloc : Str → Bool) (ip_address : Str → Option Address) where
  unfoldable pub split : Str → Result SplitResult
  unfolding checked_split
  split text = checked_split (urlsplit accepts_netloc text)

  pub literal_of : Option Address → Result Address
  literal_of none = raise (refused url_ipv6)
  literal_of (some a) = refuse_if a.is_mapped (refused url_mapped) >> ok a

  -- ip_literal
  unfoldable pub ip_literal : Str → Result Address
  unfolding literal_of
  ip_literal raw = refuse_if (contains b'%' raw) (refused url_ipv6) >> literal_of (ip_address raw)

  -- the host that is no address, or the address
  pub named_host : Str → Option Address → Result (Str × Bool)
  named_host host (some a) = ok (a.compressed, a.is_loopback)
  named_host host none =
      refuse_if (not (is_hostname host) || ltb max_host_length (length host)) (refused url_host)
      >> ok (host, str_eq host (lit "localhost"))

  plain_host : Str → Result (Str × Bool)
  unfolding named_host
  plain_host raw =
      refuse_if (not (is_ascii raw)) (refused url_not_ascii)
      >> named_host (remove_dot raw) (ip_address (remove_dot raw))

  pub bracketed : Address → Result (Str × Bool)
  bracketed a = ok (b'[' ∷ (a.compressed ++ (b']' ∷ [])), a.is_loopback)

  -- _canonical_host
  unfoldable pub canonical_host : Str → Result (Str × Bool)
  unfolding plain_host bracketed
  canonical_host raw =
      refuse_if (str_eq raw []) (refused url_no_host)
      >> (if contains b':' raw then ip_literal raw >>= bracketed else plain_host raw)

  -- normalize_base_url
  unfoldable pub normalize_base_url : Option Str → Result Str
  normalize_base_url value = do
    text ← as_text value
    s ← split text
    scheme ← scheme s
    refuse_if (has_userinfo s) (refused url_credentials)
    host ← canonical_host (hostname s)
    refuse_if (str_eq scheme (lit "http") && not host.1) (refused url_cleartext)
    port ← port_text s scheme
    reject_extras s
    ok (scheme ++ (lit "://" ++ (host.0 ++ port)))
