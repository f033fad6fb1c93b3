-- ===== src/Tests/Urls.antt =====
-- Two spellings of an origin, and a policy built from one of them.
use fastapi_better_auth.Errors.Refusal.{is_field_name}
use fastapi_better_auth.Cookies.{member}
use fastapi_better_auth.Csrf.Options.{
  new_origin_check, validated_origins, optional_header, sequence, validated_header, is_header_name,
}
use fastapi_better_auth.Urls.Laws.{IsOrigin, normalize_base_url-IsOrigin}
use fastapi_better_auth.Urls.Idempotent.{IsLibrary, normalize_base_url-idempotent}
use fastapi_better_auth.Urls.Netloc.{is_plain_char}
use fastapi_better_auth.Text.Laws.{str_eq_iff}
use fastapi_better_auth.Csrf.{CsrfPolicy, origin_policy}
use fastapi_better_auth.Text.{
  Str, lit, str_eq, is_ascii, contains, lower, strip, is_space, partition, rpartition, is_digits,
  to_int, split_on,
}
use fastapi_better_auth.Errors.{ok}
use fastapi_better_auth.Base.{
  Bool-cases, true, List, Bool, ◌≡◌, Option, false, if◌then◌else◌, some, none, ◌∷◌, [], inl, inr,
  refl, ap, sym, ◌∙◌,
}
use fastapi_better_auth.Urls.{
  Address, as_text, split, scheme, normalize_base_url, is_control, canonical_host, remove_dot,
  is_hostname, is_label, is_host_char, default_port, port_text, reject_extras,
}
use fastapi_better_auth.Urls.Split.{
  port, hostname, urlsplit, authority, is_bracketed_well, split_at, host_info, has_userinfo,
  port_of, is_scheme, is_letter, is_scheme_char,
}

abbrev accepts_netloc : Str → Bool
accepts_netloc netloc = true

abbrev loopback : Address
loopback = record { compressed = lit "127.0.0.1"; is_loopback = true; is_mapped = false }

abbrev ip_address : Str → Option Address
ip_address text = if str_eq text (lit "127.0.0.1") then some loopback else none

normalized :
    normalize_base_url accepts_netloc ip_address (some (lit "HTTPS://Auth.Example.COM:443/"))
    ≡ ok (lit "https://auth.example.com")
unfolding normalize_base_url as_text is_control split scheme urlsplit authority is_bracketed_well
    split_at host_info has_userinfo hostname port port_of canonical_host remove_dot is_hostname
    is_label is_host_char default_port port_text reject_extras is_scheme is_letter is_scheme_char
    str_eq is_ascii contains lower strip is_space partition rpartition is_digits to_int split_on
normalized = refl

normalize_base_url-IsOrigin_example : IsOrigin ip_address (lit "https://auth.example.com")
normalize_base_url-IsOrigin_example =
    normalize_base_url-IsOrigin accepts_netloc ip_address
      (some (lit "HTTPS://Auth.Example.COM:443/")) (lit "https://auth.example.com") normalized

abbrev entries : List (Option Str)
entries = some (lit "HTTPS://Auth.Example.COM:443/") ∷ []

abbrev require_header : Option (Option Str)
require_header = some (some (lit "X-App"))

abbrev policy : CsrfPolicy
policy = origin_policy (lit "https://auth.example.com" ∷ []) (some (lit "x-app"))

built : new_origin_check accepts_netloc ip_address (sequence entries) require_header ≡ ok policy
unfolding new_origin_check validated_origins member optional_header validated_header is_header_name
    strip is_space lower str_eq is_field_name contains
built = rw normalized refl

library : IsLibrary accepts_netloc ip_address
unfolding contains
library = record {
  ipv4 = λ text a free h. elim (Bool-cases (str_eq text (lit "127.0.0.1"))) [
    | inl same ↦
        let e : loopback ≡ a = cc (rw same at h) in
        rw (← e) (
          record {
            chars = unfold is_plain_char is_host_char in refl;
            undivided = refl;
            undotted = unfold remove_dot in refl;
            filled = λ k. absurd (cc);
          },
          unfold str_eq in refl,
        )
    | inr other ↦ absurd (cc (rw other at h))
  ];
  ipv6 = λ text a colon zoneless h. elim (Bool-cases (str_eq text (lit "127.0.0.1"))) [
    | inl same ↦
        let k = ap (contains b':') ((str_eq_iff text (lit "127.0.0.1")).0 same) in
        absurd (cc (sym k ∙ colon))
    | inr other ↦ absurd (cc (rw other at h))
  ];
  takes_plain = λ netloc h. refl;
  takes_bracketed = λ text a standard port colon zoneless h p. refl;
}

normalize_base_url-idempotent_example :
    normalize_base_url accepts_netloc ip_address (some (lit "https://auth.example.com"))
    ≡ ok (lit "https://auth.example.com")
normalize_base_url-idempotent_example =
    normalize_base_url-idempotent accepts_netloc ip_address
      (some (lit "HTTPS://Auth.Example.COM:443/")) (lit "https://auth.example.com") library
      normalized
