-- ===== src/Urls/Split.antt =====
-- urllib.parse.urlsplit and the parts of its result that urls.py reads, of a text without whitespace and
-- control characters. What a version of it asks of a bracketed or a non-ASCII authority is a parameter.
use fastapi_better_auth.Base.{
  ℕ, Bool, false, not, ◌&&◌, ◌||◌, Option, none, some, [], ◌∷◌, ◌==◌, leb, if◌then◌else◌, all, ◌++◌,
}
use fastapi_better_auth.Text.{
  Str, Parts, contains, between, lower, partition, rpartition, is_digits, to_int,
}

-- a SplitResult, after `_replace`: the scheme in lower case
pub record SplitResult : Type 0 where
  pub scheme : Str
  pub netloc : Str
  pub path : Str
  pub query : Str
  pub fragment : Str

unfoldable pub is_letter : ℕ → Bool
is_letter c = between 97 122 c || between 65 90 c

-- `c in scheme_chars`
unfoldable pub is_scheme_char : ℕ → Bool
unfolding is_letter
is_scheme_char c = is_letter c || between 48 57 c || c == b'+' || c == b'-' || c == b'.'

-- The part before a ":", where it may be a scheme: it begins with a letter.
unfoldable pub is_scheme : Str → Bool
unfolding is_letter is_scheme_char
is_scheme [] = false
is_scheme (c ∷ s) = is_letter c && all is_scheme_char (c ∷ s)

-- the text up to the first of "/", "?" and "#", and the rest
unfoldable pub authority : Str → Str × Str
authority [] = ([], [])
authority (c ∷ s) =
    let (netloc, rest) = authority s in
    if c == b'/' || c == b'?' || c == b'#' then ([], c ∷ s) else (c ∷ netloc, rest)

-- the scheme and what follows it
unfoldable pub scheme_of : Parts → Str → Str × Str
scheme_of p url = if p.found && is_scheme p.before then (lower p.before, p.after) else ([], url)

-- the authority after "//"
unfoldable pub netloc_of : Str → Str × Str
netloc_of [] = ([], [])
netloc_of (c ∷ []) = ([], c ∷ [])
netloc_of (c ∷ d ∷ s) = if c == b'/' && d == b'/' then authority s else ([], c ∷ d ∷ s)

-- `[` and `]` come together
unfoldable pub is_bracketed_well : Str → Bool
is_bracketed_well netloc =
    if contains b'[' netloc then contains b']' netloc else not (contains b']' netloc)

unfoldable pub split_at : Str → Str → Str → SplitResult
split_at scheme netloc rest =
    let f = partition b'#' rest in
    let q = partition b'?' f.before in
    record {
      scheme = scheme;
      netloc = netloc;
      path = q.before;
      query = q.after;
      fragment = f.after;
    }

module _ (accepts_netloc : Str → Bool) where
  unfoldable pub split_of : Str → Str × Str → Option SplitResult
  split_of scheme (netloc, rest) =
      if is_bracketed_well netloc && accepts_netloc netloc
      then some (split_at scheme netloc rest)
      else none

  unfoldable pub split_after : Str × Str → Option SplitResult
  unfolding split_of netloc_of
  split_after (scheme, rest) = split_of scheme (netloc_of rest)

  -- urlsplit, where none is its ValueError
  unfoldable pub urlsplit : Str → Option SplitResult
  unfolding scheme_of split_after
  urlsplit url = split_after (scheme_of (partition b':' url) url)

-- what stands before and after the ":" of a host, outside its brackets
unfoldable pub host_info : Str → Str × Str
host_info netloc =
    let hostinfo = (rpartition b'@' netloc).after in
    let open_ = partition b'[' hostinfo in
    let close_ = partition b']' open_.after in
    if open_.found
    then (close_.before, (partition b':' close_.after).after)
    else ((partition b':' hostinfo).before, (partition b':' hostinfo).after)

-- `username` or `password` is not None
unfoldable pub has_userinfo : SplitResult → Bool
has_userinfo s = (rpartition b'@' s.netloc).found

-- `hostname`, where the empty text is None; a zone after "%" keeps its case
unfoldable pub hostname : SplitResult → Str
hostname s =
    let p = partition b'%' (host_info s.netloc).0 in
    if p.found then lower p.before ++ (b'%' ∷ p.after) else lower p.before

-- `port`: none is its ValueError, and some none None
unfoldable pub port_of : Str → Option (Option ℕ)
port_of [] = some none
port_of (c ∷ s) =
    if is_digits (c ∷ s) && leb (to_int (c ∷ s)) 65535 then some (some (to_int (c ∷ s))) else none

unfoldable pub port : SplitResult → Option (Option ℕ)
port s = port_of (host_info s.netloc).1
