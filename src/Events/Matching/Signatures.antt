-- ===== src/Events/Matching/Signatures.antt =====
-- event_intelligence/matching.py: canonical URLs, fingerprints of titles, and the signatures of a piece
-- of evidence. What the code calls of hashlib, urllib and `str` is a field of `Libraries`.
use news_collect.Base.{
  ℕ, Option, none, some, List, [], ◌∷◌, ◌++◌, Bool, true, false, not, ◌&&◌, ◌||◌, ◌==◌, leb,
  if◌then◌else◌, any, keep,
}
use news_collect.Base.Order.{Text, codes, text_eq, text_lt, sort_by}
use news_collect.Base.Result.{Result, ok, err, ◌>>=◌}
use news_collect.Events.Rows.{EvidenceProjection}

-- What `urlsplit` finds; reading `port` may raise.
pub record UrlParts : Type 0 where
  pub scheme : Text
  pub hostname : Option Text
  pub port : Result (Option ℕ)
  pub path : Text
  pub query : Text

pub record Libraries : Type 0 where
  pub sha256_hex : Text → Text
  pub casefold : Text → Text
  pub strip : Text → Text
  pub urlsplit : Text → Result UrlParts
  pub parse_qsl : Text → List (Text × Text)
  pub urlencode : List (Text × Text) → Text
  pub urlunsplit : Text → Text → Text → Text → Text
  pub decimal : ℕ → Text
  pub uuid : ℕ → Text
  pub list_repr : List Text → Text

abbrev pub is_empty {ℓ} : {A : Type ℓ} → List A → Bool
is_empty [] = true
is_empty (x ∷ xs) = false

unfoldable pub starts_with : Text → Text → Bool
starts_with [] text = true
starts_with (c ∷ prefix) [] = false
starts_with (c ∷ prefix) (d ∷ text) = c == d && starts_with prefix text

-- The first item of that prefix.
unfoldable pub first_with : Text → List Text → Option Text
unfolding starts_with
first_with prefix [] = none
first_with prefix (item ∷ items) =
    let rest = first_with prefix items in if starts_with prefix item then some item else rest

-- `item.split(":", 1)`
unfoldable pub split_colon : Text → Text × Text
split_colon [] = ([], [])
split_colon (c ∷ text) =
    let (before, after) = split_colon text in if c == b':' then ([], text) else (c ∷ before, after)

unfoldable pub tail_of : Option Text → Option Text
unfolding split_colon
tail_of none = none
tail_of (some item) = some (split_colon item).1

abbrev pub sorted_texts : List Text → List Text
sorted_texts texts = sort_by (λ s t. not (text_lt t s)) texts

-- `value.event_time or value.observed_at`
abbrev pub observed_time : EvidenceProjection → ℕ
observed_time value = elim value.event_time [ some time ↦ time | none ↦ value.observed_at ]

-- A text that is there and not empty.
unfoldable pub filled : Option Text → Option Text
filled none = none
filled (some []) = none
filled (some (c ∷ text)) = some (c ∷ text)

abbrev pub is_word : ℕ → Bool
is_word c = leb b'a' c && leb c b'z' || leb b'0' c && leb c b'9'

abbrev pub close : Text → List Text → List Text
close [] found = found
close (c ∷ token) found = (c ∷ token) ∷ found

-- The token that a text starts with, which may be empty, and those behind it.
unfoldable pub lead : Text → Text × List Text
lead [] = ([], [])
lead (c ∷ text) =
    let (token, found) = lead text in
    if is_word c then (c ∷ token, found) else ([], close token found)

-- `re.compile(r"[a-z0-9]+").findall(text)`
unfoldable pub tokens : Text → List Text
unfolding lead
tokens text = let (token, found) = lead text in close token found

-- `" ".join(tokens)`
unfoldable pub joined : List Text → Text
joined [] = []
joined (token ∷ []) = token
joined (token ∷ other ∷ rest) = token ++ b' ' ∷ joined (other ∷ rest)

-- `path.rstrip("/")`
unfoldable pub rstrip_slash : Text → Text
rstrip_slash [] = []
rstrip_slash (c ∷ text) =
    let rest = rstrip_slash text in if c == b'/' && is_empty rest then [] else c ∷ rest

unfoldable pub or_slash : Text → Text
or_slash [] = b'/' ∷ []
or_slash (c ∷ text) = c ∷ text

abbrev pub tracking : List Text
tracking =
    codes "fbclid"
    ∷ codes "gclid"
    ∷ codes "utm_campaign"
    ∷ codes "utm_content"
    ∷ codes "utm_medium"
    ∷ codes "utm_source"
    ∷ codes "utm_term"
    ∷ []

-- The order of pairs of texts.
unfoldable pub pair_lt : Text × Text → Text × Text → Bool
pair_lt (key, item) (key', item') = text_lt key key' || text_eq key key' && text_lt item item'

module _ (lib : Libraries) where
  unfoldable pub stable_hash : Text → Text
  stable_hash value = lib.sha256_hex value

  abbrev pub is_http : Text → Bool
  is_http scheme = text_eq scheme (codes "http")

  abbrev pub is_https : Text → Bool
  is_https scheme = text_eq scheme (codes "https")

  unfoldable pub netloc : Text → Text → Option ℕ → Text
  netloc scheme host none = host
  netloc scheme host (some port) =
      if is_http scheme && port == 80 || is_https scheme && port == 443
      then host
      else host ++ codes ":" ++ lib.decimal port

  unfoldable pub bracketed : Text → Text
  bracketed host = if any (λ c. c == b':') host then codes "[" ++ host ++ codes "]" else host

  unfoldable pub query_items : Text → List (Text × Text)
  unfolding pair_lt
  query_items query =
      sort_by (λ a b. not (pair_lt b a))
        (keep (λ pair. not (any (text_eq (lib.casefold pair.0)) tracking)) (lib.parse_qsl query))

  canonical_parts : UrlParts → Text → Result (Option ℕ) → Option Text
  unfolding netloc bracketed query_items rstrip_slash or_slash
  canonical_parts parts host (err e) = none
  canonical_parts parts host (ok port) =
      let scheme = lib.casefold parts.scheme in
      some (
        lib.urlunsplit scheme (netloc scheme (bracketed (lib.casefold host)) port)
          (or_slash (rstrip_slash parts.path)) (lib.urlencode (query_items parts.query)))

  canonical_host : UrlParts → Option Text → Option Text
  unfolding canonical_parts
  canonical_host parts none = none
  canonical_host parts (some host) =
      let scheme = lib.casefold parts.scheme in
      if is_http scheme || is_https scheme then canonical_parts parts host parts.port else none

  unfoldable pub canonicalize_url : Option Text → Result (Option Text)
  unfolding canonical_host
  canonicalize_url none = ok none
  canonicalize_url (some value) =
      lib.urlsplit (lib.strip value) >>= λ parts. ok (canonical_host parts parts.hostname)

  fingerprint : List Text → Option Text
  unfolding stable_hash joined
  fingerprint [] = none
  fingerprint (token ∷ rest) = some (stable_hash (joined (token ∷ rest)))

  unfoldable pub title_fingerprint : Option Text → Option Text
  unfolding fingerprint tokens
  title_fingerprint none = fingerprint (tokens (lib.casefold []))
  title_fingerprint (some title) = fingerprint (tokens (lib.casefold title))

  unfoldable pub signature : Text → Text → Text
  unfolding stable_hash
  signature kind value = kind ++ codes ":" ++ stable_hash value

  -- The signature of a value that is there.
  unfoldable pub signed : Text → Option Text → List Text
  unfolding signature
  signed kind none = []
  signed kind (some value) = signature kind value ∷ []

  -- f"{value.provider}:{value.provider_item_id}", of an id that is not empty.
  unfoldable pub provider_id : EvidenceProjection → Option Text
  unfolding filled
  provider_id value = elim (filled value.provider_item_id) [
    | some item_id ↦ some (value.provider ++ codes ":" ++ item_id)
    | none ↦ none
  ]

  unfoldable pub evidence_signatures : EvidenceProjection → Result (List Text)
  unfolding canonicalize_url signed provider_id filled
  evidence_signatures value = canonicalize_url value.url >>= λ canonical. ok (
      signed (codes "official") (if value.official_source then provider_id value else none)
      ++ signed (codes "url") (filled canonical)
      ++ signed (codes "provider") (provider_id value)
      ++ signature (codes "hash") (value.provider ++ codes ":" ++ value.provider_item_hash) ∷ [])
