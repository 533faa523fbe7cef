-- ===== src/Providers/Continuation.antt =====
-- providers/continuation.py: the token that continues a run, bound to the request it belongs to. The
-- canonical JSON, SHA-256, the text of a UUID and the digits of `\d` are fields of `Codec`.
pub mod Bound
pub mod Decode
pub mod Own
pub mod States
use news_collect.Base.{
  ℕ, Option, none, some, List, [], ◌∷◌, ◌++◌, Bool, true, false, not, ◌&&◌, ◌||◌, ◌==◌, leb,
  if◌then◌else◌, any, is_some, length,
}
use news_collect.Base.Int.{ℤ, pos, negsuc}
use news_collect.Base.Json.{
  Json, null, boolean, integer, string, array, object, Items, no_items, next_item, Fields,
  no_fields, next_field, get, names, number, same_number, json_eq,
}
use news_collect.Base.Order.{Text, codes, text_eq, sorted_set}
use news_collect.Base.Result.{Result, ok, err, ◌>>=◌}

pub record Codec : Type 0 where
  pub dumps : Fields → Option Text
  pub sha256_hex : Text → Text
  pub uuid : ℕ → Text
  pub is_digit : ℕ → Bool

pub record ContinuationLineage : Type 0 where
  pub target_id : ℕ
  pub config_revision : ℕ
  pub operation_key : Text
  pub operation_config_version : ℕ
  pub provider_contract_version : ℕ
  pub cursor_version : ℕ
  pub run_mode : Text

abbrev pub has_text : Text → List Text → Bool
has_text text texts = any (text_eq text) texts

-- `set(value) == keys`
unfoldable pub same_names : List Text → Fields → Bool
same_names keys value =
    not (any (λ key. not (is_some (get key value))) keys)
    && not (any (λ name. not (has_text name keys)) (names value))

abbrev pub raises : Text → Bool → Result {0} Unit
raises message true = ok tt
raises message false = err message

abbrev pub is_text : Text → Option Json → Bool
is_text text (some (string value)) = text_eq value text
is_text text _ = false

-- `value == number`
unfoldable pub is_number : ℕ → Option Json → Bool
is_number n (some value) = same_number (number value) (some (pos n))
is_number n none = false

unfoldable pub fields_of : Option Json → Option Fields
fields_of (some (object fields)) = some fields
fields_of _ = none

-- A value that is None if it is missing.
abbrev pub or_null : Option Json → Json
or_null none = null
or_null (some value) = value

-- `_OPERATIONS[provider, operation]`
unfoldable pub operation_keys : Text → Text → Option (List Text)
operation_keys provider operation =
    if text_eq provider (codes "marketaux") && text_eq operation (codes "news_all")
    then some (codes "page" ∷ [])
    else if text_eq provider (codes "finnhub") && text_eq operation (codes "company_news")
    then some (codes "last_key" ∷ [])
    else if text_eq provider (codes "eia")
        && (text_eq operation (codes "electricity_retail_sales")
            || text_eq operation (codes "electricity_rto_region_data"))
    then some (codes "offset" ∷ [])
    else if text_eq provider (codes "sec_edgar") && text_eq operation (codes "submissions_recent")
    then some (codes "file" ∷ codes "files" ∷ codes "last_key" ∷ [])
    else none

abbrev pub base : List Text
base =
    codes "version"
    ∷ codes "provider"
    ∷ codes "operation"
    ∷ codes "config_hash"
    ∷ codes "resolved_window"
    ∷ codes "lineage"
    ∷ codes "state"
    ∷ []

abbrev pub lineage_keys : List Text
lineage_keys =
    codes "target_id"
    ∷ codes "config_revision"
    ∷ codes "operation_key"
    ∷ codes "operation_config_version"
    ∷ codes "provider_contract_version"
    ∷ codes "cursor_version"
    ∷ codes "run_mode"
    ∷ []

-- `[0-9a-f]{64}`
unfoldable pub is_hash : Text → Bool
is_hash text =
    length text == 64
    && not (any (λ c. not (leb b'0' c && leb c b'9' || leb b'a' c && leb c b'f')) text)

-- `dict(window) == {"start": config.get("start"), "end": config.get("end")}`
unfoldable pub window_fits : Fields → Option Fields → Bool
unfolding same_names json_eq
window_fits config none = false
window_fits config (some window) =
    same_names (codes "start" ∷ codes "end" ∷ []) window
    && json_eq (or_null (get (codes "start") window)) (or_null (get (codes "start") config))
    && json_eq (or_null (get (codes "end") window)) (or_null (get (codes "end") config))

-- A key of two texts that are not empty, of at most 255 characters.
unfoldable pub key_part : Json → Bool
key_part (string []) = false
key_part (string (c ∷ text)) = leb (length (c ∷ text)) 255
key_part _ = false

unfoldable pub is_key : Option Json → Bool
unfolding key_part
is_key (some (array (next_item a (next_item b no_items)))) = key_part a && key_part b
is_key _ = false

unfoldable pub between : ℕ → ℕ → Option Json → Bool
between least most (some (integer (pos n))) = leb least n && leb n most
between least most _ = false

-- The texts of a list, or `none`.
unfoldable pub texts : Items → Option (List Text)
texts no_items = some []
texts (next_item (string text) rest) = elim (texts rest) [
  | some found ↦ some (text ∷ found)
  | none ↦ none
]
texts (next_item _ rest) = none

-- `result.get("files", [])`
unfoldable pub files_of : Option Json → Option (List Text)
unfolding texts
files_of none = some []
files_of (some (array items)) = texts items
files_of (some _) = none

-- `result.get("file")`: a text, None, or neither.
unfoldable pub file_of : Option Json → Option (Option Text)
file_of none = some none
file_of (some null) = some none
file_of (some (string text)) = some (some text)
file_of (some _) = none

unfoldable pub matches : List (ℕ → Bool) → Text → Bool
matches [] [] = true
matches [] (c ∷ text) = false
matches (p ∷ pattern) [] = false
matches (p ∷ pattern) (c ∷ text) = p c && matches pattern text

unfoldable pub starts_with : Text → Text → Bool
starts_with [] text = true
starts_with (c ∷ prefix) [] = false
starts_with (c ∷ prefix) (d ∷ text) = c == d && starts_with prefix text

abbrev pub exactly : Text → List (ℕ → Bool)
exactly [] = []
exactly (c ∷ text) = (λ d. c == d) ∷ exactly text

abbrev pub all_texts : (Text → Bool) → List Text → Bool
all_texts p texts = not (any (λ text. not (p text)) texts)

abbrev pub listed : Option Text → List Text
listed none = []
listed (some text) = text ∷ []

-- The fields of a request that its lineage has: `none` for a value of another type.
pub record RequestLineage : Type 0 where
  pub target_id : Option ℕ
  pub config_revision : Option ℤ
  pub operation_config_version : Option ℤ
  pub provider_contract_version : Option ℤ
  pub cursor_version : Option ℤ
  pub run_mode : Text

-- A whole number from 1.
unfoldable pub positive : Option ℤ → Result ℕ
positive (some (pos n)) = if n == 0 then err (codes "continuation_lineage_missing") else ok n
positive _ = err (codes "continuation_lineage_missing")

unfoldable pub known_target : Option ℕ → Result ℕ
known_target (some id) = ok id
known_target none = err (codes "continuation_lineage_missing")

unfoldable pub request_lineage : RequestLineage → Text → Result ContinuationLineage
unfolding positive known_target
request_lineage request operation = known_target request.target_id >>= λ target_id.
    positive request.config_revision >>= λ config_revision.
    positive request.operation_config_version >>= λ operation_config_version.
    positive request.provider_contract_version >>= λ provider_contract_version.
    positive request.cursor_version >>= λ cursor_version.
    raises (codes "continuation_lineage_missing")
      (has_text request.run_mode (codes "normal" ∷ codes "backfill" ∷ []))
    >>= λ known. ok (record {
      target_id = target_id;
      config_revision = config_revision;
      operation_key = operation;
      operation_config_version = operation_config_version;
      provider_contract_version = provider_contract_version;
      cursor_version = cursor_version;
      run_mode = request.run_mode;
    })
