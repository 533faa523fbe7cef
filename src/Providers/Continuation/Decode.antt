-- ===== src/Providers/Continuation/Decode.antt =====
-- providers/continuation.py: `encode_continuation` and `decode_continuation`.
use news_collect.Base.{
  Option, none, some, List, [], ◌∷◌, ◌++◌, Bool, true, false, not, ◌&&◌, ◌||◌, ◌==◌, leb,
  if◌then◌else◌, any, is_some, length,
}
use news_collect.Base.Int.{pos}
use news_collect.Base.Json.{
  Json, integer, string, object, Fields, no_fields, next_field, get, names,
}
use news_collect.Base.Order.{Text, codes, text_eq, sorted_set}
use news_collect.Base.Result.{Result, ok, err, ◌>>=◌}
use news_collect.Providers.Continuation.{
  Codec, ContinuationLineage, has_text, same_names, raises, is_text, is_number, fields_of, or_null,
  operation_keys, base, lineage_keys, is_hash, window_fits, is_key, between, files_of, file_of,
  matches, starts_with, exactly, all_texts, listed,
}

abbrev pub sec_invalid : Text
sec_invalid = codes "continuation_sec_invalid"

abbrev pub key_invalid : Text
key_invalid = codes "continuation_key_invalid"

abbrev pub is_offset : Text → Bool
is_offset operation =
    text_eq operation (codes "electricity_retail_sales")
    || text_eq operation (codes "electricity_rto_region_data")

module _ (codec : Codec) where
  -- `lineage.mapping()`
  unfoldable pub mapping : ContinuationLineage → Fields
  mapping lineage = next_field (codes "target_id") (string (codec.uuid lineage.target_id)) (
      next_field (codes "config_revision") (integer (pos lineage.config_revision)) (
        next_field (codes "operation_key") (string lineage.operation_key) (
          next_field (codes "operation_config_version")
            (integer (pos lineage.operation_config_version))
            (next_field (codes "provider_contract_version")
              (integer (pos lineage.provider_contract_version))
              (next_field (codes "cursor_version") (integer (pos lineage.cursor_version))
                (next_field (codes "run_mode") (string lineage.run_mode) no_fields))))))

  -- `dict(bound) == lineage.mapping()`
  unfoldable pub lineage_fits : ContinuationLineage → Option Fields → Bool
  unfolding same_names is_number
  lineage_fits lineage none = false
  lineage_fits lineage (some bound) =
      same_names lineage_keys bound
      && is_text (codec.uuid lineage.target_id) (get (codes "target_id") bound)
      && is_number lineage.config_revision (get (codes "config_revision") bound)
      && is_text lineage.operation_key (get (codes "operation_key") bound)
      && is_number lineage.operation_config_version (get (codes "operation_config_version") bound)
      && is_number lineage.provider_contract_version (get (codes "provider_contract_version") bound)
      && is_number lineage.cursor_version (get (codes "cursor_version") bound)
      && is_text lineage.run_mode (get (codes "run_mode") bound)

  -- `canonical_projection_hash`
  unfoldable pub canonical_projection_hash : Fields → Result Text
  canonical_projection_hash payload = elim (codec.dumps payload) [
    | some encoded ↦ ok (codec.sha256_hex encoded)
    | none ↦ err (codes "projection_payload_not_canonical_json")
  ]

  -- The hash is compared only if the token has one.
  unfoldable pub config_fits : Fields → Option Json → Result {0} Unit
  unfolding is_hash canonical_projection_hash
  config_fits config (some (string digest)) =
      raises (codes "continuation_config_invalid") (is_hash digest) >>= λ shaped.
      canonical_projection_hash config >>= λ expected.
      raises (codes "continuation_config_invalid") (text_eq digest expected)
  config_fits config _ = err (codes "continuation_config_invalid")

  -- `CIK\d{10}-submissions-\d{3}\.json`
  unfoldable pub is_file : Text → Bool
  unfolding matches
  is_file text =
      let d = codec.is_digit in
      matches
        (exactly (codes "CIK")
          ++ (d ∷ d ∷ d ∷ d ∷ d ∷ d ∷ d ∷ d ∷ d ∷ d ∷ [])
          ++ exactly (codes "-submissions-")
          ++ (d ∷ d ∷ d ∷ [])
          ++ exactly (codes ".json"))
        text

  -- The file and the files of a token, with those behind it at most five and all different.
  unfoldable pub sec_files : Option Json → Option (Option Text) → Option (List Text) → Bool
  unfolding is_file starts_with
  sec_files (some (string cik)) (some current) (some files) =
      all_texts is_file (listed current ++ files)
      && leb (length files) 5
      && length (sorted_set files) == length files
      && not (any (λ text. has_text text files) (listed current))
      && all_texts (starts_with (codes "CIK" ++ cik ++ codes "-submissions-"))
          (listed current ++ files)
  sec_files _ _ _ = false

  abbrev pub is_missing : Option (Option Text) → Bool
  is_missing (some none) = true
  is_missing _ = false

  unfoldable pub check_sec : Fields → Fields → Result {0} Unit
  unfolding sec_files same_names files_of file_of is_key
  check_sec config state =
      let all = same_names (codes "file" ∷ codes "files" ∷ codes "last_key" ∷ []) state in
      raises sec_invalid (
        (same_names (codes "file" ∷ []) state
          || same_names (codes "file" ∷ codes "files" ∷ []) state
          || all)
        && sec_files (get (codes "cik") config) (file_of (get (codes "file") state))
            (files_of (get (codes "files") state)))
      >>= λ files.
          raises key_invalid
            (not (is_some (get (codes "last_key") state)) || is_key (get (codes "last_key") state))
          >>= λ key.
              raises sec_invalid (not (is_missing (file_of (get (codes "file") state))) || all)

  unfoldable pub check_state : Text → Fields → Fields → Result {0} Unit
  unfolding check_sec between is_key
  check_state operation config state =
      if text_eq operation (codes "news_all")
      then raises (codes "continuation_page_invalid")
          (same_names (codes "page" ∷ []) state && between 2 1000 (get (codes "page") state))
      else if is_offset operation
      then raises (codes "continuation_offset_invalid") (
          same_names (codes "offset" ∷ []) state && between 1 10000000 (get (codes "offset") state))
      else if text_eq operation (codes "company_news")
      then raises key_invalid
          (same_names (codes "last_key" ∷ []) state && is_key (get (codes "last_key") state))
      else check_sec config state

  -- An empty state is not checked further.
  unfoldable pub decode_state : Text → Fields → List Text → Option Fields → Result Fields
  unfolding check_state
  decode_state operation config allowed none = err (codes "continuation_state_invalid")
  decode_state operation config allowed (some no_fields) = ok no_fields
  decode_state operation config allowed (some (next_field name value rest)) =
      raises (codes "continuation_state_invalid")
        (all_texts (λ key. has_text key allowed) (name ∷ names rest))
      >>= λ known. check_state operation config (next_field name value rest) >>= λ valid.
          ok (next_field name value rest)

  unfoldable pub decode_known :
      Fields → Text → Text → Fields → ContinuationLineage → List Text → Result Fields
  unfolding decode_state lineage_fits config_fits is_number window_fits fields_of
  decode_known value provider operation config lineage allowed =
      raises (codes "continuation_shape_invalid") (same_names base value) >>= λ shape.
      raises (codes "continuation_identity_invalid") (
        is_number 1 (get (codes "version") value)
        && is_text provider (get (codes "provider") value)
        && is_text operation (get (codes "operation") value))
      >>= λ identity. config_fits config (get (codes "config_hash") value) >>= λ hashed.
          raises (codes "continuation_window_invalid")
            (window_fits config (fields_of (get (codes "resolved_window") value)))
          >>= λ windowed.
              raises (codes "continuation_lineage_invalid")
                (lineage_fits lineage (fields_of (get (codes "lineage") value)))
              >>= λ bound.
                  decode_state operation config allowed (fields_of (get (codes "state") value))

  unfoldable pub decode_allowed :
      Fields → Text → Text → Fields → ContinuationLineage → Option (List Text) → Result Fields
  unfolding decode_known
  decode_allowed value provider operation config lineage none =
      err (codes "continuation_shape_invalid")
  decode_allowed value provider operation config lineage (some allowed) =
      decode_known value provider operation config lineage allowed

  unfoldable pub decode_continuation :
      Fields → Text → Text → Fields → ContinuationLineage → Result Fields
  unfolding decode_allowed operation_keys
  decode_continuation value provider operation config lineage =
      decode_allowed value provider operation config lineage (operation_keys provider operation)

  unfoldable pub token : Text → Text → Text → Fields → ContinuationLineage → Fields → Fields
  unfolding mapping
  token digest provider operation config lineage state =
      next_field (codes "version") (integer (pos 1)) (
        next_field (codes "provider") (string provider) (
          next_field (codes "operation") (string operation) (
            next_field (codes "config_hash") (string digest) (
              next_field (codes "resolved_window")
                (object (
                  next_field (codes "start") (or_null (get (codes "start") config))
                    (next_field (codes "end") (or_null (get (codes "end") config)) no_fields)))
                (next_field (codes "lineage") (object (mapping lineage))
                  (next_field (codes "state") (object state) no_fields))))))

  unfoldable pub encode_continuation :
      Text → Text → Fields → ContinuationLineage → Fields → Result Fields
  unfolding decode_continuation token
  encode_continuation provider operation config lineage state =
      raises (codes "continuation_operation_unknown") (is_some (operation_keys provider operation))
      >>= λ known. canonical_projection_hash config >>= λ digest.
          decode_continuation (token digest provider operation config lineage state) provider
            operation config lineage
          >>= λ checked. ok (token digest provider operation config lineage state)
