-- ===== src/Providers/Continuation/Bound.antt =====
-- What a decoding that ends well has checked.
use news_collect.Base.{
  ◌≡◌, refl, sym, ap, ◌∙◌, Option, none, some, List, ◌∷◌, Bool, true, false, ◌&&◌, arith,
}
use news_collect.Base.Json.{
  Json, null, boolean, integer, string, array, object, Fields, no_fields, next_field, get, names,
}
use news_collect.Base.Order.{Text, codes, text_eq, text_eq→eq}
use news_collect.Base.Result.{Result, ok, ◌>>=◌, bind-ok}
use news_collect.Providers.Continuation.{
  Codec, ContinuationLineage, raises, is_text, is_number, fields_of, operation_keys, same_names,
  base, window_fits, all_texts, has_text, is_hash,
}
use news_collect.Providers.Continuation.Decode.{
  lineage_fits, canonical_projection_hash, config_fits, check_state, decode_state, decode_known,
  decode_allowed, decode_continuation,
}

raises-ok : (message : Text) (b : Bool) {u : Unit} → raises message b ≡ ok u → b ≡ true
raises-ok message true h = refl
raises-ok message false h = cc

-- A guard that a chain has passed.
pub passed {ℓ} :
    {A : Type ℓ} (message : Text) (b : Bool) (f : Unit → Result A) {a : A}
    → (raises message b >>= f) ≡ ok a
    → (b ≡ true) × (f tt ≡ ok a)
passed message true f h = (refl, h)
passed message false f h = cc

decode_state-same :
    (codec : Codec) (operation : Text) (config : Fields) (allowed : List Text) (o : Option Fields)
    {x : Fields}
    → decode_state codec operation config allowed o ≡ ok x
    → o ≡ some x
unfolding decode_state
decode_state-same codec operation config allowed none h = cc
decode_state-same codec operation config allowed (some no_fields) h = ground (arith, h)
decode_state-same codec operation config allowed (some (next_field name value rest)) h =
    let (known, h1) =
      passed (codes "continuation_state_invalid")
        (all_texts (λ key. has_text key allowed) (name ∷ names rest)) _ h in
    let (b, f, h2) =
      bind-ok (check_state codec operation config (next_field name value rest)) _ h1 in
    ground (arith, h2)

module _ (codec : Codec) where
  -- What a decoding has checked.
  pub record IsBound (value : Fields) (provider operation : Text) (config : Fields)
      (lineage : ContinuationLineage) (state : Fields) : Type 0 where
    pub of_provider : is_text provider (get (codes "provider") value) ≡ true
    pub of_operation : is_text operation (get (codes "operation") value) ≡ true
    pub of_config :
        (digest : Text) × (get (codes "config_hash") value ≡ some (string digest))
        × (canonical_projection_hash codec config ≡ ok digest)
    pub of_lineage : lineage_fits codec lineage (fields_of (get (codes "lineage") value)) ≡ true
    pub of_decoding :
        (allowed : List Text) × (decode_state codec operation config allowed
            (fields_of (get (codes "state") value))
          ≡ ok state)
    pub of_state : fields_of (get (codes "state") value) ≡ some state

  config_fits-digest :
      (config : Fields) (o : Option Json) {u : Unit}
      → config_fits codec config o ≡ ok u
      → (digest : Text) × (o ≡ some (string digest))
        × (canonical_projection_hash codec config ≡ ok digest)
  unfolding config_fits
  config_fits-digest config (some (string digest)) h =
      let (shaped, h1) = passed (codes "continuation_config_invalid") (is_hash digest) _ h in
      let (expected, f, h2) = bind-ok (canonical_projection_hash codec config) _ h1 in
      (
        digest,
        refl,
        f
            ∙ ap ok (
                sym (
                  text_eq→eq digest expected (
                    raises-ok (codes "continuation_config_invalid") (text_eq digest expected) h2))),
      )
  config_fits-digest config none h = cc
  config_fits-digest config (some null) h = cc
  config_fits-digest config (some (boolean b)) h = cc
  config_fits-digest config (some (integer n)) h = cc
  config_fits-digest config (some (array a)) h = cc
  config_fits-digest config (some (object a)) h = cc

  all_three : (a b c : Bool) → (a && b && c) ≡ true → (b ≡ true) × (c ≡ true)
  all_three a b c h = ground arith

  decode_known-IsBound :
      (value : Fields) (provider operation : Text) (config : Fields) (lineage : ContinuationLineage)
      (allowed : List Text) {state : Fields}
      → decode_known codec value provider operation config lineage allowed ≡ ok state
      → IsBound value provider operation config lineage state
  unfolding decode_known
  decode_known-IsBound value provider operation config lineage allowed h =
      let (shape, h1) = passed (codes "continuation_shape_invalid") (same_names base value) _ h in
      let (identity, h2) =
        passed (codes "continuation_identity_invalid")
          (is_number 1 (get (codes "version") value)
            && is_text provider (get (codes "provider") value)
            && is_text operation (get (codes "operation") value))
          _ h1 in
      let (c, hashed, h3) =
        bind-ok (config_fits codec config (get (codes "config_hash") value)) _ h2 in
      let (window, h4) =
        passed (codes "continuation_window_invalid")
          (window_fits config (fields_of (get (codes "resolved_window") value))) _ h3 in
      let (bound, h5) =
        passed (codes "continuation_lineage_invalid")
          (lineage_fits codec lineage (fields_of (get (codes "lineage") value))) _ h4 in
      let (of_provider, of_operation) =
        all_three (is_number 1 (get (codes "version") value))
          (is_text provider (get (codes "provider") value))
          (is_text operation (get (codes "operation") value)) identity in
      record {
        of_provider = of_provider;
        of_operation = of_operation;
        of_config = config_fits-digest config (get (codes "config_hash") value) hashed;
        of_lineage = bound;
        of_decoding = (allowed, h5);
        of_state =
            decode_state-same codec operation config allowed (fields_of (get (codes "state") value))
              h5;
      }

  decode_allowed-IsBound :
      (value : Fields) (provider operation : Text) (config : Fields) (lineage : ContinuationLineage)
      (allowed : Option (List Text)) {state : Fields}
      → decode_allowed codec value provider operation config lineage allowed ≡ ok state
      → IsBound value provider operation config lineage state
  unfolding decode_allowed
  decode_allowed-IsBound value provider operation config lineage none h = cc
  decode_allowed-IsBound value provider operation config lineage (some allowed) h =
      decode_known-IsBound value provider operation config lineage allowed h

  pub decode-IsBound :
      (value : Fields) (provider operation : Text) (config : Fields) (lineage : ContinuationLineage)
      {state : Fields}
      → decode_continuation codec value provider operation config lineage ≡ ok state
      → IsBound value provider operation config lineage state
  unfolding decode_continuation
  decode-IsBound value provider operation config lineage h =
      decode_allowed-IsBound value provider operation config lineage
        (operation_keys provider operation) h
