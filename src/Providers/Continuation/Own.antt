-- ===== src/Providers/Continuation/Own.antt =====
-- A token is decoded to its state, and by the request alone that it was encoded for.
use mathlib.Core.Path.{subst}
use news_collect.Base.{◌≡◌, sym, ap, ◌∙◌, some, Bool, true, ◌&&◌, ◌==◌, ==→eq, arith, is_some}
use news_collect.Base.Json.{string, Fields, get, same_number, number}
use news_collect.Base.Order.{Text, codes, text_eq, text_eq→eq}
use news_collect.Base.Result.{ok, bind-ok}
use news_collect.Providers.Continuation.{
  Codec, ContinuationLineage, is_number, fields_of, operation_keys,
}
use news_collect.Providers.Continuation.Decode.{
  mapping, lineage_fits, canonical_projection_hash, decode_continuation, token, encode_continuation,
}
use news_collect.Providers.Continuation.Bound.{IsBound, passed, decode-IsBound}

module _ (codec : Codec) where
  -- A request that decodes a token is the one of the token, up to the hash of its configuration.
  pub record IsOwn (provider operation : Text) (config : Fields) (lineage : ContinuationLineage)
      (state : Fields) (provider' operation' : Text) (config' : Fields)
      (lineage' : ContinuationLineage) (state' : Fields) : Type 0 where
    pub provider_same : provider ≡ provider'
    pub operation_same : operation ≡ operation'
    pub config_same :
        canonical_projection_hash codec config ≡ canonical_projection_hash codec config'
    pub state_same : state ≡ state'
    pub target_same : codec.uuid lineage.target_id ≡ codec.uuid lineage'.target_id
    pub revision_same : lineage.config_revision ≡ lineage'.config_revision
    pub key_same : lineage.operation_key ≡ lineage'.operation_key
    pub version_same : lineage.operation_config_version ≡ lineage'.operation_config_version
    pub contract_same : lineage.provider_contract_version ≡ lineage'.provider_contract_version
    pub cursor_same : lineage.cursor_version ≡ lineage'.cursor_version
    pub mode_same : lineage.run_mode ≡ lineage'.run_mode

  -- The seven fields of two lineages of which one fits the other.
  lineage_fits-all :
      (lineage lineage' : ContinuationLineage)
      → lineage_fits codec lineage' (some (mapping codec lineage)) ≡ true
      → (text_eq (codec.uuid lineage.target_id) (codec.uuid lineage'.target_id) ≡ true)
        × ((lineage.config_revision == lineage'.config_revision) ≡ true)
        × (text_eq lineage.operation_key lineage'.operation_key ≡ true)
        × ((lineage.operation_config_version == lineage'.operation_config_version) ≡ true)
        × ((lineage.provider_contract_version == lineage'.provider_contract_version) ≡ true)
        × ((lineage.cursor_version == lineage'.cursor_version) ≡ true)
        × (text_eq lineage.run_mode lineage'.run_mode ≡ true)
  unfolding lineage_fits mapping get text_eq is_number same_number number
  lineage_fits-all lineage lineage' h = all_seven _ _ _ _ _ _ _ _ h
    where
      all_seven :
          (z a b c d e f g : Bool)
          → (z && a && b && c && d && e && f && g) ≡ true
          → (a ≡ true) × (b ≡ true) × (c ≡ true) × (d ≡ true) × (e ≡ true) × (f ≡ true) × (g ≡ true)
      all_seven z a b c d e f g h = (
        ground arith,
        ground arith,
        ground arith,
        ground arith,
        ground arith,
        ground arith,
        ground arith,
      )

  token-IsOwn :
      (digest provider operation : Text) (config : Fields) (lineage : ContinuationLineage)
      (state : Fields) (provider' operation' : Text) (config' : Fields)
      (lineage' : ContinuationLineage) (state' : Fields)
      → canonical_projection_hash codec config ≡ ok digest
      → IsBound codec
          (token codec digest provider operation config lineage state)
          provider'
          operation'
          config'
          lineage'
          state'
      → IsOwn provider operation config lineage state provider' operation' config' lineage' state'
  unfolding token get fields_of text_eq
  token-IsOwn digest provider operation config lineage state provider' operation' config' lineage'
        state' hashed b =
      let (found, at, hashed') = b.of_config in
      let (t, r, k, v, c, u, m) = lineage_fits-all lineage lineage' b.of_lineage in
      record {
        provider_same = text_eq→eq _ _ b.of_provider;
        operation_same = text_eq→eq _ _ b.of_operation;
        config_same = hashed ∙ ap ok (own_digest at) ∙ sym hashed';
        state_same = ground (arith, b.of_state);
        target_same = text_eq→eq _ _ t;
        revision_same = ==→eq _ _ r;
        key_same = text_eq→eq _ _ k;
        version_same = ==→eq _ _ v;
        contract_same = ==→eq _ _ c;
        cursor_same = ==→eq _ _ u;
        mode_same = text_eq→eq _ _ m;
      }
    where
      own_digest : {s t : Text} → some (string s) ≡ some (string t) → s ≡ t
      own_digest h = ground (arith, h)

  -- A token that was encoded decodes to its state, for the same request. Whatever other request decodes
  -- it finds the same state and has the provider, the operation, the hash of the configuration, the
  -- target's text and every other field of the lineage of the request that it was encoded for.
  pub encode-decode :
      (provider operation : Text) (config : Fields) (lineage : ContinuationLineage)
      (state value : Fields)
      → encode_continuation codec provider operation config lineage state ≡ ok value
      → (decode_continuation codec value provider operation config lineage ≡ ok state)
        × ((provider' operation' : Text) (config' : Fields) (lineage' : ContinuationLineage)
              (state' : Fields)
            → decode_continuation codec value provider' operation' config' lineage' ≡ ok state'
            → IsOwn provider operation config lineage state provider' operation' config' lineage'
                state')
  unfolding encode_continuation
  encode-decode provider operation config lineage state value h =
      let (known, h1) =
        passed (codes "continuation_operation_unknown")
          (is_some (operation_keys provider operation)) _ h in
      let (digest, hashed, h2) = bind-ok (canonical_projection_hash codec config) _ h1 in
      let made = token codec digest provider operation config lineage state in
      let (checked, decoded, h3) =
        bind-ok (decode_continuation codec made provider operation config lineage) _ h2 in
      let is_made : made ≡ value = ok_injective h3 in
      let own =
        token-IsOwn digest provider operation config lineage state provider operation config lineage
          checked hashed (decode-IsBound codec made provider operation config lineage decoded) in
      (
        subst (λ v. decode_continuation codec v provider operation config lineage ≡ ok state)
            is_made (decoded ∙ ap ok (sym own.state_same)),
        λ provider' operation' config' lineage' state' k.
            token-IsOwn digest provider operation config lineage state provider' operation' config'
              lineage' state' hashed
              (decode-IsBound codec made provider' operation' config' lineage' (
                subst
                  (λ v.
                    decode_continuation codec v provider' operation' config' lineage' ≡ ok state')
                  (sym is_made) k)),
      )
    where
      ok_injective : {a b : Fields} → ok a ≡ ok b → a ≡ b
      ok_injective h = ground (arith, h)
