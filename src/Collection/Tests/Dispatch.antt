-- ===== src/Collection/Tests/Dispatch.antt =====
-- Claims of one target that is due.
use news_collect.Base.{false, ◌≡◌, ◌≢◌, ◌≤◌, refl, none, List, [], ◌∷◌, length, All}
use news_collect.Base.Order.{Text, codes, text_eq, insert_by}
use news_collect.Db.Models.{snapshot_watermark, incremental}
use news_collect.Collection.Tests.Lock.{server}
use news_collect.Collection.Tests.Samples.{target}
use news_collect.Collection.Tests.Runner.{source, account}
use news_collect.Collection.Targets.{
  OperationContract, got, load_for_execution, due_page, eligible, validate,
}
use news_collect.Collection.Dispatch.{
  Context, Claimed, claim_due, claim_pages, claim_page, claim_one, marker_key, scan_budget, release,
  dispatch_for,
}
use news_collect.Collection.Dispatch.Once.{claim_due-marks, claim_due-once, claim_due-release}
use news_collect.Collection.Dispatch.Marks.{Apart, Marked}
use news_collect.Collection.Dispatch.Ends.{claim_due-ends, is_endless}
use news_collect.Collection.Dispatch.{raised}

abbrev pub contract : OperationContract
contract = record {
  provider = codes "fake";
  operation_key = codes "news";
  operation_config_version = 2;
  provider_contract_version = 1;
  cursor_strategy = snapshot_watermark;
  collection_mode = incremental;
  batch_ceiling = 20;
  legacy_cursor_type = none;
  pagination_capability = codes "bounded";
  validator = λ config. got config;
}

abbrev context : List OperationContract → Context
context contracts = record {
  redis = server;
  uuid5 = λ text. text;
  id_text = λ k. k ∷ [];
  number_text = λ n. n ∷ [];
  window_mode = λ config. none;
  contracts = contracts;
  rows = record { targets = target ∷ []; sources = source ∷ []; accounts = account ∷ [] };
  marker_ttl = 1800;
}

abbrev known : Context
known = context (contract ∷ [])

-- The minute 100 and the next one.
abbrev first_claim : Claimed known
first_claim = claim_due known 6000000000 25 []

abbrev second_claim : Claimed known
second_claim = claim_due known 6060000000 25 first_claim.store

claim_test :
    (length first_claim.dispatches ≡ 1)
    × (length second_claim.dispatches ≡ 0)
    × ((claim_due (context []) 6000000000 25 []).end ≡ raised (codes "operation_contract_unknown"))
unfolding claim_due claim_pages scan_budget due_page insert_by claim_page claim_one
    load_for_execution eligible text_eq validate dispatch_for
claim_test = (refl, refl, refl)

claim_due-marks_example :
    (length first_claim.dispatches ≤ 25)
    × Apart known first_claim.dispatches
    × All (Marked known [] first_claim.store) first_claim.dispatches
claim_due-marks_example = claim_due-marks known 6000000000 25 []

claim_due-once_example :
    All
      (λ d. All (λ e. marker_key known d ≢ marker_key known e) second_claim.dispatches)
      first_claim.dispatches
claim_due-once_example =
    claim_due-once known 6000000000 25 6060000000 25 [] first_claim.store (λ j v h. h)

claim_due-release_example :
    All
      (λ d.
        (server.get (marker_key known d) (release known d first_claim.store) ≡ none)
        × ((j : Text)
            → marker_key known d ≢ j
            → server.get j (release known d first_claim.store) ≡ server.get j first_claim.store))
      first_claim.dispatches
claim_due-release_example = claim_due-release known 6000000000 25 []

claim_due-ends_example : is_endless known (claim_due known 6000000000 25 []).end ≡ false
claim_due-ends_example = claim_due-ends known 6000000000 25 []
