-- ===== src/Collection/Dispatch.antt =====
-- collection/control_plane.py, `TargetScheduler`: the claim of the targets that are due, each by a marker
-- in Redis. The rows stay during one claim, and only the claim writes to Redis. `uuid5`, the text of
-- an id and of a number, and the reader of `window_mode` are parameters.
pub mod Marks
pub mod Once
pub mod Ends
use news_collect.Base.{
  ℕ, zero, suc, ◌+◌, ◌-◌, ◌*◌, ◌/◌, min, max, Option, none, some, List, [], ◌∷◌, ◌++◌, Bool, true,
  false, not, ◌&&◌, ◌||◌, ltb, leb, ◌==◌, if◌then◌else◌, length,
}
use news_collect.Base.Order.{Text, codes, text_eq}
use news_collect.Base.Rows.{find}
use news_collect.Base.Result.{Result, ok, err}
use news_collect.Db.Models.{CollectionTarget}
use news_collect.Collection.Locking.{Redis, owns}
use news_collect.Collection.ControlPlane.{target_key}
use news_collect.Collection.ControlPlane.Pages.{TargetDispatch}
use news_collect.Collection.Targets.{
  Loading, got, repository_error, config_error, OperationContract, Rows, LoadedTarget, DueTarget,
  load_for_execution, due_page,
}

-- What the claim is given from outside.
pub record Context : Type 1 where
  pub redis : Redis
  pub uuid5 : Text → Text
  pub id_text : ℕ → Text
  pub number_text : ℕ → Text
  pub window_mode : Text → Option Text
  pub contracts : List OperationContract
  pub rows : Rows
  pub marker_ttl : ℕ

-- The loop over one page goes on, has claimed enough, or raises.
pub data Scan {ℓ} (S : Type ℓ) : Type ℓ where
  scanned : Option DueTarget → List TargetDispatch → S → Scan S
  filled : List TargetDispatch → S → Scan S
  raises : Text → List TargetDispatch → S → Scan S

module _ (context : Context) where
  open context use {redis, uuid5, id_text, number_text, window_mode, contracts, rows, marker_ttl}

  unfoldable pub dispatch_identity : ℕ → ℕ → ℕ → Text → Text
  dispatch_identity target_id revision slot mode =
      id_text target_id
      ++ (codes ":"
          ++ (number_text revision ++ (codes ":" ++ (number_text slot ++ (codes ":" ++ mode)))))

  unfoldable pub dispatch_task_id : Text → Text
  dispatch_task_id identity = codes "collection-target-" ++ uuid5 identity

  unfoldable pub marker_key : TargetDispatch → Text
  unfolding dispatch_task_id
  marker_key dispatch = codes "r1:dispatch:" ++ dispatch_task_id dispatch.dispatch_id

  -- `_revision`, and the load of that revision.
  revision_of : Option CollectionTarget → Loading ℕ
  revision_of none = repository_error (codes "target_not_found")
  revision_of (some target) = got target.config_revision

  load_revision : ℕ → Loading ℕ → Loading LoadedTarget
  load_revision target_id (got revision) = load_for_execution contracts rows target_id revision
  load_revision target_id (repository_error e) = repository_error e
  load_revision target_id (config_error e) = config_error e

  -- `loaded.config.get("window_mode") == "fixed_window"`
  is_fixed : Option Text → Bool
  is_fixed none = false
  is_fixed (some mode) = text_eq mode (codes "fixed_window")

  slot_of : DueTarget → ℕ → ℕ → ℕ
  slot_of due now cadence =
      if due.retry_due then due.effective_due_at / 1000000 else now / 1000000 / cadence

  unfoldable pub dispatch_for : CollectionTarget → ℕ → TargetDispatch
  unfolding dispatch_identity
  dispatch_for target slot = record {
    target_id = target.id;
    config_revision = target.config_revision;
    scheduled_slot = slot;
    run_mode = codes "normal";
    dispatch_id = dispatch_identity target.id target.config_revision slot (codes "normal");
  }

  -- SET NX with an expiry. A store is that of Redis at one moment: a marker that has expired is one that
  -- a later store does not have.
  unfoldable pub mark : TargetDispatch → ℕ → redis.Store → Bool × redis.Store
  unfolding marker_key
  mark dispatch ttl s = redis.set_nx (marker_key dispatch) dispatch.dispatch_id (ttl * 1000) s

  ttl_of : CollectionTarget → ℕ → ℕ
  ttl_of target cadence = max (max marker_ttl cadence) (target.max_runtime_seconds + 900)

  marked :
      ℕ → DueTarget → TargetDispatch → Bool × redis.Store → List TargetDispatch → Scan redis.Store
  marked limit due dispatch (false, s) claimed = scanned (some due) claimed s
  marked limit due dispatch (true, s) claimed =
      let claimed' = claimed ++ dispatch ∷ [] in
      if leb limit (length claimed') then filled claimed' s else scanned (some due) claimed' s

  claim_loaded :
      ℕ
      → ℕ
      → DueTarget
      → Loading LoadedTarget
      → List TargetDispatch
      → redis.Store
      → Scan redis.Store
  unfolding marked mark ttl_of slot_of is_fixed
  claim_loaded limit now due (repository_error e) claimed s = scanned (some due) claimed s
  claim_loaded limit now due (config_error e) claimed s = raises e claimed s
  claim_loaded limit now due (got loaded) claimed s =
      if loaded.target.provider_contract_version == 2 && is_fixed (window_mode loaded.config)
      then scanned (some due) claimed s
      else (let cadence = max loaded.target.cadence_seconds 1 in
          let dispatch = dispatch_for loaded.target (slot_of due now cadence) in
          marked limit due dispatch (mark dispatch (ttl_of loaded.target cadence) s) claimed)

  -- One turn of the loop over a page.
  unfoldable pub claim_one :
      ℕ → ℕ → DueTarget → List TargetDispatch → redis.Store → Scan redis.Store
  unfolding claim_loaded revision_of load_revision
  claim_one limit now due claimed s =
      claim_loaded limit now due
        (load_revision due.target_id (revision_of (find target_key due.target_id rows.targets)))
        claimed s

  then_scan :
      (Option DueTarget → List TargetDispatch → redis.Store → Scan redis.Store)
      → Scan redis.Store
      → Scan redis.Store
  then_scan rest (scanned after claimed s) = rest after claimed s
  then_scan rest (filled claimed s) = filled claimed s
  then_scan rest (raises e claimed s) = raises e claimed s

  unfoldable pub claim_page :
      ℕ
      → ℕ
      → List DueTarget
      → Option DueTarget
      → List TargetDispatch
      → redis.Store
      → Scan redis.Store
  unfolding then_scan
  claim_page limit now [] after claimed s = scanned after claimed s
  claim_page limit now (due ∷ page) after claimed s =
      then_scan (claim_page limit now page) (claim_one limit now due claimed s)

  -- How `claim_due` ends: with its value, or with an exception; `endless` if the fuel of the loop is used up.
  pub data End : Type 0 where
    returned : End
    raised : Text → End
    endless : End

  -- The end of `claim_due`, with what is claimed and Redis as it then is.
  pub record Claimed : Type 0 where
    pub end : End
    pub dispatches : List TargetDispatch
    pub store : redis.Store

  found : End → List TargetDispatch → redis.Store → Claimed
  found end dispatches store = record { end = end; dispatches = dispatches; store = store }

  next_page :
      Bool
      → (Option DueTarget → List TargetDispatch → redis.Store → Claimed)
      → Scan redis.Store
      → Claimed
  unfolding found
  next_page last rest (filled claimed s) = found returned claimed s
  next_page last rest (raises e claimed s) = found (raised e) claimed s
  next_page true rest (scanned after claimed s) = found returned claimed s
  next_page false rest (scanned after claimed s) = rest after claimed s

  -- `while`: a page that is not empty counts at least one row to the budget.
  unfoldable pub claim_pages :
      ℕ → ℕ → ℕ → ℕ → ℕ → Option DueTarget → List TargetDispatch → redis.Store → Claimed
  unfolding next_page found
  claim_pages zero limit now budget n after claimed s = found endless claimed s
  claim_pages (suc fuel) limit now budget n after claimed s =
      let page_limit = min 100 (budget - n) in
      let page = due_page window_mode now page_limit after rows.targets in
      if ltb (length claimed) limit && ltb n budget && ltb 0 (length page)
      then next_page (ltb (length page) page_limit)
          (claim_pages fuel limit now budget (n + length page))
          (claim_page limit now page after claimed s)
      else found returned claimed s

  unfoldable pub scan_budget : ℕ → ℕ
  scan_budget limit = min 500 (max 100 (limit * 8))

  unfoldable pub claim_due : ℕ → ℕ → redis.Store → Claimed
  unfolding found
  claim_due now limit s =
      if ltb limit 1 || ltb 500 limit
      then found (raised (codes "dispatch_budget_invalid")) [] s
      else claim_pages (suc (scan_budget limit)) limit now (scan_budget limit) 0 none [] s

  -- `release`: the script of the marker.
  unfoldable pub release : TargetDispatch → redis.Store → redis.Store
  unfolding marker_key owns
  release dispatch s =
      if owns redis dispatch.dispatch_id (redis.get (marker_key dispatch) s)
      then redis.del (marker_key dispatch) s
      else s
