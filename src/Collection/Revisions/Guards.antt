-- ===== src/Collection/Revisions/Guards.antt =====
-- What a revision of a target that commits has checked, and what it writes.
use mathlib.Core.Path.{subst}
use news_collect.Base.{
  ℕ, ◌+◌, ◌≡◌, refl, Option, none, some, List, Bool, true, false, not, ◌||◌, ◌==◌, any, arith,
}
use news_collect.Base.Order.{Text, codes}
use news_collect.Base.Rows.{find, find-modify_self, find-modify_other}
use news_collect.Base.Result.{ok, bind-ok}
use news_collect.Db.Models.{
  CollectionTarget, CollectionTargetStatus, CollectionCursorStrategy, CollectionMode,
}
use news_collect.Collection.ControlPlane.{target_key}
use news_collect.Collection.Targets.{OperationContract}
use news_collect.Collection.Revisions.{Values, Repository, transition, same_status}
use news_collect.Collection.Revisions.Checks.{
  require, at_revision, fields_allowed, runs_now, pends, quiescent, parsed, statuses,
  proposed_status, found, contract_fits, budgets_fit, activation,
}
use news_collect.Collection.Revisions.Revise.{revised, revise}
use news_collect.Collection.Revisions.Fields.{
  Becomes, revised-Becomes, proposed_status-Named, contract_fits-Named,
}

pub require-ok : (b : Bool) (code : Text) {u : Unit} → require b code ≡ ok u → b ≡ true
unfolding require
require-ok true code {u} h = refl
require-ok false code {u} h = cc

pub at_revision-ok :
    (o : Option CollectionTarget) (expected : ℕ) {current : CollectionTarget}
    → at_revision o expected ≡ ok current
    → (o ≡ some current) × (current.config_revision ≡ expected)
unfolding at_revision
at_revision-ok none expected {current} h = cc
at_revision-ok (some target) expected {current} h = ground arith

quiescent-ok :
    (target_id : ℕ) (rows : Repository) {u : Unit}
    → quiescent target_id rows ≡ ok u
    → (any (runs_now target_id) rows.runs ≡ false) × (any (pends target_id) rows.cursors ≡ false)
unfolding quiescent
quiescent-ok target_id rows {u} h =
    let (a, idle, rest) =
      bind-ok
        (require (not (any (runs_now target_id) rows.runs)) (codes "target_revision_in_flight")) _
        h in
    let first = require-ok _ _ {u = a} idle in
    let second = require-ok _ _ {u = u} rest in (ground arith, ground arith)

proposed_status-ok :
    (value : Option Text) (current : CollectionTargetStatus) {proposed : CollectionTargetStatus}
    → proposed_status value current ≡ ok proposed
    → (same_status proposed current || transition current proposed) ≡ true
unfolding proposed_status
proposed_status-ok value current {proposed} h =
    let (p, one, rest) =
      bind-ok (parsed statuses value current (codes "target_status_invalid")) _ h in
    let (u, two, last) =
      bind-ok
        (require (same_status p current || transition current p)
          (codes "target_status_transition_invalid"))
        _ rest in
    let same : p ≡ proposed = ground arith in rw (← same) (require-ok _ _ {u = u} two)

-- A revision of a target: the target had the revision that was expected, no RUNNING run and no pending
-- continuation; its status stays or takes an allowed transition; the target has the next revision and the
-- values; the runs and the cursors stay.
pub record Revises (target_id expected : ℕ) (values : Values) (now : ℕ) (rows : Repository) (k : ℕ)
    (rows' : Repository) : Type 0 where
  pub current : CollectionTarget
  pub proposed : CollectionTargetStatus
  pub semantics : CollectionCursorStrategy × CollectionMode
  pub there : find target_key target_id rows.targets ≡ some current
  pub expects : current.config_revision ≡ expected
  pub idle : any (runs_now target_id) rows.runs ≡ false
  pub settled : any (pends target_id) rows.cursors ≡ false
  pub allowed : (same_status proposed current.status || transition current.status proposed) ≡ true
  pub next : k ≡ expected + 1
  pub written :
      find target_key target_id rows'.targets
      ≡ some (revised values proposed semantics expected now current)
  pub becomes :
      Becomes values expected now current (revised values proposed semantics expected now current)
  pub others :
      (j : ℕ)
      → (target_id == j) ≡ false
      → find target_key j rows'.targets ≡ find target_key j rows.targets
  pub runs : rows'.runs ≡ rows.runs
  pub cursors : rows'.cursors ≡ rows.cursors

revised-id :
    (values : Values) (proposed : CollectionTargetStatus)
    (semantics : CollectionCursorStrategy × CollectionMode) (expected now : ℕ)
    (target : CollectionTarget)
    → target_key (revised values proposed semantics expected now target) ≡ target_key target
unfolding revised
revised-id values proposed semantics expected now target = refl

ok-inj : {a b : ℕ × Repository} → ok a ≡ ok b → a ≡ b
ok-inj h = cc

-- A revision commits only on a target that has the expected revision, no RUNNING run and no pending
-- continuation, with a status that stays or takes an allowed transition. The target then has the
-- values that are given and else its old ones, and the next revision, which is returned; it is due now without
-- a retry, its health is unknown, it has a time of retirement exactly if it is RETIRED, and no other field of it
-- has changed. The other targets, the runs and the cursors stay.
pub revise-Revises :
    (contracts : List OperationContract) (target_id expected : ℕ) (values : Values) (now : ℕ)
    (rows : Repository) (k : ℕ) (rows' : Repository)
    → revise contracts target_id expected values now rows ≡ ok (k, rows')
    → Revises target_id expected values now rows k rows'
unfolding revise
revise-Revises contracts target_id expected values now rows k rows' h =
    let (f, e0, h0) = bind-ok (fields_allowed values.others) _ h in
    let (current, e1, h1) =
      bind-ok (at_revision (find target_key target_id rows.targets) expected) _ h0 in
    let (i, e2, h2) = bind-ok (quiescent target_id rows) _ h1 in
    let (proposed, e3, h3) = bind-ok (proposed_status values.status current.status) _ h2 in
    let (source, e4, h4) =
      bind-ok
        (found (find (λ s. s.id) current.source_id rows.sources) (codes "target_source_not_found"))
        _ h3 in
    let (semantics, e5, h5) = bind-ok (contract_fits contracts source current values) _ h4 in
    let (b, e6, h6) = bind-ok (budgets_fit values current) _ h5 in
    let (a, e7, h7) = bind-ok (activation proposed source current rows) _ h6 in
    let (there, expects) = at_revision-ok _ expected {current = current} e1 in
    let (idle, settled) = quiescent-ok target_id rows {u = i} e2 in
    subst (λ (p : ℕ × Repository). Revises target_id expected values now rows p.0 p.1) (ok-inj h7)
      (record {
        current = current;
        proposed = proposed;
        semantics = semantics;
        there = there;
        expects = expects;
        idle = idle;
        settled = settled;
        allowed = proposed_status-ok values.status current.status {proposed = proposed} e3;
        next = refl;
        written =
            find-modify_self target_key target_id (revised values proposed semantics expected now)
              (λ target. revised-id values proposed semantics expected now target) rows.targets
              {a = current} there;
        becomes =
            revised-Becomes values proposed semantics expected now current
              (proposed_status-Named values.status current.status {proposed = proposed} e3)
              (contract_fits-Named contracts source current values {semantics = semantics} e5).0
              (contract_fits-Named contracts source current values {semantics = semantics} e5).1;
        others = λ j ne.
            find-modify_other target_key target_id j
              (revised values proposed semantics expected now)
              (λ target. revised-id values proposed semantics expected now target) rows.targets ne;
        runs = refl;
        cursors = refl;
      })
