-- ===== src/Collection/Revisions/Status.antt =====
-- The life of a target under revisions and pauses, in any order.
use mathlib.Core.Path.{subst}
use news_collect.Base.{
  ℕ, ◌+◌, ◌≡◌, ◌≢◌, ◌≤◌, refl, sym, ap, ◌∙◌, some, List, true, not, ◌||◌, ◌==◌, any, arith,
  Bool-cases, inl, inr, ==→eq,
}
use news_collect.Base.Order.{codes}
use news_collect.Base.Rows.{find, modify, find-put, find-key}
use news_collect.Base.Result.{ok, bind-ok}
use news_collect.Db.Models.{
  CollectionTarget, CollectionTargetStatus, draft, active, paused, blocked, retired,
}
use news_collect.Collection.ControlPlane.{target_key}
use news_collect.Collection.Targets.{OperationContract}
use news_collect.Collection.Revisions.{Values, Repository, transition, same_status}
use news_collect.Collection.Revisions.Checks.{require, at_revision, runs_now}
use news_collect.Collection.Revisions.Revise.{
  paused_target, paused_rows, revised, revise, pause_for_continuation_abandon,
}
use news_collect.Collection.Revisions.Guards.{at_revision-ok, Revises, revise-Revises}

-- One change of a target: its status stays or takes an allowed transition, its revision does not fall.
pub record Moves (t t' : CollectionTarget) : Type 0 where
  pub status : (same_status t'.status t.status || transition t.status t'.status) ≡ true
  pub revision : t.config_revision ≤ t'.config_revision

same_status_refl : (s : CollectionTargetStatus) → same_status s s ≡ true
unfolding same_status
same_status_refl draft = refl
same_status_refl active = refl
same_status_refl paused = refl
same_status_refl blocked = refl
same_status_refl retired = refl

Moves-self : (t : CollectionTarget) → Moves t t
Moves-self t = record { status = rw (same_status_refl t.status) refl; revision = omega arith }

-- What a transaction does to every target.
abbrev Kept : List CollectionTarget → List CollectionTarget → Type 0
Kept old new =
    (j : ℕ) (t : CollectionTarget)
    → find target_key j old ≡ some t
    → (t' : CollectionTarget) × (find target_key j new ≡ some t') × Moves t t'

-- A transaction of the repository that commits.
pub data Step (rows : Repository) : Repository → Type 0 where
  revises :
      (contracts : List OperationContract) (target_id expected : ℕ) (values : Values) (now k : ℕ)
      {rows' : Repository}
      → revise contracts target_id expected values now rows ≡ ok (k, rows')
      → Step rows rows'
  pauses :
      (target_id expected : ℕ) {rows' : Repository}
      → pause_for_continuation_abandon target_id expected rows ≡ ok rows'
      → Step rows rows'

pub data Reach (rows : Repository) : Repository → Type 0 where
  here : Reach rows rows
  next : {rows' rows2 : Repository} → Reach rows rows' → Step rows' rows2 → Reach rows rows2

Kept-Revises :
    (target_id expected : ℕ) (values : Values) (now : ℕ) (rows : Repository) (k : ℕ)
    (rows' : Repository)
    → Revises target_id expected values now rows k rows'
    → Kept rows.targets rows'.targets
unfolding revised
Kept-Revises target_id expected values now rows k rows' r j t at =
    elim (Bool-cases (target_id == j)) [
      | inl e ↦
          let same : r.current ≡ t = ground (arith, r.there, ==→eq target_id j e) in
          (
            revised values r.proposed r.semantics expected now r.current,
            subst
                (λ i.
                  find target_key i rows'.targets
                  ≡ some (revised values r.proposed r.semantics expected now r.current))
                (==→eq target_id j e) r.written,
            subst (λ u. Moves u (revised values r.proposed r.semantics expected now r.current)) same
                (record { status = r.allowed; revision = omega (arith, r.expects) }),
          )
      | inr e ↦ (t, r.others j e ∙ at, Moves-self t)
    ]

Kept-self : (targets : List CollectionTarget) → Kept targets targets
Kept-self targets j t at = (t, at, Moves-self t)

Kept-put :
    (k : ℕ) (current new : CollectionTarget) (targets : List CollectionTarget)
    → find target_key k targets ≡ some current
    → new.id ≡ current.id
    → Moves current new
    → Kept targets (modify target_key new.id (λ old. new) targets)
Kept-put k current new targets there same moves j t at = elim (Bool-cases (new.id == j)) [
  | inl e ↦
      let id : current.id ≡ k = find-key target_key k targets {a = current} there in
      let own : current ≡ t = ground (arith, ==→eq new.id j e) in
      (new, find-put target_key new j targets ∙ rw (e, at) refl, subst (λ u. Moves u new) own moves)
  | inr e ↦ (t, find-put target_key new j targets ∙ rw e at, Moves-self t)
]

repository-inj : {a b : Repository} → ok a ≡ ok b → a ≡ b
repository-inj h = cc

Moves-pause :
    (current : CollectionTarget) → current.status ≡ active → Moves current (paused_target current)
unfolding transition paused_target same_status
Moves-pause current s = record { status = rw s refl; revision = omega arith }

paused_rows-Kept :
    (status : CollectionTargetStatus) (current : CollectionTarget) (target_id : ℕ)
    (rows : Repository) {rows' : Repository}
    → current.status ≡ status
    → find target_key target_id rows.targets ≡ some current
    → paused_rows status current rows ≡ ok rows'
    → Kept rows.targets rows'.targets
unfolding paused_rows paused_target
paused_rows-Kept paused current target_id rows {rows'} s there h =
    subst (Kept rows.targets) (ap (λ (r : Repository). r.targets) (repository-inj h))
      (Kept-self rows.targets)
paused_rows-Kept active current target_id rows {rows'} s there h =
    subst (Kept rows.targets) (ap (λ (r : Repository). r.targets) (repository-inj h)) (
      Kept-put target_id current (paused_target current) rows.targets there refl
        (Moves-pause current s))
paused_rows-Kept draft current target_id rows {rows'} s there h = cc
paused_rows-Kept blocked current target_id rows {rows'} s there h = cc
paused_rows-Kept retired current target_id rows {rows'} s there h = cc

Step-Kept : {rows rows' : Repository} → Step rows rows' → Kept rows.targets rows'.targets
unfolding pause_for_continuation_abandon
Step-Kept {rows} {rows'} (revises contracts target_id expected values now k h) =
    Kept-Revises target_id expected values now rows k rows'
      (revise-Revises contracts target_id expected values now rows k rows' h)
Step-Kept {rows} {rows'} (pauses target_id expected h) =
    let (current, e, h0) =
      bind-ok (at_revision (find target_key target_id rows.targets) expected) _ h in
    let (u, idle, last) =
      bind-ok
        (require (not (any (runs_now target_id) rows.runs)) (codes "target_revision_in_flight")) _
        h0 in
    paused_rows-Kept current.status current target_id rows {rows' = rows'} refl
      (at_revision-ok _ expected {current = current} e).0 last

only_retired :
    (s : CollectionTargetStatus)
    → (same_status s retired || transition retired s) ≡ true
    → s ≡ retired
unfolding same_status transition
only_retired retired h = refl
only_retired draft h = cc
only_retired active h = cc
only_retired paused h = cc
only_retired blocked h = cc

Moves-retired : {t t' : CollectionTarget} → Moves t t' → t.status ≡ retired → t'.status ≡ retired
Moves-retired {t} {t'} moves h =
    only_retired t'.status
      (subst (λ s. (same_status t'.status s || transition s t'.status) ≡ true) h moves.status)

some-ne :
    (t u : CollectionTarget) (n : ℕ)
    → some t ≡ some u
    → t.config_revision ≡ n + 1
    → u.config_revision ≢ n
some-ne t u n h up same = ground arith

-- A target later on: its revision has not fallen, and if it was RETIRED it still is.
abbrev pub Later : ℕ → CollectionTarget → Repository → Type 0
Later j t rows' =
    (t' : CollectionTarget) × (find target_key j rows'.targets ≡ some t')
    × (t.config_revision ≤ t'.config_revision)
    × (t.status ≡ retired → t'.status ≡ retired)

-- Whatever revisions and pauses commit, in any order and any number, a target stays in the table, its
-- revision does not fall, and a RETIRED target stays RETIRED.
pub retired_is_final :
    {rows rows' : Repository} (j : ℕ) (t : CollectionTarget)
    → find target_key j rows.targets ≡ some t
    → Reach rows rows'
    → Later j t rows'
retired_is_final j t there here = (t, there, omega arith, λ h. h)
retired_is_final j t there (next reach step) =
    let (t1, at1, up1, r1) = retired_is_final j t there reach in
    let (t2, at2, moves) = Step-Kept step j t1 at1 in
    (t2, at2, omega (arith, up1, moves.revision), λ h. Moves-retired moves (r1 h))

-- Of two revisions that expect the same revision of a target, the second does not commit.
pub revise-once :
    (contracts : List OperationContract) (target_id expected : ℕ) (values values' : Values)
    (now later : ℕ) (rows rows' rows2 : Repository) (k j : ℕ)
    → revise contracts target_id expected values now rows ≡ ok (k, rows')
    → revise contracts target_id expected values' later rows' ≢ ok (j, rows2)
unfolding revised
revise-once contracts target_id expected values values' now later rows rows' rows2 k j h h2 =
    let one = revise-Revises contracts target_id expected values now rows k rows' h in
    let two = revise-Revises contracts target_id expected values' later rows' j rows2 h2 in
    some-ne _ two.current expected (sym one.written ∙ two.there) refl two.expects
