-- ===== src/Queue/Fencing.antt =====
-- The lease as a fence: who may still write to a run.
use backhaus_ai_backend.Base.{
  ℕ, ◌+◌, ◌≡◌, sym, subst, ◌≢◌, true, false, arith, inl, inr, Option, some, String, ◌==◌, ltb,
  Bool-cases, Option-cases, any_row, any_row_of_mem, any_row-update_rows-false, count_rows-none,
  All_of_none, All-mono, All-of_any_row, update_rows, update_rows-none, mem-update_rows_hit,
}
use backhaus_ai_backend.Base.Text.{str_eq_refl}
use backhaus_ai_backend.Base.Json.{Json}
use backhaus_ai_backend.Base.Result.{ok, err, conflict}
use backhaus_ai_backend.Store.{Db, RunRow, Status}
use backhaus_ai_backend.Jobs.{Run, owned, active, heartbeat, event, seconds}
use backhaus_ai_backend.Jobs.Claim.{
  Lane, claim_in_lane, recover, take_first, first_by, eligible, procurement_on, claimed_row,
  claimed,
}
use backhaus_ai_backend.Queue.First.{first_by-mem}
use backhaus_ai_backend.Queue.{Reach}
use backhaus_ai_backend.Queue.Untaken.{has_lease, IsUntaken, NeverDrawn, Reach-IsUntaken}
use backhaus_ai_backend.Queue.Steps.{control-Controlled}
use backhaus_ai_backend.Jobs.Control.{
  Action, finish, outcome, finished_row, control, is_run, controlled_row, held, release_for,
  released_row,
}

-- What is refused to a worker that no longer owns its run: each of its calls, with nothing written.
abbrev pub IsFenced : ℕ → Run → Db → Type 0
IsFenced now run db =
    (active now run db ≡ false)
    × (heartbeat now run db ≡ (false, db))
    × ((kind : String) (payload : Json) → event now run kind payload db ≡ err conflict)
    × ((j : Option Json) (e : Option String) → finish now run j e db ≡ db)
    × ((reason : String) → release_for now run reason db ≡ db)

not_held-IsFenced :
    (now : ℕ) (run : Run) (db : Db)
    → any_row (owned now run) db.runs ≡ false
    → any_row (held run) db.runs ≡ false
    → IsFenced now run db
unfolding active heartbeat event finish release_for
not_held-IsFenced now run db h k = (
  h,
  rw (count_rows-none (owned now run) db.runs h, update_rows-none (owned now run) beat db.runs h),
  λ kind payload. rw (count_rows-none (owned now run) db.runs h),
  λ j e. rw (
    count_rows-none (owned now run) db.runs h,
    update_rows-none (owned now run) (finished_row now (outcome run e) j e) db.runs h,
  ),
  λ reason. rw (
    count_rows-none (held run) db.runs k,
    update_rows-none (held run) (released_row now) db.runs k,
  ),
)
  where
    beat : RunRow → RunRow
    beat r = record r { lease_until = some (now + seconds 30) }

-- A worker whose lease no run has is refused everything.
untaken-IsFenced : (now : ℕ) (run : Run) (db : Db) → IsUntaken run db.runs → IsFenced now run db
untaken-IsFenced now run db u =
    not_held-IsFenced now run db
      (All_of_none (owned now run) db.runs (
        All-mono (λ r. has_lease run r ≡ false) (λ r. owned now run r ≡ false) db.runs
          (λ r e. unfold owned in ground arith) u))
      (All_of_none (held run) db.runs (
        All-mono (λ r. has_lease run r ≡ false) (λ r. held run r ≡ false) db.runs
          (λ r e. unfold held in ground arith) u))

-- Once the operator has paused, resumed or cancelled a run, the worker that held it writes nothing
-- more to it: after every history of calls of the job queue, the conversations and the scoped agents in
-- which no claim draws its lease again, and at every time, its event is refused and its heartbeat, its
-- result and its release change nothing.
pub control_fences :
    (now later : ℕ) (action : Action) (st : Status) (run : Run) (db db' : Db) {last : Db}
    → control now run.workspace run.id action db ≡ ok (st, db')
    → (reach : Reach db' last) → NeverDrawn run reach
    → IsFenced later run last
control_fences now later action st run db db' {last = last} h reach never =
    untaken-IsFenced later run last (
      Reach-IsUntaken run reach never (
        subst (IsUntaken run)
          (sym (control-Controlled now run.workspace run.id action st db db' h).runs)
          (All-of_any_row (has_lease run) _ (
            any_row-update_rows-false (has_lease run) (is_run run.workspace run.id)
              (controlled_row now st) db.runs (λ a t. unfold controlled_row in ground arith)
              (λ a t. ground arith)))))

-- What a claim returned and wrote, over the rows that the recovery left.
pub record Claimed (now lease : ℕ) (ws : String) (lane : Lane) (db : Db) (run : Run) (db' : Db)
    : Type 0 where
  pub row : RunRow
  pub picked :
      first_by (eligible now ws lane (procurement_on ws db.agents)) (recover now ws db).runs
      ≡ some row
  pub same : run ≡ claimed lease row
  pub runs :
      db'.runs ≡ update_rows (λ a. a.id == row.id) (claimed_row now lease) (recover now ws db).runs

pub claim-Claimed :
    (now lease : ℕ) (ws : String) (lane : Lane) (run : Run) (db db' : Db)
    → claim_in_lane now lease ws lane db ≡ (some run, db')
    → Claimed now lease ws lane db run db'
unfolding claim_in_lane take_first recover
claim-Claimed now lease ws lane run db db' h =
    elim (Option-cases
      (first_by (eligible now ws lane (procurement_on ws db.agents)) (recover now ws db).runs)) [
        | inl e ↦ absurd (ground (arith, e))
        | inr (r, e) ↦ record {
          row = r;
          picked = e;
          same = ground (arith, e);
          runs = ground (arith, e);
        }
      ]

-- A claim takes a run from whoever held it before: a worker with another lease for that run writes
-- nothing more to it, after every history of calls of the job queue, the conversations and the scoped
-- agents in which no claim draws its lease again, and at every time.
pub claim_fences :
    (now lease later : ℕ) (ws : String) (lane : Lane) (run old : Run) (db db' : Db) {last : Db}
    → claim_in_lane now lease ws lane db ≡ (some run, db')
    → old.id ≡ run.id
    → old.lease ≢ lease
    → (reach : Reach db' last) → NeverDrawn old reach
    → IsFenced later old last
claim_fences now lease later ws lane run old db db' {last = last} h e ne reach never =
    let c = claim-Claimed now lease ws lane run db db' h in
    untaken-IsFenced later old last (
      Reach-IsUntaken old reach never (
        subst (IsUntaken old) (sym c.runs) (
          All-of_any_row (has_lease old) _ (
            any_row-update_rows-false (has_lease old) (λ a. a.id == c.row.id)
              (claimed_row now lease) (recover now ws db).runs
              (λ a t. unfold claimed_row in ground (arith, ne))
              (λ a t. unfold claimed in ground (arith, c.same))))))

-- Right after a claim its worker holds the run exactly while the lease of thirty seconds lasts.
pub claim_owns :
    (now lease later : ℕ) (ws : String) (lane : Lane) (run : Run) (db db' : Db)
    → claim_in_lane now lease ws lane db ≡ (some run, db')
    → active later run db' ≡ ltb later (now + seconds 30)
claim_owns now lease later ws lane run db db' h = elim (Bool-cases (ltb later (now + seconds 30))) [
  | inl live ↦ rw live (
      unfold active in
      subst (λ rs. any_row (owned later run) rs ≡ true) (sym c.runs)
        (any_row_of_mem (owned later run) _
          (mem-update_rows_hit (λ a. a.id == c.row.id) (claimed_row now lease)
            (recover now ws db).runs (ground arith) (first_by-mem _ _ c.picked))
          (unfold owned claimed_row claimed in
            ground (arith, c.same, str_eq_refl c.row.workspace))))
  | inr over ↦ rw over (
      unfold active in
      subst (λ rs. any_row (owned later run) rs ≡ false) (sym c.runs)
        (any_row-update_rows-false (owned later run) (λ a. a.id == c.row.id) (claimed_row now lease)
          (recover now ws db).runs (λ a t. unfold owned claimed_row in ground arith)
          (λ a t. unfold owned claimed in ground (arith, c.same))))
]
  where
    c : Claimed now lease ws lane db run db'
    c = claim-Claimed now lease ws lane run db db' h
