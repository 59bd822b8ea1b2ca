-- ===== src/Queue/Untaken.antt =====
-- A lease that no run has any more, through any history of the queue in which no claim draws it again.
use backhaus_ai_backend.Base.{
  ℕ, ◌+◌, ◌≡◌, ◌≢◌, sym, subst, Bool, true, false, ◌&&◌, arith, inl, inr, Option, some, String,
  str_eq, List, [], ◌∷◌, ◌==◌, Bool-cases, Option-cases, All, All-append, All-update_rows, any_row,
  update_rows, count_rows,
}
use backhaus_ai_backend.Base.Json.{Json}
use backhaus_ai_backend.Store.{Db, RunRow, Kind, holds}
use backhaus_ai_backend.Jobs.{
  Run, heartbeat, event, owned, seconds, insert_run, enqueue_system, has_key, unfinished, new_run,
}
use backhaus_ai_backend.Jobs.Claim.{
  Lane, recover, recovered_row, lapsed, take_first, first_by, eligible, procurement_on, claimed_row,
  claim_in_lane,
}
use backhaus_ai_backend.Jobs.Control.{
  is_run, controlled_row, finish, finished_row, outcome, held, release_for, released_row,
}
use backhaus_ai_backend.Conversations.{archive, archived_row}
use backhaus_ai_backend.ScopedAgents.{parked, resumed_row, pausable, parked_row, shift_jobs}
use backhaus_ai_backend.ScopedAgents.Checks.{
  waiting_review, superseded_row, supersede, queue_review,
}
use backhaus_ai_backend.ScopedAgents.Reviews.{check_one_runs}
use backhaus_ai_backend.Queue.{
  Step, Reach, here, next, enqueues, enqueues_system, claims, beats, reports, finishes, releases,
  controls, archives, switches, checks, turns_on,
}
use backhaus_ai_backend.Queue.Insert.{enqueue_cases}
use backhaus_ai_backend.Queue.Steps.{control-Controlled, switched}

-- The run is not held under this lease.
abbrev pub has_lease : Run → RunRow → Bool
has_lease run r =
    r.id == run.id && str_eq r.workspace run.workspace && holds r.lease_token run.lease

abbrev pub IsUntaken : Run → List RunRow → Type 0
IsUntaken run rs = All (λ r. has_lease run r ≡ false) rs

-- A claim draws a lease that is not the one of the worker.
abbrev pub Draws : Run → {db db' : Db} → Step db db' → Type 0
Draws run (claims _ lease _ _ _) = lease ≢ run.lease
Draws run _ = Unit

-- No claim of the history draws the lease of the worker again.
abbrev pub NeverDrawn : Run → {db db' : Db} → Reach db db' → Type 0
NeverDrawn run here = Unit
NeverDrawn run (next r st) = NeverDrawn run r × Draws run st

module _ (run : Run) where
  write-IsUntaken :
      (p : RunRow → Bool) (f : RunRow → RunRow) (rs : List RunRow)
      → ((a : RunRow) → p a ≡ true → has_lease run a ≡ false → has_lease run (f a) ≡ false)
      → IsUntaken run rs
      → IsUntaken run (update_rows p f rs)
  write-IsUntaken p f rs k h =
      All-update_rows (λ r. has_lease run r ≡ false) p f rs (λ a m e u. k a e u) h

  insert-IsUntaken :
      (now id : ℕ) (ws : String) (conv : Option ℕ) (key : String) (input : Json) (kind : Kind)
      (db : Db)
      → IsUntaken run db.runs
      → IsUntaken run (insert_run (new_run now id ws conv key input kind) db).runs
  unfolding insert_run
  insert-IsUntaken now id ws conv key input kind db h =
      All-append (λ r. has_lease run r ≡ false) db.runs (new_run now id ws conv key input kind ∷ [])
        h (ground arith, tt)

  system-IsUntaken :
      (now id : ℕ) (ws : String) (kind : Kind) (key : String) (input : Json) (db : Db)
      → IsUntaken run db.runs
      → IsUntaken run (enqueue_system now id ws kind key input db).1.runs
  unfolding enqueue_system
  system-IsUntaken now id ws kind key input db h =
      elim (Bool-cases (any_row (has_key ws key) db.runs)) [
        | inl used ↦ rw used h
        | inr new ↦ rw new (insert-IsUntaken now id ws _ key input kind db h)
      ]

  claim-IsUntaken :
      (now lease : ℕ) (ws : String) (lane : Lane) (db : Db)
      → lease ≢ run.lease
      → IsUntaken run db.runs
      → IsUntaken run (claim_in_lane now lease ws lane db).1.runs
  unfolding claim_in_lane take_first recover
  claim-IsUntaken now lease ws lane db ne h =
      let back =
        write-IsUntaken (lapsed now ws) (recovered_row now) db.runs
          (λ a t u. unfold recovered_row in ground arith) h in
      elim (Option-cases
        (first_by (eligible now ws lane (procurement_on ws db.agents)) (recover now ws db).runs)) [
          | inl e ↦ rw (e, take_first, claim_in_lane) back
          | inr (r, e) ↦
              rw (e, take_first, claim_in_lane)
                (write-IsUntaken (λ x. x.id == r.id) (claimed_row now lease)
                  (recover now ws db).runs (λ a t u. unfold claimed_row in ground (arith, ne)) back)
        ]

  finish-IsUntaken :
      (now : ℕ) (w : Run) (j : Option Json) (e : Option String) (db : Db)
      → IsUntaken run db.runs
      → IsUntaken run (finish now w j e db).runs
  unfolding finish
  finish-IsUntaken now w j e db h =
      let done =
        write-IsUntaken (owned now w) (finished_row now (outcome w e) j e) db.runs
          (λ a t u. unfold finished_row in ground arith) h in
      elim (Bool-cases (count_rows (owned now w) db.runs == 1)) [
        | inl c ↦ rw c done
        | inr c ↦ rw c done
      ]

  release-IsUntaken :
      (now : ℕ) (w : Run) (reason : String) (db : Db)
      → IsUntaken run db.runs
      → IsUntaken run (release_for now w reason db).runs
  unfolding release_for
  release-IsUntaken now w reason db h =
      let done =
        write-IsUntaken (held w) (released_row now) db.runs
          (λ a t u. unfold released_row in ground arith) h in
      elim (Bool-cases (count_rows (held w) db.runs == 1)) [ inl c ↦ rw c done | inr c ↦ rw c done ]

  shift-IsUntaken :
      (now : ℕ) (ws : String) (on : Bool) (db : Db)
      → IsUntaken run db.runs
      → IsUntaken run (shift_jobs now ws on db).runs
  unfolding shift_jobs
  shift-IsUntaken now ws true db h =
      write-IsUntaken (parked ws) (resumed_row now) db.runs
        (λ a t u. unfold resumed_row in ground arith) h
  shift-IsUntaken now ws false db h =
      write-IsUntaken (pausable ws) (parked_row now) db.runs
        (λ a t u. unfold parked_row in ground arith) h

  review-IsUntaken :
      (show : ℕ → String) (now id : ℕ) (ws : String) (revision : ℕ) (db : Db)
      → IsUntaken run db.runs
      → IsUntaken run (queue_review show now id ws revision db).runs
  unfolding queue_review supersede
  review-IsUntaken show now id ws revision db h =
      system-IsUntaken now id ws _ _ _ (supersede now ws db) (
        write-IsUntaken (waiting_review ws) (superseded_row now) db.runs
          (λ a t u. unfold superseded_row in ground arith) h)

  same-IsUntaken : (rs ts : List RunRow) → ts ≡ rs → IsUntaken run rs → IsUntaken run ts
  same-IsUntaken rs ts e h = subst (IsUntaken run) (sym e) h

  Step-IsUntaken :
      {db db' : Db} (st : Step db db')
      → Draws run st
      → IsUntaken run db.runs
      → IsUntaken run db'.runs
  Step-IsUntaken {db} {db'} (enqueues now id ws conv key input e f k) d h =
      elim (enqueue_cases now id ws conv key input e db db' k) [
        | inl same ↦ rw same h
        | inr (new, _, _) ↦ rw new (insert-IsUntaken now id ws _ key input _ db h)
      ]
  Step-IsUntaken {db} (enqueues_system now id ws kind key input f k) d h =
      subst (λ x. IsUntaken run x.runs) k (system-IsUntaken now id ws kind key input db h)
  Step-IsUntaken {db} (claims now lease ws lane k) d h =
      subst (λ x. IsUntaken run x.runs) k (claim-IsUntaken now lease ws lane db d h)
  Step-IsUntaken {db} (beats now w k) d h =
      subst (λ x. IsUntaken run x.runs) k
        (unfold heartbeat in
          write-IsUntaken (owned now w) (λ r. record r { lease_until = some (now + seconds 30) })
            db.runs (λ a t u. ground arith) h)
  Step-IsUntaken {db} {db'} (reports now w kind payload k) d h =
      same-IsUntaken db.runs db'.runs (unfold event in ground arith) h
  Step-IsUntaken {db} (finishes now w j e k) d h =
      subst (λ x. IsUntaken run x.runs) k (finish-IsUntaken now w j e db h)
  Step-IsUntaken {db} (releases now w reason k) d h =
      subst (λ x. IsUntaken run x.runs) k (release-IsUntaken now w reason db h)
  Step-IsUntaken {db} {db'} (controls now ws id action st k) d h =
      let c = control-Controlled now ws id action st db db' k in
      same-IsUntaken (update_rows (is_run ws id) (controlled_row now st) db.runs) db'.runs c.runs (
        write-IsUntaken (is_run ws id) (controlled_row now st) db.runs
          (λ a t u. unfold controlled_row in ground arith) h)
  Step-IsUntaken {db} {db'} (archives now ws conv k) d h =
      same-IsUntaken (update_rows (unfinished ws conv) (archived_row now db.events) db.runs)
        db'.runs (unfold archive in ground arith)
        (write-IsUntaken (unfinished ws conv) (archived_row now db.events) db.runs
          (λ a t u. unfold archived_row in ground arith) h)
  Step-IsUntaken {db} {db'} (switches now ws role action k) d h =
      elim (switched now ws role action db db' k) [
        | inl e ↦ same-IsUntaken db.runs db'.runs e h
        | inr (mid, e, shifted) ↦
            subst (λ x. IsUntaken run x.runs) (sym shifted)
              (shift-IsUntaken now ws (turns_on action) mid (same-IsUntaken db.runs mid.runs e h))
      ]
  Step-IsUntaken {db} {db'}
        (checks ops r show show_id new_id collate observe now id ws review b f k) d h =
      elim (check_one_runs ops r show show_id new_id collate observe now id ws review db b db' k) [
        | inl e ↦ same-IsUntaken db.runs db'.runs e h
        | inr (revision, mid, e, q) ↦
            subst (λ x. IsUntaken run x.runs) (sym q)
              (review-IsUntaken show now id ws revision mid (same-IsUntaken db.runs mid.runs e h))
      ]

  pub Reach-IsUntaken :
      {db db' : Db} (r : Reach db db')
      → NeverDrawn run r
      → IsUntaken run db.runs
      → IsUntaken run db'.runs
  Reach-IsUntaken here d h = h
  Reach-IsUntaken (next r st) d h = Step-IsUntaken st d.1 (Reach-IsUntaken r d.0 h)
