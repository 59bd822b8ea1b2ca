-- ===== src/Queue/Steps.antt =====
-- Soundness of the queue under a step of any kind, and so after any history.
use backhaus_ai_backend.Base.{
  ℕ, ◌≡◌, refl, sym, subst, Bool, true, false, arith, inl, inr, ◌⊎◌, some, String, Option-cases,
  find_row, find_row-mem, find_row_sound, update_rows, Pairs, All,
}
use backhaus_ai_backend.Base.Result.{ok}
use backhaus_ai_backend.Store.{Db, RunRow, Status, Role, sales, inventory, procurement}
use backhaus_ai_backend.Jobs.{event, unfinished}
use backhaus_ai_backend.Jobs.Control.{Action, control, is_run, controlled_row, next_status}
use backhaus_ai_backend.Conversations.{archive, archived_row}
use backhaus_ai_backend.ScopedAgents
use backhaus_ai_backend.ScopedAgents.Reviews.{check_one-IsSound}
use backhaus_ai_backend.ScopedAgents.{parked, resumed_row, pausable, parked_row, shift_jobs}
use backhaus_ai_backend.Queue.{
  IsLeased, Apart, IsSound, Step, Reach, here, next, enqueues, enqueues_system, claims, beats,
  reports, finishes, releases, controls, archives, switches, checks, turns_on,
}
use backhaus_ai_backend.Queue.Keeps.{Keeps, update-IsSound}
use backhaus_ai_backend.Queue.Insert.{enqueue-IsSound, enqueue_system-IsSound}
use backhaus_ai_backend.Queue.Sound.{
  by_id, claim-IsSound, heartbeat-IsSound, finish-IsSound, release_for-IsSound, controlled-IsLeased,
  archived-Keeps, archived-IsLeased, resumed-Keeps, resumed-IsLeased, parked-Keeps, parked-IsLeased,
}

-- What a successful `control` read and wrote.
pub record Controlled (now : ℕ) (ws : String) (id : ℕ) (action : Action) (db : Db) (st : Status)
    (db' : Db) : Type 0 where
  pub row : RunRow
  pub found : find_row (is_run ws id) db.runs ≡ some row
  pub allowed : next_status action row.status ≡ some st
  pub runs : db'.runs ≡ update_rows (is_run ws id) (controlled_row now st) db.runs

pub control-Controlled :
    (now : ℕ) (ws : String) (id : ℕ) (action : Action) (st : Status) (db db' : Db)
    → control now ws id action db ≡ ok (st, db')
    → Controlled now ws id action db st db'
unfolding control
control-Controlled now ws id action st db db' h =
    elim (Option-cases (find_row (is_run ws id) db.runs)) [
      | inl e ↦ absurd (ground arith)
      | inr (r, e) ↦ elim (Option-cases (next_status action r.status)) [
        | inl n ↦ absurd (ground arith)
        | inr (s, n) ↦ record { row = r; found = e; allowed = ground arith; runs = ground arith }
      ]
    ]

controlled-Keeps :
    (now : ℕ) (act : Action) (st : Status) (a : RunRow)
    → next_status act a.status ≡ some st
    → Keeps a (controlled_row now st a)
unfolding controlled_row next_status
controlled-Keeps now act st a h = ground arith

control-IsSound :
    (now : ℕ) (ws : String) (id : ℕ) (action : Action) (st : Status) (db db' : Db)
    → control now ws id action db ≡ ok (st, db')
    → IsSound db
    → IsSound db'
control-IsSound now ws id action st db db' h s =
    let c = control-Controlled now ws id action st db db' h in
    let r : RunRow = c.row in
    let p : All IsLeased (update_rows (is_run ws id) (controlled_row now st) db.runs)
        × Pairs Apart (update_rows (is_run ws id) (controlled_row now st) db.runs) =
      by_id db r (is_run ws id) (controlled_row now st)
        (λ a t. ground (arith, find_row_sound (is_run ws id) db.runs c.found))
        (find_row-mem (is_run ws id) db.runs c.found)
        (controlled-IsLeased now action r.status st r c.allowed)
        (controlled-Keeps now action st r c.allowed) s in
    record {
      leased = subst (All IsLeased) (sym c.runs) p.0;
      apart = subst (Pairs Apart) (sym c.runs) p.1;
    }

archive-IsSound :
    (now : ℕ) (ws : String) (conv : ℕ) (db db' : Db)
    → archive now ws conv db ≡ ok (tt, db')
    → IsSound db
    → IsSound db'
archive-IsSound now ws conv db db' h s =
    let p =
      update-IsSound db db'.runs (unfinished ws conv) (archived_row now db.events) written
        (λ a _ t _. archived-IsLeased now db.events ws conv a t)
        (λ a _ t. archived-Keeps now db.events ws conv a t) s in
    record { leased = p.0; apart = p.1 }
  where
    written : db'.runs ≡ update_rows (unfinished ws conv) (archived_row now db.events) db.runs
    written = unfold archive in ground arith

shift-IsSound :
    (now : ℕ) (ws : String) (on : Bool) (db : Db) → IsSound db → IsSound (shift_jobs now ws on db)
unfolding shift_jobs
shift-IsSound now ws true db s =
    let p =
      update-IsSound db _ (parked ws) (resumed_row now) refl
        (λ a _ t l. resumed-IsLeased now ws a t l) (λ a _ t. resumed-Keeps now ws a t) s in
    record { leased = p.0; apart = p.1 }
shift-IsSound now ws false db s =
    let p =
      update-IsSound db _ (pausable ws) (parked_row now) refl (λ a _ _ _. parked-IsLeased now ws a)
        (λ a _ t. parked-Keeps now ws a t) s in
    record { leased = p.0; apart = p.1 }

-- A successful control of an agent leaves the runs alone, or shifts the jobs of Procurement.
pub switched :
    (now : ℕ) (ws : String) (role : Role) (action : ScopedAgents.Action) (db db' : Db)
    → ScopedAgents.control now ws role action db ≡ ok (tt, db')
    → (db'.runs ≡ db.runs)
      ⊎ ((mid : Db) × (mid.runs ≡ db.runs) × (db' ≡ shift_jobs now ws (turns_on action) mid))
unfolding ScopedAgents.control
switched now ws sales ScopedAgents.pause db db' h = inl (ground arith)
switched now ws inventory ScopedAgents.pause db db' h = inl (ground arith)
switched now ws procurement ScopedAgents.pause db db' h = inr (
  record db {
    agents =
        update_rows (ScopedAgents.is_agent ws procurement) (ScopedAgents.set_enabled false)
          db.agents;
  },
  refl,
  ground arith,
)
switched now ws sales ScopedAgents.resume db db' h = inl (ground arith)
switched now ws inventory ScopedAgents.resume db db' h = inl (ground arith)
switched now ws procurement ScopedAgents.resume db db' h = inr (
  record db {
    agents =
        update_rows (ScopedAgents.is_agent ws procurement) (ScopedAgents.set_enabled true)
          db.agents;
  },
  refl,
  ground arith,
)
switched now ws role ScopedAgents.other db db' h = absurd (ground arith)

log-IsSound : (db db' : Db) → db'.runs ≡ db.runs → IsSound db → IsSound db'
log-IsSound db db' e s = record {
  leased = subst (All IsLeased) (sym e) s.leased;
  apart = subst (Pairs Apart) (sym e) s.apart;
}

control_agent-IsSound :
    (now : ℕ) (ws : String) (role : Role) (action : ScopedAgents.Action) (db db' : Db)
    → ScopedAgents.control now ws role action db ≡ ok (tt, db')
    → IsSound db
    → IsSound db'
control_agent-IsSound now ws role action db db' h s = elim (switched now ws role action db db' h) [
  | inl e ↦ log-IsSound db db' e s
  | inr (mid, e, shifted) ↦
      subst IsSound (sym shifted)
        (shift-IsSound now ws (turns_on action) mid (log-IsSound db mid e s))
]

-- The UNIQUE constraints of agent_runs and the tie between a lease and the status running are kept
-- by every call of the job queue, the conversations and the scoped agents, whatever the order and the
-- times of the calls.
pub Step-IsSound : {db db' : Db} → Step db db' → IsSound db → IsSound db'
Step-IsSound (enqueues now id ws conv key input e f h) s =
    enqueue-IsSound now id ws conv key input e _ _ f h s
Step-IsSound (enqueues_system now id ws kind key input f h) s =
    subst IsSound h (enqueue_system-IsSound now id ws kind key input _ f s)
Step-IsSound (claims now lease ws lane h) s = subst IsSound h (claim-IsSound now lease ws lane _ s)
Step-IsSound (beats now run h) s = subst IsSound h (heartbeat-IsSound now run _ s)
Step-IsSound {db} {db'} (reports now run kind payload h) s =
    log-IsSound db db' (unfold event in ground arith) s
Step-IsSound (finishes now run j e h) s = subst IsSound h (finish-IsSound now run j e _ s)
Step-IsSound (releases now run reason h) s =
    subst IsSound h (release_for-IsSound now run reason _ s)
Step-IsSound (controls now ws id action st h) s = control-IsSound now ws id action st _ _ h s
Step-IsSound (archives now ws conv h) s = archive-IsSound now ws conv _ _ h s
Step-IsSound (switches now ws role action h) s = control_agent-IsSound now ws role action _ _ h s
Step-IsSound {db} {db'} (checks ops r show show_id new_id collate observe now id ws review b f h)
      s =
    check_one-IsSound ops r show show_id new_id collate observe now id ws review db b db' h f s

pub Reach-IsSound : {db db' : Db} → IsSound db → Reach db db' → IsSound db'
Reach-IsSound s here = s
Reach-IsSound s (next r st) = Step-IsSound st (Reach-IsSound s r)
