-- ===== src/Queue.antt =====
-- The table agent_runs under every call of src/jobs.rs, src/conversations.rs and src/scoped_agents.rs
-- that writes it, as a step relation: callers come in any order, at any time. The writes of
-- src/research.rs and src/demo.rs, which are not modelled, are not among the steps.
pub mod Keeps
pub mod First
pub mod Insert
pub mod Diagram
pub mod Sound
pub mod Steps
pub mod Final
pub mod Untaken
pub mod Fencing
pub mod Claims
pub mod Requests
mod Tests
use backhaus_ai_backend.Base.{
  ℕ, ◌<◌, ◌≡◌, Bool, true, false, ◌&&◌, ◌||◌, Option, none, some, String, List, str_eq, ◌==◌,
  any_row, All, Pairs,
}
use backhaus_ai_backend.Base.Json.{Json}
use backhaus_ai_backend.Base.Result.{ok}
use backhaus_ai_backend.Store.{Db, RunRow, Status, Kind, Role, is_running, is_active, holds}
use backhaus_ai_backend.Jobs.{Run, Enqueued, is_some, enqueue, enqueue_system, heartbeat, event}
use backhaus_ai_backend.Jobs.Claim.{Lane, claim_in_lane}
use backhaus_ai_backend.Jobs.Control.{Action, finish, release_for, control}
use backhaus_ai_backend.Conversations.{archive}
use backhaus_ai_backend.ScopedAgents
use backhaus_ai_backend.ScopedAgents.Checks.{check_one}
use backhaus_ai_backend.Decimal.{Arithmetic, Rounding}
use backhaus_ai_backend.Store.Stock.{Item}

-- `Uuid::new_v4` draws an identifier that no run has.
abbrev pub IsFresh : ℕ → Db → Type 0
IsFresh id db = any_row (λ r. r.id == id) db.runs ≡ false

pub data Step (db db' : Db) : Type 0 where
  enqueues :
      (now id : ℕ) (ws : String) (conv : ℕ) (key : String) (input : Json) (e : Enqueued)
      → IsFresh id db
      → enqueue now id ws conv key input db ≡ ok (e, db')
      → Step db db'
  enqueues_system :
      (now id : ℕ) (ws : String) (kind : Kind) (key : String) (input : Json)
      → IsFresh id db
      → (enqueue_system now id ws kind key input db).1 ≡ db'
      → Step db db'
  claims :
      (now lease : ℕ) (ws : String) (lane : Lane)
      → (claim_in_lane now lease ws lane db).1 ≡ db'
      → Step db db'
  beats : (now : ℕ) (run : Run) → (heartbeat now run db).1 ≡ db' → Step db db'
  reports :
      (now : ℕ) (run : Run) (kind : String) (payload : Json)
      → event now run kind payload db ≡ ok (tt, db')
      → Step db db'
  finishes :
      (now : ℕ) (run : Run) (result : Option Json) (error : Option String)
      → finish now run result error db ≡ db'
      → Step db db'
  releases :
      (now : ℕ) (run : Run) (reason : String) → release_for now run reason db ≡ db' → Step db db'
  controls :
      (now : ℕ) (ws : String) (id : ℕ) (action : Action) (next : Status)
      → control now ws id action db ≡ ok (next, db')
      → Step db db'
  archives :
      (now : ℕ) (ws : String) (conv : ℕ) → archive now ws conv db ≡ ok (tt, db') → Step db db'
  switches :
      (now : ℕ) (ws : String) (role : Role) (action : ScopedAgents.Action)
      → ScopedAgents.control now ws role action db ≡ ok (tt, db')
      → Step db db'
  checks :
      (ops : Arithmetic) (r : Rounding) (show show_id : ℕ → String) (new_id : ℕ → ℕ)
      (collate : List Item → List Item) (observe_sales : Json) (now run_id : ℕ) (ws : String)
      (review b : Bool)
      → IsFresh run_id db
      → check_one ops r show show_id new_id collate observe_sales now run_id ws review db
        ≡ ok (b, db')
      → Step db db'

-- The kinds of calls, as far as they differ in what they may do to a run.
pub data Call : Type 0 where
  claiming finishing releasing archiving switching_on switching_off checking : Call
  operating : (action : Action) → Call
  adding : Call

abbrev pub turns_on : ScopedAgents.Action → Bool
turns_on ScopedAgents.resume = true
turns_on _ = false

abbrev pub shift_call : Bool → Call
shift_call true = switching_on
shift_call false = switching_off

-- `adding` stands for the calls that change the status of no run.
abbrev pub call : {db db' : Db} → Step db db' → Call
call (enqueues _ _ _ _ _ _ _ _ _) = adding
call (enqueues_system _ _ _ _ _ _ _ _) = adding
call (claims _ _ _ _ _) = claiming
call (beats _ _ _) = adding
call (reports _ _ _ _ _) = adding
call (finishes _ _ _ _ _) = finishing
call (releases _ _ _ _) = releasing
call (controls _ _ _ action _ _) = operating action
call (archives _ _ _ _) = archiving
call (switches _ _ _ action _) = shift_call (turns_on action)
call (checks _ _ _ _ _ _ _ _ _ _ _ _ _ _) = checking

pub data Reach (db : Db) : Db → Type 0 where
  here : Reach db db
  next : {db' db'' : Db} → Reach db db' → Step db' db'' → Reach db db''

-- A run has a lease exactly while it runs, and a run that runs has been counted.
pub record IsLeased (r : RunRow) : Type 0 where
  pub token : is_some r.lease_token ≡ is_running r.status
  pub until : is_some r.lease_until ≡ is_running r.status
  pub counted : is_running r.status ≡ true → 0 < r.attempt

abbrev pub same_conversation : Option ℕ → Option ℕ → Bool
same_conversation c none = false
same_conversation c (some k) = holds c k

-- The three UNIQUE constraints of the table: the id, the request key within a workspace, and one
-- unfinished run to a conversation.
abbrev pub clash : RunRow → RunRow → Bool
clash a b =
    a.id == b.id
    || (str_eq a.workspace b.workspace && str_eq a.request_key b.request_key)
    || (str_eq a.workspace b.workspace
        && same_conversation a.conversation b.conversation
        && is_active a.status
        && is_active b.status)

abbrev pub Apart : RunRow → RunRow → Type 0
Apart a b = clash a b ≡ false

pub record IsSound (db : Db) : Type 0 where
  pub leased : All IsLeased db.runs
  pub apart : Pairs Apart db.runs
