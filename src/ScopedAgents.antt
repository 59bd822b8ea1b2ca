-- ===== src/ScopedAgents.antt =====
-- src/scoped_agents.rs: pausing and resuming an agent. Pausing Procurement also takes its jobs off
-- the queue, and resuming puts back those that this pause took. The monitors stand in `Checks`.
pub mod Checks
pub mod Once
pub mod Rounds
pub mod Reviews
mod Tests
use backhaus_ai_backend.Base.{
  ℕ, ◌-◌, Bool, true, false, ◌&&◌, ◌||◌, Option, none, some, ◌++◌, String, str_eq, ◌==◌,
  if◌then◌else◌, count_rows, rows_where, update_rows, map,
}
use backhaus_ai_backend.Base.Json.{tagged}
use backhaus_ai_backend.Base.Result.{Result, ok, err, invalid, not_found, ◌>>◌, fail_if}
use backhaus_ai_backend.Store.{
  Db, RunRow, EventRow, ScopedAgent, Role, sales, inventory, procurement, queued, paused, is_queued,
  is_running, is_paused, is_procurement, is_procurement_role,
}

abbrev pub same_role : Role → Role → Bool
same_role sales sales = true
same_role inventory inventory = true
same_role procurement procurement = true
same_role _ _ = false

-- The operator's actions; `other` is any other text.
pub data Action : Type 0 where
  pause resume other : Action

abbrev enabled_by : Action → Option Bool
enabled_by pause = some false
enabled_by resume = some true
enabled_by other = none

abbrev error_is : Option String → String → Bool
error_is none t = false
error_is (some s) t = str_eq s t

-- The jobs that a resume puts back.
unfoldable pub parked : String → RunRow → Bool
parked ws r =
    str_eq r.workspace ws
    && is_procurement r.kind
    && is_paused r.status
    && error_is r.error_code "procurement_paused"

unfoldable pub resumed_row : ℕ → RunRow → RunRow
resumed_row now r = record r {
  status = queued;
  error_code = none;
  available_at = now;
  updated_at = now;
}

-- The jobs that a pause takes.
unfoldable pub pausable : String → RunRow → Bool
pausable ws r =
    str_eq r.workspace ws && is_procurement r.kind && (is_queued r.status || is_running r.status)

unfoldable pub parked_row : ℕ → RunRow → RunRow
parked_row now r = record r {
  status = paused;
  error_code = some "procurement_paused";
  attempt = r.attempt - (if is_running r.status then 1 else 0);
  lease_token = none;
  lease_until = none;
  updated_at = now;
}

abbrev noted : String → String → RunRow → EventRow
noted type reason r = record { run_id = r.id; event_type = type; payload = tagged "reason" reason }

-- The second statement of `control`, for the role procurement.
unfoldable pub shift_jobs : ℕ → String → Bool → Db → Db
unfolding parked resumed_row pausable parked_row
shift_jobs now ws true db = record db {
  runs = update_rows (parked ws) (resumed_row now) db.runs;
  events = db.events ++ map (noted "queued" "procurement_resumed") (rows_where (parked ws) db.runs);
}
shift_jobs now ws false db = record db {
  runs = update_rows (pausable ws) (parked_row now) db.runs;
  events =
      db.events ++ map (noted "paused" "procurement_paused") (rows_where (pausable ws) db.runs);
}

abbrev pub is_agent : String → Role → ScopedAgent → Bool
is_agent ws role a = str_eq a.workspace ws && same_role a.role role

abbrev pub set_enabled : Bool → ScopedAgent → ScopedAgent
set_enabled b a = record a { enabled = b }

switch : ℕ → String → Role → Bool → Db → Result (Unit {0} × Db)
unfolding shift_jobs
switch now ws role enabled db =
    let written = record db {
      agents = update_rows (is_agent ws role) (set_enabled enabled) db.agents;
    } in
    do
      fail_if (count_rows (is_agent ws role) db.agents == 0) not_found
      ok (tt, if is_procurement_role role then shift_jobs now ws enabled written else written)

unfoldable pub control : ℕ → String → Role → Action → Db → Result (Unit {0} × Db)
unfolding switch
control now ws role action db = elim (enabled_by action) [
  | none ↦ err invalid
  | some enabled ↦ switch now ws role enabled db
]
