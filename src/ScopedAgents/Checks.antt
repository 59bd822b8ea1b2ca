-- ===== src/ScopedAgents/Checks.antt =====
-- src/scoped_agents.rs: the monitors. A check of a role looks at the data once for each revision of
-- it; a monitor instance shows by its heartbeat that checks are run. A check is one step, so it finds
-- no row locked that it would pass over.
use Prim.Native.String.{◌++◌ as str_append}
use backhaus_ai_backend.Base.{
  ℕ, ◌+◌, Bool, true, false, ◌&&◌, Option, none, some, List, ◌∷◌, ◌++◌, String, str_eq, ltb, ◌==◌,
  if◌then◌else◌, any_row, find_row, rows_where, update_rows, delete_rows, map,
}
use backhaus_ai_backend.Base.Int.{pos, ltb_ℤ}
use backhaus_ai_backend.Base.Json.{Json, string, number, object, field, end, tagged}
use backhaus_ai_backend.Base.Result.{Result, ok, err, database, ◌>>◌, fail_if}
use backhaus_ai_backend.Decimal.{Arithmetic, Rounding}
use backhaus_ai_backend.Store.{
  Db, RunRow, EventRow, ScopedAgent, DataRevision, CheckRow, Monitor, Role, sales, inventory,
  inventory_review, cancelled, is_queued, is_review,
}
use backhaus_ai_backend.Store.Stock.{Item}
use backhaus_ai_backend.Jobs.{enqueue_system, seconds}
use backhaus_ai_backend.Purchasing.Check.{prepare_drafts}
use backhaus_ai_backend.Purchasing.Findings.{findings_json}
use backhaus_ai_backend.ScopedAgents.{same_role, is_agent}

abbrev pub is_monitor : ℕ → Monitor → Bool
is_monitor id m = m.id == id

unfoldable pub heartbeat : ℕ → String → ℕ → Db → Db
heartbeat now ws instance db =
    let beats =
      if any_row (is_monitor instance) db.monitors
      then update_rows (is_monitor instance) (λ m. record m { heartbeat_at = now }) db.monitors
      else record { id = instance; workspace = ws; heartbeat_at = now } ∷ db.monitors in
    record db {
      monitors =
          delete_rows (λ m. str_eq m.workspace ws && ltb (m.heartbeat_at + seconds 60) now) beats;
    }

unfoldable pub disconnect : ℕ → Db → Db
disconnect instance db = record db { monitors = delete_rows (is_monitor instance) db.monitors }

-- `monitor_online` of `list`
unfoldable pub online : ℕ → String → Db → Bool
online now ws db =
    any_row (λ m. str_eq m.workspace ws && ltb now (m.heartbeat_at + seconds 15)) db.monitors

abbrev pub is_revision : String → Role → DataRevision → Bool
is_revision ws role r = str_eq r.workspace ws && same_role r.role role

-- The revision that an agent has yet to look at.
unfoldable pub due : String → Role → Db → Option ℕ
due ws role db = elim (find_row (is_agent ws role) db.agents) [
  | none ↦ none
  | some a ↦ elim (find_row (is_revision ws role) db.revisions) [
    | none ↦ none
    | some r ↦
        if a.enabled && ltb_ℤ a.checked_revision (pos r.revision) then some r.revision else none
  ]
]

abbrev pub is_check : String → Role → ℕ → CheckRow → Bool
is_check ws role revision c =
    str_eq c.workspace ws && same_role c.role role && c.revision == revision

unfoldable pub checked_agent : ℕ → ℕ → Json → ScopedAgent → ScopedAgent
checked_agent now revision observation a = record a {
  checked_revision = pos revision;
  last_checked_at = some now;
  observation = some observation;
}

-- The observation is stored, and with it the revision.
unfoldable pub with_check : ℕ → String → Role → ℕ → Json → Db → Db
unfolding checked_agent
with_check now ws role revision observation db = record db {
  checks =
      record { workspace = ws; role = role; revision = revision; observation = observation }
      ∷ db.checks;
  agents = update_rows (is_agent ws role) (checked_agent now revision observation) db.agents;
}

-- The table of checks has one row for a revision.
unfoldable pub store_check : ℕ → String → Role → ℕ → Json → Db → Result Db
unfolding with_check
store_check now ws role revision observation db = do
  fail_if (any_row (is_check ws role revision) db.checks) database
  ok (with_check now ws role revision observation db)

abbrev pub waiting_review : String → RunRow → Bool
waiting_review ws r = str_eq r.workspace ws && is_review r.kind && is_queued r.status

unfoldable pub superseded_row : ℕ → RunRow → RunRow
superseded_row now r = record r {
  status = cancelled;
  error_code = some "superseded_revision";
  updated_at = now;
}

abbrev superseded_event : RunRow → EventRow
superseded_event r = record {
  run_id = r.id;
  event_type = "cancelled";
  payload = tagged "reason" "superseded_revision";
}

unfoldable pub supersede : ℕ → String → Db → Db
unfolding superseded_row
supersede now ws db = record db {
  runs = update_rows (waiting_review ws) (superseded_row now) db.runs;
  events = db.events ++ map superseded_event (rows_where (waiting_review ws) db.runs);
}

-- The review of the findings: those that wait are superseded, one is queued for the revision.
unfoldable pub queue_review : (ℕ → String) → ℕ → ℕ → String → ℕ → Db → Db
unfolding supersede
queue_review show now id ws revision db =
    (enqueue_system now id ws inventory_review (str_append "inventory-review:" (show revision))
      (object (field "role" (string "inventory") (field "revision" (number (show revision)) end)))
      (supersede now ws db)).1

-- `observe_sales` is the query of `sales_check` on the tables of the sales, and what is made of its row.
module _ (ops : Arithmetic) (r : Rounding) (show show_id : ℕ → String) (new_id : ℕ → ℕ)
    (collate : List Item → List Item) (observe_sales : Json) (now run_id : ℕ) (ws : String) where
  unfoldable pub check_inventory : Bool → ℕ → Db → Result Db
  check_inventory review revision db =
      let x = prepare_drafts ops r show show_id new_id now ws collate revision db in
      elim (store_check now ws inventory revision (findings_json ops show show_id x.0) x.1) [
        | err e ↦ err e
        | ok stored ↦
            ok (if review then queue_review show now run_id ws revision stored else stored)
      ]

  -- Whether there was something to check; the roles in the order of their names.
  unfoldable pub check_one : Bool → Db → Result (Bool × Db)
  check_one review db = elim (due ws inventory db) [
    | some revision ↦ elim (check_inventory review revision db) [
      | err e ↦ err e
      | ok db' ↦ ok (true, db')
    ]
    | none ↦ elim (due ws sales db) [
      | some revision ↦ elim (store_check now ws sales revision observe_sales db) [
        | err e ↦ err e
        | ok db' ↦ ok (true, db')
      ]
      | none ↦ ok (false, db)
    ]
  ]
