-- ===== src/Jobs.antt =====
-- src/jobs.rs: the durable queue of agent runs. Each function is one database transaction, and the
-- row locks that it takes make it one step: it maps the tables to the tables that it commits. The
-- time, a new identifier and a new lease token are arguments.
pub mod Claim
pub mod Control
use Prim.Native.String.{len}
use backhaus_ai_backend.Base.{
  ℕ, suc, ◌+◌, ◌-◌, ◌*◌, Bool, true, false, not, ◌&&◌, ◌||◌, Option, none, some, List, [], ◌∷◌,
  ◌++◌, String, str_eq, ltb, leb, ◌==◌, if◌then◌else◌, find_row, any_row, count_rows, rows_where,
  update_rows, map,
}
use backhaus_ai_backend.Base.Json.{Json, null, string, object, field, end, json_eq, tagged}
use backhaus_ai_backend.Base.Result.{
  Result, ok, err, Error, invalid, not_found, conflict, ◌>>=◌, ◌>>◌, fail_if, ok_or,
}
use backhaus_ai_backend.Base.Text.{is_empty}
use backhaus_ai_backend.Store.{
  Db, RunRow, EventRow, Conversation, ScopedAgent, Status, queued, running, completed, failed, Kind,
  chat, is_queued, is_running, is_active, is_chat, is_procurement, is_procurement_role, status_name,
  holds,
}

-- A lease is live while its end lies ahead: `lease_until > now()`.
abbrev pub is_after : Option ℕ → ℕ → Bool
is_after none now = false
is_after (some t) now = ltb now t

-- `lease_until < now()`
abbrev pub is_before : Option ℕ → ℕ → Bool
is_before none now = false
is_before (some t) now = ltb t now

abbrev pub is_some {ℓ} : {A : Type ℓ} → Option A → Bool
is_some none = false
is_some (some _) = true

abbrev pub seconds : ℕ → ℕ
seconds n = n * 1000000

-- The run that a worker holds.
pub record Run : Type 0 where
  pub id : ℕ
  pub workspace : String
  pub kind : Kind
  pub conversation : Option ℕ
  pub input : Json
  pub lease : ℕ
  pub attempt : ℕ

pub record Enqueued : Type 0 where
  pub run_id : ℕ
  pub conversation_id : ℕ
  pub reused : Bool

-- The key test at the head of `enqueue`, over the key's length in bytes.
unfoldable pub bad_key : String → Bool
bad_key key = is_empty key || ltb 128 (len key)

abbrev pub has_key : String → String → RunRow → Bool
has_key ws key r = str_eq r.workspace ws && str_eq r.request_key key

abbrev pub unfinished : String → ℕ → RunRow → Bool
unfinished ws conv r = str_eq r.workspace ws && holds r.conversation conv && is_active r.status

abbrev pub log : ℕ → String → Json → Db → Db
log id type payload db = record db {
  events = db.events ++ record { run_id = id; event_type = type; payload = payload } ∷ [];
}

-- A row as INSERT leaves it, the other columns at their defaults.
abbrev pub new_run : ℕ → ℕ → String → Option ℕ → String → Json → Kind → RunRow
new_run now id ws conv key input kind = record {
  id = id;
  workspace = ws;
  conversation = conv;
  request_key = key;
  input = input;
  kind = kind;
  status = queued;
  attempt = 0;
  max_attempts = 3;
  available_at = now;
  lease_token = none;
  lease_until = none;
  result = none;
  error_code = none;
  created_at = now;
  updated_at = now;
}

unfoldable pub insert_run : RunRow → Db → Db
insert_run r db = log r.id "queued" (object end) (record db { runs = db.runs ++ r ∷ [] })

-- A key that is in use: the same request gets the first run back.
unfoldable pub replay : RunRow → ℕ → Json → Db → Result (Enqueued × Db)
replay row conv input db = do
  fail_if (not (json_eq row.input input) || not (holds row.conversation conv)) conflict
  ok (record { run_id = row.id; conversation_id = conv; reused = true }, db)

unfoldable pub start : ℕ → ℕ → String → ℕ → String → Json → Db → Result (Enqueued × Db)
unfolding insert_run
start now id ws conv key input db = do
  fail_if (any_row (unfinished ws conv) db.runs) conflict
  ok (
    record { run_id = id; conversation_id = conv; reused = false },
    insert_run (new_run now id ws (some conv) key input chat) db,
  )

unfoldable pub enqueue : ℕ → ℕ → String → ℕ → String → Json → Db → Result (Enqueued × Db)
unfolding bad_key replay start
enqueue now id ws conv key input db = do
  fail_if (bad_key key) invalid
  c ← ok_or (find_row (λ c. str_eq c.workspace ws && c.id == conv) db.conversations) not_found
  fail_if (is_some c.archived_at) conflict
  elim (find_row (has_key ws key) db.runs) [
    | some row ↦ replay row conv input db
    | none ↦ start now id ws conv key input db
  ]

-- ON CONFLICT (workspace_id,request_key) DO NOTHING
unfoldable pub enqueue_system : ℕ → ℕ → String → Kind → String → Json → Db → Option ℕ × Db
unfolding insert_run
enqueue_system now id ws kind key input db =
    if any_row (has_key ws key) db.runs
    then (none, db)
    else (some id, insert_run (new_run now id ws none key input kind) db)

-- The WHERE clause by which every write of a worker is fenced.
unfoldable pub owned : ℕ → Run → RunRow → Bool
owned now run r =
    r.id == run.id
    && str_eq r.workspace run.workspace
    && is_running r.status
    && holds r.lease_token run.lease
    && is_after r.lease_until now

unfoldable pub active : ℕ → Run → Db → Bool
unfolding owned
active now run db = any_row (owned now run) db.runs

unfoldable pub heartbeat : ℕ → Run → Db → Bool × Db
unfolding owned
heartbeat now run db = (
  count_rows (owned now run) db.runs == 1,
  record db {
    runs =
        update_rows (owned now run) (λ r. record r { lease_until = some (now + seconds 30) })
          db.runs;
  },
)

-- One event for each owned row; `Conflict` if there is none.
unfoldable pub event : ℕ → Run → String → Json → Db → Result (Unit {0} × Db)
unfolding owned
event now run kind payload db =
    let written = rows_where (owned now run) db.runs in
    do
      fail_if (count_rows (owned now run) db.runs == 0) conflict
      ok (
        tt,
        record db {
          events =
              db.events
              ++ map (λ r. record { run_id = r.id; event_type = kind; payload = payload }) written;
        },
      )
