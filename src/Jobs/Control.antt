-- ===== src/Jobs/Control.antt =====
-- src/jobs.rs: how a run ends, is handed back, and is controlled by the operator.
use backhaus_ai_backend.Base.{
  ℕ, ◌+◌, ◌-◌, ◌*◌, Bool, true, false, ◌&&◌, Option, none, some, List, String, str_eq, ltb, ◌==◌,
  if◌then◌else◌, find_row, count_rows, update_rows,
}
use backhaus_ai_backend.Base.Json.{Json, null, string, object, field, end, tagged}
use backhaus_ai_backend.Base.Result.{Result, ok, not_found, conflict, ◌>>=◌, ◌>>◌, fail_if, ok_or}
use backhaus_ai_backend.Store.{
  Db, RunRow, Conversation, Status, queued, running, paused, completed, failed, cancelled,
  is_queued, is_running, status_name, holds,
}
use backhaus_ai_backend.Jobs.{Run, owned, log, seconds, is_some}

abbrev is_none {ℓ} : {A : Type ℓ} → Option A → Bool
is_none none = true
is_none (some _) = false

abbrev nullable : Option Json → Json
nullable none = null
nullable (some j) = j

abbrev nullable_text : Option String → Json
nullable_text none = null
nullable_text (some s) = string s

-- The status that `finish` writes: it counts the attempts of the worker's own copy of the run.
unfoldable pub outcome : Run → Option String → Status
outcome run error =
    if is_none error then completed else if ltb run.attempt 3 then queued else failed

unfoldable pub finished_row : ℕ → Status → Option Json → Option String → RunRow → RunRow
finished_row now status result error r = record r {
  status = status;
  result = result;
  error_code = error;
  available_at = now + (if is_queued status then seconds 5 * r.attempt else 0);
  lease_token = none;
  lease_until = none;
  updated_at = now;
}

unfoldable pub finish : ℕ → Run → Option Json → Option String → Db → Db
unfolding outcome finished_row owned
finish now run result error db =
    let status = outcome run error in
    let written = record db {
      runs = update_rows (owned now run) (finished_row now status result error) db.runs;
    } in
    if count_rows (owned now run) db.runs == 1
    then log run.id (status_name status)
        (object (field "result" (nullable result) (field "error_code" (nullable_text error) end)))
        written
    else written

-- The row that a worker still holds; a lapsed lease is not asked for.
unfoldable pub held : Run → RunRow → Bool
held run r =
    r.id == run.id
    && str_eq r.workspace run.workspace
    && is_running r.status
    && holds r.lease_token run.lease

unfoldable pub released_row : ℕ → RunRow → RunRow
released_row now r = record r {
  status = queued;
  attempt = r.attempt - 1;
  lease_token = none;
  lease_until = none;
  available_at = now;
  updated_at = now;
}

unfoldable pub release_for : ℕ → Run → String → Db → Db
unfolding held released_row
release_for now run reason db =
    let written = record db { runs = update_rows (held run) (released_row now) db.runs } in
    if count_rows (held run) db.runs == 1
    then log run.id "queued" (tagged "reason" reason) written
    else written

unfoldable pub release : ℕ → Run → Db → Db
unfolding release_for
release now run db = release_for now run "worker_shutdown" db

-- The operator's actions; `other` is any other text.
pub data Action : Type 0 where
  pause resume cancel other : Action

unfoldable pub next_status : Action → Status → Option Status
next_status pause queued = some paused
next_status pause running = some paused
next_status pause paused = some paused
next_status resume paused = some queued
next_status cancel queued = some cancelled
next_status cancel running = some cancelled
next_status cancel paused = some cancelled
next_status cancel cancelled = some cancelled
next_status _ _ = none

abbrev pub is_run : String → ℕ → RunRow → Bool
is_run ws id r = str_eq r.workspace ws && r.id == id

-- Whether a run belongs to an archived conversation.
in_archived : String → Option ℕ → List Conversation → Bool
in_archived ws none cs = false
in_archived ws (some c) cs = elim (find_row (λ x. str_eq x.workspace ws && x.id == c) cs) [
  | none ↦ false
  | some x ↦ is_some x.archived_at
]

run_archived : String → ℕ → Db → Bool
unfolding in_archived
run_archived ws id db = elim (find_row (is_run ws id) db.runs) [
  | none ↦ false
  | some r ↦ in_archived ws r.conversation db.conversations
]

unfoldable pub controlled_row : ℕ → Status → RunRow → RunRow
controlled_row now status r = record r {
  status = status;
  lease_token = none;
  lease_until = none;
  updated_at = now;
}

unfoldable pub control : ℕ → String → ℕ → Action → Db → Result (Status × Db)
unfolding run_archived next_status controlled_row
control now ws id action db = do
  fail_if (run_archived ws id db) conflict
  r ← ok_or (find_row (is_run ws id) db.runs) not_found
  next ← ok_or (next_status action r.status) conflict
  ok (
    next,
    log id (status_name next) (object end)
        (record db { runs = update_rows (is_run ws id) (controlled_row now next) db.runs }),
  )
