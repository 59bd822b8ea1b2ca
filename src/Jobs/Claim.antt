-- ===== src/Jobs/Claim.antt =====
-- src/jobs.rs: how a worker claims a run, and the recovery of lapsed leases that comes first.
use backhaus_ai_backend.Base.{
  ℕ, ◌+◌, Bool, true, not, ◌&&◌, ◌||◌, Option, none, some, List, [], ◌∷◌, ◌++◌, String, str_eq, ltb,
  leb, ◌==◌, if◌then◌else◌, any_row, rows_where, update_rows, map,
}
use backhaus_ai_backend.Base.Json.{object, end, tagged}
use backhaus_ai_backend.Store.{
  Db, RunRow, EventRow, ScopedAgent, queued, running, failed, Kind, is_queued, is_running, is_chat,
  is_procurement, is_procurement_role, status_name,
}
use backhaus_ai_backend.Jobs.{is_before, seconds, Run, log}

pub data Lane : Type 0 where
  all_lanes chat_lane background : Lane

abbrev pub in_lane : Lane → Kind → Bool
in_lane all_lanes kind = true
in_lane chat_lane kind = is_chat kind
in_lane background kind = not (is_chat kind)

-- A run whose worker let its lease run out.
abbrev pub lapsed : ℕ → String → RunRow → Bool
lapsed now ws r = str_eq r.workspace ws && is_running r.status && is_before r.lease_until now

unfoldable pub recovered_row : ℕ → RunRow → RunRow
recovered_row now r = record r {
  status = if ltb r.attempt r.max_attempts then queued else failed;
  error_code = some "worker_lease_expired";
  lease_token = none;
  lease_until = none;
  updated_at = now;
}

unfoldable pub recovered_event : RunRow → EventRow
recovered_event r = record {
  run_id = r.id;
  event_type = status_name (if ltb r.attempt r.max_attempts then queued else failed);
  payload = tagged "reason" "worker_lease_expired";
}

-- The first statement of `claim_in_lane`.
unfoldable pub recover : ℕ → String → Db → Db
unfolding recovered_row recovered_event
recover now ws db = record db {
  runs = update_rows (lapsed now ws) (recovered_row now) db.runs;
  events = db.events ++ map recovered_event (rows_where (lapsed now ws) db.runs);
}

abbrev pub procurement_on : String → List ScopedAgent → Bool
procurement_on ws = any_row λ a. str_eq a.workspace ws && is_procurement_role a.role && a.enabled

unfoldable pub eligible : ℕ → String → Lane → Bool → RunRow → Bool
eligible now ws lane procurement r =
    str_eq r.workspace ws
    && is_queued r.status
    && leb r.available_at now
    && in_lane lane r.kind
    && (not (is_procurement r.kind) || procurement)

-- ORDER BY CASE WHEN kind='chat' THEN 0 ELSE 1 END, created_at
abbrev pub rank : RunRow → ℕ
rank r = if is_chat r.kind then 0 else 1

unfoldable pub precedes : RunRow → RunRow → Bool
precedes a b = ltb (rank a) (rank b) || (rank a == rank b && leb a.created_at b.created_at)

unfoldable pub better : RunRow → Option RunRow → RunRow
unfolding precedes
better r none = r
better r (some s) = if precedes r s then r else s

-- ORDER BY … LIMIT 1 over the rows that a test admits
unfoldable pub first_by : (RunRow → Bool) → List RunRow → Option RunRow
unfolding better
first_by p [] = none
first_by p (r ∷ rs) = let rest = first_by p rs in if p r then some (better r rest) else rest

unfoldable pub claimed_row : ℕ → ℕ → RunRow → RunRow
claimed_row now lease r = record r {
  status = running;
  attempt = r.attempt + 1;
  lease_token = some lease;
  lease_until = some (now + seconds 30);
  updated_at = now;
}

unfoldable pub claimed : ℕ → RunRow → Run
claimed lease r = record {
  id = r.id;
  workspace = r.workspace;
  kind = r.kind;
  conversation = r.conversation;
  input = r.input;
  lease = lease;
  attempt = r.attempt + 1;
}

-- The second statement, and the event that follows it.
unfoldable pub take_first : ℕ → ℕ → String → Lane → Db → Option Run × Db
unfolding eligible claimed_row claimed first_by
take_first now lease ws lane db =
    elim (first_by (eligible now ws lane (procurement_on ws db.agents)) db.runs) [
      | none ↦ (none, db)
      | some r ↦ (
        some (claimed lease r),
        log r.id "running" (object end)
            (record db { runs = update_rows (λ s. s.id == r.id) (claimed_row now lease) db.runs }),
      )
    ]

unfoldable pub claim_in_lane : ℕ → ℕ → String → Lane → Db → Option Run × Db
unfolding recover take_first
claim_in_lane now lease ws lane db = take_first now lease ws lane (recover now ws db)

unfoldable pub claim : ℕ → ℕ → String → Db → Option Run × Db
unfolding claim_in_lane
claim now lease ws db = claim_in_lane now lease ws all_lanes db
