-- ===== src/Store/Runs.antt =====
-- The tables agent_runs, agent_events, conversations and scoped_agents.
use backhaus_ai_backend.Base.{ℕ, Bool, true, false, Option, none, some, String, ◌==◌}
use backhaus_ai_backend.Base.Int.{ℤ}
use backhaus_ai_backend.Base.Json.{Json}

pub data Status : Type 0 where
  queued running paused completed failed cancelled : Status

pub data Kind : Type 0 where
  chat inventory_review vendor_research supplier_reply : Kind

pub data Role : Type 0 where
  sales inventory procurement : Role

-- agent_runs
pub record RunRow : Type 0 where
  pub id : ℕ
  pub workspace : String
  pub conversation : Option ℕ
  pub request_key : String
  pub input : Json
  pub kind : Kind
  pub status : Status
  pub attempt : ℕ
  pub max_attempts : ℕ
  pub available_at : ℕ
  pub lease_token : Option ℕ
  pub lease_until : Option ℕ
  pub result : Option Json
  pub error_code : Option String
  pub created_at : ℕ
  pub updated_at : ℕ

-- agent_events; the serial key is the position in the table
pub record EventRow : Type 0 where
  pub run_id : ℕ
  pub event_type : String
  pub payload : Json

pub record Conversation : Type 0 where
  pub id : ℕ
  pub workspace : String
  pub archived_at : Option ℕ

pub record ScopedAgent : Type 0 where
  pub workspace : String
  pub role : Role
  pub enabled : Bool
  pub checked_revision : ℤ
  pub last_checked_at : Option ℕ
  pub observation : Option Json

-- agent_data_revisions: the triggers of the migrations count it up when the data of a role changes.
pub record DataRevision : Type 0 where
  pub workspace : String
  pub role : Role
  pub revision : ℕ

-- scoped_agent_checks
pub record CheckRow : Type 0 where
  pub workspace : String
  pub role : Role
  pub revision : ℕ
  pub observation : Json

-- agent_monitor_instances
pub record Monitor : Type 0 where
  pub id : ℕ
  pub workspace : String
  pub heartbeat_at : ℕ

abbrev pub is_queued : Status → Bool
is_queued queued = true
is_queued _ = false

abbrev pub is_running : Status → Bool
is_running running = true
is_running _ = false

abbrev pub is_paused : Status → Bool
is_paused paused = true
is_paused _ = false

-- status IN ('queued','running','paused')
abbrev pub is_active : Status → Bool
is_active queued = true
is_active running = true
is_active paused = true
is_active _ = false

-- The statuses that nothing leaves.
abbrev pub is_terminal : Status → Bool
is_terminal completed = true
is_terminal failed = true
is_terminal cancelled = true
is_terminal _ = false

abbrev pub status_name : Status → String
status_name queued = "queued"
status_name running = "running"
status_name paused = "paused"
status_name completed = "completed"
status_name failed = "failed"
status_name cancelled = "cancelled"

abbrev pub is_chat : Kind → Bool
is_chat chat = true
is_chat _ = false

abbrev pub is_review : Kind → Bool
is_review inventory_review = true
is_review _ = false

-- kind IN ('vendor_research','supplier_reply')
abbrev pub is_procurement : Kind → Bool
is_procurement vendor_research = true
is_procurement supplier_reply = true
is_procurement _ = false

abbrev pub is_procurement_role : Role → Bool
is_procurement_role procurement = true
is_procurement_role _ = false

-- `column = $n` on a nullable column: a NULL equals nothing.
abbrev pub holds : Option ℕ → ℕ → Bool
holds none k = false
holds (some j) k = j == k
