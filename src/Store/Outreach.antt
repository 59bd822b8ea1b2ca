-- ===== src/Store/Outreach.antt =====
-- The tables of the outreach to suppliers: supplier_threads and supplier_messages.
use backhaus_ai_backend.Base.{ℕ, Bool, true, false, Option, String}
use backhaus_ai_backend.Base.Json.{Json}

-- supplier_threads.status
pub data ThreadStatus : Type 0 where
  draft awaiting_reply reply_received reply_ready offer_ready whatsapp_opened send_failed
        needs_attention discarded :
      ThreadStatus

-- supplier_messages.status
pub data MessageStatus : Type 0 where
  draft review_pending sending sent failed received reviewed superseded discarded : MessageStatus

pub data Direction : Type 0 where
  inbound outbound : Direction

pub data Channel : Type 0 where
  email whatsapp : Channel

pub record Thread : Type 0 where
  pub id : ℕ
  pub workspace : String
  pub vendor_id : ℕ
  pub item_ids : Json
  pub subject : String
  pub initial_body : String
  pub status : ThreadStatus
  pub reply_to : String
  pub recipient_email : Option String
  pub recipient_phone : Option String
  pub created_at : ℕ
  pub updated_at : ℕ

pub record Message : Type 0 where
  pub id : ℕ
  pub thread_id : ℕ
  pub workspace : String
  pub direction : Direction
  pub channel : Channel
  pub body : String
  pub subject : String
  pub status : MessageStatus
  pub provider_id : Option String
  pub internet_id : Option String
  pub reply_to_id : Option String
  pub review : Option String
  pub error : Option String
  pub created_at : ℕ
  pub updated_at : ℕ
  pub sent_at : Option ℕ
  pub received_at : Option ℕ
  pub source_message_id : Option ℕ
  pub review_run_id : Option ℕ
  pub send_payload : Option Json
  pub first_attempt_at : Option ℕ

abbrev pub is_discarded : ThreadStatus → Bool
is_discarded ThreadStatus.discarded = true
is_discarded _ = false

abbrev pub is_sending : MessageStatus → Bool
is_sending sending = true
is_sending _ = false

abbrev pub is_sent : MessageStatus → Bool
is_sent sent = true
is_sent _ = false

abbrev pub is_pending : MessageStatus → Bool
is_pending review_pending = true
is_pending _ = false

-- status IN ('draft','review_pending')
abbrev pub is_unsent : MessageStatus → Bool
is_unsent MessageStatus.draft = true
is_unsent review_pending = true
is_unsent _ = false

abbrev pub is_failed : MessageStatus → Bool
is_failed failed = true
is_failed _ = false

-- "discarded" | "superseded"
abbrev pub is_dropped : MessageStatus → Bool
is_dropped superseded = true
is_dropped MessageStatus.discarded = true
is_dropped _ = false

abbrev pub is_outbound : Direction → Bool
is_outbound outbound = true
is_outbound inbound = false

abbrev pub is_email : Channel → Bool
is_email email = true
is_email whatsapp = false
