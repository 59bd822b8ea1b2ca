-- ===== src/Outreach/Stages.antt =====
-- The life of a supplier's message, as a specification: what is posted of it is settled with the
-- first attempt, a delivered message stays delivered, and one that is dropped is never posted again.
use backhaus_ai_backend.Base.{ℕ, ◌≡◌, true, false, arith, Option, none, some, String, ◌||◌}
use backhaus_ai_backend.Base.Json.{Json}
use backhaus_ai_backend.Store.Outreach.{
  MessageStatus, review_pending, sending, sent, failed, received, reviewed, superseded, Direction,
  inbound, outbound, Thread, Message, is_unsent, is_sending, is_sent, is_failed, is_dropped,
  is_outbound,
}
use backhaus_ai_backend.Outreach.{marked, attempted}
use backhaus_ai_backend.Outreach.Reviews.{review_row, is_draft}
use backhaus_ai_backend.Outreach.Enquiries.{failed_early}
use backhaus_ai_backend.Outreach.Sending.{
  attempting, delivered_row, failed_row, payload_of, new_payload,
}

-- `posted` is a message that was posted once or more, and whose answer is awaited or was an error.
pub data Stage : Type 0 where
  incoming : Stage
  waiting : Stage
  posted : (payload : Json) → Stage
  delivered : (payload : Json) → Stage
  dropped : (payload : Option Json) → Stage

-- The last is an answer that comes after the message was discarded.
pub data Moves : Stage → Stage → Type 0 where
  posts : (p : Json) → Moves waiting (posted p)
  drops : Moves waiting (dropped none)
  arrives : (p : Json) → Moves (posted p) (delivered p)
  gives_up : (p : Json) → Moves (posted p) (dropped (some p))
  arrives_late : (p : Json) → Moves (dropped (some p)) (delivered p)

pub data Leads : Stage → Stage → Type 0 where
  stays : {s : Stage} → Leads s s
  goes : {s t u : Stage} → Moves s t → Leads t u → Leads s u

pub Leads-trans : {s t u : Stage} → Leads s t → Leads t u → Leads s u
Leads-trans stays k = k
Leads-trans (goes m l) k = goes m (Leads-trans l k)

-- The stage of a row, from its direction, status, payload and first attempt.
abbrev pub staged : Direction → MessageStatus → Option Json → Option ℕ → Option Stage
staged inbound received none none = some incoming
staged inbound reviewed none none = some incoming
staged outbound MessageStatus.draft none none = some waiting
staged outbound review_pending none none = some waiting
staged outbound failed none none = some waiting
staged outbound sending (some p) (some t) = some (posted p)
staged outbound failed (some p) (some t) = some (posted p)
staged outbound sent (some p) (some t) = some (delivered p)
staged outbound superseded none none = some (dropped none)
staged outbound MessageStatus.discarded none none = some (dropped none)
staged outbound MessageStatus.discarded (some p) (some t) = some (dropped (some p))
staged _ _ _ _ = none

abbrev pub stage : Message → Option Stage
stage m = staged m.direction m.status m.send_payload m.first_attempt_at

abbrev pub payload_at : Stage → Option Json
payload_at incoming = none
payload_at waiting = none
payload_at (posted p) = some p
payload_at (delivered p) = some p
payload_at (dropped q) = q

pub record LeadsTo (s : Stage) (t : Option Stage) : Type 0 where
  pub to : Stage
  pub at : t ≡ some to
  pub leads : Leads s to

pub payload_staged :
    (d : Direction) (st : MessageStatus) (q : Option Json) (f : Option ℕ) {s : Stage}
    → staged d st q f ≡ some s
    → q ≡ payload_at s
payload_staged d st q f h = ground arith

-- Each row function leads a message along the specification. The numbers of a message are the statement's.
module _ (now : ℕ) (m : Message) where
  pub superseded-Leads :
      (s : Stage)
      → stage m ≡ some s
      → is_unsent m.status ≡ true
      → attempted m ≡ false
      → LeadsTo s (stage (marked now superseded m))
  unfolding marked
  superseded-Leads waiting h u a = record {
    to = dropped none;
    at = ground arith;
    leads = goes drops stays;
  }
  superseded-Leads s h u a = absurd (ground arith)

  pub discarded-Leads :
      (s : Stage)
      → stage m ≡ some s
      → is_unsent m.status || is_failed m.status ≡ true
      → LeadsTo s (stage (marked now MessageStatus.discarded m))
  unfolding marked
  discarded-Leads waiting h u = record {
    to = dropped none;
    at = ground arith;
    leads = goes drops stays;
  }
  discarded-Leads (posted p) h u = record {
    to = dropped (some p);
    at = ground arith;
    leads = goes (gives_up p) stays;
  }
  discarded-Leads s h u = absurd (ground arith)

  pub review-Leads :
      (summary : String) (s : Stage)
      → stage m ≡ some s
      → is_outbound m.direction ≡ false
      → LeadsTo s (stage (review_row now summary m))
  unfolding review_row
  review-Leads summary incoming h u = record { to = incoming; at = ground arith; leads = stays }
  review-Leads summary s h u = absurd (ground arith)

  pub failed-Leads :
      (cause : String) (s : Stage)
      → stage m ≡ some s
      → is_sending m.status ≡ true
      → LeadsTo s (stage (failed_row now cause m))
  unfolding failed_row
  failed-Leads cause (posted p) h u = record { to = posted p; at = ground arith; leads = stays }
  failed-Leads cause s h u = absurd (ground arith)

  pub delivered-Leads :
      (provider : String) (q : Json) (s : Stage)
      → stage m ≡ some s
      → m.send_payload ≡ some q
      → LeadsTo s (stage (delivered_row now provider m))
  unfolding delivered_row
  delivered-Leads provider q (posted p) h u = record {
    to = delivered p;
    at = ground arith;
    leads = goes (arrives p) stays;
  }
  delivered-Leads provider q (delivered p) h u = record {
    to = delivered p;
    at = ground arith;
    leads = stays;
  }
  delivered-Leads provider q (dropped (some p)) h u = record {
    to = delivered p;
    at = ground arith;
    leads = goes (arrives_late p) stays;
  }
  delivered-Leads provider q s h u = absurd (ground arith)

  pub attempting-Leads :
      (from : String) (t : Thread) (s : Stage)
      → stage m ≡ some s
      → is_outbound m.direction ≡ true
      → is_sent m.status ≡ false
      → is_dropped m.status ≡ false
      → LeadsTo s (stage (attempting now (payload_of from t m) m))
  unfolding attempting payload_of
  attempting-Leads from t waiting h o a b = record {
    to = posted (new_payload from t m);
    at = ground arith;
    leads = goes (posts _) stays;
  }
  attempting-Leads from t (posted p) h o a b = record {
    to = posted p;
    at = ground arith;
    leads = stays;
  }
  attempting-Leads from t s h o a b = absurd (ground arith)

  pub early-Leads :
      (cause : String) (s : Stage)
      → stage m ≡ some s
      → is_draft m.status || is_failed m.status ≡ true
      → LeadsTo s (stage (failed_early now cause m))
  early-Leads cause waiting h u = record { to = waiting; at = ground arith; leads = stays }
  early-Leads cause (posted p) h u = record { to = posted p; at = ground arith; leads = stays }
  early-Leads cause s h u = absurd (ground arith)
