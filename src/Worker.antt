-- ===== src/Worker.antt =====
-- src/worker.rs: the line protocol with the worker process. The process and its pipes are a parameter:
-- what it writes is a list of messages, and whether each write to its standard input comes through a
-- list of Booleans.
pub mod Abort
mod Tests
use Prim.Native.String.{len}
use backhaus_ai_backend.Base.{
  ℕ, ◌+◌, Bool, true, false, not, ◌&&◌, Option, none, some, List, [], ◌∷◌, ◌++◌, String, str_eq,
  ltb, ◌==◌, if◌then◌else◌,
}
use backhaus_ai_backend.Base.Json.{Json}
use backhaus_ai_backend.Base.Result.{Result, ok, err}
use backhaus_ai_backend.Base.Result
use backhaus_ai_backend.Base.Text.{trim, is_empty}

pub record HistoryTurn : Type 0 where
  pub role : String
  pub text : String

pub record RunLimits : Type 0 where
  pub turns : ℕ
  pub output_tokens : ℕ
  pub max_output_chars : ℕ
  pub timeout_ms : ℕ
  pub tool_timeout_ms : ℕ

pub data Inbound : Type 0 where
  run :
      (run_id kind system_prompt message : String) (history : List HistoryTurn) (tools : List Json)
      (limits : RunLimits)
      → Inbound
  tool_result : (run_id call_id : String) (result : Option Json) (error : Option String) → Inbound
  cancel : (run_id : String) → Inbound
  shutdown : Inbound

pub data Outbound : Type 0 where
  ready : (protocol : ℕ) (sdk : String) → Outbound
  text_delta : (run_id text : String) → Outbound
  tool_call : (run_id call_id name : String) (input : Json) → Outbound
  completed : (run_id answer stop_reason : String) (model_calls : ℕ) → Outbound
  failed : (run_id code error : String) → Outbound
  cancelled : (run_id : String) → Outbound

-- `incoming` is what the reader delivers, in order, until the process exits or the wait of the caller
-- is over; `sent` is what was written to standard input, `writes` whether the writes to come succeed, in
-- order; one past the end of the list fails.
pub record Worker : Type 0 where
  pub active_run : Option String
  pub incoming : List Outbound
  pub sent : List Inbound
  pub writes : List Bool
  pub sdk_version : String

-- The messages of the lines that the reader task reads. It stops at an oversized line, and passes
-- over blank lines and lines that `parse` does not know.
module _ (parse : String → Option Outbound) where
  unfoldable pub reader : List String → List Outbound
  reader [] = []
  reader (line ∷ lines) =
      let rest = reader lines in
      if ltb 1048576 (len line)
      then []
      else (if is_empty (trim line)
          then rest
          else (elim (parse (trim line)) [ none ↦ rest | some m ↦ m ∷ rest ]))

abbrev pub started : Inbound → Option String → Option String
started (run run_id _ _ _ _ _ _) active = some run_id
started _ active = active

-- `send`: the worker afterwards, and whether the write came through.
unfoldable pub send : Inbound → Worker → Bool × Worker
send m w = elim w.writes [
  | [] ↦ (false, record w { active_run = started m w.active_run })
  | b ∷ bs ↦ (
    b,
    record w {
      active_run = started m w.active_run;
      sent = if b then w.sent ++ m ∷ [] else w.sent;
      writes = bs;
    },
  )
]

-- The run that a terminal message ends.
abbrev pub ended : Outbound → Option String
ended (completed run_id _ _ _) = some run_id
ended (failed run_id _ _) = some run_id
ended (cancelled run_id) = some run_id
ended _ = none

abbrev pub same_run : Option String → Option String → Bool
same_run (some a) (some b) = str_eq a b
same_run _ _ = false

-- What `next` does with a message.
unfoldable pub received : Outbound → Worker → Worker
received m w = record w {
  active_run = if same_run (ended m) w.active_run then none else w.active_run;
}

unfoldable pub next : Worker → Option Outbound × Worker
unfolding received
next w = elim w.incoming [
  | [] ↦ (none, w)
  | m ∷ ms ↦ (some m, received m (record w { incoming = ms }))
]

-- A tool is never executed for an abandoned run; a failed write is ignored.
unfoldable pub refuse : String → Outbound → Worker → Worker
unfolding send
refuse run_id (tool_call id call_id name input) w =
    if str_eq id run_id
    then (send (tool_result run_id call_id none (some "Run cancelled")) w).1
    else w
refuse run_id _ w = w

-- The loop of `abort_run`, over the messages that arrive within its five seconds.
unfoldable pub drain : String → List Outbound → Worker → Bool × Worker
unfolding received refuse
drain run_id [] w = (false, record w { incoming = [] })
drain run_id (m ∷ ms) w =
    let seen = received m (record w { incoming = ms }) in
    let rest = drain run_id ms (refuse run_id m seen) in
    if same_run (ended m) (some run_id) then (true, seen) else rest

unfoldable pub abort_run : String → Worker → Result (Unit {0}) × Worker
unfolding send drain
abort_run run_id w =
    let asked = send (cancel run_id) w in
    let drained = drain run_id asked.1.incoming asked.1 in
    if same_run w.active_run (some run_id)
    then (if asked.0
        then (if drained.0 then (ok tt, drained.1) else (err Result.worker, drained.1))
        else (err Result.worker, asked.1))
    else (ok tt, w)

-- What `spawn` makes of the first message: `none` where the wait for it ran out.
unfoldable pub handshake : Option (Option Outbound) → Worker → Result Worker
handshake (some (some (ready protocol sdk))) w =
    if protocol == 1 then ok (record w { sdk_version = sdk }) else err Result.worker
handshake _ w = err Result.worker
