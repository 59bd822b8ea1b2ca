-- ===== src/Conversations.antt =====
-- src/conversations.rs: archiving a conversation, and the history that a model is given.
pub mod History
mod Tests
use Prim.Native.String.{◌++◌ as str_append, len}
use backhaus_ai_backend.Base.{
  ℕ, ◌+◌, Bool, not, ◌&&◌, Option, none, some, List, [], ◌∷◌, ◌++◌, String, str_eq, ltb, ◌==◌,
  if◌then◌else◌, any_row, rows_where, update_rows, map, take, reverse,
}
use backhaus_ai_backend.Base.Json.{Json, string, object, Fields, field, end, tagged}
use backhaus_ai_backend.Base.Result.{Result, ok, not_found, ◌>>◌, fail_if}
use backhaus_ai_backend.Store.{Db, RunRow, EventRow, Conversation, cancelled}
use backhaus_ai_backend.Jobs.{unfinished}

-- `payload->>'text'`, which is written as a text only.
text_field : Fields → Option String
text_field end = none
text_field (field k (string s) fs) = if str_eq k "text" then some s else text_field fs
text_field (field k v fs) = text_field fs

payload_text : Json → Option String
unfolding text_field
payload_text (object fs) = text_field fs
payload_text _ = none

streamed_step : ℕ → String → EventRow → String
unfolding payload_text
streamed_step id acc e =
    if e.run_id == id && str_eq e.event_type "running"
    then ""
    else if e.run_id == id && str_eq e.event_type "text_delta"
    then elim (payload_text e.payload) [ none ↦ acc | some s ↦ str_append acc s ]
    else acc

-- The text streamed since the run was last started: `string_agg` over the `text_delta` events
-- behind the last `running` event.
unfoldable pub streamed : ℕ → String → List EventRow → String
unfolding streamed_step
streamed id acc [] = acc
streamed id acc (e ∷ es) = streamed id (streamed_step id acc e) es

-- COALESCE(result, …)
unfoldable pub kept_result : List EventRow → RunRow → Option Json
kept_result events r = elim r.result [
  | some j ↦ some j
  | none ↦ some (tagged "answer" (streamed r.id "" events))
]

unfoldable pub archived_row : ℕ → List EventRow → RunRow → RunRow
archived_row now events r = record r {
  status = cancelled;
  lease_token = none;
  lease_until = none;
  updated_at = now;
  result = kept_result events r;
}

archived_event : RunRow → EventRow
archived_event r = record {
  run_id = r.id;
  event_type = "cancelled";
  payload = tagged "reason" "conversation_archived";
}

abbrev pub is_conversation : String → ℕ → Conversation → Bool
is_conversation ws id c = str_eq c.workspace ws && c.id == id

-- archived_at=COALESCE(archived_at,now())
unfoldable pub mark_archived : ℕ → Conversation → Conversation
mark_archived now c = record c {
  archived_at = elim c.archived_at [ some t ↦ some t | none ↦ some now ];
}

unfoldable pub archive : ℕ → String → ℕ → Db → Result (Unit {0} × Db)
unfolding archived_row archived_event mark_archived
archive now ws id db = do
  fail_if (not (any_row (is_conversation ws id) db.conversations)) not_found
  ok (
    tt,
    record db {
      runs = update_rows (unfinished ws id) (archived_row now db.events) db.runs;
      events = db.events ++ map archived_event (rows_where (unfinished ws id) db.runs);
      conversations = update_rows (is_conversation ws id) (mark_archived now) db.conversations;
    },
  )

-- The loop of `bounded_history`, over the exchanges that `take(4)` leaves. `bytes` counts what is
-- selected so far.
unfoldable pub select : ℕ → List (String × String) → List (String × String)
select bytes [] = []
select bytes ((user, answer) ∷ rows) =
    let size = len user + len answer in
    let rest = (user, answer) ∷ select (bytes + size) rows in
    if ltb 12000 (bytes + size) then [] else rest

unfoldable pub bounded_history : List (String × String) → List (String × String)
unfolding select
bounded_history rows = reverse (select 0 (take 4 rows))
