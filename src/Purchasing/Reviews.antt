-- ===== src/Purchasing/Reviews.antt =====
-- src/purchasing.rs, `record_review`: the review of a check goes to the findings that it describes.
use backhaus_ai_backend.Base.{
  ℕ, ◌≡◌, Bool, true, false, not, ◌&&◌, Option, none, some, String, str_eq, ◌==◌, if◌then◌else◌,
  arith, All, any_row, update_rows, update_rows-none, All_of_none, All-mono,
}
use backhaus_ai_backend.Base.Int.{ℤ, negsuc, ltb_ℤ}
use backhaus_ai_backend.Base.Json.{Json, null, number, string, object, Fields, field, end}
use backhaus_ai_backend.Base.Text.{take_chars}
use backhaus_ai_backend.Store.{Db, ScopedAgent, Role, inventory, Status, completed}
use backhaus_ai_backend.Jobs.{Run}

-- `value[key]` of an object
abbrev member : String → Fields → Json
member key end = null
member key (field k v fs) = if str_eq k key then v else member key fs

abbrev at : String → Json → Json
at key (object fs) = member key fs
at key _ = null

-- `||` with an object of one field
abbrev with_field : String → Json → Fields → Fields
with_field key value end = field key value end
with_field key value (field k v fs) =
    let rest = with_field key value fs in
    if str_eq k key then field key value fs else field k v rest

abbrev is_done : Status → Bool
is_done completed = true
is_done _ = false

abbrev is_inventory : Role → Bool
is_inventory inventory = true
is_inventory _ = false

abbrev same_ℤ : ℤ → ℤ → Bool
same_ℤ a b = not (ltb_ℤ a b) && not (ltb_ℤ b a)

-- `show_int` prints an integer, `show_id` an identifier, `as_i64` reads a number.
module _ (show_int : ℤ → String) (show_id : ℕ → String) (as_i64 : String → Option ℤ) where
  abbrev int_of : Json → Option ℤ
  int_of (number text) = as_i64 text
  int_of _ = none

  abbrev pub revision_of : Run → ℤ
  revision_of run = elim (int_of (at "revision" run.input)) [ none ↦ negsuc 0 | some n ↦ n ]

  abbrev answer_of : Json → String
  answer_of result = elim (at "answer" result) [ string text ↦ take_chars 2000 text | _ ↦ "" ]

  -- COALESCE(observation,'{}')||jsonb_build_object(…); what is stored is always an object.
  unfoldable pub reviewed : ℤ → ℕ → String → Option Json → Option Json
  reviewed revision id answer observation =
      let fields : Fields = elim observation [
        | none ↦ end
        | some (object fs) ↦ fs
        | some _ ↦ end
      ] in
      some (
        object (
          with_field "review" (string answer) (
            with_field "review_run_id" (string (show_id id))
              (with_field "review_revision" (number (show_int revision)) fields))))

  abbrev pub takes_review : Run → Db → ScopedAgent → Bool
  takes_review run db a =
      str_eq a.workspace run.workspace
      && is_inventory a.role
      && same_ℤ a.checked_revision (revision_of run)
      && any_row (λ r. r.id == run.id && str_eq r.workspace run.workspace && is_done r.status)
          db.runs

  unfoldable pub record_review : Run → Json → Db → Db
  unfolding reviewed
  record_review run result db = record db {
    agents =
        update_rows (takes_review run db)
          (λ a. record a {
            observation = reviewed (revision_of run) run.id (answer_of result) a.observation;
          })
          db.agents;
  }

  -- When no agent of the workspace has checked the revision of the run, its review changes nothing.
  record_review_late :
      (run : Run) (result : Json) (db : Db)
      → All (λ (a : ScopedAgent). same_ℤ a.checked_revision (revision_of run) ≡ false) db.agents
      → (record_review run result db).agents ≡ db.agents
  unfolding record_review
  record_review_late run result db h =
      update_rows-none (takes_review run db) _ db.agents
        (All_of_none _ db.agents (All-mono _ _ db.agents (λ a e. ground (arith, e)) h))
