-- ===== src/Outreach/Tests.antt =====
-- The theorems on the outreach at concrete inputs.
use backhaus_ai_backend.Base.{
  ℕ, ◌+◌, map, List, ◌≤◌, ◌≡◌, refl, true, false, arith, Option, none, some, [], ◌∷◌, String, Memᴰ,
  any_row, count_rows, find_row,
}
use backhaus_ai_backend.Base.Json.{null}
use backhaus_ai_backend.Base.Int.{pos}
use backhaus_ai_backend.Base.Text.{trim}
use backhaus_ai_backend.Base.Result.{Result, ok, err, conflict}
use backhaus_ai_backend.Store.{empty_db, RunRow, supplier_reply, completed, procurement}
use backhaus_ai_backend.Store.Orders.{Vendor}
use backhaus_ai_backend.Store.Outreach.{
  sent, reply_ready, review_pending, reviewed, inbound, email, Thread, Message,
}
use backhaus_ai_backend.Outreach.{Office, is_message}
use backhaus_ai_backend.Outreach.Replies.{
  Incoming, Ingested, reused, ingest, draft_reply, outbound_message,
}
use backhaus_ai_backend.Outreach.Reviews.{asks_in}
use backhaus_ai_backend.Outreach.Sending.{
  Post, posts, begin_send, delivered, refused, settle, agent_on, is_completed,
}
use backhaus_ai_backend.Outreach.Mail.{sync_mail, Mail, Email}
use backhaus_ai_backend.Outreach.Processing.{process_replies}
use backhaus_ai_backend.Outreach.Ending.{discard}
use backhaus_ai_backend.Outreach.Stages.{waiting, incoming}
use backhaus_ai_backend.Outreach.Follows.{IsTable, Lives}
use backhaus_ai_backend.Outreach.Steps.{World, Reach, here, next, begins, settles, drafts, IsSound}
use backhaus_ai_backend.Outreach.History.{
  Reach-IsSound, message_refines, payload_frozen, asked_thrice, closed_not_posted,
}
use backhaus_ai_backend.Outreach.Refusals.{question_posted, ingest_again, sending_holds}

abbrev farm : Vendor
farm = record {
  workspace = "w";
  id = 5;
  name = "Farm";
  contact_name = none;
  email = some "sales@farm.example";
  phone = none;
  notes = none;
  research_status = "shortlisted";
  version = 1;
  updated_at = 0;
}

abbrev thread_row : Thread
thread_row = record {
  id = 3;
  workspace = "w";
  vendor_id = 5;
  item_ids = null;
  subject = "Supply enquiry";
  initial_body = "Hello";
  status = reply_ready;
  reply_to = "";
  recipient_email = none;
  recipient_phone = none;
  created_at = 0;
  updated_at = 0;
}

abbrev reply_row : Message
reply_row = record (outbound_message 10 1 "w" 3 email "Yes" "Supply enquiry" reviewed none) {
  direction = inbound;
  review = some "An offer";
}

-- The automatic question to the reply, which run 7 has prepared.
abbrev question_row : Message
question_row =
    record (outbound_message 20 2 "w" 3 email "Could you confirm the price?" "Supply enquiry"
      review_pending none) { source_message_id = some 1; review_run_id = some 7 }

abbrev run_row : RunRow
run_row = record {
  id = 7;
  workspace = "w";
  conversation = none;
  request_key = "supplier-reply:1";
  input = null;
  kind = supplier_reply;
  status = completed;
  attempt = 1;
  max_attempts = 3;
  available_at = 0;
  lease_token = none;
  lease_until = none;
  result = none;
  error_code = none;
  created_at = 0;
  updated_at = 0;
}

abbrev office : Office
office = record {
  db = record empty_db {
    vendors = farm ∷ [];
    runs = run_row ∷ [];
    agents =
        record {
          workspace = "w";
          role = procurement;
          enabled = true;
          checked_revision = pos 0;
          last_checked_at = none;
          observation = none;
        }
        ∷ [];
  };
  settings = [];
  threads = thread_row ∷ [];
  messages = reply_row ∷ question_row ∷ [];
}

abbrev lower : String → String
lower s = s

abbrev begun : ℕ → Office → Post × Office
begun now o = elim (begin_send lower (some "key") (some "us@backhaus.example") now "w" 3 none o) [
  | ok (posts p, o') ↦ (p, o')
  | _ ↦ (record { message = 0; thread = 0; at = 0; payload = null }, o)
]

abbrev first : Post × Office
first = begun 100 office

abbrev failed_office : Office
failed_office = settle 200 "no answer" first.0 refused first.1

abbrev second : Post × Office
second = begun 300 failed_office

abbrev first_world : World
first_world = record { office = office; log = [] }

abbrev last_world : World
last_world = record { office = second.1; log = second.0 ∷ first.0 ∷ [] }

begun_first :
    begin_send lower (some "key") (some "us@backhaus.example") 100 "w" 3 none office
    ≡ ok (posts first.0, first.1)
unfolding begin_send
begun_first = refl

begun_second :
    begin_send lower (some "key") (some "us@backhaus.example") 300 "w" 3 none failed_office
    ≡ ok (posts second.0, second.1)
unfolding begin_send settle
begun_second = refl

history : Reach first_world last_world
unfolding settle
history =
    next
      (begins lower (some "key") (some "us@backhaus.example") 100 "w" 3 none (posts first.0)
        begun_first)
      (next (settles 200 "no answer" first.0 refused (Memᴰ.head refl)) (
        next
          (begins lower (some "key") (some "us@backhaus.example") 300 "w" 3 none (posts second.0)
            begun_second)
          here))

office-IsTable : IsTable office.messages
office-IsTable = record {
  apart = ((refl, tt), (tt, tt));
  staged = (
    record { at_stage = incoming; holds = refl },
    (record { at_stage = waiting; holds = refl }, tt),
  );
}

first_world-IsSound : IsSound first_world
first_world-IsSound = record { table = office-IsTable; kept = tt }

-- The second attempt posts what the first one has posted.
payload_frozen_example : second.0.payload ≡ first.0.payload
unfolding begin_send settle
payload_frozen_example =
    payload_frozen history first_world-IsSound second.0 first.0 (Memᴰ.head refl)
      (Memᴰ.tail (Memᴰ.head refl)) refl

message_refines_example : Lives 2 waiting second.1.messages
message_refines_example =
    message_refines history first_world-IsSound question_row waiting (Memᴰ.tail (Memᴰ.head refl))
      refl

asked_thrice_example : count_rows (asks_in 3) second.1.messages ≤ 3
asked_thrice_example = asked_thrice history first_world-IsSound 3 (omega arith)

question_posted_example :
    (agent_on "w" office.db ≡ true) × (any_row (is_completed 7) office.db.runs ≡ true)
unfolding begin_send
question_posted_example =
    question_posted lower (some "key") (some "us@backhaus.example") 100 "w" 3 none office first.1
      first.0 office-IsTable begun_first question_row (Memᴰ.tail (Memᴰ.head refl)) refl 7 refl

-- The second attempt is answered; after that a new draft is written, and nothing more is posted.
abbrev sent_office : Office
sent_office = settle 400 "" second.0 (delivered "re-1") second.1

abbrev with_draft : Office
with_draft = elim (draft_reply 500 "w" 3 "Thank you." 9 sent_office) [
  | ok p ↦ p.1
  | err _ ↦ sent_office
]

draft_written : draft_reply 500 "w" 3 "Thank you." 9 sent_office ≡ ok (false, with_draft)
unfolding draft_reply settle begin_send trim
draft_written = refl

abbrev message_of : ℕ → Office → Message
message_of id o = elim (find_row (is_message id) o.messages) [ some m ↦ m | none ↦ question_row ]

after_send : Reach last_world (record { office = sent_office; log = second.0 ∷ first.0 ∷ [] })
unfolding settle
after_send = next (settles 400 "" second.0 (delivered "re-1") (Memᴰ.head refl)) here

closed_not_posted_example : Memᴰ second.0 (second.0 ∷ first.0 ∷ [])
unfolding settle begin_send
closed_not_posted_example =
    closed_not_posted (next (drafts 500 "w" 3 "Thank you." 9 false draft_written) here)
      (Reach-IsSound after_send (Reach-IsSound history first_world-IsSound))
      (message_of 2 sent_office) second.0 (Memᴰ.tail (Memᴰ.head refl)) refl (Memᴰ.head refl) refl

-- An attempt that was never answered, a day ago.
sending_holds_example :
    (discard 90000000000 "w" 3 first.1 ≡ err conflict)
    × ((lower : String → String) (key from : Option String) (at : ℕ) (wanted : Option ℕ)
          (o' : Office) (post : Post)
        → begin_send lower key from 90000000000 "w" at wanted first.1 ≡ ok (posts post, o')
        → ¬ (post.message ≡ 2))
unfolding begin_send
sending_holds_example =
    sending_holds "w" 3 (message_of 2 first.1) first.1 (Memᴰ.tail (Memᴰ.head refl)) refl refl refl
      90000000000 90000000000 (omega arith) refl
      (Reach-IsSound
        (next
          (begins lower (some "key") (some "us@backhaus.example") 100 "w" 3 none (posts first.0)
            begun_first)
          here)
        first_world-IsSound).table

abbrev reply_mail : Incoming
reply_mail = record {
  channel = email;
  body = "Two euros a kilogram.";
  subject = "Re: Supply enquiry";
  provider = "received:1";
  internet = none;
}

abbrev show : ℕ → String
show n = "id"

abbrev ingested : Ingested × Office
ingested = elim (ingest show 600 11 12 "w" 3 reply_mail office) [
  | ok p ↦ p
  | err _ ↦ (reused, office)
]

ingest_again_example : ingest show 700 13 14 "w" 3 reply_mail ingested.1 ≡ ok (reused, ingested.1)
unfolding ingest
ingest_again_example =
    ingest_again show 600 11 12 "w" 3 reply_mail office ingested.1 ingested.0 refl 700 13 14
      reply_mail refl

-- The question is sent by a pass over the replies, which also looks at one mail.
abbrev asking : Office
asking = record office {
  settings =
      record {
        workspace = "w";
        business_name = "Backhaus";
        city = "Berlin";
        country = "Germany";
        reply_to = "";
        auto_reply = true;
        version = 1;
        updated_at = 0;
      }
      ∷ [];
}

abbrev mailbox : Result (List Mail)
mailbox = ok (
    record {
      id = some "7f";
      subject = "Re: [BH-id]";
      from = "sales@farm.example";
      to = "us@backhaus.example" ∷ [];
    }
    ∷ [])

abbrev fetched : String → Result Email
fetched id = ok (record { headers = []; text = "Two euros."; message_id = none })

-- A mail of the supplier, to our address.
abbrev our_thread : Thread
our_thread = record thread_row {
  reply_to = "us@backhaus.example";
  recipient_email = some "sales@farm.example";
}

abbrev answer_mail : Mail
answer_mail = record {
  id = some "7f";
  subject = "Re: [BH-id]";
  from = "Farm <sales@farm.example>";
  to = "Us@backhaus.example" ∷ [];
}

abbrev answered : Office
answered =
    elim (sync_mail lower show (λ _. true) fetched 700 "w" 11 12 (our_thread ∷ []) answer_mail
      office) [ ok x ↦ x.1 | err _ ↦ office ]

-- The pass posts the question.
asking_posts :
    map
      (λ m. m.status)
      (process_replies lower show
        (λ _. true)
        fetched
        (λ i. 100 + i)
        (λ i. 100 + i)
        (some "key")
        (some "us@backhaus.example")
        mailbox
        (λ _. delivered "re-1")
        ""
        100
        "w"
        asking).1.messages
    ≡ reviewed ∷ sent ∷ []
unfolding process_replies
asking_posts = refl
