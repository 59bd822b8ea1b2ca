-- ===== src/Outreach/Steps.antt =====
-- The calls of src/outreach.rs as steps. Between the two transactions of a send any other call may run,
-- so a send is two steps: the message is posted, and the provider's answer is written down.
use Prim.Native.String.{◌++◌ as str_append}
use backhaus_ai_backend.Base.{
  ◌⊎◌, rows_where, ℕ, ◌≡◌, sym, subst, ◌∙◌, Bool, false, arith, Option, none, some, List, [], ◌∷◌,
  inl, inr, String, Memᴰ, All, All-mem, any_row,
}
use backhaus_ai_backend.Base.Result.{ok, Result-cases}
use backhaus_ai_backend.Base.Json.{Json}
use backhaus_ai_backend.Store.{Db}
use backhaus_ai_backend.Store.Outreach.{Thread, Message, Channel}
use backhaus_ai_backend.Settings.{SettingsRow, SettingsView}
use backhaus_ai_backend.Decimal.{Arithmetic}
use backhaus_ai_backend.Store.Stock.{Item}
use backhaus_ai_backend.Outreach.Enquiries.{Brief, create_enquiry, approval_failed}
use backhaus_ai_backend.Outreach.Opens.{create-Follows, approval-Follows}
use backhaus_ai_backend.Jobs.{Run}
use backhaus_ai_backend.Outreach.{Office, is_message, detail}
use backhaus_ai_backend.Outreach.Replies.{Incoming, Ingested, ingest, paste_reply, draft_reply}
use backhaus_ai_backend.Outreach.Reviews.{Review, Reviewed, review}
use backhaus_ai_backend.Outreach.Sending.{
  Post, Begun, posts, sent_already, begin_send, Outcome, settle,
}
use backhaus_ai_backend.Outreach.Ending.{
  discard, discard_all, decide_vendor, candidate_action, is_live_thread, whatsapp,
}
use backhaus_ai_backend.Outreach.Stages.{
  Stage, Moves, Leads, stays, goes, payload_at, payload_staged,
}
use backhaus_ai_backend.Outreach.Follows.{
  IsTable, Staged, Lives, Follows, Follows-refl, Follows-trans,
}
use backhaus_ai_backend.Outreach.Concluding.{review-Follows}
use backhaus_ai_backend.Outreach.Rows.{ingest-Follows, draft-Follows, discard-Follows}
use backhaus_ai_backend.Outreach.Sends.{
  begin-Posted, Posted-Follows, begin_sent, Kept, settle-Follows,
}

-- The database, and all that was ever posted to the provider, the last first.
pub record World : Type 0 where
  pub office : Office
  pub log : List Post

abbrev pub logged : Begun → List Post → List Post
logged sent_already log = log
logged (posts p) log = p ∷ log

-- The calls of the outreach, and what other parts write to their own tables.
pub data Step : World → World → Type 0 where
  opens :
      {o : Office} {log : List Post} (ops : Arithmetic) (show_id : ℕ → String)
      (collate : List Item → List Item) (now id message : ℕ) (ws : String) (s : SettingsView)
      (vendor : ℕ) (items : List String) (brief : Option Brief)
      → any_row (is_message message) o.messages ≡ false
      → Step
          (record { office = o; log = log })
          (record {
            office =
                (create_enquiry ops show_id collate now id message ws s vendor items brief o).1;
            log = log;
          })
  approves :
      {o : Office} {log : List Post} (now : ℕ) (cause ws : String) (thread first : ℕ)
      → Step
          (record { office = o; log = log })
          (record { office = approval_failed now cause ws thread first o; log = log })
  receives :
      {o o' : Office} {log : List Post} (show_id : ℕ → String) (now id run_id : ℕ) (ws : String)
      (thread : ℕ) (i : Incoming) (r : Ingested)
      → any_row (is_message id) o.messages ≡ false
      → ingest show_id now id run_id ws thread i o ≡ ok (r, o')
      → Step (record { office = o; log = log }) (record { office = o'; log = log })
  pastes :
      {o o' : Office} {log : List Post} (show_id : ℕ → String) (now id run_id : ℕ) (ws : String)
      (thread : ℕ) (body : String) (request : ℕ) (r : Ingested)
      → any_row (is_message id) o.messages ≡ false
      → paste_reply show_id now id run_id ws thread body request o ≡ ok (r, o')
      → Step (record { office = o; log = log }) (record { office = o'; log = log })
  reviews :
      {o o' : Office} {log : List Post} (now new_id : ℕ) (run : Run) (message thread : Option ℕ)
      (input : Review) (r : Reviewed)
      → any_row (is_message new_id) o.messages ≡ false
      → review now new_id run message thread input o ≡ ok (r, o')
      → Step (record { office = o; log = log }) (record { office = o'; log = log })
  drafts :
      {o o' : Office} {log : List Post} (now : ℕ) (ws : String) (thread : ℕ) (body : String)
      (request : ℕ) (r : Bool)
      → draft_reply now ws thread body request o ≡ ok (r, o')
      → Step (record { office = o; log = log }) (record { office = o'; log = log })
  begins :
      {o o' : Office} {log : List Post} (lower : String → String) (key from : Option String)
      (now : ℕ) (ws : String) (thread : ℕ) (wanted : Option ℕ) (b : Begun)
      → begin_send lower key from now ws thread wanted o ≡ ok (b, o')
      → Step (record { office = o; log = log }) (record { office = o'; log = logged b log })
  settles :
      {o : Office} {log : List Post} (now : ℕ) (cause : String) (post : Post) (out : Outcome)
      → Memᴰ post log
      → Step
          (record { office = o; log = log })
          (record { office = settle now cause post out o; log = log })
  discards :
      {o o' : Office} {log : List Post} (now : ℕ) (ws : String) (thread : ℕ)
      → discard now ws thread o ≡ ok o'
      → Step (record { office = o; log = log }) (record { office = o'; log = log })
  decides :
      {o : Office} {log : List Post} (now : ℕ) (ws : String) (vendor : ℕ) (status : String)
      → Step
          (record { office = o; log = log })
          (record { office = (candidate_action now ws vendor status o).1; log = log })
  composes :
      {o o' : Office} {log : List Post} (encode : String → String) (now : ℕ) (ws : String)
      (thread : ℕ) (url : String)
      → whatsapp encode now ws thread o ≡ ok (url, o')
      → Step (record { office = o; log = log }) (record { office = o'; log = log })
  elsewhere :
      {o : Office} {log : List Post} (db : Db) (settings : List SettingsRow)
      → Step
          (record { office = o; log = log })
          (record { office = record o { db = db; settings = settings }; log = log })

pub data Reach : World → World → Type 0 where
  here : {w : World} → Reach w w
  next : {w v u : World} → Step w v → Reach v u → Reach w u

pub record IsSound (w : World) : Type 0 where
  pub table : IsTable w.office.messages
  pub kept : All (Kept w.office.messages) w.log

Leads-payload : {s t : Stage} {p : Json} → Leads s t → payload_at s ≡ some p → payload_at t ≡ some p
Leads-payload stays h = h
Leads-payload (goes m l) h = Leads-payload l (move_payload m h)
  where
    move_payload :
        {s t : Stage} {p : Json} → Moves s t → payload_at s ≡ some p → payload_at t ≡ some p
    move_payload (Moves.posts q) h = absurd (ground arith)
    move_payload Moves.drops h = h
    move_payload (Moves.arrives q) h = h
    move_payload (Moves.gives_up q) h = h
    move_payload (Moves.arrives_late q) h = h

-- What was posted stays what the row holds.
pub Follows-Kept :
    {ms ns : List Message} {post : Post} → IsTable ms → Follows ms ns → Kept ms post → Kept ns post
Follows-Kept {ms = ms} {ns = ns} {post = post} t f k =
    let g : Staged k.row = All-mem Staged ms t.staged k.mem in
    let l : Lives k.row.id g.at_stage ns = f.lives k.row g.at_stage k.mem g.holds in
    let a =
      payload_staged k.row.direction k.row.status k.row.send_payload k.row.first_attempt_at
        g.holds in
    let b =
      payload_staged l.row.direction l.row.status l.row.send_payload l.row.first_attempt_at
        l.next.at in
    record {
      row = l.row;
      mem = l.mem;
      same = l.same ∙ k.same;
      payload = b ∙ Leads-payload l.next.leads (sym a ∙ k.payload);
    }

discard_all-Follows :
    (now : ℕ) (ws : String) (ts : List Thread) (o : Office)
    → IsTable o.messages
    → Follows o.messages (discard_all now ws ts o).1.messages
unfolding discard_all
discard_all-Follows now ws [] o t = Follows-refl o.messages t
discard_all-Follows now ws (x ∷ ts) o t = elim (Result-cases (discard now ws x.id o)) [
  | inl (p, q) ↦
      (let f : Follows o.messages p.messages = discard-Follows now ws x.id o p q t in
        rw (q, discard_all) (Follows-trans f (discard_all-Follows now ws ts p f.table)))
  | inr (e, q) ↦ rw (q, discard_all) (Follows-refl o.messages t)
]

-- A decision on a vendor discards its threads, and writes no other message.
module _ (now : ℕ) (ws : String) (vendor : ℕ) (status : String) (o : Office) where
  decide_vendor_messages : (decide_vendor now ws vendor status o).1.messages ≡ o.messages
  unfolding decide_vendor
  decide_vendor_messages = ground arith

  candidate-Follows :
      IsTable o.messages → Follows o.messages (candidate_action now ws vendor status o).1.messages
  candidate-Follows t = elim (candidate_messages) [
    | inl e ↦ subst (Follows o.messages) (sym e) (Follows-refl o.messages t)
    | inr e ↦ subst (Follows o.messages) (sym e) (discard_all-Follows now ws live o t)
  ]
    where
      live : List Thread
      live = rows_where (is_live_thread ws vendor) o.threads

      candidate_messages :
          ((candidate_action now ws vendor status o).1.messages ≡ o.messages)
          ⊎ ((candidate_action now ws vendor status o).1.messages
              ≡ (discard_all now ws live o).1.messages)
      candidate_messages = unfold candidate_action decide_vendor in ground arith

pub paste_messages :
    (show_id : ℕ → String) (now id run_id : ℕ) (ws : String) (thread : ℕ) (body : String)
    (request : ℕ) (o o' : Office) (r : Ingested)
    → paste_reply show_id now id run_id ws thread body request o ≡ ok (r, o')
    → (i : Incoming) × (ingest show_id now id run_id ws thread i o ≡ ok (r, o'))
unfolding paste_reply
paste_messages show_id now id run_id ws thread body request o o' r h =
    elim (Result-cases (detail ws thread o)) [
      | inl (d, e) ↦ (
        record {
          channel = Channel.whatsapp;
          body = body;
          subject = d.thread.subject;
          provider = str_append "paste:" (show_id request);
          internet = none;
        },
        ground (arith, e),
      )
      | inr (e, q) ↦ absurd (ground arith)
    ]

whatsapp_messages :
    (encode : String → String) (now : ℕ) (ws : String) (id : ℕ) (o o' : Office) (url : String)
    → whatsapp encode now ws id o ≡ ok (url, o')
    → o'.messages ≡ o.messages
unfolding whatsapp
whatsapp_messages encode now ws id o o' url h = ground arith

pub Step-Follows :
    {w v : World} → Step w v → IsSound w → Follows w.office.messages v.office.messages
Step-Follows (opens {o} ops show_id collate now id message ws t vendor items brief fresh) s =
    create-Follows ops show_id collate now id message ws t vendor items brief o fresh s.table
Step-Follows (approves {o} now cause ws thread first) s =
    approval-Follows now cause ws thread first o s.table
Step-Follows (receives {o} {o'} show_id now id run_id ws thread i r fresh h) s =
    ingest-Follows show_id now id run_id ws thread i o o' r h fresh s.table
Step-Follows (pastes {o} {o'} show_id now id run_id ws thread body request r fresh h) s =
    let p = paste_messages show_id now id run_id ws thread body request o o' r h in
    ingest-Follows show_id now id run_id ws thread p.0 o o' r p.1 fresh s.table
Step-Follows (reviews {o} {o'} now new_id run message thread input r fresh h) s =
    review-Follows now new_id run message thread input o o' r h fresh s.table
Step-Follows (drafts {o} {o'} now ws thread body request r h) s =
    draft-Follows now ws thread body request o o' r h s.table
Step-Follows (begins {o} {o'} lower key from now ws thread wanted sent_already h) s =
    subst (λ x. Follows o.messages x.messages)
      (sym (begin_sent lower key from now ws thread wanted o o' h))
      (Follows-refl o.messages s.table)
Step-Follows (begins {o} {o'} lower key from now ws thread wanted (posts post) h) s =
    Posted-Follows lower key from now ws thread wanted o o' post
      (begin-Posted lower key from now ws thread wanted o o' post h) s.table
Step-Follows (settles {o} {log} now cause post out m) s =
    settle-Follows now cause post o s.table out (All-mem (Kept o.messages) log s.kept m)
Step-Follows (discards {o} {o'} now ws thread h) s = discard-Follows now ws thread o o' h s.table
Step-Follows (decides {o} now ws vendor status) s = candidate-Follows now ws vendor status o s.table
Step-Follows (composes {o} {o'} encode now ws thread url h) s =
    subst (Follows o.messages) (sym (whatsapp_messages encode now ws thread o o' url h))
      (Follows-refl o.messages s.table)
Step-Follows (elsewhere {o} db settings) s = Follows-refl o.messages s.table
