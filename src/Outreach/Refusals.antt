-- ===== src/Outreach/Refusals.antt =====
-- When a call of src/outreach.rs is refused or does nothing.
use backhaus_ai_backend.Base.{
  ℕ, ◌≤◌, ◌≡◌, refl, sym, ap, subst, ◌∙◌, true, false, ◌&&◌, arith, Option, none, some, List, [],
  ◌∷◌, ◌++◌, inl, inr, String, str_eq, Bool-cases, Option-cases, Memᴰ, any_row, any_row-mem,
  any_row-append, any_row-update_rows, find_row, find_row_sound, find_row-update_rows, update_rows,
}
use backhaus_ai_backend.Base.Text.{str_eq_refl}
use backhaus_ai_backend.Base.Result.{ok, err, conflict}
use backhaus_ai_backend.Store.{Db}
use backhaus_ai_backend.Store.Outreach.{
  reply_received, Thread, Message, superseded, is_discarded, is_sending,
}
use backhaus_ai_backend.Outreach.{
  Office, is_thread, of_thread, is_stale, moved, marked, supersede_questions,
}
use backhaus_ai_backend.Outreach.Replies.{
  has_provider, Incoming, received_message, Ingested, reused, ingest,
}
use backhaus_ai_backend.Outreach.Sending.{
  Post, posts, begin_send, check_message, may_send_review, agent_on, is_completed, expired, address,
}
use backhaus_ai_backend.Outreach.Ending.{discard}
use backhaus_ai_backend.Outreach.Follows.{IsTable, same_message}
use backhaus_ai_backend.Outreach.Sends.{begin-Posted, Posted, posted_made, posted_checked}

-- What the guards let through.
module _ (lower : String → String) (now : ℕ) (ws : String) (db : Db) (t : Thread) (m : Message)
    (h : check_message lower now ws db t m ≡ ok tt) where
  checked_review : may_send_review ws m.review_run_id db ≡ true
  unfolding check_message
  checked_review = ground arith

  checked_age : expired now m.first_attempt_at ≡ false
  unfolding check_message
  checked_age = ground arith

review_allowed :
    (ws : String) (r : Option ℕ) (run : ℕ) (db : Db)
    → may_send_review ws r db ≡ true
    → r ≡ some run
    → (agent_on ws db ≡ true) × (any_row (is_completed run) db.runs ≡ true)
unfolding may_send_review
review_allowed ws none run db h e = absurd (ground arith)
review_allowed ws (some r) run db h e =
    let same : r ≡ run = ground arith in
    subst (λ x. (agent_on ws db ≡ true) × (any_row (is_completed x) db.runs ≡ true)) same
      (ground arith, ground arith)

module _ (lower : String → String) (key from : Option String) (now : ℕ) (ws : String) (thread : ℕ)
    (wanted : Option ℕ) (o o' : Office) (post : Post) (t : IsTable o.messages)
    (h : begin_send lower key from now ws thread wanted o ≡ ok (posts post, o')) (m : Message)
    (k : Memᴰ m o.messages) (e : post.message ≡ m.id) where
  Posted-row : (d : Posted lower key from now ws thread wanted o o' post) → d.row ≡ m
  Posted-row d = same_message o.messages t d.mem k (
      sym
        (posted_made lower key from now ws thread wanted d.sender (address ws thread o) d.to d.row o
          o' post d.made).0
      ∙ e)

  -- A question that a review has prepared is posted only while the procurement agent is on and after the
  -- run of the review has completed, where identifiers of messages are unique.
  pub question_posted :
      (run : ℕ)
      → m.review_run_id ≡ some run
      → (agent_on ws o.db ≡ true) × (any_row (is_completed run) o.db.runs ≡ true)
  question_posted run q =
      let d : Posted lower key from now ws thread wanted o o' post =
        begin-Posted lower key from now ws thread wanted o o' post h in
      review_allowed ws m.review_run_id run o.db
        (subst (λ x. may_send_review ws x.review_run_id o.db ≡ true) (Posted-row d)
          (checked_review lower now ws o.db d.to d.row (
            posted_checked lower key from now ws thread wanted d.sender (address ws thread o) d.to
              d.row o o' post d.made)))
        q

  pub post_not_expired : expired now m.first_attempt_at ≡ false
  post_not_expired =
      let d : Posted lower key from now ws thread wanted o o' post =
        begin-Posted lower key from now ws thread wanted o o' post h in
      subst (λ x. expired now x.first_attempt_at ≡ false) (Posted-row d)
        (checked_age lower now ws o.db d.to d.row (
          posted_checked lower key from now ws thread wanted d.sender (address ws thread o) d.to
            d.row o o' post d.made))

-- A reply under a provider's identifier that is there already is not stored.
ingest_reused :
    (show_id : ℕ → String) (now id run_id : ℕ) (ws : String) (thread : ℕ) (i : Incoming)
    (o : Office) (t : Thread)
    → find_row (is_thread ws thread) o.threads ≡ some t
    → is_discarded t.status ≡ false
    → any_row (has_provider i.provider) o.messages ≡ true
    → ingest show_id now id run_id ws thread i o ≡ ok (reused, o)
unfolding ingest
ingest_reused show_id now id run_id ws thread i o t e d a = rw (e, d, a) refl

record KeptProvider (ws : String) (thread : ℕ) (i : Incoming) (o : Office) : Type 0 where
  row : Thread
  found : find_row (is_thread ws thread) o.threads ≡ some row
  live : is_discarded row.status ≡ false
  has : any_row (has_provider i.provider) o.messages ≡ true

has_after :
    (now thread : ℕ) (provider : String) (ms : List Message) (m : Message)
    → has_provider provider m ≡ true
    → any_row (has_provider provider) (supersede_questions now thread (ms ++ m ∷ [])) ≡ true
unfolding supersede_questions marked
has_after now thread provider ms m h =
    any_row-update_rows (has_provider provider) (is_stale thread) (marked now superseded)
      (ms ++ m ∷ []) (λ a. refl)
    ∙ any_row-append (has_provider provider) ms (m ∷ [])
    ∙ ground (arith, h)

module _ (show_id : ℕ → String) (now id run_id : ℕ) (ws : String) (thread : ℕ) (i : Incoming)
    (o o' : Office) (r : Ingested)
    (h : ingest show_id now id run_id ws thread i o ≡ ok (r, o')) where
  stored_rows :
      any_row (has_provider i.provider) o.messages ≡ false
      → (o'.messages
          ≡ supersede_questions now thread (o.messages ++ received_message now id ws thread i ∷ []))
        × (o'.threads ≡ update_rows (is_thread ws thread) (moved now reply_received) o.threads)
  unfolding ingest
  stored_rows a = (ground (arith, a), ground (arith, a))

  reused_rows : any_row (has_provider i.provider) o.messages ≡ true → o' ≡ o
  unfolding ingest
  reused_rows a = ground (arith, a)

  live_thread :
      (t : Thread)
      → find_row (is_thread ws thread) o.threads ≡ some t
      → is_discarded t.status ≡ false
  unfolding ingest
  live_thread t e = ground arith

  thread_found : (t : Thread) × (find_row (is_thread ws thread) o.threads ≡ some t)
  unfolding ingest
  thread_found = elim (Option-cases (find_row (is_thread ws thread) o.threads)) [
    | inl e ↦ absurd (ground arith)
    | inr p ↦ p
  ]

  provider_kept : KeptProvider ws thread i o'
  unfolding moved
  provider_kept =
      let t = thread_found in
      elim (Bool-cases (any_row (has_provider i.provider) o.messages)) [
        | inl a ↦
            subst (KeptProvider ws thread i) (sym (reused_rows a))
              (record { row = t.0; found = t.1; live = live_thread t.0 t.1; has = a })
        | inr a ↦
            (let e = stored_rows a in
              let s : is_thread ws thread t.0 ≡ true =
                find_row_sound (is_thread ws thread) o.threads t.1 in
              record {
                row = moved now reply_received t.0;
                found =
                    ap (find_row (is_thread ws thread)) e.1
                    ∙ find_row-update_rows (is_thread ws thread) (is_thread ws thread)
                        (moved now reply_received) o.threads (λ b. refl) t.1
                    ∙ ground (arith, s);
                live = refl;
                has =
                    ap (any_row (has_provider i.provider)) e.0
                    ∙ has_after now thread i.provider o.messages
                        (received_message now id ws thread i) (str_eq_refl i.provider);
              })
      ]

  -- A reply that comes in again under its provider's identifier, whatever it carries and whenever it
  -- comes, changes nothing, as long as nothing else has happened.
  pub ingest_again :
      (later id' run_id' : ℕ) (j : Incoming)
      → j.provider ≡ i.provider
      → ingest show_id later id' run_id' ws thread j o' ≡ ok (reused, o')
  ingest_again later id' run_id' j p =
      let k : KeptProvider ws thread i o' = provider_kept in
      ingest_reused show_id later id' run_id' ws thread j o' k.row k.found k.live
        (subst (λ x. any_row (has_provider x) o'.messages ≡ true) (sym p) k.has)

-- While a message of a thread is being sent, the thread is not discarded and no new reply is drafted.
module _ (ws : String) (thread : ℕ) (m : Message) (o : Office) (k : Memᴰ m o.messages)
    (of : of_thread thread m ≡ true) (in_ws : str_eq m.workspace ws ≡ true)
    (busy : is_sending m.status ≡ true) where
  is_busy :
      any_row (λ a. of_thread thread a && str_eq a.workspace ws && is_sending a.status) o.messages
      ≡ true
  is_busy =
      elim (Bool-cases (
        any_row (λ a. of_thread thread a && str_eq a.workspace ws && is_sending a.status)
          o.messages)) [
            | inl e ↦ e
            | inr e ↦ absurd (
                ground (
                  arith,
                  of,
                  in_ws,
                  busy,
                  any_row-mem
                      (λ a. of_thread thread a && str_eq a.workspace ws && is_sending a.status)
                      o.messages e k,
                ))
          ]

  busy_not_discarded : (now : ℕ) → discard now ws thread o ≡ err conflict
  unfolding discard
  busy_not_discarded now = rw is_busy refl

  still_expired :
      (now later : ℕ)
      → now ≤ later
      → expired now m.first_attempt_at ≡ true
      → expired later m.first_attempt_at ≡ true
  still_expired now later l e = expired_mono m.first_attempt_at l e
    where
      expired_mono : (f : Option ℕ) → now ≤ later → expired now f ≡ true → expired later f ≡ true
      expired_mono f l e = ground arith

  -- A message that is being sent and was first tried more than 23 hours ago holds its thread: at any later
  -- time the thread is not discarded and no call posts that message again, as long as the database has
  -- not changed.
  pub sending_holds :
      (now later : ℕ)
      → now ≤ later
      → expired now m.first_attempt_at ≡ true
      → IsTable o.messages
      → (discard later ws thread o ≡ err conflict)
        × ((lower : String → String) (key from : Option String) (at : ℕ) (wanted : Option ℕ)
              (o' : Office) (post : Post)
            → begin_send lower key from later ws at wanted o ≡ ok (posts post, o')
            → ¬ (post.message ≡ m.id))
  sending_holds now later l e t = (
    busy_not_discarded later,
    λ lower key from at wanted o' post h q. absurd (
        ground (
          arith,
          still_expired now later l e,
          post_not_expired lower key from later ws at wanted o o' post t h m k q,
        )),
  )
