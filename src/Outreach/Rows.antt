-- ===== src/Outreach/Rows.antt =====
-- What each operation of src/outreach.rs writes to the table of messages.
use backhaus_ai_backend.Base.{
  ℕ, ◌≡◌, refl, sym, subst, ◌∙◌, Bool, true, false, arith, Option, List, [], ◌∷◌, ◌++◌, inl, inr,
  ◌⊎◌, ◌==◌, not, ◌&&◌, str_eq, String, Option-cases, any_row, find_row, update_rows,
  any_row-update_rows,
}
use backhaus_ai_backend.Base.Text.{trim}
use backhaus_ai_backend.Base.Result.{ok}
use backhaus_ai_backend.Store.Outreach.{
  email, is_email, MessageStatus, Message, superseded, is_outbound,
}
use backhaus_ai_backend.Outreach.{
  Office, of_thread, latest, is_thread, is_message, is_stale, marked, supersede_questions,
}
use backhaus_ai_backend.Outreach.Replies.{
  Incoming, Ingested, received_message, ingest, draft_reply, is_replaced, outbound_message,
  internet_of,
}
use backhaus_ai_backend.Outreach.Ending.{is_open_message, discard}
use backhaus_ai_backend.Outreach.Stages.{waiting, incoming, superseded-Leads, discarded-Leads}
use backhaus_ai_backend.Outreach.Follows.{
  IsTable, Follows, Follows-refl, Follows-trans, Keeps, update-Follows, append-Follows,
}

module _ (now : ℕ) (m : Message) where
  pub stale-Keeps : (thread : ℕ) → is_stale thread m ≡ true → Keeps (marked now superseded) m
  unfolding marked
  stale-Keeps thread e = record {
    id = refl;
    thread = refl;
    source = refl;
    leads = λ s h. superseded-Leads now m s h (ground arith) (ground arith);
  }

  pub replaced-Keeps : (thread : ℕ) → is_replaced thread m ≡ true → Keeps (marked now superseded) m
  unfolding marked
  replaced-Keeps thread e = record {
    id = refl;
    thread = refl;
    source = refl;
    leads = λ s h. superseded-Leads now m s h (ground arith) (ground arith);
  }

  pub open-Keeps :
      (thread : ℕ) → is_open_message thread m ≡ true → Keeps (marked now MessageStatus.discarded) m
  unfolding marked
  open-Keeps thread e = record {
    id = refl;
    thread = refl;
    source = refl;
    leads = λ s h. discarded-Leads now m s h (ground arith);
  }

pub supersede-Follows :
    (now thread : ℕ) (ms : List Message)
    → IsTable ms
    → Follows ms (supersede_questions now thread ms)
unfolding supersede_questions
supersede-Follows now thread ms t =
    update-Follows (is_stale thread) (marked now superseded) ms
      (λ m _ e. stale-Keeps now m thread e) t

-- A reply is stored once, or is there already.
pub ingest_messages :
    (show_id : ℕ → String) (now id run_id : ℕ) (ws : String) (thread : ℕ) (i : Incoming)
    (o o' : Office) (r : Ingested)
    → ingest show_id now id run_id ws thread i o ≡ ok (r, o')
    → (o'.messages ≡ o.messages)
      ⊎ (o'.messages
          ≡ supersede_questions now thread (o.messages ++ received_message now id ws thread i ∷ []))
unfolding ingest
ingest_messages show_id now id run_id ws thread i o o' r h = ground arith

pub ingest-Follows :
    (show_id : ℕ → String) (now id run_id : ℕ) (ws : String) (thread : ℕ) (i : Incoming)
    (o o' : Office) (r : Ingested)
    → ingest show_id now id run_id ws thread i o ≡ ok (r, o')
    → any_row (is_message id) o.messages ≡ false
    → IsTable o.messages
    → Follows o.messages o'.messages
ingest-Follows show_id now id run_id ws thread i o o' r h fresh t =
    elim (ingest_messages show_id now id run_id ws thread i o o' r h) [
      | inl e ↦ subst (Follows o.messages) (sym e) (Follows-refl o.messages t)
      | inr e ↦
          (let f : Follows o.messages (o.messages ++ received_message now id ws thread i ∷ []) =
              append-Follows o.messages (received_message now id ws thread i) incoming
                (ground arith) fresh (λ q k. absurd (ground arith)) t in
            subst (Follows o.messages) (sym e)
              (Follows-trans f (supersede-Follows now thread _ f.table)))
    ]

pub discard-Follows :
    (now : ℕ) (ws : String) (thread : ℕ) (o o' : Office)
    → discard now ws thread o ≡ ok o'
    → IsTable o.messages
    → Follows o.messages o'.messages
unfolding discard
discard-Follows now ws thread o o' h t =
    let e : o'.messages
        ≡ update_rows (is_open_message thread) (marked now MessageStatus.discarded) o.messages =
      ground arith in
    subst (Follows o.messages) (sym e) (
      update-Follows (is_open_message thread) (marked now MessageStatus.discarded) o.messages
        (λ m _ k. open-Keeps now m thread k) t)

pub fresh_after :
    (p : Message → Bool) (f : Message → Message) (id : ℕ) (ms : List Message)
    → ((m : Message) → (f m).id ≡ m.id)
    → any_row (is_message id) ms ≡ false
    → any_row (is_message id) (update_rows p f ms) ≡ false
fresh_after p f id ms k h =
    any_row-update_rows (is_message id) p f ms (λ m. ground (arith, k m)) ∙ h

-- A draft takes the place of what is unsent, or is there already.
module _ (now : ℕ) (ws : String) (thread : ℕ) (body : String) (request : ℕ) (o o' : Office)
    (r : Bool) where
  abbrev pruned : List Message
  pruned = update_rows (is_replaced thread) (marked now superseded) o.messages

  record Drafted : Type 0 where
    subject : String
    reply_to : Option String
    text : String
    fresh : any_row (is_message request) o.messages ≡ false
    rows :
        o'.messages
        ≡ pruned
          ++ outbound_message now request ws thread email text subject MessageStatus.draft reply_to
            ∷ []

  draft_messages :
      draft_reply now ws thread body request o ≡ ok (r, o') → (o'.messages ≡ o.messages) ⊎ Drafted
  unfolding draft_reply
  draft_messages h = elim (Option-cases (find_row (is_thread ws thread) o.threads)) [
    | inl e ↦ absurd (ground arith)
    | inr (t, e) ↦
        elim (Option-cases (find_row (λ m. m.id == request && str_eq m.workspace ws) o.messages)) [
          | inl n ↦ inr (record {
            subject = t.subject;
            reply_to = internet_of (
                latest
                  (λ m. of_thread thread m && not (is_outbound m.direction) && is_email m.channel)
                  pruned);
            text = trim body;
            fresh = ground arith;
            rows = ground arith;
          })
          | inr (m, n) ↦ inl (ground arith)
        ]
  ]

  pub draft-Follows :
      draft_reply now ws thread body request o ≡ ok (r, o')
      → IsTable o.messages
      → Follows o.messages o'.messages
  unfolding marked
  draft-Follows h t = elim (draft_messages h) [
    | inl e ↦ subst (Follows o.messages) (sym e) (Follows-refl o.messages t)
    | inr d ↦
        (let f : Follows o.messages pruned =
            update-Follows (is_replaced thread) (marked now superseded) o.messages
              (λ m _ k. replaced-Keeps now m thread k) t in
          subst (Follows o.messages) (sym d.rows) (
            Follows-trans f (
              append-Follows pruned _ waiting (ground arith)
                (fresh_after (is_replaced thread) (marked now superseded) request o.messages
                  (λ m. refl) d.fresh)
                (λ q k. absurd (ground arith)) f.table)))
  ]
