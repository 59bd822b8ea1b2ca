-- ===== src/Outreach/History.antt =====
-- What holds of every history of the outreach, however its calls are interleaved.
use backhaus_ai_backend.Base.{
  ℕ, ◌≤◌, ◌≡◌, refl, sym, ap, subst, ◌∙◌, Bool, true, false, arith, Option, some, ◌||◌, ◌∷◌, inl,
  inr, ◌⊎◌, Memᴰ, All, All-mem, All-mono, count_rows,
}
use backhaus_ai_backend.Base.Json.{Json}
use backhaus_ai_backend.Store.Outreach.{Direction, MessageStatus, Message, is_sent, is_dropped}
use backhaus_ai_backend.Outreach.Reviews.{asks_in}
use backhaus_ai_backend.Outreach.Sending.{address, Post, posts, sent_already}
use backhaus_ai_backend.Outreach.Stages.{
  Stage, delivered, dropped, Moves, Leads, stays, goes, staged, stage,
}
use backhaus_ai_backend.Outreach.Follows.{
  Staged, Lives, Follows, Follows-refl, Follows-trans, same_message,
}
use backhaus_ai_backend.Outreach.Sends.{
  begin-Posted, Posted, posted_made, posted_unsent, posted_kept, Posted-Kept, Kept,
}
use backhaus_ai_backend.Outreach.Steps.{
  World, Step, Reach, here, next, opens, approves, receives, pastes, reviews, drafts, begins,
  settles, discards, decides, composes, elsewhere, IsSound, Follows-Kept, Step-Follows,
}

-- A step that posts nothing keeps the log; the one that does puts the post in front, and it is kept.
record NewPost (w v : World) : Type 0 where
  post : Post
  log : v.log ≡ post ∷ w.log
  kept : Kept v.office.messages post
  row : Message
  mem : Memᴰ row w.office.messages
  message : post.message ≡ row.id
  unsent : is_sent row.status ≡ false
  held : is_dropped row.status ≡ false

log_cases : {w v : World} → Step w v → (v.log ≡ w.log) ⊎ NewPost w v
log_cases (begins {o} {o'} {log} lower key from now ws thread wanted (posts p) h) =
    let d : Posted lower key from now ws thread wanted o o' p =
      begin-Posted lower key from now ws thread wanted o o' p h in
    inr (record {
      post = p;
      log = refl;
      kept = Posted-Kept lower key from now ws thread wanted o o' p d;
      row = d.row;
      mem = d.mem;
      message =
          (posted_made lower key from now ws thread wanted d.sender (address ws thread o) d.to d.row
            o o' p d.made).0;
      unsent =
          posted_unsent lower key from now ws thread wanted d.sender (address ws thread o) d.to
            d.row o o' p d.made;
      held =
          (posted_kept lower key from now ws thread wanted d.sender (address ws thread o) d.to d.row
            o o' p d.made).0;
    })
log_cases (begins lower key from now ws thread wanted sent_already h) = inl refl
log_cases (opens ops show_id collate now id message ws t vendor items brief fresh) = inl refl
log_cases (approves now cause ws thread first) = inl refl
log_cases (receives show_id now id run_id ws thread i r fresh h) = inl refl
log_cases (pastes show_id now id run_id ws thread body request r fresh h) = inl refl
log_cases (reviews now new_id run message thread input r fresh h) = inl refl
log_cases (drafts now ws thread body request r h) = inl refl
log_cases (settles now cause post out m) = inl refl
log_cases (discards now ws thread h) = inl refl
log_cases (decides now ws vendor status) = inl refl
log_cases (composes encode now ws thread url h) = inl refl
log_cases (elsewhere db settings) = inl refl

pub Step-IsSound : {w v : World} → Step w v → IsSound w → IsSound v
Step-IsSound {w = w} {v = v} step s =
    let f : Follows w.office.messages v.office.messages = Step-Follows step s in
    let old : All (Kept v.office.messages) w.log =
      All-mono (Kept w.office.messages) (Kept v.office.messages) w.log
        (λ p k. Follows-Kept s.table f k) s.kept in
    record {
      table = f.table;
      kept = elim (log_cases step) [
        | inl e ↦ subst (All (Kept v.office.messages)) (sym e) old
        | inr n ↦ subst (All (Kept v.office.messages)) (sym n.log) (n.kept, old)
      ];
    }

pub Reach-IsSound : {w v : World} → Reach w v → IsSound w → IsSound v
Reach-IsSound here s = s
Reach-IsSound (next step r) s = Reach-IsSound r (Step-IsSound step s)

Reach-Follows : {w v : World} → Reach w v → IsSound w → Follows w.office.messages v.office.messages
Reach-Follows {w = w} here s = Follows-refl w.office.messages s.table
Reach-Follows (next step r) s =
    Follows-trans (Step-Follows step s) (Reach-Follows r (Step-IsSound step s))

-- The calls implement the life of a message: from a sound state every history leads each message, under
-- its identifier, to a stage that the specification allows after the one it was at.
pub message_refines :
    {w v : World}
    → Reach w v
    → IsSound w
    → (m : Message) (s : Stage) → Memᴰ m w.office.messages
    → stage m ≡ some s
    → Lives m.id s v.office.messages
message_refines r s = (Reach-Follows r s).lives

-- Two posts of one message carry the same payload, whatever happens between them, in a history from a
-- sound state: what the idempotency key of the provider asks for.
pub payload_frozen :
    {w v : World}
    → Reach w v
    → IsSound w
    → (p q : Post) → Memᴰ p v.log
    → Memᴰ q v.log
    → p.message ≡ q.message
    → p.payload ≡ q.payload
payload_frozen {v = v} r s p q m n e =
    let t : IsSound v = Reach-IsSound r s in
    let k : Kept v.office.messages p = All-mem (Kept v.office.messages) v.log t.kept m in
    let l : Kept v.office.messages q = All-mem (Kept v.office.messages) v.log t.kept n in
    let same : k.row ≡ l.row =
      same_message v.office.messages t.table k.mem l.mem (k.same ∙ e ∙ sym l.same) in
    some_inj (sym k.payload ∙ ap (λ x. x.send_payload) same ∙ l.payload)
  where
    some_inj : {a b : Json} → some a ≡ some b → a ≡ b
    some_inj h = ground arith

-- A thread that was asked three automatic questions at most is asked no more than three in every history
-- from a sound state.
pub asked_thrice :
    {w v : World}
    → Reach w v
    → IsSound w
    → (thread : ℕ) → count_rows (asks_in thread) w.office.messages ≤ 3
    → count_rows (asks_in thread) v.office.messages ≤ 3
asked_thrice r s = (Reach-Follows r s).asks

-- Sent, superseded or discarded.
abbrev is_closed : Stage → Bool
is_closed (delivered p) = true
is_closed (dropped q) = true
is_closed _ = false

closed-Leads : {s t : Stage} → Leads s t → is_closed s ≡ true → is_closed t ≡ true
closed-Leads stays h = h
closed-Leads (goes m l) h = closed-Leads l (closed_moves m h)
  where
    closed_moves : {s t : Stage} → Moves s t → is_closed s ≡ true → is_closed t ≡ true
    closed_moves (Moves.posts q) h = absurd (ground arith)
    closed_moves Moves.drops h = refl
    closed_moves (Moves.arrives q) h = refl
    closed_moves (Moves.gives_up q) h = refl
    closed_moves (Moves.arrives_late q) h = refl

closed_staged :
    (d : Direction) (st : MessageStatus) (q : Option Json) (f : Option ℕ) {s : Stage}
    → staged d st q f ≡ some s
    → is_closed s ≡ is_sent st || is_dropped st
closed_staged d st q f h = ground arith

-- A step posts no message that is closed.
step_posts :
    {w v : World} (m : Message) (s : Stage) (post : Post)
    → Step w v
    → IsSound w
    → Memᴰ m w.office.messages
    → stage m ≡ some s
    → is_closed s ≡ true
    → post.message ≡ m.id
    → Memᴰ post v.log
    → Memᴰ post w.log
step_posts {w = w} m s post step sound k h c e n = elim (log_cases step) [
  | inl q ↦ subst (Memᴰ post) q n
  | inr new ↦ elim (subst (Memᴰ post) new.log n) [
    | Memᴰ.tail t ↦ t
    | Memᴰ.head q ↦
        let same : m ≡ new.row =
          same_message w.office.messages sound.table k new.mem
            (sym e ∙ ap (λ p. p.message) q ∙ new.message) in
        absurd (
          open_row m (closed_staged m.direction m.status m.send_payload m.first_attempt_at h)
            (subst (λ x. is_sent x.status ≡ false) (sym same) new.unsent)
            (subst (λ x. is_dropped x.status ≡ false) (sym same) new.held))
  ]
]
  where
    open_row :
        (m : Message)
        → is_closed s ≡ is_sent m.status || is_dropped m.status
        → is_sent m.status ≡ false
        → is_dropped m.status ≡ false
        → ⊥
    open_row m a b d = ground arith

reach_posts :
    {w v : World} (m : Message) (s : Stage) (post : Post)
    → Reach w v
    → IsSound w
    → Memᴰ m w.office.messages
    → stage m ≡ some s
    → is_closed s ≡ true
    → post.message ≡ m.id
    → Memᴰ post v.log
    → Memᴰ post w.log
reach_posts m s post here sound k h c e n = n
reach_posts {w = w} m s post (next {v = u} step r) sound k h c e n =
    let l : Lives m.id s u.office.messages = (Step-Follows step sound).lives m s k h in
    step_posts m s post step sound k h c e (
      reach_posts l.row l.next.to post r (Step-IsSound step sound) l.mem l.next.at
        (closed-Leads l.next.leads c) (e ∙ sym l.same) n)

-- A message that is sent, superseded or discarded is posted no more: in every history from a sound state,
-- each post of it was made before.
pub closed_not_posted :
    {w v : World}
    → Reach w v
    → IsSound w
    → (m : Message) (post : Post) → Memᴰ m w.office.messages
    → is_sent m.status || is_dropped m.status ≡ true
    → Memᴰ post v.log
    → post.message ≡ m.id
    → Memᴰ post w.log
closed_not_posted {w = w} r sound m post k c n e =
    let g : Staged m = All-mem Staged w.office.messages sound.table.staged k in
    reach_posts m g.at_stage post r sound k g.holds
      (closed_staged m.direction m.status m.send_payload m.first_attempt_at g.holds ∙ c) e n
