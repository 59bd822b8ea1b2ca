-- ===== src/Outreach/Sends.antt =====
-- What a call of `send_email` writes: the message it chooses is frozen, and the answer is written down.
use backhaus_ai_backend.Base.{
  ℕ, ◌≡◌, refl, sym, ap, subst, ◌∙◌, Bool, true, false, arith, Option, none, some, List, [], ◌∷◌,
  inl, inr, ◌⊎◌, String, Bool-cases, Option-cases, Memᴰ, any_row, find_row, update_rows, ◌&&◌,
  mem-update_rows_hit,
}
use backhaus_ai_backend.Base.Result.{Result, ok}
use backhaus_ai_backend.Store.Outreach.{
  Thread, Message, is_discarded, is_sent, is_dropped, is_sending,
}
use backhaus_ai_backend.Outreach.{Office, is_message, has_key, latest, newer_of}
use backhaus_ai_backend.Outreach.Sending.{
  Post, Begun, posts, sent_already, begin_send, post_message, address, check_message, is_candidate,
  attempting, payload_of, frozen, Outcome, delivered, refused, settle, fail_send, delivered_row,
  failed_row, is_taken,
}
use backhaus_ai_backend.Outreach.Stages.{failed-Leads, delivered-Leads, attempting-Leads}
use backhaus_ai_backend.Outreach.Follows.{IsTable, Follows, Keeps, update-Follows, same_message}

-- The row that is chosen last is one of the two.
newer_of-cases :
    (m : Message) (o : Option Message) {a : Message}
    → newer_of m o ≡ some a
    → (a ≡ m) ⊎ (o ≡ some a)
newer_of-cases m none h = ground arith
newer_of-cases m (some n) h = ground arith

latest-found :
    (p : Message → Bool) (ms : List Message) {a : Message}
    → latest p ms ≡ some a
    → Memᴰ a ms × (p a ≡ true)
unfolding latest
latest-found p [] h = absurd (ground arith)
latest-found p (m ∷ ms) {a = a} h = elim (Bool-cases (p m)) [
  | inr e ↦
      (let k : Memᴰ a ms × (p a ≡ true) = latest-found p ms (ground (arith, e)) in
        (Memᴰ.tail k.0, k.1))
  | inl e ↦ elim (newer_of-cases m (latest p ms) (ground (arith, e))) [
    | inl q ↦ (Memᴰ.head q, subst (λ x. p x ≡ true) (sym q) e)
    | inr q ↦ (let k : Memᴰ a ms × (p a ≡ true) = latest-found p ms q in (Memᴰ.tail k.0, k.1))
  ]
]

abbrev answer : Post → Office → Result (Begun × Office)
answer p x = ok (posts p, x)

posts_inj : (p q : Post) (x y : Office) → answer p x ≡ answer q y → (p ≡ q) × (x ≡ y)
posts_inj p q x y h = (ground arith, ground arith)

-- The row of a message that was posted, with what was posted.
pub record Kept (ms : List Message) (post : Post) : Type 0 where
  pub row : Message
  pub mem : Memᴰ row ms
  pub same : row.id ≡ post.message
  pub payload : row.send_payload ≡ some post.payload

module _ (lower : String → String) (key from : Option String) (now : ℕ) (ws : String) (thread : ℕ)
    (wanted : Option ℕ) where
  -- What a call that posts has read and written.
  pub record Posted (o o' : Office) (post : Post) : Type 0 where
    pub row : Message
    pub mem : Memᴰ row o.messages
    pub candidate : is_candidate ws thread wanted row ≡ true
    pub sender : String
    pub to : Thread
    pub found : find_row (has_key thread) (address ws thread o) ≡ some to
    pub made :
        post_message lower sender now ws thread (address ws thread o) to row o ≡ ok (posts post, o')

  pub begin-Posted :
      (o o' : Office) (post : Post)
      → begin_send lower key from now ws thread wanted o ≡ ok (posts post, o')
      → Posted o o' post
  unfolding begin_send
  begin-Posted o o' post h =
      elim (Option-cases (latest (is_candidate ws thread wanted) o.messages)) [
        | inl e ↦ absurd (ground arith)
        | inr (m, e) ↦ elim (Option-cases (find_row (has_key thread) (address ws thread o))) [
          | inl n ↦ absurd (ground arith)
          | inr (t, n) ↦ elim (Option-cases from) [
            | inl q ↦ absurd (ground arith)
            | inr (s, q) ↦
                (let k : Memᴰ m o.messages × (is_candidate ws thread wanted m ≡ true) =
                    latest-found (is_candidate ws thread wanted) o.messages e in
                  record {
                    row = m;
                    mem = k.0;
                    candidate = k.1;
                    sender = s;
                    to = t;
                    found = n;
                    made = ground arith;
                  })
          ]
        ]
      ]

  module _ (sender : String) (threads : List Thread) (t : Thread) (m : Message) (o o' : Office)
      (post : Post)
      (h : post_message lower sender now ws thread threads t m o ≡ ok (posts post, o')) where
    pub posted_unsent : is_sent m.status ≡ false
    unfolding post_message
    posted_unsent = ground arith

    pub posted_kept : (is_dropped m.status ≡ false) × (is_discarded t.status ≡ false)
    unfolding post_message
    posted_kept = (ground arith, ground arith)

    pub posted_checked : check_message lower now ws o.db t m ≡ ok tt
    unfolding post_message
    posted_checked = ground arith

    made : Post
    made = record { message = m.id; thread = thread; at = now; payload = payload_of sender t m }

    made_value :
        post_message lower sender now ws thread threads t m o
        ≡ ok (posts made, frozen now m (payload_of sender t m) threads o)
    unfolding post_message made
    made_value = rw (posted_kept.0, posted_kept.1, posted_unsent, posted_checked) refl

    pub posted_made : (post.message ≡ m.id) × (post.payload ≡ payload_of sender t m)
    unfolding made
    posted_made =
        let e : made ≡ post = (posts_inj made post _ o' (sym made_value ∙ h)).0 in
        (sym (ap (λ p. p.message) e), sym (ap (λ p. p.payload) e))

    pub posted_rows :
        o'.messages
        ≡ update_rows (is_message m.id) (attempting now (payload_of sender t m)) o.messages
    unfolding post_message frozen
    posted_rows = ground arith

  pub Posted-Follows :
      (o o' : Office) (post : Post)
      → Posted o o' post
      → IsTable o.messages
      → Follows o.messages o'.messages
  unfolding attempting
  Posted-Follows o o' post d t =
      subst (Follows o.messages)
        (sym (posted_rows d.sender (address ws thread o) d.to d.row o o' post d.made))
        (update-Follows (is_message d.row.id) (attempting now (payload_of d.sender d.to d.row))
          o.messages
          (λ m k q.
            let same : m ≡ d.row = same_message o.messages t k d.mem (ground (arith, q)) in
            subst (Keeps (attempting now (payload_of d.sender d.to d.row))) (sym same) (record {
              id = refl;
              thread = refl;
              source = refl;
              leads = λ s h.
                  attempting-Leads now d.row d.sender d.to s h (ground (arith, d.candidate))
                    (posted_unsent d.sender (address ws thread o) d.to d.row o o' post d.made)
                    (posted_kept d.sender (address ws thread o) d.to d.row o o' post d.made).0;
            }))
          t)

  pub Posted-Kept : (o o' : Office) (post : Post) → Posted o o' post → Kept o'.messages post
  unfolding attempting
  Posted-Kept o o' post d =
      let e : (post.message ≡ d.row.id) × (post.payload ≡ payload_of d.sender d.to d.row) =
        posted_made d.sender (address ws thread o) d.to d.row o o' post d.made in
      record {
        row = attempting now (payload_of d.sender d.to d.row) d.row;
        mem =
            subst (Memᴰ (attempting now (payload_of d.sender d.to d.row) d.row))
              (sym (posted_rows d.sender (address ws thread o) d.to d.row o o' post d.made))
              (mem-update_rows_hit (is_message d.row.id)
                (attempting now (payload_of d.sender d.to d.row)) o.messages (ground arith) d.mem);
        same = sym e.0;
        payload = ap some (sym e.1);
      }

  -- A call that finds the message sent changes nothing.
  pub begin_sent :
      (o o' : Office)
      → begin_send lower key from now ws thread wanted o ≡ ok (sent_already, o')
      → o' ≡ o
  unfolding begin_send
  begin_sent o o' h = ground arith

module _ (now : ℕ) (cause : String) (post : Post) (o : Office) (t : IsTable o.messages) where
  fail-Follows : Follows o.messages (fail_send now cause post o).messages
  unfolding fail_send failed_row
  fail-Follows =
      update-Follows (λ m. is_message post.message m && is_sending m.status) (failed_row now cause)
        o.messages
        (λ m _ q. record {
          id = refl;
          thread = refl;
          source = refl;
          leads = λ s h. failed-Leads now m cause s h (ground (arith, q));
        })
        t

  delivered-Follows :
      (provider : String)
      → Kept o.messages post
      → Follows o.messages
          (update_rows (is_message post.message) (delivered_row now provider) o.messages)
  unfolding delivered_row
  delivered-Follows provider k =
      update-Follows (is_message post.message) (delivered_row now provider) o.messages
        (λ m n q.
          let same : m ≡ k.row = same_message o.messages t n k.mem (ground (arith, q, k.same)) in
          record {
            id = refl;
            thread = refl;
            source = refl;
            leads = λ s h.
                delivered-Leads now m provider post.payload s h
                  (subst (λ x. x.send_payload ≡ some post.payload) (sym same) k.payload);
          })
        t

  pub settle-Follows :
      (out : Outcome)
      → Kept o.messages post
      → Follows o.messages (settle now cause post out o).messages
  unfolding settle
  settle-Follows refused k = fail-Follows
  settle-Follows (delivered provider) k =
      elim (Bool-cases (any_row (is_taken post.message provider) o.messages)) [
        | inl e ↦ rw e fail-Follows
        | inr e ↦ rw e (delivered-Follows provider k)
      ]
