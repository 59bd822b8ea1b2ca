-- ===== src/Outreach/Concluding.antt =====
-- What `review` of src/outreach.rs writes to the table of messages.
use backhaus_ai_backend.Base.{
  ℕ, ◌≤◌, ◌≡◌, refl, sym, subst, false, arith, Option, some, List, [], ◌∷◌, ◌++◌, inl, inr, ◌⊎◌,
  Option-cases, any_row, find_row, find_row-mem, find_row_sound, count_rows, update_rows,
}
use backhaus_ai_backend.Base.Result.{ok}
use backhaus_ai_backend.Store.Outreach.{Message, superseded, is_outbound}
use backhaus_ai_backend.Jobs.{Run}
use backhaus_ai_backend.Outreach.{Office, is_message, is_stale, marked, supersede_questions}
use backhaus_ai_backend.Outreach.Reviews.{
  asks_in, Review, Reviewed, review, review_row, conclude, question_message, is_inbound_message,
}
use backhaus_ai_backend.Outreach.Stages.{waiting, review-Leads}
use backhaus_ai_backend.Outreach.Follows.{
  IsTable, Follows, Follows-refl, Follows-trans, update-Follows, append-Follows, same_message,
}
use backhaus_ai_backend.Outreach.Rows.{supersede-Follows, fresh_after}

-- The review of a reply; a question only after fewer than three.
module _ (now new_id : ℕ) (run : Run) (input : Review) (row : Message) (o : Office) where
  abbrev remaining : List Message
  remaining = supersede_questions now row.thread_id o.messages

  conclude_messages :
      ((conclude now new_id run input row o).1.messages ≡ remaining)
      ⊎ (((conclude now new_id run input row o).1.messages
            ≡ remaining ++ question_message now new_id run input row ∷ [])
          × (count_rows (asks_in row.thread_id) remaining ≤ 2))
  unfolding conclude
  conclude_messages = ground arith

  conclude-Follows :
      any_row (is_message new_id) o.messages ≡ false
      → IsTable o.messages
      → Follows o.messages (conclude now new_id run input row o).1.messages
  unfolding supersede_questions marked question_message
  conclude-Follows fresh t =
      let f : Follows o.messages remaining = supersede-Follows now row.thread_id o.messages t in
      elim conclude_messages [
        | inl e ↦ subst (Follows o.messages) (sym e) f
        | inr e ↦ subst (Follows o.messages) (sym e.0) (
            Follows-trans f (
              append-Follows remaining (question_message now new_id run input row) waiting
                (ground arith)
                (fresh_after (is_stale row.thread_id) (marked now superseded) new_id o.messages
                  (λ m. refl) fresh)
                (λ q k. subst (λ x. count_rows (asks_in x) remaining ≤ 2) (ground (arith, k)) e.1)
                f.table))
      ]

module _ (now new_id : ℕ) (run : Run) (message thread : Option ℕ) (input : Review) (o o' : Office)
    (r : Reviewed) where
  abbrev written : ℕ → List Message
  written id = update_rows (is_message id) (review_row now input.summary) o.messages

  review_messages :
      review now new_id run message thread input o ≡ ok (r, o')
      → (id : ℕ) → message ≡ some id
      → (row : Message) → find_row (is_inbound_message run.workspace id) o.messages ≡ some row
      → (o'.messages ≡ o.messages)
        ⊎ (o'.messages ≡ written id)
        ⊎ (o'.messages
            ≡ (conclude now new_id run input row (record o { messages = written id })).1.messages)
  unfolding review
  review_messages h id e row f = ground arith

  written-Follows :
      (id : ℕ) (row : Message)
      → find_row (is_inbound_message run.workspace id) o.messages ≡ some row
      → IsTable o.messages
      → Follows o.messages (written id)
  unfolding review_row
  written-Follows id row e t =
      update-Follows (is_message id) (review_row now input.summary) o.messages
        (λ m k q.
          let g = find_row_sound (is_inbound_message run.workspace id) o.messages e in
          let same : m ≡ row =
            same_message o.messages t k
              (find_row-mem (is_inbound_message run.workspace id) o.messages e)
              (ground (arith, g, q)) in
          record {
            id = refl;
            thread = refl;
            source = refl;
            leads = λ s h.
                review-Leads now m input.summary s h
                  (subst (λ x. is_outbound x.direction ≡ false) (sym same) (ground (arith, g)));
          })
        t

  pub review-Follows :
      review now new_id run message thread input o ≡ ok (r, o')
      → any_row (is_message new_id) o.messages ≡ false
      → IsTable o.messages
      → Follows o.messages o'.messages
  unfolding review review_row
  review-Follows h fresh t = elim (Option-cases message) [
    | inl e ↦ absurd (ground arith)
    | inr (id, e) ↦
        elim (Option-cases (find_row (is_inbound_message run.workspace id) o.messages)) [
          | inl n ↦ absurd (ground arith)
          | inr (row, n) ↦
              (let f : Follows o.messages (written id) = written-Follows id row n t in
                elim (review_messages h id e row n) [
                  | inl q ↦ subst (Follows o.messages) (sym q) (Follows-refl o.messages t)
                  | inr (inl q) ↦ subst (Follows o.messages) (sym q) f
                  | inr (inr q) ↦ subst (Follows o.messages) (sym q) (
                      Follows-trans f (
                        conclude-Follows now new_id run input row
                          (record o { messages = written id })
                          (fresh_after (is_message id) (review_row now input.summary) new_id
                            o.messages (λ m. refl) fresh)
                          f.table))
                ])
        ]
  ]
