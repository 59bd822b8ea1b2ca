-- ===== src/Outreach/Opens.antt =====
-- What `create_enquiry` and a failed approval write to the table of messages.
use backhaus_ai_backend.Base.{
  ℕ, ◌≡◌, refl, sym, subst, false, arith, Option, List, [], ◌∷◌, ◌++◌, inl, inr, ◌⊎◌, String,
  Option-cases, any_row, find_row,
}
use backhaus_ai_backend.Base.Result.{ok, Result-cases}
use backhaus_ai_backend.Outreach.{Office, is_message}
use backhaus_ai_backend.Decimal.{Arithmetic}
use backhaus_ai_backend.Store.Stock.{Item}
use backhaus_ai_backend.Settings.{SettingsView}
use backhaus_ai_backend.Purchasing.{is_vendor}
use backhaus_ai_backend.Outreach.Enquiries.{
  Brief, sorted_ids, newest_thread, is_same_enquiry, supplies_key, enquiry_lines, enquiry_body,
  first_message, open_enquiry, create_enquiry, is_unposted, failed_early, approval_failed,
}
use backhaus_ai_backend.Outreach.Stages.{waiting, early-Leads}
use backhaus_ai_backend.Outreach.Follows.{
  IsTable, Follows, Follows-refl, update-Follows, append-Follows,
}

-- What an enquiry writes: nothing, or its first message; and what a failed approval writes.
module _ (ops : Arithmetic) (show_id : ℕ → String) (collate : List Item → List Item)
    (now id message : ℕ) (ws : String) (s : SettingsView) (vendor : ℕ) (items : List String)
    (brief : Option Brief) (o : Office) where
  open_messages :
      (thread : ℕ) (o' : Office)
      → open_enquiry ops show_id collate now id message ws s vendor items brief o ≡ ok (thread, o')
      → (o'.messages ≡ o.messages)
        ⊎ ((body : String) × (o'.messages
              ≡ o.messages ++ first_message ops show_id collate now message id ws body ∷ []))
  unfolding open_enquiry
  open_messages thread o' h = elim (Option-cases (find_row (is_vendor ws vendor) o.db.vendors)) [
    | inl e ↦ absurd (ground arith)
    | inr (v, e) ↦
        elim (Option-cases (
          newest_thread
            (is_same_enquiry ws vendor (supplies_key ops show_id collate brief (sorted_ids items)))
            o.threads)) [
              | inr (t, n) ↦ inl (ground arith)
              | inl n ↦
                  elim (Result-cases
                    (enquiry_lines ops show_id collate ws brief (sorted_ids items) o.db)) [
                      | inl (lines, q) ↦
                          inr (enquiry_body ops show_id collate s v lines, ground arith)
                      | inr (e, q) ↦ absurd (ground arith)
                    ]
            ]
  ]

  pub create-Follows :
      any_row (is_message message) o.messages ≡ false
      → IsTable o.messages
      → Follows o.messages
          (create_enquiry ops show_id collate now id message ws s vendor items brief o).1.messages
  unfolding create_enquiry first_message
  create-Follows fresh t =
      elim (Result-cases
        (open_enquiry ops show_id collate now id message ws s vendor items brief o)) [
          | inr (e, q) ↦ rw (q, create_enquiry) (Follows-refl o.messages t)
          | inl ((thread, o'), q) ↦
              rw (q, create_enquiry)
                (elim (open_messages thread o' q) [
                  | inl e ↦ subst (Follows o.messages) (sym e) (Follows-refl o.messages t)
                  | inr (body, e) ↦ subst (Follows o.messages) (sym e) (
                      append-Follows o.messages
                        (first_message ops show_id collate now message id ws body) waiting
                        (ground arith) fresh (λ q k. absurd (ground arith)) t)
                ])
        ]

pub approval-Follows :
    (now : ℕ) (cause ws : String) (thread first : ℕ) (o : Office)
    → IsTable o.messages
    → Follows o.messages (approval_failed now cause ws thread first o).messages
unfolding approval_failed
approval-Follows now cause ws thread first o t =
    update-Follows (is_unposted ws first) (failed_early now cause) o.messages
      (λ m _ q. record {
        id = refl;
        thread = refl;
        source = refl;
        leads = λ s h. early-Leads now m cause s h (ground (arith, q));
      })
      t
