-- ===== src/Purchasing/Check/Starts.antt =====
-- What the check of the stock starts with: the drafts of the table of orders.
use backhaus_ai_backend.Base.{
  ℕ, ◌≡◌, inl, inr, true, false, List, [], ◌∷◌, String, ◌==◌, arith, All, Pairs, Memᴰ, any_row,
  rows_where, Bool-cases, All-mono, All-of_mem,
}
use backhaus_ai_backend.Base.Entries.{
  All-rows_where, Pairs-rows_where, All-of_rows_where, All-entry, Pairs-entry, any_row-entry-new,
  any_row-entry_old,
}
use backhaus_ai_backend.Store.{Db}
use backhaus_ai_backend.Store.Orders.{Order}
use backhaus_ai_backend.Purchasing.Shortages.{VendorGroup}
use backhaus_ai_backend.Purchasing.Drafts.{
  Draft, for_vendor, is_open, has_id, collect_drafts, load_drafts, draft_before, draft_of,
}
use backhaus_ai_backend.Purchasing.Check.Tables.{
  clash, IsOrderTable, OtherVendors, points_to, OtherDrafts, Stands, IsWork,
}
use backhaus_ai_backend.Purchasing.Check.Steps.{both_open}

abbrev OtherVendor : Order → Order → Type 0
OtherVendor a b = (a.vendor_id == b.vendor_id) ≡ false

module _ (ws : String) (revision : ℕ) (new_id : ℕ → ℕ) (os : List Order) where
  collect-Stands :
      (todo : List Order) (drafts : List Draft)
      → All (λ o. Memᴰ o os × (is_open ws o ≡ true)) todo
      → All (Stands ws revision new_id os) drafts
      → All (Stands ws revision new_id os) (collect_drafts todo drafts)
  unfolding collect_drafts
  collect-Stands [] drafts h k = k
  collect-Stands (o ∷ todo) drafts h k =
      let here : Stands ws revision new_id os (draft_of o) = (o, h.0.0, ground arith, h.0.1) in
      collect-Stands todo _ h.1 (
        All-entry draft_before (for_vendor o.vendor_id) (λ _. draft_of o) (draft_of o) drafts _ here
          (λ _ _. here) k)

collect_keyed :
    (todo : List Order) (drafts : List Draft)
    → Pairs OtherDrafts drafts
    → Pairs OtherDrafts (collect_drafts todo drafts)
unfolding collect_drafts
collect_keyed [] drafts h = h
collect_keyed (o ∷ todo) drafts h = collect_keyed todo _ (
    Pairs-entry draft_before (for_vendor o.vendor_id) (λ _. draft_of o) (draft_of o) drafts
      OtherDrafts (λ a e. (ground (arith, e), ground (arith, e))) (λ a b r. ground (arith, r)) h)

kept_draft :
    (o : Order) (todo : List Order) (drafts : List Draft)
    → All (OtherVendor o) todo
    → any_row (points_to o) drafts ≡ true
    → any_row (points_to o) (collect_drafts todo drafts) ≡ true
unfolding collect_drafts
kept_draft o [] drafts h k = k
kept_draft o (x ∷ todo) drafts h k = kept_draft o todo _ h.1 (
    any_row-entry_old draft_before (for_vendor x.vendor_id) (λ _. draft_of x) (draft_of x) drafts
      (points_to o) (λ a t. ground (arith, t, h.0)) k)

every_draft :
    (todo : List Order) (drafts : List Draft)
    → Pairs OtherVendor todo
    → All (λ o. any_row (points_to o) (collect_drafts todo drafts) ≡ true) todo
unfolding collect_drafts
every_draft [] drafts h = tt
every_draft (o ∷ todo) drafts h = (
  kept_draft o todo _ h.0 (
      any_row-entry-new draft_before (for_vendor o.vendor_id) (λ _. draft_of o) (draft_of o) drafts
        (points_to o) (ground arith) (λ a _. ground arith)),
  every_draft todo _ h.1,
)

-- The state before the first round.
module _ (ws : String) (revision : ℕ) (new_id : ℕ → ℕ) where
  pub start-IsWork :
      (db : Db) (groups : List (String × VendorGroup))
      → IsOrderTable db.orders
      → Pairs OtherVendors groups
      → ((v : ℕ) → any_row (has_id (new_id v)) db.orders ≡ false)
      → IsWork ws revision new_id db.orders (load_drafts ws db) groups
  unfolding load_drafts
  start-IsWork db groups table vendors fresh = record {
    table = table;
    accounted =
        All-mono _ _ db.orders (λ o h e. inl (h e))
          (All-of_rows_where _ (is_open ws) db.orders (
            every_draft (rows_where (is_open ws) db.orders) [] (
              Pairs-rows_where (λ a b. clash a b ≡ false) OtherVendor (is_open ws) db.orders
                (λ a b p q c. apart a b p q c) table)));
    stand =
        collect-Stands ws revision new_id db.orders (rows_where (is_open ws) db.orders) []
          (All-rows_where (λ o. Memᴰ o db.orders) _ (is_open ws) db.orders (λ a e m. (m, e))
            (All-of_mem db.orders (λ a m. m)))
          tt;
    keyed = collect_keyed (rows_where (is_open ws) db.orders) [] tt;
    vendors = vendors;
    fresh = All-of_mem groups (λ g _. fresh g.1.vendor_id);
  }
    where
      apart :
          (a b : Order)
          → is_open ws a ≡ true
          → is_open ws b ≡ true
          → clash a b ≡ false
          → OtherVendor a b
      apart a b p q c = elim (Bool-cases (a.vendor_id == b.vendor_id)) [
        | inr e ↦ e
        | inl e ↦ absurd (ground (arith, c, both_open ws a b p q (ground (arith, e))))
      ]
