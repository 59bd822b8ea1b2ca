-- ===== src/Vendors/Rules/Preferred.antt =====
-- One preferred vendor for each item.
use package.text.Mathlib.TextEquality.{eq_iff}
use backhaus_ai_backend.Base.{
  ℕ, Bool, true, false, ◌&&◌, ◌||◌, Option, none, some, List, [], ◌∷◌, String, str_eq, ◌==◌,
  if◌then◌else◌, find_row, update_rows, any_row, ◌≡◌, refl, ap, subst, inl, inr, arith, All, Pairs,
  Bool-cases, Option-cases, Pairs-update_rows, Pairs-append, any_row-mem, any_row-update_rows-false,
  any_row_of_find_row, All-of_any_row, find_row-update_rows-none, All-of_mem, All-append,
  Pairs-delete_rows,
}
use backhaus_ai_backend.Base.Result.{ok, Result-cases}
use backhaus_ai_backend.Decimal.{Arithmetic}
use backhaus_ai_backend.Store.{Db}
use backhaus_ai_backend.Store.Orders.{VendorItem}
use backhaus_ai_backend.Vendors.{RuleInput, text}
use backhaus_ai_backend.Vendors.Rules.Assigned.{IsSaved, save_rule-IsSaved}
use backhaus_ai_backend.Vendors.Rules.{
  is_rule, preferred_for, preferred_elsewhere, unpreferred, saved_rule, new_rule, replace_rule,
  add_rule, save_rule, assign, unassign_versioned,
}

abbrev same_item : VendorItem → VendorItem → Bool
same_item a b = str_eq a.workspace b.workspace && str_eq a.item_id b.item_id

-- Two rows with one key, or two preferred vendors of one item.
abbrev clash : VendorItem → VendorItem → Bool
clash a b = same_item a b && (a.vendor_id == b.vendor_id || (a.preferred && b.preferred))

-- The two UNIQUE constraints of vendor_items.
abbrev pub IsCatalogue : List VendorItem → Type 0
IsCatalogue rules = Pairs (λ a b. clash a b ≡ false) rules

same : (s t : String) → str_eq s t ≡ true → s ≡ t
same s t h = (eq_iff s t).0 h

module _ (now : ℕ) (ws item : String) (vendor : ℕ) where
  -- Taking the preference from rows keeps the constraints.
  unpreferred-IsCatalogue :
      (p : VendorItem → Bool) (rules : List VendorItem)
      → IsCatalogue rules
      → IsCatalogue (update_rows p (unpreferred now) rules)
  unpreferred-IsCatalogue p rules h =
      Pairs-update_rows (λ a b. clash a b ≡ false) p (unpreferred now) rules
        (λ a b _ _ c. unfold unpreferred in ground (arith, c)) h

  saved_apart :
      (reference : Option String) (input : RuleInput) (a b : VendorItem)
      → clash a b ≡ false
      → preferred_elsewhere ws item vendor a ≡ false
      → preferred_elsewhere ws item vendor b ≡ false
      → clash
          (if is_rule ws vendor item a then saved_rule now reference input a else a)
          (if is_rule ws vendor item b then saved_rule now reference input b else b)
        ≡ false
  saved_apart reference input a b c free_a free_b = elim (Bool-cases (same_item a b)) [
    | inl e ↦
        let w : str_eq a.workspace ws ≡ str_eq b.workspace ws =
          ap (λ x. str_eq x ws) (same a.workspace b.workspace (ground (arith, e))) in
        let i : str_eq a.item_id item ≡ str_eq b.item_id item =
          ap (λ x. str_eq x item) (same a.item_id b.item_id (ground (arith, e))) in
        unfold saved_rule in ground (arith, e, w, i)
    | inr e ↦ unfold saved_rule in ground (arith, e)
  ]

  -- Once no other vendor is preferred for the item, the rule may become preferred.
  saved-IsCatalogue :
      (reference : Option String) (input : RuleInput) (rules : List VendorItem)
      → any_row (preferred_elsewhere ws item vendor) rules ≡ false
      → IsCatalogue rules
      → IsCatalogue (update_rows (is_rule ws vendor item) (saved_rule now reference input) rules)
  saved-IsCatalogue reference input rules free h =
      Pairs-update_rows (λ a b. clash a b ≡ false) (is_rule ws vendor item)
        (saved_rule now reference input) rules
        (λ a b m n c.
          saved_apart reference input a b c (any_row-mem _ rules free m)
            (any_row-mem _ rules free n))
        h

  none_elsewhere :
      (rules : List VendorItem)
      → any_row
          (preferred_elsewhere ws item vendor)
          (update_rows (preferred_elsewhere ws item vendor) (unpreferred now) rules)
        ≡ false
  none_elsewhere rules =
      any_row-update_rows-false (preferred_elsewhere ws item vendor)
        (preferred_elsewhere ws item vendor) (unpreferred now) rules
        (λ a _. unfold unpreferred in ground arith) (λ a h. h)

  replace_rule-IsCatalogue :
      (reference : Option String) (input : RuleInput) (rules : List VendorItem)
      → IsCatalogue rules
      → IsCatalogue (replace_rule now ws item vendor reference input rules)
  unfolding replace_rule
  replace_rule-IsCatalogue reference input rules h = unpreferred-IsCatalogue _ _ (
      saved-IsCatalogue reference input _ (none_elsewhere rules)
        (unpreferred-IsCatalogue _ rules h))

  new_apart :
      (reference : Option String) (input : RuleInput) (x : VendorItem)
      → preferred_for ws item x ≡ false
      → is_rule ws vendor item x ≡ false
      → clash x (new_rule now ws item vendor reference input) ≡ false
  unfolding new_rule
  new_apart reference input x free other = ground arith

  released_free :
      (rules : List VendorItem)
      → any_row
          (preferred_for ws item)
          (update_rows (preferred_for ws item) (unpreferred now) rules)
        ≡ false
  released_free rules =
      any_row-update_rows-false (preferred_for ws item) (preferred_for ws item) (unpreferred now)
        rules (λ a _. unfold unpreferred in ground arith) (λ a k. k)

  add_rule-IsCatalogue :
      (reference : Option String) (input : RuleInput) (rules : List VendorItem)
      → find_row (is_rule ws vendor item) rules ≡ none
      → IsCatalogue rules
      → IsCatalogue (add_rule now ws item vendor reference input rules)
  unfolding add_rule
  add_rule-IsCatalogue reference input rules absent h =
      Pairs-append (λ a b. clash a b ≡ false) released (new_rule now ws item vendor reference input)
        (unpreferred-IsCatalogue (preferred_for ws item) rules h)
        (All-of_mem released (λ x m.
          new_apart reference input x (any_row-mem _ released (released_free rules) m)
            (any_row-mem _ released other m)))
    where
      released : List VendorItem
      released = update_rows (preferred_for ws item) (unpreferred now) rules

      other : any_row (is_rule ws vendor item) released ≡ false
      other = any_row_of_find_row (is_rule ws vendor item) released (
          find_row-update_rows-none (is_rule ws vendor item) (preferred_for ws item)
            (unpreferred now) rules (λ b. unfold unpreferred in refl) absent)

  -- Saving a rule keeps the constraints: one row for each item and vendor, and at most one preferred
  -- vendor for each item.
  save_rule-IsCatalogue :
      (reference : Option String) (input : RuleInput) (rules saved : List VendorItem)
      (action : String)
      → IsCatalogue rules
      → save_rule now ws item vendor reference input rules ≡ ok (saved, action)
      → IsCatalogue saved
  unfolding save_rule
  save_rule-IsCatalogue reference input rules saved action h e =
      elim (Option-cases (find_row (is_rule ws vendor item) rules)) [
        | inl absent ↦
            subst IsCatalogue (ground (arith, absent))
              (add_rule-IsCatalogue reference input rules absent h)
        | inr (r, found) ↦
            subst IsCatalogue (ground (arith, found))
              (replace_rule-IsCatalogue reference input rules h)
      ]

  not_elsewhere :
      (x : VendorItem)
      → preferred_for ws item x ≡ false
      → preferred_elsewhere ws item vendor x ≡ false
  not_elsewhere x h = ground arith

  -- In the saved table no other vendor is preferred for the item.
  save_rule_elsewhere :
      (reference : Option String) (input : RuleInput) (rules saved : List VendorItem)
      (action : String)
      → save_rule now ws item vendor reference input rules ≡ ok (saved, action)
      → All (λ x. preferred_elsewhere ws item vendor x ≡ false) saved
  unfolding save_rule
  save_rule_elsewhere reference input rules saved action e =
      elim (Option-cases (find_row (is_rule ws vendor item) rules)) [
        | inl absent ↦
            subst (All (λ x. preferred_elsewhere ws item vendor x ≡ false)) (ground (arith, absent))
              (unfold add_rule in
                All-append (λ x. preferred_elsewhere ws item vendor x ≡ false)
                  (update_rows (preferred_for ws item) (unpreferred now) rules)
                  (new_rule now ws item vendor reference input ∷ [])
                  (All-of_mem _ (λ x m.
                    not_elsewhere x
                      (any_row-mem (preferred_for ws item) _ (released_free rules) m)))
                  (unfold new_rule in (ground arith, tt)))
        | inr (r, found) ↦
            let same_rows : replace_rule now ws item vendor reference input rules ≡ saved =
              ground (arith, found) in
            subst (All (λ x. preferred_elsewhere ws item vendor x ≡ false)) same_rows (
              unfold replace_rule in
              All-of_any_row (preferred_elsewhere ws item vendor) _ (none_elsewhere _))
      ]

-- Assigning an item to a vendor never gives the item two preferred vendors or two rules of one
-- vendor.
pub assign-IsCatalogue :
    (ops : Arithmetic) (show_id : ℕ → String) (now : ℕ) (ws : String) (vendor : ℕ) (item : String)
    (input : RuleInput) (r : VendorItem) (db db' : Db)
    → IsCatalogue db.vendor_items
    → assign ops show_id now ws vendor item input db ≡ ok (r, db')
    → IsCatalogue db'.vendor_items
unfolding assign
assign-IsCatalogue ops show_id now ws vendor item input r db db' h e =
    elim (Result-cases (text input.supplier_reference 80)) [
      | inl (reference, t) ↦
          elim (Result-cases (save_rule now ws item vendor reference input db.vendor_items)) [
            | inl ((saved, action), k) ↦ subst IsCatalogue (ground (arith, t, k)) (
                save_rule-IsCatalogue now ws item vendor reference input db.vendor_items saved
                  action h k)
            | inr (_, k) ↦ absurd (ground (arith, t, k))
          ]
      | inr (_, t) ↦ absurd (ground (arith, t))
    ]

-- After an assignment the table holds the rule as the input gives it, preferred and under the next
-- version, and no other vendor is preferred for the item, whatever the table was before.
pub assign_prefers :
    (ops : Arithmetic) (show_id : ℕ → String) (now : ℕ) (ws : String) (vendor : ℕ) (item : String)
    (input : RuleInput) (r : VendorItem) (db db' : Db)
    → assign ops show_id now ws vendor item input db ≡ ok (r, db')
    → IsSaved ws vendor item input r
      × (find_row (is_rule ws vendor item) db'.vendor_items ≡ some r)
      × All (λ x. preferred_elsewhere ws item vendor x ≡ false) db'.vendor_items
unfolding assign
assign_prefers ops show_id now ws vendor item input r db db' e =
    elim (Result-cases (text input.supplier_reference 80)) [
      | inl (reference, t) ↦
          elim (Result-cases (save_rule now ws item vendor reference input db.vendor_items)) [
            | inl ((saved, action), k) ↦ (
              save_rule-IsSaved now ws item vendor reference input t db.vendor_items saved action r
                  k (ground (arith, t, k)),
              ground (arith, t, k),
              subst (All (λ x. preferred_elsewhere ws item vendor x ≡ false)) (ground (arith, t, k))
                  (save_rule_elsewhere now ws item vendor reference input db.vendor_items saved
                    action k),
            )
            | inr (_, k) ↦ absurd (ground (arith, t, k))
          ]
      | inr (_, t) ↦ absurd (ground (arith, t))
    ]

-- Removing a rule keeps the constraints.
pub unassign-IsCatalogue :
    (ops : Arithmetic) (show_id : ℕ → String) (ws : String) (vendor : ℕ) (item : String)
    (expected : Option ℕ) (db db' : Db)
    → IsCatalogue db.vendor_items
    → unassign_versioned ops show_id ws vendor item expected db ≡ ok (tt, db')
    → IsCatalogue db'.vendor_items
unfolding unassign_versioned
unassign-IsCatalogue ops show_id ws vendor item expected db db' h e =
    subst IsCatalogue (ground arith)
      (Pairs-delete_rows (λ a b. clash a b ≡ false) (is_rule ws vendor item) db.vendor_items h)
