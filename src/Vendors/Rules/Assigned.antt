-- ===== src/Vendors/Rules/Assigned.antt =====
-- What an assignment stores.
use backhaus_ai_backend.Base.{
  ℕ, true, false, Option, none, some, List, String, find_row, update_rows, ◌≡◌, refl, ap, subst,
  inl, inr, arith, Option-cases, find_row-update_rows-none, find_row-update_rows, find_row-append,
  find_row_sound, ◌∙◌, ◌+◌,
}
use backhaus_ai_backend.Base.Text.{str_eq_refl, trim}
use backhaus_ai_backend.Base.Result.{ok}
use backhaus_ai_backend.Store.Orders.{VendorItem}
use backhaus_ai_backend.Vendors.{RuleInput, text}
use backhaus_ai_backend.Vendors.Rules.{
  version_of, is_rule, preferred_for, preferred_elsewhere, unpreferred, saved_rule, new_rule,
  replace_rule, add_rule, save_rule,
}

-- What a rule holds that was assigned with an input: all of it, under the next version.
pub record IsSaved (ws : String) (vendor : ℕ) (item : String) (input : RuleInput) (r : VendorItem)
    : Type 0 where
  pub key : is_rule ws vendor item r ≡ true
  pub preferred : r.preferred ≡ true
  pub reference : text input.supplier_reference 80 ≡ ok r.supplier_reference
  pub unit : r.order_unit ≡ trim input.order_unit
  pub units : r.units_per_pack ≡ input.units_per_pack
  pub price : r.pack_price ≡ input.pack_price
  pub minimum : r.minimum_order_quantity ≡ input.minimum_order_quantity
  pub target : r.reorder_target ≡ input.reorder_target
  pub version : r.version ≡ version_of input.version + 1

module _ (now : ℕ) (ws item : String) (vendor : ℕ) (reference : Option String) (input : RuleInput)
    (t : text input.supplier_reference 80 ≡ ok reference) where
  added-IsSaved :
      version_of input.version ≡ 0
      → IsSaved ws vendor item input (new_rule now ws item vendor reference input)
  unfolding new_rule
  added-IsSaved v = record {
    key = ground (arith, str_eq_refl ws, str_eq_refl item);
    preferred = refl;
    reference = t;
    unit = refl;
    units = refl;
    price = refl;
    minimum = refl;
    target = refl;
    version = ground (arith, v);
  }

  replaced-IsSaved :
      (r : VendorItem)
      → is_rule ws vendor item r ≡ true
      → version_of input.version ≡ r.version
      → IsSaved ws vendor item input (saved_rule now reference input r)
  unfolding saved_rule
  replaced-IsSaved r k v = record {
    key = k;
    preferred = refl;
    reference = t;
    unit = refl;
    units = refl;
    price = refl;
    minimum = refl;
    target = refl;
    version = ground (arith, v);
  }

  replaced_found :
      (rules : List VendorItem) (r : VendorItem)
      → find_row (is_rule ws vendor item) rules ≡ some r
      → find_row (is_rule ws vendor item) (replace_rule now ws item vendor reference input rules)
        ≡ some (saved_rule now reference input r)
  unfolding replace_rule
  replaced_found rules r e =
      let k : is_rule ws vendor item r ≡ true = find_row_sound (is_rule ws vendor item) rules e in
      let other : preferred_elsewhere ws item vendor r ≡ false = ground (arith, k) in
      let first =
        find_row-update_rows (is_rule ws vendor item) (preferred_elsewhere ws item vendor)
          (unpreferred now) rules (λ b. unfold unpreferred in refl) e in
      let second =
        find_row-update_rows (is_rule ws vendor item) (is_rule ws vendor item)
          (saved_rule now reference input)
          (update_rows (preferred_elsewhere ws item vendor) (unpreferred now) rules) {a = r}
          (λ b. unfold saved_rule in refl) (first ∙ ground (arith, other)) in
      find_row-update_rows (is_rule ws vendor item) (preferred_elsewhere ws item vendor)
        (unpreferred now) _ {a = saved_rule now reference input r} (λ b. unfold unpreferred in refl)
        (second ∙ ground (arith, k))
      ∙ (unfold saved_rule in ground (arith, k))

  added_found :
      (rules : List VendorItem)
      → find_row (is_rule ws vendor item) rules ≡ none
      → find_row (is_rule ws vendor item) (add_rule now ws item vendor reference input rules)
        ≡ some (new_rule now ws item vendor reference input)
  unfolding add_rule
  added_found rules e =
      let released =
        find_row-update_rows-none (is_rule ws vendor item) (preferred_for ws item) (unpreferred now)
          rules (λ b. unfold unpreferred in refl) e in
      let k =
        find_row-append (is_rule ws vendor item)
          (update_rows (preferred_for ws item) (unpreferred now) rules)
          (new_rule now ws item vendor reference input) released in
      unfold new_rule in ground (arith, k, str_eq_refl ws, str_eq_refl item)

  pub save_rule-IsSaved :
      (rules saved : List VendorItem) (action : String) (r : VendorItem)
      → save_rule now ws item vendor reference input rules ≡ ok (saved, action)
      → find_row (is_rule ws vendor item) saved ≡ some r
      → IsSaved ws vendor item input r
  unfolding save_rule
  save_rule-IsSaved rules saved action r h f =
      elim (Option-cases (find_row (is_rule ws vendor item) rules)) [
        | inl absent ↦
            let rows : saved ≡ add_rule now ws item vendor reference input rules =
              ground (arith, absent) in
            let same : new_rule now ws item vendor reference input ≡ r =
              ground
                (arith, added_found rules absent, ap (find_row (is_rule ws vendor item)) rows) in
            subst (IsSaved ws vendor item input) same (added-IsSaved (ground (arith, absent)))
        | inr (old, found) ↦
            let rows : saved ≡ replace_rule now ws item vendor reference input rules =
              ground (arith, found) in
            let same : saved_rule now reference input old ≡ r = ground (
              arith,
              replaced_found rules old found,
              ap (find_row (is_rule ws vendor item)) rows,
            ) in
            subst (IsSaved ws vendor item input) same (
              replaced-IsSaved old (find_row_sound (is_rule ws vendor item) rules found)
                (ground (arith, found)))
      ]
