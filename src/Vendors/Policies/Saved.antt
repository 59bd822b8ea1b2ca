-- ===== src/Vendors/Policies/Saved.antt =====
-- What saving the purchasing policy does to the limits that orders are decided by.
use backhaus_ai_backend.Base.{
  ℕ, ◌+◌, true, some, [], ◌∷◌, ◌++◌, String, find_row, update_rows, ◌≡◌, refl, sym, subst, ◌∙◌, inl,
  inr, arith, Option-cases, find_row-update_rows, find_row-append, find_row_sound,
}
use backhaus_ai_backend.Base.Text.{str_eq_refl}
use backhaus_ai_backend.Base.Result.{ok, err, conflict}
use backhaus_ai_backend.Decimal.{Decimal, Arithmetic, le}
use backhaus_ai_backend.Store.{Db}
use backhaus_ai_backend.Store.Orders.{PolicyRow}
use backhaus_ai_backend.Purchasing.{policy}
use backhaus_ai_backend.Vendors.{PolicyInput}
use backhaus_ai_backend.Vendors.Policies.{
  validate_policy, has_policy, edited_policy, new_policy, update_policy,
}

module _ (ops : Arithmetic) (now : ℕ) (ws : String) (input : PolicyInput) (db db' : Db)
    (saved : update_policy ops now ws input db ≡ ok db') where
  -- The row that is left for the workspace.
  row_left :
      (r : PolicyRow) × (find_row (has_policy ws) db'.policies ≡ some r)
      × (r.auto_approve_limit ≡ input.auto_approve_limit)
      × (r.approval_limit ≡ input.approval_limit)
      × (r.version ≡ input.version + 1)
  row_left = elim (Option-cases (find_row (has_policy ws) db.policies)) [
    | inl e ↦
        let rows : db'.policies ≡ db.policies ++ new_policy now ws input ∷ [] =
          unfold update_policy in ground (arith, e) in
        let zero_version : input.version ≡ 0 = unfold update_policy in ground (arith, e) in
        (
          new_policy now ws input,
          subst (λ xs. find_row (has_policy ws) xs ≡ some (new_policy now ws input)) (sym rows)
              (find_row-append (has_policy ws) db.policies (new_policy now ws input) e
                (str_eq_refl ws)),
          refl,
          refl,
          ground (arith, zero_version),
        )
    | inr (r, e) ↦
        let rows : db'.policies
            ≡ update_rows (has_policy ws) (edited_policy now input) db.policies =
          unfold update_policy in ground (arith, e) in
        let version : r.version ≡ input.version = unfold update_policy in ground (arith, e) in
        (
          edited_policy now input r,
          subst (λ xs. find_row (has_policy ws) xs ≡ some (edited_policy now input r)) (sym rows)
              (find_row-update_rows (has_policy ws) (has_policy ws) (edited_policy now input)
                  db.policies (λ _. unfold edited_policy in refl) e
                ∙ ground (arith, find_row_sound (has_policy ws) db.policies e)),
          unfold edited_policy in refl,
          unfold edited_policy in refl,
          unfold edited_policy in ground (arith, version),
        )
  ]

  -- After a save the limits that the orders of the workspace are decided by are those of the input.
  pub policy_saved : policy ws db' ≡ record {
    auto_approve_limit = input.auto_approve_limit;
    approval_limit = input.approval_limit;
  }
  policy_saved = let (r, found, a, l, _) = row_left in unfold policy in ground (arith, found, a, l)

  -- After a save the limit of automatic approval is not above the approval limit.
  pub limits_ordered :
      (limit : Decimal)
      → (policy ws db').approval_limit ≡ some limit
      → le ops (policy ws db').auto_approve_limit limit ≡ true
  limits_ordered limit e =
      let (r, found, a, l, _) = row_left in
      let given : input.approval_limit ≡ some limit =
        unfold policy in ground (arith, found, l, e) in
      let auto : (policy ws db').auto_approve_limit ≡ input.auto_approve_limit =
        unfold policy in ground (arith, found, a) in
      unfold update_policy in ground (arith, given, auto)

  -- A second save from the version that the first one was made from is a conflict, so that no save
  -- is overwritten unseen.
  pub second_save_refused :
      (later : ℕ) (again : PolicyInput)
      → validate_policy ops again ≡ ok tt
      → again.version ≡ input.version
      → update_policy ops later ws again db' ≡ err conflict
  second_save_refused later again valid v =
      let (r, found, _, _, next) = row_left in
      unfold update_policy in ground (arith, valid, v, found, next)
