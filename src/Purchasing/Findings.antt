-- ===== src/Purchasing/Findings.antt =====
-- src/purchasing.rs, `prepare_drafts`: the findings of a check as the value that is stored.
use Prim.Native.String.{◌++◌ as str_append}
use backhaus_ai_backend.Base.{
  ℕ, ◌-◌, Bool, not, ◌&&◌, none, some, List, [], ◌∷◌, String, str_eq, ltb, ◌==◌, if◌then◌else◌,
  count_rows, map, length,
}
use backhaus_ai_backend.Base.Json.{Json, null, boolean, string, number, array, object, field, end}
use backhaus_ai_backend.Decimal.{Arithmetic}
use backhaus_ai_backend.Purchasing.{Policy}
use backhaus_ai_backend.Purchasing.Lines.{items_of, describe_reason}
use backhaus_ai_backend.Purchasing.Check.{Prepared, Findings}

-- The order cannot be approved: `blocked` of its entry.
abbrev is_blocked : Prepared → Bool
is_blocked o = str_eq o.proposal.reason "exceeds_approval_limit"

unfoldable pub needs_approval : Findings → ℕ
needs_approval f = count_rows (λ o. not o.approved) f.orders

unfoldable pub auto_approved : Findings → ℕ
auto_approved f = count_rows (λ o. o.approved) f.orders

unfoldable pub blocked_orders : Findings → ℕ
blocked_orders f = count_rows is_blocked f.orders

abbrev part : Bool → String → List String → List String
part b s parts = if b then s ∷ parts else parts

-- `parts.join(" · ")`
abbrev joined : List String → String
joined [] = ""
joined (s ∷ parts) = elim parts [ [] ↦ s | _ ∷ _ ↦ str_append s (str_append " · " (joined parts)) ]

-- `show` prints a number, `show_id` an identifier.
module _ (ops : Arithmetic) (show show_id : ℕ → String) where
  abbrev counted : ℕ → String → String
  counted n text = str_append (show n) text

  unfoldable pub summary : Findings → String
  unfolding needs_approval auto_approved blocked_orders
  summary f =
      let orders = length f.orders in
      let waiting = needs_approval f - blocked_orders f in
      let setup = f.attention_total - f.covered in
      joined (
        counted f.below_par " items below par"
        ∷ part (ltb 0 orders)
            (counted orders (if orders == 1 then " order prepared" else " orders prepared"))
            (part (ltb 0 waiting) (counted waiting " awaiting approval") (
              part (ltb 0 (blocked_orders f)) (counted (blocked_orders f) " blocked by limit") (
                part (ltb 0 (auto_approved f)) (counted (auto_approved f) " auto-approved") (
                  part (ltb 0 setup) (counted setup " need attention")
                    (part (ltb 0 f.covered) (counted f.covered " already on order") []))))))

  -- `Policy::to_json`
  unfoldable pub policy_json : Policy → Json
  policy_json p = object (
      field "auto_approve_limit" (string (ops.print p.auto_approve_limit)) (
        field "approval_limit"
          (elim p.approval_limit [ none ↦ null | some d ↦ string (ops.print d) ])
          (field "currency" (string "NGN") end)))

  unfoldable pub prepared_json : Prepared → Json
  unfolding describe_reason
  prepared_json o = object (
      field "id" (string (show_id o.placed.id)) (
        field "number" (string o.placed.num) (
          field "vendor" (string o.proposal.group.vendor_name) (
            field "status" (string (if o.approved then "approved" else "draft")) (
              field "approval_kind" (string (if o.approved then "automatic" else "manual")) (
                field "approval_explanation" (string (describe_reason o.proposal.reason)) (
                  field "approval_reason" (string o.proposal.reason) (
                    field "blocked" (boolean (is_blocked o)) (
                      field "can_approve" (boolean (not o.approved && not (is_blocked o))) (
                        field "subtotal" (string (ops.print o.proposal.subtotal)) (
                          field "currency" (string "NGN") (
                            field "line_count" (number (show (length o.proposal.group.lines))) (
                              field "change" (string o.placed.change) (
                                field "attention" (array (items_of o.proposal.attention))
                                  end))))))))))))))

  unfoldable pub findings_json : Findings → Json
  unfolding summary policy_json prepared_json needs_approval auto_approved blocked_orders
  findings_json f = object (
      field "summary" (string (summary f)) (
        field "total_items" (number (show f.total_items)) (
          field "below_par" (number (show f.below_par)) (
            field "par_unset" (number (show f.par_unset)) (
              field "revision" (number (show f.revision)) (
                field "orders" (array (items_of (map prepared_json f.orders))) (
                  field "needs_approval" (number (show (needs_approval f))) (
                    field "blocked_orders" (number (show (blocked_orders f))) (
                      field "auto_approved" (number (show (auto_approved f))) (
                        field "covered_by_open_orders" (number (show f.covered)) (
                          field "attention" (array (items_of f.attention)) (
                            field "attention_total" (number (show f.attention_total)) (
                              field "withdrawn" (array (items_of (map (λ s. string s) f.withdrawn)))
                                (field "policy" (policy_json f.policy)
                                  (field "review" null end)))))))))))))))
