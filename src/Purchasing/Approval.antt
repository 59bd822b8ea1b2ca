-- ===== src/Purchasing/Approval.antt =====
-- The approval rule.
use backhaus_ai_backend.Base.{◌≡◌, ◌↔◌, true, false, List, [], ◌∷◌, arith}
use backhaus_ai_backend.Base.Json.{Json}
use backhaus_ai_backend.Decimal.{Decimal, Arithmetic, whole, le}
use backhaus_ai_backend.Purchasing.{Policy, exceeds, approval_reason}

-- An order is approved automatically exactly when its total is within the approval limit, nothing
-- about its vendor needs attention, automatic approval is on, and its total is at most the automatic
-- limit.
pub auto_approval_iff :
    (ops : Arithmetic) (p : Policy) (subtotal : Decimal) (attention : List Json)
    → ((approval_reason ops p subtotal attention).1 ≡ true) ↔ (
        (exceeds ops p.approval_limit subtotal ≡ false)
        × (attention ≡ [])
        × (ops.lt (whole 0) p.auto_approve_limit ≡ true)
        × (le ops subtotal p.auto_approve_limit ≡ true))
unfolding approval_reason
auto_approval_iff ops p subtotal [] = ground arith
auto_approval_iff ops p subtotal (a ∷ rest) = ground arith
