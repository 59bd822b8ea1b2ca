-- ===== src/Purchasing/Tests.antt =====
-- The theorems on orders at concrete inputs.
use backhaus_ai_backend.Base.{ℕ, ◌*◌, ◌≡◌, refl, true, false, none, some, List, [], ◌∷◌, ◌↔◌, arith}
use backhaus_ai_backend.Base.Json.{Json}
use backhaus_ai_backend.Base.Int.{pos, ◌+ℤ◌, ◌-ℤ◌, ◌*ℤ◌}
use backhaus_ai_backend.Base.Result.{ok, err}
use backhaus_ai_backend.Decimal.{Decimal, whole, value, unit, range, Within, le}
use backhaus_ai_backend.Decimal.Exact.{exact, exact-Laws, thousandths, ceil_div}
use backhaus_ai_backend.Store.{Db, empty_db}
use backhaus_ai_backend.Store.Orders.{Vendor, Order, draft, approved}
use backhaus_ai_backend.Purchasing.{
  Policy, approval_reason, exceeds, approve, reject, Decision, decide_versioned,
}
use backhaus_ai_backend.Purchasing.Packs.{
  packs_to_order, order_target, IsStock, IsLeastOrder, shortage, packs_least,
}
use backhaus_ai_backend.Purchasing.Approval.{auto_approval_iff}
use backhaus_ai_backend.Purchasing.Decisions.{decide_draft, decide_repeat, IsDecided}

-- Eighteen and a half in stock, a par of forty, a target of sixty, two on order, packs of twelve.
abbrev on_hand : Decimal
on_hand = record { mantissa = pos 185; scale = 1 }

stock_Within : Within 100 on_hand
unfolding value unit ◌*ℤ◌
stock_Within = record { decimals = omega arith; above = omega arith; below = omega arith }

stock-IsStock : IsStock 100 on_hand (whole 40) (some (whole 60)) (whole 2) (whole 12) (whole 1)
unfolding value unit range ◌*ℤ◌
stock-IsStock = record {
  current_within = stock_Within;
  par_within = record { decimals = omega arith; above = omega arith; below = omega arith };
  target_within = record { decimals = omega arith; above = omega arith; below = omega arith };
  on_order_within = record { decimals = omega arith; above = omega arith; below = omega arith };
  per_pack_within = record { decimals = omega arith; above = omega arith; below = omega arith };
  minimum_sign = omega arith;
  small = omega arith;
}

four_packs :
    packs_to_order exact on_hand (whole 40) (some (whole 60)) (whole 2) (whole 12) (whole 1)
    ≡ some (whole 4)
unfolding packs_to_order order_target value thousandths ceil_div unit ◌+ℤ◌ ◌-ℤ◌ ◌*ℤ◌
four_packs = refl

packs_least_example :
    (k : ℕ) × (value (whole 4) ≡ pos (k * unit))
    × IsLeastOrder exact exact-Laws
        (shortage exact exact-Laws 100 on_hand
          (whole 40)
          (some (whole 60))
          (whole 2)
          (whole 12)
          (whole 1)
          stock-IsStock)
        (whole 12)
        (whole 1)
        k
packs_least_example =
    packs_least exact exact-Laws 100 on_hand (whole 40) (some (whole 60)) (whole 2) (whole 12)
      (whole 1) stock-IsStock four_packs

enough : packs_to_order exact (whole 50) (whole 40) none (whole 0) (whole 12) (whole 1) ≡ none
unfolding packs_to_order order_target value thousandths ceil_div unit ◌+ℤ◌ ◌-ℤ◌ ◌*ℤ◌
enough = refl

full-IsStock : IsStock 100 (whole 50) (whole 40) none (whole 0) (whole 12) (whole 1)
unfolding value unit range ◌*ℤ◌
full-IsStock = record {
  current_within = record { decimals = omega arith; above = omega arith; below = omega arith };
  par_within = record { decimals = omega arith; above = omega arith; below = omega arith };
  target_within = record { decimals = omega arith; above = omega arith; below = omega arith };
  on_order_within = record { decimals = omega arith; above = omega arith; below = omega arith };
  per_pack_within = record { decimals = omega arith; above = omega arith; below = omega arith };
  minimum_sign = omega arith;
  small = omega arith;
}

abbrev no_attention : List Json
no_attention = []

abbrev strict : Policy
strict = record { auto_approve_limit = whole 100; approval_limit = some (whole 500) }

auto_approval_iff_example : ((approval_reason exact strict (whole 80) no_attention).1 ≡ true) ↔ (
    (exceeds exact strict.approval_limit (whole 80) ≡ false)
    × (no_attention ≡ [])
    × (exact.lt (whole 0) strict.auto_approve_limit ≡ true)
    × (le exact (whole 80) strict.auto_approve_limit ≡ true))
auto_approval_iff_example = auto_approval_iff exact strict (whole 80) no_attention

abbrev vendor_row : Vendor
vendor_row = record {
  workspace = "w";
  id = 1;
  name = "Mills";
  contact_name = none;
  email = some "a@b";
  phone = none;
  notes = none;
  research_status = "unreviewed";
  version = 1;
  updated_at = 0;
}

abbrev order_row : Order
order_row = record {
  id = 7;
  workspace = "w";
  number = "PO-1";
  vendor_id = 1;
  status = draft;
  approval_kind = none;
  approval_reason = "manual_approval_required";
  subtotal = whole 80;
  line_count = 1;
  revision = 1;
  version = 3;
  decided_at = none;
  decided_by = none;
  decision_note = none;
  vendor_snapshot = none;
  attention = [];
  created_at = 0;
  updated_at = 0;
}

abbrev done_row : Order
done_row = record order_row { status = approved }

abbrev shop_db : Order → Db
shop_db o = record empty_db { vendors = vendor_row ∷ []; orders = o ∷ [] }

abbrev decided : Order → Decision × Db
decided o = elim (decide_versioned exact 9 "w" 7 approve "ann" (some "go") (some 3) (shop_db o)) [
  | ok r ↦ r
  | err _ ↦ (record { order = o; changed = false }, empty_db)
]

decide_ok :
    decide_versioned exact 9 "w" 7 approve "ann" (some "go") (some 3) (shop_db order_row)
    ≡ ok (decided order_row)
unfolding decide_versioned
decide_ok = refl

done_ok :
    decide_versioned exact 9 "w" 7 approve "ann" (some "go") (some 3) (shop_db done_row)
    ≡ ok (decided done_row)
unfolding decide_versioned
done_ok = refl

decide_draft_example :
    IsDecided exact 9 "w" 7 approve "ann"
      (some "go")
      order_row
      (decided order_row).0
      (shop_db order_row)
      (decided order_row).1
decide_draft_example =
    decide_draft exact 9 "w" 7 "ann" (some "go") order_row (shop_db order_row) refl approve (some 3)
      (decided order_row).0 (decided order_row).1 refl decide_ok

decide_repeat_example :
    decide_versioned exact 20 "w" 7 approve "bob" none (some 1) (decided order_row).1
    ≡ ok (record { order = (decided order_row).0.order; changed = false }, (decided order_row).1)
decide_repeat_example =
    decide_repeat exact 9 "w" 7 "ann" (some "go") order_row (shop_db order_row) refl approve
      (some 3) (decided order_row).0 (decided order_row).1 exact 20 "bob" none (some 1) refl
      decide_ok

abbrev other_row : Order
other_row = record order_row { id = 8 }

abbrev two_db : Db
two_db = record empty_db { vendors = vendor_row ∷ []; orders = order_row ∷ other_row ∷ [] }

abbrev two_decided : Decision × Db
two_decided = elim (decide_versioned exact 9 "w" 7 reject "ann" none none two_db) [
  | ok r ↦ r
  | err _ ↦ (record { order = order_row; changed = false }, empty_db)
]

two_ok : decide_versioned exact 9 "w" 7 reject "ann" none none two_db ≡ ok two_decided
unfolding decide_versioned
two_ok = refl
