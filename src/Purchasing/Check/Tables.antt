-- ===== src/Purchasing/Check/Tables.antt =====
-- What the check keeps of the table of orders, one statement at a time.
use backhaus_ai_backend.Base.{
  ℕ, ◌≡◌, refl, ◌⊎◌, inl, inr, Bool, true, false, ◌&&◌, ◌||◌, List, String, str_eq, ◌==◌,
  if◌then◌else◌, arith, All, Pairs, Memᴰ, any_row, update_rows, Bool-cases, Pairs-update_rows,
  Pairs-mem,
}
use backhaus_ai_backend.Store.Orders.{Order, is_draft}
use backhaus_ai_backend.Purchasing.Shortages.{VendorGroup}
use backhaus_ai_backend.Purchasing.Drafts.{Draft, is_open, has_id}

-- Two rows with one key, or two open drafts of one vendor.
abbrev pub clash : Order → Order → Bool
clash a b =
    a.id == b.id
    || (str_eq a.workspace b.workspace
        && a.vendor_id == b.vendor_id
        && is_draft a.status
        && is_draft b.status)

-- The primary key of purchase_orders, and its index of one draft for each vendor.
abbrev pub IsOrderTable : List Order → Type 0
IsOrderTable os = Pairs (λ a b. clash a b ≡ false) os

abbrev pub group_for : ℕ → String × VendorGroup → Bool
group_for v g = g.1.vendor_id == v

abbrev pub OtherVendors : String × VendorGroup → String × VendorGroup → Type 0
OtherVendors a b = (a.1.vendor_id == b.1.vendor_id) ≡ false

abbrev pub points_to : Order → Draft → Bool
points_to o d = d.id == o.id && d.vendor_id == o.vendor_id

abbrev pub OtherDrafts : Draft → Draft → Type 0
OtherDrafts a b = (a.vendor_id == b.vendor_id) ≡ false

module _ (ws : String) (revision : ℕ) (new_id : ℕ → ℕ) where
  -- An open draft is still to be taken up, or is of this revision and of a vendor that is done.
  abbrev pub Accounted : List Draft → List (String × VendorGroup) → Order → Type 0
  Accounted drafts left o =
      is_open ws o ≡ true
      → (any_row (points_to o) drafts ≡ true)
        ⊎ ((o.revision ≡ revision) × (any_row (group_for o.vendor_id) left ≡ false))

  abbrev pub Stands : List Order → Draft → Type 0
  Stands os d = (o : Order) × Memᴰ o os × (points_to o d ≡ true) × (is_open ws o ≡ true)

  -- The state of the loop: the orders, the drafts not yet taken up, and the groups that are left.
  pub record IsWork (os : List Order) (drafts : List Draft) (left : List (String × VendorGroup))
      : Type 0 where
    pub table : IsOrderTable os
    pub accounted : All (Accounted drafts left) os
    pub stand : All (Stands os) drafts
    pub keyed : Pairs OtherDrafts drafts
    pub vendors : Pairs OtherVendors left
    pub fresh : All (λ g. any_row (has_id (new_id g.1.vendor_id)) os ≡ false) left

  -- Two open drafts of one vendor are one row.
  pub same_row :
      (os : List Order) (a b : Order)
      → IsOrderTable os
      → Memᴰ a os
      → Memᴰ b os
      → clash a b ≡ true
      → clash b a ≡ true
      → a ≡ b
  same_row os a b t m n c e = elim (Pairs-mem (λ a b. clash a b ≡ false) os t m n) [
    | inl p ↦ p
    | inr (inl no_ab) ↦ absurd (ground arith)
    | inr (inr no_ba) ↦ absurd (ground arith)
  ]

-- A row that stands for another in the constraints.
pub record Replaces (a' a : Order) : Type 0 where
  pub id : a'.id ≡ a.id
  pub workspace : a'.workspace ≡ a.workspace
  pub vendor : a'.vendor_id ≡ a.vendor_id
  pub closed : is_draft a.status ≡ false → is_draft a'.status ≡ false

replaced_apart :
    (a b a' b' : Order) → Replaces a' a → Replaces b' b → clash a b ≡ false → clash a' b' ≡ false
replaced_apart a b a' b' p q c = elim (Bool-cases (is_draft a.status)) [
  | inl e ↦ elim (Bool-cases (is_draft b.status)) [
    | inl t ↦ ground (arith, c, e, t, p.id, p.workspace, p.vendor, q.id, q.workspace, q.vendor)
    | inr t ↦
        ground
          (arith, c, e, t, q.closed t, p.id, p.workspace, p.vendor, q.id, q.workspace, q.vendor)
  ]
  | inr e ↦
      ground (arith, c, e, p.closed e, p.id, p.workspace, p.vendor, q.id, q.workspace, q.vendor)
]

if-Replaces :
    (q : Order → Bool) (f : Order → Order) (o : Order)
    → Replaces (f o) o
    → Replaces (if q o then f o else o) o
if-Replaces q f o r = elim (Bool-cases (q o)) [
  | inl e ↦ rw e r
  | inr e ↦ rw e (record { id = refl; workspace = refl; vendor = refl; closed = λ h. h })
]

pub update-IsOrderTable :
    (q : Order → Bool) (f : Order → Order) (os : List Order)
    → ((o : Order) → Replaces (f o) o)
    → IsOrderTable os
    → IsOrderTable (update_rows q f os)
update-IsOrderTable q f os k t =
    Pairs-update_rows (λ a b. clash a b ≡ false) q f os
      (λ a b _ _ c. replaced_apart a b _ _ (if-Replaces q f a (k a)) (if-Replaces q f b (k b)) c) t
