-- ===== src/Vendors/Records/Names.antt =====
-- The names of suppliers are unique in a workspace.
use package.text.Mathlib.TextEquality.{eq_iff}
use backhaus_ai_backend.Base.{
  ℕ, Bool, false, not, ◌&&◌, ◌||◌, List, [], ◌∷◌, ◌++◌, String, str_eq, ◌==◌, if◌then◌else◌,
  update_rows, any_row, ◌≡◌, ap, subst, inl, inr, arith, Bool-cases, Pairs, Pairs-append,
  Pairs-update_rows, All-of_mem, any_row-mem,
}
use backhaus_ai_backend.Base.Text.{str_eq_comm}
use backhaus_ai_backend.Base.Result.{ok, Result-cases}
use backhaus_ai_backend.Store.{Db}
use backhaus_ai_backend.Store.Orders.{Vendor}
use backhaus_ai_backend.Purchasing.{is_vendor}
use backhaus_ai_backend.Vendors.{VendorInput, VendorFields, validate_vendor}
use backhaus_ai_backend.Vendors.Records.{has_name, new_vendor, edited_vendor, create, update}

module _ (lower : String → String) where
  -- Two vendors of a workspace with one identifier, or with one name but for its case.
  abbrev clash : Vendor → Vendor → Bool
  clash a b =
      str_eq a.workspace b.workspace && (a.id == b.id || str_eq (lower a.name) (lower b.name))

  -- The primary key of vendors, and the names as `create` and `update` compare them.
  abbrev pub IsRegister : List Vendor → Type 0
  IsRegister vs = Pairs (λ a b. clash a b ≡ false) vs

  new_apart :
      (now id : ℕ) (ws : String) (f : VendorFields) (x : Vendor)
      → has_name lower ws f.name x ≡ false
      → (x.id == id) ≡ false
      → clash x (new_vendor now id ws f) ≡ false
  unfolding new_vendor
  new_apart now id ws f x free fresh = ground arith

  edited_apart :
      (now id : ℕ) (ws : String) (f : VendorFields) (a b : Vendor)
      → (has_name lower ws f.name a && not (a.id == id)) ≡ false
      → (has_name lower ws f.name b && not (b.id == id)) ≡ false
      → clash a b ≡ false
      → clash
          (if is_vendor ws id a then edited_vendor now f a else a)
          (if is_vendor ws id b then edited_vendor now f b else b)
        ≡ false
  edited_apart now id ws f a b free_a free_b c =
      elim (Bool-cases (str_eq a.workspace b.workspace)) [
        | inl e ↦
            let w : str_eq a.workspace ws ≡ str_eq b.workspace ws =
              ap (λ x. str_eq x ws) ((eq_iff a.workspace b.workspace).0 e) in
            let turn : str_eq (lower f.name) (lower b.name) ≡ str_eq (lower b.name) (lower f.name) =
              str_eq_comm (lower f.name) (lower b.name) in
            unfold edited_vendor in ground (arith, e, w, turn)
        | inr e ↦ unfold edited_vendor in ground (arith, e)
      ]

module _ (lower : String → String) (show_id : ℕ → String) where
  -- A new supplier, under an identifier that no supplier has, keeps the names of the workspace
  -- unique but for their case, when no call writes the vendors between its look at the names and its
  -- insert.
  pub create-IsRegister :
      (now id : ℕ) (ws : String) (input : VendorInput) (v : Vendor) (seen db db' : Db)
      → seen.vendors ≡ db.vendors
      → any_row (λ x. x.id == id) db.vendors ≡ false
      → IsRegister lower db.vendors
      → create lower show_id now id ws input seen db ≡ ok (v, db')
      → IsRegister lower db'.vendors
  unfolding create
  create-IsRegister now id ws input v seen db db' still fresh h e =
      elim (Result-cases (validate_vendor input)) [
        | inl (f, valid) ↦
            let rows : db.vendors ++ new_vendor now id ws f ∷ [] ≡ db'.vendors =
              ground (arith, valid) in
            let free : any_row (has_name lower ws f.name) db.vendors ≡ false =
              subst (λ vs. any_row (has_name lower ws f.name) vs ≡ false) still
                (ground (arith, valid)) in
            subst (IsRegister lower) rows (
              Pairs-append (λ a b. clash lower a b ≡ false) db.vendors (new_vendor now id ws f) h
                (All-of_mem db.vendors (λ x m.
                  new_apart lower now id ws f x (any_row-mem _ db.vendors free m)
                    (any_row-mem _ db.vendors fresh m))))
        | inr (_, bad) ↦ absurd (ground (arith, bad))
      ]

  -- An edit keeps the names of the workspace unique but for their case, when no call writes the vendors
  -- between its look at the names and its write.
  pub update-IsRegister :
      (show : ℕ → String) (now id : ℕ) (ws : String) (input : VendorInput) (v : Vendor)
      (seen db db' : Db)
      → seen.vendors ≡ db.vendors
      → IsRegister lower db.vendors
      → update lower show_id show now id ws input seen db ≡ ok (v, db')
      → IsRegister lower db'.vendors
  unfolding update
  update-IsRegister show now id ws input v seen db db' still h e =
      elim (Result-cases (validate_vendor input)) [
        | inl (f, valid) ↦
            let rows : update_rows (is_vendor ws id) (edited_vendor now f) db.vendors
                ≡ db'.vendors =
              ground (arith, valid) in
            let free : any_row (λ x. has_name lower ws f.name x && not (x.id == id)) db.vendors
                ≡ false =
              subst (λ vs. any_row (λ x. has_name lower ws f.name x && not (x.id == id)) vs ≡ false)
                still (ground (arith, valid)) in
            subst (IsRegister lower) rows (
              Pairs-update_rows (λ a b. clash lower a b ≡ false) (is_vendor ws id)
                (edited_vendor now f) db.vendors
                (λ a b m n c.
                  edited_apart lower now id ws f a b (any_row-mem _ db.vendors free m)
                    (any_row-mem _ db.vendors free n) c)
                h)
        | inr (_, bad) ↦ absurd (ground (arith, bad))
      ]
