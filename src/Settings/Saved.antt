-- ===== src/Settings/Saved.antt =====
-- No save of the settings overwrites another unseen.
use backhaus_ai_backend.Base.{
  ℕ, ◌≡◌, refl, subst, inl, inr, Bool, true, false, not, ◌&&◌, List, [], ◌∷◌, ◌++◌, String, ◌==◌,
  any_row, count_rows, update_rows, arith, Bool-cases, any_row-update_rows-false, count_rows-none,
}
use backhaus_ai_backend.Base.Text.{str_eq_refl}
use backhaus_ai_backend.Base.Result.{ok, err, conflict}
use backhaus_ai_backend.Settings.{
  SettingsInput, SettingsRow, validate_settings, has_settings, at_version, new_settings,
  edited_settings, save,
}

any_row-append :
    (p : SettingsRow → Bool) (xs : List SettingsRow) (y : SettingsRow)
    → p y ≡ false
    → any_row p xs ≡ false
    → any_row p (xs ++ y ∷ []) ≡ false
any_row-append p [] y h k = ground arith
any_row-append p (x ∷ xs) y h k = ground (arith, any_row-append p xs y h)

any_row-append_last :
    (p : SettingsRow → Bool) (xs : List SettingsRow) (y : SettingsRow)
    → p y ≡ true
    → any_row p (xs ++ y ∷ []) ≡ true
any_row-append_last p [] y h = ground arith
any_row-append_last p (x ∷ xs) y h = ground (arith, any_row-append_last p xs y h)

not_at :
    (ws : String) (v : ℕ) (xs : List SettingsRow)
    → any_row (has_settings ws) xs ≡ false
    → any_row (at_version ws v) xs ≡ false
not_at ws v [] h = refl
not_at ws v (x ∷ xs) h = ground (arith, not_at ws v xs)

-- An update of rows that are there leaves the workspace with a row.
still_there :
    (now : ℕ) (ws : String) (v : ℕ) (input : SettingsInput) (xs : List SettingsRow)
    → (count_rows (at_version ws v) xs == 0) ≡ false
    → any_row (has_settings ws) (update_rows (at_version ws v) (edited_settings now input) xs)
      ≡ true
unfolding edited_settings
still_there now ws v input [] h = ground arith
still_there now ws v input (x ∷ xs) h = elim (Bool-cases (at_version ws v x)) [
  | inl e ↦ rw e (ground (arith, e))
  | inr e ↦ rw e (ground (arith, e, still_there now ws v input xs))
]

-- A save that succeeds leaves no row of the workspace at the version that it was made from, and
-- leaves a row: another save from that version is a conflict.
pub settings_not_overwritten :
    (now later : ℕ) (ws : String) (input again : SettingsInput) (rows saved : List SettingsRow)
    → save now ws input rows ≡ ok saved
    → validate_settings again ≡ ok tt
    → again.version ≡ input.version
    → save later ws again saved ≡ err conflict
unfolding save
settings_not_overwritten now later ws input again rows saved h valid v =
    elim (Bool-cases (input.version == 0 && not (any_row (has_settings ws) rows))) [
      | inl first ↦
          let rows_are : rows ++ new_settings now ws input ∷ [] ≡ saved = ground (arith, first) in
          let there : any_row (has_settings ws) saved ≡ true =
            subst (λ xs. any_row (has_settings ws) xs ≡ true) rows_are
              (any_row-append_last (has_settings ws) rows _
                (unfold new_settings in str_eq_refl ws)) in
          let gone : any_row (at_version ws again.version) saved ≡ false =
            subst (λ xs. any_row (at_version ws again.version) xs ≡ false) rows_are
              (any_row-append (at_version ws again.version) rows _
                (unfold new_settings in ground (arith, first, v))
                (not_at ws again.version rows (ground (arith, first)))) in
          ground (arith, valid, there, count_rows-none (at_version ws again.version) saved gone)
      | inr edit ↦
          let rows_are : update_rows (at_version ws input.version) (edited_settings now input) rows
              ≡ saved =
            ground (arith, edit) in
          let there : any_row (has_settings ws) saved ≡ true =
            subst (λ xs. any_row (has_settings ws) xs ≡ true) rows_are
              (still_there now ws input.version input rows (ground (arith, edit))) in
          let gone : any_row (at_version ws again.version) saved ≡ false =
            subst (λ xs. any_row (at_version ws again.version) xs ≡ false) rows_are
              (any_row-update_rows-false (at_version ws again.version) (at_version ws input.version)
                (edited_settings now input) rows
                (λ a hit. unfold edited_settings in ground (arith, v, hit))
                (λ a miss. ground (arith, v, miss))) in
          ground (arith, valid, there, count_rows-none (at_version ws again.version) saved gone)
    ]
