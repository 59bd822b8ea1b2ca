-- ===== src/Settings/Tests.antt =====
-- The theorem on the settings at a concrete input.
use backhaus_ai_backend.Base.{◌≡◌, refl, true, List, []}
use backhaus_ai_backend.Base.Result.{ok, err, conflict}
use backhaus_ai_backend.Base.Text.{trim}
use backhaus_ai_backend.Settings.{SettingsInput, SettingsRow, validate_settings, save}
use backhaus_ai_backend.Settings.Saved.{settings_not_overwritten}

abbrev first_input : SettingsInput
first_input = record {
  business_name = " Cafe ";
  city = "Lagos";
  country = "Nigeria";
  reply_to = "a@b.c";
  auto_reply = true;
  version = 0;
}

abbrev first_rows : List SettingsRow
first_rows = elim (save 5 "w" first_input []) [ ok rows ↦ rows | err _ ↦ [] ]

first_ok : save 5 "w" first_input [] ≡ ok first_rows
unfolding save validate_settings trim
first_ok = refl

input_valid : validate_settings first_input ≡ ok tt
unfolding validate_settings trim
input_valid = refl

settings_not_overwritten_example : save 9 "w" first_input first_rows ≡ err conflict
settings_not_overwritten_example =
    settings_not_overwritten 5 9 "w" first_input first_input [] first_rows first_ok input_valid refl
