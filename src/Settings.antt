-- ===== src/Settings.antt =====
-- src/settings.rs: the settings of a business, read and saved. The table business_settings is a list of rows
-- of its own, which the outreach reads too.
pub mod Saved
mod Tests
use Prim.Native.String.{len}
use backhaus_ai_backend.Base.{
  ℕ, ◌+◌, Bool, true, false, not, ◌&&◌, ◌||◌, Option, none, some, List, [], ◌∷◌, ◌++◌, String,
  str_eq, ltb, ◌==◌, any_row, find_row, count_rows, update_rows, if◌then◌else◌,
}
use backhaus_ai_backend.Base.Result.{Result, ok, err, invalid, conflict, ◌>>=◌, ◌>>◌, fail_if}
use backhaus_ai_backend.Base.Text.{trim, is_empty, starts_with, any_char, is_whitespace}

pub record SettingsInput : Type 0 where
  pub business_name : String
  pub city : String
  pub country : String
  pub reply_to : String
  pub auto_reply : Bool
  pub version : ℕ

pub record SettingsRow : Type 0 where
  pub workspace : String
  pub business_name : String
  pub city : String
  pub country : String
  pub reply_to : String
  pub auto_reply : Bool
  pub version : ℕ
  pub updated_at : ℕ

-- '<', '>', '\r' and '\n'
abbrev is_refused : ℕ → Bool
is_refused c = c == 60 || c == 62 || c == 13 || c == 10

unfoldable pub validate_settings : SettingsInput → Result (Unit {0})
validate_settings input = do
  fail_if
      (is_empty (trim input.business_name)
        || ltb 120 (len input.business_name)
        || ltb 100 (len input.city)
        || ltb 100 (len input.country)
        || ltb 200 (len input.reply_to))
      invalid
  fail_if
      (not (is_empty input.reply_to)
        && (not (any_char (λ c. c == 64) input.reply_to)
            || any_char is_whitespace input.reply_to
            || any_char is_refused input.reply_to))
      invalid

abbrev pub has_settings : String → SettingsRow → Bool
has_settings ws r = str_eq r.workspace ws

abbrev pub at_version : String → ℕ → SettingsRow → Bool
at_version ws version r = str_eq r.workspace ws && r.version == version

unfoldable pub new_settings : ℕ → String → SettingsInput → SettingsRow
new_settings now ws input = record {
  workspace = ws;
  business_name = trim input.business_name;
  city = trim input.city;
  country = trim input.country;
  reply_to = trim input.reply_to;
  auto_reply = input.auto_reply;
  version = 1;
  updated_at = now;
}

unfoldable pub edited_settings : ℕ → SettingsInput → SettingsRow → SettingsRow
edited_settings now input r = record r {
  business_name = trim input.business_name;
  city = trim input.city;
  country = trim input.country;
  reply_to = trim input.reply_to;
  auto_reply = input.auto_reply;
  version = r.version + 1;
  updated_at = now;
}

-- The update of the row at the version of the input.
unfoldable pub edit_settings :
    ℕ → String → SettingsInput → List SettingsRow → Result (List SettingsRow)
unfolding edited_settings
edit_settings now ws input rows = do
  fail_if (count_rows (at_version ws input.version) rows == 0) conflict
  ok (update_rows (at_version ws input.version) (edited_settings now input) rows)

-- The insert takes effect for version 0 where there is no row, else the update.
unfoldable pub save : ℕ → String → SettingsInput → List SettingsRow → Result (List SettingsRow)
unfolding validate_settings new_settings edit_settings
save now ws input rows = do
  validate_settings input
  (if input.version == 0 && not (any_row (has_settings ws) rows)
      then ok (rows ++ new_settings now ws input ∷ [])
      else edit_settings now ws input rows)

-- What `get` answers with: the row or the defaults, and what follows from the configuration.
pub record SettingsView : Type 0 where
  pub business_name : String
  pub city : String
  pub country : String
  pub reply_to : String
  pub auto_reply : Bool
  pub version : ℕ
  pub email_configured : Bool
  pub email_from : Option String
  pub search_configured : Bool
  pub location_ready : Bool

abbrev is_set : Option String → Bool
is_set none = false
is_set (some _) = true

abbrev searches_at : Option String → Bool
searches_at none = false
searches_at (some url) = starts_with "https://openrouter.ai/" url

unfoldable pub default_settings : String → SettingsRow
default_settings ws = record {
  workspace = ws;
  business_name = "Backhaus";
  city = "";
  country = "";
  reply_to = "";
  auto_reply = true;
  version = 0;
  updated_at = 0;
}

-- `key`, `from`, `url` and `model_key` are those of the configuration.
unfoldable pub get :
    Option String
    → Option String
    → Option String
    → String
    → String
    → List SettingsRow
    → SettingsView
unfolding default_settings
get key from url model_key ws rows =
    let s : SettingsRow = elim (find_row (has_settings ws) rows) [
      | none ↦ default_settings ws
      | some r ↦ r
    ] in
    record {
      business_name = s.business_name;
      city = s.city;
      country = s.country;
      reply_to = s.reply_to;
      auto_reply = s.auto_reply;
      version = s.version;
      email_configured = is_set key && is_set from;
      email_from = from;
      search_configured = searches_at url && not (is_empty model_key);
      location_ready = not (is_empty s.city) && not (is_empty s.country);
    }
