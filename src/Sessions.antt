-- ===== src/Sessions.antt =====
-- src/auth.rs: the shared login and its sessions. The mutex makes each request one step on the map
-- of sessions, which is a list of tokens with the times that they expire at.
pub mod Requests
pub mod Bounds
mod Tests
use Prim.Native.String.{◌++◌ as str_append}
use backhaus_ai_backend.Base.{
  ℕ, ◌+◌, ◌*◌, Bool, true, false, not, ◌&&◌, ◌||◌, Option, none, some, List, [], ◌∷◌, String,
  str_eq, ltb, leb, ◌==◌, if◌then◌else◌, any_row, rows_where, delete_rows, length,
}
use backhaus_ai_backend.Base.Json.{Json, string, boolean, object, field, end}
use backhaus_ai_backend.Base.Text.{trim, split_on, strip_prefix, starts_with}

-- The headers that are read: `Origin` and `Cookie`, where they are texts.
pub record Headers : Type 0 where
  pub origin : Option String
  pub cookie : Option String

-- What is read of `axum::http::Uri`.
pub record Uri : Type 0 where
  pub scheme : Option String
  pub host : Option String
  pub port : Option ℕ

pub record Login : Type 0 where
  pub email : String
  pub password_hash : String
  pub sessions : List (String × ℕ)

pub record Credentials : Type 0 where
  pub email : String
  pub password : String

pub record Reply : Type 0 where
  pub status : ℕ
  pub body : Json
  pub cookie : Option String

-- TTL in microseconds
abbrev pub ttl : ℕ
ttl = 8 * 60 * 60 * 1000000

-- The first part of the cookie header that names the session.
abbrev pub session_of : List String → Option String
session_of [] = none
session_of (part ∷ parts) = elim (strip_prefix "backhaus_session=" (trim part)) [
  | some value ↦ some value
  | none ↦ session_of parts
]

unfoldable pub token : Headers → Option String
token h = elim h.cookie [ none ↦ none | some c ↦ session_of (split_on 59 c) ]

abbrev is_local : Option String → Bool
is_local none = false
is_local (some host) = str_eq host "localhost" || str_eq host "127.0.0.1"

abbrev same_text : Option String → Option String → Bool
same_text none none = true
same_text (some a) (some b) = str_eq a b
same_text _ _ = false

abbrev same_port : Option ℕ → Option ℕ → Bool
same_port none none = true
same_port (some a) (some b) = a == b
same_port _ _ = false

abbrev same_place : Uri → Uri → Bool
same_place a b =
    is_local a.host && is_local b.host && same_text a.scheme b.scheme && same_port a.port b.port

-- `parse` is that of `axum::http::Uri`.
unfoldable pub same_origin : (String → Option Uri) → Headers → String → Bool
same_origin parse h configured = elim h.origin [
  | none ↦ false
  | some origin ↦ if str_eq origin configured then true else (elim (parse origin) [
    | none ↦ false
    | some actual ↦ elim (parse configured) [
      | none ↦ false
      | some expected ↦ same_place actual expected
    ]
  ])
]

abbrev pub live : ℕ → String × ℕ → Bool
live now s = ltb now s.1

abbrev pub is_token : String → String × ℕ → Bool
is_token value s = str_eq s.0 value

-- `sessions.retain(…)`
unfoldable pub retain : ℕ → List (String × ℕ) → List (String × ℕ)
retain now sessions = rows_where (live now) sessions

abbrev has_session : Option String → List (String × ℕ) → Bool
has_session none sessions = false
has_session (some value) sessions = any_row (is_token value) sessions

-- `Login::valid`: the answer, and the login with its expired sessions gone.
unfoldable pub valid : ℕ → Headers → Login → Bool × Login
unfolding retain token
valid now h login =
    let kept = retain now login.sessions in
    (has_session (token h) kept, record login { sessions = kept })

abbrev failure : ℕ → String → Reply
failure status text = record {
  status = status;
  body = object (field "error" (string text) end);
  cookie = none;
}

-- `sessions.remove(…)` of the token that the request carries
abbrev pub forget : Option String → List (String × ℕ) → List (String × ℕ)
forget none sessions = sessions
forget (some value) sessions = delete_rows (is_token value) sessions

-- `HashMap::insert`
abbrev pub remember : String → ℕ → List (String × ℕ) → List (String × ℕ)
remember value expires sessions = (value, expires) ∷ delete_rows (is_token value) sessions

-- `lower` is `to_lowercase`, `digest` is SHA-256, `show` prints a number.
module _ (lower digest : String → String) (show : ℕ → String) (parse : String → Option Uri) where
  unfoldable pub new : String → String → Login
  new email password = record {
    email = lower (trim email);
    password_hash = digest password;
    sessions = [];
  }

  unfoldable pub cookie : String → ℕ → String → String
  cookie value age origin = str_append "backhaus_session=" (
      str_append value (
        str_append "; Path=/; HttpOnly; SameSite=Strict; Max-Age="
          (str_append (show age) (if starts_with "https://" origin then "; Secure" else ""))))

  -- The digests of what is given are those of the login.
  abbrev pub matches : Credentials → Login → Bool
  matches input login =
      str_eq (digest (lower (trim input.email))) (digest login.email)
      && str_eq (digest input.password) login.password_hash

  -- What follows the check of the credentials; `value` is the new token.
  unfoldable pub open_session : ℕ → String → String → Headers → Login → Reply × Login
  unfolding retain token cookie
  open_session now value origin h login =
      let kept = retain now login.sessions in
      if leb 1000 (length kept)
      then (failure 429 "Too many sessions. Try again later.", record login { sessions = kept })
      else (
        record {
          status = 200;
          body =
              object
                (field "authenticated" (boolean true) (field "email" (string login.email) end));
          cookie = some (cookie value 28800 origin);
        },
        record login { sessions = remember value (now + ttl) (forget (token h) kept) },
      )

  unfoldable pub sign_in :
      ℕ → String → String → Headers → Credentials → Option Login → Reply × Option Login
  unfolding same_origin open_session
  sign_in now value origin h input none = (
    if same_origin parse h origin
        then failure 503 "Sign-in credentials are not configured on the server."
        else failure 403 "Sign in from the dashboard.",
    none,
  )
  sign_in now value origin h input (some login) =
      let opened = open_session now value origin h login in
      if same_origin parse h origin
      then (if matches input login
          then (opened.0, some opened.1)
          else (failure 401 "Email or password is incorrect.", some login))
      else (failure 403 "Sign in from the dashboard.", some login)

  unfoldable pub session : ℕ → Headers → Option Login → Reply × Option Login
  unfolding valid
  session now h none = (
    record {
      status = 200;
      body = object (field "authenticated" (boolean false) end);
      cookie = none;
    },
    none,
  )
  session now h (some login) =
      let v = valid now h login in
      (
        record {
          status = 200;
          body = object (field "authenticated" (boolean v.0) end);
          cookie = none;
        },
        some v.1,
      )

  unfoldable pub sign_out : String → Headers → Option Login → Reply × Option Login
  unfolding same_origin token cookie
  sign_out origin h login =
      let done : Reply = record {
        status = 200;
        body = object (field "authenticated" (boolean false) end);
        cookie = some (cookie "" 0 origin);
      } in
      if same_origin parse h origin
      then (
        done,
        elim login [
          | none ↦ none
          | some l ↦ some (record l { sessions = forget (token h) l.sessions })
        ],
      )
      else (failure 403 "Sign out from the dashboard.", login)
