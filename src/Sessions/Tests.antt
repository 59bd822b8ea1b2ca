-- ===== src/Sessions/Tests.antt =====
-- The theorems on sessions at concrete inputs.
use backhaus_ai_backend.Base.{
  ℕ, ◌+◌, ◌≡◌, refl, true, Option, none, some, [], ◌∷◌, String, ltb, arith,
}
use backhaus_ai_backend.Base.Text.{trim}
use backhaus_ai_backend.Sessions.{
  Headers, Uri, Login, Credentials, Reply, token, same_origin, valid, sign_in, sign_out, ttl,
}
use backhaus_ai_backend.Sessions.Requests.{sign_in_valid}
use backhaus_ai_backend.Sessions.Bounds.{IsBounded, signs_in, Request-IsBounded}

abbrev as_is : String → String
as_is s = s

abbrev shown : ℕ → String
shown _ = "28800"

abbrev no_uri : String → Option Uri
no_uri _ = none

abbrev login : Login
login = record { email = "a@b"; password_hash = "pw"; sessions = ("old", 3) ∷ [] }

abbrev given : Credentials
given = record { email = " a@b "; password = "pw" }

abbrev dashboard : Headers
dashboard = record { origin = some "https://d"; cookie = none }

abbrev later_request : Headers
later_request = record {
  origin = some "https://d";
  cookie = some "theme=dark; backhaus_session=t1";
}

abbrev after : Reply × Option Login
after = sign_in as_is as_is shown no_uri 5 "t1" "https://d" dashboard given (some login)

abbrev signed_in : Login
signed_in = elim after.1 [ some l ↦ l | none ↦ login ]

sign_in_ok :
    sign_in as_is as_is shown no_uri 5 "t1" "https://d" dashboard given (some login)
    ≡ (after.0, some signed_in)
unfolding sign_in trim
sign_in_ok = refl

answer_ok : after.0.status ≡ 200
unfolding sign_in trim
answer_ok = refl

carries : token later_request ≡ some "t1"
unfolding token trim
carries = refl

same_place_ok : same_origin no_uri later_request "https://d" ≡ true
unfolding same_origin
same_place_ok = refl

sign_in_valid_example : (valid 9 later_request signed_in).0 ≡ ltb 9 (5 + ttl)
sign_in_valid_example =
    sign_in_valid as_is as_is shown no_uri 5 9 "t1" "https://d" dashboard later_request given login
      signed_in after.0 sign_in_ok answer_ok carries

abbrev left : Reply × Option Login
left = sign_out as_is as_is shown no_uri "https://d" later_request (some signed_in)

abbrev signed_out : Login
signed_out = elim left.1 [ some l ↦ l | none ↦ login ]

sign_out_ok :
    sign_out as_is as_is shown no_uri "https://d" later_request (some signed_in)
    ≡ (left.0, some signed_out)
unfolding sign_out
sign_out_ok = refl

Request-IsBounded_example : IsBounded after.1
Request-IsBounded_example =
    Request-IsBounded as_is as_is shown no_uri (signs_in 5 "t1" "https://d" dashboard given)
      one_session
  where
    one_session : IsBounded (some login)
    one_session = omega arith
