-- ===== src/Sessions/Requests.antt =====
-- The life of a session: from the sign-in, by the token of its cookie, to the sign-out.
use backhaus_ai_backend.Base.{
  ℕ, ◌+◌, ◌≡◌, refl, ◌↔◌, true, false, Option, some, List, [], ◌∷◌, String, ltb, leb, arith,
  any_row, delete_rows, length, Bool-cases, inl, inr,
}
use backhaus_ai_backend.Base.Text.{str_eq_refl}
use backhaus_ai_backend.Sessions.{
  Headers, Uri, Login, Credentials, Reply, token, same_origin, retain, live, is_token, valid,
  matches, sign_in, sign_out, ttl, forget,
}

gone :
    (now : ℕ) (value : String) (xs : List (String × ℕ))
    → any_row (is_token value) (retain now (delete_rows (is_token value) xs)) ≡ false
unfolding retain
gone now value [] = refl
gone now value (x ∷ xs) = elim (Bool-cases (is_token value x)) [
  | inl e ↦ rw e (gone now value xs)
  | inr e ↦ elim (Bool-cases (live now x)) [
    | inl l ↦ ground (arith, e, l, gone now value xs)
    | inr l ↦ ground (arith, e, l, gone now value xs)
  ]
]

module _ (lower digest : String → String) (show : ℕ → String) (parse : String → Option Uri) where
  -- A sign-in succeeds exactly when it comes from the dashboard, the digests of its credentials are
  -- those of the login, and fewer than a thousand sessions are live.
  pub sign_in_iff :
      (now : ℕ) (value origin : String) (h : Headers) (input : Credentials) (login : Login)
      → ((sign_in lower digest show parse now value origin h input (some login)).0.status ≡ 200) ↔ (
          (same_origin parse h origin ≡ true)
          × (matches lower digest show parse input login ≡ true)
          × (leb 1000 (length (retain now login.sessions)) ≡ false))
  unfolding sign_in
  sign_in_iff now value origin h input login = ground arith

  -- When nothing comes between, a request that carries the token of a sign-in that succeeded is let in
  -- exactly for the eight hours after it.
  pub sign_in_valid :
      (now later : ℕ) (value origin : String) (h h' : Headers) (input : Credentials)
      (login login' : Login) (r : Reply)
      → sign_in lower digest show parse now value origin h input (some login) ≡ (r, some login')
      → r.status ≡ 200
      → token h' ≡ some value
      → (valid later h' login').0 ≡ ltb later (now + ttl)
  unfolding sign_in
  sign_in_valid now later value origin h h' input login login' r e s t =
      let rows : login'.sessions
          ≡ (value, now + ttl)
            ∷ delete_rows (is_token value) (forget (token h) (retain now login.sessions)) =
        ground arith in
      elim (Bool-cases (ltb later (now + ttl))) [
        | inl l ↦ unfold valid retain in ground (arith, rows, t, l, str_eq_refl value)
        | inr l ↦
            let none_left = gone later value (forget (token h) (retain now login.sessions)) in
            unfold valid retain in ground (arith, rows, t, l, none_left)
      ]

  -- Once a request from the dashboard has signed out with a token, no request with that token is let
  -- in.
  pub sign_out_ends :
      (later : ℕ) (value origin : String) (h h' : Headers) (login login' : Login) (r : Reply)
      → sign_out lower digest show parse origin h (some login) ≡ (r, some login')
      → same_origin parse h origin ≡ true
      → token h ≡ some value
      → token h' ≡ some value
      → (valid later h' login').0 ≡ false
  unfolding sign_out
  sign_out_ends later value origin h h' login login' r e o t t' =
      let rows : login'.sessions ≡ delete_rows (is_token value) login.sessions = ground arith in
      let none_left = gone later value login.sessions in
      unfold valid retain in ground (arith, rows, t', none_left)
