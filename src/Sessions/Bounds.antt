-- ===== src/Sessions/Bounds.antt =====
-- The number of sessions stays bounded.
use backhaus_ai_backend.Base.{
  ℕ, ◌≤◌, ◌≡◌, Bool, false, Option, none, some, List, [], ◌∷◌, String, arith, rows_where,
  delete_rows, length, Bool-cases, inl, inr, leb,
}
use backhaus_ai_backend.Sessions.{
  Headers, Uri, Login, Credentials, retain, live, is_token, valid, sign_in, sign_out, open_session,
  matches, same_origin, session, forget, token,
}

module _ {ℓ} {A : Type ℓ} where
  length-rows_where : (p : A → Bool) (xs : List A) → length (rows_where p xs) ≤ length xs
  length-rows_where p [] = omega arith
  length-rows_where p (x ∷ xs) = ground (arith, length-rows_where p xs)

  length-delete_rows : (p : A → Bool) (xs : List A) → length (delete_rows p xs) ≤ length xs
  length-delete_rows p [] = omega arith
  length-delete_rows p (x ∷ xs) = ground (arith, length-delete_rows p xs)

length-forget : (t : Option String) (xs : List (String × ℕ)) → length (forget t xs) ≤ length xs
length-forget none xs = omega arith
length-forget (some value) xs = length-delete_rows (is_token value) xs

-- A login without sessions, or with a thousand at most.
abbrev pub IsBounded : Option Login → Type 0
IsBounded none = Unit
IsBounded (some l) = length l.sessions ≤ 1000

module _ (lower digest : String → String) (show : ℕ → String) (parse : String → Option Uri) where
  -- One request of any kind, at any time.
  pub data Request (login : Option Login) : Option Login → Type 0 where
    signs_in :
        (now : ℕ) (value origin : String) (h : Headers) (input : Credentials)
        → Request login (sign_in lower digest show parse now value origin h input login).1
    asks : (now : ℕ) (h : Headers) → Request login (session lower digest show parse now h login).1
    signs_out :
        (origin : String) (h : Headers)
        → Request login (sign_out lower digest show parse origin h login).1

  kept_small :
      (now : ℕ) (l : Login) → length l.sessions ≤ 1000 → length (retain now l.sessions) ≤ 1000
  unfolding retain
  kept_small now l b = omega (arith, length-rows_where (live now) l.sessions)

  opened_small :
      (now : ℕ) (value origin : String) (h : Headers) (l : Login)
      → length l.sessions ≤ 1000
      → length (open_session lower digest show parse now value origin h l).1.sessions ≤ 1000
  unfolding open_session
  opened_small now value origin h l b =
      elim (Bool-cases (leb 1000 (length (retain now l.sessions)))) [
        | inl full ↦ rw full (kept_small now l b)
        | inr room ↦ rw room (
            omega (
              arith,
              length-delete_rows (is_token value) (forget (token h) (retain now l.sessions)),
              length-forget (token h) (retain now l.sessions),
              below room,
            ))
      ]
    where
      below :
          leb 1000 (length (retain now l.sessions)) ≡ false → length (retain now l.sessions) ≤ 999
      below room = ground (arith, room)

  -- No request, whatever it carries, brings the sessions above a thousand.
  pub Request-IsBounded :
      {login login' : Option Login} → Request login login' → IsBounded login → IsBounded login'
  Request-IsBounded {login = none} (signs_in now value origin h input) b = unfold sign_in in tt
  Request-IsBounded {login = some l} (signs_in now value origin h input) b =
      elim (Bool-cases (same_origin parse h origin)) [
        | inl o ↦ elim (Bool-cases (matches lower digest show parse input l)) [
          | inl m ↦ unfold sign_in in rw (o, m) (opened_small now value origin h l b)
          | inr m ↦ unfold sign_in in rw (o, m) b
        ]
        | inr o ↦ unfold sign_in in rw o b
      ]
  Request-IsBounded {login = none} (asks now h) b = unfold session in tt
  Request-IsBounded {login = some l} (asks now h) b = unfold session valid in kept_small now l b
  Request-IsBounded {login = none} (signs_out origin h) b =
      elim (Bool-cases (same_origin parse h origin)) [
        | inl o ↦ unfold sign_out in rw o tt
        | inr o ↦ unfold sign_out in rw o tt
      ]
  Request-IsBounded {login = some l} (signs_out origin h) b =
      elim (Bool-cases (same_origin parse h origin)) [
        | inl o ↦ unfold sign_out in rw o (omega (arith, length-forget (token h) l.sessions))
        | inr o ↦ unfold sign_out in rw o b
      ]
