-- ===== src/Auth/Routes/Current.antt =====
-- The current user of a request.
use oss_us_web_design_system.Base.{
  ℕ, ◌≡◌, ◌≢◌, refl, Text, codes, true, false, Option, some, none, [], ◌∷◌, ◌++◌, ok, All, arith,
  inl, inr, is_space, split, split_from, push_word, Option-cases, lower, text_eq,
}
use oss_us_web_design_system.Auth.User.{User, AuthDb, get_user_by_id}
use oss_us_web_design_system.Auth.Lockout.{active}
use oss_us_web_design_system.Auth.Token.{Jwt, TokenSettings, decode_token, JwtPayload}
use oss_us_web_design_system.Auth.Routes.{
  get_current_user, request_token, extract_bearer_token, bearer_of,
}

split_from_word :
    (w s : Text)
    → All (λ c. is_space c ≡ false) w
    → split_from (w ++ 32 ∷ s) ≡ (w, push_word (split_from s).0 (split_from s).1)
unfolding split_from is_space
split_from_word [] s h = refl
split_from_word (c ∷ w) s h = rw (split_from_word w s h.1, h.0, split_from)

split_from_last : (w : Text) → All (λ c. is_space c ≡ false) w → split_from w ≡ (w, [])
unfolding split_from
split_from_last [] h = refl
split_from_last (c ∷ w) h = rw (split_from_last w h.1, h.0, split_from)

-- The scheme in any of its spellings, a space, and a token without white space.
extract_bearer_token-header :
    (scheme token : Text)
    → All (λ c. is_space c ≡ false) scheme
    → text_eq (lower scheme) (codes "bearer") ≡ true
    → All (λ c. is_space c ≡ false) token
    → token ≢ []
    → extract_bearer_token (some (scheme ++ 32 ∷ token)) ≡ some token
unfolding extract_bearer_token split push_word lower
extract_bearer_token-header [] token h b k ne = cc
extract_bearer_token-header (c ∷ w) [] h b k ne = absurd (ne refl)
extract_bearer_token-header (c ∷ w) (d ∷ t) h b k ne =
    rw (split_from_word (c ∷ w) (d ∷ t) h, split_from_last (d ∷ t) k, split) (rw (b, bearer_of))

module _ (jwt : Jwt) (s : TokenSettings) where
  -- Whoever is resolved as the current user is active and is the row of the subject of a token of
  -- the request that decodes; the tables are left as they were.
  get_current_user_active :
      (now : ℕ) (header cookie : Option Text) (db : AuthDb) {u : User}
      → (get_current_user jwt s now header cookie db).0 ≡ ok u
      → (u.is_active ≡ true)
        × ((t : Text) × (p : JwtPayload) × (request_token header cookie ≡ some t)
            × (decode_token jwt s now t ≡ some p)
            × (get_user_by_id p.sub db.users ≡ some u))
        × ((get_current_user jwt s now header cookie db).1 ≡ db)
  unfolding get_current_user active
  get_current_user_active now header cookie db {u} h =
      elim (Option-cases (request_token header cookie)) [
        | inl e ↦ absurd (ground arith)
        | inr (t, e) ↦ elim (Option-cases (decode_token jwt s now t)) [
          | inl d ↦ absurd (ground arith)
          | inr (p, d) ↦ elim (Option-cases (get_user_by_id p.sub db.users)) [
            | inl g ↦ absurd (ground arith)
            | inr (v, g) ↦ (ground arith, (t, p, e, d, ground arith), ground arith)
          ]
        ]
      ]

  pub current_of_cookie :
      (now : ℕ) (token : Text) (p : JwtPayload) (db : AuthDb) {u : User}
      → token ≢ []
      → decode_token jwt s now token ≡ some p
      → get_user_by_id p.sub db.users ≡ some u
      → u.is_active ≡ true
      → get_current_user jwt s now none (some token) db ≡ (ok u, db)
  unfolding get_current_user active
  current_of_cookie now [] p db ne d f on = absurd (ne refl)
  current_of_cookie now (c ∷ token) p db ne d f on = ground arith
