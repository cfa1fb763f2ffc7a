-- ===== src/Auth/Token.antt =====
-- Access tokens (app/auth/service.py) and challenge tokens (app/auth/mfa.py). The JWT library is
-- the parameter `Jwt`: it signs a set of claims and gives them back while they are valid.
pub mod Laws
use oss_us_web_design_system.Base.{
  ℕ, ◌+◌, ◌*◌, ◌/◌, ◌<◌, ◌≤◌, ◌≡◌, ◌≢◌, [], String, Text, Bool, true, false, Option, none, some,
  Result, ok, err, is_some, if◌then◌else◌, ◌||◌, not,
}
use oss_us_web_design_system.Auth.User.{User}
use oss_us_web_design_system.Auth.Lockout.{minutes}

-- The claims that the program writes; a claim that is left out is `none`. The subject is the user's
-- id, which the program writes by `str` and reads back by `int`.
pub record Claims : Type 0 where
  pub sub : Option ℕ
  pub exp : Option ℕ
  pub iat : Option ℕ
  pub email : Option String
  pub mfa_pending : Option Bool

-- PyJWT. A token decodes, under the secret that signed it, to its claims, from the second in which
-- it was issued until its expiry, and an expired one does
-- not. What decodes is what was signed. A token is not the empty text.
pub record Jwt : Type 0 where
  pub encode : Claims → String → Text
  pub decode : ℕ → Text → String → Option Claims
  pub decode-encode :
      (now iat exp : ℕ) (c : Claims) (secret : String)
      → c.iat ≡ some iat
      → c.exp ≡ some exp
      → iat * 1_000_000 ≤ now
      → now < exp * 1_000_000
      → decode now (encode c secret) secret ≡ some c
  pub decode_expired :
      (now exp : ℕ) (c : Claims) (secret : String)
      → c.exp ≡ some exp
      → exp * 1_000_000 ≤ now
      → decode now (encode c secret) secret ≡ none
  pub decode_signed :
      (now : ℕ) (c d : Claims) (secret : String)
      → decode now (encode c secret) secret ≡ some d
      → d ≡ c
  pub encode_nonempty : (c : Claims) (secret : String) → encode c secret ≢ []

-- The settings that tokens depend on (app/config.py).
pub record TokenSettings : Type 0 where
  pub jwt_secret : String
  pub jwt_access_token_ttl_minutes : ℕ
  pub mfa_challenge_token_ttl_minutes : ℕ

-- `JWTPayload`.
pub record JwtPayload : Type 0 where
  pub sub : ℕ
  pub exp : ℕ
  pub iat : ℕ
  pub email : String

-- `int(t.timestamp())`.
abbrev pub timestamp : ℕ → ℕ
timestamp t = t / 1_000_000

abbrev pub get_or {ℓ} : {A : Type ℓ} → Option A → A → A
get_or none d = d
get_or (some a) _ = a

module _ (jwt : Jwt) (s : TokenSettings) where
  unfoldable pub access_claims : ℕ → User → Claims
  access_claims now user = record {
    sub = some user.id;
    exp = some (timestamp (now + minutes s.jwt_access_token_ttl_minutes));
    iat = some (timestamp now);
    email = some user.email;
    mfa_pending = none;
  }

  unfoldable pub issue_access_token : ℕ → User → Text
  unfolding access_claims
  issue_access_token now user = jwt.encode (access_claims now user) s.jwt_secret

  -- `none` is `AuthError`.
  unfoldable pub decode_token : ℕ → Text → Option JwtPayload
  decode_token now token = elim (jwt.decode now token s.jwt_secret) [
    | none ↦ none
    | some c ↦ elim c.sub [
      | none ↦ none
      | some sub ↦ elim c.exp [
        | none ↦ none
        | some exp ↦
            some (record { sub = sub; exp = exp; iat = get_or c.iat 0; email = get_or c.email "" })
      ]
    ]
  ]

  unfoldable pub challenge_claims : ℕ → User → Claims
  challenge_claims now user = record {
    sub = some user.id;
    exp = some (timestamp (now + minutes s.mfa_challenge_token_ttl_minutes));
    iat = some (timestamp now);
    email = none;
    mfa_pending = some true;
  }

  unfoldable pub issue_challenge_token : ℕ → User → Text
  unfolding challenge_claims
  issue_challenge_token now user = jwt.encode (challenge_claims now user) s.jwt_secret

  -- `none` is `InvalidChallengeToken`.
  unfoldable pub decode_challenge_token : ℕ → Text → Option ℕ
  decode_challenge_token now token = elim (jwt.decode now token s.jwt_secret) [
    | none ↦ none
    | some c ↦ if not (get_or c.mfa_pending false) then none else c.sub
  ]
