-- ===== src/Auth/Token/Laws.antt =====
-- Which token is accepted where.
use oss_us_web_design_system.Base.{
  ℕ, ◌+◌, ◌*◌, ◌<◌, ◌≤◌, ◌≡◌, refl, none, some, arith, Option-cases, inl, inr,
}
use oss_us_web_design_system.Auth.User.{User}
use oss_us_web_design_system.Auth.Lockout.{minutes}
use oss_us_web_design_system.Auth.Token.{
  Jwt, TokenSettings, timestamp, access_claims, issue_access_token, decode_token, challenge_claims,
  issue_challenge_token, decode_challenge_token,
}

module _ (jwt : Jwt) (s : TokenSettings) where
  -- An access token decodes to its user's id and email from its issue until its expiry, which is
  -- the whole second in which its minutes end.
  pub decode_token-issue_access_token :
      (issued now : ℕ) (user : User)
      → issued ≤ now
      → now < timestamp (issued + minutes s.jwt_access_token_ttl_minutes) * 1_000_000
      → decode_token jwt s now (issue_access_token jwt s issued user)
        ≡ some (record {
          sub = user.id;
          exp = timestamp (issued + minutes s.jwt_access_token_ttl_minutes);
          iat = timestamp issued;
          email = user.email;
        })
  unfolding decode_token issue_access_token
  decode_token-issue_access_token issued now user h k = rw (
    jwt.decode-encode now (timestamp issued)
        (timestamp (issued + minutes s.jwt_access_token_ttl_minutes))
        (access_claims jwt s issued user) s.jwt_secret refl refl (omega arith) k,
    decode_token,
  )

  -- A challenge token decodes to its user's id, as long as it has not expired.
  pub decode_challenge_token-issue_challenge_token :
      (issued now : ℕ) (user : User)
      → issued ≤ now
      → now < timestamp (issued + minutes s.mfa_challenge_token_ttl_minutes) * 1_000_000
      → decode_challenge_token jwt s now (issue_challenge_token jwt s issued user) ≡ some user.id
  unfolding decode_challenge_token issue_challenge_token
  decode_challenge_token-issue_challenge_token issued now user h k = rw (
    jwt.decode-encode now (timestamp issued)
        (timestamp (issued + minutes s.mfa_challenge_token_ttl_minutes))
        (challenge_claims jwt s issued user) s.jwt_secret refl refl (omega arith) k,
    decode_challenge_token,
  )

  -- An access token is never accepted as a challenge token.
  decode_challenge_token-issue_access_token :
      (issued now : ℕ) (user : User)
      → decode_challenge_token jwt s now (issue_access_token jwt s issued user) ≡ none
  unfolding decode_challenge_token issue_access_token
  decode_challenge_token-issue_access_token issued now user =
      elim (Option-cases
        (jwt.decode now (jwt.encode (access_claims jwt s issued user) s.jwt_secret) s.jwt_secret)) [
          | inl e ↦ rw (e, decode_challenge_token)
          | inr (d, e) ↦ rw (
            e,
            jwt.decode_signed now (access_claims jwt s issued user) d s.jwt_secret e,
            decode_challenge_token,
          )
        ]

  -- A challenge token decodes as an access token, until it expires, although no code has been
  -- verified: `decode_token` looks at the subject and the expiry alone.
  pub decode_token-issue_challenge_token :
      (issued now : ℕ) (user : User)
      → issued ≤ now
      → now < timestamp (issued + minutes s.mfa_challenge_token_ttl_minutes) * 1_000_000
      → decode_token jwt s now (issue_challenge_token jwt s issued user)
        ≡ some (record {
          sub = user.id;
          exp = timestamp (issued + minutes s.mfa_challenge_token_ttl_minutes);
          iat = timestamp issued;
          email = "";
        })
  unfolding decode_token issue_challenge_token
  decode_token-issue_challenge_token issued now user h k = rw (
    jwt.decode-encode now (timestamp issued)
        (timestamp (issued + minutes s.mfa_challenge_token_ttl_minutes))
        (challenge_claims jwt s issued user) s.jwt_secret refl refl (omega arith) k,
    decode_token,
  )

  -- Once an access token and a challenge token have expired, neither is accepted.
  expired_tokens_refused :
      (issued now : ℕ) (user : User)
      → timestamp (issued + minutes s.jwt_access_token_ttl_minutes) * 1_000_000 ≤ now
      → timestamp (issued + minutes s.mfa_challenge_token_ttl_minutes) * 1_000_000 ≤ now
      → (decode_token jwt s now (issue_access_token jwt s issued user) ≡ none)
        × (decode_challenge_token jwt s now (issue_challenge_token jwt s issued user) ≡ none)
  unfolding decode_token issue_access_token decode_challenge_token issue_challenge_token
  expired_tokens_refused issued now user h h' = (
    rw (
      jwt.decode_expired now _ (access_claims jwt s issued user) s.jwt_secret refl h,
      decode_token,
    ),
    rw (
      jwt.decode_expired now _ (challenge_claims jwt s issued user) s.jwt_secret refl h',
      decode_challenge_token,
    ),
  )
