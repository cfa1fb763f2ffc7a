-- ===== src/Examples/Signing.antt =====
-- A concrete signer of tokens for the examples: the claims written out as numbers, with no signature.
use oss_us_web_design_system.Base.{
  ℕ, zero, suc, ◌*◌, ◌≤◌, ◌<◌, ◌≡◌, ◌≢◌, refl, ap, sym, ◌∙◌, Bool, true, false, Option, none, some,
  [], ◌∷◌, String, Text, codes, ltb, if◌then◌else◌, arith,
}
use Prim.Native.Nat.{compare, Ordering}
use Prim.Native.Char.{char, IsLt, IsScalar}
use oss_us_web_design_system.Auth.Token.{Claims, Jwt}

abbrev Both : Ordering → Ordering → Type 0
Both Ordering.lt o = IsLt o
Both Ordering.eq _ = ⊥
Both Ordering.gt _ = ⊥

abbrev Scalar : Ordering → Ordering → Ordering → Type 0
Scalar Ordering.lt _ _ = Unit
Scalar Ordering.eq o p = Both o p
Scalar Ordering.gt o p = Both o p

abbrev is_lt : (o : Ordering) → Option (IsLt o)
is_lt Ordering.lt = some tt
is_lt Ordering.eq = none
is_lt Ordering.gt = none

abbrev is_both : (o p : Ordering) → Option (Both o p)
is_both Ordering.lt p = is_lt p
is_both Ordering.eq _ = none
is_both Ordering.gt _ = none

abbrev is_scalar : (o p q : Ordering) → Option (Scalar o p q)
is_scalar Ordering.lt _ _ = some tt
is_scalar Ordering.eq o p = is_both o p
is_scalar Ordering.gt o p = is_both o p

is_lt_complete : (o : Ordering) (x : IsLt o) → is_lt o ≡ some x
is_lt_complete Ordering.lt x = refl
is_lt_complete Ordering.eq x = absurd x
is_lt_complete Ordering.gt x = absurd x

is_both_complete : (o p : Ordering) (x : Both o p) → is_both o p ≡ some x
is_both_complete Ordering.lt p x = is_lt_complete p x
is_both_complete Ordering.eq p x = absurd x
is_both_complete Ordering.gt p x = absurd x

is_scalar_complete : (o p q : Ordering) (x : Scalar o p q) → is_scalar o p q ≡ some x
is_scalar_complete Ordering.lt p q x = refl
is_scalar_complete Ordering.eq p q x = is_both_complete p q x
is_scalar_complete Ordering.gt p q x = is_both_complete p q x

pub as_scalar : (n : ℕ) → Option (IsScalar n)
as_scalar n = is_scalar (compare n 55296) (compare 57343 n) (compare n 1114112)

abbrev pub with_char : (n : ℕ) → Option (IsScalar n) → String → String
with_char n none s = s
with_char n (some p) s = String.◌∷◌ (char n p) s

unfoldable pub text_of : Text → String
unfolding as_scalar
text_of [] = ""
text_of (n ∷ ns) = with_char n (as_scalar n) (text_of ns)

text_of-codes : (s : String) → text_of (codes s) ≡ s
unfolding text_of as_scalar
text_of-codes String.[] = refl
text_of-codes (String.◌∷◌ (char n p) s) =
    rw (is_scalar_complete (compare n 55296) (compare 57343 n) (compare n 1114112) p)
      (ap (λ t. String.◌∷◌ (char n p) t) (text_of-codes s))

-- An optional number as a flag and a number, and an optional text as a flag and its codes.
abbrev flag : Option ℕ → ℕ
flag none = 0
flag (some _) = 1

abbrev number : Option ℕ → ℕ
number none = 0
number (some n) = n

abbrev optional : ℕ → ℕ → Option ℕ
optional zero _ = none
optional (suc _) n = some n

abbrev email_codes : Option String → Text
email_codes none = []
email_codes (some s) = 1 ∷ codes s

unfoldable pub email_of : Text → Option String
email_of [] = none
email_of (_ ∷ ns) = some (text_of ns)

abbrev pending_flag : Option Bool → ℕ
pending_flag none = 0
pending_flag (some false) = 1
pending_flag (some true) = 2

abbrev pending_of : ℕ → Option Bool
pending_of zero = none
pending_of (suc zero) = some false
pending_of (suc (suc _)) = some true

unfoldable pub write_claims : Claims → Text
write_claims c =
    flag c.sub
    ∷ number c.sub
    ∷ flag c.exp
    ∷ number c.exp
    ∷ flag c.iat
    ∷ number c.iat
    ∷ pending_flag c.mfa_pending
    ∷ email_codes c.email

unfoldable pub read_claims : Text → Option Claims
unfolding email_of
read_claims (a ∷ b ∷ c ∷ d ∷ e ∷ f ∷ g ∷ ns) = some (record {
  sub = optional a b;
  exp = optional c d;
  iat = optional e f;
  email = email_of ns;
  mfa_pending = pending_of g;
})
read_claims _ = none

optional-number : (o : Option ℕ) → optional (flag o) (number o) ≡ o
optional-number none = refl
optional-number (some n) = refl

pending_of-flag : (o : Option Bool) → pending_of (pending_flag o) ≡ o
pending_of-flag none = refl
pending_of-flag (some true) = refl
pending_of-flag (some false) = refl

email_of-codes : (o : Option String) → email_of (email_codes o) ≡ o
unfolding email_of
email_of-codes none = refl
email_of-codes (some s) = ap some (text_of-codes s)

pub read_claims-write_claims : (c : Claims) → read_claims (write_claims c) ≡ some c
unfolding read_claims write_claims
read_claims-write_claims c =
    rw
      (
        optional-number c.sub,
        optional-number c.exp,
        optional-number c.iat,
        email_of-codes c.email,
        pending_of-flag c.mfa_pending,
      )
      refl

-- The claims that have not expired.
unfoldable pub live_claims : ℕ → Option Claims → Option Claims
live_claims now none = none
live_claims now (some c) = elim c.exp [
  | none ↦ some c
  | some exp ↦ if ltb now (exp * 1_000_000) then some c else none
]

pub live_claims-live :
    (now exp : ℕ) (c : Claims)
    → c.exp ≡ some exp
    → now < exp * 1_000_000
    → live_claims now (some c) ≡ some c
unfolding live_claims
live_claims-live now exp c e h = ground arith

pub live_claims-expired :
    (now exp : ℕ) (c : Claims)
    → c.exp ≡ some exp
    → exp * 1_000_000 ≤ now
    → live_claims now (some c) ≡ none
unfolding live_claims
live_claims-expired now exp c e h = ground arith

pub live_claims-same : (now : ℕ) (c d : Claims) → live_claims now (some c) ≡ some d → d ≡ c
unfolding live_claims
live_claims-same now c d h = ground arith

pub written : (c : Claims) → write_claims c ≢ []
unfolding write_claims
written c h = cc

unfoldable pub plain_jwt : Jwt
plain_jwt = record {
  encode = λ c _. write_claims c;
  decode = λ now t _. live_claims now (read_claims t);
  decode-encode = λ now iat exp c _ _ e _ h.
      ap (live_claims now) (read_claims-write_claims c) ∙ live_claims-live now exp c e h;
  decode_expired = λ now exp c _ e h.
      ap (live_claims now) (read_claims-write_claims c) ∙ live_claims-expired now exp c e h;
  decode_signed = λ now c d _ h.
      live_claims-same now c d (ap (live_claims now) (sym (read_claims-write_claims c)) ∙ h);
  encode_nonempty = λ c _. written c;
}
