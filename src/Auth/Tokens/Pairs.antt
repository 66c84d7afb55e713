-- ===== src/Auth/Tokens/Pairs.antt =====
-- What the pairs of internal/services/auth/auth.go are good for.
use go_backend_core.Prelude.{
  ℕ, ◌≡◌, refl, ap, sym, ◌∙◌, Bool, true, false, inl, inr, Option, none, some, String, Bool-cases,
}
use go_backend_core.Prelude.Int.{ℤ, pos, ltb_ℤ}
use go_backend_core.Prelude.Equality.{◌==◌, string_eq}
use go_backend_core.Prelude.Result.{Result, ok, err, ◌>>=◌, or_error}
use go_backend_core.Auth.Tokens.{
  Service, TokenPair, TokenError, sign_failed, wrong_type, key_for, check_parsed, claims_of,
  generate_token, generate_token_pair, parse_token, validate_access_token, validate_refresh_token,
  refresh_access_token,
}
use go_backend_core.Auth.Tokens.Signing.{Jwt, IsSound, TokenType, access, refresh, Claims}

pair_of_ok :
    (a r : Option String) (make : String → String → TokenPair) (pair : TokenPair)
    → ((x y : String) → (make x y).access_token ≡ x)
    → ((x y : String) → (make x y).refresh_token ≡ y)
    → (or_error sign_failed a >>= (λ x. or_error sign_failed r >>= (λ y. ok (make x y)))) ≡ ok pair
    → (a ≡ some pair.access_token) × (r ≡ some pair.refresh_token)
pair_of_ok none r make pair first second h = cc
pair_of_ok (some a) none make pair first second h = cc
pair_of_ok (some a) (some r) make pair first second h =
    let same : make a r ≡ pair = cc in
    (
      ap some (sym (first a r) ∙ ap (λ (p : TokenPair). p.access_token) same),
      ap some (sym (second a r) ∙ ap (λ (p : TokenPair). p.refresh_token) same),
    )

-- The two tokens of a pair, each with the type that it is signed with and validated as.
pub data Half : Type 0 where
  access_half refresh_half : Half

abbrev pub type_of : Half → TokenType
type_of access_half = access
type_of refresh_half = refresh

abbrev pub other_half : Half → Half
other_half access_half = refresh_half
other_half refresh_half = access_half

abbrev pub token_of : Half → TokenPair → String
token_of access_half pair = pair.access_token
token_of refresh_half pair = pair.refresh_token

abbrev pub expire_of : Half → Service → ℤ
expire_of access_half s = s.access_expire
expire_of refresh_half s = s.refresh_expire

abbrev pub validate_as : Half → Jwt → Service → String → ℕ → Result TokenError Claims
validate_as access_half jwt s token now = validate_access_token jwt s token now
validate_as refresh_half jwt s token now = validate_refresh_token jwt s token now

module _ (jwt : Jwt) (s : Service) (user : ℕ) (name : String) (now : ℕ) where
  abbrev pub half_claims : Half → Claims
  half_claims half = claims_of jwt s user name (type_of half) (expire_of half s) now

  pair_signed :
      (half : Half) (pair : TokenPair)
      → generate_token_pair jwt s user name now ≡ ok pair
      → jwt.sign s.secret (half_claims half) ≡ some (token_of half pair)
  unfolding generate_token_pair generate_token
  pair_signed access_half pair h = (pair_of_ok _ _ _ pair (λ x y. refl) (λ x y. refl) h).0
  pair_signed refresh_half pair h = (pair_of_ok _ _ _ pair (λ x y. refl) (λ x y. refl) h).1

  -- If the JWT library reads back what it signed, then each token of a pair that was issued, until
  -- that token itself expires and whatever has become of the other, gives the user's claims of its
  -- type when it is validated as its own type, and is refused when it is validated as the other.
  pub pair_valid :
      (half : Half) (later : ℕ) (pair : TokenPair)
      → IsSound jwt
      → generate_token_pair jwt s user name now ≡ ok pair
      → ltb_ℤ (pos later) (half_claims half).expires_at ≡ true
      → (validate_as half jwt s (token_of half pair) later ≡ ok (half_claims half))
        × (validate_as (other_half half) jwt s (token_of half pair) later
            ≡ err (wrong_type (type_of (other_half half)) (type_of half)))
  unfolding validate_access_token validate_refresh_token parse_token
  pair_valid access_half later pair sound h live =
      rw
        (sound.parses (key_for s.secret) s.secret pair.access_token (half_claims access_half) later
          refl (pair_signed access_half pair h) live)
        (refl, refl)
  pair_valid refresh_half later pair sound h live =
      rw
        (sound.parses (key_for s.secret) s.secret pair.refresh_token (half_claims refresh_half)
          later refl (pair_signed refresh_half pair h) live)
        (refl, refl)

  -- With the refresh token of a pair, until it expires, the user gets the pair that would be issued at
  -- that instant, if the JWT library reads back what it signed.
  pub pair_refreshes :
      (later : ℕ) (pair : TokenPair)
      → IsSound jwt
      → generate_token_pair jwt s user name now ≡ ok pair
      → ltb_ℤ (pos later) (half_claims refresh_half).expires_at ≡ true
      → refresh_access_token jwt s pair.refresh_token later
        ≡ generate_token_pair jwt s user name later
  unfolding refresh_access_token
  pair_refreshes later pair sound h live =
      rw (pair_valid refresh_half later pair sound h live).0 refl

err-ne-ok_pair :
    {e : TokenError} {pair : TokenPair}
    → ¬ (◌≡◌ {A = Result TokenError TokenPair} (err e) (ok pair))
err-ne-ok_pair h = cc

type_checked :
    (parsed : Option (Claims × Bool)) (make : Claims → Result TokenError TokenPair)
    (pair : TokenPair)
    → (check_parsed refresh parsed >>= make) ≡ ok pair
    → (claims : Claims) × (parsed ≡ some (claims, true))
      × (claims.token_type ≡ refresh)
      × (make claims ≡ ok pair)
type_checked none make pair h = cc
type_checked (some (claims, false)) make pair h = cc
type_checked (some (claims, true)) make pair h = elim (Bool-cases (claims.token_type == refresh)) [
  | inl same ↦
      (claims, refl, (string_eq.equals_iff claims.token_type refresh).0 same, (rw same at h))
  | inr other ↦ absurd (err-ne-ok_pair (rw other at h))
]

-- Whatever text is given for a refresh token, a pair comes of it only if the JWT library takes it,
-- under the service's key, for valid claims whose type is the text "refresh", and no other; the pair
-- is for the user of the claims.
pub refresh_needs_refresh :
    (jwt : Jwt) (s : Service) (token : String) (now : ℕ) (pair : TokenPair)
    → refresh_access_token jwt s token now ≡ ok pair
    → (claims : Claims) × (jwt.parse (key_for s.secret) token now ≡ some (claims, true))
      × (claims.token_type ≡ refresh)
      × (generate_token_pair jwt s claims.user_id claims.username now ≡ ok pair)
unfolding refresh_access_token validate_refresh_token parse_token
refresh_needs_refresh jwt s token now pair h = type_checked _ _ pair h
