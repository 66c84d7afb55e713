-- ===== src/Auth/Tokens/Signing.antt =====
-- The claims of internal/services/auth/auth.go, and what it asks of the JWT library.
use go_backend_core.Prelude.{ℕ, ◌≡◌, Bool, true, Option, some, String}
use go_backend_core.Prelude.Int.{ℤ, pos, ltb_ℤ}

-- Any text; a parsed token may have one that is neither of the two.
abbrev pub TokenType : Type 0
TokenType = String

abbrev pub access : TokenType
access = "access"

abbrev pub refresh : TokenType
refresh = "refresh"

pub record Claims : Type 0 where
  pub user_id : ℕ
  pub username : String
  pub token_type : TokenType
  pub issuer : String
  pub issued_at : ℤ
  pub expires_at : ℤ
  pub subject : ℕ
  pub id : TokenType × ℕ × ℕ

-- `sign` is `SignedString` by HS256. `parse` is `ParseWithClaims` at an instant: the key function is
-- asked with whether the method is an HMAC, and the answer has the claims and `Valid`.
pub record Jwt : Type 0 where
  pub numeric_date : ℤ → ℤ
  pub whole_seconds : ℤ → ℤ
  pub sign : String → Claims → Option String
  pub parse : (Bool → Option String) → String → ℕ → Option (Claims × Bool)

-- A token that was signed is read back with its key until it expires.
pub record IsSound (jwt : Jwt) : Type 0 where
  pub parses :
      (key : Bool → Option String) (secret token : String) (claims : Claims) (now : ℕ)
      → key true ≡ some secret
      → jwt.sign secret claims ≡ some token
      → ltb_ℤ (pos now) claims.expires_at ≡ true
      → jwt.parse key token now ≡ some (claims, true)
