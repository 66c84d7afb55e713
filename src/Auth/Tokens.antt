-- ===== src/Auth/Tokens.antt =====
-- internal/services/auth/auth.go: the pairs of tokens, with the JWT library as a parameter. An
-- instant is the number of nanoseconds since the epoch, and the clock's reading an argument; the
-- subject and the id of the claims are kept as the parts of their texts.
pub mod Signing
pub mod Pairs
mod Tests
use go_backend_core.Prelude.{
  ℕ, Bool, true, false, not, ◌&&◌, Option, none, some, String, if◌then◌else◌,
}
use go_backend_core.Prelude.Int.{ℤ, pos, ◌+ℤ◌, leb_ℤ}
use go_backend_core.Prelude.Equality.{◌==◌, string_eq}
use go_backend_core.Prelude.Result.{Result, ok, err, ◌>>=◌, or_error}
use Signing.{Jwt, TokenType, access, refresh, Claims}

pub record Service : Type 0 where
  pub secret : String
  pub access_expire : ℤ
  pub refresh_expire : ℤ
  pub issuer : String

pub record Config : Type 0 where
  pub secret : String
  pub access_expire : ℤ
  pub refresh_expire : ℤ
  pub issuer : String

pub record TokenPair : Type 0 where
  pub access_token : String
  pub refresh_token : String
  pub expires_in : ℤ
  pub user_id : ℕ
  pub username : String

pub data TokenError : Type 0 where
  sign_failed invalid not_valid : TokenError
  wrong_type : TokenType → TokenType → TokenError

abbrev or_default : ℤ → ℤ → ℤ
or_default default d = if leb_ℤ d (pos 0) then default else d

unfoldable pub new_service : Config → Service
new_service cfg = record {
  secret = cfg.secret;
  access_expire = or_default (pos 1800000000000) cfg.access_expire;
  refresh_expire = or_default (pos 604800000000000) cfg.refresh_expire;
  issuer = if cfg.issuer == "" then "go-backend-core" else cfg.issuer;
}

-- The key is given only for a token that an HMAC method signed.
abbrev pub key_for : String → Bool → Option String
key_for secret is_hmac = if is_hmac then some secret else none

-- The empty type expects nothing.
abbrev pub is_expected : TokenType → Claims → Result TokenError Claims
is_expected expected claims =
    if not (expected == "") && not (claims.token_type == expected)
    then err (wrong_type expected claims.token_type)
    else ok claims

abbrev pub check_parsed : TokenType → Option (Claims × Bool) → Result TokenError Claims
check_parsed expected none = err invalid
check_parsed expected (some (claims, valid)) =
    if valid then is_expected expected claims else err not_valid

module _ (jwt : Jwt) where
  abbrev pub claims_of : Service → ℕ → String → TokenType → ℤ → ℕ → Claims
  claims_of s user name type expire now = record {
    user_id = user;
    username = name;
    token_type = type;
    issuer = s.issuer;
    issued_at = jwt.numeric_date (pos now);
    expires_at = jwt.numeric_date (pos now +ℤ expire);
    subject = user;
    id = (type, user, now);
  }

  unfoldable pub generate_token :
      Service → ℕ → String → TokenType → ℤ → ℕ → Result TokenError String
  generate_token s user name type expire now =
      or_error sign_failed (jwt.sign s.secret (claims_of s user name type expire now))

  unfoldable pub generate_token_pair : Service → ℕ → String → ℕ → Result TokenError TokenPair
  generate_token_pair s user name now =
      generate_token s user name access s.access_expire now >>= (λ access_token.
        generate_token s user name refresh s.refresh_expire now >>= (λ refresh_token. ok (record {
          access_token = access_token;
          refresh_token = refresh_token;
          expires_in = jwt.whole_seconds s.access_expire;
          user_id = user;
          username = name;
        })))

  unfoldable pub parse_token : Service → String → TokenType → ℕ → Result TokenError Claims
  parse_token s token expected now = check_parsed expected (jwt.parse (key_for s.secret) token now)

  unfoldable pub validate_token : Service → String → ℕ → Result TokenError Claims
  validate_token s token now = parse_token s token "" now

  unfoldable pub validate_access_token : Service → String → ℕ → Result TokenError Claims
  validate_access_token s token now = parse_token s token access now

  unfoldable pub validate_refresh_token : Service → String → ℕ → Result TokenError Claims
  validate_refresh_token s token now = parse_token s token refresh now

  unfoldable pub refresh_access_token : Service → String → ℕ → Result TokenError TokenPair
  refresh_access_token s token now =
      validate_refresh_token s token now
      >>= (λ claims. generate_token_pair s claims.user_id claims.username now)
