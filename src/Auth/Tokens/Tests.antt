-- ===== src/Auth/Tokens/Tests.antt =====
-- The tokens, with a library that reads every text as the one token of its type.
use go_backend_core.Prelude.{
  ℕ, ◌||◌, ◌≡◌, refl, ap, sym, ◌∙◌, ◌&&◌, inl, inr, Bool-cases, Bool, true, false, Option, none,
  some, String, arith, if◌then◌else◌,
}
use go_backend_core.Prelude.Int.{ℤ, pos, negsuc, ltb_ℤ, ◌+ℤ◌}
use go_backend_core.Prelude.Equality.{◌==◌, string_eq, nat_eq}
use go_backend_core.Prelude.Result.{ok, err}
use go_backend_core.Auth.Tokens.{
  Service, TokenPair, wrong_type, key_for, generate_token_pair, validate_refresh_token,
  refresh_access_token, generate_token, parse_token,
}
use go_backend_core.Auth.Tokens.Signing.{Jwt, IsSound, TokenType, access, refresh, Claims}
use go_backend_core.Auth.Tokens.Pairs.{
  access_half, refresh_half, half_claims, validate_as, pair_valid, pair_refreshes,
  refresh_needs_refresh,
}

abbrev claims : TokenType → Claims
claims type = record {
  user_id = 7;
  username = "ann";
  token_type = type;
  issuer = "core";
  issued_at = pos 5;
  expires_at = pos 105;
  subject = 7;
  id = (type, 7, 5);
}

abbrev text : TokenType → String
text type = if type == access then "a" else "r"

abbrev is_pos : ℕ → ℤ → Bool
is_pos n (pos m) = m == n
is_pos n (negsuc m) = false

is_pos_lem : (n : ℕ) (z : ℤ) → is_pos n z ≡ true → z ≡ pos n
is_pos_lem n (pos m) h = ap pos ((nat_eq.equals_iff m n).0 h)
is_pos_lem n (negsuc m) h = cc

abbrev is_known : Claims → Bool
is_known c =
    (c.user_id == 7 && c.username == "ann" && c.issuer == "core" && c.subject == 7)
    && (is_pos 5 c.issued_at && is_pos 105 c.expires_at)
    && (c.token_type == access || c.token_type == refresh)
    && (c.id.0 == c.token_type && c.id.1 == 7 && c.id.2 == 5)

-- Signs nothing but the two claims, and reads every text as one of them until they expire.
abbrev table : Jwt
table = record {
  numeric_date = λ t. t;
  whole_seconds = λ d. d;
  sign = λ secret c. if is_known c then some (text c.token_type) else none;
  parse = λ key token now.
      if ltb_ℤ (pos now) (pos 105)
      then some (claims (if token == "a" then access else refresh), true)
      else none;
}

rebuilt :
    (u s i j : ℕ) (name issuer : String) (from until : ℤ) (type again : TokenType)
    → u ≡ 7
    → name ≡ "ann"
    → issuer ≡ "core"
    → s ≡ 7
    → from ≡ pos 5
    → until ≡ pos 105
    → again ≡ type
    → i ≡ 7
    → j ≡ 5
    → ◌≡◌ {A = Claims}
        (record {
          user_id = u;
          username = name;
          token_type = type;
          issuer = issuer;
          issued_at = from;
          expires_at = until;
          subject = s;
          id = (again, i, j);
        })
        (claims type)
rebuilt u s i j name issuer from until type again a b c d e f g h k =
    rw (a, b, c, d, e, f, g, h, k) refl

known : (c : Claims) → is_known c ≡ true → c ≡ claims c.token_type
known c h =
    rebuilt c.user_id c.subject c.id.1 c.id.2 c.username c.issuer c.issued_at c.expires_at
      c.token_type c.id.0 (ground (arith, nat_eq.equals_iff c.user_id 7))
      (ground (arith, string_eq.equals_iff c.username "ann"))
      (ground (arith, string_eq.equals_iff c.issuer "core"))
      (ground (arith, nat_eq.equals_iff c.subject 7)) (is_pos_lem 5 c.issued_at (ground arith))
      (is_pos_lem 105 c.expires_at (ground arith))
      (ground (arith, string_eq.equals_iff c.id.0 c.token_type))
      (ground (arith, nat_eq.equals_iff c.id.1 7)) (ground (arith, nat_eq.equals_iff c.id.2 5))

one_of_two :
    (c : Claims) → is_known c ≡ true → (c.token_type == access || c.token_type == refresh) ≡ true
one_of_two c h = ground arith

read_back :
    (type : TokenType) (token : String)
    → (type == access || type == refresh) ≡ true
    → text type ≡ token
    → (if token == "a" then access else refresh) ≡ type
read_back type token two h = elim (Bool-cases (type == access)) [
  | inl hit ↦
      let written : "a" ≡ token = rw hit at h in
      rw (← written) (sym ((string_eq.equals_iff type access).0 hit))
  | inr miss ↦
      let written : "r" ≡ token = rw miss at h in
      let is : (type == refresh) ≡ true = rw miss at two in
      rw (← written) (sym ((string_eq.equals_iff type refresh).0 is))
]

table-parses :
    (key : Bool → Option String) (secret token : String) (c : Claims) (now : ℕ)
    → key true ≡ some secret
    → table.sign secret c ≡ some token
    → ltb_ℤ (pos now) c.expires_at ≡ true
    → table.parse key token now ≡ some (c, true)
table-parses key secret token c now k signed live = elim (Bool-cases (is_known c)) [
  | inl accepted ↦
      let same : c ≡ claims c.token_type = known c accepted in
      let until : c.expires_at ≡ pos 105 = ap (λ (x : Claims). x.expires_at) same in
      let early : ltb_ℤ (pos now) (pos 105) ≡ true = ap (ltb_ℤ (pos now)) (sym until) ∙ live in
      let written : text c.token_type ≡ token = some_injective (rw accepted at signed) in
      rw early (
        ap (λ type. some (claims type, true))
          (read_back c.token_type token (one_of_two c accepted) written)
        ∙ ap (λ (x : Claims). some (x, true)) (sym same))
  | inr unknown ↦ absurd (none-ne-some (rw unknown at signed))
]
  where
    some_injective : {x y : String} → ◌≡◌ {A = Option String} (some x) (some y) → x ≡ y
    some_injective h = cc

    none-ne-some : {x : String} → ¬ (◌≡◌ {A = Option String} none (some x))
    none-ne-some h = cc

table-IsSound : IsSound table
table-IsSound = record { parses = table-parses }

abbrev service : Service
service = record {
  secret = "k";
  access_expire = pos 100;
  refresh_expire = pos 100;
  issuer = "core";
}

abbrev pair : TokenPair
pair = record {
  access_token = "a";
  refresh_token = "r";
  expires_in = pos 100;
  user_id = 7;
  username = "ann";
}

issued : generate_token_pair table service 7 "ann" 5 ≡ ok pair
unfolding generate_token_pair generate_token ◌+ℤ◌
issued = refl

pair_valid_example :
    (validate_as refresh_half table service "r" 9
      ≡ ok (half_claims table service 7 "ann" 5 refresh_half))
    × (validate_as access_half table service "r" 9 ≡ err (wrong_type access refresh))
unfolding ◌+ℤ◌
pair_valid_example =
    pair_valid table service 7 "ann" 5 refresh_half 9 pair table-IsSound issued refl

pair_refreshes_test :
    refresh_access_token table service "r" 9 ≡ generate_token_pair table service 7 "ann" 9
unfolding ◌+ℤ◌
pair_refreshes_test = pair_refreshes table service 7 "ann" 5 9 pair table-IsSound issued refl

refreshed : refresh_access_token table service "r" 5 ≡ ok pair
unfolding refresh_access_token validate_refresh_token parse_token generate_token_pair generate_token
    ◌+ℤ◌
refreshed = refl

refresh_needs_refresh_example :
    (c : Claims) × (table.parse (key_for "k") "r" 5 ≡ some (c, true))
    × (c.token_type ≡ refresh)
    × (generate_token_pair table service c.user_id c.username 5 ≡ ok pair)
refresh_needs_refresh_example = refresh_needs_refresh table service "r" 5 pair refreshed
