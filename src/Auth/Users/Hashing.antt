-- ===== src/Auth/Users/Hashing.antt =====
-- golang.org/x/crypto/bcrypt as the user store relies on it.
use go_backend_core.Prelude.{ℕ, ◌≡◌, Bool, true, Option, some, String}

-- `generate` may refuse a password; the number is the random part of the hash.
pub record Bcrypt : Type 0 where
  pub generate : String → ℕ → Option String
  pub compare : String → String → Bool

-- A hash matches the password that it was made from.
pub record IsSound (b : Bcrypt) : Type 0 where
  pub matches :
      (password : String) (salt : ℕ) (hash : String)
      → b.generate password salt ≡ some hash
      → b.compare hash password ≡ true
