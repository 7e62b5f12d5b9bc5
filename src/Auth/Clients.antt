-- ===== src/Auth/Clients.antt =====
-- Tokens and machine clients: internal/auth/jwt.go, client.go and client_service.go. The JWT library and
-- bcrypt are arguments; the clients are the rows of their table, which is taken to answer; fresh ids,
-- keys and the clock are arguments.
pub mod Tokens
pub mod Tests
use text.Mathlib.Text.{starts_with}
use openspace_os_core.Base.{
  ◌*◌, ℕ, suc, ◌+◌, ◌-◌, ◌%◌, ltb, leb_ℤ, ℤ, pos, pos_part, ◌==◌, String, Bool, true, false, not,
  ◌&&◌, Option, none, some, List, [], ◌∷◌, ◌++◌, if◌then◌else◌, str_eq, keep_if,
}

pub record Client : Type 0 where
  pub client_id : String
  pub name : String
  pub module_name : String
  pub community_id : String
  pub roles : List String
  pub api_key_hash : String
  pub status : String
  pub created_at : ℕ
  pub updated_at : ℕ

pub record Claims : Type 0 where
  pub subject_type : String
  pub user_id : String
  pub client_id : String
  pub username : String
  pub roles : List String
  pub community_id : String
  pub issuer : String
  pub subject : String
  pub audience : List String
  pub issued_at : ℕ
  pub expires_at : Option ℕ

-- The JWT library with a key, over its tokens: signing, reading a token whose signature is right, and
-- the library's own checks of the claims at a time.
pub record Jwt (T : Type 0) : Type 0 where
  pub sign : Claims → Option T
  pub read : T → Option Claims
  pub valid_at : ℕ → Claims → Bool

-- `jwt.NewNumericDate`: whole seconds.
abbrev pub numeric_date : ℕ → ℕ
numeric_date t = t - t % 1000000000

abbrev pub token_duration : ℤ → ℕ
token_duration d = if leb_ℤ d (pos 0) then 24 * 3600 * 1000000000 else pos_part d

abbrev pub not_expired : ℕ → Option ℕ → Bool
not_expired now none = true
not_expired now (some e) = not (ltb e now)

-- `bcrypt.CompareHashAndPassword(hash, plain) == nil` is `compare hash plain`.
module _ (compare : String → String → Bool) where
  unfoldable pub verify_api_key : String → String → Bool
  verify_api_key plain hash =
      not (str_eq plain "")
      && (not (str_eq hash "") && (starts_with plain "aos_" && compare hash plain))

  -- The loop of `ExchangeAPIKey`.
  unfoldable pub match_client : String → List Client → Option Client
  match_client key [] = none
  match_client key (c ∷ cs) =
      if str_eq c.status "revoked"
      then match_client key cs
      else if not (str_eq c.api_key_hash "") && verify_api_key key c.api_key_hash
      then some c
      else match_client key cs

module _ {T : Type 0} (jwt : Jwt T) (duration : ℕ) where
  abbrev pub accepted : ℕ → Option Claims → Option Claims
  accepted now none = none
  accepted now (some c) =
      if jwt.valid_at now c && not_expired now c.expires_at then some c else none

  -- `Parse`; `none` is its error.
  unfoldable pub parse : ℕ → T → Option Claims
  parse now token = accepted now (jwt.read token)

  abbrev pub renewed : ℕ → Claims → Claims
  renewed now c = record c {
    issuer = "openspace-os-core";
    issued_at = numeric_date now;
    expires_at = some (numeric_date (now + duration));
  }

  abbrev pub signed_again : ℕ → Option Claims → Option T
  signed_again now none = none
  signed_again now (some c) = jwt.sign (renewed now c)

  -- `Refresh`.
  unfoldable pub refresh : ℕ → T → Option T
  refresh now token = signed_again now (jwt.read token)

  abbrev pub client_claims : ℕ → Client → Claims
  client_claims now c = record {
    subject_type = "client";
    user_id = "";
    client_id = c.client_id;
    username = c.name;
    roles = c.roles;
    community_id = c.community_id;
    issuer = "openspace-os-core";
    subject = c.client_id;
    audience = "openspace-os-core-api" ∷ [];
    issued_at = numeric_date now;
    expires_at = some (numeric_date (now + duration));
  }

  -- `GenerateClientToken` of a client that is not nil.
  unfoldable pub generate_client_token : ℕ → Client → Option T
  generate_client_token now c =
      if str_eq c.status "revoked" then none else jwt.sign (client_claims now c)

  module _ (compare : String → String → Bool) where
    abbrev pub token_for : ℕ → Option Client → Option (T × Client)
    token_for now none = none
    token_for now (some c) = elim (generate_client_token now c) [
      | none ↦ none
      | some t ↦ some (t, c)
    ]

    unfoldable pub exchange_api_key : ℕ → String → List Client → Option (T × Client)
    exchange_api_key now key cs =
        if str_eq key "" then none else token_for now (match_client compare key cs)

unfoldable pub find_client : String → List Client → Option Client
find_client id [] = none
find_client id (c ∷ cs) = if str_eq c.client_id id then some c else find_client id cs

-- The columns that `UPDATE clients SET …` writes: all but the id and the time of creation.
abbrev pub updated_client : Client → Client → Client
updated_client c d =
    if str_eq d.client_id c.client_id
    then record c { client_id = d.client_id; created_at = d.created_at }
    else d

unfoldable pub write_client : Client → List Client → List Client
write_client c [] = []
write_client c (d ∷ ds) = updated_client c d ∷ write_client c ds

abbrev pub revoked_rows : Option Client → List Client → Bool × List Client
revoked_rows none cs = (false, cs)
revoked_rows (some c) cs =
    (true, write_client (record c { status = "revoked"; api_key_hash = "" }) cs)

-- `RevokeClient`; false is the error that there is no such client.
unfoldable pub revoke_client : String → List Client → Bool × List Client
revoke_client id cs = revoked_rows (find_client id cs) cs
