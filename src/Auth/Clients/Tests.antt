-- ===== src/Auth/Clients/Tests.antt =====
-- Two clients and a library whose tokens are the claims, and the theorems on them.
use openspace_os_core.Base.{◌≡◌, ◌≢◌, refl, String, true, some, List, [], ◌∷◌}
use openspace_os_core.Auth.Clients.{
  Client, Claims, Jwt, not_expired, client_claims, verify_api_key, match_client, find_client,
  write_client, revoke_client,
}
use openspace_os_core.Auth.Clients.Tokens.{match_client-revoke_client}

abbrev plain_jwt : Jwt Claims
plain_jwt = record {
  sign = λ c. some c;
  read = λ t. some t;
  valid_at = λ now c. not_expired now c.expires_at;
}

abbrev client : String → String → Client
client id hash = record {
  client_id = id;
  name = id;
  module_name = "m";
  community_id = "";
  roles = "operator" ∷ [];
  api_key_hash = hash;
  status = "active";
  created_at = 1;
  updated_at = 1;
}

abbrev old_claims : Claims
old_claims = client_claims plain_jwt 3600000000000 0 (client "c1" "h")

abbrev test_clients : List Client
test_clients = client "c1" "h" ∷ client "c2" "k" ∷ []

abbrev rows_after : List Client
rows_after =
    record (client "c1" "h") { status = "revoked"; api_key_hash = "" } ∷ client "c2" "k" ∷ []

revoked : revoke_client "c1" test_clients ≡ (true, rows_after)
unfolding revoke_client find_client write_client
revoked = refl

matched : match_client (λ h p. true) "aos_x" rows_after ≡ some (client "c2" "k")
unfolding match_client verify_api_key
matched = refl

match_client-revoke_client_example : (client "c2" "k").client_id ≢ "c1"
match_client-revoke_client_example =
    match_client-revoke_client (λ h p. true) "aos_x" "c1" (client "c2" "k") test_clients rows_after
      revoked matched
