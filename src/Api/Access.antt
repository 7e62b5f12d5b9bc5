-- ===== src/Api/Access.antt =====
-- Who gets past what stands before the handlers of the REST API: internal/auth/middleware.go and
-- internal/api/rest/router.go.
use openspace_os_core.Base.{
  ℕ, ◌≡◌, refl, ◌≢◌, ◌↔◌, inl, inr, subst, String, true, not, ◌&&◌, Option, none, some, List, [],
  ◌∷◌, arith, str_eq, eq_iff, Bool-cases, Option-cases,
}
use openspace_os_core.Auth.{has_permission}
use openspace_os_core.Auth.Clients.{
  Client, Claims, parse, accepted, exchange_api_key, match_client, verify_api_key,
  generate_client_token, token_for, not_expired,
}
use openspace_os_core.Auth.Users.{can_access_node}
use openspace_os_core.Model.{Node}
use openspace_os_core.Graph
use openspace_os_core.Api.{
  Endpoint, Need, nothing, authentication, permission, need, Headers, Authenticator, api_auth,
  by_key, by_token, claims_of, key_of, extract_bearer_token, require_permission, required, guard,
  require_node_access,
}

-- A token that is good now and says these claims.
abbrev pub Says : Authenticator → ℕ → String → Claims → Type 0
Says a now token c =
    (a.jwt.read token ≡ some c) × ((a.jwt.valid_at now c && not_expired now c.expires_at) ≡ true)

-- An API key of a client of the list that is not revoked, and whose stored hash the key meets.
abbrev pub Opens : Authenticator → String → List Client → Client → Type 0
Opens a key cs d =
    (match_client a.compare key cs ≡ some d)
    × (d.status ≢ "revoked")
    × (verify_api_key a.compare key d.api_key_hash ≡ true)

module _ (a : Authenticator) (now : ℕ) where
  parse-Says :
      (token : String) (c : Claims) → parse a.jwt a.duration now token ≡ some c → Says a now token c
  unfolding parse
  parse-Says token c h = read_as (a.jwt.read token) refl h
    where
      read_as :
          (r : Option Claims)
          → a.jwt.read token ≡ r
          → accepted a.jwt a.duration now r ≡ some c
          → Says a now token c
      read_as none e h = absurd (ground arith)
      read_as (some d) e h = ground (arith, e, h)

  match_client-Opens :
      (key : String) (cs : List Client) (d : Client)
      → match_client a.compare key cs ≡ some d
      → (d.status ≢ "revoked") × (verify_api_key a.compare key d.api_key_hash ≡ true)
  unfolding match_client
  match_client-Opens key [] d h = absurd (ground arith)
  match_client-Opens key (c ∷ cs) d h = elim (Bool-cases (str_eq c.status "revoked")) [
    | inl gone ↦ match_client-Opens key cs d (ground (arith, gone, h))
    | inr live ↦
        elim (Bool-cases
          (not (str_eq c.api_key_hash "") && verify_api_key a.compare key c.api_key_hash)) [
            | inl fits ↦
                let same : c ≡ d = ground (arith, live, fits, h) in
                subst
                  (λ x.
                    (x.status ≢ "revoked") × (verify_api_key a.compare key x.api_key_hash ≡ true))
                  same
                  (
                    (λ e. ground (arith, live, (eq_iff c.status "revoked").1 e)),
                    ground (arith, fits),
                  )
            | inr misses ↦ match_client-Opens key cs d (ground (arith, live, misses, h))
          ]
  ]

  -- The claims come from the bearer token, or from a token that was just made for a client.
  pub data Comes (h : Headers) (c : Claims) : Type 0 where
    from_token : Says a now (extract_bearer_token h) c → Comes h c
    from_key :
        (cs : List Client) (d : Client) (token : String)
        → a.clients ≡ some cs
        → Opens a (key_of a now h) cs d
        → generate_client_token a.jwt a.duration now d ≡ some token
        → Says a now token c
        → Comes h c

  token_for-inv :
      (d : Option Client) (token : String) (e : Client)
      → token_for a.jwt a.duration a.compare now d ≡ some (token, e)
      → (d ≡ some e) × (generate_client_token a.jwt a.duration now e ≡ some token)
  token_for-inv none token e h = absurd (ground arith)
  token_for-inv (some d) token e h =
      elim (Option-cases (generate_client_token a.jwt a.duration now d)) [
        | inl refused ↦ absurd (ground (arith, refused, h))
        | inr (t, made) ↦ ground (arith, made, h)
      ]

  by_key-Comes :
      (h : Headers) (cs : List Client) (c : Claims)
      → a.clients ≡ some cs
      → (x : Option (String × Client))
      → exchange_api_key a.jwt a.duration a.compare now (key_of a now h) cs ≡ x
      → claims_of a now x ≡ some c
      → Comes h c
  unfolding exchange_api_key
  by_key-Comes h cs c e none x g = absurd (ground arith)
  by_key-Comes h cs c e (some (token, d)) x g =
      let made : token_for a.jwt a.duration a.compare now
            (match_client a.compare (key_of a now h) cs)
          ≡ some (token, d) =
        ground (arith, x) in
      let (matched, signed) = token_for-inv _ token d made in
      let (live, fits) = match_client-Opens (key_of a now h) cs d matched in
      from_key cs d token e (matched, live, fits) signed (parse-Says token c g)

  by_key-clients :
      (h : Headers) (c : Claims) (k : Option (List Client))
      → a.clients ≡ k
      → by_key a now k (key_of a now h) ≡ some c
      → Comes h c
  by_key-clients h c none e g = absurd (ground arith)
  by_key-clients h c (some cs) e g =
      by_key-Comes h cs c e (exchange_api_key a.jwt a.duration a.compare now (key_of a now h) cs)
        refl (ground arith)

  by_token-Says : (token : String) (c : Claims) → by_token a now token ≡ some c → Says a now token c
  by_token-Says token c g = parse-Says token c (ground arith)

  api_auth-Comes : (h : Headers) (c : Claims) → api_auth a now h ≡ some c → Comes h c
  unfolding api_auth
  api_auth-Comes h c g = elim (Option-cases (by_token a now (extract_bearer_token h))) [
    | inl none_there ↦ by_key-clients h c a.clients refl (ground (arith, none_there, g))
    | inr (d, there) ↦
        let same : d ≡ c = ground (arith, there, g) in
        from_token (subst (Says a now (extract_bearer_token h)) same (by_token-Says _ d there))
  ]

  -- The permission that an endpoint asks for is granted.
  abbrev pub Granted : Need → Claims → Type 0
  Granted nothing c = Unit
  Granted authentication c = Unit
  Granted (permission p) c = has_permission c.roles p ≡ true

  require_permission-Granted :
      (p : String) (c : Option Claims)
      → require_permission p c ≡ none
      → (d : Claims) × (c ≡ some d) × (has_permission d.roles p ≡ true)
  unfolding require_permission
  require_permission-Granted p none g = absurd (ground arith)
  require_permission-Granted p (some d) g = (d, refl, ground arith)

  required-Granted :
      (n : Need) (c : Option Claims)
      → required n c ≡ none
      → n ≢ nothing
      → (d : Claims) × (c ≡ some d) × Granted n d
  required-Granted nothing c g some_need = absurd (some_need refl)
  required-Granted authentication none g some_need = absurd (ground arith)
  required-Granted authentication (some d) g some_need = (d, refl, tt)
  required-Granted (permission p) c g some_need = require_permission-Granted p c g

  -- A request that gets past the guard of an endpoint that asks for something has claims that come from
  -- a good token, or from the key of a client that is not revoked; and their roles have the endpoint's
  -- permission.
  pub guard-Granted :
      (e : Endpoint) (h : Headers)
      → guard (some a) now e h ≡ none
      → need e ≢ nothing
      → (c : Claims) × Comes h c × Granted (need e) c
  unfolding guard
  guard-Granted e h g some_need =
      let (c, found, granted) = required-Granted (need e) (api_auth a now h) g some_need in
      (c, api_auth-Comes h c found, granted)

-- RequireNodeAccess lets claims through to a node that is found, and whose id is not empty, exactly when
-- CanAccessNode grants them the node.
pub require_node_access_iff :
    (c : Claims) (id : String) (n : Node)
    → id ≢ ""
    → (require_node_access (some c) id (Graph.ok n) ≡ none)
      ↔ (can_access_node c.roles c.community_id n.owner_community_id ≡ true)
unfolding require_node_access can_access_node
require_node_access_iff c id n set =
    (λ h. ground (arith, eq_iff id ""), λ h. ground (arith, eq_iff id ""))
