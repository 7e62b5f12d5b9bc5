-- ===== src/Api.antt =====
-- The REST API's way in: the routes and what they ask of a request (internal/api/rest/router.go), the
-- authentication of a request (internal/auth/middleware.go), and in Api/Handlers the handlers of the
-- graph and of the commands. A request's headers are texts, a body is what decoding makes of it, and a
-- refusal is its status code; the texts of error responses are left out.
pub mod Handlers
pub mod Access
pub mod Safe
pub mod Authorized
pub mod Tests
use Prim.Native.String
use text.Mathlib.Text.{starts_with}
use openspace_os_core.Base.{
  ℕ, zero, suc, String, Bool, true, false, not, ◌&&◌, ◌||◌, Option, none, some, List, [], ◌∷◌,
  str_eq, if◌then◌else◌,
}
use openspace_os_core.Event.Schema.{trim_space, contains}
use openspace_os_core.Auth.{has_permission}
use openspace_os_core.Auth.Clients.{Client, Claims, Jwt, parse, exchange_api_key}
use openspace_os_core.Model.{Node}
use openspace_os_core.Graph
use openspace_os_core.Graph.{GraphError, Answer}

-- The handlers behind the routes.
pub data Endpoint : Type 0 where
  health metrics serve_swagger_ui serve_openapi_spec list_schemas : Endpoint
  login exchange_token refresh_token get_me : Endpoint
  list_clients create_client get_client revoke_client : Endpoint
  list_users create_user get_user delete_user list_usage : Endpoint
  create_node list_nodes get_node update_node delete_node : Endpoint
  create_relationship delete_relationship traverse_graph : Endpoint
  subscribe_events replay_events : Endpoint
  list_plugins unload_plugin : Endpoint
  list_telemetry_parsers set_telemetry_parser send_telemetry ingest_telemetry : Endpoint
  send_command list_commands get_command_status cancel_command : Endpoint
  list_command_adapters set_command_adapter : Endpoint

pub data Need : Type 0 where
  nothing authentication : Need
  permission : String → Need

-- The middleware that a route is given.
unfoldable pub need : Endpoint → Need
need health = nothing
need metrics = nothing
need serve_swagger_ui = nothing
need serve_openapi_spec = nothing
need list_schemas = nothing
need login = nothing
need exchange_token = nothing
need refresh_token = authentication
need get_me = authentication
need list_clients = permission "user.manage"
need create_client = permission "user.manage"
need get_client = permission "user.manage"
need revoke_client = permission "user.manage"
need list_users = permission "user.manage"
need create_user = permission "user.manage"
need get_user = permission "user.manage"
need delete_user = permission "user.manage"
need list_usage = permission "user.manage"
need create_node = permission "node.create"
need list_nodes = permission "node.read"
need get_node = permission "node.read"
need update_node = permission "node.update"
need delete_node = permission "node.delete"
need create_relationship = permission "relationship.create"
need delete_relationship = permission "relationship.delete"
need traverse_graph = permission "graph.query"
need subscribe_events = permission "event.subscribe"
need replay_events = permission "event.replay"
need list_plugins = permission "plugin.manage"
need unload_plugin = permission "plugin.manage"
need list_telemetry_parsers = permission "plugin.manage"
need set_telemetry_parser = permission "plugin.manage"
need send_telemetry = permission "plugin.manage"
need ingest_telemetry = authentication
need send_command = permission "command.send"
need list_commands = permission "command.send"
need get_command_status = permission "command.send"
need cancel_command = permission "command.send"
need list_command_adapters = permission "plugin.manage"
need set_command_adapter = permission "plugin.manage"

pub record Headers : Type 0 where
  pub authorization : String
  pub x_api_key : String

unfoldable pub skip : ℕ → String → String
skip zero s = s
skip (suc n) String.[] = String.[]
skip (suc n) (String.◌∷◌ c s) = skip n s

unfoldable pub extract_bearer_token : Headers → String
extract_bearer_token h =
    if not (starts_with h.authorization "Bearer ") then "" else trim_space (skip 7 h.authorization)

abbrev pub first_claims : Option Claims → Option Claims → Option Claims
first_claims (some c) other = some c
first_claims none other = other

-- The middleware's dependencies: the tokens, and the clients, if the service of clients is set.
pub record Authenticator : Type 0 where
  pub jwt : Jwt String
  pub duration : ℕ
  pub compare : String → String → Bool
  pub clients : Option (List Client)

module _ (a : Authenticator) (now : ℕ) where
  abbrev pub claims_of : Option (String × Client) → Option Claims
  claims_of none = none
  claims_of (some (token, c)) = parse a.jwt a.duration now token

  abbrev pub by_token : String → Option Claims
  by_token token = if str_eq token "" then none else parse a.jwt a.duration now token

  abbrev pub by_key : Option (List Client) → String → Option Claims
  by_key none key = none
  by_key (some cs) key =
      if not (str_eq key "") && starts_with key "aos_"
      then claims_of (exchange_api_key a.jwt a.duration a.compare now key cs)
      else none

  abbrev pub key_of : Headers → String
  key_of h =
      if str_eq (extract_bearer_token h) "" then trim_space h.x_api_key else extract_bearer_token h

  -- `APIAuthMiddleware`; `none` is its answer 401.
  unfoldable pub api_auth : Headers → Option Claims
  api_auth h = first_claims (by_token (extract_bearer_token h)) (by_key a.clients (key_of h))

-- `RequirePermission`; `none` lets the request through.
unfoldable pub require_permission : String → Option Claims → Option ℕ
require_permission p none = some 401
require_permission p (some c) = if has_permission c.roles p then none else some 403

abbrev pub require_claims : Option Claims → Option ℕ
require_claims none = some 401
require_claims (some c) = none

abbrev pub required : Need → Option Claims → Option ℕ
required nothing c = none
required authentication c = require_claims c
required (permission p) c = require_permission p c

-- What stands before a handler: nothing, if authentication is switched off.
unfoldable pub guard : Option Authenticator → ℕ → Endpoint → Headers → Option ℕ
guard none now e h = none
guard (some a) now e h = required (need e) (api_auth a now h)

abbrev pub community_check : Claims → Answer Node → Option ℕ
community_check c (Graph.err (Graph.not_found id)) = some 404
community_check c (Graph.err e) = some 500
community_check c (Graph.ok n) =
    if str_eq c.community_id "" || not (str_eq c.community_id n.owner_community_id)
    then some 403
    else none

-- `RequireNodeAccess`, with the answer of the graph's GetNode.
unfoldable pub require_node_access : Option Claims → String → Answer Node → Option ℕ
require_node_access none id answer = some 401
require_node_access (some c) id answer =
    if contains "admin" c.roles
    then none
    else if str_eq id ""
    then none
    else community_check c answer
