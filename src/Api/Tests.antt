-- ===== src/Api/Tests.antt =====
-- Requests to a small graph by an operator's token and by a client's key, and the theorems on them.
use openspace_os_core.Base.{
  ℕ, suc, pos, ◌≡◌, ◌↔◌, ◌⊎◌, refl, arith, String, true, false, none, some, List, [], ◌∷◌, str_eq,
  eq_iff, if◌then◌else◌,
}
use openspace_os_core.Bus.{MessageBus}
use openspace_os_core.Model.{Relationship}
use openspace_os_core.Auth.{has_permission}
use openspace_os_core.Auth.Clients.{Claims}
use openspace_os_core.Auth.Users.{can_access_node}
use openspace_os_core.Graph
use openspace_os_core.Graph.Rules.{Rearranges}
use openspace_os_core.Graph.Service.{Stamp}
use openspace_os_core.Command.Queue.{new_priority_queue}
use openspace_os_core.Command.Queue.Valid.{new_priority_queue-IsValid}
use openspace_os_core.Api.{Headers, Authenticator, need, permission, require_node_access, skip}
use openspace_os_core.Api.Handlers.{
  ApiState, Call, CreateNodeRequest, requested_node, endpoint, serve, error, create_node,
  send_command, cancel_command, remove_node, run_requests,
}
use openspace_os_core.Api.Access.{Comes, require_node_access_iff}
use openspace_os_core.Api.Authorized.{IsRefusal, serve-authorized}
use openspace_os_core.Api.Safe.{IsSound, run_requests-IsSound}

abbrev counting_bus : MessageBus ℕ
counting_bus = record { publish = λ n e. (none, suc n) }

abbrev same_order : List Relationship → List Relationship
same_order rs = rs

same_order-Rearranges : Rearranges same_order
same_order-Rearranges = record { counts = λ p rs. refl; rows = λ rs r h. h }

abbrev node_request : CreateNodeRequest
node_request = record {
  node_id = "a";
  node_type = "Satellite";
  name = "A";
  status = "active";
  owner_community_id = "c";
  shard_key = "";
  federation_id = "";
  properties = none;
}

abbrev operator : Claims
operator = record {
  subject_type = "human";
  user_id = "u";
  client_id = "";
  username = "ann";
  roles = "operator" ∷ [];
  community_id = "c";
  issuer = "";
  subject = "u";
  audience = [];
  issued_at = 0;
  expires_at = none;
}

-- Tokens that only "good" names, and no clients.
abbrev authenticator : Authenticator
authenticator = record {
  jwt = record {
    sign = λ c. some "good";
    read = λ t. if str_eq t "good" then some operator else none;
    valid_at = λ now c. true;
  };
  duration = 3600000000000;
  compare = λ hash key. false;
  clients = none;
}

abbrev bearer : String → Headers
bearer t = record { authorization = t; x_api_key = "" }

abbrev stamp : Stamp
stamp = record { event_id = "e"; now = 5; trace_id = "" }

abbrev api : ApiState ℕ
api = record {
  kg = record {
    db = record { tables = record { nodes = []; relationships = [] }; faults = none ∷ none ∷ [] };
    bus = 0;
    hooked = false;
    transactional = true;
    calls = [];
  };
  queue = some new_priority_queue;
}

api-IsSound : IsSound api
api-IsSound = record {
  graph = record { nodes = tt; rels = tt; linked = tt };
  commands = new_priority_queue-IsValid;
}

abbrev requests : List (ℕ × Headers × Call)
requests =
    (5, bearer "Bearer good", create_node 5 stamp stamp (some node_request))
    ∷ (
      6,
      bearer "Bearer good",
      send_command 6 "k" (
          some (record {
            satellite_id = "a";
            command_type = "ping";
            parameters = none;
            priority = pos 1;
          })),
    )
    ∷ (7, bearer "Bearer good", cancel_command "k")
    ∷ (8, bearer "Bearer bad", remove_node stamp "a")
    ∷ []

bearer_token : skip 7 "Bearer good" ≡ "good"
unfolding skip
bearer_token = refl

run_requests-IsSound_example :
    IsSound (run_requests counting_bus same_order (some authenticator) requests api)
run_requests-IsSound_example =
    run_requests-IsSound counting_bus same_order-Rearranges (some authenticator) requests api
      api-IsSound

serve-authorized_example :
    ((code : ℕ) × IsRefusal code
      × (serve counting_bus same_order
            (some authenticator)
            8
            (bearer "Bearer bad")
            (remove_node stamp "a")
            api
          ≡ error code api))
    ⊎ ((p : String) × (need (endpoint (remove_node stamp "a")) ≡ permission p)
        × (d : Claims) × Comes authenticator 8 (bearer "Bearer bad") d
        × (has_permission d.roles p ≡ true))
serve-authorized_example =
    serve-authorized counting_bus same_order authenticator 8 (bearer "Bearer bad")
      (remove_node stamp "a") api

require_node_access_iff_example :
    (require_node_access (some operator) "a" (Graph.ok (requested_node node_request)) ≡ none) ↔ (
      can_access_node operator.roles operator.community_id
        (requested_node node_request).owner_community_id
      ≡ true)
require_node_access_iff_example =
    require_node_access_iff operator "a" (requested_node node_request)
      (λ e. ground (arith, e, eq_iff "a" ""))
