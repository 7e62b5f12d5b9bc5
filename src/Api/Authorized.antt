-- ===== src/Api/Authorized.antt =====
-- Whose requests to the REST API are served (internal/api/rest/router.go, internal/auth/middleware.go).
use openspace_os_core.Base.{
  ℕ, ◌≡◌, refl, ◌⊎◌, inl, inr, subst, String, true, Option, none, some, List, arith, Option-cases,
}
use openspace_os_core.Bus.{MessageBus}
use openspace_os_core.Model.{Relationship}
use openspace_os_core.Api.{
  Endpoint, Headers, Authenticator, guard, need, nothing, authentication, permission, Need,
  required, require_permission, api_auth,
}
use openspace_os_core.Auth.{has_permission}
use openspace_os_core.Auth.Clients.{Claims}
use openspace_os_core.Api.Handlers
use openspace_os_core.Api.Handlers.{
  ApiState, Call, Response, Body, CreateNodeRequest, SendCommandRequest, CreateRelationshipRequest,
  node_request_ok, requested_node, endpoint, handle, guarded, serve, error, respond, sent_response,
  cancel_response, handle_create_node, handle_get_node, handle_update_node, handle_delete_node,
  handle_create_relationship, handle_delete_relationship, handle_traverse, then_delete,
  with_pipeline, send_decoded, create_node, get_one_node, change_node, remove_node, send_command,
  command_status, cancel_command, run_requests, rel_request_ok, requested_rel, status_response,
}
use openspace_os_core.Api.Access.{Comes, Granted, guard-Granted}

endpoint-permission : (c : Call) → (p : String) × (need (endpoint c) ≡ permission p)
unfolding need endpoint
endpoint-permission (create_node now st1 st2 body) = (_, refl)
endpoint-permission (get_one_node id) = (_, refl)
endpoint-permission (change_node now st1 st2 id body) = (_, refl)
endpoint-permission (remove_node st id) = (_, refl)
endpoint-permission (Handlers.relate now st uuid from body) = (_, refl)
endpoint-permission (Handlers.unrelate st id) = (_, refl)
endpoint-permission (Handlers.traverse id direction type depth) = (_, refl)
endpoint-permission (send_command now uuid body) = (_, refl)
endpoint-permission (command_status id) = (_, refl)
endpoint-permission (cancel_command id) = (_, refl)

-- The refusals of what stands before a handler.
abbrev pub IsRefusal : ℕ → Type 0
IsRefusal code = (code ≡ 401) ⊎ (code ≡ 403)

required-IsRefusal :
    (n : Need) (c : Option Claims) (code : ℕ) → required n c ≡ some code → IsRefusal code
unfolding require_permission
required-IsRefusal nothing c code e = absurd (ground arith)
required-IsRefusal authentication none code e = inl (ground arith)
required-IsRefusal authentication (some d) code e = absurd (ground arith)
required-IsRefusal (permission p) none code e = inl (ground arith)
required-IsRefusal (permission p) (some d) code e = inr (ground arith)

guard-IsRefusal :
    (a : Authenticator) (now : ℕ) (e : Endpoint) (h : Headers) (code : ℕ)
    → guard (some a) now e h ≡ some code
    → IsRefusal code
unfolding guard
guard-IsRefusal a now e h code g = required-IsRefusal (need e) (api_auth a now h) code g

module _ {B : Type 0} (b : MessageBus B) (by_age : List Relationship → List Relationship)
    (a : Authenticator) (now : ℕ) (headers : Headers) (c : Call) (s : ApiState B) where
  -- With authentication switched on, a request to one of the modelled handlers is refused with 401 or 403 and changes nothing, or it has
  -- claims that come from a good token, or from the key of a client that is not revoked, and their roles
  -- have the permission that the route asks for.
  pub serve-authorized :
      ((code : ℕ) × IsRefusal code × (serve b by_age (some a) now headers c s ≡ error code s))
      ⊎ ((p : String) × (need (endpoint c) ≡ permission p)
          × (d : Claims) × Comes a now headers d
          × (has_permission d.roles p ≡ true))
  unfolding serve
  serve-authorized = elim (Option-cases (guard (some a) now (endpoint c) headers)) [
    | inr (code, e) ↦
        inl (code, guard-IsRefusal a now (endpoint c) headers code e, rw (e, serve) refl)
    | inl e ↦
        let (p, needs) = endpoint-permission c in
        let (d, comes, granted) =
          guard-Granted a now (endpoint c) headers e (λ n. ground (arith, n, needs)) in
        inr (p, needs, d, comes, subst (λ n. Granted a now n d) needs granted)
  ]
