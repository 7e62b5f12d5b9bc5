-- ===== src/Auth.antt =====
-- Roles and permissions: internal/auth/roles.go. The map of the default roles is an association list.
pub mod Roles
pub mod Clients
pub mod Users
pub mod Tests
use openspace_os_core.Base.{
  String, Bool, true, false, Option, none, some, List, [], ◌∷◌, if◌then◌else◌, str_eq, lookup,
}

pub record Role : Type 0 where
  pub name : String
  pub permissions : List String

unfoldable pub default_roles : List (String × Role)
default_roles =
    (
      "admin",
      record {
        name = "admin";
        permissions =
            "node.create" ∷ "node.read" ∷ "node.update" ∷ "node.delete" ∷ "relationship.create"
            ∷ "relationship.delete" ∷ "graph.query" ∷ "event.publish" ∷ "event.subscribe"
            ∷ "event.replay" ∷ "command.send" ∷ "plugin.manage" ∷ "user.manage" ∷ [];
      },
    )
    ∷ (
      "operator",
      record {
        name = "operator";
        permissions =
            "node.create" ∷ "node.read" ∷ "node.update" ∷ "relationship.create" ∷ "graph.query"
            ∷ "event.publish" ∷ "event.subscribe" ∷ "event.replay" ∷ "command.send" ∷ [];
      },
    )
    ∷ (
      "viewer",
      record {
        name = "viewer";
        permissions = "node.read" ∷ "graph.query" ∷ "event.subscribe" ∷ "event.replay" ∷ [];
      },
    )
    ∷ []

-- The inner loop.
unfoldable pub permits : String → List String → Bool
permits permission [] = false
permits permission (p ∷ ps) = if str_eq p permission then true else permits permission ps

abbrev pub role_permits : String → Option Role → Bool
role_permits permission none = false
role_permits permission (some role) = permits permission role.permissions

unfoldable pub has_permission : List String → String → Bool
unfolding default_roles permits
has_permission [] permission = false
has_permission (role ∷ roles) permission =
    if role_permits permission (lookup role default_roles)
    then true
    else has_permission roles permission
