-- ===== src/Auth/Roles.antt =====
-- What roles grant (internal/auth/roles.go).
use openspace_os_core.Base.{
  if◌then◌else◌, ◌&&◌, ap, ◌∙◌, ◌≡◌, refl, arith, String, Bool, true, false, List, [], ◌∷◌, ◌++◌,
  ◌||◌, lookup,
}
use openspace_os_core.Auth.{default_roles, permits, role_permits, has_permission}

if_or : (c x y : Bool) → (if c then true else (x || y)) ≡ ((if c then true else x) || y)
if_or true x y = refl
if_or false x y = refl

-- Two lists of roles grant what either of them grants.
pub has_permission-append :
    (roles others : List String) (permission : String)
    → has_permission (roles ++ others) permission
      ≡ (has_permission roles permission || has_permission others permission)
unfolding has_permission
has_permission-append [] others permission = refl
has_permission-append (role ∷ roles) others permission =
    let granted = role_permits permission (lookup role default_roles) in
    ap (λ rest. if granted then true else rest) (has_permission-append roles others permission)
    ∙ if_or granted (has_permission roles permission) (has_permission others permission)

abbrev pub may : String → String → Bool
may permission role = has_permission (role ∷ []) permission

-- Every permission of a viewer is one of an operator, and every permission of an operator is one of
-- an admin.
pub default_roles-nested :
    (permission : String)
    → ((may permission "viewer" && may permission "operator") ≡ may permission "viewer")
      × ((may permission "operator" && may permission "admin") ≡ may permission "operator")
unfolding has_permission default_roles permits
default_roles-nested permission = (ground arith, ground arith)
