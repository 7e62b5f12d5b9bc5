-- ===== src/Auth/Tests.antt =====
-- The default roles on concrete permissions.
use openspace_os_core.Auth.Users.{
  find_username, login-create_user, find_user, insert_user, new_row, login, create_user, User,
}
use openspace_os_core.Base.{refl, inr, ◌≡◌, String, List, [], ◌∷◌}
use openspace_os_core.Auth.{str_eq, some, Option}

abbrev unknown_roles : List String
unknown_roles = "guest" ∷ []

abbrev viewer_roles : List String
viewer_roles = "viewer" ∷ []

abbrev new_user : User
new_user = record {
  user_id = "";
  username = "ann";
  password = "";
  roles = "viewer" ∷ [];
  community_id = "c";
  created_at = 0;
  updated_at = 0;
}

abbrev marked : String → Option String
marked p = some p

abbrev ann : User
ann = new_row "u1" 5 new_user "secret"

created : create_user marked "u1" 5 (some new_user) "secret" [] ≡ inr (ann ∷ [])
unfolding create_user insert_user find_user find_username
created = refl

login-create_user_example :
    login (λ h p. str_eq h p) (λ u. some u.user_id) "ann" "secret" (ann ∷ []) ≡ inr "u1"
login-create_user_example =
    login-create_user marked (λ h p. str_eq h p) (λ u. some u.user_id) "u1" 5 new_user "secret"
      "secret" [] (ann ∷ []) "u1" refl refl refl created
