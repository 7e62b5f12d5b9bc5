-- ===== src/Auth/Users.antt =====
-- Users: internal/auth/service.go over the table of store.go, whose user id and user name are unique.
-- bcrypt and the signing of tokens are arguments, and so are fresh ids and the clock; the database is
-- taken to answer.
use openspace_os_core.Base.{
  subst, ℕ, ◌==◌, String, Bool, true, not, ◌&&◌, ◌||◌, Option, none, some, List, [], ◌∷◌, ◌++◌,
  if◌then◌else◌, str_eq, eq_iff, ◌≡◌, refl, arith, Bool-cases, inl, inr, ◌⊎◌,
}
use openspace_os_core.Event.Schema.{contains}

pub record User : Type 0 where
  pub user_id : String
  pub username : String
  pub password : String
  pub roles : List String
  pub community_id : String
  pub created_at : ℕ
  pub updated_at : ℕ

pub data UserError : Type 0 where
  nil_user no_username no_password not_hashed duplicate_user : UserError
  invalid_credentials not_signed : UserError

unfoldable pub find_username : String → List User → Option User
find_username name [] = none
find_username name (u ∷ us) = if str_eq u.username name then some u else find_username name us

unfoldable pub find_user : String → List User → Option User
find_user id [] = none
find_user id (u ∷ us) = if str_eq u.user_id id then some u else find_user id us

abbrev pub inserted_user : User → List User → Option User → Option User → UserError ⊎ List User
inserted_user u us none none = inr (us ++ (u ∷ []))
inserted_user u us _ _ = inl duplicate_user

-- `Create` of the store.
unfoldable pub insert_user : User → List User → UserError ⊎ List User
insert_user u us = inserted_user u us (find_user u.user_id us) (find_username u.username us)

-- The row of a new user: a fresh id and the time, where none is given.
abbrev pub new_row : String → ℕ → User → String → User
new_row fresh now u hashed = record u {
  user_id = if str_eq u.user_id "" then fresh else u.user_id;
  password = hashed;
  created_at = if u.created_at == 0 then now else u.created_at;
  updated_at = now;
}

module _ (hash : String → Option String) where
  abbrev pub create_hashed : String → ℕ → User → List User → Option String → UserError ⊎ List User
  create_hashed fresh now u us none = inl not_hashed
  create_hashed fresh now u us (some hashed) = insert_user (new_row fresh now u hashed) us

  -- `CreateUser`.
  unfoldable pub create_user : String → ℕ → Option User → String → List User → UserError ⊎ List User
  create_user fresh now none plain us = inl nil_user
  create_user fresh now (some u) plain us =
      if str_eq u.username ""
      then inl no_username
      else if str_eq plain ""
      then inl no_password
      else create_hashed fresh now u us (hash plain)

  -- `EnsureDefaultAdmin`.
  unfoldable pub ensure_default_admin : String → ℕ → List User → UserError ⊎ List User
  ensure_default_admin fresh now (u ∷ us) = inr (u ∷ us)
  ensure_default_admin fresh now [] =
      create_hashed fresh now
        (record {
          user_id = fresh;
          username = "admin";
          password = "";
          roles = "admin" ∷ [];
          community_id = "";
          created_at = now;
          updated_at = now;
        })
        [] (hash "admin123")

module _ {T : Type 0} (check : String → String → Bool) (generate : User → Option T) where
  abbrev pub checked : String → Option User → UserError ⊎ T
  checked plain none = inl invalid_credentials
  checked plain (some u) =
      if not (check u.password plain)
      then inl invalid_credentials
      else elim (generate u) [ none ↦ inl not_signed | some t ↦ inr t ]

  -- `Login`.
  unfoldable pub login : String → String → List User → UserError ⊎ T
  login name plain us = checked plain (find_username name us)

-- `CanAccessNode`, of claims with these roles and this community.
unfoldable pub can_access_node : List String → String → String → Bool
can_access_node roles community owner =
    contains "admin" roles || (not (str_eq community "") && str_eq community owner)

find_username-append :
    (name : String) (u : User) (us : List User)
    → find_username name us ≡ none
    → u.username ≡ name
    → find_username name (us ++ (u ∷ [])) ≡ some u
unfolding find_username
find_username-append name u [] h e = ground (arith, e, eq_iff u.username name)
find_username-append name u (v ∷ vs) h e = elim (Bool-cases (str_eq v.username name)) [
  | inl f ↦ absurd (ground (arith, f, h))
  | inr f ↦ ground (arith, f, h, find_username-append name u vs (ground (arith, f, h)) e)
]

insert_user-find_username :
    (u : User) (us vs : List User)
    → insert_user u us ≡ inr vs
    → find_username u.username vs ≡ some u
unfolding insert_user
insert_user-find_username u us vs h = by_cases _ _ refl refl h
  where
    by_cases :
        (a b : Option User)
        → find_user u.user_id us ≡ a
        → find_username u.username us ≡ b
        → inserted_user u us a b ≡ inr vs
        → find_username u.username vs ≡ some u
    by_cases none none ea eb h =
        let same : us ++ (u ∷ []) ≡ vs = ground (arith, h) in
        subst (λ ws. find_username u.username ws ≡ some u) same
          (find_username-append u.username u us eb refl)
    by_cases none (some b) ea eb h = absurd (ground (arith, h))
    by_cases (some a) b ea eb h = absurd (ground (arith, h))

-- Who has just been created can log in with the same password, if the stored hash is that of the
-- password and the token can be signed.
pub login-create_user :
    {T : Type 0} (hash : String → Option String) (check : String → String → Bool)
    (generate : User → Option T) (fresh : String) (now : ℕ) (u : User) (plain hashed : String)
    (us vs : List User) (t : T)
    → hash plain ≡ some hashed
    → check hashed plain ≡ true
    → generate (new_row fresh now u hashed) ≡ some t
    → create_user hash fresh now (some u) plain us ≡ inr vs
    → login check generate u.username plain vs ≡ inr t
unfolding create_user login
login-create_user hash check generate fresh now u plain hashed us vs t eh ec eg h =
    let row = new_row fresh now u hashed in
    let stored : insert_user row us ≡ inr vs = ground (arith, eh, h) in
    let found = insert_user-find_username row us vs stored in ground (arith, found, ec, eg)
