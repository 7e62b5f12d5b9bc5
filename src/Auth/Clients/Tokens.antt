-- ===== src/Auth/Clients/Tokens.antt =====
-- What revoking a client does to its keys and tokens (internal/auth/client_service.go, jwt.go).
use openspace_os_core.Base.{
  if_cases, ℕ, ◌%◌, none, Option, ◌<◌, String, Bool, true, false, not, ◌&&◌, some, List, [], ◌∷◌,
  ◌≡◌, ◌≢◌, ◌∙◌, refl, sym, ap, subst, arith, str_eq, eq_iff, Option-cases, Bool-cases, inl, inr,
  ◌⊎◌,
}
use openspace_os_core.Auth.Clients.{
  Client, Claims, Jwt, verify_api_key, match_client, find_client, updated_client, write_client,
  revoke_client,
}

abbrev WholeSecond : Option ℕ → Type 0
WholeSecond none = Unit
WholeSecond (some t) = t % 1000000000 ≡ 0

-- The times of the claims are whole seconds, which is all that a token keeps of them.
abbrev pub InSeconds : Claims → Type 0
InSeconds c = (c.issued_at % 1000000000 ≡ 0) × WholeSecond c.expires_at

-- What the library's documents promise: of a signed token claims in whole seconds are read back, and a
-- token whose time has not run out passes its checks.
pub record IsJwt {T : Type 0} (jwt : Jwt T) : Type 0 where
  pub read-sign : (c : Claims) (t : T) → InSeconds c → jwt.sign c ≡ some t → jwt.read t ≡ some c
  pub valid : (now e : ℕ) (c : Claims) → c.expires_at ≡ some e → now < e → jwt.valid_at now c ≡ true

module _ (compare : String → String → Bool) (key : String) where
  first-match :
      (d x : Client) (xs : List Client)
      → match_client compare key (x ∷ xs) ≡ some d
      → ((x ≡ d) × (str_eq x.status "revoked" ≡ false)) ⊎ (match_client compare key xs ≡ some d)
  unfolding match_client
  first-match d x xs h = elim (Bool-cases (str_eq x.status "revoked")) [
    | inl e ↦ inr (ground (arith, e, h))
    | inr e ↦
        elim (Bool-cases
          (not (str_eq x.api_key_hash "") && verify_api_key compare key x.api_key_hash)) [
            | inl f ↦ inl (ground (arith, e, f, h), e)
            | inr f ↦ inr (ground (arith, e, f, h))
          ]
  ]

  match_client-write_client :
      (c d : Client) (cs : List Client)
      → c.status ≡ "revoked"
      → match_client compare key (write_client c cs) ≡ some d
      → str_eq d.client_id c.client_id ≡ false
  unfolding match_client write_client
  match_client-write_client c d [] r h = ground arith
  match_client-write_client c d (e ∷ es) r h =
      let marked : str_eq c.status "revoked" ≡ true = (eq_iff c.status "revoked").1 r in
      elim (first-match d (updated_client c e) (write_client c es) h) [
        | inl (same, active) ↦
            if_cases
              (λ (x : Client).
                x ≡ d → str_eq x.status "revoked" ≡ false → str_eq d.client_id c.client_id ≡ false)
              (str_eq e.client_id c.client_id) (λ _ _ a. absurd (ground (arith, marked, a)))
              (λ other s _. subst (λ (x : Client). str_eq x.client_id c.client_id ≡ false) s other)
              same active
        | inr rest ↦ match_client-write_client c d es r rest
      ]

  find_client-id :
      (id : String) (c : Client) (cs : List Client) → find_client id cs ≡ some c → c.client_id ≡ id
  unfolding find_client
  find_client-id id c [] h = ground arith
  find_client-id id c (d ∷ ds) h = elim (Bool-cases (str_eq d.client_id id)) [
    | inl e ↦
        let same : d ≡ c = ground (arith, e, h) in
        ap (λ (x : Client). x.client_id) (sym same) ∙ (eq_iff d.client_id id).0 e
    | inr e ↦ find_client-id id c ds (ground (arith, e, h))
  ]

  -- Once a client is revoked, no key is exchanged for a token of it.
  pub match_client-revoke_client :
      (id : String) (d : Client) (cs rows : List Client)
      → revoke_client id cs ≡ (true, rows)
      → match_client compare key rows ≡ some d
      → d.client_id ≢ id
  unfolding revoke_client
  match_client-revoke_client id d cs rows done h e = elim (Option-cases (find_client id cs)) [
    | inl none_there ↦ ground (arith, none_there, done)
    | inr (c, there) ↦
        let gone = record c { status = "revoked"; api_key_hash = "" } in
        let written : write_client gone cs ≡ rows = ground (arith, there, done) in
        let other =
          match_client-write_client gone d cs refl (ap (match_client compare key) written ∙ h) in
        ground (arith, other, e, find_client-id id c cs there, eq_iff d.client_id c.client_id)
  ]
