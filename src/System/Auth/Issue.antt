-- ===== src/System/Auth/Issue.antt =====
-- system/internal/service/auth_service.go: the calls by which `Login` and `Refresh` issue the tokens
-- of a user.
use zeus_be.Prelude.{
  ℤ, pos, ◌+ℤ◌, String, Option, none, some, ◌≡◌, refl, sym, subst, Runs, pure-Runs, discard-Runs,
  >>=-Runs,
}
use zeus_be.System.Auth.{
  AuthDeps, RefreshRepo, User, TokenPair, save_token, issue_tokens, generate_access_token,
  generate_refresh_token,
}

module _ {W : Type 0} (D : AuthDeps W) where
  -- Where there is a repository, it is told whose the refresh token is.
  abbrev pub IsTold : Option (RefreshRepo W) → String → String → W → W → Type 0
  IsTold none jti user_id w v = v ≡ w
  IsTold (some repo) jti user_id w v = v ≡ (repo.save_refresh_token jti user_id w).1

  -- The access token of a user, for 15 minutes, from one world to another.
  pub record IsAccess (user : User) (w : W) (token : String) (v : W) : Type 0 where
    pub at : ℤ
    pub id : String
    pub timed : W
    pub named : W
    pub clock : Runs D.now w at timed
    pub fresh : Runs D.new_uuid timed id named
    pub signed :
        Runs
          (D.sign_access (record {
            user_id = user.id;
            role = user.role;
            email = user.email;
            full_name = user.full_name;
            status = user.status;
            registered = record {
              id = id;
              expires_at = at +ℤ pos 900000000000;
              issued_at = at;
              issuer = "zeus-system";
            };
          }))
          named
          token
          v

  -- The refresh token of a user, for 7 days, under an id that is given.
  pub record IsRefresh (user : User) (w : W) (token jti : String) (v : W) : Type 0 where
    pub at : ℤ
    pub issued_at : ℤ
    pub named : W
    pub timed : W
    pub timed_again : W
    pub fresh : Runs D.new_uuid w jti named
    pub clock : Runs D.now named at timed
    pub clock_again : Runs D.now timed issued_at timed_again
    pub signed :
        Runs
          (D.sign_refresh (record {
            jti = jti;
            sub = user.id;
            registered = record {
              id = "";
              expires_at = at +ℤ pos 604800000000000;
              issued_at = issued_at;
              issuer = "zeus-system";
            };
          }))
          timed_again
          token
          v

  -- Both tokens of a user, the session of the refresh token, and no other call.
  pub record IsIssued (user : User) (w : W) (tokens : TokenPair) (v : W) : Type 0 where
    pub jti : String
    pub at : ℤ
    pub accessed : W
    pub refreshed : W
    pub informed : W
    pub timed : W
    pub access : IsAccess user w tokens.access_token accessed
    pub refresh : IsRefresh user accessed tokens.refresh_token jti refreshed
    pub told : IsTold D.refresh_repo jti user.id refreshed informed
    pub clock : Runs D.now informed at timed
    pub session :
        Runs
          (D.create_session (record {
            user_id = user.id;
            user_email = user.email;
            jti = jti;
            expires_at = at +ℤ pos 604800000000000;
          }))
          timed
          tt
          v
    pub is_bearer : tokens.token_type ≡ "Bearer"
    pub lasts : tokens.expires_in ≡ pos 900

  save_token-IsTold :
      (repo : Option (RefreshRepo W)) (jti user_id : String) (w v : W)
      → Runs (save_token D repo jti user_id) w tt v
      → IsTold repo jti user_id w v
  unfolding save_token
  save_token-IsTold none jti user_id w v h = sym (pure-Runs tt tt w v h).1
  save_token-IsTold (some repo) jti user_id w v h =
      discard-Runs (repo.save_refresh_token jti user_id) w v h

  generate_access_token-IsAccess :
      (user : User) (w : W) (token : String) (v : W)
      → Runs
          (generate_access_token D user.id user.role user.email user.full_name user.status)
          w
          token
          v
      → IsAccess user w token v
  unfolding generate_access_token
  generate_access_token-IsAccess user w token v h =
      let (at, w₁, clock, h₁) = >>=-Runs D.now _ w token v h in
      let (id, w₂, fresh, signed) = >>=-Runs D.new_uuid _ w₁ token v h₁ in
      record {
        at = at;
        id = id;
        timed = w₁;
        named = w₂;
        clock = clock;
        fresh = fresh;
        signed = signed;
      }

  generate_refresh_token-IsRefresh :
      (user : User) (w : W) (issued : String × String) (v : W)
      → Runs (generate_refresh_token D user.id) w issued v
      → IsRefresh user w issued.0 issued.1 v
  unfolding generate_refresh_token
  generate_refresh_token-IsRefresh user w issued v h =
      let (jti, w₁, fresh, h₁) = >>=-Runs D.new_uuid _ w issued v h in
      let (at, w₂, clock, h₂) = >>=-Runs D.now _ w₁ issued v h₁ in
      let (issued_at, w₃, clock_again, h₃) = >>=-Runs D.now _ w₂ issued v h₂ in
      let (token, w₄, signed, h₄) = >>=-Runs _ _ w₃ issued v h₃ in
      let (same, last) = pure-Runs (token, jti) issued w₄ v h₄ in
      let known : IsRefresh user w token jti w₄ = record {
        at = at;
        issued_at = issued_at;
        named = w₁;
        timed = w₂;
        timed_again = w₃;
        fresh = fresh;
        clock = clock;
        clock_again = clock_again;
        signed = signed;
      } in
      subst (λ x. IsRefresh user w issued.0 issued.1 x) last
        (subst (λ p. IsRefresh user w p.0 p.1 w₄) same known)

  pub issue_tokens-IsIssued :
      (user : User) (w : W) (tokens : TokenPair) (v : W)
      → Runs (issue_tokens D user) w tokens v
      → IsIssued user w tokens v
  unfolding issue_tokens
  issue_tokens-IsIssued user w tokens v h =
      let (access_token, w₁, access, h₁) = >>=-Runs _ _ w tokens v h in
      let (issued, w₂, refresh, h₂) =
        >>=-Runs (generate_refresh_token D user.id) _ w₁ tokens v h₁ in
      let (_, w₃, saved, h₃) = >>=-Runs _ _ w₂ tokens v h₂ in
      let (at, w₄, clock, h₄) = >>=-Runs D.now _ w₃ tokens v h₃ in
      let (_, w₅, session, h₅) = >>=-Runs _ _ w₄ tokens v h₄ in
      let (same, last) = pure-Runs _ tokens w₅ v h₅ in
      let pair : TokenPair = record {
        access_token = access_token;
        refresh_token = issued.0;
        token_type = "Bearer";
        expires_in = pos 900;
      } in
      let made : IsIssued user w pair w₅ = record {
        jti = issued.1;
        at = at;
        accessed = w₁;
        refreshed = w₂;
        informed = w₃;
        timed = w₄;
        access = generate_access_token-IsAccess user w access_token w₁ access;
        refresh = generate_refresh_token-IsRefresh user w₁ issued w₂ refresh;
        told = save_token-IsTold D.refresh_repo issued.1 user.id w₂ w₃ saved;
        clock = clock;
        session = session;
        is_bearer = refl;
        lasts = refl;
      } in
      subst (λ t. IsIssued user w t v) same (subst (λ x. IsIssued user w pair x) last made)
