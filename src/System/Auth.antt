-- ===== src/System/Auth.antt =====
-- system/internal/service/auth_service.go: login, refresh, logout and the reading of tokens.
mod Model
pub mod Rotation
pub mod Issue
pub mod Blacklist
mod Tests
pub use Model.*
use zeus_be.Prelude.{
  ℤ, pos, ◌+ℤ◌, ltb_ℤ, String, str_eq, Bool, true, false, not, Option, none, some, Action, Done,
  pure, raise, discard, attempt, or_error, ensure, ◌>>=◌, ◌>>◌, if◌then◌else◌,
}
use zeus_be.System.Errors.{SystemError, unauthorized}
use Model.{
  User, Session, RegisteredClaims, JwtAccessClaims, JwtRefreshClaims, JwtClaims, TokenPair,
  AuthLoginResult,
}

-- `repository.RefreshTokenRepository`, what the service calls of it.
pub record RefreshRepo (W : Type 0) : Type 0 where
  pub save_refresh_token : String → String → Action W SystemError Done
  pub check_refresh_token : String → Action W SystemError String
  pub delete_user_tokens : String → Action W SystemError Done
  pub blacklist_access_token : String → ℤ → Action W SystemError Done
  pub is_access_token_blacklisted : String → Action W SystemError Bool

-- What `authService` calls: the user service, the sessions, the repository of refresh tokens where
-- there is one, the clock, and the JWT and UUID packages with the service's key. `parse_access`
-- and `parse_refresh` give none for a token that is parsed and not valid.
pub record AuthDeps (W : Type 0) : Type 0 where
  pub authenticate : String → String → Action W SystemError User
  pub get_by_id : String → Action W SystemError User
  pub refresh_repo : Option (RefreshRepo W)
  pub create_session : Session → Action W SystemError Done
  pub get_by_jti : String → Action W SystemError (Option Session)
  pub delete_by_jti : String → Action W SystemError Done
  pub delete_by_user_id : String → Action W SystemError Done
  pub sign_access : JwtAccessClaims → Action W SystemError String
  pub sign_refresh : JwtRefreshClaims → Action W SystemError String
  pub parse_access : String → Action W SystemError (Option JwtAccessClaims)
  pub parse_refresh : String → Action W SystemError (Option JwtRefreshClaims)
  pub parse_uuid : String → Option String
  pub new_uuid : Action W SystemError String
  pub now : Action W SystemError ℤ
  pub time_until : ℤ → Action W SystemError ℤ

-- 15 minutes, and 7 days
abbrev pub access_token_duration : ℤ
access_token_duration = pos 900000000000

abbrev pub refresh_token_duration : ℤ
refresh_token_duration = pos 604800000000000

module _ {W : Type 0} (D : AuthDeps W) where
  open D use {
    authenticate, get_by_id, refresh_repo, create_session, get_by_jti, delete_by_jti,
    delete_by_user_id, sign_access, sign_refresh, parse_access, parse_refresh, parse_uuid, new_uuid,
    now, time_until,
  }

  unfoldable pub generate_access_token :
      String → String → String → String → String → Action W SystemError String
  generate_access_token user_id role email full_name status = do
    t ← now
    id ← new_uuid
    sign_access (record {
      user_id = user_id;
      role = role;
      email = email;
      full_name = full_name;
      status = status;
      registered = record {
        id = id;
        expires_at = t +ℤ access_token_duration;
        issued_at = t;
        issuer = "zeus-system";
      };
    })

  unfoldable pub generate_refresh_token : String → Action W SystemError (String × String)
  generate_refresh_token user_id = do
    jti ← new_uuid
    t ← now
    u ← now
    token ← sign_refresh (record {
      jti = jti;
      sub = user_id;
      registered = record {
        id = "";
        expires_at = t +ℤ refresh_token_duration;
        issued_at = u;
        issuer = "zeus-system";
      };
    })
    pure (token, jti)

  unfoldable pub save_token : Option (RefreshRepo W) → String → String → Action W SystemError Done
  save_token none jti user_id = pure tt
  save_token (some repo) jti user_id = discard (repo.save_refresh_token jti user_id)

  -- Both tokens of a user with the session of the refresh token: the lines that `Login` and
  -- `Refresh` have in common. The pair comes with the refresh token's `jti`.
  unfoldable pub issue_tokens : User → Action W SystemError TokenPair
  unfolding generate_access_token generate_refresh_token save_token
  issue_tokens user = do
    access_token ← generate_access_token user.id user.role user.email user.full_name user.status
    issued ← generate_refresh_token user.id
    save_token refresh_repo issued.1 user.id
    t ← now
    create_session (record {
      user_id = user.id;
      user_email = user.email;
      jti = issued.1;
      expires_at = t +ℤ refresh_token_duration;
    })
    pure (record {
      access_token = access_token;
      refresh_token = issued.0;
      token_type = "Bearer";
      expires_in = pos 900;
    })

  unfoldable pub login : String → String → Action W SystemError AuthLoginResult
  unfolding issue_tokens
  login email password = do
    user ← authenticate email password
    tokens ← issue_tokens user
    pure (record { tokens = tokens; user = user })

  pub by_session : JwtRefreshClaims → Action W SystemError String
  by_session claims = do
    session ← or_error (get_by_jti claims.jti) unauthorized
    ensure (str_eq session.user_id claims.sub) unauthorized
    pure session.user_id

  pub by_stored : JwtRefreshClaims → Option String → Action W SystemError String
  unfolding by_session
  by_stored claims none = by_session claims
  by_stored claims (some user_id) =
      if str_eq user_id ""
      then by_session claims
      else (ensure (str_eq user_id claims.sub) unauthorized >> pure user_id)

  pub by_repo : Option (RefreshRepo W) → JwtRefreshClaims → Action W SystemError String
  unfolding by_session by_stored
  by_repo none claims = by_session claims
  by_repo (some repo) claims = do
    stored ← attempt (repo.check_refresh_token claims.jti)
    by_stored claims stored

  pub validate_refresh_token : JwtRefreshClaims → Action W SystemError String
  unfolding by_repo
  validate_refresh_token = by_repo refresh_repo

  pub refresh : String → Action W SystemError AuthLoginResult
  unfolding validate_refresh_token issue_tokens
  refresh refresh_token = do
    claims ← or_error (parse_refresh refresh_token) unauthorized
    user_id ← validate_refresh_token claims
    user ← get_by_id claims.sub
    tokens ← issue_tokens user
    delete_by_jti claims.jti
    pure (record { tokens = tokens; user = user })

  pub refuse : Option Bool → Action W SystemError Done
  refuse none = pure tt
  refuse (some blacklisted) = ensure (not blacklisted) unauthorized

  pub refuse_blacklisted : Option (RefreshRepo W) → String → Action W SystemError Done
  unfolding refuse
  refuse_blacklisted none id = pure tt
  refuse_blacklisted (some repo) id =
      if str_eq id ""
      then pure tt
      else (attempt (repo.is_access_token_blacklisted id) >>= λ listed. refuse listed)

  parsed_uuid : Option String → Action W SystemError String
  parsed_uuid none = raise unauthorized
  parsed_uuid (some id) = pure id

  pub verify_access_token : String → Action W SystemError JwtClaims
  unfolding refuse_blacklisted parsed_uuid
  verify_access_token token = do
    claims ← or_error (parse_access token) unauthorized
    refuse_blacklisted refresh_repo claims.registered.id
    user_id ← parsed_uuid (parse_uuid claims.user_id)
    pure (record {
      user_id = user_id;
      role = claims.role;
      email = claims.email;
      full_name = claims.full_name;
      status = claims.status;
    })

  pub drop_tokens : Option (RefreshRepo W) → JwtAccessClaims → Action W SystemError Done
  drop_tokens none claims = pure tt
  drop_tokens (some repo) claims = do
    discard (repo.delete_user_tokens claims.user_id)
    if str_eq claims.registered.id ""
        then pure tt
        else (time_until claims.registered.expires_at >>= λ remaining.
            if ltb_ℤ (pos 0) remaining
            then discard (repo.blacklist_access_token claims.registered.id remaining)
            else pure tt)

  pub logout : String → Action W SystemError Done
  unfolding drop_tokens
  logout access_token = do
    claims ← or_error (parse_access access_token) unauthorized
    delete_by_user_id claims.user_id
    drop_tokens refresh_repo claims
