-- ===== src/System/Auth/Tests.antt =====
-- A user with a session, and the theorems on tokens at it.
use zeus_be.Prelude.{
  Runs, pos, String, str_eq, eq_iff, arith, Bool, false, ◌||◌, none, some, ok, err, discard,
  attempt, or_error, ensure, ◌>>=◌, ◌≡◌, refl, ok-injective,
}
use zeus_be.System.Errors.{unauthorized, failed}
use zeus_be.System.Auth.{
  AuthDeps, RefreshRepo, User, Session, JwtAccessClaims, JwtRefreshClaims, AuthLoginResult,
  by_session, by_stored, by_repo, validate_refresh_token, issue_tokens, save_token,
  generate_access_token, generate_refresh_token, refresh, drop_tokens, logout, verify_access_token,
}
use zeus_be.System.Auth.Issue.{IsIssued}
use zeus_be.System.Auth.Rotation.{BelongsTo, validate_refresh_token-sub, refresh-rotates}
use zeus_be.System.Auth.Blacklist.{Answers, verify_access_token-logout}

abbrev ann : User
ann = record {
  id = "1";
  email = "ann@zeus";
  password_hash = "";
  full_name = "Ann";
  role = "admin";
  status = "ACTIVE";
  last_login_at = none;
  created_at = pos 0;
  updated_at = pos 0;
  deleted_at = none;
}

abbrev access_claims : JwtAccessClaims
access_claims = record {
  user_id = "1";
  role = "admin";
  email = "ann@zeus";
  full_name = "Ann";
  status = "ACTIVE";
  registered = record { id = "a"; expires_at = pos 10; issued_at = pos 0; issuer = "zeus-system" };
}

abbrev refresh_claims : JwtRefreshClaims
refresh_claims = record {
  jti = "r";
  sub = "1";
  registered = record { id = ""; expires_at = pos 10; issued_at = pos 0; issuer = "zeus-system" };
}

abbrev session : Session
session = record { user_id = "1"; user_email = "ann@zeus"; jti = "r"; expires_at = pos 10 }

-- The ids that are blacklisted.
abbrev Store : Type 0
Store = String → Bool

abbrev repo : RefreshRepo Store
repo = record {
  save_refresh_token = λ jti u w. (ok tt, w);
  check_refresh_token = λ jti w. (err (failed 1), w);
  delete_user_tokens = λ u w. (ok tt, w);
  blacklist_access_token = λ id t w. (ok tt, λ i. str_eq i id || w i);
  is_access_token_blacklisted = λ id w. (ok (w id), w);
}

abbrev memory : AuthDeps Store
memory = record {
  authenticate = λ e p w. (ok ann, w);
  get_by_id = λ i w. (ok ann, w);
  refresh_repo = some repo;
  create_session = λ s w. (ok tt, w);
  get_by_jti = λ jti w. (ok (some session), w);
  delete_by_jti = λ jti w. (ok tt, w);
  delete_by_user_id = λ u w. (ok tt, w);
  sign_access = λ c w. (ok "access", w);
  sign_refresh = λ c w. (ok "refresh", w);
  parse_access = λ t w. (ok (some access_claims), w);
  parse_refresh = λ t w. (ok (some refresh_claims), w);
  parse_uuid = λ s. some s;
  new_uuid = λ w. (ok "n", w);
  now = λ w. (ok (pos 5), w);
  time_until = λ t w. (ok (pos 5), w);
}

abbrev nothing : Store
nothing i = false

abbrev renewed : AuthLoginResult
renewed = record {
  tokens = record {
    access_token = "access";
    refresh_token = "refresh";
    token_type = "Bearer";
    expires_in = pos 900;
  };
  user = ann;
}

validate_refresh_token-sub_example :
    BelongsTo memory memory.refresh_repo refresh_claims nothing × ("1" ≡ refresh_claims.sub)
unfolding validate_refresh_token by_repo by_stored by_session ◌>>=◌ ensure attempt or_error
validate_refresh_token-sub_example =
    validate_refresh_token-sub memory refresh_claims nothing "1" refl

refresh-rotates_example :
    (claims : JwtRefreshClaims) × (w₁ w₂ w₃ w₄ : Store) × Runs
      (memory.parse_refresh "t")
      nothing
      (some claims)
      w₁
    × Runs (validate_refresh_token memory claims) w₁ claims.sub w₂
    × BelongsTo memory memory.refresh_repo claims w₁
    × Runs (memory.get_by_id claims.sub) w₂ renewed.user w₃
    × IsIssued memory renewed.user w₃ renewed.tokens w₄
    × Runs (memory.delete_by_jti claims.jti) w₄ tt (refresh memory "t" nothing).1
unfolding refresh validate_refresh_token by_repo by_stored by_session issue_tokens save_token
    generate_access_token generate_refresh_token ◌>>=◌ ensure discard attempt or_error
refresh-rotates_example = refresh-rotates memory "t" nothing renewed refl

answers : Answers memory repo
answers id t w = ground (arith, eq_iff id id)

verify_access_token-logout_example :
    (verify_access_token memory "t" (logout memory "t" nothing).1).0 ≡ err unauthorized
unfolding logout drop_tokens ◌>>=◌ discard or_error
verify_access_token-logout_example =
    verify_access_token-logout memory repo refl "t" access_claims nothing
      (λ u c h. let same : some access_claims ≡ some c = ok-injective h in cc) (λ u. refl) refl
      (λ w. (pos 5, refl, refl)) answers refl
