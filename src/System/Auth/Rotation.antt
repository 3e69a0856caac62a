-- ===== src/System/Auth/Rotation.antt =====
-- system/internal/service/auth_service.go, `Refresh`: whose token is accepted, and what becomes
-- of it.
use zeus_be.Prelude.{
  String, str_eq, eq_iff, arith, Bool, true, false, Option, none, some, ok, attempt, or_error,
  or_error-ok, Runs, Runs-of, >>=-Runs, pure-Runs, or_error-Runs, ensure, ◌>>◌, >>=-ok, ensure-ok,
  ok-injective, pure, ◌⊎◌, inl, inr, refl, attempt-some, attempt-ok, attempt-state, if◌then◌else◌,
  ◌≡◌, sym, ap, ◌∙◌, subst,
}
use zeus_be.System.Auth.Issue.{IsIssued, issue_tokens-IsIssued}
use zeus_be.System.Errors.{unauthorized}
use zeus_be.System.Auth.{
  AuthDeps, RefreshRepo, Session, JwtRefreshClaims, AuthLoginResult, by_session, by_stored, by_repo,
  validate_refresh_token, issue_tokens, refresh,
}

module _ {W : Type 0} (D : AuthDeps W) where
  same_text : (s t : String) → str_eq s t ≡ true → s ≡ t
  same_text s t h = ground (arith, eq_iff s t)

  checked :
      (s t : String) (w : W) (u : String)
      → ((ensure (str_eq s t) unauthorized >> pure s) w).0 ≡ ok u
      → (s ≡ t) × (u ≡ t)
  checked s t w u h =
      let (same, h₁) = ensure-ok (str_eq s t) unauthorized (pure s) w u h in
      (same_text s t same, sym (ok-injective h₁) ∙ same_text s t same)

  -- The session of the token is stored, and is one of the user that the token names.
  abbrev pub HasSession : JwtRefreshClaims → W → Type 0
  HasSession claims w =
      (session : Session) × ((D.get_by_jti claims.jti w).0 ≡ ok (some session))
      × (session.user_id ≡ claims.sub)

  -- The repository names a user for the token, which is the one that the token names.
  abbrev pub IsStoredBy : RefreshRepo W → JwtRefreshClaims → W → Type 0
  IsStoredBy repo claims w =
      ((repo.check_refresh_token claims.jti w).0 ≡ ok claims.sub) × (str_eq claims.sub "" ≡ false)

  -- The repository fails, or names no user.
  abbrev pub IsUnknown : RefreshRepo W → JwtRefreshClaims → W → Type 0
  IsUnknown repo claims w = (u : String) → (repo.check_refresh_token claims.jti w).0 ≡ ok u → u ≡ ""

  -- Whom the token belongs to: what the repository says where it names a user, else the session.
  abbrev pub BelongsTo : Option (RefreshRepo W) → JwtRefreshClaims → W → Type 0
  BelongsTo none claims w = HasSession claims w
  BelongsTo (some repo) claims w =
      IsStoredBy repo claims w
      ⊎ (IsUnknown repo claims w × HasSession claims (repo.check_refresh_token claims.jti w).1)

  by_session-sub :
      (claims : JwtRefreshClaims) (w : W) (u : String)
      → (by_session D claims w).0 ≡ ok u
      → HasSession claims w × (u ≡ claims.sub)
  unfolding by_session
  by_session-sub claims w u h =
      let (session, got, h₁) = >>=-ok (or_error (D.get_by_jti claims.jti) unauthorized) _ w u h in
      let (own, same) = checked session.user_id claims.sub _ u h₁ in
      ((session, or_error-ok (D.get_by_jti claims.jti) unauthorized w session got, own), same)

  by_stored-sub :
      (claims : JwtRefreshClaims) (user_id : String) (w : W) (u : String)
      → (by_stored D claims (some user_id) w).0 ≡ ok u
      → (((user_id ≡ claims.sub) × (str_eq user_id "" ≡ false))
          ⊎ ((user_id ≡ "") × HasSession claims w))
        × (u ≡ claims.sub)
  unfolding by_stored
  by_stored-sub claims user_id w u h = cases (str_eq user_id "") refl h
    where
      cases :
          (b : Bool)
          → str_eq user_id "" ≡ b
          → ((if b
                then by_session D claims
                else (ensure (str_eq user_id claims.sub) unauthorized >> pure user_id))
              w).0
            ≡ ok u
          → (((user_id ≡ claims.sub) × (str_eq user_id "" ≡ false))
              ⊎ ((user_id ≡ "") × HasSession claims w))
            × (u ≡ claims.sub)
      cases true e g =
          let (session, same) = by_session-sub claims w u g in
          (inr (same_text user_id "" e, session), same)
      cases false e g = let (own, same) = checked user_id claims.sub w u g in (inl (own, e), same)

  by_none-sub :
      (claims : JwtRefreshClaims) (w : W) (u : String)
      → (by_stored D claims none w).0 ≡ ok u
      → HasSession claims w × (u ≡ claims.sub)
  unfolding by_stored
  by_none-sub claims w u h = by_session-sub claims w u h

  by_answer-sub :
      (repo : RefreshRepo W) (claims : JwtRefreshClaims) (w : W) (stored : Option String)
      (u : String)
      → (attempt (repo.check_refresh_token claims.jti) w).0 ≡ ok stored
      → (by_stored D claims stored (attempt (repo.check_refresh_token claims.jti) w).1).0 ≡ ok u
      → BelongsTo (some repo) claims w × (u ≡ claims.sub)
  by_answer-sub repo claims w none u told h =
      let (session, same) = by_none-sub claims _ u h in
      (
        inr (
          λ v got.
              let clash : some v ≡ none = ok-injective (sym (attempt-ok _ w v got) ∙ told) in cc,
          subst (HasSession claims) (attempt-state (repo.check_refresh_token claims.jti) w) session,
        ),
        same,
      )
  by_answer-sub repo claims w (some stored) u told h =
      let known = attempt-some (repo.check_refresh_token claims.jti) w stored told in
      let (belongs, same) = by_stored-sub claims stored _ u h in
      (
        elim belongs [
          | inl own ↦ inl (known ∙ ap ok own.0, subst (λ s. str_eq s "" ≡ false) own.0 own.1)
          | inr other ↦ inr (
            λ v got. ok-injective (sym got ∙ known) ∙ other.0,
            subst (HasSession claims) (attempt-state (repo.check_refresh_token claims.jti) w)
                other.1,
          )
        ],
        same,
      )

  by_repo-sub :
      (repo : Option (RefreshRepo W)) (claims : JwtRefreshClaims) (w : W) (u : String)
      → (by_repo D repo claims w).0 ≡ ok u
      → BelongsTo repo claims w × (u ≡ claims.sub)
  unfolding by_repo
  by_repo-sub none claims w u h = by_session-sub claims w u h
  by_repo-sub (some repo) claims w u h =
      let (stored, told, h₁) = >>=-ok (attempt (repo.check_refresh_token claims.jti)) _ w u h in
      by_answer-sub repo claims w stored u told h₁

  -- A refresh token is only accepted as the token of the user that it names: the repository of
  -- refresh tokens, where there is one, names that user for it, or it fails or names nobody and then
  -- the session that is stored under the id of the token is one of that user. Without a repository
  -- there is such a session. The result is that user.
  pub validate_refresh_token-sub :
      (claims : JwtRefreshClaims) (w : W) (user_id : String)
      → (validate_refresh_token D claims w).0 ≡ ok user_id
      → BelongsTo D.refresh_repo claims w × (user_id ≡ claims.sub)
  unfolding validate_refresh_token
  validate_refresh_token-sub claims w user_id h = by_repo-sub D.refresh_repo claims w user_id h

  -- A refresh that succeeds makes these calls and no other: it reads claims from the token,
  -- validates them, reads the user whom they name, issues the tokens of that user, with a new session
  -- for them, and deletes the session of the old token, without an error. The old token belonged to
  -- that user, and the result is that user with the tokens issued.
  pub refresh-rotates :
      (token : String) (w : W) (r : AuthLoginResult)
      → (refresh D token w).0 ≡ ok r
      → (claims : JwtRefreshClaims) × (w₁ w₂ w₃ w₄ : W) × Runs
          (D.parse_refresh token)
          w
          (some claims)
          w₁
        × Runs (validate_refresh_token D claims) w₁ claims.sub w₂
        × BelongsTo D.refresh_repo claims w₁
        × Runs (D.get_by_id claims.sub) w₂ r.user w₃
        × IsIssued D r.user w₃ r.tokens w₄
        × Runs (D.delete_by_jti claims.jti) w₄ tt (refresh D token w).1
  unfolding refresh
  refresh-rotates token w r h =
      let v = (refresh D token w).1 in
      let run = Runs-of (refresh D token) w r h in
      let (claims, w₁, parsed, h₁) = >>=-Runs _ _ w r v run in
      let (user_id, w₂, valid, h₂) = >>=-Runs (validate_refresh_token D claims) _ w₁ r v h₁ in
      let (user, w₃, found, h₃) = >>=-Runs (D.get_by_id claims.sub) _ w₂ r v h₂ in
      let (tokens, w₄, issued, h₄) = >>=-Runs (issue_tokens D user) _ w₃ r v h₃ in
      let (_, w₅, deleted, h₅) = >>=-Runs (D.delete_by_jti claims.jti) _ w₄ r v h₄ in
      let (same, last) = pure-Runs _ r w₅ v h₅ in
      let (belongs, own) = validate_refresh_token-sub claims w₁ user_id (ap (λ p. p.0) valid) in
      (
        claims,
        w₁,
        w₂,
        w₃,
        w₄,
        or_error-Runs _ _ w claims w₁ parsed,
        subst (λ u. Runs (validate_refresh_token D claims) w₁ u w₂) own valid,
        belongs,
        found ∙ ap (λ x. (ok x.user, w₃)) same,
        subst (λ x. IsIssued D x.user w₃ x.tokens w₄) same
            (issue_tokens-IsIssued D user w₃ tokens w₄ issued),
        deleted ∙ ap (λ x. (ok tt, x)) last,
      )
