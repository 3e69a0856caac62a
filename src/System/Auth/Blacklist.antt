-- ===== src/System/Auth/Blacklist.antt =====
-- system/internal/service/auth_service.go, `Logout` and `VerifyAccessToken`: what becomes of the
-- access token.
use zeus_be.Prelude.{
  ℤ, pos, ltb_ℤ, String, str_eq, Bool, true, false, some, ok, err, attempt, attempt-ok, discard,
  or_error, or_error-ok, or_error-err, ensure, ◌>>=◌, >>=-ok, >>=-run, >>=-err, pure, if◌then◌else◌,
  ◌≡◌, refl, sym, ap, ◌∙◌, subst,
}
use zeus_be.System.Errors.{unauthorized}
use zeus_be.System.Auth.{
  AuthDeps, RefreshRepo, JwtAccessClaims, refuse, refuse_blacklisted, drop_tokens,
  verify_access_token, logout,
}

module _ {W : Type 0} (D : AuthDeps W) (repo : RefreshRepo W) where
  -- The repository answers for an id that it is told to blacklist.
  abbrev pub Answers : Type 0
  Answers =
      (id : String) (t : ℤ) (w : W)
      → (repo.is_access_token_blacklisted id (repo.blacklist_access_token id t w).1).0 ≡ ok true

  -- Wherever the clock is read, `t` is ahead of it.
  abbrev pub IsAhead : ℤ → Type 0
  IsAhead t = (w : W) → (r : ℤ) × ((D.time_until t w).0 ≡ ok r) × (ltb_ℤ (pos 0) r ≡ true)

  positive :
      (b : Bool) (claims : JwtAccessClaims) (r : ℤ) (w : W)
      → b ≡ true
      → ((if b then discard (repo.blacklist_access_token claims.registered.id r) else pure tt) w).1
        ≡ (repo.blacklist_access_token claims.registered.id r w).1
  unfolding discard
  positive true claims r w h = refl
  positive false claims r w h = cc

  after_delete :
      (b : Bool) (claims : JwtAccessClaims) (w : W)
      → b ≡ false
      → IsAhead claims.registered.expires_at
      → (r : ℤ) × (u : W) × (((if b
              then pure tt
              else (D.time_until claims.registered.expires_at >>= λ remaining.
                  if ltb_ℤ (pos 0) remaining
                  then discard (repo.blacklist_access_token claims.registered.id remaining)
                  else pure tt))
            w).1
          ≡ (repo.blacklist_access_token claims.registered.id r u).1)
  after_delete true claims w h ahead = cc
  after_delete false claims w h ahead =
      let (r, read, later) = ahead w in
      (
        r,
        (D.time_until claims.registered.expires_at w).1,
        ap (λ p. p.1) (>>=-run (D.time_until claims.registered.expires_at) _ w r read)
            ∙ positive (ltb_ℤ (pos 0) r) claims r _ later,
      )

  drop_tokens-blacklists :
      (claims : JwtAccessClaims) (w : W)
      → str_eq claims.registered.id "" ≡ false
      → IsAhead claims.registered.expires_at
      → (r : ℤ) × (u : W) × ((drop_tokens D (some repo) claims w).1
          ≡ (repo.blacklist_access_token claims.registered.id r u).1)
  unfolding drop_tokens discard ◌>>=◌
  drop_tokens-blacklists claims w named ahead =
      after_delete (str_eq claims.registered.id "") claims _ named ahead

  listed_refused :
      (b : Bool) (id : String) (w : W)
      → b ≡ false
      → (repo.is_access_token_blacklisted id w).0 ≡ ok true
      → ((if b
            then pure tt
            else (attempt (repo.is_access_token_blacklisted id) >>= λ listed. refuse D listed))
          w).0
        ≡ err unauthorized
  unfolding refuse ensure
  listed_refused true id w h listed = cc
  listed_refused false id w h listed =
      ap (λ p. p.0)
        (>>=-run (attempt (repo.is_access_token_blacklisted id)) _ w (some true)
          (attempt-ok (repo.is_access_token_blacklisted id) w true listed))

  refuse_blacklisted-listed :
      (id : String) (w : W)
      → str_eq id "" ≡ false
      → (repo.is_access_token_blacklisted id w).0 ≡ ok true
      → (refuse_blacklisted D (some repo) id w).0 ≡ err unauthorized
  unfolding refuse_blacklisted
  refuse_blacklisted-listed id w named listed = listed_refused (str_eq id "") id w named listed

  logout-blacklists :
      D.refresh_repo ≡ some repo
      → (token : String) (claims : JwtAccessClaims) (w : W)
      → ((u : W) (c : JwtAccessClaims) → (D.parse_access token u).0 ≡ ok (some c) → c ≡ claims)
      → str_eq claims.registered.id "" ≡ false
      → IsAhead claims.registered.expires_at
      → (logout D token w).0 ≡ ok tt
      → (r : ℤ) × (u : W) × ((logout D token w).1
          ≡ (repo.blacklist_access_token claims.registered.id r u).1)
  unfolding logout
  logout-blacklists configured token claims w same named ahead done =
      let parse = or_error (D.parse_access token) unauthorized in
      let (c, parsed, h₁) = >>=-ok parse _ w tt done in
      let (_, deleted, _) = >>=-ok (D.delete_by_user_id c.user_id) _ _ tt h₁ in
      let v = (D.delete_by_user_id c.user_id (parse w).1).1 in
      let run =
        ap (λ p. p.1)
          (>>=-run parse _ w c parsed ∙ >>=-run (D.delete_by_user_id c.user_id) _ _ tt deleted) in
      let own = same w c (or_error-ok (D.parse_access token) unauthorized w c parsed) in
      let (r, u, listed) = drop_tokens-blacklists claims v named ahead in
      (
        r,
        u,
        run
            ∙ ap (λ x. (drop_tokens D D.refresh_repo x v).1) own
            ∙ ap (λ x. (drop_tokens D x claims v).1) configured
            ∙ listed,
      )

  -- Where reading a token gives the same claims whenever it gives any, and changes nothing, the
  -- claims have an id and do not expire meanwhile, and the repository of refresh tokens answers for
  -- the ids that it is told to blacklist: a token with which a logout has succeeded is refused as
  -- unauthorized afterwards.
  pub verify_access_token-logout :
      D.refresh_repo ≡ some repo
      → (token : String) (claims : JwtAccessClaims) (w : W)
      → ((u : W) (c : JwtAccessClaims) → (D.parse_access token u).0 ≡ ok (some c) → c ≡ claims)
      → ((u : W) → (D.parse_access token u).1 ≡ u)
      → str_eq claims.registered.id "" ≡ false
      → IsAhead claims.registered.expires_at
      → Answers
      → (logout D token w).0 ≡ ok tt
      → (verify_access_token D token (logout D token w).1).0 ≡ err unauthorized
  unfolding verify_access_token
  verify_access_token-logout configured token claims w same pure_parse named ahead answers done =
      let v = (logout D token w).1 in
      let (r, u, blacklisted) = logout-blacklists configured token claims w same named ahead done in
      let listed =
        subst (λ x. (repo.is_access_token_blacklisted claims.registered.id x).0 ≡ ok true)
          (sym blacklisted) (answers claims.registered.id r u) in
      let refused = refuse_blacklisted-listed claims.registered.id v named listed in
      let asked =
        subst (λ x. (refuse_blacklisted D x claims.registered.id v).0 ≡ err unauthorized)
          (sym configured) refused in
      or_error-err (D.parse_access token) unauthorized _ v (λ c parsed.
        >>=-err (refuse_blacklisted D D.refresh_repo c.registered.id) _ _ unauthorized (
          ap
            (λ x.
              (refuse_blacklisted D D.refresh_repo x.registered.id (D.parse_access token v).1).0)
            (same v c parsed)
          ∙ ap (λ x. (refuse_blacklisted D D.refresh_repo claims.registered.id x).0) (pure_parse v)
          ∙ asked))
