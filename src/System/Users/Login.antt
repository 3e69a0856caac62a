-- ===== src/System/Users/Login.antt =====
-- system/internal/service/user_service.go, `Authenticate`, under auth_service.go, `Login`: who is let
-- in.
use zeus_be.Prelude.{
  not-true, String, str_eq, trim_space, false, not, inl, inr, Option, none, some, List, Action, ok,
  attempt, attempt-some, ensure-ok, >>=-ok, ok-injective, ◌≡◌, ◌⊎◌, refl, sym, ap, ◌∙◌, subst,
}
use zeus_be.System.Errors.{SystemError, unauthorized}
use zeus_be.System.Auth.{User, AuthDeps, AuthLoginResult, login}
use zeus_be.System.Users.{
  UserDeps, UserCache, cached_in, or_row, or_not_found, or_raise, cache_in, flat, authenticate,
}
use zeus_be.System.Users.Store.{UserStore, IsCoherent}
use zeus_be.System.Users.Steps.{or_not_found-ok, cached_in-IsSame}
use zeus_be.System.Users.Coherence.{UserRequest, serve_all, serve_all-IsCoherent}

module _ {W : Type 0} {D : UserDeps W} {c : UserCache W} (S : UserStore D c) where
  -- The user is the one that its row is, under that mail address, is not inactive, and has that
  -- password.
  abbrev pub MayLogIn : String → String → User → W → Type 0
  MayLogIn email password user w =
      (S.row user.id w ≡ some user)
      × (user.email ≡ trim_space email)
      × (str_eq user.status "INACTIVE" ≡ false)
      × ((v : W) × ((D.same_password user.password_hash password v).0 ≡ ok tt))

  flat-some : (o : Option (Option User)) (user : User) → flat o ≡ some user → o ≡ some (some user)
  flat-some none user h = cc
  flat-some (some found) user h = ap some h

  cached_in-some :
      (o : Option (UserCache W)) (read : UserCache W → Action W SystemError (Option User)) (w : W)
      (user : User)
      → o ≡ some c
      → (cached_in D o read w).0 ≡ ok (some user)
      → (read c w).0 ≡ ok (some user)
  cached_in-some none read w user e h = cc
  cached_in-some (some d) read w user e h =
      let (found, told, h₁) = >>=-ok (attempt (read d)) _ w (some user) h in
      let same : d ≡ c = cc in
      let held : found ≡ some (some user) = flat-some found user (ok-injective h₁) in
      subst (λ x. (read x w).0 ≡ ok (some user)) same
        (attempt-some (read d) w (some user) (told ∙ ap ok held))

  or_row-ok :
      (found : Option User) (read : Action W SystemError (Option User)) (w : W) (user : User)
      → (or_row D found read w).0 ≡ ok user
      → (found ≡ some user) ⊎ ((read w).0 ≡ ok (some user))
  or_row-ok (some u) read w user h = inl (ap some (ok-injective h))
  or_row-ok none read w user h =
      let (found, told, h₁) = >>=-ok read _ w user h in
      let (u, is, h₂) = >>=-ok (or_not_found D found) _ _ user h₁ in
      let (_, _, h₃) = >>=-ok (cache_in D D.cache u) _ _ user h₂ in
      inr (told ∙ ap ok (or_not_found-ok S found _ u is ∙ ap some (ok-injective h₃)))

  or_raise-ok :
      (o : Option Unit) (e : SystemError) (w : W) → (or_raise D o e w).0 ≡ ok tt → o ≡ some tt
  or_raise-ok none e w h = cc
  or_raise-ok (some tt) e w h = refl

  authenticate-MayLogIn :
      (email password : String) (w : W) (user : User)
      → IsCoherent S w
      → (authenticate D email password w).0 ≡ ok user
      → MayLogIn email password user w
  unfolding authenticate
  authenticate-MayLogIn email password w user h done =
      let e = trim_space email in
      let (_, h₁) = ensure-ok (not (str_eq e "")) _ _ w user done in
      let (_, h₂) = ensure-ok (not (str_eq password "")) _ _ w user h₁ in
      let cached = cached_in D D.cache (λ x. x.cached_by_email e) in
      let (found, told, h₃) = >>=-ok cached _ w user h₂ in
      let v = (cached w).1 in
      let (u, is, h₄) = >>=-ok (or_row D found (D.get_by_email e)) _ v user h₃ in
      let (active, h₅) = ensure-ok (not (str_eq u.status "INACTIVE")) _ _ _ user h₄ in
      let (same, compared, h₆) =
        >>=-ok (attempt (D.same_password u.password_hash password)) _ _ user h₅ in
      let (_, raised, h₇) = >>=-ok (or_raise D same unauthorized) _ _ user h₆ in
      let one : u ≡ user = ok-injective h₇ in
      let kept =
        cached_in-IsSame S D.cache (λ x. x.cached_by_email e) w S.configured
          (S.cached_email_keeps e w) in
      let (row_is, named) : (S.row u.id w ≡ some u) × (u.email ≡ e) =
        elim (or_row-ok found (D.get_by_email e) v u is) [
          | inl cached_is ↦
              let held =
                cached_in-some D.cache (λ x. x.cached_by_email e) w u S.configured
                  (told ∙ ap ok cached_is) in
              h.1 e u (S.cached_email_reads e w u held)
          | inr read ↦ let (r, s) = S.by_email_reads e v u read in (sym (kept.0 u.id) ∙ r, s)
        ] in
      subst (λ x. MayLogIn email password x w) one
        (
          row_is,
          named,
          not-true (str_eq u.status "INACTIVE") active,
          (
            _,
            attempt-some (D.same_password u.password_hash password) _ tt
                (compared ∙ ap ok (or_raise-ok same unauthorized _ raised)),
          ),
        )

  -- Over rows and a cache whose reads and whose writes of the cache do not fail, and once whatever
  -- calls of the user service have been made from a world whose cache held nothing but the rows of
  -- the users: a login that succeeds lets in the user that the row of its id is at that time, whose
  -- mail address is the one given, without the spaces around it, whose status is not INACTIVE and
  -- whose password is the one given.
  pub login-MayLogIn :
      (A : AuthDeps W)
      → A.authenticate ≡ authenticate D
      → (reqs : List UserRequest) (email password : String) (w : W) (r : AuthLoginResult)
      → IsCoherent S w
      → (login A email password (serve_all D reqs w)).0 ≡ ok r
      → MayLogIn email password r.user (serve_all D reqs w)
  unfolding login
  login-MayLogIn A joined reqs email password w r h done =
      let v = serve_all D reqs w in
      let (user, known, h₁) = >>=-ok (A.authenticate email password) _ v r done in
      let (_, _, h₂) = >>=-ok _ _ _ r h₁ in
      let may =
        authenticate-MayLogIn email password v user (serve_all-IsCoherent S reqs w h)
          (ap (λ f. (f email password v).0) (sym joined) ∙ known) in
      subst (λ x. MayLogIn email password x.user v) (ok-injective h₂) may
