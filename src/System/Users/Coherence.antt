-- ===== src/System/Users/Coherence.antt =====
-- system/internal/service/user_service.go: the cache of users over any sequence of calls.
use zeus_be.Prelude.{
  ℤ, String, trim_space, some, List, [], ◌∷◌, attempt, ensure-state, >>=-state, ok-injective, ◌≡◌,
  sym, ap, ◌∙◌,
}
use zeus_be.System.Errors.{unauthorized}
use zeus_be.System.Users.{
  UserDeps, UserCache, CreateUserRequest, UpdateUserRequest, or_raise, cached_in, or_row, create,
  get_user, list, update, set_status, authenticate, change_password,
}
use zeus_be.System.Users.Store.{UserStore, IsCoherent}
use zeus_be.System.Users.Steps.{
  IsCoherent-step, attempt-IsSame, or_raise-IsSame, cached_in-IsSame, or_row-IsCoherent,
}
use zeus_be.System.Users.Writes.{
  create-IsCoherent, change_password-IsCoherent, update-IsCoherent, set_status-IsCoherent,
}

-- A call of the service.
pub data UserRequest : Type 0 where
  creates : CreateUserRequest → UserRequest
  gets : String → UserRequest
  lists : ℤ → ℤ → String → UserRequest
  updates : String → UpdateUserRequest → String → String → UserRequest
  sets_status : String → String → UserRequest
  authenticates : String → String → UserRequest
  changes_password : String → String → String → UserRequest

module _ {W : Type 0} (D : UserDeps W) where
  unfoldable pub serve : UserRequest → W → W
  unfolding create get_user list update set_status authenticate change_password
  serve (creates req) w = (create D req w).1
  serve (gets id) w = (get_user D id w).1
  serve (lists page limit q) w = (list D page limit q w).1
  serve (updates id req role current) w = (update D id req role current w).1
  serve (sets_status id status) w = (set_status D id status w).1
  serve (authenticates email password) w = (authenticate D email password w).1
  serve (changes_password id old new) w = (change_password D id old new w).1

  unfoldable pub serve_all : List UserRequest → W → W
  unfolding serve
  serve_all [] w = w
  serve_all (req ∷ reqs) w = serve_all reqs (serve req w)

module _ {W : Type 0} {D : UserDeps W} {c : UserCache W} (S : UserStore D c) where
  get_user-IsCoherent : (id : String) (w : W) → IsCoherent S w → IsCoherent S (get_user D id w).1
  unfolding get_user
  get_user-IsCoherent id w h =
      ensure-state (IsCoherent S) _ _ _ w (λ _. h)
        (λ _.
          IsCoherent-step S (cached_in D D.cache (λ x. x.cached_by_id id)) _ w
            (cached_in-IsSame S D.cache (λ x. x.cached_by_id id) w S.configured
              (S.cached_keeps id w))
            h
            (λ cached _ h₁.
              let v = (cached_in D D.cache (λ x. x.cached_by_id id) w).1 in
              or_row-IsCoherent S cached (D.get_by_id id) v h₁ (S.get_keeps id v) (λ user told.
                let here : S.row id v ≡ some user = ok-injective (sym (S.get_reads id v) ∙ told) in
                ap (λ i. S.row i v) (S.row_id id v user here) ∙ here)))

  authenticate-IsCoherent :
      (email password : String) (w : W)
      → IsCoherent S w
      → IsCoherent S (authenticate D email password w).1
  unfolding authenticate
  authenticate-IsCoherent email password w h =
      let e = trim_space email in
      ensure-state (IsCoherent S) _ _ _ w (λ _. h)
        (λ _.
          ensure-state (IsCoherent S) _ _ _ w (λ _. h)
            (λ _.
              IsCoherent-step S (cached_in D D.cache (λ x. x.cached_by_email e)) _ w
                (cached_in-IsSame S D.cache (λ x. x.cached_by_email e) w S.configured
                  (S.cached_email_keeps e w))
                h
                (λ cached _ h₁.
                  let v = (cached_in D D.cache (λ x. x.cached_by_email e) w).1 in
                  let next =
                    or_row-IsCoherent S cached (D.get_by_email e) v h₁ (S.by_email_keeps e v)
                      (λ user told. (S.by_email_reads e v user told).0) in
                  >>=-state (IsCoherent S) (or_row D cached (D.get_by_email e)) _ v (λ _ _. next)
                    (λ user _.
                      ensure-state (IsCoherent S) _ _ _ _ (λ _. next)
                        (λ _.
                          let u = (or_row D cached (D.get_by_email e) v).1 in
                          IsCoherent-step S (attempt (D.same_password user.password_hash password))
                            _ u
                            (attempt-IsSame S (D.same_password user.password_hash password) u
                              (S.compare_keeps user.password_hash password u))
                            next
                            (λ same _ h₂.
                              let t = (attempt (D.same_password user.password_hash password) u).1 in
                              IsCoherent-step S (or_raise D same unauthorized) _ t
                                (or_raise-IsSame S same unauthorized t) h₂ (λ _ _ h₃. h₃)))))))

  list-IsCoherent :
      (page limit : ℤ) (q : String) (w : W)
      → IsCoherent S w
      → IsCoherent S (list D page limit q w).1
  unfolding list
  list-IsCoherent page limit q w h =
      IsCoherent-step S (D.list_users page limit q) _ w (S.list_keeps page limit q w) h
        (λ _ _ h₁. h₁)

  serve-IsCoherent : (req : UserRequest) (w : W) → IsCoherent S w → IsCoherent S (serve D req w)
  unfolding serve
  serve-IsCoherent (creates req) w h = create-IsCoherent S req w h
  serve-IsCoherent (gets id) w h = get_user-IsCoherent id w h
  serve-IsCoherent (lists page limit q) w h = list-IsCoherent page limit q w h
  serve-IsCoherent (updates id req role current) w h = update-IsCoherent S id req role current w h
  serve-IsCoherent (sets_status id status) w h = set_status-IsCoherent S id status w h
  serve-IsCoherent (authenticates email password) w h = authenticate-IsCoherent email password w h
  serve-IsCoherent (changes_password id old new) w h = change_password-IsCoherent S id old new w h

  -- Over rows and a cache whose reads and whose writes of the cache do not fail: whatever calls are
  -- made, in whatever order and whichever of them fail, a cache that holds nothing but the rows of
  -- the users, under their ids and mail addresses, still does so afterwards.
  pub serve_all-IsCoherent :
      (reqs : List UserRequest) (w : W) → IsCoherent S w → IsCoherent S (serve_all D reqs w)
  unfolding serve_all
  serve_all-IsCoherent [] w h = h
  serve_all-IsCoherent (req ∷ reqs) w h =
      serve_all-IsCoherent reqs (serve D req w) (serve-IsCoherent req w h)
