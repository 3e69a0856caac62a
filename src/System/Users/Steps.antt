-- ===== src/System/Users/Steps.antt =====
-- system/internal/service/user_service.go: what single steps of its calls leave of rows
-- and cache.
use zeus_be.Prelude.{
  String, Bool, inl, Option, none, some, Action, ok, attempt, attempt-state, discard, ensure,
  ensure_keeps, ◌>>=◌, >>=-state, ok-injective, ◌≡◌, refl, sym, ap, ◌∙◌, subst,
}
use zeus_be.System.Errors.{SystemError}
use zeus_be.System.Auth.{User}
use zeus_be.System.Users.{
  UserDeps, UserCache, or_not_found, or_raise, cache_in, cached_in, or_row, store,
}
use zeus_be.System.Users.Store.{
  UserStore, IsSame, IsCoherent, IsStale, IsSame-trans, IsCoherent-same, Written-IsStale,
  cached-IsCoherent,
}

module _ {W : Type 0} {D : UserDeps W} {c : UserCache W} (S : UserStore D c) where
  pub IsCoherent-step :
      {A B : Type 0} (m : Action W SystemError A) (f : A → Action W SystemError B) (w : W)
      → IsSame S w (m w).1
      → IsCoherent S w
      → ((a : A) → (m w).0 ≡ ok a → IsCoherent S (m w).1 → IsCoherent S (f a (m w).1).1)
      → IsCoherent S ((m >>= f) w).1
  IsCoherent-step m f w same h rest =
      let next = IsCoherent-same S w (m w).1 same h in
      >>=-state (IsCoherent S) m f w (λ _ _. next) (λ a g. rest a g next)

  -- A call that is cut off at an error leaves what the calls before it leave.
  pub IsSame-then :
      {A B : Type 0} (m : Action W SystemError A) (f : A → Action W SystemError B) (w : W)
      → IsSame S w (m w).1
      → ((a : A) (v : W) → IsSame S v (f a v).1)
      → IsSame S w ((m >>= f) w).1
  IsSame-then m f w same rest =
      >>=-state (IsSame S w) m f w (λ _ _. same)
        (λ a _. IsSame-trans S w (m w).1 (f a (m w).1).1 same (rest a (m w).1))

  pub IsSame-refl : (w : W) → IsSame S w w
  IsSame-refl w = (λ i. refl, λ i. refl, λ e. refl)

  pub attempt-IsSame :
      {A : Type 0} (m : Action W SystemError A) (w : W)
      → IsSame S w (m w).1
      → IsSame S w (attempt m w).1
  attempt-IsSame m w same = subst (IsSame S w) (sym (attempt-state m w)) same

  pub or_raise-IsSame :
      {A : Type 0} (o : Option A) (e : SystemError) (w : W) → IsSame S w (or_raise D o e w).1
  or_raise-IsSame none e w = IsSame-refl w
  or_raise-IsSame (some a) e w = IsSame-refl w

  pub or_not_found-IsSame : (o : Option User) (w : W) → IsSame S w (or_not_found D o w).1
  or_not_found-IsSame none w = IsSame-refl w
  or_not_found-IsSame (some user) w = IsSame-refl w

  pub or_not_found-ok :
      (o : Option User) (w : W) (user : User) → (or_not_found D o w).0 ≡ ok user → o ≡ some user
  or_not_found-ok none w user h = cc
  or_not_found-ok (some u) w user h = cc

  pub cache_in-set :
      (o : Option (UserCache W)) (user : User) (w : W)
      → o ≡ some c
      → (cache_in D o user w).1 ≡ (c.set_cached user w).1
  unfolding discard
  cache_in-set none user w h = cc
  cache_in-set (some d) user w h = let same : d ≡ c = cc in ap (λ x. (x.set_cached user w).1) same

  -- A row that is cached is in line.
  pub cached_row-IsCoherent :
      (user : User) (w : W)
      → IsCoherent S w
      → S.row user.id w ≡ some user
      → IsCoherent S (cache_in D D.cache user w).1
  cached_row-IsCoherent user w h own =
      subst (IsCoherent S) (sym (cache_in-set D.cache user w S.configured)) (
        cached-IsCoherent S user w (
          own,
          λ i u held. inl (h.0 i u held),
          λ e u held. let (r, s) = h.1 e u held in (s, inl r),
        ))

  pub written_cached :
      (user : User) (v : W) → IsStale S user v → IsCoherent S (cache_in D D.cache user v).1
  written_cached user v stale =
      subst (IsCoherent S) (sym (cache_in-set D.cache user v S.configured))
        (cached-IsCoherent S user v stale)

  pub store-IsCoherent :
      (user old : User) (w : W)
      → IsCoherent S w
      → S.row user.id w ≡ some old
      → old.email ≡ user.email
      → IsCoherent S (store D user w).1
  unfolding store
  store-IsCoherent user old w h own same_email =
      >>=-state (IsCoherent S) (D.save_user user) _ w
        (λ e failed. IsCoherent-same S w _ (S.save_fails user e w failed) h)
        (λ saved done.
          let (one_id, one_email, written) = S.save_writes user saved w done in
          let v = (D.save_user user w).1 in
          let stale = Written-IsStale S saved w v h written (λ o r.
            let same : old ≡ o = cc in ap (λ x. x.email) (sym same) ∙ same_email ∙ sym one_email) in
          >>=-state (IsCoherent S) (cache_in D D.cache saved) _ v
            (λ _ _. written_cached saved v stale) (λ _ _. written_cached saved v stale))

  pub cached_in-IsSame :
      (o : Option (UserCache W)) (read : UserCache W → Action W SystemError (Option User)) (w : W)
      → o ≡ some c
      → IsSame S w (read c w).1
      → IsSame S w (cached_in D o read w).1
  cached_in-IsSame none read w h same = cc
  cached_in-IsSame (some d) read w h same =
      let one : c ≡ d = cc in
      IsSame-then (attempt (read d)) _ w
        (attempt-IsSame (read d) w (subst (λ x. IsSame S w (read x w).1) one same))
        (λ found v. IsSame-refl v)

  pub or_row-IsCoherent :
      (found : Option User) (read : Action W SystemError (Option User)) (w : W)
      → IsCoherent S w
      → IsSame S w (read w).1
      → ((user : User) → (read w).0 ≡ ok (some user) → S.row user.id w ≡ some user)
      → IsCoherent S (or_row D found read w).1
  or_row-IsCoherent (some user) read w h same own = h
  or_row-IsCoherent none read w h same own = IsCoherent-step read _ w same h (λ found told h₁.
      IsCoherent-step (or_not_found D found) _ _ (or_not_found-IsSame found _) h₁ (λ user is h₂.
        let v = (read w).1 in
        let here = own user (told ∙ ap ok (or_not_found-ok found v user is)) in
        let u = (or_not_found D found v).1 in
        let row_is : S.row user.id u ≡ some user =
          (or_not_found-IsSame found v).0 user.id ∙ same.0 user.id ∙ here in
        let last = cached_row-IsCoherent user u h₂ row_is in
        >>=-state (IsCoherent S) (cache_in D D.cache user) _ u (λ _ _. last) (λ _ _. last)))

  pub ensure-IsSame : (b : Bool) (e : SystemError) (w : W) → IsSame S w (ensure b e w).1
  ensure-IsSame b e w = subst (IsSame S w) (sym (ensure_keeps b e w)) (IsSame-refl w)

  pub IsCoherent-found :
      {B : Type 0} (id : String) (f : User → Action W SystemError B) (w : W)
      → IsCoherent S w
      → ((user : User) (v : W)
          → S.row user.id v ≡ some user
          → user.id ≡ id
          → IsCoherent S v
          → IsCoherent S (f user v).1)
      → IsCoherent S ((D.get_by_id id >>= λ found. or_not_found D found >>= f) w).1
  IsCoherent-found id f w h rest =
      IsCoherent-step (D.get_by_id id) _ w (S.get_keeps id w) h (λ found told h₁.
        let v = (D.get_by_id id w).1 in
        IsCoherent-step (or_not_found D found) _ v (or_not_found-IsSame found v) h₁ (λ user is h₂.
          let u = (or_not_found D found v).1 in
          let here : S.row id w ≡ some user =
            ok-injective (sym (S.get_reads id w) ∙ told) ∙ or_not_found-ok found v user is in
          let row_is : S.row id u ≡ some user =
            (or_not_found-IsSame found v).0 id ∙ (S.get_keeps id w).0 id ∙ here in
          let named = S.row_id id w user here in
          rest user u (ap (λ i. S.row i u) named ∙ row_is) named h₂))
