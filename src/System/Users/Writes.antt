-- ===== src/System/Users/Writes.antt =====
-- system/internal/service/user_service.go: what the calls that change a user leave of rows and cache.
use zeus_be.Prelude.{
  String, str_eq, trim_space, not, inl, inr, Option, none, some, Action, Done, ok, attempt,
  attempt-ok, >>=-run, discard, ensure, ensure-state, >>=-state, >>=-ok, ensure-ok, ok-injective,
  ◌≡◌, refl, sym, ap, ◌∙◌, subst,
}
use zeus_be.System.Errors.{SystemError, invalid_role, unauthorized}
use zeus_be.System.Auth.{User}
use zeus_be.System.Users.{
  UserDeps, UserCache, CreateUserRequest, UpdateUserRequest, or_raise, cache_in, mail_in, renamed,
  promoted, check_new, create, update, cache_found, set_status, change_password,
}
use zeus_be.System.Users.Store.{
  UserStore, IsSame, IsCoherent, IsStale, IsCoherent-same, Written-IsStale,
}
use zeus_be.System.Users.Steps.{
  IsCoherent-step, IsSame-then, IsSame-refl, attempt-IsSame, or_raise-IsSame, written_cached,
  store-IsCoherent, ensure-IsSame, IsCoherent-found,
}

module _ {W : Type 0} {D : UserDeps W} {c : UserCache W} (S : UserStore D c) where
  check_new-IsSame :
      (email full_name role : String) (w : W) → IsSame S w (check_new D email full_name role w).1
  unfolding check_new
  check_new-IsSame email full_name role w =
      IsSame-then S (ensure _ _) _ w (ensure-IsSame S _ _ w) (λ _ v₁.
        IsSame-then S (ensure _ _) _ v₁ (ensure-IsSame S _ _ v₁) (λ _ v₂.
          IsSame-then S (ensure _ _) _ v₂ (ensure-IsSame S _ _ v₂) (λ _ v₃.
            IsSame-then S (attempt (D.validate_role role)) _ v₃
              (attempt-IsSame S (D.validate_role role) v₃ (S.role_keeps role v₃))
              (λ valid v₄.
                IsSame-then S (or_raise D valid invalid_role) _ v₄
                  (or_raise-IsSame S valid invalid_role v₄)
                  (λ _ v₅.
                    IsSame-then S (attempt (D.get_by_email email)) _ v₅
                      (attempt-IsSame S (D.get_by_email email) v₅ (S.by_email_keeps email v₅))
                      (λ _ v₆. ensure-IsSame S _ _ v₆))))))

  mail_in-IsSame :
      (o : Option (User → String → Action W SystemError Done)) (user : User) (password : String)
      (w : W)
      → D.send_account ≡ o
      → IsSame S w (mail_in D o user password w).1
  unfolding discard
  mail_in-IsSame none user password w h = IsSame-refl S w
  mail_in-IsSame (some send) user password w h = S.mail_keeps send user password w h

  pub create-IsCoherent :
      (req : CreateUserRequest) (w : W) → IsCoherent S w → IsCoherent S (create D req w).1
  unfolding create
  create-IsCoherent req w h =
      IsCoherent-step S (check_new D _ _ _) _ w (check_new-IsSame _ _ _ w) h (λ _ _ h₁.
        IsCoherent-step S D.new_uuid _ _ (S.uuid_keeps _) h₁ (λ user_id _ h₂.
          IsCoherent-step S (D.hash_password _) _ _ (S.hash_keeps _ _) h₂ (λ hash _ h₃.
            >>=-state (IsCoherent S) (D.create_user _) _ _
              (λ e failed. IsCoherent-same S _ _ (S.create_fails _ e _ failed) h₃)
              (λ user done.
                let (new, written) = S.create_writes _ user _ done in
                let stale =
                  Written-IsStale S user _ _ h₃ written
                    (λ old r. let clash : none ≡ some old = sym new ∙ r in cc) in
                let cached = written_cached S user _ stale in
                >>=-state (IsCoherent S) (cache_in D D.cache user) _ _ (λ _ _. cached)
                  (λ _ _.
                    IsCoherent-step S (mail_in D D.send_account user _) _ _
                      (mail_in-IsSame D.send_account user _ _ refl) cached (λ _ _ h₄. h₄))))))

  pub change_password-IsCoherent :
      (id old new : String) (w : W)
      → IsCoherent S w
      → IsCoherent S (change_password D id old new w).1
  unfolding change_password
  change_password-IsCoherent id old new w h =
      ensure-state (IsCoherent S) _ _ _ w (λ _. h)
        (λ _.
          ensure-state (IsCoherent S) _ _ _ w (λ _. h)
            (λ _.
              ensure-state (IsCoherent S) _ _ _ w (λ _. h)
                (λ _. IsCoherent-found S id _ w h (λ user v own named h₁.
                  let compare = attempt (D.same_password user.password_hash old) in
                  let same =
                    attempt-IsSame S (D.same_password user.password_hash old) v
                      (S.compare_keeps user.password_hash old v) in
                  IsCoherent-step S compare _ v same h₁ (λ matched _ h₂.
                    let v₂ = (compare v).1 in
                    IsCoherent-step S (or_raise D matched unauthorized) _ v₂
                      (or_raise-IsSame S matched unauthorized v₂) h₂
                      (λ _ _ h₃.
                        let v₃ = (or_raise D matched unauthorized v₂).1 in
                        IsCoherent-step S (D.hash_password new) _ v₃ (S.hash_keeps new v₃) h₃
                          (λ hash _ h₄.
                            let v₄ = (D.hash_password new v₃).1 in
                            let row_is =
                              (S.hash_keeps new v₃).0 user.id
                              ∙ (or_raise-IsSame S matched unauthorized v₂).0 user.id
                              ∙ same.0 user.id
                              ∙ own in
                            store-IsCoherent S (record user { password_hash = hash }) user v₄ h₄
                              row_is refl)))))))

  abbrev IsOf : User → User → Type 0
  IsOf user u = (u.id ≡ user.id) × (u.email ≡ user.email)

  renamed-IsOf :
      (name : Option String) (user u : User) (w : W)
      → (renamed D name user w).0 ≡ ok u
      → IsOf user u
  renamed-IsOf none user u w h = subst (IsOf user) (ok-injective h) (refl, refl)
  renamed-IsOf (some name) user u w h =
      let (_, h₁) = ensure-ok (not (str_eq (trim_space name) "")) _ _ w u h in
      subst (IsOf user) (ok-injective h₁) (refl, refl)

  renamed-IsSame :
      (name : Option String) (user : User) (w : W) → IsSame S w (renamed D name user w).1
  renamed-IsSame none user w = IsSame-refl S w
  renamed-IsSame (some name) user w =
      IsSame-then S (ensure _ _) _ w (ensure-IsSame S _ _ w) (λ _ v. IsSame-refl S v)

  promoted-IsOf :
      (role : Option String) (user u : User) (w : W)
      → (promoted D role user w).0 ≡ ok u
      → IsOf user u
  promoted-IsOf none user u w h = subst (IsOf user) (ok-injective h) (refl, refl)
  promoted-IsOf (some role) user u w h =
      let (valid, _, h₁) = >>=-ok (attempt (D.validate_role role)) _ w u h in
      let (_, _, h₂) = >>=-ok (or_raise D valid invalid_role) _ _ u h₁ in
      subst (IsOf user) (ok-injective h₂) (refl, refl)

  promoted-IsSame :
      (role : Option String) (user : User) (w : W) → IsSame S w (promoted D role user w).1
  promoted-IsSame none user w = IsSame-refl S w
  promoted-IsSame (some role) user w =
      IsSame-then S (attempt (D.validate_role role)) _ w
        (attempt-IsSame S (D.validate_role role) w (S.role_keeps role w))
        (λ valid v.
          IsSame-then S (or_raise D valid invalid_role) _ v (or_raise-IsSame S valid invalid_role v)
            (λ _ u. IsSame-refl S u))

  pub update-IsCoherent :
      (id : String) (req : UpdateUserRequest) (role current : String) (w : W)
      → IsCoherent S w
      → IsCoherent S (update D id req role current w).1
  unfolding update
  update-IsCoherent id req role current w h =
      ensure-state (IsCoherent S) _ _ _ w (λ _. h)
        (λ _. IsCoherent-found S id _ w h (λ user v own named h₁.
          ensure-state (IsCoherent S) _ _ _ v (λ _. h₁)
            (λ _.
              let rename = renamed D req.full_name user in
              let same₁ = renamed-IsSame req.full_name user v in
              IsCoherent-step S rename _ v same₁ h₁ (λ a is_a h₂.
                let v₂ = (rename v).1 in
                let same₂ = promoted-IsSame req.role a v₂ in
                IsCoherent-step S (promoted D req.role a) _ v₂ same₂ h₂ (λ b is_b h₃.
                  let v₃ = (promoted D req.role a v₂).1 in
                  let (id₁, email₁) = renamed-IsOf req.full_name user a v is_a in
                  let (id₂, email₂) = promoted-IsOf req.role a b v₂ is_b in
                  let row_is : S.row b.id v₃ ≡ some user =
                    ap (λ i. S.row i v₃) (id₂ ∙ id₁) ∙ same₂.0 user.id ∙ same₁.0 user.id ∙ own in
                  store-IsCoherent S b user v₃ h₃ row_is (sym (email₂ ∙ email₁)))))))

  IsStale-same : (user : User) (w v : W) → IsSame S w v → IsStale S user w → IsStale S user v
  IsStale-same user w v (rows, ids, emails) (own, by_id, by_email) = (
    rows user.id ∙ own,
    λ i u h. elim (by_id i u (sym (ids i) ∙ h)) [ inl r ↦ inl (rows i ∙ r) | inr same ↦ inr same ],
    λ e u h.
        let (named, kept) = by_email e u (sym (emails e) ∙ h) in
        (named, elim kept [ inl r ↦ inl (rows u.id ∙ r) | inr same ↦ inr same ]),
  )

  pub set_status-IsCoherent :
      (id status : String) (w : W) → IsCoherent S w → IsCoherent S (set_status D id status w).1
  unfolding set_status
  set_status-IsCoherent id status w h =
      ensure-state (IsCoherent S) _ _ _ w (λ _. h)
        (λ _. IsCoherent-found S id _ w h (λ user v own named h₁.
          >>=-state (IsCoherent S) (D.set_status_row id status) _ v
            (λ e failed. IsCoherent-same S v _ (S.status_fails id status e v failed) h₁)
            (λ _ done.
              let (old, new, was, new_id, new_email, _, written) =
                S.status_writes id status v done in
              let v₂ = (D.set_status_row id status v).1 in
              let stale = Written-IsStale S new v v₂ h₁ written (λ o r.
                let same : some old ≡ some o = sym was ∙ ap (λ i. S.row i v) (sym new_id) ∙ r in
                let one : old ≡ o = cc in ap (λ x. x.email) (sym one) ∙ sym new_email) in
              let read = attempt (D.get_by_id id) in
              let v₃ = (read v₂).1 in
              let stale₃ =
                IsStale-same new v₂ v₃ (attempt-IsSame S (D.get_by_id id) v₂ (S.get_keeps id v₂))
                  stale in
              let told : (read v₂).0 ≡ ok (some (some new)) =
                attempt-ok (D.get_by_id id) v₂ (some new)
                  (S.get_reads id v₂ ∙ ap ok (ap (λ i. S.row i v₂) (sym new_id) ∙ stale.0)) in
              subst (λ p. IsCoherent S p.1)
                (sym (>>=-run read (cache_found D) v₂ (some (some new)) told))
                (written_cached S new v₃ stale₃))))
