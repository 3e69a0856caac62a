-- ===== src/System/Users/Store.antt =====
-- What the user service relies on: rows by their id, and a cache by the id and by the mail address
-- that takes what it is told to hold. And what it means that the cache is in line with the rows.
use zeus_be.Prelude.{
  ℤ, String, str_eq, eq_iff, Bool-cases, inl, inr, Option, none, some, if◌then◌else◌, ok, err, ◌≡◌,
  refl, sym, ap, ◌∙◌, subst, ◌⊎◌,
}
use zeus_be.System.Errors.{SystemError}
use zeus_be.System.Auth.{User}
use zeus_be.System.Users.{UserDeps, UserCache}

module _ {W : Type 0} (row held_by_id held_by_email : String → W → Option User) where
  -- The rows and the cache are as they were.
  abbrev pub Same : W → W → Type 0
  Same w v =
      ((i : String) → row i v ≡ row i w)
      × ((i : String) → held_by_id i v ≡ held_by_id i w)
      × ((e : String) → held_by_email e v ≡ held_by_email e w)

  -- The user is the row of its id, and all else is as it was.
  abbrev pub Written : User → W → W → Type 0
  Written user w v =
      ((i : String) → row i v ≡ (if str_eq user.id i then some user else row i w))
      × ((i : String) → held_by_id i v ≡ held_by_id i w)
      × ((e : String) → held_by_email e v ≡ held_by_email e w)

pub record UserStore {W : Type 0} (D : UserDeps W) (c : UserCache W) : Type 0 where
  pub configured : D.cache ≡ some c
  pub row : String → W → Option User
  pub held_by_id : String → W → Option User
  pub held_by_email : String → W → Option User
  pub row_id : (i : String) (w : W) (user : User) → row i w ≡ some user → user.id ≡ i
  pub get_reads : (i : String) (w : W) → (D.get_by_id i w).0 ≡ ok (row i w)
  pub get_keeps : (i : String) (w : W) → Same row held_by_id held_by_email w (D.get_by_id i w).1
  pub by_email_reads :
      (e : String) (w : W) (user : User)
      → (D.get_by_email e w).0 ≡ ok (some user)
      → (row user.id w ≡ some user) × (user.email ≡ e)
  pub by_email_keeps :
      (e : String) (w : W) → Same row held_by_id held_by_email w (D.get_by_email e w).1
  pub list_keeps :
      (page limit : ℤ) (q : String) (w : W)
      → Same row held_by_id held_by_email w (D.list_users page limit q w).1
  -- A row that is created has a new id.
  pub create_writes :
      (user created : User) (w : W)
      → (D.create_user user w).0 ≡ ok created
      → (row created.id w ≡ none)
        × Written row held_by_id held_by_email created w (D.create_user user w).1
  pub create_fails :
      (user : User) (e : SystemError) (w : W)
      → (D.create_user user w).0 ≡ err e
      → Same row held_by_id held_by_email w (D.create_user user w).1
  pub save_writes :
      (user saved : User) (w : W)
      → (D.save_user user w).0 ≡ ok saved
      → (saved.id ≡ user.id)
        × (saved.email ≡ user.email)
        × Written row held_by_id held_by_email saved w (D.save_user user w).1
  pub save_fails :
      (user : User) (e : SystemError) (w : W)
      → (D.save_user user w).0 ≡ err e
      → Same row held_by_id held_by_email w (D.save_user user w).1
  -- A row that gets a status was there, and keeps its id and mail address.
  pub status_writes :
      (i status : String) (w : W)
      → (D.set_status_row i status w).0 ≡ ok tt
      → (old new : User) × (row i w ≡ some old)
        × (new.id ≡ i)
        × (new.email ≡ old.email)
        × (new.status ≡ status)
        × Written row held_by_id held_by_email new w (D.set_status_row i status w).1
  pub status_fails :
      (i status : String) (e : SystemError) (w : W)
      → (D.set_status_row i status w).0 ≡ err e
      → Same row held_by_id held_by_email w (D.set_status_row i status w).1
  -- The cache may forget; what it tells it holds.
  pub cached_reads :
      (i : String) (w : W) (user : User)
      → (c.cached_by_id i w).0 ≡ ok (some user)
      → held_by_id i w ≡ some user
  pub cached_keeps :
      (i : String) (w : W) → Same row held_by_id held_by_email w (c.cached_by_id i w).1
  pub cached_email_reads :
      (e : String) (w : W) (user : User)
      → (c.cached_by_email e w).0 ≡ ok (some user)
      → held_by_email e w ≡ some user
  pub cached_email_keeps :
      (e : String) (w : W) → Same row held_by_id held_by_email w (c.cached_by_email e w).1
  pub set_rows : (user : User) (i : String) (w : W) → row i (c.set_cached user w).1 ≡ row i w
  pub set_by_id :
      (user : User) (i : String) (w : W)
      → held_by_id i (c.set_cached user w).1
        ≡ (if str_eq user.id i then some user else held_by_id i w)
  pub set_by_email :
      (user : User) (e : String) (w : W)
      → held_by_email e (c.set_cached user w).1
        ≡ (if str_eq user.email e then some user else held_by_email e w)
  pub role_keeps :
      (role : String) (w : W) → Same row held_by_id held_by_email w (D.validate_role role w).1
  pub mail_keeps :
      (send : User → String → W → _) (user : User) (password : String) (w : W)
      → D.send_account ≡ some send
      → Same row held_by_id held_by_email w (send user password w).1
  pub hash_keeps :
      (password : String) (w : W)
      → Same row held_by_id held_by_email w (D.hash_password password w).1
  pub compare_keeps :
      (hash password : String) (w : W)
      → Same row held_by_id held_by_email w (D.same_password hash password w).1
  pub uuid_keeps : (w : W) → Same row held_by_id held_by_email w (D.new_uuid w).1

module _ {W : Type 0} {D : UserDeps W} {c : UserCache W} (S : UserStore D c) where
  open S use {row, held_by_id, held_by_email}

  abbrev pub IsSame : W → W → Type 0
  IsSame = Same row held_by_id held_by_email

  -- What the cache holds, under the id or under the mail address, is the row of the user.
  abbrev pub IsCoherent : W → Type 0
  IsCoherent w =
      ((i : String) (user : User) → held_by_id i w ≡ some user → row i w ≡ some user)
      × ((e : String) (user : User)
          → held_by_email e w ≡ some user
          → (row user.id w ≡ some user) × (user.email ≡ e))

  -- The user is the row of its id, and the cache is in line but for that id and its mail address.
  abbrev pub IsStale : User → W → Type 0
  IsStale user w =
      (row user.id w ≡ some user)
      × ((i : String) (u : User) → held_by_id i w ≡ some u → (row i w ≡ some u) ⊎ (user.id ≡ i))
      × ((e : String) (u : User)
          → held_by_email e w ≡ some u
          → (u.email ≡ e) × ((row u.id w ≡ some u) ⊎ (user.email ≡ e)))

  pub IsSame-trans : (u v w : W) → IsSame u v → IsSame v w → IsSame u w
  IsSame-trans u v w (a, b, c) (d, e, f) = (λ i. d i ∙ a i, λ i. e i ∙ b i, λ i. f i ∙ c i)

  pub IsCoherent-same : (w v : W) → IsSame w v → IsCoherent w → IsCoherent v
  IsCoherent-same w v (rows, ids, emails) (by_id, by_email) = (
    λ i user h. rows i ∙ by_id i user (sym (ids i) ∙ h),
    λ e user h. let (r, s) = by_email e user (sym (emails e) ∙ h) in (rows user.id ∙ r, s),
  )

  pub Written-IsStale :
      (user : User) (w v : W)
      → IsCoherent w
      → Written row held_by_id held_by_email user w v
      → ((old : User) → row user.id w ≡ some old → old.email ≡ user.email)
      → IsStale user v
  Written-IsStale user w v (by_id, by_email) (rows, ids, emails) same_email = (
    rows user.id ∙ rw ((eq_iff user.id user.id).1 refl),
    λ i u h. elim (Bool-cases (str_eq user.id i)) [
      | inl same ↦ inr ((eq_iff user.id i).0 same)
      | inr apart ↦ inl (rows i ∙ (rw apart (by_id i u (sym (ids i) ∙ h))))
    ],
    λ e u h.
        let (r, s) = by_email e u (sym (emails e) ∙ h) in
        (
          s,
          elim (Bool-cases (str_eq user.id u.id)) [
            | inl same ↦
                inr (sym (same_email u (ap (λ i. row i w) ((eq_iff user.id u.id).0 same) ∙ r)) ∙ s)
            | inr apart ↦ inl (rows u.id ∙ (rw apart r))
          ],
        ),
  )

  pub cached-IsCoherent :
      (user : User) (w : W) → IsStale user w → IsCoherent (c.set_cached user w).1
  cached-IsCoherent user w (own, by_id, by_email) = (
    λ i u h. S.set_rows user i w ∙ elim (Bool-cases (str_eq user.id i)) [
      | inl same ↦
          let held : some user ≡ some u = rw (S.set_by_id user i w, same) at h in
          ap (λ j. row j w) (sym ((eq_iff user.id i).0 same)) ∙ own ∙ held
      | inr apart ↦
          let held : held_by_id i w ≡ some u = rw (S.set_by_id user i w, apart) at h in
          elim (by_id i u held) [
            | inl kept ↦ kept
            | inr same ↦ let clash = (eq_iff user.id i).1 same in cc
          ]
    ],
    λ e u h. elim (Bool-cases (str_eq user.email e)) [
      | inl same ↦
          let held : some user ≡ some u = rw (S.set_by_email user e w, same) at h in
          let one : user ≡ u = cc in
          (
            S.set_rows user u.id w ∙ subst (λ x. row x.id w ≡ some x) one own,
            ap (λ x. x.email) (sym one) ∙ (eq_iff user.email e).0 same,
          )
      | inr apart ↦
          let held : held_by_email e w ≡ some u = rw (S.set_by_email user e w, apart) at h in
          let (named, kept) = by_email e u held in
          elim kept [
            | inl r ↦ (S.set_rows user u.id w ∙ r, named)
            | inr same ↦ let clash = (eq_iff user.email e).1 same in cc
          ]
    ],
  )
