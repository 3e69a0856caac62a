-- ===== src/System/Users.antt =====
-- system/internal/service/user_service.go: the accounts, with their cache.
pub mod Store
pub mod Steps
pub mod Writes
pub mod Coherence
pub mod Login
mod Tests
use Prim.Native.String.{len, slice, ◌∷◌ as char_then, [] as empty}
use zeus_be.Prelude.{
  ℕ, ◌==◌, ltb, code, ℤ, pos, ltb_ℤ, String, str_eq, trim_space, to_upper, Bool, true, false, not,
  ◌&&◌, ◌||◌, Option, none, some, List, if◌then◌else◌, Action, Done, pure, raise, discard, attempt,
  ensure, ◌>>=◌, ◌>>◌,
}
use zeus_be.System.Errors.{
  SystemError, not_found, duplicate_email, inactive_account, unauthorized, forbidden,
  short_password, invalid_role, invalid_email, empty_email, empty_password, empty_name, nil_id,
}
use zeus_be.System.Auth.{User}

-- `repository.UserCacheRepository`, what the service calls of it. A nil user is none.
pub record UserCache (W : Type 0) : Type 0 where
  pub cached_by_id : String → Action W SystemError (Option User)
  pub cached_by_email : String → Action W SystemError (Option User)
  pub set_cached : User → Action W SystemError Done

-- What `userService` calls. A row that is created or saved is returned as it is then, with its
-- times. `send_account` mails the user the password in the background, where there is a sender;
-- `total_pages` is the ceiling of a quotient of floats.
pub record UserDeps (W : Type 0) : Type 0 where
  pub get_by_id : String → Action W SystemError (Option User)
  pub get_by_email : String → Action W SystemError (Option User)
  pub list_users : ℤ → ℤ → String → Action W SystemError (List User × ℤ)
  pub create_user : User → Action W SystemError User
  pub save_user : User → Action W SystemError User
  pub set_status_row : String → String → Action W SystemError Done
  pub cache : Option (UserCache W)
  pub validate_role : String → Action W SystemError Done
  pub send_account : Option (User → String → Action W SystemError Done)
  pub hash_password : String → Action W SystemError String
  pub same_password : String → String → Action W SystemError Done
  pub new_uuid : Action W SystemError String
  pub total_pages : ℤ → ℤ → ℤ
  -- the zero `time.Time`
  pub zero_time : ℤ

pub record CreateUserRequest : Type 0 where
  pub email : String
  pub full_name : String
  pub role : String

pub record UpdateUserRequest : Type 0 where
  pub full_name : Option String
  pub role : Option String

pub record PaginationMeta : Type 0 where
  pub page : ℤ
  pub limit : ℤ
  pub total_rows : ℤ
  pub total_pages : ℤ

-- `uuid.Nil`
abbrev nil_uuid : String
nil_uuid = "00000000-0000-0000-0000-000000000000"

-- `strings.Contains(s, "@")`
pub has_at : String → Bool
has_at empty = false
has_at (char_then c s) = code c == 64 || has_at s

-- `strings.EqualFold(role, "admin")`: only ASCII letters fold to those of "admin".
abbrev pub is_admin : String → Bool
is_admin role = str_eq (to_upper (λ c. c) role) "ADMIN"

abbrev pub is_some : Option User → Bool
is_some none = false
is_some (some user) = true

abbrev pub flat : Option (Option User) → Option User
flat none = none
flat (some found) = found

module _ {W : Type 0} (D : UserDeps W) where
  open D use {
    get_by_id, get_by_email, list_users, create_user, save_user, set_status_row, cache,
    validate_role, send_account, hash_password, same_password, new_uuid, total_pages, zero_time,
  }

  abbrev or_not_found : Option User → Action W SystemError User
  or_not_found none = raise not_found
  or_not_found (some user) = pure user

  abbrev cache_in : Option (UserCache W) → User → Action W SystemError Done
  cache_in none user = pure tt
  cache_in (some c) user = discard (c.set_cached user)

  abbrev mail_in :
      Option (User → String → Action W SystemError Done) → User → String → Action W SystemError Done
  mail_in none user password = pure tt
  mail_in (some send) user password = discard (send user password)

  -- `if err := f(); err != nil { return e }`
  abbrev or_raise : {A : Type 0} → Option A → SystemError → Action W SystemError Done
  or_raise none e = raise e
  or_raise (some a) e = pure tt

  -- The checks of a request whose texts are trimmed.
  check_new : String → String → String → Action W SystemError Done
  unfolding has_at
  check_new email full_name role = do
    ensure (not (str_eq email "")) empty_email
    ensure (has_at email) invalid_email
    ensure (not (str_eq full_name "")) empty_name
    valid ← attempt (validate_role role)
    or_raise valid invalid_role
    existing ← attempt (get_by_email email)
    ensure (not (is_some (flat existing))) duplicate_email

  pub create : CreateUserRequest → Action W SystemError User
  unfolding check_new
  create req = do
    check_new (trim_space req.email) (trim_space req.full_name) req.role
    user_id ← new_uuid
    hash ← hash_password (slice user_id 0 10)
    user ← create_user (record {
      id = user_id;
      email = trim_space req.email;
      password_hash = hash;
      full_name = trim_space req.full_name;
      role = req.role;
      status = "ACTIVE";
      last_login_at = none;
      created_at = zero_time;
      updated_at = zero_time;
      deleted_at = none;
    })
    cache_in cache user
    mail_in send_account user (slice user_id 0 10)
    pure user

  abbrev cached_in :
      Option (UserCache W)
      → (UserCache W → Action W SystemError (Option User))
      → Action W SystemError (Option User)
  cached_in none read = pure none
  cached_in (some c) read = do found ← attempt (read c); pure (flat found)

  -- The row is cached on the way.
  abbrev or_row : Option User → Action W SystemError (Option User) → Action W SystemError User
  or_row (some user) read = pure user
  or_row none read = do found ← read; user ← or_not_found found; cache_in cache user; pure user

  pub get_user : String → Action W SystemError User
  get_user id = do
    ensure (not (str_eq id nil_uuid)) nil_id
    cached ← cached_in cache (λ c. c.cached_by_id id)
    or_row cached (get_by_id id)

  abbrev clamped_page : ℤ → ℤ
  clamped_page page = if ltb_ℤ page (pos 1) then pos 1 else page

  abbrev clamped_limit : ℤ → ℤ
  clamped_limit limit = if ltb_ℤ limit (pos 1) || ltb_ℤ (pos 100) limit then pos 15 else limit

  pub list : ℤ → ℤ → String → Action W SystemError (List User × PaginationMeta)
  list page limit q = do
    listed ← list_users page limit q
    pure (
      listed.0,
      record {
        page = clamped_page page;
        limit = clamped_limit limit;
        total_rows = listed.1;
        total_pages = total_pages listed.1 (clamped_limit limit);
      },
    )

  abbrev renamed : Option String → User → Action W SystemError User
  renamed none user = pure user
  renamed (some name) user = do
    ensure (not (str_eq (trim_space name) "")) empty_name
    pure (record user { full_name = trim_space name })

  abbrev promoted : Option String → User → Action W SystemError User
  promoted none user = pure user
  promoted (some role) user = do
    valid ← attempt (validate_role role)
    or_raise valid invalid_role
    pure (record user { role = role })

  -- Saved, and then cached.
  pub store : User → Action W SystemError User
  store user = do saved ← save_user user; cache_in cache saved; pure saved

  pub update : String → UpdateUserRequest → String → String → Action W SystemError User
  unfolding store
  update id req current_role current_id = do
    ensure (not (str_eq id nil_uuid)) nil_id
    found ← get_by_id id
    user ← or_not_found found
    ensure (not (is_admin user.role && is_admin current_role && not (str_eq user.id current_id)))
        forbidden
    named ← renamed req.full_name user
    changed ← promoted req.role named
    store changed

  abbrev cache_found : Option (Option User) → Action W SystemError Done
  cache_found (some (some user)) = cache_in cache user
  cache_found (some none) = pure tt
  cache_found none = pure tt

  pub set_status : String → String → Action W SystemError Done
  set_status id status = do
    ensure (not (str_eq id nil_uuid)) nil_id
    found ← get_by_id id
    or_not_found found
    set_status_row id status
    updated ← attempt (get_by_id id)
    cache_found updated

  pub authenticate : String → String → Action W SystemError User
  authenticate email password = do
    ensure (not (str_eq (trim_space email) "")) empty_email
    ensure (not (str_eq password "")) empty_password
    cached ← cached_in cache (λ c. c.cached_by_email (trim_space email))
    user ← or_row cached (get_by_email (trim_space email))
    ensure (not (str_eq user.status "INACTIVE")) inactive_account
    same ← attempt (same_password user.password_hash password)
    or_raise same unauthorized
    pure user

  pub change_password : String → String → String → Action W SystemError User
  unfolding store
  change_password id old_password new_password = do
    ensure (not (str_eq id nil_uuid)) nil_id
    ensure (not (str_eq old_password "" || str_eq new_password "")) empty_password
    ensure (not (ltb (len new_password) 8)) short_password
    found ← get_by_id id
    user ← or_not_found found
    same ← attempt (same_password user.password_hash old_password)
    or_raise same unauthorized
    hash ← hash_password new_password
    store (record user { password_hash = hash })
