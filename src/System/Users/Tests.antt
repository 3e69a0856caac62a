-- ===== src/System/Users/Tests.antt =====
-- Users and their cache in memory, and the theorems at them.
use zeus_be.Prelude.{
  pos, String, str_eq, eq_iff, trim_space, Bool-cases, inl, inr, Option, none, some, List, [], ◌∷◌,
  if◌then◌else◌, Action, Result, ok, err, Done, ok-injective, attempt, discard, ensure, ◌>>=◌, ◌≡◌,
  refl, sym, ap, ◌∙◌, subst,
}
use zeus_be.System.Errors.{SystemError, not_found, unauthorized, failed}
use zeus_be.System.Auth.{
  User, AuthDeps, AuthLoginResult, login, issue_tokens, generate_access_token,
  generate_refresh_token, save_token,
}
use zeus_be.System.Users.{
  UserDeps, UserCache, authenticate, get_user, change_password, set_status, store,
}
use zeus_be.System.Users.Store.{UserStore, Same, Written, IsCoherent}
use zeus_be.System.Users.Coherence.{
  UserRequest, sets_status, changes_password, gets, serve, serve_all, serve_all-IsCoherent,
}
use zeus_be.System.Users.Login.{MayLogIn, login-MayLogIn}

-- The rows by their id, the ids by the mail address, and what the cache holds.
record UserWorld : Type 0 where
  rows : String → Option User
  owner : String → String
  by_id : String → Option User
  by_email : String → Option User

abbrev with_id : String → Option User → Option User
with_id i none = none
with_id i (some user) = some (record user { id = i })

abbrev row_of : String → UserWorld → Option User
row_of i w = with_id i (w.rows i)

abbrev put : {A : Type 0} → String → A → (String → A) → String → A
put key a f k = if str_eq key k then a else f k

abbrev write : User → UserWorld → UserWorld
write user w = record w {
  rows = put user.id (some user) w.rows;
  owner = put user.email user.id w.owner;
}

write-row :
    (user : User) (i : String) (w : UserWorld)
    → row_of i (write user w) ≡ (if str_eq user.id i then some user else row_of i w)
write-row user i w = elim (Bool-cases (str_eq user.id i)) [
  | inl same ↦ rw (same, sym ((eq_iff user.id i).0 same))
  | inr apart ↦ rw apart
]

abbrev Kept : UserWorld → UserWorld → Type 0
Kept = Same row_of (λ i w. w.by_id i) (λ e w. w.by_email e)

abbrev Put : User → UserWorld → UserWorld → Type 0
Put = Written row_of (λ i w. w.by_id i) (λ e w. w.by_email e)

write-Put : (user : User) (w : UserWorld) → Put user w (write user w)
write-Put user w = (λ i. write-row user i w, λ i. refl, λ e. refl)

kept : (w : UserWorld) → Kept w w
kept w = (λ i. refl, λ i. refl, λ e. refl)

abbrev filter_email : String → Option User → Option User
filter_email e none = none
filter_email e (some user) = if str_eq user.email e then some user else none

abbrev create_if : User → Option User → UserWorld → Result SystemError User × UserWorld
create_if user none w = (ok user, write user w)
create_if user (some old) w = (err (failed 1), w)

abbrev status_if : String → String → Option User → UserWorld → Result SystemError Done × UserWorld
status_if i status none w = (err not_found, w)
status_if i status (some user) w = (ok tt, write (record user { id = i; status = status }) w)

abbrev users_cache : UserCache UserWorld
users_cache = record {
  cached_by_id = λ i w. (ok (w.by_id i), w);
  cached_by_email = λ e w. (ok (w.by_email e), w);
  set_cached = λ user w. (
    ok tt,
    record w {
      by_id = put user.id (some user) w.by_id;
      by_email = put user.email (some user) w.by_email;
    },
  );
}

-- A password is its own hash.
abbrev users : UserDeps UserWorld
users = record {
  get_by_id = λ i w. (ok (row_of i w), w);
  get_by_email = λ e w. (ok (filter_email e (row_of (w.owner e) w)), w);
  list_users = λ page limit q w. (ok ([], pos 0), w);
  create_user = λ user w. create_if user (row_of user.id w) w;
  save_user = λ user w. (ok user, write user w);
  set_status_row = λ i status w. status_if i status (row_of i w) w;
  cache = some users_cache;
  validate_role = λ role w. (ok tt, w);
  send_account = none;
  hash_password = λ password w. (ok password, w);
  same_password = λ hash password w. (if str_eq hash password then ok tt else err unauthorized, w);
  new_uuid = λ w. (ok "9", w);
  total_pages = λ rows limit. pos 0;
  zero_time = pos 0;
}

row_of-id : (i : String) (o : Option User) (user : User) → with_id i o ≡ some user → user.id ≡ i
row_of-id i none user h = cc
row_of-id i (some u) user h =
    let same : record u { id = i } ≡ user = cc in ap (λ x. x.id) (sym same)

filter_email-ok :
    (e : String) (o : Option User) (user : User)
    → filter_email e o ≡ some user
    → (o ≡ some user) × (user.email ≡ e)
filter_email-ok e none user h = cc
filter_email-ok e (some u) user h = elim (Bool-cases (str_eq u.email e)) [
  | inl same ↦
      let one : some u ≡ some user = rw same at h in
      let own : u ≡ user = cc in (one, ap (λ x. x.email) (sym own) ∙ (eq_iff u.email e).0 same)
  | inr apart ↦ let clash : none ≡ some user = rw apart at h in cc
]

by_email-ok :
    (e : String) (w : UserWorld) (user : User)
    → filter_email e (row_of (w.owner e) w) ≡ some user
    → (row_of user.id w ≡ some user) × (user.email ≡ e)
by_email-ok e w user h =
    let (found, named) = filter_email-ok e (row_of (w.owner e) w) user h in
    let own = row_of-id (w.owner e) (w.rows (w.owner e)) user found in
    (ap (λ i. row_of i w) own ∙ found, named)

create_if-ok :
    (user created : User) (o : Option User) (w : UserWorld)
    → (create_if user o w).0 ≡ ok created
    → (o ≡ none) × (created ≡ user) × ((create_if user o w).1 ≡ write user w)
create_if-ok user created none w h = (refl, sym (ok-injective h), refl)
create_if-ok user created (some old) w h = cc

create_if-err :
    (user : User) (e : SystemError) (o : Option User) (w : UserWorld)
    → (create_if user o w).0 ≡ err e
    → Kept w (create_if user o w).1
create_if-err user e none w h = cc
create_if-err user e (some old) w h = kept w

create_if-Put :
    (user created : User) (w : UserWorld)
    → (create_if user (row_of user.id w) w).0 ≡ ok created
    → (row_of created.id w ≡ none) × Put created w (create_if user (row_of user.id w) w).1
create_if-Put user created w h =
    let (new, one, written) = create_if-ok user created (row_of user.id w) w h in
    (
      ap (λ u. row_of u.id w) one ∙ new,
      subst (Put created w) (sym written)
          (subst (λ u. Put u w (write user w)) (sym one) (write-Put user w)),
    )

save-Put :
    (user saved : User) (w : UserWorld)
    → user ≡ saved
    → (saved.id ≡ user.id) × (saved.email ≡ user.email) × Put saved w (write user w)
save-Put user saved w one =
    subst (λ u. (u.id ≡ user.id) × (u.email ≡ user.email) × Put u w (write user w)) one
      (refl, refl, write-Put user w)

status_if-Put :
    (i status : String) (o : Option User) (w : UserWorld)
    → w.rows i ≡ o
    → (status_if i status (with_id i o) w).0 ≡ ok tt
    → (old new : User) × (with_id i o ≡ some old)
      × (new.id ≡ i)
      × (new.email ≡ old.email)
      × (new.status ≡ status)
      × Put new w (status_if i status (with_id i o) w).1
status_if-Put i status none w e h = cc
status_if-Put i status (some user) w e h = (
  record user { id = i },
  record user { id = i; status = status },
  refl,
  refl,
  refl,
  refl,
  write-Put (record user { id = i; status = status }) w,
)

status_if-err :
    (i status : String) (e : SystemError) (o : Option User) (w : UserWorld)
    → (status_if i status o w).0 ≡ err e
    → Kept w (status_if i status o w).1
status_if-err i status e none w h = kept w
status_if-err i status e (some user) w h = cc

save-err : (user : User) (e : SystemError) (w : UserWorld) → ok user ≡ err e → Kept w (write user w)
save-err user e w h = cc

no_mail :
    (send : User → String → Action UserWorld SystemError Done) (user : User) (password : String)
    (w : UserWorld)
    → none ≡ some send
    → Kept w (send user password w).1
no_mail send user password w h = cc

abbrev users_store : UserStore users users_cache
users_store = record {
  configured = refl;
  row = row_of;
  held_by_id = λ i w. w.by_id i;
  held_by_email = λ e w. w.by_email e;
  row_id = λ i w user h. row_of-id i (w.rows i) user h;
  get_reads = λ i w. refl;
  get_keeps = λ i w. kept w;
  by_email_reads = λ e w user h. by_email-ok e w user (ok-injective h);
  by_email_keeps = λ e w. kept w;
  list_keeps = λ page limit q w. kept w;
  create_writes = λ user created w h. create_if-Put user created w h;
  create_fails = λ user e w h. create_if-err user e (row_of user.id w) w h;
  save_writes = λ user saved w h. save-Put user saved w (ok-injective h);
  save_fails = λ user e w h. save-err user e w h;
  status_writes = λ i status w h. status_if-Put i status (w.rows i) w refl h;
  status_fails = λ i status e w h. status_if-err i status e (row_of i w) w h;
  cached_reads = λ i w user h. ok-injective h;
  cached_keeps = λ i w. kept w;
  cached_email_reads = λ e w user h. ok-injective h;
  cached_email_keeps = λ e w. kept w;
  set_rows = λ user i w. refl;
  set_by_id = λ user i w. refl;
  set_by_email = λ user e w. refl;
  role_keeps = λ role w. kept w;
  mail_keeps = λ send user password w h. no_mail send user password w h;
  hash_keeps = λ password w. kept w;
  compare_keeps = λ hash password w. kept w;
  uuid_keeps = λ w. kept w;
}

abbrev ann : User
ann = record {
  id = "1";
  email = "ann@zeus";
  password_hash = "first-secret";
  full_name = "Ann";
  role = "admin";
  status = "ACTIVE";
  last_login_at = none;
  created_at = pos 0;
  updated_at = pos 0;
  deleted_at = none;
}

-- One user, who is in no cache.
abbrev start : UserWorld
start = record {
  rows = put "1" (some ann) (λ i. none);
  owner = put "ann@zeus" "1" (λ e. "");
  by_id = λ i. none;
  by_email = λ e. none;
}

start-IsCoherent : IsCoherent users_store start
start-IsCoherent = (λ i user h. cc, λ e user h. cc)

-- The user is cached, changes the password, and is made inactive and active again.
abbrev calls : List UserRequest
calls =
    gets "1"
    ∷ changes_password "1" "first-secret" "second-secret"
    ∷ sets_status "1" "INACTIVE"
    ∷ sets_status "1" "ACTIVE"
    ∷ []

serve_all-IsCoherent_example : IsCoherent users_store (serve_all users calls start)
serve_all-IsCoherent_example = serve_all-IsCoherent users_store calls start start-IsCoherent

-- Signing and sessions, which leave the users alone.
abbrev tokens : AuthDeps UserWorld
tokens = record {
  authenticate = authenticate users;
  get_by_id = λ i w. (ok ann, w);
  refresh_repo = none;
  create_session = λ session w. (ok tt, w);
  get_by_jti = λ jti w. (ok none, w);
  delete_by_jti = λ jti w. (ok tt, w);
  delete_by_user_id = λ i w. (ok tt, w);
  sign_access = λ claims w. (ok "access", w);
  sign_refresh = λ claims w. (ok "refresh", w);
  parse_access = λ token w. (ok none, w);
  parse_refresh = λ token w. (ok none, w);
  parse_uuid = λ s. some s;
  new_uuid = λ w. (ok "7", w);
  now = λ w. (ok (pos 0), w);
  time_until = λ t w. (ok t, w);
}

abbrev let_in : AuthLoginResult
let_in = record {
  tokens = record {
    access_token = "access";
    refresh_token = "refresh";
    token_type = "Bearer";
    expires_in = pos 900;
  };
  user = record ann { password_hash = "second-secret" };
}

login-MayLogIn_example :
    MayLogIn users_store " ann@zeus " "second-secret" let_in.user (serve_all users calls start)
unfolding login issue_tokens generate_access_token generate_refresh_token save_token serve_all serve
    get_user change_password set_status store authenticate ◌>>=◌ attempt discard ensure trim_space
login-MayLogIn_example =
    login-MayLogIn users_store tokens refl calls " ann@zeus " "second-secret" start let_in
      start-IsCoherent refl
