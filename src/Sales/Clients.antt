-- ===== src/Sales/Clients.antt =====
-- sales/internal/service/client_service.go: the clients, with their cache. Counters of metrics are
-- left out.
use zeus_be.Prelude.{
  ℕ, ℤ, pos, String, str_eq, concat, trim_space, is_blank, Char, to_upper, Bool, true, false, not,
  ◌&&◌, ◌||◌, ◌==◌, Option, none, some, List, if◌then◌else◌, Action, Done, pure, discard, attempt,
  ensure, ◌>>=◌, ◌>>◌,
}
use zeus_be.Sales.Errors.{SalesError, validation, conflict}
use zeus_be.Sales.Model.{Client, zero_time}

-- `infra.Cache`, for clients. A `false` and a nil are none.
pub record ClientCache (W : Type 0) : Type 0 where
  pub client_by_id : ℕ → Action W SalesError (Option Client)
  pub client_by_name : String → Action W SalesError (Option Client)
  pub clients : Action W SalesError (Option (List Client))
  pub set_client : Client → Action W SalesError Done
  pub set_clients : List Client → Action W SalesError Done
  pub delete_client : ℕ → String → Action W SalesError Done

-- `infra.Publisher`, for clients. The entry of an audit is a user, a mail address, the action, what
-- it is on and a text.
pub record ClientPublisher (W : Type 0) : Type 0 where
  pub client_created : Client → Action W SalesError Done
  pub client_updated : Client → Action W SalesError Done
  pub audit : String → String → String → String → String → Action W SalesError Done

-- The user and the mail address that the context holds as texts, or an empty text.
pub record Caller : Type 0 where
  pub user_id : String
  pub email : String

-- What `ClientService` calls. `clear_queue` is of `svc.cache`, where that is not nil; `same_password`
-- is `bcrypt.CompareHashAndPassword`.
pub record ClientDeps (W : Type 0) : Type 0 where
  pub exists_client_by_name : String → Action W SalesError Bool
  pub get_client_by_name : String → Action W SalesError Client
  pub get_client_row : ℕ → Action W SalesError Client
  pub get_client_by_api_key_prefix : String → Action W SalesError Client
  pub list_client_rows : Action W SalesError (List Client)
  pub insert_client : Client → Action W SalesError Done
  pub save_client : Client → Action W SalesError Done
  pub remove_client : ℕ → Action W SalesError Done
  pub client_cache : Option (ClientCache W)
  pub publisher : Option (ClientPublisher W)
  pub clear_queue : Option (Action W SalesError Done)
  pub same_password : String → String → Action W SalesError Done
  pub uuid_string : ℕ → String
  pub upper_rune : Char → Char
  pub new_uuid : Action W SalesError ℕ
  pub now : Action W SalesError ℤ

abbrev pub flat : {A : Type 0} → Option (Option A) → Option A
flat none = none
flat (some found) = found

pub record CreateClientRequest : Type 0 where
  pub name : String
  pub tier : String
  pub default_destination_address : String

pub record UpdateClientRequest : Type 0 where
  pub name : Option String
  pub tier : Option String
  pub default_destination_address : Option String

abbrev is_none : Option String → Bool
is_none none = true
is_none (some s) = false

module _ {W : Type 0} (D : ClientDeps W) where
  open D use {
    exists_client_by_name, get_client_by_name, get_client_row, get_client_by_api_key_prefix,
    list_client_rows, insert_client, save_client, remove_client, client_cache, publisher,
    clear_queue, same_password, uuid_string, upper_rune, new_uuid, now,
  }

  unfoldable pub cache_in : Option (ClientCache W) → Client → Action W SalesError Done
  cache_in none client = pure tt
  cache_in (some cache) client = discard (cache.set_client client)

  unfoldable pub cache_client : Client → Action W SalesError Done
  unfolding cache_in
  cache_client = cache_in client_cache

  unfoldable pub cached_in :
      {K : Type 0}
      → (ClientCache W → K → Action W SalesError (Option Client))
      → Option (ClientCache W)
      → K
      → Action W SalesError (Option Client)
  cached_in read none key = pure none
  cached_in read (some cache) key = do found ← attempt (read cache key); pure (flat found)

  unfoldable pub get_cached_client_by_id : ℕ → Action W SalesError (Option Client)
  unfolding cached_in
  get_cached_client_by_id = cached_in (λ cache. cache.client_by_id) client_cache

  unfoldable pub get_cached_client_by_name : String → Action W SalesError (Option Client)
  unfolding cached_in
  get_cached_client_by_name = cached_in (λ cache. cache.client_by_name) client_cache

  -- The row is cached on the way.
  abbrev cached_row : Action W SalesError Client → Action W SalesError Client
  cached_row read = do client ← read; cache_client client; pure client

  abbrev or_row : Option Client → Action W SalesError Client → Action W SalesError Client
  or_row none read = read
  or_row (some client) read = pure client

  unfoldable pub get_client : ℕ → Action W SalesError Client
  unfolding get_cached_client_by_id cache_client
  get_client id = do
    ensure (not (id == 0)) (validation "client id is required")
    cached ← get_cached_client_by_id id
    or_row cached (cached_row (get_client_row id))

  -- A client that is new, and cached.
  unfoldable pub insert_and_cache : Client → Action W SalesError Client
  unfolding cache_client
  insert_and_cache client = do insert_client client; cache_client client; pure client

  unfoldable pub new_client : String → String → String → Action W SalesError Client
  unfolding insert_and_cache
  new_client name destination tier = do
    id ← new_uuid
    t ← now
    insert_and_cache (record {
      id = id;
      name = name;
      tier = tier;
      default_destination_address = destination;
      total_lifetime_orders = pos 0;
      api_key_prefix = "";
      api_key_hash = "";
      created_at = t;
      updated_at = zero_time;
    })

  abbrev find_or_create : String → String → String → Action W SalesError Client
  find_or_create name destination tier = do
    exists ← exists_client_by_name name
    if exists
        then cached_row (get_client_by_name name)
        else new_client name destination (if str_eq tier "" then "B2C" else tier)

  unfoldable pub resolve_or_create_client : String → String → String → Action W SalesError Client
  unfolding get_cached_client_by_name new_client cache_client
  resolve_or_create_client name destination tier = do
    ensure (not (str_eq (trim_space name) "")) (validation "client name is required")
    cached ← get_cached_client_by_name (trim_space name)
    or_row cached (find_or_create (trim_space name) destination tier)

  abbrev audit_in :
      Option (ClientPublisher W) → Caller → String → String → String → Action W SalesError Done
  audit_in none caller action target details = pure tt
  audit_in (some p) caller action target details =
      if is_blank caller.user_id || is_blank caller.email
      then pure tt
      else discard (
          p.audit caller.user_id caller.email (to_upper upper_rune (trim_space action)) target
            details)

  pub publish_audit : Caller → String → String → String → Action W SalesError Done
  publish_audit = audit_in publisher

  abbrev on_publisher :
      Option (ClientPublisher W)
      → (ClientPublisher W → Action W SalesError Done)
      → Action W SalesError Done
      → Action W SalesError Done
  on_publisher none publish audit = pure tt
  on_publisher (some p) publish audit = discard (publish p) >> audit

  abbrev target_of : ℕ → String
  target_of id = concat "sales/clients/" (uuid_string id)

  pub create_client : Caller → CreateClientRequest → Action W SalesError Client
  unfolding insert_and_cache publish_audit
  create_client caller req = do
    ensure (not (str_eq (trim_space req.name) "")) (validation "client name is required")
    ensure (str_eq req.tier "B2B" || str_eq req.tier "B2C") (validation "tier must be B2B or B2C")
    exists ← exists_client_by_name (trim_space req.name)
    ensure (not exists) (conflict "a client with this name already exists")
    id ← new_uuid
    t ← now
    u ← now
    client ← insert_and_cache (record {
      id = id;
      name = trim_space req.name;
      tier = req.tier;
      default_destination_address = trim_space req.default_destination_address;
      total_lifetime_orders = pos 0;
      api_key_prefix = "";
      api_key_hash = "";
      created_at = t;
      updated_at = u;
    })
    on_publisher publisher (λ p. p.client_created client)
        (publish_audit caller "CREATE" (target_of client.id) (concat "Created client " client.name))
    pure client

  abbrev cached_clients_in : Option (ClientCache W) → Action W SalesError (Option (List Client))
  cached_clients_in none = pure none
  cached_clients_in (some cache) = do found ← attempt cache.clients; pure (flat found)

  abbrev cache_all : Option (ClientCache W) → List Client → Action W SalesError Done
  cache_all none clients = pure tt
  cache_all (some cache) clients = discard (cache.set_clients clients)

  abbrev or_rows : Option (List Client) → Action W SalesError (List Client)
  or_rows (some clients) = pure clients
  or_rows none = do clients ← list_client_rows; cache_all client_cache clients; pure clients

  pub list_clients : Action W SalesError (List Client)
  list_clients = do cached ← cached_clients_in client_cache; or_rows cached

  abbrev is_empty_request : UpdateClientRequest → Bool
  is_empty_request req =
      is_none req.name && is_none req.tier && is_none req.default_destination_address

  abbrev renamed : Option String → Client → Action W SalesError Client
  renamed none client = pure client
  renamed (some name) client = do
    ensure (not (str_eq (trim_space name) "")) (validation "client name cannot be empty")
    pure (record client { name = trim_space name })

  abbrev moved : Option String → Option String → Client → Client
  moved none none client = client
  moved (some tier) none client = record client { tier = tier }
  moved none (some destination) client = record client {
    default_destination_address = trim_space destination;
  }
  moved (some tier) (some destination) client = record client {
    tier = tier;
    default_destination_address = trim_space destination;
  }

  abbrev forget : Option (ClientCache W) → ℕ → String → Action W SalesError Done
  forget none id name = pure tt
  forget (some cache) id name = discard (cache.delete_client id name)

  abbrev clear_in : Option (Action W SalesError Done) → Action W SalesError Done
  clear_in none = pure tt
  clear_in (some clear) = discard clear

  pub update_client : Caller → ℕ → UpdateClientRequest → Action W SalesError Client
  unfolding cache_client publish_audit
  update_client caller id req = do
    ensure (not (id == 0)) (validation "client id is required")
    row ← get_client_row id
    ensure (not (is_empty_request req)) (validation "update request is empty")
    named ← renamed req.name row
    let client = moved req.tier req.default_destination_address named
    save_client client
    if str_eq row.name client.name then pure tt else forget client_cache client.id row.name
    cache_client client
    clear_in clear_queue
    on_publisher publisher (λ p. p.client_updated client)
        (publish_audit caller "UPDATE" (target_of client.id) (concat "Updated client " client.name))
    pure client

  pub delete_client : Caller → ℕ → Action W SalesError Done
  unfolding publish_audit
  delete_client caller id = do
    ensure (not (id == 0)) (validation "client id is required")
    client ← get_client_row id
    remove_client id
    forget client_cache client.id client.name
    on_publisher publisher (λ p. pure tt)
        (publish_audit caller "DELETE" (target_of client.id) (concat "Deleted client " client.name))

  pub verify_client_api_key : String → String → Action W SalesError Client
  verify_client_api_key prefix raw_key = do
    client ← get_client_by_api_key_prefix prefix
    same_password client.api_key_hash raw_key
    pure client
