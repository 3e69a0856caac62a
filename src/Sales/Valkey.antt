-- ===== src/Sales/Valkey.antt =====
-- sales/internal/repository/valkey: what is available to promise, the reservations of orders and
-- the allocation queue, over the commands of a Redis client.
pub mod Store
pub mod Totals
pub mod Reservations
mod Tests
use zeus_be.Prelude.{
  ℕ, ℤ, pos, ltb_ℤ, Char, String, str_eq, concat, decimal, atoi, trim_space, to_upper, Bool, true,
  false, not, Option, none, some, List, [], ◌∷◌, if◌then◌else◌, Action, Done, pure, raise, discard,
  attempt, ensure, ◌>>=◌, ◌>>◌,
}
use zeus_be.Sales.Errors.{SalesError, message}
use zeus_be.Sales.Fulfillment.{AllocationQueueEntry, ReservationItem}

-- A command of a transaction. The text of a number is its decimal numeral.
pub data Command : Type 0 where
  decr_by incr_by : String → ℤ → Command
  hset : String → String → String → Command
  zadd : String → ℤ → String → Command
  del : String → Command

-- The client and the connection: `disabled` and `disable` are the flag of the repository, `probe`
-- is `probeTCP`. A missing key or field, `redis.Nil`, is none. `exec` runs a transaction,
-- `hget_all` gives the fields in the order in which the loop over the map meets them. Then
-- `encoding/json` on an entry of the queue, and the texts of a uuid; `bad_numeral` and `bad_json` are
-- the errors of `strconv.Atoi` and of `json.Unmarshal`, `upper_rune` is `unicode.ToUpper` on
-- characters that are not ASCII.
pub record Redis (W : Type 0) : Type 0 where
  pub addr : String
  pub disabled : Action W SalesError Bool
  pub disable : Action W SalesError Done
  pub probe : Action W SalesError Done
  pub get : String → Action W SalesError (Option String)
  pub set : String → String → Action W SalesError Done
  pub hget : String → String → Action W SalesError (Option String)
  pub hdel : String → String → Action W SalesError Done
  pub hget_all : String → Action W SalesError (List (String × String))
  pub zpop_min : String → Action W SalesError (Option String)
  pub zrange : String → Action W SalesError (List String)
  pub del_keys : List String → Action W SalesError Done
  pub exec : List Command → Action W SalesError Done
  pub marshal : AllocationQueueEntry → String
  pub unmarshal : String → Option AllocationQueueEntry
  pub uuid_string : ℕ → String
  pub bad_numeral : SalesError
  pub bad_json : SalesError
  pub upper_rune : Char → Char

abbrev pub queue_key : String
queue_key = "sales:allocation_queue"

abbrev pub payload_key : String
payload_key = "sales:allocation_queue:payload"

abbrev pub some_or_raise : {W A : Type 0} → Option A → SalesError → Action W SalesError A
some_or_raise none e = raise e
some_or_raise (some a) e = pure a

module _ {W : Type 0} (D : Redis W) where
  open D use {
    addr, disabled, disable, probe, get, set, hget, hdel, hget_all, zpop_min, zrange, del_keys,
    exec, marshal, unmarshal, uuid_string, bad_numeral, bad_json, upper_rune,
  }

  abbrev if_dialled : {A : Type 0} → A → Action W SalesError A → Option Done → Action W SalesError A
  if_dialled nothing call none = disable >> pure nothing
  if_dialled nothing call (some done) = call

  -- `withClient`. Without a connection it succeeds, and the caller returns what its result was
  -- declared as.
  unfoldable pub with_client : {A : Type 0} → A → Action W SalesError A → Action W SalesError A
  with_client nothing call = if str_eq addr "" then pure nothing else do
    off ← disabled
    if off then pure nothing else (attempt probe >>= λ dialled. if_dialled nothing call dialled)

  -- `strings.ToUpper(strings.TrimSpace(sku))`
  unfoldable pub field_of : String → String
  field_of sku = to_upper upper_rune (trim_space sku)

  abbrev pub atp_key : String → String
  atp_key field = concat "sales:atp:" field

  abbrev pub reservation_key : ℕ → String
  reservation_key order_id = concat "sales:reservation:" (uuid_string order_id)

  abbrev parsed : Option String → Action W SalesError ℤ
  parsed none = pure (pos 0)
  parsed (some text) = some_or_raise (atoi text) bad_numeral

  unfoldable pub get_atp : String → Action W SalesError ℤ
  unfolding with_client field_of
  get_atp sku = with_client (pos 0) (get (atp_key (field_of sku)) >>= λ text. parsed text)

  pub set_atp : String → ℤ → Action W SalesError Done
  unfolding with_client field_of
  set_atp sku quantity = with_client tt (set (atp_key (field_of sku)) (decimal quantity))

  -- The loop that checks the items and fills the transaction.
  unfoldable pub reserve_commands : ℕ → List ReservationItem → Action W SalesError (List Command)
  unfolding get_atp
  reserve_commands order_id [] = pure []
  reserve_commands order_id (item ∷ items) = do
    current ← get_atp item.sku
    ensure (not (ltb_ℤ current item.quantity))
        (message (concat "insufficient inventory for " item.sku))
    rest ← reserve_commands order_id items
    pure (
        decr_by (atp_key (field_of item.sku)) item.quantity
        ∷ hset (reservation_key order_id) (field_of item.sku) (decimal item.quantity)
        ∷ rest)

  unfoldable pub reserve_inventory : ℕ → List ReservationItem → Action W SalesError Done
  unfolding reserve_commands
  reserve_inventory order_id items =
      with_client tt (do commands ← reserve_commands order_id items; exec commands)

  unfoldable pub release_commands : List (String × String) → Action W SalesError (List Command)
  release_commands [] = pure []
  release_commands ((sku, text) ∷ entries) = do
    quantity ← some_or_raise (atoi text) bad_numeral
    rest ← release_commands entries
    pure (incr_by (atp_key sku) quantity ∷ rest)

  abbrev pub then_delete : String → List Command → List Command
  then_delete key [] = del key ∷ []
  then_delete key (command ∷ commands) = command ∷ then_delete key commands

  unfoldable pub release_inventory : ℕ → Action W SalesError Done
  unfolding release_commands
  release_inventory order_id = with_client tt (do
    entries ← hget_all (reservation_key order_id)
    commands ← release_commands entries
    exec (then_delete (reservation_key order_id) commands))

  -- The score is `UnixMicro` of the time, which is kept in nanoseconds.
  pub enqueue_order : (ℤ → ℤ) → AllocationQueueEntry → Action W SalesError Done
  unfolding with_client
  enqueue_order unix_micro entry = with_client tt (
      exec (
        hset payload_key (uuid_string entry.order_id) (marshal entry)
        ∷ zadd queue_key (unix_micro entry.ingested_at) (uuid_string entry.order_id)
        ∷ []))

  abbrev decoded : String → Option String → Action W SalesError (Option AllocationQueueEntry)
  decoded member none = pure none
  decoded member (some payload) = do
    hdel payload_key member
    entry ← some_or_raise (unmarshal payload) bad_json
    pure (some entry)

  abbrev popped : Option String → Action W SalesError (Option AllocationQueueEntry)
  popped none = pure none
  popped (some member) = do payload ← hget payload_key member; decoded member payload

  pub dequeue_order : Action W SalesError (Option AllocationQueueEntry)
  unfolding with_client
  dequeue_order = with_client none (zpop_min queue_key >>= λ member. popped member)

  abbrev entry_of : Option String → Action W SalesError (Option AllocationQueueEntry)
  entry_of none = pure none
  entry_of (some payload) = do entry ← some_or_raise (unmarshal payload) bad_json; pure (some entry)

  abbrev consed :
      Option AllocationQueueEntry → List AllocationQueueEntry → List AllocationQueueEntry
  consed none rest = rest
  consed (some entry) rest = entry ∷ rest

  pub list_members : List String → Action W SalesError (List AllocationQueueEntry)
  list_members [] = pure []
  list_members (member ∷ members) = do
    payload ← hget payload_key member
    decoded_entry ← entry_of payload
    rest ← list_members members
    pure (consed decoded_entry rest)

  pub list_queue : Action W SalesError (List AllocationQueueEntry)
  unfolding with_client list_members
  list_queue = with_client [] (zrange queue_key >>= λ members. list_members members)

  pub clear_queue : Action W SalesError Done
  unfolding with_client
  clear_queue = with_client tt (del_keys (queue_key ∷ payload_key ∷ []))
