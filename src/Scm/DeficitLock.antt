-- ===== src/Scm/DeficitLock.antt =====
-- scm/internal/consumer/deficit_lock.go: reserving a quantity from the pool of deficit messages.
-- The broker's answers are arguments (what each fetch returned, whether the connection could be
-- made, whether the reservation could be published), and what the code asks of the broker is a
-- list of effects, in order. Trace headers and log lines are left out.
pub mod Balance
pub mod Collect
pub mod Conservation
pub mod Outcome
pub mod Backoff
mod Tests
use zeus_be.Prelude.{
  ℕ, zero, suc, ◌*◌, ◌^◌, ℤ, pos, negsuc, add64, sub64, wrap32, String, str_eq, Bool, true, false,
  Option, none, some, List, [], ◌∷◌, ◌++◌, ltb, ltb_ℤ, leb_ℤ, if◌then◌else◌, Result, ok, err, Done,
}
use zeus_be.Scm.Errors.{ScmError, insufficient_deficit, failed}

-- The header `x-retry-count`, by its dynamic type; `unread` is a header that is missing or of
-- another type. A float64 is given by its integral part.
pub data RetryHeader : Type 0 where
  of_int32 of_int64 of_float64 of_int : ℤ → RetryHeader
  unread : RetryHeader

-- `fetchedMessage`: the delivery, its decoded body and its retry header.
pub record FetchedMessage : Type 0 where
  pub delivery_tag : ℕ
  pub sku : String
  pub qty : ℤ
  pub retry : RetryHeader

-- What one `GetFromPool` returns; the list of them ends where the pool is empty.
pub data Fetch : Type 0 where
  message : FetchedMessage → Fetch
  -- a body that is no JSON of a deficit
  malformed : ℕ → Fetch
  unavailable : ℕ → Fetch

pub data Effect : Type 0 where
  acks : FetchedMessage → Effect
  discards : ℕ → Effect
  -- back to the pool, with this retry count, by a goroutine that first sleeps so many milliseconds
  republishes : FetchedMessage → ℤ → ℕ → Effect
  dead_letters : FetchedMessage → ℤ → Effect
  publishes_to_pool : String → ℤ → Effect
  publishes_to_reserved : String → ℤ → Effect
  -- a shift by a negative count
  panics : Effect
  -- the deferred `conn.Close()`: what comes after it, and a republication that still sleeps, finds
  -- the connection closed
  closes : Effect

pub retry_count : RetryHeader → ℤ
retry_count (of_int32 n) = n
retry_count (of_int64 n) = wrap32 n
retry_count (of_float64 n) = wrap32 n
retry_count (of_int n) = wrap32 n
retry_count unread = pos 0

-- Milliseconds: `1<<retryCount` times 50, at most 2 seconds. (At a count of 5 at most.)
pub backoff : ℕ → ℕ
backoff n = if ltb 2000 (2 ^ n * 50) then 2000 else 2 ^ n * 50

requeue_at : Bool → FetchedMessage → ℤ → List Effect
unfolding backoff
requeue_at channel fm (negsuc n) = panics ∷ []
requeue_at channel fm (pos n) =
    if ltb 5 n
    then acks fm ∷ (if channel then dead_letters fm (pos n) ∷ [] else [])
    else acks fm ∷ (if channel then republishes fm (pos n) (backoff n) ∷ [] else [])

-- `requeueWithBackoff`; `channel` says whether the connection has a channel.
pub requeue_with_backoff : Bool → FetchedMessage → List Effect
unfolding requeue_at retry_count
requeue_with_backoff channel fm =
    requeue_at channel fm (wrap32 (add64 (retry_count fm.retry) (pos 1)))

pub record Collected : Type 0 where
  pub matched : List FetchedMessage
  pub unmatched : List FetchedMessage
  pub accumulated_qty : ℤ
  pub discarded : List Effect
  pub fetch_error : Option ℕ

abbrev pub nothing_collected : Collected
nothing_collected = record {
  matched = [];
  unmatched = [];
  accumulated_qty = pos 0;
  discarded = [];
  fetch_error = none;
}

-- The fetch loop: it ends where a fetch fails, the pool is empty or the quantity is reached.
pub collect : String → ℤ → Collected → List Fetch → Collected
collect sku qty c [] = c
collect sku qty c (unavailable e ∷ rest) = record c { fetch_error = some e }
collect sku qty c (malformed tag ∷ rest) =
    collect sku qty (record c { discarded = c.discarded ++ discards tag ∷ [] }) rest
collect sku qty c (message fm ∷ rest) =
    let with_match : Collected = record c {
      matched = c.matched ++ fm ∷ [];
      accumulated_qty = add64 c.accumulated_qty fm.qty;
    } in
    let more = collect sku qty with_match rest in
    let past = collect sku qty (record c { unmatched = c.unmatched ++ fm ∷ [] }) rest in
    if str_eq fm.sku sku
    then (if leb_ℤ qty with_match.accumulated_qty then with_match else more)
    else past

pub ack_all : List FetchedMessage → List Effect
ack_all [] = []
ack_all (fm ∷ fms) = acks fm ∷ ack_all fms

pub requeue_all : Bool → List FetchedMessage → List Effect
unfolding requeue_with_backoff
requeue_all channel [] = []
requeue_all channel (fm ∷ fms) = requeue_with_backoff channel fm ++ requeue_all channel fms

abbrev worker_end : Option ℕ → Result ScmError Done
worker_end none = ok tt
worker_end (some e) = err (failed e)

remainder : String → ℤ → ℤ → List Effect
remainder sku qty accumulated =
    if ltb_ℤ qty accumulated then publishes_to_pool sku (sub64 accumulated qty) ∷ [] else []

-- The worker after its loop; `reserve_error` is the error of `PublishToReserved`, if any.
pub settle :
    Bool → Option ℕ → String → ℤ → Collected → Option ℕ → Result ScmError Done × List Effect
unfolding ack_all requeue_all remainder
settle channel reserve_error sku qty c (some e) = (
  err (failed e),
  c.discarded ++ (requeue_all channel c.matched ++ requeue_all channel c.unmatched),
)
settle channel reserve_error sku qty c none =
    if leb_ℤ qty c.accumulated_qty
    then (
      worker_end reserve_error,
      c.discarded
          ++ (ack_all c.matched
              ++ (requeue_all channel c.unmatched
                  ++ (remainder sku qty c.accumulated_qty ++ publishes_to_reserved sku qty ∷ []))),
    )
    else (
      err insufficient_deficit,
      c.discarded ++ (requeue_all channel c.matched ++ requeue_all channel c.unmatched),
    )

-- A panic of the worker ends the process: nothing after it happens.
pub until_panic : List Effect → List Effect
until_panic [] = []
until_panic (panics ∷ es) = panics ∷ []
until_panic (e ∷ es) = e ∷ until_panic es

pub worker : Bool → Option ℕ → String → ℤ → List Fetch → Result ScmError Done × List Effect
unfolding collect settle
worker channel reserve_error sku qty fetches =
    let c = collect sku qty nothing_collected fetches in
    settle channel reserve_error sku qty c c.fetch_error

-- What the caller's `select` sees first. The worker goes on in the other two cases, in which it has
-- asked for so many effects when the caller returns.
pub data Wait : Type 0 where
  done : Wait
  cancelled : ℕ → ℕ → Wait
  timed_out : ℕ → Wait

-- The connection is closed when the caller returns, unless the process has ended.
pub close_last : List Effect → List Effect
close_last [] = closes ∷ []
close_last (panics ∷ es) = panics ∷ []
close_last (e ∷ es) = e ∷ close_last es

close_at : ℕ → List Effect → List Effect
close_at zero es = closes ∷ es
close_at (suc n) [] = closes ∷ []
close_at (suc n) (panics ∷ es) = panics ∷ []
close_at (suc n) (e ∷ es) = e ∷ close_at n es

closing : Wait → List Effect → List Effect
unfolding close_last close_at
closing done es = close_last es
closing (cancelled n e) es = close_at n es
closing (timed_out n) es = close_at n es

abbrev waited : Wait → Result ScmError Done → Result ScmError Done
waited done r = r
waited (cancelled n e) r = err (failed e)
waited (timed_out n) r = err insufficient_deficit

-- `dial_error` is the error of `messaging.Dial`, if any.
pub lock_deficit :
    Option ℕ → Bool → Option ℕ → Wait → String → ℤ → List Fetch → Result ScmError Done × List Effect
unfolding worker until_panic closing
lock_deficit (some e) channel reserve_error wait sku qty fetches = (err (failed e), [])
lock_deficit none channel reserve_error wait sku qty fetches =
    let (r, es) = worker channel reserve_error sku qty fetches in
    (waited wait r, closing wait (until_panic es))
