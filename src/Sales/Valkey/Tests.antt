-- ===== src/Sales/Valkey/Tests.antt =====
-- A Redis in memory, with an order of two parts, and the theorems at it.
use mathlib.Core.List.{Permᴰ}
use zeus_be.Prelude.{
  ℤ, pos, eqb_ℤ, eq_of_parts, ◌-ℤ◌, ◌≤ℤ◌, arith, String, str_eq, decimal, atoi, trim_space,
  to_upper, Bool, true, false, subst, Option, none, some, List, [], ◌∷◌, if◌then◌else◌, Action,
  Done, Result, ok, err, ok-injective, attempt, ensure, ◌>>=◌, ◌≡◌, refl, ap, ◌∙◌,
}
use zeus_be.Sales.Errors.{SalesError, failed}
use zeus_be.Sales.Fulfillment.{ReservationItem}
use zeus_be.Sales.Valkey.{
  Redis, with_client, field_of, atp_key, reservation_key, get_atp, set_atp, reserve_commands,
  reserve_inventory, release_commands, release_inventory,
}
use zeus_be.Sales.Valkey.Store.{AtpStore, Reads, number_after, fields_after, after_all}
use zeus_be.Sales.Valkey.Totals.{owed}
use zeus_be.Sales.Valkey.Reservations.{reserve_inventory-takes, release-reserve, get_atp-set_atp}

abbrev Db : Type 0
Db = (String → ℤ) × (String → List (String × String))

-- A number that does not fit an `int` is not read.
abbrev checked : ℤ → Option ℤ → Result SalesError (Option String)
checked n none = err (failed 1)
checked n (some m) = if eqb_ℤ m n then ok (some (decimal n)) else err (failed 1)

abbrev write : String → Option ℤ → Action Db SalesError Done
write key none w = (err (failed 2), w)
write key (some n) w = (ok tt, (λ k. if str_eq key k then n else w.0 k, w.1))

abbrev memory : Redis Db
memory = record {
  addr = "redis:6379";
  disabled = λ w. (ok false, w);
  disable = λ w. (ok tt, w);
  probe = λ w. (ok tt, w);
  get = λ key w. (checked (w.0 key) (atoi (decimal (w.0 key))), w);
  set = λ key text w. write key (atoi text) w;
  hget = λ key f w. (ok none, w);
  hdel = λ key f w. (ok tt, w);
  hget_all = λ key w. (ok (w.1 key), w);
  zpop_min = λ key w. (ok none, w);
  zrange = λ key w. (ok [], w);
  del_keys = λ keys w. (ok tt, w);
  exec = λ cs w. (
    ok tt,
    (
      λ key. after_all (number_after key) cs (w.0 key),
      λ key. after_all (fields_after key) cs (w.1 key),
    ),
  );
  marshal = λ entry. "";
  unmarshal = λ text. none;
  uuid_string = λ i. decimal (pos i);
  bad_numeral = failed 1;
  bad_json = failed 3;
  upper_rune = λ c. c;
}

if-ok :
    {A : Type 0} (b : Bool) (a : A) (e : SalesError) (c : A)
    → (if b then ok a else err e) ≡ ok c
    → (b ≡ true) × (a ≡ c)
if-ok true a e c h = (refl, ok-injective h)
if-ok false a e c h = cc

checked-Reads :
    (n : ℤ) (o : Option ℤ) (text : Option String)
    → atoi (decimal n) ≡ o
    → checked n o ≡ ok text
    → Reads text n
checked-Reads n none text e h = cc
checked-Reads n (some m) text e h =
    let (same, is_text) = if-ok (eqb_ℤ m n) (some (decimal n)) (failed 1) text h in
    let equal : m ≡ n = ground (arith, eq_of_parts m n) in
    subst (λ t. Reads t n) is_text (e ∙ ap some equal)

write-sets :
    (key k : String) (o : Option ℤ) (n : ℤ) (w : Db)
    → (write key o w).0 ≡ ok tt
    → o ≡ some n
    → (write key o w).1.0 k ≡ (if str_eq key k then n else w.0 k)
write-sets key k none n w h e = cc
write-sets key k (some m) n w h e =
    let same : m ≡ n = cc in ap (λ x. if str_eq key k then x else w.0 k) same

-- `Permᴰ` is reflexive.
perm_same : (es : List (String × String)) → Permᴰ es es
perm_same [] = Permᴰ.nil
perm_same (e ∷ es) = Permᴰ.cons refl (perm_same es)

abbrev store : AtpStore memory
store = record {
  number = λ key w. w.0 key;
  fields = λ key w. w.1 key;
  has_addr = refl;
  is_enabled = λ w. refl;
  is_up = λ w. refl;
  get_keeps = λ key w. refl;
  get_reads = λ key w text h. checked-Reads (w.0 key) (atoi (decimal (w.0 key))) text refl h;
  set_numbers = λ key k text n w h e. write-sets key k (atoi text) n w h e;
  hget_all_keeps = λ key w. refl;
  hget_all_reads =
      λ key w es h. subst (λ x. Permᴰ x (w.1 key)) (ok-injective h) (perm_same (w.1 key));
  exec_numbers = λ cs key w h. refl;
  exec_fields = λ cs key w h. refl;
}

abbrev items : List ReservationItem
items = record { sku = " cpu"; quantity = pos 2 } ∷ record { sku = "GPU"; quantity = pos 3 } ∷ []

abbrev five : Db
five = (λ key. pos 5, λ key. [])

reserve_inventory-takes_example :
    ((reserve_inventory memory 7 items five).1.0 (atp_key memory "CPU")
      ≡ pos 5 -ℤ owed memory (atp_key memory "CPU") items)
    × (pos 0 ≤ℤ (reserve_inventory memory 7 items five).1.0 (atp_key memory "CPU"))
unfolding reserve_inventory reserve_commands get_atp with_client field_of trim_space to_upper atoi
    decimal ◌>>=◌ ensure attempt
reserve_inventory-takes_example =
    reserve_inventory-takes memory store 7 items five "CPU" ((refl, tt), (tt, tt)) refl
      (omega arith)

release-reserve_example :
    ((release_inventory memory 7 (reserve_inventory memory 7 items five).1).1.0
        (atp_key memory "CPU")
      ≡ pos 5)
    × ((release_inventory memory 7 (reserve_inventory memory 7 items five).1).1.1
          (reservation_key memory 7)
        ≡ [])
unfolding reserve_inventory reserve_commands release_inventory release_commands get_atp with_client
    field_of trim_space to_upper atoi decimal ◌>>=◌ ensure attempt ◌-ℤ◌
release-reserve_example =
    release-reserve memory store 7 items five "CPU" refl ((refl, tt), (tt, tt))
      (omega arith, (omega arith, tt)) refl refl

get_atp-set_atp_example :
    (get_atp memory " CPU" (set_atp memory "cpu" (pos 4) five).1).0 ≡ ok (pos 4)
unfolding set_atp get_atp with_client field_of trim_space to_upper atoi decimal ◌>>=◌ attempt
get_atp-set_atp_example =
    get_atp-set_atp memory store "cpu" " CPU" (pos 4) (pos 4) five (omega arith) refl refl refl
