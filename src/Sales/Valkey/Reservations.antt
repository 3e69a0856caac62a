-- ===== src/Sales/Valkey/Reservations.antt =====
-- sales/internal/repository/valkey/reservations.go: what a reservation takes, and that its release
-- gives it back.
use mathlib.Core.List.{Permᴰ}
use text.Mathlib.TextLemmas.{append_cancel_left}
use zeus_be.Prelude.{
  ℕ, ℤ, pos, ◌+ℤ◌, ◌-ℤ◌, ◌≤ℤ◌, ltb_ℤ, int_laws, +ℤ-zero, arith, IsInt64, String, str_eq, eq_iff,
  to_upper, trim_space, decimal, atoi, atoi-decimal, Bool, true, false, not, Bool-cases, inl, inr,
  Option, none, some, List, [], ◌∷◌, All, if◌then◌else◌, ok, ◌>>=◌, >>=-ok, >>=-run, >>=-state,
  ensure-ok, ok-injective, Keeps, Keeps-then, Keeps-ensure, ◌≡◌, refl, sym, ap, ◌∙◌, subst,
}
use zeus_be.Sales.Errors.{SalesError}
use zeus_be.Sales.Fulfillment.{ReservationItem}
use zeus_be.Sales.Valkey.{
  Command, decr_by, incr_by, hset, Redis, some_or_raise, field_of, atp_key, reservation_key, parsed,
  get_atp, set_atp, reserve_commands, reserve_inventory, release_commands, then_delete,
  release_inventory,
}
use zeus_be.Sales.Valkey.Store.{AtpStore, Reads, with_client_lem}
use zeus_be.Sales.Valkey.Totals.{
  value, key_of, owed, AreDistinct, commands_of, puts, returns_of, total, Absent, numbers-commands,
  fields-commands, total-puts, total-perm, numbers-returns, fields-returns,
}

module _ {W : Type 0} (D : Redis W) (S : AtpStore D) where
  open S use {
    number, fields, get_keeps, get_reads, hget_all_keeps, hget_all_reads, exec_numbers, exec_fields,
  }

  some_or_raise-state :
      {A : Type 0} (o : Option A) (e : SalesError) (w : W) → (some_or_raise o e w).1 ≡ w
  some_or_raise-state none e w = refl
  some_or_raise-state (some a) e w = refl

  some_or_raise-ok :
      {A : Type 0} (o : Option A) (e : SalesError) (w : W) (a : A)
      → (some_or_raise o e w).0 ≡ ok a
      → o ≡ some a
  some_or_raise-ok none e w a h = cc
  some_or_raise-ok (some b) e w a h = ap some (ok-injective h)

  parsed-state : (text : Option String) (w : W) → (parsed D text w).1 ≡ w
  parsed-state none w = refl
  parsed-state (some text) w = some_or_raise-state (atoi text) D.bad_numeral w

  parsed-ok :
      (text : Option String) (w : W) (n m : ℤ) → Reads text n → (parsed D text w).0 ≡ ok m → m ≡ n
  parsed-ok none w n m r h = sym (ok-injective h) ∙ sym r
  parsed-ok (some text) w n m r h =
      let same = sym (some_or_raise-ok (atoi text) D.bad_numeral w m h) ∙ r in cc

  get_atp-run :
      (sku : String) (w : W) → get_atp D sku w ≡ (D.get (key_of D sku) >>= λ text. parsed D text) w
  unfolding get_atp
  get_atp-run sku w = with_client_lem D S (pos 0) _ w

  get_atp-state : (sku : String) (w : W) → (get_atp D sku w).1 ≡ w
  get_atp-state sku w =
      ap (λ p. p.1) (get_atp-run sku w)
      ∙ >>=-state (λ v. v ≡ w) (D.get (key_of D sku)) (λ text. parsed D text) w
          (λ e _. get_keeps _ w) (λ text _. parsed-state text _ ∙ get_keeps _ w)

  get_atp-ok :
      (sku : String) (w : W) (n : ℤ) → (get_atp D sku w).0 ≡ ok n → n ≡ number (key_of D sku) w
  get_atp-ok sku w n h =
      let (text, got, h₁) =
        >>=-ok (D.get (key_of D sku)) (λ text. parsed D text) w n
          (sym (ap (λ p. p.0) (get_atp-run sku w)) ∙ h) in
      parsed-ok text _ _ n (get_reads _ w text got) h₁

  -- Each item asks for no more than there is.
  abbrev Suffices : W → ReservationItem → Type 0
  Suffices w item = ltb_ℤ (number (key_of D item.sku) w) item.quantity ≡ false

  reserve_commands-Keeps :
      (w : W) (i : ℕ) (items : List ReservationItem)
      → Keeps (λ v. v ≡ w) (reserve_commands D i items)
  unfolding reserve_commands
  reserve_commands-Keeps w i [] = λ v e. e
  reserve_commands-Keeps w i (item ∷ items) =
      Keeps-then (λ v. v ≡ w) _ _ (λ v e. get_atp-state item.sku v ∙ e)
        (λ current.
          Keeps-then (λ v. v ≡ w) _ _ (Keeps-ensure (λ v. v ≡ w) _ _)
            (λ _. Keeps-then (λ v. v ≡ w) _ _ (reserve_commands-Keeps w i items) (λ _ v e. e)))

  not-true : (b : Bool) → not b ≡ true → b ≡ false
  not-true true h = cc
  not-true false h = refl

  reserve_commands-ok :
      (w : W) (i : ℕ) (items : List ReservationItem) (v : W) (cs : List Command)
      → v ≡ w
      → (reserve_commands D i items v).0 ≡ ok cs
      → (cs ≡ commands_of D i items) × All (Suffices w) items
  unfolding reserve_commands
  reserve_commands-ok w i [] v cs e h = (sym (ok-injective h), tt)
  reserve_commands-ok w i (item ∷ items) v cs e h =
      let q = item.quantity in
      let (n, got, h₁) = >>=-ok (get_atp D item.sku) _ v cs h in
      let (guard, h₂) = ensure-ok (not (ltb_ℤ n q)) _ _ _ cs h₁ in
      let (rest, tail, h₃) = >>=-ok (reserve_commands D i items) _ _ cs h₂ in
      let (others, suffice) =
        reserve_commands-ok w i items _ rest (get_atp-state item.sku v ∙ e) tail in
      let read = get_atp-ok item.sku v n got ∙ ap (number (key_of D item.sku)) e in
      (
        sym (ok-injective h₃)
            ∙ ap
                (λ r.
                  decr_by (key_of D item.sku) q
                  ∷ hset (reservation_key D i) (field_of D item.sku) (decimal q)
                  ∷ r)
                others,
        (ap (λ m. ltb_ℤ m q) (sym read) ∙ not-true (ltb_ℤ n q) guard, suffice),
      )

  release_commands-Keeps :
      (w : W) (es : List (String × String)) → Keeps (λ v. v ≡ w) (release_commands D es)
  unfolding release_commands
  release_commands-Keeps w [] = λ v e. e
  release_commands-Keeps w ((f, text) ∷ es) =
      Keeps-then (λ v. v ≡ w) _ _ (λ v e. some_or_raise-state (atoi text) D.bad_numeral v ∙ e)
        (λ quantity. Keeps-then (λ v. v ≡ w) _ _ (release_commands-Keeps w es) (λ _ v e. e))

  release_commands-ok :
      (es : List (String × String)) (w : W) (cs : List Command)
      → (release_commands D es w).0 ≡ ok cs
      → cs ≡ returns_of D es
  unfolding release_commands
  release_commands-ok [] w cs h = sym (ok-injective h)
  release_commands-ok ((f, text) ∷ es) w cs h =
      let (q, read, h₁) = >>=-ok (some_or_raise (atoi text) D.bad_numeral) _ w cs h in
      let (rest, released, h₂) = >>=-ok (release_commands D es) _ _ cs h₁ in
      let quantity = some_or_raise-ok (atoi text) D.bad_numeral w q read in
      let others = release_commands-ok es _ rest released in
      sym (ok-injective h₂)
      ∙ ap (λ o. incr_by (atp_key D f) (elim o [ none ↦ pos 0 | some n ↦ n ]) ∷ rest) (sym quantity)
      ∙ ap (λ r. incr_by (atp_key D f) (value text) ∷ r) others

  reserve_inventory-run :
      (i : ℕ) (items : List ReservationItem) (w : W)
      → (reserve_inventory D i items w).0 ≡ ok tt
      → (reserve_inventory D i items w ≡ D.exec (commands_of D i items) w) × All (Suffices w) items
  unfolding reserve_inventory
  reserve_inventory-run i items w h =
      let body = reserve_commands D i items >>= λ commands. D.exec commands in
      let up = with_client_lem D S tt body w in
      let (cs, made, _) =
        >>=-ok (reserve_commands D i items) (λ commands. D.exec commands) w tt
          (sym (ap (λ p. p.0) up) ∙ h) in
      let (same, suffice) = reserve_commands-ok w i items w cs refl made in
      (
        up
            ∙ >>=-run (reserve_commands D i items) (λ commands. D.exec commands) w cs made
            ∙ ap (D.exec cs) (reserve_commands-Keeps w i items w refl)
            ∙ ap (λ c. D.exec c w) same,
        suffice,
      )

  release_inventory-run :
      (i : ℕ) (w : W)
      → (release_inventory D i w).0 ≡ ok tt
      → (es : List (String × String)) × Permᴰ es (fields (reservation_key D i) w)
        × (release_inventory D i w
            ≡ D.exec (then_delete D (reservation_key D i) (returns_of D es)) w)
  unfolding release_inventory
  release_inventory-run i w h =
      let key = reservation_key D i in
      let finish = λ (commands : List Command). D.exec (then_delete D key commands) in
      let body = λ (entries : List (String × String)). release_commands D entries >>= finish in
      let up = with_client_lem D S tt (D.hget_all key >>= body) w in
      let (es, got, h₁) = >>=-ok (D.hget_all key) body w tt (sym (ap (λ p. p.0) up) ∙ h) in
      let (cs, made, _) = >>=-ok (release_commands D es) finish _ tt h₁ in
      (
        es,
        hget_all_reads key w es got,
        up
            ∙ >>=-run (D.hget_all key) body w es got
            ∙ >>=-run (release_commands D es) finish _ cs made
            ∙ ap (finish cs) (release_commands-Keeps w es _ (hget_all_keeps key w))
            ∙ ap (λ c. finish c w) (release_commands-ok es _ cs made),
      )

  key-apart : (f g : String) → str_eq f g ≡ false → str_eq (atp_key D g) (atp_key D f) ≡ false
  key-apart f g h = elim (Bool-cases (str_eq (atp_key D g) (atp_key D f))) [
    | inl same ↦
        let equal = append_cancel_left "sales:atp:" g f ((eq_iff _ _).0 same) in
        let both = (eq_iff f g).1 (sym equal) in cc
    | inr apart ↦ apart
  ]

  owed-apart :
      (f : String) (items : List ReservationItem)
      → All (λ other. str_eq f (field_of D other.sku) ≡ false) items
      → owed D (atp_key D f) items ≡ pos 0
  owed-apart f [] h = refl
  owed-apart f (item ∷ items) (h, hs) =
      let apart = key-apart f (field_of D item.sku) h in
      ap
        (λ b. if b then item.quantity +ℤ owed D (atp_key D f) items else owed D (atp_key D f) items)
        apart
      ∙ owed-apart f items hs

  le_of_rest : (q o n : ℤ) → o ≡ pos 0 → ltb_ℤ n q ≡ false → q +ℤ o ≤ℤ n
  le_of_rest q o n e h = rw (e, +ℤ-zero) (ground arith)

  owed-le :
      (f : String) (items : List ReservationItem) (w : W)
      → AreDistinct D items
      → All (Suffices w) items
      → pos 0 ≤ℤ number (atp_key D f) w
      → owed D (atp_key D f) items ≤ℤ number (atp_key D f) w
  owed-le f [] w d s h = h
  owed-le f (item ∷ items) w (d, ds) (s, ss) h =
      elim (Bool-cases (str_eq (key_of D item.sku) (atp_key D f))) [
        | inl same ↦
            let equal = (eq_iff (key_of D item.sku) (atp_key D f)).0 same in
            let others =
              subst (λ key. owed D key items ≡ pos 0) equal
                (owed-apart (field_of D item.sku) items d) in
            let enough = subst (λ key. ltb_ℤ (number key w) item.quantity ≡ false) equal s in
            rw same (le_of_rest item.quantity _ _ others enough)
        | inr apart ↦ rw apart (owed-le f items w ds ss h)
      ]

  -- Where the connection is up and Redis works as documented: a reservation of items of different
  -- SKUs that succeeds takes from every SKU what the items ask of it, and leaves none below zero
  -- that was not.
  pub reserve_inventory-takes :
      (i : ℕ) (items : List ReservationItem) (w : W) (f : String)
      → AreDistinct D items
      → (reserve_inventory D i items w).0 ≡ ok tt
      → pos 0 ≤ℤ number (atp_key D f) w
      → (number (atp_key D f) (reserve_inventory D i items w).1
          ≡ number (atp_key D f) w -ℤ owed D (atp_key D f) items)
        × (pos 0 ≤ℤ number (atp_key D f) (reserve_inventory D i items w).1)
  reserve_inventory-takes i items w f d h nonneg =
      let key = atp_key D f in
      let (run, suffice) = reserve_inventory-run i items w h in
      let executed = sym (ap (λ p. p.0) run) ∙ h in
      let taken =
        ap (λ p. number key p.1) run
        ∙ exec_numbers (commands_of D i items) key w executed
        ∙ numbers-commands D i key items (number key w) in
      let bound = owed-le f items w d suffice nonneg in
      (taken, subst (λ n. pos 0 ≤ℤ n) (sym taken) (omega int_laws))

  Absent-nil :
      (items : List ReservationItem) → All (λ item. Absent D (field_of D item.sku) []) items
  Absent-nil [] = tt
  Absent-nil (item ∷ items) = (tt, Absent-nil items)

  given_back : (n m o t : ℤ) → m ≡ n -ℤ o → t ≡ pos 0 +ℤ o → m +ℤ t ≡ n
  given_back n m o t h k = rw (h, k) (omega int_laws)

  -- Where the connection is up and Redis works as documented: once an order that holds nothing has
  -- reserved items of different SKUs, with quantities that fit an `int`, and has released them again,
  -- both with success, there is as much of every SKU as before, and the order holds nothing.
  pub release-reserve :
      (i : ℕ) (items : List ReservationItem) (w : W) (f : String)
      → fields (reservation_key D i) w ≡ []
      → AreDistinct D items
      → All (λ item. IsInt64 item.quantity) items
      → (reserve_inventory D i items w).0 ≡ ok tt
      → (release_inventory D i (reserve_inventory D i items w).1).0 ≡ ok tt
      → (number (atp_key D f) (release_inventory D i (reserve_inventory D i items w).1).1
          ≡ number (atp_key D f) w)
        × (fields (reservation_key D i) (release_inventory D i (reserve_inventory D i items w).1).1
            ≡ [])
  release-reserve i items w f empty d h reserved released =
      let key = atp_key D f in
      let held = reservation_key D i in
      let u = (reserve_inventory D i items w).1 in
      let (reserve, _) = reserve_inventory-run i items w reserved in
      let executed = sym (ap (λ p. p.0) reserve) ∙ reserved in
      let taken =
        ap (λ p. number key p.1) reserve
        ∙ exec_numbers (commands_of D i items) key w executed
        ∙ numbers-commands D i key items (number key w) in
      let kept =
        ap (λ p. fields held p.1) reserve
        ∙ exec_fields (commands_of D i items) held w executed
        ∙ fields-commands D i items (fields held w)
        ∙ ap (puts D items) empty in
      let (es, perm, release) = release_inventory-run i u released in
      let executed' = sym (ap (λ p. p.0) release) ∙ released in
      let commands = then_delete D held (returns_of D es) in
      let given =
        total-perm D key es (fields held u) perm
        ∙ ap (total D key) kept
        ∙ total-puts D key items [] d h (Absent-nil items) in
      let back =
        ap (λ p. number key p.1) release
        ∙ exec_numbers commands key u executed'
        ∙ numbers-returns D i f es (number key u) in
      (
        back ∙ given_back _ _ _ _ taken given,
        ap (λ p. fields held p.1) release
            ∙ exec_fields commands held u executed'
            ∙ fields-returns D i es (fields held u),
      )

  -- Where the connection is up and Redis works as documented: a quantity that fits an `int` and is
  -- set for a SKU with success is what is read for it afterwards, under any spelling that differs in
  -- case or in the spaces around it only, if the read succeeds.
  pub get_atp-set_atp :
      (sku other : String) (q n : ℤ) (w : W)
      → IsInt64 q
      → to_upper D.upper_rune (trim_space other) ≡ to_upper D.upper_rune (trim_space sku)
      → (set_atp D sku q w).0 ≡ ok tt
      → (get_atp D other (set_atp D sku q w).1).0 ≡ ok n
      → (get_atp D other (set_atp D sku q w).1).0 ≡ ok q
  unfolding set_atp field_of
  get_atp-set_atp sku other q n w bound same wrote read =
      let key = key_of D sku in
      let up = with_client_lem D S tt (D.set key (decimal q)) w in
      read
      ∙ ap ok (
          get_atp-ok other _ n read
          ∙ ap (λ f. number (atp_key D f) (set_atp D sku q w).1) same
          ∙ ap (λ p. number key p.1) up
          ∙ S.set_numbers key key (decimal q) q w (sym (ap (λ p. p.0) up) ∙ wrote)
              (atoi-decimal q bound)
          ∙ ap (λ b. if b then q else number key w) ((eq_iff key key).1 refl))
