-- ===== src/Sales/Valkey/Store.antt =====
-- sales/internal/repository/valkey: what Redis keeps of the stock and of the reservations, and what
-- a transaction does to both.
use mathlib.Core.List.{Permᴰ}
use Prim.Native.String as Text
use text.Mathlib.TextLemmas.{cons-append, nil-append}
use zeus_be.Prelude.{
  ℕ, ℤ, pos, ◌+ℤ◌, ◌-ℤ◌, String, str_eq, concat, atoi, Bool, true, false, Option, none, some, List,
  [], ◌∷◌, if◌then◌else◌, Action, ok, attempt, ◌>>=◌, ◌≡◌, ap, sym, ◌∙◌, eq_iff, Bool-cases, inl,
  inr, zero, suc, Char, code, ◌==◌,
}
use zeus_be.Sales.Errors.{SalesError}
use zeus_be.Sales.Valkey.{Command, decr_by, incr_by, hset, zadd, del, Redis, with_client}

-- A number after a command, at the key `key`.
abbrev pub number_after : String → Command → ℤ → ℤ
number_after key (decr_by k n) v = if str_eq k key then v -ℤ n else v
number_after key (incr_by k n) v = if str_eq k key then v +ℤ n else v
number_after key (hset k f text) v = v
number_after key (zadd k score member) v = v
number_after key (del k) v = if str_eq k key then pos 0 else v

abbrev pub put : String → String → List (String × String) → List (String × String)
put f text [] = (f, text) ∷ []
put f text ((g, t) ∷ es) = if str_eq g f then (f, text) ∷ es else (g, t) ∷ put f text es

-- The fields of a hash after a command, at the key `key`.
abbrev pub fields_after : String → Command → List (String × String) → List (String × String)
fields_after key (decr_by k n) es = es
fields_after key (incr_by k n) es = es
fields_after key (hset k f text) es = if str_eq k key then put f text es else es
fields_after key (zadd k score member) es = es
fields_after key (del k) es = if str_eq k key then [] else es

abbrev pub after_all : {A : Type 0} → (Command → A → A) → List Command → A → A
after_all step [] a = a
after_all step (c ∷ cs) a = after_all step cs (step c a)

-- A missing key is read as none and counts as 0; another holds the numeral of its number.
abbrev pub Reads : Option String → ℤ → Type 0
Reads none n = n ≡ pos 0
Reads (some text) n = atoi text ≡ some n

-- A connection that is up, to a Redis that does what its documentation says of the commands.
pub record AtpStore {W : Type 0} (D : Redis W) : Type 0 where
  pub number : String → W → ℤ
  pub fields : String → W → List (String × String)
  pub has_addr : str_eq D.addr "" ≡ false
  pub is_enabled : (w : W) → D.disabled w ≡ (ok false, w)
  pub is_up : (w : W) → D.probe w ≡ (ok tt, w)
  pub get_keeps : (key : String) (w : W) → (D.get key w).1 ≡ w
  pub get_reads :
      (key : String) (w : W) (text : Option String)
      → (D.get key w).0 ≡ ok text
      → Reads text (number key w)
  pub set_numbers :
      (key k text : String) (n : ℤ) (w : W)
      → (D.set key text w).0 ≡ ok tt
      → atoi text ≡ some n
      → number k (D.set key text w).1 ≡ (if str_eq key k then n else number k w)
  pub hget_all_keeps : (key : String) (w : W) → (D.hget_all key w).1 ≡ w
  -- the fields come in any order
  pub hget_all_reads :
      (key : String) (w : W) (es : List (String × String))
      → (D.hget_all key w).0 ≡ ok es
      → Permᴰ es (fields key w)
  pub exec_numbers :
      (cs : List Command) (key : String) (w : W)
      → (D.exec cs w).0 ≡ ok tt
      → number key (D.exec cs w).1 ≡ after_all (number_after key) cs (number key w)
  pub exec_fields :
      (cs : List Command) (key : String) (w : W)
      → (D.exec cs w).0 ≡ ok tt
      → fields key (D.exec cs w).1 ≡ after_all (fields_after key) cs (fields key w)

module _ {W : Type 0} (D : Redis W) (S : AtpStore D) where
  pub with_client_lem :
      {A : Type 0} (nothing : A) (call : Action W SalesError A) (w : W)
      → with_client D nothing call w ≡ call w
  unfolding with_client attempt ◌>>=◌
  with_client_lem nothing call w = rw (S.has_addr, S.is_enabled w, S.is_up w)

-- `◌++◌` by its clauses, which compute at a literal in front.
abbrev joined : String → String → String
joined Text.[] t = t
joined (Text.◌∷◌ c s) t = Text.◌∷◌ c (joined s t)

append-joined : (s t : String) → concat s t ≡ joined s t
append-joined Text.[] t = nil-append t
append-joined (Text.◌∷◌ c s) t = cons-append c s t ∙ ap (Text.◌∷◌ c) (append-joined s t)

abbrev char_at? : ℕ → String → Option Char
char_at? n Text.[] = none
char_at? zero (Text.◌∷◌ c s) = some c
char_at? (suc n) (Text.◌∷◌ c s) = char_at? n s

abbrev is_r : Option Char → Bool
is_r none = false
is_r (some c) = code c == 114

-- Keys with the two prefixes are different.
pub reservation-ne-atp :
    (s t : String) → str_eq (concat "sales:reservation:" s) (concat "sales:atp:" t) ≡ false
reservation-ne-atp s t =
    elim (Bool-cases (str_eq (concat "sales:reservation:" s) (concat "sales:atp:" t))) [
      | inl same ↦
          let seventh : true ≡ false =
            ap (λ x. is_r (char_at? 6 x))
              (sym (append-joined "sales:reservation:" s)
                ∙ (eq_iff _ _).0 same
                ∙ append-joined "sales:atp:" t) in
          cc
      | inr apart ↦ apart
    ]
