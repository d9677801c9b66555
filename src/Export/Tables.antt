-- ===== src/Export/Tables.antt =====
-- Tables of the store, keyed by a text: reading a key, writing a value under its own key, and the
-- loops of app/export.go that rewrite every value of a table.
use echofi.Prelude.{
  ◌≡◌, ◌≢◌, refl, sym, ◌∙◌, ap, Bool, true, false, ◌||◌, List, [], ◌∷◌, ◌++◌, map, String, Option,
  none, some, if◌then◌else◌, str_eq, eq_iff, arith, Option-cases, inl, inr, ◌⊎◌,
}
use mathlib.Core.Option
use mathlib.Core.List.{reverse, reverse-cons, map-append}
use text.Mathlib.TextPositions.{eq_refl}

module _ {A : Type 0} (key : A → String) where
  unfoldable pub get : String → List A → Option A
  get k [] = none
  get k (x ∷ xs) = if str_eq (key x) k then some x else get k xs

  -- A store holds one value for a key: a write replaces it, or adds it.
  unfoldable pub put : A → List A → List A
  put v [] = v ∷ []
  put v (x ∷ xs) = if str_eq (key x) (key v) then v ∷ xs else x ∷ put v xs

  -- `for each x of the iterator { write f(x) }`. The iterator reads the table as it was.
  unfoldable pub put_each : (A → A) → List A → List A → List A
  put_each f [] table = table
  put_each f (x ∷ xs) table = put_each f xs (put (f x) table)

  -- `for each key of the iterator { read the value, panic if missing; write f(value) }`
  unfoldable pub update_each : (A → A) → List String → List A → Option (List A)
  update_each f [] table = some table
  update_each f (k ∷ ks) table = elim (get k table) [
    | none ↦ none
    | some v ↦ update_each f ks (put (f v) table)
  ]

  pub update_each-cons :
      (f : A → A) (k : String) (ks : List String) (v : A) (table : List A)
      → get k table ≡ some v
      → update_each f (k ∷ ks) table ≡ update_each f ks (put (f v) table)
  unfolding update_each
  update_each-cons f k ks v table found = rw (found, update_each)

  pub update_each-missing :
      (f : A → A) (k : String) (ks : List String) (table : List A)
      → get k table ≡ none
      → update_each f (k ∷ ks) table ≡ none
  unfolding update_each
  update_each-missing f k ks table missing = rw (missing, update_each)

  abbrev pub IsUnique : List A → Type 0
  IsUnique [] = Unit
  IsUnique (x ∷ xs) = (get (key x) xs ≡ none) × IsUnique xs

  abbrev pub KeepsKey : (A → A) → Type 0
  KeepsKey f = (x : A) → key (f x) ≡ key x

  pub get-put :
      (k : String) (v : A) (xs : List A)
      → get k (put v xs) ≡ (if str_eq (key v) k then some v else get k xs)
  unfolding get put
  get-put k v [] = refl
  get-put k v (x ∷ xs) =
      ground (arith, eq_iff (key x) (key v), eq_iff (key x) k, eq_iff (key v) k, get-put k v xs)

  pub get-key : (k : String) (v : A) (xs : List A) → get k xs ≡ some v → key v ≡ k
  unfolding get
  get-key k v [] h = absurd (cc)
  get-key k v (x ∷ xs) h = ground (arith, eq_iff (key x) k, get-key k v xs)

  -- The value that a loop leaves under a key, by what the iterator had for the key.
  abbrev pub written : (A → A) → Option A → Option A → Option A
  written f none old = old
  written f (some x) old = some (f x)

  put_each-get :
      (f : A → A) (keep : KeepsKey f) (k : String) (xs table : List A)
      → IsUnique xs
      → get k (put_each f xs table) ≡ written f (get k xs) (get k table)
  unfolding put_each get
  put_each-get f keep k [] table u = refl
  put_each-get f keep k (x ∷ xs) table u = ground (
    arith,
    eq_iff (key x) k,
    eq_iff (key (f x)) k,
    keep x,
    get-put k (f x) table,
    put_each-get f keep k xs (put (f x) table) u.1,
  )

  -- A loop over a whole table maps every value.
  pub put_each-all :
      (f : A → A) (keep : KeepsKey f) (k : String) (table : List A)
      → IsUnique table
      → get k (put_each f table table) ≡ Option.map f (get k table)
  put_each-all f keep k table u = put_each-get f keep k table table u ∙ written-map f (get k table)
    where
      written-map : (f : A → A) (o : Option A) → written f o o ≡ Option.map f o
      written-map f none = refl
      written-map f (some x) = refl

  abbrev pub is_key : String → List String → Bool
  is_key k [] = false
  is_key k (j ∷ ks) = str_eq j k || is_key k ks

  abbrev pub HasKeys : List String → List A → Type 0
  HasKeys ks table = (k : String) → is_key k ks ≡ true → get k table ≢ none

  -- What a loop over the keys leaves under a key.
  abbrev pub updated : (A → A) → Bool → Option A → Option A
  updated f hit old = if hit then Option.map f old else old

  abbrev IsUpdate : (A → A) → List String → List A → List A → Type 0
  IsUpdate f ks table table' = (k : String) → get k table' ≡ updated f (is_key k ks) (get k table)

  found_first :
      (f : A → A) (keep : KeepsKey f) (idem : (x : A) → f (f x) ≡ f x) (j : String) (v : A)
      (ks : List String) (table table' : List A)
      → get j table ≡ some v
      → IsUpdate f ks (put (f v) table) table'
      → IsUpdate f (j ∷ ks) table table'
  found_first f keep idem j v ks table table' h rest k = ground (
    arith,
    rest k,
    get-put k (f v) table,
    keep v,
    idem v,
    get-key j v table h,
    eq_iff j k,
    eq_iff (key (f v)) k,
  )

  HasKeys-put :
      (j : String) (ks : List String) (v : A) (table : List A)
      → HasKeys (j ∷ ks) table
      → HasKeys ks (put v table)
  HasKeys-put j ks v table h k hit = ground (arith, get-put k v table, h k, eq_iff j k)

  update_each-IsUpdate :
      (f : A → A) (keep : KeepsKey f) (idem : (x : A) → f (f x) ≡ f x) (ks : List String)
      (table : List A)
      → HasKeys ks table
      → (table' : List A) × (update_each f ks table ≡ some table') × IsUpdate f ks table table'
  unfolding update_each
  update_each-IsUpdate f keep idem [] table h = (table, refl, λ k. refl)
  update_each-IsUpdate f keep idem (j ∷ ks) table h = elim (Option-cases (get j table)) [
    | inl missing ↦ absurd (h j (simp eq_refl) missing)
    | inr (v, found) ↦
        let (table', run, is) =
          update_each-IsUpdate f keep idem ks (put (f v) table) (HasKeys-put j ks (f v) table h) in
        (table', rw (found, update_each) run, found_first f keep idem j v ks table table' found is)
  ]

  is_key-append :
      (k : String) (xs ys : List String) → is_key k (xs ++ ys) ≡ (is_key k xs || is_key k ys)
  is_key-append k [] ys = refl
  is_key-append k (x ∷ xs) ys = ground (arith, is_key-append k xs ys)

  -- The keys of a table, in the order of a reverse iterator.
  unfoldable pub reverse_keys : List A → List String
  reverse_keys table = map key (reverse table)

  is_key-keys : (k : String) (table : List A) → is_key k (map key table) ≡ true → get k table ≢ none
  unfolding get
  is_key-keys k [] h = cc
  is_key-keys k (x ∷ xs) h = ground (arith, is_key-keys k xs)

  keys_of_get : (k : String) (table : List A) → get k table ≢ none → is_key k (map key table) ≡ true
  unfolding get
  keys_of_get k [] h = absurd (h refl)
  keys_of_get k (x ∷ xs) h = ground (arith, keys_of_get k xs)

  is_key-reverse :
      (k : String) (table : List A) → is_key k (reverse_keys table) ≡ is_key k (map key table)
  unfolding reverse_keys
  is_key-reverse k [] = refl
  is_key-reverse k (x ∷ xs) =
      ap (is_key k) (ap (map key) (reverse-cons x xs) ∙ map-append key (reverse xs) (x ∷ []))
      ∙ is_key-append k (map key (reverse xs)) (key x ∷ [])
      ∙ ground (arith, is_key-reverse k xs)

  -- A loop over all the keys, in whatever order, succeeds and maps every value.
  pub update_each-all :
      (f : A → A) (keep : KeepsKey f) (idem : (x : A) → f (f x) ≡ f x) (table : List A)
      → (table' : List A) × (update_each f (reverse_keys table) table ≡ some table')
        × ((k : String) → get k table' ≡ Option.map f (get k table))
  update_each-all f keep idem table =
      let hit = λ (k : String) (h : is_key k (reverse_keys table) ≡ true).
        is_key-keys k table (sym (is_key-reverse k table) ∙ h) in
      let (table', run, is) = update_each-IsUpdate f keep idem (reverse_keys table) table hit in
      (table', run, λ k. is k ∙ all_updated k (Option-cases (get k table)))
    where
      all_updated :
          (k : String)
          → (get k table ≡ none) ⊎ ((v : A) × (get k table ≡ some v))
          → updated f (is_key k (reverse_keys table)) (get k table) ≡ Option.map f (get k table)
      all_updated k (inl missing) = rw missing (updated-none (is_key k (reverse_keys table)))
        where
          updated-none : (b : Bool) → updated f b none ≡ none
          updated-none true = refl
          updated-none false = refl
      all_updated k (inr (v, found)) =
          rw (is_key-reverse k table, keys_of_get k table (λ e. cc)) refl
