-- ===== src/Arbitrage/Json.antt =====
-- The `serde_json` crate, as examples/toy-arbitrage/src uses it: a parameter, with the accessors of its
-- values, its constructors behind `json!`, and its printing.
use driftbrake.Base.{ℕ, ◌≡◌, Bool, false, List, [], ◌∷◌, Option, none, some, if◌then◌else◌}
use driftbrake.Base.Text.{same_text}

pub record Json : Type 1 where
  pub Value : Type 0
  pub get : Value → List ℕ → Option Value
  pub as_str : Value → Option (List ℕ)
  pub as_array : Value → Option (List Value)
  pub is_null : Value → Bool
  pub bool : Bool → Value
  pub number : ℕ → Value
  pub text : List ℕ → Value
  pub array : List Value → Value
  pub object : List (List ℕ × Value) → Value
  pub print : Value → List ℕ

abbrev pub or_earlier : {A : Type 0} → Option A → Option A → Option A
or_earlier none earlier = earlier
or_earlier (some a) earlier = some a

-- The value of a key among the fields that `json!` inserts in order: the last one counts.
abbrev pub field_of : {A : Type 0} → List (List ℕ × A) → List ℕ → Option A
field_of [] key = none
field_of ((k, v) ∷ fields) key =
    or_earlier (field_of fields key) (if same_text k key then some v else none)

-- What the crate documents of a value that `json!` builds.
pub record JsonLaws ⦃js : Json⦄ : Type 0 where
  pub as_str-text : (s : List ℕ) → js.as_str (js.text s) ≡ some s
  pub as_array-array : (vs : List js.Value) → js.as_array (js.array vs) ≡ some vs
  pub get-object :
      (fields : List (List ℕ × js.Value)) (key : List ℕ)
      → js.get (js.object fields) key ≡ field_of fields key
  pub is_null-object : (fields : List (List ℕ × js.Value)) → js.is_null (js.object fields) ≡ false

module _ ⦃js : Json⦄ where
  open js use {Value, get, as_str, as_array}

  -- `value.get(key).and_then(Value::as_str)`
  abbrev pub and_str : Option Value → Option (List ℕ)
  and_str none = none
  and_str (some v) = as_str v

  abbrev pub get_str : Value → List ℕ → Option (List ℕ)
  get_str v key = and_str (get v key)

  abbrev pub or_empty : Option (List Value) → List Value
  or_empty none = []
  or_empty (some vs) = vs

  abbrev pub and_array : Option Value → List Value
  and_array none = []
  and_array (some v) = or_empty (as_array v)

  -- `value.get(key).and_then(Value::as_array).cloned().unwrap_or_default()`
  abbrev pub get_array : Value → List ℕ → List Value
  get_array v key = and_array (get v key)

module _ ⦃js : Json⦄ (laws : JsonLaws) where
  open js use {Value, text, object}

  pub get_str-object :
      (fields : List (List ℕ × Value)) (key s : List ℕ)
      → field_of fields key ≡ some (text s)
      → get_str (object fields) key ≡ some s
  get_str-object fields key s found = rw (laws.get-object, found) (laws.as_str-text s)
