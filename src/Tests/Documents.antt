-- ===== src/Tests/Documents.antt =====
-- A data model of JSON in which the laws of `serde_json` hold. Printing shows nothing.
use driftbrake.Base.{ℕ, ◌≡◌, refl, ap, Bool, false, true, List, [], ◌∷◌, Option, none, some}
use driftbrake.Arbitrage.Json.{Json, JsonLaws, field_of}

mutual
  pub data Document : Type 0 where
    null : Document
    boolean : Bool → Document
    count : ℕ → Document
    string : List ℕ → Document
    sequence : Documents → Document
    members : Members → Document

  pub data Documents : Type 0 where
    nil : Documents
    cons : Document → Documents → Documents

  pub data Members : Type 0 where
    end : Members
    member : List ℕ → Document → Members → Members

abbrev documents : List Document → Documents
documents [] = nil
documents (d ∷ ds) = cons d (documents ds)

abbrev items : Documents → List Document
items nil = []
items (cons d ds) = d ∷ items ds

abbrev members_of : List (List ℕ × Document) → Members
members_of [] = end
members_of ((k, d) ∷ fields) = member k d (members_of fields)

abbrev fields_of : Members → List (List ℕ × Document)
fields_of end = []
fields_of (member k d ms) = (k, d) ∷ fields_of ms

abbrev get : Document → List ℕ → Option Document
get (members ms) key = field_of (fields_of ms) key
get null key = none
get (boolean b) key = none
get (count n) key = none
get (string s) key = none
get (sequence ds) key = none

abbrev as_str : Document → Option (List ℕ)
as_str (string s) = some s
as_str null = none
as_str (boolean b) = none
as_str (count n) = none
as_str (sequence ds) = none
as_str (members ms) = none

abbrev as_array : Document → Option (List Document)
as_array (sequence ds) = some (items ds)
as_array null = none
as_array (boolean b) = none
as_array (count n) = none
as_array (string s) = none
as_array (members ms) = none

abbrev is_null : Document → Bool
is_null null = true
is_null (boolean b) = false
is_null (count n) = false
is_null (string s) = false
is_null (sequence ds) = false
is_null (members ms) = false

instance abbrev pub document : Json
document = record {
  Value = Document;
  get = get;
  as_str = as_str;
  as_array = as_array;
  is_null = is_null;
  bool = boolean;
  number = count;
  text = string;
  array = λ ds. sequence (documents ds);
  object = λ fields. members (members_of fields);
  print = λ d. [];
}

items-documents : (ds : List Document) → items (documents ds) ≡ ds
items-documents [] = refl
items-documents (d ∷ ds) = ap (λ (l : List Document). d ∷ l) (items-documents ds)

fields_of-members_of : (fields : List (List ℕ × Document)) → fields_of (members_of fields) ≡ fields
fields_of-members_of [] = refl
fields_of-members_of ((k, d) ∷ fields) =
    ap (λ (l : List (List ℕ × Document)). (k, d) ∷ l) (fields_of-members_of fields)

pub document_laws : JsonLaws
document_laws = record {
  as_str-text = λ s. refl;
  as_array-array = λ ds. ap some (items-documents ds);
  get-object = λ fields key. ap (λ l. field_of l key) (fields_of-members_of fields);
  is_null-object = λ fields. refl;
}
