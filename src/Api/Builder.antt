-- ===== src/Api/Builder.antt =====
-- The calls of cJSON that the serializers of src/api_types.c make, and what a client's JSON reader makes
-- of the text: parameters, with what is relied on as laws.
use professor_ai.Prelude.{ℕ, ◌≡◌, Bool, Option, none, some, List, if◌then◌else◌, get_elem?}
use professor_ai.Prelude.Int.{ℤ}
use professor_ai.Prelude.Bytes.{Bytes, streq}
use mathlib.Core.Option

-- `add` is `cJSON_AddItemToObject`, and with a leaf `cJSON_AddStringToObject` and its kin; an array comes
-- with the items that are added to it. `print` is `cJSON_PrintUnformatted`, null where memory runs out.
pub record Builder (D : Type 0) : Type 1 where
  pub Node : Type 0
  pub Text : Type 0
  pub object : Node
  pub string : Bytes → Node
  pub number : D → Node
  pub null : Node
  pub array : List Node → Node
  pub add : Node → Bytes → Node → Node
  pub print : Node → Option Text
  pub of_int : ℤ → D

-- A reader of JSON that takes the bytes of a string as they are.
pub record Reader (D Text : Type 0) : Type 1 where
  pub Doc : Type 0
  pub parse : Text → Option Doc
  pub member : Doc → Bytes → Option Doc
  pub element : Doc → ℕ → Option Doc
  pub text_of : Doc → Option Bytes
  pub number_of : Doc → Option D
  pub is_null : Doc → Bool

abbrev pub or_else {ℓ} : {A : Type ℓ} → Option A → Option A → Option A
or_else none o = o
or_else (some a) o = some a

-- The reader of what the builder prints: an object has the members that were added, the first of a name
-- first, and an array its items.
pub record Agrees {D : Type 0} (b : Builder D) (r : Reader D b.Text) : Type 0 where
  pub doc : b.Node → r.Doc
  pub parse_print : (n : b.Node) (t : b.Text) → b.print n ≡ some t → r.parse t ≡ some (doc n)
  pub member_object : (k : Bytes) → r.member (doc b.object) k ≡ none
  pub member_add :
      (n : b.Node) (k : Bytes) (v : b.Node) (k' : Bytes)
      → r.member (doc (b.add n k v)) k'
        ≡ or_else (r.member (doc n) k') (if streq k k' then some (doc v) else none)
  pub element_array :
      (ns : List b.Node) (i : ℕ) → r.element (doc (b.array ns)) i ≡ Option.map doc (get_elem? ns i)
  pub text_string : (s : Bytes) → r.text_of (doc (b.string s)) ≡ some s
  pub number_number : (d : D) → r.number_of (doc (b.number d)) ≡ some d
