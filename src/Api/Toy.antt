-- ===== src/Api/Toy.antt =====
-- Documents that are their own text, for the tests.
use professor_ai.Prelude.{
  ℕ, zero, suc, sym, ◌≡◌, refl, false, Option, none, some, List, [], ◌∷◌, if◌then◌else◌, get_elem?,
}
use professor_ai.Prelude.Int.{ℤ}
use professor_ai.Prelude.Bytes.{Bytes, streq}
use professor_ai.Api.Builder.{Builder, Reader, Agrees, or_else}
use mathlib.Core.Option

-- A document; an object keeps its members, the latest first.
pub data Tree : Type 0 where
  leaf : Bytes → Tree
  num : ℤ → Tree
  nil : Tree
  empty_object : Tree
  member_of : Tree → Bytes → Tree → Tree
  empty_array : Tree
  item_of : Tree → Tree → Tree

abbrev pub items : List Tree → Tree
items [] = empty_array
items (t ∷ ts) = item_of t (items ts)

abbrev pub find : Tree → Bytes → Option Tree
find (member_of n k v) k' = or_else (find n k') (if streq k k' then some v else none)
find t k' = none

abbrev pub nth : Tree → ℕ → Option Tree
nth (item_of t ts) zero = some t
nth (item_of t ts) (suc i) = nth ts i
nth t i = none

abbrev pub as_leaf : Tree → Option Bytes
as_leaf (leaf s) = some s
as_leaf t = none

abbrev pub as_num : Tree → Option ℤ
as_num (num d) = some d
as_num t = none

abbrev pub builder : Builder ℤ
builder = record {
  Node = Tree;
  Text = Tree;
  object = empty_object;
  string = leaf;
  number = num;
  null = nil;
  array = items;
  add = member_of;
  print = some;
  of_int = λ v. v;
}

abbrev pub reader : Reader ℤ Tree
reader = record {
  Doc = Tree;
  parse = some;
  member = find;
  element = nth;
  text_of = as_leaf;
  number_of = as_num;
  is_null = λ t. false;
}

pub nth-items : (ns : List Tree) (i : ℕ) → nth (items ns) i ≡ Option.map (λ t. t) (get_elem? ns i)
nth-items [] i = refl
nth-items (n ∷ ns) zero = refl
nth-items (n ∷ ns) (suc i) = nth-items ns i

abbrev pub agrees : Agrees builder reader
agrees = record {
  doc = λ n. n;
  parse_print = λ n t h. sym h;
  member_object = λ k. refl;
  member_add = λ n k v k'. refl;
  element_array = nth-items;
  text_string = λ s. refl;
  number_number = λ d. refl;
}
