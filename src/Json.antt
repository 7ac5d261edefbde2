-- ===== src/Json.antt =====
-- JSON values as Python's `json` module reads and writes them, without floating-point numbers,
-- which none of the modelled formats holds. An object is its fields in order.
pub mod Dumps
use asm_dataset_nix.Prelude.{
  String, ◌≡◌, refl, ap, Bool, Option, none, some, List, [], ◌∷◌, ◌++◌, map,
}
use asm_dataset_nix.Prelude.Int.{ℤ}
use asm_dataset_nix.Prelude.Dict.{Dict}

mutual
  pub data Json : Type 0 where
    null : Json
    bool : Bool → Json
    int : ℤ → Json
    str : String → Json
    arr : Items → Json
    obj : Fields → Json

  pub data Items : Type 0 where
    nil : Items
    cons : Json → Items → Items

  pub data Fields : Type 0 where
    end : Fields
    field : String → Json → Fields → Fields

-- A Python list and a Python dict as the contents of an array and of an object.
abbrev pub items : List Json → Items
items [] = nil
items (x ∷ xs) = cons x (items xs)

abbrev pub item_list : Items → List Json
item_list nil = []
item_list (cons x xs) = x ∷ item_list xs

abbrev pub fields : Dict String Json → Fields
fields [] = end
fields ((k, v) ∷ d) = field k v (fields d)

abbrev pub field_dict : Fields → Dict String Json
field_dict end = []
field_dict (field k v d) = (k, v) ∷ field_dict d

abbrev pub object : Dict String Json → Json
object d = obj (fields d)

abbrev pub array : List Json → Json
array xs = arr (items xs)

abbrev pub str_array : List String → Json
str_array xs = array (map str xs)

-- `isinstance(j, dict)`, `isinstance(j, list)` and `isinstance(j, str)`, with the contents.
abbrev pub as_dict : Json → Option (Dict String Json)
as_dict (obj d) = some (field_dict d)
as_dict _ = none

abbrev pub as_list : Json → Option (List Json)
as_list (arr xs) = some (item_list xs)
as_list _ = none

abbrev pub as_str : Json → Option String
as_str (str s) = some s
as_str _ = none

pub item_list-items : (xs : List Json) → item_list (items xs) ≡ xs
item_list-items [] = refl
item_list-items (x ∷ xs) = ap (λ t. x ∷ t) (item_list-items xs)

pub field_dict-fields : (d : Dict String Json) → field_dict (fields d) ≡ d
field_dict-fields [] = refl
field_dict-fields ((k, v) ∷ d) = ap (λ t. (k, v) ∷ t) (field_dict-fields d)
