-- ===== src/Partition/ShardFiles.antt =====
-- `ShardOutput`, `write_shard_output` and `read_shard_outputs` of partition.py. A directory is its
-- files in some order, each with its name and the JSON value in it; `_atomic_write_json` puts one
-- such file, whole. A file that is no JSON is not modelled.
use asm_dataset_nix.Prelude.{
  string_eq, ℕ, ◌-◌, String, Bool, true, false, not, ◌&&◌, ◌||◌, Option, none, some, List, [], ◌∷◌,
  map, length, leb, nat_beq, if◌then◌else◌,
}
use Prim.Native.String.{◌++◌ as text_append}
use asm_dataset_nix.Prelude.Order.{str_order}
use asm_dataset_nix.Prelude.Sorting.{sorted_by}
use asm_dataset_nix.Prelude.Dict.{Dict, get, put}
use asm_dataset_nix.Prelude.Result.{Result, ok, err, ◌>>=◌}
use asm_dataset_nix.Json.{
  Json, str, arr, obj, Items, nil, cons, Fields, end, field, object, str_array, field_dict,
}
use asm_dataset_nix.Json.Dumps.{Text, codes}

pub record ShardOutput : Type 0 where
  pub shard_name : String
  pub variant_to_input_drvs : Dict String (List String)

-- The `ValueError`s of `read_shard_outputs`.
pub data ShardError : Type 0 where
  not_an_object bad_shard_name bad_variant_map : ShardError
  malformed_entry non_string_drv : (label : String) → ShardError

abbrev pub Directory : Type 0
Directory = Dict String Json

unfoldable pub shard_payload : ShardOutput → Json
shard_payload o = object (
    ("shard_name", str o.shard_name)
    ∷ (
      "variant_to_input_drvs",
      object
          (map (λ p. (p.0, str_array (sorted_by str_order (λ s. s) p.1))) o.variant_to_input_drvs),
    )
    ∷ [])

unfoldable pub write_shard_output : ShardOutput → Directory → Directory
write_shard_output o = put (text_append o.shard_name ".json") (shard_payload o)

-- `all(isinstance(d, str) for d in drvs)`, with the list of them.
unfoldable pub string_items : Items → Option (List String)
string_items nil = some []
string_items (cons (str s) xs) = mathlib.Core.Option.map (λ ss. s ∷ ss) (string_items xs)
string_items (cons _ xs) = none

-- The body of the loop over `variant_map.items()`.
unfoldable pub entry_drvs : String → Json → Result ShardError (List String)
unfolding string_items
entry_drvs label (arr xs) = elim (string_items xs) [
  | some ss ↦ ok ss
  | none ↦ err (non_string_drv label)
]
entry_drvs label _ = err (malformed_entry label)

unfoldable pub normalized : Fields → Result ShardError (Dict String (List String))
normalized end = ok []
normalized (field label drvs fs) = do
  ss ← entry_drvs label drvs
  rest ← normalized fs
  ok ((label, ss) ∷ rest)

-- `isinstance(shard_name, str)` and `isinstance(variant_map, dict)`, on what `get` gave.
unfoldable pub name_of : Option Json → Result ShardError String
name_of (some (str s)) = ok s
name_of _ = err bad_shard_name

unfoldable pub map_of : Option Json → Result ShardError Fields
map_of (some (obj fs)) = ok fs
map_of _ = err bad_variant_map

-- The body of the loop over the files, on the value that `json.load` returns.
unfoldable pub parse_shard_output : Json → Result ShardError ShardOutput
unfolding name_of map_of normalized get
parse_shard_output (obj fs) = do
  let payload = field_dict fs
  shard_name ← name_of (get "shard_name" payload)
  variant_map ← map_of (get "variant_to_input_drvs" payload)
  drvs ← normalized variant_map
  ok (record { shard_name = shard_name; variant_to_input_drvs = drvs })
parse_shard_output _ = err not_an_object

abbrev text_eq : Text → Text → Bool
text_eq [] [] = true
text_eq (c ∷ s) (d ∷ t) = nat_beq c d && text_eq s t
text_eq _ _ = false

abbrev pub drop : ℕ → Text → Text
drop Prim.Native.Nat.zero xs = xs
drop (Prim.Native.Nat.suc n) [] = []
drop (Prim.Native.Nat.suc n) (x ∷ xs) = drop n xs

-- `entry.suffix == ".json"`, for a name that does not begin with a dot.
unfoldable pub has_json_suffix : Text → Bool
has_json_suffix name = leb 5 (length name) && text_eq (drop (length name - 5) name) (codes ".json")

-- `name.startswith("_") or name.startswith(".")`
unfoldable pub is_hidden : Text → Bool
is_hidden [] = false
is_hidden (c ∷ s) = nat_beq c b'_' || nat_beq c b'.'

unfoldable pub is_shard_file : String → Bool
unfolding has_json_suffix is_hidden
is_shard_file name = has_json_suffix (codes name) && not (is_hidden (codes name))

-- The loop over `sorted(source_dir.iterdir())`.
unfoldable pub read_files : Directory → Result ShardError (List ShardOutput)
read_files [] = ok []
read_files ((name, payload) ∷ files) =
    let here = (do o ← parse_shard_output payload; rest ← read_files files; ok (o ∷ rest)) in
    let skipped = read_files files in if is_shard_file name then here else skipped

-- `none` is a directory that does not exist.
unfoldable pub read_shard_outputs : Option Directory → Result ShardError (List ShardOutput)
unfolding read_files
read_shard_outputs none = ok []
read_shard_outputs (some files) = do
  outputs ← read_files (sorted_by str_order (λ f. f.0) files)
  ok (sorted_by str_order (λ o. o.shard_name) outputs)
