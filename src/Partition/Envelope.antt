-- ===== src/Partition/Envelope.antt =====
-- `Partition`, `build_partition` and its JSON form in partition.py.
use asm_dataset_nix.Prelude.{
  string_eq, ℕ, suc, String, true, false, Option, none, some, List, [], ◌∷◌, map, contains,
  if◌then◌else◌,
}
use asm_dataset_nix.Prelude.Int.{ℤ, pos}
use asm_dataset_nix.Prelude.Order.{str_order}
use asm_dataset_nix.Prelude.Sorting.{sorted_by}
use asm_dataset_nix.Prelude.Dict.{Dict, get}
use asm_dataset_nix.Prelude.Result.{Result, ok, err, ◌>>=◌, ◌>>◌}
use asm_dataset_nix.Json.{
  Json, bool, int, str, arr, obj, Items, nil, cons, object, array, str_array, field_dict,
}
use asm_dataset_nix.Partition.Variant.{VariantSpec}
use asm_dataset_nix.Partition.ShardFiles.{string_items}
use asm_dataset_nix.Partition.Frequencies.{set_of}

-- `V` is the type of the variants: a `VariantSpec`, or the part of it that a file keeps.
pub record Partition (V : Type 0) : Type 0 where
  pub version : ℤ
  pub input_hash : String
  pub toolchains : List String
  pub common_deps : List String
  pub variants : List V

abbrev pub partition_version : ℤ
partition_version = pos 1

-- `_dedupe_sorted`
unfoldable pub dedupe_sorted : List String → List String
dedupe_sorted xs = sorted_by str_order (λ s. s) (set_of xs)

-- The loop of `build_partition`: of the variants with one label the first is kept.
unfoldable pub dedupe_variants : List String → List VariantSpec → List VariantSpec
dedupe_variants seen [] = []
dedupe_variants seen (v ∷ vs) =
    let kept = dedupe_variants (v.label ∷ seen) vs in
    let skipped = dedupe_variants seen vs in if contains v.label seen then skipped else v ∷ kept

unfoldable pub build_partition :
    String → List VariantSpec → List String → List String → Partition VariantSpec
build_partition input_hash variants toolchains common_deps = record {
  version = partition_version;
  input_hash = input_hash;
  toolchains = dedupe_sorted toolchains;
  common_deps = dedupe_sorted common_deps;
  variants = sorted_by str_order (λ v. v.label) (dedupe_variants [] variants);
}

-- `_variant_to_jsonable`, with the fields of `_VARIANT_FIELDS`.
unfoldable pub variant_to_jsonable : VariantSpec → Json
variant_to_jsonable v = object (
    ("label", str v.label)
    ∷ ("drv", str v.drv)
    ∷ ("variant_dir", str v.variant_dir)
    ∷ ("compiler_id", str v.compiler_id)
    ∷ ("tier", int v.tier)
    ∷ [])

-- The payload that `write_partition_json` writes.
unfoldable pub partition_payload : Partition VariantSpec → Json
partition_payload p = object (
    ("version", int p.version)
    ∷ ("input_hash", str p.input_hash)
    ∷ ("toolchains", str_array p.toolchains)
    ∷ ("common_deps", str_array p.common_deps)
    ∷ ("variants", array (map variant_to_jsonable p.variants))
    ∷ [])

-- What `read_partition_json` makes of a variant.
pub record ReadVariant : Type 0 where
  pub label : String
  pub drv : String
  pub variant_dir : String
  pub compiler_id : String
  pub tier : ℤ
  pub pkg : String
  pub arch : String

-- The `ValueError`s of `read_partition_json`.
pub data PartitionError : Type 0 where
  not_an_object unsupported_version bad_input_hash bad_variants : PartitionError
  bad_string_list : (key : String) → PartitionError
  variant_not_an_object : (index : ℕ) → PartitionError
  variant_missing : (index : ℕ) (field : String) → PartitionError
  bad_tier : (index : ℕ) → PartitionError
  not_a_string : (index : ℕ) (field : String) → PartitionError

abbrev pub Read : Type 0 → Type 0
Read A = Result PartitionError A

-- Python's `int` of a JSON value: `True` is the number 1 and `False` is 0.
abbrev pub as_int : Json → Option ℤ
as_int (int z) = some z
as_int (bool true) = some (pos 1)
as_int (bool false) = some (pos 0)
as_int _ = none

-- `version != PARTITION_VERSION`
unfoldable pub read_version : Option (Option ℤ) → Read ℤ
read_version (some (some (pos (suc Prim.Native.Nat.zero)))) = ok (pos 1)
read_version _ = err unsupported_version

unfoldable pub read_input_hash : Option Json → Read String
read_input_hash (some (str s)) = ok s
read_input_hash _ = err bad_input_hash

-- `_string_tuple`
unfoldable pub string_tuple : String → Option Json → Read (List String)
unfolding string_items
string_tuple key (some (arr xs)) = elim (string_items xs) [
  | some ss ↦ ok ss
  | none ↦ err (bad_string_list key)
]
string_tuple key _ = err (bad_string_list key)

-- The loop over `_VARIANT_FIELDS`.
unfoldable pub check_present : ℕ → List String → Dict String Json → Read (Unit {0})
check_present index [] raw = ok tt
check_present index (k ∷ ks) raw =
    let rest = check_present index ks raw in
    elim (get k raw) [ none ↦ err (variant_missing index k) | some v ↦ rest ]

unfoldable pub read_tier : ℕ → Option Json → Read ℤ
read_tier index none = err (bad_tier index)
read_tier index (some v) = elim (as_int v) [ some z ↦ ok z | none ↦ err (bad_tier index) ]

unfoldable pub read_string : ℕ → String → Option Json → Read String
read_string index k (some (str s)) = ok s
read_string index k _ = err (not_a_string index k)

-- `raw.get(k, "")` if that is a text, else `""`.
unfoldable pub string_or_empty : Option Json → String
string_or_empty (some (str s)) = s
string_or_empty _ = ""

unfoldable pub read_variant : ℕ → Json → Read ReadVariant
unfolding check_present read_tier read_string string_or_empty get
read_variant index (obj fs) = do
  let raw = field_dict fs
  check_present index ("label" ∷ "drv" ∷ "variant_dir" ∷ "compiler_id" ∷ "tier" ∷ []) raw
  tier ← read_tier index (get "tier" raw)
  label ← read_string index "label" (get "label" raw)
  drv ← read_string index "drv" (get "drv" raw)
  variant_dir ← read_string index "variant_dir" (get "variant_dir" raw)
  compiler_id ← read_string index "compiler_id" (get "compiler_id" raw)
  ok (record {
    label = label;
    drv = drv;
    variant_dir = variant_dir;
    compiler_id = compiler_id;
    tier = tier;
    pkg = string_or_empty (get "pkg" raw);
    arch = string_or_empty (get "arch" raw);
  })
read_variant index _ = err (variant_not_an_object index)

-- The loop over `enumerate(raw_variants)`.
unfoldable pub read_variants : ℕ → Items → Read (List ReadVariant)
read_variants index nil = ok []
read_variants index (cons x xs) = do
  v ← read_variant index x
  rest ← read_variants (suc index) xs
  ok (v ∷ rest)

unfoldable pub variant_items : Option Json → Read Items
variant_items (some (arr xs)) = ok xs
variant_items _ = err bad_variants

-- `read_partition_json`, on the value that `json.load` returns.
unfoldable pub read_partition : Json → Read (Partition ReadVariant)
unfolding read_version read_input_hash variant_items get
read_partition (obj fs) = do
  let payload = field_dict fs
  version ← read_version (mathlib.Core.Option.map as_int (get "version" payload))
  input_hash ← read_input_hash (get "input_hash" payload)
  toolchains ← string_tuple "toolchains" (get "toolchains" payload)
  common_deps ← string_tuple "common_deps" (get "common_deps" payload)
  raw_variants ← variant_items (get "variants" payload)
  variants ← read_variants 0 raw_variants
  ok (record {
    version = version;
    input_hash = input_hash;
    toolchains = toolchains;
    common_deps = common_deps;
    variants = variants;
  })
read_partition _ = err not_an_object
