-- ===== src/Cache/Key.antt =====
-- The keys of incremental_cache.py. Bytes are numbers below 256; `sha256` stands outside, so that
-- what is modelled is the message that is hashed.
use asm_dataset_nix.Prelude.{
  string_eq, ℕ, zero, suc, ◌/◌, ◌%◌, String, Option, none, some, List, [], ◌∷◌, ◌++◌, length,
}
use asm_dataset_nix.Prelude.Int.{ℤ}
use asm_dataset_nix.Prelude.Order.{str_le}
use asm_dataset_nix.Prelude.{if◌then◌else◌}
use asm_dataset_nix.Json.{
  Json, null, bool, int, str, arr, obj, Items, nil, cons, Fields, end, field, object, str_array,
}
use asm_dataset_nix.Json.Dumps.{Text, codes, dumps}
use asm_dataset_nix.Partition.Envelope.{dedupe_sorted}

-- `_canonical_str_tuple`: `tuple(sorted(set(values)))`, and `None` as it is.
unfoldable pub canonical_str_tuple : Option (List String) → Option (List String)
canonical_str_tuple none = none
canonical_str_tuple (some values) = some (dedupe_sorted values)

pub record ToolchainAxes : Type 0 where
  pub sys_name : String
  pub archs : Option (List String)

pub record VariantAxes : Type 0 where
  pub sys_name : String
  pub packages : Option (List String)
  pub archs : Option (List String)
  pub variant_sample : ℤ
  pub variant_seed : String

-- The two `from_values`.
unfoldable pub toolchain_axes : String → Option (List String) → ToolchainAxes
toolchain_axes sys_name archs = record { sys_name = sys_name; archs = canonical_str_tuple archs }

unfoldable pub variant_axes :
    String → Option (List String) → Option (List String) → ℤ → String → VariantAxes
variant_axes sys_name packages archs variant_sample variant_seed = record {
  sys_name = sys_name;
  packages = canonical_str_tuple packages;
  archs = canonical_str_tuple archs;
  variant_sample = variant_sample;
  variant_seed = variant_seed;
}

-- `sort_keys=True`: a field before those with a greater key.
unfoldable pub insert_field : String → Json → Fields → Fields
insert_field k v end = field k v end
insert_field k v (field j w fs) =
    let rest = insert_field k v fs in
    if str_le k j then field k v (field j w fs) else field j w rest

unfoldable mutual
  unfolding insert_field

  pub sort_json : Json → Json
  sort_json null = null
  sort_json (bool b) = bool b
  sort_json (int z) = int z
  sort_json (str s) = str s
  sort_json (arr xs) = arr (sort_items xs)
  sort_json (obj fs) = obj (sort_fields fs)

  pub sort_items : Items → Items
  sort_items nil = nil
  sort_items (cons x xs) = cons (sort_json x) (sort_items xs)

  pub sort_fields : Fields → Fields
  sort_fields end = end
  sort_fields (field k v fs) = insert_field k (sort_json v) (sort_fields fs)

abbrev pub optional_array : Option (List String) → Json
optional_array none = null
optional_array (some ss) = str_array ss

abbrev pub toolchains_kind : String
toolchains_kind = "toolchains"

abbrev pub variants_kind : String
variants_kind = "variants"

-- The two `canonical_bytes`.
unfoldable pub toolchain_bytes : ToolchainAxes → Text
toolchain_bytes a = dumps (
    sort_json (
      object (
        ("kind", str toolchains_kind)
        ∷ ("sys_name", str a.sys_name)
        ∷ ("archs", optional_array a.archs)
        ∷ [])))

unfoldable pub variant_bytes : VariantAxes → Text
variant_bytes a = dumps (
    sort_json (
      object (
        ("kind", str variants_kind)
        ∷ ("sys_name", str a.sys_name)
        ∷ ("packages", optional_array a.packages)
        ∷ ("archs", optional_array a.archs)
        ∷ ("variant_sample", int a.variant_sample)
        ∷ ("variant_seed", str a.variant_seed)
        ∷ [])))

-- The parts of `InputHashInputs`, each as its bytes.
pub record InputHashInputs : Type 0 where
  pub flake_lock : Text
  pub git_rev : Text
  pub git_diff : Text
  pub invocation : Text

-- `n.to_bytes(width, "big")`, for `n` below `256 ^ width`; Python raises `OverflowError` above.
unfoldable pub to_bytes : ℕ → ℕ → Text
to_bytes zero n = []
to_bytes (suc width) n = to_bytes width (n / 256) ++ (n % 256) ∷ []

-- A part with its name and its length before it.
unfoldable pub prefixed : Text → Text → Text
prefixed name part = name ++ (to_bytes 8 (length part) ++ part)

-- What `compute_input_hash` feeds to `sha256`.
unfoldable pub hash_message : InputHashInputs → Text
hash_message i =
    prefixed (codes "flake_lock:") i.flake_lock
    ++ (prefixed (codes "git_rev:") i.git_rev
        ++ (prefixed (codes "git_diff:") i.git_diff ++ prefixed (codes "invocation:") i.invocation))

unfoldable pub compute_input_hash : (Text → String) → InputHashInputs → String
compute_input_hash sha256 i = sha256 (hash_message i)

unfoldable pub compute_subentry_key : (Text → String) → InputHashInputs → Text → String
compute_subentry_key sha256 i canonical_bytes =
    compute_input_hash sha256 (record i { invocation = canonical_bytes })
