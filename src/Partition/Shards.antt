-- ===== src/Partition/Shards.antt =====
-- `Shard` and `split_into_shards` of partition.py.
use Prim.Native.String.{◌++◌ as text_append}
use asm_dataset_nix.Prelude.{String, string_eq, pair_eq, List, [], ◌∷◌, ◌++◌, map}
use asm_dataset_nix.Prelude.Order.{TotalOrder, str_order, pair_order}
use asm_dataset_nix.Prelude.Sorting.{sorted_by}
use asm_dataset_nix.Prelude.Dict.{Dict, keys, get, put, or_else}
use asm_dataset_nix.Partition.Variant.{VariantSpec}

pub record Shard : Type 0 where
  pub pkg : String
  pub arch : String
  pub variants : List VariantSpec

-- The property `name`.
unfoldable pub name : Shard → String
name s = text_append s.pkg (text_append "__" s.arch)

abbrev pub Key : Type 0
Key = String × String

abbrev pub key_of : VariantSpec → Key
key_of v = (v.pkg, v.arch)

abbrev pub key_order : TotalOrder Key
key_order = pair_order str_order str_order

-- `buckets.setdefault(key, []).append(variant)`
unfoldable pub add_to_bucket :
    Dict Key (List VariantSpec) → VariantSpec → Dict Key (List VariantSpec)
add_to_bucket buckets v = put (key_of v) (or_else [] (get (key_of v) buckets) ++ v ∷ []) buckets

-- The first loop.
unfoldable pub bucket_all :
    Dict Key (List VariantSpec) → List VariantSpec → Dict Key (List VariantSpec)
bucket_all buckets [] = buckets
bucket_all buckets (v ∷ vs) = bucket_all (add_to_bucket buckets v) vs

-- A round of the second loop.
unfoldable pub shard_at : Dict Key (List VariantSpec) → Key → Shard
shard_at buckets key = record {
  pkg = key.0;
  arch = key.1;
  variants = sorted_by str_order (λ v. v.label) (or_else [] (get key buckets));
}

unfoldable pub split_into_shards : List VariantSpec → List Shard
split_into_shards variants =
    let buckets = bucket_all [] variants in
    map (shard_at buckets) (sorted_by key_order (λ k. k) (keys buckets))
