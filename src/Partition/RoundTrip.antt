-- ===== src/Partition/RoundTrip.antt =====
-- Reading a written partition or shard output gives back what the file format keeps of it.
use asm_dataset_nix.Prelude.{string_eq, ℕ, suc, String, ◌≡◌, refl, List, [], ◌∷◌, map, arith, some}
use asm_dataset_nix.Prelude.Order.{str_order}
use asm_dataset_nix.Prelude.Sorting.{sorted_by}
use asm_dataset_nix.Prelude.Int.{pos}
use asm_dataset_nix.Prelude.Dict.{Dict}
use asm_dataset_nix.Prelude.Result.{ok}
use asm_dataset_nix.Json.{str, items, fields, str_array}
use asm_dataset_nix.Partition.Variant.{VariantSpec}
use asm_dataset_nix.Partition.ShardFiles.{
  ShardOutput, string_items, entry_drvs, normalized, shard_payload, parse_shard_output,
}
use asm_dataset_nix.Partition.Envelope.{
  Partition, variant_to_jsonable, partition_payload, ReadVariant, read_variant, read_variants,
  string_tuple, read_partition,
}

string_items-map : (ss : List String) → string_items (items (map str ss)) ≡ some ss
unfolding string_items
string_items-map [] = refl
string_items-map (s ∷ ss) = rw (string_items-map ss)

string_tuple-array : (k : String) (ss : List String) → string_tuple k (some (str_array ss)) ≡ ok ss
unfolding string_tuple
string_tuple-array k ss = ground (arith, string_items-map ss)

entry_drvs-array : (k : String) (ss : List String) → entry_drvs k (str_array ss) ≡ ok ss
unfolding entry_drvs
entry_drvs-array k ss = ground (arith, string_items-map ss)

-- What a partition file keeps of a variant: the package and the architecture are lost.
abbrev pub kept : VariantSpec → ReadVariant
kept v = record {
  label = v.label;
  drv = v.drv;
  variant_dir = v.variant_dir;
  compiler_id = v.compiler_id;
  tier = v.tier;
  pkg = "";
  arch = "";
}

read_variant-jsonable :
    (i : ℕ) (v : VariantSpec) → read_variant i (variant_to_jsonable v) ≡ ok (kept v)
unfolding read_variant variant_to_jsonable
read_variant-jsonable i v = refl

read_variants-map :
    (i : ℕ) (vs : List VariantSpec)
    → read_variants i (items (map variant_to_jsonable vs)) ≡ ok (map kept vs)
unfolding read_variants
read_variants-map i [] = refl
read_variants-map i (v ∷ vs) = simp (read_variant-jsonable, read_variants-map (suc i) vs)

-- Reading a written partition of version 1 gives its parts back, of each variant what the file
-- keeps.
pub read_partition-payload :
    (p : Partition VariantSpec)
    → p.version ≡ pos 1
    → read_partition (partition_payload p)
      ≡ ok (record {
        version = p.version;
        input_hash = p.input_hash;
        toolchains = p.toolchains;
        common_deps = p.common_deps;
        variants = map kept p.variants;
      })
unfolding read_partition partition_payload
read_partition-payload p h = simp (h, string_tuple-array, read_variants-map 0 p.variants)

normalized-map :
    (d : Dict String (List String))
    → normalized (fields (map (λ p. (p.0, str_array (sorted_by str_order (λ s. s) p.1))) d))
      ≡ ok (map (λ p. (p.0, sorted_by str_order (λ s. s) p.1)) d)
unfolding normalized
normalized-map [] = refl
normalized-map ((k, ss) ∷ d) = simp (entry_drvs-array, normalized-map d)

-- Reading a written shard output gives it back, with the derivations of each variant sorted.
pub parse_shard_output-payload :
    (o : ShardOutput)
    → parse_shard_output (shard_payload o)
      ≡ ok (record o {
        variant_to_input_drvs =
            map (λ p. (p.0, sorted_by str_order (λ s. s) p.1)) o.variant_to_input_drvs;
      })
unfolding parse_shard_output shard_payload
parse_shard_output-payload o = simp (normalized-map o.variant_to_input_drvs)
