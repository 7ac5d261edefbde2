-- ===== src/Tests/PartitionSamples.antt =====
-- Runs of the partition utilities, and their theorems at a concrete input.
use mathlib.Core.List.{Perm}
use asm_dataset_nix.Prelude.{
  string_eq, pair_eq, ℕ, String, ◌≡◌, refl, true, false, not, ◌&&◌, List, [], ◌∷◌, map, contains,
  All, leb, arith,
}
use asm_dataset_nix.Prelude.Int.{pos}
use asm_dataset_nix.Prelude.Order.{str_order, str_le}
use asm_dataset_nix.Prelude.Sorting.{IsSortedBy, sorted_by}
use asm_dataset_nix.Prelude.Contains.{IsDistinct}
use asm_dataset_nix.Prelude.Dict.{Dict, get, put, IsDict}
use asm_dataset_nix.Prelude.Flat.{gather}
use asm_dataset_nix.Prelude.Result.{ok}
use asm_dataset_nix.Partition.Variant.{VariantSpec}
use asm_dataset_nix.Partition.Shards.{
  Key, key_of, split_into_shards, key_order, name, bucket_all, add_to_bucket, shard_at,
}
use asm_dataset_nix.Partition.ShardFiles.{ShardOutput, is_shard_file}
use asm_dataset_nix.Partition.Frequencies.{
  aggregate_input_drv_frequencies, classify_input_drvs, count_outputs, count_variants, count_set,
  bump, set_of,
}
use asm_dataset_nix.Partition.Envelope.{
  Partition, build_partition, partition_payload, read_partition,
}
use asm_dataset_nix.Partition.Classify.{
  count_of, variants_with, aggregate_counts, common_deps_exact,
}
use asm_dataset_nix.Partition.RoundTrip.{kept, read_partition-payload}
use asm_dataset_nix.Partition.Splitting.{split-perm}
use asm_dataset_nix.Partition.Slices.{IsSlice, shard_key, split-slices}
use asm_dataset_nix.Partition.Building.{labels, first_with, build_partition-variants}

abbrev variant : String → String → String → VariantSpec
variant label pkg arch = record {
  label = label;
  drv = "/nix/store/x.drv";
  variant_dir = "gcc15_x86_64_O2_abc";
  metadata_name = "gcc15_x86_64_O2_abc.json";
  compiler_id = "gcc15";
  compiler_family = "gcc";
  compiler_version = "15";
  optimization = "O2";
  flag_set = "baseline";
  hardening = "default";
  sanitizer = "off";
  march = "default";
  tier = pos 1;
  pkg = pkg;
  arch = arch;
}

abbrev given : List VariantSpec
given = variant "b" "zlib" "i686" ∷ variant "a" "zlib" "i686" ∷ variant "c" "hello" "x86_64" ∷ []

abbrev outputs : List ShardOutput
outputs =
    record {
      shard_name = "s";
      variant_to_input_drvs = ("a", "gcc" ∷ "m4" ∷ "m4" ∷ []) ∷ ("b", "m4" ∷ []) ∷ [];
    }
    ∷ []

names : map name (split_into_shards given) ≡ "hello__x86_64" ∷ "zlib__i686" ∷ []
unfolding split_into_shards bucket_all add_to_bucket shard_at sorted_by str_le get put name
names = refl

counts : aggregate_input_drv_frequencies outputs ≡ ("gcc", 1) ∷ ("m4", 2) ∷ []
unfolding aggregate_input_drv_frequencies count_outputs count_variants count_set bump set_of get put
counts = refl

hidden : is_shard_file "_tmp.json" ≡ false
unfolding is_shard_file
hidden = refl

shown : is_shard_file "zlib__i686.json" ≡ true
unfolding is_shard_file
shown = refl

split-perm_example : Perm (gather (λ s. s.variants) (split_into_shards given)) given
split-perm_example = split-perm given

split-slices_example :
    All (IsSlice given) (split_into_shards given)
    × IsSortedBy key_order (λ k. k) (map shard_key (split_into_shards given))
    × IsDistinct (map shard_key (split_into_shards given))
    × ((k : Key)
        → contains k (map shard_key (split_into_shards given)) ≡ contains k (map key_of given))
split-slices_example = split-slices given

aggregate_counts_example :
    count_of "m4" (aggregate_input_drv_frequencies outputs) ≡ variants_with "m4" outputs
aggregate_counts_example = aggregate_counts "m4" outputs

abbrev toolchain : List String
toolchain = "gcc" ∷ []

common_deps_exact_example :
    contains "m4" (classify_input_drvs 2 toolchain (aggregate_input_drv_frequencies outputs)).1
    ≡ (not (contains "m4" toolchain) && leb 2 (variants_with "m4" outputs))
common_deps_exact_example = common_deps_exact 2 toolchain outputs "m4" (omega arith)

abbrev frequencies : Dict String ℕ
frequencies = ("gcc", 1) ∷ ("m4", 2) ∷ []

frequencies-IsDict : IsDict frequencies
unfolding get
frequencies-IsDict = (refl, (refl, tt))

abbrev built : Partition VariantSpec
built = build_partition "h" given ("gcc" ∷ "clang" ∷ []) ("m4" ∷ [])

build_partition-variants_example :
    IsSortedBy str_order (λ v. v.label) built.variants
    × IsDistinct (labels built.variants)
    × ((l : String) → first_with l built.variants ≡ first_with l given)
build_partition-variants_example =
    build_partition-variants "h" given ("gcc" ∷ "clang" ∷ []) ("m4" ∷ [])

read_partition-payload_example :
    read_partition (partition_payload built)
    ≡ ok (record {
      version = built.version;
      input_hash = built.input_hash;
      toolchains = built.toolchains;
      common_deps = built.common_deps;
      variants = map kept built.variants;
    })
unfolding build_partition
read_partition-payload_example = read_partition-payload built refl

abbrev output : ShardOutput
output = record { shard_name = "s"; variant_to_input_drvs = ("a", "m4" ∷ "gcc" ∷ []) ∷ [] }
