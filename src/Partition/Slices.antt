-- ===== src/Partition/Slices.antt =====
-- Each shard of `split_into_shards` is the slice that its package and architecture name.
use mathlib.Core.List.{append_assoc, append-nil}
use asm_dataset_nix.Prelude.{
  string_eq, pair_eq, ◌≡◌, refl, sym, ap, ◌∙◌, false, none, List, [], ◌∷◌, ◌++◌, map, ◌==◌, ==_iff,
  contains, All, arith, Bool-cases, inl, inr, ◌||◌, if◌then◌else◌, by_guard,
}
use asm_dataset_nix.Prelude.Order.{str_order}
use asm_dataset_nix.Prelude.Sorting.{sorted_by, IsSortedBy, sorted_by-IsSortedBy}
use asm_dataset_nix.Prelude.Contains.{IsDistinct, sorted_by-IsDistinct, contains-sorted_by}
use asm_dataset_nix.Prelude.Dict.{keys, get, get-put, IsDict, contains-keys-put}
use asm_dataset_nix.Partition.Variant.{VariantSpec}
use asm_dataset_nix.Partition.Shards.{
  Shard, Key, key_of, key_order, add_to_bucket, bucket_all, shard_at, split_into_shards,
}
use asm_dataset_nix.Partition.Splitting.{Buckets, bucket, bucket_all-IsDict}

-- The variants of one key, in the order they are given.
abbrev pub slice : Key → List VariantSpec → List VariantSpec
slice k [] = []
slice k (v ∷ vs) = if key_of v == k then v ∷ slice k vs else slice k vs

bucket-add_to_bucket :
    (d : Buckets) (v : VariantSpec) (k : Key)
    → bucket (add_to_bucket d v) k ≡ (if key_of v == k then bucket d k ++ v ∷ [] else bucket d k)
unfolding add_to_bucket
bucket-add_to_bucket d v k =
    rw (get-put (key_of v) k (bucket d (key_of v) ++ v ∷ []) d) (elim (Bool-cases (key_of v == k)) [
      | inl same ↦ let e : key_of v ≡ k = (==_iff (key_of v) k).0 same in rw (same, e) refl
      | inr other ↦ rw other refl
    ])

-- A bucket gets all variants of its key.
bucket-bucket_all :
    (d : Buckets) (vs : List VariantSpec) (k : Key)
    → bucket (bucket_all d vs) k ≡ bucket d k ++ slice k vs
unfolding bucket_all
bucket-bucket_all d [] k = sym (append-nil (bucket d k))
bucket-bucket_all d (v ∷ vs) k =
    bucket-bucket_all (add_to_bucket d v) vs k
    ∙ ap (λ b. b ++ slice k vs) (bucket-add_to_bucket d v k)
    ∙ by_guard (λ b. b ++ slice k vs ≡ bucket d k ++ slice k (v ∷ vs)) (key_of v == k)
        (bucket d k ++ v ∷ []) (bucket d k)
        (λ same. rw same (append_assoc (bucket d k) (v ∷ []) (slice k vs))) (λ other. rw other refl)

contains-keys-bucket_all :
    (d : Buckets) (vs : List VariantSpec) (k : Key)
    → contains k (keys (bucket_all d vs)) ≡ (contains k (keys d) || contains k (map key_of vs))
unfolding bucket_all add_to_bucket
contains-keys-bucket_all d [] k = ground arith
contains-keys-bucket_all d (v ∷ vs) k =
    let bs = bucket d (key_of v) ++ v ∷ [] in
    ground (
      arith,
      contains-keys-bucket_all (add_to_bucket d v) vs k,
      contains-keys-put (key_of v) k bs d,
    )

-- A shard holds exactly the variants of its package and architecture, sorted by their labels.
pub record IsSlice (vs : List VariantSpec) (s : Shard) : Type 0 where
  pub own : s.variants ≡ sorted_by str_order (λ v. v.label) (slice (s.pkg, s.arch) vs)
  pub in_order : IsSortedBy str_order (λ v. v.label) s.variants

abbrev pub shard_key : Shard → Key
shard_key s = (s.pkg, s.arch)

shard_at-IsSlice : (vs : List VariantSpec) (k : Key) → IsSlice vs (shard_at (bucket_all [] vs) k)
unfolding shard_at get
shard_at-IsSlice vs k = record {
  own = ap (sorted_by str_order (λ v. v.label)) (bucket-bucket_all [] vs k);
  in_order = sorted_by-IsSortedBy str_order (λ v. v.label) (bucket (bucket_all [] vs) k);
}

All-shard_at :
    (vs : List VariantSpec) (ks : List Key)
    → All (IsSlice vs) (map (shard_at (bucket_all [] vs)) ks)
All-shard_at vs [] = tt
All-shard_at vs (k ∷ ks) = (shard_at-IsSlice vs k, All-shard_at vs ks)

shard_key-map : (d : Buckets) (ks : List Key) → map shard_key (map (shard_at d) ks) ≡ ks
unfolding shard_at
shard_key-map d [] = refl
shard_key-map d (k ∷ ks) = ap (λ t. k ∷ t) (shard_key-map d ks)

contains-keys : (k : Key) (d : Buckets) → get k d ≡ none → contains k (keys d) ≡ false
unfolding get
contains-keys k [] h = refl
contains-keys k ((j, w) ∷ d) h = ground (arith, contains-keys k d)

keys-IsDistinct : (d : Buckets) → IsDict d → IsDistinct (keys d)
keys-IsDistinct [] h = tt
keys-IsDistinct ((j, w) ∷ d) h = (contains-keys j d h.0, keys-IsDistinct d h.1)

-- The shards are in the order of their keys, no two have the same key, there is one for exactly the
-- keys that some variant has, and each holds exactly the variants of its key, sorted by label.
pub split-slices :
    (vs : List VariantSpec)
    → All (IsSlice vs) (split_into_shards vs)
      × IsSortedBy key_order (λ k. k) (map shard_key (split_into_shards vs))
      × IsDistinct (map shard_key (split_into_shards vs))
      × ((k : Key) → contains k (map shard_key (split_into_shards vs)) ≡ contains k (map key_of vs))
unfolding split_into_shards get
split-slices vs =
    let d = bucket_all [] vs in
    let ks = keys d in
    let by_key = sorted_by key_order (λ k. k) ks in
    (
      All-shard_at vs by_key,
      rw (shard_key-map d by_key) (sorted_by-IsSortedBy key_order (λ k. k) ks),
      rw (shard_key-map d by_key) (
          sorted_by-IsDistinct key_order (λ k. k) ks
            (keys-IsDistinct d (bucket_all-IsDict [] vs tt))),
      λ k.
          ap (contains k) (shard_key-map d by_key)
          ∙ contains-sorted_by key_order (λ j. j) k ks
          ∙ contains-keys-bucket_all [] vs k,
    )
