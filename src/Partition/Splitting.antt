-- ===== src/Partition/Splitting.antt =====
-- `split_into_shards` loses no variant, and each shard is the slice that its key names.
use mathlib.Core.List.{Perm, append_assoc, append-nil, perm_middle}
use mathlib.Core.List.Perm
use asm_dataset_nix.Prelude.{
  string_eq, pair_eq, ◌≡◌, refl, ap, none, some, List, [], ◌∷◌, ◌++◌, map, ◌==◌, ==_iff, ==_refl,
  All, arith, Bool-cases, inl, inr,
}
use asm_dataset_nix.Prelude.Order.{str_order}
use asm_dataset_nix.Prelude.Sorting.{sorted_by, sorted_by-perm}
use asm_dataset_nix.Prelude.Dict.{Dict, keys, get, put, or_else, IsDict, put-IsDict}
use asm_dataset_nix.Prelude.Flat.{gather, gather-perm, gather_cong}
use asm_dataset_nix.Partition.Variant.{VariantSpec}
use asm_dataset_nix.Partition.Shards.{
  Shard, Key, key_of, key_order, add_to_bucket, bucket_all, shard_at, split_into_shards,
}

abbrev pub Buckets : Type 0
Buckets = Dict Key (List VariantSpec)

-- The variants of all buckets.
abbrev flat : Buckets → List VariantSpec
flat = gather (λ p. p.1)

-- The bucket of a key.
abbrev pub bucket : Buckets → Key → List VariantSpec
bucket d k = or_else [] (get k d)

flat-put :
    (k : Key) (v : VariantSpec) (d : Buckets) (b : List VariantSpec)
    → b ≡ bucket d k
    → Perm (flat (put k (b ++ v ∷ []) d)) (v ∷ flat d)
unfolding get put
flat-put k v [] b h = rw h (Perm.refl (v ∷ []))
flat-put k v ((j, w) ∷ d) b h = elim (Bool-cases (j == k)) [
  | inl same ↦
      let e : b ≡ w = ground (arith, h, same) in
      rw (same, e) (rw (append_assoc w (v ∷ []) (flat d)) (perm_middle w (flat d)))
  | inr other ↦ rw other (
      Perm.trans (Perm.append_left w (flat-put k v d b (ground (arith, h, other))))
        (perm_middle w (flat d)))
]

flat-bucket_all :
    (d : Buckets) (vs : List VariantSpec) → Perm (flat (bucket_all d vs)) (flat d ++ vs)
unfolding bucket_all add_to_bucket
flat-bucket_all d [] = rw append-nil (Perm.refl (flat d))
flat-bucket_all d (v ∷ vs) = Perm.trans (flat-bucket_all (add_to_bucket d v) vs) (
    Perm.trans (Perm.append_right vs (flat-put (key_of v) v d (bucket d (key_of v)) refl))
      (Perm.symm (perm_middle (flat d) vs)))

pub bucket_all-IsDict : (d : Buckets) (vs : List VariantSpec) → IsDict d → IsDict (bucket_all d vs)
unfolding bucket_all add_to_bucket
bucket_all-IsDict d [] h = h
bucket_all-IsDict d (v ∷ vs) h =
    bucket_all-IsDict (add_to_bucket d v) vs
      (put-IsDict (key_of v) (bucket d (key_of v) ++ v ∷ []) d h)

-- The buckets at the keys of a dict, in order, are its values.
gather_cong_keys :
    (d e : Buckets) → All (λ p. get p.0 e ≡ some p.1) d → gather (bucket e) (keys d) ≡ flat d
gather_cong_keys [] e h = refl
gather_cong_keys ((k, w) ∷ d) e h = rw (h.0, gather_cong_keys d e h.1)

get_above :
    (k : Key) (w : List VariantSpec) (d : Buckets) (e : Buckets)
    → get k e ≡ none
    → All (λ p. get p.0 e ≡ some p.1) d
    → All (λ p. get p.0 ((k, w) ∷ e) ≡ some p.1) d
unfolding get
get_above k w [] e n h = tt
get_above k w ((j, u) ∷ d) e n h = (ground (arith, h.0, ==_iff k j), get_above k w d e n h.1)

get_own : (d : Buckets) → IsDict d → All (λ p. get p.0 d ≡ some p.1) d
unfolding get
get_own [] h = tt
get_own ((k, w) ∷ d) h = (ground (arith, ==_refl k), get_above k w d d h.0 (get_own d h.1))

shard_at-perm : (d : Buckets) (k : Key) → Perm (shard_at d k).variants (bucket d k)
unfolding shard_at
shard_at-perm d k = sorted_by-perm str_order (λ v. v.label) (bucket d k)

gather-map :
    (f : Key → Shard) (ks : List Key)
    → gather (λ s. s.variants) (map f ks) ≡ gather (λ k. (f k).variants) ks
gather-map f [] = refl
gather-map f (k ∷ ks) = ap (λ t. (f k).variants ++ t) (gather-map f ks)

-- Every variant is in one shard, as often as it was given.
pub split-perm : (vs : List VariantSpec) → Perm (gather (λ s. s.variants) (split_into_shards vs)) vs
unfolding split_into_shards
split-perm vs =
    let d = bucket_all [] vs in
    let by_key = sorted_by key_order (λ k. k) (keys d) in
    rw (gather-map (shard_at d) by_key) (
      Perm.trans
        (gather_cong (λ k. (shard_at d k).variants) (bucket d) (λ k. shard_at-perm d k) by_key)
        (Perm.trans (gather-perm (bucket d) (sorted_by-perm key_order (λ k. k) (keys d))) (
          rw (gather_cong_keys d d (get_own d (bucket_all-IsDict [] vs tt)))
            (flat-bucket_all [] vs))))
