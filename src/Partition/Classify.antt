-- ===== src/Partition/Classify.antt =====
-- The frequencies count variants, and the classification follows them.
use asm_dataset_nix.Prelude.{
  string_eq, ℕ, ◌+◌, ◌≤◌, String, ◌≡◌, ◌∙◌, refl, Bool, true, false, not, ◌&&◌, Option, none, some,
  List, [], ◌∷◌, ◌++◌, ◌==◌, ==_iff, contains, leb, if◌then◌else◌, arith,
}
use asm_dataset_nix.Prelude.Order.{str_order}
use asm_dataset_nix.Prelude.Dict.{Dict, get, or_else, values, get-put, IsDict, put-IsDict}
use asm_dataset_nix.Prelude.Contains.{IsDistinct, contains-append, contains-sorted_by}
use asm_dataset_nix.Partition.ShardFiles.{ShardOutput}
use asm_dataset_nix.Partition.Frequencies.{
  set_of, bump, count_set, count_variants, count_outputs, aggregate_input_drv_frequencies,
  toolchains_in, classify_loop, classify_input_drvs,
}
use asm_dataset_nix.Partition.Sets.{contains-set_of, set_of-IsDistinct}

-- How many of the lists have `a`.
abbrev pub lists_with : String → List (List String) → ℕ
lists_with a [] = 0
lists_with a (drvs ∷ more) = (if contains a drvs then 1 else 0) + lists_with a more

-- How many variants of the outputs have `a` among their input derivations.
abbrev pub variants_with : String → List ShardOutput → ℕ
variants_with a [] = 0
variants_with a (o ∷ os) = lists_with a (values o.variant_to_input_drvs) + variants_with a os

-- The count of `a`, 0 where there is none.
abbrev pub count_of : String → Dict String ℕ → ℕ
count_of a counts = or_else 0 (get a counts)

count_of-bump :
    (a drv : String) (counts : Dict String ℕ)
    → count_of a (bump drv counts) ≡ count_of a counts + (if drv == a then 1 else 0)
unfolding bump
count_of-bump a drv counts =
    ground (arith, get-put drv a (count_of drv counts + 1) counts, ==_iff drv a)

count_of-count_set :
    (a : String) (drvs : List String) (counts : Dict String ℕ)
    → IsDistinct drvs
    → count_of a (count_set drvs counts) ≡ count_of a counts + (if contains a drvs then 1 else 0)
unfolding count_set
count_of-count_set a [] counts s = ground arith
count_of-count_set a (x ∷ xs) counts s =
    ground
      (arith, count_of-count_set a xs (bump x counts) s.1, count_of-bump a x counts, ==_iff x a)

count_of-count_variants :
    (a : String) (lists : List (List String)) (counts : Dict String ℕ)
    → count_of a (count_variants lists counts) ≡ count_of a counts + lists_with a lists
unfolding count_variants
count_of-count_variants a [] counts = ground arith
count_of-count_variants a (l ∷ ls) counts = ground (
  arith,
  count_of-count_variants a ls (count_set (set_of l) counts),
  count_of-count_set a (set_of l) counts (set_of-IsDistinct l),
  contains-set_of a l,
)

count_of-count_outputs :
    (a : String) (os : List ShardOutput) (counts : Dict String ℕ)
    → count_of a (count_outputs os counts) ≡ count_of a counts + variants_with a os
unfolding count_outputs
count_of-count_outputs a [] counts = ground arith
count_of-count_outputs a (o ∷ os) counts = ground (
  arith,
  count_of-count_outputs a os (count_variants (values o.variant_to_input_drvs) counts),
  count_of-count_variants a (values o.variant_to_input_drvs) counts,
)

-- The frequency of a derivation is the number of variants that have it among their inputs,
-- however often a variant lists it.
pub aggregate_counts :
    (a : String) (os : List ShardOutput)
    → count_of a (aggregate_input_drv_frequencies os) ≡ variants_with a os
unfolding aggregate_input_drv_frequencies get
aggregate_counts a os = omega (arith, count_of-count_outputs a os [])

count_set-IsDict :
    (drvs : List String) (counts : Dict String ℕ) → IsDict counts → IsDict (count_set drvs counts)
unfolding count_set bump
count_set-IsDict [] counts h = h
count_set-IsDict (x ∷ xs) counts h =
    count_set-IsDict xs (bump x counts) (put-IsDict x (count_of x counts + 1) counts h)

count_variants-IsDict :
    (ls : List (List String)) (counts : Dict String ℕ)
    → IsDict counts
    → IsDict (count_variants ls counts)
unfolding count_variants
count_variants-IsDict [] counts h = h
count_variants-IsDict (l ∷ ls) counts h =
    count_variants-IsDict ls (count_set (set_of l) counts) (count_set-IsDict (set_of l) counts h)

count_outputs-IsDict :
    (os : List ShardOutput) (counts : Dict String ℕ)
    → IsDict counts
    → IsDict (count_outputs os counts)
unfolding count_outputs
count_outputs-IsDict [] counts h = h
count_outputs-IsDict (o ∷ os) counts h =
    count_outputs-IsDict os (count_variants (values o.variant_to_input_drvs) counts)
      (count_variants-IsDict (values o.variant_to_input_drvs) counts h)

aggregate-IsDict : (os : List ShardOutput) → IsDict (aggregate_input_drv_frequencies os)
unfolding aggregate_input_drv_frequencies
aggregate-IsDict os = count_outputs-IsDict os [] tt

-- Whether a derivation with this frequency is a common dependency, and whether it is incidental.
abbrev pub is_common : ℕ → Bool → Option ℕ → Bool
is_common threshold toolchain none = false
is_common threshold toolchain (some n) = not toolchain && leb threshold n

abbrev pub is_incidental : ℕ → Bool → Option ℕ → Bool
is_incidental threshold toolchain none = false
is_incidental threshold toolchain (some n) = not toolchain && not (leb threshold n)

module _ (threshold : ℕ) (tcs : List String) (a : String) where
  classify_loop_lem :
      (freq : Dict String ℕ)
      → IsDict freq
      → (contains a (classify_loop threshold tcs freq).0
          ≡ is_common threshold (contains a tcs) (get a freq))
        × (contains a (classify_loop threshold tcs freq).1
            ≡ is_incidental threshold (contains a tcs) (get a freq))
  unfolding classify_loop get
  classify_loop_lem [] h = (refl, refl)
  classify_loop_lem ((drv, n) ∷ freq) h = ground (arith, classify_loop_lem freq h.1, ==_iff drv a)

  contains-toolchains_in :
      (freq : Dict String ℕ) → contains a (toolchains_in tcs freq) ≡ true → contains a tcs ≡ true
  unfolding toolchains_in
  contains-toolchains_in [] h = absurd (cc h)
  contains-toolchains_in ((drv, n) ∷ freq) h =
      ground (arith, contains-toolchains_in freq, ==_iff drv a)

  -- Where each derivation is put: the toolchains are those given, whatever their frequency; of
  -- the others one that has a frequency is common from the threshold on, and incidental below it.
  pub classify_input_drvs_lem :
      (freq : Dict String ℕ)
      → IsDict freq
      → (contains a (classify_input_drvs threshold tcs freq).0 ≡ contains a tcs)
        × (contains a (classify_input_drvs threshold tcs freq).1
            ≡ is_common threshold (contains a tcs) (get a freq))
        × (contains a (classify_input_drvs threshold tcs freq).2
            ≡ is_incidental threshold (contains a tcs) (get a freq))
  unfolding classify_input_drvs
  classify_input_drvs_lem freq h =
      let l = classify_loop_lem freq h in
      (
        contains-sorted_by str_order (λ s. s) a (set_of (tcs ++ toolchains_in tcs freq))
            ∙ (contains-set_of a (tcs ++ toolchains_in tcs freq)
                ∙ ground (
                  arith,
                  contains-append a tcs (toolchains_in tcs freq),
                  contains-toolchains_in freq,
                )),
        contains-sorted_by str_order (λ s. s) a (classify_loop threshold tcs freq).0 ∙ l.0,
        contains-sorted_by str_order (λ s. s) a (classify_loop threshold tcs freq).1 ∙ l.1,
      )

-- Phase 1 as a whole: for a threshold of at least 1 the common dependencies are exactly the
-- derivations, other than toolchains, that at least that many variants have among their inputs.
pub common_deps_exact :
    (threshold : ℕ) (tcs : List String) (os : List ShardOutput) (a : String)
    → 1 ≤ threshold
    → contains a (classify_input_drvs threshold tcs (aggregate_input_drv_frequencies os)).1
      ≡ (not (contains a tcs) && leb threshold (variants_with a os))
common_deps_exact threshold tcs os a h =
    let c =
      classify_input_drvs_lem threshold tcs a (aggregate_input_drv_frequencies os)
        (aggregate-IsDict os) in
    c.1 ∙ ground (arith, aggregate_counts a os)
