-- ===== src/Partition/Frequencies.antt =====
-- `aggregate_input_drv_frequencies` and `classify_input_drvs` of partition.py. A Python set is a
-- list of its items, each once.
use asm_dataset_nix.Prelude.{
  string_eq, ℕ, ◌+◌, String, List, [], ◌∷◌, ◌++◌, contains, leb, if◌then◌else◌,
}
use asm_dataset_nix.Prelude.Order.{str_order}
use asm_dataset_nix.Prelude.Sorting.{sorted_by}
use asm_dataset_nix.Prelude.Dict.{Dict, get, put, or_else, values}
use asm_dataset_nix.Partition.ShardFiles.{ShardOutput}

-- `set(xs)`
unfoldable pub set_of : List String → List String
set_of [] = []
set_of (x ∷ xs) = let rest = set_of xs in if contains x rest then rest else x ∷ rest

-- `counts[drv] = counts.get(drv, 0) + 1`
unfoldable pub bump : String → Dict String ℕ → Dict String ℕ
bump drv counts = put drv (or_else 0 (get drv counts) + 1) counts

unfoldable pub count_set : List String → Dict String ℕ → Dict String ℕ
count_set [] counts = counts
count_set (drv ∷ drvs) counts = count_set drvs (bump drv counts)

unfoldable pub count_variants : List (List String) → Dict String ℕ → Dict String ℕ
count_variants [] counts = counts
count_variants (drvs ∷ more) counts = count_variants more (count_set (set_of drvs) counts)

unfoldable pub count_outputs : List ShardOutput → Dict String ℕ → Dict String ℕ
count_outputs [] counts = counts
count_outputs (o ∷ os) counts =
    count_outputs os (count_variants (values o.variant_to_input_drvs) counts)

unfoldable pub aggregate_input_drv_frequencies : List ShardOutput → Dict String ℕ
aggregate_input_drv_frequencies os = count_outputs os []

-- `{drv for drv in frequencies if drv in toolchain_drvs}`
unfoldable pub toolchains_in : List String → Dict String ℕ → List String
toolchains_in toolchain_drvs [] = []
toolchains_in toolchain_drvs ((drv, n) ∷ freq) =
    let rest = toolchains_in toolchain_drvs freq in
    if contains drv toolchain_drvs then drv ∷ rest else rest

-- The loop: the lists `common` and `incidental`.
unfoldable pub classify_loop : ℕ → List String → Dict String ℕ → List String × List String
classify_loop threshold toolchain_drvs [] = ([], [])
classify_loop threshold toolchain_drvs ((drv, count) ∷ freq) =
    let (common, incidental) = classify_loop threshold toolchain_drvs freq in
    if contains drv toolchain_drvs
    then (common, incidental)
    else if leb threshold count
    then (drv ∷ common, incidental)
    else (common, drv ∷ incidental)

-- `(toolchains, common_deps, incidental)`; `toolchain_drvs` is a set.
unfoldable pub classify_input_drvs :
    ℕ → List String → Dict String ℕ → List String × List String × List String
classify_input_drvs threshold toolchain_drvs freq =
    let (common, incidental) = classify_loop threshold toolchain_drvs freq in
    (
      sorted_by str_order (λ s. s) (set_of (toolchain_drvs ++ toolchains_in toolchain_drvs freq)),
      sorted_by str_order (λ s. s) common,
      sorted_by str_order (λ s. s) incidental,
    )
