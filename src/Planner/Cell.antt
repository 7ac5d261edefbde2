-- ===== src/Planner/Cell.antt =====
-- plan_cell.py of dependency_graph_planner: the descriptors of one cell. The functions of the
-- package template_graph that it imports are the fields of `TemplateGraph`.
use asm_dataset_nix.Prelude.{
  string_eq, pair_eq, ℕ, ◌+◌, Bool, Option, none, some, List, [], ◌∷◌, ◌++◌, map, get_or, get_elem?,
  contains, ◌==◌, if◌then◌else◌, String,
}
use asm_dataset_nix.Prelude.Int.{ℤ, pos, negsuc, int_eq}
use asm_dataset_nix.Prelude.Order.{str_order, pair_order}
use asm_dataset_nix.Prelude.Sorting.{sorted_by}
use asm_dataset_nix.Prelude.Dict.{Dict, get, or_else, values}
use asm_dataset_nix.Json.{str, as_str}
use asm_dataset_nix.StreamedSpawn.Codec.{Phase4Descriptor}
use asm_dataset_nix.Planner.Graph.{Template, TemplateNode}
use asm_dataset_nix.Planner.Descriptors.{
  Spec, texts, common_dep_descriptor, arch_indep_descriptor, variant_descriptor,
}
use asm_dataset_nix.Planner.Shapes.{
  Ident, RawIdent, split_dash, coerce_ident, ident_to_str, arch_indep_idents_for_binary,
  VariantArray, CellKey,
}

pub record TemplateGraph : Type 0 where
  -- `parse_variant_path` with the default archs: the arch and the compiler, or `TreeWalkError`
  pub parse_variant_path : String → Option (String × String)
  pub drv_role : String → String
  pub is_source_terminal : String → Bool
  -- `_ARCH_FAMILIES`
  pub arch_families : Dict String String

-- `_variant_toolchain_task_id`
unfoldable pub variant_toolchain_task_id : String → String → String → List String → Option String
variant_toolchain_task_id sys_name arch comp known_task_ids =
    let task_id = texts (sys_name ∷ "__" ∷ arch ∷ "__" ∷ comp ∷ []) in
    if contains task_id known_task_ids then some task_id else none

-- The text after a prefix, if it has it.
unfoldable pub after_prefix : String → String → Option String
after_prefix String.[] s = some s
after_prefix (String.◌∷◌ c p) String.[] = none
after_prefix (String.◌∷◌ c p) (String.◌∷◌ d s) =
    if String.◌∷◌ c "" == String.◌∷◌ d "" then after_prefix p s else none

-- What `_STORE_HASH_PREFIX_RE` leaves of a path that it matches.
unfoldable pub store_basename : String → Option String
unfolding after_prefix split_dash
store_basename path = elim (after_prefix "/nix/store/" path) [
  | none ↦ none
  | some rest ↦ elim (split_dash rest) [
    | none ↦ none
    | some (h, basename) ↦ if h == "" then none else some basename
  ]
]

-- `_variant_toolchain_dep` from the path of the drv on.
unfoldable pub toolchain_of_path : TemplateGraph → String → List String → String → Option String
unfolding store_basename variant_toolchain_task_id
toolchain_of_path g sys_name known_task_ids path = elim (store_basename path) [
  | none ↦ none
  | some basename ↦ elim (g.parse_variant_path basename) [
    | none ↦ none
    | some (arch, comp) ↦ variant_toolchain_task_id sys_name arch comp known_task_ids
  ]
]

-- `_variant_toolchain_dep`; a `drv` that is no text, or empty, has no store prefix.
unfoldable pub variant_toolchain_dep : TemplateGraph → Spec → String → List String → Option String
unfolding toolchain_of_path get
variant_toolchain_dep g spec sys_name known_task_ids =
    toolchain_of_path g sys_name known_task_ids
      (or_else "" (as_str (or_else (str "") (get "drv" spec))))

-- The loop of `_resolve_arch_indep_descriptors`.
unfoldable pub arch_indep_all : TemplateGraph → String → String → List Ident → List Phase4Descriptor
arch_indep_all g binary sys_name [] = []
arch_indep_all g binary sys_name (ident ∷ more) =
    let rest = arch_indep_all g binary sys_name more in
    if g.is_source_terminal (g.drv_role ident.1)
    then rest
    else arch_indep_descriptor binary sys_name (ident_to_str ident) ident.1 ∷ rest

-- `_resolve_arch_indep_descriptors`
unfoldable pub resolve_arch_indep_descriptors :
    TemplateGraph
    → String
    → String
    → Dict String (List RawIdent)
    → List Phase4Descriptor × List String
unfolding arch_indep_all
resolve_arch_indep_descriptors g binary sys_name arch_indep_deps =
    let idents = arch_indep_idents_for_binary arch_indep_deps binary in
    let descriptors =
      arch_indep_all g binary sys_name
        (sorted_by (pair_order str_order str_order) (λ i. i) idents) in
    (descriptors, map (λ d. d.task_id) descriptors)

-- The first ident of a row.
unfoldable pub representative : List RawIdent → Option Ident
representative [] = none
representative (cell ∷ row) = elim (coerce_ident cell) [
  | some ident ↦ some ident
  | none ↦ representative row
]

-- The arguments that `_plan_cell` takes alike for each cell of a binary.
pub record CellInputs : Type 0 where
  pub binary : String
  pub sys_name : String
  pub templates : List Template
  pub classification_map : Dict CellKey (Dict ℤ String)
  pub toolchain_node_ids : Dict ℤ (List ℤ)
  pub toolchain_task_ids : Dict String String
  pub variant_lookup : Dict (String × String) Spec
  pub arch_indep_dep_task_ids : List String
  pub meta_extra_variant_deps : Dict (String × String) (List String)
  pub meta_skip_idents : List String
  pub meta_toolchain_extras : Dict (String × String) (List String)

-- One round of `_mint_common_dep_descriptors`, for a node with its row of hashes.
unfoldable pub mint_common_dep :
    CellInputs
    → String
    → Dict ℤ String
    → List ℤ
    → ℕ
    → TemplateNode
    → List RawIdent
    → List Phase4Descriptor
unfolding representative get
mint_common_dep c arch classes toolchain_nodes node_id node row =
    if contains (pos node_id) toolchain_nodes
    then []
    else if or_else "" (get (pos node_id) classes) == "common_dep"
    then elim (representative row) [
      | none ↦ []
      | some ident ↦
          if contains (ident_to_str ident) c.meta_skip_idents
          then []
          else common_dep_descriptor c.binary arch c.sys_name node_id node.name (ident_to_str ident)
            ∷ []
    ]
    else []

-- `_mint_common_dep_descriptors`, for the nodes from the number `node_id` on.
unfoldable pub mint_common_deps :
    CellInputs
    → String
    → Dict ℤ String
    → List (List RawIdent)
    → List ℤ
    → ℕ
    → Template
    → List Phase4Descriptor
unfolding mint_common_dep
mint_common_deps c arch classes hashes toolchain_nodes node_id [] = []
mint_common_deps c arch classes hashes toolchain_nodes node_id (node ∷ nodes) =
    mint_common_dep c arch classes toolchain_nodes node_id node (get_or hashes node_id [])
    ++ mint_common_deps c arch classes hashes toolchain_nodes (node_id + 1) nodes

-- `deps.add(descriptor.task_id)` for each variant's set, for each descriptor.
unfoldable pub add_common_deps : List Phase4Descriptor → List (List String) → List (List String)
add_common_deps [] per_variant = per_variant
add_common_deps (d ∷ ds) per_variant =
    add_common_deps ds (map (λ deps. deps ++ d.task_id ∷ []) per_variant)

-- The toolchains that one variant waits for.
unfoldable pub toolchain_deps : TemplateGraph → CellInputs → String → String → Spec → List String
unfolding get
toolchain_deps g c arch label spec =
    let extras = or_else [] (get (arch, label) c.meta_toolchain_extras) in
    elim (variant_toolchain_dep g spec c.sys_name (values c.toolchain_task_ids)) [
      | none ↦ extras
      | some task_id ↦ extras ++ task_id ∷ []
    ]

-- The last loop of `_plan_cell`, over the labels and their sets.
unfoldable pub plan_variants :
    TemplateGraph → CellInputs → String → List String → List (List String) → List Phase4Descriptor
unfolding toolchain_deps get
plan_variants g c arch [] per_variant = []
plan_variants g c arch (label ∷ labels) [] = []
plan_variants g c arch (label ∷ labels) (deps ∷ per_variant) =
    let rest = plan_variants g c arch labels per_variant in
    elim (get (arch, label) c.variant_lookup) [
      | none ↦ rest
      | some spec ↦
          variant_descriptor c.binary arch c.sys_name label spec
            (deps ++ or_else [] (get (arch, label) c.meta_extra_variant_deps))
            (toolchain_deps g c arch label spec)
          ∷ rest
    ]

-- `templates[tmpl_id]`, unless it is out of range.
unfoldable pub template_at : List Template → ℤ → Option Template
template_at templates (pos i) = get_elem? templates i
template_at templates (negsuc i) = none

-- `_plan_cell` for a template that is there.
unfoldable pub plan_nodes :
    TemplateGraph
    → CellInputs
    → CellKey
    → VariantArray
    → Template
    → List Phase4Descriptor × List Phase4Descriptor
unfolding mint_common_deps add_common_deps plan_variants get
plan_nodes g c (tmpl_id, arch) arr nodes =
    let common_deps =
      mint_common_deps c arch (or_else [] (get (tmpl_id, arch) c.classification_map)) arr.hashes
        (or_else [] (get tmpl_id c.toolchain_node_ids)) 0 nodes in
    let per_variant =
      add_common_deps common_deps (map (λ (_ : String). c.arch_indep_dep_task_ids) arr.variants) in
    (common_deps, plan_variants g c arch arr.variants per_variant)

-- `_plan_cell`
unfoldable pub plan_cell :
    TemplateGraph
    → CellInputs
    → CellKey
    → VariantArray
    → List Phase4Descriptor × List Phase4Descriptor
unfolding template_at plan_nodes
plan_cell g c key arr = elim (template_at c.templates key.0) [
  | none ↦ ([], [])
  | some nodes ↦ plan_nodes g c key arr nodes
]
