-- ===== src/Planner/CellGates.antt =====
-- The variants of a cell wait for known tasks only, and a cell's other tasks are gates.
use asm_dataset_nix.Prelude.{
  string_eq, pair_eq, ◌≡◌, refl, inl, inr, true, Option, none, some, Bool-cases, List, [], ◌∷◌,
  ◌++◌, map, contains, All, All-append, String,
}
use asm_dataset_nix.Prelude.Int.{ℤ, int_eq}
use asm_dataset_nix.Prelude.Dict.{Dict, get, or_else, values}
use asm_dataset_nix.Json.{str, as_str}
use asm_dataset_nix.StreamedSpawn.Codec.{Phase4Descriptor}
use asm_dataset_nix.Planner.Graph.{Template}
use asm_dataset_nix.Planner.Descriptors.{Spec, texts, variant_descriptor}
use asm_dataset_nix.Planner.Shapes.{VariantArray, CellKey}
use asm_dataset_nix.Planner.Cell.{
  TemplateGraph, CellInputs, variant_toolchain_task_id, variant_toolchain_dep, toolchain_of_path,
  store_basename, mint_common_deps, add_common_deps, plan_variants, toolchain_deps, plan_nodes,
  plan_cell, template_at,
}
use asm_dataset_nix.Planner.Gates.{IsGate, Waits, ids, All-dedupe_sorted, mint_common_deps-IsGate}

module _ (P : String → Type 0) where
  add_one :
      (t : String) (per_variant : List (List String))
      → P t
      → All (All P) per_variant
      → All (All P) (map (λ deps. deps ++ t ∷ []) per_variant)
  add_one t [] p h = tt
  add_one t (deps ∷ more) p h = (All-append P deps (t ∷ []) h.0 (p, tt), add_one t more p h.1)

  add_common_deps-All :
      (ds : List Phase4Descriptor) (per_variant : List (List String))
      → All P (ids ds)
      → All (All P) per_variant
      → All (All P) (add_common_deps ds per_variant)
  unfolding add_common_deps
  add_common_deps-All [] per_variant p h = h
  add_common_deps-All (d ∷ ds) per_variant p h =
      add_common_deps-All ds _ p.1 (add_one d.task_id per_variant p.0 h)

-- A toolchain that is found is a known task.
variant_toolchain_task_id-known :
    (sys_name arch comp : String) (known : List String) (t : String)
    → variant_toolchain_task_id sys_name arch comp known ≡ some t
    → contains t known ≡ true
unfolding variant_toolchain_task_id
variant_toolchain_task_id-known sys_name arch comp known t h =
    let made = texts (sys_name ∷ "__" ∷ arch ∷ "__" ∷ comp ∷ []) in
    elim (Bool-cases (contains made known)) [
      | inl there ↦ let same : made ≡ t = cc (rw there at h) in rw (← same) there
      | inr missing ↦ absurd (cc (rw missing at h))
    ]

pub variant_toolchain_dep-known :
    (g : TemplateGraph) (spec : Spec) (sys_name : String) (known : List String) (t : String)
    → variant_toolchain_dep g spec sys_name known ≡ some t
    → contains t known ≡ true
unfolding variant_toolchain_dep toolchain_of_path
variant_toolchain_dep-known g spec sys_name known t h =
    by_path (store_basename (or_else "" (as_str (or_else (str "") (get "drv" spec))))) h
  where
    by_names :
        (o : Option (String × String))
        → elim o [
          | none ↦ none
          | some (arch, comp) ↦ variant_toolchain_task_id sys_name arch comp known
        ]
          ≡ some t
        → contains t known ≡ true
    by_names none e = absurd (cc e)
    by_names (some (arch, comp)) e = variant_toolchain_task_id-known sys_name arch comp known t e

    by_path :
        (o : Option String)
        → elim o [
          | none ↦ none
          | some basename ↦ elim (g.parse_variant_path basename) [
            | none ↦ none
            | some (arch, comp) ↦ variant_toolchain_task_id sys_name arch comp known
          ]
        ]
          ≡ some t
        → contains t known ≡ true
    by_path none e = absurd (cc e)
    by_path (some basename) e = by_names (g.parse_variant_path basename) e

module _ (P Q : String → Type 0) (g : TemplateGraph) (c : CellInputs) where
  -- What the meta pass has added, and the known toolchains.
  pub record Fits : Type 0 where
    pub extra : (k : String × String) → All P (or_else [] (get k c.meta_extra_variant_deps))
    pub compilers : (k : String × String) → All Q (or_else [] (get k c.meta_toolchain_extras))
    pub known : (t : String) → contains t (values c.toolchain_task_ids) ≡ true → Q t

  toolchain_deps-All :
      (arch label : String) (spec : Spec) → Fits → All Q (toolchain_deps g c arch label spec)
  unfolding toolchain_deps
  toolchain_deps-All arch label spec f =
      by_dep (variant_toolchain_dep g spec c.sys_name (values c.toolchain_task_ids))
        (λ t e. variant_toolchain_dep-known g spec c.sys_name (values c.toolchain_task_ids) t e)
    where
      by_dep :
          (o : Option String)
          → ((t : String) → o ≡ some t → contains t (values c.toolchain_task_ids) ≡ true)
          → All Q (elim o [
            | none ↦ or_else [] (get (arch, label) c.meta_toolchain_extras)
            | some task_id ↦ or_else [] (get (arch, label) c.meta_toolchain_extras) ++ task_id ∷ []
          ])
      by_dep none k = f.compilers (arch, label)
      by_dep (some t) k =
          All-append Q (or_else [] (get (arch, label) c.meta_toolchain_extras)) (t ∷ [])
            (f.compilers (arch, label)) (f.known t (k t refl), tt)

  plan_variants-Waits :
      (arch : String) (labels : List String) (per_variant : List (List String))
      → Fits
      → All (All P) per_variant
      → All (Waits P Q) (plan_variants g c arch labels per_variant)
  unfolding plan_variants variant_descriptor
  plan_variants-Waits arch [] per_variant f h = tt
  plan_variants-Waits arch (label ∷ labels) [] f h = tt
  plan_variants-Waits arch (label ∷ labels) (deps ∷ more) f h =
      planned (plan_variants-Waits arch labels more f h.1) (get (arch, label) c.variant_lookup)
    where
      planned :
          All (Waits P Q) (plan_variants g c arch labels more)
          → (o : Option Spec)
          → All (Waits P Q) (elim o [
            | none ↦ plan_variants g c arch labels more
            | some spec ↦
                variant_descriptor c.binary arch c.sys_name label spec
                  (deps ++ or_else [] (get (arch, label) c.meta_extra_variant_deps))
                  (toolchain_deps g c arch label spec)
                ∷ plan_variants g c arch labels more
          ])
      planned rest none = rest
      planned rest (some spec) = (
        (
          refl,
          All-dedupe_sorted P (deps ++ or_else [] (get (arch, label) c.meta_extra_variant_deps))
              (All-append P deps _ h.0 (f.extra (arch, label))),
          All-dedupe_sorted Q (toolchain_deps g c arch label spec)
              (toolchain_deps-All arch label spec f),
        ),
        rest,
      )

  All-const :
      {A : Type 0} (deps : List String) (xs : List A)
      → All P deps
      → All (All P) (map (λ _. deps) xs)
  All-const deps [] h = tt
  All-const deps (x ∷ xs) h = (h, All-const deps xs h)

  -- The common dependencies of a cell are gates; its variants wait for tasks with the property, if
  -- the gates and the arch-independent ones have it.
  abbrev pub CellOk : List Phase4Descriptor × List Phase4Descriptor → Type 0
  CellOk r =
      All IsGate r.0
      × (Fits → All P c.arch_indep_dep_task_ids → All P (ids r.0) → All (Waits P Q) r.1)

  pub plan_cell-CellOk : (key : CellKey) (arr : VariantArray) → CellOk (plan_cell g c key arr)
  unfolding plan_cell plan_nodes
  plan_cell-CellOk key arr = at_template (template_at c.templates key.0)
    where
      at_template :
          (o : Option Template)
          → CellOk (elim o [ none ↦ ([], []) | some nodes ↦ plan_nodes g c key arr nodes ])
      at_template none = (tt, λ f a b. tt)
      at_template (some nodes) =
          let classes : Dict ℤ String = or_else [] (get key c.classification_map) in
          let toolchains : List ℤ = or_else [] (get key.0 c.toolchain_node_ids) in
          let common_deps : List Phase4Descriptor =
            mint_common_deps c key.1 classes arr.hashes toolchains 0 nodes in
          let seeds : List (List String) =
            map (λ (_ : String). c.arch_indep_dep_task_ids) arr.variants in
          (
            mint_common_deps-IsGate c key.1 classes arr.hashes toolchains 0 nodes,
            λ f a b. plan_variants-Waits key.1 arr.variants (add_common_deps common_deps seeds) f (
                add_common_deps-All P common_deps seeds b
                  (All-const c.arch_indep_dep_task_ids arr.variants a)),
          )
