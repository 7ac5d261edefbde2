-- ===== src/Planner/Coverage.antt =====
-- Every label of a cell that has a spec gets its variant (plan_cell.py).
use asm_dataset_nix.Prelude.{
  string_eq, pair_eq, ◌≡◌, inl, inr, refl, ◌∙◌, ap, Option, none, some, List, [], ◌∷◌, ◌++◌, map,
  Member, String, arith, length, length-map, Any, Any-append_left, Any-append_right,
}
use asm_dataset_nix.Prelude.Int.{int_eq}
use asm_dataset_nix.Prelude.Dict.{Dict, get, or_else}
use asm_dataset_nix.StreamedSpawn.Codec.{Phase4Descriptor}
use asm_dataset_nix.Planner.Graph.{Template}
use asm_dataset_nix.Json.{str}
use asm_dataset_nix.Planner.Descriptors.{Spec, variant_task_id, variant_payload, variant_descriptor}
use asm_dataset_nix.Planner.Shapes.{VariantArray, CellKey}
use asm_dataset_nix.Planner.Cell.{
  TemplateGraph, CellInputs, add_common_deps, toolchain_deps, plan_variants, template_at,
  plan_nodes, plan_cell, mint_common_deps,
}
use asm_dataset_nix.Planner.Total.{Plan, plan_cells}

length-add_common_deps :
    (ds : List Phase4Descriptor) (per_variant : List (List String))
    → length (add_common_deps ds per_variant) ≡ length per_variant
unfolding add_common_deps
length-add_common_deps [] per_variant = refl
length-add_common_deps (d ∷ ds) per_variant = length-add_common_deps ds _ ∙ length-map _ per_variant

-- The descriptor of the variant of one architecture and label. The id leaves the architecture out,
-- the payload names it.
pub record IsVariantOf (binary arch sys_name label : String) (spec : Spec) (d : Phase4Descriptor)
    : Type 0 where
  pub of_kind : d.kind ≡ "build_variant"
  pub of_id : d.task_id ≡ variant_task_id binary sys_name label
  pub of_arch : get "arch" d.payload ≡ some (str arch)
  pub of_label : get "label" d.payload ≡ some (str label)
  pub of_payload : d.payload ≡ variant_payload binary arch sys_name label spec

variant_descriptor-IsVariantOf :
    (binary arch sys_name label : String) (spec : Spec) (deps compilers : List String)
    → IsVariantOf binary arch sys_name label spec
        (variant_descriptor binary arch sys_name label spec deps compilers)
unfolding variant_descriptor variant_payload get
variant_descriptor-IsVariantOf binary arch sys_name label spec deps compilers = record {
  of_kind = refl;
  of_id = refl;
  of_arch = refl;
  of_label = refl;
  of_payload = refl;
}

module _ (g : TemplateGraph) (c : CellInputs) where
  -- The variant is among some descriptors.
  abbrev Has : String → String → Spec → Plan → Type 0
  Has arch label spec ds = Any (IsVariantOf c.binary arch c.sys_name label spec) ds

  -- One round of the loop over the labels, by what the lookup gives.
  abbrev one_round :
      String → String → List String → List String → List (List String) → Option Spec → Plan
  one_round arch l labels deps more o = elim o [
    | none ↦ plan_variants g c arch labels more
    | some s ↦
        variant_descriptor c.binary arch c.sys_name l s
          (deps ++ or_else [] (get (arch, l) c.meta_extra_variant_deps))
          (toolchain_deps g c arch l s)
        ∷ plan_variants g c arch labels more
  ]

  later :
      (P : Phase4Descriptor → Type 0) (arch l : String) (labels deps : List String)
      (more : List (List String)) (o : Option Spec)
      → Any P (plan_variants g c arch labels more)
      → Any P (one_round arch l labels deps more o)
  later P arch l labels deps more none h = h
  later P arch l labels deps more (some s) h = inr h

  first :
      {spec : Spec} (arch l label : String) (labels deps : List String) (more : List (List String))
      → l ≡ label
      → (o : Option Spec) → o ≡ some spec
      → Has arch label spec (one_round arch l labels deps more o)
  first arch l label labels deps more same none e = absurd (cc e)
  first {spec} arch l label labels deps more same (some s) e =
      let eq : s ≡ spec = cc e in
      rw (same, eq) (inl (variant_descriptor-IsVariantOf c.binary arch c.sys_name label spec _ _))

  -- A label with a spec gives its variant.
  plan_variants-covers :
      (arch label : String) (spec : Spec) (labels : List String) (per_variant : List (List String))
      → length per_variant ≡ length labels
      → Member label labels
      → get (arch, label) c.variant_lookup ≡ some spec
      → Has arch label spec (plan_variants g c arch labels per_variant)
  unfolding plan_variants
  plan_variants-covers arch label spec [] per_variant n m e = absurd m
  plan_variants-covers arch label spec (l ∷ labels) [] n m e = absurd (omega (arith, n))
  plan_variants-covers arch label spec (l ∷ labels) (deps ∷ more) n (inl same) e =
      first arch l label labels deps more same (get (arch, l) c.variant_lookup)
        (ap (λ s. get (arch, s) c.variant_lookup) same ∙ e)
  plan_variants-covers arch label spec (l ∷ labels) (deps ∷ more) n (inr m) e =
      later (IsVariantOf c.binary arch c.sys_name label spec) arch l labels deps more
        (get (arch, l) c.variant_lookup)
        (plan_variants-covers arch label spec labels more (omega (arith, n)) m e)

  abbrev cell_at : CellKey → VariantArray → Option Template → Plan × Plan
  cell_at key arr o = elim o [ none ↦ ([], []) | some nodes ↦ plan_nodes g c key arr nodes ]

  pub plan_cell-covers :
      (key : CellKey) (arr : VariantArray) (nodes : Template) (label : String) (spec : Spec)
      → template_at c.templates key.0 ≡ some nodes
      → Member label arr.variants
      → get (key.1, label) c.variant_lookup ≡ some spec
      → Has key.1 label spec (plan_cell g c key arr).1
  unfolding plan_cell plan_nodes
  plan_cell-covers key arr nodes label spec t m e = at_template (template_at c.templates key.0) t
    where
      at_template :
          (o : Option Template) → o ≡ some nodes → Has key.1 label spec (cell_at key arr o).1
      at_template none h = absurd (cc h)
      at_template (some n) h =
          plan_variants-covers key.1 label spec arr.variants _
            (length-add_common_deps
                (mint_common_deps c key.1 (or_else [] (get key c.classification_map)) arr.hashes
                  (or_else [] (get key.0 c.toolchain_node_ids)) 0 n)
                (map (λ (_ : String). c.arch_indep_dep_task_ids) arr.variants)
              ∙ length-map (λ (_ : String). c.arch_indep_dep_task_ids) arr.variants)
            m e

  pub plan_cells-covers :
      (P : Phase4Descriptor → Type 0) (cells : Dict CellKey VariantArray) (key : CellKey)
      (arr : VariantArray)
      → Member (key, arr) cells
      → Any P (plan_cell g c key arr).1
      → Any P (plan_cells g c cells).1
  unfolding plan_cells
  plan_cells-covers P [] key arr m h = absurd m
  plan_cells-covers P ((k, a) ∷ more) key arr (inl same) h =
      Any-append_left P (plan_cell g c k a).1 (plan_cells g c more).1
        (rw (ap (λ p. (plan_cell g c p.0 p.1).1) same) h)
  plan_cells-covers P ((k, a) ∷ more) key arr (inr m) h =
      Any-append_right P (plan_cell g c k a).1 (plan_cells g c more).1
        (plan_cells-covers P more key arr m h)
