-- ===== src/Planner/Total.antt =====
-- plan_total.py of dependency_graph_planner: the plan of one binary and of all.
use asm_dataset_nix.Prelude.{
  string_eq, pair_eq, none, some, List, [], ◌∷◌, ◌++◌, ◌==◌, if◌then◌else◌, String,
}
use asm_dataset_nix.Prelude.Order.{TotalOrder, str_order, pair_order}
use asm_dataset_nix.Prelude.Sorting.{sorted_by}
use asm_dataset_nix.Prelude.Result.{Result, ok, ◌>>=◌, ◌>>◌}
use asm_dataset_nix.Prelude.Dict.{Dict, get, put, or_else, values}
use asm_dataset_nix.Json.{str, as_str}
use asm_dataset_nix.StreamedSpawn.Codec.{Phase4Descriptor}
use asm_dataset_nix.Planner.Cycle.{Failure, check_no_cycles}
use asm_dataset_nix.Planner.Descriptors.{Spec}
use asm_dataset_nix.Planner.Shapes.{StreamingResult, VariantArray, CellKey, ident_strs}
use asm_dataset_nix.Planner.Cell.{
  TemplateGraph, CellInputs, resolve_arch_indep_descriptors, plan_cell,
}
use asm_dataset_nix.Planner.Meta.{MetaInputs, MetaState, plan_meta_for_binary, arch_to_labels_from}

pub record BinaryPlanInput : Type 0 where
  pub binary : String
  pub streaming_result : StreamingResult
  pub variant_lookup : Dict (String × String) Spec
  pub toolchain_task_ids : Dict String String

-- The descriptors of a plan before they are sorted.
pub record Parts : Type 0 where
  pub arch_indep : List Phase4Descriptor
  pub meta : List Phase4Descriptor
  pub common_deps : List Phase4Descriptor
  pub variants : List Phase4Descriptor

abbrev pub Plan : Type 0
Plan = List Phase4Descriptor

-- `d.payload[key]`, a text under each key that is read here.
unfoldable pub payload_text : String → Phase4Descriptor → String
unfolding get
payload_text key d = or_else "" (as_str (or_else (str "") (get key d.payload)))

abbrev pub by_name : Phase4Descriptor → String × String
by_name d = (payload_text "node_name" d, payload_text "ident" d)

abbrev pub by_arch_name : Phase4Descriptor → String × (String × String)
by_arch_name d = (payload_text "arch" d, by_name d)

abbrev pub by_arch_label : Phase4Descriptor → String × String
by_arch_label d = (payload_text "arch" d, payload_text "label" d)

abbrev pub two : TotalOrder (String × String)
two = pair_order str_order str_order

abbrev pub three : TotalOrder (String × (String × String))
three = pair_order str_order two

-- The loop over the cells: the common dependencies and the variants.
unfoldable pub plan_cells : TemplateGraph → CellInputs → Dict CellKey VariantArray → Plan × Plan
unfolding plan_cell
plan_cells g c [] = ([], [])
plan_cells g c ((key, arr) ∷ more) =
    let (common_deps, variants) = plan_cell g c key arr in
    let (common_deps', variants') = plan_cells g c more in
    (common_deps ++ common_deps', variants ++ variants')

-- The arguments for the meta templates.
abbrev pub meta_inputs : String → BinaryPlanInput → MetaInputs
meta_inputs sys_name inp = record {
  binary = inp.binary;
  sys_name = sys_name;
  arch_to_labels = arch_to_labels_from [] inp.streaming_result.variant_arrays;
  variant_lookup = inp.variant_lookup;
  toolchain_drv_idents = ident_strs inp.streaming_result.toolchain_drvs;
  known_task_ids = values inp.toolchain_task_ids;
}

-- The post-pass over the meta templates of one binary; without any it leaves all empty.
unfoldable pub plan_metas : TemplateGraph → String → BinaryPlanInput → MetaState
unfolding plan_meta_for_binary arch_to_labels_from get
plan_metas g sys_name inp =
    plan_meta_for_binary g (meta_inputs sys_name inp)
      (or_else [] (get inp.binary inp.streaming_result.meta_templates))

-- The arguments for the cells.
abbrev pub cell_inputs : String → BinaryPlanInput → List String → MetaState → CellInputs
cell_inputs sys_name inp arch_indep_dep_task_ids metas = record {
  binary = inp.binary;
  sys_name = sys_name;
  templates = inp.streaming_result.templates;
  classification_map = inp.streaming_result.common_deps_per_arch_template;
  toolchain_node_ids = inp.streaming_result.toolchain_node_ids_per_template;
  toolchain_task_ids = inp.toolchain_task_ids;
  variant_lookup = inp.variant_lookup;
  arch_indep_dep_task_ids = arch_indep_dep_task_ids;
  meta_extra_variant_deps = metas.extra_variant_deps;
  meta_skip_idents = metas.meta_skip_idents;
  meta_toolchain_extras = metas.toolchain_meta_extras;
}

unfoldable pub plan_parts : TemplateGraph → String → BinaryPlanInput → Parts
unfolding plan_metas plan_cells resolve_arch_indep_descriptors
plan_parts g sys_name inp =
    let r = inp.streaming_result in
    let (arch_indep, task_ids) =
      resolve_arch_indep_descriptors g inp.binary sys_name r.arch_indep_deps in
    let metas = plan_metas g sys_name inp in
    let (common_deps, variants) =
      plan_cells g (cell_inputs sys_name inp task_ids metas) r.variant_arrays in
    record {
      arch_indep = arch_indep;
      meta = metas.meta_descriptors;
      common_deps = common_deps;
      variants = variants;
    }

-- The sorts and the result of `plan_phase4_for_binary`.
unfoldable pub ordered_parts : Parts → Plan
unfolding payload_text
ordered_parts p =
    sorted_by two by_name p.arch_indep
    ++ (sorted_by three by_arch_name p.meta
        ++ (sorted_by three by_arch_name p.common_deps ++ sorted_by two by_arch_label p.variants))

unfoldable pub plan_phase4_for_binary :
    TemplateGraph → String → BinaryPlanInput → Result Failure Plan
unfolding plan_parts ordered_parts check_no_cycles
plan_phase4_for_binary g sys_name inp =
    check_no_cycles inp.streaming_result.templates >> ok (ordered_parts (plan_parts g sys_name inp))

-- `d.setdefault(key, value)`
unfoldable pub set_default :
    String → Phase4Descriptor → Dict String Phase4Descriptor → Dict String Phase4Descriptor
unfolding get put
set_default key d tasks = elim (get key tasks) [ some _ ↦ tasks | none ↦ put key d tasks ]

-- The inner loop of `plan_phase4_from_graph`: the common dependencies by task id, and the others.
abbrev pub Merged : Type 0
Merged = Dict String Phase4Descriptor × Plan

unfoldable pub merge_one : Phase4Descriptor → Merged → Merged
unfolding set_default
merge_one d m =
    if d.kind == "build_common_dep"
    then (set_default d.task_id d m.0, m.1)
    else (m.0, m.1 ++ d ∷ [])

unfoldable pub merge : Merged → Plan → Merged
unfolding merge_one
merge m [] = m
merge m (d ∷ ds) = merge (merge_one d m) ds

-- The outer loop.
unfoldable pub merge_all :
    TemplateGraph → String → List BinaryPlanInput → Merged → Result Failure Merged
unfolding merge plan_phase4_for_binary
merge_all g sys_name [] m = ok m
merge_all g sys_name (inp ∷ inputs) m = do
  per_binary ← plan_phase4_for_binary g sys_name inp
  merge_all g sys_name inputs (merge m per_binary)

unfoldable pub plan_of : Merged → Plan
plan_of (tasks, others) = sorted_by str_order (λ d. d.task_id) (values tasks) ++ others

unfoldable pub plan_phase4_from_graph :
    TemplateGraph → String → List BinaryPlanInput → Result Failure Plan
unfolding merge_all plan_of
plan_phase4_from_graph g sys_name inputs =
    merge_all g sys_name (sorted_by str_order (λ i. i.binary) inputs) ([], []) >>= λ m.
    ok (plan_of m)
