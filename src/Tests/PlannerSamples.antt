-- ===== src/Tests/PlannerSamples.antt =====
-- Runs of the planner, and its theorems at concrete inputs.
use asm_dataset_nix.Prelude.{
  string_eq, pair_eq, Any, ◌≡◌, refl, inl, inr, some, none, [], ◌∷◌, ◌++◌, ◌==◌,
}
use asm_dataset_nix.Prelude.Int.{pos, negsuc}
use asm_dataset_nix.Prelude.Result.{ok, err}
use asm_dataset_nix.Prelude.Dict.{get}
use asm_dataset_nix.Prelude.Order.{str_le}
use asm_dataset_nix.Prelude.Sorting.{sorted_by}
use asm_dataset_nix.Partition.Frequencies.{set_of}
use asm_dataset_nix.Partition.Envelope.{dedupe_sorted}
use asm_dataset_nix.Json.{str}
use asm_dataset_nix.Planner.Graph.{Template, int_child, other_child}
use asm_dataset_nix.Planner.Cycle.{raised, check_no_cycles}
use asm_dataset_nix.Planner.Checking.{Verdict, check_no_cycles-Verdict}
use asm_dataset_nix.Planner.Descriptors.{
  Spec, common_dep_descriptor, arch_indep_descriptor, variant_descriptor, arch_indep_task_id,
  common_dep_task_id,
}
use asm_dataset_nix.Planner.Shapes.{
  VariantArray, pair, text, other_ident, one_drv, coerce_ident, arch_indep_idents_for_binary,
  ident_strs,
}
use asm_dataset_nix.Planner.Cell.{TemplateGraph, store_basename, template_at, variant_toolchain_dep}
use asm_dataset_nix.Planner.Meta.{meta_descriptor, cross_arch_position, cross_arch_task_id}
use asm_dataset_nix.Planner.Total.{BinaryPlanInput, Plan, plan_phase4_from_graph}
use asm_dataset_nix.Planner.Coverage.{IsVariantOf}
use asm_dataset_nix.Planner.Whole.{IsWholePlan, IsToolchain, plan_phase4_from_graph-IsWholePlan}
use asm_dataset_nix.Planner.Refusal.{Decides, plan_phase4_from_graph-Decides}
use asm_dataset_nix.Planner.Included.{plan_phase4_from_graph-covers}

-- 0 → 1, 2 and 1 → 2; the entries that are no nodes are skipped.
abbrev diamond : Template
diamond =
    record {
      name = "root.drv";
      child_ids = int_child (pos 1) ∷ int_child (pos 2) ∷ int_child (pos 7) ∷ [];
    }
    ∷ record { name = "libz.drv"; child_ids = other_child ∷ int_child (pos 2) ∷ [] }
    ∷ record { name = "gcc.drv"; child_ids = int_child (negsuc 0) ∷ [] }
    ∷ []

-- 0 → 1 → 2 → 1
abbrev looped : Template
looped =
    record { name = "a"; child_ids = int_child (pos 1) ∷ [] }
    ∷ record { name = "b"; child_ids = int_child (pos 2) ∷ [] }
    ∷ record { name = "c"; child_ids = int_child (pos 1) ∷ [] }
    ∷ []

diamond_passes : check_no_cycles (diamond ∷ diamond ∷ []) ≡ ok tt
unfolding check_no_cycles
diamond_passes = refl

looped_raises :
    check_no_cycles (diamond ∷ looped ∷ [])
    ≡ err (raised (record { tmpl_id = 1; child = 1; start = 0 }))
unfolding check_no_cycles
looped_raises = refl

check_no_cycles-Verdict_example :
    Verdict 0 (diamond ∷ looped ∷ []) (check_no_cycles (diamond ∷ looped ∷ []))
check_no_cycles-Verdict_example = check_no_cycles-Verdict (diamond ∷ looped ∷ [])

text_ident : coerce_ident (text "abc-zlib-1.3") ≡ some ("abc", "zlib-1.3")
unfolding coerce_ident
text_ident = refl

basename_of_path : store_basename "/nix/store/abc-hello-x86_64.drv" ≡ some "hello-x86_64.drv"
unfolding store_basename
basename_of_path = refl

no_hash : store_basename "/nix/store/-hello" ≡ none
unfolding store_basename
no_hash = refl

abbrev pub graph : TemplateGraph
graph = record {
  parse_variant_path = λ name. some ("x86_64", "gcc15");
  drv_role = λ name. name;
  is_source_terminal = λ role. role == "src.tar.gz.drv";
  arch_families = ("x86_64", "x86") ∷ [];
}

abbrev spec : Spec
spec = ("drv", str "/nix/store/h5-hello.drv") ∷ ("label", str "O2") ∷ []

abbrev cell : VariantArray
cell = record {
  variants = "O0" ∷ "O2" ∷ [];
  hashes = [] ∷ (other_ident ∷ pair "h1" "libz.drv" ∷ []) ∷ (pair "h2" "gcc.drv" ∷ []) ∷ [];
}

abbrev pub input : BinaryPlanInput
input = record {
  binary = "hello";
  streaming_result = record {
    templates = diamond ∷ [];
    variant_arrays = ((pos 0, "x86_64"), cell) ∷ ((pos 3, "x86_64"), cell) ∷ [];
    common_deps_per_arch_template =
        ((pos 0, "x86_64"), (pos 1, "common_dep") ∷ (pos 2, "common_dep") ∷ []) ∷ [];
    toolchain_node_ids_per_template = (pos 0, pos 2 ∷ []) ∷ [];
    toolchain_drvs = pair "h2" "gcc.drv" ∷ [];
    arch_indep_deps = ("hello", pair "h3" "src.tar.gz.drv" ∷ pair "h4" "data.drv" ∷ []) ∷ [];
    meta_templates =
        (
          "hello",
          record {
            archs = "x86_64" ∷ [];
            role_at_node = "locale.drv" ∷ [];
            cross_arch_classification = "cross_arch_common_dep" ∷ [];
            drv_per_node = one_drv (pair "h6" "locale.drv") ∷ [];
          }
              ∷ [],
        )
        ∷ [];
  };
  variant_lookup = (("x86_64", "O2"), spec) ∷ [];
  toolchain_task_ids = ("h2-gcc.drv", "linux__x86_64__gcc15") ∷ [];
}

abbrev gates : Plan
gates =
    arch_indep_descriptor "hello" "linux" "h4-data.drv" "data.drv"
    ∷ meta_descriptor "hello" "linux"
        (cross_arch_position "locale.drv" "h6-locale.drv" ("x86_64" ∷ []))
    ∷ common_dep_descriptor "hello" "x86_64" "linux" 1 "libz.drv" "h1-libz.drv"
    ∷ []

abbrev pub plan : Plan
plan =
    gates
    ++ variant_descriptor "hello" "x86_64" "linux" "O2" spec
        ("build_common_dep__arch_indep__h4-data.drv" ∷ "build_common_dep__cross_arch__h6-locale.drv"
          ∷ "build_common_dep__h1-libz.drv" ∷ [])
        ("linux__x86_64__gcc15" ∷ [])
      ∷ []

pub planned : plan_phase4_from_graph graph "linux" (input ∷ []) ≡ ok plan
unfolding plan_phase4_from_graph common_dep_descriptor arch_indep_descriptor meta_descriptor
    variant_descriptor sorted_by arch_indep_idents_for_binary str_le ident_strs arch_indep_task_id
    cross_arch_task_id common_dep_task_id dedupe_sorted variant_toolchain_dep set_of
planned = refl

plan_phase4_from_graph-IsWholePlan_example : IsWholePlan (IsToolchain (input ∷ [])) plan
plan_phase4_from_graph-IsWholePlan_example =
    plan_phase4_from_graph-IsWholePlan graph "linux" (input ∷ []) plan planned

plan_phase4_from_graph-Decides_example :
    Decides (input ∷ []) (plan_phase4_from_graph graph "linux" (input ∷ []))
plan_phase4_from_graph-Decides_example = plan_phase4_from_graph-Decides graph "linux" (input ∷ [])

template_there : template_at (diamond ∷ []) (pos 0) ≡ some diamond
unfolding template_at
template_there = refl

spec_there : get ("x86_64", "O2") input.variant_lookup ≡ some spec
unfolding get
spec_there = refl

plan_phase4_from_graph-covers_example : Any (IsVariantOf "hello" "x86_64" "linux" "O2" spec) plan
plan_phase4_from_graph-covers_example =
    plan_phase4_from_graph-covers graph "linux" (input ∷ []) plan input (pos 0, "x86_64") cell
      diamond "O2" spec planned (inl refl) (inl refl) template_there (inr (inl refl)) spec_there
