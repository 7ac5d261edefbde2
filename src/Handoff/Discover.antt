-- ===== src/Handoff/Discover.antt =====
-- `_discover_import_gate_tasks` of suit_task.py: the import gates that are known before the plan.
use asm_dataset_nix.Prelude.{
  string_eq, String, Bool, true, false, Option, none, some, List, [], ◌∷◌, ◌++◌, contains, ◌==◌,
  if◌then◌else◌,
}
use asm_dataset_nix.Prelude.Dict.{Dict, values}
use asm_dataset_nix.Prelude.Order.{str_order}
use asm_dataset_nix.Prelude.Sorting.{sorted_by}
use asm_dataset_nix.Json.{str}
use asm_dataset_nix.Planner.Descriptors.{texts}
use asm_dataset_nix.Handoff.TaskIds.{import_tc_task_id, import_matrix_drv_task_id}
use asm_dataset_nix.Handoff.Tasks.{SuitTaskConfig, TaskInfo, build}

-- `_gate`
unfoldable pub import_gate : String → TaskInfo
import_gate task_id = record {
  path = texts (task_id ∷ ".json" ∷ []);
  size = 0;
  phase_id = build;
  type_id = "toolchain_import";
  affinity_id = none;
  payload = ("item_class", str "toolchain_import") ∷ ("task_id", str task_id) ∷ [];
  task_id = task_id;
  task_depends_on = [];
  is_secondary_affine = true;
}

-- A round of both loops: a key that is new gets its gate.
unfoldable pub new_gate :
    (String → String) → Option String → List String → (List String → List TaskInfo) → List TaskInfo
unfolding import_gate
new_gate id_of none seen go_on = go_on seen
new_gate id_of (some key) seen go_on = elim (contains key seen) [
  | true ↦ go_on seen
  | false ↦ import_gate (id_of key) ∷ go_on (key ∷ seen)
]

unfoldable pub new_gates :
    (String → String) → (String → Option String) → List String → List String → List TaskInfo
unfolding new_gate
new_gates id_of key_of [] seen = []
new_gates id_of key_of (x ∷ xs) seen = new_gate id_of (key_of x) seen (new_gates id_of key_of xs)

-- An empty binary has no gate, nor has an outpath without a hash.
unfoldable pub binary_key : String → Option String
binary_key binary = if binary == "" then none else some binary

unfoldable pub outpath_key : String → Option String
unfolding import_tc_task_id
outpath_key outpath = if outpath == "" then none else import_tc_task_id outpath

unfoldable pub matrix_gates : SuitTaskConfig → List TaskInfo
unfolding new_gates binary_key import_matrix_drv_task_id import_gate sorted_by
matrix_gates c =
    if c.has_matrix_eval_out_dir
    then import_gate "import_toolchain_drv"
      ∷ new_gates import_matrix_drv_task_id binary_key
          (sorted_by str_order (λ s. s) c.per_binary_metadata) []
    else []

-- The gates of the toolchains, by `build_deps_local` and the outpaths.
unfoldable pub toolchain_gates : Bool → Dict String String → List TaskInfo
unfolding new_gates outpath_key import_gate
toolchain_gates build_deps_local [] = []
toolchain_gates build_deps_local (p ∷ ps) =
    import_gate "import_common"
    ∷ ((if build_deps_local then import_gate "import_build_deps" ∷ [] else [])
        ++ new_gates (λ s. s) outpath_key (values (p ∷ ps)) [])

-- With neither a directory nor outpaths both parts are empty.
unfoldable pub discover_import_gate_tasks : SuitTaskConfig → List TaskInfo
unfolding matrix_gates toolchain_gates
discover_import_gate_tasks c =
    matrix_gates c ++ toolchain_gates c.build_deps_local c.toolchain_outpaths_map
