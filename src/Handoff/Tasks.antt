-- ===== src/Handoff/Tasks.antt =====
-- The tasks that suit_task.py makes of manifest headers. `TaskInfo` and `TaskDep` are the
-- framework's records, with the fields that this code gives them.
use asm_dataset_nix.Prelude.{
  string_eq, ℕ, String, Bool, false, Option, none, some, List, [], ◌∷◌, ◌++◌, map, ◌==◌,
  if◌then◌else◌, ◌&&◌, ◌||◌,
}
use asm_dataset_nix.Prelude.Int.{ℤ, pos}
use asm_dataset_nix.Prelude.Dict.{Dict, get, or_else}
use asm_dataset_nix.Prelude.Result.{Result, ok, err, ◌>>=◌}
use asm_dataset_nix.Json.{Json, null, int, str, object}
use asm_dataset_nix.Partition.Envelope.{dedupe_sorted}
use asm_dataset_nix.Planner.Descriptors.{texts}
use asm_dataset_nix.StreamedSpawn.Checks.{ValueError}
use asm_dataset_nix.Handoff.TaskIds.{gate_of_task, import_tc_task_id, import_matrix_drv_task_id}
use asm_dataset_nix.Handoff.Headers.{ManifestHeader, get_true, get_value, text_of, is_true}

pub data Phase : Type 0 where
  matrix_eval dependency_graph build_compilers build : Phase

-- What is raised: a `ValueError` of the decoder or of this code, an `AttributeError` for an
-- outpath that is no text, the `RuntimeError`s, and what `spawn_tasks` of the handle raises.
pub data HandoffError : Type 0 where
  malformed : ValueError → HandoffError
  unknown_topic : String → HandoffError
  unknown_item_class : String → HandoffError
  outpath_not_text : Json → HandoffError
  no_primary_handle : HandoffError
  spawn_raised : HandoffError
  conflicting_summary : HandoffError
  no_summary : ℕ → HandoffError
  mismatch : (spawned : ℕ) (total : ℤ) → HandoffError

-- A bare text means the phase of the task itself.
pub data TaskDep : Type 0 where
  same_phase : (task_id : String) → TaskDep
  in_phase : (phase_id : Phase) (task_id : String) → TaskDep

pub record TaskInfo : Type 0 where
  pub path : String
  pub size : ℕ
  pub phase_id : Phase
  pub type_id : String
  pub affinity_id : Option Json
  pub payload : Dict String Json
  pub task_id : String
  pub task_depends_on : List TaskDep
  pub is_secondary_affine : Bool

-- The fields of `SuitTaskConfig` that this code reads: of the directory whether there is one, and of
-- `per_binary_metadata` the keys.
pub record SuitTaskConfig : Type 0 where
  pub disable_task_deps : Bool
  pub build_deps_local : Bool
  pub common_deps_affine : Bool
  pub has_matrix_eval_out_dir : Bool
  pub per_binary_metadata : List String
  pub toolchain_outpaths_map : Dict String String

unfoldable pub common_dep_gates_enabled : SuitTaskConfig → Bool
common_dep_gates_enabled c = c.common_deps_affine && c.has_matrix_eval_out_dir

-- The gates of the dependencies, before they are sorted.
abbrev pub cons_gate : Option (String × String) → List String → List String
cons_gate none gates = gates
cons_gate (some (gate_id, ident_str)) gates = gate_id ∷ gates

unfoldable pub gates_of : List String → List String
unfolding gate_of_task
gates_of [] = []
gates_of (dep ∷ deps) = cons_gate (gate_of_task dep) (gates_of deps)

unfoldable pub common_dep_gate_deps : ManifestHeader → List String
unfolding gates_of
common_dep_gate_deps h = dedupe_sorted (gates_of h.task_depends_on)

abbrev pub option_list : Option String → List String
option_list none = []
option_list (some s) = s ∷ []

-- The gate of a variant's toolchain, from `payload.get("toolchain_outpath")`.
unfoldable pub toolchain_gate : Json → Result HandoffError (List String)
unfolding import_tc_task_id
toolchain_gate (str s) = ok (if s == "" then [] else option_list (import_tc_task_id s))
toolchain_gate j = if is_true j then err (outpath_not_text j) else ok []

-- The gates of every build task, and with those of its common dependencies.
abbrev pub fixed_gates : SuitTaskConfig → List String
fixed_gates c =
    "import_common"
    ∷ ((if c.build_deps_local then "import_build_deps" ∷ [] else [])
        ++ (if c.has_matrix_eval_out_dir then "import_toolchain_drv" ∷ [] else []))

abbrev pub shared_gates : SuitTaskConfig → ManifestHeader → List String
shared_gates c h =
    fixed_gates c ++ (if common_dep_gates_enabled c then common_dep_gate_deps h else [])

module _ (format : Json → String) where
  unfoldable pub classify : ManifestHeader → Result HandoffError (Phase × String × Option Json)
  unfolding get_true get_value
  classify h =
      let bucket = λ (compiler arch : Json).
        some (str (texts (text_of format compiler ∷ "-" ∷ text_of format arch ∷ []))) in
      let by_label =
        bucket (get_value "compiler_label" (str "?") h.payload)
          (get_value "arch" (str "?") h.payload) in
      if h.item_class == "matrix_eval"
      then ok (matrix_eval, "eval", some (get_value "binary" (str "?") h.payload))
      else if h.item_class == "dependency_graph"
      then ok (dependency_graph, "dep_graph", none)
      else if h.item_class == "build_compilers"
      then ok (build_compilers, "build_compilers", by_label)
      else if h.item_class == "toolchain_validate"
      then ok (build, "toolchain_validate", by_label)
      else if h.item_class == "build_common_dep"
      then ok (build, "common_dep", none)
      else if h.item_class == "build_variant"
      then ok (
        build,
        "variant",
        bucket (get_true "compiler_id" (str "?") h.payload) (get_true "arch" (str "?") h.payload),
      )
      else err (unknown_item_class h.item_class)

  abbrev pub matrix_gate : SuitTaskConfig → Json → List String
  matrix_gate c binary =
      if c.has_matrix_eval_out_dir && is_true binary
      then import_matrix_drv_task_id (text_of format binary) ∷ []
      else []

  unfoldable pub variant_gates : SuitTaskConfig → ManifestHeader → Result HandoffError (List String)
  unfolding get import_matrix_drv_task_id
  variant_gates c h =
      if h.item_class == "build_variant"
      then (do
        gates ← toolchain_gate (or_else null (get "toolchain_outpath" h.payload))
        ok (gates ++ matrix_gate c (or_else null (get "pkg" h.payload))))
      else ok []

  -- `_header_depends_on`, with the arguments that the handler gives it.
  unfoldable pub header_depends_on :
      SuitTaskConfig → ManifestHeader → Result HandoffError (List TaskDep)
  unfolding variant_gates common_dep_gate_deps common_dep_gates_enabled
  header_depends_on c h = do
    gates ← variant_gates c h
    let is_build = h.item_class == "build_common_dep" || h.item_class == "build_variant"
    let shared = if is_build then shared_gates c h else []
    ok (
        map same_phase h.task_depends_on
        ++ (map same_phase (shared ++ gates)
            ++ map (in_phase build_compilers) h.build_compilers_depends_on))

  unfoldable pub header_to_task_info :
      SuitTaskConfig → ManifestHeader → Result HandoffError TaskInfo
  unfolding classify header_depends_on
  header_to_task_info c h = do
    place ← classify h
    deps ← if c.disable_task_deps then ok [] else header_depends_on c h
    ok (record {
      path = texts ((if h.task_id == "" then h.name else h.task_id) ∷ ".json" ∷ []);
      size = h.size;
      phase_id = place.0;
      type_id = place.1;
      affinity_id = place.2;
      payload =
          ("item_class", str h.item_class)
          ∷ ("name", str h.name)
          ∷ ("size", int (pos h.size))
          ∷ ("payload", object h.payload)
          ∷ [];
      task_id = h.task_id;
      task_depends_on = deps;
      is_secondary_affine = false;
    })

  -- The list comprehension of the handler: the first raise ends it.
  unfoldable pub task_infos_of :
      SuitTaskConfig → List ManifestHeader → Result HandoffError (List TaskInfo)
  unfolding header_to_task_info
  task_infos_of c [] = ok []
  task_infos_of c (h ∷ hs) = do
    info ← header_to_task_info c h
    rest ← task_infos_of c hs
    ok (info ∷ rest)
