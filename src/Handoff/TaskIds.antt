-- ===== src/Handoff/TaskIds.antt =====
-- The ids of the import gates: suit_task.py, and the two functions of preflight.py that it takes a
-- store hash with. `none` stands for a raised `ValueError`, which every caller catches.
use asm_dataset_nix.Prelude.{string_eq, String, Option, none, some, [], ◌∷◌, ◌==◌, if◌then◌else◌}
use asm_dataset_nix.Prelude.Dict.{or_else}
use asm_dataset_nix.Planner.Descriptors.{texts}
use asm_dataset_nix.Planner.Cell.{after_prefix}

-- The text after the first `sep`, which is not empty.
unfoldable pub after_first : String → String → Option String
unfolding after_prefix
after_first sep String.[] = none
after_first sep (String.◌∷◌ c s) = elim (after_prefix sep (String.◌∷◌ c s)) [
  | some rest ↦ some rest
  | none ↦ after_first sep s
]

-- `s.split("-", 1)[0]`
unfoldable pub before_dash : String → String
before_dash String.[] = ""
before_dash (String.◌∷◌ c s) =
    let rest = before_dash s in if String.◌∷◌ c "" == "-" then "" else String.◌∷◌ c rest

-- The text after the last `/`.
unfoldable pub after_slash : String → Option String
after_slash String.[] = none
after_slash (String.◌∷◌ c s) = elim (after_slash s) [
  | some rest ↦ some rest
  | none ↦ if String.◌∷◌ c "" == "/" then some s else none
]

-- `value or None` of a text.
abbrev pub non_empty : String → Option String
non_empty s = if s == "" then none else some s

-- The loop over the structural infixes.
unfoldable pub strip_infix : String → String
unfolding after_prefix after_first
strip_infix rest = elim (after_prefix "arch_indep__" rest) [
  | some ident_str ↦ ident_str
  | none ↦ elim (after_prefix "cross_arch__" rest) [
    | some ident_str ↦ ident_str
    | none ↦ elim (after_prefix "family__" rest) [
      | some tail ↦ or_else tail (after_first "__" tail)
      | none ↦ rest
    ]
  ]
]

-- `_ident_from_common_dep_task_id`
unfoldable pub ident_from_common_dep_task_id : String → Option String
unfolding after_prefix strip_infix
ident_from_common_dep_task_id task_id = elim (after_prefix "build_common_dep__" task_id) [
  | none ↦ none
  | some rest ↦ non_empty (strip_infix rest)
]

-- `common_dep_id_for_ident`
unfoldable pub common_dep_id_for_ident : String → Option String
unfolding before_dash
common_dep_id_for_ident ident_str = non_empty (before_dash ident_str)

-- `toolchain_id_for_outpath`
unfoldable pub toolchain_id_for_outpath : String → Option String
unfolding before_dash after_slash
toolchain_id_for_outpath outpath = non_empty (before_dash (or_else outpath (after_slash outpath)))

-- An f-string of a prefix and an id.
abbrev pub with_prefix : String → Option String → Option String
with_prefix prefix none = none
with_prefix prefix (some id) = some (texts (prefix ∷ id ∷ []))

unfoldable pub import_common_dep_task_id : String → Option String
unfolding common_dep_id_for_ident
import_common_dep_task_id ident_str =
    with_prefix "import_common_dep_" (common_dep_id_for_ident ident_str)

unfoldable pub import_tc_task_id : String → Option String
unfolding toolchain_id_for_outpath
import_tc_task_id outpath = with_prefix "import_tc_" (toolchain_id_for_outpath outpath)

unfoldable pub import_matrix_drv_task_id : String → String
import_matrix_drv_task_id binary = texts ("import_matrix_drv_" ∷ binary ∷ [])

-- The gate of a task, with the ident that it is of: the steps that `_common_dep_gate_deps` and
-- `_build_common_dep_gate_infos` share.
abbrev pub named_gate : String → Option String → Option (String × String)
named_gate ident_str none = none
named_gate ident_str (some gate_id) = some (gate_id, ident_str)

unfoldable pub gate_of_task : String → Option (String × String)
unfolding ident_from_common_dep_task_id import_common_dep_task_id
gate_of_task task_id = elim (ident_from_common_dep_task_id task_id) [
  | none ↦ none
  | some ident_str ↦ named_gate ident_str (import_common_dep_task_id ident_str)
]
