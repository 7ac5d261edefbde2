-- ===== src/StreamedSpawn/Codec.antt =====
-- `Phase4Descriptor` (dependency_graph_planner/descriptors.py) and its codec in streamed_spawn.py.
-- A payload is a dict of JSON values, so that `json.dumps` never raises `TypeError` on it.
use asm_dataset_nix.Prelude.{string_eq, String, none, some, List, [], ◌∷◌}
use asm_dataset_nix.Prelude.Int.{ℤ}
use asm_dataset_nix.Prelude.Dict.{Dict, get}
use asm_dataset_nix.Prelude.Result.{ok, err, ◌>>=◌, ◌>>◌}
use asm_dataset_nix.Json.{Json, int, str, obj, object, str_array, field_dict}
use asm_dataset_nix.StreamedSpawn.Checks.{
  Checked, missing_fields, not_a_dict, wrong_type, check_keys, check_str, check_int, check_str_list,
}

pub record Phase4Descriptor : Type 0 where
  pub kind : String
  pub task_id : String
  pub name : String
  pub payload : Dict String Json
  pub depends_on : List String
  pub build_compilers_depends_on : List String
  pub priority_hint : ℤ

abbrev pub descriptor_fields : List String
descriptor_fields =
    "kind" ∷ "task_id" ∷ "name" ∷ "payload" ∷ "depends_on" ∷ "build_compilers_depends_on"
    ∷ "priority_hint" ∷ []

unfoldable pub encode_descriptor : Phase4Descriptor → Json
encode_descriptor d = object (
    ("kind", str d.kind)
    ∷ ("task_id", str d.task_id)
    ∷ ("name", str d.name)
    ∷ ("payload", object d.payload)
    ∷ ("depends_on", str_array d.depends_on)
    ∷ ("build_compilers_depends_on", str_array d.build_compilers_depends_on)
    ∷ ("priority_hint", int d.priority_hint)
    ∷ [])

-- `obj[k]`, where the keys have been checked: `KeyError` is no outcome of the callers.
unfoldable pub item : String → Dict String Json → Checked Json
unfolding get
item k d = elim (get k d) [ some v ↦ ok v | none ↦ err (missing_fields (k ∷ [])) ]

-- `isinstance(payload, dict)`; the keys of a JSON object are texts.
unfoldable pub check_dict : String → Json → Checked (Dict String Json)
check_dict field (obj d) = ok (field_dict d)
check_dict field _ = err (wrong_type field)

unfoldable pub decode_descriptor : Json → Checked Phase4Descriptor
unfolding check_keys item check_str check_int check_str_list check_dict
decode_descriptor (obj fs) = do
  let d = field_dict fs
  check_keys d descriptor_fields
  kind ← item "kind" d >>= check_str "kind"
  task_id ← item "task_id" d >>= check_str "task_id"
  name ← item "name" d >>= check_str "name"
  payload ← item "payload" d >>= check_dict "payload"
  depends_on ← item "depends_on" d >>= check_str_list "depends_on"
  compilers ← item "build_compilers_depends_on" d >>= check_str_list "build_compilers_depends_on"
  priority_hint ← item "priority_hint" d >>= check_int "priority_hint"
  ok (record {
    kind = kind;
    task_id = task_id;
    name = name;
    payload = payload;
    depends_on = depends_on;
    build_compilers_depends_on = compilers;
    priority_hint = priority_hint;
  })
decode_descriptor _ = err not_a_dict
