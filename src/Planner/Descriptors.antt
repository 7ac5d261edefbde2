-- ===== src/Planner/Descriptors.antt =====
-- The helpers of dependency_graph_planner/descriptors.py that mint task ids and descriptors. A
-- Python set is a list of its items in the order they came, and `sorted(set(xs))` drops what is
-- repeated.
use Prim.Native.String.{◌++◌ as text_append}
use asm_dataset_nix.Prelude.{string_eq, ℕ, String, List, [], ◌∷◌}
use asm_dataset_nix.Prelude.Int.{pos}
use asm_dataset_nix.Prelude.Dict.{Dict, get, or_else}
use asm_dataset_nix.Json.{Json, str, int}
use asm_dataset_nix.Partition.Envelope.{dedupe_sorted}
use asm_dataset_nix.StreamedSpawn.Codec.{Phase4Descriptor}

-- The text of an f-string from its parts.
abbrev pub texts : List String → String
texts [] = ""
texts (s ∷ []) = s
texts (s ∷ t ∷ rest) = text_append s (texts (t ∷ rest))

-- `variant_spec`, a mapping of names to values.
abbrev pub Spec : Type 0
Spec = Dict String Json

unfoldable pub common_dep_task_id : String → String
common_dep_task_id ident_str = texts ("build_common_dep__" ∷ ident_str ∷ [])

unfoldable pub arch_indep_task_id : String → String
arch_indep_task_id ident_str = texts ("build_common_dep__arch_indep__" ∷ ident_str ∷ [])

unfoldable pub variant_task_id : String → String → String → String
variant_task_id binary sys_name label =
    texts ("build_variant__" ∷ sys_name ∷ "__" ∷ binary ∷ "__" ∷ label ∷ [])

unfoldable pub common_dep_descriptor :
    String → String → String → ℕ → String → String → Phase4Descriptor
common_dep_descriptor binary arch sys_name node_id node_name ident_str = record {
  kind = "build_common_dep";
  task_id = common_dep_task_id ident_str;
  name = texts ("build_common_dep__" ∷ binary ∷ "__" ∷ arch ∷ "__" ∷ node_name ∷ []);
  payload =
      ("sys", str sys_name)
      ∷ ("binary", str binary)
      ∷ ("arch", str arch)
      ∷ ("node_name", str node_name)
      ∷ ("node_id", int (pos node_id))
      ∷ ("ident", str ident_str)
      ∷ ("attr", str ident_str)
      ∷ [];
  depends_on = [];
  build_compilers_depends_on = [];
  priority_hint = pos 0;
}

unfoldable pub arch_indep_descriptor : String → String → String → String → Phase4Descriptor
arch_indep_descriptor binary sys_name ident_str node_name = record {
  kind = "build_common_dep";
  task_id = arch_indep_task_id ident_str;
  name = texts ("build_common_dep__arch_indep__" ∷ binary ∷ "__" ∷ node_name ∷ []);
  payload =
      ("sys", str sys_name)
      ∷ ("binary", str binary)
      ∷ ("arch", str "arch_indep")
      ∷ ("node_name", str node_name)
      ∷ ("ident", str ident_str)
      ∷ ("attr", str ident_str)
      ∷ [];
  depends_on = [];
  build_compilers_depends_on = [];
  priority_hint = pos 0;
}

-- `variant_spec.get(key, default)`
abbrev spec_item : Spec → Json → String → String × Json
spec_item spec default key = (key, or_else default (get key spec))

unfoldable pub variant_payload : String → String → String → String → Spec → Dict String Json
unfolding get
variant_payload binary arch sys_name label spec =
    ("sys", str sys_name)
    ∷ spec_item spec (str binary) "pkg"
    ∷ ("arch", str arch)
    ∷ ("label", str label)
    ∷ spec_item spec (str "") "drv"
    ∷ spec_item spec (str "") "variant_dir"
    ∷ spec_item spec (str "") "metadata_name"
    ∷ spec_item spec (str "") "compiler_id"
    ∷ spec_item spec (str "") "compiler_family"
    ∷ spec_item spec (str "") "compiler_version"
    ∷ spec_item spec (str "") "optimization"
    ∷ spec_item spec (str "") "flag_set"
    ∷ spec_item spec (str "") "hardening"
    ∷ spec_item spec (str "") "sanitizer"
    ∷ spec_item spec (str "") "march"
    ∷ spec_item spec (int (pos 0)) "tier"
    ∷ spec_item spec (str "") "toolchain_outpath"
    ∷ []

unfoldable pub variant_descriptor :
    String → String → String → String → Spec → List String → List String → Phase4Descriptor
unfolding variant_payload
variant_descriptor binary arch sys_name label spec depends_on compilers = record {
  kind = "build_variant";
  task_id = variant_task_id binary sys_name label;
  name = texts ("build_variant__" ∷ binary ∷ "__" ∷ label ∷ []);
  payload = variant_payload binary arch sys_name label spec;
  depends_on = dedupe_sorted depends_on;
  build_compilers_depends_on = dedupe_sorted compilers;
  priority_hint = pos 0;
}
