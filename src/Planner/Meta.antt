-- ===== src/Planner/Meta.antt =====
-- plan_meta.py of dependency_graph_planner: the common dependencies that several archs share.
use asm_dataset_nix.Prelude.{
  string_eq, pair_eq, map, Bool, Option, none, some, List, [], ◌∷◌, ◌++◌, contains, ◌==◌,
  if◌then◌else◌, String,
}
use asm_dataset_nix.Prelude.Int.{pos}
use asm_dataset_nix.Prelude.Dict.{Dict, get, put, or_else}
use asm_dataset_nix.Json.{str}
use asm_dataset_nix.StreamedSpawn.Codec.{Phase4Descriptor}
use asm_dataset_nix.Planner.Descriptors.{Spec, texts}
use asm_dataset_nix.Planner.Shapes.{
  RawIdent, coerce_ident, ident_to_str, VariantArray, CellKey, MetaDrv, one_drv, by_family,
  MetaTemplate,
}
use asm_dataset_nix.Planner.Cell.{TemplateGraph, variant_toolchain_dep}

unfoldable pub cross_arch_task_id : String → String
cross_arch_task_id ident_str = texts ("build_common_dep__cross_arch__" ∷ ident_str ∷ [])

unfoldable pub family_task_id : String → String → String
family_task_id family ident_str =
    texts ("build_common_dep__family__" ∷ family ∷ "__" ∷ ident_str ∷ [])

-- One position of a template, as it is handed to `_process_position`.
pub record Position : Type 0 where
  pub role : String
  pub ident_str : String
  pub task_id : String
  pub name_suffix : String
  pub scope : String
  pub target_archs : List String

unfoldable pub meta_descriptor : String → String → Position → Phase4Descriptor
meta_descriptor binary sys_name p = record {
  kind = "build_common_dep";
  task_id = p.task_id;
  name = texts ("build_common_dep__" ∷ binary ∷ "__" ∷ p.name_suffix ∷ []);
  payload =
      ("sys", str sys_name)
      ∷ ("binary", str binary)
      ∷ ("arch", str p.scope)
      ∷ ("node_name", str p.role)
      ∷ ("ident", str p.ident_str)
      ∷ ("attr", str p.ident_str)
      ∷ [];
  depends_on = [];
  build_compilers_depends_on = [];
  priority_hint = pos 10;
}

abbrev pub ArchLabels : Type 0
ArchLabels = Dict String (List String)

abbrev pub Extras : Type 0
Extras = Dict (String × String) (List String)

-- The loop of `_arch_to_labels_from_variant_arrays`.
unfoldable pub arch_to_labels_from : ArchLabels → Dict CellKey VariantArray → ArchLabels
arch_to_labels_from out [] = out
arch_to_labels_from out ((key, arr) ∷ more) =
    arch_to_labels_from (put key.1 (or_else [] (get key.1 out) ++ arr.variants) out) more

-- What `_plan_meta_for_binary` only reads.
pub record MetaInputs : Type 0 where
  pub binary : String
  pub sys_name : String
  pub arch_to_labels : ArchLabels
  pub variant_lookup : Dict (String × String) Spec
  pub toolchain_drv_idents : List String
  pub known_task_ids : List String

pub record MetaState : Type 0 where
  pub meta_descriptors : List Phase4Descriptor
  pub extra_variant_deps : Extras
  pub meta_skip_idents : List String
  pub toolchain_meta_extras : Extras

-- `arch_to_labels.get(arch, ())`
abbrev pub labels_of : ArchLabels → String → List String
labels_of m arch = or_else [] (get arch m)

-- The representative variant of an arch, by its first label.
unfoldable pub first_spec : MetaInputs → String → List String → Option Spec
first_spec i arch [] = none
first_spec i arch (label ∷ labels) = get (arch, label) i.variant_lookup

unfoldable pub resolve_toolchain_for_archs : TemplateGraph → MetaInputs → List String → List String
unfolding first_spec get
resolve_toolchain_for_archs g i [] = []
resolve_toolchain_for_archs g i (arch ∷ archs) =
    let rest = resolve_toolchain_for_archs g i archs in
    elim (first_spec i arch (labels_of i.arch_to_labels arch)) [
      | none ↦ rest
      | some spec ↦ elim (variant_toolchain_dep g spec i.sys_name i.known_task_ids) [
        | none ↦ rest
        | some task_id ↦ task_id ∷ rest
      ]
    ]

-- `extras.setdefault((arch, label), set()).update(task_ids)` for each label
unfoldable pub add_for_labels : String → List String → List String → Extras → Extras
unfolding get put
add_for_labels arch task_ids [] extras = extras
add_for_labels arch task_ids (label ∷ labels) extras =
    add_for_labels arch task_ids labels
      (put (arch, label) (or_else [] (get (arch, label) extras) ++ task_ids) extras)

unfoldable pub add_for_archs : ArchLabels → List String → List String → Extras → Extras
unfolding add_for_labels
add_for_archs labels task_ids [] extras = extras
add_for_archs labels task_ids (arch ∷ archs) extras =
    add_for_archs labels task_ids archs
      (add_for_labels arch task_ids (labels_of labels arch) extras)

-- `_add_to_extras`
unfoldable pub add_to_extras : ArchLabels → List String → List String → Extras → Extras
unfolding add_for_archs
add_to_extras labels archs [] extras = extras
add_to_extras labels archs (t ∷ ts) extras = add_for_archs labels (t ∷ ts) archs extras

-- `any(d.task_id == task_id for d in meta_descriptors)`
unfoldable pub has_task : String → List Phase4Descriptor → Bool
has_task task_id ds = contains task_id (map (λ d. d.task_id) ds)

-- The descriptor is added unless its task is there.
unfoldable pub with_descriptor : Phase4Descriptor → List Phase4Descriptor → List Phase4Descriptor
unfolding has_task
with_descriptor d ds = if has_task d.task_id ds then ds else ds ++ d ∷ []

-- A position that is a toolchain.
unfoldable pub process_toolchain : TemplateGraph → MetaInputs → Position → MetaState → MetaState
unfolding add_to_extras resolve_toolchain_for_archs
process_toolchain g i p s = record s {
  toolchain_meta_extras =
      add_to_extras i.arch_to_labels p.target_archs (resolve_toolchain_for_archs g i p.target_archs)
        s.toolchain_meta_extras;
}

-- A position that gets a task.
unfoldable pub process_plain : MetaInputs → Position → MetaState → MetaState
unfolding with_descriptor add_to_extras meta_descriptor
process_plain i p s = record s {
  meta_descriptors = with_descriptor (meta_descriptor i.binary i.sys_name p) s.meta_descriptors;
  extra_variant_deps =
      add_to_extras i.arch_to_labels p.target_archs (p.task_id ∷ []) s.extra_variant_deps;
}

-- `_process_position`
unfoldable pub process_position : TemplateGraph → MetaInputs → Position → MetaState → MetaState
unfolding process_toolchain process_plain
process_position g i p s =
    let s' = record s { meta_skip_idents = s.meta_skip_idents ++ p.ident_str ∷ [] } in
    if contains p.ident_str i.toolchain_drv_idents
    then process_toolchain g i p s'
    else if g.is_source_terminal (g.drv_role p.role)
    then s'
    else process_plain i p s'

-- `_process_cross_arch` for an ident that could be read.
abbrev pub cross_arch_position : String → String → List String → Position
cross_arch_position role ident_str archs = record {
  role = role;
  ident_str = ident_str;
  task_id = cross_arch_task_id ident_str;
  name_suffix = texts ("cross_arch__" ∷ role ∷ []);
  scope = "cross_arch";
  target_archs = archs;
}

unfoldable pub process_cross_arch :
    TemplateGraph → MetaInputs → String → RawIdent → List String → MetaState → MetaState
unfolding process_position
process_cross_arch g i role drv archs s = elim (coerce_ident drv) [
  | none ↦ s
  | some ident ↦ process_position g i (cross_arch_position role (ident_to_str ident) archs) s
]

-- `archs_by_family`
unfoldable pub group_by_family : TemplateGraph → ArchLabels → List String → ArchLabels
unfolding get put
group_by_family g groups [] = groups
group_by_family g groups (arch ∷ archs) =
    let family = or_else "other" (get arch g.arch_families) in
    group_by_family g (put family (labels_of groups family ++ arch ∷ []) groups) archs

abbrev pub family_position : String → String → String → List String → Position
family_position role family ident_str archs = record {
  role = role;
  ident_str = ident_str;
  task_id = family_task_id family ident_str;
  name_suffix = texts ("family__" ∷ family ∷ "__" ∷ role ∷ []);
  scope = texts ("family__" ∷ family ∷ []);
  target_archs = archs;
}

-- `if not fam_archs: continue`
unfoldable pub process_group :
    TemplateGraph → MetaInputs → String → String → String → List String → MetaState → MetaState
unfolding process_position
process_group g i role family ident_str [] s = s
process_group g i role family ident_str (a ∷ archs) s =
    process_position g i (family_position role family ident_str (a ∷ archs)) s

-- The last loop of `_process_family`.
unfoldable pub process_families :
    TemplateGraph → MetaInputs → String → ArchLabels → Dict String RawIdent → MetaState → MetaState
unfolding process_group
process_families g i role groups [] s = s
process_families g i role groups ((family, raw) ∷ more) s =
    process_families g i role groups more (elim (coerce_ident raw) [
      | none ↦ s
      | some ident ↦ process_group g i role family (ident_to_str ident) (labels_of groups family) s
    ])

unfoldable pub process_family :
    TemplateGraph → MetaInputs → String → Dict String RawIdent → List String → MetaState → MetaState
unfolding process_families group_by_family
process_family g i role drv_map archs s =
    process_families g i role (group_by_family g [] archs) drv_map s

-- One round of the inner loop of `_plan_meta_for_binary`. A mapping is no ident.
unfoldable pub process_node :
    TemplateGraph → MetaInputs → List String → String → String → MetaDrv → MetaState → MetaState
unfolding process_cross_arch process_family
process_node g i archs role cls (one_drv drv) s =
    if cls == "cross_arch_common_dep" then process_cross_arch g i role drv archs s else s
process_node g i archs role cls (by_family drv_map) s =
    if cls == "cross_arch_common_dep"
    then s
    else if cls == "family_common_dep"
    then process_family g i role drv_map archs s
    else s

-- The positions of `_iter_meta_positions`: as many as all three lists have.
unfoldable pub process_nodes :
    TemplateGraph
    → MetaInputs
    → List String
    → List String
    → List String
    → List MetaDrv
    → MetaState
    → MetaState
unfolding process_node
process_nodes g i archs (role ∷ roles) (cls ∷ classes) (drv ∷ drvs) s =
    process_nodes g i archs roles classes drvs (process_node g i archs role cls drv s)
process_nodes g i archs [] classes drvs s = s
process_nodes g i archs (role ∷ roles) [] drvs s = s
process_nodes g i archs (role ∷ roles) (cls ∷ classes) [] s = s

unfoldable pub process_metas :
    TemplateGraph → MetaInputs → List MetaTemplate → MetaState → MetaState
unfolding process_nodes
process_metas g i [] s = s
process_metas g i (m ∷ ms) s =
    process_metas g i ms
      (process_nodes g i m.archs m.role_at_node m.cross_arch_classification m.drv_per_node s)

abbrev pub no_metas : MetaState
no_metas = record {
  meta_descriptors = [];
  extra_variant_deps = [];
  meta_skip_idents = [];
  toolchain_meta_extras = [];
}

-- `_plan_meta_for_binary`
unfoldable pub plan_meta_for_binary : TemplateGraph → MetaInputs → List MetaTemplate → MetaState
unfolding process_metas
plan_meta_for_binary g i metas = process_metas g i metas no_metas
