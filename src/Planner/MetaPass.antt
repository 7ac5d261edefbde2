-- ===== src/Planner/MetaPass.antt =====
-- The meta pass keeps that every id in the extras is a task, and mints only gates.
use asm_dataset_nix.Prelude.{
  string_eq, pair_eq, ◌≡◌, refl, inl, inr, true, Option, none, some, List, [], ◌∷◌, ◌++◌, contains,
  All, All-append, All-map, ◌==◌, String, arith, ==_iff, by_guard, Bool-cases,
}
use asm_dataset_nix.Prelude.Dict.{Dict, get, or_else}
use asm_dataset_nix.StreamedSpawn.Codec.{Phase4Descriptor}
use asm_dataset_nix.Planner.Descriptors.{Spec}
use asm_dataset_nix.Planner.Shapes.{
  Ident, RawIdent, coerce_ident, ident_to_str, MetaDrv, one_drv, by_family, MetaTemplate,
}
use asm_dataset_nix.Planner.Cell.{TemplateGraph, variant_toolchain_dep}
use asm_dataset_nix.Planner.Meta.{
  Position, meta_descriptor, ArchLabels, MetaInputs, MetaState, labels_of, first_spec,
  resolve_toolchain_for_archs, has_task, with_descriptor, process_toolchain, process_plain,
  process_position, cross_arch_position, process_cross_arch, group_by_family, family_position,
  process_group, process_families, process_family, process_node, process_nodes, process_metas,
  no_metas, plan_meta_for_binary,
}
use asm_dataset_nix.Planner.Gates.{IsGate, ids}
use asm_dataset_nix.Planner.CellGates.{variant_toolchain_dep-known}
use asm_dataset_nix.Planner.Extras.{
  AllExtras, add_to_extras-All, IsTask, IsTask-append_left, IsTask-append_right,
}

with_descriptor_lem :
    (d : Phase4Descriptor) (ds : List Phase4Descriptor)
    → IsGate d
    → All IsGate ds
    → All IsGate (with_descriptor d ds)
      × IsTask (with_descriptor d ds) d.task_id
      × ((t : String) → IsTask ds t → IsTask (with_descriptor d ds) t)
unfolding with_descriptor has_task
with_descriptor_lem d ds g gs = elim (Bool-cases (contains d.task_id (ids ds))) [
  | inl there ↦ rw there (gs, there, λ t h. h)
  | inr missing ↦ rw missing (
    All-append IsGate ds (d ∷ []) gs (g, tt),
    IsTask-append_right ds (d ∷ []) d.task_id (ground (arith, (==_iff d.task_id d.task_id).1 refl)),
    λ t h. IsTask-append_left ds (d ∷ []) t h,
  )
]

module _ (Q : String → Type 0) (g : TemplateGraph) (i : MetaInputs)
    (known : (t : String) → contains t i.known_task_ids ≡ true → Q t) where
  pub record MetaOk (s : MetaState) : Type 0 where
    pub gates : All IsGate s.meta_descriptors
    pub deps : AllExtras (IsTask s.meta_descriptors) s.extra_variant_deps
    pub compilers : AllExtras Q s.toolchain_meta_extras

  resolve-All : (archs : List String) → All Q (resolve_toolchain_for_archs g i archs)
  unfolding resolve_toolchain_for_archs
  resolve-All [] = tt
  resolve-All (arch ∷ archs) =
      by_spec (resolve-All archs) (first_spec i arch (labels_of i.arch_to_labels arch))
    where
      rest : List String
      rest = resolve_toolchain_for_archs g i archs

      by_dep :
          All Q rest
          → (o : Option String) → ((t : String) → o ≡ some t → contains t i.known_task_ids ≡ true)
          → All Q (elim o [ none ↦ rest | some task_id ↦ task_id ∷ rest ])
      by_dep r none k = r
      by_dep r (some t) k = (known t (k t refl), r)

      by_spec :
          All Q rest
          → (o : Option Spec)
          → All Q (elim o [
            | none ↦ rest
            | some spec ↦ elim (variant_toolchain_dep g spec i.sys_name i.known_task_ids) [
              | none ↦ rest
              | some task_id ↦ task_id ∷ rest
            ]
          ])
      by_spec r none = r
      by_spec r (some spec) =
          by_dep r (variant_toolchain_dep g spec i.sys_name i.known_task_ids)
            (λ t e. variant_toolchain_dep-known g spec i.sys_name i.known_task_ids t e)

  process_toolchain-MetaOk :
      (p : Position) (s : MetaState) → MetaOk s → MetaOk (process_toolchain g i p s)
  unfolding process_toolchain
  process_toolchain-MetaOk p s m = record {
    gates = m.gates;
    deps = m.deps;
    compilers =
        add_to_extras-All Q i.arch_to_labels p.target_archs
          (resolve_toolchain_for_archs g i p.target_archs) s.toolchain_meta_extras
          (resolve-All p.target_archs) m.compilers;
  }

  process_plain-MetaOk : (p : Position) (s : MetaState) → MetaOk s → MetaOk (process_plain i p s)
  unfolding process_plain meta_descriptor
  process_plain-MetaOk p s m =
      let (gates, there, keep) =
        with_descriptor_lem (meta_descriptor i.binary i.sys_name p) s.meta_descriptors
          (refl, refl, refl) m.gates in
      record {
        gates = gates;
        deps =
            add_to_extras-All _ i.arch_to_labels p.target_archs (p.task_id ∷ [])
              s.extra_variant_deps (there, tt)
              (λ k. All-map keep (or_else [] (get k s.extra_variant_deps)) (m.deps k));
        compilers = m.compilers;
      }

  process_position-MetaOk :
      (p : Position) (s : MetaState) → MetaOk s → MetaOk (process_position g i p s)
  unfolding process_position
  process_position-MetaOk p s m =
      let s' = record s { meta_skip_idents = s.meta_skip_idents ++ p.ident_str ∷ [] } in
      let m' : MetaOk s' = record { gates = m.gates; deps = m.deps; compilers = m.compilers } in
      by_guard MetaOk (contains p.ident_str i.toolchain_drv_idents) _ _
        (λ _. process_toolchain-MetaOk p s' m')
        (λ _.
          by_guard MetaOk (g.is_source_terminal (g.drv_role p.role)) _ _ (λ _. m')
            (λ _. process_plain-MetaOk p s' m'))

  process_cross_arch-MetaOk :
      (role : String) (drv : RawIdent) (archs : List String) (s : MetaState)
      → MetaOk s
      → MetaOk (process_cross_arch g i role drv archs s)
  unfolding process_cross_arch
  process_cross_arch-MetaOk role drv archs s m = by_ident (coerce_ident drv)
    where
      by_ident :
          (o : Option Ident)
          → MetaOk (elim o [
            | none ↦ s
            | some ident ↦
                process_position g i (cross_arch_position role (ident_to_str ident) archs) s
          ])
      by_ident none = m
      by_ident (some ident) = process_position-MetaOk _ s m

  process_group-MetaOk :
      (role family ident_str : String) (archs : List String) (s : MetaState)
      → MetaOk s
      → MetaOk (process_group g i role family ident_str archs s)
  unfolding process_group
  process_group-MetaOk role family ident_str [] s m = m
  process_group-MetaOk role family ident_str (a ∷ archs) s m =
      process_position-MetaOk (family_position role family ident_str (a ∷ archs)) s m

  process_families-MetaOk :
      (role : String) (groups : ArchLabels) (drvs : Dict String RawIdent) (s : MetaState)
      → MetaOk s
      → MetaOk (process_families g i role groups drvs s)
  unfolding process_families
  process_families-MetaOk role groups [] s m = m
  process_families-MetaOk role groups ((family, raw) ∷ more) s m =
      process_families-MetaOk role groups more _ (by_ident (coerce_ident raw))
    where
      by_ident :
          (o : Option Ident)
          → MetaOk (elim o [
            | none ↦ s
            | some ident ↦
                process_group g i role family (ident_to_str ident) (labels_of groups family) s
          ])
      by_ident none = m
      by_ident (some ident) =
          process_group-MetaOk role family (ident_to_str ident) (labels_of groups family) s m

  process_node-MetaOk :
      (archs : List String) (role cls : String) (drv : MetaDrv) (s : MetaState)
      → MetaOk s
      → MetaOk (process_node g i archs role cls drv s)
  unfolding process_node process_family
  process_node-MetaOk archs role cls (one_drv drv) s m =
      by_guard MetaOk (cls == "cross_arch_common_dep") _ _
        (λ _. process_cross_arch-MetaOk role drv archs s m) (λ _. m)
  process_node-MetaOk archs role cls (by_family drvs) s m =
      by_guard MetaOk (cls == "cross_arch_common_dep") _ _ (λ _. m)
        (λ _.
          by_guard MetaOk (cls == "family_common_dep") _ _
            (λ _. process_families-MetaOk role (group_by_family g [] archs) drvs s m) (λ _. m))

  process_nodes-MetaOk :
      (archs roles classes : List String) (drvs : List MetaDrv) (s : MetaState)
      → MetaOk s
      → MetaOk (process_nodes g i archs roles classes drvs s)
  unfolding process_nodes
  process_nodes-MetaOk archs (role ∷ roles) (cls ∷ classes) (drv ∷ drvs) s m =
      process_nodes-MetaOk archs roles classes drvs _ (process_node-MetaOk archs role cls drv s m)
  process_nodes-MetaOk archs [] classes drvs s m = m
  process_nodes-MetaOk archs (role ∷ roles) [] drvs s m = m
  process_nodes-MetaOk archs (role ∷ roles) (cls ∷ classes) [] s m = m

  process_metas-MetaOk :
      (ms : List MetaTemplate) (s : MetaState) → MetaOk s → MetaOk (process_metas g i ms s)
  unfolding process_metas
  process_metas-MetaOk [] s m = m
  process_metas-MetaOk (t ∷ ts) s m =
      process_metas-MetaOk ts _
        (process_nodes-MetaOk t.archs t.role_at_node t.cross_arch_classification t.drv_per_node s m)

  pub plan_meta_for_binary-MetaOk : (ms : List MetaTemplate) → MetaOk (plan_meta_for_binary g i ms)
  unfolding plan_meta_for_binary get
  plan_meta_for_binary-MetaOk ms =
      process_metas-MetaOk ms no_metas (record { gates = tt; deps = λ k. tt; compilers = λ k. tt })
