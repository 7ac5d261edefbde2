-- ===== src/Planner/Binary.antt =====
-- The plan of one binary: gates first, then variants that wait for gates of the plan.
use asm_dataset_nix.Prelude.{
  string_eq, pair_eq, ◌≡◌, inl, inr, ◌∙◌, sym, ap, true, [], ◌∷◌, ◌++◌, contains, All, All-append,
  All-map, String,
}
use mathlib.Core.List.{append_assoc}
use asm_dataset_nix.Prelude.Order.{TotalOrder}
use asm_dataset_nix.Prelude.Sorting.{sorted_by, sorted_by-All}
use asm_dataset_nix.Prelude.Dict.{Dict, get, or_else, values}
use asm_dataset_nix.Prelude.Contains.{contains-All, contains-map-sorted_by}
use asm_dataset_nix.StreamedSpawn.Codec.{Phase4Descriptor}
use asm_dataset_nix.Planner.Shapes.{VariantArray, CellKey}
use asm_dataset_nix.Planner.Cell.{
  TemplateGraph, CellInputs, resolve_arch_indep_descriptors, plan_cell,
}
use asm_dataset_nix.Planner.Total.{
  BinaryPlanInput, Parts, Plan, by_name, by_arch_name, by_arch_label, two, three, plan_cells,
  plan_metas, cell_inputs, meta_inputs, plan_parts, ordered_parts,
}
use asm_dataset_nix.Planner.Gates.{IsGate, Waits, ids, arch_indep_all-IsGate}
use asm_dataset_nix.Planner.CellGates.{Fits, plan_cell-CellOk}
use asm_dataset_nix.Planner.Extras.{
  IsTask, IsTask-append_left, IsTask-append_right, IsTask-append_cases,
}
use asm_dataset_nix.Planner.MetaPass.{MetaOk, plan_meta_for_binary-MetaOk}

-- `ds` splits into gates and variants that wait for them.
pub record IsPlan (Q : String → Type 0) (ds : Plan) : Type 0 where
  pub gates : Plan
  pub variants : Plan
  pub all_in : ds ≡ gates ++ variants
  pub gates_ok : All IsGate gates
  pub variants_ok : All (Waits (IsTask gates) Q) variants

IsTask-sorted :
    {K : Type 0} (o : TotalOrder K) (key : Phase4Descriptor → K) (ds : Plan) (t : String)
    → IsTask ds t
    → IsTask (sorted_by o key ds) t
IsTask-sorted o key ds t h = contains-map-sorted_by o key (λ d. d.task_id) t ds ∙ h

IsTask-append_cong :
    (ds ds' es es' : Plan) (t : String)
    → (IsTask ds t → IsTask ds' t)
    → (IsTask es t → IsTask es' t)
    → IsTask (ds ++ es) t
    → IsTask (ds' ++ es') t
IsTask-append_cong ds ds' es es' t f g h = elim (IsTask-append_cases ds es t h) [
  | inl there ↦ IsTask-append_left ds' es' t (f there)
  | inr there ↦ IsTask-append_right ds' es' t (g there)
]

module _ (P Q : String → Type 0) (g : TemplateGraph) (c : CellInputs) (f : Fits P Q g c)
    (before : All P c.arch_indep_dep_task_ids) where
  plan_cells-ok :
      (cells : Dict CellKey VariantArray)
      → All IsGate (plan_cells g c cells).0
        × (((t : String) → IsTask (plan_cells g c cells).0 t → P t)
            → All (Waits P Q) (plan_cells g c cells).1)
  unfolding plan_cells
  plan_cells-ok [] = (tt, λ h. tt)
  plan_cells-ok ((key, arr) ∷ more) =
      let (gates, variants) = plan_cell-CellOk P Q g c key arr in
      let (gates', variants') = plan_cells-ok more in
      let here = (plan_cell g c key arr).0 in
      let later = (plan_cells g c more).0 in
      (
        All-append IsGate here later gates gates',
        λ h.
            All-append (Waits P Q) (plan_cell g c key arr).1 (plan_cells g c more).1
              (variants f before
                (contains-All P (ids here) (λ t m. h t (IsTask-append_left here later t m))))
              (variants' (λ t m. h t (IsTask-append_right here later t m))),
      )

module _ (g : TemplateGraph) (sys_name : String) (inp : BinaryPlanInput) (Q : String → Type 0)
    (known : (t : String) → contains t (values inp.toolchain_task_ids) ≡ true → Q t) where
  plan_metas-MetaOk : MetaOk Q g (meta_inputs sys_name inp) known (plan_metas g sys_name inp)
  unfolding plan_metas
  plan_metas-MetaOk =
      plan_meta_for_binary-MetaOk Q g (meta_inputs sys_name inp) known
        (or_else [] (get inp.binary inp.streaming_result.meta_templates))

  -- What the parts of the plan are, before they are sorted.
  abbrev gates_of : Parts → Plan
  gates_of p = p.arch_indep ++ (p.meta ++ p.common_deps)

  record PartsOk (p : Parts) : Type 0 where
    arch_indep_ok : All IsGate p.arch_indep
    meta_ok : All IsGate p.meta
    common_deps_ok : All IsGate p.common_deps
    variants_ok : All (Waits (IsTask (gates_of p)) Q) p.variants

  plan_parts-PartsOk : PartsOk (plan_parts g sys_name inp)
  unfolding plan_parts resolve_arch_indep_descriptors
  plan_parts-PartsOk =
      let p = plan_parts g sys_name inp in
      let P = λ (t : String). IsTask (gates_of p) t in
      let metas = plan_metas g sys_name inp in
      let m = plan_metas-MetaOk in
      let c = cell_inputs sys_name inp (ids p.arch_indep) metas in
      let of_rest : (t : String) → IsTask (p.meta ++ p.common_deps) t → P t =
        λ t h. IsTask-append_right p.arch_indep (p.meta ++ p.common_deps) t h in
      let f : Fits P Q g c = record {
        extra = λ k.
            All-map (λ t h. of_rest t (IsTask-append_left p.meta p.common_deps t h))
              (or_else [] (get k metas.extra_variant_deps)) (m.deps k);
        compilers = m.compilers;
        known = known;
      } in
      let before : All P (ids p.arch_indep) =
        contains-All P (ids p.arch_indep)
          (λ t h. IsTask-append_left p.arch_indep (p.meta ++ p.common_deps) t h) in
      let cells = plan_cells-ok P Q g c f before inp.streaming_result.variant_arrays in
      record {
        arch_indep_ok = arch_indep_all-IsGate g inp.binary sys_name _;
        meta_ok = m.gates;
        common_deps_ok = cells.0;
        variants_ok = cells.1 (λ t h. of_rest t (IsTask-append_right p.meta p.common_deps t h));
      }

  -- Sorting the parts keeps their tasks.
  IsTask-ordered :
      (p : Parts) (t : String)
      → IsTask (gates_of p) t
      → IsTask
          (sorted_by two by_name p.arch_indep
            ++ (sorted_by three by_arch_name p.meta ++ sorted_by three by_arch_name p.common_deps))
          t
  IsTask-ordered p t h =
      IsTask-append_cong p.arch_indep _ (p.meta ++ p.common_deps) _ t
        (IsTask-sorted two by_name p.arch_indep t)
        (IsTask-append_cong p.meta _ p.common_deps _ t (IsTask-sorted three by_arch_name p.meta t)
          (IsTask-sorted three by_arch_name p.common_deps t))
        h

  pub ordered_parts-IsPlan : IsPlan Q (ordered_parts (plan_parts g sys_name inp))
  unfolding ordered_parts
  ordered_parts-IsPlan =
      let p = plan_parts g sys_name inp in
      let ok = plan_parts-PartsOk in
      let first = sorted_by two by_name p.arch_indep in
      let second = sorted_by three by_arch_name p.meta in
      let third = sorted_by three by_arch_name p.common_deps in
      let last = sorted_by two by_arch_label p.variants in
      record {
        gates = first ++ (second ++ third);
        variants = last;
        all_in =
            ap (λ t. first ++ t) (sym (append_assoc second third last))
            ∙ sym (append_assoc first (second ++ third) last);
        gates_ok =
            All-append IsGate first (second ++ third)
              (sorted_by-All two by_name IsGate p.arch_indep ok.arch_indep_ok)
              (All-append IsGate second third
                (sorted_by-All three by_arch_name IsGate p.meta ok.meta_ok)
                (sorted_by-All three by_arch_name IsGate p.common_deps ok.common_deps_ok));
        variants_ok =
            All-map (λ d w. (w.0, All-map (IsTask-ordered p) d.depends_on w.1, w.2)) last
              (sorted_by-All two by_arch_label _ p.variants ok.variants_ok);
      }
