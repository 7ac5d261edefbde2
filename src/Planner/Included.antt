-- ===== src/Planner/Included.antt =====
-- Every variant that is to be built is in the plan.
use asm_dataset_nix.Prelude.{
  Any-map, string_eq, pair_eq, ◌≡◌, ◌⊎◌, inl, inr, refl, ap, some, List, [], ◌∷◌, ◌++◌, Member,
  ◌==◌, String, Any, Any-append_left, Any-append_right, by_guard,
}
use asm_dataset_nix.Prelude.Int.{int_eq}
use asm_dataset_nix.Prelude.Order.{str_order}
use asm_dataset_nix.Prelude.Sorting.{sorted_by, sorted_by-Any}
use asm_dataset_nix.Prelude.Result.{Result, ok, err, ◌>>=◌, ◌>>◌}
use asm_dataset_nix.Prelude.Dict.{get, values}
use asm_dataset_nix.StreamedSpawn.Codec.{Phase4Descriptor}
use asm_dataset_nix.Planner.Graph.{Template}
use asm_dataset_nix.Planner.Cycle.{Failure, check_no_cycles}
use asm_dataset_nix.Planner.Descriptors.{Spec}
use asm_dataset_nix.Planner.Shapes.{VariantArray, CellKey}
use asm_dataset_nix.Planner.Cell.{TemplateGraph, template_at, resolve_arch_indep_descriptors}
use asm_dataset_nix.Planner.Total.{
  by_name, by_arch_name, by_arch_label, two, three, BinaryPlanInput, Plan, Merged, merge_one, merge,
  merge_all, plan_of, cell_inputs, plan_metas, plan_parts, ordered_parts, plan_phase4_for_binary,
  plan_phase4_from_graph,
}
use asm_dataset_nix.Planner.Coverage.{IsVariantOf, plan_cell-covers, plan_cells-covers}

-- A descriptor that is no common dependency stays in the merged plan.
module _ (P : Phase4Descriptor → Type 0)
    (k : (d : Phase4Descriptor) → P d → d.kind ≡ "build_variant") where
  merge_one-kept : (d : Phase4Descriptor) (m : Merged) → Any P m.1 → Any P (merge_one d m).1
  unfolding merge_one
  merge_one-kept d m h =
      by_guard (λ (m' : Merged). Any P m'.1) (d.kind == "build_common_dep") _ _ (λ e. h)
        (λ e. Any-append_left P m.1 (d ∷ []) h)

  merge_one-added : (d : Phase4Descriptor) (m : Merged) → P d → Any P (merge_one d m).1
  unfolding merge_one
  merge_one-added d m p =
      by_guard (λ (m' : Merged). Any P m'.1) (d.kind == "build_common_dep") _ _
        (λ e. absurd (cc (ap (λ s. s == "build_common_dep") (k d p), e)))
        (λ e. Any-append_right P m.1 (d ∷ []) (inl p))

  merge-Any : (ds : Plan) (m : Merged) → Any P m.1 ⊎ Any P ds → Any P (merge m ds).1
  unfolding merge
  merge-Any [] m (inl h) = h
  merge-Any [] m (inr h) = absurd h
  merge-Any (d ∷ ds) m (inl h) = merge-Any ds (merge_one d m) (inl (merge_one-kept d m h))
  merge-Any (d ∷ ds) m (inr (inl p)) = merge-Any ds (merge_one d m) (inl (merge_one-added d m p))
  merge-Any (d ∷ ds) m (inr (inr h)) = merge-Any ds (merge_one d m) (inr h)

  merge_all-Any :
      (g : TemplateGraph) (sys_name : String) (inputs : List BinaryPlanInput) (m m' : Merged)
      → merge_all g sys_name inputs m ≡ ok m'
      → Any P m.1 ⊎ Any (λ inp. Any P (ordered_parts (plan_parts g sys_name inp))) inputs
      → Any P m'.1
  unfolding merge_all plan_phase4_for_binary
  merge_all-Any g sys_name [] m m' e (inl h) = let same : m ≡ m' = cc e in rw (← same) h
  merge_all-Any g sys_name [] m m' e (inr h) = absurd h
  merge_all-Any g sys_name (inp ∷ inputs) m m' e h =
      checked (λ m2. merge_all-Any g sys_name inputs m2 m')
        (check_no_cycles inp.streaming_result.templates) e
    where
      planned : Plan
      planned = ordered_parts (plan_parts g sys_name inp)

      checked :
          ((m2 : Merged)
            → merge_all g sys_name inputs m2 ≡ ok m'
            → Any P m2.1 ⊎ Any (λ i. Any P (ordered_parts (plan_parts g sys_name i))) inputs
            → Any P m'.1)
          → (r : Result Failure (Unit {0}))
          → ((r >> ok planned) >>= λ ds. merge_all g sys_name inputs (merge m ds)) ≡ ok m'
          → Any P m'.1
      checked ih (ok _) e' = ih (merge m planned) e' (elim h [
        | inl there ↦ inl (merge-Any planned m (inl there))
        | inr some_input ↦ elim some_input [
          | inl this ↦ inl (merge-Any planned m (inr this))
          | inr later ↦ inr later
        ]
      ])
      checked ih (err x) e' = absurd (cc e')

plan_of-Any : (P : Phase4Descriptor → Type 0) (m : Merged) → Any P m.1 → Any P (plan_of m)
unfolding plan_of
plan_of-Any P (tasks, others) h =
    Any-append_right P (sorted_by str_order (λ d. d.task_id) (values tasks)) others h

variant_planned :
    (P : Phase4Descriptor → Type 0) (g : TemplateGraph) (sys_name : String) (inp : BinaryPlanInput)
    → Any P (plan_parts g sys_name inp).variants
    → Any P (ordered_parts (plan_parts g sys_name inp))
unfolding ordered_parts
variant_planned P g sys_name inp h =
    let p = plan_parts g sys_name inp in
    let first = sorted_by two by_name p.arch_indep in
    let second = sorted_by three by_arch_name p.meta in
    let third = sorted_by three by_arch_name p.common_deps in
    let last = sorted_by two by_arch_label p.variants in
    Any-append_right P first (second ++ (third ++ last)) (
      Any-append_right P second (third ++ last)
        (Any-append_right P third last ((sorted_by-Any two by_arch_label P p.variants).1 h)))

-- For every input, every cell whose template there is, and every label of the cell that has a
-- spec, a plan that is not refused has the variant's own descriptor: its kind, its task id, and the
-- payload with the architecture of the cell, the label and the spec.
pub plan_phase4_from_graph-covers :
    (g : TemplateGraph) (sys_name : String) (inputs : List BinaryPlanInput) (ps : Plan)
    (inp : BinaryPlanInput) (key : CellKey) (arr : VariantArray) (nodes : Template) (label : String)
    (spec : Spec)
    → plan_phase4_from_graph g sys_name inputs ≡ ok ps
    → Member inp inputs
    → Member (key, arr) inp.streaming_result.variant_arrays
    → template_at inp.streaming_result.templates key.0 ≡ some nodes
    → Member label arr.variants
    → get (key.1, label) inp.variant_lookup ≡ some spec
    → Any (IsVariantOf inp.binary key.1 sys_name label spec) ps
unfolding plan_phase4_from_graph plan_parts
plan_phase4_from_graph-covers g sys_name inputs ps inp key arr nodes label spec e i c t l s =
    let ordered = sorted_by str_order (λ (i' : BinaryPlanInput). i'.binary) inputs in
    let P = IsVariantOf inp.binary key.1 sys_name label spec in
    let r = inp.streaming_result in
    let arch_indep = resolve_arch_indep_descriptors g inp.binary sys_name r.arch_indep_deps in
    let inputs_c = cell_inputs sys_name inp arch_indep.1 (plan_metas g sys_name inp) in
    let here : Any P (plan_parts g sys_name inp).variants =
      plan_cells-covers g inputs_c P r.variant_arrays key arr c
        (plan_cell-covers g inputs_c key arr nodes label spec t l s) in
    let planned = variant_planned P g sys_name inp here in
    let is_there =
      (sorted_by-Any str_order (λ (i' : BinaryPlanInput). i'.binary)
          (λ i'. Any P (ordered_parts (plan_parts g sys_name i'))) inputs).1
        (Any-map inputs (λ i' same. rw same planned) i) in
    merged P (merge_all g sys_name ordered ([], []))
      (λ m h. merge_all-Any P (λ d v. v.of_kind) g sys_name ordered ([], []) m h (inr is_there)) e
  where
    merged :
        (P : Phase4Descriptor → Type 0) (r : Result Failure Merged)
        → ((m : Merged) → r ≡ ok m → Any P m.1)
        → (r >>= λ m. ok (plan_of m)) ≡ ok ps
        → Any P ps
    merged P (ok m) h e' =
        let same : plan_of m ≡ ps = cc e' in rw (← same) (plan_of-Any P m (h m refl))
    merged P (err x) h e' = absurd (cc e')
