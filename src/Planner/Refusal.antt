-- ===== src/Planner/Refusal.antt =====
-- When the plan is refused: for a cycle in a template of some input, and only then.
use asm_dataset_nix.Prelude.{
  string_eq, ◌≡◌, inl, inr, List, [], ◌∷◌, get_elem?, All, Any, String, some, arith,
}
use asm_dataset_nix.Prelude.Order.{str_order}
use asm_dataset_nix.Prelude.Sorting.{sorted_by, sorted_by-All_back, sorted_by-Any}
use asm_dataset_nix.Prelude.Result.{Result, ok, err, ◌>>=◌, ◌>>◌}
use asm_dataset_nix.Planner.Graph.{Template, Route}
use asm_dataset_nix.Planner.Cycle.{
  Failure, raised, no_fuel, check_no_cycles, DependencyGraphCycleError,
}
use asm_dataset_nix.Planner.Checking.{IsAcyclic, Verdict, check_no_cycles-Verdict}
use asm_dataset_nix.Planner.Cell.{TemplateGraph}
use asm_dataset_nix.Planner.Total.{
  BinaryPlanInput, Plan, Merged, merge, merge_all, plan_of, plan_parts, ordered_parts,
  plan_phase4_for_binary, plan_phase4_from_graph,
}

-- The error names a node on a cycle of a template of the input.
abbrev pub Blames : DependencyGraphCycleError → BinaryPlanInput → Type 0
Blames e inp =
    (nodes : Template) × (get_elem? inp.streaming_result.templates e.tmpl_id ≡ some nodes)
    × Route nodes e.child e.child

abbrev pub IsClear : BinaryPlanInput → Type 0
IsClear inp = All IsAcyclic inp.streaming_result.templates

-- What a plan, or its refusal, says of the inputs.
abbrev pub Decides : {A : Type 0} → List BinaryPlanInput → Result Failure A → Type 0
Decides inputs (ok _) = All IsClear inputs
Decides inputs (err (raised e)) = Any (Blames e) inputs
Decides inputs (err no_fuel) = ⊥

merge_all-Decides :
    (g : TemplateGraph) (sys_name : String) (inputs : List BinaryPlanInput) (m : Merged)
    → Decides inputs (merge_all g sys_name inputs m)
unfolding merge_all plan_phase4_for_binary
merge_all-Decides g sys_name [] m = tt
merge_all-Decides g sys_name (inp ∷ inputs) m =
    checked (λ m'. merge_all-Decides g sys_name inputs m')
      (check_no_cycles inp.streaming_result.templates)
      (check_no_cycles-Verdict inp.streaming_result.templates)
  where
    planned : Plan
    planned = ordered_parts (plan_parts g sys_name inp)

    first : IsClear inp → (r : Result Failure Merged) → Decides inputs r → Decides (inp ∷ inputs) r
    first c (ok _) d = (c, d)
    first c (err (raised e)) d = inr d
    first c (err no_fuel) d = d

    checked :
        ((m' : Merged) → Decides inputs (merge_all g sys_name inputs m'))
        → (r : Result Failure (Unit {0})) → Verdict 0 inp.streaming_result.templates r
        → Decides
            (inp ∷ inputs)
            ((r >> ok planned) >>= λ ds. merge_all g sys_name inputs (merge m ds))
    checked ih (ok _) v =
        first v (merge_all g sys_name inputs (merge m planned)) (ih (merge m planned))
    checked ih (err (raised e)) (nodes, i, id, there, route, before) =
        let same : e.tmpl_id ≡ i = omega (arith, id) in inl (nodes, rw same there, route)
    checked ih (err no_fuel) v = v

-- Planning always ends. A plan is given only if no template of any input has a cycle, and it is
-- refused only with an error that names a node on a cycle of a template of some input.
pub plan_phase4_from_graph-Decides :
    (g : TemplateGraph) (sys_name : String) (inputs : List BinaryPlanInput)
    → Decides inputs (plan_phase4_from_graph g sys_name inputs)
unfolding plan_phase4_from_graph
plan_phase4_from_graph-Decides g sys_name inputs =
    back (merge_all g sys_name (sorted_by str_order (λ i. i.binary) inputs) ([], []))
      (merge_all-Decides g sys_name (sorted_by str_order (λ i. i.binary) inputs) ([], []))
  where
    back :
        (r : Result Failure Merged)
        → Decides (sorted_by str_order (λ i. i.binary) inputs) r
        → Decides inputs (r >>= λ m. ok (plan_of m))
    back (ok m) d = sorted_by-All_back str_order (λ i. i.binary) IsClear inputs d
    back (err (raised e)) d = (sorted_by-Any str_order (λ i. i.binary) (Blames e) inputs).0 d
    back (err no_fuel) d = d
