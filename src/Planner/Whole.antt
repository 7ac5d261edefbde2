-- ===== src/Planner/Whole.antt =====
-- The whole plan: each gate once, in the order of the task ids, and variants that wait for gates of
-- the plan.
use asm_dataset_nix.Prelude.{
  string_eq, ◌≡◌, refl, ◌∙◌, ap, true, List, [], ◌∷◌, ◌++◌, contains, All, All-map, String, arith,
}
use asm_dataset_nix.Prelude.Order.{str_order}
use asm_dataset_nix.Prelude.Sorting.{sorted_by, sorted_by-All, IsSortedBy, sorted_by-IsSortedBy}
use asm_dataset_nix.Prelude.Result.{Result, ok, err, ◌>>=◌}
use asm_dataset_nix.Prelude.Dict.{keys, values, IsDict, is_some, contains-keys-get}
use asm_dataset_nix.Prelude.Contains.{
  contains-append, IsDistinct, contains-sorted_by, sorted_by-IsDistinct, map-sorted_by,
}
use asm_dataset_nix.Planner.Cycle.{Failure}
use asm_dataset_nix.Planner.Cell.{TemplateGraph}
use asm_dataset_nix.Planner.Total.{
  BinaryPlanInput, Plan, Merged, merge_all, plan_of, plan_phase4_from_graph,
}
use asm_dataset_nix.Planner.Gates.{IsGate, Waits, ids}
use asm_dataset_nix.Planner.Extras.{IsTask}
use asm_dataset_nix.Planner.Merging.{Tasks, Filed, MergedOk, Known, merge_all-MergedOk}

IsDistinct-keys : (tasks : Tasks) → IsDict tasks → IsDistinct (keys tasks)
IsDistinct-keys [] h = tt
IsDistinct-keys ((k, d) ∷ tasks) h =
    (contains-keys-get k tasks ∙ ap is_some h.0, IsDistinct-keys tasks h.1)

ids-values : (tasks : Tasks) → All Filed tasks → ids (values tasks) ≡ keys tasks
ids-values [] h = refl
ids-values ((k, d) ∷ tasks) h = ground (arith, h.0.0, ids-values tasks h.1)

values-IsGate : (tasks : Tasks) → All Filed tasks → All IsGate (values tasks)
values-IsGate [] h = tt
values-IsGate ((k, d) ∷ tasks) h = (h.0.1, values-IsGate tasks h.1)

-- The plan splits into gates, each task once and in the order of their ids, and variants that wait
-- for gates of the plan and for known toolchains.
pub record IsWholePlan (Q : String → Type 0) (ps : Plan) : Type 0 where
  pub gates : Plan
  pub variants : Plan
  pub all_in : ps ≡ gates ++ variants
  pub gates_ok : All IsGate gates
  pub in_order : IsSortedBy str_order (λ d. d.task_id) gates
  pub once : IsDistinct (ids gates)
  pub variants_ok : All (Waits (IsTask gates) Q) variants

plan_of-IsWholePlan : (Q : String → Type 0) (m : Merged) → MergedOk Q m → IsWholePlan Q (plan_of m)
unfolding plan_of
plan_of-IsWholePlan Q (tasks, others) k =
    let gates = sorted_by str_order (λ d. d.task_id) (values tasks) in
    let filed = k.tasks_ok.filed in
    let same : ids gates ≡ sorted_by str_order (λ s. s) (keys tasks) =
      map-sorted_by str_order (λ d. d.task_id) (values tasks)
      ∙ ap (sorted_by str_order (λ s. s)) (ids-values tasks filed) in
    record {
      gates = gates;
      variants = others;
      all_in = refl;
      gates_ok = sorted_by-All str_order _ IsGate (values tasks) (values-IsGate tasks filed);
      in_order = sorted_by-IsSortedBy str_order _ (values tasks);
      once = rw same (
          sorted_by-IsDistinct str_order (λ s. s) (keys tasks)
            (IsDistinct-keys tasks k.tasks_ok.dict));
      variants_ok =
          All-map
            (λ d w. (
              w.0,
              All-map
                  (λ t h.
                    ap (contains t) same
                    ∙ (contains-sorted_by str_order (λ s. s) t (keys tasks) ∙ h))
                  d.depends_on w.1,
              w.2,
            ))
            others k.others_ok;
    }

-- The toolchain tasks that some input names.
abbrev pub toolchain_tasks : List BinaryPlanInput → List String
toolchain_tasks [] = []
toolchain_tasks (inp ∷ inputs) = values inp.toolchain_task_ids ++ toolchain_tasks inputs

abbrev pub IsToolchain : List BinaryPlanInput → String → Type 0
IsToolchain inputs t = contains t (toolchain_tasks inputs) ≡ true

own_toolchains :
    (inputs more : List BinaryPlanInput)
    → ((t : String) → IsToolchain inputs t → IsToolchain more t)
    → All (Known (IsToolchain more)) inputs
own_toolchains [] more h = tt
own_toolchains (inp ∷ inputs) more h = (
  λ t m.
      h t (
        ground (arith, contains-append t (values inp.toolchain_task_ids) (toolchain_tasks inputs))),
  own_toolchains inputs more (λ t m.
      h t (
        ground
          (arith, contains-append t (values inp.toolchain_task_ids) (toolchain_tasks inputs)))),
)

-- The plan of any inputs that is not refused is first the common dependencies, in the order of
-- their task ids, each id once and waiting for nothing, and then the variants, each of which waits
-- for common dependencies of the plan and for toolchain tasks that some input names.
pub plan_phase4_from_graph-IsWholePlan :
    (g : TemplateGraph) (sys_name : String) (inputs : List BinaryPlanInput) (ps : Plan)
    → plan_phase4_from_graph g sys_name inputs ≡ ok ps
    → IsWholePlan (IsToolchain inputs) ps
unfolding plan_phase4_from_graph
plan_phase4_from_graph-IsWholePlan g sys_name inputs ps e =
    let ordered = sorted_by str_order (λ i. i.binary) inputs in
    merged (merge_all g sys_name ordered ([], []))
      (merge_all-MergedOk (IsToolchain inputs) g sys_name ordered ([], [])
        (sorted_by-All str_order _ _ inputs (own_toolchains inputs inputs (λ t h. h)))
        (record { tasks_ok = record { dict = tt; filed = tt }; others_ok = tt }))
      e
  where
    merged :
        (r : Result Failure Merged)
        → ((m : Merged) → r ≡ ok m → MergedOk (IsToolchain inputs) m)
        → (r >>= λ m. ok (plan_of m)) ≡ ok ps
        → IsWholePlan (IsToolchain inputs) ps
    merged (ok m) k e' =
        let same : plan_of m ≡ ps = cc e' in
        rw (← same) (plan_of-IsWholePlan (IsToolchain inputs) m (k m refl))
    merged (err x) k e' = absurd (cc e')
