-- ===== src/Planner/Merging.antt =====
-- Merging the plans of the binaries: gates are filed under their task ids, and each variant waits
-- for filed ones.
use asm_dataset_nix.Prelude.{
  string_eq, ◌≡◌, ◌⊎◌, inl, inr, refl, ◌∙◌, sym, ap, true, false, Option-cases, Bool-cases, List,
  [], ◌∷◌, ◌++◌, contains, All, All-append, All-map, ◌==◌, ==_iff, ==_refl, String, arith,
}
use mathlib.Core.List.{append_assoc, append-nil}
use asm_dataset_nix.Prelude.Result.{Result, ok, err, ◌>>=◌, ◌>>◌}
use asm_dataset_nix.Prelude.Dict.{
  Dict, get, keys, values, IsDict, is_some, put-IsDict, contains-keys-put, contains-keys-get,
  All-put,
}
use asm_dataset_nix.StreamedSpawn.Codec.{Phase4Descriptor}
use asm_dataset_nix.Planner.Cycle.{Failure, check_no_cycles}
use asm_dataset_nix.Planner.Cell.{TemplateGraph}
use asm_dataset_nix.Planner.Total.{
  BinaryPlanInput, Plan, Merged, set_default, merge_one, merge, merge_all, plan_parts,
  ordered_parts, plan_phase4_for_binary,
}
use asm_dataset_nix.Planner.Gates.{IsGate, Waits}
use asm_dataset_nix.Planner.Extras.{IsTask}
use asm_dataset_nix.Planner.Binary.{IsPlan, ordered_parts-IsPlan}

abbrev pub Tasks : Type 0
Tasks = Dict String Phase4Descriptor

-- A gate stands under its own id.
abbrev pub Filed : String × Phase4Descriptor → Type 0
Filed p = (p.1.task_id ≡ p.0) × IsGate p.1

abbrev pub HasKey : Tasks → String → Type 0
HasKey tasks t = contains t (keys tasks) ≡ true

pub record TasksOk (tasks : Tasks) : Type 0 where
  pub dict : IsDict tasks
  pub filed : All Filed tasks

set_default_lem :
    (d : Phase4Descriptor) (tasks : Tasks)
    → IsGate d
    → TasksOk tasks
    → TasksOk (set_default d.task_id d tasks)
      × HasKey (set_default d.task_id d tasks) d.task_id
      × ((t : String) → HasKey tasks t → HasKey (set_default d.task_id d tasks) t)
unfolding set_default
set_default_lem d tasks g k = elim (Option-cases (get d.task_id tasks)) [
  | inl missing ↦
      rw (missing, set_default)
        (
          record {
            dict = put-IsDict d.task_id d tasks k.dict;
            filed = All-put Filed d.task_id d tasks (refl, g) k.filed;
          },
          ground (arith, contains-keys-put d.task_id d.task_id d tasks, ==_refl d.task_id),
          λ t h. ground (arith, contains-keys-put d.task_id t d tasks),
        )
  | inr (old, there) ↦
      rw (there, set_default) (k, contains-keys-get d.task_id tasks ∙ ap is_some there, λ t h. h)
]

merge-append : (m : Merged) (ds es : Plan) → merge m (ds ++ es) ≡ merge (merge m ds) es
unfolding merge
merge-append m [] es = refl
merge-append m (d ∷ ds) es = merge-append (merge_one d m) ds es

merge_one-gate :
    (d : Phase4Descriptor) (m : Merged)
    → IsGate d
    → merge_one d m ≡ (set_default d.task_id d m.0, m.1)
unfolding merge_one
merge_one-gate d m g = rw ((==_iff d.kind "build_common_dep").1 g.0)

merge_one-variant :
    (d : Phase4Descriptor) (m : Merged)
    → d.kind ≡ "build_variant"
    → merge_one d m ≡ (m.0, m.1 ++ d ∷ [])
unfolding merge_one
merge_one-variant d m k =
    let other : (d.kind == "build_common_dep") ≡ false =
      ap (λ (t : String). t == "build_common_dep") k in
    rw other

-- Gates are filed, and leave the variants alone.
merge_gates :
    (tasks : Tasks) (others gates : Plan)
    → All IsGate gates
    → TasksOk tasks
    → (tasks' : Tasks) × (merge (tasks, others) gates ≡ (tasks', others))
      × TasksOk tasks'
      × ((t : String) → HasKey tasks t ⊎ IsTask gates t → HasKey tasks' t)
unfolding merge
merge_gates tasks others [] g k =
    (tasks, refl, k, λ t h. elim h [ inl there ↦ there | inr f ↦ absurd (cc f) ])
merge_gates tasks others (d ∷ ds) g k =
    let (k', here, keep) = set_default_lem d tasks g.0 k in
    let (tasks', e, k'', h) = merge_gates (set_default d.task_id d tasks) others ds g.1 k' in
    (
      tasks',
      ap (λ m. merge m ds) (merge_one-gate d (tasks, others) g.0) ∙ e,
      k'',
      λ t c. elim c [
        | inl there ↦ h t (inl (keep t there))
        | inr f ↦ elim (Bool-cases (d.task_id == t)) [
          | inl same ↦ h t (inl (rw (← (==_iff d.task_id t).0 same) here))
          | inr other ↦ h t (inr (ground arith))
        ]
      ],
    )

module _ (Q : String → Type 0) where
  -- Variants are added to the end.
  merge_variants :
      (P : String → Type 0) (tasks : Tasks) (others variants : Plan)
      → All (Waits P Q) variants
      → merge (tasks, others) variants ≡ (tasks, others ++ variants)
  unfolding merge
  merge_variants P tasks others [] w = ap (λ (t : Plan). (tasks, t)) (sym (append-nil others))
  merge_variants P tasks others (d ∷ ds) w =
      ap (λ m. merge m ds) (merge_one-variant d (tasks, others) w.0.0)
      ∙ (merge_variants P tasks (others ++ d ∷ []) ds w.1
          ∙ ap (λ (t : Plan). (tasks, t)) (append_assoc others (d ∷ []) ds))

  pub record MergedOk (m : Merged) : Type 0 where
    pub tasks_ok : TasksOk m.0
    pub others_ok : All (Waits (HasKey m.0) Q) m.1

  merge-MergedOk : (m : Merged) (ds : Plan) → IsPlan Q ds → MergedOk m → MergedOk (merge m ds)
  merge-MergedOk (tasks, others) ds p k =
      let (tasks', e, k', h) = merge_gates tasks others p.gates p.gates_ok k.tasks_ok in
      let all : merge (tasks, others) ds ≡ (tasks', others ++ p.variants) =
        ap (merge (tasks, others)) p.all_in
        ∙ (merge-append (tasks, others) p.gates p.variants
            ∙ (ap (λ (t : Merged). merge t p.variants) e
                ∙ merge_variants (IsTask p.gates) tasks' others p.variants p.variants_ok)) in
      rw all (record {
        tasks_ok = k';
        others_ok =
            All-append _ others p.variants
              (All-map (λ d w. (w.0, All-map (λ t c. h t (inl c)) d.depends_on w.1, w.2)) others
                k.others_ok)
              (All-map (λ d w. (w.0, All-map (λ t c. h t (inr c)) d.depends_on w.1, w.2)) p.variants
                p.variants_ok);
      })

  -- The toolchains of the input have the property.
  abbrev pub Known : BinaryPlanInput → Type 0
  Known inp = (t : String) → contains t (values inp.toolchain_task_ids) ≡ true → Q t

  pub merge_all-MergedOk :
      (g : TemplateGraph) (sys_name : String) (inputs : List BinaryPlanInput) (m : Merged)
      → All Known inputs
      → MergedOk m
      → (m' : Merged) → merge_all g sys_name inputs m ≡ ok m'
      → MergedOk m'
  unfolding merge_all plan_phase4_for_binary
  merge_all-MergedOk g sys_name [] m known k m' e = let same : m ≡ m' = cc e in rw (← same) k
  merge_all-MergedOk g sys_name (inp ∷ inputs) m known k m' e =
      checked (λ m2. merge_all-MergedOk g sys_name inputs m2 known.1)
        (check_no_cycles inp.streaming_result.templates) e
    where
      planned : Plan
      planned = ordered_parts (plan_parts g sys_name inp)

      checked :
          ((m2 : Merged)
            → MergedOk m2
            → (m3 : Merged) → merge_all g sys_name inputs m2 ≡ ok m3
            → MergedOk m3)
          → (r : Result Failure (Unit {0}))
          → ((r >> ok planned) >>= λ ds. merge_all g sys_name inputs (merge m ds)) ≡ ok m'
          → MergedOk m'
      checked ih (ok _) e' =
          ih (merge m planned)
            (merge-MergedOk m planned (ordered_parts-IsPlan g sys_name inp Q known.0) k) m' e'
      checked ih (err x) e' = absurd (cc e')
