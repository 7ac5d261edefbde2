-- ===== src/Handoff/Affine.antt =====
-- The import gates of a plan: each task that waits for the output of a common dependency waits for a
-- gate that there is.
use asm_dataset_nix.Prelude.{
  string_eq, String, ◌≡◌, refl, ap, sym, ◌∙◌, true, false, Option, none, some, List, [], ◌∷◌,
  contains, All, All-map, All-append, All-append_parts, Bool-cases, inl, inr, ◌==◌, ==_iff, subst,
}
use asm_dataset_nix.Prelude.Contains.{IsDistinct, All-contains}
use asm_dataset_nix.Json.{Json}
use asm_dataset_nix.StreamedSpawn.Codec.{Phase4Descriptor}
use asm_dataset_nix.Planner.Gates.{All-dedupe_sorted, IsGate, ids}
use asm_dataset_nix.Prelude.Result.{ok}
use asm_dataset_nix.Planner.Cell.{TemplateGraph}
use asm_dataset_nix.Planner.Total.{BinaryPlanInput, plan_phase4_from_graph}
use asm_dataset_nix.Planner.Whole.{IsWholePlan, plan_phase4_from_graph-IsWholePlan}
use asm_dataset_nix.Handoff.TaskIds.{gate_of_task}
use asm_dataset_nix.Handoff.Headers.{
  ManifestHeader, cons_some, common_dep_payload, build_header, header_of, headers_from_descriptors,
}
use asm_dataset_nix.Handoff.Tasks.{
  SuitTaskConfig, common_dep_gates_enabled, gates_of, cons_gate, common_dep_gate_deps,
}
use asm_dataset_nix.Handoff.Suit.{build_common_dep_gate_infos, batch_gates}
use asm_dataset_nix.Handoff.Gating.{
  task_ids, IsGatedBy, gate_infos-covers, gate_infos-seen, gate_infos-IsDistinct,
}
use asm_dataset_nix.Handoff.Making.{headers-append}

-- The gate of a task id is among some.
abbrev HasGate : List String → String → Type 0
HasGate gates task_id =
    (gate : String × String) → gate_of_task task_id ≡ some gate → contains gate.0 gates ≡ true

-- The gates that a header waits for are among some.
abbrev pub WaitsWithin : List String → ManifestHeader → Type 0
WaitsWithin gates h = All (λ gate_id. contains gate_id gates ≡ true) (common_dep_gate_deps h)

All-cons_gate :
    (gates : List String) (o : Option (String × String)) (rest : List String)
    → ((gate : String × String) → o ≡ some gate → contains gate.0 gates ≡ true)
    → All (λ gate_id. contains gate_id gates ≡ true) rest
    → All (λ gate_id. contains gate_id gates ≡ true) (cons_gate o rest)
All-cons_gate gates none rest h k = k
All-cons_gate gates (some (gate_id, ident_str)) rest h k = (h (gate_id, ident_str) refl, k)

All-gates_of :
    (gates deps : List String)
    → All (HasGate gates) deps
    → All (λ gate_id. contains gate_id gates ≡ true) (gates_of deps)
unfolding gates_of
All-gates_of gates [] k = tt
All-gates_of gates (dep ∷ deps) k =
    All-cons_gate gates (gate_of_task dep) (gates_of deps) k.0 (All-gates_of gates deps k.1)

module _ (format : Json → String) where
  header_of-gate :
      (d : Phase4Descriptor)
      → IsGate d
      → header_of format d ≡ some (build_header "build_common_dep" d (common_dep_payload d.payload))
  unfolding header_of
  header_of-gate d k = rw ((==_iff d.kind "build_common_dep").1 k.0) refl

  gates-HasGate :
      (gates : List String) (ds : List Phase4Descriptor)
      → All IsGate ds
      → All (IsGatedBy gates) (headers_from_descriptors format ds)
      → All (HasGate gates) (ids ds)
  unfolding headers_from_descriptors build_header
  gates-HasGate gates [] k h = tt
  gates-HasGate gates (d ∷ ds) k h =
      let h' =
        subst (λ o. All (IsGatedBy gates) (cons_some format o (headers_from_descriptors format ds)))
          (header_of-gate d k.0) h in
      (h'.0, gates-HasGate gates ds k.1 h'.1)

  headers-WaitsWithin :
      (gates : List String) (ds : List Phase4Descriptor)
      → All (λ d. All (HasGate gates) d.depends_on) ds
      → All (WaitsWithin gates) (headers_from_descriptors format ds)
  unfolding headers_from_descriptors header_of build_header common_dep_gate_deps
  headers-WaitsWithin gates [] k = tt
  headers-WaitsWithin gates (d ∷ ds) k =
      let rest = headers-WaitsWithin gates ds k.1 in
      let here =
        All-dedupe_sorted (λ gate_id. contains gate_id gates ≡ true) (gates_of d.depends_on)
          (All-gates_of gates d.depends_on k.0) in
      elim (Bool-cases (d.kind == "build_common_dep")) [
        | inl e ↦ rw e (here, rest)
        | inr e ↦ elim (Bool-cases (d.kind == "build_variant")) [
          | inl f ↦ rw (e, f) (here, rest)
          | inr f ↦ rw (e, f) rest
        ]
      ]

  -- In a whole plan what is waited for has a gate.
  waits-HasGate :
      (Q : String → Type 0) (gates : List String) (ds : List Phase4Descriptor)
      → IsWholePlan Q ds
      → All (IsGatedBy gates) (headers_from_descriptors format ds)
      → All (λ d. All (HasGate gates) d.depends_on) ds
  waits-HasGate Q gates ds w h =
      let split =
        subst (All (IsGatedBy gates))
          (ap (headers_from_descriptors format) w.all_in ∙ headers-append format w.gates w.variants)
          h in
      let own =
        All-append_parts (IsGatedBy gates) (headers_from_descriptors format w.gates)
          (headers_from_descriptors format w.variants) split in
      let gated = gates-HasGate gates w.gates w.gates_ok own.0 in
      subst (All (λ d. All (HasGate gates) d.depends_on)) (sym w.all_in) (
        All-append (λ d. All (HasGate gates) d.depends_on) w.gates w.variants
          (All-map (λ d k. rw k.1 tt) w.gates w.gates_ok)
          (All-map
            (λ d k.
              All-map (λ t m. All-contains (HasGate gates) t (ids w.gates) gated m) d.depends_on
                k.1)
            w.variants w.variants_ok))

  module _ (c : SuitTaskConfig) where
    -- The ids of the gates that are spawned with the plan.
    abbrev pub plan_gates : List Phase4Descriptor → List String
    plan_gates ds = task_ids (batch_gates c (headers_from_descriptors format ds) []).0

    enabled_gates :
        (hs : List ManifestHeader)
        → common_dep_gates_enabled c ≡ true
        → c.disable_task_deps ≡ false
        → batch_gates c hs [] ≡ build_common_dep_gate_infos hs []
    unfolding batch_gates
    enabled_gates hs e f = rw (batch_gates, e, f) refl

    -- Where the gates of common dependencies are enabled and dependencies are not disabled, the plan
    -- of any inputs that is not refused gets each of its gates once, and every gate that a task of the
    -- plan waits for, for the output of a common dependency, is among them.
    pub plan_phase4_from_graph-WaitsWithin :
        (g : TemplateGraph) (sys_name : String) (inputs : List BinaryPlanInput)
        (ds : List Phase4Descriptor)
        → plan_phase4_from_graph g sys_name inputs ≡ ok ds
        → common_dep_gates_enabled c ≡ true
        → c.disable_task_deps ≡ false
        → IsDistinct (plan_gates ds)
          × All (WaitsWithin (plan_gates ds)) (headers_from_descriptors format ds)
    plan_phase4_from_graph-WaitsWithin g sys_name inputs ds p e f =
        let hs = headers_from_descriptors format ds in
        let seen = gate_infos-seen hs [] in
        let gates = task_ids (build_common_dep_gate_infos hs []).0 in
        let covered = subst (λ s. All (IsGatedBy s) hs) seen (gate_infos-covers hs []) in
        let whole = plan_phase4_from_graph-IsWholePlan g sys_name inputs ds p in
        rw (enabled_gates hs e f) (
          subst IsDistinct seen (gate_infos-IsDistinct hs [] tt),
          headers-WaitsWithin gates ds (waits-HasGate _ gates ds whole covered),
        )
