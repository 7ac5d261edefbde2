-- ===== src/Handoff/Reconciled.antt =====
-- The barrier: whole streams pass it, and streams that lost something do not.
use asm_dataset_nix.Prelude.{
  string_eq, ℕ, ◌+◌, ◌<◌, String, ◌≡◌, ◌↔◌, ap, sym, ◌∙◌, true, none, some, List, [], ◌∷◌, ◌++◌,
  length, length-append, concat, All, All-append_parts, subst, arith,
}
use asm_dataset_nix.Prelude.Int.{ℤ, pos, int_eq}
use asm_dataset_nix.Prelude.Dict.{Dict}
use asm_dataset_nix.Prelude.Result.{ok, err}
use asm_dataset_nix.Json.{Json}
use asm_dataset_nix.StreamedSpawn.Checks.{Checked}
use asm_dataset_nix.StreamedSpawn.Codec.{Phase4Descriptor}
use asm_dataset_nix.StreamedSpawn.Stream.{Sent, stream_descriptors, count_kinds, counters_json}
use asm_dataset_nix.StreamedSpawn.Encoder.{default_max_message_bytes, max_batch_descriptors_default}
use asm_dataset_nix.StreamedSpawn.Flushing.{concat-append}
use asm_dataset_nix.StreamedSpawn.Delivery.{
  StreamOutcome, Delivered, delivered, stopped, stream_descriptors-StreamOutcome,
}
use asm_dataset_nix.Handoff.Headers.{headers_from_descriptors}
use asm_dataset_nix.Handoff.Tasks.{TaskInfo, SuitTaskConfig, dependency_graph, mismatch, no_summary}
use asm_dataset_nix.Handoff.Suit.{
  spawns, SuitTask, on_phase_start, on_phase_end, reconcile, handle_all, batch_gates,
}
use asm_dataset_nix.Handoff.Making.{
  IsKnown, Made, length-Made, length-headers, length-headers_iff, worker_tasks,
}
use asm_dataset_nix.Handoff.Gating.{gate_tasks}
use asm_dataset_nix.Handoff.Handling.{
  batch_values, summary_value, IsSendable, Spawned, Spawned-append, handle_all-append,
  batches-Spawned, summary-recorded, recorded,
}
use asm_dataset_nix.Handoff.Sent.{AreTextsOf, plan_values, Delivered-AreTextsOf, All-concat}

abbrev pub header_count : (Json → String) → List Phase4Descriptor → ℕ
header_count format ds = length (headers_from_descriptors format ds)

module _ (format : Json → String) (c : SuitTaskConfig) (t : SuitTask) where
  abbrev start : SuitTask
  start = on_phase_start dependency_graph t

  -- The state after a run of messages from the start of the phase.
  abbrev pub after : List (String × Json) → SuitTask
  after values = handle_all format c spawns values (on_phase_start dependency_graph t)

  -- What the primary has after the values of a plan's messages.
  pub record Reconciled (ds : List Phase4Descriptor) (values : List (String × Json)) : Type 0 where
    pub tasks : List TaskInfo
    pub made : Made format c (headers_from_descriptors format ds) tasks
    pub worker_tasks_eq : worker_tasks (after values).spawned ≡ worker_tasks t.spawned ++ tasks
    pub gates_eq :
        gate_tasks (after values).spawned
        ≡ gate_tasks t.spawned ++ (batch_gates c (headers_from_descriptors format ds) []).0
    pub barrier : (on_phase_end true dependency_graph (after values) ≡ ok tt) ↔ All IsKnown ds

  Spawned-start :
      (seq : ℕ) (bs : List (List Phase4Descriptor))
      → All (All IsSendable) bs
      → Spawned format c start (concat bs) (after (batch_values seq bs))
  Spawned-start seq bs k = batches-Spawned format c seq bs start k

  count-headers :
      (values : List (String × Json)) (ds : List Phase4Descriptor)
      → Spawned format c start ds (after values)
      → (after values).streamed_spawned_count ≡ header_count format ds
  unfolding on_phase_start
  count-headers values ds s =
      omega
        (arith, s.count, length-Made format c (headers_from_descriptors format ds) s.tasks s.made)

  module _ (total batches : ℕ) (counters : Dict String ℤ) where
    abbrev last : List (String × Json)
    last = summary_value total batches counters ∷ []

    -- After the summary the state is that after the batches, with the summary recorded.
    after-last :
        (values : List (String × Json)) (ds : List Phase4Descriptor)
        → Spawned format c start ds (after values)
        → after (values ++ last) ≡ recorded format c total batches counters (after values)
    unfolding on_phase_start
    after-last values ds s =
        handle_all-append format c values last start
        ∙ summary-recorded format c total batches counters (after values) s.same_total

    -- The barrier lets a stream pass just when as many descriptors became tasks as were sent.
    barrier_iff :
        (values : List (String × Json)) (ds : List Phase4Descriptor)
        → Spawned format c start ds (after values)
        → (on_phase_end true dependency_graph (after (values ++ last)) ≡ ok tt)
          ↔ (header_count format ds ≡ total)
    unfolding on_phase_end reconcile
    barrier_iff values ds s =
        rw (after-last values ds s, count-headers values ds s)
          ((λ h. ground arith), (λ h. ground arith))

  Reconciled-values :
      (bs : List (List Phase4Descriptor)) (ds : List Phase4Descriptor) (n : ℕ)
      (counters : Dict String ℤ)
      → concat bs ≡ ds
      → All (All IsSendable) bs
      → Reconciled ds (batch_values 0 bs ++ summary_value (length ds) n counters ∷ [])
  unfolding on_phase_start
  Reconciled-values bs ds n counters p k =
      let s =
        subst (λ es. Spawned format c start es (after (batch_values 0 bs))) p
          (Spawned-start 0 bs k) in
      let e = after-last (length ds) n counters (batch_values 0 bs) ds s in
      let known = length-headers_iff format ds in
      let passes = barrier_iff (length ds) n counters (batch_values 0 bs) ds s in
      record {
        tasks = s.tasks;
        made = s.made;
        worker_tasks_eq = ap (λ (u : SuitTask). worker_tasks u.spawned) e ∙ s.worker_tasks_eq;
        gates_eq = ap (λ (u : SuitTask). gate_tasks u.spawned) e ∙ s.gates_eq;
        barrier = (λ h. known.0 (passes.0 h), λ h. passes.1 (known.1 h));
      }

  -- A stream that ended without a raise: its messages are the texts of values, and a primary that
  -- handles these after the start of the phase has spawned the tasks of the plan's descriptors, once
  -- and in order, with the gates of the plan as one batch of it would have them; its barrier passes
  -- just when every descriptor has a known kind. Each descriptor needs a hint that is not negative
  -- and an outpath, if any, that is a text.
  pub stream_descriptors-Reconciled :
      (ds : List Phase4Descriptor)
      → All IsSendable ds
      → (stream_descriptors ds).0 ≡ ok tt
      → (values : List (String × Json)) × AreTextsOf (stream_descriptors ds).1 values
        × Reconciled ds values
  stream_descriptors-Reconciled ds k h = from_outcome _ (stream_descriptors-StreamOutcome ds) h
    where
      from_delivered :
          (out : Sent)
          → Delivered default_max_message_bytes max_batch_descriptors_default ds out
          → (values : List (String × Json)) × AreTextsOf out values × Reconciled ds values
      from_delivered out d =
          let sendable = All-concat d.batches (subst (All IsSendable) (sym d.all_in) k) in
          (
            plan_values ds d.batches,
            Delivered-AreTextsOf ds out d,
            Reconciled-values d.batches ds (length d.batches) (counters_json (count_kinds [] ds))
                d.all_in sendable,
          )

      from_outcome :
          (r : Checked (Unit {0}) × Sent)
          → StreamOutcome default_max_message_bytes max_batch_descriptors_default ds r
          → r.0 ≡ ok tt
          → (values : List (String × Json)) × AreTextsOf r.1 values × Reconciled ds values
      from_outcome _ (delivered out d) p = from_delivered out d
      from_outcome _ (stopped x out s) p = absurd (cc p)

  missing-Spawned :
      (seq : ℕ) (bs cs : List (List Phase4Descriptor))
      → All (All IsSendable) bs
      → All (All IsSendable) cs
      → Spawned format c start
          (concat (bs ++ cs))
          (after (batch_values 0 bs ++ batch_values seq cs))
  missing-Spawned seq bs cs k l =
      rw
        (
          concat-append bs cs,
          handle_all-append format c (batch_values 0 bs) (batch_values seq cs) start,
        )
        (Spawned-append format c start (after (batch_values 0 bs)) _ (concat bs) (concat cs)
          (Spawned-start 0 bs k) (batches-Spawned format c seq cs (after (batch_values 0 bs)) l))

  too_few :
      (u : SuitTask) (total count : ℕ)
      → u.streamed_expected_total ≡ some (pos total)
      → u.streamed_spawned_count ≡ count
      → count < total
      → on_phase_end true dependency_graph u ≡ err (mismatch count (pos total))
  unfolding on_phase_end reconcile
  too_few u total count p q h = ground arith

  unannounced :
      (u : SuitTask) (count : ℕ)
      → u.streamed_expected_total ≡ none
      → u.streamed_spawned_count ≡ count
      → on_phase_end true dependency_graph u ≡ err (no_summary count)
  unfolding on_phase_end reconcile
  unannounced u count p q = ground arith

  -- A plan that loses something on the way does not pass. Without the batch `b`, which is not empty,
  -- the barrier raises with the tasks that there are and the summary's total; without the summary it
  -- raises for that. The hints are not negative and outpaths are texts.
  pub lost-raises :
      (bs cs : List (List Phase4Descriptor)) (b : List Phase4Descriptor) (n : ℕ)
      (counters : Dict String ℤ)
      → All (All IsSendable) (bs ++ b ∷ cs)
      → 0 < length b
      → (on_phase_end true dependency_graph (
            after (
              (batch_values 0 bs ++ batch_values (length bs + 1) cs)
              ++ summary_value (length (concat (bs ++ b ∷ cs))) n counters ∷ []))
          ≡ err (
              mismatch
                (header_count format (concat (bs ++ cs)))
                (pos (length (concat (bs ++ b ∷ cs))))))
        × (on_phase_end true dependency_graph (after (batch_values 0 (bs ++ b ∷ cs)))
            ≡ err (no_summary (header_count format (concat (bs ++ b ∷ cs)))))
  unfolding on_phase_start
  lost-raises bs cs b n counters k l =
      let total = length (concat (bs ++ b ∷ cs)) in
      let parts = All-append_parts (All IsSendable) bs (b ∷ cs) k in
      let values = batch_values 0 bs ++ batch_values (length bs + 1) cs in
      let s = missing-Spawned (length bs + 1) bs cs parts.0 parts.1.1 in
      let whole = Spawned-start 0 (bs ++ b ∷ cs) k in
      let e = after-last total n counters values (concat (bs ++ cs)) s in
      (
        too_few (after (values ++ last total n counters)) total
            (header_count format (concat (bs ++ cs)))
            (ap (λ (u : SuitTask). u.streamed_expected_total) e)
            (ap (λ (u : SuitTask). u.streamed_spawned_count) e
              ∙ count-headers values (concat (bs ++ cs)) s)
            (omega (
              arith,
              length-headers format (concat (bs ++ cs)),
              ap length (concat-append bs cs),
              ap length (concat-append bs (b ∷ cs)),
              length-append (concat bs) (concat cs),
              length-append (concat bs) (b ++ concat cs),
              length-append b (concat cs),
            )),
        unannounced (after (batch_values 0 (bs ++ b ∷ cs)))
            (header_count format (concat (bs ++ b ∷ cs))) whole.same_total
            (count-headers (batch_values 0 (bs ++ b ∷ cs)) (concat (bs ++ b ∷ cs)) whole),
      )
