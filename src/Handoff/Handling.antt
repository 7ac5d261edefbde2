-- ===== src/Handoff/Handling.antt =====
-- What the handler makes of the batches of a plan, one message after the other.
use mathlib.Core.List.{append_assoc, append-nil}
use asm_dataset_nix.Prelude.{
  string_eq, ℕ, ◌+◌, String, ◌≡◌, refl, ap, sym, ◌∙◌, not, none, some, List, [], ◌∷◌, ◌++◌, map,
  length, length-append, concat, All, Bool-cases, inl, inr, ◌&&◌, arith,
}
use asm_dataset_nix.Prelude.Int.{ℤ, pos}
use asm_dataset_nix.Prelude.Dict.{Dict}
use asm_dataset_nix.Prelude.Result.{ok}
use asm_dataset_nix.Json.{Json}
use asm_dataset_nix.StreamedSpawn.Codec.{Phase4Descriptor, encode_descriptor}
use asm_dataset_nix.StreamedSpawn.Encoder.{batch_object, summary_object}
use asm_dataset_nix.StreamedSpawn.RoundTrip.{
  HasHint, decode_spawn_message-batch, decode_spawn_message-summary,
}
use asm_dataset_nix.Handoff.Headers.{ManifestHeader, headers_from_descriptors}
use asm_dataset_nix.Handoff.Tasks.{
  TaskInfo, SuitTaskConfig, common_dep_gates_enabled, task_infos_of,
}
use asm_dataset_nix.Handoff.Suit.{
  spawns, SuitTask, Handled, Gating, build_common_dep_gate_infos, batch_gates, spawn,
  handle_streamed_spawn_batch, handle_streamed_summary, handle_message, custom_message_handler,
  handle_all,
}
use asm_dataset_nix.Handoff.Making.{
  HasTextOutpath, Made, headers-append, Made-append, worker_tasks, worker_tasks-append,
  worker_tasks-Made, headers-Made,
}
use asm_dataset_nix.Handoff.Gating.{
  gate_tasks, gate_tasks-append, gate_tasks-none, gate_infos-AreGates, AreGates, gate_infos-append,
}

-- The messages of batches as values, numbered from `seq`, and the last message of a plan.
abbrev pub batch_values : ℕ → List (List Phase4Descriptor) → List (String × Json)
batch_values seq [] = []
batch_values seq (b ∷ bs) =
    ("dependency_graph_spawn", batch_object seq (map encode_descriptor b))
    ∷ batch_values (seq + 1) bs

abbrev pub summary_value : ℕ → ℕ → Dict String ℤ → String × Json
summary_value total batches counters =
    ("dependency_graph_summary", summary_object total batches counters)

-- The decoder and the task of a descriptor ask no more than this.
abbrev pub IsSendable : Phase4Descriptor → Type 0
IsSendable d = HasHint d × HasTextOutpath d

sendable_parts :
    (ds : List Phase4Descriptor) → All IsSendable ds → All HasHint ds × All HasTextOutpath ds
sendable_parts [] h = (tt, tt)
sendable_parts (d ∷ ds) h = let (p, q) = sendable_parts ds h.1 in ((h.0.0, p), (h.0.1, q))

module _ (format : Json → String) (c : SuitTaskConfig) where
  batch_gates-AreGates :
      (hs : List ManifestHeader) (seen : List String) → AreGates (batch_gates c hs seen).0
  unfolding batch_gates
  batch_gates-AreGates hs seen =
      elim (Bool-cases (common_dep_gates_enabled c && not c.disable_task_deps)) [
        | inl e ↦ rw (batch_gates, e) (gate_infos-AreGates hs seen)
        | inr e ↦ rw (batch_gates, e) (refl, refl)
      ]

  -- Splitting headers into batches does not change the gates.
  batch_gates-append :
      (hs ks : List ManifestHeader) (seen : List String)
      → batch_gates c (hs ++ ks) seen ≡ (
          let first = batch_gates c hs seen in
          let second = batch_gates c ks first.1 in (first.0 ++ second.0, second.1))
  unfolding batch_gates
  batch_gates-append hs ks seen =
      elim (Bool-cases (common_dep_gates_enabled c && not c.disable_task_deps)) [
        | inl e ↦ rw (batch_gates, e) (gate_infos-append hs ks seen)
        | inr e ↦ rw (batch_gates, e) refl
      ]

  -- From `t` to `t'` the descriptors `ds` were spawned, and nothing else changed.
  pub record Spawned (t : SuitTask) (ds : List Phase4Descriptor) (t' : SuitTask) : Type 0 where
    pub tasks : List TaskInfo
    pub made : Made format c (headers_from_descriptors format ds) tasks
    pub count : t'.streamed_spawned_count ≡ t.streamed_spawned_count + length tasks
    pub worker_tasks_eq : worker_tasks t'.spawned ≡ worker_tasks t.spawned ++ tasks
    pub gates_eq :
        gate_tasks t'.spawned
        ≡ gate_tasks t.spawned
          ++ (batch_gates c (headers_from_descriptors format ds) t.spawned_common_dep_gate_ids).0
    pub seen_eq :
        t'.spawned_common_dep_gate_ids
        ≡ (batch_gates c (headers_from_descriptors format ds) t.spawned_common_dep_gate_ids).1
    pub same_total : t'.streamed_expected_total ≡ t.streamed_expected_total

  spawn-Spawned :
      (t : SuitTask) (ds : List Phase4Descriptor) (infos : List TaskInfo) (g : Gating)
      → Made format c (headers_from_descriptors format ds) infos
      → g ≡ batch_gates c (headers_from_descriptors format ds) t.spawned_common_dep_gate_ids
      → AreGates g.0
      → Spawned t ds (spawn infos g t).1
  spawn-Spawned t ds infos g m p a =
      let own = worker_tasks-Made format c (headers_from_descriptors format ds) infos m in
      record {
        tasks = infos;
        made = m;
        count = refl;
        worker_tasks_eq = simp (worker_tasks-append, own, a.1, append-nil);
        gates_eq =
            simp (gate_tasks-append, gate_tasks-none infos own, a.0)
              (ap (λ (r : Gating). gate_tasks t.spawned ++ r.0) p);
        seen_eq = ap (λ (r : Gating). r.1) p;
        same_total = refl;
      }

  batch_gates-none : (seen : List String) → batch_gates c [] seen ≡ ([], seen)
  unfolding batch_gates build_common_dep_gate_infos
  batch_gates-none seen =
      elim (Bool-cases (common_dep_gates_enabled c && not c.disable_task_deps)) [
        | inl e ↦ rw (batch_gates, e) refl
        | inr e ↦ rw (batch_gates, e) refl
      ]

  Spawned-none : (t : SuitTask) → Spawned t [] t
  unfolding headers_from_descriptors task_infos_of batch_gates build_common_dep_gate_infos
  Spawned-none t =
      let none_new = batch_gates-none t.spawned_common_dep_gate_ids in
      record {
        tasks = [];
        made = refl;
        count = omega arith;
        worker_tasks_eq = sym (append-nil (worker_tasks t.spawned));
        gates_eq =
            sym (append-nil (gate_tasks t.spawned))
            ∙ ap (λ (r : Gating). gate_tasks t.spawned ++ r.0) (sym none_new);
        seen_eq = ap (λ (r : Gating). r.1) (sym none_new);
        same_total = refl;
      }

  pub Spawned-append :
      (t u v : SuitTask) (ds es : List Phase4Descriptor)
      → Spawned t ds u
      → Spawned u es v
      → Spawned t (ds ++ es) v
  Spawned-append t u v ds es r s =
      let first =
        batch_gates c (headers_from_descriptors format ds) t.spawned_common_dep_gate_ids in
      let second = batch_gates c (headers_from_descriptors format es) first.1 in
      let late : batch_gates c (headers_from_descriptors format es) u.spawned_common_dep_gate_ids
          ≡ second =
        ap (batch_gates c (headers_from_descriptors format es)) r.seen_eq in
      let whole : batch_gates c (headers_from_descriptors format (ds ++ es))
            t.spawned_common_dep_gate_ids
          ≡ (first.0 ++ second.0, second.1) =
        ap (λ hs. batch_gates c hs t.spawned_common_dep_gate_ids) (headers-append format ds es)
        ∙ batch_gates-append _ _ t.spawned_common_dep_gate_ids in
      record {
        tasks = r.tasks ++ s.tasks;
        made =
            rw (headers-append format ds es)
              (Made-append format c _ _ r.tasks s.tasks r.made s.made);
        count = omega (arith, r.count, s.count, length-append r.tasks s.tasks);
        worker_tasks_eq =
            s.worker_tasks_eq
            ∙ (ap (λ x. x ++ s.tasks) r.worker_tasks_eq
                ∙ append_assoc (worker_tasks t.spawned) r.tasks s.tasks);
        gates_eq =
            s.gates_eq
            ∙ (ap
                  (λ x.
                    x
                    ++ (batch_gates c (headers_from_descriptors format es)
                        u.spawned_common_dep_gate_ids).0)
                  r.gates_eq
                ∙ (append_assoc (gate_tasks t.spawned) first.0 _
                    ∙ (ap (λ (g : Gating). gate_tasks t.spawned ++ (first.0 ++ g.0)) late
                        ∙ ap (λ (g : Gating). gate_tasks t.spawned ++ g.0) (sym whole))));
        seen_eq =
            s.seen_eq ∙ (ap (λ (g : Gating). g.1) late ∙ ap (λ (g : Gating). g.1) (sym whole));
        same_total = s.same_total ∙ r.same_total;
      }

  -- A batch message is decoded and spawned.
  batch-Spawned :
      (seq : ℕ) (b : List Phase4Descriptor) (t : SuitTask)
      → All IsSendable b
      → Spawned t b
          (custom_message_handler format c spawns "dependency_graph_spawn"
            (batch_object seq (map encode_descriptor b))
            t).1
  unfolding custom_message_handler handle_message handle_streamed_spawn_batch
  batch-Spawned seq b t k =
      let (hints, outpaths) = sendable_parts b k in
      let (infos, m) = headers-Made format c b outpaths in
      let hs = headers_from_descriptors format b in
      rw (decode_spawn_message-batch seq b hints, m)
        (spawn-Spawned t b infos (batch_gates c hs t.spawned_common_dep_gate_ids) m refl
          (batch_gates-AreGates hs t.spawned_common_dep_gate_ids))

  pub handle_all-append :
      (xs ys : List (String × Json)) (t : SuitTask)
      → handle_all format c spawns (xs ++ ys) t
        ≡ handle_all format c spawns ys (handle_all format c spawns xs t)
  unfolding handle_all
  handle_all-append [] ys t = refl
  handle_all-append ((topic, value) ∷ xs) ys t =
      handle_all-append xs ys (custom_message_handler format c spawns topic value t).1

  -- Batches, whatever their numbers, are spawned as one batch of their descriptors would be.
  pub batches-Spawned :
      (seq : ℕ) (bs : List (List Phase4Descriptor)) (t : SuitTask)
      → All (All IsSendable) bs
      → Spawned t (concat bs) (handle_all format c spawns (batch_values seq bs) t)
  unfolding handle_all
  batches-Spawned seq [] t k = Spawned-none t
  batches-Spawned seq (b ∷ bs) t k =
      let u =
        (custom_message_handler format c spawns "dependency_graph_spawn"
          (batch_object seq (map encode_descriptor b)) t).1 in
      Spawned-append t u (handle_all format c spawns (batch_values (seq + 1) bs) u) b (concat bs)
        (batch-Spawned seq b t k.0) (batches-Spawned (seq + 1) bs u k.1)

  abbrev pub recorded : ℕ → ℕ → Dict String ℤ → SuitTask → SuitTask
  recorded total batches counters t = record t {
    streamed_expected_total = some (pos total);
    streamed_summary_batches = some (pos batches);
    streamed_summary_counters = some counters;
  }

  summary-handled :
      (total batches : ℕ) (counters : Dict String ℤ) (t : SuitTask)
      → t.streamed_expected_total ≡ none
      → custom_message_handler format c spawns "dependency_graph_summary"
          (summary_object total batches counters)
          t
        ≡ (ok tt, recorded total batches counters t)
  unfolding custom_message_handler handle_message handle_streamed_summary
  summary-handled total batches counters t p =
      rw (decode_spawn_message-summary total batches counters, p) refl

  -- The first summary is recorded.
  pub summary-recorded :
      (total batches : ℕ) (counters : Dict String ℤ) (t : SuitTask)
      → t.streamed_expected_total ≡ none
      → handle_all format c spawns (summary_value total batches counters ∷ []) t
        ≡ recorded total batches counters t
  unfolding handle_all
  summary-recorded total batches counters t p =
      ap (λ (r : Handled). r.1) (summary-handled total batches counters t p)
