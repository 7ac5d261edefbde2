-- ===== src/Handoff/Raising.antt =====
-- What a raise of the handler leaves, and what a summary that comes again does.
use asm_dataset_nix.Prelude.{
  string_eq, String, ◌≡◌, ◌≢◌, refl, subst, sym, Bool, true, false, List, if◌then◌else◌, ◌||◌, ◌==◌,
  arith,
}
use asm_dataset_nix.Prelude.Int.{ℤ}
use asm_dataset_nix.Prelude.Dict.{Dict}
use asm_dataset_nix.Prelude.Result.{Result, ok, err}
use asm_dataset_nix.Json.{Json}
use asm_dataset_nix.StreamedSpawn.Checks.{ValueError}
use asm_dataset_nix.StreamedSpawn.Decoder.{Message, spawn_batch, summary, decode_spawn_message}
use asm_dataset_nix.Handoff.Headers.{ManifestHeader, headers_from_descriptors}
use asm_dataset_nix.Handoff.Tasks.{
  HandoffError, spawn_raised, TaskInfo, SuitTaskConfig, task_infos_of,
}
use asm_dataset_nix.Handoff.Suit.{
  PrimaryHandle, no_handle, raises, spawns, is_handle, spawn_with, Gating, batch_gates, SuitTask,
  Handled, spawn_made, handle_decoded, handle_message, handle_streamed_spawn_batch,
  handle_streamed_summary, custom_message_handler,
}

-- After a raise nothing is spawned, counted or recorded of a summary; only when `spawn_tasks` itself
-- raised can the gates of common dependencies be recorded.
pub record KeptOnRaise (t : SuitTask) (x : HandoffError) (t' : SuitTask) : Type 0 where
  pub same_spawned : t'.spawned ≡ t.spawned
  pub same_count : t'.streamed_spawned_count ≡ t.streamed_spawned_count
  pub same_total : t'.streamed_expected_total ≡ t.streamed_expected_total
  pub same_batches : t'.streamed_summary_batches ≡ t.streamed_summary_batches
  pub same_counters : t'.streamed_summary_counters ≡ t.streamed_summary_counters
  pub same_gates : x ≢ spawn_raised → t'.spawned_common_dep_gate_ids ≡ t.spawned_common_dep_gate_ids

abbrev KeepsOnRaise : SuitTask → Handled → Type 0
KeepsOnRaise t r = (x : HandoffError) → r.0 ≡ err x → KeptOnRaise t x r.1

module _ (t : SuitTask) where
  unchanged : (x : HandoffError) → KeptOnRaise t x t
  unchanged x = record {
    same_spawned = refl;
    same_count = refl;
    same_total = refl;
    same_batches = refl;
    same_counters = refl;
    same_gates = λ h. refl;
  }

  KeepsOnRaise-if :
      (b : Bool) (r s : Handled)
      → KeepsOnRaise t r
      → KeepsOnRaise t s
      → KeepsOnRaise t (if b then r else s)
  KeepsOnRaise-if true r s h k = h
  KeepsOnRaise-if false r s h k = k

  summary-KeepsOnRaise :
      (total batches : ℤ) (counters : Dict String ℤ)
      → KeepsOnRaise t (handle_streamed_summary total batches counters t)
  unfolding handle_streamed_summary
  summary-KeepsOnRaise total batches counters x p =
      subst (KeptOnRaise t x) (sym (kept p)) (unchanged x)
    where
      kept :
          (handle_streamed_summary total batches counters t).0 ≡ err x
          → (handle_streamed_summary total batches counters t).1 ≡ t
      kept q = ground (arith, q)

  module _ (format : Json → String) (c : SuitTaskConfig) (handle : PrimaryHandle) where
    spawn_with-KeepsOnRaise :
        (h : PrimaryHandle) (infos : List TaskInfo) (g : Gating)
        → KeepsOnRaise t (spawn_with h infos g t)
    spawn_with-KeepsOnRaise no_handle infos g x p = unchanged x
    spawn_with-KeepsOnRaise raises infos g x p = record {
      same_spawned = refl;
      same_count = refl;
      same_total = refl;
      same_batches = refl;
      same_counters = refl;
      same_gates = λ h. absurd (h (cc p));
    }
    spawn_with-KeepsOnRaise spawns infos g x p = absurd (cc p)

    spawn_made-KeepsOnRaise :
        (hs : List ManifestHeader) (made : Result HandoffError (List TaskInfo))
        → KeepsOnRaise t (spawn_made format c handle hs made t)
    spawn_made-KeepsOnRaise hs (err x) y p = unchanged y
    spawn_made-KeepsOnRaise hs (ok infos) y p =
        spawn_with-KeepsOnRaise handle infos (batch_gates c hs t.spawned_common_dep_gate_ids) y p

    message-KeepsOnRaise :
        (message : Message) → KeepsOnRaise t (handle_message format c handle message t)
    unfolding handle_message handle_streamed_spawn_batch
    message-KeepsOnRaise (spawn_batch seq ds) =
        KeepsOnRaise-if (is_handle handle) _ _
          (spawn_made-KeepsOnRaise (headers_from_descriptors format ds)
            (task_infos_of format c (headers_from_descriptors format ds)))
          (λ x p. unchanged x)
    message-KeepsOnRaise (summary total batches counters) =
        summary-KeepsOnRaise total batches counters

    decoded-KeepsOnRaise :
        (r : Result ValueError Message) → KeepsOnRaise t (handle_decoded format c handle r t)
    decoded-KeepsOnRaise (err y) x p = unchanged x
    decoded-KeepsOnRaise (ok message) x p = message-KeepsOnRaise message x p

    -- After a message whose handling raises, whatever its topic, its content and the handle, no task
    -- is spawned or counted and nothing of a summary is recorded; and unless it was `spawn_tasks` that
    -- raised, the recorded gates are the same too.
    pub custom_message_handler-raise :
        (topic : String) (value : Json) (x : HandoffError)
        → (custom_message_handler format c handle topic value t).0 ≡ err x
        → KeptOnRaise t x (custom_message_handler format c handle topic value t).1
    unfolding custom_message_handler
    custom_message_handler-raise topic value =
        KeepsOnRaise-if (topic == "dependency_graph_spawn" || topic == "dependency_graph_summary") _
          _ (decoded-KeepsOnRaise (decode_spawn_message value)) (λ x p. unchanged x)
