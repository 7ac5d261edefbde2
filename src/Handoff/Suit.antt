-- ===== src/Handoff/Suit.antt =====
-- `SuitTask` of suit_task.py, as far as the stream reaches it: `on_phase_start`, the handler of the
-- messages and the barrier of `on_phase_end`. A method returns what it raised and the state that it
-- leaves. `value` is what `json.loads` reads of the bytes.
use asm_dataset_nix.Prelude.{
  string_eq, ℕ, ◌+◌, String, Bool, true, false, not, Option, none, some, List, [], ◌∷◌, ◌++◌,
  length, nat_beq, contains, ◌==◌, if◌then◌else◌, ◌&&◌, ◌||◌,
}
use asm_dataset_nix.Prelude.Int.{ℤ, pos, int_eq}
use asm_dataset_nix.Prelude.Dict.{Dict, get}
use asm_dataset_nix.Prelude.Result.{Result, ok, err}
use asm_dataset_nix.Json.{Json, str}
use asm_dataset_nix.Planner.Descriptors.{texts}
use asm_dataset_nix.StreamedSpawn.Checks.{ValueError}
use asm_dataset_nix.StreamedSpawn.Codec.{Phase4Descriptor}
use asm_dataset_nix.StreamedSpawn.Decoder.{Message, spawn_batch, summary, decode_spawn_message}
use asm_dataset_nix.Handoff.TaskIds.{gate_of_task}
use asm_dataset_nix.Handoff.Headers.{ManifestHeader, headers_from_descriptors}
use asm_dataset_nix.Handoff.Tasks.{
  Phase, dependency_graph, build, HandoffError, malformed, unknown_topic, no_primary_handle,
  spawn_raised, conflicting_summary, no_summary, mismatch, TaskInfo, same_phase, SuitTaskConfig,
  common_dep_gates_enabled, task_infos_of,
}

-- `spawned` is what was handed to `primary_handle.spawn_tasks`, whose errors are only logged.
pub record SuitTask : Type 0 where
  pub streamed_spawned_count : ℕ
  pub streamed_expected_total : Option ℤ
  pub streamed_summary_counters : Option (Dict String ℤ)
  pub streamed_summary_batches : Option ℤ
  pub spawned_common_dep_gate_ids : List String
  pub spawned : List TaskInfo

abbrev pub Handled : Type 0
Handled = Result HandoffError (Unit {0}) × SuitTask

unfoldable pub on_phase_start : Phase → SuitTask → SuitTask
on_phase_start dependency_graph t = record t {
  streamed_spawned_count = 0;
  streamed_expected_total = none;
  streamed_summary_counters = none;
  streamed_summary_batches = none;
  spawned_common_dep_gate_ids = [];
}
on_phase_start _ t = t

-- The barrier; `has_handle` is whether `_primary_handle` is set.
unfoldable pub reconcile : SuitTask → Result HandoffError (Unit {0})
reconcile t = elim t.streamed_expected_total [
  | none ↦ err (no_summary t.streamed_spawned_count)
  | some total ↦
      if pos t.streamed_spawned_count == total
      then ok tt
      else err (mismatch t.streamed_spawned_count total)
]

unfoldable pub on_phase_end : Bool → Phase → SuitTask → Result HandoffError (Unit {0})
unfolding reconcile
on_phase_end has_handle dependency_graph t = if has_handle then reconcile t else ok tt
on_phase_end has_handle _ t = ok tt

-- The import gate of a common dependency, which waits for its task.
unfoldable pub gate_info : String → String → String → TaskInfo
gate_info gate_id ident_str task_id = record {
  path = texts (gate_id ∷ ".json" ∷ []);
  size = 0;
  phase_id = build;
  type_id = "toolchain_import";
  affinity_id = none;
  payload =
      ("item_class", str "toolchain_import")
      ∷ ("task_id", str gate_id)
      ∷ ("ident", str ident_str)
      ∷ [];
  task_id = gate_id;
  task_depends_on = if task_id == "" then [] else same_phase task_id ∷ [];
  is_secondary_affine = true;
}

-- The gates that are new, and the ids of all gates so far.
abbrev pub Gating : Type 0
Gating = List TaskInfo × List String

-- A round of the loop, by the gate of the header, and the rounds that follow.
unfoldable pub add_gate :
    String → Option (String × String) → List String → (List String → Gating) → Gating
unfolding gate_info
add_gate task_id none seen go_on = go_on seen
add_gate task_id (some (gate_id, ident_str)) seen go_on = elim (contains gate_id seen) [
  | true ↦ go_on seen
  | false ↦
      let (gates, seen') = go_on (seen ++ gate_id ∷ []) in
      (gate_info gate_id ident_str task_id ∷ gates, seen')
]

-- `header.item_class != "build_common_dep"` skips the header.
abbrev pub gate_of_header : ManifestHeader → Option (String × String)
gate_of_header h = if h.item_class == "build_common_dep" then gate_of_task h.task_id else none

unfoldable pub build_common_dep_gate_infos : List ManifestHeader → List String → Gating
unfolding add_gate gate_of_task
build_common_dep_gate_infos [] seen = ([], seen)
build_common_dep_gate_infos (h ∷ hs) seen =
    add_gate h.task_id (gate_of_header h) seen (build_common_dep_gate_infos hs)

-- The handle that a call of the handler is given: none that can spawn, or one whose `spawn_tasks`
-- raises, or returns.
pub data PrimaryHandle : Type 0 where
  no_handle : PrimaryHandle
  raises : PrimaryHandle
  spawns : PrimaryHandle

-- The end of the handler of a batch, once its tasks are made, when `spawn_tasks` returns.
abbrev pub spawn : List TaskInfo → Gating → SuitTask → Handled
spawn infos (gates, seen) t = (
  ok tt,
  record t {
    spawned = t.spawned ++ (infos ++ gates);
    spawned_common_dep_gate_ids = seen;
    streamed_spawned_count = t.streamed_spawned_count + length infos;
  },
)

-- The gates of a batch, where they are enabled.
unfoldable pub batch_gates : SuitTaskConfig → List ManifestHeader → List String → Gating
unfolding common_dep_gates_enabled build_common_dep_gate_infos
batch_gates c hs seen =
    if common_dep_gates_enabled c && not c.disable_task_deps
    then build_common_dep_gate_infos hs seen
    else ([], seen)

-- Equality of two dicts, which have each key once: the order of the keys does not count.
abbrev pub all_in : Dict String ℤ → Dict String ℤ → Bool
all_in [] d = true
all_in ((k, v) ∷ rest) d = elim (get k d) [ none ↦ false | some w ↦ w == v ] && all_in rest d

unfoldable pub dict_beq : Dict String ℤ → Dict String ℤ → Bool
unfolding get
dict_beq d e = nat_beq (length d) (length e) && all_in d e

-- The comparison of a new summary with the one recorded.
unfoldable pub is_same_summary : ℤ → ℤ → ℤ → Dict String ℤ → SuitTask → Bool
unfolding dict_beq
is_same_summary recorded total batches counters t =
    recorded == total
    && (elim t.streamed_summary_batches [ none ↦ false | some b ↦ b == batches ]
        && elim t.streamed_summary_counters [ none ↦ false | some d ↦ dict_beq d counters ])

unfoldable pub handle_streamed_summary : ℤ → ℤ → Dict String ℤ → SuitTask → Handled
unfolding is_same_summary
handle_streamed_summary total batches counters t = elim t.streamed_expected_total [
  | some recorded ↦
      if is_same_summary recorded total batches counters t
      then (ok tt, t)
      else (err conflicting_summary, t)
  | none ↦ (
    ok tt,
    record t {
      streamed_expected_total = some total;
      streamed_summary_batches = some batches;
      streamed_summary_counters = some counters;
    },
  )
]

-- The gates are recorded before `spawn_tasks` is called.
abbrev pub spawn_with : PrimaryHandle → List TaskInfo → Gating → SuitTask → Handled
spawn_with no_handle infos g t = (err no_primary_handle, t)
spawn_with raises infos (gates, seen) t =
    (err spawn_raised, record t { spawned_common_dep_gate_ids = seen })
spawn_with spawns infos g t = spawn infos g t

abbrev pub is_handle : PrimaryHandle → Bool
is_handle no_handle = false
is_handle _ = true

module _ (format : Json → String) (c : SuitTaskConfig) (handle : PrimaryHandle) where
  abbrev pub spawn_made :
      List ManifestHeader → Result HandoffError (List TaskInfo) → SuitTask → Handled
  spawn_made hs (err x) t = (err x, t)
  spawn_made hs (ok infos) t =
      spawn_with handle infos (batch_gates c hs t.spawned_common_dep_gate_ids) t

  unfoldable pub handle_streamed_spawn_batch : List Phase4Descriptor → SuitTask → Handled
  unfolding headers_from_descriptors task_infos_of batch_gates
  handle_streamed_spawn_batch ds t =
      if is_handle handle
      then (let hs = headers_from_descriptors format ds in
          spawn_made hs (task_infos_of format c hs) t)
      else (err no_primary_handle, t)

  unfoldable pub handle_message : Message → SuitTask → Handled
  unfolding handle_streamed_spawn_batch handle_streamed_summary
  handle_message (spawn_batch seq ds) t = handle_streamed_spawn_batch ds t
  handle_message (summary total batches counters) t =
      handle_streamed_summary total batches counters t

  abbrev pub handle_decoded : Result ValueError Message → SuitTask → Handled
  handle_decoded (err x) t = (err (malformed x), t)
  handle_decoded (ok message) t = handle_message message t

  unfoldable pub custom_message_handler : String → Json → SuitTask → Handled
  unfolding handle_message decode_spawn_message
  custom_message_handler topic value t =
      if topic == "dependency_graph_spawn" || topic == "dependency_graph_summary"
      then handle_decoded (decode_spawn_message value) t
      else (err (unknown_topic topic), t)

  -- The framework calls the handler for one message after the other, and goes on after a raise.
  unfoldable pub handle_all : List (String × Json) → SuitTask → SuitTask
  unfolding custom_message_handler
  handle_all [] t = t
  handle_all ((topic, value) ∷ messages) t =
      handle_all messages (custom_message_handler topic value t).1

-- `worker_message_listener`: whether a message of the worker goes on to the primary.
unfoldable pub worker_message_listener : String → Bool
worker_message_listener topic =
    topic == "dependency_graph_spawn" || topic == "dependency_graph_summary"
