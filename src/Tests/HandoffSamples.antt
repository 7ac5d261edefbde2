-- ===== src/Tests/HandoffSamples.antt =====
-- Runs of the primary's side of the stream, and its theorems at concrete inputs.
use asm_dataset_nix.Prelude.{
  string_eq, String, ◌≡◌, refl, true, false, some, none, List, [], ◌∷◌, ◌++◌, map, All, arith,
}
use asm_dataset_nix.Prelude.Int.{pos}
use asm_dataset_nix.Prelude.Dict.{get, put}
use asm_dataset_nix.Prelude.Result.{ok, err}
use asm_dataset_nix.Prelude.Contains.{IsDistinct}
use asm_dataset_nix.Json.{Json, null, bool, str}
use asm_dataset_nix.Json.Dumps.{dumps}
use asm_dataset_nix.StreamedSpawn.Codec.{Phase4Descriptor, encode_descriptor, decode_descriptor}
use asm_dataset_nix.StreamedSpawn.Encoder.{
  encode_descriptor_str, batch_envelope, new_encoder, add, add_part, emit_if_full, encode_summary,
  flush, emit,
}
use asm_dataset_nix.StreamedSpawn.Stream.{
  stream_descriptors, count_kinds, stream_from, send_all, finish,
}
use asm_dataset_nix.StreamedSpawn.Decoder.{decode_spawn_message}
use asm_dataset_nix.Handoff.TaskIds.{
  import_tc_task_id, ident_from_common_dep_task_id, toolchain_id_for_outpath, gate_of_task,
}
use asm_dataset_nix.Prelude.Order.{str_le}
use asm_dataset_nix.Prelude.Sorting.{sorted_by}
use asm_dataset_nix.Handoff.Gating.{task_ids}
use asm_dataset_nix.Handoff.Discover.{discover_import_gate_tasks}
use asm_dataset_nix.Handoff.Discovered.{IsDiscovered, IsOfRun, variant_gates-IsDiscovered}
use asm_dataset_nix.Handoff.Headers.{ManifestHeader, headers_from_descriptors}
use asm_dataset_nix.Handoff.Tasks.{
  variant_gates, fixed_gates, SuitTaskConfig, common_dep_gates_enabled, toolchain_gate,
  dependency_graph, mismatch, no_summary,
}
use asm_dataset_nix.StreamedSpawn.Encoder.{batch_object}
use asm_dataset_nix.Handoff.Tasks.{spawn_raised}
use asm_dataset_nix.Handoff.Suit.{
  Handled, raises, SuitTask, on_phase_start, on_phase_end, custom_message_handler, handle_all,
}
use asm_dataset_nix.Handoff.Handling.{batch_values, summary_value}
use asm_dataset_nix.Handoff.Sent.{AreTextsOf}
use asm_dataset_nix.Handoff.Reconciled.{
  Reconciled, after, header_count, stream_descriptors-Reconciled, lost-raises,
}
use asm_dataset_nix.Handoff.Affine.{plan_gates, WaitsWithin, plan_phase4_from_graph-WaitsWithin}
use asm_dataset_nix.Handoff.Raising.{KeptOnRaise, custom_message_handler-raise}
use asm_dataset_nix.Tests.PlannerSamples.{graph, input, plan, planned}

-- Python's texts of the values that the samples hold.
abbrev format : Json → String
format null = "None"
format (bool true) = "True"
format (bool false) = "False"
format _ = ""

abbrev config : SuitTaskConfig
config = record {
  disable_task_deps = false;
  build_deps_local = true;
  common_deps_affine = true;
  has_matrix_eval_out_dir = true;
  per_binary_metadata = "zstd" ∷ "hello" ∷ [];
  toolchain_outpaths_map = ("gcc", "/nix/store/tch-gcc") ∷ ("none", "") ∷ [];
}

abbrev fresh : SuitTask
fresh = record {
  streamed_spawned_count = 7;
  streamed_expected_total = some (pos 9);
  streamed_summary_counters = none;
  streamed_summary_batches = none;
  spawned_common_dep_gate_ids = "import_common_dep_old" ∷ [];
  spawned = [];
}

abbrev zlib : Phase4Descriptor
zlib = record {
  kind = "build_common_dep";
  task_id = "build_common_dep__abc-zlib";
  name = "zlib";
  payload = ("ident", str "abc-zlib") ∷ [];
  depends_on = [];
  build_compilers_depends_on = [];
  priority_hint = pos 10;
}

abbrev hello : Phase4Descriptor
hello = record {
  kind = "build_variant";
  task_id = "v1";
  name = "hello";
  payload = ("arch", str "x86_64") ∷ ("toolchain_outpath", str "/nix/store/tch-gcc") ∷ [];
  depends_on = "build_common_dep__abc-zlib" ∷ [];
  build_compilers_depends_on = "tc" ∷ [];
  priority_hint = pos 0;
}

family_ident :
    ident_from_common_dep_task_id "build_common_dep__family__x86__abc-zlib" ≡ some "abc-zlib"
unfolding ident_from_common_dep_task_id
family_ident = refl

no_common_dep : ident_from_common_dep_task_id "build_variant__abc" ≡ none
unfolding ident_from_common_dep_task_id
no_common_dep = refl

toolchain_hash : toolchain_id_for_outpath "/nix/store/abc123-gcc-14.2.0" ≡ some "abc123"
unfolding toolchain_id_for_outpath
toolchain_hash = refl

bare_dash : toolchain_id_for_outpath "/nix/store/-gcc" ≡ none
unfolding toolchain_id_for_outpath
bare_dash = refl

-- The gate comes after the tasks of its batch, and only once.
spawned_ids :
    map {B = String}
      (λ i. i.task_id)
      (after format config fresh (batch_values 0 ((zlib ∷ hello ∷ []) ∷ (zlib ∷ []) ∷ []))).spawned
    ≡ "build_common_dep__abc-zlib" ∷ "v1" ∷ "import_common_dep_abc" ∷ "build_common_dep__abc-zlib"
      ∷ []
unfolding handle_all custom_message_handler on_phase_start decode_spawn_message get put
    encode_descriptor decode_descriptor headers_from_descriptors gate_of_task toolchain_gate
spawned_ids = refl

small_stream : (stream_descriptors (zlib ∷ hello ∷ [])).0 ≡ ok tt
unfolding stream_descriptors dumps encode_descriptor encode_descriptor_str batch_envelope
    count_kinds get put new_encoder stream_from send_all add add_part emit_if_full finish
    encode_summary flush emit
small_stream = refl

stream_descriptors-Reconciled_example :
    (values : List (String × Json)) × AreTextsOf (stream_descriptors (zlib ∷ hello ∷ [])).1 values
    × Reconciled format config fresh (zlib ∷ hello ∷ []) values
unfolding get
stream_descriptors-Reconciled_example =
    stream_descriptors-Reconciled format config fresh (zlib ∷ hello ∷ [])
      ((refl, ("", refl)), ((refl, ("/nix/store/tch-gcc", refl)), tt)) small_stream

lost-raises_example :
    (on_phase_end true dependency_graph (
        after format config fresh
          ((batch_values 0 ((zlib ∷ []) ∷ []) ++ batch_values 2 []) ++ summary_value 2 2 [] ∷ []))
      ≡ err (mismatch (header_count format (zlib ∷ [])) (pos 2)))
    × (on_phase_end true dependency_graph
          (after format config fresh (batch_values 0 ((zlib ∷ []) ∷ (hello ∷ []) ∷ [])))
        ≡ err (no_summary (header_count format (zlib ∷ hello ∷ []))))
unfolding get
lost-raises_example =
    lost-raises format config fresh ((zlib ∷ []) ∷ []) [] (hello ∷ []) 2 []
      (((refl, ("", refl)), tt), (((refl, ("/nix/store/tch-gcc", refl)), tt), tt)) (omega arith)

plan_phase4_from_graph-WaitsWithin_example :
    IsDistinct (plan_gates format config plan)
    × All (WaitsWithin (plan_gates format config plan)) (headers_from_descriptors format plan)
unfolding common_dep_gates_enabled
plan_phase4_from_graph-WaitsWithin_example =
    plan_phase4_from_graph-WaitsWithin format config graph "linux" (input ∷ []) plan planned refl
      refl

-- The message of a batch, for a handle whose `spawn_tasks` raises.
abbrev refused : Handled
refused =
    custom_message_handler format config raises "dependency_graph_spawn"
      (batch_object 0 (map encode_descriptor (zlib ∷ hello ∷ []))) fresh

-- The gate is recorded all the same.
recorded_gates :
    refused.1.spawned_common_dep_gate_ids ≡ "import_common_dep_old" ∷ "import_common_dep_abc" ∷ []
unfolding custom_message_handler decode_spawn_message get put encode_descriptor decode_descriptor
    headers_from_descriptors gate_of_task toolchain_gate
recorded_gates = refl

custom_message_handler-raise_example : KeptOnRaise fresh spawn_raised refused.1
unfolding custom_message_handler decode_spawn_message get put encode_descriptor decode_descriptor
    headers_from_descriptors gate_of_task toolchain_gate
custom_message_handler-raise_example =
    custom_message_handler-raise fresh format config raises "dependency_graph_spawn"
      (batch_object 0 (map encode_descriptor (zlib ∷ hello ∷ []))) spawn_raised refl

discovered_ids :
    task_ids (discover_import_gate_tasks config)
    ≡ "import_toolchain_drv" ∷ "import_matrix_drv_hello" ∷ "import_matrix_drv_zstd"
      ∷ "import_common" ∷ "import_build_deps" ∷ "import_tc_tch" ∷ []
unfolding discover_import_gate_tasks import_tc_task_id sorted_by str_le
discovered_ids = refl

-- Without outpaths no gate `import_common` is discovered, though each build task waits for it.
no_common_gate :
    task_ids (discover_import_gate_tasks (record config { toolchain_outpaths_map = [] }))
    ≡ "import_toolchain_drv" ∷ "import_matrix_drv_hello" ∷ "import_matrix_drv_zstd" ∷ []
unfolding discover_import_gate_tasks sorted_by str_le
no_common_gate = refl

abbrev hello_header : ManifestHeader
hello_header = record {
  item_class = "build_variant";
  name = "hello";
  size = 0;
  payload = ("pkg", str "hello") ∷ ("toolchain_outpath", str "/nix/store/tch-gcc") ∷ [];
  task_id = "v1";
  task_depends_on = [];
  build_compilers_depends_on = [];
  priority_hint = pos 0;
}

hello-IsOfRun : IsOfRun config hello_header
unfolding get
hello-IsOfRun = record {
  pkg = "hello";
  pkg_eq = refl;
  pkg_known = refl;
  outpath = "/nix/store/tch-gcc";
  outpath_eq = refl;
  outpath_known = refl;
}

variant_gates-IsDiscovered_example :
    (gates : List String) × (variant_gates format config hello_header ≡ ok gates)
    × All (IsDiscovered config) (fixed_gates config ++ gates)
variant_gates-IsDiscovered_example =
    variant_gates-IsDiscovered config format hello_header (omega arith) hello-IsOfRun
