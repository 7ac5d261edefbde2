-- ===== src/Tests/SpawnSamples.antt =====
-- Runs of the streamed-spawn codec and encoder, and its theorems at a concrete input.
use asm_dataset_nix.Prelude.{zero, suc, ◌≡◌, refl, true, [], ◌∷◌, map, arith}
use asm_dataset_nix.Prelude.Int.{pos}
use asm_dataset_nix.Prelude.Dict.{put, get}
use asm_dataset_nix.Prelude.Result.{ok, err}
use asm_dataset_nix.Json.{str, bool, object, str_array}
use asm_dataset_nix.Json.Dumps.{codes, dumps}
use asm_dataset_nix.StreamedSpawn.Checks.{missing_fields, wrong_type}
use asm_dataset_nix.StreamedSpawn.Codec.{Phase4Descriptor, encode_descriptor, decode_descriptor}
use asm_dataset_nix.StreamedSpawn.Encoder.{
  SpawnBatchEncoder, batch_object, encode_descriptor_str, batch_envelope, add, emit,
  default_max_message_bytes, max_batch_descriptors_default,
}
use asm_dataset_nix.StreamedSpawn.Decoder.{decode_spawn_message, spawn_batch}
use asm_dataset_nix.StreamedSpawn.RoundTrip.{decode_spawn_message-batch}
use asm_dataset_nix.StreamedSpawn.Splice.{emit_message, batch_message}
use asm_dataset_nix.StreamedSpawn.Adding.{Outcome, Holds, add-Outcome}
use asm_dataset_nix.StreamedSpawn.Stream.{stream_descriptors, count_kinds}
use asm_dataset_nix.StreamedSpawn.Progress.{IsSmall, HasSmallSummary, stream_descriptors-ok}
use asm_dataset_nix.StreamedSpawn.Delivery.{StreamOutcome, stream_descriptors-StreamOutcome}

abbrev hello : Phase4Descriptor
hello = record {
  kind = "build_variant";
  task_id = "v1";
  name = "hello";
  payload = ("arch", str "x86_64") ∷ [];
  depends_on = "d1" ∷ "d2" ∷ [];
  build_compilers_depends_on = "tc" ∷ [];
  priority_hint = pos 0;
}

abbrev zlib : Phase4Descriptor
zlib = record {
  kind = "build_common_dep";
  task_id = "d1";
  name = "zlib";
  payload = [];
  depends_on = [];
  build_compilers_depends_on = [];
  priority_hint = pos 10;
}

-- An encoder for two descriptors a batch.
abbrev small : SpawnBatchEncoder
small = record {
  max_message_bytes = 1000;
  max_batch_descriptors = 2;
  parts = [];
  pending_bytes = 0;
  batches_emitted = 0;
  descriptors_emitted = 0;
}

zlib_text :
    encode_descriptor_str zlib
    ≡ codes
        "{\"kind\":\"build_common_dep\",\"task_id\":\"d1\",\"name\":\"zlib\",\"payload\":{},\"depends_on\":[],\"build_compilers_depends_on\":[],\"priority_hint\":10}"
unfolding encode_descriptor_str dumps encode_descriptor
zlib_text = refl

envelope_text :
    batch_envelope 12 ≡ codes "{\"v\":1,\"kind\":\"spawn_batch\",\"seq\":12,\"descriptors\":[]}"
unfolding batch_envelope dumps
envelope_text = refl

-- JSON's `true` is no priority.
bool_priority :
    decode_descriptor (
      object (
        ("kind", str "k")
        ∷ ("task_id", str "t")
        ∷ ("name", str "n")
        ∷ ("payload", object [])
        ∷ ("depends_on", str_array [])
        ∷ ("build_compilers_depends_on", str_array [])
        ∷ ("priority_hint", bool true)
        ∷ []))
    ≡ err (wrong_type "priority_hint")
unfolding decode_descriptor
bool_priority = refl

missing_kind :
    decode_descriptor (object (("task_id", str "t") ∷ []))
    ≡ err (
        missing_fields (
          "kind" ∷ "name" ∷ "payload" ∷ "depends_on" ∷ "build_compilers_depends_on"
          ∷ "priority_hint" ∷ []))
unfolding decode_descriptor
missing_kind = refl

decode_spawn_message-batch_example :
    decode_spawn_message (batch_object 3 (map encode_descriptor (zlib ∷ hello ∷ [])))
    ≡ ok (spawn_batch (pos 3) (zlib ∷ hello ∷ []))
decode_spawn_message-batch_example =
    decode_spawn_message-batch 3 (zlib ∷ hello ∷ []) (refl, (refl, tt))

abbrev holding : SpawnBatchEncoder
holding = record small { parts = encode_descriptor_str zlib ∷ []; pending_bytes = 124 }

emit_message_example : (emit holding).0 ≡ batch_message 0 (zlib ∷ [])
emit_message_example = emit_message holding (zlib ∷ []) refl

small-Holds : Holds small []
small-Holds = record {
  parts_eq = refl;
  bytes_eq = refl;
  fits = λ n. elim n [ ];
  room = omega arith;
}

add-Outcome_example : Outcome small [] zlib (add zlib small)
add-Outcome_example = add-Outcome small zlib [] small-Holds

stream_descriptors-StreamOutcome_example :
    StreamOutcome default_max_message_bytes max_batch_descriptors_default
      (zlib ∷ hello ∷ [])
      (stream_descriptors (zlib ∷ hello ∷ []))
stream_descriptors-StreamOutcome_example = stream_descriptors-StreamOutcome (zlib ∷ hello ∷ [])

zlib-IsSmall : IsSmall default_max_message_bytes 1 zlib
unfolding batch_envelope encode_descriptor_str encode_descriptor dumps
zlib-IsSmall zero k = omega arith
zlib-IsSmall (suc zero) k = omega arith
zlib-IsSmall (suc (suc n)) k = absurd (omega (arith, k))

zlib-HasSmallSummary : HasSmallSummary default_max_message_bytes (zlib ∷ [])
unfolding dumps count_kinds put get
zlib-HasSmallSummary zero k = omega arith
zlib-HasSmallSummary (suc zero) k = omega arith
zlib-HasSmallSummary (suc (suc n)) k = absurd (omega (arith, k))

stream_descriptors-ok_example : (stream_descriptors (zlib ∷ [])).0 ≡ ok tt
stream_descriptors-ok_example =
    stream_descriptors-ok (zlib ∷ []) (zlib-IsSmall, tt) zlib-HasSmallSummary
