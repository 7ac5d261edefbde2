-- ===== src/StreamedSpawn/Stream.antt =====
-- `_stream_descriptors` of workers/dependency_graph_worker/run.py: the producer of the messages.
-- `task.send_message` is the list of the messages sent, each with its topic; it does not fail.
use asm_dataset_nix.Prelude.{string_eq, ℕ, ◌+◌, String, Option, none, some, List, [], ◌∷◌, ◌++◌}
use asm_dataset_nix.Prelude.Int.{ℤ, pos}
use asm_dataset_nix.Prelude.Dict.{Dict, get, put, or_else}
use asm_dataset_nix.Prelude.Result.{ok, err}
use asm_dataset_nix.Json.Dumps.{Text}
use asm_dataset_nix.StreamedSpawn.Checks.{Checked}
use asm_dataset_nix.StreamedSpawn.Codec.{Phase4Descriptor}
use asm_dataset_nix.StreamedSpawn.Encoder.{
  SpawnBatchEncoder, new_encoder, default_max_message_bytes, max_batch_descriptors_default, add,
  flush, encode_summary,
}

pub data Topic : Type 0 where
  spawn_topic summary_topic : Topic

abbrev pub Sent : Type 0
Sent = List (Topic × Text)

-- `_send_batch(message)`, if there is a message.
abbrev pub send_batch : Option Text → Sent
send_batch none = []
send_batch (some m) = (spawn_topic, m) ∷ []

-- The rest of a round of the loop, after `add`: `go_on` is the rounds that follow.
abbrev pub after_add :
    Checked (Option Text) × SpawnBatchEncoder
    → (SpawnBatchEncoder → Checked SpawnBatchEncoder × Sent)
    → Checked SpawnBatchEncoder × Sent
after_add (err x, e) go_on = (err x, [])
after_add (ok message, e) go_on = let (rest, sent) = go_on e in (rest, send_batch message ++ sent)

-- The `for` loop. What was sent before a raise stays sent.
unfoldable pub send_all :
    List Phase4Descriptor → SpawnBatchEncoder → Checked SpawnBatchEncoder × Sent
send_all [] e = (ok e, [])
send_all (d ∷ ds) e = after_add (add d e) (send_all ds)

-- `collections.Counter(d.kind for d in descriptors)`
unfoldable pub count_kinds : Dict String ℕ → List Phase4Descriptor → Dict String ℕ
count_kinds counts [] = counts
count_kinds counts (d ∷ ds) = count_kinds (put d.kind (or_else 0 (get d.kind counts) + 1) counts) ds

abbrev pub counters_json : Dict String ℕ → Dict String ℤ
counters_json = mathlib.Core.List.map (λ p. (p.0, pos p.1))

-- After the loop: the remainder, then the summary.
abbrev pub after_summary : Option Text → Checked Text → Checked (Unit {0}) × Sent
after_summary remainder (err x) = (err x, send_batch remainder)
after_summary remainder (ok message) =
    (ok tt, send_batch remainder ++ (summary_topic, message) ∷ [])

unfoldable pub finish : List Phase4Descriptor → SpawnBatchEncoder → Checked (Unit {0}) × Sent
finish ds e =
    let (remainder, e') = flush e in
    after_summary remainder (encode_summary (counters_json (count_kinds [] ds)) e')

abbrev pub after_loop :
    List Phase4Descriptor → Checked SpawnBatchEncoder × Sent → Checked (Unit {0}) × Sent
after_loop ds (err x, sent) = (err x, sent)
after_loop ds (ok e, sent) = let (done, last) = finish ds e in (done, sent ++ last)

unfoldable pub stream_from : List Phase4Descriptor → SpawnBatchEncoder → Checked (Unit {0}) × Sent
stream_from ds e = after_loop ds (send_all ds e)

unfoldable pub stream_descriptors : List Phase4Descriptor → Checked (Unit {0}) × Sent
stream_descriptors ds = elim (new_encoder default_max_message_bytes max_batch_descriptors_default) [
  | err x ↦ (err x, [])
  | ok e ↦ stream_from ds e
]
