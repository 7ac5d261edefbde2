-- ===== src/StreamedSpawn/Encoder.antt =====
-- `SpawnBatchEncoder` of streamed_spawn.py. A method takes the encoder and returns its result and
-- the encoder that it leaves, also where it raises. Bytes are code points: the text is ASCII.
use asm_dataset_nix.Prelude.{
  ℕ, ◌+◌, String, Option, none, some, List, [], ◌∷◌, ◌++◌, length, drop_last, leb, ltb, nat_beq,
  if◌then◌else◌,
}
use asm_dataset_nix.Prelude.Int.{ℤ, pos}
use asm_dataset_nix.Prelude.Dict.{Dict}
use asm_dataset_nix.Prelude.Result.{ok, err}
use asm_dataset_nix.Json.{Json, int, str, object, array}
use asm_dataset_nix.Json.Dumps.{Text, dumps}
use asm_dataset_nix.StreamedSpawn.Checks.{Checked, too_large, not_positive, still_pending}
use asm_dataset_nix.StreamedSpawn.Codec.{Phase4Descriptor, encode_descriptor}

abbrev pub wire_version : ℤ
wire_version = pos 1

abbrev pub default_max_message_bytes : ℕ
default_max_message_bytes = 102400

abbrev pub max_batch_descriptors_default : ℕ
max_batch_descriptors_default = 200

-- The batch message as a value: the wire format in the comment at the top of the source.
abbrev pub batch_object : ℕ → List Json → Json
batch_object seq descriptors = object (
    ("v", int wire_version)
    ∷ ("kind", str "spawn_batch")
    ∷ ("seq", int (pos seq))
    ∷ ("descriptors", array descriptors)
    ∷ [])

abbrev pub summary_object : ℕ → ℕ → Dict String ℤ → Json
summary_object total batches counters = object (
    ("v", int wire_version)
    ∷ ("kind", str "summary")
    ∷ ("total", int (pos total))
    ∷ ("batches", int (pos batches))
    ∷ ("counters", object (mathlib.Core.List.map (λ p. (p.0, int p.1)) counters))
    ∷ [])

-- `_batch_envelope`
unfoldable pub batch_envelope : ℕ → Text
batch_envelope seq = dumps (batch_object seq [])

-- `_encode_descriptor_str`
unfoldable pub encode_descriptor_str : Phase4Descriptor → Text
encode_descriptor_str d = dumps (encode_descriptor d)

-- `",".join(parts)`
abbrev pub join_more : List Text → Text
join_more [] = []
join_more (p ∷ ps) = b',' ∷ (p ++ join_more ps)

abbrev pub join : List Text → Text
join [] = []
join (p ∷ ps) = p ++ join_more ps

pub record SpawnBatchEncoder : Type 0 where
  pub max_message_bytes : ℕ
  pub max_batch_descriptors : ℕ
  pub parts : List Text
  pub pending_bytes : ℕ
  pub batches_emitted : ℕ
  pub descriptors_emitted : ℕ

-- `__init__`
unfoldable pub new_encoder : ℕ → ℕ → Checked SpawnBatchEncoder
new_encoder max_bytes max_descriptors =
    if nat_beq max_bytes 0
    then err (not_positive "max_message_bytes")
    else if nat_beq max_descriptors 0
    then err (not_positive "max_batch_descriptors")
    else ok (record {
      max_message_bytes = max_bytes;
      max_batch_descriptors = max_descriptors;
      parts = [];
      pending_bytes = 0;
      batches_emitted = 0;
      descriptors_emitted = 0;
    })

-- `_emit`
unfoldable pub emit : SpawnBatchEncoder → Text × SpawnBatchEncoder
emit e = (
  drop_last 2 (batch_envelope e.batches_emitted) ++ join e.parts ++ (b']' ∷ b'}' ∷ []),
  record e {
    descriptors_emitted = e.descriptors_emitted + length e.parts;
    batches_emitted = e.batches_emitted + 1;
    parts = [];
    pending_bytes = 0;
  },
)

abbrev pub Added : Type 0
Added = Checked (Option Text) × SpawnBatchEncoder

-- The end of both branches of `add` that keep the descriptor in the pending batch.
unfoldable pub emit_if_full : SpawnBatchEncoder → Added
emit_if_full e =
    if leb e.max_batch_descriptors (length e.parts)
    then (let (message, e') = emit e in (ok (some message), e'))
    else (ok none, e)

-- `add`, on the encoded descriptor, by whether the pending batch is empty.
unfoldable pub add_part : List Text → Text → SpawnBatchEncoder → Added
add_part [] part e =
    if ltb e.max_message_bytes (length (batch_envelope e.batches_emitted) + length part)
    then (err (too_large (length part) e.max_message_bytes), e)
    else emit_if_full (record e { parts = part ∷ []; pending_bytes = length part })
add_part (p ∷ ps) part e =
    if leb (length (batch_envelope e.batches_emitted) + e.pending_bytes + 1 + length part)
      e.max_message_bytes
    then emit_if_full (record e {
      parts = (p ∷ ps) ++ part ∷ [];
      pending_bytes = e.pending_bytes + (1 + length part);
    })
    else if ltb e.max_message_bytes (length (batch_envelope (e.batches_emitted + 1)) + length part)
    then (err (too_large (length part) e.max_message_bytes), e)
    else (let (message, e') = emit e in
        (ok (some message), record e' { parts = part ∷ []; pending_bytes = length part }))

unfoldable pub add : Phase4Descriptor → SpawnBatchEncoder → Added
add d e = add_part e.parts (encode_descriptor_str d) e

unfoldable pub flush_parts : List Text → SpawnBatchEncoder → Option Text × SpawnBatchEncoder
flush_parts [] e = (none, e)
flush_parts (p ∷ ps) e = let (message, e') = emit e in (some message, e')

unfoldable pub flush : SpawnBatchEncoder → Option Text × SpawnBatchEncoder
unfolding flush_parts
flush e = flush_parts e.parts e

-- `encode_summary`; the counters are a dict of texts to integers, as its annotation says.
unfoldable pub summary_of : List Text → Dict String ℤ → SpawnBatchEncoder → Checked Text
summary_of (p ∷ ps) counters e = err (still_pending (length (p ∷ ps)))
summary_of [] counters e =
    let message = dumps (summary_object e.descriptors_emitted e.batches_emitted counters) in
    if ltb e.max_message_bytes (length message)
    then err (too_large (length message) e.max_message_bytes)
    else ok message

unfoldable pub encode_summary : Dict String ℤ → SpawnBatchEncoder → Checked Text
unfolding summary_of
encode_summary counters e = summary_of e.parts counters e
