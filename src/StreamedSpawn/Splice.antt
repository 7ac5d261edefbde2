-- ===== src/StreamedSpawn/Splice.antt =====
-- The text that `_emit` splices together is the text of the whole message.
use mathlib.Core.List.{append_assoc}
use asm_dataset_nix.Prelude.{
  ℕ, ◌+◌, ◌≡◌, refl, List, [], ◌∷◌, ◌++◌, map, length, length-append, drop_last-append, arith,
}
use asm_dataset_nix.Prelude.Int.{pos}
use asm_dataset_nix.Json.{Json, items}
use asm_dataset_nix.Json.Dumps.{Text, codes, dumps, dumps_int, dumps_items, dumps_more_items}
use asm_dataset_nix.StreamedSpawn.Codec.{Phase4Descriptor, encode_descriptor}
use asm_dataset_nix.StreamedSpawn.Encoder.{
  batch_object, batch_envelope, encode_descriptor_str, join, join_more, SpawnBatchEncoder, emit,
}

-- The text before the descriptors.
batch_head : ℕ → Text
batch_head seq =
    codes "{\"v\":1,\"kind\":\"spawn_batch\",\"seq\":"
    ++ (dumps_int (pos seq) ++ codes ",\"descriptors\":[")

dumps-batch_object :
    (seq : ℕ) (js : List Json)
    → dumps (batch_object seq js) ≡ batch_head seq ++ (dumps_items (items js) ++ codes "]}")
unfolding dumps batch_head
dumps-batch_object seq js = simp append_assoc

dumps_more_items-map :
    (ds : List Phase4Descriptor)
    → dumps_more_items (items (map encode_descriptor ds)) ≡ join_more (map encode_descriptor_str ds)
unfolding dumps encode_descriptor_str
dumps_more_items-map [] = refl
dumps_more_items-map (d ∷ ds) = rw (dumps_more_items-map ds)

dumps_items-map :
    (ds : List Phase4Descriptor)
    → dumps_items (items (map encode_descriptor ds)) ≡ join (map encode_descriptor_str ds)
unfolding dumps encode_descriptor_str
dumps_items-map [] = refl
dumps_items-map (d ∷ ds) = rw (dumps_more_items-map ds)

-- The message of a batch, as a text.
abbrev pub batch_message : ℕ → List Phase4Descriptor → Text
batch_message seq ds = dumps (batch_object seq (map encode_descriptor ds))

batch_envelope_lem : (seq : ℕ) → batch_envelope seq ≡ batch_head seq ++ codes "]}"
unfolding batch_envelope dumps
batch_envelope_lem seq = dumps-batch_object seq []

batch_message_lem :
    (seq : ℕ) (ds : List Phase4Descriptor)
    → batch_message seq ds ≡ batch_head seq ++ (join (map encode_descriptor_str ds) ++ codes "]}")
batch_message_lem seq ds = rw (dumps-batch_object, dumps_items-map)

-- With the descriptors' encodings as its parts, the encoder emits the message of their batch.
pub emit_message :
    (e : SpawnBatchEncoder) (ds : List Phase4Descriptor)
    → e.parts ≡ map encode_descriptor_str ds
    → (emit e).0 ≡ batch_message e.batches_emitted ds
unfolding emit
emit_message e ds h =
    rw
      (
        batch_message_lem,
        batch_envelope_lem,
        h,
        drop_last-append (batch_head e.batches_emitted) (codes "]}"),
      )
      (append_assoc (batch_head e.batches_emitted) (join (map encode_descriptor_str ds))
        (codes "]}"))

-- The size that `add` accounts for is the size of the message.
pub length-batch_message :
    (seq : ℕ) (ds : List Phase4Descriptor)
    → length (batch_message seq ds)
      ≡ length (batch_envelope seq) + length (join (map encode_descriptor_str ds))
length-batch_message seq ds =
    rw (batch_message_lem, batch_envelope_lem)
      (omega (
        arith,
        length-append (batch_head seq) (join (map encode_descriptor_str ds) ++ codes "]}"),
        length-append (join (map encode_descriptor_str ds)) (codes "]}"),
        length-append (batch_head seq) (codes "]}"),
      ))

length-join_more-append :
    (ps qs : List Text)
    → length (join_more (ps ++ qs)) ≡ length (join_more ps) + length (join_more qs)
length-join_more-append [] qs = omega arith
length-join_more-append (p ∷ ps) qs = omega (
  arith,
  length-join_more-append ps qs,
  length-append p (join_more (ps ++ qs)),
  length-append p (join_more ps),
)

-- One more part costs its length and a comma.
pub length-join-append :
    (p : Text) (ps : List Text) (q : Text)
    → length (join ((p ∷ ps) ++ q ∷ [])) ≡ length (join (p ∷ ps)) + (1 + length q)
length-join-append p ps q = omega (
  arith,
  length-join_more-append ps (q ∷ []),
  length-append p (join_more (ps ++ q ∷ [])),
  length-append p (join_more ps),
  length-append q [],
)
