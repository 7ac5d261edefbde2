-- ===== src/StreamedSpawn/RoundTrip.antt =====
-- The decoders of streamed_spawn.py undo its encoders.
use asm_dataset_nix.Prelude.{
  string_eq, nat_eq, ℕ, ◌+◌, String, ◌≡◌, refl, false, List, [], ◌∷◌, map, All, arith,
}
use asm_dataset_nix.Prelude.Int.{ℤ, pos, negsuc, is_negative}
use asm_dataset_nix.Prelude.Dict.{Dict}
use asm_dataset_nix.Prelude.Result.{ok}
use asm_dataset_nix.Json.{int, str, items, fields, field_dict-fields}
use asm_dataset_nix.StreamedSpawn.Checks.{check_int, check_str_items}
use asm_dataset_nix.StreamedSpawn.Codec.{Phase4Descriptor, encode_descriptor, decode_descriptor}
use asm_dataset_nix.StreamedSpawn.Encoder.{batch_object, summary_object}
use asm_dataset_nix.StreamedSpawn.Decoder.{
  spawn_batch, summary, decode_descriptors, decode_spawn_message, counters_of,
}

-- The one thing that the decoder asks of a descriptor beyond its type.
abbrev pub HasHint : Phase4Descriptor → Type 0
HasHint d = is_negative d.priority_hint ≡ false

check_str_items-map :
    (field : String) (ss : List String) → check_str_items field (items (map str ss)) ≡ ok ss
unfolding check_str_items
check_str_items-map field [] = refl
check_str_items-map field (s ∷ ss) = rw (check_str_items-map field ss)

check_int-nonneg : (field : String) (z : ℤ) → is_negative z ≡ false → check_int field (int z) ≡ ok z
unfolding check_int
check_int-nonneg field (pos n) h = refl
check_int-nonneg field (negsuc n) h = ground arith

-- Decoding an encoded descriptor gives it back, where its priority hint is not negative.
pub decode_descriptor-encode :
    (d : Phase4Descriptor) → HasHint d → decode_descriptor (encode_descriptor d) ≡ ok d
unfolding encode_descriptor decode_descriptor check_str_items
decode_descriptor-encode d h = simp (
  field_dict-fields,
  check_str_items-map "depends_on" d.depends_on,
  check_str_items-map "build_compilers_depends_on" d.build_compilers_depends_on,
  check_int-nonneg "priority_hint" d.priority_hint h,
)

decode_descriptors-map :
    (i : ℕ) (ds : List Phase4Descriptor)
    → All HasHint ds
    → decode_descriptors i (items (map encode_descriptor ds)) ≡ ok ds
unfolding decode_descriptors
decode_descriptors-map i [] h = refl
decode_descriptors-map i (d ∷ ds) h =
    simp (decode_descriptor-encode d h.0, decode_descriptors-map (i + 1) ds h.1)

-- The consumer reads a batch message as its number and its descriptors, in order.
pub decode_spawn_message-batch :
    (seq : ℕ) (ds : List Phase4Descriptor)
    → All HasHint ds
    → decode_spawn_message (batch_object seq (map encode_descriptor ds))
      ≡ ok (spawn_batch (pos seq) ds)
unfolding decode_spawn_message
decode_spawn_message-batch seq ds h = simp (decode_descriptors-map 0 ds h)

counters_of-map :
    (counters : Dict String ℤ)
    → counters_of (fields (map (λ p. (p.0, int p.1)) counters)) ≡ ok counters
unfolding counters_of
counters_of-map [] = refl
counters_of-map ((k, z) ∷ counters) = simp (counters_of-map counters)

-- The consumer reads the summary message as the totals and the counters that it was made of.
pub decode_spawn_message-summary :
    (total batches : ℕ) (counters : Dict String ℤ)
    → decode_spawn_message (summary_object total batches counters)
      ≡ ok (summary (pos total) (pos batches) counters)
unfolding decode_spawn_message
decode_spawn_message-summary total batches counters = simp (counters_of-map counters)
