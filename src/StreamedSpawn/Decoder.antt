-- ===== src/StreamedSpawn/Decoder.antt =====
-- `decode_spawn_message` of streamed_spawn.py, from the value that `json.loads` returns.
use asm_dataset_nix.Prelude.{string_eq, nat_eq, ℕ, ◌+◌, String, List, [], ◌∷◌, ◌==◌, if◌then◌else◌}
use asm_dataset_nix.Prelude.Int.{ℤ, pos, negsuc}
use asm_dataset_nix.Prelude.Dict.{Dict}
use asm_dataset_nix.Prelude.Result.{ok, err, ◌>>=◌, ◌>>◌, map_err}
use asm_dataset_nix.Json.{
  Json, int, str, arr, obj, Items, nil, cons, Fields, end, field, field_dict,
}
use asm_dataset_nix.StreamedSpawn.Checks.{
  Checked, not_a_dict, wrong_type, bad_version, unknown_kind, at_index, check_keys, check_int,
}
use asm_dataset_nix.StreamedSpawn.Codec.{Phase4Descriptor, decode_descriptor, item}

pub data Message : Type 0 where
  spawn_batch : (seq : ℤ) (descriptors : List Phase4Descriptor) → Message
  summary : (total batches : ℤ) (counters : Dict String ℤ) → Message

-- The loop over `enumerate(raw_descriptors)`.
unfoldable pub decode_descriptors : ℕ → Items → Checked (List Phase4Descriptor)
decode_descriptors i nil = ok []
decode_descriptors i (cons x xs) = do
  d ← map_err (at_index i) (decode_descriptor x)
  rest ← decode_descriptors (i + 1) xs
  ok (d ∷ rest)

unfoldable pub check_descriptors : Json → Checked (List Phase4Descriptor)
unfolding decode_descriptors
check_descriptors (arr xs) = decode_descriptors 0 xs
check_descriptors _ = err (wrong_type "descriptors")

-- The loop over `raw_counters.items()`.
unfoldable pub counters_of : Fields → Checked (Dict String ℤ)
counters_of end = ok []
counters_of (field k (int z) fs) = do rest ← counters_of fs; ok ((k, z) ∷ rest)
counters_of (field k _ fs) = err (wrong_type k)

unfoldable pub check_counters : Json → Checked (Dict String ℤ)
unfolding counters_of
check_counters (obj fs) = counters_of fs
check_counters _ = err (wrong_type "counters")

unfoldable pub check_version : Json → Checked (Unit {0})
check_version (int (pos n)) = if n == 1 then ok tt else err (bad_version (pos n))
check_version (int (negsuc n)) = err (bad_version (negsuc n))
check_version _ = err (wrong_type "v")

unfoldable pub decode_batch : Dict String Json → Checked Message
unfolding check_keys item check_int check_descriptors
decode_batch d = do
  check_keys d ("v" ∷ "kind" ∷ "seq" ∷ "descriptors" ∷ [])
  seq ← item "seq" d >>= check_int "seq"
  descriptors ← item "descriptors" d >>= check_descriptors
  ok (spawn_batch seq descriptors)

unfoldable pub decode_summary : Dict String Json → Checked Message
unfolding check_keys item check_int check_counters
decode_summary d = do
  check_keys d ("v" ∷ "kind" ∷ "total" ∷ "batches" ∷ "counters" ∷ [])
  total ← item "total" d >>= check_int "total"
  batches ← item "batches" d >>= check_int "batches"
  counters ← item "counters" d >>= check_counters
  ok (summary total batches counters)

unfoldable pub decode_kind : Dict String Json → Json → Checked Message
unfolding decode_batch decode_summary
decode_kind d (str kind) =
    if kind == "spawn_batch"
    then decode_batch d
    else if kind == "summary"
    then decode_summary d
    else err (unknown_kind kind)
decode_kind d _ = err (wrong_type "kind")

unfoldable pub decode_spawn_message : Json → Checked Message
unfolding check_version decode_kind item
decode_spawn_message (obj fs) = do
  let d = field_dict fs
  item "v" d >>= check_version
  item "kind" d >>= decode_kind d
decode_spawn_message _ = err not_a_dict
