-- ===== src/Handoff/Sent.antt =====
-- The messages that the worker sends, as the values that the primary reads.
use asm_dataset_nix.Prelude.{
  string_eq, ℕ, ◌+◌, String, ◌≡◌, ap, List, [], ◌∷◌, ◌++◌, map, length, concat, All,
  All-append_parts,
}
use asm_dataset_nix.Prelude.Int.{int_eq}
use asm_dataset_nix.Json.{Json}
use asm_dataset_nix.Json.Dumps.{Text, dumps}
use asm_dataset_nix.StreamedSpawn.Codec.{Phase4Descriptor}
use asm_dataset_nix.StreamedSpawn.Stream.{
  Topic, spawn_topic, summary_topic, Sent, count_kinds, counters_json,
}
use asm_dataset_nix.StreamedSpawn.Batches.{numbered}
use asm_dataset_nix.StreamedSpawn.Splice.{batch_message}
use asm_dataset_nix.StreamedSpawn.Delivery.{Delivered}
use asm_dataset_nix.Handoff.Handling.{batch_values, summary_value, IsSendable}

-- `SPAWN_TOPIC` and `SUMMARY_TOPIC`
abbrev pub topic_text : Topic → String
topic_text spawn_topic = "dependency_graph_spawn"
topic_text summary_topic = "dependency_graph_summary"

-- The messages that were sent are the texts of values.
abbrev pub AreTextsOf : Sent → List (String × Json) → Type 0
AreTextsOf out values =
    map {B = String × Text} (λ m. (topic_text m.0, m.1)) out
    ≡ map {B = String × Text} (λ v. (v.0, dumps v.1)) values

numbered-AreTextsOf :
    (seq : ℕ) (bs : List (List Phase4Descriptor)) (out : Sent) (values : List (String × Json))
    → AreTextsOf out values
    → AreTextsOf (numbered seq bs ++ out) (batch_values seq bs ++ values)
numbered-AreTextsOf seq [] out values p = p
numbered-AreTextsOf seq (b ∷ bs) out values p =
    ap {B = List (String × Text)} (λ t. ("dependency_graph_spawn", batch_message seq b) ∷ t)
      (numbered-AreTextsOf (seq + 1) bs out values p)

-- The texts of a stream that delivered all.
abbrev pub plan_values : List Phase4Descriptor → List (List Phase4Descriptor) → List (String × Json)
plan_values ds batches =
    batch_values 0 batches
    ++ summary_value (length ds) (length batches) (counters_json (count_kinds [] ds)) ∷ []

pub Delivered-AreTextsOf :
    {size most : ℕ} (ds : List Phase4Descriptor) (out : Sent) (d : Delivered size most ds out)
    → AreTextsOf out (plan_values ds d.batches)
Delivered-AreTextsOf ds out d = rw d.messages (
    numbered-AreTextsOf 0 d.batches ((summary_topic, d.summary) ∷ []) _
      (ap {B = List (String × Text)} (λ t. ("dependency_graph_summary", t) ∷ []) d.summary_eq))

pub All-concat :
    (bs : List (List Phase4Descriptor)) → All IsSendable (concat bs) → All (All IsSendable) bs
All-concat [] h = tt
All-concat (b ∷ bs) h =
    let (first, rest) = All-append_parts IsSendable b (concat bs) h in (first, All-concat bs rest)
