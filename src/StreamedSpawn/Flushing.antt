-- ===== src/StreamedSpawn/Flushing.antt =====
-- Batches one behind another, and what `flush` makes of the descriptors that are left.
use mathlib.Core.List.{append_assoc, append-nil}
use asm_dataset_nix.Prelude.{
  ℕ, suc, ◌+◌, ◌≤◌, ◌<◌, ◌≡◌, ◌∙◌, refl, ap, sym, Option, List, [], ◌∷◌, ◌++◌, length, concat,
  All-append, arith,
}
use asm_dataset_nix.Json.Dumps.{Text}
use asm_dataset_nix.StreamedSpawn.Codec.{Phase4Descriptor}
use asm_dataset_nix.StreamedSpawn.Encoder.{SpawnBatchEncoder, flush_parts}
use asm_dataset_nix.StreamedSpawn.Splice.{batch_message}
use asm_dataset_nix.StreamedSpawn.Adding.{Holds, Advanced, emit-IsBatch, emit-Advanced, emit-Holds}
use asm_dataset_nix.StreamedSpawn.Batches.{numbered, Within}
use asm_dataset_nix.StreamedSpawn.Stream.{Topic, spawn_topic, send_batch}

pub numbered-append :
    (n : ℕ) (bs cs : List (List Phase4Descriptor))
    → numbered n (bs ++ cs) ≡ numbered n bs ++ numbered (n + length bs) cs
numbered-append n [] cs = ap (λ k. numbered k cs) (omega arith)
numbered-append n (b ∷ bs) cs =
    let e : n + 1 + length bs ≡ n + suc (length bs) = omega arith in
    ap (λ t. (spawn_topic, batch_message n b) ∷ t)
      (numbered-append (n + 1) bs cs ∙ ap (λ k. numbered (n + 1) bs ++ numbered k cs) e)

pub Within-append :
    {s c n : ℕ} (bs cs : List (List Phase4Descriptor))
    → Within s c n bs
    → Within s c (n + length bs) cs
    → Within s c n (bs ++ cs)
Within-append {s} {c} {n} bs cs v w = record {
  counts = All-append (λ b. (0 < length b) × (length b ≤ c)) bs cs v.counts w.counts;
  sizes = rw (numbered-append n bs cs) (
      All-append (λ (m : Topic × Text). length m.1 ≤ s) (numbered n bs)
        (numbered (n + length bs) cs) v.sizes w.sizes);
}

pub concat-append :
    (bs cs : List (List Phase4Descriptor)) → concat (bs ++ cs) ≡ concat bs ++ concat cs
concat-append [] cs = refl
concat-append (b ∷ bs) cs =
    ap (λ t. b ++ t) (concat-append bs cs) ∙ sym (append_assoc b (concat bs) (concat cs))

-- What `flush` does with the descriptors `rest` that the encoder holds: at most one batch.
pub record Flushed (e : SpawnBatchEncoder) (rest : List Phase4Descriptor)
    (r : Option Text × SpawnBatchEncoder) : Type 0 where
  pub batches : List (List Phase4Descriptor)
  pub all_in : concat batches ≡ rest
  pub messages : send_batch r.0 ≡ numbered e.batches_emitted batches
  pub within : Within e.max_message_bytes e.max_batch_descriptors e.batches_emitted batches
  pub empty : r.1.parts ≡ []
  pub steps : Advanced e r.1 (length batches) (length rest)

pub flush_parts-Flushed :
    (e : SpawnBatchEncoder) (ps : List Text) (rest : List Phase4Descriptor)
    → e.parts ≡ ps
    → Holds e rest
    → Flushed e rest (flush_parts ps e)
unfolding flush_parts
flush_parts-Flushed e [] [] p h = record {
  batches = [];
  all_in = refl;
  messages = refl;
  within = record { counts = tt; sizes = tt };
  empty = p;
  steps = record {
    same_max_bytes = refl;
    same_max_descriptors = refl;
    batches_eq = omega arith;
    descriptors_eq = omega arith;
  };
}
flush_parts-Flushed e [] (x ∷ xs) p h = absurd (cc h.parts_eq)
flush_parts-Flushed e (q ∷ ps) [] p h = absurd (cc h.parts_eq)
flush_parts-Flushed e (q ∷ ps) (x ∷ xs) p h =
    let i =
      emit-IsBatch e (x ∷ xs) h.parts_eq h.bytes_eq (h.fits (omega arith)) (omega arith)
        (omega (arith, h.room)) in
    let steps = emit-Advanced e (x ∷ xs) h.parts_eq in
    record {
      batches = (x ∷ xs) ∷ [];
      all_in = append-nil (x ∷ xs);
      messages = ap (λ t. (spawn_topic, t) ∷ []) i.message_eq;
      within = record {
        counts = ((i.nonempty, i.count_le), tt);
        sizes = (rw (← i.message_eq) i.size_le, tt);
      };
      empty = (emit-Holds e (omega (arith, h.room))).parts_eq;
      steps = steps;
    }
