-- ===== src/StreamedSpawn/Adding.antt =====
-- What one call of `add` does, on every branch.
use asm_dataset_nix.Prelude.{
  ℕ, ◌+◌, ◌≤◌, ◌<◌, ◌≡◌, refl, ap, sym, ◌∙◌, none, some, List, [], ◌∷◌, ◌++◌, map, length,
  length-append, length-map, arith, leb, ltb, Bool-cases, inl, inr,
}
use mathlib.Core.List.{map-append, append-nil}
use asm_dataset_nix.Prelude.Result.{ok, err}
use asm_dataset_nix.Json.Dumps.{Text}
use asm_dataset_nix.StreamedSpawn.Checks.{ValueError}
use asm_dataset_nix.StreamedSpawn.Codec.{Phase4Descriptor}
use asm_dataset_nix.StreamedSpawn.Encoder.{
  Added, SpawnBatchEncoder, batch_envelope, encode_descriptor_str, join, emit, emit_if_full,
  add_part, add,
}
use asm_dataset_nix.StreamedSpawn.Splice.{
  batch_message, emit_message, length-batch_message, length-join-append,
}

-- The encoder `e` holds the descriptors `ds` for its next batch, and has accounted for their size.
pub record Holds (e : SpawnBatchEncoder) (ds : List Phase4Descriptor) : Type 0 where
  pub parts_eq : e.parts ≡ map encode_descriptor_str ds
  pub bytes_eq : e.pending_bytes ≡ length (join e.parts)
  pub fits :
      0 < length ds
      → length (batch_envelope e.batches_emitted) + e.pending_bytes ≤ e.max_message_bytes
  pub room : length ds < e.max_batch_descriptors

-- The limits stay, and `n` batches of `k` descriptors in all have been emitted in between.
pub record Advanced (e e' : SpawnBatchEncoder) (n k : ℕ) : Type 0 where
  pub same_max_bytes : e'.max_message_bytes ≡ e.max_message_bytes
  pub same_max_descriptors : e'.max_batch_descriptors ≡ e.max_batch_descriptors
  pub batches_eq : e'.batches_emitted ≡ e.batches_emitted + n
  pub descriptors_eq : e'.descriptors_emitted ≡ e.descriptors_emitted + k

-- `m` is the message of the batch `ds`, under the next number and within both limits of `e`.
pub record IsBatch (e : SpawnBatchEncoder) (m : Text) (ds : List Phase4Descriptor) : Type 0 where
  pub message_eq : m ≡ batch_message e.batches_emitted ds
  pub size_le : length m ≤ e.max_message_bytes
  pub nonempty : 0 < length ds
  pub count_le : length ds ≤ e.max_batch_descriptors

-- The outcomes of adding `d` to an encoder that holds `ds`.
pub data Outcome (e : SpawnBatchEncoder) (ds : List Phase4Descriptor) (d : Phase4Descriptor)
    : Added → Type 0 where
  rejected : (x : ValueError) → Outcome e ds d (err x, e)
  kept :
      (e' : SpawnBatchEncoder)
      → Holds e' (ds ++ d ∷ [])
      → Advanced e e' 0 0
      → Outcome e ds d (ok none, e')
  sent :
      (e' : SpawnBatchEncoder) (m : Text) (batch rest : List Phase4Descriptor)
      → batch ++ rest ≡ ds ++ d ∷ []
      → IsBatch e m batch
      → Holds e' rest
      → Advanced e e' 1 (length batch)
      → Outcome e ds d (ok (some m), e')

module _ (e : SpawnBatchEncoder) (ds : List Phase4Descriptor) where
  -- `emit` on held descriptors that are some and that fit.
  pub emit-IsBatch :
      e.parts ≡ map encode_descriptor_str ds
      → e.pending_bytes ≡ length (join e.parts)
      → length (batch_envelope e.batches_emitted) + e.pending_bytes ≤ e.max_message_bytes
      → 0 < length ds
      → length ds ≤ e.max_batch_descriptors
      → IsBatch e (emit e).0 ds
  emit-IsBatch p b f n c = record {
    message_eq = emit_message e ds p;
    size_le =
        rw (emit_message e ds p, length-batch_message)
          (let k : length (join (map encode_descriptor_str ds)) ≡ e.pending_bytes =
              rw (← p) (sym b) in
            omega arith);
    nonempty = n;
    count_le = c;
  }

  pub emit-Advanced : e.parts ≡ map encode_descriptor_str ds → Advanced e (emit e).1 1 (length ds)
  unfolding emit
  emit-Advanced p = record {
    same_max_bytes = refl;
    same_max_descriptors = refl;
    batches_eq = refl;
    descriptors_eq = rw (p, length-map) refl;
  }

-- After `emit` nothing is held.
pub emit-Holds : (e : SpawnBatchEncoder) → 0 < e.max_batch_descriptors → Holds (emit e).1 []
unfolding emit
emit-Holds e h = record { parts_eq = refl; bytes_eq = refl; fits = λ n. elim n [ ]; room = h }

module _ (e : SpawnBatchEncoder) (ds : List Phase4Descriptor) (d : Phase4Descriptor)
    (ps : List Text) (b : ℕ) where
  -- The encoder with `d` put into the pending batch.
  abbrev with_part : SpawnBatchEncoder
  with_part = record e { parts = ps; pending_bytes = b }

  length-snoc : ps ≡ map encode_descriptor_str (ds ++ d ∷ []) → length ps ≡ length ds + 1
  length-snoc p =
      rw (p, length-map encode_descriptor_str (ds ++ d ∷ [])) (length-append ds (d ∷ []))

  -- The end of the branches that keep `d` in the pending batch.
  pub emit_if_full-Outcome :
      ps ≡ map encode_descriptor_str (ds ++ d ∷ [])
      → b ≡ length (join ps)
      → length (batch_envelope e.batches_emitted) + b ≤ e.max_message_bytes
      → length ds < e.max_batch_descriptors
      → Outcome e ds d (emit_if_full with_part)
  unfolding emit_if_full
  emit_if_full-Outcome p q f r = elim (Bool-cases (leb e.max_batch_descriptors (length ps))) [
    | inl full ↦
        let batch =
          emit-IsBatch with_part (ds ++ d ∷ []) p q f (omega (arith, length-append ds (d ∷ [])))
            (omega (arith, length-append ds (d ∷ []))) in
        let steps = emit-Advanced with_part (ds ++ d ∷ []) p in
        rw full (
          sent (emit with_part).1 (emit with_part).0 (ds ++ d ∷ []) [] (append-nil _)
            (record {
              message_eq = batch.message_eq;
              size_le = batch.size_le;
              nonempty = batch.nonempty;
              count_le = batch.count_le;
            })
            (emit-Holds with_part (omega arith))
            (record {
              same_max_bytes = steps.same_max_bytes;
              same_max_descriptors = steps.same_max_descriptors;
              batches_eq = steps.batches_eq;
              descriptors_eq = steps.descriptors_eq;
            }))
    | inr more ↦
        let n = length-snoc p in
        rw more (
          kept with_part
            (record {
              parts_eq = p;
              bytes_eq = q;
              fits = λ _. f;
              room = ground (arith, length-append ds (d ∷ []));
            })
            (record {
              same_max_bytes = refl;
              same_max_descriptors = refl;
              batches_eq = omega arith;
              descriptors_eq = omega arith;
            }))
  ]

module _ (e : SpawnBatchEncoder) (d : Phase4Descriptor) where
  abbrev part : Text
  part = encode_descriptor_str d

  -- The size-triggered flush: `d` starts the next batch.
  sent_before :
      (ds : List Phase4Descriptor)
      → Holds e ds
      → 0 < length ds
      → length (batch_envelope (e.batches_emitted + 1)) + length part ≤ e.max_message_bytes
      → Outcome e ds d (
        ok (some (emit e).0),
        record (emit e).1 { parts = part ∷ []; pending_bytes = length part },
      )
  unfolding emit
  sent_before ds h n f =
      let steps = emit-Advanced e ds h.parts_eq in
      sent _ (emit e).0 ds (d ∷ []) refl
        (emit-IsBatch e ds h.parts_eq h.bytes_eq (h.fits n) n (omega (arith, h.room)))
        (record {
          parts_eq = refl;
          bytes_eq = ap length (sym (append-nil part));
          fits = λ _. f;
          room = omega (arith, h.room);
        })
        (record {
          same_max_bytes = refl;
          same_max_descriptors = refl;
          batches_eq = refl;
          descriptors_eq = steps.descriptors_eq;
        })

  add_part-Outcome :
      (ps : List Text) (ds : List Phase4Descriptor)
      → e.parts ≡ ps
      → Holds e ds
      → Outcome e ds d (add_part ps part e)
  unfolding add_part
  add_part-Outcome [] [] p h =
      elim (Bool-cases
        (ltb e.max_message_bytes (length (batch_envelope e.batches_emitted) + length part))) [
          | inl big ↦ rw big (rejected _)
          | inr small ↦ rw small (
              emit_if_full-Outcome e [] d (part ∷ []) (length part) refl
                (ap length (sym (append-nil part))) (ground arith) h.room)
        ]
  add_part-Outcome [] (x ∷ ds) p h = absurd (cc (h.parts_eq))
  add_part-Outcome (q ∷ ps) [] p h = absurd (cc (h.parts_eq))
  add_part-Outcome (q ∷ ps) (x ∷ ds) p h =
      elim (Bool-cases (
        leb (length (batch_envelope e.batches_emitted) + e.pending_bytes + 1 + length part)
          e.max_message_bytes)) [
            | inl fits ↦ rw fits (
                emit_if_full-Outcome e (x ∷ ds) d ((q ∷ ps) ++ part ∷ [])
                  (e.pending_bytes + (1 + length part))
                  (ap (λ t. t ++ part ∷ []) (sym p ∙ h.parts_eq)
                    ∙ sym (map-append encode_descriptor_str (x ∷ ds) (d ∷ [])))
                  (omega
                    (arith, length-join-append q ps part, ap (λ t. length (join t)) p, h.bytes_eq))
                  (ground arith) h.room)
            | inr full ↦
                rw full
                  (elim (Bool-cases (
                    ltb e.max_message_bytes
                      (length (batch_envelope (e.batches_emitted + 1)) + length part))) [
                        | inl big ↦ rw big (rejected _)
                        | inr small ↦ rw small (sent_before (x ∷ ds) h (omega arith) (ground arith))
                      ])
          ]

  -- `add` keeps the descriptor for a later batch, or sends a batch within both limits, or raises
  -- and leaves the encoder as it was.
  pub add-Outcome : (ds : List Phase4Descriptor) → Holds e ds → Outcome e ds d (add d e)
  unfolding add
  add-Outcome ds h = add_part-Outcome e.parts ds refl h
