-- ===== src/StreamedSpawn/Batches.antt =====
-- The messages of a stream are the batches of its descriptors, with none lost, doubled or moved.
use mathlib.Core.List.{append_assoc, append-nil}
use asm_dataset_nix.Prelude.{
  ℕ, ◌+◌, ◌≤◌, ◌<◌, ◌≡◌, ◌∙◌, refl, ap, sym, some, List, [], ◌∷◌, ◌++◌, length, length-append,
  concat, All, arith,
}
use asm_dataset_nix.Prelude.Result.{ok, err}
use asm_dataset_nix.Json.Dumps.{Text}
use asm_dataset_nix.StreamedSpawn.Checks.{Checked, ValueError}
use asm_dataset_nix.StreamedSpawn.Codec.{Phase4Descriptor}
use asm_dataset_nix.StreamedSpawn.Encoder.{Added, SpawnBatchEncoder, add}
use asm_dataset_nix.StreamedSpawn.Splice.{batch_message}
use asm_dataset_nix.StreamedSpawn.Adding.{
  Holds, Advanced, IsBatch, Outcome, rejected, kept, sent, add-Outcome,
}
use asm_dataset_nix.StreamedSpawn.Stream.{Topic, spawn_topic, Sent, send_batch, after_add, send_all}

-- The messages of `batches`, numbered from `seq` without a gap.
abbrev pub numbered : ℕ → List (List Phase4Descriptor) → Sent
numbered seq [] = []
numbered seq (b ∷ bs) = (spawn_topic, batch_message seq b) ∷ numbered (seq + 1) bs

-- No batch is empty or has more than `most` descriptors, and no message has more than `size` bytes.
pub record Within (size most : ℕ) (seq : ℕ) (batches : List (List Phase4Descriptor)) : Type 0 where
  pub counts : All (λ b. (0 < length b) × (length b ≤ most)) batches
  pub sizes : All (λ (m : Topic × Text). length m.1 ≤ size) (numbered seq batches)

pub Within-cong :
    {s s' c c' n n' : ℕ} (bs : List (List Phase4Descriptor))
    → s' ≡ s
    → c' ≡ c
    → n' ≡ n
    → Within s' c' n' bs
    → Within s c n bs
Within-cong bs p q r w = rw (← p, ← q, ← r) w

Within-cons :
    {s c n : ℕ} (b : List Phase4Descriptor) (bs : List (List Phase4Descriptor))
    → length (batch_message n b) ≤ s
    → 0 < length b
    → length b ≤ c
    → Within s c (n + 1) bs
    → Within s c n (b ∷ bs)
Within-cons b bs h k l w = record { counts = ((k, l), w.counts); sizes = (h, w.sizes) }

-- The outcomes of sending `ds` from an encoder that holds `held`.
pub data SendOutcome (e : SpawnBatchEncoder) (held ds : List Phase4Descriptor)
    : Checked SpawnBatchEncoder × Sent → Type 0 where
  raised :
      (x : ValueError) (out : Sent) (batches : List (List Phase4Descriptor))
      (unsent : List Phase4Descriptor)
      → held ++ ds ≡ concat batches ++ unsent
      → out ≡ numbered e.batches_emitted batches
      → Within e.max_message_bytes e.max_batch_descriptors e.batches_emitted batches
      → SendOutcome e held ds (err x, out)
  ended :
      (e' : SpawnBatchEncoder) (out : Sent) (batches : List (List Phase4Descriptor))
      (rest : List Phase4Descriptor)
      → held ++ ds ≡ concat batches ++ rest
      → out ≡ numbered e.batches_emitted batches
      → Within e.max_message_bytes e.max_batch_descriptors e.batches_emitted batches
      → Holds e' rest
      → Advanced e e' (length batches) (length (concat batches))
      → SendOutcome e held ds (ok e', out)

module _ (e : SpawnBatchEncoder) (held : List Phase4Descriptor) (d : Phase4Descriptor)
    (ds : List Phase4Descriptor) where
  -- A round that kept `d`: the rounds that follow send for this one too.
  after_kept :
      (e' : SpawnBatchEncoder) (r : Checked SpawnBatchEncoder × Sent)
      → Advanced e e' 0 0
      → SendOutcome e' (held ++ d ∷ []) ds r
      → SendOutcome e held (d ∷ ds) r
  after_kept e' r a (raised x out batches unsent p q w) =
      raised x out batches unsent (sym (append_assoc held (d ∷ []) ds) ∙ p)
        (q ∙ ap (λ n. numbered n batches) same)
        (Within-cong batches a.same_max_bytes a.same_max_descriptors same w)
    where
      same : e'.batches_emitted ≡ e.batches_emitted
      same = omega (arith, a.batches_eq)
  after_kept e' r a (ended e'' out batches rest p q w h b) =
      ended e'' out batches rest (sym (append_assoc held (d ∷ []) ds) ∙ p)
        (q ∙ ap (λ n. numbered n batches) same)
        (Within-cong batches a.same_max_bytes a.same_max_descriptors same w) h
        (record {
          same_max_bytes = b.same_max_bytes ∙ a.same_max_bytes;
          same_max_descriptors = b.same_max_descriptors ∙ a.same_max_descriptors;
          batches_eq = omega (arith, a.batches_eq, b.batches_eq);
          descriptors_eq = omega (arith, a.descriptors_eq, b.descriptors_eq);
        })
    where
      same : e'.batches_emitted ≡ e.batches_emitted
      same = omega (arith, a.batches_eq)

  module _ (e' : SpawnBatchEncoder) (m : Text) (batch rest : List Phase4Descriptor)
      (s : batch ++ rest ≡ held ++ d ∷ []) (i : IsBatch e m batch)
      (a : Advanced e e' 1 (length batch)) (batches : List (List Phase4Descriptor)) where
    -- What all rounds sent, from what the first sent and what the others did.
    all_sent :
        (unsent : List Phase4Descriptor)
        → rest ++ ds ≡ concat batches ++ unsent
        → held ++ d ∷ ds ≡ concat (batch ∷ batches) ++ unsent
    all_sent unsent p =
        sym (append_assoc held (d ∷ []) ds)
        ∙ (ap (λ t. t ++ ds) (sym s)
            ∙ (append_assoc batch rest ds
                ∙ (ap (λ t. batch ++ t) p ∙ sym (append_assoc batch (concat batches) unsent))))

    all_numbered :
        (out : Sent)
        → out ≡ numbered e'.batches_emitted batches
        → send_batch (some m) ++ out ≡ numbered e.batches_emitted (batch ∷ batches)
    all_numbered out q =
        ap (λ t. (spawn_topic, t) ∷ out) i.message_eq
        ∙ ap (λ t. (spawn_topic, batch_message e.batches_emitted batch) ∷ t)
            (q ∙ ap (λ n. numbered n batches) a.batches_eq)

    all-Within :
        Within e'.max_message_bytes e'.max_batch_descriptors e'.batches_emitted batches
        → Within e.max_message_bytes e.max_batch_descriptors e.batches_emitted (batch ∷ batches)
    all-Within w =
        Within-cons batch batches (rw (← i.message_eq) i.size_le) i.nonempty i.count_le
          (Within-cong batches a.same_max_bytes a.same_max_descriptors a.batches_eq w)

    all-Advanced :
        (e'' : SpawnBatchEncoder)
        → Advanced e' e'' (length batches) (length (concat batches))
        → Advanced e e'' (length (batch ∷ batches)) (length (concat (batch ∷ batches)))
    all-Advanced e'' b = record {
      same_max_bytes = b.same_max_bytes ∙ a.same_max_bytes;
      same_max_descriptors = b.same_max_descriptors ∙ a.same_max_descriptors;
      batches_eq = omega (arith, a.batches_eq, b.batches_eq);
      descriptors_eq =
          omega (arith, a.descriptors_eq, b.descriptors_eq, length-append batch (concat batches));
    }

  -- A round that sent a batch.
  after_sent :
      (e' : SpawnBatchEncoder) (m : Text) (batch rest : List Phase4Descriptor)
      (r : Checked SpawnBatchEncoder × Sent)
      → batch ++ rest ≡ held ++ d ∷ []
      → IsBatch e m batch
      → Advanced e e' 1 (length batch)
      → SendOutcome e' rest ds r
      → SendOutcome e held (d ∷ ds) (r.0, send_batch (some m) ++ r.1)
  after_sent e' m batch rest r s i a (raised x out batches unsent p q w) =
      raised x _ (batch ∷ batches) unsent (all_sent e' m batch rest s i a batches unsent p)
        (all_numbered e' m batch rest s i a batches out q)
        (all-Within e' m batch rest s i a batches w)
  after_sent e' m batch rest r s i a (ended e'' out batches rest' p q w h b) =
      ended e'' _ (batch ∷ batches) rest' (all_sent e' m batch rest s i a batches rest' p)
        (all_numbered e' m batch rest s i a batches out q)
        (all-Within e' m batch rest s i a batches w) h
        (all-Advanced e' m batch rest s i a batches e'' b)

  after_add-SendOutcome :
      (r : Added) (go_on : SpawnBatchEncoder → Checked SpawnBatchEncoder × Sent)
      → Outcome e held d r
      → ((e' : SpawnBatchEncoder) (held' : List Phase4Descriptor)
          → Holds e' held'
          → SendOutcome e' held' ds (go_on e'))
      → SendOutcome e held (d ∷ ds) (after_add r go_on)
  after_add-SendOutcome r go_on (rejected x) k =
      raised x [] [] (held ++ d ∷ ds) refl refl (record { counts = tt; sizes = tt })
  after_add-SendOutcome r go_on (kept e' h a) k =
      after_kept e' (go_on e') a (k e' (held ++ d ∷ []) h)
  after_add-SendOutcome r go_on (sent e' m batch rest s i h a) k =
      after_sent e' m batch rest (go_on e') s i a (k e' rest h)

-- From an encoder that holds `held`, the loop sends the batches of `held` and `ds`, in order.
pub send_all-SendOutcome :
    (ds : List Phase4Descriptor) (e : SpawnBatchEncoder) (held : List Phase4Descriptor)
    → Holds e held
    → SendOutcome e held ds (send_all ds e)
unfolding send_all
send_all-SendOutcome [] e held h =
    ended e [] [] held (append-nil held) refl (record { counts = tt; sizes = tt }) h
      (record {
        same_max_bytes = refl;
        same_max_descriptors = refl;
        batches_eq = omega arith;
        descriptors_eq = omega arith;
      })
send_all-SendOutcome (d ∷ ds) e held h =
    after_add-SendOutcome e held d ds (add d e) (send_all ds) (add-Outcome e d held h)
      (send_all-SendOutcome ds)
