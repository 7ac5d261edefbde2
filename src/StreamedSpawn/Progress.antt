-- ===== src/StreamedSpawn/Progress.antt =====
-- A stream of descriptors that are small enough does not raise.
use asm_dataset_nix.Prelude.{
  ℕ, String, ◌+◌, ◌≤◌, ◌<◌, ◌≡◌, ◌∙◌, refl, ap, Bool, true, false, Option, List, [], ◌∷◌, ◌++◌,
  length, length-append, concat, All, arith,
}
use asm_dataset_nix.Prelude.Int.{ℤ}
use asm_dataset_nix.Prelude.Dict.{Dict}
use asm_dataset_nix.Prelude.Result.{ok, err}
use asm_dataset_nix.Json.Dumps.{Text, dumps}
use asm_dataset_nix.StreamedSpawn.Checks.{Checked}
use asm_dataset_nix.StreamedSpawn.Codec.{Phase4Descriptor}
use asm_dataset_nix.StreamedSpawn.Encoder.{
  Added, SpawnBatchEncoder, new_encoder, default_max_message_bytes, max_batch_descriptors_default,
  batch_envelope, encode_descriptor_str, emit_if_full, add_part, add, flush, summary_of,
  encode_summary, summary_object,
}
use asm_dataset_nix.StreamedSpawn.Adding.{
  Holds, Advanced, Outcome, rejected, kept, sent, add-Outcome,
}
use asm_dataset_nix.StreamedSpawn.Stream.{
  Sent, after_add, send_all, finish, after_summary, after_loop, stream_from, stream_descriptors,
  count_kinds, counters_json,
}
use asm_dataset_nix.StreamedSpawn.Batches.{Within, SendOutcome, raised, ended, send_all-SendOutcome}
use asm_dataset_nix.StreamedSpawn.Flushing.{Flushed, flush_parts-Flushed}

-- Alone in one of the first `n` batches the descriptor fits a message of `size` bytes.
abbrev pub IsSmall : ℕ → ℕ → Phase4Descriptor → Type 0
IsSmall size n d =
    (seq : ℕ) → seq ≤ n → length (batch_envelope seq) + length (encode_descriptor_str d) ≤ size

abbrev is_ok : {A : Type 0} → Checked A → Bool
is_ok (ok a) = true
is_ok (err x) = false

add_part-ok :
    (ps : List Text) (part : Text) (e : SpawnBatchEncoder)
    → length (batch_envelope e.batches_emitted) + length part ≤ e.max_message_bytes
    → length (batch_envelope (e.batches_emitted + 1)) + length part ≤ e.max_message_bytes
    → is_ok (add_part ps part e).0 ≡ true
unfolding add_part emit_if_full
add_part-ok [] part e h k = ground (arith, h)
add_part-ok (p ∷ ps) part e h k = ground (arith, k)

add-ok :
    (n : ℕ) (d : Phase4Descriptor) (e : SpawnBatchEncoder)
    → e.batches_emitted + 1 ≤ n
    → IsSmall e.max_message_bytes n d
    → is_ok (add d e).0 ≡ true
unfolding add
add-ok n d e k small =
    add_part-ok e.parts (encode_descriptor_str d) e (small e.batches_emitted (omega (arith, k)))
      (small (e.batches_emitted + 1) k)

-- The batches are no more than the descriptors so far.
send_all-ok :
    (n : ℕ) (ds : List Phase4Descriptor) (e : SpawnBatchEncoder) (held : List Phase4Descriptor)
    → Holds e held
    → e.batches_emitted + length ds ≤ n
    → All (IsSmall e.max_message_bytes n) ds
    → is_ok (send_all ds e).0 ≡ true
unfolding send_all
send_all-ok n [] e held h k small = refl
send_all-ok n (d ∷ ds) e held h k small =
    go (add d e) (add-Outcome e d held h) (add-ok n d e (omega (arith, k)) small.0)
      (λ e'. send_all ds e') (λ e' held'. send_all-ok n ds e' held')
  where
    go :
        (r : Added)
        → Outcome e held d r
        → is_ok r.0 ≡ true
        → (f : SpawnBatchEncoder → Checked SpawnBatchEncoder × Sent)
        → ((e' : SpawnBatchEncoder) (held' : List Phase4Descriptor)
            → Holds e' held'
            → e'.batches_emitted + length ds ≤ n
            → All (IsSmall e'.max_message_bytes n) ds
            → is_ok (f e').0 ≡ true)
        → is_ok (after_add r f).0 ≡ true
    go r (rejected x) p f g = p
    go r (kept e' h' a) p f g =
        g e' _ h' (omega (arith, a.batches_eq)) (rw a.same_max_bytes small.1)
    go r (sent e' m batch rest s i h' a) p f g =
        g e' _ h' (omega (arith, a.batches_eq)) (rw a.same_max_bytes small.1)

summary-ok :
    (ps : List Text) (counters : Dict String ℤ) (e : SpawnBatchEncoder)
    → ps ≡ []
    → length (dumps (summary_object e.descriptors_emitted e.batches_emitted counters))
      ≤ e.max_message_bytes
    → is_ok (summary_of ps counters e) ≡ true
unfolding summary_of
summary-ok [] counters e p h = ground (arith, h)
summary-ok (q ∷ ps) counters e p h = absurd (cc p)

length-concat :
    (c : ℕ) (bs : List (List Phase4Descriptor))
    → All (λ b. (0 < length b) × (length b ≤ c)) bs
    → length bs ≤ length (concat bs)
length-concat c [] h = omega arith
length-concat c (b ∷ bs) h =
    omega (arith, h.0.0, length-concat c bs h.1, length-append b (concat bs))

after_summary-ok :
    (remainder : Option Text) (m : Checked Text)
    → is_ok m ≡ true
    → (after_summary remainder m).0 ≡ ok tt
after_summary-ok remainder (ok m) h = refl
after_summary-ok remainder (err x) h = absurd (ground (arith, h))

-- The summary of `ds` fits a message of `size` bytes, however many batches there were.
abbrev pub HasSmallSummary : ℕ → List Phase4Descriptor → Type 0
HasSmallSummary size ds =
    (b : ℕ)
    → b ≤ length ds
    → length (dumps (summary_object (length ds) b (counters_json (count_kinds [] ds)))) ≤ size

module _ (ds : List Phase4Descriptor) (e e' : SpawnBatchEncoder)
    (batches : List (List Phase4Descriptor)) (rest : List Phase4Descriptor)
    (start_batches : e.batches_emitted ≡ 0) (start_descriptors : e.descriptors_emitted ≡ 0)
    (all_in : ds ≡ concat batches ++ rest)
    (w : Within e.max_message_bytes e.max_batch_descriptors e.batches_emitted batches)
    (a : Advanced e e' (length batches) (length (concat batches)))
    (small : HasSmallSummary e.max_message_bytes ds) where
  summary_fits :
      (r : Option Text × SpawnBatchEncoder)
      → Flushed e' rest r
      → length (
          dumps (
            summary_object r.1.descriptors_emitted r.1.batches_emitted
              (counters_json (count_kinds [] ds))))
        ≤ r.1.max_message_bytes
  summary_fits r f =
      let total : r.1.descriptors_emitted ≡ length ds = omega (
        arith,
        f.steps.descriptors_eq,
        a.descriptors_eq,
        start_descriptors,
        ap length all_in,
        length-append (concat batches) rest,
      ) in
      let few : r.1.batches_emitted ≤ length ds = omega (
        arith,
        f.steps.batches_eq,
        a.batches_eq,
        start_batches,
        ap length all_in,
        length-append (concat batches) rest,
        length-concat e.max_batch_descriptors batches w.counts,
        length-concat e'.max_batch_descriptors f.batches f.within.counts,
        ap length f.all_in,
      ) in
      let same : r.1.max_message_bytes ≡ e.max_message_bytes =
        f.steps.same_max_bytes ∙ a.same_max_bytes in
      rw (total, same) (small r.1.batches_emitted few)

  finish-ok : Holds e' rest → (finish ds e').0 ≡ ok tt
  unfolding finish flush encode_summary
  finish-ok h =
      let f = flush_parts-Flushed e' e'.parts rest refl h in
      after_summary-ok _ _ (summary-ok _ _ _ f.empty (summary_fits _ f))

after_loop-ok :
    (ds : List Phase4Descriptor) (e : SpawnBatchEncoder) (r : Checked SpawnBatchEncoder × Sent)
    → e.batches_emitted ≡ 0
    → e.descriptors_emitted ≡ 0
    → HasSmallSummary e.max_message_bytes ds
    → SendOutcome e [] ds r
    → is_ok r.0 ≡ true
    → (after_loop ds r).0 ≡ ok tt
after_loop-ok ds e r b c small (raised x out batches unsent p q w) h = absurd (ground (arith, h))
after_loop-ok ds e r b c small (ended e' out batches rest p q w holds a) h =
    finish-ok ds e e' batches rest b c p w a small holds

-- A plan whose descriptors and whose summary each fit a message of 100 KiB is streamed without a
-- raise.
pub stream_descriptors-ok :
    (ds : List Phase4Descriptor)
    → All (IsSmall default_max_message_bytes (length ds)) ds
    → HasSmallSummary default_max_message_bytes ds
    → (stream_descriptors ds).0 ≡ ok tt
unfolding stream_descriptors stream_from new_encoder
stream_descriptors-ok ds small summary_small =
    after_loop-ok ds start (send_all ds start) refl refl summary_small
      (send_all-SendOutcome ds start [] nothing)
      (send_all-ok (length ds) ds start [] nothing (omega arith) small)
  where
    start : SpawnBatchEncoder
    start = record {
      max_message_bytes = default_max_message_bytes;
      max_batch_descriptors = max_batch_descriptors_default;
      parts = [];
      pending_bytes = 0;
      batches_emitted = 0;
      descriptors_emitted = 0;
    }

    nothing : Holds start []
    nothing = record {
      parts_eq = refl;
      bytes_eq = refl;
      fits = λ n. elim n [ ];
      room = omega arith;
    }
