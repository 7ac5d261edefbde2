-- ===== src/StreamedSpawn/Delivery.antt =====
-- What a whole stream sends: the batches of its descriptors, then the summary of their numbers.
use mathlib.Core.List.{append_assoc, append-nil}
use asm_dataset_nix.Prelude.{
  ℕ, ◌≤◌, String, ◌≡◌, ◌∙◌, refl, ap, sym, Option, List, [], ◌∷◌, ◌++◌, length, length-append,
  concat, arith,
}
use asm_dataset_nix.Prelude.Int.{ℤ}
use asm_dataset_nix.Prelude.Dict.{Dict}
use asm_dataset_nix.Prelude.Result.{ok, err}
use asm_dataset_nix.Json.Dumps.{Text, dumps}
use asm_dataset_nix.StreamedSpawn.Checks.{Checked, ValueError}
use asm_dataset_nix.StreamedSpawn.Codec.{Phase4Descriptor}
use asm_dataset_nix.StreamedSpawn.Encoder.{
  SpawnBatchEncoder, new_encoder, default_max_message_bytes, max_batch_descriptors_default, flush,
  encode_summary, summary_object,
}
use asm_dataset_nix.StreamedSpawn.Adding.{Holds}
use asm_dataset_nix.StreamedSpawn.Flushing.{
  numbered-append, Within-append, concat-append, Flushed, flush_parts-Flushed,
}
use asm_dataset_nix.StreamedSpawn.Batches.{
  numbered, Within, Within-cong, SendOutcome, raised, ended, send_all-SendOutcome,
}
use asm_dataset_nix.StreamedSpawn.Stream.{
  summary_topic, Sent, send_batch, send_all, finish, after_summary, after_loop, stream_from,
  stream_descriptors, count_kinds, counters_json,
}

-- A stream within the limits `size` and `most` that has sent all of `ds`.
pub record Delivered (size most : ℕ) (ds : List Phase4Descriptor) (out : Sent) : Type 0 where
  pub batches : List (List Phase4Descriptor)
  pub all_in : concat batches ≡ ds
  pub summary : Text
  pub summary_eq :
      summary
      ≡ dumps (summary_object (length ds) (length batches) (counters_json (count_kinds [] ds)))
  pub messages : out ≡ numbered 0 batches ++ (summary_topic, summary) ∷ []
  pub within : Within size most 0 batches
  pub summary_size : length summary ≤ size

-- A stream that stopped: what it sent are the batches of a prefix of `ds`.
pub record Stopped (size most : ℕ) (ds : List Phase4Descriptor) (out : Sent) : Type 0 where
  pub batches : List (List Phase4Descriptor)
  pub unsent : List Phase4Descriptor
  pub all_in : concat batches ++ unsent ≡ ds
  pub messages : out ≡ numbered 0 batches
  pub within : Within size most 0 batches

pub data StreamOutcome (size most : ℕ) (ds : List Phase4Descriptor)
    : Checked (Unit {0}) × Sent → Type 0 where
  delivered : (out : Sent) → Delivered size most ds out → StreamOutcome size most ds (ok tt, out)
  stopped :
      (x : ValueError) (out : Sent)
      → Stopped size most ds out
      → StreamOutcome size most ds (err x, out)

summary_lem :
    (counters : Dict String ℤ) (e : SpawnBatchEncoder) (m : Text)
    → e.parts ≡ []
    → encode_summary counters e ≡ ok m
    → (m ≡ dumps (summary_object e.descriptors_emitted e.batches_emitted counters))
      × (length m ≤ e.max_message_bytes)
unfolding encode_summary
summary_lem counters e m p h = ground arith

-- The state after the loop, in a stream within `size` and `most` that has sent `out`.
record AfterLoop (size most : ℕ) (ds : List Phase4Descriptor) (e : SpawnBatchEncoder) (out : Sent)
    : Type 0 where
  batches : List (List Phase4Descriptor)
  rest : List Phase4Descriptor
  all_in : ds ≡ concat batches ++ rest
  messages : out ≡ numbered 0 batches
  within : Within size most 0 batches
  max_bytes : e.max_message_bytes ≡ size
  max_descriptors : e.max_batch_descriptors ≡ most
  batches_eq : e.batches_emitted ≡ length batches
  descriptors_eq : e.descriptors_emitted ≡ length (concat batches)
  holds : Holds e rest

module _ (size most : ℕ) (ds : List Phase4Descriptor) (e : SpawnBatchEncoder) (out : Sent)
    (s : AfterLoop size most ds e out) (r : Option Text × SpawnBatchEncoder)
    (f : Flushed e s.rest r) where
  -- The batches of the loop and that of the remainder.
  abbrev all_batches : List (List Phase4Descriptor)
  all_batches = s.batches ++ f.batches

  all_batches_in : concat all_batches ≡ ds
  all_batches_in =
      concat-append s.batches f.batches ∙ (ap (λ t. concat s.batches ++ t) f.all_in ∙ sym s.all_in)

  all_messages : out ++ send_batch r.0 ≡ numbered 0 all_batches
  all_messages =
      ap (λ t. t ++ send_batch r.0) s.messages
      ∙ (ap (λ t. numbered 0 s.batches ++ t)
            (f.messages ∙ ap (λ n. numbered n f.batches) (omega (arith, s.batches_eq)))
          ∙ sym (numbered-append 0 s.batches f.batches))

  all-Within : Within size most 0 all_batches
  all-Within =
      Within-append s.batches f.batches s.within
        (Within-cong f.batches s.max_bytes s.max_descriptors (omega (arith, s.batches_eq)) f.within)

  count_batches : r.1.batches_emitted ≡ length all_batches
  count_batches = omega (arith, f.steps.batches_eq, s.batches_eq, length-append s.batches f.batches)

  count_descriptors : r.1.descriptors_emitted ≡ length ds
  count_descriptors = omega (
    arith,
    f.steps.descriptors_eq,
    s.descriptors_eq,
    ap length s.all_in,
    length-append (concat s.batches) s.rest,
  )

  end_with :
      (m : Checked Text)
      → encode_summary (counters_json (count_kinds [] ds)) r.1 ≡ m
      → StreamOutcome size most ds ((after_summary r.0 m).0, out ++ (after_summary r.0 m).1)
  end_with (err x) p = stopped x _ (record {
    batches = all_batches;
    unsent = [];
    all_in = append-nil (concat all_batches) ∙ all_batches_in;
    messages = all_messages;
    within = all-Within;
  })
  end_with (ok m) p =
      let (text, fits) = summary_lem _ r.1 m f.empty p in
      delivered _ (record {
        batches = all_batches;
        all_in = all_batches_in;
        summary = m;
        summary_eq = rw (← count_batches, ← count_descriptors) text;
        messages =
            sym (append_assoc out (send_batch r.0) ((summary_topic, m) ∷ []))
            ∙ ap (λ t. t ++ (summary_topic, m) ∷ []) all_messages;
        within = all-Within;
        summary_size = omega (arith, f.steps.same_max_bytes, s.max_bytes);
      })

module _ (size most : ℕ) (ds : List Phase4Descriptor) where
  finish-StreamOutcome :
      (e : SpawnBatchEncoder) (out : Sent)
      → AfterLoop size most ds e out
      → StreamOutcome size most ds ((finish ds e).0, out ++ (finish ds e).1)
  unfolding finish flush
  finish-StreamOutcome e out s =
      end_with size most ds e out s (flush e) (flush_parts-Flushed e e.parts s.rest refl s.holds) _
        refl

  after_loop-StreamOutcome :
      (e : SpawnBatchEncoder) (r : Checked SpawnBatchEncoder × Sent)
      → e.max_message_bytes ≡ size
      → e.max_batch_descriptors ≡ most
      → e.batches_emitted ≡ 0
      → e.descriptors_emitted ≡ 0
      → SendOutcome e [] ds r
      → StreamOutcome size most ds (after_loop ds r)
  after_loop-StreamOutcome e r p q b c (raised x out batches unsent i m w) = stopped x out (record {
    batches = batches;
    unsent = unsent;
    all_in = sym i;
    messages = m ∙ ap (λ n. numbered n batches) b;
    within = Within-cong batches p q b w;
  })
  after_loop-StreamOutcome e r p q b c (ended e' out batches rest i m w h a) =
      finish-StreamOutcome e' out (record {
        batches = batches;
        rest = rest;
        all_in = i;
        messages = m ∙ ap (λ n. numbered n batches) b;
        within = Within-cong batches p q b w;
        max_bytes = a.same_max_bytes ∙ p;
        max_descriptors = a.same_max_descriptors ∙ q;
        batches_eq = omega (arith, a.batches_eq);
        descriptors_eq = omega (arith, a.descriptors_eq);
        holds = h;
      })

-- Streaming `ds` either delivers all of it, in numbered batches of 1 to 200 descriptors and one
-- summary with the true totals, each message of at most 100 KiB, or it raises, and then what it
-- sent are such batches of a prefix of `ds`.
pub stream_descriptors-StreamOutcome :
    (ds : List Phase4Descriptor)
    → StreamOutcome default_max_message_bytes max_batch_descriptors_default ds
        (stream_descriptors ds)
unfolding stream_descriptors stream_from new_encoder
stream_descriptors-StreamOutcome ds =
    after_loop-StreamOutcome default_max_message_bytes max_batch_descriptors_default ds start
      (send_all ds start) refl refl refl refl
      (send_all-SendOutcome ds start []
        (record { parts_eq = refl; bytes_eq = refl; fits = λ n. elim n [ ]; room = omega arith }))
  where
    start : SpawnBatchEncoder
    start = record {
      max_message_bytes = default_max_message_bytes;
      max_batch_descriptors = max_batch_descriptors_default;
      parts = [];
      pending_bytes = 0;
      batches_emitted = 0;
      descriptors_emitted = 0;
    }
