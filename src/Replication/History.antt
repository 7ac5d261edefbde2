-- ===== src/Replication/History.antt =====
-- Whole histories of a sender: what holds after any sequence of events.
use asm_dataset_nix.Prelude.{string_eq, ◌≤◌, ◌≡◌, refl, String, List, [], ◌∷◌, arith}
use asm_dataset_nix.Prelude.Count.{count, count-append}
use asm_dataset_nix.Replication.Context.{Context}
use asm_dataset_nix.Replication.Sender.{Sender, on_accept, stop}
use asm_dataset_nix.Replication.Events.{
  Event, pushed, accepted, rejected, timed_out, path_had, settle_checked, settle_published, ended,
  apply_event, apply_events,
}
use asm_dataset_nix.Replication.Quiet.{
  is_update, is_offer, IsQuiet-nothing, push_attempt-IsQuiet, on_reject-IsQuiet, on_timeout-IsQuiet,
}
use asm_dataset_nix.Replication.Settling.{on_path_have-IsQuiet, stop-IsQuiet}
use asm_dataset_nix.Replication.SettleSteps.{
  flag, pending, Step, quiet-Step, settle_check-Step, settle_publish-Step,
}

apply_event-Step : (ctx : Context) (event : Event) (s : Sender) → Step s (apply_event ctx event s)
unfolding apply_event on_accept
apply_event-Step ctx (pushed o drv cls excludes) s =
    quiet-Step (push_attempt-IsQuiet ctx o drv cls excludes s)
apply_event-Step ctx (accepted t o) s = quiet-Step (IsQuiet-nothing s)
apply_event-Step ctx (rejected t o) s = quiet-Step (on_reject-IsQuiet ctx t o s)
apply_event-Step ctx (timed_out o t) s = quiet-Step (on_timeout-IsQuiet ctx o t s)
apply_event-Step ctx (path_had holder o) s = quiet-Step (on_path_have-IsQuiet ctx holder o s)
apply_event-Step ctx (settle_checked o) s = settle_check-Step o ctx s
apply_event-Step ctx (settle_published o found) s = settle_publish-Step ctx o found s
apply_event-Step ctx ended s = quiet-Step (stop-IsQuiet s)

apply_events-Step : (events : List (Context × Event)) (s : Sender) → Step s (apply_events events s)
unfolding apply_events
apply_events-Step [] s = quiet-Step (IsQuiet-nothing s)
apply_events-Step ((ctx, event) ∷ events) s =
    let r = apply_event ctx event s in
    let h = apply_event-Step ctx event s in
    let r' = apply_events events r.0 in
    let k = apply_events-Step events r.0 in
    record {
      once = λ o p.
          let (p', m) = h.once o p in
          let (p'', m') = k.once o p' in
          (p'', omega (arith, m, m', count-append (is_update o) r.1 r'.1));
      stays_stopped = λ p. k.stays_stopped (h.stays_stopped p);
      no_offer = λ p.
          omega
            (arith, h.no_offer p, k.no_offer (h.stays_stopped p), count-append is_offer r.1 r'.1);
      silent = λ p o. omega (
        arith,
        h.silent p o,
        k.silent (h.stays_stopped p) o,
        count-append (is_update o) r.1 r'.1,
      );
    }

-- In any history of a sender, whatever events come between a check of the settle timer and its
-- publication, the preferred secondaries of an outpath are updated at most once; at the start at most
-- one publication of it may be pending, and only with its flag set.
pub apply_events-once :
    (events : List (Context × Event)) (s : Sender) (o : String)
    → pending o s ≤ flag o s
    → count (is_update o) (apply_events events s).1 ≤ 1
apply_events-once events s o h =
    let (p, m) = (apply_events-Step events s).once o h in ground (arith, h, m)

-- Whatever happens after a sender is stopped, it makes no offer, and updates an outpath no more often
-- than there were calls that had passed their check of it and not yet published.
pub stop-silent :
    (events : List (Context × Event)) (s : Sender) (o : String)
    → (count is_offer (apply_events events (stop s).0).1 ≡ 0)
      × (count (is_update o) (apply_events events (stop s).0).1 ≤ pending o s)
unfolding stop
stop-silent events s o =
    let h = apply_events-Step events (stop s).0 in (h.no_offer refl, omega (arith, h.silent refl o))
