-- ===== src/Broadcast/Steps.antt =====
-- The steps of a `BroadcastSender` (peer_replication.py), and that none of them loses the result of a
-- broadcast.
use asm_dataset_nix.Prelude.{
  string_eq, ◌≡◌, refl, ap, sym, ◌∙◌, String, Bool, true, false, not, ◌||◌, Option, none, some,
  List, [], ◌∷◌, ◌++◌, ◌==◌, ==_refl, contains, arith, All, by_guard,
}
use asm_dataset_nix.Prelude.Dict.{Dict, get, get-put, is_some}
use asm_dataset_nix.Prelude.Result.{Result, ok, err}
use asm_dataset_nix.Broadcast.Sender.{
  BroadcastJob, BroadcastResult, Counts, counted, BroadcastSender, Refused, Network, accept,
  put_job, start, set_stopped, put_sentinel, set_event, record_result, urls_of, dispatch_counts,
  dispatch, run_item, run_queue, run_once,
}

-- The ids of the jobs in a queue.
abbrev pub waiting : List (Option BroadcastJob) → List String
waiting [] = []
waiting (none ∷ q) = waiting q
waiting (some job ∷ q) = job.broadcast_id ∷ waiting q

-- The steps of a sender: those of `enqueue_broadcast` and of `stop`, each one under the lock or
-- outside of it, and a round of the worker.
pub data Event : Type 0 where
  accepted : BroadcastJob → Event
  started : Event
  put : BroadcastJob → Event
  stopping : Event
  sentinel : Event
  ran : Network → Event

abbrev pub started_or_not : BroadcastSender → Result Refused BroadcastSender → BroadcastSender
started_or_not s (err e) = s
started_or_not s (ok s') = s'

unfoldable pub apply_event : Event → BroadcastSender → BroadcastSender
apply_event (accepted job) s = (accept job s).1
apply_event started s = started_or_not s (start s)
apply_event (put job) s = put_job job s
apply_event stopping s = set_stopped s
apply_event sentinel s = put_sentinel s
apply_event (ran net) s = run_once net s

unfoldable pub apply_all : List Event → BroadcastSender → BroadcastSender
apply_all [] s = s
apply_all (e ∷ es) s = apply_all es (apply_event e s)

-- The networks that the rounds of the worker find.
abbrev pub networks : List Event → List Network
networks [] = []
networks (ran net ∷ es) = net ∷ networks es
networks (_ ∷ es) = networks es

-- No other broadcast gets the id.
abbrev pub is_other : String → Event → Bool
is_other id (accepted job) = not (job.broadcast_id == id)
is_other id (put job) = not (job.broadcast_id == id)
is_other id _ = true

pub contains-waiting_append :
    (b : String) (q r : List (Option BroadcastJob))
    → contains b (waiting (q ++ r)) ≡ (contains b (waiting q) || contains b (waiting r))
contains-waiting_append b [] r = refl
contains-waiting_append b (none ∷ q) r = contains-waiting_append b q r
contains-waiting_append b (some job ∷ q) r = ground (arith, contains-waiting_append b q r)

pub get-set_event :
    (found : Option Bool) (id b : String) (events : Dict String Bool)
    → get id events ≡ found
    → (id == b) ≡ false
    → get b (set_event found id events) ≡ get b events
unfolding set_event
get-set_event none id b events h apart = refl
get-set_event (some w) id b events h apart = ground (arith, get-put id b true events, apart)

pub get-set_event_same :
    (found : Option Bool) (id : String) (events : Dict String Bool)
    → is_some found ≡ true
    → get id (set_event found id events) ≡ some true
unfolding set_event
get-set_event_same none id events h = absurd (cc h)
get-set_event_same (some w) id events h = ground (arith, get-put id id true events, ==_refl id)

module _ (id : String) where
  -- The result is recorded, and nothing waits that could replace it.
  pub record Done (r : BroadcastResult) (s : BroadcastSender) : Type 0 where
    pub event_set : get id s.events ≡ some true
    pub result : get id s.results ≡ some r
    pub none_waits : contains id (waiting s.queue) ≡ false

  recorded-Done :
      {r : BroadcastResult} (job : BroadcastJob) (q : List (Option BroadcastJob)) (c : Counts)
      (s : BroadcastSender)
      → Done r s
      → contains id (waiting (some job ∷ q)) ≡ false
      → Done r (record_result job.broadcast_id c (record s { queue = q }))
  unfolding record_result
  recorded-Done job q c s d h =
      let apart : (job.broadcast_id == id) ≡ false = ground (arith, h) in
      record {
        event_set =
            get-set_event (get job.broadcast_id s.events) job.broadcast_id id s.events refl apart
            ∙ d.event_set;
        result =
            get-put job.broadcast_id id (counted job.broadcast_id c) s.results
            ∙ ground (arith, apart, d.result);
        none_waits = ground (arith, h);
      }

  append-Done :
      {r : BroadcastResult} (q : List (Option BroadcastJob)) (s : BroadcastSender)
      → Done r s
      → contains id (waiting q) ≡ false
      → Done r (record s { queue = s.queue ++ q })
  append-Done q s d h = record {
    event_set = d.event_set;
    result = d.result;
    none_waits = contains-waiting_append id s.queue q ∙ ground (arith, d.none_waits, h);
  }

  queue-Done :
      {r : BroadcastResult} (net : Network) (q : List (Option BroadcastJob)) (s : BroadcastSender)
      → s.queue ≡ q
      → Done r s
      → Done r (run_queue q net s).1
  unfolding run_queue run_item dispatch
  queue-Done net [] s e d = d
  queue-Done net (none ∷ q) s e d = record {
    event_set = d.event_set;
    result = d.result;
    none_waits = ap (λ t. contains id (waiting t)) (sym e) ∙ d.none_waits;
  }
  queue-Done net (some job ∷ q) s e d =
      recorded-Done job q (dispatch_counts (urls_of net.peer_urls) net job) s d
        (ap (λ t. contains id (waiting t)) (sym e) ∙ d.none_waits)

  flagged-Done :
      {r : BroadcastResult} (alive : Bool) (s : BroadcastSender)
      → Done r s
      → Done r (record s { running = alive })
  flagged-Done alive s d = record {
    event_set = d.event_set;
    result = d.result;
    none_waits = d.none_waits;
  }

  started-Done :
      {r : BroadcastResult} (s : BroadcastSender) → Done r s → Done r (started_or_not s (start s))
  unfolding start
  started-Done {r} s d =
      by_guard (λ x. Done r (started_or_not s x)) s.stopped _ _ (λ h. d)
        (λ h. flagged-Done true s d)

  accepted-Done :
      {r : BroadcastResult} (job : BroadcastJob) (s : BroadcastSender)
      → (job.broadcast_id == id) ≡ false
      → Done r s
      → Done r (accept job s).1
  unfolding accept
  accepted-Done {r} job s apart d =
      by_guard (λ (x : Result Refused (Unit {0}) × BroadcastSender). Done r x.1) s.stopped _ _
        (λ h. d)
        (λ h. record {
          event_set =
              get-put job.broadcast_id id false s.events ∙ ground (arith, apart, d.event_set);
          result = d.result;
          none_waits = d.none_waits;
        })

  event-Done :
      {r : BroadcastResult} (e : Event) (s : BroadcastSender)
      → is_other id e ≡ true
      → Done r s
      → Done r (apply_event e s)
  unfolding apply_event put_job set_stopped put_sentinel run_once
  event-Done (accepted job) s h d = accepted-Done job s (ground (arith, h)) d
  event-Done started s h d = started-Done s d
  event-Done (put job) s h d = append-Done (some job ∷ []) s d (ground (arith, h))
  event-Done stopping s h d = record {
    event_set = d.event_set;
    result = d.result;
    none_waits = d.none_waits;
  }
  event-Done sentinel s h d = append-Done (none ∷ []) s d refl
  event-Done {r} (ran net) s h d =
      by_guard (Done r) s.running _ _ (λ k. flagged-Done _ _ (queue-Done net s.queue s refl d))
        (λ k. d)

  pub all-Done :
      {r : BroadcastResult} (es : List Event) (s : BroadcastSender)
      → All (λ e. is_other id e ≡ true) es
      → Done r s
      → Done r (apply_all es s)
  unfolding apply_all
  all-Done [] s h d = d
  all-Done (e ∷ es) s h d = all-Done es (apply_event e s) h.1 (event-Done e s h.0 d)
