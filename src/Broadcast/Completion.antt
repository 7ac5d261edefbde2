-- ===== src/Broadcast/Completion.antt =====
-- A broadcast whose job is in the queue of a sender that runs is completed (`BroadcastSender` of
-- peer_replication.py), whatever steps of other calls come between.
use mathlib.Core.List.{append_assoc}
use asm_dataset_nix.Prelude.{
  string_eq, ◌≡◌, refl, ap, sym, ◌∙◌, Bool, true, false, Option, none, some, List, [], ◌∷◌, ◌++◌,
  map, length, get_elem?, ◌==◌, ==_iff, ==_refl, contains, arith, All, by_guard, subst, Bool-cases,
  inl, inr,
}
use asm_dataset_nix.Prelude.Dict.{get, get-put, is_some}
use asm_dataset_nix.Prelude.Result.{Result}
use asm_dataset_nix.Broadcast.Sender.{
  BroadcastJob, BroadcastResult, counted, BroadcastSender, Refused, Network, accept, put_job, start,
  set_stopped, put_sentinel, set_event, record_result, urls_of, dispatch_counts, dispatch, run_item,
  run_queue, run_once, completion,
}
use asm_dataset_nix.Broadcast.Steps.{
  waiting, Event, accepted, started, put, stopping, sentinel, ran, started_or_not, apply_event,
  apply_all, networks, is_other, contains-waiting_append, get-set_event, get-set_event_same, Done,
  all-Done,
}

-- The job waits behind some others and before any sentinel, in a sender that runs; its event is
-- there, and no job behind it has its id.
pub record Awaits (job : BroadcastJob) (ahead : List BroadcastJob) (s : BroadcastSender)
    : Type 0 where
  pub runs : s.running ≡ true
  pub behind : List (Option BroadcastJob)
  pub in_queue : s.queue ≡ map (λ j. some j) ahead ++ some job ∷ behind
  pub has_event : is_some (get job.broadcast_id s.events) ≡ true
  pub alone : contains job.broadcast_id (waiting behind) ≡ false

abbrev pub result_of : BroadcastJob → Network → BroadcastResult
result_of job net = counted job.broadcast_id (dispatch_counts (urls_of net.peer_urls) net job)

module _ (job : BroadcastJob) where
  append-Awaits :
      (ahead : List BroadcastJob) (q : List (Option BroadcastJob)) (s : BroadcastSender)
      → Awaits job ahead s
      → contains job.broadcast_id (waiting q) ≡ false
      → Awaits job ahead (record s { queue = s.queue ++ q })
  append-Awaits ahead q s a h = record {
    runs = a.runs;
    behind = a.behind ++ q;
    in_queue =
        ap (λ t. t ++ q) a.in_queue
        ∙ append_assoc (map (λ j. some j) ahead) (some job ∷ a.behind) q;
    has_event = a.has_event;
    alone = contains-waiting_append job.broadcast_id a.behind q ∙ ground (arith, a.alone, h);
  }

  accepted-Awaits :
      (ahead : List BroadcastJob) (other : BroadcastJob) (s : BroadcastSender)
      → (other.broadcast_id == job.broadcast_id) ≡ false
      → Awaits job ahead s
      → Awaits job ahead (accept other s).1
  unfolding accept
  accepted-Awaits ahead other s apart a =
      by_guard (λ (x : Result Refused (Unit {0}) × BroadcastSender). Awaits job ahead x.1) s.stopped
        _ _ (λ h. a)
        (λ h. record {
          runs = a.runs;
          behind = a.behind;
          in_queue = a.in_queue;
          has_event =
              ap is_some (get-put other.broadcast_id job.broadcast_id false s.events)
              ∙ ground (arith, apart, a.has_event);
          alone = a.alone;
        })

  started-Awaits :
      (ahead : List BroadcastJob) (s : BroadcastSender)
      → Awaits job ahead s
      → Awaits job ahead (started_or_not s (start s))
  unfolding start
  started-Awaits ahead s a =
      by_guard (λ x. Awaits job ahead (started_or_not s x)) s.stopped _ _ (λ h. a)
        (λ h. record {
          runs = refl;
          behind = a.behind;
          in_queue = a.in_queue;
          has_event = a.has_event;
          alone = a.alone;
        })

  -- A round takes the first job ahead.
  first-Awaits :
      (net : Network) (first : BroadcastJob) (ahead : List BroadcastJob) (s : BroadcastSender)
      → Awaits job (first ∷ ahead) s
      → Awaits job ahead (run_once net s)
  unfolding run_once run_queue run_item dispatch record_result
  first-Awaits net first ahead s a =
      rw (a.runs, a.in_queue)
        (record {
          runs = refl;
          behind = a.behind;
          in_queue = refl;
          has_event = still (get first.broadcast_id s.events) refl;
          alone = a.alone;
        })
    where
      still :
          (found : Option Bool)
          → get first.broadcast_id s.events ≡ found
          → is_some (get job.broadcast_id (set_event found first.broadcast_id s.events)) ≡ true
      still found h = elim (Bool-cases (first.broadcast_id == job.broadcast_id)) [
        | inl same ↦
            let e : first.broadcast_id ≡ job.broadcast_id =
              (==_iff first.broadcast_id job.broadcast_id).0 same in
            rw e (
              ap is_some (
                get-set_event_same found job.broadcast_id s.events
                  (ap is_some (sym h ∙ ap (λ x. get x s.events) e) ∙ a.has_event)))
        | inr apart ↦
            ap is_some (get-set_event found first.broadcast_id job.broadcast_id s.events h apart)
            ∙ a.has_event
      ]

  -- Then the round of the job records its result.
  job-Done :
      (net : Network) (s : BroadcastSender)
      → Awaits job [] s
      → Done job.broadcast_id (result_of job net) (run_once net s)
  unfolding run_once run_queue run_item dispatch record_result
  job-Done net s a =
      rw (a.runs, a.in_queue)
        (record {
          event_set =
              get-set_event_same (get job.broadcast_id s.events) job.broadcast_id s.events
                a.has_event;
          result =
              get-put job.broadcast_id job.broadcast_id (result_of job net) s.results
              ∙ ground (arith, ==_refl job.broadcast_id);
          none_waits = a.alone;
        })

  apply_all-Done :
      (es : List Event) (net : Network) (ahead : List BroadcastJob) (s : BroadcastSender)
      → Awaits job ahead s
      → All (λ e. is_other job.broadcast_id e ≡ true) es
      → get_elem? (networks es) (length ahead) ≡ some net
      → Done job.broadcast_id (result_of job net) (apply_all es s)
  unfolding apply_all apply_event put_job set_stopped put_sentinel
  apply_all-Done [] net ahead s a h n = absurd (cc n)
  apply_all-Done (accepted j ∷ es) net ahead s a h n =
      apply_all-Done es net ahead _ (accepted-Awaits ahead j s (ground (arith, h.0)) a) h.1 n
  apply_all-Done (started ∷ es) net ahead s a h n =
      apply_all-Done es net ahead _ (started-Awaits ahead s a) h.1 n
  apply_all-Done (put j ∷ es) net ahead s a h n =
      apply_all-Done es net ahead _ (append-Awaits ahead (some j ∷ []) s a (ground (arith, h.0)))
        h.1 n
  apply_all-Done (stopping ∷ es) net ahead s a h n =
      apply_all-Done es net ahead _
        (record {
          runs = a.runs;
          behind = a.behind;
          in_queue = a.in_queue;
          has_event = a.has_event;
          alone = a.alone;
        })
        h.1 n
  apply_all-Done (sentinel ∷ es) net ahead s a h n =
      apply_all-Done es net ahead _ (append-Awaits ahead (none ∷ []) s a refl) h.1 n
  apply_all-Done (ran m ∷ es) net [] s a h n =
      let same : m ≡ net = cc n in
      all-Done job.broadcast_id es (run_once m s) h.1
        (subst (λ x. Done job.broadcast_id (result_of job x) (run_once m s)) same (job-Done m s a))
  apply_all-Done (ran m ∷ es) net (first ∷ ahead) s a h n =
      apply_all-Done es net ahead (run_once m s) (first-Awaits m first ahead s a) h.1 n

  -- A job that waits behind some others, and before any sentinel, in a sender that runs is dispatched
  -- by the round that comes after as many rounds as there are others ahead of it, whatever other
  -- calls, `stop` included, come between and after: waiting for it returns the counts of that
  -- dispatch. No other job has its id.
  pub rounds_complete :
      (es : List Event) (net : Network) (ahead : List BroadcastJob) (s : BroadcastSender)
      → Awaits job ahead s
      → All (λ e. is_other job.broadcast_id e ≡ true) es
      → get_elem? (networks es) (length ahead) ≡ some net
      → completion job.broadcast_id (apply_all es s) ≡ some (result_of job net)
  unfolding completion
  rounds_complete es net ahead s a h n =
      let d = apply_all-Done es net ahead s a h n in rw (completion, d.event_set, d.result) refl
