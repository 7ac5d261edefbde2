-- ===== src/Broadcast/Sender.antt =====
-- `BroadcastSender` of peer_replication.py. An identifier is given to `enqueue_broadcast`, where the
-- source takes a new one from `uuid4`; a round of the worker thread is the step `run_once`.
use asm_dataset_nix.Prelude.{
  string_eq, ℕ, String, Bool, true, false, Option, none, some, List, [], ◌∷◌, ◌++◌, length,
  if◌then◌else◌,
}
use asm_dataset_nix.Prelude.Dict.{Dict, get, put}
use asm_dataset_nix.Prelude.Result.{Result, ok, err}
use asm_dataset_nix.Replication.Context.{Call, returned, raised}

pub record BroadcastResult : Type 0 where
  pub broadcast_id : String
  pub success_count : ℕ
  pub fail_count : ℕ
  pub failed_peers : List String

pub record BroadcastJob : Type 0 where
  pub broadcast_id : String
  pub path : String
  pub size : ℕ
  pub item_class : Option String

pub record BroadcastSender : Type 0 where
  -- `none` is the sentinel of `stop`.
  pub queue : List (Option BroadcastJob)
  pub results : Dict String BroadcastResult
  -- Whether the event of a broadcast is set.
  pub events : Dict String Bool
  pub stopped : Bool
  -- Whether the worker thread is alive.
  pub running : Bool

-- `RuntimeError`
pub data Refused : Type 0 where
  stopped_before : Refused

-- `start`
unfoldable pub start : BroadcastSender → Result Refused BroadcastSender
start s = if s.stopped then err stopped_before else ok (record s { running = true })

-- `enqueue_broadcast`: under the lock the event is made; then, outside of it, the worker is started
-- and the job is put.
unfoldable pub accept : BroadcastJob → BroadcastSender → Result Refused (Unit {0}) × BroadcastSender
accept job s =
    if s.stopped
    then (err stopped_before, s)
    else (ok tt, record s { events = put job.broadcast_id false s.events })

unfoldable pub put_job : BroadcastJob → BroadcastSender → BroadcastSender
put_job job s = record s { queue = s.queue ++ some job ∷ [] }

-- The whole call, when no other call comes between.
unfoldable pub start_and_put :
    BroadcastJob
    → Result Refused (Unit {0}) × BroadcastSender
    → Result Refused String × BroadcastSender
unfolding start
start_and_put job (err e, s) = (err e, s)
start_and_put job (ok _, s) = elim (start s) [
  | err e ↦ (err e, s)
  | ok s' ↦ (ok job.broadcast_id, put_job job s')
]

unfoldable pub enqueue_broadcast :
    BroadcastJob → BroadcastSender → Result Refused String × BroadcastSender
enqueue_broadcast job s = start_and_put job (accept job s)

-- `stop`: the flag is set under the lock, and the first call puts the sentinel outside of it.
unfoldable pub set_stopped : BroadcastSender → BroadcastSender
set_stopped s = record s { stopped = true }

unfoldable pub put_sentinel : BroadcastSender → BroadcastSender
put_sentinel s = record s { queue = s.queue ++ none ∷ [] }

unfoldable pub stop : BroadcastSender → BroadcastSender
stop s = if s.stopped then s else put_sentinel (set_stopped s)

-- `event.set()`, if there is an event.
unfoldable pub set_event : Option Bool → String → Dict String Bool → Dict String Bool
set_event none broadcast_id events = events
set_event (some was_set) broadcast_id events = put broadcast_id true events

-- The successes, the failures and the peers that failed.
abbrev pub Counts : Type 0
Counts = ℕ × ℕ × List String

abbrev pub counted : String → Counts → BroadcastResult
counted broadcast_id (success, fail, failed_peers) = record {
  broadcast_id = broadcast_id;
  success_count = success;
  fail_count = fail;
  failed_peers = failed_peers;
}

-- `_record_result`
unfoldable pub record_result : String → Counts → BroadcastSender → BroadcastSender
record_result broadcast_id counts s = record s {
  results = put broadcast_id (counted broadcast_id counts) s.results;
  events = set_event (get broadcast_id s.events) broadcast_id s.events;
}

-- What the sender calls: the peers' addresses, and the fan-out, which counts.
pub record Network : Type 0 where
  pub peer_urls : Call (List String)
  pub fan_out : List String → BroadcastJob → Call Counts

unfoldable pub urls_of : Call (List String) → List String
urls_of raised = []
urls_of (returned urls) = urls

unfoldable pub counts_of : List String → Call Counts → Counts
counts_of urls raised = (0, length urls, urls)
counts_of urls (returned counts) = counts

-- The counts that `_dispatch` records.
unfoldable pub dispatch_counts : List String → Network → BroadcastJob → Counts
dispatch_counts [] net job = (0, 0, [])
dispatch_counts (u ∷ us) net job = counts_of (u ∷ us) (net.fan_out (u ∷ us) job)

unfoldable pub dispatch : Network → BroadcastJob → BroadcastSender → BroadcastSender
dispatch net job s =
    record_result job.broadcast_id (dispatch_counts (urls_of net.peer_urls) net job) s

-- One round of `_run`, when the queue has an item: whether the worker goes on, and the sender.
unfoldable pub run_item : Network → Option BroadcastJob → BroadcastSender → Bool × BroadcastSender
run_item net none s = (mathlib.Core.Bool.not s.stopped, s)
run_item net (some job) s = (true, dispatch net job s)

unfoldable pub run_queue :
    List (Option BroadcastJob) → Network → BroadcastSender → Bool × BroadcastSender
run_queue [] net s = (true, s)
run_queue (item ∷ items) net s = run_item net item (record s { queue = items })

-- A round of the thread, if it runs; the sentinel ends it.
unfoldable pub run_once : Network → BroadcastSender → BroadcastSender
run_once net s =
    let (goes_on, s') = run_queue s.queue net s in
    if s.running then record s' { running = goes_on } else s

-- `wait_for_completion`, of what is there now: a timeout is `none`.
unfoldable pub completion : String → BroadcastSender → Option BroadcastResult
unfolding get
completion broadcast_id s = elim (get broadcast_id s.events) [
  | none ↦ none
  | some was_set ↦ if was_set then get broadcast_id s.results else none
]
