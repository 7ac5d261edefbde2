-- ===== src/Tests/BroadcastSamples.antt =====
-- Runs of the broadcast classes, and the properties at them.
use asm_dataset_nix.Prelude.{
  string_eq, ◌≡◌, refl, String, true, false, not, ◌&&◌, none, some, List, [], ◌∷◌, ◌==◌, contains,
}
use asm_dataset_nix.Prelude.Dict.{Dict, get, put}
use asm_dataset_nix.Prelude.Contains.{IsDistinct}
use asm_dataset_nix.Replication.Context.{returned, raised}
use asm_dataset_nix.Broadcast.Sender.{
  BroadcastJob, BroadcastSender, Network, enqueue_broadcast, accept, start, start_and_put, put_job,
  set_stopped, put_sentinel, run_once, run_queue, run_item, dispatch, dispatch_counts, urls_of,
  counts_of, record_result, completion,
}
use asm_dataset_nix.Broadcast.Steps.{Event, stopping, sentinel, ran, apply_event, apply_all}
use asm_dataset_nix.Broadcast.Completion.{result_of, rounds_complete}
use asm_dataset_nix.Broadcast.Receiver.{
  FanoutJob, BroadcastReceiver, Surroundings, fanout_targets, is_skipped, on_broadcast_offer,
}
use asm_dataset_nix.Broadcast.Flood.{
  has_other, fanout_targets_lem, Answer, on_broadcast_offer-Answer,
}

abbrev job : BroadcastJob
job = record { broadcast_id = "id"; path = "/nix/store/0-x.drv"; size = 7; item_class = none }

-- A network whose fan-out raises.
abbrev broken_network : Network
broken_network = record {
  peer_urls = returned ("http://a:1" ∷ "http://b:1" ∷ []);
  fan_out = λ urls j. raised;
}

abbrev other_job : BroadcastJob
other_job = record {
  broadcast_id = "id0";
  path = "/nix/store/1-y.drv";
  size = 3;
  item_class = none;
}

-- A sender whose two broadcasts wait.
abbrev ready : BroadcastSender
ready = record {
  queue = some other_job ∷ some job ∷ [];
  results = [];
  events = ("id0", false) ∷ ("id", false) ∷ [];
  stopped = false;
  running = true;
}

-- The sender is stopped between the two rounds.
abbrev calls : List Event
calls = ran broken_network ∷ stopping ∷ sentinel ∷ ran broken_network ∷ ran broken_network ∷ []

-- Its two broadcasts are those of two calls.
enqueued :
    ready
    ≡ (enqueue_broadcast job
        (enqueue_broadcast other_job
          (record { queue = []; results = []; events = []; stopped = false; running = false })).1).1
unfolding enqueue_broadcast accept start start_and_put put_job put
enqueued = refl

-- A fan-out that raises fails at every peer, and names each.
failed_everywhere : result_of job broken_network ≡ record {
  broadcast_id = "id";
  success_count = 0;
  fail_count = 2;
  failed_peers = "http://a:1" ∷ "http://b:1" ∷ [];
}
unfolding dispatch_counts urls_of counts_of
failed_everywhere = refl

-- The worker ends at the sentinel.
ended : (apply_all calls ready).running ≡ false
unfolding apply_all apply_event set_stopped put_sentinel run_once run_queue run_item dispatch
    record_result
ended = refl

rounds_complete_example :
    completion "id" (apply_all calls ready) ≡ some (result_of job broken_network)
unfolding get
rounds_complete_example =
    rounds_complete job calls broken_network (other_job ∷ []) ready
      (record { runs = refl; behind = []; in_queue = refl; has_event = refl; alone = refl })
      (refl, (refl, (refl, (refl, (refl, tt))))) refl

abbrev addresses : Dict String String
addresses =
    ("me", "http://m:1")
    ∷ ("origin", "http://o:1")
    ∷ ("a", "http://a:1")
    ∷ ("b", "http://a:1")
    ∷ ("c", "")
    ∷ []

only_a : fanout_targets "me" "origin" [] addresses ≡ "http://a:1" ∷ []
unfolding fanout_targets is_skipped
only_a = refl

fanout_targets_lem_example :
    IsDistinct (fanout_targets "me" "origin" [] addresses)
    × ((url : String)
        → contains url (fanout_targets "me" "origin" [] addresses)
          ≡ (not (url == "") && has_other url "me" "origin" addresses))
fanout_targets_lem_example = fanout_targets_lem "me" "origin" addresses

abbrev around : Surroundings
around = record {
  peer_urls = returned addresses;
  is_path_locally_valid = λ path. returned false;
  fetch_path_from_peer = λ path url. returned true;
}

abbrev offer : FanoutJob
offer = record {
  path = "/nix/store/0-x.drv";
  size = 7;
  broadcast_id = "id";
  origin_peer_id = "origin";
  hop_count = 0;
}

abbrev receiver : BroadcastReceiver
receiver = record {
  self_peer_id = "me";
  has_shared_fs = true;
  max_hop = 8;
  queue = [];
  stopped = false;
}

on_broadcast_offer-Answer_example :
    Answer around offer receiver (on_broadcast_offer around offer receiver)
on_broadcast_offer-Answer_example = on_broadcast_offer-Answer around offer receiver
