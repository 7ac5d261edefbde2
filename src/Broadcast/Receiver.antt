-- ===== src/Broadcast/Receiver.antt =====
-- `BroadcastReceiver` of peer_replication.py. A call that raises is `raised`; the placement record
-- is an effect, made when the receiver has an id and the shared file system.
use asm_dataset_nix.Prelude.{
  string_eq, ℕ, ◌+◌, String, Bool, true, false, not, ◌&&◌, ◌||◌, List, [], ◌∷◌, ◌++◌, ◌==◌,
  contains, leb, if◌then◌else◌,
}
use asm_dataset_nix.Prelude.Dict.{Dict, get, or_else}
use asm_dataset_nix.Replication.Context.{Call, returned, raised, is_delivered}

pub record FanoutJob : Type 0 where
  pub path : String
  pub size : ℕ
  pub broadcast_id : String
  pub origin_peer_id : String
  pub hop_count : ℕ

-- The receiver with what it was made with.
pub record BroadcastReceiver : Type 0 where
  pub self_peer_id : String
  pub has_shared_fs : Bool
  pub max_hop : ℕ
  pub queue : List FanoutJob
  pub stopped : Bool

pub record Surroundings : Type 0 where
  pub peer_urls : Call (Dict String String)
  pub is_path_locally_valid : String → Call Bool
  pub fetch_path_from_peer : String → String → Call Bool

-- The placement records that a call makes.
abbrev pub Records : Type 0
Records = List String

-- `_maybe_record`
unfoldable pub maybe_record : String → BroadcastReceiver → Records
maybe_record path r = if r.has_shared_fs && not (r.self_peer_id == "") then path ∷ [] else []

-- `_safe_url_map`
unfoldable pub safe_url_map : Call (Dict String String) → Dict String String
safe_url_map raised = []
safe_url_map (returned urls) = urls

-- `_enqueue_fanout`
unfoldable pub enqueue_fanout : FanoutJob → BroadcastReceiver → BroadcastReceiver
enqueue_fanout job r = if r.stopped then r else record r { queue = r.queue ++ job ∷ [] }

abbrev pub Handled : Type 0
Handled = Bool × Records × BroadcastReceiver

-- The end of `on_broadcast_offer`, with the origin's address, which may be missing or empty.
unfoldable pub fetch_and_cascade : Surroundings → FanoutJob → String → BroadcastReceiver → Handled
fetch_and_cascade net offer origin_url r =
    if origin_url == ""
    then (false, [], r)
    else if not (is_delivered (net.fetch_path_from_peer offer.path origin_url))
    then (false, [], r)
    else if leb r.max_hop offer.hop_count
    then (true, maybe_record offer.path r, r)
    else (
      true,
      maybe_record offer.path r,
      enqueue_fanout (record offer { hop_count = offer.hop_count + 1 }) r,
    )

-- `on_broadcast_offer`; an offer has the fields of a job.
unfoldable pub on_broadcast_offer : Surroundings → FanoutJob → BroadcastReceiver → Handled
on_broadcast_offer net offer r =
    if r.stopped || offer.path == ""
    then (false, [], r)
    else if is_delivered (net.is_path_locally_valid offer.path)
    then (true, maybe_record offer.path r, r)
    else fetch_and_cascade net offer
        (or_else "" (get offer.origin_peer_id (safe_url_map net.peer_urls))) r

-- The `continue`s of the loop of `_dispatch`.
unfoldable pub is_skipped : String → String → List String → String → String → Bool
is_skipped me origin seen pid url = url == "" || pid == me || pid == origin || contains url seen

-- The loop of `_dispatch` over the addresses.
unfoldable pub fanout_targets : String → String → List String → Dict String String → List String
fanout_targets me origin seen [] = []
fanout_targets me origin seen ((pid, url) ∷ urls) =
    let skipped = is_skipped me origin seen pid url in
    let rest = fanout_targets me origin (if skipped then seen else url ∷ seen) urls in
    if skipped then rest else url ∷ rest
