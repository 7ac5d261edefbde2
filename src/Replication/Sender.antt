-- ===== src/Replication/Sender.antt =====
-- `ReplicationSender` of peer_replication.py. A method takes the context of the call and the
-- sender, and returns its result, the sender it leaves and its effects. The lock makes a method
-- one step, but for `_fire_settle`, which lets go of it and is in Settle.
use asm_dataset_nix.Prelude.{
  string_eq, ℕ, ◌+◌, ◌-◌, String, Bool, true, false, not, ◌&&◌, Option, none, some, List, [], ◌∷◌,
  ◌++◌, map, length, ◌==◌, contains, leb, if◌then◌else◌,
}
use asm_dataset_nix.Prelude.Dict.{Dict, keys, get, put, remove, or_else, is_some}
use asm_dataset_nix.Replication.Context.{
  PeerInfo, Context, Effects, path_offer, path_cancel, timer_started, timer_cancelled, settle_armed,
  settle_cancelled, minus, with_item, is_delivered,
}

-- `_InFlightOffer`, whose timer always runs, and whose target is its key.
pub record InFlightOffer : Type 0 where
  pub drv_path : String
  pub item_class : String

abbrev pub in_flight_offer : String → String → InFlightOffer
in_flight_offer drv_path item_class = record { drv_path = drv_path; item_class = item_class }

-- A call of `_fire_settle` that is past its first critical section: the holders that it read there,
-- and whether it found an updater and a lookup.
pub record SettleCall : Type 0 where
  pub outpath : String
  pub holders : List String
  pub has_updater : Bool
  pub has_lookup : Bool

pub record Sender : Type 0 where
  pub in_flight : Dict String (Dict String InFlightOffer)
  pub metadata : Dict String (String × String)
  pub stopped : Bool
  -- The outpaths with a settle timer that runs.
  pub settle_timer : Dict String (Unit {0})
  pub fired : Dict String (Unit {0})
  -- The calls of `_fire_settle` that run, outside of the lock.
  pub settling : List SettleCall

abbrev pub new_sender : Sender
new_sender = record {
  in_flight = [];
  metadata = [];
  stopped = false;
  settle_timer = [];
  fired = [];
  settling = [];
}

-- `self._in_flight.get(outpath, {})`
unfoldable pub slots : String → Sender → Dict String InFlightOffer
slots outpath s = or_else [] (get outpath s.in_flight)

-- `placements.get(outpath, set())`
unfoldable pub placed : String → Context → List String
placed outpath ctx = or_else [] (get outpath ctx.get_placements)

-- `self._in_flight.setdefault(outpath, {})[target_sid] = slot`
unfoldable pub add_slot : String → String → InFlightOffer → Sender → Sender
add_slot outpath target slot s = record s {
  in_flight = put outpath (put target slot (slots outpath s)) s.in_flight;
}

-- `_release_slot`, by the slots of the outpath and by the slot of the target.
unfoldable pub drop_slot : String → Dict String InFlightOffer → Sender → Sender
drop_slot outpath [] s = record s { in_flight = remove outpath s.in_flight }
drop_slot outpath (p ∷ rest) s = record s { in_flight = put outpath (p ∷ rest) s.in_flight }

unfoldable pub release_found : Option InFlightOffer → String → String → Sender → Sender × Effects
unfolding drop_slot
release_found none outpath target s = (s, [])
release_found (some slot) outpath target s =
    (drop_slot outpath (remove target (slots outpath s)) s, timer_cancelled outpath target ∷ [])

unfoldable pub release_slot : String → String → Sender → Sender × Effects
release_slot outpath target s = release_found (get target (slots outpath s)) outpath target s

-- The list `candidates` of `_push_attempt_locked`.
unfoldable pub is_candidate : String → List String → List String → List String → String → Bool
is_candidate me holders in_flight excludes sid =
    not (sid == me)
    && not (contains sid holders)
    && not (contains sid in_flight)
    && not (contains sid excludes)

unfoldable pub candidates :
    String → List String → List String → List String → List PeerInfo → List PeerInfo
candidates me holders in_flight excludes [] = []
candidates me holders in_flight excludes (p ∷ ps) =
    let rest = candidates me holders in_flight excludes ps in
    if is_candidate me holders in_flight excludes p.secondary_id then p ∷ rest else rest

-- The `for` loop over the chosen targets.
unfoldable pub offer_all :
    Context → String → String × String → List PeerInfo → Sender → ℕ × Sender × Effects
offer_all ctx outpath (drv_path, item_class) [] s = (0, s, [])
offer_all ctx outpath (drv_path, item_class) (t ∷ ts) s =
    let delivered = is_delivered (ctx.push_path_offer t outpath drv_path item_class) in
    let (issued, s', effects) =
      offer_all ctx outpath (drv_path, item_class) ts
        (if delivered
          then add_slot outpath t.secondary_id (in_flight_offer drv_path item_class) s
          else s) in
    (
      if delivered then issued + 1 else issued,
      s',
      path_offer t.secondary_id outpath drv_path item_class
          ∷ (if delivered then timer_started outpath t.secondary_id ∷ effects else effects),
    )

-- `min(needed, len(candidates))`
abbrev pub min : ℕ → ℕ → ℕ
min m n = if leb m n then m else n

-- The end of `_push_attempt_locked`, from `needed` on.
unfoldable pub offer_needed : Context → String → List String → ℕ → Sender → ℕ × Sender × Effects
offer_needed ctx outpath excludes needed s =
    let holders = minus excludes (placed outpath ctx) in
    let cs =
      candidates ctx.my_secondary_id holders (keys (slots outpath s)) excludes ctx.get_peers in
    offer_all ctx outpath (or_else ("", "") (get outpath s.metadata))
      (ctx.sample cs (min needed (length cs))) s

-- `_push_attempt_locked`. With no candidate the sample is of none of them, and offers nothing.
unfoldable pub push_attempt_locked : Context → String → List String → Sender → ℕ × Sender × Effects
unfolding offer_needed
push_attempt_locked ctx outpath excludes s =
    let have = length (minus excludes (placed outpath ctx)) + length (slots outpath s) in
    if s.stopped
    then (0, s, [])
    else if leb ctx.replication_k have
    then (0, s, [])
    else offer_needed ctx outpath excludes (ctx.replication_k - have) s

unfoldable pub push_attempt :
    Context → String → String → String → List String → Sender → ℕ × Sender × Effects
push_attempt ctx outpath drv_path item_class excludes s =
    if s.stopped
    then (0, s, [])
    else push_attempt_locked ctx outpath excludes
        (record s { metadata = put outpath (drv_path, item_class) s.metadata })

unfoldable pub on_accept : String → String → Sender → Sender × Effects
on_accept from_sid outpath s = (s, [])

-- The slot is released and another peer is tried.
unfoldable pub retry : Context → String → String → Sender → Sender × Effects
retry ctx target outpath s =
    let (s', released) = release_slot outpath target s in
    let (issued, s'', effects) = push_attempt_locked ctx outpath [] s' in (s'', released ++ effects)

unfoldable pub on_reject : Context → String → String → Sender → Sender × Effects
on_reject ctx from_sid outpath s = retry ctx from_sid outpath s

unfoldable pub timeout_found :
    Option InFlightOffer → Context → String → String → Sender → Sender × Effects
timeout_found none ctx outpath target s = (s, [])
timeout_found (some slot) ctx outpath target s = retry ctx target outpath s

unfoldable pub on_timeout : Context → String → String → Sender → Sender × Effects
on_timeout ctx outpath target s = timeout_found (get target (slots outpath s)) ctx outpath target s

-- `_arm_settle_locked`, by whether a timer runs.
unfoldable pub cancel_found : Option (Unit {0}) → String → Sender → Sender × Effects
cancel_found none outpath s = (s, [])
cancel_found (some t) outpath s =
    (record s { settle_timer = remove outpath s.settle_timer }, settle_cancelled outpath ∷ [])

unfoldable pub cancel_settle : String → Sender → Sender × Effects
cancel_settle outpath s = cancel_found (get outpath s.settle_timer) outpath s

unfoldable pub is_fired : String → Sender → Bool
is_fired outpath s = is_some (get outpath s.fired)

unfoldable pub arm_settle : Context → String → Bool → Sender → Sender × Effects
arm_settle ctx outpath converged s =
    let (s', cancelled) = cancel_settle outpath s in
    if not converged
    then (s', cancelled)
    else if is_fired outpath s
    then (s, [])
    else if not ctx.has_update_preferred
    then (s, [])
    else (
      record s { settle_timer = put outpath tt s.settle_timer },
      cancelled ++ settle_armed outpath ∷ [],
    )

-- `p.secondary_id for p in self._ctx.get_peers()`
abbrev pub peer_ids : Context → List String
peer_ids ctx = map (λ (p : PeerInfo). p.secondary_id) ctx.get_peers

-- The loop over the outstanding slots.
unfoldable pub cancel_all : List String → String → List String → Effects
cancel_all peers outpath [] = []
cancel_all peers outpath (t ∷ ts) =
    let rest = cancel_all peers outpath ts in
    timer_cancelled outpath t ∷ (if contains t peers then path_cancel t outpath ∷ rest else rest)

unfoldable pub is_converged : Context → String → String → Bool
is_converged ctx holder outpath =
    leb ctx.replication_k (length (with_item holder (placed outpath ctx)))

-- The end of `on_path_have`, for the outstanding slots, which may be none.
unfoldable pub cancel_outstanding :
    Context → String → Dict String InFlightOffer → Sender → Sender × Effects
cancel_outstanding ctx outpath [] s = (s, [])
cancel_outstanding ctx outpath (p ∷ ps) s = (
  record s { in_flight = remove outpath s.in_flight },
  cancel_all (peer_ids ctx) outpath (keys (p ∷ ps)),
)

unfoldable pub on_path_have : Context → String → String → Sender → Sender × Effects
on_path_have ctx holder outpath s =
    let converged = is_converged ctx holder outpath in
    let (released, effects) = release_slot outpath holder s in
    let (settled, effects') = arm_settle ctx outpath converged released in
    let (done, effects'') = cancel_outstanding ctx outpath (slots outpath settled) settled in
    if converged then (done, effects ++ (effects' ++ effects'')) else (settled, effects ++ effects')

-- The loops of `stop`.
unfoldable pub cancel_timers : Dict String (Dict String InFlightOffer) → Effects
cancel_timers [] = []
cancel_timers ((outpath, slots) ∷ rest) =
    map (λ t. timer_cancelled outpath t) (keys slots) ++ cancel_timers rest

unfoldable pub stop : Sender → Sender × Effects
stop s = (
  record s { stopped = true; in_flight = []; settle_timer = [] },
  cancel_timers s.in_flight ++ map (λ o. settle_cancelled o) (keys s.settle_timer),
)
