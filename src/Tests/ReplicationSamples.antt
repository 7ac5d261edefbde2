-- ===== src/Tests/ReplicationSamples.antt =====
-- Runs of the replication classes, and the properties at them.
use asm_dataset_nix.Prelude.{
  string_eq, pair_eq, ℕ, suc, ◌-◌, ◌≤◌, ◌≡◌, refl, ◌⊎◌, String, Bool, true, false, not, ◌&&◌, some,
  List, [], ◌∷◌, length, take, contains, All, arith, leb,
}
use asm_dataset_nix.Prelude.Count.{count}
use asm_dataset_nix.Prelude.Order.{str_le}
use asm_dataset_nix.Prelude.Sorting.{insert_by, sorted_by}
use asm_dataset_nix.Prelude.Dict.{keys, get, put, or_else, remove}
use asm_dataset_nix.Replication.Context.{
  PeerInfo, returned, Context, SampleLaws, path_offer, timer_started, is_delivered, minus,
  with_item,
}
use asm_dataset_nix.Replication.Sender.{
  Sender, new_sender, slots, push_attempt, stop, is_converged, on_path_have, push_attempt_locked,
  offer_needed, placed, offer_all, candidates, is_candidate, add_slot, release_slot, release_found,
  drop_slot, arm_settle, is_fired, cancel_settle, cancel_found, cancel_outstanding, cancel_all,
}
use asm_dataset_nix.Replication.Settle.{
  settle_check, settle_publish, take_call, publish_call, publish_found, publish,
}
use asm_dataset_nix.Replication.Events.{
  Event, pushed, path_had, settle_checked, settle_published, apply_event, apply_events,
}
use asm_dataset_nix.Replication.Offers.{offered}
use asm_dataset_nix.Replication.Chosen.{IsFresh}
use asm_dataset_nix.Replication.Attempt.{
  live_copies, push_attempt-IsFresh, push_attempt-bound, push_attempt-reaches,
}
use asm_dataset_nix.Replication.Quiet.{is_update, is_offer}
use asm_dataset_nix.Replication.SettleSteps.{pending}
use asm_dataset_nix.Replication.History.{apply_events-once, stop-silent}
use asm_dataset_nix.Replication.Converged.{cancelled, on_path_have-cancels}
use asm_dataset_nix.Replication.Receiver.{
  Offer, Receiver, on_offer, on_cancel, end_fetch, is_target,
}
use asm_dataset_nix.Replication.Cancelling.{no_call, offer_came, end_fetch-on_cancel}
use asm_dataset_nix.Replication.Repair.{Readings, outpaths_to_repair, on_peer_removed, on_diff}
use asm_dataset_nix.Replication.Repairs.{
  is_mark, outpaths_to_repair_lem, on_diff-no_mark, on_peer_removed-no_mark,
}
use asm_dataset_nix.Replication.Excluded.{OffersAvoid, on_peer_removed-avoids}

abbrev peer : String → ℕ → PeerInfo
peer sid port = record { secondary_id = sid; hostname = "host"; port = port; public_key = "k" }

abbrev first_of : List PeerInfo → ℕ → List PeerInfo
first_of ps n = take n ps

length-take : (ps : List PeerInfo) (n : ℕ) → n ≤ length ps → length (take n ps) ≡ n
length-take [] Prim.Native.Nat.zero h = refl
length-take [] (suc n) h = absurd (omega (arith, h))
length-take (p ∷ ps) Prim.Native.Nat.zero h = refl
length-take (p ∷ ps) (suc n) h = omega (arith, length-take ps n (omega (arith, h)))

count-take : (f : PeerInfo → Bool) (ps : List PeerInfo) (n : ℕ) → count f (take n ps) ≤ count f ps
count-take f [] Prim.Native.Nat.zero = omega arith
count-take f [] (suc n) = omega arith
count-take f (p ∷ ps) Prim.Native.Nat.zero = omega arith
count-take f (p ∷ ps) (suc n) = ground (arith, count-take f ps n)

first_of-SampleLaws : SampleLaws first_of
first_of-SampleLaws = record {
  size = λ ps n h. length-take ps n h;
  picks = λ f ps n h. count-take f ps n;
}

abbrev gcc : String
gcc = "/nix/store/0-gcc"

-- Four peers, of which `holders` have the toolchain.
abbrev cluster : List String → Context
cluster holders = record {
  my_secondary_id = "a";
  get_peers = peer "a" 1 ∷ peer "b" 2 ∷ peer "c" 3 ∷ peer "d" 4 ∷ [];
  get_placements = (gcc, holders) ∷ [];
  push_path_offer = λ p o drv cls. returned true;
  is_path_locally_valid = λ o. returned false;
  fetch_from_peer = λ o p. returned (some o);
  record_self_has = λ o drv cls. returned tt;
  has_mark_unfulfillable = true;
  has_update_preferred = true;
  lookup_task_hash = some (λ o. returned (some "f00d"));
  replication_k = 3;
  sample = first_of;
}

abbrev alone : Context
alone = cluster ("a" ∷ [])

-- Two offers bring the one copy to three.
offers_two :
    (push_attempt alone gcc "gcc.drv" "toolchain" [] new_sender).2
    ≡ path_offer "b" gcc "gcc.drv" "toolchain"
      ∷ timer_started gcc "b"
      ∷ path_offer "c" gcc "gcc.drv" "toolchain"
      ∷ timer_started gcc "c"
      ∷ []
unfolding push_attempt push_attempt_locked offer_needed minus placed get put slots offer_all
    candidates is_candidate is_delivered add_slot
offers_two = refl

push_attempt-IsFresh_example :
    All
      (IsFresh alone gcc [] (keys (slots gcc new_sender)))
      (offered (push_attempt alone gcc "gcc.drv" "toolchain" [] new_sender).2)
    × (length (offered (push_attempt alone gcc "gcc.drv" "toolchain" [] new_sender).2)
        ≤ 3 - live_copies alone gcc [] new_sender)
push_attempt-IsFresh_example =
    push_attempt-IsFresh alone first_of-SampleLaws gcc "gcc.drv" "toolchain" [] new_sender

push_attempt-bound_example :
    (live_copies alone gcc [] (push_attempt alone gcc "gcc.drv" "toolchain" [] new_sender).1 ≤ 3)
    ⊎ (live_copies alone gcc [] (push_attempt alone gcc "gcc.drv" "toolchain" [] new_sender).1
        ≡ live_copies alone gcc [] new_sender)
push_attempt-bound_example =
    push_attempt-bound alone first_of-SampleLaws gcc "gcc.drv" "toolchain" [] new_sender

push_attempt-reaches_example :
    live_copies alone gcc [] (push_attempt alone gcc "gcc.drv" "toolchain" [] new_sender).1 ≡ 3
unfolding minus placed get slots candidates is_candidate is_delivered
push_attempt-reaches_example =
    push_attempt-reaches alone first_of-SampleLaws gcc "gcc.drv" "toolchain" [] new_sender
      (refl, (refl, (refl, (refl, tt)))) refl (omega arith) (omega arith) (λ p drv cls. refl)

-- A push, two peers that have the toolchain then, and the settle timer twice.
abbrev history : List (Context × Event)
history =
    (alone, pushed gcc "gcc.drv" "toolchain" [])
    ∷ (cluster ("a" ∷ "b" ∷ []), path_had "b" gcc)
    ∷ (cluster ("a" ∷ "b" ∷ "c" ∷ []), path_had "c" gcc)
    ∷ (cluster ("a" ∷ "b" ∷ "c" ∷ []), settle_checked gcc)
    ∷ (cluster ("a" ∷ "b" ∷ "c" ∷ []), settle_checked gcc)
    ∷ (cluster ("a" ∷ "b" ∷ "c" ∷ []), settle_published gcc (returned (some "f00d")))
    ∷ (cluster ("a" ∷ "b" ∷ "c" ∷ []), settle_published gcc (returned (some "f00d")))
    ∷ []

updated_once : count (is_update gcc) (apply_events history new_sender).1 ≡ 1
unfolding push_attempt push_attempt_locked offer_needed minus placed get put slots offer_all
    candidates is_candidate is_delivered add_slot apply_events apply_event on_path_have is_converged
    with_item release_slot release_found drop_slot remove arm_settle is_fired cancel_settle
    cancel_found cancel_outstanding cancel_all settle_check settle_publish take_call publish_call
    publish_found publish str_le insert_by sorted_by
updated_once = refl

apply_events-once_example : count (is_update gcc) (apply_events history new_sender).1 ≤ 1
apply_events-once_example = apply_events-once history new_sender gcc (omega arith)

-- A sender whose settle timer has passed its check.
abbrev checked : Sender
checked = settle_check (cluster ("a" ∷ "b" ∷ "c" ∷ [])) gcc new_sender

-- The call that goes on after the stop, and another that comes then.
abbrev late : List (Context × Event)
late =
    (cluster ("a" ∷ []), settle_published gcc (returned (some "f00d")))
    ∷ (cluster ("a" ∷ []), settle_checked gcc)
    ∷ (cluster ("a" ∷ []), settle_published gcc (returned (some "f00d")))
    ∷ []

-- The update that was under way is still sent.
updated_late : count (is_update gcc) (apply_events late (stop checked).0).1 ≡ 1
unfolding apply_events apply_event settle_check settle_publish take_call publish_call publish_found
    publish stop is_fired placed get put str_le insert_by sorted_by
updated_late = refl

stop-silent_example :
    (count is_offer (apply_events late (stop checked).0).1 ≡ 0)
    × (count (is_update gcc) (apply_events late (stop checked).0).1 ≤ pending gcc checked)
stop-silent_example = stop-silent late checked gcc

-- A sender with offers to "b" and "c".
abbrev offering : Sender
offering = (push_attempt alone gcc "gcc.drv" "toolchain" [] new_sender).1

abbrev full : Context
full = cluster ("a" ∷ "d" ∷ [])

on_path_have-cancels_example :
    contains ("c", gcc) (cancelled (on_path_have full "b" gcc offering).1) ≡ true
unfolding is_converged with_item push_attempt push_attempt_locked offer_needed minus placed get put
    slots offer_all candidates is_candidate is_delivered add_slot
on_path_have-cancels_example = on_path_have-cancels full "b" gcc offering "c" refl refl refl refl

abbrev offer_b : Offer
offer_b = record { from_sid = "b"; outpath = gcc; drv_path = "gcc.drv"; item_class = "toolchain" }

abbrev idle_receiver : Receiver
idle_receiver = record { targeting = []; cancelled = []; stopped = false }

abbrev fetching_b : Receiver
fetching_b = record { targeting = (gcc, "b") ∷ []; cancelled = []; stopped = false }

-- The receiver after the cancellation and the same offer once more.
abbrev offered_again : Receiver
offered_again = (on_offer alone offer_b (on_cancel offer_b fetching_b).0).0

end_fetch-on_cancel_example :
    ((end_fetch alone offer_b (some gcc) offered_again new_sender).1 ≡ new_sender)
    × ((end_fetch alone offer_b (some gcc) offered_again new_sender).2 ≡ [])
unfolding is_target get
end_fetch-on_cancel_example =
    end_fetch-on_cancel alone offer_b (some gcc) new_sender fetching_b offered_again refl refl
      (offer_came alone offer_b no_call)

abbrev metadata : String → String × String
metadata o = ("gcc.drv", "toolchain")

abbrev pair_ab : Context
pair_ab = cluster ("a" ∷ "b" ∷ [])

outpaths_to_repair_lem_example :
    contains gcc (outpaths_to_repair pair_ab "b" pair_ab.get_placements) ≡ (
      contains "a" (or_else [] (get gcc pair_ab.get_placements))
      && contains "b" (or_else [] (get gcc pair_ab.get_placements))
      && not (leb 3 (length (or_else [] (get gcc pair_ab.get_placements)) - 1)))
unfolding get
outpaths_to_repair_lem_example =
    outpaths_to_repair_lem pair_ab "b" pair_ab.get_placements gcc (refl, tt)

-- Readings that all find one context.
abbrev unchanged : Context → Readings
unchanged ctx = record { at_push = λ o. ctx; at_mark = λ o. ctx; at_cascade = λ o. ctx }

on_diff-no_mark_example :
    count is_mark
      (on_diff pair_ab
        (unchanged pair_ab)
        metadata
        (record { added = (gcc, "a" ∷ []) ∷ []; removed = (gcc, "c" ∷ []) ∷ [] })
        new_sender).1
    ≡ 0
on_diff-no_mark_example =
    on_diff-no_mark pair_ab (unchanged pair_ab) metadata
      (record { added = (gcc, "a" ∷ []) ∷ []; removed = (gcc, "c" ∷ []) ∷ [] }) new_sender
      (λ o. (refl, λ h. h))

on_peer_removed-no_mark_example :
    count is_mark (on_peer_removed pair_ab (unchanged pair_ab) metadata "b" new_sender).1 ≡ 0
unfolding get
on_peer_removed-no_mark_example =
    on_peer_removed-no_mark pair_ab (unchanged pair_ab) metadata "b" new_sender (refl, tt) refl
      (λ o. (refl, λ h. h))

on_peer_removed-avoids_example :
    OffersAvoid ("b" ∷ []) (on_peer_removed pair_ab (unchanged pair_ab) metadata "b" new_sender).1
on_peer_removed-avoids_example =
    on_peer_removed-avoids pair_ab (unchanged pair_ab) (λ o. first_of-SampleLaws) metadata "b"
      new_sender
