-- ===== src/Replication/Events.antt =====
-- The events that a `ReplicationSender` is called for, in any order and each in its own context: a
-- caller's push, the answers of peers, the timers, and the end. The settle timer's call takes the lock
-- for its check alone, so that its publication is an event of its own, with what the lookup gives.
use asm_dataset_nix.Prelude.{String, Option, List, [], ◌∷◌, ◌++◌}
use asm_dataset_nix.Replication.Context.{Call, Context, Effects}
use asm_dataset_nix.Replication.Sender.{
  Sender, push_attempt, on_accept, on_reject, on_timeout, on_path_have, stop,
}
use asm_dataset_nix.Replication.Settle.{settle_check, settle_publish}

pub data Event : Type 0 where
  pushed : (outpath drv_path item_class : String) (excludes : List String) → Event
  accepted rejected : (from_sid outpath : String) → Event
  timed_out : (outpath target : String) → Event
  path_had : (holder outpath : String) → Event
  settle_checked : (outpath : String) → Event
  settle_published : (outpath : String) (found : Call (Option String)) → Event
  ended : Event

unfoldable pub apply_event : Context → Event → Sender → Sender × Effects
apply_event ctx (pushed outpath drv_path item_class excludes) s =
    let (issued, s', effects) = push_attempt ctx outpath drv_path item_class excludes s in
    (s', effects)
apply_event ctx (accepted from_sid outpath) s = on_accept from_sid outpath s
apply_event ctx (rejected from_sid outpath) s = on_reject ctx from_sid outpath s
apply_event ctx (timed_out outpath target) s = on_timeout ctx outpath target s
apply_event ctx (path_had holder outpath) s = on_path_have ctx holder outpath s
apply_event ctx (settle_checked outpath) s = (settle_check ctx outpath s, [])
apply_event ctx (settle_published outpath found) s = settle_publish ctx outpath found s
apply_event ctx ended s = stop s

unfoldable pub apply_events : List (Context × Event) → Sender → Sender × Effects
apply_events [] s = (s, [])
apply_events ((ctx, event) ∷ events) s =
    let (s', effects) = apply_event ctx event s in
    let (s'', effects') = apply_events events s' in (s'', effects ++ effects')
