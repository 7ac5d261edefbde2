-- ===== src/Replication/Receiver.antt =====
-- `ReplicationReceiver` of peer_replication.py. A fetch is two steps, since others run while it
-- waits: what `_do_fetch` does before its call of `fetch_from_peer`, and what it does after.
use asm_dataset_nix.Prelude.{
  string_eq, String, Bool, true, false, not, ◌||◌, Option, none, some, List, [], ◌∷◌, ◌++◌, ◌==◌,
  contains, if◌then◌else◌,
}
use asm_dataset_nix.Prelude.Dict.{Dict, get, put, remove, or_else, is_some}
use asm_dataset_nix.Replication.Context.{
  PeerInfo, Call, returned, raised, Context, Effects, path_accept, path_reject, fetch_started,
  self_has_recorded, with_item, is_delivered, minus,
}
use asm_dataset_nix.Replication.Sender.{Sender, push_attempt, peer_ids}

-- The record of an offer or a cancellation, with "" for what is missing.
pub record Offer : Type 0 where
  pub from_sid : String
  pub outpath : String
  pub drv_path : String
  pub item_class : String

pub record Receiver : Type 0 where
  pub targeting : Dict String String
  pub cancelled : Dict String (List String)
  pub stopped : Bool

abbrev pub item_class_toolchain : String
item_class_toolchain = "toolchain"

-- `_reject` and `_accept`
unfoldable pub reject : Context → String → String → String → Effects
reject ctx from_sid outpath reason =
    if contains from_sid (peer_ids ctx) then path_reject from_sid outpath reason ∷ [] else []

unfoldable pub accept : Context → String → String → Effects
accept ctx from_sid outpath =
    if contains from_sid (peer_ids ctx) then path_accept from_sid outpath ∷ [] else []

-- `current is not None and current != from_sid`
unfoldable pub is_targeted_by_other : Option String → String → Bool
is_targeted_by_other none from_sid = false
is_targeted_by_other (some current) from_sid = not (current == from_sid)

unfoldable pub on_offer : Context → Offer → Receiver → Receiver × Effects
on_offer ctx o r =
    if o.from_sid == "" || o.outpath == ""
    then (r, [])
    else if r.stopped
    then (r, reject ctx o.from_sid o.outpath "shutting-down")
    else if is_delivered (ctx.is_path_locally_valid o.outpath)
    then (r, reject ctx o.from_sid o.outpath "already-have")
    else if is_targeted_by_other (get o.outpath r.targeting) o.from_sid
    then (r, reject ctx o.from_sid o.outpath "already-targeted")
    else (
      record r { targeting = put o.outpath o.from_sid r.targeting },
      accept ctx o.from_sid o.outpath
          ++ fetch_started o.from_sid o.outpath o.drv_path o.item_class ∷ [],
    )

-- `self._targeting.get(outpath) == from_sid`
unfoldable pub is_target : Option String → String → Bool
is_target none from_sid = false
is_target (some current) from_sid = current == from_sid

unfoldable pub on_cancel : Offer → Receiver → Receiver × Effects
on_cancel o r =
    if o.from_sid == "" || o.outpath == ""
    then (r, [])
    else if not (is_target (get o.outpath r.targeting) o.from_sid)
    then (r, [])
    else (
      record r {
        cancelled =
            put o.outpath (with_item o.from_sid (or_else [] (get o.outpath r.cancelled)))
              r.cancelled;
        targeting = remove o.outpath r.targeting;
      },
      [],
    )

unfoldable pub stop_receiver : Receiver → Receiver
stop_receiver r = record r { stopped = true; targeting = []; cancelled = [] }

-- `_peer_by_sid`
unfoldable pub peer_by_sid : List PeerInfo → String → Option PeerInfo
peer_by_sid [] sid = none
peer_by_sid (p ∷ ps) sid = if p.secondary_id == sid then some p else peer_by_sid ps sid

unfoldable pub clear_target : Offer → Receiver → Receiver
clear_target o r =
    if is_target (get o.outpath r.targeting) o.from_sid
    then record r { targeting = remove o.outpath r.targeting }
    else r

-- `_do_fetch`, before the call: without the offerer the fetch ends.
unfoldable pub fetch_from : Option PeerInfo → Offer → Receiver → Option PeerInfo × Receiver
fetch_from none o r = (none, clear_target o r)
fetch_from (some p) o r = (some p, r)

unfoldable pub begin_fetch : Context → Offer → Receiver → Option PeerInfo × Receiver
begin_fetch ctx o r = fetch_from (peer_by_sid ctx.get_peers o.from_sid) o r

-- The call, where an exception counts as no source.
unfoldable pub source_of : Call (Option String) → Option String
source_of raised = none
source_of (returned source) = source

-- `self._cancelled.get(outpath, set()).discard(from_sid)`: a set that is there is changed in place.
unfoldable pub discard_found : Option (List String) → Offer → Receiver → Receiver
discard_found none o r = r
discard_found (some sids) o r = record r {
  cancelled = put o.outpath (minus (o.from_sid ∷ []) sids) r.cancelled;
}

-- The cascade after `record_self_has`.
unfoldable pub cascade : Context → Offer → Call (Unit {0}) → Sender → Sender × Effects
cascade ctx o raised s = (s, [])
cascade ctx o (returned tt) s =
    let (issued, s', effects) = push_attempt ctx o.outpath o.drv_path o.item_class [] s in
    if o.item_class == item_class_toolchain then (s', effects) else (s, [])

-- `_do_fetch`, after the call.
unfoldable pub end_fetch :
    Context → Offer → Option String → Receiver → Sender → Receiver × Sender × Effects
end_fetch ctx o source r s =
    let sids = get o.outpath r.cancelled in
    let r' = discard_found sids o (clear_target o r) in
    let recorded = ctx.record_self_has o.outpath o.drv_path o.item_class in
    let (s', effects) = cascade ctx o recorded s in
    if r.stopped || contains o.from_sid (or_else [] sids) || not (is_some source)
    then (r', s, [])
    else (r', s', self_has_recorded o.outpath o.drv_path o.item_class ∷ effects)
