-- ===== src/Replication/Repair.antt =====
-- `ReplicationRepairWorker` of peer_replication.py. The metadata lookup is a function of the
-- outpath; `default_metadata_lookup` is the one that is used when none is given. Logging is left
-- out.
use asm_dataset_nix.Prelude.{
  string_eq, ◌-◌, String, Bool, not, ◌&&◌, Option, List, [], ◌∷◌, ◌++◌, length, ◌==◌, contains, leb,
  if◌then◌else◌,
}
use asm_dataset_nix.Prelude.Order.{str_order}
use asm_dataset_nix.Prelude.Sorting.{sorted_by}
use asm_dataset_nix.Prelude.Dict.{Dict}
use asm_dataset_nix.Replication.Context.{
  Call, returned, raised, Context, Placements, Effects, mark_unfulfillable, minus, text_of,
}
use asm_dataset_nix.Replication.Sender.{Sender, placed, push_attempt}
use asm_dataset_nix.Replication.Settle.{task_hash_for}
use asm_dataset_nix.Replication.Receiver.{item_class_toolchain}

-- The part of a `PlacementRecord` that is read here.
pub record PlacementRecord : Type 0 where
  pub outpath : String
  pub drv_path : String
  pub item_class : String

-- `for rec in reversed(records)`: the last record of the outpath.
unfoldable pub last_record : String → List PlacementRecord → String × String → String × String
last_record outpath [] found = found
last_record outpath (p ∷ ps) found =
    last_record outpath ps (if p.outpath == outpath then (p.drv_path, p.item_class) else found)

unfoldable pub default_metadata_lookup : Call (List PlacementRecord) → String → String × String
default_metadata_lookup raised outpath = ("", "")
default_metadata_lookup (returned records) outpath = last_record outpath records ("", "")

-- The end of `_maybe_mark_unfulfillable`.
unfoldable pub mark_found : Call (Option String) → String → List String → Effects
mark_found raised outpath excludes = []
mark_found (returned task_hash) outpath excludes =
    if text_of task_hash == ""
    then []
    else mark_unfulfillable (text_of task_hash) outpath (sorted_by str_order (λ s. s) excludes) ∷ []

-- `if holders: return`
unfoldable pub mark_without : List String → Context → String → List String → Effects
mark_without (h ∷ hs) ctx outpath excludes = []
mark_without [] ctx outpath excludes = mark_found (task_hash_for ctx outpath) outpath excludes

-- `_maybe_mark_unfulfillable`; without a lookup `task_hash_for` is empty, and nothing is marked.
unfoldable pub maybe_mark_unfulfillable : Context → String → List String → Effects
maybe_mark_unfulfillable ctx outpath excludes =
    if not ctx.has_mark_unfulfillable
    then []
    else mark_without (minus excludes (placed outpath ctx)) ctx outpath excludes

-- The placements are read anew, with what else a context holds, when an outpath is pushed, when it
-- is decided whether its task is marked, and when the cascade pushes it.
pub record Readings : Type 0 where
  pub at_push : String → Context
  pub at_mark : String → Context
  pub at_cascade : String → Context

-- `_repair_for_outpaths`
unfoldable pub repair_for_outpaths :
    Readings → (String → String × String) → List String → List String → Sender → Sender × Effects
repair_for_outpaths reads metadata excludes [] s = (s, [])
repair_for_outpaths reads metadata excludes (outpath ∷ outpaths) s =
    let (drv_path, item_class) = metadata outpath in
    let (issued, s', effects) =
      push_attempt (reads.at_push outpath) outpath drv_path item_class excludes s in
    let marked = maybe_mark_unfulfillable (reads.at_mark outpath) outpath excludes in
    let (s'', effects') = repair_for_outpaths reads metadata excludes outpaths s' in
    (s'', effects ++ (marked ++ effects'))

-- The loop of `on_peer_removed` over `snapshot.items()`.
unfoldable pub needs_repair : Context → String → List String → Bool
needs_repair ctx dead holders =
    contains ctx.my_secondary_id holders
    && contains dead holders
    && not (leb ctx.replication_k (length holders - 1))

unfoldable pub outpaths_to_repair : Context → String → Placements → List String
outpaths_to_repair ctx dead [] = []
outpaths_to_repair ctx dead ((outpath, holders) ∷ snapshot) =
    let rest = outpaths_to_repair ctx dead snapshot in
    if needs_repair ctx dead holders then outpath ∷ rest else rest

unfoldable pub on_peer_removed :
    Context → Readings → (String → String × String) → String → Sender → Sender × Effects
on_peer_removed ctx reads metadata dead s =
    if dead == ""
    then (s, [])
    else repair_for_outpaths reads metadata (dead ∷ [])
        (outpaths_to_repair ctx dead ctx.get_placements) s

-- The keys of `diff.removed` that are repaired.
unfoldable pub removed_to_repair : Context → Dict String (List String) → List String
removed_to_repair ctx [] = []
removed_to_repair ctx ((outpath, gone) ∷ removed) =
    let rest = removed_to_repair ctx removed in
    if contains ctx.my_secondary_id (placed outpath ctx)
      && not (leb ctx.replication_k (length (placed outpath ctx)))
    then outpath ∷ rest
    else rest

-- The cascade over `diff.added.items()`.
unfoldable pub cascade_added :
    Context
    → Readings
    → (String → String × String)
    → Dict String (List String)
    → Sender
    → Sender × Effects
cascade_added ctx reads metadata [] s = (s, [])
cascade_added ctx reads metadata ((outpath, new_sids) ∷ added) s =
    let (drv_path, item_class) = metadata outpath in
    let (issued, pushed, effects) =
      push_attempt (reads.at_cascade outpath) outpath drv_path item_class [] s in
    let mine = contains ctx.my_secondary_id new_sids && item_class == item_class_toolchain in
    let (s', effects') = cascade_added ctx reads metadata added (if mine then pushed else s) in
    (s', (if mine then effects else []) ++ effects')

pub record PlacementDiff : Type 0 where
  pub added : Dict String (List String)
  pub removed : Dict String (List String)

unfoldable pub on_diff :
    Context → Readings → (String → String × String) → PlacementDiff → Sender → Sender × Effects
on_diff ctx reads metadata diff s =
    let (s', effects) =
      repair_for_outpaths reads metadata [] (removed_to_repair ctx diff.removed) s in
    let (s'', effects') = cascade_added ctx reads metadata diff.added s' in
    (s'', effects ++ effects')
