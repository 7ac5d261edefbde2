-- ===== src/Replication/Settle.antt =====
-- `_fire_settle` of `ReplicationSender` (peer_replication.py): the call of the settle timer, in the two
-- parts that the lock makes of it.
use asm_dataset_nix.Prelude.{
  string_eq, String, not, Option, none, some, List, [], ◌∷◌, ◌++◌, length, ◌==◌, ltb, if◌then◌else◌,
}
use asm_dataset_nix.Prelude.Order.{str_order}
use asm_dataset_nix.Prelude.Sorting.{sorted_by}
use asm_dataset_nix.Prelude.Dict.{put, remove, is_some}
use asm_dataset_nix.Replication.Context.{
  Call, returned, raised, Context, Effects, update_preferred, text_of,
}
use asm_dataset_nix.Replication.Sender.{SettleCall, Sender, placed, is_fired}

-- The last part of `_fire_settle`, with the task's hash and the holders that were read before.
unfoldable pub publish : Context → String → String → List String → Sender → Sender × Effects
publish ctx outpath task_hash holders s =
    if task_hash == ""
    then (s, [])
    else if ltb (length holders) ctx.replication_k
    then (record s { fired = remove outpath s.fired }, [])
    else (s, update_preferred outpath task_hash holders ∷ [])

-- `lookup(outpath)`, if there is a lookup.
unfoldable pub task_hash_for : Context → String → Call (Option String)
task_hash_for ctx outpath = elim ctx.lookup_task_hash [
  | none ↦ returned none
  | some lookup ↦ lookup outpath
]

-- The part of `_fire_settle` after the lookup.
unfoldable pub publish_found :
    Context → String → List String → Sender → Call (Option String) → Sender × Effects
publish_found ctx outpath holders s raised = (s, [])
publish_found ctx outpath holders s (returned task_hash) =
    publish ctx outpath (text_of task_hash) holders s

-- `_fire_settle`, its first critical section.
unfoldable pub settle_check : Context → String → Sender → Sender
settle_check ctx outpath s =
    let s' : Sender = record s { settle_timer = remove outpath s.settle_timer } in
    let call : SettleCall = record {
      outpath = outpath;
      holders = sorted_by str_order (λ h. h) (placed outpath ctx);
      has_updater = ctx.has_update_preferred;
      has_lookup = is_some ctx.lookup_task_hash;
    } in
    if s.stopped
    then s
    else if is_fired outpath s
    then s'
    else record s' { fired = put outpath tt s.fired; settling = s.settling ++ call ∷ [] }

-- The call for an outpath that goes on, and the others.
unfoldable pub take_call : String → List SettleCall → Option (SettleCall × List SettleCall)
take_call outpath [] = none
take_call outpath (c ∷ cs) =
    let later = take_call outpath cs in
    if c.outpath == outpath
    then some (c, cs)
    else elim later [ none ↦ none | some (found, others) ↦ some (found, c ∷ others) ]

-- `_fire_settle`, from there on: the lookup gives `found`, if there is one, and the lock is not held
-- but for the rollback.
unfoldable pub publish_call :
    Context
    → Call (Option String)
    → Option (SettleCall × List SettleCall)
    → Sender
    → Sender × Effects
publish_call ctx found none s = (s, [])
publish_call ctx found (some (c, others)) s =
    let s' : Sender = record s { settling = others } in
    if not c.has_updater
    then (s', [])
    else publish_found ctx c.outpath c.holders s' (if c.has_lookup then found else returned none)

unfoldable pub settle_publish : Context → String → Call (Option String) → Sender → Sender × Effects
settle_publish ctx outpath found s = publish_call ctx found (take_call outpath s.settling) s
