-- ===== src/Replication/Repairs.antt =====
-- Which outpaths the repair worker repairs, and what it tells the framework.
use asm_dataset_nix.Prelude.{
  string_eq, ℕ, ◌+◌, ◌-◌, ◌≡◌, refl, sym, subst, ap, String, Bool, true, false, not, ◌&&◌, List, [],
  ◌∷◌, ◌++◌, length, ◌==◌, ==_iff, ==_refl, contains, All, All-map, arith, leb, if◌then◌else◌,
  by_guard, by_guards,
}
use asm_dataset_nix.Prelude.Count.{count, count-append}
use asm_dataset_nix.Prelude.Dict.{Dict, get, put, or_else, IsDict}
use asm_dataset_nix.Replication.Context.{
  PeerInfo, Context, Placements, Effect, Effects, mark_unfulfillable, minus, is_delivered,
}
use asm_dataset_nix.Replication.Sender.{
  in_flight_offer, Sender, slots, placed, add_slot, offer_all, offer_needed, push_attempt_locked,
  push_attempt,
}
use asm_dataset_nix.Replication.Receiver.{item_class_toolchain}
use asm_dataset_nix.Replication.Repair.{
  Readings, mark_without, maybe_mark_unfulfillable, repair_for_outpaths, needs_repair,
  outpaths_to_repair, on_peer_removed, removed_to_repair, cascade_added, PlacementDiff, on_diff,
}

abbrev pub is_mark : Effect → Bool
is_mark (mark_unfulfillable task_hash outpath dead_holders) = true
is_mark _ = false

no_mark-offer_all :
    (ctx : Context) (o drv cls : String) (ts : List PeerInfo) (s : Sender)
    → count is_mark (offer_all ctx o (drv, cls) ts s).2 ≡ 0
unfolding offer_all
no_mark-offer_all ctx o drv cls [] s = refl
no_mark-offer_all ctx o drv cls (t ∷ ts) s = ground (
  arith,
  no_mark-offer_all ctx o drv cls ts (
      if is_delivered (ctx.push_path_offer t o drv cls)
      then add_slot o t.secondary_id (in_flight_offer drv cls) s
      else s),
)

no_mark-locked :
    (ctx : Context) (o : String) (excludes : List String) (s : Sender)
    → count is_mark (push_attempt_locked ctx o excludes s).2 ≡ 0
unfolding push_attempt_locked offer_needed
no_mark-locked ctx o excludes s =
    by_guards (λ (r : ℕ × Sender × Effects). count is_mark r.2 ≡ 0) s.stopped
      (leb ctx.replication_k (length (minus excludes (placed o ctx)) + length (slots o s)))
      (0, s, [])
      (offer_needed ctx o excludes
        (ctx.replication_k - (length (minus excludes (placed o ctx)) + length (slots o s))) s)
      (λ k. refl) (λ k l. refl) (λ k l. no_mark-offer_all ctx o _ _ _ s)

no_mark-push_attempt :
    (ctx : Context) (o drv cls : String) (excludes : List String) (s : Sender)
    → count is_mark (push_attempt ctx o drv cls excludes s).2 ≡ 0
unfolding push_attempt
no_mark-push_attempt ctx o drv cls excludes s =
    by_guard (λ (r : ℕ × Sender × Effects). count is_mark r.2 ≡ 0) s.stopped (0, s, [])
      (push_attempt_locked ctx o excludes (record s { metadata = put o (drv, cls) s.metadata }))
      (λ h. refl) (λ h. no_mark-locked ctx o excludes _)

-- This secondary holds the outpath, and is not excluded.
abbrev pub StillHeld : Context → List String → String → Type 0
StillHeld ctx excludes o =
    (contains ctx.my_secondary_id (placed o ctx) ≡ true)
    × (contains ctx.my_secondary_id excludes ≡ false)

contains-minus_other :
    (a : String) (excludes xs : List String)
    → contains a xs ≡ true
    → contains a excludes ≡ false
    → contains a (minus excludes xs) ≡ true
unfolding minus
contains-minus_other a excludes [] h k = absurd (cc h)
contains-minus_other a excludes (x ∷ xs) h k =
    ground (arith, contains-minus_other a excludes xs, ==_iff x a, ap (λ y. contains y excludes), k)

no_mark-held :
    (hs : List String) (a : String) (ctx : Context) (o : String) (excludes : List String)
    → contains a hs ≡ true
    → mark_without hs ctx o excludes ≡ []
unfolding mark_without
no_mark-held [] a ctx o excludes h = absurd (cc h)
no_mark-held (x ∷ hs) a ctx o excludes h = refl

maybe_mark-held :
    (ctx : Context) (o : String) (excludes : List String)
    → StillHeld ctx excludes o
    → maybe_mark_unfulfillable ctx o excludes ≡ []
unfolding maybe_mark_unfulfillable
maybe_mark-held ctx o excludes (h, k) =
    by_guard (λ (es : Effects). es ≡ []) (not ctx.has_mark_unfulfillable) _ _ (λ l. refl)
      (λ l.
        no_mark-held _ ctx.my_secondary_id ctx o excludes
          (contains-minus_other ctx.my_secondary_id excludes (placed o ctx) h k))

no_mark-repair :
    (reads : Readings) (metadata : String → String × String) (excludes os : List String)
    (s : Sender)
    → All (λ o. StillHeld (reads.at_mark o) excludes o) os
    → count is_mark (repair_for_outpaths reads metadata excludes os s).1 ≡ 0
unfolding repair_for_outpaths
no_mark-repair reads metadata excludes [] s h = refl
no_mark-repair reads metadata excludes (o ∷ os) s h =
    let pushing = reads.at_push o in
    let marking = reads.at_mark o in
    let r = push_attempt pushing o (metadata o).0 (metadata o).1 excludes s in
    let rest = repair_for_outpaths reads metadata excludes os r.1 in
    omega (
      arith,
      count-append is_mark r.2 (maybe_mark_unfulfillable marking o excludes ++ rest.1),
      count-append is_mark (maybe_mark_unfulfillable marking o excludes) rest.1,
      ap (count is_mark) (maybe_mark-held marking o excludes h.0),
      no_mark-push_attempt pushing o (metadata o).0 (metadata o).1 excludes s,
      no_mark-repair reads metadata excludes os r.1 h.1,
    )

-- This secondary is the same when a mark is decided, and what it holds by the first placements it
-- still holds by those read then.
abbrev pub KeepsOwn : Context → Readings → Type 0
KeepsOwn ctx reads =
    (o : String)
    → ((reads.at_mark o).my_secondary_id ≡ ctx.my_secondary_id)
      × (contains ctx.my_secondary_id (placed o ctx) ≡ true
          → contains ctx.my_secondary_id (placed o (reads.at_mark o)) ≡ true)

later_held :
    (ctx : Context) (reads : Readings) (excludes : List String) (o : String)
    → KeepsOwn ctx reads
    → StillHeld ctx excludes o
    → StillHeld (reads.at_mark o) excludes o
later_held ctx reads excludes o keeps (h, k) =
    let (same, still) = keeps o in
    subst (λ me. (contains me (placed o (reads.at_mark o)) ≡ true) × (contains me excludes ≡ false))
      (sym same) (still h, k)

-- The outpaths that `on_peer_removed` repairs are those that this secondary and the dead one hold
-- and that fewer than K others hold, where the placements have each outpath once.
pub outpaths_to_repair_lem :
    (ctx : Context) (dead : String) (snapshot : Placements) (o : String)
    → IsDict snapshot
    → contains o (outpaths_to_repair ctx dead snapshot) ≡ (
        contains ctx.my_secondary_id (or_else [] (get o snapshot))
        && contains dead (or_else [] (get o snapshot))
        && not (leb ctx.replication_k (length (or_else [] (get o snapshot)) - 1)))
unfolding outpaths_to_repair needs_repair get
outpaths_to_repair_lem ctx dead [] o h = refl
outpaths_to_repair_lem ctx dead ((p, holders) ∷ snapshot) o h = ground (
  arith,
  outpaths_to_repair_lem ctx dead snapshot o h.1,
  ==_iff p o,
  h.0,
  ap (λ x. get x snapshot),
)

removed-held :
    (ctx : Context) (removed : Dict String (List String))
    → All (StillHeld ctx []) (removed_to_repair ctx removed)
unfolding removed_to_repair
removed-held ctx [] = tt
removed-held ctx ((o, gone) ∷ removed) =
    by_guard (All (StillHeld ctx []))
      (contains ctx.my_secondary_id (placed o ctx)
        && not (leb ctx.replication_k (length (placed o ctx))))
      _ _ (λ h. ((ground (arith, h), refl), removed-held ctx removed))
      (λ h. removed-held ctx removed)

no_mark-cascade :
    (ctx : Context) (reads : Readings) (metadata : String → String × String)
    (added : Dict String (List String)) (s : Sender)
    → count is_mark (cascade_added ctx reads metadata added s).1 ≡ 0
unfolding cascade_added
no_mark-cascade ctx reads metadata [] s = refl
no_mark-cascade ctx reads metadata ((o, new) ∷ added) s =
    let r = push_attempt (reads.at_cascade o) o (metadata o).0 (metadata o).1 [] s in
    let mine = contains ctx.my_secondary_id new && (metadata o).1 == item_class_toolchain in
    let rest = cascade_added ctx reads metadata added (if mine then r.1 else s) in
    ground (
      arith,
      count-append is_mark (if mine then r.2 else []) rest.1,
      no_mark-push_attempt (reads.at_cascade o) o (metadata o).0 (metadata o).1 [] s,
      no_mark-cascade ctx reads metadata added (if mine then r.1 else s),
    )

-- Where this secondary does not lose an outpath of its own from the placements while the call runs,
-- a difference of placements never marks a task unfulfillable: what is repaired is held here.
pub on_diff-no_mark :
    (ctx : Context) (reads : Readings) (metadata : String → String × String) (diff : PlacementDiff)
    (s : Sender)
    → KeepsOwn ctx reads
    → count is_mark (on_diff ctx reads metadata diff s).1 ≡ 0
unfolding on_diff
on_diff-no_mark ctx reads metadata diff s keeps =
    let r = repair_for_outpaths reads metadata [] (removed_to_repair ctx diff.removed) s in
    let r' = cascade_added ctx reads metadata diff.added r.0 in
    omega (
      arith,
      count-append is_mark r.1 r'.1,
      no_mark-repair reads metadata [] (removed_to_repair ctx diff.removed) s (
          All-map (λ o h. later_held ctx reads [] o keeps h) (removed_to_repair ctx diff.removed)
            (removed-held ctx diff.removed)),
      no_mark-cascade ctx reads metadata diff.added r.0,
    )

All_of_contains {κ} :
    (P : String → Type κ) (xs : List String)
    → ((x : String) → contains x xs ≡ true → P x)
    → All P xs
All_of_contains P [] f = tt
All_of_contains P (x ∷ xs) f =
    (f x (ground (arith, ==_refl x)), All_of_contains P xs (λ y h. f y (ground (arith, h))))

held_of_repair :
    (ctx : Context) (dead : String) (snapshot : Placements)
    → IsDict snapshot
    → (dead == ctx.my_secondary_id) ≡ false
    → All
        (λ o.
          (contains ctx.my_secondary_id (or_else [] (get o snapshot)) ≡ true)
          × (contains ctx.my_secondary_id (dead ∷ []) ≡ false))
        (outpaths_to_repair ctx dead snapshot)
held_of_repair ctx dead snapshot h other =
    All_of_contains _ (outpaths_to_repair ctx dead snapshot) (λ o k.
      (ground (arith, k, outpaths_to_repair_lem ctx dead snapshot o h), ground (arith, other)))

-- Nor does the removal of another peer, where moreover the placements have each outpath once.
pub on_peer_removed-no_mark :
    (ctx : Context) (reads : Readings) (metadata : String → String × String) (dead : String)
    (s : Sender)
    → IsDict ctx.get_placements
    → (dead == ctx.my_secondary_id) ≡ false
    → KeepsOwn ctx reads
    → count is_mark (on_peer_removed ctx reads metadata dead s).1 ≡ 0
unfolding on_peer_removed placed
on_peer_removed-no_mark ctx reads metadata dead s h other keeps =
    let os = outpaths_to_repair ctx dead ctx.get_placements in
    by_guard (λ (r : Sender × Effects). count is_mark r.1 ≡ 0) (dead == "") _ _ (λ k. refl)
      (λ k. no_mark-repair reads metadata (dead ∷ []) os s (
        All-map (λ o held. later_held ctx reads (dead ∷ []) o keeps held) os
          (held_of_repair ctx dead ctx.get_placements h other)))
