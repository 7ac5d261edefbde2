-- ===== src/Replication/Excluded.antt =====
-- A repair makes no offer to the peer that is gone.
use asm_dataset_nix.Prelude.{
  string_eq, ◌≡◌, refl, String, false, not, Option, none, some, List, [], ◌∷◌, ◌++◌, ◌==◌, contains,
  All, All-map, by_guard,
}
use asm_dataset_nix.Prelude.Dict.{keys}
use asm_dataset_nix.Replication.Context.{
  Call, returned, raised, Context, SampleLaws, Effects, minus, text_of,
}
use asm_dataset_nix.Replication.Sender.{Sender, slots, placed, push_attempt}
use asm_dataset_nix.Replication.Settle.{task_hash_for}
use asm_dataset_nix.Replication.Offers.{offered, target_of}
use asm_dataset_nix.Replication.Chosen.{IsFresh}
use asm_dataset_nix.Replication.Attempt.{push_attempt-IsFresh}
use asm_dataset_nix.Replication.Repair.{
  Readings, mark_found, mark_without, maybe_mark_unfulfillable, repair_for_outpaths,
  outpaths_to_repair, on_peer_removed,
}

abbrev pub OffersAvoid : List String → Effects → Type 0
OffersAvoid excludes es = All (λ t. contains t excludes ≡ false) (offered es)

OffersAvoid-append :
    (excludes : List String) (es es' : Effects)
    → OffersAvoid excludes es
    → OffersAvoid excludes es'
    → OffersAvoid excludes (es ++ es')
OffersAvoid-append excludes [] es' h k = k
OffersAvoid-append excludes (e ∷ es) es' h k =
    go (target_of e) (λ l. OffersAvoid-append excludes es es' l k) h
  where
    go :
        (t : Option String)
        → (OffersAvoid excludes es → OffersAvoid excludes (es ++ es'))
        → All
            (λ x. contains x excludes ≡ false)
            (elim t [ none ↦ offered es | some x ↦ x ∷ offered es ])
        → All
            (λ x. contains x excludes ≡ false)
            (elim t [ none ↦ offered (es ++ es') | some x ↦ x ∷ offered (es ++ es') ])
    go none f h = f h
    go (some x) f h = (h.0, f h.1)

no_offer-mark_found :
    (found : Call (Option String)) (o : String) (excludes : List String)
    → offered (mark_found found o excludes) ≡ []
unfolding mark_found
no_offer-mark_found raised o excludes = refl
no_offer-mark_found (returned h) o excludes =
    by_guard (λ (es : Effects). offered es ≡ []) (text_of h == "") [] _ (λ p. refl) (λ p. refl)

no_offer-mark_without :
    (hs : List String) (ctx : Context) (o : String) (excludes : List String)
    → offered (mark_without hs ctx o excludes) ≡ []
unfolding mark_without
no_offer-mark_without (h ∷ hs) ctx o excludes = refl
no_offer-mark_without [] ctx o excludes = no_offer-mark_found (task_hash_for ctx o) o excludes

no_offer-mark :
    (ctx : Context) (o : String) (excludes : List String)
    → offered (maybe_mark_unfulfillable ctx o excludes) ≡ []
unfolding maybe_mark_unfulfillable
no_offer-mark ctx o excludes =
    by_guard (λ (es : Effects). offered es ≡ []) (not ctx.has_mark_unfulfillable) []
      (mark_without (minus excludes (placed o ctx)) ctx o excludes) (λ p. refl)
      (λ p. no_offer-mark_without (minus excludes (placed o ctx)) ctx o excludes)

module _ (ctx : Context) (reads : Readings)
    (laws : (o : String) → SampleLaws (reads.at_push o).sample)
    (metadata : String → String × String) where
  repair-avoids :
      (excludes os : List String) (s : Sender)
      → OffersAvoid excludes (repair_for_outpaths reads metadata excludes os s).1
  unfolding repair_for_outpaths
  repair-avoids excludes [] s = tt
  repair-avoids excludes (o ∷ os) s =
      let pushing = reads.at_push o in
      let r = push_attempt pushing o (metadata o).0 (metadata o).1 excludes s in
      OffersAvoid-append excludes r.2 _
        (All-map (λ t (f : IsFresh pushing o excludes (keys (slots o s)) t). f.not_excluded)
          (offered r.2)
          (push_attempt-IsFresh pushing (laws o) o (metadata o).0 (metadata o).1 excludes s).0)
        (OffersAvoid-append excludes (maybe_mark_unfulfillable (reads.at_mark o) o excludes) _
          (rw (no_offer-mark (reads.at_mark o) o excludes) tt) (repair-avoids excludes os r.1))

  -- No offer that the removal of a peer leads to goes to that peer, though the placements may still
  -- list it, and whatever they are found to be when an outpath is pushed.
  pub on_peer_removed-avoids :
      (dead : String) (s : Sender)
      → OffersAvoid (dead ∷ []) (on_peer_removed ctx reads metadata dead s).1
  unfolding on_peer_removed
  on_peer_removed-avoids dead s =
      by_guard (λ (r : Sender × Effects). OffersAvoid (dead ∷ []) r.1) (dead == "") _ _ (λ h. tt)
        (λ h. repair-avoids (dead ∷ []) (outpaths_to_repair ctx dead ctx.get_placements) s)
