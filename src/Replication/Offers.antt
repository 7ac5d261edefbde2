-- ===== src/Replication/Offers.antt =====
-- The loop of `_push_attempt_locked` over the chosen targets: what it offers and which slots it
-- leaves.
use asm_dataset_nix.Prelude.{
  string_eq, ◌+◌, ◌≤◌, ◌≡◌, refl, ◌∙◌, String, true, false, Option, none, some, List, [], ◌∷◌, map,
  length, ◌==◌, ==_iff, ==_refl, contains, All, arith, Bool-cases, inl, inr, if◌then◌else◌,
}
use asm_dataset_nix.Prelude.Dict.{Dict, get, put, get-put, or_else, keys}
use asm_dataset_nix.Prelude.Contains.{IsDistinct}
use asm_dataset_nix.Prelude.Count.{length-put, contains-keys-put}
use asm_dataset_nix.Replication.Context.{
  PeerInfo, Context, Effect, Effects, path_offer, is_delivered,
}
use asm_dataset_nix.Replication.Sender.{
  InFlightOffer, in_flight_offer, Sender, slots, add_slot, offer_all,
}

-- The targets of the offers among some effects.
abbrev pub target_of : Effect → Option String
target_of (path_offer target outpath drv_path item_class) = some target
target_of _ = none

abbrev pub offered : Effects → List String
offered [] = []
offered (e ∷ es) = elim (target_of e) [ none ↦ offered es | some t ↦ t ∷ offered es ]

abbrev pub ids : List PeerInfo → List String
ids = map (λ p. p.secondary_id)

-- Two senders that differ in their slots only.
pub record SameButSlots (s s' : Sender) : Type 0 where
  pub metadata_eq : s'.metadata ≡ s.metadata
  pub stopped_eq : s'.stopped ≡ s.stopped
  pub settle_timer_eq : s'.settle_timer ≡ s.settle_timer
  pub fired_eq : s'.fired ≡ s.fired

pub slots-add_slot :
    (o outpath t : String) (v : InFlightOffer) (s : Sender)
    → slots o (add_slot outpath t v s)
      ≡ (if outpath == o then put t v (slots outpath s) else slots o s)
unfolding slots add_slot
slots-add_slot o outpath t v s =
    rw (get-put outpath o (put t v (or_else [] (get outpath s.in_flight))) s.in_flight)
      (ground arith)

All-fresh :
    (t : String) (v : InFlightOffer) (xs : List String) (d : Dict String InFlightOffer)
    → contains t xs ≡ false
    → All (λ x. contains x (keys d) ≡ false) xs
    → All (λ x. contains x (keys (put t v d)) ≡ false) xs
All-fresh t v [] d h k = tt
All-fresh t v (x ∷ xs) d h k = (
  ground (arith, contains-keys-put x t v d, ==_iff x t, ==_iff t x),
  All-fresh t v xs d (ground arith) k.1,
)

module _ (ctx : Context) (outpath drv cls : String) where
  abbrev after_offer : PeerInfo → Sender → Sender
  after_offer t s =
      if is_delivered (ctx.push_path_offer t outpath drv cls)
      then add_slot outpath t.secondary_id (in_flight_offer drv cls) s
      else s

  after_offer-SameButSlots :
      (t : PeerInfo) (s s' : Sender) → SameButSlots (after_offer t s) s' → SameButSlots s s'
  unfolding add_slot
  after_offer-SameButSlots t s s' h = record {
    metadata_eq = h.metadata_eq ∙ ground arith;
    stopped_eq = h.stopped_eq ∙ ground arith;
    settle_timer_eq = h.settle_timer_eq ∙ ground arith;
    fired_eq = h.fired_eq ∙ ground arith;
  }

  pub offered-offer_all :
      (ts : List PeerInfo) (s : Sender) → offered (offer_all ctx outpath (drv, cls) ts s).2 ≡ ids ts
  unfolding offer_all
  offered-offer_all [] s = refl
  offered-offer_all (t ∷ ts) s = ground (arith, offered-offer_all ts (after_offer t s))

  pub offer_all-SameButSlots :
      (ts : List PeerInfo) (s : Sender) → SameButSlots s (offer_all ctx outpath (drv, cls) ts s).1
  unfolding offer_all
  offer_all-SameButSlots [] s = record {
    metadata_eq = refl;
    stopped_eq = refl;
    settle_timer_eq = refl;
    fired_eq = refl;
  }
  offer_all-SameButSlots (t ∷ ts) s =
      after_offer-SameButSlots t s (offer_all ctx outpath (drv, cls) ts (after_offer t s)).1
        (offer_all-SameButSlots ts (after_offer t s))

  pub length-slots-offer_all :
      (ts : List PeerInfo) (s : Sender)
      → length (slots outpath (offer_all ctx outpath (drv, cls) ts s).1)
        ≤ length (slots outpath s) + length ts
  unfolding offer_all
  length-slots-offer_all [] s = omega arith
  length-slots-offer_all (t ∷ ts) s = ground (
    arith,
    length-slots-offer_all ts (after_offer t s),
    slots-add_slot outpath outpath t.secondary_id (in_flight_offer drv cls) s,
    length-put t.secondary_id (in_flight_offer drv cls) (slots outpath s),
    ==_refl outpath,
  )

  pub slots-offer_all_other :
      (o : String) (ts : List PeerInfo) (s : Sender)
      → (outpath == o) ≡ false
      → slots o (offer_all ctx outpath (drv, cls) ts s).1 ≡ slots o s
  unfolding offer_all
  slots-offer_all_other o [] s h = refl
  slots-offer_all_other o (t ∷ ts) s h = ground (
    arith,
    slots-offer_all_other o ts (after_offer t s) h,
    slots-add_slot o outpath t.secondary_id (in_flight_offer drv cls) s,
  )

  -- To targets with no slot, each once, every offer that is delivered makes one slot more.
  pub slots_offered :
      (ts : List PeerInfo) (s : Sender)
      → IsDistinct (ids ts)
      → All (λ t. contains t (keys (slots outpath s)) ≡ false) (ids ts)
      → length (slots outpath (offer_all ctx outpath (drv, cls) ts s).1)
        ≡ length (slots outpath s) + (offer_all ctx outpath (drv, cls) ts s).0
  unfolding offer_all
  slots_offered [] s h k = omega arith
  slots_offered (t ∷ ts) s h k =
      elim (Bool-cases (is_delivered (ctx.push_path_offer t outpath drv cls))) [
        | inl sent ↦ ground (
          arith,
          sent,
          slots-add_slot outpath outpath t.secondary_id (in_flight_offer drv cls) s,
          ==_refl outpath,
          length-put t.secondary_id (in_flight_offer drv cls) (slots outpath s),
          k.0,
          slots_offered ts (add_slot outpath t.secondary_id (in_flight_offer drv cls) s) h.1
              (fresh_after t ts s h k),
        )
        | inr lost ↦ ground (arith, lost, slots_offered ts s h.1 k.1)
      ]
    where
      fresh_after :
          (t : PeerInfo) (ts : List PeerInfo) (s : Sender)
          → IsDistinct (ids (t ∷ ts))
          → All (λ x. contains x (keys (slots outpath s)) ≡ false) (ids (t ∷ ts))
          → All
              (λ x.
                contains x (
                  keys
                    (slots outpath (add_slot outpath t.secondary_id (in_flight_offer drv cls) s)))
                ≡ false)
              (ids ts)
      fresh_after t ts s h k =
          rw
            (
              slots-add_slot outpath outpath t.secondary_id (in_flight_offer drv cls) s,
              ==_refl outpath,
            )
            (All-fresh t.secondary_id (in_flight_offer drv cls) (ids ts) (slots outpath s) h.0 k.1)

  pub all_issued :
      (ts : List PeerInfo) (s : Sender)
      → All (λ t. is_delivered (ctx.push_path_offer t outpath drv cls) ≡ true) ts
      → (offer_all ctx outpath (drv, cls) ts s).0 ≡ length ts
  unfolding offer_all
  all_issued [] s h = refl
  all_issued (t ∷ ts) s h = ground (arith, h.0, all_issued ts (after_offer t s) h.1)
