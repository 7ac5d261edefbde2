-- ===== src/Replication/Attempt.antt =====
-- What a `push_attempt` does: whom it offers to, and how near to K copies it gets.
use asm_dataset_nix.Prelude.{
  string_eq, ℕ, ◌+◌, ◌-◌, ◌≤◌, ◌<◌, ◌≡◌, refl, ◌⊎◌, inl, inr, String, true, false, List, [], ◌∷◌,
  length, length-map, contains, All, All-map, arith, leb, by_guard, by_guards,
}
use asm_dataset_nix.Prelude.Dict.{keys, get, put, or_else}
use asm_dataset_nix.Prelude.Contains.{IsDistinct}
use asm_dataset_nix.Replication.Context.{
  PeerInfo, Context, Effects, SampleLaws, minus, is_delivered,
}
use asm_dataset_nix.Replication.Sender.{
  Sender, slots, placed, offer_all, offer_needed, push_attempt_locked, push_attempt,
}
use asm_dataset_nix.Replication.Offers.{
  ids, offered, offered-offer_all, slots_offered, all_issued, length-slots-offer_all,
}
use asm_dataset_nix.Replication.Chosen.{
  IsFresh, population, chosen, length-chosen, chosen-IsFresh, chosen-IsDistinct, min_le,
}

-- The copies of an outpath that are there, or on their way, when those of `excludes` are gone.
abbrev pub live_copies : Context → String → List String → Sender → ℕ
live_copies ctx outpath excludes s =
    length (minus excludes (placed outpath ctx)) + length (slots outpath s)

-- The outcomes of an attempt: nothing to do, or offers to the targets chosen.
pub data Attempt (ctx : Context) (laws : SampleLaws ctx.sample) (outpath : String)
    (excludes : List String) (s : Sender) : ℕ × Sender × Effects → Type 0 where
  idle :
      (s.stopped ≡ true) ⊎ (ctx.replication_k ≤ live_copies ctx outpath excludes s)
      → Attempt ctx laws outpath excludes s (0, s, [])
  offering :
      (drv cls : String)
      → s.stopped ≡ false
      → live_copies ctx outpath excludes s < ctx.replication_k
      → Attempt ctx laws outpath excludes s (
          offer_all ctx outpath
            (drv, cls)
            (chosen ctx laws outpath excludes s
              (ctx.replication_k - live_copies ctx outpath excludes s))
            s)

All_peers {κ} : (P : PeerInfo → Type κ) (ps : List PeerInfo) → ((p : PeerInfo) → P p) → All P ps
All_peers P [] h = tt
All_peers P (p ∷ ps) h = (h p, All_peers P ps h)

All-ids {κ} :
    (P : String → Type κ) (ps : List PeerInfo) → All (λ p. P p.secondary_id) ps → All P (ids ps)
All-ids P [] h = tt
All-ids P (p ∷ ps) h = (h.0, All-ids P ps h.1)

module _ (ctx : Context) (laws : SampleLaws ctx.sample) (outpath : String)
    (excludes : List String) where
  abbrev missing : Sender → ℕ
  missing s = ctx.replication_k - live_copies ctx outpath excludes s

  pub push_attempt_locked-Attempt :
      (s : Sender)
      → Attempt ctx laws outpath excludes s (push_attempt_locked ctx outpath excludes s)
  unfolding push_attempt_locked offer_needed
  push_attempt_locked-Attempt s =
      let (drv, cls) = or_else ("", "") (get outpath s.metadata) in
      by_guards (Attempt ctx laws outpath excludes s) s.stopped
        (leb ctx.replication_k (live_copies ctx outpath excludes s)) _ _ (λ h. idle (inl h))
        (λ h enough. idle (inr (ground (arith, enough))))
        (λ running few. offering drv cls running (ground (arith, few)))

  -- A target of an attempt is a known peer, not this secondary, and neither holds the outpath, nor
  -- has an offer of it, nor is excluded; and there are no more targets than copies are missing.
  Attempt-IsFresh :
      (s : Sender) (r : ℕ × Sender × Effects)
      → Attempt ctx laws outpath excludes s r
      → All (IsFresh ctx outpath excludes (keys (slots outpath s))) (offered r.2)
        × (length (offered r.2) ≤ ctx.replication_k - live_copies ctx outpath excludes s)
  Attempt-IsFresh s r (idle h) = (tt, omega arith)
  Attempt-IsFresh s r (offering drv cls run few) =
      let ts = chosen ctx laws outpath excludes s (missing s) in
      let known = chosen-IsFresh ctx laws outpath excludes s (missing s) in
      rw (offered-offer_all ctx outpath drv cls ts s) (
        All-ids (IsFresh ctx outpath excludes (keys (slots outpath s))) ts known,
        omega (
          arith,
          length-map (λ (p : PeerInfo). p.secondary_id) ts,
          length-chosen ctx laws outpath excludes s (missing s),
          (min_le (missing s) (length (population ctx laws outpath excludes s))).1,
        ),
      )

  -- After it the copies are at most K, or as many as before.
  Attempt-bound :
      (s : Sender) (r : ℕ × Sender × Effects)
      → Attempt ctx laws outpath excludes s r
      → (live_copies ctx outpath excludes r.1 ≤ ctx.replication_k)
        ⊎ (live_copies ctx outpath excludes r.1 ≡ live_copies ctx outpath excludes s)
  Attempt-bound s r (idle h) = inr refl
  Attempt-bound s r (offering drv cls run few) = inl (
      omega (
        arith,
        few,
        length-slots-offer_all ctx outpath drv cls (chosen ctx laws outpath excludes s (missing s))
            s,
        length-chosen ctx laws outpath excludes s (missing s),
        (min_le (missing s) (length (population ctx laws outpath excludes s))).1,
      ))

  Attempt-reaches :
      (s : Sender) (r : ℕ × Sender × Effects)
      → IsDistinct (ids ctx.get_peers)
      → s.stopped ≡ false
      → live_copies ctx outpath excludes s ≤ ctx.replication_k
      → ctx.replication_k
        ≤ live_copies ctx outpath excludes s + length (population ctx laws outpath excludes s)
      → ((p : PeerInfo) (drv cls : String)
          → is_delivered (ctx.push_path_offer p outpath drv cls) ≡ true)
      → Attempt ctx laws outpath excludes s r
      → live_copies ctx outpath excludes r.1 ≡ ctx.replication_k
  Attempt-reaches s r peers run few enough ok (idle h) = elim h [
    | inl halted ↦ absurd (ground (arith, halted, run))
    | inr full ↦ omega (arith, few, full)
  ]
  Attempt-reaches s r peers run few enough ok (offering drv cls run' few') =
      let ts = chosen ctx laws outpath excludes s (missing s) in
      let known = chosen-IsFresh ctx laws outpath excludes s (missing s) in
      ground (
        arith,
        few',
        enough,
        length-chosen ctx laws outpath excludes s (missing s),
        slots_offered ctx outpath drv cls ts s
            (chosen-IsDistinct ctx laws outpath excludes s (missing s) peers)
            (All-ids (λ t. contains t (keys (slots outpath s)) ≡ false) ts
              (All-map
                (λ p (f : IsFresh ctx outpath excludes (keys (slots outpath s)) p.secondary_id).
                  f.not_in_flight)
                ts known)),
        all_issued ctx outpath drv cls ts s (All_peers _ ts (λ p. ok p drv cls)),
      )

module _ (ctx : Context) (laws : SampleLaws ctx.sample) (outpath drv_path item_class : String)
    (excludes : List String) (s : Sender) where
  abbrev recorded : Sender
  recorded = record s { metadata = put outpath (drv_path, item_class) s.metadata }

  -- Every offer goes to a known peer that is not this secondary, holds no copy, has no offer of the
  -- outpath yet and is not excluded; and no more offers are made than copies are missing for K.
  pub push_attempt-IsFresh :
      All
        (IsFresh ctx outpath excludes (keys (slots outpath s)))
        (offered (push_attempt ctx outpath drv_path item_class excludes s).2)
      × (length (offered (push_attempt ctx outpath drv_path item_class excludes s).2)
          ≤ ctx.replication_k - live_copies ctx outpath excludes s)
  unfolding push_attempt slots
  push_attempt-IsFresh =
      by_guard
        (λ r.
          All (IsFresh ctx outpath excludes (keys (slots outpath s))) (offered r.2)
          × (length (offered r.2) ≤ ctx.replication_k - live_copies ctx outpath excludes s))
        s.stopped (0, s, []) (push_attempt_locked ctx outpath excludes recorded)
        (λ h. (tt, omega arith))
        (λ h.
          Attempt-IsFresh ctx laws outpath excludes recorded _
            (push_attempt_locked-Attempt ctx laws outpath excludes recorded))

  -- The copies of the outpath, those offered counted, are then at most K, unless they were more
  -- before, and then they are as many as before.
  pub push_attempt-bound :
      (live_copies ctx outpath excludes (push_attempt ctx outpath drv_path item_class excludes s).1
        ≤ ctx.replication_k)
      ⊎ (live_copies ctx outpath excludes
            (push_attempt ctx outpath drv_path item_class excludes s).1
          ≡ live_copies ctx outpath excludes s)
  unfolding push_attempt slots
  push_attempt-bound =
      by_guard
        (λ r.
          (live_copies ctx outpath excludes r.1 ≤ ctx.replication_k)
          ⊎ (live_copies ctx outpath excludes r.1 ≡ live_copies ctx outpath excludes s))
        s.stopped (0, s, []) (push_attempt_locked ctx outpath excludes recorded) (λ h. inr refl)
        (λ h.
          Attempt-bound ctx laws outpath excludes recorded _
            (push_attempt_locked-Attempt ctx laws outpath excludes recorded))

  -- When the sender runs, peers have different ids, no more than K copies are there, enough peers
  -- can be chosen and every offer is delivered, then K copies are there or on their way.
  pub push_attempt-reaches :
      IsDistinct (ids ctx.get_peers)
      → s.stopped ≡ false
      → live_copies ctx outpath excludes s ≤ ctx.replication_k
      → ctx.replication_k
        ≤ live_copies ctx outpath excludes s + length (population ctx laws outpath excludes s)
      → ((p : PeerInfo) (drv cls : String)
          → is_delivered (ctx.push_path_offer p outpath drv cls) ≡ true)
      → live_copies ctx outpath excludes (push_attempt ctx outpath drv_path item_class excludes s).1
        ≡ ctx.replication_k
  unfolding push_attempt slots
  push_attempt-reaches peers run few enough ok =
      by_guard (λ r. live_copies ctx outpath excludes r.1 ≡ ctx.replication_k) s.stopped (0, s, [])
        (push_attempt_locked ctx outpath excludes recorded) (λ h. absurd (ground (arith, h, run)))
        (λ h.
          Attempt-reaches ctx laws outpath excludes recorded _ peers run few enough ok
            (push_attempt_locked-Attempt ctx laws outpath excludes recorded))
