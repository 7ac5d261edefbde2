-- ===== src/Replication/Cancelling.antt =====
-- A fetch that its sender cancels (`ReplicationReceiver` of peer_replication.py), whatever calls come
-- before it ends.
use asm_dataset_nix.Prelude.{
  string_eq, ◌≡◌, refl, sym, ap, ◌∙◌, String, true, false, not, ◌&&◌, ◌||◌, Option, none, some,
  List, [], ◌∷◌, ◌==◌, ==_iff, contains, arith, Bool-cases, inl, inr, by_guard, by_guards,
}
use asm_dataset_nix.Prelude.Dict.{get, put, or_else, get-put, is_some}
use asm_dataset_nix.Replication.Context.{Context, PeerInfo, Effects, minus, with_item}
use asm_dataset_nix.Replication.Sender.{Sender}
use asm_dataset_nix.Replication.Receiver.{
  Offer, Receiver, on_offer, on_cancel, stop_receiver, is_target, peer_by_sid, clear_target,
  fetch_from, begin_fetch, discard_found, end_fetch,
}
use asm_dataset_nix.Replication.Handshake.{is_cancelled, on_cancel-is_cancelled, contains-with_item}

-- The calls of a receiver that can come between a cancellation and the end of the fetch of `o`: any
-- but that end.
pub data Between (o : Offer) : Receiver → Receiver → Type 0 where
  no_call : {r : Receiver} → Between o r r
  offer_came :
      {r r' : Receiver} (ctx : Context) (p : Offer)
      → Between o (on_offer ctx p r).0 r'
      → Between o r r'
  cancel_came : {r r' : Receiver} (p : Offer) → Between o (on_cancel p r).0 r' → Between o r r'
  fetch_began :
      {r r' : Receiver} (ctx : Context) (p : Offer)
      → Between o (begin_fetch ctx p r).1 r'
      → Between o r r'
  fetch_ended :
      {r r' : Receiver} (ctx : Context) (p : Offer) (source : Option String) (s : Sender)
      → (p.outpath == o.outpath && p.from_sid == o.from_sid) ≡ false
      → Between o (end_fetch ctx p source r s).0 r'
      → Between o r r'
  receiver_stopped : {r r' : Receiver} → Between o (stop_receiver r) r' → Between o r r'

-- The fetch of `o` is to record nothing.
abbrev IsOff : Offer → Receiver → Type 0
IsOff o r = (r.stopped || is_cancelled o r) ≡ true

contains-minus_all :
    (a : String) (ds xs : List String)
    → contains a (minus ds xs) ≡ (contains a xs && not (contains a ds))
unfolding minus
contains-minus_all a ds [] = refl
contains-minus_all a ds (x ∷ xs) =
    ground (arith, contains-minus_all a ds xs, ==_iff x a, ap (λ y. contains y ds))

module _ (o p : Offer) where
  on_offer-IsOff : (ctx : Context) (r : Receiver) → IsOff o r → IsOff o (on_offer ctx p r).0
  unfolding on_offer
  on_offer-IsOff ctx r h = ground (arith, h)

  -- The flags of the outpath of `p` can change, but that of `o` must stay.
  put-IsOff :
      (r : Receiver) (sids : List String)
      → ((p.outpath == o.outpath) ≡ true
          → is_cancelled o r ≡ true
          → contains o.from_sid sids ≡ true)
      → IsOff o r
      → (r.stopped
          || contains o.from_sid (or_else [] (get o.outpath (put p.outpath sids r.cancelled))))
        ≡ true
  put-IsOff r sids kept h = elim (Bool-cases (p.outpath == o.outpath)) [
    | inl same ↦ ground (arith, get-put p.outpath o.outpath sids r.cancelled, same, kept same, h)
    | inr other ↦ ground (arith, get-put p.outpath o.outpath sids r.cancelled, other, h)
  ]

  -- The flags that are read at the outpath of `p` are those of `o`, when the outpath is one.
  same_flags :
      (r : Receiver)
      → (p.outpath == o.outpath) ≡ true
      → get p.outpath r.cancelled ≡ get o.outpath r.cancelled
  same_flags r same = ap (λ x. get x r.cancelled) ((==_iff p.outpath o.outpath).0 same)

  on_cancel-IsOff : (r : Receiver) → IsOff o r → IsOff o (on_cancel p r).0
  unfolding on_cancel
  on_cancel-IsOff r h =
      by_guards (λ (x : Receiver × Effects). IsOff o x.0) (p.from_sid == "" || p.outpath == "")
        (not (is_target (get p.outpath r.targeting) p.from_sid)) (r, []) _ (λ k. h) (λ k l. h)
        (λ k l.
          put-IsOff r (with_item p.from_sid (or_else [] (get p.outpath r.cancelled)))
            (λ same c.
              contains-with_item o.from_sid p.from_sid (or_else [] (get p.outpath r.cancelled))
              ∙ ground (arith, c, ap (λ x. contains o.from_sid (or_else [] x)) (same_flags r same)))
            h)

  clear_target-kept :
      (r : Receiver)
      → ((clear_target p r).cancelled ≡ r.cancelled) × ((clear_target p r).stopped ≡ r.stopped)
  unfolding clear_target
  clear_target-kept r =
      by_guard (λ (x : Receiver). (x.cancelled ≡ r.cancelled) × (x.stopped ≡ r.stopped))
        (is_target (get p.outpath r.targeting) p.from_sid) _ _ (λ h. (refl, refl))
        (λ h. (refl, refl))

  clear_target-IsOff : (r : Receiver) → IsOff o r → IsOff o (clear_target p r)
  clear_target-IsOff r h =
      let (c, s) = clear_target-kept r in
      ground (arith, h, s, ap (λ d. contains o.from_sid (or_else [] (get o.outpath d))) c)

  fetch_from-IsOff :
      (found : Option PeerInfo) (r : Receiver) → IsOff o r → IsOff o (fetch_from found p r).1
  unfolding fetch_from
  fetch_from-IsOff none r h = clear_target-IsOff r h
  fetch_from-IsOff (some q) r h = h

  discard_found-IsOff :
      (found : Option (List String)) (r : Receiver)
      → get p.outpath r.cancelled ≡ found
      → (p.outpath == o.outpath && p.from_sid == o.from_sid) ≡ false
      → IsOff o r
      → IsOff o (discard_found found p r)
  unfolding discard_found
  discard_found-IsOff none r e apart h = h
  discard_found-IsOff (some sids) r e apart h =
      put-IsOff r (minus (p.from_sid ∷ []) sids)
        (λ same c.
          contains-minus_all o.from_sid (p.from_sid ∷ []) sids
          ∙ ground (
            arith,
            c,
            apart,
            same,
            ==_iff p.from_sid o.from_sid,
            ap (λ x. contains o.from_sid (or_else [] x)) (sym e ∙ same_flags r same),
          ))
        h

  end_fetch-IsOff :
      (ctx : Context) (source : Option String) (s : Sender) (r : Receiver)
      → (p.outpath == o.outpath && p.from_sid == o.from_sid) ≡ false
      → IsOff o r
      → IsOff o (end_fetch ctx p source r s).0
  unfolding end_fetch
  end_fetch-IsOff ctx source s r apart h =
      by_guard (λ (x : Receiver × Sender × Effects). IsOff o x.0)
        (r.stopped || is_cancelled p r || not (is_some source)) _ _ (λ k. off) (λ k. off)
    where
      off : IsOff o (discard_found (get p.outpath r.cancelled) p (clear_target p r))
      off =
          discard_found-IsOff (get p.outpath r.cancelled) (clear_target p r)
            (ap (get p.outpath) (clear_target-kept r).0) apart (clear_target-IsOff r h)

Between-IsOff : (o : Offer) {r r' : Receiver} → Between o r r' → IsOff o r → IsOff o r'
unfolding begin_fetch stop_receiver
Between-IsOff o no_call h = h
Between-IsOff o (offer_came {r} ctx p b) h = Between-IsOff o b (on_offer-IsOff o p ctx r h)
Between-IsOff o (cancel_came {r} p b) h = Between-IsOff o b (on_cancel-IsOff o p r h)
Between-IsOff o (fetch_began {r} ctx p b) h =
    Between-IsOff o b (fetch_from-IsOff o p (peer_by_sid ctx.get_peers p.from_sid) r h)
Between-IsOff o (fetch_ended {r} ctx p source s apart b) h =
    Between-IsOff o b (end_fetch-IsOff o p ctx source s r apart h)
Between-IsOff o (receiver_stopped b) h = Between-IsOff o b refl

module _ (ctx : Context) (o : Offer) (source : Option String) (s : Sender) where
  -- When the sender of a fetch, from which the outpath is being taken, cancels it, the next end of
  -- that fetch records nothing, starts no cascade and sends nothing, whatever calls of the receiver
  -- come between: offers, the same one again included, cancellations, other fetches, or its stop.
  pub end_fetch-on_cancel :
      (r r' : Receiver)
      → (o.from_sid == "" || o.outpath == "") ≡ false
      → is_target (get o.outpath r.targeting) o.from_sid ≡ true
      → Between o (on_cancel o r).0 r'
      → ((end_fetch ctx o source r' s).1 ≡ s) × ((end_fetch ctx o source r' s).2 ≡ [])
  unfolding end_fetch
  end_fetch-on_cancel r r' named target calls =
      by_guard (λ (x : Receiver × Sender × Effects). (x.1 ≡ s) × (x.2 ≡ []))
        (r'.stopped || is_cancelled o r' || not (is_some source)) _ _ (λ h. (refl, refl))
        (λ h. absurd (ground (arith, h, Between-IsOff o calls off)))
    where
      off : IsOff o (on_cancel o r).0
      off = ground (arith, on_cancel-is_cancelled o r named target)
