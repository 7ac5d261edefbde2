-- ===== src/Replication/Handshake.antt =====
-- The receiver's side of the handshake: when a fetch starts and when its end counts.
use asm_dataset_nix.Prelude.{
  string_eq, ◌≡◌, refl, ap, ◌∙◌, String, Bool, true, false, not, ◌||◌, Option, none, some, List, [],
  ◌∷◌, ◌==◌, ==_iff, ==_refl, contains, arith, by_guard,
}
use asm_dataset_nix.Prelude.Dict.{get, get-put_same, get-remove_same, or_else, is_some}
use asm_dataset_nix.Replication.Context.{
  Context, Effect, Effects, fetch_started, with_item, minus, is_delivered,
}
use asm_dataset_nix.Replication.Sender.{Sender}
use asm_dataset_nix.Replication.Receiver.{
  Offer, Receiver, is_targeted_by_other, is_target, on_cancel, clear_target, discard_found,
  end_fetch,
}

-- The outpaths whose fetch starts among some effects, each with its sender.
abbrev pub fetched : Effect → Option (String × String)
fetched (fetch_started sender outpath drv_path item_class) = some (sender, outpath)
fetched _ = none

abbrev pub fetches : Effects → List (String × String)
fetches [] = []
fetches (e ∷ es) = elim (fetched e) [ none ↦ fetches es | some f ↦ f ∷ fetches es ]

-- What an offer leads to: nothing but an answer, or the fetch of the outpath from the sender, which
-- is then the only one that the receiver takes the outpath from.
pub data Answer (ctx : Context) (o : Offer) (r : Receiver) : Receiver × Effects → Type 0 where
  refused : (es : Effects) → fetches es ≡ [] → Answer ctx o r (r, es)
  fetching :
      (r' : Receiver) (es : Effects)
      → r.stopped ≡ false
      → is_delivered (ctx.is_path_locally_valid o.outpath) ≡ false
      → is_targeted_by_other (get o.outpath r.targeting) o.from_sid ≡ false
      → fetches es ≡ (o.from_sid, o.outpath) ∷ []
      → get o.outpath r'.targeting ≡ some o.from_sid
      → Answer ctx o r (r', es)

pub contains-with_item :
    (a x : String) (xs : List String) → contains a (with_item x xs) ≡ (x == a || contains a xs)
unfolding with_item
contains-with_item a x xs = ground (arith, ==_iff x a, ap (λ y. contains y xs))

-- The flag of a cancellation by the sender of `o`.
abbrev pub is_cancelled : Offer → Receiver → Bool
is_cancelled o r = contains o.from_sid (or_else [] (get o.outpath r.cancelled))

pub on_cancel-is_cancelled :
    (o : Offer) (r : Receiver)
    → (o.from_sid == "" || o.outpath == "") ≡ false
    → is_target (get o.outpath r.targeting) o.from_sid ≡ true
    → is_cancelled o (on_cancel o r).0 ≡ true
unfolding on_cancel
on_cancel-is_cancelled o r named target =
    by_guard (λ (x : Receiver × Effects). is_cancelled o x.0 ≡ true)
      (o.from_sid == "" || o.outpath == "") _ _ (λ h. absurd (ground (arith, h, named)))
      (λ h.
        by_guard (λ (x : Receiver × Effects). is_cancelled o x.0 ≡ true)
          (not (is_target (get o.outpath r.targeting) o.from_sid)) _ _
          (λ k. absurd (ground (arith, k, target)))
          (λ k.
            ap (λ x. contains o.from_sid (or_else [] x)) (get-put_same o.outpath _ r.cancelled)
            ∙ (contains-with_item o.from_sid o.from_sid _ ∙ ground (arith, ==_refl o.from_sid))))

clear_target-cleared :
    (o : Offer) (r : Receiver)
    → (is_target (get o.outpath (clear_target o r).targeting) o.from_sid ≡ false)
      × ((clear_target o r).cancelled ≡ r.cancelled)
unfolding clear_target is_target
clear_target-cleared o r =
    by_guard
      (λ (x : Receiver).
        (is_target (get o.outpath x.targeting) o.from_sid ≡ false) × (x.cancelled ≡ r.cancelled))
      (is_target (get o.outpath r.targeting) o.from_sid) _ _
      (λ h. (ap (λ x. is_target x o.from_sid) (get-remove_same o.outpath r.targeting) ∙ refl, refl))
      (λ h. (h, refl))

contains-minus : (a : String) (xs : List String) → contains a (minus (a ∷ []) xs) ≡ false
unfolding minus
contains-minus a [] = refl
contains-minus a (x ∷ xs) = ground (arith, contains-minus a xs, ==_iff a x, ==_iff x a)

discard_found-forgets :
    (sids : Option (List String)) (o : Offer) (r : Receiver)
    → get o.outpath r.cancelled ≡ sids
    → ((discard_found sids o r).targeting ≡ r.targeting)
      × (is_cancelled o (discard_found sids o r) ≡ false)
unfolding discard_found
discard_found-forgets none o r h = (refl, ap (λ x. contains o.from_sid (or_else [] x)) h)
discard_found-forgets (some sids) o r h = (
  refl,
  ap (λ x. contains o.from_sid (or_else [] x)) (get-put_same o.outpath _ r.cancelled)
      ∙ contains-minus o.from_sid sids,
)

module _ (ctx : Context) (o : Offer) (source : Option String) (r : Receiver) (s : Sender) where
  -- After a fetch its sender is not the one that the outpath is taken from, and its cancellation is
  -- forgotten.
  pub end_fetch-clears :
      (is_target (get o.outpath (end_fetch ctx o source r s).0.targeting) o.from_sid ≡ false)
      × (is_cancelled o (end_fetch ctx o source r s).0 ≡ false)
  unfolding end_fetch
  end_fetch-clears =
      by_guard
        (λ (x : Receiver × Sender × Effects).
          (is_target (get o.outpath x.0.targeting) o.from_sid ≡ false)
          × (is_cancelled o x.0 ≡ false))
        (r.stopped || is_cancelled o r || not (is_some source)) _ _ (λ h. cleared) (λ h. cleared)
    where
      sids : Option (List String)
      sids = get o.outpath r.cancelled

      cleared :
          (is_target (get o.outpath (discard_found sids o (clear_target o r)).targeting) o.from_sid
            ≡ false)
          × (is_cancelled o (discard_found sids o (clear_target o r)) ≡ false)
      cleared =
          let (t, c) = clear_target-cleared o r in
          let (t', c') = discard_found-forgets sids o (clear_target o r) (ap (get o.outpath) c) in
          (ap (λ x. is_target (get o.outpath x) o.from_sid) t' ∙ t, c')
