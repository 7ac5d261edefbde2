-- ===== src/Replication/Converged.antt =====
-- `on_path_have`: what a sender does with its outstanding offers when a secondary has the outpath.
use asm_dataset_nix.Prelude.{
  string_eq, pair_eq, ◌≡◌, refl, ap, ◌∙◌, String, Bool, true, false, not, ◌||◌, Option, none, some,
  List, [], ◌∷◌, ◌++◌, ◌==◌, ==_iff, ==_refl, contains, arith, if◌then◌else◌, by_guard, by_guards,
}
use asm_dataset_nix.Prelude.Dict.{Dict, keys, get, remove, get-put, get-remove}
use asm_dataset_nix.Replication.Context.{Context, Effect, Effects, path_cancel}
use asm_dataset_nix.Replication.Sender.{
  InFlightOffer, Sender, slots, drop_slot, release_found, release_slot, cancel_found, cancel_settle,
  is_fired, arm_settle, peer_ids, cancel_all, cancel_outstanding, is_converged, on_path_have,
}

-- The cancellations among some effects: to whom, and of which outpath.
abbrev pub cancel_of : Effect → Option (String × String)
cancel_of (path_cancel target outpath) = some (target, outpath)
cancel_of _ = none

abbrev pub cancelled : Effects → List (String × String)
cancelled [] = []
cancelled (e ∷ es) = elim (cancel_of e) [ none ↦ cancelled es | some t ↦ t ∷ cancelled es ]

contains-cancelled_append :
    (t : String × String) (es es' : Effects)
    → contains t (cancelled (es ++ es')) ≡ (contains t (cancelled es) || contains t (cancelled es'))
contains-cancelled_append t [] es' = refl
contains-cancelled_append t (e ∷ es) es' = ground (arith, contains-cancelled_append t es es')

in_last :
    (t : String × String) (es es' : Effects)
    → contains t (cancelled es') ≡ true
    → contains t (cancelled (es ++ es')) ≡ true
in_last t es es' h = ground (arith, contains-cancelled_append t es es', h)

remove_absent : (t : String) (d : Dict String InFlightOffer) → get t d ≡ none → remove t d ≡ d
unfolding get remove
remove_absent t [] h = refl
remove_absent t ((j, v) ∷ d) h = ground (arith, h, remove_absent t d)

slots-drop_slot :
    (o outpath : String) (d : Dict String InFlightOffer) (s : Sender)
    → slots o (drop_slot outpath d s) ≡ (if outpath == o then d else slots o s)
unfolding slots drop_slot
slots-drop_slot o outpath [] s = ground (arith, get-remove outpath o s.in_flight)
slots-drop_slot o outpath (p ∷ d) s = ground (arith, get-put outpath o (p ∷ d) s.in_flight)

slots-release_found :
    (found : Option InFlightOffer) (o outpath t : String) (s : Sender)
    → get t (slots outpath s) ≡ found
    → slots o (release_found found outpath t s).0
      ≡ (if outpath == o then remove t (slots outpath s) else slots o s)
unfolding release_found
slots-release_found none o outpath t s h =
    ground (arith, remove_absent t (slots outpath s) h, ==_iff outpath o, ap (λ x. slots x s))
slots-release_found (some v) o outpath t s h = slots-drop_slot o outpath _ s

pub slots-release_slot :
    (o outpath t : String) (s : Sender)
    → slots o (release_slot outpath t s).0
      ≡ (if outpath == o then remove t (slots outpath s) else slots o s)
unfolding release_slot
slots-release_slot o outpath t s = slots-release_found _ o outpath t s refl

slots-cancel_found :
    (o : String) (found : Option (Unit {0})) (outpath : String) (s : Sender)
    → slots o (cancel_found found outpath s).0 ≡ slots o s
unfolding cancel_found slots
slots-cancel_found o none outpath s = refl
slots-cancel_found o (some t) outpath s = refl

slots-arm_settle :
    (o : String) (ctx : Context) (outpath : String) (b : Bool) (s : Sender)
    → slots o (arm_settle ctx outpath b s).0 ≡ slots o s
unfolding arm_settle cancel_settle slots
slots-arm_settle o ctx outpath b s =
    by_guard (λ (r : Sender × Effects). slots o r.0 ≡ slots o s) (not b) _ _
      (λ h. slots-cancel_found o (get outpath s.settle_timer) outpath s)
      (λ h.
        by_guards (λ (r : Sender × Effects). slots o r.0 ≡ slots o s) (is_fired outpath s)
          (not ctx.has_update_preferred) (s, []) _ (λ k. refl) (λ k l. refl) (λ k l. refl))

slots-cancel_outstanding :
    (o : String) (ctx : Context) (outpath : String) (d : Dict String InFlightOffer) (s : Sender)
    → slots outpath s ≡ d
    → slots o (cancel_outstanding ctx outpath d s).0 ≡ (if outpath == o then [] else slots o s)
unfolding cancel_outstanding slots
slots-cancel_outstanding o ctx outpath [] s h =
    ground (arith, h, ==_iff outpath o, ap (λ x. slots x s))
slots-cancel_outstanding o ctx outpath (p ∷ d) s h =
    ground (arith, get-remove outpath o s.in_flight)

cancelled-cancel_all :
    (peers : List String) (outpath t : String) (ts : List String)
    → contains t peers ≡ true
    → contains t ts ≡ true
    → contains (t, outpath) (cancelled (cancel_all peers outpath ts)) ≡ true
unfolding cancel_all
cancelled-cancel_all peers outpath t [] h k = absurd (cc k)
cancelled-cancel_all peers outpath t (u ∷ ts) h k = ground (
  arith,
  cancelled-cancel_all peers outpath t ts h,
  ==_iff u t,
  ap (λ x. contains x peers),
  ==_refl outpath,
)

contains-keys-remove :
    (t k : String) (d : Dict String InFlightOffer)
    → (k == t) ≡ false
    → contains t (keys (remove k d)) ≡ contains t (keys d)
unfolding remove
contains-keys-remove t k [] h = refl
contains-keys-remove t k ((j, v) ∷ d) h = ground (arith, contains-keys-remove t k d h, ==_iff j k)

contains-cancelled_outstanding :
    (ctx : Context) (outpath t : String) (d : Dict String InFlightOffer) (s : Sender)
    → contains t (peer_ids ctx) ≡ true
    → contains t (keys d) ≡ true
    → contains (t, outpath) (cancelled (cancel_outstanding ctx outpath d s).1) ≡ true
unfolding cancel_outstanding
contains-cancelled_outstanding ctx outpath t [] s h k = absurd (cc k)
contains-cancelled_outstanding ctx outpath t (p ∷ d) s h k =
    cancelled-cancel_all (peer_ids ctx) outpath t (keys (p ∷ d)) h k

module _ (ctx : Context) (holder outpath : String) (s : Sender) where
  -- The offers of the outpath that are left, and those of others: when K secondaries hold it, none
  -- is left; before, only that to the new holder is gone. Other outpaths keep their offers.
  pub on_path_have-slots :
      (o : String)
      → slots o (on_path_have ctx holder outpath s).0 ≡ (
          if outpath == o
          then if is_converged ctx holder outpath then [] else remove holder (slots outpath s)
          else slots o s)
  unfolding on_path_have
  on_path_have-slots o =
      let released = slots-release_slot o outpath holder s in
      let armed =
        slots-arm_settle o ctx outpath (is_converged ctx holder outpath)
          (release_slot outpath holder s).0 in
      ground (
        arith,
        released,
        armed,
        slots-cancel_outstanding o ctx outpath _
            (arm_settle ctx outpath (is_converged ctx holder outpath)
              (release_slot outpath holder s).0).0
            refl,
      )

  -- When K secondaries hold the outpath, each known peer with an outstanding offer of it, other than
  -- the new holder, is sent the cancellation of this outpath.
  pub on_path_have-cancels :
      (t : String)
      → is_converged ctx holder outpath ≡ true
      → (holder == t) ≡ false
      → contains t (keys (slots outpath s)) ≡ true
      → contains t (peer_ids ctx) ≡ true
      → contains (t, outpath) (cancelled (on_path_have ctx holder outpath s).1) ≡ true
  unfolding on_path_have
  on_path_have-cancels t full other out known =
      by_guard (λ (r : Sender × Effects). contains (t, outpath) (cancelled r.1) ≡ true)
        (is_converged ctx holder outpath) _ _
        (λ h.
          in_last (t, outpath) (release_slot outpath holder s).1 _
            (in_last (t, outpath) armed.1 _
              (contains-cancelled_outstanding ctx outpath t (slots outpath armed.0) armed.0 known
                still)))
        (λ h. absurd (ground (arith, h, full)))
    where
      armed : Sender × Effects
      armed =
          arm_settle ctx outpath (is_converged ctx holder outpath) (release_slot outpath holder s).0

      left : slots outpath armed.0 ≡ remove holder (slots outpath s)
      left =
          slots-arm_settle outpath ctx outpath (is_converged ctx holder outpath)
            (release_slot outpath holder s).0
          ∙ ground (arith, slots-release_slot outpath outpath holder s, ==_refl outpath)

      still : contains t (keys (slots outpath armed.0)) ≡ true
      still =
          ap (λ d. contains t (keys d)) left
          ∙ (contains-keys-remove t holder (slots outpath s) other ∙ out)
