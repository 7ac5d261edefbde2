-- ===== src/Replication/Settling.antt =====
-- What settles, cancels and stops publishes nothing either.
use asm_dataset_nix.Prelude.{
  string_eq, ◌≡◌, refl, String, Bool, false, not, Option, none, some, List, [], ◌∷◌, ◌++◌, map,
  arith, by_guard, by_guards,
}
use asm_dataset_nix.Prelude.Count.{count, count-append}
use asm_dataset_nix.Prelude.Dict.{Dict, keys, get}
use asm_dataset_nix.Replication.Context.{Context, Effect, timer_cancelled, settle_cancelled}
use asm_dataset_nix.Replication.Sender.{
  InFlightOffer, Sender, release_slot, cancel_found, cancel_settle, is_fired, arm_settle,
  cancel_all, cancel_outstanding, on_path_have, cancel_timers, stop, peer_ids, is_converged,
}
use asm_dataset_nix.Replication.Quiet.{
  is_update, is_offer, IsQuiet, IsQuiet-nothing, IsQuiet-then, release_slot-IsQuiet,
}

cancel_found-IsQuiet :
    (found : Option (Unit {0})) (o : String) (s : Sender) → IsQuiet s (cancel_found found o s)
unfolding cancel_found
cancel_found-IsQuiet none o s = IsQuiet-nothing s
cancel_found-IsQuiet (some t) o s = record {
  fired_eq = refl;
  settling_eq = refl;
  stays_stopped = λ h. h;
  no_update = λ o'. refl;
  no_offer = λ h. refl;
}

arm_settle-IsQuiet :
    (ctx : Context) (o : String) (converged : Bool) (s : Sender)
    → IsQuiet s (arm_settle ctx o converged s)
unfolding arm_settle cancel_settle
arm_settle-IsQuiet ctx o converged s =
    let q = cancel_found-IsQuiet (get o s.settle_timer) o s in
    by_guard (IsQuiet s) (not converged) _ _ (λ h. q)
      (λ h.
        by_guards (IsQuiet s) (is_fired o s) (not ctx.has_update_preferred) (s, []) _
          (λ k. IsQuiet-nothing s) (λ k l. IsQuiet-nothing s)
          (λ k l. record {
            fired_eq = refl;
            settling_eq = refl;
            stays_stopped = λ p. p;
            no_update = λ o'.
                omega (arith, q.no_update o', count-append (is_update o') (cancel_settle o s).1 _);
            no_offer =
                λ p. omega (arith, q.no_offer p, count-append is_offer (cancel_settle o s).1 _);
          }))

cancel_all_lem :
    (peers : List String) (o : String) (ts : List String)
    → ((o' : String) → count (is_update o') (cancel_all peers o ts) ≡ 0)
      × (count is_offer (cancel_all peers o ts) ≡ 0)
unfolding cancel_all
cancel_all_lem peers o [] = (λ o'. refl, refl)
cancel_all_lem peers o (t ∷ ts) =
    let (h, k) = cancel_all_lem peers o ts in (λ o'. ground (arith, h o'), ground (arith, k))

cancel_outstanding-IsQuiet :
    (ctx : Context) (o : String) (ps : Dict String InFlightOffer) (s : Sender)
    → IsQuiet s (cancel_outstanding ctx o ps s)
unfolding cancel_outstanding
cancel_outstanding-IsQuiet ctx o [] s = IsQuiet-nothing s
cancel_outstanding-IsQuiet ctx o (p ∷ ps) s =
    let (h, k) = cancel_all_lem (peer_ids ctx) o (keys (p ∷ ps)) in
    record {
      fired_eq = refl;
      settling_eq = refl;
      stays_stopped = λ q. q;
      no_update = h;
      no_offer = λ q. k;
    }

pub on_path_have-IsQuiet :
    (ctx : Context) (holder o : String) (s : Sender) → IsQuiet s (on_path_have ctx holder o s)
unfolding on_path_have
on_path_have-IsQuiet ctx holder o s =
    let converged = is_converged ctx holder o in
    let released = release_slot-IsQuiet o holder s in
    let settled = arm_settle-IsQuiet ctx o converged (release_slot o holder s).0 in
    by_guard (IsQuiet s) converged _ _
      (λ h. IsQuiet-then released (IsQuiet-then settled (cancel_outstanding-IsQuiet ctx o _ _)))
      (λ h. IsQuiet-then released settled)

count-map_none :
    (p : Effect → Bool) (f : String → Effect) (xs : List String)
    → ((x : String) → p (f x) ≡ false)
    → count p (map f xs) ≡ 0
count-map_none p f [] h = refl
count-map_none p f (x ∷ xs) h = ground (arith, h x, count-map_none p f xs h)

count-cancel_timers :
    (p : Effect → Bool) (d : Dict String (Dict String InFlightOffer))
    → ((o t : String) → p (timer_cancelled o t) ≡ false)
    → count p (cancel_timers d) ≡ 0
unfolding cancel_timers
count-cancel_timers p [] h = refl
count-cancel_timers p ((o, ps) ∷ d) h = omega (
  arith,
  count-append p (map (λ t. timer_cancelled o t) (keys ps)) (cancel_timers d),
  count-map_none p (λ t. timer_cancelled o t) (keys ps) (h o),
  count-cancel_timers p d h,
)

pub stop-IsQuiet : (s : Sender) → IsQuiet s (stop s)
unfolding stop
stop-IsQuiet s = record {
  fired_eq = refl;
  settling_eq = refl;
  stays_stopped = λ h. refl;
  no_update = λ o. none_of (is_update o) (λ o' t. refl) (λ o'. refl);
  no_offer = λ h. none_of is_offer (λ o t. refl) (λ o. refl);
}
  where
    none_of :
        (p : Effect → Bool)
        → ((o t : String) → p (timer_cancelled o t) ≡ false)
        → ((o : String) → p (settle_cancelled o) ≡ false)
        → count p (cancel_timers s.in_flight ++ map (λ o. settle_cancelled o) (keys s.settle_timer))
          ≡ 0
    none_of p h k = omega (
      arith,
      count-append p (cancel_timers s.in_flight)
          (map (λ o. settle_cancelled o) (keys s.settle_timer)),
      count-cancel_timers p s.in_flight h,
      count-map_none p (λ o. settle_cancelled o) (keys s.settle_timer) k,
    )
