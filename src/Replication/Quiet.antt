-- ===== src/Replication/Quiet.antt =====
-- The methods of the sender that offer or retry publish nothing, and none offers when it is stopped.
use asm_dataset_nix.Prelude.{
  string_eq, ℕ, ◌≡◌, refl, ◌∙◌, String, Bool, true, false, Option, none, some, List, [], ◌∷◌, ◌++◌,
  ◌==◌, arith, if◌then◌else◌, by_guard, by_guards,
}
use asm_dataset_nix.Prelude.Count.{count, count-append}
use asm_dataset_nix.Prelude.Dict.{Dict, get, put}
use asm_dataset_nix.Replication.Context.{
  PeerInfo, Context, Effect, Effects, update_preferred, path_offer, is_delivered, timer_cancelled,
}
use asm_dataset_nix.Replication.Sender.{
  InFlightOffer, in_flight_offer, Sender, slots, release_slot, release_found, drop_slot, add_slot,
  offer_all, offer_needed, push_attempt_locked, push_attempt, retry, on_reject, on_timeout,
  timeout_found,
}

-- An update of the preferred secondaries of the outpath.
abbrev pub is_update : String → Effect → Bool
is_update outpath (update_preferred o task_hash holders) = o == outpath
is_update outpath _ = false

abbrev pub is_offer : Effect → Bool
is_offer (path_offer target outpath drv_path item_class) = true
is_offer _ = false

-- The flags of the updates that were sent and the calls that settle stay, none is sent, and a stopped sender stays stopped
-- and offers nothing.
pub record IsQuiet (s : Sender) (r : Sender × Effects) : Type 0 where
  pub fired_eq : r.0.fired ≡ s.fired
  pub settling_eq : r.0.settling ≡ s.settling
  pub stays_stopped : s.stopped ≡ true → r.0.stopped ≡ true
  pub no_update : (o : String) → count (is_update o) r.1 ≡ 0
  pub no_offer : s.stopped ≡ true → count is_offer r.1 ≡ 0

pub IsQuiet-nothing : (s : Sender) → IsQuiet s (s, [])
IsQuiet-nothing s = record {
  fired_eq = refl;
  settling_eq = refl;
  stays_stopped = λ h. h;
  no_update = λ o. refl;
  no_offer = λ h. refl;
}

pub IsQuiet-then :
    {s : Sender} {r r' : Sender × Effects}
    → IsQuiet s r
    → IsQuiet r.0 r'
    → IsQuiet s (r'.0, r.1 ++ r'.1)
IsQuiet-then {s} {r} {r'} h k = record {
  fired_eq = k.fired_eq ∙ h.fired_eq;
  settling_eq = k.settling_eq ∙ h.settling_eq;
  stays_stopped = λ p. k.stays_stopped (h.stays_stopped p);
  no_update = λ o. omega (arith, count-append (is_update o) r.1 r'.1, h.no_update o, k.no_update o);
  no_offer = λ p.
      omega (arith, count-append is_offer r.1 r'.1, h.no_offer p, k.no_offer (h.stays_stopped p));
}

drop_slot-IsQuiet :
    (o t : String) (ps : Dict String InFlightOffer) (s : Sender)
    → IsQuiet s (drop_slot o ps s, timer_cancelled o t ∷ [])
unfolding drop_slot
drop_slot-IsQuiet o t [] s = record {
  fired_eq = refl;
  settling_eq = refl;
  stays_stopped = λ h. h;
  no_update = λ o'. refl;
  no_offer = λ h. refl;
}
drop_slot-IsQuiet o t (p ∷ ps) s = record {
  fired_eq = refl;
  settling_eq = refl;
  stays_stopped = λ h. h;
  no_update = λ o'. refl;
  no_offer = λ h. refl;
}

release_found-IsQuiet :
    (found : Option InFlightOffer) (o t : String) (s : Sender)
    → IsQuiet s (release_found found o t s)
unfolding release_found
release_found-IsQuiet none o t s = IsQuiet-nothing s
release_found-IsQuiet (some v) o t s = drop_slot-IsQuiet o t _ s

pub release_slot-IsQuiet : (o t : String) (s : Sender) → IsQuiet s (release_slot o t s)
unfolding release_slot
release_slot-IsQuiet o t s = release_found-IsQuiet (get t (slots o s)) o t s

-- The loop of offers, in a sender that runs.
offer_all_lem :
    (ctx : Context) (o drv cls : String) (ts : List PeerInfo) (s : Sender)
    → ((offer_all ctx o (drv, cls) ts s).1.fired ≡ s.fired)
      × ((offer_all ctx o (drv, cls) ts s).1.settling ≡ s.settling)
      × ((offer_all ctx o (drv, cls) ts s).1.stopped ≡ s.stopped)
      × ((o' : String) → count (is_update o') (offer_all ctx o (drv, cls) ts s).2 ≡ 0)
unfolding offer_all add_slot
offer_all_lem ctx o drv cls [] s = (refl, refl, refl, λ o'. refl)
offer_all_lem ctx o drv cls (t ∷ ts) s =
    let (f, c, g, h) = offer_all_lem ctx o drv cls ts (
      if is_delivered (ctx.push_path_offer t o drv cls)
      then add_slot o t.secondary_id (in_flight_offer drv cls) s
      else s) in
    (f ∙ ground arith, c ∙ ground arith, g ∙ ground arith, λ o'. ground (arith, h o'))

offer_all-IsQuiet :
    (ctx : Context) (o drv cls : String) (ts : List PeerInfo) (s : Sender)
    → s.stopped ≡ false
    → IsQuiet s ((offer_all ctx o (drv, cls) ts s).1, (offer_all ctx o (drv, cls) ts s).2)
offer_all-IsQuiet ctx o drv cls ts s run =
    let (f, c, g, h) = offer_all_lem ctx o drv cls ts s in
    record {
      fired_eq = f;
      settling_eq = c;
      stays_stopped = λ p. g ∙ p;
      no_update = h;
      no_offer = λ p. absurd (ground (arith, p, run));
    }

-- The sender and the effects of a result that also counts the offers.
abbrev rest : ℕ × Sender × Effects → Sender × Effects
rest r = (r.1, r.2)

push_attempt_locked-IsQuiet :
    (ctx : Context) (o : String) (excludes : List String) (s : Sender)
    → IsQuiet s (rest (push_attempt_locked ctx o excludes s))
unfolding push_attempt_locked offer_needed
push_attempt_locked-IsQuiet ctx o excludes s =
    by_guards (λ r. IsQuiet s (rest r)) s.stopped _ (0, s, []) (offer_needed ctx o excludes _ s)
      (λ h. IsQuiet-nothing s) (λ h k. IsQuiet-nothing s) (λ h k. offer_all-IsQuiet ctx o _ _ _ s h)

pub push_attempt-IsQuiet :
    (ctx : Context) (o drv cls : String) (excludes : List String) (s : Sender)
    → IsQuiet s (rest (push_attempt ctx o drv cls excludes s))
unfolding push_attempt
push_attempt-IsQuiet ctx o drv cls excludes s =
    by_guard (λ r. IsQuiet s (rest r)) s.stopped (0, s, []) _ (λ h. IsQuiet-nothing s)
      (λ h.
        let q =
          push_attempt_locked-IsQuiet ctx o excludes
            (record s { metadata = put o (drv, cls) s.metadata }) in
        record {
          fired_eq = q.fired_eq;
          settling_eq = q.settling_eq;
          stays_stopped = q.stays_stopped;
          no_update = q.no_update;
          no_offer = q.no_offer;
        })

retry-IsQuiet : (ctx : Context) (t o : String) (s : Sender) → IsQuiet s (retry ctx t o s)
unfolding retry
retry-IsQuiet ctx t o s =
    IsQuiet-then (release_slot-IsQuiet o t s) (push_attempt_locked-IsQuiet ctx o [] _)

pub on_reject-IsQuiet :
    (ctx : Context) (t o : String) (s : Sender) → IsQuiet s (on_reject ctx t o s)
unfolding on_reject
on_reject-IsQuiet = retry-IsQuiet

timeout_found-IsQuiet :
    (found : Option InFlightOffer) (ctx : Context) (o t : String) (s : Sender)
    → IsQuiet s (timeout_found found ctx o t s)
unfolding timeout_found
timeout_found-IsQuiet none ctx o t s = IsQuiet-nothing s
timeout_found-IsQuiet (some v) ctx o t s = retry-IsQuiet ctx t o s

pub on_timeout-IsQuiet :
    (ctx : Context) (o t : String) (s : Sender) → IsQuiet s (on_timeout ctx o t s)
unfolding on_timeout
on_timeout-IsQuiet ctx o t s = timeout_found-IsQuiet (get t (slots o s)) ctx o t s
