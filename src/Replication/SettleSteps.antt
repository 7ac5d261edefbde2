-- ===== src/Replication/SettleSteps.antt =====
-- What the steps of the settle timer's call do to its flag, and to the calls that are pending
-- (`_fire_settle` of peer_replication.py).
use asm_dataset_nix.Prelude.{
  string_eq, ℕ, ◌+◌, ◌≤◌, ◌≡◌, refl, sym, subst, ap, String, true, false, not, Option, none, some,
  List, [], ◌∷◌, length, ◌==◌, ==_iff, arith, ltb, if◌then◌else◌, by_guard,
}
use asm_dataset_nix.Prelude.Order.{str_order}
use asm_dataset_nix.Prelude.Sorting.{sorted_by}
use asm_dataset_nix.Prelude.Count.{count, count-append}
use asm_dataset_nix.Prelude.Dict.{get, remove, get-put, get-remove, is_some}
use asm_dataset_nix.Replication.Context.{
  Call, returned, raised, Context, Effects, update_preferred, text_of,
}
use asm_dataset_nix.Replication.Sender.{SettleCall, Sender, is_fired, placed}
use asm_dataset_nix.Replication.Settle.{
  publish, publish_found, settle_check, take_call, publish_call, settle_publish,
}
use asm_dataset_nix.Replication.Quiet.{is_update, is_offer, IsQuiet, IsQuiet-nothing}

-- 1 when the update of the outpath has been sent, by the sender's flag.
abbrev pub flag : String → Sender → ℕ
flag o s = if is_fired o s then 1 else 0

-- How many calls that settle an outpath have read its holders and have not yet published.
abbrev pub pending : String → Sender → ℕ
pending o s = count (λ (c : SettleCall). c.outpath == o) s.settling

-- What one event does, seen from outside: the flags bound what was sent and what is pending, and a
-- stopped sender makes no offer and only finishes what is pending.
pub record Step (s : Sender) (r : Sender × Effects) : Type 0 where
  pub once :
      (o : String)
      → pending o s ≤ flag o s
      → (pending o r.0 ≤ flag o r.0)
        × (count (is_update o) r.1 + flag o s + pending o r.0 ≤ flag o r.0 + pending o s)
  pub stays_stopped : s.stopped ≡ true → r.0.stopped ≡ true
  pub no_offer : s.stopped ≡ true → count is_offer r.1 ≡ 0
  pub silent :
      s.stopped ≡ true → (o : String) → count (is_update o) r.1 + pending o r.0 ≤ pending o s

flag_cong : (s s' : Sender) (o : String) → s'.fired ≡ s.fired → flag o s' ≡ flag o s
unfolding is_fired
flag_cong s s' o p = ap (λ f. if is_some (get o f) then 1 else 0) p

pending_cong : (s s' : Sender) (o : String) → s'.settling ≡ s.settling → pending o s' ≡ pending o s
pending_cong s s' o p = ap (count (λ (c : SettleCall). c.outpath == o)) p

pub quiet-Step : {s : Sender} {r : Sender × Effects} → IsQuiet s r → Step s r
quiet-Step {s} {r} q = record {
  once = λ o h.
      let f = flag_cong s r.0 o q.fired_eq in
      let c = pending_cong s r.0 o q.settling_eq in
      (omega (arith, h, f, c), omega (arith, q.no_update o, h, f, c));
  stays_stopped = q.stays_stopped;
  no_offer = q.no_offer;
  silent = λ h o. omega (arith, q.no_update o, pending_cong s r.0 o q.settling_eq);
}

module _ (o : String) where
  -- The check sets the flag and leaves one call pending, or does neither.
  pub settle_check-Step : (ctx : Context) (s : Sender) → Step s (settle_check ctx o s, [])
  unfolding settle_check is_fired
  settle_check-Step ctx s =
      by_guard (λ (t : Sender). Step s (t, [])) s.stopped _ _ (λ h. quiet-Step (IsQuiet-nothing s))
        (λ h.
          by_guard (λ (t : Sender). Step s (t, [])) (is_fired o s) _ _
            (λ k. running h (λ o' p. (p, omega arith)))
            (λ k. running h (λ o' p.
              let c =
                count-append (λ (c : SettleCall). c.outpath == o') s.settling (called ctx s ∷ []) in
              let f = get-put o o' tt s.fired in
              (
                ground (arith, k, p, c, f, ==_iff o o', ap (λ x. get x s.fired)),
                ground (arith, k, p, c, f, ==_iff o o', ap (λ x. get x s.fired)),
              ))))
    where
      running :
          {t : Sender}
          → s.stopped ≡ false
          → ((o' : String)
              → pending o' s ≤ flag o' s
              → (pending o' t ≤ flag o' t)
                × (0 + flag o' s + pending o' t ≤ flag o' t + pending o' s))
          → Step s (t, [])
      running run h = record {
        once = h;
        stays_stopped = λ p. absurd (ground (arith, p, run));
        no_offer = λ p. refl;
        silent = λ p. absurd (ground (arith, p, run));
      }

      called : Context → Sender → SettleCall
      called c t = record {
        outpath = o;
        holders = sorted_by str_order (λ h. h) (placed o c);
        has_updater = c.has_update_preferred;
        has_lookup = is_some c.lookup_task_hash;
      }

-- The call that is taken is one of the outpath, and the others are left.
abbrev Taken : String → List SettleCall → Option (SettleCall × List SettleCall) → Type 0
Taken o cs none = Unit
Taken o cs (some (c, others)) =
    (c.outpath ≡ o)
    × ((o' : String)
        → count (λ (d : SettleCall). d.outpath == o') cs
          ≡ (if o == o' then 1 else 0) + count (λ (d : SettleCall). d.outpath == o') others)

take_call-Taken : (o : String) (cs : List SettleCall) → Taken o cs (take_call o cs)
unfolding take_call
take_call-Taken o [] = tt
take_call-Taken o (c ∷ cs) =
    by_guard (Taken o (c ∷ cs)) (c.outpath == o) _ _
      (λ h.
        let same : c.outpath ≡ o = (==_iff c.outpath o).0 h in
        (same, λ o'. ground (arith, ap (λ x. x == o') same)))
      (λ h. later (take_call o cs) (take_call-Taken o cs))
  where
    later :
        (found : Option (SettleCall × List SettleCall))
        → Taken o cs found
        → Taken o (c ∷ cs) (elim found [ none ↦ none | some (d, others) ↦ some (d, c ∷ others) ])
    later none t = tt
    later (some (d, others)) (e, k) = (e, λ o'. ground (arith, k o'))

-- A pending call that ends: without an update the flag stays or is taken back, with one it stays.
module _ (ctx : Context) (o : String) (s : Sender) (others : List SettleCall)
    (left : (o' : String)
      → count (λ (d : SettleCall). d.outpath == o') s.settling
        ≡ (if o == o' then 1 else 0) + count (λ (d : SettleCall). d.outpath == o') others) where
  abbrev rest_of : Sender
  rest_of = record s { settling = others }

  nothing-Step : Step s (rest_of, [])
  nothing-Step = record {
    once = λ o' p.
        let f = flag_cong s rest_of o' refl in
        (omega (arith, p, f, left o'), omega (arith, p, f, left o'));
    stays_stopped = λ p. p;
    no_offer = λ p. refl;
    silent = λ p o'. omega (arith, left o');
  }

  rollback-Step : Step s (record rest_of { fired = remove o s.fired }, [])
  unfolding is_fired
  rollback-Step = record {
    once = λ o' p.
        let f = get-remove o o' s.fired in
        (ground (arith, p, f, left o'), ground (arith, p, f, left o'));
    stays_stopped = λ p. p;
    no_offer = λ p. refl;
    silent = λ p o'. omega (arith, left o');
  }

  update-Step :
      (task_hash : String) (holders : List String)
      → Step s (rest_of, update_preferred o task_hash holders ∷ [])
  update-Step task_hash holders = record {
    once = λ o' p.
        let f = flag_cong s rest_of o' refl in
        (omega (arith, p, f, left o'), ground (arith, p, f, left o'));
    stays_stopped = λ p. p;
    no_offer = λ p. refl;
    silent = λ p o'. ground (arith, left o');
  }

  publish-Step :
      (task_hash : String) (holders : List String)
      → Step s (publish ctx o task_hash holders rest_of)
  unfolding publish
  publish-Step task_hash holders =
      by_guard (Step s) (task_hash == "") _ _ (λ h. nothing-Step)
        (λ h.
          by_guard (Step s) (ltb (length holders) ctx.replication_k) _ _ (λ k. rollback-Step)
            (λ k. update-Step task_hash holders))

  publish_found-Step :
      (holders : List String) (found : Call (Option String))
      → Step s (publish_found ctx o holders rest_of found)
  unfolding publish_found
  publish_found-Step holders raised = nothing-Step
  publish_found-Step holders (returned h) = publish-Step (text_of h) holders

publish_call-Step :
    (ctx : Context) (o : String) (found : Call (Option String)) (s : Sender)
    (taken : Option (SettleCall × List SettleCall))
    → Taken o s.settling taken
    → Step s (publish_call ctx found taken s)
unfolding publish_call
publish_call-Step ctx o found s none t = quiet-Step (IsQuiet-nothing s)
publish_call-Step ctx o found s (some (c, others)) (e, left) =
    by_guard (Step s) (not c.has_updater) _ _ (λ h. nothing-Step ctx o s others left)
      (λ h.
        subst
          (λ x. Step s (
            publish_found ctx x c.holders (record s { settling = others })
              (if c.has_lookup then found else returned none)))
          (sym e) (publish_found-Step ctx o s others left c.holders _))

pub settle_publish-Step :
    (ctx : Context) (o : String) (found : Call (Option String)) (s : Sender)
    → Step s (settle_publish ctx o found s)
unfolding settle_publish
settle_publish-Step ctx o found s =
    publish_call-Step ctx o found s (take_call o s.settling) (take_call-Taken o s.settling)
