-- ===== src/Broadcast/Flood.antt =====
-- Where a broadcast goes on from a receiver, and what it answers.
use asm_dataset_nix.Prelude.{
  string_eq, ◌+◌, ◌≤◌, ◌≡◌, refl, ap, sym, subst, ◌∙◌, String, Bool, true, false, not, ◌&&◌, ◌||◌,
  List, [], ◌∷◌, ◌++◌, ◌==◌, ==_iff, ==_refl, contains, arith, leb, if◌then◌else◌, by_guard,
}
use asm_dataset_nix.Prelude.Dict.{Dict, get, or_else}
use asm_dataset_nix.Prelude.Contains.{IsDistinct}
use asm_dataset_nix.Replication.Context.{is_delivered}
use asm_dataset_nix.Broadcast.Receiver.{
  FanoutJob, BroadcastReceiver, Surroundings, maybe_record, safe_url_map, enqueue_fanout,
  is_skipped, Handled, fetch_and_cascade, on_broadcast_offer, fanout_targets,
}

-- Some peer other than the two has the address.
abbrev pub has_other : String → String → String → Dict String String → Bool
has_other url me origin [] = false
has_other url me origin ((pid, u) ∷ urls) =
    (u == url && not (pid == me) && not (pid == origin)) || has_other url me origin urls

-- `e` says that the two addresses are one, and then the tests of them agree.
skipped_lem :
    (a b c d e x y h r : Bool)
    → (e ≡ true → (a ≡ x) × (d ≡ y))
    → (a || b || c || d) ≡ true
    → r ≡ (not x && not y && h)
    → r ≡ (not x && not y && ((e && not b && not c) || h))
skipped_lem a b c d false x y h r p q s = s
skipped_lem a b c d true x y h r p q s = ground (arith, (p refl).0, (p refl).1, q, s)

taken_lem :
    (a b c d e x y h r : Bool)
    → (e ≡ true → (a ≡ x) × (d ≡ y))
    → (a || b || c || d) ≡ false
    → r ≡ (not x && not (e || y) && h)
    → (e || r) ≡ (not x && not y && ((e && not b && not c) || h))
taken_lem a b c d false x y h r p q s = s
taken_lem a b c d true x y h r p q s = ground (arith, (p refl).0, (p refl).1, q)

module _ (me origin : String) where
  fanout_targets-cons :
      (seen : List String) (pid u : String) (urls : Dict String String)
      → fanout_targets me origin seen ((pid, u) ∷ urls) ≡ (
          if is_skipped me origin seen pid u
          then fanout_targets me origin seen urls
          else u ∷ fanout_targets me origin (u ∷ seen) urls)
  unfolding fanout_targets
  fanout_targets-cons seen pid u urls =
      go (is_skipped me origin seen pid u) (λ t. fanout_targets me origin t urls)
    where
      go :
          (b : Bool) (f : List String → List String)
          → (if b then f (if b then seen else u ∷ seen) else u ∷ f (if b then seen else u ∷ seen))
            ≡ (if b then f seen else u ∷ f (u ∷ seen))
      go true f = refl
      go false f = refl

  agree :
      (u url : String) (seen : List String)
      → (u == url) ≡ true
      → ((u == "") ≡ (url == "")) × (contains u seen ≡ contains url seen)
  agree u url seen h =
      let same = (==_iff u url).0 h in (ap (λ x. x == "") same, ap (λ x. contains x seen) same)

  contains-fanout_targets :
      (url : String) (seen : List String) (urls : Dict String String)
      → contains url (fanout_targets me origin seen urls)
        ≡ (not (url == "") && not (contains url seen) && has_other url me origin urls)
  unfolding fanout_targets is_skipped
  contains-fanout_targets url seen [] = ground arith
  contains-fanout_targets url seen ((pid, u) ∷ urls) =
      ap (contains url) (fanout_targets-cons seen pid u urls)
      ∙ by_guard
          (λ ts. contains url ts ≡ (
            not (url == "")
            && not (contains url seen)
            && has_other url me origin ((pid, u) ∷ urls)))
          (is_skipped me origin seen pid u) (fanout_targets me origin seen urls)
          (u ∷ fanout_targets me origin (u ∷ seen) urls)
          (λ skip.
            skipped_lem (u == "") (pid == me) (pid == origin) (contains u seen) (u == url)
              (url == "") (contains url seen) (has_other url me origin urls)
              (contains url (fanout_targets me origin seen urls)) (agree u url seen) skip
              (contains-fanout_targets url seen urls))
          (λ take.
            taken_lem (u == "") (pid == me) (pid == origin) (contains u seen) (u == url) (url == "")
              (contains url seen) (has_other url me origin urls)
              (contains url (fanout_targets me origin (u ∷ seen) urls)) (agree u url seen) take
              (contains-fanout_targets url (u ∷ seen) urls))

  fanout_targets-IsDistinct :
      (seen : List String) (urls : Dict String String)
      → IsDistinct (fanout_targets me origin seen urls)
  unfolding fanout_targets
  fanout_targets-IsDistinct seen [] = tt
  fanout_targets-IsDistinct seen ((pid, u) ∷ urls) =
      subst IsDistinct (sym (fanout_targets-cons seen pid u urls)) (
        by_guard IsDistinct (is_skipped me origin seen pid u) (fanout_targets me origin seen urls)
          (u ∷ fanout_targets me origin (u ∷ seen) urls)
          (λ skip. fanout_targets-IsDistinct seen urls)
          (λ take. (
            contains-fanout_targets u (u ∷ seen) urls ∙ ground (arith, ==_refl u),
            fanout_targets-IsDistinct (u ∷ seen) urls,
          )))

  -- A fan-out goes to exactly the addresses, other than the empty one, of the peers other than this
  -- one and the origin, to each once.
  pub fanout_targets_lem :
      (urls : Dict String String)
      → IsDistinct (fanout_targets me origin [] urls)
        × ((url : String)
            → contains url (fanout_targets me origin [] urls)
              ≡ (not (url == "") && has_other url me origin urls))
  fanout_targets_lem urls =
      (fanout_targets-IsDistinct [] urls, λ url. contains-fanout_targets url [] urls ∙ ground arith)

-- The address that an offer's path is fetched from: that of its origin, or the empty one.
abbrev pub origin_url : Surroundings → FanoutJob → String
origin_url net offer = or_else "" (get offer.origin_peer_id (safe_url_map net.peer_urls))

-- The path of an offer is not here, and the fetch from its origin succeeds.
pub record IsFetched (net : Surroundings) (offer : FanoutJob) : Type 0 where
  pub was_missing : is_delivered (net.is_path_locally_valid offer.path) ≡ false
  pub has_origin : (origin_url net offer == "") ≡ false
  pub fetched : is_delivered (net.fetch_path_from_peer offer.path (origin_url net offer)) ≡ true

-- The answers to an offer: whether the path is here then, the records made, and the jobs added.
pub data Answer (net : Surroundings) (offer : FanoutJob) (r : BroadcastReceiver)
    : Handled → Type 0 where
  refused : (r.stopped || offer.path == "") ≡ true → Answer net offer r (false, [], r)
  unknown_origin :
      is_delivered (net.is_path_locally_valid offer.path) ≡ false
      → (origin_url net offer == "") ≡ true
      → Answer net offer r (false, [], r)
  not_fetched :
      is_delivered (net.is_path_locally_valid offer.path) ≡ false
      → is_delivered (net.fetch_path_from_peer offer.path (origin_url net offer)) ≡ false
      → Answer net offer r (false, [], r)
  was_here :
      is_delivered (net.is_path_locally_valid offer.path) ≡ true
      → Answer net offer r (true, maybe_record offer.path r, r)
  last_hop :
      IsFetched net offer
      → r.max_hop ≤ offer.hop_count
      → Answer net offer r (true, maybe_record offer.path r, r)
  passed_on :
      IsFetched net offer
      → r.stopped ≡ false
      → offer.hop_count + 1 ≤ r.max_hop
      → Answer net offer r (
        true,
        maybe_record offer.path r,
        record r { queue = r.queue ++ record offer { hop_count = offer.hop_count + 1 } ∷ [] },
      )

-- An offer is answered by no, and nothing is done, only when the receiver has stopped or the path is
-- empty, or the path is not here and its origin has no address or the fetch from it fails. It is
-- answered by yes, and the path recorded, only when the path was here or was fetched now from the
-- origin; and it goes on only if it was fetched, the receiver runs, and then with one hop more,
-- within the cap.
pub on_broadcast_offer-Answer :
    (net : Surroundings) (offer : FanoutJob) (r : BroadcastReceiver)
    → Answer net offer r (on_broadcast_offer net offer r)
unfolding on_broadcast_offer fetch_and_cascade enqueue_fanout
on_broadcast_offer-Answer net offer r =
    by_guard (Answer net offer r) (r.stopped || offer.path == "") _ _ (λ h. refused h)
      (λ h.
        by_guard (Answer net offer r) (is_delivered (net.is_path_locally_valid offer.path)) _ _
          (λ k. was_here k)
          (λ k.
            by_guard (Answer net offer r) (origin_url net offer == "") _ _ (λ l. unknown_origin k l)
              (λ l.
                by_guard (Answer net offer r)
                  (not (is_delivered (net.fetch_path_from_peer offer.path (origin_url net offer))))
                  _ _ (λ m. not_fetched k (ground (arith, m)))
                  (λ m.
                    with_path
                      (record { was_missing = k; has_origin = l; fetched = ground (arith, m) })
                      (ground (arith, h))))))
  where
    with_path :
        IsFetched net offer
        → r.stopped ≡ false
        → Answer net offer r (
            if leb r.max_hop offer.hop_count then (true, maybe_record offer.path r, r) else (
              true,
              maybe_record offer.path r,
              enqueue_fanout (record offer { hop_count = offer.hop_count + 1 }) r,
            ))
    with_path f o =
        by_guard (Answer net offer r) (leb r.max_hop offer.hop_count) _ _
          (λ n. last_hop f (ground (arith, n)))
          (λ n.
            by_guard (λ q. Answer net offer r (true, maybe_record offer.path r, q)) r.stopped r
              (record r {
                queue = r.queue ++ record offer { hop_count = offer.hop_count + 1 } ∷ [];
              })
              (λ k. absurd (ground (arith, o, k))) (λ k. passed_on f o (ground (arith, n))))
