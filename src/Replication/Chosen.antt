-- ===== src/Replication/Chosen.antt =====
-- The targets that `_push_attempt_locked` chooses.
use asm_dataset_nix.Prelude.{
  string_eq, ℕ, ◌≤◌, ◌≡◌, String, Bool, true, false, not, ◌&&◌, List, [], ◌∷◌, length, ◌==◌,
  ==_refl, contains, All, All-map, arith,
}
use asm_dataset_nix.Prelude.Dict.{keys}
use asm_dataset_nix.Prelude.Contains.{IsDistinct}
use asm_dataset_nix.Prelude.Count.{
  count, count_none, All_of_count, IsDistinct-of_count, count_of_distinct,
}
use asm_dataset_nix.Replication.Context.{PeerInfo, Context, SampleLaws, minus}
use asm_dataset_nix.Replication.Sender.{Sender, slots, placed, candidates, is_candidate, min}
use asm_dataset_nix.Replication.Offers.{ids}

-- A target that an attempt for `outpath` may choose.
pub record IsFresh (ctx : Context) (outpath : String) (excludes in_flight : List String)
    (target : String) : Type 0 where
  pub is_peer : contains target (ids ctx.get_peers) ≡ true
  pub not_self : (target == ctx.my_secondary_id) ≡ false
  pub not_holder : contains target (minus excludes (placed outpath ctx)) ≡ false
  pub not_in_flight : contains target in_flight ≡ false
  pub not_excluded : contains target excludes ≡ false

module _ (me : String) (holders in_flight excludes : List String) where
  candidates-All :
      (known : List String) (ps : List PeerInfo)
      → All (λ p. contains p.secondary_id known ≡ true) ps
      → All
          (λ p.
            (is_candidate me holders in_flight excludes p.secondary_id
              && contains p.secondary_id known)
            ≡ true)
          (candidates me holders in_flight excludes ps)
  unfolding candidates
  candidates-All known [] h = tt
  candidates-All known (p ∷ ps) h = ground (arith, h.0, candidates-All known ps h.1)

  count-candidates :
      (k : String) (ps : List PeerInfo)
      → count (λ p. p.secondary_id == k) (candidates me holders in_flight excludes ps)
        ≤ count (λ p. p.secondary_id == k) ps
  unfolding candidates
  count-candidates k [] = omega arith
  count-candidates k (p ∷ ps) = ground (arith, count-candidates k ps)

contains_more :
    (p : PeerInfo) (known : List String) (ps : List PeerInfo)
    → All (λ q. contains q.secondary_id known ≡ true) ps
    → All (λ q. contains q.secondary_id (p.secondary_id ∷ known) ≡ true) ps
contains_more p known = All-map (λ q h. ground (arith, h))

own_toolchains : (ps : List PeerInfo) → All (λ p. contains p.secondary_id (ids ps) ≡ true) ps
own_toolchains [] = tt
own_toolchains (p ∷ ps) =
    (ground (arith, ==_refl p.secondary_id), contains_more p (ids ps) ps (own_toolchains ps))

pub min_le : (m n : ℕ) → (min m n ≤ n) × (min m n ≤ m)
min_le m n = (ground arith, ground arith)

module _ (ctx : Context) (laws : SampleLaws ctx.sample) (outpath : String) (excludes : List String)
    (s : Sender) where
  abbrev pub population : List PeerInfo
  population =
      candidates ctx.my_secondary_id (minus excludes (placed outpath ctx)) (keys (slots outpath s))
        excludes ctx.get_peers

  abbrev pub chosen : ℕ → List PeerInfo
  chosen needed = ctx.sample population (min needed (length population))

  pub length-chosen : (needed : ℕ) → length (chosen needed) ≡ min needed (length population)
  length-chosen needed =
      laws.size population (min needed (length population)) (min_le needed (length population)).0

  abbrev may_choose : PeerInfo → Bool
  may_choose p =
      is_candidate ctx.my_secondary_id (minus excludes (placed outpath ctx))
        (keys (slots outpath s)) excludes p.secondary_id
      && contains p.secondary_id (ids ctx.get_peers)

  IsFresh-of :
      (p : PeerInfo)
      → may_choose p ≡ true
      → IsFresh ctx outpath excludes (keys (slots outpath s)) p.secondary_id
  unfolding is_candidate
  IsFresh-of p h = record {
    is_peer = ground (arith, h);
    not_self = ground (arith, h);
    not_holder = ground (arith, h);
    not_in_flight = ground (arith, h);
    not_excluded = ground (arith, h);
  }

  pub chosen-IsFresh :
      (needed : ℕ)
      → All
          (λ p. IsFresh ctx outpath excludes (keys (slots outpath s)) p.secondary_id)
          (chosen needed)
  chosen-IsFresh needed = All-map IsFresh-of (chosen needed) (
      All_of_count may_choose (chosen needed) (
        omega (
          arith,
          laws.picks (λ p. not (may_choose p)) population (min needed (length population))
              (min_le needed (length population)).0,
          count_none (λ p. not (may_choose p)) population
              (All-map (λ p h. ground (arith, h)) population
                (candidates-All ctx.my_secondary_id (minus excludes (placed outpath ctx))
                  (keys (slots outpath s)) excludes (ids ctx.get_peers) ctx.get_peers
                  (own_toolchains ctx.get_peers))),
        )))

  pub chosen-IsDistinct :
      (needed : ℕ) → IsDistinct (ids ctx.get_peers) → IsDistinct (ids (chosen needed))
  chosen-IsDistinct needed h =
      IsDistinct-of_count (λ p. p.secondary_id) (chosen needed)
        (λ k. omega (
          arith,
          laws.picks (λ p. p.secondary_id == k) population (min needed (length population))
              (min_le needed (length population)).0,
          count-candidates ctx.my_secondary_id (minus excludes (placed outpath ctx))
              (keys (slots outpath s)) excludes k ctx.get_peers,
          count_of_distinct (λ (p : PeerInfo). p.secondary_id) k ctx.get_peers h,
        ))
