-- ===== src/Tests/HoldingSamples.antt =====
-- Runs of the fulfillability matcher, and its theorem at a concrete input.
use asm_dataset_nix.Prelude.{◌≡◌, refl, true, false, [], ◌∷◌, arith}
use asm_dataset_nix.Json.Dumps.{codes}
use asm_dataset_nix.Holding.{
  store_path, find_all, extract_outpaths_from_unfulfillable_reason, matcher, unfulfillable_reason,
}
use asm_dataset_nix.Holding.Reasons.{IsStorePath, matcher-reason}

two_paths :
    extract_outpaths_from_unfulfillable_reason
      (codes "outpath=/nix/store/a1-x outpath=/nix/store/-y outpath=/nix/store/b-z\nq")
    ≡ codes "/nix/store/a1-x" ∷ codes "/nix/store/b-z" ∷ []
unfolding extract_outpaths_from_unfulfillable_reason
two_paths = refl

no_reason : matcher [] (("p", codes "/nix/store/a-x" ∷ []) ∷ []) ≡ false
unfolding matcher
no_reason = refl

gcc-IsStorePath : IsStorePath (codes "abc1") (codes "gcc-14")
gcc-IsStorePath = record {
  hash_ok = (refl, (refl, (refl, (refl, tt))));
  name_ok = (refl, (refl, (refl, (refl, (refl, (refl, tt))))));
  hash_size = omega arith;
  name_size = omega arith;
}

matcher-reason_example :
    matcher
      (unfulfillable_reason (store_path (codes "abc1") (codes "gcc-14")) (codes "['s1']"))
      (("p", []) ∷ ("q", codes "/nix/store/abc1-gcc-14" ∷ []) ∷ [])
    ≡ true
unfolding find_all store_path
matcher-reason_example =
    matcher-reason (codes "abc1") (codes "gcc-14") (codes "['s1']")
      (("p", []) ∷ ("q", codes "/nix/store/abc1-gcc-14" ∷ []) ∷ []) gcc-IsStorePath refl
