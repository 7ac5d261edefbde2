-- ===== src/Holding/Reasons.antt =====
-- The matcher reads back the outpath that a reason was made of.
use mathlib.Core.List.{append_assoc}
use mathlib.Core.Bool.{or-false}
use asm_dataset_nix.Prelude.{
  ℕ, ◌+◌, ◌<◌, String, Bool, ◌≡◌, refl, ap, ◌∙◌, true, false, some, List, [], ◌∷◌, ◌++◌, length,
  All, arith,
}
use asm_dataset_nix.Prelude.Dict.{Dict}
use asm_dataset_nix.Json.Dumps.{Text, codes}
use asm_dataset_nix.Holding.{
  take_while, drop_while, is_hash, is_name, store_path, named, hashed, outpath_at, found, find_all,
  extract_outpaths_from_unfulfillable_reason, is_held, any_held, matcher, unfulfillable_reason,
}

-- A hash and a name of a store path, neither of them empty.
pub record IsStorePath (hash name : Text) : Type 0 where
  pub hash_ok : All (λ c. is_hash c ≡ true) hash
  pub name_ok : All (λ c. is_name c ≡ true) name
  pub hash_size : 0 < length hash
  pub name_size : 0 < length name

module _ (f : ℕ → Bool) (d : ℕ) (stops : f d ≡ false) where
  take_while-append : (xs ys : Text) → All (λ c. f c ≡ true) xs → take_while f (xs ++ d ∷ ys) ≡ xs
  take_while-append [] ys h = rw stops refl
  take_while-append (x ∷ xs) ys h = rw h.0 (ap (λ t. x ∷ t) (take_while-append xs ys h.1))

  drop_while-append :
      (xs ys : Text) → All (λ c. f c ≡ true) xs → drop_while f (xs ++ d ∷ ys) ≡ d ∷ ys
  drop_while-append [] ys h = rw stops refl
  drop_while-append (x ∷ xs) ys h = rw h.0 (drop_while-append xs ys h.1)

-- What a match covers is passed over.
find_all-covered : (xs ys : Text) → find_all (length xs) (xs ++ ys) ≡ find_all 0 ys
unfolding find_all
find_all-covered [] ys = refl
find_all-covered (x ∷ xs) ys = find_all-covered xs ys

module _ (hash name : Text) (p : IsStorePath hash name) (rest : Text) where
  named_path : (h n : Text) → 0 < length h → 0 < length n → named h n ≡ some (store_path h n)
  unfolding named
  named_path h [] k l = absurd (omega (arith, l))
  named_path h (n ∷ ns) k l = refl

  hashed_path :
      (h : Text) → 0 < length h → hashed h (45 ∷ (name ++ 32 ∷ rest)) ≡ some (store_path h name)
  unfolding hashed
  hashed_path [] k = absurd (omega (arith, k))
  hashed_path (h ∷ hs) k =
      rw (take_while-append is_name 32 refl name rest p.name_ok)
        (named_path (h ∷ hs) name k p.name_size)

  -- After `outpath=` a store path matches up to the next space.
  outpath_at-path :
      outpath_at (codes "outpath=" ++ (store_path hash name ++ 32 ∷ rest))
      ≡ some (store_path hash name)
  unfolding outpath_at store_path
  outpath_at-path =
      rw
        (
          append_assoc hash (45 ∷ name) (32 ∷ rest),
          take_while-append is_hash 45 refl hash (name ++ 32 ∷ rest) p.hash_ok,
          drop_while-append is_hash 45 refl hash (name ++ 32 ∷ rest) p.hash_ok,
        )
        (hashed_path hash p.hash_size)

-- A reason gives its outpath first, then what the list of dead holders matches.
extract-reason :
    (hash name dead : Text)
    → IsStorePath hash name
    → extract_outpaths_from_unfulfillable_reason (unfulfillable_reason (store_path hash name) dead)
      ≡ store_path hash name ∷ find_all 0 (codes " dead_holders=" ++ dead)
unfolding extract_outpaths_from_unfulfillable_reason find_all unfulfillable_reason
extract-reason hash name dead p =
    let path = store_path hash name in
    let rest = codes "dead_holders=" ++ dead in
    let covered : 7 + length path ≡ length (codes "utpath=" ++ path) = omega arith in
    ap (λ o. found o (λ n. find_all n (codes "utpath=" ++ (path ++ 32 ∷ rest))))
      (outpath_at-path hash name p rest)
    ∙ ap (λ t. path ∷ t)
        (ap (λ n. find_all n (codes "utpath=" ++ (path ++ 32 ∷ rest))) covered
          ∙ find_all-covered (codes "utpath=" ++ path) (32 ∷ rest))

-- For a reason made of a store path and of dead holders that match nothing, the matcher says whether
-- some peer holds just that path, whatever the peers hold.
pub matcher-reason :
    (hash name dead : Text) (holdings : Dict String (List Text))
    → IsStorePath hash name
    → find_all 0 (codes " dead_holders=" ++ dead) ≡ []
    → matcher (unfulfillable_reason (store_path hash name) dead) holdings
      ≡ is_held holdings (store_path hash name)
unfolding matcher any_held
matcher-reason hash name dead holdings p q =
    ap (any_held holdings) (extract-reason hash name dead p ∙ ap (λ t. store_path hash name ∷ t) q)
    ∙ or-false (is_held holdings (store_path hash name))
