-- ===== src/Prelude/Count.antt =====
-- The number of items with a property, and the sizes of dicts.
use Prim.Native.Nat.{ℕ, suc, ◌+◌, ◌≤◌}
use mathlib.Core.Path.{◌≡◌, refl}
use mathlib.Core.Bool.{Bool, true, false, not}
use mathlib.Core.List.{List, [], ◌∷◌, ◌++◌, map}
use native.Mathlib.Omega.{arith}
use asm_dataset_nix.Prelude.Tests.{if◌then◌else◌}
use asm_dataset_nix.Prelude.Classes.{Eq, ◌==◌, contains}
use asm_dataset_nix.Prelude.Lists.{All, length}
use asm_dataset_nix.Prelude.Dict.{Dict, keys, put, remove}
use asm_dataset_nix.Prelude.Contains.{IsDistinct}

module _ {ℓ} {A : Type ℓ} where
  abbrev pub count : (A → Bool) → List A → ℕ
  count p [] = 0
  count p (x ∷ xs) = if p x then suc (count p xs) else count p xs

  pub count-append : (p : A → Bool) (xs ys : List A) → count p (xs ++ ys) ≡ count p xs + count p ys
  count-append p [] ys = omega arith
  count-append p (x ∷ xs) ys = ground (arith, count-append p xs ys)

  pub count_none : (p : A → Bool) (xs : List A) → All (λ x. p x ≡ false) xs → count p xs ≡ 0
  count_none p [] h = refl
  count_none p (x ∷ xs) h = ground (arith, h.0, count_none p xs h.1)

  pub All_of_count :
      (p : A → Bool) (xs : List A) → count (λ x. not (p x)) xs ≡ 0 → All (λ x. p x ≡ true) xs
  All_of_count p [] h = tt
  All_of_count p (x ∷ xs) h = (ground arith, All_of_count p xs (ground arith))

module _ {ℓ κ} {A : Type ℓ} {K : Type κ} ⦃e : Eq K⦄ (key : A → K) where
  pub contains_of_count :
      (k : K) (xs : List A) → count (λ x. key x == k) xs ≡ 0 → contains k (map key xs) ≡ false
  contains_of_count k [] h = refl
  contains_of_count k (x ∷ xs) h = ground (arith, contains_of_count k xs)

  pub count_of_contains :
      (k : K) (xs : List A) → contains k (map key xs) ≡ false → count (λ x. key x == k) xs ≡ 0
  count_of_contains k [] h = refl
  count_of_contains k (x ∷ xs) h = ground (arith, count_of_contains k xs)

  pub IsDistinct-of_count :
      (xs : List A) → ((k : K) → count (λ x. key x == k) xs ≤ 1) → IsDistinct (map key xs)
  IsDistinct-of_count [] h = tt
  IsDistinct-of_count (x ∷ xs) h = (
    contains_of_count (key x) xs (ground (arith, h (key x), (e.eqb_iff (key x) (key x)).1 refl)),
    IsDistinct-of_count xs (λ k. ground (arith, h k)),
  )

  pub count_of_distinct :
      (k : K) (xs : List A) → IsDistinct (map key xs) → count (λ x. key x == k) xs ≤ 1
  count_of_distinct k [] h = omega arith
  count_of_distinct k (x ∷ xs) h =
      ground (arith, e.eqb_iff (key x) k, count_of_contains k xs, count_of_distinct k xs h.1, h.0)

module _ {ℓ κ} {K : Type ℓ} {V : Type κ} ⦃e : Eq K⦄ where
  pub length-put :
      (k : K) (v : V) (d : Dict K V)
      → length (put k v d) ≡ (if contains k (keys d) then length d else suc (length d))
  unfolding put
  length-put k v [] = refl
  length-put k v ((j, w) ∷ d) = ground (arith, length-put k v d)

  pub contains-keys-put :
      (a k : K) (v : V) (d : Dict K V)
      → contains a (keys (put k v d)) ≡ (if k == a then true else contains a (keys d))
  unfolding put
  contains-keys-put a k v [] = ground arith
  contains-keys-put a k v ((j, w) ∷ d) =
      ground (arith, contains-keys-put a k v d, e.eqb_iff j k, e.eqb_iff j a, e.eqb_iff k a)

  pub length-remove : (k : K) (d : Dict K V) → length (remove k d) ≤ length d
  unfolding remove
  length-remove k [] = omega arith
  length-remove k ((j, w) ∷ d) = ground (arith, length-remove k d)
