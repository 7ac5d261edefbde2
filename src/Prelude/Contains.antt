-- ===== src/Prelude/Contains.antt =====
-- Membership as a test, through the operations on lists.
use mathlib.Core.Path.{◌≡◌, refl, ◌∙◌, ap}
use mathlib.Core.Logic.{inl, inr}
use mathlib.Core.Bool.{true, false, ◌||◌}
use mathlib.Core.List.{List, [], ◌∷◌, ◌++◌, map}
use native.Mathlib.Omega.{arith}
use asm_dataset_nix.Prelude.Tests.{Bool-cases}
use asm_dataset_nix.Prelude.Classes.{Eq, ◌==◌, contains}
use asm_dataset_nix.Prelude.Lists.{All}
use asm_dataset_nix.Prelude.Order.{TotalOrder}
use asm_dataset_nix.Prelude.Sorting.{insert_by, sorted_by, IsSortedBy}

module _ {ℓ} {A : Type ℓ} ⦃e : Eq A⦄ where
  pub contains-append :
      (a : A) (xs ys : List A) → contains a (xs ++ ys) ≡ (contains a xs || contains a ys)
  contains-append a [] ys = refl
  contains-append a (x ∷ xs) ys = ground (arith, contains-append a xs ys)

  -- A property of every item holds of one that is there.
  pub All-contains {κ} :
      (P : A → Type κ) (a : A) (xs : List A) → All P xs → contains a xs ≡ true → P a
  All-contains P a [] h m = absurd (cc m)
  All-contains P a (x ∷ xs) h m = elim (Bool-cases (x == a)) [
    | inl same ↦ rw (← (e.eqb_iff x a).0 same) h.0
    | inr other ↦ All-contains P a xs h.1 (ground arith)
  ]

  -- A property of every item that is there.
  pub contains-All {κ} :
      (P : A → Type κ) (xs : List A) → ((a : A) → contains a xs ≡ true → P a) → All P xs
  contains-All P [] h = tt
  contains-All P (x ∷ xs) h =
      (h x (ground (arith, (e.eqb_iff x x).1 refl)), contains-All P xs (λ a m. h a (ground arith)))

  -- Each item occurs once.
  abbrev pub IsDistinct : List A → Type 0
  IsDistinct [] = Unit
  IsDistinct (x ∷ xs) = (contains x xs ≡ false) × IsDistinct xs

  module _ {κ} {K : Type κ} (o : TotalOrder K) (key : A → K) where
    contains-insert_by :
        (a x : A) (xs : List A) → contains a (insert_by o key x xs) ≡ (x == a || contains a xs)
    unfolding insert_by
    contains-insert_by a x [] = refl
    contains-insert_by a x (y ∷ ys) = ground (arith, contains-insert_by a x ys)

    pub contains-sorted_by : (a : A) (xs : List A) → contains a (sorted_by o key xs) ≡ contains a xs
    unfolding sorted_by
    contains-sorted_by a [] = refl
    contains-sorted_by a (x ∷ xs) =
        ground (arith, contains-insert_by a x (sorted_by o key xs), contains-sorted_by a xs)

    insert_by-IsDistinct :
        (x : A) (xs : List A)
        → contains x xs ≡ false
        → IsDistinct xs
        → IsDistinct (insert_by o key x xs)
    unfolding insert_by
    insert_by-IsDistinct x [] h s = (refl, tt)
    insert_by-IsDistinct x (y ∷ ys) h s =
        ground (
          arith,
          contains-insert_by y x ys,
          insert_by-IsDistinct x ys,
          e.eqb_iff x y,
          e.eqb_iff y x,
        )

    pub sorted_by-IsDistinct : (xs : List A) → IsDistinct xs → IsDistinct (sorted_by o key xs)
    unfolding sorted_by
    sorted_by-IsDistinct [] s = tt
    sorted_by-IsDistinct (x ∷ xs) s =
        insert_by-IsDistinct x (sorted_by o key xs) (contains-sorted_by x xs ∙ s.0)
          (sorted_by-IsDistinct xs s.1)

-- The keys of a sorted list are the sorted keys.
module _ {ℓ κ} {A : Type ℓ} {K : Type κ} (o : TotalOrder K) (key : A → K) where
  map-insert_by :
      (x : A) (xs : List A)
      → map key (insert_by o key x xs) ≡ insert_by o (λ k. k) (key x) (map key xs)
  unfolding insert_by
  map-insert_by x [] = refl
  map-insert_by x (y ∷ ys) = elim (Bool-cases (o.le (key x) (key y))) [
    | inl e ↦ rw e
    | inr e ↦ rw e (ap (λ t. key y ∷ t) (map-insert_by x ys))
  ]

  pub map-sorted_by :
      (xs : List A) → map key (sorted_by o key xs) ≡ sorted_by o (λ k. k) (map key xs)
  unfolding sorted_by
  map-sorted_by [] = refl
  map-sorted_by (x ∷ xs) =
      map-insert_by x (sorted_by o key xs) ∙ ap (insert_by o (λ k. k) (key x)) (map-sorted_by xs)

-- A sorted list has the same images.
module _ {ℓ κ μ} {A : Type ℓ} {K : Type κ} {B : Type μ} ⦃e : Eq B⦄ (o : TotalOrder K) (key : A → K)
    (f : A → B) where
  contains-map-insert_by :
      (b : B) (x : A) (xs : List A)
      → contains b (map f (insert_by o key x xs)) ≡ (f x == b || contains b (map f xs))
  unfolding insert_by
  contains-map-insert_by b x [] = refl
  contains-map-insert_by b x (y ∷ ys) = ground (arith, contains-map-insert_by b x ys)

  pub contains-map-sorted_by :
      (b : B) (xs : List A) → contains b (map f (sorted_by o key xs)) ≡ contains b (map f xs)
  unfolding sorted_by
  contains-map-sorted_by b [] = refl
  contains-map-sorted_by b (x ∷ xs) =
      ground (arith, contains-map-insert_by b x (sorted_by o key xs), contains-map-sorted_by b xs)

-- Two sorted lists that hold each item once, and the same items, are one list.
module _ {ℓ} {A : Type ℓ} ⦃e : Eq A⦄ (o : TotalOrder A) where
  abbrev id : A → A
  id a = a

  head_eq :
      (x y : A) (xs ys : List A)
      → IsSortedBy o id (x ∷ xs)
      → IsSortedBy o id (y ∷ ys)
      → ((a : A) → contains a (x ∷ xs) ≡ contains a (y ∷ ys))
      → x ≡ y
  head_eq x y xs ys s t h = elim (Bool-cases (x == y)) [
    | inl same ↦ (e.eqb_iff x y).0 same
    | inr other ↦
        o.antisym x y
          (All-contains (λ z. o.le x z ≡ true) y xs s.0
            (ground (arith, h y, (e.eqb_iff y y).1 refl)))
          (All-contains (λ z. o.le y z ≡ true) x ys t.0
            (ground (arith, h x, (e.eqb_iff x x).1 refl, e.eqb_iff x y, e.eqb_iff y x)))
  ]

  pub sorted_unique :
      (xs ys : List A)
      → IsSortedBy o id xs
      → IsSortedBy o id ys
      → IsDistinct xs
      → IsDistinct ys
      → ((a : A) → contains a xs ≡ contains a ys)
      → xs ≡ ys
  sorted_unique [] [] s t u v h = refl
  sorted_unique [] (y ∷ ys) s t u v h = absurd (ground (arith, h y, (e.eqb_iff y y).1 refl))
  sorted_unique (x ∷ xs) [] s t u v h = absurd (ground (arith, h x, (e.eqb_iff x x).1 refl))
  sorted_unique (x ∷ xs) (y ∷ ys) s t u v h =
      let p = head_eq x y xs ys s t h in
      ground (arith, p, sorted_unique xs ys s.1 t.1 u.1 v.1 (rest p))
    where
      rest : x ≡ y → (a : A) → contains a xs ≡ contains a ys
      rest p a = elim (Bool-cases (x == a)) [
        | inl same ↦ ground (arith, (e.eqb_iff x a).0 same, u.0, v.0)
        | inr other ↦ ground (arith, h a, e.eqb_iff y a, e.eqb_iff x a)
      ]
