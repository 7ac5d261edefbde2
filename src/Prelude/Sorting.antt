-- ===== src/Prelude/Sorting.antt =====
-- Python's `sorted`: the stable sort by a key, which insertion gives.
use mathlib.Core.Path.{◌≡◌}
use mathlib.Core.Logic.{◌⊎◌, inl, inr, ◌↔◌}
use mathlib.Core.Bool.{true, false}
use mathlib.Core.List.{List, [], ◌∷◌, Perm}
use mathlib.Core.List.Perm
use native.Mathlib.Omega.{arith}
use asm_dataset_nix.Prelude.Tests.{if◌then◌else◌, Bool-cases}
use asm_dataset_nix.Prelude.Lists.{All, All-map, Any}
use asm_dataset_nix.Prelude.Order.{TotalOrder}

module _ {ℓ κ} {A : Type ℓ} {K : Type κ} (o : TotalOrder K) (key : A → K) where
  unfoldable pub insert_by : A → List A → List A
  insert_by x [] = x ∷ []
  insert_by x (y ∷ ys) = if o.le (key x) (key y) then x ∷ y ∷ ys else y ∷ insert_by x ys

  -- `sorted(xs, key=key)`
  unfoldable pub sorted_by : List A → List A
  unfolding insert_by
  sorted_by [] = []
  sorted_by (x ∷ xs) = insert_by x (sorted_by xs)

  abbrev pub IsSortedBy : List A → Type (ℓ ⊔ κ)
  IsSortedBy [] = Unit
  IsSortedBy (x ∷ xs) = All (λ y. o.le (key x) (key y) ≡ true) xs × IsSortedBy xs

  insert_by-All {μ} :
      (P : A → Type μ) (x : A) (ys : List A) → P x → All P ys → All P (insert_by x ys)
  unfolding insert_by
  insert_by-All P x [] p h = (p, tt)
  insert_by-All P x (y ∷ ys) p h = elim (Bool-cases (o.le (key x) (key y))) [
    | inl e ↦ rw e (p, h)
    | inr e ↦ rw e (h.0, insert_by-All P x ys p h.1)
  ]

  insert_by-IsSortedBy : (x : A) (ys : List A) → IsSortedBy ys → IsSortedBy (insert_by x ys)
  unfolding insert_by
  insert_by-IsSortedBy x [] h = (tt, tt)
  insert_by-IsSortedBy x (y ∷ ys) h = elim (Bool-cases (o.le (key x) (key y))) [
    | inl e ↦ rw e ((e, All-map (λ z le. o.trans (key x) (key y) (key z) e le) ys h.0), h)
    | inr e ↦ rw e (
      insert_by-All _ x ys (other e (o.total (key x) (key y))) h.0,
      insert_by-IsSortedBy x ys h.1,
    )
  ]
    where
      other :
          o.le (key x) (key y) ≡ false
          → (o.le (key x) (key y) ≡ true) ⊎ (o.le (key y) (key x) ≡ true)
          → o.le (key y) (key x) ≡ true
      other e t = ground arith

  -- The result is in order.
  pub sorted_by-IsSortedBy : (xs : List A) → IsSortedBy (sorted_by xs)
  unfolding sorted_by
  sorted_by-IsSortedBy [] = tt
  sorted_by-IsSortedBy (x ∷ xs) = insert_by-IsSortedBy x (sorted_by xs) (sorted_by-IsSortedBy xs)

  insert_by-perm : (x : A) (ys : List A) → Perm (insert_by x ys) (x ∷ ys)
  unfolding insert_by
  insert_by-perm x [] = Perm.refl (x ∷ [])
  insert_by-perm x (y ∷ ys) = elim (Bool-cases (o.le (key x) (key y))) [
    | inl e ↦ rw e (Perm.refl (x ∷ y ∷ ys))
    | inr e ↦ rw e (Perm.trans (Perm.cons y (insert_by-perm x ys)) (Perm.swap x y ys))
  ]

  -- The result holds the same items, each as often.
  pub sorted_by-perm : (xs : List A) → Perm (sorted_by xs) xs
  unfolding sorted_by
  sorted_by-perm [] = Perm.refl []
  sorted_by-perm (x ∷ xs) =
      Perm.trans (insert_by-perm x (sorted_by xs)) (Perm.cons x (sorted_by-perm xs))

  -- What holds of every item holds of every item of the result.
  pub sorted_by-All {μ} : (P : A → Type μ) (xs : List A) → All P xs → All P (sorted_by xs)
  unfolding sorted_by
  sorted_by-All P [] h = tt
  sorted_by-All P (x ∷ xs) h = insert_by-All P x (sorted_by xs) h.0 (sorted_by-All P xs h.1)

  insert_by-All_back {μ} :
      (P : A → Type μ) (x : A) (ys : List A) → All P (insert_by x ys) → P x × All P ys
  unfolding insert_by
  insert_by-All_back P x [] h = h
  insert_by-All_back P x (y ∷ ys) h = elim (Bool-cases (o.le (key x) (key y))) [
    | inl e ↦ rw e at h
    | inr e ↦
        let h' : P y × All P (insert_by x ys) = rw e at h in
        let (p, ps) = insert_by-All_back P x ys h'.1 in (p, (h'.0, ps))
  ]

  -- And the other way round.
  pub sorted_by-All_back {μ} : (P : A → Type μ) (xs : List A) → All P (sorted_by xs) → All P xs
  unfolding sorted_by
  sorted_by-All_back P [] h = tt
  sorted_by-All_back P (x ∷ xs) h =
      let (p, ps) = insert_by-All_back P x (sorted_by xs) h in (p, sorted_by-All_back P xs ps)

module _ {κ} {A : Type 0} {K : Type κ} (o : TotalOrder K) (key : A → K) (P : A → Type 0) where
  insert_by-Any : (x : A) (ys : List A) → Any P (insert_by o key x ys) ↔ (P x ⊎ Any P ys)
  unfolding insert_by
  insert_by-Any x [] = (λ h. h, λ h. h)
  insert_by-Any x (y ∷ ys) = elim (Bool-cases (o.le (key x) (key y))) [
    | inl e ↦ rw e (λ h. h, λ h. h)
    | inr e ↦
        let (to, from) = insert_by-Any x ys in
        rw e (
          λ h. elim h [
            | inl p ↦ inr (inl p)
            | inr r ↦ elim (to r) [ inl p ↦ inl p | inr q ↦ inr (inr q) ]
          ],
          λ h. elim h [
            | inl p ↦ inr (from (inl p))
            | inr r ↦ elim r [ inl p ↦ inl p | inr q ↦ inr (from (inr q)) ]
          ],
        )
  ]

  -- A sorted list has the same items.
  pub sorted_by-Any : (xs : List A) → Any P (sorted_by o key xs) ↔ Any P xs
  unfolding sorted_by
  sorted_by-Any [] = (λ h. h, λ h. h)
  sorted_by-Any (x ∷ xs) =
      let (to, from) = sorted_by-Any xs in
      let (split, join) = insert_by-Any x (sorted_by o key xs) in
      (
        λ h. elim (split h) [ inl p ↦ inl p | inr q ↦ inr (to q) ],
        λ h. join (elim h [ inl p ↦ inl p | inr q ↦ inr (from q) ]),
      )
