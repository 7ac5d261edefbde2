-- ===== src/Prelude/Flat.antt =====
-- Permutations through `map` and concatenation.
use mathlib.Core.Logic.{∥∥₁_elim, ∥∥₁_prop}
use mathlib.Core.List.{List, [], ◌∷◌, ◌++◌, Perm, Permᴰ, perm_middle}
use mathlib.Core.List.Perm

swap_front {ℓ} : {B : Type ℓ} (us vs ws : List B) → Perm (us ++ (vs ++ ws)) (vs ++ (us ++ ws))
swap_front [] vs ws = Perm.refl (vs ++ ws)
swap_front (u ∷ us) vs ws =
    Perm.trans (Perm.cons u (swap_front us vs ws)) (Perm.symm (perm_middle vs (us ++ ws)))

module _ {ℓ κ} {A : Type ℓ} {B : Type κ} where
  -- The lists of `f` on the items of a list, one behind another.
  abbrev pub gather : (A → List B) → List A → List B
  gather f [] = []
  gather f (x ∷ xs) = f x ++ gather f xs

  gather-permᴰ : (f : A → List B) {xs ys : List A} → Permᴰ xs ys → Perm (gather f xs) (gather f ys)
  gather-permᴰ f Permᴰ.nil = Perm.refl []
  gather-permᴰ f (Permᴰ.cons {a} {b} {l₁} {l₂} p q) =
      rw p (Perm.append_left (f b) (gather-permᴰ f q))
  gather-permᴰ f (Permᴰ.swap {a} {b} {a'} {b'} {l} p q) =
      rw (p, q) (swap_front (f b') (f a') (gather f l))
  gather-permᴰ f (Permᴰ.trans p q) = Perm.trans (gather-permᴰ f p) (gather-permᴰ f q)

  pub gather-perm :
      (f : A → List B) {xs ys : List A} → Perm xs ys → Perm (gather f xs) (gather f ys)
  gather-perm f p = ∥∥₁_elim p ∥∥₁_prop (gather-permᴰ f)

  -- Pointwise permutations.
  pub gather_cong :
      (f g : A → List B)
      → ((a : A) → Perm (f a) (g a))
      → (xs : List A) → Perm (gather f xs) (gather g xs)
  gather_cong f g h [] = Perm.refl []
  gather_cong f g h (x ∷ xs) = Perm.append (h x) (gather_cong f g h xs)
