-- ===== src/Prelude/Order.antt =====
-- Total orders as records, and Python's order of texts: by code points, a prefix first.
use Prim.Native.Char.{code}
use Prim.Native.String.{String, [], ◌∷◌}
use mathlib.Core.Path.{◌≡◌, refl, ap₂}
use mathlib.Core.Logic.{◌⊎◌, inl, inr}
use mathlib.Core.Bool.{Bool, true, false}
use native.Mathlib.Omega.{arith}
use text.Mathlib.TextEquality.{Char-path}
use asm_dataset_nix.Prelude.Tests.{nat_beq, ltb, if◌then◌else◌}
use asm_dataset_nix.Prelude.Classes.{Eq}

pub record TotalOrder {ℓ} (A : Type ℓ) : Type ℓ where
  pub le : A → A → Bool
  pub total : (a b : A) → (le a b ≡ true) ⊎ (le b a ≡ true)
  pub trans : (a b c : A) → le a b ≡ true → le b c ≡ true → le a c ≡ true
  pub antisym : (a b : A) → le a b ≡ true → le b a ≡ true → a ≡ b

unfoldable pub str_le : String → String → Bool
str_le [] t = true
str_le (c ∷ s) [] = false
str_le (c ∷ s) (d ∷ t) =
    if ltb (code c) (code d) then true else if nat_beq (code c) (code d) then str_le s t else false

pub str_le-total : (s t : String) → (str_le s t ≡ true) ⊎ (str_le t s ≡ true)
unfolding str_le
str_le-total [] t = inl refl
str_le-total (c ∷ s) [] = inr refl
str_le-total (c ∷ s) (d ∷ t) = ground (arith, str_le-total s t)

pub str_le_trans : (s t u : String) → str_le s t ≡ true → str_le t u ≡ true → str_le s u ≡ true
unfolding str_le
str_le_trans [] t u p q = refl
str_le_trans (c ∷ s) [] u p q = ground arith
str_le_trans (c ∷ s) (d ∷ t) [] p q = ground arith
str_le_trans (c ∷ s) (d ∷ t) (e ∷ u) p q = ground (arith, str_le_trans s t u)

pub str_le-antisym : (s t : String) → str_le s t ≡ true → str_le t s ≡ true → s ≡ t
unfolding str_le
str_le-antisym [] [] p q = refl
str_le-antisym [] (d ∷ t) p q = ground arith
str_le-antisym (c ∷ s) [] p q = ground arith
str_le-antisym (c ∷ s) (d ∷ t) p q =
    ap₂ ◌∷◌ (Char-path c d (ground arith)) (str_le-antisym s t (ground arith) (ground arith))

abbrev pub str_order : TotalOrder String
str_order = record {
  le = str_le;
  total = str_le-total;
  trans = str_le_trans;
  antisym = str_le-antisym;
}

-- The lexicographic order of pairs, as Python compares tuples.
module _ {ℓ κ} {A : Type ℓ} {B : Type κ} ⦃e : Eq A⦄ (o : TotalOrder A) (r : TotalOrder B) where
  abbrev pub pair_le : A × B → A × B → Bool
  pair_le p q = if e.eqb p.0 q.0 then r.le p.1 q.1 else o.le p.0 q.0

  pub pair_le-total : (p q : A × B) → (pair_le p q ≡ true) ⊎ (pair_le q p ≡ true)
  pair_le-total (a, b) (c, d) =
      ground (arith, e.eqb_iff a c, e.eqb_iff c a, o.total a c, r.total b d)

  pub pair_le_trans : (p q s : A × B) → pair_le p q ≡ true → pair_le q s ≡ true → pair_le p s ≡ true
  pair_le_trans (a, b) (c, d) (x, y) h k = ground (
    arith,
    e.eqb_iff a c,
    e.eqb_iff c x,
    e.eqb_iff a x,
    o.trans a c x,
    r.trans b d y,
    o.antisym a c,
  )

  pub pair_le-antisym : (p q : A × B) → pair_le p q ≡ true → pair_le q p ≡ true → p ≡ q
  pair_le-antisym (a, b) (c, d) h k =
      ground (arith, e.eqb_iff a c, e.eqb_iff c a, o.antisym a c, r.antisym b d)

  abbrev pub pair_order : TotalOrder (A × B)
  pair_order = record {
    le = pair_le;
    total = pair_le-total;
    trans = pair_le_trans;
    antisym = pair_le-antisym;
  }
