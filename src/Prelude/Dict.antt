-- ===== src/Prelude/Dict.antt =====
-- Python's `dict`: an association list in the order of insertion.
use mathlib.Core.Path.{◌≡◌, refl}
use mathlib.Core.Bool.{Bool, true, false, ◌||◌}
use mathlib.Core.Logic.{inl, inr}
use mathlib.Core.Option.{Option, none, some}
use mathlib.Core.List.{List, [], ◌∷◌, map}
use native.Mathlib.Omega.{arith}
use asm_dataset_nix.Prelude.Tests.{if◌then◌else◌, Bool-cases}
use asm_dataset_nix.Prelude.Lists.{All}
use asm_dataset_nix.Prelude.Classes.{Eq, ◌==◌, contains}

abbrev pub Dict {ℓ κ} : Type ℓ → Type κ → Type (ℓ ⊔ κ)
Dict K V = List (K × V)

-- `d.get(k, v)` from `d.get(k)`
abbrev pub or_else {ℓ} : {V : Type ℓ} → V → Option V → V
or_else v none = v
or_else v (some w) = w

abbrev pub is_some {ℓ} : {V : Type ℓ} → Option V → Bool
is_some none = false
is_some (some v) = true

module _ {ℓ κ} {K : Type ℓ} {V : Type κ} where
  -- `d.keys()` and `d.values()`
  abbrev pub keys : Dict K V → List K
  keys d = map (λ p. p.0) d

  abbrev pub values : Dict K V → List V
  values d = map (λ p. p.1) d

module _ {ℓ κ} {K : Type ℓ} {V : Type κ} ⦃e : Eq K⦄ where
  -- `d.get(k)`
  unfoldable pub get : K → Dict K V → Option V
  get k [] = none
  get k ((j, v) ∷ d) = if j == k then some v else get k d

  -- `d[k] = v`: a key keeps its place, a new one goes to the end.
  unfoldable pub put : K → V → Dict K V → Dict K V
  put k v [] = (k, v) ∷ []
  put k v ((j, w) ∷ d) = if j == k then (j, v) ∷ d else (j, w) ∷ put k v d

  -- `d.pop(k, None)`, for the dict that is left.
  unfoldable pub remove : K → Dict K V → Dict K V
  remove k [] = []
  remove k ((j, w) ∷ d) = let rest = remove k d in if j == k then rest else (j, w) ∷ rest

  pub get-put :
      (k j : K) (v : V) (d : Dict K V) → get j (put k v d) ≡ (if k == j then some v else get j d)
  unfolding get put
  get-put k j v [] = refl
  get-put k j v ((i, w) ∷ d) =
      ground (arith, e.eqb_iff k j, e.eqb_iff i k, e.eqb_iff i j, get-put k j v d)

  pub get-remove :
      (k j : K) (d : Dict K V) → get j (remove k d) ≡ (if k == j then none else get j d)
  unfolding get remove
  get-remove k j [] = ground arith
  get-remove k j ((i, w) ∷ d) =
      ground (arith, get-remove k j d, e.eqb_iff i k, e.eqb_iff i j, e.eqb_iff k j)

  pub get-put_same : (k : K) (v : V) (d : Dict K V) → get k (put k v d) ≡ some v
  get-put_same k v d = ground (arith, get-put k k v d, (e.eqb_iff k k).1 refl)

  pub get-remove_same : (k : K) (d : Dict K V) → get k (remove k d) ≡ none
  get-remove_same k d = ground (arith, get-remove k k d, (e.eqb_iff k k).1 refl)

  -- Each key occurs once, as in a real dict.
  abbrev pub IsDict : Dict K V → Type κ
  IsDict [] = Unit
  IsDict ((j, v) ∷ d) = (get j d ≡ none) × IsDict d

  pub put-IsDict : (k : K) (v : V) (d : Dict K V) → IsDict d → IsDict (put k v d)
  unfolding get put
  put-IsDict k v [] h = (refl, tt)
  put-IsDict k v ((j, w) ∷ d) h =
      ground (arith, e.eqb_iff j k, e.eqb_iff k j, get-put k j v d, put-IsDict k v d h.1)

  pub remove-IsDict : (k : K) (d : Dict K V) → IsDict d → IsDict (remove k d)
  unfolding get remove
  remove-IsDict k [] h = tt
  remove-IsDict k ((j, w) ∷ d) h = ground (arith, get-remove k j d, remove-IsDict k d h.1)

  pub contains-keys-put :
      (k j : K) (v : V) (d : Dict K V)
      → contains j (keys (put k v d)) ≡ (k == j || contains j (keys d))
  unfolding put
  contains-keys-put k j v [] = refl
  contains-keys-put k j v ((i, w) ∷ d) =
      ground (
        arith,
        e.eqb_iff i k,
        e.eqb_iff k i,
        e.eqb_iff k j,
        e.eqb_iff i j,
        contains-keys-put k j v d,
      )

  pub contains-keys-get : (k : K) (d : Dict K V) → contains k (keys d) ≡ is_some (get k d)
  unfolding get
  contains-keys-get k [] = refl
  contains-keys-get k ((i, w) ∷ d) = ground (arith, contains-keys-get k d)

  pub All-put {μ} :
      (R : K × V → Type μ) (k : K) (v : V) (d : Dict K V) → R (k, v) → All R d → All R (put k v d)
  unfolding put
  All-put R k v [] r h = (r, tt)
  All-put R k v ((i, w) ∷ d) r h = elim (Bool-cases (i == k)) [
    | inl same ↦ let here : R (i, v) = rw ((e.eqb_iff i k).0 same) r in rw same (here, h.1)
    | inr other ↦ rw other (h.0, All-put R k v d r h.1)
  ]
