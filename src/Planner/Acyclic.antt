-- ===== src/Planner/Acyclic.antt =====
-- The cycle check raises for a cycle and only then, and always ends.
use asm_dataset_nix.Prelude.{
  ℕ, ◌≡◌, ◌⊎◌, inl, inr, refl, ap, List, [], ◌∷◌, length, length-append, ◌↔◌, ◌++◌, arith,
}
use mathlib.Core.List.{reverse, reverse-append}
use asm_dataset_nix.Planner.Graph.{Child, Template, Occurs, Edge, Route, one, more, Finished, done}

-- The first edge of a route, and whether it is all of it.
leave :
    {nodes : Template} {u v : ℕ}
    → Route nodes u v
    → (w : ℕ) × Edge nodes u w × ((w ≡ v) ⊎ Route nodes w v)
leave (one {v} e) = (v, e, inl refl)
leave {nodes} (more {v} {w} r e) =
    let (x, first, rest) = leave r in
    (x, first, elim rest [ inl same ↦ inr (one (rw same e)) | inr s ↦ inr (more s e) ])

-- No cycle passes a node from which every path ends.
pub Finished-no_cycle : (nodes : Template) (v : ℕ) → Finished nodes v → Route nodes v v → ⊥
Finished-no_cycle nodes v (done f) r =
    let (w, e, rest) = leave r in Finished-no_cycle nodes w (f w e) (turn w e rest)
  where
    turn : (w : ℕ) → Edge nodes v w → ((w ≡ v) ⊎ Route nodes w v) → Route nodes w w
    turn w e (inl same) = rw same (one (rw same at e))
    turn w e (inr s) = more s e

pub length-reverse {ℓ} : {A : Type ℓ} (xs : List A) → length (reverse xs) ≡ length xs
length-reverse [] = refl
length-reverse (x ∷ xs) = omega (
  arith,
  ap length (reverse-append (x ∷ []) xs),
  length-append (reverse xs) (x ∷ []),
  length-reverse xs,
)

Occurs-append : (w : ℕ) (cs ds : List Child) → Occurs w (cs ++ ds) ↔ (Occurs w cs ⊎ Occurs w ds)
Occurs-append w [] ds = (inr, λ o. elim o [ inl f ↦ absurd f | inr g ↦ g ])
Occurs-append w (c ∷ cs) ds =
    let (to, from) = Occurs-append w cs ds in
    (
      λ o. elim o [
        | inl e ↦ inl (inl e)
        | inr r ↦ elim (to r) [ inl a ↦ inl (inr a) | inr b ↦ inr b ]
      ],
      λ o. elim o [
        | inl a ↦ elim a [ inl e ↦ inl e | inr r ↦ inr (from (inl r)) ]
        | inr b ↦ inr (from (inr b))
      ],
    )

pub Occurs-reverse : (w : ℕ) (cs : List Child) → Occurs w (reverse cs) ↔ Occurs w cs
Occurs-reverse w [] = (λ o. o, λ o. o)
Occurs-reverse w (c ∷ cs) =
    let (to, from) = Occurs-reverse w cs in
    let (split, join) = Occurs-append w (reverse cs) (c ∷ []) in
    rw (reverse-append (c ∷ []) cs) (
      λ o. elim (split o) [
        | inl a ↦ inr (to a)
        | inr b ↦ elim b [ inl e ↦ inl e | inr f ↦ absurd f ]
      ],
      λ o. elim o [ inl e ↦ join (inr (inl e)) | inr r ↦ join (inl (from r)) ],
    )
