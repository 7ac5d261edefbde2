-- ===== src/Planner/Coloring.antt =====
-- The invariant of the cycle check's walk.
use asm_dataset_nix.Prelude.{
  ℕ, zero, suc, ◌+◌, ◌≤◌, ◌<◌, ◌≡◌, ◌≢◌, ◌⊎◌, inl, inr, refl, Option, none, some, List, [], ◌∷◌,
  length, get_or, set, get_or-set_self, get_or-set_other, nat_beq, nat_beq_iff, Bool-cases, arith,
}
use asm_dataset_nix.Planner.Graph.{
  Child, Template, children, Occurs, Edge, Route, one, more, Finished,
}
use asm_dataset_nix.Planner.Cycle.{Color, white, grey, black, Frame}

abbrev pub mark : List Color → ℕ → Color
mark color v = get_or color v white

-- A mark that is not the default is in range.
pub mark-lt : (color : List Color) (v : ℕ) → mark color v ≢ white → v < length color
mark-lt [] v h = absurd (h refl)
mark-lt (c ∷ cs) zero h = omega arith
mark-lt (c ∷ cs) (suc v) h = omega (arith, mark-lt cs v h)

pub mark-set :
    (color : List Color) (w v : ℕ) (c : Color)
    → w < length color
    → ((w ≡ v) × (mark (set color w c) v ≡ c)) ⊎ ((w ≢ v) × (mark (set color w c) v ≡ mark color v))
mark-set color w v c h = elim (Bool-cases (nat_beq w v)) [
  | inl e ↦
      let same = (nat_beq_iff w v).0 e in
      inl (same, rw (← same) (get_or-set_self color w c white h))
  | inr e ↦
      let other : w ≢ v = λ same. cc ((nat_beq_iff w v).1 same) in
      inr (other, get_or-set_other color w v c white other)
]

-- What the white nodes still cost.
abbrev pub unvisited : Template → List Color → ℕ
unvisited [] color = 0
unvisited (x ∷ xs) [] = 0
unvisited (x ∷ xs) (white ∷ cs) = length x.child_ids + 1 + unvisited xs cs
unvisited (x ∷ xs) (grey ∷ cs) = unvisited xs cs
unvisited (x ∷ xs) (black ∷ cs) = unvisited xs cs

pub unvisited-grey :
    (nodes : Template) (color : List Color) (w : ℕ)
    → length color ≡ length nodes
    → w < length nodes
    → mark color w ≡ white
    → unvisited nodes color ≡ unvisited nodes (set color w grey) + length (children nodes w) + 1
unvisited-grey [] color w h k m = absurd (omega arith)
unvisited-grey (x ∷ xs) [] w h k m = absurd (omega arith)
unvisited-grey (x ∷ xs) (white ∷ cs) zero h k m = omega arith
unvisited-grey (x ∷ xs) (grey ∷ cs) zero h k m = absurd (cc m)
unvisited-grey (x ∷ xs) (black ∷ cs) zero h k m = absurd (cc m)
unvisited-grey (x ∷ xs) (white ∷ cs) (suc w) h k m =
    omega (arith, unvisited-grey xs cs w (omega arith) (omega arith) m)
unvisited-grey (x ∷ xs) (grey ∷ cs) (suc w) h k m =
    unvisited-grey xs cs w (omega arith) (omega arith) m
unvisited-grey (x ∷ xs) (black ∷ cs) (suc w) h k m =
    unvisited-grey xs cs w (omega arith) (omega arith) m

pub unvisited-black :
    (nodes : Template) (color : List Color) (w : ℕ)
    → unvisited nodes (set color w black) ≤ unvisited nodes color
unvisited-black [] color w = omega arith
unvisited-black (x ∷ xs) [] w = omega arith
unvisited-black (x ∷ xs) (white ∷ cs) zero = omega arith
unvisited-black (x ∷ xs) (grey ∷ cs) zero = omega arith
unvisited-black (x ∷ xs) (black ∷ cs) zero = omega arith
unvisited-black (x ∷ xs) (white ∷ cs) (suc w) = omega (arith, unvisited-black xs cs w)
unvisited-black (x ∷ xs) (grey ∷ cs) (suc w) = unvisited-black xs cs w
unvisited-black (x ∷ xs) (black ∷ cs) (suc w) = unvisited-black xs cs w

abbrev pub pending_work : List Frame → ℕ
pending_work [] = 0
pending_work ((v, p) ∷ rest) = length p + 1 + pending_work rest

abbrev pub On : ℕ → List Frame → Type 0
On v [] = ⊥
On v ((u, p) ∷ rest) = (u ≡ v) ⊎ On v rest

module _ (nodes : Template) where
  -- A child of a node on the stack is pending, done, or the node of the frame above.
  abbrev pub Accounted : List Color → Option ℕ → ℕ → List Child → Type 0
  Accounted color above v p =
      (w : ℕ) → Edge nodes v w → Occurs w p ⊎ ((mark color w ≡ black) ⊎ (above ≡ some w))

  pub record IsFrame (color : List Color) (above : Option ℕ) (v : ℕ) (p : List Child) : Type 0 where
    pub node : v < length nodes
    pub from_children : (w : ℕ) → Occurs w p → Occurs w (children nodes v)
    pub accounted : Accounted color above v p
    pub linked : (w : ℕ) → above ≡ some w → Edge nodes v w

  abbrev pub IsStack : List Color → Option ℕ → List Frame → Type 0
  IsStack color above [] = Unit
  IsStack color above ((v, p) ∷ rest) = IsFrame color above v p × IsStack color (some v) rest

  pub record Inv (color : List Color) (stack : List Frame) : Type 0 where
    pub size : length color ≡ length nodes
    pub frames : IsStack color none stack
    pub on_stack : (v : ℕ) → mark color v ≡ grey → On v stack
    pub finished : (v : ℕ) → mark color v ≡ black → Finished nodes v

  -- Black nodes stay black.
  abbrev pub KeepsBlack : List Color → List Color → Type 0
  KeepsBlack color color' = (w : ℕ) → mark color w ≡ black → mark color' w ≡ black

  pub IsStack-keep :
      (color color' : List Color) (above : Option ℕ) (stack : List Frame)
      → KeepsBlack color color'
      → IsStack color above stack
      → IsStack color' above stack
  IsStack-keep color color' above [] k s = tt
  IsStack-keep color color' above ((v, p) ∷ rest) k (f, s) = (
    record {
      node = f.node;
      from_children = f.from_children;
      accounted = λ w e. elim (f.accounted w e) [
        | inl o ↦ inl o
        | inr r ↦ elim r [ inl b ↦ inr (inl (k w b)) | inr a ↦ inr (inr a) ]
      ];
      linked = f.linked;
    },
    IsStack-keep color color' (some v) rest k s,
  )

  pub IsStack-pop :
      (color color' : List Color) (v : ℕ) (stack : List Frame)
      → KeepsBlack color color'
      → mark color' v ≡ black
      → IsStack color (some v) stack
      → IsStack color' none stack
  IsStack-pop color color' v [] k now s = tt
  IsStack-pop color color' v ((u, q) ∷ rest) k now s = (
    record {
      node = s.0.node;
      from_children = s.0.from_children;
      accounted = λ w e. elim (s.0.accounted w e) [
        | inl o ↦ inl o
        | inr b ↦ elim b [
          | inl d ↦ inr (inl (k w d))
          | inr a ↦ let same : v ≡ w = cc a in inr (inl (rw (← same) now))
        ]
      ];
      linked = λ w a. absurd (cc a);
    },
    IsStack-keep color color' (some u) rest k s.1,
  )

  -- A node on the stack is the top, or a route leads from it to the top.
  pub climb :
      (color : List Color) (above : Option ℕ) (v : ℕ) (p : List Child) (rest : List Frame) (w : ℕ)
      → IsStack color above ((v, p) ∷ rest)
      → On w ((v, p) ∷ rest)
      → (v ≡ w) ⊎ Route nodes w v
  climb color above v p rest w s (inl e) = inl e
  climb color above v p [] w s (inr f) = absurd f
  climb color above v p ((x, q) ∷ rest) w s (inr o) =
      let linked = s.1.0.linked v refl in
      inr (elim (climb color (some v) x q rest w s.1 o) [
        | inl e ↦ one (rw (← e) linked)
        | inr r ↦ more r linked
      ])
