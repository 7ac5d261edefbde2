-- ===== src/Planner/Walking.antt =====
-- One round of the cycle check's walk keeps the invariant and lessens the work, and so the walk
-- from a node ends.
use asm_dataset_nix.Prelude.{
  ℕ, zero, suc, ◌+◌, ◌<◌, ◌≡◌, ◌≢◌, ◌∙◌, ◌⊎◌, inl, inr, refl, sym, none, some, List, [], ◌∷◌,
  length, set, length-set, get_or-set_self, Option-cases, arith,
}
use asm_dataset_nix.Prelude.Int.{pos, negsuc}
use asm_dataset_nix.Planner.Graph.{
  Child, int_child, other_child, Template, children, Edge, Route, one, more, Finished, done,
}
use asm_dataset_nix.Planner.Cycle.{
  Color, white, grey, black, Frame, Outcome, clear, cycle_at, out_of_fuel, Step, go, found,
  in_range, frame, enter_colored, enter, round, dfs,
}
use asm_dataset_nix.Planner.Acyclic.{Occurs-reverse, length-reverse}
use asm_dataset_nix.Planner.Coloring.{
  mark, mark-set, unvisited, unvisited-grey, unvisited-black, pending_work, Inv, KeepsBlack,
  IsStack-keep, IsStack-pop, climb,
}

in_range-none :
    (n : ℕ) (c : Child) (w : ℕ) → in_range n c ≡ none → c ≡ int_child (pos w) → w < n → ⊥
unfolding in_range
in_range-none n (int_child (pos i)) w h e k = ground arith
in_range-none n (int_child (negsuc i)) w h e k = cc
in_range-none n other_child w h e k = cc

in_range-some :
    (n : ℕ) (c : Child) (w : ℕ) → in_range n c ≡ some w → (c ≡ int_child (pos w)) × (w < n)
unfolding in_range
in_range-some n (int_child (pos i)) w h = ground arith
in_range-some n (int_child (negsuc i)) w h = absurd (cc h)
in_range-some n other_child w h = absurd (cc h)

module _ (nodes : Template) where
  abbrev pub work : List Color → List Frame → ℕ
  work color stack = unvisited nodes color + pending_work stack

  -- White nodes were white before.
  abbrev pub OnlyDarkens : List Color → List Color → Type 0
  OnlyDarkens color color' = (w : ℕ) → mark color' w ≡ white → mark color w ≡ white

  abbrev After : List Color → List Frame → Step → Type 0
  After color stack (go color' stack') =
      Inv nodes color' stack' × (work color' stack' < work color stack) × OnlyDarkens color color'
  After color stack (found w) = Route nodes w w

  -- A node with no child pending is finished.
  pop_lem :
      (color : List Color) (v : ℕ) (rest : List Frame)
      → Inv nodes color ((v, []) ∷ rest)
      → After color ((v, []) ∷ rest) (go (set color v black) rest)
  pop_lem color v rest inv =
      let f = inv.frames.0 in
      let there : v < length color = omega (arith, f.node, inv.size) in
      let marks = λ (w : ℕ). mark-set color v w black there in
      let black_now = get_or-set_self color v black white there in
      let v_finished : Finished nodes v = done (λ w e. elim (f.accounted w e) [
        | inl o ↦ absurd o
        | inr r ↦ elim r [ inl b ↦ inv.finished w b | inr a ↦ absurd (cc a) ]
      ]) in
      (
        record {
          size = length-set color v black ∙ inv.size;
          frames =
              IsStack-pop nodes color (set color v black) v rest (keeps marks) black_now
                inv.frames.1;
          on_stack = λ w g. elim (marks w) [
            | inl m ↦ absurd (cc (m.1, g))
            | inr m ↦ elim (inv.on_stack w (sym m.1 ∙ g)) [ inl e ↦ absurd (m.0 e) | inr o ↦ o ]
          ];
          finished = λ w b. elim (marks w) [
            | inl m ↦ rw (← m.0) v_finished
            | inr m ↦ inv.finished w (sym m.1 ∙ b)
          ];
        },
        omega (arith, unvisited-black nodes color v),
        λ w h. elim (marks w) [ inl m ↦ absurd (cc (m.1, h)) | inr m ↦ sym m.1 ∙ h ],
      )
    where
      keeps :
          ((w : ℕ)
            → ((v ≡ w) × (mark (set color v black) w ≡ black))
              ⊎ ((v ≢ w) × (mark (set color v black) w ≡ mark color w)))
          → KeepsBlack nodes color (set color v black)
      keeps marks w b = elim (marks w) [ inl m ↦ m.1 | inr m ↦ m.1 ∙ b ]

  -- A child that needs no visit is dropped.
  drop_lem :
      (color : List Color) (v : ℕ) (c : Child) (cs : List Child) (rest : List Frame)
      → Inv nodes color ((v, c ∷ cs) ∷ rest)
      → ((w : ℕ) → c ≡ int_child (pos w) → w < length nodes → mark color w ≡ black)
      → After color ((v, c ∷ cs) ∷ rest) (go color ((v, cs) ∷ rest))
  drop_lem color v c cs rest inv h =
      let f = inv.frames.0 in
      (
        record {
          size = inv.size;
          frames = (
            record {
              node = f.node;
              from_children = λ w o. f.from_children w (inr o);
              accounted = λ w e. elim (f.accounted w e) [
                | inl o ↦ elim o [ inl same ↦ inr (inl (h w same e.1)) | inr later ↦ inl later ]
                | inr r ↦ inr r
              ];
              linked = f.linked;
            },
            inv.frames.1,
          );
          on_stack = inv.on_stack;
          finished = inv.finished;
        },
        omega arith,
        λ w m. m,
      )

  -- A white child goes on the stack.
  push_lem :
      (color : List Color) (v : ℕ) (c : Child) (cs : List Child) (rest : List Frame) (w : ℕ)
      → Inv nodes color ((v, c ∷ cs) ∷ rest)
      → c ≡ int_child (pos w)
      → w < length nodes
      → mark color w ≡ white
      → After color ((v, c ∷ cs) ∷ rest) (go (set color w grey) (frame nodes w ∷ (v, cs) ∷ rest))
  push_lem color v c cs rest w inv same lt was =
      let f = inv.frames.0 in
      let there : w < length color = omega (arith, lt, inv.size) in
      let marks = λ (u : ℕ). mark-set color w u grey there in
      let keeps : KeepsBlack nodes color (set color w grey) =
        λ u b. elim (marks u) [ inl m ↦ absurd (cc (m.0, was, b)) | inr m ↦ m.1 ∙ b ] in
      (
        record {
          size = length-set color w grey ∙ inv.size;
          frames = (
            record {
              node = lt;
              from_children = λ u o. (Occurs-reverse u (children nodes w)).0 o;
              accounted = λ u e. inl ((Occurs-reverse u (children nodes w)).1 e.0);
              linked = λ u a. absurd (cc a);
            },
            (
              record {
                node = f.node;
                from_children = λ u o. f.from_children u (inr o);
                accounted = λ u e. elim (f.accounted u e) [
                  | inl o ↦ elim o [
                    | inl first ↦ inr (inr (cc (same, first)))
                    | inr later ↦ inl later
                  ]
                  | inr r ↦ elim r [ inl b ↦ inr (inl (keeps u b)) | inr a ↦ absurd (cc a) ]
                ];
                linked = λ u a. let e : w ≡ u = cc a in rw (← e) (f.from_children w (inl same), lt);
              },
              IsStack-keep nodes color (set color w grey) (some v) rest keeps inv.frames.1,
            ),
          );
          on_stack = λ u g. elim (marks u) [
            | inl m ↦ inl m.0
            | inr m ↦ inr (inv.on_stack u (sym m.1 ∙ g))
          ];
          finished = λ u b. elim (marks u) [
            | inl m ↦ absurd (cc (m.1, b))
            | inr m ↦ inv.finished u (sym m.1 ∙ b)
          ];
        },
        omega (
          arith,
          unvisited-grey nodes color w inv.size lt was,
          length-reverse (children nodes w),
        ),
        λ u h. elim (marks u) [ inl m ↦ absurd (cc (m.1, h)) | inr m ↦ sym m.1 ∙ h ],
      )

  round_lem :
      (color : List Color) (v : ℕ) (p : List Child) (rest : List Frame)
      → Inv nodes color ((v, p) ∷ rest)
      → After color ((v, p) ∷ rest) (round nodes color v p rest)
  unfolding round
  round_lem color v [] rest inv = pop_lem color v rest inv
  round_lem color v (c ∷ cs) rest inv = elim (Option-cases (in_range (length nodes) c)) [
    | inl e ↦
        rw (e, enter)
          (drop_lem color v c cs rest inv
            (λ w same lt. absurd (in_range-none (length nodes) c w e same lt)))
    | inr (w, e) ↦
        let (same, lt) = in_range-some (length nodes) c w e in
        rw (e, enter) (visit w same lt (mark color w) refl)
  ]
    where
      visit :
          (w : ℕ)
          → c ≡ int_child (pos w)
          → w < length nodes
          → (m : Color) → mark color w ≡ m
          → After color ((v, c ∷ cs) ∷ rest) (enter_colored nodes m w color ((v, cs) ∷ rest))
      visit w same lt white was = push_lem color v c cs rest w inv same lt was
      visit w same lt grey was =
          let edge : Edge nodes v w = (inv.frames.0.from_children w (inl same), lt) in
          elim (climb nodes color none v (c ∷ cs) rest w inv.frames (inv.on_stack w was)) [
            | inl e ↦ one (rw e at edge)
            | inr r ↦ more r edge
          ]
      visit w same lt black was =
          drop_lem color v c cs rest inv (λ u e k. let e' : w ≡ u = cc (same, e) in rw (← e') was)

  -- What the walk's end means.
  abbrev pub Good : List Color → Outcome → Type 0
  Good color (clear color') = Inv nodes color' [] × OnlyDarkens color color'
  Good color (cycle_at w) = Route nodes w w
  Good color out_of_fuel = ⊥

  darken :
      (color color' : List Color) (o : Outcome)
      → OnlyDarkens color color'
      → Good color' o
      → Good color o
  darken color color' (clear color'') d (inv, d') = (inv, λ w m. d w (d' w m))
  darken color color' (cycle_at w) d r = r
  darken color color' out_of_fuel d f = f

  pub dfs-Good :
      (fuel : ℕ) (color : List Color) (stack : List Frame)
      → Inv nodes color stack
      → work color stack < fuel
      → Good color (dfs nodes fuel color stack)
  unfolding dfs
  dfs-Good zero color stack inv h = absurd (omega arith)
  dfs-Good (suc fuel) color [] inv h = (inv, λ w m. m)
  dfs-Good (suc fuel) color ((v, p) ∷ rest) inv h =
      step (round nodes color v p rest) (round_lem color v p rest inv) (dfs-Good fuel)
    where
      step :
          (st : Step)
          → After color ((v, p) ∷ rest) st
          → ((color' : List Color) (stack' : List Frame)
              → Inv nodes color' stack'
              → work color' stack' < fuel
              → Good color' (dfs nodes fuel color' stack'))
          → Good color
              (elim st [ go color' stack' ↦ dfs nodes fuel color' stack' | found w ↦ cycle_at w ])
      step (go color' stack') (inv', less, darker) ih =
          darken color color' (dfs nodes fuel color' stack') darker
            (ih color' stack' inv' (omega (arith, h, less)))
      step (found w) r ih = r
