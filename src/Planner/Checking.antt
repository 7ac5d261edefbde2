-- ===== src/Planner/Checking.antt =====
-- The cycle check of all templates: it ends, passes exactly when no template has a cycle, and
-- names one in the first template that has.
use asm_dataset_nix.Prelude.{
  ℕ, zero, suc, ◌+◌, ◌≤◌, ◌<◌, ◌≡◌, ◌≢◌, ◌∙◌, inl, inr, refl, sym, some, List, [], ◌∷◌, length,
  length-map, get_elem?, take, set, length-set, All, Bool-cases, nat_beq, nat_beq_iff, arith,
}
use asm_dataset_nix.Prelude.Result.{Result, ok, err, ◌>>◌}
use asm_dataset_nix.Planner.Graph.{Template, children, Route, one, more, Finished}
use asm_dataset_nix.Planner.Cycle.{
  Color, white, grey, black, Outcome, clear, cycle_at, out_of_fuel, Failure, raised, no_fuel, frame,
  weight, dfs_from, after_dfs, check_start, check_from, all_white, check_templates, check_no_cycles,
}
use asm_dataset_nix.Planner.Acyclic.{Finished-no_cycle, Occurs-reverse, length-reverse}
use asm_dataset_nix.Planner.Coloring.{mark, mark-set, unvisited, unvisited-grey, Inv}
use asm_dataset_nix.Planner.Walking.{Good, dfs-Good}

abbrev pub IsAcyclic : Template → Type 0
IsAcyclic nodes = (v : ℕ) → Route nodes v v → ⊥

Route-lt : {nodes : Template} {u v : ℕ} → Route nodes u v → v < length nodes
Route-lt (one e) = e.1
Route-lt (more r e) = e.1

unvisited-le_weight : (nodes : Template) (color : List Color) → unvisited nodes color ≤ weight nodes
unvisited-le_weight [] color = omega arith
unvisited-le_weight (x ∷ xs) [] = omega arith
unvisited-le_weight (x ∷ xs) (white ∷ cs) = omega (arith, unvisited-le_weight xs cs)
unvisited-le_weight (x ∷ xs) (grey ∷ cs) = omega (arith, unvisited-le_weight xs cs)
unvisited-le_weight (x ∷ xs) (black ∷ cs) = omega (arith, unvisited-le_weight xs cs)

mark-all_white : (nodes : Template) (v : ℕ) → mark (all_white nodes) v ≡ white
mark-all_white [] v = refl
mark-all_white (x ∷ xs) zero = refl
mark-all_white (x ∷ xs) (suc v) = mark-all_white xs v

Inv-all_white : (nodes : Template) → Inv nodes (all_white nodes) []
Inv-all_white nodes = record {
  size = length-map _ nodes;
  frames = tt;
  on_stack = λ v g. absurd (cc (mark-all_white nodes v, g));
  finished = λ v b. absurd (cc (mark-all_white nodes v, b));
}

module _ (tmpl_id : ℕ) (nodes : Template) where
  Inv-start :
      (color : List Color) (start : ℕ)
      → Inv nodes color []
      → start < length nodes
      → mark color start ≡ white
      → Inv nodes (set color start grey) (frame nodes start ∷ [])
  Inv-start color start inv lt was =
      let marks = λ (u : ℕ). mark-set color start u grey (omega (arith, lt, inv.size)) in
      record {
        size = length-set color start grey ∙ inv.size;
        frames = (
          record {
            node = lt;
            from_children = λ u o. (Occurs-reverse u (children nodes start)).0 o;
            accounted = λ u e. inl ((Occurs-reverse u (children nodes start)).1 e.0);
            linked = λ u a. absurd (cc a);
          },
          tt,
        );
        on_stack = λ u g. elim (marks u) [
          | inl m ↦ inl m.0
          | inr m ↦ absurd (inv.on_stack u (sym m.1 ∙ g))
        ];
        finished = λ u b. elim (marks u) [
          | inl m ↦ absurd (cc (m.1, b))
          | inr m ↦ inv.finished u (sym m.1 ∙ b)
        ];
      }

  dfs_from-Good :
      (color : List Color) (start : ℕ)
      → Inv nodes color []
      → start < length nodes
      → mark color start ≡ white
      → Good nodes (set color start grey) (dfs_from nodes start color)
  unfolding dfs_from
  dfs_from-Good color start inv lt was =
      dfs-Good nodes (suc (weight nodes)) (set color start grey) (frame nodes start ∷ [])
        (Inv-start color start inv lt was)
        (omega (
          arith,
          unvisited-grey nodes color start inv.size lt was,
          length-reverse (children nodes start),
          unvisited-le_weight nodes color,
        ))

  -- No node below `start` is white.
  abbrev Behind : ℕ → List Color → Type 0
  Behind start color = (v : ℕ) → v < start → mark color v ≢ white

  abbrev Checked : Result Failure (List Color) → Type 0
  Checked (ok color) = (v : ℕ) → v < length nodes → Finished nodes v
  Checked (err (raised e)) = (e.tmpl_id ≡ tmpl_id) × Route nodes e.child e.child
  Checked (err no_fuel) = ⊥

  at_the_end :
      (color : List Color)
      → Inv nodes color []
      → Behind (length nodes) color
      → (v : ℕ) → v < length nodes
      → Finished nodes v
  at_the_end color inv b v lt = by_mark (mark color v) refl
    where
      by_mark : (m : Color) → mark color v ≡ m → Finished nodes v
      by_mark white e = absurd (b v lt e)
      by_mark grey e = absurd (inv.on_stack v e)
      by_mark black e = inv.finished v e

  Behind-next :
      (color : List Color) (start : ℕ)
      → Behind start color
      → mark color start ≢ white
      → Behind (start + 1) color
  Behind-next color start b h v lt w = elim (Bool-cases (nat_beq v start)) [
    | inl same ↦ let e : v ≡ start = (nat_beq_iff v start).0 same in h (rw e at w)
    | inr other ↦ b v (ground arith) w
  ]

  abbrev Next : ℕ → (List Color → Result Failure (List Color)) → Type 0
  Next start next =
      (color : List Color) → Inv nodes color [] → Behind start color → Checked (next color)

  after_dfs-Checked :
      (color : List Color) (start : ℕ) (o : Outcome)
      (next : List Color → Result Failure (List Color))
      → start < length color
      → Behind start color
      → Good nodes (set color start grey) o
      → Next (start + 1) next
      → Checked (after_dfs tmpl_id start o next)
  unfolding after_dfs
  after_dfs-Checked color start (clear c) next lt b (inv, d) h = h c inv (λ v k w.
      elim (mark-set color start v grey lt) [
        | inl m ↦ cc (m.1, d v w)
        | inr m ↦ b v (below v k m.0) (sym m.1 ∙ d v w)
      ])
    where
      below : (v : ℕ) → v < start + 1 → start ≢ v → v < start
      below v k other = elim (Bool-cases (nat_beq start v)) [
        | inl same ↦ absurd (other ((nat_beq_iff start v).0 same))
        | inr e ↦ ground arith
      ]
  after_dfs-Checked color start (cycle_at w) next lt b r h = (refl, r)
  after_dfs-Checked color start out_of_fuel next lt b f h = f

  check_start-Checked :
      (start : ℕ) (m : Color) (color : List Color) (next : List Color → Result Failure (List Color))
      → start < length nodes
      → mark color start ≡ m
      → Inv nodes color []
      → Behind start color
      → Next (start + 1) next
      → Checked (check_start tmpl_id nodes start m color next)
  unfolding check_start
  check_start-Checked start white color next lt e inv b h =
      after_dfs-Checked color start (dfs_from nodes start color) next (omega (arith, inv.size)) b
        (dfs_from-Good color start inv lt e) h
  check_start-Checked start grey color next lt e inv b h =
      h color inv (Behind-next color start b (λ w. cc (w, e)))
  check_start-Checked start black color next lt e inv b h =
      h color inv (Behind-next color start b (λ w. cc (w, e)))

  check_from-Checked :
      (k start : ℕ) (color : List Color)
      → start + k ≡ length nodes
      → Inv nodes color []
      → Behind start color
      → Checked (check_from tmpl_id nodes start k color)
  unfolding check_from
  check_from-Checked zero start color e inv b =
      let same : start ≡ length nodes = omega arith in at_the_end color inv (rw (← same) b)
  check_from-Checked (suc k) start color e inv b =
      check_start-Checked start (mark color start) color _ (omega (arith, e)) refl inv b
        (λ c i d. check_from-Checked k (start + 1) c (omega (arith, e)) i d)

-- What the check's end says of the templates from the number `first` on.
abbrev pub Verdict : ℕ → List Template → Result Failure (Unit {0}) → Type 0
Verdict first templates (ok _) = All IsAcyclic templates
Verdict first templates (err (raised e)) =
    (nodes : Template) × (i : ℕ) × (e.tmpl_id ≡ first + i)
    × (get_elem? templates i ≡ some nodes)
    × Route nodes e.child e.child
    × All IsAcyclic (take i templates)
Verdict first templates (err no_fuel) = ⊥

check_templates-Verdict :
    (first : ℕ) (templates : List Template)
    → Verdict first templates (check_templates first templates)
unfolding check_templates
check_templates-Verdict first [] = tt
check_templates-Verdict first (nodes ∷ rest) =
    both (check_from first nodes 0 (length nodes) (all_white nodes))
      (check_from-Checked first nodes (length nodes) 0 (all_white nodes) (omega arith)
        (Inv-all_white nodes) (λ v h. absurd (omega (arith, h))))
      (check_templates (first + 1) rest) (check_templates-Verdict (first + 1) rest)
  where
    both :
        (r : Result Failure (List Color))
        → Checked first nodes r
        → (s : Result Failure (Unit {0})) → Verdict (first + 1) rest s
        → Verdict first (nodes ∷ rest) (r >> s)
    both (ok c) f (ok _) g = (λ v r. Finished-no_cycle nodes v (f v (Route-lt r)) r, g)
    both (ok c) f (err (raised e)) (found, i, id, there, route, before) = (
      found,
      suc i,
      omega (arith, id),
      there,
      route,
      (λ v r. Finished-no_cycle nodes v (f v (Route-lt r)) r, before),
    )
    both (ok c) f (err no_fuel) g = g
    both (err (raised e)) (id, route) s g = (nodes, 0, omega (arith, id), refl, route, tt)
    both (err no_fuel) f s g = f

-- The check of any templates ends; it passes only templates without a cycle, and the error that it
-- raises names a template and a node on a cycle of it, and no template before has a cycle.
pub check_no_cycles-Verdict :
    (templates : List Template) → Verdict 0 templates (check_no_cycles templates)
unfolding check_no_cycles
check_no_cycles-Verdict templates = check_templates-Verdict 0 templates
