-- ===== src/Planner/Cycle.antt =====
-- `_check_no_cycles` of dependency_graph_planner/cycle.py. A pending list is held in the order of
-- its pops, the last child first.
use asm_dataset_nix.Prelude.{
  ℕ, zero, suc, ◌+◌, Option, none, some, List, [], ◌∷◌, map, length, get_or, set, ltb,
  if◌then◌else◌,
}
use asm_dataset_nix.Prelude.Int.{pos}
use asm_dataset_nix.Prelude.Result.{Result, ok, err, ◌>>◌}
use asm_dataset_nix.Planner.Graph.{Child, int_child, Template, TemplateNode, children}
use mathlib.Core.List.{reverse}

pub data Color : Type 0 where
  white : Color
  grey : Color
  black : Color

-- A node on the stack and its pending children.
abbrev pub Frame : Type 0
Frame = ℕ × List Child

pub data Outcome : Type 0 where
  clear : List Color → Outcome
  cycle_at : ℕ → Outcome
  out_of_fuel : Outcome

pub data Step : Type 0 where
  go : List Color → List Frame → Step
  found : ℕ → Step

pub record DependencyGraphCycleError : Type 0 where
  pub tmpl_id : ℕ
  pub child : ℕ
  pub start : ℕ

-- What ends the check: the raised error, or the end of the fuel, which no run meets.
pub data Failure : Type 0 where
  raised : DependencyGraphCycleError → Failure
  no_fuel : Failure

-- The child as a node, unless it is no integer or out of range.
unfoldable pub in_range : ℕ → Child → Option ℕ
in_range n (int_child (pos i)) = if ltb i n then some i else none
in_range n _ = none

abbrev pub frame : Template → ℕ → Frame
frame nodes v = (v, reverse (children nodes v))

module _ (nodes : Template) where
  unfoldable pub enter_colored : Color → ℕ → List Color → List Frame → Step
  enter_colored white w color stack = go (set color w grey) (frame nodes w ∷ stack)
  enter_colored grey w color stack = found w
  enter_colored black w color stack = go color stack

  unfoldable pub enter : Option ℕ → List Color → List Frame → Step
  unfolding enter_colored
  enter none color stack = go color stack
  enter (some w) color stack = enter_colored (get_or color w white) w color stack

  -- One round of the `while` loop, for the frame at the top.
  unfoldable pub round : List Color → ℕ → List Child → List Frame → Step
  unfolding enter in_range
  round color v [] rest = go (set color v black) rest
  round color v (c ∷ cs) rest = enter (in_range (length nodes) c) color ((v, cs) ∷ rest)

  unfoldable pub dfs : ℕ → List Color → List Frame → Outcome
  unfolding round
  dfs zero color stack = out_of_fuel
  dfs (suc fuel) color [] = clear color
  dfs (suc fuel) color ((v, pending) ∷ rest) = elim (round color v pending rest) [
    | go color' stack ↦ dfs fuel color' stack
    | found w ↦ cycle_at w
  ]

-- A round pops a child or a frame, so that twice the nodes and the children are enough.
abbrev pub weight : Template → ℕ
weight [] = 0
weight (x ∷ xs) = length x.child_ids + 1 + weight xs

unfoldable pub dfs_from : Template → ℕ → List Color → Outcome
unfolding dfs
dfs_from nodes start color =
    dfs nodes (suc (weight nodes)) (set color start grey) (frame nodes start ∷ [])

-- What follows the walk from one start.
unfoldable pub after_dfs :
    ℕ → ℕ → Outcome → (List Color → Result Failure (List Color)) → Result Failure (List Color)
after_dfs tmpl_id start (clear color) next = next color
after_dfs tmpl_id start (cycle_at w) next =
    err (raised (record { tmpl_id = tmpl_id; child = w; start = start }))
after_dfs tmpl_id start out_of_fuel next = err no_fuel

-- The body of `for start in range(n)`, by the color of the start.
unfoldable pub check_start :
    ℕ
    → Template
    → ℕ
    → Color
    → List Color
    → (List Color → Result Failure (List Color))
    → Result Failure (List Color)
unfolding after_dfs dfs_from
check_start tmpl_id nodes start white color next =
    after_dfs tmpl_id start (dfs_from nodes start color) next
check_start tmpl_id nodes start grey color next = next color
check_start tmpl_id nodes start black color next = next color

-- The loop from `start` on, with `k` nodes left.
unfoldable pub check_from : ℕ → Template → ℕ → ℕ → List Color → Result Failure (List Color)
unfolding check_start
check_from tmpl_id nodes start zero color = ok color
check_from tmpl_id nodes start (suc k) color =
    check_start tmpl_id nodes start (get_or color start white) color
      (λ color'. check_from tmpl_id nodes (start + 1) k color')

abbrev pub all_white : Template → List Color
all_white nodes = map (λ (_ : TemplateNode). white) nodes

-- The loop over the templates, from the number `tmpl_id` on.
unfoldable pub check_templates : ℕ → List Template → Result Failure (Unit {0})
unfolding check_from
check_templates tmpl_id [] = ok tt
check_templates tmpl_id (nodes ∷ rest) =
    check_from tmpl_id nodes 0 (length nodes) (all_white nodes)
    >> check_templates (tmpl_id + 1) rest

unfoldable pub check_no_cycles : List Template → Result Failure (Unit {0})
unfolding check_templates
check_no_cycles templates = check_templates 0 templates
