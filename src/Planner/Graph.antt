-- ===== src/Planner/Graph.antt =====
-- The templates that dependency_graph_planner reads, in the planner's own shape: a template is its
-- `nodes`, and a node's number is its place.
use asm_dataset_nix.Prelude.{ℕ, zero, suc, String, ◌<◌, ◌≡◌, ◌⊎◌, List, [], ◌∷◌, length}
use asm_dataset_nix.Prelude.Int.{ℤ, pos}

-- An entry of `child_ids`: an integer, or anything else.
pub data Child : Type 0 where
  int_child : ℤ → Child
  other_child : Child

pub record TemplateNode : Type 0 where
  pub name : String
  pub child_ids : List Child

abbrev pub Template : Type 0
Template = List TemplateNode

-- `nodes[v].child_ids`
abbrev pub children : Template → ℕ → List Child
children [] v = []
children (x ∷ xs) zero = x.child_ids
children (x ∷ xs) (suc v) = children xs v

abbrev pub Occurs : ℕ → List Child → Type 0
Occurs w [] = ⊥
Occurs w (c ∷ cs) = (c ≡ int_child (pos w)) ⊎ Occurs w cs

-- Children out of range are no nodes.
abbrev pub Edge : Template → ℕ → ℕ → Type 0
Edge nodes v w = Occurs w (children nodes v) × (w < length nodes)

-- The paths of one edge or more.
pub data Route (nodes : Template) (u : ℕ) : ℕ → Type 0 where
  one : {v : ℕ} → Edge nodes u v → Route nodes u v
  more : {v w : ℕ} → Route nodes u v → Edge nodes v w → Route nodes u w

-- No path goes on for ever from here.
pub data Finished (nodes : Template) : ℕ → Type 0 where
  done : {v : ℕ} → ((w : ℕ) → Edge nodes v w → Finished nodes w) → Finished nodes v
