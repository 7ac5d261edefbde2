-- ===== src/Planner.antt =====
-- The package dependency_graph_planner. Graph, Descriptors and Shapes hold its data; Cycle models
-- cycle.py, Cell plan_cell.py, Meta plan_meta.py and Total plan_total.py.
pub mod Graph
pub mod Cycle
pub mod Acyclic
pub mod Coloring
pub mod Walking
pub mod Checking
pub mod Descriptors
pub mod Shapes
pub mod Cell
pub mod Meta
pub mod Total
pub mod Gates
pub mod CellGates
pub mod Extras
pub mod MetaPass
pub mod Binary
pub mod Merging
pub mod Whole
pub mod Refusal
pub mod Coverage
pub mod Included
