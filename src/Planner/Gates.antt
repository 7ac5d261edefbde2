-- ===== src/Planner/Gates.antt =====
-- Common dependencies as gates, and those of the planner (plan_cell.py) that are gates.
use asm_dataset_nix.Prelude.{
  string_eq, pair_eq, ℕ, ◌+◌, ◌≡◌, refl, Option, none, some, List, [], ◌∷◌, map, get_or, contains,
  All, All-append, ◌==◌, if◌then◌else◌, String, by_guard,
}
use asm_dataset_nix.Prelude.Int.{ℤ, pos, int_eq}
use asm_dataset_nix.Prelude.Order.{str_order}
use asm_dataset_nix.Prelude.Sorting.{sorted_by-All}
use asm_dataset_nix.Prelude.Dict.{Dict, get, or_else}
use asm_dataset_nix.StreamedSpawn.Codec.{Phase4Descriptor}
use asm_dataset_nix.Partition.Frequencies.{set_of}
use asm_dataset_nix.Partition.Envelope.{dedupe_sorted}
use asm_dataset_nix.Planner.Graph.{Template, TemplateNode}
use asm_dataset_nix.Planner.Descriptors.{common_dep_descriptor, arch_indep_descriptor}
use asm_dataset_nix.Planner.Shapes.{Ident, RawIdent, ident_to_str}
use asm_dataset_nix.Planner.Cell.{
  TemplateGraph, CellInputs, arch_indep_all, mint_common_dep, mint_common_deps, representative,
}

-- A common dependency, which waits for no other task of the phase.
abbrev pub IsGate : Phase4Descriptor → Type 0
IsGate d = (d.kind ≡ "build_common_dep") × (d.depends_on ≡ []) × (d.build_compilers_depends_on ≡ [])

-- A variant whose prerequisites have one property, and its toolchains another.
abbrev pub Waits : (String → Type 0) → (String → Type 0) → Phase4Descriptor → Type 0
Waits P Q d = (d.kind ≡ "build_variant") × All P d.depends_on × All Q d.build_compilers_depends_on

abbrev pub ids : List Phase4Descriptor → List String
ids ds = map (λ d. d.task_id) ds

All-set_of : (P : String → Type 0) (xs : List String) → All P xs → All P (set_of xs)
unfolding set_of
All-set_of P [] h = tt
All-set_of P (x ∷ xs) h =
    by_guard (All P) (contains x (set_of xs)) _ _ (λ _. All-set_of P xs h.1)
      (λ _. (h.0, All-set_of P xs h.1))

pub All-dedupe_sorted :
    (P : String → Type 0) (xs : List String) → All P xs → All P (dedupe_sorted xs)
unfolding dedupe_sorted
All-dedupe_sorted P xs h = sorted_by-All str_order (λ s. s) P (set_of xs) (All-set_of P xs h)

pub arch_indep_all-IsGate :
    (g : TemplateGraph) (binary sys_name : String) (idents : List Ident)
    → All IsGate (arch_indep_all g binary sys_name idents)
unfolding arch_indep_all arch_indep_descriptor
arch_indep_all-IsGate g binary sys_name [] = tt
arch_indep_all-IsGate g binary sys_name (ident ∷ more) =
    let rest = arch_indep_all-IsGate g binary sys_name more in
    by_guard (All IsGate) (g.is_source_terminal (g.drv_role ident.1)) _ _ (λ _. rest)
      (λ _. ((refl, refl, refl), rest))

mint_common_dep-IsGate :
    (c : CellInputs) (arch : String) (classes : Dict ℤ String) (toolchain_nodes : List ℤ)
    (node_id : ℕ) (node : TemplateNode) (row : List RawIdent)
    → All IsGate (mint_common_dep c arch classes toolchain_nodes node_id node row)
unfolding mint_common_dep common_dep_descriptor
mint_common_dep-IsGate c arch classes toolchain_nodes node_id node row =
    by_guard (All IsGate) (contains (pos node_id) toolchain_nodes) _ _ (λ _. tt)
      (λ _.
        by_guard (All IsGate) (or_else "" (get (pos node_id) classes) == "common_dep") _ _
          (λ _. minted (representative row)) (λ _. tt))
  where
    minted :
        (o : Option Ident)
        → All IsGate (elim o [
          | none ↦ []
          | some ident ↦
              if contains (ident_to_str ident) c.meta_skip_idents
              then []
              else common_dep_descriptor c.binary arch c.sys_name node_id node.name
                  (ident_to_str ident)
                ∷ []
        ])
    minted none = tt
    minted (some ident) =
        by_guard (All IsGate) (contains (ident_to_str ident) c.meta_skip_idents) _ _ (λ _. tt)
          (λ _. ((refl, refl, refl), tt))

pub mint_common_deps-IsGate :
    (c : CellInputs) (arch : String) (classes : Dict ℤ String) (hashes : List (List RawIdent))
    (toolchain_nodes : List ℤ) (node_id : ℕ) (nodes : Template)
    → All IsGate (mint_common_deps c arch classes hashes toolchain_nodes node_id nodes)
unfolding mint_common_deps
mint_common_deps-IsGate c arch classes hashes toolchain_nodes node_id [] = tt
mint_common_deps-IsGate c arch classes hashes toolchain_nodes node_id (node ∷ nodes) =
    All-append IsGate _ _
      (mint_common_dep-IsGate c arch classes toolchain_nodes node_id node
        (get_or hashes node_id []))
      (mint_common_deps-IsGate c arch classes hashes toolchain_nodes (node_id + 1) nodes)
