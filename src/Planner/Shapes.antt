-- ===== src/Planner/Shapes.antt =====
-- What dependency_graph_planner/shapes.py reads of the streaming planner's result, in the planner's
-- own shape: the forms that a JSON round trip gives are not modelled, nor hashes that are no ASCII.
use Prim.Native.Char.{code}
use asm_dataset_nix.Prelude.{
  string_eq, pair_eq, Option, none, some, List, [], ◌∷◌, contains, nat_beq, if◌then◌else◌,
}
use asm_dataset_nix.Prelude.{String}
use asm_dataset_nix.Prelude.Int.{ℤ}
use asm_dataset_nix.Prelude.Dict.{Dict, get, or_else}
use asm_dataset_nix.Planner.Graph.{Template}
use asm_dataset_nix.Planner.Descriptors.{texts}

-- `(hash, name)`, where a hash of bytes is its text.
abbrev pub Ident : Type 0
Ident = String × String

-- An entry that is to be an ident: a pair of texts, one text, or anything else.
pub data RawIdent : Type 0 where
  pair : String → String → RawIdent
  text : String → RawIdent
  other_ident : RawIdent

-- `s.split("-", 1)`, if there is a dash.
unfoldable pub split_dash : String → Option (String × String)
split_dash String.[] = none
split_dash (String.◌∷◌ c s) =
    if nat_beq (code c) b'-'
    then some (String.[], s)
    else elim (split_dash s) [ none ↦ none | some (h, n) ↦ some (String.◌∷◌ c h, n) ]

-- `_coerce_ident`
unfoldable pub coerce_ident : RawIdent → Option Ident
unfolding split_dash
coerce_ident (pair h n) = some (h, n)
coerce_ident (text s) = split_dash s
coerce_ident other_ident = none

-- `_ident_to_str`
unfoldable pub ident_to_str : Ident → String
ident_to_str (h, n) = texts (h ∷ "-" ∷ n ∷ [])

-- `convert_toolchain_drvs` and `_toolchain_ident_strs`
unfoldable pub ident_strs : List RawIdent → List String
unfolding coerce_ident ident_to_str
ident_strs [] = []
ident_strs (entry ∷ more) =
    let rest = ident_strs more in
    elim (coerce_ident entry) [ none ↦ rest | some ident ↦ ident_to_str ident ∷ rest ]

-- The loop of `_arch_indep_idents_for_binary`.
unfoldable pub new_idents : List Ident → List RawIdent → List Ident
unfolding coerce_ident
new_idents seen [] = []
new_idents seen (entry ∷ more) = elim (coerce_ident entry) [
  | none ↦ new_idents seen more
  | some ident ↦
      let added = ident ∷ new_idents (ident ∷ seen) more in
      let skipped = new_idents seen more in if contains ident seen then skipped else added
]

-- `_arch_indep_idents_for_binary`
unfoldable pub arch_indep_idents_for_binary : Dict String (List RawIdent) → String → List Ident
unfolding new_idents get
arch_indep_idents_for_binary arch_indep_deps binary =
    new_idents [] (or_else [] (get binary arch_indep_deps))

-- A `VariantArray`, less the `template_id` and the `arch` that its key repeats.
pub record VariantArray : Type 0 where
  pub variants : List String
  pub hashes : List (List RawIdent)

-- The `drv_per_node` of a `MetaTemplate`: one ident, or one for each family.
pub data MetaDrv : Type 0 where
  one_drv : RawIdent → MetaDrv
  by_family : Dict String RawIdent → MetaDrv

-- A `MetaTemplate`, with the keys of its `template_id_per_arch`.
pub record MetaTemplate : Type 0 where
  pub archs : List String
  pub role_at_node : List String
  pub cross_arch_classification : List String
  pub drv_per_node : List MetaDrv

-- A template's number and an arch.
abbrev pub CellKey : Type 0
CellKey = ℤ × String

pub record StreamingResult : Type 0 where
  pub templates : List Template
  pub variant_arrays : Dict CellKey VariantArray
  pub common_deps_per_arch_template : Dict CellKey (Dict ℤ String)
  pub toolchain_node_ids_per_template : Dict ℤ (List ℤ)
  pub toolchain_drvs : List RawIdent
  pub arch_indep_deps : Dict String (List RawIdent)
  pub meta_templates : Dict String (List MetaTemplate)
