-- ===== src/Handoff/Discovered.antt =====
-- The gates that a header waits for, other than those of common dependencies, are discovered.
use mathlib.Core.Option.{some-injective}
use mathlib.Core.List.{map-append}
use asm_dataset_nix.Prelude.{
  string_eq, ◌<◌, String, Bool, not, ◌≡◌, refl, ap, ◌∙◌, true, false, Option, none, some, List, [],
  ◌∷◌, ◌++◌, length, contains, All, All-append, Bool-cases, inl, inr, ◌==◌, ==_iff, ==_refl, ◌||◌,
  ◌&&◌, if◌then◌else◌, arith,
}
use asm_dataset_nix.Prelude.Contains.{contains-append, contains-sorted_by}
use asm_dataset_nix.Prelude.Dict.{Dict, get, values}
use asm_dataset_nix.Prelude.Order.{str_order}
use asm_dataset_nix.Prelude.Sorting.{sorted_by}
use asm_dataset_nix.Prelude.Result.{ok}
use asm_dataset_nix.Json.{Json, str}
use asm_dataset_nix.Handoff.TaskIds.{import_tc_task_id, import_matrix_drv_task_id}
use asm_dataset_nix.Handoff.Headers.{ManifestHeader}
use asm_dataset_nix.Handoff.Tasks.{
  SuitTaskConfig, TaskInfo, fixed_gates, option_list, toolchain_gate, variant_gates,
}
use asm_dataset_nix.Handoff.Gating.{task_ids}
use asm_dataset_nix.Handoff.Discover.{
  import_gate, new_gate, new_gates, binary_key, outpath_key, matrix_gates, toolchain_gates,
  discover_import_gate_tasks,
}

module _ (id_of : String → String) (key_of : String → Option String) where
  module _ (key : String) (go_on : List String → List TaskInfo) where
    here :
        (o : Option String) (seen : List String)
        → o ≡ some key
        → contains key seen ≡ false
        → contains (id_of key) (task_ids (new_gate id_of o seen go_on)) ≡ true
    unfolding new_gate import_gate
    here none seen k s = absurd (cc k)
    here (some j) seen k s =
        let same : j ≡ key = some-injective _ _ k in
        let new : contains j seen ≡ false = rw same s in
        rw (← same) (rw (new_gate, new, ==_refl (id_of j)) refl)

    later :
        (o : Option String) (seen : List String)
        → contains key seen ≡ false
        → ((t : List String)
            → contains key t ≡ false
            → contains (id_of key) (task_ids (go_on t)) ≡ true)
        → contains (id_of key) (task_ids (new_gate id_of o seen go_on)) ≡ true
    unfolding new_gate import_gate
    later none seen s k = k seen s
    later (some j) seen s k = elim (Bool-cases (contains j seen)) [
      | inl old ↦ rw (new_gate, old) (k seen s)
      | inr new ↦ elim (Bool-cases (j == key)) [
        | inl same ↦
            rw (new_gate, new)
              (ground (arith, ap id_of ((==_iff j key).0 same), ==_refl (id_of key)))
        | inr other ↦ rw (new_gate, new) (ground (arith, k (j ∷ seen)))
      ]
    ]

  -- The key of an item of the loop gets its gate, unless it was there before.
  new_gates-covers :
      (xs seen : List String) (x key : String)
      → contains x xs ≡ true
      → key_of x ≡ some key
      → contains key seen ≡ false
      → contains (id_of key) (task_ids (new_gates id_of key_of xs seen)) ≡ true
  unfolding new_gates
  new_gates-covers [] seen x key m k s = absurd (cc m)
  new_gates-covers (y ∷ ys) seen x key m k s = elim (Bool-cases (y == x)) [
    | inl same ↦
        here key (new_gates id_of key_of ys) (key_of y) seen (ap key_of ((==_iff y x).0 same) ∙ k) s
    | inr other ↦
        later key (new_gates id_of key_of ys) (key_of y) seen s
          (λ t. new_gates-covers ys t x key (ground arith) k)
  ]

-- A gate among those that are discovered.
abbrev pub IsDiscovered : SuitTaskConfig → String → Type 0
IsDiscovered c gate_id = contains gate_id (task_ids (discover_import_gate_tasks c)) ≡ true

common-gate :
    (b : Bool) (m : Dict String String)
    → 0 < length m
    → contains "import_common" (task_ids (toolchain_gates b m)) ≡ true
unfolding toolchain_gates import_gate
common-gate b [] h = absurd (omega (arith, h))
common-gate b (p ∷ ps) h = refl

build_deps-gate :
    (m : Dict String String)
    → 0 < length m
    → contains "import_build_deps" (task_ids (toolchain_gates true m)) ≡ true
unfolding toolchain_gates import_gate
build_deps-gate [] h = absurd (omega (arith, h))
build_deps-gate (p ∷ ps) h = refl

outpath-gate :
    (b : Bool) (m : Dict String String) (outpath gate_id : String)
    → contains outpath (values m) ≡ true
    → outpath_key outpath ≡ some gate_id
    → contains gate_id (task_ids (toolchain_gates b m)) ≡ true
unfolding toolchain_gates
outpath-gate b [] outpath gate_id m k = absurd (cc m)
outpath-gate true (p ∷ ps) outpath gate_id m k =
    ground
      (arith, new_gates-covers (λ s. s) outpath_key (values (p ∷ ps)) [] outpath gate_id m k refl)
outpath-gate false (p ∷ ps) outpath gate_id m k =
    ground
      (arith, new_gates-covers (λ s. s) outpath_key (values (p ∷ ps)) [] outpath gate_id m k refl)

module _ (c : SuitTaskConfig) where
  abbrev tools : List TaskInfo
  tools = toolchain_gates c.build_deps_local c.toolchain_outpaths_map

  from_parts :
      (gate_id : String)
      → (contains gate_id (task_ids (matrix_gates c)) || contains gate_id (task_ids tools)) ≡ true
      → IsDiscovered c gate_id
  unfolding discover_import_gate_tasks
  from_parts gate_id h =
      ap (contains gate_id) (map-append (λ i. i.task_id) (matrix_gates c) tools)
      ∙ (contains-append gate_id (task_ids (matrix_gates c)) (task_ids tools) ∙ h)

  from_tools :
      (gate_id : String) → contains gate_id (task_ids tools) ≡ true → IsDiscovered c gate_id
  from_tools gate_id h = from_parts gate_id (ground (arith, h))

  drv-gate :
      c.has_matrix_eval_out_dir ≡ true
      → contains "import_toolchain_drv" (task_ids (matrix_gates c)) ≡ true
  unfolding matrix_gates import_gate
  drv-gate d = rw d refl

  optional-IsDiscovered :
      (b : Bool) (gate_id : String)
      → (b ≡ true → IsDiscovered c gate_id)
      → All (IsDiscovered c) (if b then gate_id ∷ [] else [])
  optional-IsDiscovered true gate_id h = (h refl, tt)
  optional-IsDiscovered false gate_id h = tt

  option-IsDiscovered :
      (o : Option String)
      → ((gate_id : String) → o ≡ some gate_id → IsDiscovered c gate_id)
      → All (IsDiscovered c) (option_list o)
  option-IsDiscovered none h = tt
  option-IsDiscovered (some gate_id) h = (h gate_id refl, tt)

  fixed-IsDiscovered : 0 < length c.toolchain_outpaths_map → All (IsDiscovered c) (fixed_gates c)
  fixed-IsDiscovered h = (
    from_tools "import_common" (common-gate c.build_deps_local c.toolchain_outpaths_map h),
    All-append (IsDiscovered c) (if c.build_deps_local then "import_build_deps" ∷ [] else [])
        (if c.has_matrix_eval_out_dir then "import_toolchain_drv" ∷ [] else [])
        (optional-IsDiscovered c.build_deps_local "import_build_deps"
          (λ e. from_tools "import_build_deps" (rw e (build_deps-gate c.toolchain_outpaths_map h))))
        (optional-IsDiscovered c.has_matrix_eval_out_dir "import_toolchain_drv"
          (λ e. from_parts "import_toolchain_drv" (ground (arith, drv-gate e)))),
  )

  binary-IsDiscovered :
      (binary : String)
      → c.has_matrix_eval_out_dir ≡ true
      → contains binary c.per_binary_metadata ≡ true
      → (binary == "") ≡ false
      → IsDiscovered c (import_matrix_drv_task_id binary)
  unfolding matrix_gates binary_key
  binary-IsDiscovered binary d m e =
      let key : binary_key binary ≡ some binary = rw e refl in
      let there = contains-sorted_by str_order (λ s. s) binary c.per_binary_metadata ∙ m in
      let covered =
        new_gates-covers import_matrix_drv_task_id binary_key
          (sorted_by str_order (λ s. s) c.per_binary_metadata) [] binary binary there key refl in
      from_parts (import_matrix_drv_task_id binary) (ground (arith, covered, d))

  outpath-IsDiscovered :
      (outpath gate_id : String)
      → contains outpath (values c.toolchain_outpaths_map) ≡ true
      → outpath_key outpath ≡ some gate_id
      → IsDiscovered c gate_id
  outpath-IsDiscovered outpath gate_id m e =
      from_tools gate_id
        (outpath-gate c.build_deps_local c.toolchain_outpaths_map outpath gate_id m e)

  -- The package and the toolchain of a variant are among those of the run.
  pub record IsOfRun (h : ManifestHeader) : Type 0 where
    pub pkg : String
    pub pkg_eq : get "pkg" h.payload ≡ some (str pkg)
    pub pkg_known : contains pkg c.per_binary_metadata ≡ true
    pub outpath : String
    pub outpath_eq : get "toolchain_outpath" h.payload ≡ some (str outpath)
    pub outpath_known : contains outpath (values c.toolchain_outpaths_map) ≡ true

  outpath-All :
      (outpath : String)
      → contains outpath (values c.toolchain_outpaths_map) ≡ true
      → All (IsDiscovered c) (if outpath == "" then [] else option_list (import_tc_task_id outpath))
  unfolding outpath_key
  outpath-All outpath m = elim (Bool-cases (outpath == "")) [
    | inl e ↦ rw e tt
    | inr e ↦ rw e (
        option-IsDiscovered (import_tc_task_id outpath)
          (λ gate_id p. outpath-IsDiscovered outpath gate_id m (rw e p)))
  ]

  binary-All :
      (binary : String)
      → contains binary c.per_binary_metadata ≡ true
      → All (IsDiscovered c) (
          if c.has_matrix_eval_out_dir && not (binary == "")
          then import_matrix_drv_task_id binary ∷ []
          else [])
  binary-All binary m =
      optional-IsDiscovered (c.has_matrix_eval_out_dir && not (binary == ""))
        (import_matrix_drv_task_id binary)
        (λ b. binary-IsDiscovered binary (ground (arith, b)) m (ground (arith, b)))

  -- Where some toolchain has an outpath, a header whose package and whose outpath are those of the run
  -- waits only for discovered gates, other than those of common dependencies.
  pub variant_gates-IsDiscovered :
      (format : Json → String) (h : ManifestHeader)
      → 0 < length c.toolchain_outpaths_map
      → IsOfRun h
      → (gates : List String) × (variant_gates format c h ≡ ok gates)
        × All (IsDiscovered c) (fixed_gates c ++ gates)
  unfolding variant_gates toolchain_gate
  variant_gates-IsDiscovered format h n r = elim (Bool-cases (h.item_class == "build_variant")) [
    | inl e ↦
        let own =
          All-append (IsDiscovered c)
            (if r.outpath == "" then [] else option_list (import_tc_task_id r.outpath))
            (if c.has_matrix_eval_out_dir && not (r.pkg == "")
              then import_matrix_drv_task_id r.pkg ∷ []
              else [])
            (outpath-All r.outpath r.outpath_known) (binary-All r.pkg r.pkg_known) in
        rw (e, r.outpath_eq, r.pkg_eq)
          (_, refl, All-append (IsDiscovered c) (fixed_gates c) _ (fixed-IsDiscovered n) own)
    | inr e ↦
        rw e ([], refl, All-append (IsDiscovered c) (fixed_gates c) [] (fixed-IsDiscovered n) tt)
  ]
