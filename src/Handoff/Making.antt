-- ===== src/Handoff/Making.antt =====
-- The tasks that a batch becomes.
use asm_dataset_nix.Prelude.{
  string_eq, ◌≤◌, String, ◌≡◌, refl, ap, true, false, Option, none, some, List, [], ◌∷◌, ◌++◌,
  length, All, Bool-cases, inl, inr, suc, ◌==◌, if◌then◌else◌, ◌↔◌, ◌||◌, arith,
}
use asm_dataset_nix.Prelude.Dict.{get, or_else, get-put}
use asm_dataset_nix.Prelude.Result.{ok, bind-ok, ok_inj}
use asm_dataset_nix.Json.{Json, null, str}
use asm_dataset_nix.StreamedSpawn.Codec.{Phase4Descriptor}
use asm_dataset_nix.Handoff.Headers.{
  ManifestHeader, build_header, header_of, common_dep_payload, headers_from_descriptors, cons_some,
  needs_attr, variant_attr, variant_attr_payload,
}
use asm_dataset_nix.Handoff.Tasks.{
  TaskInfo, SuitTaskConfig, toolchain_gate, classify, header_depends_on, header_to_task_info,
  task_infos_of,
}

-- The descriptors that get a header.
abbrev pub IsKnown : Phase4Descriptor → Type 0
IsKnown d = (d.kind == "build_common_dep" || d.kind == "build_variant") ≡ true

-- Where the toolchain's outpath is there it is a text.
abbrev pub HasTextOutpath : Phase4Descriptor → Type 0
HasTextOutpath d = (s : String) × (or_else (str "") (get "toolchain_outpath" d.payload) ≡ str s)

-- The tasks that the worker's descriptors became, without the gates.
abbrev pub worker_tasks : List TaskInfo → List TaskInfo
worker_tasks [] = []
worker_tasks (i ∷ infos) =
    let rest = worker_tasks infos in if i.is_secondary_affine then rest else i ∷ rest

pub worker_tasks-append :
    (xs ys : List TaskInfo) → worker_tasks (xs ++ ys) ≡ worker_tasks xs ++ worker_tasks ys
worker_tasks-append [] ys = refl
worker_tasks-append (x ∷ xs) ys = ground (arith, worker_tasks-append xs ys)

cons_some-append :
    (format : Json → String) (hs ks : List ManifestHeader) {ls : List ManifestHeader}
    (o : Option ManifestHeader)
    → ls ≡ hs ++ ks
    → cons_some format o ls ≡ cons_some format o hs ++ ks
cons_some-append format hs ks none p = p
cons_some-append format hs ks (some h) p = ap (λ t. h ∷ t) p

module _ (format : Json → String) where
  pub headers-append :
      (ds es : List Phase4Descriptor)
      → headers_from_descriptors format (ds ++ es)
        ≡ headers_from_descriptors format ds ++ headers_from_descriptors format es
  unfolding headers_from_descriptors
  headers-append [] es = refl
  headers-append (d ∷ ds) es =
      cons_some-append format (headers_from_descriptors format ds)
        (headers_from_descriptors format es) (header_of format d) (headers-append ds es)

  pub length-headers :
      (ds : List Phase4Descriptor) → length (headers_from_descriptors format ds) ≤ length ds
  unfolding headers_from_descriptors header_of
  length-headers [] = omega arith
  length-headers (d ∷ ds) = ground (arith, length-headers ds)

  -- Every descriptor gets a header just when each kind is known.
  pub length-headers_iff :
      (ds : List Phase4Descriptor)
      → (length (headers_from_descriptors format ds) ≡ length ds) ↔ All IsKnown ds
  unfolding headers_from_descriptors header_of
  length-headers_iff [] = (λ h. tt, λ h. refl)
  length-headers_iff (d ∷ ds) = (
    λ h. ground (arith, length-headers ds, (length-headers_iff ds).0),
    λ h. ground (arith, (length-headers_iff ds).1),
  )

  module _ (c : SuitTaskConfig) where
    abbrev pub Made : List ManifestHeader → List TaskInfo → Type 0
    Made hs infos = task_infos_of format c hs ≡ ok infos

    -- The first task and the others.
    split :
        (h : ManifestHeader) (hs : List ManifestHeader) (infos : List TaskInfo)
        → Made (h ∷ hs) infos
        → (info : TaskInfo) × (rest : List TaskInfo) × (header_to_task_info format c h ≡ ok info)
          × Made hs rest
          × (info ∷ rest ≡ infos)
    unfolding task_infos_of
    split h hs infos p =
        let (info, first, q) = bind-ok (header_to_task_info format c h) _ infos p in
        let (rest, others, r) = bind-ok (task_infos_of format c hs) _ infos q in
        (info, rest, first, others, ok_inj r)

    Made-cons :
        (h : ManifestHeader) (hs : List ManifestHeader) (info : TaskInfo) (rest : List TaskInfo)
        → header_to_task_info format c h ≡ ok info
        → Made hs rest
        → Made (h ∷ hs) (info ∷ rest)
    unfolding task_infos_of
    Made-cons h hs info rest p q = simp (p, q)

    pub Made-append :
        (hs ks : List ManifestHeader) (infos more : List TaskInfo)
        → Made hs infos
        → Made ks more
        → Made (hs ++ ks) (infos ++ more)
    unfolding task_infos_of
    Made-append [] ks infos more p q = rw (← ok_inj p) q
    Made-append (h ∷ hs) ks infos more p q =
        let (info, rest, first, others, same) = split h hs infos p in
        rw (← same)
          (Made-cons h (hs ++ ks) info (rest ++ more) first (Made-append hs ks rest more others q))

    pub length-Made :
        (hs : List ManifestHeader) (infos : List TaskInfo)
        → Made hs infos
        → length infos ≡ length hs
    unfolding task_infos_of
    length-Made [] infos p = rw (← ok_inj p) refl
    length-Made (h ∷ hs) infos p =
        let (info, rest, first, others, same) = split h hs infos p in
        rw (← same) (ap suc (length-Made hs rest others))

    not_affine :
        (h : ManifestHeader) (info : TaskInfo)
        → header_to_task_info format c h ≡ ok info
        → info.is_secondary_affine ≡ false
    unfolding header_to_task_info
    not_affine h info p =
        let (place, _, q) = bind-ok (classify format h) _ info p in
        let (deps, _, r) =
          bind-ok (if c.disable_task_deps then ok [] else header_depends_on format c h) _ info q in
        rw (← ok_inj r) refl

    pub worker_tasks-Made :
        (hs : List ManifestHeader) (infos : List TaskInfo)
        → Made hs infos
        → worker_tasks infos ≡ infos
    unfolding task_infos_of
    worker_tasks-Made [] infos p = rw (← ok_inj p) refl
    worker_tasks-Made (h ∷ hs) infos p =
        let (info, rest, first, others, same) = split h hs infos p in
        rw (← same)
          (rw (not_affine h info first) (ap (λ t. info ∷ t) (worker_tasks-Made hs rest others)))

    common_dep-Made :
        (d : Phase4Descriptor)
        → (info : TaskInfo) × (header_to_task_info format c
              (build_header "build_common_dep" d (common_dep_payload d.payload))
            ≡ ok info)
    unfolding header_to_task_info build_header
    common_dep-Made d = elim (Bool-cases c.disable_task_deps) [
      | inl e ↦ rw e (_, refl)
      | inr e ↦ rw e (_, refl)
    ]

    outpath_kept :
        (d : Phase4Descriptor)
        → get "toolchain_outpath" (variant_attr_payload format d.payload)
          ≡ get "toolchain_outpath" d.payload
    unfolding variant_attr_payload
    outpath_kept d = elim (Bool-cases (needs_attr d.payload)) [
      | inl e ↦
          rw e (get-put "attr" "toolchain_outpath" (str (variant_attr format d.payload)) d.payload)
      | inr e ↦ rw e refl
    ]

    toolchain_gate-ok :
        (o : Option Json) (s : String)
        → or_else (str "") o ≡ str s
        → (gates : List String) × (toolchain_gate (or_else null o) ≡ ok gates)
    unfolding toolchain_gate
    toolchain_gate-ok none s p = (_, refl)
    toolchain_gate-ok (some v) s p = rw p (_, refl)

    variant-Made :
        (d : Phase4Descriptor)
        → HasTextOutpath d
        → (info : TaskInfo) × (header_to_task_info format c
              (build_header "build_variant" d (variant_attr_payload format d.payload))
            ≡ ok info)
    unfolding header_to_task_info build_header
    variant-Made d (s, p) =
        let (gates, g) = toolchain_gate-ok (get "toolchain_outpath" d.payload) s p in
        elim (Bool-cases c.disable_task_deps) [
          | inl e ↦ rw e (_, refl)
          | inr e ↦ rw (e, outpath_kept d, g) (_, refl)
        ]

    pub headers-Made :
        (ds : List Phase4Descriptor)
        → All HasTextOutpath ds
        → (infos : List TaskInfo) × Made (headers_from_descriptors format ds) infos
    unfolding headers_from_descriptors task_infos_of header_of
    headers-Made [] k = ([], refl)
    headers-Made (d ∷ ds) k =
        let (rest, q) = headers-Made ds k.1 in
        elim (Bool-cases (d.kind == "build_common_dep")) [
          | inl e ↦
              let (info, p) = common_dep-Made d in
              rw e (
                info ∷ rest,
                Made-cons (build_header "build_common_dep" d (common_dep_payload d.payload))
                    (headers_from_descriptors format ds) info rest p q,
              )
          | inr e ↦ elim (Bool-cases (d.kind == "build_variant")) [
            | inl f ↦
                let (info, p) = variant-Made d k.0 in
                rw (e, f)
                  (
                    info ∷ rest,
                    Made-cons
                        (build_header "build_variant" d (variant_attr_payload format d.payload))
                        (headers_from_descriptors format ds) info rest p q,
                  )
            | inr f ↦ rw (e, f) (rest, q)
          ]
        ]
