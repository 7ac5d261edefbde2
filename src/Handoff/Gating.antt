-- ===== src/Handoff/Gating.antt =====
-- The import gates that the handler adds: each once, whatever the batches.
use mathlib.Core.Option.{some-injective}
use mathlib.Core.List.{append_assoc, append-nil}
use asm_dataset_nix.Prelude.{
  string_eq, ◌≤◌, length, String, ◌≡◌, refl, ap, sym, ◌∙◌, true, false, Option, none, some, List,
  [], ◌∷◌, ◌++◌, map, contains, All, Bool-cases, inl, inr, if◌then◌else◌, ==_iff, ==_refl, arith,
}
use asm_dataset_nix.Prelude.Contains.{contains-append, IsDistinct}
use asm_dataset_nix.Handoff.Headers.{ManifestHeader}
use asm_dataset_nix.Handoff.Tasks.{TaskInfo}
use asm_dataset_nix.Handoff.Making.{worker_tasks}
use asm_dataset_nix.Handoff.Suit.{
  Gating, gate_info, add_gate, gate_of_header, build_common_dep_gate_infos,
}

-- The gates among tasks.
abbrev pub gate_tasks : List TaskInfo → List TaskInfo
gate_tasks [] = []
gate_tasks (i ∷ infos) =
    let rest = gate_tasks infos in if i.is_secondary_affine then i ∷ rest else rest

pub gate_tasks-append :
    (xs ys : List TaskInfo) → gate_tasks (xs ++ ys) ≡ gate_tasks xs ++ gate_tasks ys
gate_tasks-append [] ys = refl
gate_tasks-append (x ∷ xs) ys = ground (arith, gate_tasks-append xs ys)

length-worker_tasks : (xs : List TaskInfo) → length (worker_tasks xs) ≤ length xs
length-worker_tasks [] = omega arith
length-worker_tasks (x ∷ xs) = ground (arith, length-worker_tasks xs)

-- No task that is a gate is a worker's task.
pub gate_tasks-none : (xs : List TaskInfo) → worker_tasks xs ≡ xs → gate_tasks xs ≡ []
gate_tasks-none [] p = refl
gate_tasks-none (x ∷ xs) p = ground (arith, length-worker_tasks xs, gate_tasks-none xs)

abbrev pub task_ids : List TaskInfo → List String
task_ids infos = map (λ (i : TaskInfo). i.task_id) infos

abbrev pub AreGates : List TaskInfo → Type 0
AreGates infos = (gate_tasks infos ≡ infos) × (worker_tasks infos ≡ [])

IsDistinct-snoc :
    (x : String) (xs : List String)
    → contains x xs ≡ false
    → IsDistinct xs
    → IsDistinct (xs ++ x ∷ [])
IsDistinct-snoc x [] p s = (refl, tt)
IsDistinct-snoc x (y ∷ ys) p s =
    ground (arith, contains-append y ys (x ∷ []), IsDistinct-snoc x ys, ==_iff x y, ==_iff y x)

module _ (task_id : String) where
  AreGates-add_gate :
      (o : Option (String × String)) (seen : List String) (go_on : List String → Gating)
      → ((s : List String) → AreGates (go_on s).0)
      → AreGates (add_gate task_id o seen go_on).0
  unfolding add_gate gate_info
  AreGates-add_gate none seen go_on k = k seen
  AreGates-add_gate (some (gate_id, ident_str)) seen go_on k =
      elim (Bool-cases (contains gate_id seen)) [
        | inl e ↦ rw (add_gate, e) (k seen)
        | inr e ↦
            let rest = k (seen ++ gate_id ∷ []) in
            rw (add_gate, e) (ap (λ t. gate_info gate_id ident_str task_id ∷ t) rest.0, rest.1)
      ]

  seen-add_gate :
      (o : Option (String × String)) (seen : List String) (go_on : List String → Gating)
      → ((s : List String) → (go_on s).1 ≡ s ++ task_ids (go_on s).0)
      → (add_gate task_id o seen go_on).1 ≡ seen ++ task_ids (add_gate task_id o seen go_on).0
  unfolding add_gate gate_info
  seen-add_gate none seen go_on k = k seen
  seen-add_gate (some (gate_id, ident_str)) seen go_on k =
      elim (Bool-cases (contains gate_id seen)) [
        | inl e ↦ rw (add_gate, e) (k seen)
        | inr e ↦ rw (add_gate, e) (k (seen ++ gate_id ∷ []) ∙ append_assoc seen (gate_id ∷ []) _)
      ]

  IsDistinct-add_gate :
      (o : Option (String × String)) (seen : List String) (go_on : List String → Gating)
      → ((s : List String) → IsDistinct s → IsDistinct (go_on s).1)
      → IsDistinct seen
      → IsDistinct (add_gate task_id o seen go_on).1
  unfolding add_gate
  IsDistinct-add_gate none seen go_on k s = k seen s
  IsDistinct-add_gate (some (gate_id, ident_str)) seen go_on k s =
      elim (Bool-cases (contains gate_id seen)) [
        | inl e ↦ rw (add_gate, e) (k seen s)
        | inr e ↦ rw (add_gate, e) (k (seen ++ gate_id ∷ []) (IsDistinct-snoc gate_id seen e s))
      ]

pub gate_infos-AreGates :
    (hs : List ManifestHeader) (seen : List String)
    → AreGates (build_common_dep_gate_infos hs seen).0
unfolding build_common_dep_gate_infos
gate_infos-AreGates [] seen = (refl, refl)
gate_infos-AreGates (h ∷ hs) seen =
    AreGates-add_gate h.task_id (gate_of_header h) seen _ (gate_infos-AreGates hs)

-- The gates so far are those of before and the new ones.
pub gate_infos-seen :
    (hs : List ManifestHeader) (seen : List String)
    → (build_common_dep_gate_infos hs seen).1
      ≡ seen ++ task_ids (build_common_dep_gate_infos hs seen).0
unfolding build_common_dep_gate_infos
gate_infos-seen [] seen = sym (append-nil seen)
gate_infos-seen (h ∷ hs) seen =
    seen-add_gate h.task_id (gate_of_header h) seen _ (gate_infos-seen hs)

pub gate_infos-IsDistinct :
    (hs : List ManifestHeader) (seen : List String)
    → IsDistinct seen
    → IsDistinct (build_common_dep_gate_infos hs seen).1
unfolding build_common_dep_gate_infos
gate_infos-IsDistinct [] seen s = s
gate_infos-IsDistinct (h ∷ hs) seen s =
    IsDistinct-add_gate h.task_id (gate_of_header h) seen _ (gate_infos-IsDistinct hs) s

-- The gate of a header is among some.
abbrev pub IsGatedBy : List String → ManifestHeader → Type 0
IsGatedBy gates h =
    (gate : String × String) → gate_of_header h ≡ some gate → contains gate.0 gates ≡ true

keeps_seen :
    (g : String) (hs : List ManifestHeader) (seen : List String)
    → contains g seen ≡ true
    → contains g (build_common_dep_gate_infos hs seen).1 ≡ true
keeps_seen g hs seen p =
    rw (gate_infos-seen hs seen)
      (ground (arith, contains-append g seen (task_ids (build_common_dep_gate_infos hs seen).0)))

module _ (task_id : String) where
  covers-add_gate :
      (o : Option (String × String)) (seen : List String) (hs : List ManifestHeader)
      (gate : String × String)
      → o ≡ some gate
      → contains gate.0 (add_gate task_id o seen (build_common_dep_gate_infos hs)).1 ≡ true
  unfolding add_gate
  covers-add_gate none seen hs gate p = absurd (cc p)
  covers-add_gate (some (gate_id, ident_str)) seen hs gate p =
      rw (← ap (λ g. g.0) (some-injective _ _ p)) (elim (Bool-cases (contains gate_id seen)) [
        | inl e ↦ rw (add_gate, e) (keeps_seen gate_id hs seen e)
        | inr e ↦
            rw (add_gate, e)
              (keeps_seen gate_id hs (seen ++ gate_id ∷ [])
                (ground (arith, contains-append gate_id seen (gate_id ∷ []), ==_refl gate_id)))
      ])

  through-add_gate :
      (P : List String → Type 0) (o : Option (String × String)) (seen : List String)
      (go_on : List String → Gating)
      → ((s : List String) → P (go_on s).1)
      → P (add_gate task_id o seen go_on).1
  unfolding add_gate
  through-add_gate P none seen go_on k = k seen
  through-add_gate P (some (gate_id, ident_str)) seen go_on k =
      elim (Bool-cases (contains gate_id seen)) [
        | inl e ↦ rw (add_gate, e) (k seen)
        | inr e ↦ rw (add_gate, e) (k (seen ++ gate_id ∷ []))
      ]

pub gate_infos-covers :
    (hs : List ManifestHeader) (seen : List String)
    → All (IsGatedBy (build_common_dep_gate_infos hs seen).1) hs
unfolding build_common_dep_gate_infos
gate_infos-covers [] seen = tt
gate_infos-covers (h ∷ hs) seen = (
  covers-add_gate h.task_id (gate_of_header h) seen hs,
  through-add_gate h.task_id (λ gates. All (IsGatedBy gates) hs) (gate_of_header h) seen _
      (gate_infos-covers hs),
)

-- The gates of more headers, after those found.
abbrev pub then_gate : List ManifestHeader → Gating → Gating
then_gate ks r = let more = build_common_dep_gate_infos ks r.1 in (r.0 ++ more.0, more.1)

append-add_gate :
    (task_id : String) (o : Option (String × String)) (seen : List String)
    (whole go_on : List String → Gating) (ks : List ManifestHeader)
    → ((s : List String) → whole s ≡ then_gate ks (go_on s))
    → add_gate task_id o seen whole ≡ then_gate ks (add_gate task_id o seen go_on)
unfolding add_gate
append-add_gate task_id none seen whole go_on ks k = k seen
append-add_gate task_id (some (gate_id, ident_str)) seen whole go_on ks k =
    elim (Bool-cases (contains gate_id seen)) [
      | inl e ↦ rw (add_gate, e) (k seen)
      | inr e ↦
          rw (add_gate, e)
            (ap (λ (r : Gating). (gate_info gate_id ident_str task_id ∷ r.0, r.1))
              (k (seen ++ gate_id ∷ [])))
    ]

-- Gating two lists of headers in turn is gating both at once.
pub gate_infos-append :
    (hs ks : List ManifestHeader) (seen : List String)
    → build_common_dep_gate_infos (hs ++ ks) seen
      ≡ then_gate ks (build_common_dep_gate_infos hs seen)
unfolding build_common_dep_gate_infos
gate_infos-append [] ks seen = refl
gate_infos-append (h ∷ hs) ks seen =
    append-add_gate h.task_id (gate_of_header h) seen _ _ ks (gate_infos-append hs ks)
