-- ===== src/Planner/Extras.antt =====
-- What the meta pass adds to the variants (plan_meta.py), and the tasks of descriptors.
use asm_dataset_nix.Prelude.{
  string_eq, pair_eq, ◌≡◌, ◌⊎◌, refl, inl, inr, Bool, true, false, some, List, [], ◌∷◌, ◌++◌,
  contains, All, All-append, ◌==◌, if◌then◌else◌, String, arith, Bool-cases,
}
use asm_dataset_nix.Prelude.Dict.{get, or_else, get-put}
use asm_dataset_nix.Prelude.Contains.{contains-append}
use asm_dataset_nix.StreamedSpawn.Codec.{Phase4Descriptor}
use asm_dataset_nix.Planner.Meta.{
  ArchLabels, Extras, labels_of, add_for_labels, add_for_archs, add_to_extras,
}
use asm_dataset_nix.Planner.Gates.{ids}

-- Every item that the extras hold has the property.
abbrev pub AllExtras : (String → Type 0) → Extras → Type 0
AllExtras P extras = (k : String × String) → All P (or_else [] (get k extras))

module _ (P : String → Type 0) (ts : List String) (h : All P ts) where
  add_for_labels-All :
      (arch : String) (labels : List String) (extras : Extras)
      → AllExtras P extras
      → AllExtras P (add_for_labels arch ts labels extras)
  unfolding add_for_labels
  add_for_labels-All arch [] extras e = e
  add_for_labels-All arch (label ∷ labels) extras e = add_for_labels-All arch labels _ (λ k.
      rw (get-put (arch, label) k (or_else [] (get (arch, label) extras) ++ ts) extras)
        (put_lem k ((arch, label) == k)))
    where
      put_lem :
          (k : String × String) (b : Bool)
          → All P (
              or_else []
                (if b then some (or_else [] (get (arch, label) extras) ++ ts) else get k extras))
      put_lem k true = All-append P (or_else [] (get (arch, label) extras)) ts (e (arch, label)) h
      put_lem k false = e k

  add_for_archs-All :
      (labels : ArchLabels) (archs : List String) (extras : Extras)
      → AllExtras P extras
      → AllExtras P (add_for_archs labels ts archs extras)
  unfolding add_for_archs
  add_for_archs-All labels [] extras e = e
  add_for_archs-All labels (arch ∷ archs) extras e =
      add_for_archs-All labels archs _ (add_for_labels-All arch (labels_of labels arch) extras e)

pub add_to_extras-All :
    (P : String → Type 0) (labels : ArchLabels) (archs ts : List String) (extras : Extras)
    → All P ts
    → AllExtras P extras
    → AllExtras P (add_to_extras labels archs ts extras)
unfolding add_to_extras
add_to_extras-All P labels archs [] extras h e = e
add_to_extras-All P labels archs (t ∷ ts) extras h e =
    add_for_archs-All P (t ∷ ts) h labels archs extras e

-- A task of one of the descriptors.
abbrev pub IsTask : List Phase4Descriptor → String → Type 0
IsTask ds t = contains t (ids ds) ≡ true

ids-append : (ds es : List Phase4Descriptor) → ids (ds ++ es) ≡ ids ds ++ ids es
ids-append [] es = refl
ids-append (d ∷ ds) es = λ i. d.task_id ∷ ids-append ds es i

pub IsTask-append_left :
    (ds es : List Phase4Descriptor) (t : String) → IsTask ds t → IsTask (ds ++ es) t
IsTask-append_left ds es t h = ground (arith, ids-append ds es, contains-append t (ids ds) (ids es))

pub IsTask-append_right :
    (ds es : List Phase4Descriptor) (t : String) → IsTask es t → IsTask (ds ++ es) t
IsTask-append_right ds es t h =
    ground (arith, ids-append ds es, contains-append t (ids ds) (ids es))

pub IsTask-append_cases :
    (ds es : List Phase4Descriptor) (t : String) → IsTask (ds ++ es) t → IsTask ds t ⊎ IsTask es t
IsTask-append_cases ds es t h = elim (Bool-cases (contains t (ids ds))) [
  | inl there ↦ inl there
  | inr missing ↦ inr (ground (arith, ids-append ds es, contains-append t (ids ds) (ids es)))
]
