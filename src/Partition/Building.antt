-- ===== src/Partition/Building.antt =====
-- `build_partition`: one variant for each label, the first, in the order of the labels.
use asm_dataset_nix.Prelude.{
  string_eq, String, ◌≡◌, ◌∙◌, refl, ap, false, ◌||◌, Option, none, some, List, [], ◌∷◌, map, ◌==◌,
  ==_iff, ==_refl, contains, arith, Bool-cases, inl, inr, if◌then◌else◌,
}
use asm_dataset_nix.Prelude.Order.{str_order}
use asm_dataset_nix.Prelude.Sorting.{insert_by, sorted_by, IsSortedBy, sorted_by-IsSortedBy}
use asm_dataset_nix.Prelude.Contains.{IsDistinct}
use asm_dataset_nix.Partition.Variant.{VariantSpec}
use asm_dataset_nix.Partition.Envelope.{dedupe_variants, build_partition}
use asm_dataset_nix.Partition.Sets.{dedupe_sorted_cong}

abbrev pub labels : List VariantSpec → List String
labels = map (λ v. v.label)

-- The first variant with a label.
abbrev pub first_with : String → List VariantSpec → Option VariantSpec
first_with l [] = none
first_with l (v ∷ vs) = if v.label == l then some v else first_with l vs

first_with-dedupe :
    (l : String) (seen : List String) (vs : List VariantSpec)
    → first_with l (dedupe_variants seen vs) ≡ (if contains l seen then none else first_with l vs)
unfolding dedupe_variants
first_with-dedupe l seen [] = ground arith
first_with-dedupe l seen (v ∷ vs) =
    ground (
      arith,
      first_with-dedupe l seen vs,
      first_with-dedupe l (v.label ∷ seen) vs,
      ==_iff v.label l,
    )

contains-labels :
    (l : String) (vs : List VariantSpec) → first_with l vs ≡ none → contains l (labels vs) ≡ false
contains-labels l [] h = refl
contains-labels l (v ∷ vs) h = ground (arith, contains-labels l vs)

dedupe-IsDistinct :
    (seen : List String) (vs : List VariantSpec) → IsDistinct (labels (dedupe_variants seen vs))
unfolding dedupe_variants
dedupe-IsDistinct seen [] = tt
dedupe-IsDistinct seen (v ∷ vs) = elim (Bool-cases (contains v.label seen)) [
  | inl old ↦ rw old (dedupe-IsDistinct seen vs)
  | inr new ↦ rw new (
    contains-labels v.label (dedupe_variants (v.label ∷ seen) vs)
        (first_with-dedupe v.label (v.label ∷ seen) vs ∙ ground (arith, ==_refl v.label)),
    dedupe-IsDistinct (v.label ∷ seen) vs,
  )
]

abbrev by_label : List VariantSpec → List VariantSpec
by_label = sorted_by str_order (λ v. v.label)

first_with-insert_by :
    (l : String) (v : VariantSpec) (vs : List VariantSpec)
    → contains v.label (labels vs) ≡ false
    → first_with l (insert_by str_order (λ w. w.label) v vs) ≡ first_with l (v ∷ vs)
unfolding insert_by
first_with-insert_by l v [] h = refl
first_with-insert_by l v (w ∷ vs) h =
    ground (
      arith,
      first_with-insert_by l v vs,
      ==_iff v.label l,
      ==_iff w.label l,
      ==_iff w.label v.label,
    )

contains-insert_by-labels :
    (l : String) (v : VariantSpec) (vs : List VariantSpec)
    → contains l (labels (insert_by str_order (λ w. w.label) v vs))
      ≡ (v.label == l || contains l (labels vs))
unfolding insert_by
contains-insert_by-labels l v [] = refl
contains-insert_by-labels l v (w ∷ vs) = ground (arith, contains-insert_by-labels l v vs)

contains-by_label :
    (l : String) (vs : List VariantSpec)
    → contains l (labels (by_label vs)) ≡ contains l (labels vs)
unfolding sorted_by
contains-by_label l [] = refl
contains-by_label l (v ∷ vs) =
    ground (arith, contains-insert_by-labels l v (by_label vs), contains-by_label l vs)

first_with-by_label :
    (l : String) (vs : List VariantSpec)
    → IsDistinct (labels vs)
    → first_with l (by_label vs) ≡ first_with l vs
unfolding sorted_by
first_with-by_label l [] h = refl
first_with-by_label l (v ∷ vs) h =
    first_with-insert_by l v (by_label vs) (contains-by_label v.label vs ∙ h.0)
    ∙ ap (λ t. if v.label == l then some v else t) (first_with-by_label l vs h.1)

insert_by-labels-IsDistinct :
    (v : VariantSpec) (vs : List VariantSpec)
    → contains v.label (labels vs) ≡ false
    → IsDistinct (labels vs)
    → IsDistinct (labels (insert_by str_order (λ w. w.label) v vs))
unfolding insert_by
insert_by-labels-IsDistinct v [] h s = (refl, tt)
insert_by-labels-IsDistinct v (w ∷ vs) h s = ground (
  arith,
  contains-insert_by-labels w.label v vs,
  insert_by-labels-IsDistinct v vs,
  ==_iff v.label w.label,
  ==_iff w.label v.label,
)

by_label-IsDistinct :
    (vs : List VariantSpec) → IsDistinct (labels vs) → IsDistinct (labels (by_label vs))
unfolding sorted_by
by_label-IsDistinct [] s = tt
by_label-IsDistinct (v ∷ vs) s =
    insert_by-labels-IsDistinct v (by_label vs) (contains-by_label v.label vs ∙ s.0)
      (by_label-IsDistinct vs s.1)

module _ (input_hash : String) (vs : List VariantSpec) (tcs common : List String) where
  -- The variants are in the order of their labels, each label occurs once, and the variant of a
  -- label is the first that was given with it.
  pub build_partition-variants :
      IsSortedBy str_order (λ v. v.label) (build_partition input_hash vs tcs common).variants
      × IsDistinct (labels (build_partition input_hash vs tcs common).variants)
      × ((l : String)
          → first_with l (build_partition input_hash vs tcs common).variants ≡ first_with l vs)
  unfolding build_partition
  build_partition-variants = (
    sorted_by-IsSortedBy str_order (λ v. v.label) (dedupe_variants [] vs),
    by_label-IsDistinct (dedupe_variants [] vs) (dedupe-IsDistinct [] vs),
    λ l.
        first_with-by_label l (dedupe_variants [] vs) (dedupe-IsDistinct [] vs)
        ∙ first_with-dedupe l [] vs,
  )

-- Neither the order nor the repetition of the derivations matters to a partition.
pub build_partition_cong :
    (input_hash : String) (vs : List VariantSpec) (tcs tcs' common common' : List String)
    → ((a : String) → contains a tcs ≡ contains a tcs')
    → ((a : String) → contains a common ≡ contains a common')
    → build_partition input_hash vs tcs common ≡ build_partition input_hash vs tcs' common'
unfolding build_partition
build_partition_cong input_hash vs tcs tcs' common common' h k =
    rw (dedupe_sorted_cong tcs tcs' h, dedupe_sorted_cong common common' k)
