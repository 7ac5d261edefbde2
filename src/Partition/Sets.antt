-- ===== src/Partition/Sets.antt =====
-- The sets of partition.py: `set(xs)` holds the items of `xs`, each once, so that
-- `_dedupe_sorted` depends on nothing else.
use asm_dataset_nix.Prelude.{
  string_eq, String, ◌≡◌, ◌∙◌, refl, sym, List, [], ◌∷◌, ==_iff, contains, arith,
}
use asm_dataset_nix.Prelude.Order.{str_order}
use asm_dataset_nix.Prelude.Sorting.{IsSortedBy, sorted_by-IsSortedBy}
use asm_dataset_nix.Prelude.Contains.{
  IsDistinct, contains-sorted_by, sorted_by-IsDistinct, sorted_unique,
}
use asm_dataset_nix.Partition.Frequencies.{set_of}
use asm_dataset_nix.Partition.Envelope.{dedupe_sorted}

pub contains-set_of : (a : String) (xs : List String) → contains a (set_of xs) ≡ contains a xs
unfolding set_of
contains-set_of a [] = refl
contains-set_of a (x ∷ xs) = ground (arith, contains-set_of a xs, contains-set_of x xs, ==_iff x a)

pub set_of-IsDistinct : (xs : List String) → IsDistinct (set_of xs)
unfolding set_of
set_of-IsDistinct [] = tt
set_of-IsDistinct (x ∷ xs) = ground (arith, set_of-IsDistinct xs)

module _ (xs : List String) where
  -- The result of `_dedupe_sorted` is in order and holds the items of the argument, each once.
  pub dedupe_sorted_lem :
      IsSortedBy str_order (λ s. s) (dedupe_sorted xs)
      × IsDistinct (dedupe_sorted xs)
      × ((a : String) → contains a (dedupe_sorted xs) ≡ contains a xs)
  unfolding dedupe_sorted
  dedupe_sorted_lem = (
    sorted_by-IsSortedBy str_order (λ s. s) (set_of xs),
    sorted_by-IsDistinct str_order (λ s. s) (set_of xs) (set_of-IsDistinct xs),
    λ a. contains-sorted_by str_order (λ s. s) a (set_of xs) ∙ contains-set_of a xs,
  )

-- Two lists with the same items have the same deduplicated, sorted list.
pub dedupe_sorted_cong :
    (xs ys : List String)
    → ((a : String) → contains a xs ≡ contains a ys)
    → dedupe_sorted xs ≡ dedupe_sorted ys
dedupe_sorted_cong xs ys h =
    let (s, u, p) = dedupe_sorted_lem xs in
    let (t, v, q) = dedupe_sorted_lem ys in
    sorted_unique str_order (dedupe_sorted xs) (dedupe_sorted ys) s t u v
      (λ a. p a ∙ (h a ∙ sym (q a)))
