-- ===== src/StreamedSpawn/Checks.antt =====
-- The validation helpers of streamed_spawn.py. A `ValueError` keeps what its message is made of;
-- the argument `what` only words the message and is left out.
use asm_dataset_nix.Prelude.{string_eq, ℕ, String, List, [], ◌∷◌, contains, if◌then◌else◌}
use asm_dataset_nix.Prelude.Int.{ℤ, is_negative}
use asm_dataset_nix.Prelude.Dict.{Dict, keys}
use asm_dataset_nix.Prelude.Order.{str_order}
use asm_dataset_nix.Prelude.Result.{Result, ok, err, ◌>>=◌}
use asm_dataset_nix.Prelude.Sorting.{sorted_by}
use asm_dataset_nix.Json.{Json, int, str, arr, Items, nil, cons}

pub data ValueError : Type 0 where
  missing_fields : List String → ValueError
  unknown_fields : List String → ValueError
  not_a_dict : ValueError
  wrong_type : (field : String) → ValueError
  negative : (field : String) → ℤ → ValueError
  too_large : (needed allowed : ℕ) → ValueError
  not_positive : (field : String) → ValueError
  still_pending : ℕ → ValueError
  not_json : ValueError
  bad_version : ℤ → ValueError
  unknown_kind : String → ValueError
  at_index : ℕ → ValueError → ValueError

abbrev pub Checked : Type 0 → Type 0
Checked A = Result ValueError A

-- `[k for k in ks if k not in known]`
unfoldable pub without : List String → List String → List String
without known [] = []
without known (k ∷ ks) = let rest = without known ks in if contains k known then rest else k ∷ rest

-- `_check_keys`. `sorted(keys - set(expected))` takes the keys of a dict, each once.
unfoldable pub check_keys : Dict String Json → List String → Checked (Unit {0})
unfolding without sorted_by
check_keys d expected = elim (without (keys d) expected) [
  | k ∷ ks ↦ err (missing_fields (k ∷ ks))
  | [] ↦ elim (without expected (keys d)) [
    | k ∷ ks ↦ err (unknown_fields (sorted_by str_order (λ s. s) (k ∷ ks)))
    | [] ↦ ok tt
  ]
]

-- `_check_str`
unfoldable pub check_str : String → Json → Checked String
check_str field (str s) = ok s
check_str field _ = err (wrong_type field)

-- `_check_int` with `non_negative=True`, as every caller has it. JSON's `true` is no number.
unfoldable pub check_int : String → Json → Checked ℤ
check_int field (int z) = if is_negative z then err (negative field z) else ok z
check_int field _ = err (wrong_type field)

-- The loop of `_check_str_list`.
unfoldable pub check_str_items : String → Items → Checked (List String)
check_str_items field nil = ok []
check_str_items field (cons (str s) xs) = do rest ← check_str_items field xs; ok (s ∷ rest)
check_str_items field (cons _ xs) = err (wrong_type field)

-- `_check_str_list`
unfoldable pub check_str_list : String → Json → Checked (List String)
unfolding check_str_items
check_str_list field (arr xs) = check_str_items field xs
check_str_list field _ = err (wrong_type field)
