-- ===== src/Tests/CacheSamples.antt =====
-- Runs of the incremental cache, and the properties at them.
use asm_dataset_nix.Prelude.{
  none, string_eq, pair_eq, ◌≡◌, refl, String, true, not, ◌&&◌, some, [], ◌∷◌, ◌==◌, contains,
  arith, if◌then◌else◌,
}
use asm_dataset_nix.Prelude.Result.{ok}
use asm_dataset_nix.Prelude.Dict.{get, is_some}
use asm_dataset_nix.Json.{str}
use asm_dataset_nix.Json.Dumps.{Text, codes}
use asm_dataset_nix.Cache.Key.{InputHashInputs, toolchains_kind, variants_kind, sort_json}
use asm_dataset_nix.Cache.KeyProofs.{FitsAll, hash_message-inj}
use asm_dataset_nix.Cache.Payload.{Toolchains}
use asm_dataset_nix.Cache.Store.{
  Files, Disk, corrupt, holds, entry_at, store_subentry, lookup_toolchains, store_toolchains,
}
use asm_dataset_nix.Cache.Entries.{entry_at-store_subentry}
use asm_dataset_nix.Cache.Lookups.{lookup_toolchains-store}

abbrev inputs : InputHashInputs
inputs = record {
  flake_lock = codes "{}";
  git_rev = codes "abc";
  git_diff = [];
  invocation = codes "x";
}

inputs-FitsAll : FitsAll inputs
inputs-FitsAll = record {
  lock_fits = omega arith;
  rev_fits = omega arith;
  diff_fits = omega arith;
  invocation_fits = omega arith;
}

-- The same with its parts as numbers.
abbrev as_numbers : InputHashInputs
as_numbers = record {
  flake_lock = 123 ∷ 125 ∷ [];
  git_rev = 97 ∷ 98 ∷ 99 ∷ [];
  git_diff = [];
  invocation = 120 ∷ [];
}

as_numbers-FitsAll : FitsAll as_numbers
as_numbers-FitsAll = record {
  lock_fits = omega arith;
  rev_fits = omega arith;
  diff_fits = omega arith;
  invocation_fits = omega arith;
}

hash_message-inj_example : inputs ≡ as_numbers
hash_message-inj_example = hash_message-inj inputs as_numbers inputs-FitsAll as_numbers-FitsAll refl

-- A hash of which only the type matters here.
abbrev length_hash : Text → String
length_hash message = "digest"

swapped : (a : String) → contains a ("arm" ∷ "mips" ∷ []) ≡ contains a ("mips" ∷ "arm" ∷ "arm" ∷ [])
swapped a = ground arith

abbrev gcc_arm : Toolchains
gcc_arm = record {
  tc_pairs = ("arm", "gcc") ∷ [];
  tc_drvs =
      (("arm", "gcc"), "/nix/store/0-gcc.drv") ∷ (("mips", "gcc"), "/nix/store/1-gcc.drv") ∷ [];
  tc_aggregate_drv = "/nix/store/2-all.drv";
}

abbrev key_k : String
key_k = "k"

abbrev key_j : String
key_j = "j"

abbrev broken : Disk
broken = ("toolchains", ("k", corrupt) ∷ []) ∷ []

-- Every path exists, and removals work.
abbrev all_exist : Files
all_exist = record { exists = λ path. true; left = λ e. none }

lookup_toolchains-store_example :
    lookup_toolchains all_exist "k" (store_toolchains "k" gcc_arm [])
    ≡ (ok (some gcc_arm), store_toolchains "k" gcc_arm [])
unfolding get entry_at
lookup_toolchains-store_example =
    lookup_toolchains-store all_exist "k" gcc_arm [] (refl, (refl, tt)) refl refl

entry_at-store_subentry_example :
    entry_at "variants" "k" (store_subentry "toolchains" "k" (str "x") broken) ≡ (
      if toolchains_kind == variants_kind
        && key_k == key_k
        && not (is_some (entry_at "toolchains" "k" broken))
      then some (holds (sort_json (str "x")))
      else entry_at "variants" "k" broken)
entry_at-store_subentry_example =
    entry_at-store_subentry "variants" "k" "toolchains" "k" (str "x") broken
