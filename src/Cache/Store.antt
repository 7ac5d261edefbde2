-- ===== src/Cache/Store.antt =====
-- `IncrementalCache` of incremental_cache.py on a model of its directories. Warnings are left out.
use asm_dataset_nix.Prelude.{
  string_eq, nat_eq, ℕ, ◌+◌, String, Bool, true, false, not, ◌&&◌, ◌||◌, Option, none, some, [],
  ◌∷◌, ◌==◌, contains, if◌then◌else◌,
}
use asm_dataset_nix.Prelude.Int.{ℤ, pos}
use asm_dataset_nix.Prelude.Dict.{Dict, get, put, remove, or_else, is_some}
use asm_dataset_nix.Prelude.Result.{Result, ok, err}
use asm_dataset_nix.Json.Dumps.{Text, codes}
use asm_dataset_nix.Json.{Json, obj, field_dict}
use asm_dataset_nix.Partition.Envelope.{as_int}
use asm_dataset_nix.Cache.Key.{sort_json, toolchains_kind, variants_kind}
use asm_dataset_nix.Cache.Payload.{
  Parsed, Toolchains, toolchains_payload, toolchains_from_payload, Metadata, variants_payload,
  variants_from_payload,
}

-- An entry's directory, by its `entry.json`: none, one that cannot be read, one that is no UTF-8, one
-- that is no JSON, or one with a value.
pub data Entry : Type 0 where
  no_file unreadable undecoded corrupt : Entry
  holds : Json → Entry

-- `self.cache_root`: the directories in it, each with those in it, by their names. A key is no
-- namespace's name; stray files are not modelled.
abbrev pub Disk : Type 0
Disk = Dict String (Dict String Entry)

abbrev pub entry_version : ℤ
entry_version = pos 1

abbrev pub namespace : String → Disk → Dict String Entry
namespace ns disk = or_else [] (get ns disk)

-- The entry at `_subentry_dir(namespace, key)`.
unfoldable pub entry_at : String → String → Disk → Option Entry
entry_at ns key disk = get key (namespace ns disk)

-- What the lookups ask of the file system: whether a path exists, and what `rmtree` leaves of an
-- entry's directory when it ignores errors, nothing when it succeeds.
pub record Files : Type 0 where
  pub exists : String → Bool
  pub left : Entry → Option Entry

-- `rmtree` of an entry's directory.
unfoldable pub remove_dir : String → String → Disk → Disk
remove_dir ns key disk = put ns (remove key (namespace ns disk)) disk

-- `_discard_invalid_subentry`
unfoldable pub leave : Option Entry → String → String → Disk → Disk
leave none ns key disk = remove_dir ns key disk
leave (some e) ns key disk = put ns (put key e (namespace ns disk)) disk

unfoldable pub left_of : Files → Option Entry → Option Entry
left_of files none = none
left_of files (some e) = files.left e

unfoldable pub discard : Files → String → String → Disk → Disk
discard files ns key disk = leave (left_of files (entry_at ns key disk)) ns key disk

-- `isinstance(payload, dict)` and the version, which `True` equals too.
unfoldable pub is_version : Option (Option ℤ) → Bool
is_version (some (some (pos n))) = n == 1
is_version _ = false

unfoldable pub valid_payload : Json → Option (Dict String Json)
unfolding is_version get
valid_payload (obj fs) =
    if is_version (mathlib.Core.Option.map as_int (get "version" (field_dict fs)))
    then some (field_dict fs)
    else none
valid_payload _ = none

-- `UnicodeDecodeError`
pub data DecodeError : Type 0 where
  not_utf8 : DecodeError

-- What is raised or returned, and the disk that is left.
abbrev pub Loaded : Type 0
Loaded = Result DecodeError (Option (Dict String Json)) × Disk

-- `_load_subentry`, by the entry.
unfoldable pub kept_or_discarded :
    Files → Option (Dict String Json) → String → String → Disk → Loaded
kept_or_discarded files (some payload) ns key disk = (ok (some payload), disk)
kept_or_discarded files none ns key disk = (ok none, discard files ns key disk)

unfoldable pub load_found : Files → Option Entry → String → String → Disk → Loaded
load_found files none ns key disk = (ok none, disk)
load_found files (some no_file) ns key disk = (ok none, discard files ns key disk)
load_found files (some unreadable) ns key disk = (ok none, disk)
load_found files (some undecoded) ns key disk = (err not_utf8, disk)
load_found files (some corrupt) ns key disk = (ok none, discard files ns key disk)
load_found files (some (holds payload)) ns key disk =
    kept_or_discarded files (valid_payload payload) ns key disk

unfoldable pub load_subentry : Files → String → String → Disk → Loaded
load_subentry files ns key disk = load_found files (entry_at ns key disk) ns key disk

-- `_store_subentry`: the staged directory replaces the target only where there is none.
unfoldable pub store_found : Option Entry → String → String → Json → Disk → Disk
store_found (some entry) ns key payload disk = put ns (namespace ns disk) disk
store_found none ns key payload disk =
    put ns (put key (holds (sort_json payload)) (namespace ns disk)) disk

unfoldable pub store_subentry : String → String → Json → Disk → Disk
store_subentry ns key payload disk = store_found (entry_at ns key disk) ns key payload disk

abbrev pub Lookup : Type 0 → Type 0
Lookup A = Result DecodeError (Option A) × Disk

-- The end of `lookup_toolchains`.
unfoldable pub check_toolchains : Files → Parsed Toolchains → String → Disk → Lookup Toolchains
check_toolchains files (err e) key disk = (ok none, discard files toolchains_kind key disk)
check_toolchains files (ok t) key disk =
    if not (t.tc_aggregate_drv == "") && not (files.exists t.tc_aggregate_drv)
    then (ok none, discard files toolchains_kind key disk)
    else (ok (some t), disk)

unfoldable pub toolchains_loaded : Files → Loaded → String → Lookup Toolchains
toolchains_loaded files (err e, disk) key = (err e, disk)
toolchains_loaded files (ok none, disk) key = (ok none, disk)
toolchains_loaded files (ok (some payload), disk) key =
    check_toolchains files (toolchains_from_payload payload) key disk

unfoldable pub lookup_toolchains : Files → String → Disk → Lookup Toolchains
lookup_toolchains files key disk =
    toolchains_loaded files (load_subentry files toolchains_kind key disk) key

unfoldable pub store_toolchains : String → Toolchains → Disk → Disk
store_toolchains key t disk =
    store_subentry toolchains_kind key (toolchains_payload entry_version t) disk

unfoldable pub check_variants : Files → Parsed Metadata → String → Disk → Lookup Metadata
check_variants files (err e) key disk = (ok none, discard files variants_kind key disk)
check_variants files (ok meta) key disk = (ok (some meta), disk)

unfoldable pub variants_loaded : Files → Loaded → String → Lookup Metadata
variants_loaded files (err e, disk) key = (err e, disk)
variants_loaded files (ok none, disk) key = (ok none, disk)
variants_loaded files (ok (some payload), disk) key =
    check_variants files (variants_from_payload payload) key disk

unfoldable pub lookup_variants : Files → String → Disk → Lookup Metadata
lookup_variants files key disk =
    variants_loaded files (load_subentry files variants_kind key disk) key

unfoldable pub store_variants : String → Metadata → Disk → Disk
store_variants key meta disk =
    store_subentry variants_kind key (variants_payload entry_version meta) disk

-- `invalidate`, with the removal of a legacy directory of the key's name; a removal that fails is
-- raised there, and not modelled.
unfoldable pub remove_subentry : String → String → Disk → Disk
remove_subentry ns key disk =
    if is_some (entry_at ns key disk) then remove_dir ns key disk else disk

unfoldable pub invalidate : String → Disk → Disk
invalidate key disk =
    let disk' = remove_subentry variants_kind key (remove_subentry toolchains_kind key disk) in
    if contains key (toolchains_kind ∷ variants_kind ∷ []) then disk' else remove key disk'

-- `".tmp" in name`
unfoldable pub starts_with : Text → Text → Bool
starts_with [] text = true
starts_with (c ∷ prefix) [] = false
starts_with (c ∷ prefix) (d ∷ text) = c == d && starts_with prefix text

unfoldable pub has_part : Text → Text → Bool
unfolding starts_with
has_part part [] = starts_with part []
has_part part (c ∷ text) = starts_with part (c ∷ text) || has_part part text

unfoldable pub is_tmp : String → Bool
is_tmp name = has_part (codes ".tmp") (codes name)

-- `clear`: the number of entries, and the empty cache.
unfoldable pub count_entries : Dict String Entry → ℕ
count_entries [] = 0
count_entries ((name, e) ∷ rest) = let n = count_entries rest in if is_tmp name then n else n + 1

unfoldable pub count_children : Disk → ℕ
count_children [] = 0
count_children ((name, d) ∷ rest) =
    let n = count_children rest in
    if is_tmp name
    then n
    else if contains name (toolchains_kind ∷ variants_kind ∷ [])
    then count_entries d + n
    else 1 + n

unfoldable pub clear : Disk → ℕ × Disk
clear disk = (count_children disk, [])
