-- ===== src/Cache/Payload.antt =====
-- The payloads of incremental_cache.py and their validation. A `ValueError` keeps what its message
-- is made of, as far as it tells the branches apart.
use asm_dataset_nix.Prelude.{
  string_eq, pair_eq, String, Bool, true, false, not, ◌&&◌, if◌then◌else◌, Option, none, some, List,
  [], ◌∷◌, map,
}
use asm_dataset_nix.Prelude.Int.{ℤ}
use asm_dataset_nix.Prelude.Dict.{Dict, get, put, is_some}
use asm_dataset_nix.Prelude.Result.{Result, ok, err, ◌>>=◌, ◌>>◌}
use asm_dataset_nix.Json.{
  Json, int, str, arr, obj, Items, nil, cons, Fields, end, field, object, array, str_array,
  field_dict,
}
use asm_dataset_nix.Partition.ShardFiles.{string_items}
use asm_dataset_nix.Cache.Key.{toolchains_kind, variants_kind}

abbrev pub Pair : Type 0
Pair = String × String

-- What `enumerate_toolchains_only` returns.
pub record Toolchains : Type 0 where
  pub tc_pairs : List Pair
  pub tc_drvs : Dict Pair String
  pub tc_aggregate_drv : String

pub data PayloadError : Type 0 where
  bad_pairs bad_drvs bad_aggregate malformed_pair malformed_drv : PayloadError
  bad_meta_map bad_meta missing_keys bad_archs : PayloadError

abbrev pub Parsed : Type 0 → Type 0
Parsed A = Result PayloadError A

-- `_toolchains_payload`
unfoldable pub toolchains_payload : ℤ → Toolchains → Json
toolchains_payload version t = object (
    ("version", int version)
    ∷ ("kind", str toolchains_kind)
    ∷ ("tc_pairs", array (map (λ p. str_array (p.0 ∷ p.1 ∷ [])) t.tc_pairs))
    ∷ ("tc_drvs", array (map (λ e. str_array (e.0.0 ∷ e.0.1 ∷ e.1 ∷ [])) t.tc_drvs))
    ∷ ("tc_aggregate_drv", str t.tc_aggregate_drv)
    ∷ [])

-- An entry of `tc_pairs`: two texts.
unfoldable pub pair_of : Option (List String) → Parsed Pair
pair_of (some (arch ∷ compiler ∷ [])) = ok (arch, compiler)
pair_of _ = err malformed_pair

unfoldable pub drv_of : Option (List String) → Parsed (Pair × String)
drv_of (some (arch ∷ compiler ∷ drv ∷ [])) = ok ((arch, compiler), drv)
drv_of _ = err malformed_drv

-- The texts of a list of texts, if it is one.
unfoldable pub texts_of : Json → Option (List String)
unfolding string_items
texts_of (arr xs) = string_items xs
texts_of _ = none

-- The loop over `pairs_raw`.
unfoldable pub pairs_of : Items → Parsed (List Pair)
pairs_of nil = ok []
pairs_of (cons x xs) = do p ← pair_of (texts_of x); rest ← pairs_of xs; ok (p ∷ rest)

-- The loop over `drvs_raw`, which fills a dict.
unfoldable pub drvs_of : Dict Pair String → Items → Parsed (Dict Pair String)
drvs_of drvs nil = ok drvs
drvs_of drvs (cons x xs) = do e ← drv_of (texts_of x); drvs_of (put e.0 e.1 drvs) xs

unfoldable pub list_of : PayloadError → Option Json → Parsed Items
list_of e (some (arr xs)) = ok xs
list_of e _ = err e

unfoldable pub aggregate_of : Option Json → Parsed String
aggregate_of (some (str s)) = ok s
aggregate_of _ = err bad_aggregate

-- `_toolchains_from_payload`
unfoldable pub toolchains_from_payload : Dict String Json → Parsed Toolchains
unfolding list_of aggregate_of get
toolchains_from_payload payload = do
  pairs_raw ← list_of bad_pairs (get "tc_pairs" payload)
  drvs_raw ← list_of bad_drvs (get "tc_drvs" payload)
  aggregate ← aggregate_of (get "tc_aggregate_drv" payload)
  pairs ← pairs_of pairs_raw
  drvs ← drvs_of [] drvs_raw
  ok (record { tc_pairs = pairs; tc_drvs = drvs; tc_aggregate_drv = aggregate })

-- The metadata of the binaries: a JSON object of each.
abbrev pub Metadata : Type 0
Metadata = Fields

-- `_variants_payload`
unfoldable pub variants_payload : ℤ → Metadata → Json
variants_payload version meta = object (
    ("version", int version) ∷ ("kind", str variants_kind) ∷ ("per_binary_meta_raw", obj meta) ∷ [])

-- `[k for k in _VARIANT_META_REQUIRED_KEYS if k not in meta]` is empty.
unfoldable pub has_keys : List String → Dict String Json → Bool
unfolding get
has_keys [] meta = true
has_keys (k ∷ ks) meta = is_some (get k meta) && has_keys ks meta

abbrev pub required_keys : List String
required_keys = "archs" ∷ "sample_size" ∷ "sample_seed" ∷ "tier" ∷ []

-- `isinstance(archs, list)` with texts only, of what `get` gave.
unfoldable pub has_archs : Option Json → Bool
unfolding texts_of
has_archs none = false
has_archs (some x) = is_some (texts_of x)

unfoldable pub check_meta : Json → Parsed (Unit {0})
check_meta (obj fs) =
    let meta = field_dict fs in
    if not (has_keys required_keys meta)
    then err missing_keys
    else if has_archs (get "archs" meta)
    then ok tt
    else err bad_archs
check_meta _ = err bad_meta

-- The loop over `raw.items()`.
unfoldable pub check_all : Fields → Parsed (Unit {0})
check_all end = ok tt
check_all (field pkg meta fs) = do check_meta meta; check_all fs

unfoldable pub meta_map_of : Option Json → Parsed Fields
meta_map_of (some (obj fs)) = ok fs
meta_map_of _ = err bad_meta_map

-- `_variants_from_payload`
unfoldable pub variants_from_payload : Dict String Json → Parsed Metadata
unfolding meta_map_of check_all get
variants_from_payload payload = do
  raw ← meta_map_of (get "per_binary_meta_raw" payload)
  check_all raw
  ok raw
