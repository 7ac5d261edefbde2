-- ===== src/Cache/Lookups.antt =====
-- Lookups of toolchains: what was stored is found, and what is invalid makes room.
use asm_dataset_nix.Prelude.{
  string_eq, pair_eq, ◌≡◌, refl, ◌∙◌, if◌then◌else◌, String, Bool, true, false, not, ◌&&◌, Option,
  none, some, ◌==◌, ==_refl, arith, by_guard,
}
use asm_dataset_nix.Prelude.Dict.{Dict, IsDict}
use asm_dataset_nix.Prelude.Result.{ok, err}
use asm_dataset_nix.Json.{Json}
use asm_dataset_nix.Cache.Key.{sort_json, toolchains_kind}
use asm_dataset_nix.Cache.Payload.{Parsed, Toolchains, toolchains_payload, toolchains_from_payload}
use asm_dataset_nix.Cache.RoundTrip.{valid_payload-written, toolchains_from_payload-written}
use asm_dataset_nix.Cache.Entries.{entry_at-store_subentry}
use asm_dataset_nix.Cache.Store.{
  Entry, unreadable, undecoded, holds, Disk, Files, not_utf8, Lookup, entry_at, valid_payload,
  kept_or_discarded, load_found, load_subentry, check_toolchains, toolchains_loaded,
  lookup_toolchains, store_toolchains, entry_version,
}

-- The derivation that an entry refers to, if any, is in the store.
abbrev pub is_present : (String → Bool) → Toolchains → Bool
is_present exists t = not (not (t.tc_aggregate_drv == "") && not (exists t.tc_aggregate_drv))

-- What an entry is worth: the enumeration that it holds in the right form, if the derivation that it
-- refers to exists.
abbrev pub present : (String → Bool) → Parsed Toolchains → Option Toolchains
present exists (err e) = none
present exists (ok t) = if is_present exists t then some t else none

abbrev pub worth : (String → Bool) → Entry → Option Toolchains
worth exists (holds payload) = elim (valid_payload payload) [
  | none ↦ none
  | some fields ↦ present exists (toolchains_from_payload fields)
]
worth exists _ = none

module _ (files : Files) (key : String) where
  abbrev pub entry : Disk → Option Entry
  entry disk = entry_at toolchains_kind key disk

  entry-store_toolchains :
      (t : Toolchains) (disk : Disk)
      → entry disk ≡ none
      → entry (store_toolchains key t disk)
        ≡ some (holds (sort_json (toolchains_payload entry_version t)))
  unfolding store_toolchains
  entry-store_toolchains t disk h =
      entry_at-store_subentry toolchains_kind key toolchains_kind key
        (toolchains_payload entry_version t) disk
      ∙ ground (arith, ==_refl key, h)

  lookup_of_holds :
      (t : Toolchains) (disk : Disk)
      → IsDict t.tc_drvs
      → is_present files.exists t ≡ true
      → entry disk ≡ some (holds (sort_json (toolchains_payload entry_version t)))
      → lookup_toolchains files key disk ≡ (ok (some t), disk)
  unfolding lookup_toolchains load_subentry load_found kept_or_discarded toolchains_loaded
      check_toolchains
  lookup_of_holds t disk h p e =
      rw (e, valid_payload-written t, toolchains_from_payload-written t h)
        (by_guard (λ (r : Lookup Toolchains). r ≡ (ok (some t), disk))
          (not (t.tc_aggregate_drv == "") && not (files.exists t.tc_aggregate_drv)) _ _
          (λ l. absurd (ground (arith, l, p))) (λ l. refl))

  -- Where no entry is, storing makes the lookup give exactly what was stored, if the derivation
  -- that it refers to exists; the lookup changes nothing then.
  pub lookup_toolchains-store :
      (t : Toolchains) (disk : Disk)
      → IsDict t.tc_drvs
      → is_present files.exists t ≡ true
      → entry disk ≡ none
      → lookup_toolchains files key (store_toolchains key t disk)
        ≡ (ok (some t), store_toolchains key t disk)
  lookup_toolchains-store t disk h p e =
      lookup_of_holds t (store_toolchains key t disk) h p (entry-store_toolchains t disk e)

  -- What a lookup makes of each entry.
  pub data Settled (disk : Disk) : Lookup Toolchains → Type 0 where
    absent : entry disk ≡ none → Settled disk (ok none, disk)
    hit :
        (e : Entry) (t : Toolchains)
        → entry disk ≡ some e
        → worth files.exists e ≡ some t
        → Settled disk (ok (some t), disk)
    kept : entry disk ≡ some unreadable → Settled disk (ok none, disk)
    raised : entry disk ≡ some undecoded → Settled disk (err not_utf8, disk)
    discarded :
        (e : Entry) (disk' : Disk)
        → entry disk ≡ some e
        → worth files.exists e ≡ none
        → entry disk' ≡ files.left e
        → ((ns k : String)
            → (toolchains_kind == ns && key == k) ≡ false
            → entry_at ns k disk' ≡ entry_at ns k disk)
        → Settled disk (ok none, disk')
