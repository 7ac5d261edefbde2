-- ===== src/Cache/Entries.antt =====
-- What the operations of the incremental cache do to its entries.
use asm_dataset_nix.Prelude.{
  string_eq, ◌≡◌, ap, ◌∙◌, String, Bool, true, false, not, ◌&&◌, Option, none, some, [], ◌∷◌, ◌==◌,
  ==_iff, contains, arith, if◌then◌else◌, by_guard,
}
use asm_dataset_nix.Prelude.Dict.{Dict, get, put, remove, or_else, is_some, get-put, get-remove}
use asm_dataset_nix.Json.{Json}
use asm_dataset_nix.Cache.Key.{sort_json, toolchains_kind, variants_kind}
use asm_dataset_nix.Cache.Store.{
  Entry, holds, Disk, Files, leave, left_of, discard, namespace, entry_at, remove_dir, store_found,
  store_subentry, remove_subentry, invalidate,
}

-- The entries after one namespace is replaced.
entry_at-put :
    (ns key ns' : String) (d : Dict String Entry) (disk : Disk)
    → entry_at ns key (put ns' d disk) ≡ (if ns' == ns then get key d else entry_at ns key disk)
unfolding entry_at
entry_at-put ns key ns' d disk = rw (get-put ns' ns d disk) (ground arith)

get-namespace :
    (ns key ns' : String) (disk : Disk)
    → (ns' == ns) ≡ true
    → get key (namespace ns' disk) ≡ entry_at ns key disk
unfolding entry_at
get-namespace ns key ns' disk h = ap (λ n. get key (namespace n disk)) ((==_iff ns' ns).0 h)

pub entry_at-remove_dir :
    (ns key ns' key' : String) (disk : Disk)
    → entry_at ns key (remove_dir ns' key' disk)
      ≡ (if ns' == ns && key' == key then none else entry_at ns key disk)
unfolding remove_dir
entry_at-remove_dir ns key ns' key' disk = ground (
  arith,
  entry_at-put ns key ns' (remove key' (namespace ns' disk)) disk,
  get-remove key' key (namespace ns' disk),
  get-namespace ns key ns' disk,
)

entry_at-leave :
    (o : Option Entry) (ns key ns' key' : String) (disk : Disk)
    → entry_at ns key (leave o ns' key' disk)
      ≡ (if ns' == ns && key' == key then o else entry_at ns key disk)
unfolding leave
entry_at-leave none ns key ns' key' disk = entry_at-remove_dir ns key ns' key' disk
entry_at-leave (some e) ns key ns' key' disk = ground (
  arith,
  entry_at-put ns key ns' (put key' e (namespace ns' disk)) disk,
  get-put key' key e (namespace ns' disk),
  get-namespace ns key ns' disk,
)

-- A discarded entry is what `rmtree` leaves of it, and other entries stay.
pub entry_at-discard :
    (files : Files) (ns key ns' key' : String) (disk : Disk)
    → entry_at ns key (discard files ns' key' disk) ≡ (
        if ns' == ns && key' == key
        then left_of files (entry_at ns' key' disk)
        else entry_at ns key disk)
unfolding discard
entry_at-discard files ns key ns' key' disk =
    entry_at-leave (left_of files (entry_at ns' key' disk)) ns key ns' key' disk

entry_at-store_found :
    (found : Option Entry) (ns key ns' key' : String) (payload : Json) (disk : Disk)
    → entry_at ns key (store_found found ns' key' payload disk) ≡ (
        if ns' == ns && key' == key && not (is_some found)
        then some (holds (sort_json payload))
        else entry_at ns key disk)
unfolding store_found
entry_at-store_found none ns key ns' key' payload disk = ground (
  arith,
  entry_at-put ns key ns' (put key' (holds (sort_json payload)) (namespace ns' disk)) disk,
  get-put key' key (holds (sort_json payload)) (namespace ns' disk),
  get-namespace ns key ns' disk,
)
entry_at-store_found (some e) ns key ns' key' payload disk =
    ground (arith, entry_at-put ns key ns' (namespace ns' disk) disk, get-namespace ns key ns' disk)

-- Storing writes the entry where there is none, with the keys of its payload in order; an entry
-- that is there stays, and so do all others.
pub entry_at-store_subentry :
    (ns key ns' key' : String) (payload : Json) (disk : Disk)
    → entry_at ns key (store_subentry ns' key' payload disk) ≡ (
        if ns' == ns && key' == key && not (is_some (entry_at ns' key' disk))
        then some (holds (sort_json payload))
        else entry_at ns key disk)
unfolding store_subentry
entry_at-store_subentry ns key ns' key' payload disk =
    entry_at-store_found (entry_at ns' key' disk) ns key ns' key' payload disk

entry_at-remove_subentry :
    (ns key ns' key' : String) (disk : Disk)
    → entry_at ns key (remove_subentry ns' key' disk)
      ≡ (if ns' == ns && key' == key then none else entry_at ns key disk)
unfolding remove_subentry
entry_at-remove_subentry ns key ns' key' disk =
    by_guard
      (λ d. entry_at ns key d ≡ (if ns' == ns && key' == key then none else entry_at ns key disk))
      (is_some (entry_at ns' key' disk)) _ _ (λ h. entry_at-remove_dir ns key ns' key' disk)
      (λ h. ground (
        arith,
        h,
        ==_iff ns' ns,
        ==_iff key' key,
        ap (λ n. entry_at n key disk),
        ap (λ k. entry_at ns' k disk),
      ))

entry_at-remove :
    (ns key k : String) (disk : Disk)
    → (k == ns) ≡ false
    → entry_at ns key (remove k disk) ≡ entry_at ns key disk
unfolding entry_at
entry_at-remove ns key k disk h =
    let same : get ns (remove k disk) ≡ get ns disk = get-remove k ns disk ∙ ground (arith, h) in
    ap (λ d. get key (or_else [] d)) same

-- A name of one of the two namespaces.
abbrev pub is_namespace : String → Bool
is_namespace ns = contains ns (toolchains_kind ∷ variants_kind ∷ [])

-- Invalidating a key, which is no namespace's name, removes its entry from both namespaces and
-- leaves the entries of other keys in them.
pub entry_at-invalidate :
    (ns key key' : String) (disk : Disk)
    → is_namespace ns ≡ true
    → is_namespace key' ≡ false
    → entry_at ns key (invalidate key' disk) ≡ (if key' == key then none else entry_at ns key disk)
unfolding invalidate
entry_at-invalidate ns key key' disk h k =
    let cleared = remove_subentry toolchains_kind key' disk in
    let other : (key' == ns) ≡ false = ground (arith, h, k, ==_iff key' ns, ap is_namespace) in
    by_guard (λ d. entry_at ns key d ≡ (if key' == key then none else entry_at ns key disk))
      (is_namespace key') _ _ (λ l. absurd (ground (arith, k, l)))
      (λ l.
        entry_at-remove ns key key' (remove_subentry variants_kind key' cleared) other
        ∙ ground (
          arith,
          h,
          entry_at-remove_subentry ns key variants_kind key' cleared,
          entry_at-remove_subentry ns key toolchains_kind key' disk,
        ))
