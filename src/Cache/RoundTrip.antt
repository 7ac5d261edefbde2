-- ===== src/Cache/RoundTrip.antt =====
-- A stored toolchains payload is read back as it was.
use mathlib.Core.List.{append_assoc, append-nil}
use asm_dataset_nix.Prelude.{
  string_eq, pair_eq, ◌≡◌, refl, sym, ap, ◌∙◌, subst, String, none, some, List, [], ◌∷◌, ◌++◌, map,
  Bool-cases, inl, inr, ◌==◌, ==_iff, ==_refl, arith,
}
use asm_dataset_nix.Prelude.Order.{str_le}
use asm_dataset_nix.Prelude.Dict.{Dict, get, put, IsDict}
use asm_dataset_nix.Prelude.Result.{ok}
use asm_dataset_nix.Json.{Json, str, cons, items, array, str_array, object, int}
use asm_dataset_nix.Partition.ShardFiles.{string_items}
use asm_dataset_nix.Cache.Key.{insert_field, sort_json, sort_items, toolchains_kind}
use asm_dataset_nix.Cache.Payload.{
  Pair, Toolchains, toolchains_payload, texts_of, pair_of, drv_of, pairs_of, drvs_of,
  toolchains_from_payload,
}
use asm_dataset_nix.Cache.Store.{valid_payload, entry_version}

sort_items-str : (ss : List String) → sort_items (items (map str ss)) ≡ items (map str ss)
unfolding sort_json
sort_items-str [] = refl
sort_items-str (s ∷ ss) = ap (λ t. cons (str s) t) (sort_items-str ss)

sort_items-arrays {ℓ} :
    {A : Type ℓ} (f : A → List String) (xs : List A)
    → sort_items (items (map (λ x. str_array (f x)) xs)) ≡ items (map (λ x. str_array (f x)) xs)
unfolding sort_json
sort_items-arrays f [] = refl
sort_items-arrays f (x ∷ xs) = rw (sort_items-str (f x), sort_items-arrays f xs) refl

texts_of-str_array : (ss : List String) → texts_of (str_array ss) ≡ some ss
unfolding texts_of string_items
texts_of-str_array [] = refl
texts_of-str_array (s ∷ ss) = ap (mathlib.Core.Option.map (λ t. s ∷ t)) (texts_of-str_array ss)

pairs_of-map :
    (ps : List Pair) → pairs_of (items (map (λ p. str_array (p.0 ∷ p.1 ∷ [])) ps)) ≡ ok ps
unfolding pairs_of pair_of
pairs_of-map [] = refl
pairs_of-map ((a, c) ∷ ps) = simp (texts_of-str_array, pairs_of-map ps)

get-append :
    (k : Pair) (d e : Dict Pair String)
    → get k (d ++ e) ≡ (elim (get k d) [ none ↦ get k e | some v ↦ some v ])
unfolding get
get-append k [] e = refl
get-append k ((j, w) ∷ d) e = ground (arith, get-append k d e)

put_new :
    (k : Pair) (v : String) (d : Dict Pair String) → get k d ≡ none → put k v d ≡ d ++ (k, v) ∷ []
unfolding get put
put_new k v [] h = refl
put_new k v ((j, w) ∷ d) h = ground (arith, h, put_new k v d)

absent_before :
    (k : Pair) (v : String) (d e : Dict Pair String) → IsDict (d ++ (k, v) ∷ e) → get k d ≡ none
unfolding get
absent_before k v [] e h = refl
absent_before k v ((j, w) ∷ d) e h = elim (Bool-cases (j == k)) [
  | inl same ↦ absurd (
      ground (
        arith,
        ap (λ x. get x (d ++ (k, v) ∷ e)) (sym ((==_iff j k).0 same)) ∙ h.0,
        get-append k d ((k, v) ∷ e),
        absent_before k v d e h.1,
        ==_refl k,
      ))
  | inr other ↦ ground (arith, other, absent_before k v d e h.1)
]

drvs_of-map :
    (done d : Dict Pair String)
    → IsDict (done ++ d)
    → drvs_of done (items (map (λ e. str_array (e.0.0 ∷ e.0.1 ∷ e.1 ∷ [])) d)) ≡ ok (done ++ d)
unfolding drvs_of drv_of
drvs_of-map done [] h = ap ok (sym (append-nil done))
drvs_of-map done (((a, c), v) ∷ d) h =
    rw
      (texts_of-str_array (a ∷ c ∷ v ∷ []), put_new (a, c) v done (absent_before (a, c) v done d h))
      (drvs_of-map (done ++ ((a, c), v) ∷ []) d
          (subst IsDict (sym (append_assoc done (((a, c), v) ∷ []) d)) h)
        ∙ ap ok (append_assoc done (((a, c), v) ∷ []) d))

-- The payload as it is written, with its keys in order.
sort_json-payload :
    (t : Toolchains)
    → sort_json (toolchains_payload entry_version t)
      ≡ object (
          ("kind", str toolchains_kind)
          ∷ ("tc_aggregate_drv", str t.tc_aggregate_drv)
          ∷ ("tc_drvs", array (map (λ e. str_array (e.0.0 ∷ e.0.1 ∷ e.1 ∷ [])) t.tc_drvs))
          ∷ ("tc_pairs", array (map (λ p. str_array (p.0 ∷ p.1 ∷ [])) t.tc_pairs))
          ∷ ("version", int entry_version)
          ∷ [])
unfolding toolchains_payload sort_json insert_field str_le
sort_json-payload t =
    rw
      (
        sort_items-arrays (λ (e : Pair × String). e.0.0 ∷ e.0.1 ∷ e.1 ∷ []) t.tc_drvs,
        sort_items-arrays (λ (p : Pair). p.0 ∷ p.1 ∷ []) t.tc_pairs,
      )
      refl

-- The dict of the payload that was written for `t`.
abbrev pub written : Toolchains → Dict String Json
written t =
    ("kind", str toolchains_kind)
    ∷ ("tc_aggregate_drv", str t.tc_aggregate_drv)
    ∷ ("tc_drvs", array (map (λ e. str_array (e.0.0 ∷ e.0.1 ∷ e.1 ∷ [])) t.tc_drvs))
    ∷ ("tc_pairs", array (map (λ p. str_array (p.0 ∷ p.1 ∷ [])) t.tc_pairs))
    ∷ ("version", int entry_version)
    ∷ []

pub valid_payload-written :
    (t : Toolchains)
    → valid_payload (sort_json (toolchains_payload entry_version t)) ≡ some (written t)
unfolding valid_payload
valid_payload-written t = rw (sort_json-payload t) refl

pub toolchains_from_payload-written :
    (t : Toolchains) → IsDict t.tc_drvs → toolchains_from_payload (written t) ≡ ok t
unfolding toolchains_from_payload
toolchains_from_payload-written t h = simp (pairs_of-map t.tc_pairs, drvs_of-map [] t.tc_drvs h)
