-- ===== src/Holding.antt =====
-- python/compiler_suit_runner/holding_matcher.py: whether a task that was marked unfulfillable can be
-- fulfilled again. A text is its code points; the regular expression is read as Python's `re` does,
-- from the left, each match as long as it can be, and the next one from its end.
use asm_dataset_nix.Prelude.{
  ℕ, zero, suc, ◌+◌, String, Bool, true, false, not, Option, none, some, List, [], ◌∷◌, ◌++◌,
  length, leb, nat_beq, if◌then◌else◌, ◌&&◌, ◌||◌,
}
use asm_dataset_nix.Prelude.Dict.{Dict}
use asm_dataset_nix.Json.Dumps.{Text, codes}
pub mod Reasons

abbrev pub text_beq : Text → Text → Bool
text_beq [] [] = true
text_beq [] (d ∷ t) = false
text_beq (c ∷ s) [] = false
text_beq (c ∷ s) (d ∷ t) = nat_beq c d && text_beq s t

-- The text after a prefix, if it has it.
abbrev pub after_text : Text → Text → Option Text
after_text [] t = some t
after_text (c ∷ p) [] = none
after_text (c ∷ p) (d ∷ t) = let rest = after_text p t in if nat_beq c d then rest else none

-- The longest start of a text in one class of characters, and what follows it.
abbrev pub take_while : (ℕ → Bool) → Text → Text
take_while f [] = []
take_while f (c ∷ t) = let rest = take_while f t in if f c then c ∷ rest else []

abbrev pub drop_while : (ℕ → Bool) → Text → Text
drop_while f [] = []
drop_while f (c ∷ t) = let rest = drop_while f t in if f c then rest else c ∷ t

-- `[a-z0-9]` and `[^ \n]`
abbrev pub is_hash : ℕ → Bool
is_hash c = (leb 97 c && leb c 122) || (leb 48 c && leb c 57)

abbrev pub is_name : ℕ → Bool
is_name c = not (nat_beq c 32 || nat_beq c 10)

-- The group of a match, from the hash and the name.
unfoldable pub store_path : Text → Text → Text
store_path hash name = codes "/nix/store/" ++ (hash ++ 45 ∷ name)

-- `[^ \n]+`, `-` and `[a-z0-9]+`: neither the hash nor the name may be empty.
unfoldable pub named : Text → Text → Option Text
unfolding store_path
named hash [] = none
named hash (n ∷ ns) = some (store_path hash (n ∷ ns))

unfoldable pub hashed : Text → Text → Option Text
unfolding named
hashed [] rest = none
hashed (h ∷ hs) [] = none
hashed (h ∷ hs) (d ∷ rest) = if nat_beq d 45 then named (h ∷ hs) (take_while is_name rest) else none

-- The group of `_OUTPATH_RE` where it matches at the start of a text.
unfoldable pub outpath_at : Text → Option Text
unfolding hashed
outpath_at t = elim (after_text (codes "outpath=/nix/store/") t) [
  | none ↦ none
  | some rest ↦ hashed (take_while is_hash rest) (drop_while is_hash rest)
]

-- A match at this character takes the characters after it that it covers.
abbrev pub found : Option Text → (ℕ → List Text) → List Text
found none go_on = go_on 0
found (some path) go_on = path ∷ go_on (7 + length path)

-- `_OUTPATH_RE.findall`, after a number of characters that the match before covers.
unfoldable pub find_all : ℕ → Text → List Text
unfolding outpath_at
find_all n [] = []
find_all (suc n) (c ∷ t) = find_all n t
find_all zero (c ∷ t) = found (outpath_at (c ∷ t)) (λ n. find_all n t)

-- `extract_outpaths_from_unfulfillable_reason`; no reason is the empty text.
unfoldable pub extract_outpaths_from_unfulfillable_reason : Text → List Text
unfolding find_all
extract_outpaths_from_unfulfillable_reason reason = find_all 0 reason

abbrev pub holds : Text → List Text → Bool
holds outpath [] = false
holds outpath (p ∷ held) = text_beq p outpath || holds outpath held

-- The loop over the peers.
abbrev pub is_held : Dict String (List Text) → Text → Bool
is_held [] outpath = false
is_held ((peer_id, held) ∷ holdings) outpath = holds outpath held || is_held holdings outpath

unfoldable pub any_held : Dict String (List Text) → List Text → Bool
any_held holdings [] = false
any_held holdings (outpath ∷ outpaths) = is_held holdings outpath || any_held holdings outpaths

-- `matcher`: with no holdings, no reason or no outpath the loops find nothing.
unfoldable pub matcher : Text → Dict String (List Text) → Bool
unfolding any_held extract_outpaths_from_unfulfillable_reason
matcher reason holdings = any_held holdings (extract_outpaths_from_unfulfillable_reason reason)

-- `UNFULFILLABLE_REASON_TEMPLATE`
unfoldable pub unfulfillable_reason : Text → Text → Text
unfulfillable_reason outpath dead_holders =
    codes "toolchain outpath=" ++ (outpath ++ (codes " dead_holders=" ++ dead_holders))
