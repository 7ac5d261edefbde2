-- ===== src/Json/Dumps.antt =====
-- `json.dumps(value, separators=(",", ":"), ensure_ascii=True)`, as the code points of the text.
-- The text is ASCII, so that its code points are its bytes in utf-8.
use Prim.Native.Char.{code}
use asm_dataset_nix.Prelude.{
  ℕ, zero, suc, ◌+◌, ◌-◌, ◌/◌, ◌%◌, String, true, false, List, [], ◌∷◌, ◌++◌, ltb, leb, nat_beq,
  if◌then◌else◌, ◌&&◌,
}
use asm_dataset_nix.Prelude.Int.{ℤ, pos, negsuc}
use asm_dataset_nix.Json.{
  Json, null, bool, int, str, arr, obj, Items, nil, cons, Fields, end, field,
}

abbrev pub Text : Type 0
Text = List ℕ

-- The code points of a text.
abbrev pub codes : String → Text
codes String.[] = []
codes (String.◌∷◌ c s) = code c ∷ codes s

-- The decimal digits of a number, by rounds of division; `suc n` rounds are enough for `n`.
digits_from : ℕ → ℕ → Text → Text
digits_from zero n rest = rest
digits_from (suc fuel) n rest =
    let more = digits_from fuel (n / 10) ((48 + n % 10) ∷ rest) in
    if ltb n 10 then (48 + n) ∷ rest else more

unfoldable pub decimal : ℕ → Text
unfolding digits_from
decimal n = digits_from (suc n) n []

abbrev hex_digit : ℕ → ℕ
hex_digit n = if ltb n 10 then 48 + n else 87 + n

-- `\uXXXX`
unicode_escape : ℕ → Text
unicode_escape n =
    92
    ∷ 117
    ∷ hex_digit (n / 4096 % 16)
    ∷ hex_digit (n / 256 % 16)
    ∷ hex_digit (n / 16 % 16)
    ∷ hex_digit (n % 16)
    ∷ []

-- Escapes of `ensure_ascii`: beyond the basic plane a surrogate pair.
escape : ℕ → Text
unfolding unicode_escape
escape c =
    if nat_beq c 34
    then 92 ∷ 34 ∷ []
    else if nat_beq c 92
    then 92 ∷ 92 ∷ []
    else if nat_beq c 10
    then 92 ∷ 110 ∷ []
    else if nat_beq c 13
    then 92 ∷ 114 ∷ []
    else if nat_beq c 9
    then 92 ∷ 116 ∷ []
    else if nat_beq c 12
    then 92 ∷ 102 ∷ []
    else if nat_beq c 8
    then 92 ∷ 98 ∷ []
    else if leb 32 c && leb c 126
    then c ∷ []
    else if ltb c 65536
    then unicode_escape c
    else unicode_escape (55296 + (c - 65536) / 1024) ++ unicode_escape (56320 + (c - 65536) % 1024)

escape_all : Text → Text
unfolding escape
escape_all [] = []
escape_all (c ∷ s) = escape c ++ escape_all s

unfoldable pub quoted : String → Text
unfolding escape_all
quoted s = 34 ∷ (escape_all (codes s) ++ 34 ∷ [])

pub dumps_int : ℤ → Text
unfolding decimal
dumps_int (pos n) = decimal n
dumps_int (negsuc n) = 45 ∷ decimal (suc n)

unfoldable mutual
  unfolding quoted dumps_int

  pub dumps : Json → Text
  dumps null = codes "null"
  dumps (bool true) = codes "true"
  dumps (bool false) = codes "false"
  dumps (int z) = dumps_int z
  dumps (str s) = quoted s
  dumps (arr xs) = b'[' ∷ (dumps_items xs ++ b']' ∷ [])
  dumps (obj fs) = b'{' ∷ (dumps_fields fs ++ b'}' ∷ [])

  pub dumps_items : Items → Text
  dumps_items nil = []
  dumps_items (cons x xs) = dumps x ++ dumps_more_items xs

  pub dumps_more_items : Items → Text
  dumps_more_items nil = []
  dumps_more_items (cons x xs) = b',' ∷ (dumps x ++ dumps_more_items xs)

  pub dumps_fields : Fields → Text
  dumps_fields end = []
  dumps_fields (field k v fs) = quoted k ++ b':' ∷ (dumps v ++ dumps_more_fields fs)

  pub dumps_more_fields : Fields → Text
  dumps_more_fields end = []
  dumps_more_fields (field k v fs) = b',' ∷ (quoted k ++ b':' ∷ (dumps v ++ dumps_more_fields fs))
