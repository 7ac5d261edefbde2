-- ===== src/Cache/KeyProofs.antt =====
-- What the keys of the incremental cache depend on, and that they keep their inputs apart.
use mathlib.Core.List.{append_assoc, append-nil}
use asm_dataset_nix.Prelude.{
  string_eq, ℕ, zero, suc, ◌/◌, ◌%◌, ◌^◌, ◌<◌, ◌≡◌, refl, sym, ap, ◌∙◌, String, Option, none, some,
  List, [], ◌∷◌, ◌++◌, length, length-append, contains, arith,
}
use asm_dataset_nix.Prelude.Int.{ℤ}
use asm_dataset_nix.Json.Dumps.{Text, codes}
use asm_dataset_nix.Partition.Sets.{dedupe_sorted_cong}
use asm_dataset_nix.Cache.Key.{
  canonical_str_tuple, toolchain_axes, variant_axes, toolchain_bytes, variant_bytes,
  InputHashInputs, to_bytes, prefixed, hash_message, compute_subentry_key,
}

append_cancel :
    (xs ys us vs : Text) → length xs ≡ length ys → xs ++ us ≡ ys ++ vs → (xs ≡ ys) × (us ≡ vs)
append_cancel [] [] us vs h p = (refl, p)
append_cancel [] (y ∷ ys) us vs h p = absurd (omega (arith, h))
append_cancel (x ∷ xs) [] us vs h p = absurd (omega (arith, h))
append_cancel (x ∷ xs) (y ∷ ys) us vs h p =
    ground (arith, append_cancel xs ys us vs (omega (arith, h)), p)

length-to_bytes : (w n : ℕ) → length (to_bytes w n) ≡ w
unfolding to_bytes
length-to_bytes zero n = refl
length-to_bytes (suc w) n =
    omega
      (arith, length-append (to_bytes w (n / 256)) ((n % 256) ∷ []), length-to_bytes w (n / 256))

to_bytes-inj : (w n m : ℕ) → n < 256 ^ w → m < 256 ^ w → to_bytes w n ≡ to_bytes w m → n ≡ m
unfolding to_bytes
to_bytes-inj zero n m h k p = omega (arith, h, k)
to_bytes-inj (suc w) n m h k p =
    let (high, low) =
      append_cancel (to_bytes w (n / 256)) (to_bytes w (m / 256)) ((n % 256) ∷ []) ((m % 256) ∷ [])
        (length-to_bytes w (n / 256) ∙ sym (length-to_bytes w (m / 256))) p in
    let same = to_bytes-inj w (n / 256) (m / 256) (omega (arith, h)) (omega (arith, k)) high in
    let digit : n % 256 ≡ m % 256 = ground (arith, low) in omega (arith, same, digit)

-- The length of a part fits the eight bytes that `to_bytes` writes.
abbrev pub Fits : Text → Type 0
Fits part = length part < 256 ^ 8

prefixed_cancel :
    (name p q us vs : Text)
    → Fits p
    → Fits q
    → prefixed name p ++ us ≡ prefixed name q ++ vs
    → (p ≡ q) × (us ≡ vs)
unfolding prefixed
prefixed_cancel name p q us vs h k e =
    let (same_name, after_name) =
      append_cancel name name ((to_bytes 8 (length p) ++ p) ++ us)
        ((to_bytes 8 (length q) ++ q) ++ vs) refl
        (sym (append_assoc name (to_bytes 8 (length p) ++ p) us)
          ∙ (e ∙ append_assoc name (to_bytes 8 (length q) ++ q) vs)) in
    let (same_size, after_size) =
      append_cancel (to_bytes 8 (length p)) (to_bytes 8 (length q)) (p ++ us) (q ++ vs)
        (length-to_bytes 8 (length p) ∙ sym (length-to_bytes 8 (length q)))
        (sym (append_assoc (to_bytes 8 (length p)) p us)
          ∙ (after_name ∙ append_assoc (to_bytes 8 (length q)) q vs)) in
    append_cancel p q us vs (to_bytes-inj 8 (length p) (length q) h k same_size) after_size

pub record FitsAll (i : InputHashInputs) : Type 0 where
  pub lock_fits : Fits i.flake_lock
  pub rev_fits : Fits i.git_rev
  pub diff_fits : Fits i.git_diff
  pub invocation_fits : Fits i.invocation

-- Inputs whose parts have lengths of 64 bits have different hashed messages when they differ: no
-- part can pass for another's end or beginning.
pub hash_message-inj :
    (i j : InputHashInputs) → FitsAll i → FitsAll j → hash_message i ≡ hash_message j → i ≡ j
unfolding hash_message
hash_message-inj i j h k e =
    let (lock, r) =
      prefixed_cancel (codes "flake_lock:") i.flake_lock j.flake_lock _ _ h.lock_fits k.lock_fits
        e in
    let (rev, s) =
      prefixed_cancel (codes "git_rev:") i.git_rev j.git_rev _ _ h.rev_fits k.rev_fits r in
    let (diff, t) =
      prefixed_cancel (codes "git_diff:") i.git_diff j.git_diff _ _ h.diff_fits k.diff_fits s in
    let (invocation, u) =
      prefixed_cancel (codes "invocation:") i.invocation j.invocation [] [] h.invocation_fits
        k.invocation_fits
        (append-nil (prefixed (codes "invocation:") i.invocation)
          ∙ (t ∙ sym (append-nil (prefixed (codes "invocation:") j.invocation)))) in
    ground (arith, lock, rev, diff, invocation)

-- Two optional lists that hold the same texts, or are both `None`.
pub data SameTexts : Option (List String) → Option (List String) → Type 0 where
  both_all : SameTexts none none
  both_some :
      (xs ys : List String)
      → ((a : String) → contains a xs ≡ contains a ys)
      → SameTexts (some xs) (some ys)

canonical_str_tuple_cong :
    {xs ys : Option (List String)}
    → SameTexts xs ys
    → canonical_str_tuple xs ≡ canonical_str_tuple ys
unfolding canonical_str_tuple
canonical_str_tuple_cong both_all = refl
canonical_str_tuple_cong (both_some xs ys h) = ap some (dedupe_sorted_cong xs ys h)

-- The key of a toolchains entry does not depend on the order or the repetition of `--archs`.
pub toolchains_key_cong :
    (sha256 : Text → String) (i : InputHashInputs) (sys_name : String)
    (archs archs' : Option (List String))
    → SameTexts archs archs'
    → compute_subentry_key sha256 i (toolchain_bytes (toolchain_axes sys_name archs))
      ≡ compute_subentry_key sha256 i (toolchain_bytes (toolchain_axes sys_name archs'))
unfolding toolchain_axes
toolchains_key_cong sha256 i sys_name archs archs' h =
    ap
      (λ a.
        compute_subentry_key sha256 i (toolchain_bytes (record { sys_name = sys_name; archs = a })))
      (canonical_str_tuple_cong h)

-- Nor does that of a variants entry depend on those of `--packages` and `--archs`.
pub variants_key_cong :
    (sha256 : Text → String) (i : InputHashInputs) (sys_name : String)
    (packages packages' archs archs' : Option (List String)) (sample : ℤ) (seed : String)
    → SameTexts packages packages'
    → SameTexts archs archs'
    → compute_subentry_key sha256 i
        (variant_bytes (variant_axes sys_name packages archs sample seed))
      ≡ compute_subentry_key sha256 i
          (variant_bytes (variant_axes sys_name packages' archs' sample seed))
unfolding variant_axes
variants_key_cong sha256 i sys_name packages packages' archs archs' sample seed h k =
    rw (canonical_str_tuple_cong h, canonical_str_tuple_cong k) refl
