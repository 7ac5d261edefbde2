-- ===== src/Replication/Context.antt =====
-- `ReplicationContext` of peer_replication.py, `PeerInfo` of peer_cache.py, and what the classes do
-- to the outside. A context is read at each call, so that every operation takes its own: the
-- answers of `get_peers`, `get_placements`, the pushes and `random.sample` may differ each time.
use asm_dataset_nix.Prelude.{
  string_eq, ℕ, ◌≤◌, ◌≡◌, String, Bool, false, Option, List, [], ◌∷◌, length, contains,
  if◌then◌else◌,
}
use asm_dataset_nix.Prelude.Count.{count}
use asm_dataset_nix.Prelude.Dict.{Dict}

pub record PeerInfo : Type 0 where
  pub secondary_id : String
  pub hostname : String
  pub port : ℕ
  pub public_key : String

-- What a push or another injected call gives back: a value, or an exception, which its caller
-- logs.
pub data Call (A : Type 0) : Type 0 where
  returned : A → Call A
  raised : Call A

-- A set of texts, each once.
abbrev pub Placements : Type 0
Placements = Dict String (List String)

pub record Context : Type 0 where
  pub my_secondary_id : String
  pub get_peers : List PeerInfo
  pub get_placements : Placements
  pub push_path_offer : PeerInfo → String → String → String → Call Bool
  pub is_path_locally_valid : String → Call Bool
  pub fetch_from_peer : String → PeerInfo → Call (Option String)
  pub record_self_has : String → String → String → Call (Unit {0})
  -- Whether the two hooks of the framework are bound.
  pub has_mark_unfulfillable : Bool
  pub has_update_preferred : Bool
  pub lookup_task_hash : Option (String → Call (Option String))
  pub replication_k : ℕ
  -- `random.sample(candidates, n)`
  pub sample : List PeerInfo → ℕ → List PeerInfo

-- What `random.sample` is documented to do: it takes `n` different positions of the population, so
-- that nothing is in the sample more often than in the population.
pub record SampleLaws (sample : List PeerInfo → ℕ → List PeerInfo) : Type 0 where
  pub size : (ps : List PeerInfo) (n : ℕ) → n ≤ length ps → length (sample ps n) ≡ n
  pub picks :
      (p : PeerInfo → Bool) (ps : List PeerInfo) (n : ℕ)
      → n ≤ length ps
      → count p (sample ps n) ≤ count p ps

-- What a method does to the outside, in its order. A timer of an offer is named by the outpath and
-- the target, a settle timer by the outpath.
pub data Effect : Type 0 where
  path_offer : (target outpath drv_path item_class : String) → Effect
  path_accept : (target outpath : String) → Effect
  path_reject : (target outpath reason : String) → Effect
  path_cancel : (target outpath : String) → Effect
  timer_started timer_cancelled : (outpath target : String) → Effect
  settle_armed settle_cancelled : (outpath : String) → Effect
  update_preferred : (outpath task_hash : String) (holders : List String) → Effect
  mark_unfulfillable : (task_hash outpath : String) (dead_holders : List String) → Effect
  fetch_started : (sender outpath drv_path item_class : String) → Effect
  self_has_recorded : (outpath drv_path item_class : String) → Effect

abbrev pub Effects : Type 0
Effects = List Effect

-- `xs - excludes`, for sets.
unfoldable pub minus : List String → List String → List String
minus excludes [] = []
minus excludes (x ∷ xs) =
    let rest = minus excludes xs in if contains x excludes then rest else x ∷ rest

-- `xs | {x}`
unfoldable pub with_item : String → List String → List String
with_item x xs = if contains x xs then xs else x ∷ xs

-- `not x`, of an optional text
abbrev pub text_of : Option String → String
text_of Option.none = ""
text_of (Option.some s) = s

unfoldable pub is_delivered : Call Bool → Bool
is_delivered (returned b) = b
is_delivered raised = false
