-- ===== src/Handoff/Headers.antt =====
-- `ManifestHeader` of manifest_gen.py and manifest_glue.py of dependency_graph_planner. The argument
-- `format` is Python's text of a value that is not a text.
use asm_dataset_nix.Prelude.{
  string_eq, ℕ, String, Bool, true, false, not, Option, none, some, List, [], ◌∷◌, ◌==◌,
  if◌then◌else◌, ◌&&◌,
}
use asm_dataset_nix.Prelude.Int.{ℤ, pos, int_eq}
use asm_dataset_nix.Prelude.Dict.{Dict, get, put, or_else, is_some}
use asm_dataset_nix.Json.{Json, null, bool, int, str, arr, obj, nil, cons, end, field}
use asm_dataset_nix.StreamedSpawn.Codec.{Phase4Descriptor}
use asm_dataset_nix.Planner.Descriptors.{texts}

pub record ManifestHeader : Type 0 where
  pub item_class : String
  pub name : String
  pub size : ℕ
  pub payload : Dict String Json
  pub task_id : String
  pub task_depends_on : List String
  pub build_compilers_depends_on : List String
  pub priority_hint : ℤ

-- Python's truth of a value.
abbrev pub is_true : Json → Bool
is_true null = false
is_true (bool b) = b
is_true (int z) = not (z == pos 0)
is_true (str s) = not (s == "")
is_true (arr nil) = false
is_true (arr (cons x xs)) = true
is_true (obj end) = false
is_true (obj (field k v fs)) = true

-- `d.get(k) or default`
unfoldable pub get_true : String → Json → Dict String Json → Json
unfolding get
get_true k default d = let v = or_else null (get k d) in if is_true v then v else default

-- `d.get(k, default)`
unfoldable pub get_value : String → Json → Dict String Json → Json
unfolding get
get_value k default d = or_else default (get k d)

-- `_build_header`: a field that is left out has the same value as the default.
unfoldable pub build_header : String → Phase4Descriptor → Dict String Json → ManifestHeader
build_header item_class d payload = record {
  item_class = item_class;
  name = d.name;
  size = 0;
  payload = payload;
  task_id = d.task_id;
  task_depends_on = d.depends_on;
  build_compilers_depends_on = d.build_compilers_depends_on;
  priority_hint = d.priority_hint;
}

-- `payload.setdefault("attr", ...)`
unfoldable pub common_dep_payload : Dict String Json → Dict String Json
unfolding get put get_true get_value
common_dep_payload payload =
    if is_some (get "attr" payload)
    then payload
    else put "attr" (get_true "drv" (get_value "ident" (str "") payload) payload) payload

-- `"attr" not in payload and sys_name and pkg and arch and label`
unfoldable pub needs_attr : Dict String Json → Bool
unfolding get get_value
needs_attr payload =
    not (is_some (get "attr" payload))
    && is_true (get_value "sys" (str "") payload)
    && is_true (get_value "pkg" (str "") payload)
    && is_true (get_value "arch" (str "") payload)
    && is_true (get_value "label" (str "") payload)

module _ (format : Json → String) where
  -- A value in an f-string.
  abbrev pub text_of : Json → String
  text_of (str s) = s
  text_of j = format j

  unfoldable pub variant_attr : Dict String Json → String
  unfolding get_value
  variant_attr payload = texts (
      "dataset."
      ∷ text_of (get_value "sys" (str "") payload)
      ∷ "."
      ∷ text_of (get_value "pkg" (str "") payload)
      ∷ "."
      ∷ text_of (get_value "arch" (str "") payload)
      ∷ "."
      ∷ text_of (get_value "label" (str "") payload)
      ∷ [])

  unfoldable pub variant_attr_payload : Dict String Json → Dict String Json
  unfolding put needs_attr variant_attr
  variant_attr_payload payload =
      if needs_attr payload then put "attr" (str (variant_attr payload)) payload else payload

  -- One round of the loop: no header for a kind that is not known.
  unfoldable pub header_of : Phase4Descriptor → Option ManifestHeader
  unfolding common_dep_payload variant_attr_payload build_header
  header_of d =
      if d.kind == "build_common_dep"
      then some (build_header "build_common_dep" d (common_dep_payload d.payload))
      else if d.kind == "build_variant"
      then some (build_header "build_variant" d (variant_attr_payload d.payload))
      else none

  abbrev pub cons_some : Option ManifestHeader → List ManifestHeader → List ManifestHeader
  cons_some none hs = hs
  cons_some (some h) hs = h ∷ hs

  unfoldable pub headers_from_descriptors : List Phase4Descriptor → List ManifestHeader
  unfolding header_of
  headers_from_descriptors [] = []
  headers_from_descriptors (d ∷ ds) = cons_some (header_of d) (headers_from_descriptors ds)
