-- ===== src/Loader/Manifest.antt =====
-- src/loader/Manifest.h and Manifest.cpp: the fields of a core.json, with their checks. The JSON
-- library is the parameter `Json`: what it parses, and what it finds in an object under a key.
pub mod Sound
mod Tests
use retro_park.Base.{ℕ, ◌%◌, ◌^◌, Option, none, some, List, if◌then◌else◌}
use retro_park.Base.Bytes.{codes, bytes_eq}
use retro_park.Abi.{CoreType, GraphicsApi}

pub record CoreManifest : Type 0 where
  pub id : List ℕ
  pub name : List ℕ
  pub entry : List ℕ
  pub core_type : CoreType
  pub graphics_api : GraphicsApi
  pub abi_version : ℕ

-- `is_discarded()` is `none`; a key that is missing or of another type is `none`.
pub record Json (J : Type 0) : Type 0 where
  pub parse : List ℕ → Option J
  pub string_at : J → List ℕ → Option (List ℕ)
  pub unsigned_at : J → List ℕ → Option ℕ

pub data ManifestError : Type 0 where
  malformed_json : ManifestError
  missing : List ℕ → ManifestError
  unknown_type unknown_graphics_api : List ℕ → ManifestError

-- Every error returns `RP_ERR_BAD_ARG`.
pub data Parsed (A : Type 0) : Type 0 where
  accepted : A → Parsed A
  rejected : ManifestError → Parsed A

infixl 5 ◌>>=◌
abbrev pub ◌>>=◌ : {A B : Type 0} → Parsed A → (A → Parsed B) → Parsed B
accepted a >>= f = f a
rejected e >>= f = rejected e

abbrev pub or_missing : {A : Type 0} → List ℕ → Option A → Parsed A
or_missing key none = rejected (missing key)
or_missing key (some a) = accepted a

pub type_of : List ℕ → Parsed CoreType
type_of s =
    if bytes_eq s (codes "presenting")
    then accepted CoreType.presenting
    else if bytes_eq s (codes "driven")
    then accepted CoreType.driven
    else rejected (unknown_type s)

pub graphics_api_of : List ℕ → Parsed GraphicsApi
graphics_api_of s =
    if bytes_eq s (codes "d3d11")
    then accepted GraphicsApi.d3d11
    else if bytes_eq s (codes "vulkan")
    then accepted GraphicsApi.vulkan
    else if bytes_eq s (codes "none")
    then accepted GraphicsApi.no_gfx
    else rejected (unknown_graphics_api s)

module _ {J : Type 0} (json : Json J) where
  as_string : J → List ℕ → Parsed (List ℕ)
  as_string j key = or_missing key (json.string_at j key)

  pub read_manifest : J → Parsed CoreManifest
  unfolding as_string type_of graphics_api_of
  read_manifest j = do
    id ← as_string j (codes "id")
    name ← as_string j (codes "name")
    entry ← as_string j (codes "entry")
    type_s ← as_string j (codes "type")
    gfx_s ← as_string j (codes "graphics_api")
    version ← or_missing (codes "abi_version") (json.unsigned_at j (codes "abi_version"))
    core_type ← type_of type_s
    graphics_api ← graphics_api_of gfx_s
    accepted (record {
      id = id;
      name = name;
      entry = entry;
      core_type = core_type;
      graphics_api = graphics_api;
      abi_version = version % 2 ^ 32;
    })

  pub parse_manifest : List ℕ → Parsed CoreManifest
  unfolding read_manifest
  parse_manifest text = elim (json.parse text) [
    | none ↦ rejected malformed_json
    | some j ↦ read_manifest j
  ]
