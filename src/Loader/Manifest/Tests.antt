-- ===== src/Loader/Manifest/Tests.antt =====
-- A core.json with its six fields.
use retro_park.Base.{ℕ, ◌≡◌, refl, none, some, [], ◌∷◌, if◌then◌else◌}
use retro_park.Base.Bytes.{codes, bytes_eq}
use retro_park.Abi.{CoreType, GraphicsApi}
use retro_park.Loader.Manifest.{
  CoreManifest, Json, accepted, type_of, graphics_api_of, as_string, read_manifest, parse_manifest,
}
use retro_park.Loader.Manifest.Sound.{Says, parse_manifest-Says}

-- A parser of the one text `[7]`
abbrev tiny : Json ℕ
tiny = record {
  parse = λ text. if bytes_eq text (7 ∷ []) then some 0 else none;
  string_at = λ j key.
      if bytes_eq key (codes "type")
      then some (codes "driven")
      else if bytes_eq key (codes "graphics_api")
      then some (codes "vulkan")
      else some key;
  unsigned_at = λ j key. some 9;
}

abbrev tiny_manifest : CoreManifest
tiny_manifest = record {
  id = codes "id";
  name = codes "name";
  entry = codes "entry";
  core_type = CoreType.driven;
  graphics_api = GraphicsApi.vulkan;
  abi_version = 9;
}

tiny-accepted : parse_manifest tiny (7 ∷ []) ≡ accepted tiny_manifest
unfolding parse_manifest read_manifest as_string type_of graphics_api_of bytes_eq
tiny-accepted = refl

parse_manifest-Says_example : (j : ℕ) × (tiny.parse (7 ∷ []) ≡ some j) × Says tiny j tiny_manifest
parse_manifest-Says_example = parse_manifest-Says tiny (7 ∷ []) tiny_manifest tiny-accepted
