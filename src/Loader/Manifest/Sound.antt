-- ===== src/Loader/Manifest/Sound.antt =====
-- What `parse_manifest` of src/loader/Manifest.cpp accepts.
use retro_park.Base.{
  ℕ, ◌%◌, ◌^◌, ◌≡◌, ◌⊎◌, inl, inr, refl, sym, ap, subst, ◌∙◌, Bool, true, false, Option, none, some,
  List, if◌then◌else◌, Option-cases,
}
use retro_park.Base.Bytes.{codes, bytes_eq, bytes_eq→eq}
use retro_park.Abi.{CoreType, GraphicsApi}
use retro_park.Loader.Manifest.{
  CoreManifest, Json, Parsed, accepted, rejected, malformed_json, ◌>>=◌, or_missing, type_of,
  graphics_api_of, as_string, read_manifest, parse_manifest,
}

-- The word that the file has for a type of core, and for a graphics interface
pub type_name : CoreType → List ℕ
type_name CoreType.presenting = codes "presenting"
type_name CoreType.driven = codes "driven"

pub graphics_name : GraphicsApi → Option (List ℕ)
graphics_name GraphicsApi.d3d11 = some (codes "d3d11")
graphics_name GraphicsApi.vulkan = some (codes "vulkan")
graphics_name GraphicsApi.no_gfx = some (codes "none")
graphics_name GraphicsApi.opengl = none

-- A chain of fields that was accepted had its first field.
accepted-bind :
    {A B : Type 0} (m : Parsed A) (f : A → Parsed B) (b : B)
    → (m >>= f) ≡ accepted b
    → (a : A) × (m ≡ accepted a) × (f a ≡ accepted b)
accepted-bind (accepted a) f b e = (a, refl, e)
accepted-bind (rejected x) f b e = cc e

or_missing-accepted :
    {A : Type 0} (key : List ℕ) (o : Option A) (a : A) → or_missing key o ≡ accepted a → o ≡ some a
or_missing-accepted key none a e = cc e
or_missing-accepted key (some x) a e = cc e

-- Which branch of a test was accepted
branch :
    {A : Type 0} (c : Bool) (a b : Parsed A) (x : A)
    → (if c then a else b) ≡ accepted x
    → ((c ≡ true) × (a ≡ accepted x)) ⊎ (b ≡ accepted x)
branch true a b x e = inl (refl, e)
branch false a b x e = inr e

type_of-name : (s : List ℕ) (t : CoreType) → type_of s ≡ accepted t → s ≡ type_name t
unfolding type_of type_name
type_of-name s t e = elim (branch (bytes_eq s (codes "presenting")) _ _ t e) [
  | inl (is, same) ↦
      let it : CoreType.presenting ≡ t = cc same in
      bytes_eq→eq s (codes "presenting") is ∙ ap type_name it
  | inr e' ↦ elim (branch (bytes_eq s (codes "driven")) _ _ t e') [
    | inl (is, same) ↦
        let it : CoreType.driven ≡ t = cc same in
        bytes_eq→eq s (codes "driven") is ∙ ap type_name it
    | inr wrong ↦ cc wrong
  ]
]

graphics_api_of-name :
    (s : List ℕ) (g : GraphicsApi) → graphics_api_of s ≡ accepted g → some s ≡ graphics_name g
unfolding graphics_api_of graphics_name
graphics_api_of-name s g e = elim (branch (bytes_eq s (codes "d3d11")) _ _ g e) [
  | inl (is, same) ↦
      let it : GraphicsApi.d3d11 ≡ g = cc same in
      ap some (bytes_eq→eq s (codes "d3d11") is) ∙ ap graphics_name it
  | inr e' ↦ elim (branch (bytes_eq s (codes "vulkan")) _ _ g e') [
    | inl (is, same) ↦
        let it : GraphicsApi.vulkan ≡ g = cc same in
        ap some (bytes_eq→eq s (codes "vulkan") is) ∙ ap graphics_name it
    | inr e'' ↦ elim (branch (bytes_eq s (codes "none")) _ _ g e'') [
      | inl (is, same) ↦
          let it : GraphicsApi.no_gfx ≡ g = cc same in
          ap some (bytes_eq→eq s (codes "none") is) ∙ ap graphics_name it
      | inr wrong ↦ cc wrong
    ]
  ]
]

module _ {J : Type 0} (json : Json J) where
  -- What a manifest says is what stands in the object.
  pub Says : J → CoreManifest → Type 0
  Says j m =
      (json.string_at j (codes "id") ≡ some m.id)
      × (json.string_at j (codes "name") ≡ some m.name)
      × (json.string_at j (codes "entry") ≡ some m.entry)
      × (json.string_at j (codes "type") ≡ some (type_name m.core_type))
      × (json.string_at j (codes "graphics_api") ≡ graphics_name m.graphics_api)
      × ((v : ℕ) × (json.unsigned_at j (codes "abi_version") ≡ some v)
          × (m.abi_version ≡ v % 2 ^ 32))

  read_manifest-Says : (j : J) (m : CoreManifest) → read_manifest json j ≡ accepted m → Says j m
  unfolding read_manifest as_string Says
  read_manifest-Says j m e =
      let (id, e1, r1) = accepted-bind (as_string json j (codes "id")) _ m e in
      let (name, e2, r2) = accepted-bind (as_string json j (codes "name")) _ m r1 in
      let (entry, e3, r3) = accepted-bind (as_string json j (codes "entry")) _ m r2 in
      let (type_s, e4, r4) = accepted-bind (as_string json j (codes "type")) _ m r3 in
      let (gfx_s, e5, r5) = accepted-bind (as_string json j (codes "graphics_api")) _ m r4 in
      let (v, e6, r6) =
        accepted-bind (or_missing (codes "abi_version") (json.unsigned_at j (codes "abi_version")))
          _ m r5 in
      let (t, e7, r7) = accepted-bind (type_of type_s) _ m r6 in
      let (g, e8, r8) = accepted-bind (graphics_api_of gfx_s) _ m r7 in
      let whole : CoreManifest = record {
        id = id;
        name = name;
        entry = entry;
        core_type = t;
        graphics_api = g;
        abi_version = v % 2 ^ 32;
      } in
      let same : whole ≡ m = cc r8 in
      subst (λ x. Says j x) same
        (
          or_missing-accepted (codes "id") (json.string_at j (codes "id")) id e1,
          or_missing-accepted (codes "name") (json.string_at j (codes "name")) name e2,
          or_missing-accepted (codes "entry") (json.string_at j (codes "entry")) entry e3,
          or_missing-accepted (codes "type") (json.string_at j (codes "type")) type_s e4
              ∙ ap some (type_of-name type_s t e7),
          or_missing-accepted (codes "graphics_api") (json.string_at j (codes "graphics_api")) gfx_s
                e5
              ∙ graphics_api_of-name gfx_s g e8,
          (
            v,
            or_missing-accepted (codes "abi_version") (json.unsigned_at j (codes "abi_version")) v
                e6,
            refl,
          ),
        )

  -- A manifest that is accepted says what stands in the text: the text is JSON, has an id, a name and an
  -- entry that are strings, a type and a graphics interface that are among the words known, and a version
  -- that is a number without sign, of which the lower 32 bits are kept.
  pub parse_manifest-Says :
      (text : List ℕ) (m : CoreManifest)
      → parse_manifest json text ≡ accepted m
      → (j : J) × (json.parse text ≡ some j) × Says j m
  unfolding parse_manifest
  parse_manifest-Says text m e = elim (Option-cases (json.parse text)) [
    | inl broken ↦
        let bad : parse_manifest json text ≡ rejected malformed_json =
          rw (parse_manifest, broken) refl in
        cc (e, bad)
    | inr (j, is) ↦ (
      j,
      is,
      read_manifest-Says j m (
          let good : parse_manifest json text ≡ read_manifest json j =
            rw (parse_manifest, is) refl in
          sym good ∙ e),
    )
  ]
