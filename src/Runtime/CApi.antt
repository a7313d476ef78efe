-- ===== src/Runtime/CApi.antt =====
-- The C interface at the end of src/runtime/Runtime.cpp: an `rp_runtime*` is a runtime or null. Most
-- functions look at the pointer first; the others go through it, which is a `fault` when it is null.
pub mod Safe
use retro_park.Base.{ℕ, Bool, true, false, if◌then◌else◌, Option, none, some, List, [], ◌∷◌}
use retro_park.Abi.{RpResult, GraphicsApi, InputState}
use retro_park.Loader.CoreLoader
use retro_park.Loader.CoreLoader.{CoreAbi, Access, value, ◌>>=◌, access, no_options}
use retro_park.Loader.Manifest.{Json}
use retro_park.Runtime.State.{Runtime, Platform, CoreInfo, SurfaceSet, AvInfo, on_loader, runtime}
use retro_park.Runtime.Host.{set_input}
use retro_park.Runtime.Boot.{unload_core}
use retro_park.Runtime.Load.{load_core, load_static_core, load_content, resize, reset}
use retro_park.Runtime.Frame.{
  RuntimeStatus, advance, render, present, serialize_size, save_state, load_state, set_rewind,
  rewind, pause, resume, get_status,
}

-- `path ? path : ""`
abbrev pub or_empty : Option (List ℕ) → List ℕ
or_empty s = elim s [ none ↦ [] | some bytes ↦ bytes ]

abbrev pub Handle : Type 0 → Type 0 → Type 0 → Type 0
Handle K B Au = Option (Runtime K B Au)

module _ {K B Au : Type 0} where
  -- `reinterpret_cast<Runtime*>(rt)->…`
  abbrev pub through :
      {R : Type 0}
      → (Runtime K B Au → Access (R × Runtime K B Au))
      → Handle K B Au
      → Access (R × Handle K B Au)
  through f rt = access rt >>= f >>= λ (x, r). value (x, some r)

  -- `if (!rt) return …;` first
  abbrev pub guarded :
      {R : Type 0}
      → R
      → (Runtime K B Au → Access (R × Runtime K B Au))
      → Handle K B Au
      → Access (R × Handle K B Au)
  guarded refusal f none = value (refusal, none)
  guarded refusal f (some r) = through f (some r)

  pub rp_runtime_set_input : ℕ → Option InputState → Handle K B Au → Access (Handle K B Au)
  rp_runtime_set_input port none rt = value rt
  rp_runtime_set_input port (some v) rt = access rt >>= λ r. value (some (set_input port v r))

  pub rp_runtime_serialize_size : Handle K B Au → Access (ℕ × Handle K B Au)
  rp_runtime_serialize_size rt = guarded 0 serialize_size rt

  pub rp_runtime_save_state :
      Bool → ℕ → Handle K B Au → Access ((RpResult × List ℕ) × Handle K B Au)
  rp_runtime_save_state buf size rt = guarded (RpResult.bad_arg, []) (save_state buf size) rt

  pub rp_runtime_load_state : Option (List ℕ) → Handle K B Au → Access (RpResult × Handle K B Au)
  rp_runtime_load_state buf rt = guarded RpResult.bad_arg (load_state buf) rt

  pub rp_runtime_set_rewind : Bool → ℕ → Handle K B Au → Access (RpResult × Handle K B Au)
  rp_runtime_set_rewind enabled max_snapshots rt =
      guarded RpResult.bad_arg (set_rewind enabled max_snapshots) rt

  pub rp_runtime_rewind : Handle K B Au → Access (RpResult × Handle K B Au)
  rp_runtime_rewind rt = guarded RpResult.bad_arg rewind rt

  pub rp_runtime_pause : Handle K B Au → Access (RpResult × Handle K B Au)
  rp_runtime_pause rt = guarded RpResult.bad_arg (λ r. value (pause r)) rt

  pub rp_runtime_resume : Handle K B Au → Access (RpResult × Handle K B Au)
  rp_runtime_resume rt = guarded RpResult.bad_arg (λ r. value (resume r)) rt

  pub rp_runtime_get_status : Bool → Handle K B Au → RpResult × Option RuntimeStatus
  rp_runtime_get_status out rt = elim rt [
    | none ↦ (RpResult.bad_arg, none)
    | some r ↦ if out then (RpResult.ok, some (get_status r)) else (RpResult.bad_arg, none)
  ]

  pub rp_runtime_core_options_json : Handle K B Au → Access (List ℕ × Handle K B Au)
  rp_runtime_core_options_json rt = guarded no_options (on_loader CoreLoader.core_options_json) rt

  pub rp_runtime_core_option_get :
      Option (List ℕ) → Handle K B Au → Access (Option (List ℕ) × Handle K B Au)
  rp_runtime_core_option_get none rt = value (none, rt)
  rp_runtime_core_option_get (some key) rt =
      guarded none (on_loader (CoreLoader.core_option_get key)) rt

  pub rp_runtime_core_option_set :
      Option (List ℕ) → Option (List ℕ) → Handle K B Au → Access (RpResult × Handle K B Au)
  rp_runtime_core_option_set (some key) (some v) rt =
      guarded RpResult.bad_arg (on_loader (CoreLoader.core_option_set key v)) rt
  rp_runtime_core_option_set _ _ rt = value (RpResult.bad_arg, rt)

module _ {K B Au : Type 0} (p : Platform K B Au) where
  pub rp_runtime_create : GraphicsApi → Option B → Handle K B Au
  rp_runtime_create api backend = some (runtime p api backend)

  pub rp_runtime_load_core :
      {J : Type 0}
      → Json J
      → Option (List ℕ)
      → (List ℕ → Option (Option (Option (CoreAbi K SurfaceSet AvInfo))))
      → Option (List ℕ)
      → Handle K B Au
      → Access (RpResult × Handle K B Au)
  rp_runtime_load_core json text modules dir rt =
      through (load_core p json text modules (or_empty dir)) rt

  pub rp_runtime_load_static_core :
      Option (Option (CoreAbi K SurfaceSet AvInfo))
      → Option CoreInfo
      → Option (List ℕ)
      → Handle K B Au
      → Access (RpResult × Handle K B Au)
  rp_runtime_load_static_core getter info id rt =
      through (load_static_core p getter info (or_empty id)) rt

  pub rp_runtime_unload_core : Handle K B Au → Access (RpResult × Handle K B Au)
  rp_runtime_unload_core rt = through (unload_core p) rt

  pub rp_runtime_load_content : Option (List ℕ) → Handle K B Au → Access (RpResult × Handle K B Au)
  rp_runtime_load_content path rt = through (load_content p path) rt

  pub rp_runtime_resize : ℕ → ℕ → Handle K B Au → Access (RpResult × Handle K B Au)
  rp_runtime_resize w h rt = through (resize p w h) rt

  pub rp_runtime_present : ℕ → Handle K B Au → Access (RpResult × Handle K B Au)
  rp_runtime_present now rt = through (present p now) rt

  pub rp_runtime_advance : Bool → Handle K B Au → Access (RpResult × Handle K B Au)
  rp_runtime_advance emit_audio rt = through (advance p emit_audio) rt

  pub rp_runtime_render : ℕ → Handle K B Au → Access (RpResult × Handle K B Au)
  rp_runtime_render now rt = through (λ r. value (render p now r)) rt

  pub rp_runtime_reset : Handle K B Au → Access (RpResult × Handle K B Au)
  rp_runtime_reset rt = guarded RpResult.bad_arg (reset p) rt
