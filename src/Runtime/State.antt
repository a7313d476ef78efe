-- ===== src/Runtime/State.antt =====
-- The state of src/runtime/Runtime.h, and what stands behind it: `K` is a core, `B` a render backend
-- and `Au` an audio output. A null pointer is `none`; strings are lists of bytes.
use retro_park.Base.{ℕ, Bool, true, false, Option, none, some, List, []}
use retro_park.Abi.{RpResult, CoreType, GraphicsApi, InputState, neutral}
use retro_park.Loader.CoreLoader.{CoreAbi, Loader, LoaderState, Access, value, ◌>>=◌}
use retro_park.Render.SurfaceRing.{SurfaceRing, surface_ring}

-- `rp_surface_desc`
pub record SurfaceDesc : Type 0 where
  pub index : ℕ
  pub width : ℕ
  pub height : ℕ
  pub shared_handle : ℕ
  pub generation : ℕ

-- `rp_surface_set`
pub record SurfaceSet : Type 0 where
  pub surfaces : List SurfaceDesc
  pub sync_handle : ℕ
  pub device_uuid : List ℕ
  pub consume_sync_handle : ℕ

-- `rp_av_info`. Of the sample rate, whether it is above 0 and its whole part are kept.
pub record AvInfo : Type 0 where
  pub has_sound : Bool
  pub sample_rate : ℕ
  pub base_width : ℕ
  pub base_height : ℕ
  pub max_width : ℕ
  pub max_height : ℕ
  pub pixel_format : ℕ

-- `rp_core_info`
pub record CoreInfo : Type 0 where
  pub core_type : CoreType
  pub graphics_api : GraphicsApi

-- What a frame hands to the backend
pub data Composite : Type 0 where
  presents : ℕ → ℕ → Bool → Composite
  shows_driven : Option (List ℕ) → ℕ → ℕ → ℕ → Bool → Composite
  shows_gl : ℕ → ℕ → ℕ → Bool → Composite

-- A call of the host's interface that a core makes during its `run_frame`
pub data HostCall : Type 0 where
  input_state : ℕ → HostCall
  video_refresh : Option (List ℕ) → ℕ → ℕ → ℕ → HostCall
  video_refresh_gl : ℕ → ℕ → ℕ → ℕ → HostCall
  audio_sample : Option (List ℕ) → ℕ → HostCall
  submit_frame : ℕ → ℕ → ℕ → HostCall

-- The backend, the audio output, and how a core meets its host: `plug` makes known what
-- `input_state` will answer on the two ports, and `calls` are what the core calls in a frame.
pub record Platform (K B Au : Type 0) : Type 0 where
  pub initialize : B → ℕ → ℕ → RpResult × B
  pub allocate_surfaces : B → ℕ → ℕ → ℕ → (RpResult × List SurfaceDesc) × B
  pub present_sync_handle : B → ℕ
  pub present_consume_sync_handle : B → ℕ
  pub present_device_uuid : B → List ℕ
  pub gl_context : B → Option ℕ
  pub composite : B → Composite → RpResult × B
  pub open_output : ℕ → ℕ → Option Au
  pub submit : Au → List ℕ → ℕ → Au
  pub want_frames : Au → ℕ × Au
  pub plug : InputState → InputState → K → K
  pub calls : K → List HostCall

abbrev pub Abi : Type 0 → Type 0
Abi K = CoreAbi K SurfaceSet AvInfo

abbrev pub CoreOf : Type 0 → Type 0
CoreOf K = Loader K SurfaceSet AvInfo

pub record Runtime (K B Au : Type 0) : Type 0 where
  pub api : GraphicsApi
  pub backend : Option B
  pub module_ : Option (Option (Option (CoreAbi K SurfaceSet AvInfo)))
  pub loader : Loader K SurfaceSet AvInfo
  pub ring : SurfaceRing
  pub input_0 : InputState
  pub input_1 : InputState
  pub suppress_audio : Bool
  pub width : ℕ
  pub height : ℕ
  pub core_loaded : Bool
  pub init_ok : Bool
  pub core_type : CoreType
  pub dr_data : Option (List ℕ)
  pub dr_w : ℕ
  pub dr_h : ℕ
  pub dr_pitch : ℕ
  pub dr_dupe : Bool
  pub dr_have : Bool
  pub dr_max_w : ℕ
  pub dr_max_h : ℕ
  pub dr_gl_tex : ℕ
  pub dr_gl_w : ℕ
  pub dr_gl_h : ℕ
  pub dr_gl_blo : Bool
  pub dr_is_gl : Bool
  pub gl_frames : ℕ
  pub requires_content : Bool
  pub content_loaded : Bool
  pub audio : Option Au
  pub audio_frames : ℕ
  pub audio_nonsilent : Bool
  pub input_polls : ℕ
  pub audio_want_calls : ℕ
  pub rewind_ring : List (List ℕ)
  pub rewind_enabled : Bool
  pub rewind_replay : Bool
  pub rewind_max : ℕ
  pub paused : Bool
  pub content_path : List ℕ
  pub core_dir : List ℕ
  pub core_id : List ℕ
  pub last_ready_idx : ℕ
  pub last_ready_sv : ℕ
  pub have_last_ready : Bool
  pub fps : ℕ × ℕ
  pub fps_count : ℕ
  pub fps_t0_ns : ℕ

-- The fields as the class declares them, and then the constructor, for the backend that
-- `make_backend` returns
unfoldable pub runtime :
    {K B Au : Type 0} → Platform K B Au → GraphicsApi → Option B → Runtime K B Au
runtime p api backend = record {
  api = api;
  backend = elim backend [ none ↦ none | some b ↦ some (p.initialize b 64 64).1 ];
  module_ = none;
  loader = record { state = LoaderState.unloaded; abi = none; core = none };
  ring = surface_ring 3;
  input_0 = neutral;
  input_1 = neutral;
  suppress_audio = false;
  width = 64;
  height = 64;
  core_loaded = false;
  init_ok = elim backend [
    | none ↦ false
    | some b ↦ elim (p.initialize b 64 64).0 [ RpResult.ok ↦ true | _ ↦ false ]
  ];
  core_type = CoreType.presenting;
  dr_data = none;
  dr_w = 0;
  dr_h = 0;
  dr_pitch = 0;
  dr_dupe = false;
  dr_have = false;
  dr_max_w = 0;
  dr_max_h = 0;
  dr_gl_tex = 0;
  dr_gl_w = 0;
  dr_gl_h = 0;
  dr_gl_blo = false;
  dr_is_gl = false;
  gl_frames = 0;
  requires_content = false;
  content_loaded = false;
  audio = none;
  audio_frames = 0;
  audio_nonsilent = false;
  input_polls = 0;
  audio_want_calls = 0;
  rewind_ring = [];
  rewind_enabled = false;
  rewind_replay = false;
  rewind_max = 0;
  paused = false;
  content_path = [];
  core_dir = [];
  core_id = [];
  last_ready_idx = 0;
  last_ready_sv = 0;
  have_last_ready = false;
  fps = (0, 1);
  fps_count = 0;
  fps_t0_ns = 0;
}

-- A call of the loader that is a field of the runtime
abbrev pub on_loader :
    {K B Au R : Type 0}
    → (Loader K SurfaceSet AvInfo → Access (R × Loader K SurfaceSet AvInfo))
    → Runtime K B Au
    → Access (R × Runtime K B Au)
on_loader f r = f r.loader >>= λ (x, l). value (x, record r { loader = l })
