-- ===== src/Runtime/Boot.antt =====
-- How src/runtime/Runtime.cpp loads a core, gives it its surfaces and its content, and takes it down.
pub mod Safe
use retro_park.Base.{
  ℕ, zero, suc, ◌+◌, ◌*◌, ◌%◌, ◌^◌, Bool, true, false, not, ◌&&◌, ◌||◌, max, Option, none, some,
  List, [], ◌∷◌, ◌++◌, map, ltb, ◌==◌, if◌then◌else◌,
}
use retro_park.Base.Bytes.{codes}
use retro_park.Abi.{RpResult, is_ok, CoreType, GraphicsApi, api_eq}
use retro_park.Loader.CoreLoader.{
  CoreAbi, Loader, LoaderState, Access, value, ◌>>=◌, access, is_started, is_idle, is_unloaded,
  load, create, start, stop, set_surfaces, get_av_info, destroy,
}
use retro_park.Loader.CoreLoader
use retro_park.Loader.Manifest.{Json, CoreManifest, accepted, rejected, parse_manifest}
use retro_park.Render.SurfaceRing
use retro_park.Runtime.State.{
  Runtime, Platform, AvInfo, CoreInfo, SurfaceDesc, SurfaceSet, on_loader,
}

-- `rp_av_info{}`
abbrev pub no_av_info : AvInfo
no_av_info = record {
  has_sound = false;
  sample_rate = 0;
  base_width = 0;
  base_height = 0;
  max_width = 0;
  max_height = 0;
  pixel_format = 0;
}

abbrev pub is_presenting : CoreType → Bool
is_presenting CoreType.presenting = true
is_presenting CoreType.driven = false

module _ {K B Au : Type 0} (p : Platform K B Au) where
  unfoldable pub open_audio : AvInfo → Runtime K B Au → Runtime K B Au
  open_audio av r = record r {
    audio_frames = 0;
    audio_nonsilent = false;
    audio =
        if not av.has_sound
        then r.audio
        else elim (p.open_output av.sample_rate 2) [ none ↦ r.audio | some out ↦ some out ];
  }

  -- What a presenting core is handed of the surfaces that the backend made
  pub surface_set : B → ℕ → List SurfaceDesc → SurfaceSet
  surface_set b generation descs = record {
    surfaces = map (λ (d : SurfaceDesc). record d { generation = generation }) descs;
    sync_handle = p.present_sync_handle b;
    device_uuid = p.present_device_uuid b;
    consume_sync_handle = p.present_consume_sync_handle b;
  }

  unfoldable pub rebuild_surfaces : Runtime K B Au → Access (RpResult × Runtime K B Au)
  unfolding surface_set
  rebuild_surfaces r = do
    (_, r1) ← if is_started r.loader.state then on_loader stop r else value (RpResult.ok, r)
    b ← access r1.backend
    let made = p.allocate_surfaces b r1.ring.slot_count r1.width r1.height
    let r2 = record r1 { backend = some made.1 }
    let fresh = SurfaceRing.reallocate r2.width r2.height r2.ring
    let r3 = record r2 { ring = fresh.1; have_last_ready = false }
    if not (is_ok made.0.0)
        then value (made.0.0, r2)
        else if is_presenting r3.core_type && is_idle r3.loader.state
        then on_loader (set_surfaces (surface_set made.1 fresh.0 made.0.1)) r3
        else value (RpResult.ok, r3)

  unfoldable pub unload_core : Runtime K B Au → Access (RpResult × Runtime K B Au)
  unload_core r =
      if not r.core_loaded && is_unloaded r.loader.state
      then value (RpResult.ok, record r { input_polls = 0 })
      else on_loader destroy r >>= λ (_, r'). value (
        RpResult.ok,
        record r' {
          input_polls = 0;
          module_ = none;
          core_loaded = false;
          core_type = CoreType.presenting;
          dr_data = none;
          dr_w = 0;
          dr_h = 0;
          dr_pitch = 0;
          dr_dupe = false;
          dr_have = false;
          dr_is_gl = false;
          dr_gl_tex = 0;
          dr_max_w = 0;
          dr_max_h = 0;
          requires_content = false;
          content_loaded = false;
          audio = none;
          audio_frames = 0;
          audio_nonsilent = false;
          rewind_ring = [];
          rewind_enabled = false;
          rewind_replay = false;
          rewind_max = 0;
          fps = (0, 1);
          fps_t0_ns = 0;
          fps_count = 0;
          paused = false;
          have_last_ready = false;
          last_ready_idx = 0;
          last_ready_sv = 0;
          content_path = [];
        },
      )

  -- `unload_core(); return r;`
  abbrev pub give_up : RpResult → Runtime K B Au → Access (RpResult × Runtime K B Au)
  give_up res r = unload_core r >>= λ (_, r'). value (res, r')

  -- The checks on what a driven core says of its frames
  abbrev pub is_bad_av_info : AvInfo → Bool
  is_bad_av_info av =
      not (ltb 0 av.base_width && ltb 0 av.base_height) || not (av.pixel_format == 0)

  unfoldable pub take_av_info : AvInfo → Runtime K B Au → Runtime K B Au
  unfolding open_audio
  take_av_info av r = record r {
    dr_max_w = max av.max_width av.base_width;
    dr_max_h = max av.max_height av.base_height;
  }

  pub has_load_content : Loader K SurfaceSet AvInfo → Bool
  has_load_content l = elim l.abi [
    | none ↦ false
    | some abi ↦ elim abi.load_content_fn [ none ↦ false | some _ ↦ true ]
  ]

  finish_driven : Runtime K B Au → Access (RpResult × Runtime K B Au)
  unfolding unload_core open_audio take_av_info
  finish_driven r =
      if r.requires_content
      then value (RpResult.ok, r)
      else on_loader get_av_info r >>= λ ((res, told), r1).
          let av : AvInfo = elim told [ none ↦ no_av_info | some av ↦ av ] in
          if not (is_ok res)
          then give_up res r1
          else if is_bad_av_info av
          then give_up RpResult.unsupported r1
          else value (RpResult.ok, open_audio av (take_av_info av r1))

  finish_presenting : Runtime K B Au → Access (RpResult × Runtime K B Au)
  unfolding unload_core rebuild_surfaces
  finish_presenting r = rebuild_surfaces r >>= λ (res, r1).
      if not (is_ok res)
      then give_up res r1
      else if r1.requires_content
      then value (RpResult.ok, r1)
      else on_loader start r1 >>= λ (res', r2).
          if is_ok res' then value (RpResult.ok, r2) else give_up res' r2

  unfoldable pub finish_load_core : CoreType → Runtime K B Au → Access (RpResult × Runtime K B Au)
  unfolding finish_driven finish_presenting has_load_content
  finish_load_core core_type r =
      let r' = record r {
        core_loaded = true;
        core_type = core_type;
        requires_content = has_load_content r.loader;
        content_loaded = false;
      } in
      if is_presenting core_type then finish_presenting r' else finish_driven r'

  -- Both ways to load unload first.
  unfoldable pub clear : Runtime K B Au → Access (RpResult × Runtime K B Au)
  unfolding unload_core
  clear r =
      if r.core_loaded || not (is_unloaded r.loader.state)
      then unload_core r
      else value (RpResult.ok, r)

  -- `loader_.destroy(); module_.reset(); return res;`
  abbrev pub drop_module : RpResult → Runtime K B Au → Access (RpResult × Runtime K B Au)
  drop_module res r = on_loader destroy r >>= λ (_, r'). value (res, record r' { module_ = none })
