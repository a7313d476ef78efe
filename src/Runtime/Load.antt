-- ===== src/Runtime/Load.antt =====
-- The calls of src/runtime/Runtime.cpp that load a core, its content, new surfaces, and a reboot.
-- Files, modules on disk and the registry of static cores are arguments.
pub mod Safe
pub mod Content
use retro_park.Base.{
  ℕ, Bool, true, false, not, ◌&&◌, ◌||◌, Option, none, some, List, [], ◌++◌, if◌then◌else◌,
}
use retro_park.Base.Bytes.{codes}
use retro_park.Abi.{RpResult, is_ok, CoreType, GraphicsApi, api_eq}
use retro_park.Loader.CoreLoader
use retro_park.Loader.CoreLoader.{
  CoreAbi, Loader, LoaderState, Access, value, ◌>>=◌, is_started, is_idle, load, create, start,
  get_av_info, destroy,
}
use retro_park.Loader.Manifest.{Json, CoreManifest, Parsed, accepted, rejected, parse_manifest}
use retro_park.Runtime.State.{Runtime, Platform, AvInfo, CoreInfo, SurfaceSet, on_loader}
use retro_park.Runtime.Boot.{
  no_av_info, is_presenting, is_bad_av_info, give_up, drop_module, open_audio, take_av_info,
  rebuild_surfaces, unload_core, finish_load_core, clear,
}

module _ {K B Au : Type 0} (p : Platform K B Au) where
  -- From the module that was found on: both ways to load a core end so. A presenting core must match
  -- the runtime's graphics interface.
  abbrev matches_api : CoreType → GraphicsApi → Runtime K B Au → Bool
  matches_api core_type api r = not (is_presenting core_type) || api_eq api r.api

  boot_module : CoreType → Runtime K B Au → Access (RpResult × Runtime K B Au)
  unfolding finish_load_core
  boot_module core_type r = on_loader create r >>= λ (res, r1).
      if not (is_ok res)
      then drop_module p RpResult.internal r1
      else finish_load_core p core_type r1

  open_module :
      CoreManifest
      → Option (Option (Option (CoreAbi K SurfaceSet AvInfo)))
      → Runtime K B Au
      → Access (RpResult × Runtime K B Au)
  unfolding boot_module
  open_module m found r =
      if not (matches_api m.core_type m.graphics_api r)
      then value (RpResult.unsupported, r)
      else elim found [
        | none ↦ value (RpResult.not_found, r)
        | some resolved ↦
            on_loader (load (some resolved)) (record r { module_ = some resolved }) >>= λ (res, r1).
            if not (is_ok res)
            then value (RpResult.abi_mismatch, record r1 { module_ = none })
            else boot_module m.core_type r1
      ]

  -- From the manifest on
  open_manifest :
      Parsed CoreManifest
      → (List ℕ → Option (Option (Option (CoreAbi K SurfaceSet AvInfo))))
      → List ℕ
      → Runtime K B Au
      → Access (RpResult × Runtime K B Au)
  unfolding open_module
  open_manifest (rejected _) modules dir r = value (RpResult.bad_arg, r)
  open_manifest (accepted m) modules dir r =
      open_module m (modules (dir ++ codes "/" ++ m.entry)) r >>= λ (res, r').
      value (res, if is_ok res then record r' { core_dir = dir; core_id = [] } else r')

  open_file :
      {J : Type 0}
      → Json J
      → Option (List ℕ)
      → (List ℕ → Option (Option (Option (CoreAbi K SurfaceSet AvInfo))))
      → List ℕ
      → Runtime K B Au
      → Access (RpResult × Runtime K B Au)
  unfolding open_manifest
  open_file json none modules dir r = value (RpResult.not_found, r)
  open_file json (some t) modules dir r = open_manifest (parse_manifest json t) modules dir r

  -- `text` is what stands in core.json, if it can be read; `modules` are the libraries that open.
  pub load_core :
      {J : Type 0}
      → Json J
      → Option (List ℕ)
      → (List ℕ → Option (Option (Option (CoreAbi K SurfaceSet AvInfo))))
      → List ℕ
      → Runtime K B Au
      → Access (RpResult × Runtime K B Au)
  unfolding clear open_file
  load_core json text modules dir r =
      if not r.init_ok
      then value (RpResult.device, r)
      else clear p r >>= λ (_, r1). open_file json text modules dir r1

  -- From the loaded module on: the info is what the core's `get_info` writes, if the core has one.
  match_static : Option CoreInfo → List ℕ → Runtime K B Au → Access (RpResult × Runtime K B Au)
  unfolding boot_module
  match_static none id r = drop_module p RpResult.internal r
  match_static (some i) id r =
      if not (matches_api i.core_type i.graphics_api r)
      then drop_module p RpResult.unsupported r
      else boot_module i.core_type r >>= λ (res, r').
          value (res, if is_ok res then record r' { core_id = id; core_dir = [] } else r')

  open_static :
      Option (Option (CoreAbi K SurfaceSet AvInfo))
      → Option CoreInfo
      → List ℕ
      → Runtime K B Au
      → Access (RpResult × Runtime K B Au)
  unfolding match_static
  open_static none info id r = value (RpResult.not_found, r)
  open_static (some abi) info id r =
      on_loader (load (some (some abi))) (record r { module_ = some (some abi) }) >>= λ (res, r1).
      if not (is_ok res)
      then value (RpResult.abi_mismatch, record r1 { module_ = none })
      else match_static info id r1

  -- The getter that the registry has under the id
  pub load_static_core :
      Option (Option (CoreAbi K SurfaceSet AvInfo))
      → Option CoreInfo
      → List ℕ
      → Runtime K B Au
      → Access (RpResult × Runtime K B Au)
  unfolding clear open_static
  load_static_core getter info id r =
      if not r.init_ok
      then value (RpResult.device, r)
      else clear p r >>= λ (_, r1). open_static getter info id r1

  -- The sound of a presenting core, if it tells of any
  open_sound : RpResult → Option AvInfo → Runtime K B Au → Runtime K B Au
  unfolding open_audio
  open_sound told none r = r
  open_sound told (some a) r = if is_ok told && a.has_sound then open_audio p a r else r

  start_content : Runtime K B Au → Access (RpResult × Runtime K B Au)
  start_content r = if is_started r.loader.state then value (RpResult.ok, r) else on_loader start r

  content_presenting : List ℕ → Runtime K B Au → Access (RpResult × Runtime K B Au)
  unfolding open_sound start_content
  content_presenting path r =
      if not r.requires_content
      then value (RpResult.internal, r)
      else on_loader (CoreLoader.load_content path) r >>= λ (res, r1).
          if not (is_ok res)
          then value (res, r1)
          else start_content (record r1 { content_loaded = true }) >>= λ (res', r2).
              if not (is_ok res')
              then value (res', r2)
              else on_loader get_av_info r2 >>= λ ((told, av), r3).
                  value (RpResult.ok, open_sound told av r3)

  content_driven : List ℕ → Runtime K B Au → Access (RpResult × Runtime K B Au)
  unfolding open_audio take_av_info
  content_driven path r = on_loader (CoreLoader.load_content path) r >>= λ (res, r1).
      if not (is_ok res)
      then value (res, r1)
      else on_loader get_av_info r1 >>= λ ((told, av), r2).
          let a : AvInfo = elim av [ none ↦ no_av_info | some a ↦ a ] in
          if not (is_ok told)
          then value (RpResult.internal, r2)
          else if is_bad_av_info p a
          then value (RpResult.unsupported, r2)
          else value
              (RpResult.ok, open_audio p a (record (take_av_info p a r2) { content_loaded = true }))

  pub load_content : Option (List ℕ) → Runtime K B Au → Access (RpResult × Runtime K B Au)
  unfolding content_presenting content_driven
  load_content path r =
      let name : List ℕ = elim path [ none ↦ [] | some s ↦ s ] in
      let r' = record r { content_path = name } in
      if not r.core_loaded
      then value (RpResult.internal, r)
      else if is_presenting r.core_type
      then content_presenting name r'
      else content_driven name r'

  -- With a core loaded. Only a presenting core is started again.
  resize_core : Runtime K B Au → Access (RpResult × Runtime K B Au)
  unfolding rebuild_surfaces
  resize_core r =
      if not r.init_ok
      then value (RpResult.device, r)
      else rebuild_surfaces p r >>= λ (res, r1).
          if not (is_ok res)
          then value (res, r1)
          else if is_presenting r1.core_type && is_idle r1.loader.state
          then on_loader start r1
          else value (RpResult.ok, r1)

  pub resize : ℕ → ℕ → Runtime K B Au → Access (RpResult × Runtime K B Au)
  unfolding resize_core
  resize w h r = elim r.backend [
    | none ↦ value (RpResult.device, r)
    | some b ↦
        let r' = record r { width = w; height = h } in
        let made = p.initialize b w h in
        if not r.core_loaded
        then value (made.0, record r' { backend = some made.1; init_ok = is_ok made.0 })
        else resize_core r'
  ]

  -- What a reboot clears before it takes the core down
  pub forget : Runtime K B Au → Runtime K B Au
  forget r = record r {
    paused = false;
    have_last_ready = false;
    last_ready_idx = 0;
    last_ready_sv = 0;
    fps = (0, 1);
    fps_t0_ns = 0;
    fps_count = 0;
    dr_have = false;
    dr_data = none;
    dr_dupe = false;
    dr_is_gl = false;
    dr_gl_tex = 0;
    rewind_ring = [];
    rewind_replay = false;
    content_loaded = false;
  }

  reboot : Runtime K B Au → Access (RpResult × Runtime K B Au)
  unfolding unload_core finish_load_core
  reboot r = on_loader destroy r >>= λ (_, r1). on_loader (load r1.module_) r1 >>= λ (res, r2).
      if not (is_ok res)
      then give_up p RpResult.internal r2
      else on_loader create r2 >>= λ (res', r3).
          if not (is_ok res')
          then give_up p RpResult.internal r3
          else finish_load_core p r3.core_type r3

  -- Content comes back if there was any.
  reload : Bool → List ℕ → Runtime K B Au → Access (RpResult × Runtime K B Au)
  unfolding load_content
  reload true path r = load_content (some path) (record r { content_path = path })
  reload false path r = value (RpResult.ok, r)

  pub reset : Runtime K B Au → Access (RpResult × Runtime K B Au)
  unfolding forget reboot reload
  reset r =
      if not r.core_loaded
      then value
          (RpResult.ok, record r { paused = false; fps = (0, 1); fps_t0_ns = 0; fps_count = 0 })
      else reboot (forget r) >>= λ (res, r').
          if not (is_ok res) then value (res, r') else reload r.content_loaded r.content_path r'
