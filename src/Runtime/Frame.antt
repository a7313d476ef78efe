-- ===== src/Runtime/Frame.antt =====
-- The calls of src/runtime/Runtime.cpp on a core that runs: a frame, what is shown of it, saved states,
-- the rewind ring, pause and status. The clock is an argument; the pixels read back are left out.
pub mod Safe
pub mod Plays
pub mod Driving
pub mod Presents
pub mod Rewinds
use retro_park.Base.{
  ℕ, zero, suc, ◌+◌, ◌-◌, ◌*◌, ◌%◌, ◌^◌, Bool, true, false, not, ◌&&◌, ◌||◌, Option, none, some,
  List, [], ◌∷◌, length, ltb, leb, ◌==◌, if◌then◌else◌,
}
use retro_park.Abi.{RpResult, is_ok, CoreType, GraphicsApi}
use retro_park.Loader.CoreLoader
use retro_park.Loader.CoreLoader.{Loader, Access, value, ◌>>=◌, serialize, unserialize}
use retro_park.Render.SurfaceRing.{latest_ready}
use retro_park.Render.FramebufferCopy.{driven_frame_valid}
use retro_park.Runtime.RewindRing.{rewind_ring_push}
use retro_park.Runtime.State.{
  Runtime, Platform, SurfaceSet, AvInfo, presents, shows_driven, shows_gl, on_loader,
}
use retro_park.Runtime.Host.{answer_all}
use retro_park.Runtime.Boot.{is_presenting}

-- `rp_runtime_status`
pub record RuntimeStatus : Type 0 where
  pub core_type : CoreType
  pub graphics_api : GraphicsApi
  pub paused : Bool
  pub content_loaded : Bool
  pub fps : ℕ × ℕ

-- What is under the last place of a deque, and the deque without it
pub unsnoc : List (List ℕ) → Option (List (List ℕ) × List ℕ)
unsnoc [] = none
unsnoc (s ∷ ring) =
    let rest = unsnoc ring in
    elim rest [ none ↦ some ([], s) | some found ↦ some (s ∷ found.0, found.1) ]

module _ {K B Au : Type 0} where
  abbrev pub is_driven : Runtime K B Au → Bool
  is_driven r = r.core_loaded && not (is_presenting r.core_type)

  -- The snapshot at the top of a forward frame
  pub capture : Runtime K B Au → Access (Runtime K B Au)
  capture r =
      if r.rewind_replay
      then value (record r { rewind_replay = false })
      else if not r.rewind_enabled
      then value r
      else on_loader CoreLoader.serialize_size r >>= λ (size, r1).
          if size == 0
          then value r1
          else on_loader (serialize size) r1 >>= λ ((res, snap), r2). value (
              if is_ok res
              then record r2 { rewind_ring = rewind_ring_push r2.rewind_ring snap r2.rewind_max }
              else r2)

  -- `dt` is a difference of `uint64_t`; the rate is kept as a fraction.
  pub tick_fps : ℕ → Runtime K B Au → Runtime K B Au
  tick_fps now r =
      let count = (r.fps_count + 1) % 2 ^ 64 in
      let dt = (now + 2 ^ 64 - r.fps_t0_ns) % 2 ^ 64 in
      if r.fps_t0_ns == 0
      then record r { fps_t0_ns = now; fps_count = 0 }
      else if leb 500000000 dt
      then record r { fps = (count * 1000000000, dt); fps_t0_ns = now; fps_count = 0 }
      else record r { fps_count = count }

  pub serialize_size : Runtime K B Au → Access (ℕ × Runtime K B Au)
  serialize_size r = on_loader CoreLoader.serialize_size r

  -- `buf` says whether there is a buffer; what is left in it is returned.
  pub save_state : Bool → ℕ → Runtime K B Au → Access ((RpResult × List ℕ) × Runtime K B Au)
  save_state buf size r =
      if not buf
      then value ((RpResult.bad_arg, []), r)
      else on_loader CoreLoader.serialize_size r >>= λ (needs, r1).
          if needs == 0
          then value ((RpResult.unsupported, []), r1)
          else if ltb size needs
          then value ((RpResult.bad_arg, []), r1)
          else on_loader (serialize needs) r1

  pub load_state : Option (List ℕ) → Runtime K B Au → Access (RpResult × Runtime K B Au)
  load_state none r = value (RpResult.bad_arg, r)
  load_state (some bytes) r =
      if length bytes == 0 then value (RpResult.bad_arg, r) else on_loader (unserialize bytes) r

  pub set_rewind : Bool → ℕ → Runtime K B Au → Access (RpResult × Runtime K B Au)
  set_rewind enabled max_snapshots r = on_loader CoreLoader.serialize_size r >>= λ (size, r1).
      if size == 0
      then value (RpResult.unsupported, r1)
      else value (
        RpResult.ok,
        record r1 {
          rewind_enabled = enabled;
          rewind_max = if max_snapshots == 0 then 600 else max_snapshots;
          rewind_ring = [];
          rewind_replay = false;
        },
      )

  -- The newest snapshot goes; the one before it comes back and stays in the ring.
  pub rewind : Runtime K B Au → Access (RpResult × Runtime K B Au)
  unfolding unsnoc
  rewind r =
      if not r.rewind_enabled then value (RpResult.internal, r) else elim (unsnoc r.rewind_ring) [
        | none ↦ value (RpResult.not_found, r)
        | some (older, newest) ↦ elim (unsnoc older) [
          | none ↦ value (RpResult.not_found, r)
          | some (oldest, snap) ↦
              on_loader (unserialize snap) (record r { rewind_ring = older }) >>= λ (res, r1).
              value (res, record r1 { rewind_replay = true })
        ]
      ]

  pub pause : Runtime K B Au → RpResult × Runtime K B Au
  pause r = (RpResult.ok, if r.core_loaded then record r { paused = true } else r)

  pub resume : Runtime K B Au → RpResult × Runtime K B Au
  resume r = (RpResult.ok, record r { paused = false })

  pub get_status : Runtime K B Au → RuntimeStatus
  get_status r = record {
    core_type = r.core_type;
    graphics_api = r.api;
    paused = r.paused;
    content_loaded = r.content_loaded;
    fps = r.fps;
  }

module _ {K B Au : Type 0} (p : Platform K B Au) where
  -- What the core called during its frame is answered.
  answered : Option K → Runtime K B Au → Runtime K B Au
  answered none r = r
  answered (some k) r = answer_all p (p.calls k) r

  -- The core is told the inputs it may ask for, and runs.
  pub run_core : Runtime K B Au → Access (RpResult × Runtime K B Au)
  unfolding answered
  run_core r =
      let l = r.loader in
      let told : Loader K SurfaceSet AvInfo = record l {
        core = elim l.core [ none ↦ none | some k ↦ some (p.plug r.input_0 r.input_1 k) ];
      } in
      on_loader CoreLoader.run_frame (record r { loader = told }) >>= λ (res, r1).
      value (res, if is_ok res then answered r1.loader.core r1 else r1)

  pub advance : Bool → Runtime K B Au → Access (RpResult × Runtime K B Au)
  unfolding capture run_core
  advance emit_audio r = elim r.backend [
    | none ↦ value (RpResult.device, r)
    | some b ↦
        if not (is_driven r)
        then value (RpResult.unsupported, r)
        else if r.requires_content && not r.content_loaded
        then value (RpResult.internal, r)
        else capture r >>= λ r1.
            run_core (record r1 { dr_have = false; suppress_audio = not emit_audio })
            >>= λ (res, r2). value (res, record r2 { suppress_audio = false })
  ]

  -- What the backend is asked to show, and what the runtime keeps of that
  pub composite_driven : Runtime K B Au → B → RpResult × B
  composite_driven r b =
      let fits = driven_frame_valid r.dr_w r.dr_h r.dr_pitch r.dr_max_w r.dr_max_h in
      let valid = (r.dr_have && not r.dr_dupe) && fits in
      if r.dr_is_gl && r.dr_have
      then p.composite b (shows_gl r.dr_gl_tex r.dr_gl_w r.dr_gl_h r.dr_gl_blo)
      else p.composite b
          (shows_driven (if valid then r.dr_data else none) r.dr_w r.dr_h r.dr_pitch (not valid))

  pub acquire : Runtime K B Au → Runtime K B Au
  acquire r = if r.paused then r else elim (latest_ready r.ring) [
    | none ↦ r
    | some (idx, sv) ↦ record r { last_ready_idx = idx; last_ready_sv = sv; have_last_ready = true }
  ]

  pub composite_presenting : Runtime K B Au → B → RpResult × B
  composite_presenting r b =
      let has : Bool =
        if r.paused
        then r.have_last_ready
        else elim (latest_ready r.ring) [ none ↦ false | some _ ↦ true ] in
      let r1 = acquire r in
      if r.paused || has
      then p.composite b (presents r1.last_ready_idx r1.last_ready_sv has)
      else p.composite b (presents 0 0 false)

  -- With the backend at hand
  render_on : Option B → Runtime K B Au → RpResult × Runtime K B Au
  unfolding composite_driven acquire composite_presenting
  render_on none r = (RpResult.device, r)
  render_on (some b) r =
      let shown = if is_driven r then composite_driven r b else composite_presenting r b in
      let r' = if is_driven r then r else acquire r in
      (shown.0, record r' { backend = some shown.1 })

  pub render : ℕ → Runtime K B Au → RpResult × Runtime K B Au
  unfolding tick_fps render_on
  render now r0 = let r = tick_fps now r0 in render_on r.backend r

  pub present : ℕ → Runtime K B Au → Access (RpResult × Runtime K B Au)
  unfolding advance render
  present now r =
      if is_driven r && not r.paused
      then (advance true r >>= λ (res, r1).
          if is_ok res then value (render now r1) else value (res, r1))
      else value (render now r)
