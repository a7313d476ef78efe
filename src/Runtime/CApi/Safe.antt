-- ===== src/Runtime/CApi/Safe.antt =====
-- Calls of the C interface of src/runtime/Runtime.cpp, in any order, on one runtime.
use retro_park.Base.{◌≡◌, refl, sym, ap, subst, ◌∙◌, ℕ, Bool, Option, none, some, List, [], ◌∷◌}
use retro_park.Abi.{GraphicsApi, InputState}
use retro_park.Loader.CoreLoader
use retro_park.Loader.CoreLoader.{CoreAbi, Access, value, ◌>>=◌}
use retro_park.Loader.CoreLoader.Safe.{has_nothing}
use retro_park.Loader.CoreLoader.Yields.{
  Yields, yields, Yields-bind, Yields-value, core_options_json-Yields, core_option_get-Yields,
  core_option_set-Yields,
}
use retro_park.Loader.Manifest.{Json}
use retro_park.Runtime.State.{Runtime, Platform, CoreInfo, SurfaceSet, AvInfo, runtime}
use retro_park.Runtime.Ready.{IsReady, Passed-IsReady}
use retro_park.Runtime.Host.Safe.{set_input-Same}
use retro_park.Runtime.Boot.Safe.{unload_core-Emptied}
use retro_park.Runtime.Load.Safe.{load_core-Attempted, load_static_core-Attempted}
use retro_park.Runtime.Load.Content.{load_content-IsReady, resize-IsReady, reset-IsReady}
use retro_park.Runtime.Frame.Safe.{
  serialize_size-IsReady, save_state-IsReady, load_state-IsReady, set_rewind-IsReady,
  rewind-IsReady, pause-Same, resume-Same, advance-IsReady, render-Same, present-IsReady,
}
use retro_park.Runtime.CApi.{
  Handle, or_empty, rp_runtime_set_input, rp_runtime_serialize_size, rp_runtime_save_state,
  rp_runtime_load_state, rp_runtime_set_rewind, rp_runtime_rewind, rp_runtime_pause,
  rp_runtime_resume, rp_runtime_core_options_json, rp_runtime_core_option_get,
  rp_runtime_core_option_set, rp_runtime_create, rp_runtime_load_core, rp_runtime_load_static_core,
  rp_runtime_unload_core, rp_runtime_load_content, rp_runtime_resize, rp_runtime_present,
  rp_runtime_advance, rp_runtime_render, rp_runtime_reset,
}

-- One call, with what the file system, the registry of static cores and the clock answer to it
pub data Call (K : Type 0) : Type 0 where
  loads_core :
      Option (List ℕ)
      → (List ℕ → Option (Option (Option (CoreAbi K SurfaceSet AvInfo))))
      → Option (List ℕ)
      → Call K
  loads_static_core :
      Option (Option (CoreAbi K SurfaceSet AvInfo)) → Option CoreInfo → Option (List ℕ) → Call K
  loads_content loads_state gets_option : Option (List ℕ) → Call K
  sets_option : Option (List ℕ) → Option (List ℕ) → Call K
  resizes : ℕ → ℕ → Call K
  sets_input : ℕ → Option InputState → Call K
  presents renders : ℕ → Call K
  advances : Bool → Call K
  saves_state sets_rewind : Bool → ℕ → Call K
  unloads rewinds pauses resumes resets asks_size lists_options : Call K

module _ {K B Au : Type 0} where
  -- What a call leaves, without what it returns
  after : {R : Type 0} → Access (R × Handle K B Au) → Access (Handle K B Au)
  after m = m >>= λ (x, rt). value rt

module _ {J K B Au : Type 0} (json : Json J) (p : Platform K B Au) where
  pub perform : Call K → Handle K B Au → Access (Handle K B Au)
  unfolding after
  perform (loads_core text modules dir) rt = after (rp_runtime_load_core p json text modules dir rt)
  perform (loads_static_core getter info id) rt =
      after (rp_runtime_load_static_core p getter info id rt)
  perform (loads_content path) rt = after (rp_runtime_load_content p path rt)
  perform (loads_state buf) rt = after (rp_runtime_load_state buf rt)
  perform (gets_option key) rt = after (rp_runtime_core_option_get key rt)
  perform (sets_option key v) rt = after (rp_runtime_core_option_set key v rt)
  perform (resizes w h) rt = after (rp_runtime_resize p w h rt)
  perform (sets_input port v) rt = rp_runtime_set_input port v rt
  perform (presents now) rt = after (rp_runtime_present p now rt)
  perform (renders now) rt = after (rp_runtime_render p now rt)
  perform (advances emit_audio) rt = after (rp_runtime_advance p emit_audio rt)
  perform (saves_state buf size) rt = after (rp_runtime_save_state buf size rt)
  perform (sets_rewind enabled n) rt = after (rp_runtime_set_rewind enabled n rt)
  perform unloads rt = after (rp_runtime_unload_core p rt)
  perform rewinds rt = after (rp_runtime_rewind rt)
  perform pauses rt = after (rp_runtime_pause rt)
  perform resumes rt = after (rp_runtime_resume rt)
  perform resets rt = after (rp_runtime_reset p rt)
  perform asks_size rt = after (rp_runtime_serialize_size rt)
  perform lists_options rt = after (rp_runtime_core_options_json rt)

  pub performs : List (Call K) → Handle K B Au → Access (Handle K B Au)
  performs [] rt = value rt
  performs (c ∷ cs) rt = perform c rt >>= performs cs

  pub IsLive : Handle K B Au → Type 0
  IsLive rt = (r : Runtime K B Au) × (rt ≡ some r) × IsReady r

  -- A call that keeps the runtime sound, made through the pointer
  through-IsLive :
      {R : Type 0} {P : R × Runtime K B Au → Type 0} {m : Access (R × Runtime K B Au)}
      → Yields P m
      → ((x : R) (r' : Runtime K B Au) → P (x, r') → IsReady r')
      → Yields IsLive (after (m >>= λ (x, r). value (x, some r)))
  unfolding after IsLive
  through-IsLive (yields (x, r') h) ready = yields _ (r', refl, ready x r' h)

  perform-IsLive :
      (c : Call K) (r : Runtime K B Au) → IsReady r → Yields IsLive (perform c (some r))
  unfolding perform IsLive rp_runtime_set_input rp_runtime_serialize_size rp_runtime_save_state
      rp_runtime_load_state rp_runtime_set_rewind rp_runtime_rewind rp_runtime_pause
      rp_runtime_resume rp_runtime_core_options_json rp_runtime_core_option_get
      rp_runtime_core_option_set rp_runtime_load_core rp_runtime_load_static_core
      rp_runtime_unload_core rp_runtime_load_content rp_runtime_resize rp_runtime_present
      rp_runtime_advance rp_runtime_render rp_runtime_reset after
  perform-IsLive (loads_core text modules dir) r i =
      through-IsLive (load_core-Attempted p json text modules (or_empty dir) r i) (λ x r' h. h.0)
  perform-IsLive (loads_static_core getter info id) r i =
      through-IsLive (load_static_core-Attempted p getter info (or_empty id) r i) (λ x r' h. h.0)
  perform-IsLive (loads_content path) r i =
      through-IsLive (load_content-IsReady p path r i) (λ x r' h. h.0)
  perform-IsLive (loads_state buf) r i = through-IsLive (load_state-IsReady buf r i) (λ x r' h. h.0)
  perform-IsLive (gets_option none) r i = yields _ (r, refl, i)
  perform-IsLive (gets_option (some key)) r i =
      through-IsLive
        (Passed-IsReady (CoreLoader.core_option_get key) r i
          (core_option_get-Yields key r.loader i.sound))
        (λ x r' h. h.0)
  perform-IsLive (sets_option (some key) (some v)) r i =
      through-IsLive
        (Passed-IsReady (CoreLoader.core_option_set key v) r i
          (core_option_set-Yields key v r.loader i.sound))
        (λ x r' h. h.0)
  perform-IsLive (sets_option none v) r i = yields _ (r, refl, i)
  perform-IsLive (sets_option (some key) none) r i = yields _ (r, refl, i)
  perform-IsLive (resizes w h) r i = through-IsLive (resize-IsReady p w h r i) (λ x r' h'. h'.0)
  perform-IsLive (sets_input port none) r i = yields _ (r, refl, i)
  perform-IsLive (sets_input port (some v)) r i =
      let (i', same) = set_input-Same port v r i in yields _ (_, refl, i')
  perform-IsLive (presents now) r i = through-IsLive (present-IsReady p now r i) (λ x r' h. h.0)
  perform-IsLive (renders now) r i =
      let (i', same) = render-Same p now r i in yields _ (_, refl, i')
  perform-IsLive (advances emit_audio) r i =
      through-IsLive (advance-IsReady p emit_audio r i) (λ x r' h. h.0)
  perform-IsLive (saves_state buf size) r i =
      through-IsLive (save_state-IsReady buf size r i) (λ x r' h. h.0)
  perform-IsLive (sets_rewind enabled n) r i =
      through-IsLive (set_rewind-IsReady enabled n r i) (λ x r' h. h.0)
  perform-IsLive unloads r i =
      through-IsLive (unload_core-Emptied p r i.sound i.started) (λ x r' h. h.0)
  perform-IsLive rewinds r i = through-IsLive (rewind-IsReady r i) (λ x r' h. h.0)
  perform-IsLive pauses r i = let (i', same) = pause-Same r i in yields _ (_, refl, i')
  perform-IsLive resumes r i = let (i', same) = resume-Same r i in yields _ (_, refl, i')
  perform-IsLive resets r i = through-IsLive (reset-IsReady p r i) (λ x r' h. h.0)
  perform-IsLive asks_size r i = through-IsLive (serialize_size-IsReady r i) (λ x r' h. h.0)
  perform-IsLive lists_options r i =
      through-IsLive
        (Passed-IsReady CoreLoader.core_options_json r i
          (core_options_json-Yields r.loader i.sound))
        (λ x r' h. h.0)

  pub runtime-IsReady : (api : GraphicsApi) (backend : Option B) → IsReady (runtime p api backend)
  unfolding runtime
  runtime-IsReady api none = record {
    sound = has_nothing;
    in_step = refl;
    started = λ up. cc up;
    backed = λ on. cc on;
    kept = λ on. cc on;
  }
  runtime-IsReady api (some b) = record {
    sound = has_nothing;
    in_step = refl;
    started = λ up. refl;
    backed = λ on. refl;
    kept = λ on. cc on;
  }

  performs-IsLive :
      (cs : List (Call K)) (r : Runtime K B Au) → IsReady r → Yields IsLive (performs cs (some r))
  unfolding performs IsLive
  performs-IsLive [] r i = yields _ (r, refl, i)
  performs-IsLive (c ∷ cs) r i = Yields-bind (perform-IsLive c r i) (λ rt (r', same, i').
      subst (λ rt'. Yields IsLive (performs cs rt')) (sym same) (performs-IsLive cs r' i'))

  -- After `rp_runtime_create`, any calls of the C interface on the runtime, in any order, with any
  -- core, backend, files and content, come back without going through a null pointer, on error paths,
  -- too. They leave a sound loader, which holds a core of the right abi version exactly when
  -- `core_loaded` says so and nothing otherwise, and for a loaded core a backend and the module that it
  -- came from.
  pub performs-IsReady :
      (cs : List (Call K)) (api : GraphicsApi) (backend : Option B)
      → (r : Runtime K B Au) × (performs cs (rp_runtime_create p api backend) ≡ value (some r))
        × IsReady r
  unfolding rp_runtime_create IsLive
  performs-IsReady cs api backend =
      let (rt, e, live) =
        Yields-value (performs-IsLive cs (runtime p api backend) (runtime-IsReady api backend)) in
      let (r, same, i) = live in (r, e ∙ ap value same, i)
