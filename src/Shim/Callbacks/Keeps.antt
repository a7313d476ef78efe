-- ===== src/Shim/Callbacks/Keeps.antt =====
-- cores/libretro_shim/LibretroShim.cpp: what the calls of a core leave as it is.
use retro_park.Base.{
  ℕ, not, ◌||◌, ◌≡◌, refl, ◌∙◌, arith, Option, none, some, Bool-cases, Option-cases, inl, inr, ◌==◌,
}
use retro_park.Loader.CoreLoader.{Access}
use retro_park.Loader.CoreLoader.Yields.{Yields, yields, Yields-bind, Yields-mono, if-Yields}
use retro_park.Shim.Options.Indexed.{IsSound}
use retro_park.Shim.Options.Sound.{
  set_variables-IsSound, set_core_options-IsSound, get_variable-Yields, get_variable_update-IsSound,
}
use retro_park.Shim.Callbacks.{
  Shim, Host, EnvCall, set_pixel_format, get_can_dupe, get_overscan, get_system_directory,
  get_save_directory, get_core_assets_directory, get_variable_update_flag, get_core_options_version,
  get_language, get_log_interface, get_input_bitmasks, get_audio_video_enable, get_fastforwarding,
  get_variable_of, set_variables_of, core_options, core_options_intl, core_options_v2,
  core_options_v2_intl, set_input_descriptors, set_controller_info, set_support_no_game,
  set_memory_maps, set_subsystem_info, set_geometry, set_system_av_info, set_hw_render, other,
  or_none, flatten, is_desktop_gl, request_hw_render, answer_variable, env_cb, Frame, hw_frame,
  no_frame, pixels, video_cb, CoreCall, environment, video, input_poll, input_of, audio,
  audio_batch, dispatch, Script, finish, ask, run_script, HwCallback, input_poll_cb, audio_cb,
  audio_batch_cb,
}

-- The options stay sound; the game and the framebuffer are not the core's to change.
pub record Keeps (s s' : Shim) : Type 0 where
  pub sound : IsSound s'.options
  pub game : s'.game_loaded ≡ s.game_loaded
  pub render : s'.hw ≡ s.hw

-- A call comes back, and keeps.
abbrev pub Kept : {R : Type 0} → Shim → Access (R × Shim) → Type 0
Kept s = Yields (λ r. Keeps s r.1)

request_hw_render-Kept :
    (cb : Option HwCallback) (s : Shim) → IsSound s.options → Kept s (request_hw_render cb s)
unfolding request_hw_render
request_hw_render-Kept none s h = yields _ (record { sound = h; game = refl; render = refl })
request_hw_render-Kept (some cb) s h =
    if-Yields (not (is_desktop_gl cb.context_type))
      (λ e. yields _ (record { sound = h; game = refl; render = refl }))
      (λ e. yields _ (record { sound = h; game = refl; render = refl }))

env_cb-Kept : (e : EnvCall) (s : Shim) → IsSound s.options → Kept s (env_cb e s)
unfolding env_cb
env_cb-Kept (set_pixel_format f) s h = yields _ (record { sound = h; game = refl; render = refl })
env_cb-Kept get_can_dupe s h = yields _ (record { sound = h; game = refl; render = refl })
env_cb-Kept get_overscan s h = yields _ (record { sound = h; game = refl; render = refl })
env_cb-Kept get_system_directory s h = yields _ (record { sound = h; game = refl; render = refl })
env_cb-Kept get_save_directory s h = yields _ (record { sound = h; game = refl; render = refl })
env_cb-Kept get_core_assets_directory s h =
    yields _ (record { sound = h; game = refl; render = refl })
env_cb-Kept get_core_options_version s h =
    yields _ (record { sound = h; game = refl; render = refl })
env_cb-Kept get_language s h = yields _ (record { sound = h; game = refl; render = refl })
env_cb-Kept get_log_interface s h = yields _ (record { sound = h; game = refl; render = refl })
env_cb-Kept get_input_bitmasks s h = yields _ (record { sound = h; game = refl; render = refl })
env_cb-Kept get_audio_video_enable s h = yields _ (record { sound = h; game = refl; render = refl })
env_cb-Kept get_fastforwarding s h = yields _ (record { sound = h; game = refl; render = refl })
env_cb-Kept set_input_descriptors s h = yields _ (record { sound = h; game = refl; render = refl })
env_cb-Kept set_controller_info s h = yields _ (record { sound = h; game = refl; render = refl })
env_cb-Kept set_support_no_game s h = yields _ (record { sound = h; game = refl; render = refl })
env_cb-Kept set_memory_maps s h = yields _ (record { sound = h; game = refl; render = refl })
env_cb-Kept set_subsystem_info s h = yields _ (record { sound = h; game = refl; render = refl })
env_cb-Kept set_geometry s h = yields _ (record { sound = h; game = refl; render = refl })
env_cb-Kept set_system_av_info s h = yields _ (record { sound = h; game = refl; render = refl })
env_cb-Kept (other cmd) s h = yields _ (record { sound = h; game = refl; render = refl })
env_cb-Kept get_variable_update_flag s h =
    yields _
      (record { sound = get_variable_update-IsSound s.options h; game = refl; render = refl })
env_cb-Kept (get_variable_of k) s h =
    unfold answer_variable in
    Yields-bind (get_variable-Yields k s.options h)
      (λ r h'. yields _ (record { sound = h'; game = refl; render = refl }))
env_cb-Kept (set_variables_of vs) s h =
    yields _ (record { sound = set_variables-IsSound vs s.options h; game = refl; render = refl })
env_cb-Kept (core_options ds) s h = yields _ (record {
  sound = set_core_options-IsSound (or_none ds) s.options h;
  game = refl;
  render = refl;
})
env_cb-Kept (core_options_intl ds) s h = yields _ (record {
  sound = set_core_options-IsSound (or_none (flatten ds)) s.options h;
  game = refl;
  render = refl;
})
env_cb-Kept (core_options_v2 ds) s h = yields _ (record {
  sound = set_core_options-IsSound (or_none (flatten ds)) s.options h;
  game = refl;
  render = refl;
})
env_cb-Kept (core_options_v2_intl ds) s h = yields _ (record {
  sound = set_core_options-IsSound (or_none (flatten (flatten ds))) s.options h;
  game = refl;
  render = refl;
})
env_cb-Kept (set_hw_render cb) s h = request_hw_render-Kept cb s h

-- Nothing but what is sent and the converted frame changes with a frame.
video_cb-Keeps :
    (host : Host) (f : Frame) (w h pitch : ℕ) (s : Shim)
    → IsSound s.options
    → Keeps s (video_cb host f w h pitch s)
unfolding video_cb
video_cb-Keeps host hw_frame w h pitch s i = elim (Option-cases s.hw) [
  | inl e ↦ record { sound = ground arith; game = ground arith; render = ground arith }
  | inr (hw, e) ↦ record { sound = ground arith; game = ground arith; render = ground arith }
]
video_cb-Keeps host no_frame w h pitch s i = record { sound = i; game = refl; render = refl }
video_cb-Keeps host (pixels src) w h pitch s i = elim (Bool-cases (w == 0 || h == 0)) [
  | inl e ↦ rw e (record { sound = i; game = refl; render = refl })
  | inr e ↦ rw e (record { sound = i; game = refl; render = refl })
]

dispatch-Kept :
    (host : Host) (c : CoreCall) (s : Shim) → IsSound s.options → Kept s (dispatch host c s)
unfolding dispatch input_poll_cb audio_cb audio_batch_cb
dispatch-Kept host (environment e) s h = Yields-bind (env_cb-Kept e s h) (λ r k. yields _ k)
dispatch-Kept host (video f w hh pitch) s h = yields _ (video_cb-Keeps host f w hh pitch s h)
dispatch-Kept host input_poll s h = yields _ (record { sound = h; game = refl; render = refl })
dispatch-Kept host (input_of port device index id) s h =
    yields _ (record { sound = h; game = refl; render = refl })
dispatch-Kept host (audio left right) s h =
    yields _ (record { sound = h; game = refl; render = refl })
dispatch-Kept host (audio_batch none frames) s h =
    yields _ (record { sound = h; game = refl; render = refl })
dispatch-Kept host (audio_batch (some samples) frames) s h = elim (Bool-cases (frames == 0)) [
  | inl e ↦ rw e (yields _ (record { sound = h; game = refl; render = refl }))
  | inr e ↦ rw e (yields _ (record { sound = h; game = refl; render = refl }))
]

Keeps-trans : (s s' s'' : Shim) → Keeps s s' → Keeps s' s'' → Keeps s s''
Keeps-trans s s' s'' k k' = record {
  sound = k'.sound;
  game = k'.game ∙ k.game;
  render = k'.render ∙ k.render;
}

-- Whatever a function of the core does, it comes back with sound options, and the game and the
-- framebuffer as they were.
pub run_script-Kept :
    {R : Type 0} (host : Host) (p : Script R) (s : Shim)
    → IsSound s.options
    → Kept s (run_script host p s)
unfolding run_script
run_script-Kept host (finish r) s h = yields _ (record { sound = h; game = refl; render = refl })
run_script-Kept host (ask c next) s h = Yields-bind (dispatch-Kept host c s h) (λ r k.
    Yields-mono (run_script-Kept host (next r.0) r.1 k.sound) (λ a k'. Keeps-trans s r.1 a.1 k k'))
