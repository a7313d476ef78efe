-- ===== src/Shim/Core/Tests.antt =====
-- A core that asks for OpenGL when it is set up, and polls its input and shows a frame when it runs.
use retro_park.Base.{ℕ, ◌+◌, ◌≡◌, refl, true, false, none, some, List, [], ◌∷◌}
use retro_park.Abi.{RpResult, neutral}
use retro_park.Base.Dict.{lookup}
use retro_park.Loader.CoreLoader.{value}
use retro_park.Shim.Options.{new_options}
use retro_park.Shim.Options.Indexed.{IsSound}
use retro_park.Shim.Callbacks.{
  Host, HwCallback, Shim, Script, finish, ask, environment, video, input_poll, pixels,
  set_hw_render,
}
use retro_park.Shim.Core.{Retro, Instance, SetUp, sh_load_content}
use retro_park.Shim.Core.Fits.{IsComplete, IsReady}
use retro_park.Shim.Core.Loads.{Left, sh_load_content-Left}
use retro_park.Shim.Core.Safe.{
  ShimCall, load_content, run_frame, serialize_size, get_av_info, live, live-safe,
}
use retro_park.Runtime.State.{AvInfo}

abbrev quiet_fn : ℕ → Script (Unit {0} × ℕ)
quiet_fn k = finish (tt, k)

abbrev gl : HwCallback
gl = record {
  context_type = 3;
  depth = true;
  stencil = false;
  bottom_left_origin = true;
  version_major = 3;
  version_minor = 3;
  has_context_reset = true;
  has_context_destroy = true;
  filled = false;
}

abbrev small : AvInfo
small = record {
  has_sound = true;
  sample_rate = 48000;
  base_width = 2;
  base_height = 1;
  max_width = 1;
  max_height = 1;
  pixel_format = 0;
}

abbrev retro : Retro ℕ
retro = record {
  api_version = some 1;
  init = some quiet_fn;
  deinit = some quiet_fn;
  get_system_info = some (λ k. finish (false, k));
  get_system_av_info = some (λ k. finish (small, k));
  set_environment = some (λ k. ask (environment (set_hw_render (some gl))) (λ r. finish (tt, k)));
  set_video_refresh = some quiet_fn;
  set_audio_sample = some quiet_fn;
  set_audio_sample_batch = some quiet_fn;
  set_input_poll = some quiet_fn;
  set_input_state = some quiet_fn;
  load_game = some (λ k path content. finish (true, k));
  unload_game = none;
  run = some (λ k.
      ask input_poll (λ r. ask (video (pixels (1 ∷ 2 ∷ [])) 1 1 2) (λ r'. finish (tt, k + 1))));
  serialize_size = none;
  serialize = none;
  unserialize = none;
  context_reset = quiet_fn;
  context_destroy = quiet_fn;
}

abbrev host : Host
host = record { input_of = λ port. neutral; has_refresh_gl = false; share_context = none }

abbrev new_shim : Shim
new_shim = record {
  pixel_format = 0;
  rgba = [];
  rom = [];
  sys_dir = [];
  game_loaded = false;
  hw_cb = gl;
  hw_requested = false;
  hw = none;
  input_0 = neutral;
  input_1 = neutral;
  options = new_options;
  made_current = 0;
  sent = [];
}

-- OpenGL cannot be set up.
abbrev no_gl : SetUp
no_gl cb w h share =
    (false, record { fbo_id = 0; zero_copy = false; color_texture = 0; read_frame = λ w h. none })

abbrev calls : List ShimCall
calls =
    run_frame
    ∷ load_content (some (65 ∷ [])) (some (1 ∷ []))
    ∷ run_frame
    ∷ serialize_size
    ∷ get_av_info
    ∷ []

new-IsSound : IsSound new_options
unfolding lookup
new-IsSound = record { indexed = λ k i h. cc; known = λ k h. refl }

retro-IsComplete : IsComplete retro
retro-IsComplete = record {
  usable = refl;
  input_poll = refl;
  input_state = refl;
  audio_sample = refl;
  audio_sample_batch = refl;
}

live-safe_example : (i : Instance ℕ) × (live host no_gl retro 0 new_shim calls ≡ value (some i))
live-safe_example = live-safe host no_gl retro 0 new_shim calls retro-IsComplete new-IsSound

abbrev wants_gl : Instance ℕ
wants_gl = record { retro = retro; core = 0; shim = record new_shim { hw_requested = true } }

sh_load_content-Left_example :
    (r : RpResult × Instance ℕ) × (sh_load_content host no_gl
        (some (65 ∷ []))
        (some (1 ∷ []))
        wants_gl
      ≡ value r)
    × IsReady r.1
    × Left wants_gl r.0 r.1
sh_load_content-Left_example =
    sh_load_content-Left host no_gl (some (65 ∷ [])) (some (1 ∷ [])) wants_gl
      (record { complete = retro-IsComplete; sound = new-IsSound })
