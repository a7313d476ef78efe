-- ===== src/Shim/Callbacks.antt =====
-- cores/libretro_shim/LibretroShim.cpp: what a libretro core may call of the shim. `Shim` has the fields
-- of the class of the same name but for the library, its functions and `options_json_cache`, and those
-- that hold options in one record. What the shim calls of its host is appended to `sent`; `made_current`
-- counts the calls of `HwRenderGL::make_current`.
pub mod Keeps
use retro_park.Base.{
  replicate, ℕ, ◌*◌, ◌%◌, ◌^◌, Bool, true, false, not, ◌&&◌, ◌||◌, Option, none, some, List, [],
  ◌∷◌, ◌++◌, ◌==◌, if◌then◌else◌,
}
use retro_park.Abi.{InputState}
use retro_park.Runtime.State.{HostCall, input_state, video_refresh, video_refresh_gl, audio_sample}
use retro_park.Loader.CoreLoader.{Access, value, ◌>>=◌}
use retro_park.Shim.Input.{shim_map_input}
use retro_park.Shim.PixelConvert.{convert_to_rgba8}
use retro_park.Shim.Options.{
  Options, Variable, Definition, set_variables, set_core_options, get_variable, get_variable_update,
}

-- `retro_hw_render_callback`, with whether the two functions of the core are there, and whether those
-- of the shim have been filled in
pub record HwCallback : Type 0 where
  pub context_type : ℕ
  pub depth : Bool
  pub stencil : Bool
  pub bottom_left_origin : Bool
  pub version_major : ℕ
  pub version_minor : ℕ
  pub has_context_reset : Bool
  pub has_context_destroy : Bool
  pub filled : Bool

-- What the shim reads of an `HwRenderGL` that has been set up
pub record HwRender : Type 0 where
  pub fbo_id : ℕ
  pub zero_copy : Bool
  pub color_texture : ℕ
  -- the pixels with their width, height and pitch
  pub read_frame : ℕ → ℕ → Option (List ℕ × ℕ × ℕ × ℕ)

-- What the shim reads of its `rp_host_iface`
pub record Host : Type 0 where
  pub input_of : ℕ → InputState
  pub has_refresh_gl : Bool
  pub share_context : Option ℕ

pub record Shim : Type 0 where
  pub pixel_format : ℕ
  pub rgba : List ℕ
  pub rom : List ℕ
  pub sys_dir : List ℕ
  pub game_loaded : Bool
  pub hw_cb : HwCallback
  pub hw_requested : Bool
  pub hw : Option HwRender
  pub input_0 : InputState
  pub input_1 : InputState
  pub options : Options
  pub made_current : ℕ
  pub sent : List HostCall

-- A call of `env_cb`: the command with what `data` points at, where the shim reads it
pub data EnvCall : Type 0 where
  set_pixel_format : ℕ → EnvCall
  get_can_dupe get_overscan get_system_directory get_save_directory : EnvCall
  get_core_assets_directory get_variable_update_flag get_core_options_version get_language : EnvCall
  get_log_interface get_input_bitmasks get_audio_video_enable get_fastforwarding : EnvCall
  get_variable_of : Option (List ℕ) → EnvCall
  set_variables_of : List Variable → EnvCall
  core_options : Option (List Definition) → EnvCall
  core_options_intl : Option (Option (List Definition)) → EnvCall
  core_options_v2 : Option (Option (List Definition)) → EnvCall
  core_options_v2_intl : Option (Option (Option (List Definition))) → EnvCall
  set_input_descriptors set_controller_info set_support_no_game set_memory_maps : EnvCall
  set_subsystem_info set_geometry set_system_av_info : EnvCall
  set_hw_render : Option HwCallback → EnvCall
  other : ℕ → EnvCall

-- What `env_cb` writes through `data`
pub data Answer : Type 0 where
  silent : Answer
  truth : Bool → Answer
  number : ℕ → Answer
  words : Option (List ℕ) → Answer
  logger : Answer
  callback : HwCallback → Answer

abbrev pub flatten : {A : Type 0} → Option (Option A) → Option A
flatten none = none
flatten (some a) = a

-- `for (; d && d->key; ++d)`
abbrev pub or_none : Option (List Definition) → List Definition
or_none none = []
or_none (some ds) = ds

abbrev pub declare_options : Option (List Definition) → Shim → Access ((Bool × Answer) × Shim)
declare_options ds s =
    value ((true, silent), record s { options = set_core_options (or_none ds) s.options })

abbrev pub answered : Answer → Shim → Access ((Bool × Answer) × Shim)
answered a s = value ((true, a), s)

abbrev pub refused : Answer → Shim → Access ((Bool × Answer) × Shim)
refused a s = value ((false, a), s)

-- RETRO_HW_CONTEXT_OPENGL and RETRO_HW_CONTEXT_OPENGL_CORE
abbrev pub is_desktop_gl : ℕ → Bool
is_desktop_gl t = t == 1 || t == 3

pub request_hw_render : Option HwCallback → Shim → Access ((Bool × Answer) × Shim)
request_hw_render none s = refused silent s
request_hw_render (some cb) s =
    if not (is_desktop_gl cb.context_type)
    then refused silent s
    else answered (callback (record cb { filled = true }))
        (record s { hw_cb = record cb { filled = true }; hw_requested = true })

pub answer_variable : Option (List ℕ) → Shim → Access ((Bool × Answer) × Shim)
answer_variable k s = get_variable k s.options >>= λ (r : Option (List ℕ) × Options).
    value ((elim r.0 [ none ↦ false | some v ↦ true ], words r.0), record s { options = r.1 })

pub env_cb : EnvCall → Shim → Access ((Bool × Answer) × Shim)
unfolding request_hw_render answer_variable
env_cb (set_pixel_format f) s = answered silent (record s { pixel_format = f })
env_cb get_can_dupe s = answered (truth true) s
env_cb get_overscan s = answered (truth false) s
env_cb get_system_directory s = answered (words (some s.sys_dir)) s
env_cb get_save_directory s = answered (words (some s.sys_dir)) s
env_cb get_core_assets_directory s = answered (words (some s.sys_dir)) s
env_cb (get_variable_of k) s = answer_variable k s
env_cb get_variable_update_flag s =
    let r = get_variable_update s.options in answered (truth r.0) (record s { options = r.1 })
env_cb get_core_options_version s = answered (number 2) s
env_cb get_language s = answered (number 0) s
env_cb get_log_interface s = answered logger s
env_cb get_input_bitmasks s = refused silent s
env_cb get_audio_video_enable s = answered (number 3) s
env_cb get_fastforwarding s = answered (truth false) s
env_cb (set_variables_of vs) s = answered silent (record s { options = set_variables vs s.options })
env_cb (core_options ds) s = declare_options ds s
env_cb (core_options_intl us) s = declare_options (flatten us) s
env_cb (core_options_v2 ds) s = declare_options (flatten ds) s
env_cb (core_options_v2_intl us) s = declare_options (flatten (flatten us)) s
env_cb set_input_descriptors s = answered silent s
env_cb set_controller_info s = answered silent s
env_cb set_support_no_game s = answered silent s
env_cb set_memory_maps s = answered silent s
env_cb set_subsystem_info s = answered silent s
env_cb set_geometry s = answered silent s
env_cb set_system_av_info s = answered silent s
env_cb (set_hw_render cb) s = request_hw_render cb s
env_cb (other cmd) s = refused silent s

-- A frame of the core: drawn into the framebuffer of the shim, a null pointer, or pixels
pub data Frame : Type 0 where
  hw_frame : Frame
  no_frame : Frame
  pixels : List ℕ → Frame

abbrev pub send : HostCall → Shim → Shim
send c s = record s { sent = s.sent ++ c ∷ [] }

pub hw_video : Host → ℕ → ℕ → Shim → Shim
hw_video host w h s = elim s.hw [
  | none ↦ send (video_refresh none w h 0) s
  | some hw ↦
      if hw.zero_copy && host.has_refresh_gl
      then send
          (video_refresh_gl hw.color_texture w h (if s.hw_cb.bottom_left_origin then 1 else 0)) s
      else elim (hw.read_frame w h) [
        | none ↦ send (video_refresh none w h 0) s
        | some (rgba, cw, ch, p) ↦ send (video_refresh (some rgba) cw ch p) s
      ]
]

pub video_cb : Host → Frame → ℕ → ℕ → ℕ → Shim → Shim
unfolding hw_video
video_cb host hw_frame w h pitch s = hw_video host w h s
video_cb host no_frame w h pitch s = send (video_refresh none w h 0) s
video_cb host (pixels src) w h pitch s =
    if w == 0 || h == 0
    then send (video_refresh none w h 0) s
    else let black = replicate (w * h * 4 % 2 ^ 64) 0 in
      let rgba = convert_to_rgba8 src w h (pitch % 2 ^ 32) s.pixel_format black in
      send (video_refresh (some rgba) w h (w * 4 % 2 ^ 32)) (record s { rgba = rgba })

pub input_poll_cb : Host → Shim → Shim
input_poll_cb host s =
    send (input_state 1)
      (send (input_state 0) (record s { input_0 = host.input_of 0; input_1 = host.input_of 1 }))

pub input_state_cb : ℕ → ℕ → ℕ → ℕ → Shim → ℕ
input_state_cb port device index id s =
    if port == 0
    then shim_map_input s.input_0 device index id
    else if port == 1
    then shim_map_input s.input_1 device index id
    else 0

pub audio_cb : ℕ → ℕ → Shim → Shim
audio_cb left right s = send (audio_sample (some (left ∷ right ∷ [])) 1) s

pub audio_batch_cb : Option (List ℕ) → ℕ → Shim → ℕ × Shim
audio_batch_cb none frames s = (frames, s)
audio_batch_cb (some samples) frames s =
    (frames, if frames == 0 then s else send (audio_sample (some samples) frames) s)

-- A call of the core and what comes back of it
pub data CoreCall : Type 0 where
  environment : EnvCall → CoreCall
  video : Frame → ℕ → ℕ → ℕ → CoreCall
  input_poll : CoreCall
  input_of : ℕ → ℕ → ℕ → ℕ → CoreCall
  audio : ℕ → ℕ → CoreCall
  audio_batch : Option (List ℕ) → ℕ → CoreCall

pub data Response : Type 0 where
  nothing : Response
  environment_answer : Bool → Answer → Response
  quantity : ℕ → Response

pub dispatch : Host → CoreCall → Shim → Access (Response × Shim)
unfolding env_cb video_cb input_poll_cb input_state_cb audio_cb audio_batch_cb
dispatch host (environment e) s =
    env_cb e s >>= λ (r : (Bool × Answer) × Shim). value (environment_answer r.0.0 r.0.1, r.1)
dispatch host (video f w h pitch) s = value (nothing, video_cb host f w h pitch s)
dispatch host input_poll s = value (nothing, input_poll_cb host s)
dispatch host (input_of port device index id) s =
    value (quantity (input_state_cb port device index id s), s)
dispatch host (audio left right) s = value (nothing, audio_cb left right s)
dispatch host (audio_batch samples frames) s =
    let r = audio_batch_cb samples frames s in value (quantity r.0, r.1)

-- What a function of the core does, as a program of its own: it calls the shim, goes on from what comes
-- back, and ends with a result.
pub data Script (R : Type 0) : Type 0 where
  finish : R → Script R
  ask : CoreCall → (Response → Script R) → Script R

pub run_script : {R : Type 0} → Host → Script R → Shim → Access (R × Shim)
unfolding dispatch
run_script host (finish r) s = value (r, s)
run_script host (ask c next) s =
    dispatch host c s >>= λ (r : Response × Shim). run_script host (next r.0) r.1
