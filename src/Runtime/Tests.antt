-- ===== src/Runtime/Tests.antt =====
-- A runtime with a core that adds up what its two pads hold, at concrete calls.
use retro_park.Base.{arith, ℕ, ◌+◌, ◌*◌, ◌≡◌, refl, true, false, none, some, List, [], ◌∷◌}
use retro_park.Abi.{RpResult, is_ok, CoreType, GraphicsApi, InputState, neutral}
use retro_park.Loader.CoreLoader.{CoreAbi, LoaderState, value, ◌>>=◌}
use retro_park.Loader.CoreLoader.Safe.{has_core}
use retro_park.Loader.CoreLoader.Passes.{live}
use retro_park.Net.Machine.{Emulates}
use retro_park.Runtime.Frame.{advance, rewind}
use retro_park.Runtime.Frame.Driving.{step}
use retro_park.Runtime.Frame.Plays.{Saved, IsWhole, Plays}
use retro_park.Runtime.Frame.Rewinds.{rewind_undoes}
use retro_park.Runtime.Machine.{machine, input_of, machine-Emulates, all_of}
use retro_park.Loader.CoreLoader.Yields.{Yields}
use retro_park.Loader.Manifest.{Json}
use retro_park.Runtime.State.{
  Runtime, Platform, AvInfo, CoreInfo, SurfaceSet, audio_sample, video_refresh, runtime,
}
use retro_park.Runtime.Ready.{IsReady}
use retro_park.Runtime.Load.{load_core, load_static_core, reset}
use retro_park.Runtime.Load.Safe.{Attempted, load_core-Attempted, load_static_core-Attempted}
use retro_park.Runtime.Load.Content.{reset-IsReady}
use retro_park.Runtime.CApi.{rp_runtime_create}
use retro_park.Runtime.CApi.Safe.{
  Call, loads_core, loads_static_core, loads_content, loads_state, sets_input, presents, advances,
  saves_state, sets_rewind, unloads, rewinds, pauses, resets, resizes, performs, performs-IsReady,
  runtime-IsReady,
}

record Adder : Type 0 where
  count : ℕ
  pad_0 : ℕ
  pad_1 : ℕ

-- No text is JSON.
abbrev no_json : Json ℕ
no_json = record { parse = λ text. none; string_at = λ j key. none; unsigned_at = λ j key. none }

abbrev adder_av : AvInfo
adder_av = record {
  has_sound = true;
  sample_rate = 48000;
  base_width = 1;
  base_height = 1;
  max_width = 1;
  max_height = 1;
  pixel_format = 0;
}

abbrev picture : Adder → List ℕ
picture k = k.count ∷ k.pad_0 ∷ k.pad_1 ∷ []

abbrev restore_adder : Adder → List ℕ → RpResult × Adder
restore_adder k (n ∷ a ∷ b ∷ rest) = (RpResult.ok, record { count = n; pad_0 = a; pad_1 = b })
restore_adder k _ = (RpResult.bad_arg, k)

abbrev adder : CoreAbi Adder SurfaceSet AvInfo
adder = record {
  version = 9;
  create_fn = some (some (record { count = 0; pad_0 = 0; pad_1 = 0 }));
  destroys = true;
  set_surfaces_fn = none;
  start_fn = none;
  stop_fn = none;
  get_av_info_fn = some (λ k. (adder_av, k));
  run_frame_fn = some (λ k. record k { count = k.count + k.pad_0 + 2 * k.pad_1 });
  serialize_size_fn = some (λ k. (3, k));
  serialize_fn = some (λ k size. ((RpResult.ok, picture k), k));
  unserialize_fn = some restore_adder;
  load_content_fn = none;
  options_json_fn = none;
  option_get_fn = none;
  option_set_fn = none;
}

-- The backend and the audio output count what they are handed.
abbrev platform : Platform Adder ℕ ℕ
platform = record {
  initialize = λ b w h. (RpResult.ok, b);
  allocate_surfaces = λ b n w h. ((RpResult.ok, []), b);
  present_sync_handle = λ b. 0;
  present_consume_sync_handle = λ b. 0;
  present_device_uuid = λ b. [];
  gl_context = λ b. none;
  composite = λ b c. (RpResult.ok, b + 1);
  open_output = λ rate channels. some 0;
  submit = λ out samples n. out + n;
  want_frames = λ out. (480, out);
  plug = λ a b k. record k { pad_0 = a.pad_buttons; pad_1 = b.pad_buttons };
  calls = λ k.
      video_refresh (some (1 ∷ 2 ∷ 3 ∷ 4 ∷ [])) 1 1 4 ∷ audio_sample (some (500 ∷ 0 ∷ [])) 1 ∷ [];
}

abbrev driven_info : CoreInfo
driven_info = record { core_type = CoreType.driven; graphics_api = GraphicsApi.no_gfx }

-- The first load finds no manifest, content is refused, a state is too short, and the runtime goes on.
abbrev session : List (Call Adder)
session =
    loads_core none (λ path. none) none
    ∷ presents 1
    ∷ loads_static_core (some (some adder)) (some driven_info) (some (65 ∷ []))
    ∷ loads_content none
    ∷ sets_rewind true 2
    ∷ sets_input 1 (some (record neutral { pad_buttons = 3 }))
    ∷ presents 2
    ∷ advances false
    ∷ saves_state true 0
    ∷ rewinds
    ∷ loads_state (some (5 ∷ []))
    ∷ pauses
    ∷ resizes 8 8
    ∷ resets
    ∷ unloads
    ∷ rewinds
    ∷ []

performs-IsReady_example :
    (r : Runtime Adder ℕ ℕ) × (performs no_json platform session
        (rp_runtime_create platform GraphicsApi.vulkan (some 0))
      ≡ value (some r))
    × IsReady r
performs-IsReady_example = performs-IsReady no_json platform session GraphicsApi.vulkan (some 0)

-- The runtime as the constructor leaves it, and as it stands with the core loaded
abbrev fresh : Runtime Adder ℕ ℕ
fresh = runtime platform GraphicsApi.vulkan (some 0)

load_core-Attempted_example :
    Yields
      (Attempted fresh)
      (load_core platform no_json (some (1 ∷ [])) (λ path. none) (67 ∷ []) fresh)
load_core-Attempted_example =
    load_core-Attempted platform no_json (some (1 ∷ [])) (λ path. none) (67 ∷ []) fresh
      (runtime-IsReady no_json platform GraphicsApi.vulkan (some 0))

load_static_core-Attempted_example :
    Yields
      (Attempted fresh)
      (load_static_core platform (some (some adder)) (some driven_info) (65 ∷ []) fresh)
load_static_core-Attempted_example =
    load_static_core-Attempted platform (some (some adder)) (some driven_info) (65 ∷ []) fresh
      (runtime-IsReady no_json platform GraphicsApi.vulkan (some 0))

abbrev pad : ℕ → InputState
pad n = record neutral { pad_buttons = n }

abbrev at_work : Adder → Runtime Adder ℕ ℕ
at_work k = record fresh {
  module_ = some (some (some adder));
  loader = live adder k;
  core_loaded = true;
  core_type = CoreType.driven;
  input_0 = pad 1;
  input_1 = pad 5;
  rewind_enabled = true;
  rewind_max = 3;
}

abbrev seven : Adder
seven = record { count = 7; pad_0 = 0; pad_1 = 0 }

reset-IsReady_example :
    Yields
      (λ (x, r'). IsReady r' × (is_ok x ≡ true → r'.core_loaded ≡ true))
      (reset platform (at_work seven))
unfolding runtime
reset-IsReady_example = reset-IsReady platform (at_work seven) (record {
  sound = has_core LoaderState.created adder seven refl refl;
  in_step = refl;
  started = λ up. refl;
  backed = λ on. refl;
  kept = λ on. refl;
})

adder_saved : Saved adder
adder_saved = record {
  size = 3;
  run = λ k. record k { count = k.count + k.pad_0 + 2 * k.pad_1 };
  save = λ k size. ((RpResult.ok, picture k), k);
  restore = restore_adder;
  image = picture;
  size_pos = omega arith;
  image_pos = λ k. omega arith;
  runs = refl;
  sizes = refl;
  has_save = refl;
  saves = λ k. refl;
  has_restore = refl;
}

adder-IsWhole : IsWhole adder adder_saved
unfolding adder_saved
adder-IsWhole k k' = refl

machine-Emulates_example :
    Emulates
      (machine platform adder adder_saved (λ r. 5))
      (λ s. s.k)
      (input_of platform adder adder_saved (λ r. 5))
      (step platform adder adder_saved)
      adder_saved.image
machine-Emulates_example =
    machine-Emulates platform adder adder_saved (λ r. 5)
      (all_of platform adder adder_saved (λ r. 5) adder-IsWhole)

rewind_undoes_example :
    Yields
      (λ ((x, r') : RpResult × Runtime Adder ℕ ℕ).
        (x ≡ RpResult.ok) × Plays adder false seven (pad 1) (pad 5) r' × (r'.rewind_replay ≡ true))
      (advance platform true (at_work seven) >>= λ (x, r1).
        advance platform true r1 >>= λ (x', r2). rewind r2)
unfolding runtime
rewind_undoes_example =
    rewind_undoes platform adder adder_saved adder-IsWhole {z = false} seven (pad 1) (pad 5) [] 3
      (at_work seven) (0, refl) refl (omega arith)
