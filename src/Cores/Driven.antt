-- ===== src/Cores/Driven.antt =====
-- cores/refcore_driven/RefCoreDriven.cpp: a counter of frames, shown as a colour.
use retro_park.Base.{
  ℕ, ◌+◌, ◌-◌, ◌*◌, ◌/◌, ◌%◌, ◌^◌, true, false, none, some, List, [], ◌∷◌, ◌++◌, length, replicate,
  ltb, if◌then◌else◌,
}
use retro_park.Abi.{RpResult, CoreType, GraphicsApi, abi_version}
use retro_park.Loader.CoreLoader.{CoreAbi}
use retro_park.Runtime.State.{Platform, AvInfo, CoreInfo, SurfaceSet, video_refresh}
use retro_park.Cores.Word.{Word, word, word_bytes, read_word, fill}

pub record DrivenCore : Type 0 where
  pub fb : List ℕ
  pub frame : Word

-- `W` and `H`
abbrev pub side : ℕ
side = 64

pub dc_get_info : CoreInfo
dc_get_info = record { core_type = CoreType.driven; graphics_api = GraphicsApi.no_gfx }

abbrev pub dc_get_av_info : AvInfo
dc_get_av_info = record {
  has_sound = false;
  sample_rate = 0;
  base_width = side;
  base_height = side;
  max_width = side;
  max_height = side;
  pixel_format = 0;
}

unfoldable pub dc_create : DrivenCore
dc_create = record { fb = replicate (side * side * 4) 0; frame = word 0 }

-- `(uint8_t)((c->frame++ % 120) * 255 / 120)`
abbrev pub dc_blue : ℕ → ℕ
dc_blue n = n % 120 * 255 / 120 % 2 ^ 8

unfoldable pub dc_run_frame : DrivenCore → DrivenCore
unfolding fill
dc_run_frame c = record {
  frame = word (c.frame.0 + 1);
  fb = fill (side * side) (0 ∷ 255 ∷ dc_blue c.frame.0 ∷ 255 ∷ []);
}

abbrev pub dc_serialize_size : ℕ
dc_serialize_size = 4

-- The buffer that the host passes is of zeros before.
abbrev pub dc_serialize : DrivenCore → ℕ → (RpResult × List ℕ) × DrivenCore
dc_serialize c size =
    if ltb size 4
    then ((RpResult.bad_arg, replicate size 0), c)
    else ((RpResult.ok, word_bytes c.frame ++ replicate (size - 4) 0), c)

abbrev pub dc_unserialize : DrivenCore → List ℕ → RpResult × DrivenCore
dc_unserialize c bytes =
    if ltb (length bytes) 4
    then (RpResult.bad_arg, c)
    else (RpResult.ok, record c { frame = read_word bytes })

-- `kAbi`
abbrev pub dc_abi : CoreAbi DrivenCore SurfaceSet AvInfo
dc_abi = record {
  version = abi_version;
  create_fn = some (some dc_create);
  destroys = true;
  set_surfaces_fn = none;
  start_fn = none;
  stop_fn = none;
  get_av_info_fn = some (λ c. (dc_get_av_info, c));
  run_frame_fn = some dc_run_frame;
  serialize_size_fn = some (λ c. (dc_serialize_size, c));
  serialize_fn = some dc_serialize;
  unserialize_fn = some dc_unserialize;
  load_content_fn = none;
  options_json_fn = none;
  option_get_fn = none;
  option_set_fn = none;
}

-- What the core calls of its host in a frame; it asks for no input.
abbrev pub with_dc : {B Au : Type 0} → Platform DrivenCore B Au → Platform DrivenCore B Au
with_dc p = record p {
  plug = λ v w c. c;
  calls = λ c. video_refresh (some c.fb) side side (side * 4) ∷ [];
}
