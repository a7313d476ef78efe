-- ===== src/Cores/Rollback.antt =====
-- cores/refcore_rollback/RefCoreRollback.cpp: a counter that steps by what the first player holds.
use retro_park.Base.{
  ℕ, ◌+◌, ◌-◌, ◌*◌, ◌%◌, ◌^◌, true, false, not, none, some, List, [], ◌∷◌, ◌++◌, length, get_or,
  replicate, ltb, ◌==◌, if◌then◌else◌,
}
use retro_park.Abi.{RpResult, CoreType, GraphicsApi, InputState, neutral, abi_version}
use retro_park.Loader.CoreLoader.{CoreAbi}
use retro_park.Runtime.State.{Platform, AvInfo, CoreInfo, SurfaceSet, input_state, video_refresh}
use retro_park.Cores.Word.{Word, word, word_bytes, read_word, fill}

-- `input` is what the host answers for port 0.
pub record RollbackCore : Type 0 where
  pub fb : List ℕ
  pub acc : Word
  pub input : InputState

-- `W` and `H`
abbrev pub side : ℕ
side = 64

pub rc_get_info : CoreInfo
rc_get_info = record { core_type = CoreType.driven; graphics_api = GraphicsApi.no_gfx }

abbrev pub rc_get_av_info : AvInfo
rc_get_av_info = record {
  has_sound = false;
  sample_rate = 0;
  base_width = side;
  base_height = side;
  max_width = side;
  max_height = side;
  pixel_format = 0;
}

unfoldable pub rc_create : RollbackCore
rc_create = record { fb = replicate (side * side * 4) 0; acc = word 0; input = neutral }

-- `in.keys['X'] ? 2u : 1u`
abbrev pub rc_step : InputState → ℕ
rc_step v = if not (get_or v.keys 88 0 == 0) then 2 else 1

unfoldable pub rc_run_frame : RollbackCore → RollbackCore
unfolding fill
rc_run_frame c =
    let acc' = word (c.acc.0 + rc_step c.input) in
    record c { acc = acc'; fb = fill (side * side) (acc'.0 % 2 ^ 8 ∷ 0 ∷ 0 ∷ 255 ∷ []) }

abbrev pub rc_serialize_size : ℕ
rc_serialize_size = 4

-- The buffer that the host passes is of zeros before.
abbrev pub rc_serialize : RollbackCore → ℕ → (RpResult × List ℕ) × RollbackCore
rc_serialize c size =
    if ltb size 4
    then ((RpResult.bad_arg, replicate size 0), c)
    else ((RpResult.ok, word_bytes c.acc ++ replicate (size - 4) 0), c)

abbrev pub rc_unserialize : RollbackCore → List ℕ → RpResult × RollbackCore
rc_unserialize c bytes =
    if ltb (length bytes) 4
    then (RpResult.bad_arg, c)
    else (RpResult.ok, record c { acc = read_word bytes })

-- `kAbi`
abbrev pub rc_abi : CoreAbi RollbackCore SurfaceSet AvInfo
rc_abi = record {
  version = abi_version;
  create_fn = some (some rc_create);
  destroys = true;
  set_surfaces_fn = none;
  start_fn = none;
  stop_fn = none;
  get_av_info_fn = some (λ c. (rc_get_av_info, c));
  run_frame_fn = some rc_run_frame;
  serialize_size_fn = some (λ c. (rc_serialize_size, c));
  serialize_fn = some rc_serialize;
  unserialize_fn = some rc_unserialize;
  load_content_fn = none;
  options_json_fn = none;
  option_get_fn = none;
  option_set_fn = none;
}

-- What the core is told of its inputs, and what it calls of its host in a frame
abbrev pub with_rc : {B Au : Type 0} → Platform RollbackCore B Au → Platform RollbackCore B Au
with_rc p = record p {
  plug = λ v w c. record c { input = v };
  calls = λ c. input_state 0 ∷ video_refresh (some c.fb) side side (side * 4) ∷ [];
}
