-- ===== src/Abi.antt =====
-- include/retropark/retropark_abi.h: the codes and records that cross the core ABI.
-- An `int16_t` is its bit pattern, below 2 ^ 16; a byte is a number below 2 ^ 8.
use retro_park.Base.{ℕ, ◌^◌, ◌<◌, ◌≡◌, Bool, true, false, List, length, All, replicate}

abbrev pub abi_version : ℕ
abi_version = 9

pub data RpResult : Type 0 where
  ok abi_mismatch bad_arg device internal timeout not_found unsupported : RpResult

abbrev pub is_ok : RpResult → Bool
is_ok RpResult.ok = true
is_ok _ = false

pub data CoreType : Type 0 where
  presenting driven : CoreType

pub data GraphicsApi : Type 0 where
  d3d11 vulkan no_gfx opengl : GraphicsApi

abbrev pub api_eq : GraphicsApi → GraphicsApi → Bool
api_eq GraphicsApi.d3d11 GraphicsApi.d3d11 = true
api_eq GraphicsApi.vulkan GraphicsApi.vulkan = true
api_eq GraphicsApi.no_gfx GraphicsApi.no_gfx = true
api_eq GraphicsApi.opengl GraphicsApi.opengl = true
api_eq _ _ = false

-- `rp_input_state`
pub record InputState : Type 0 where
  pub keys : List ℕ
  pub pad_axes : List ℕ
  pub pad_buttons : ℕ

-- `rp_input_state{}`
abbrev pub neutral : InputState
neutral = record { keys = replicate 256 0; pad_axes = replicate 8 0; pad_buttons = 0 }

abbrev pub IsByte : ℕ → Type 0
IsByte b = b < 256

abbrev pub IsU16 : ℕ → Type 0
IsU16 v = v < 2 ^ 16

-- What the C type of `rp_input_state` says of a value.
pub record IsInput (s : InputState) : Type 0 where
  pub keys_len : length s.keys ≡ 256
  pub axes_len : length s.pad_axes ≡ 8
  pub axes_u16 : All IsU16 s.pad_axes
  pub buttons_u16 : IsU16 s.pad_buttons
