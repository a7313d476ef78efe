-- ===== src/Shim/Input.antt =====
-- cores/libretro_shim/ShimInput.h: the answer of the libretro shim to a poll of the input by a core.
-- Devices, indices and ids are the numbers that libretro.h gives them; an `int16_t` is its bit pattern.
pub mod Stick
mod Tests
use retro_park.Base.{
  ℕ, ◌-◌, ◌/◌, ◌%◌, ◌^◌, Bool, true, false, ◌&&◌, ◌||◌, not, get_or, ltb, ◌==◌, if◌then◌else◌,
}
use retro_park.Abi.{InputState}

-- `RETRO_DEVICE_JOYPAD` and `RETRO_DEVICE_ANALOG`
abbrev pub joypad : ℕ
joypad = 1

abbrev pub analog : ℕ
analog = 5

-- `(int16_t)(-v)`
abbrev pub negate : ℕ → ℕ
negate v = (2 ^ 16 - v) % 2 ^ 16

-- `s > 8192`, for the bit pattern of an `int16_t`
abbrev pub past_trigger : ℕ → Bool
past_trigger v = ltb 8192 v && ltb v (2 ^ 15)

-- The lambda `pad`
abbrev pub pad_bit : InputState → ℕ → Bool
pad_bit s b = s.pad_buttons / 2 ^ b % 2 == 1

abbrev pub pressed : InputState → ℕ → ℕ → Bool
pressed s key b = not (get_or s.keys key 0 == 0) || pad_bit s b

abbrev pub bool_to_int : Bool → ℕ
bool_to_int b = if b then 1 else 0

-- The `if`s on `id` for a stick
abbrev pub stick : ℕ → ℕ → ℕ → ℕ
stick ax ay id = if id == 0 then ax else if id == 1 then negate ay else 0

abbrev pub map_analog : InputState → ℕ → ℕ → ℕ
map_analog s index id =
    if index == 0
    then stick (get_or s.pad_axes 0 0) (get_or s.pad_axes 1 0) id
    else if index == 1
    then stick (get_or s.pad_axes 2 0) (get_or s.pad_axes 3 0) id
    else 0

-- The `switch` on `id`; the keys are `VK_UP`, ..., 'X', 'Z', `VK_RETURN` and `VK_SHIFT` of windows.h
pub joypad_held : InputState → ℕ → Bool
joypad_held s id =
    if id == 4
    then pressed s 38 10
    else if id == 5
    then pressed s 40 11
    else if id == 6
    then pressed s 37 12
    else if id == 7
    then pressed s 39 13
    else if id == 8
    then pressed s 88 0
    else if id == 0
    then pressed s 90 1
    else if id == 3
    then pressed s 13 7
    else if id == 2
    then pressed s 16 6
    else if id == 10
    then pad_bit s 4
    else if id == 11
    then pad_bit s 5
    else if id == 12
    then past_trigger (get_or s.pad_axes 4 0)
    else false

pub shim_map_input : InputState → ℕ → ℕ → ℕ → ℕ
unfolding joypad_held
shim_map_input s device index id =
    if device == analog
    then map_analog s index id
    else if not (device == joypad)
    then 0
    else bool_to_int (joypad_held s id)
