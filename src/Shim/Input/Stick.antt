-- ===== src/Shim/Input/Stick.antt =====
-- cores/libretro_shim/ShimInput.h: the vertical axis of a stick.
use retro_park.Base.{ℕ, ◌+◌, ◌%◌, ◌^◌, ◌<◌, ◌≢◌, arith, get_or}
use retro_park.Abi.{InputState, IsU16}
use retro_park.Shim.Input.{negate, analog, shim_map_input}

-- The order of `int16_t` on bit patterns
abbrev pub biased : ℕ → ℕ
biased v = (v + 2 ^ 15) % 2 ^ 16

negate-reverses :
    (a b : ℕ)
    → IsU16 a
    → IsU16 b
    → a ≢ 2 ^ 15
    → biased a < biased b
    → biased (negate b) < biased (negate a)
negate-reverses a b ha hb low lt = omega arith

-- Of two positions of the left stick the one further up is answered as the smaller value of the
-- vertical axis, unless the lower one is the lowest number of 16 bits.
pub shim_map_input-reverses :
    (s t : InputState)
    → IsU16 (get_or s.pad_axes 1 0)
    → IsU16 (get_or t.pad_axes 1 0)
    → get_or s.pad_axes 1 0 ≢ 2 ^ 15
    → biased (get_or s.pad_axes 1 0) < biased (get_or t.pad_axes 1 0)
    → biased (shim_map_input t analog 0 1) < biased (shim_map_input s analog 0 1)
unfolding shim_map_input
shim_map_input-reverses s t hs ht low lt =
    negate-reverses (get_or s.pad_axes 1 0) (get_or t.pad_axes 1 0) hs ht low lt
