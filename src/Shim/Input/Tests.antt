-- ===== src/Shim/Input/Tests.antt =====
-- A stick that is pushed half way up and one at rest; a player who holds start.
use retro_park.Base.{◌<◌, ◌≡◌, ◌∷◌, [], refl, arith}
use retro_park.Abi.{InputState, neutral}
use retro_park.Shim.Input.{analog, joypad, shim_map_input}
use retro_park.Shim.Input.Stick.{biased, shim_map_input-reverses}

abbrev half_up : InputState
half_up = record neutral { pad_axes = 0 ∷ 16384 ∷ 0 ∷ 0 ∷ 0 ∷ 0 ∷ 0 ∷ 0 ∷ [] }

abbrev lowest : InputState
lowest = record neutral { pad_axes = 0 ∷ 32768 ∷ 0 ∷ 0 ∷ 0 ∷ 0 ∷ 0 ∷ 0 ∷ [] }

abbrev start_pressed : InputState
start_pressed = record neutral { pad_buttons = 128 }

shim_map_input-reverses_example :
    biased (shim_map_input half_up analog 0 1) < biased (shim_map_input neutral analog 0 1)
shim_map_input-reverses_example =
    shim_map_input-reverses neutral half_up (omega arith) (omega arith) (omega arith) (omega arith)

-- The lowest number is its own negative.
lowest-kept : shim_map_input lowest analog 0 1 ≡ 32768
unfolding shim_map_input
lowest-kept = refl

start_pressed-held : shim_map_input start_pressed joypad 0 3 ≡ 1
unfolding shim_map_input
start_pressed-held = refl
