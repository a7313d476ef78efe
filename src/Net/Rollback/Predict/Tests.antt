-- ===== src/Net/Rollback/Predict/Tests.antt =====
-- Predictions of src/net/RollbackPredict.cpp at concrete inputs.
use retro_park.Base.{arith}
use retro_park.Base.Map.{Map, empty, insert}
use retro_park.Abi.{InputState, neutral}
use retro_park.Net.Rollback.Predict.{first_mispredicted, Found, first_mispredicted-Found}

abbrev fire : InputState
fire = record neutral { pad_buttons = 1 }

-- Frames 3 and 4 came in; the prediction for frame 4 was wrong.
abbrev came_in : Map InputState
came_in = insert 4 fire (insert 3 neutral empty)

abbrev predicted : Map InputState
predicted = insert 4 neutral (insert 3 neutral empty)

first_mispredicted-Found_example :
    Found came_in predicted 3 4 (first_mispredicted came_in predicted 3 4)
first_mispredicted-Found_example = first_mispredicted-Found came_in predicted 3 4 (omega arith)
