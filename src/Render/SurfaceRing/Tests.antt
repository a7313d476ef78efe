-- ===== src/Render/SurfaceRing/Tests.antt =====
-- A ring of two slots, reallocated between two submissions.
use retro_park.Base.{◌≡◌, none, List, [], ◌∷◌, arith, false}
use retro_park.Render.SurfaceRing.{
  SurfaceRing, latest_ready, Call, reallocates, takes_slot, submits, calls,
}
use retro_park.Render.SurfaceRing.Latest.{latest_ready-shown_after}
use retro_park.Render.SurfaceRing.Slots.{dealt, round_robin, IsInRange, dealt-round_robin}

-- The second frame was drawn before the reallocation, and comes in after it.
abbrev late : List Call
late = reallocates 64 64 ∷ submits 0 1 10 ∷ takes_slot ∷ reallocates 32 32 ∷ submits 1 1 11 ∷ []

abbrev two_slots : SurfaceRing
two_slots = record {
  slot_count = 2;
  width = 0;
  height = 0;
  generation = 0;
  producer_cursor = 1;
  has_ready = false;
  ready_index = 0;
  ready_generation = 0;
  ready_sync = 0;
}

latest_ready-shown_after_example : latest_ready (calls late two_slots) ≡ none
latest_ready-shown_after_example = latest_ready-shown_after late two_slots (omega arith)

two_slots-IsInRange : IsInRange two_slots
two_slots-IsInRange = record {
  slots = omega arith;
  slots_u32 = omega arith;
  cursor = omega arith;
  ready = λ e. cc;
}

dealt-round_robin_example : dealt 3 two_slots ≡ round_robin 3 2 1
dealt-round_robin_example = dealt-round_robin 3 two_slots two_slots-IsInRange
