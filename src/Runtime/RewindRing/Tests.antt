-- ===== src/Runtime/RewindRing/Tests.antt =====
-- A ring of two snapshots.
use retro_park.Base.{ℕ, ◌≡◌, List, [], ◌∷◌}
use retro_park.Runtime.RewindRing.{push_all, push_all-recent}

abbrev taken : List ℕ
taken = 1 ∷ 2 ∷ 3 ∷ []

push_all-recent_example : push_all 2 [] taken ≡ 2 ∷ 3 ∷ []
push_all-recent_example = push_all-recent 2 taken
