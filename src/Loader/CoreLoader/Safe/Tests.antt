-- ===== src/Loader/CoreLoader/Safe/Tests.antt =====
-- A core that counts the frames it ran, loaded and started.
use retro_park.Base.{ℕ, ◌+◌, ◌≡◌, refl, true, none, some, List, [], ◌∷◌}
use retro_park.Abi.{RpResult}
use retro_park.Loader.CoreLoader.{LoaderState, CoreAbi, Loader, value, call_core, start}
use retro_park.Loader.CoreLoader.Safe.{
  Call, loads, creates, starts, stops, runs, sets_surfaces, asks_size, destroys, perform, performs,
  left, IsSound, has_nothing, has_core, Moves, performs-IsSound, perform-Moves,
}

abbrev counter : CoreAbi ℕ ℕ ℕ
counter = record {
  version = 9;
  create_fn = some (some 0);
  destroys = true;
  set_surfaces_fn = none;
  start_fn = some (λ k. (RpResult.ok, k));
  stop_fn = none;
  get_av_info_fn = some (λ k. (60, k));
  run_frame_fn = some (λ k. k + 1);
  serialize_size_fn = none;
  serialize_fn = none;
  unserialize_fn = none;
  load_content_fn = none;
  options_json_fn = none;
  option_get_fn = none;
  option_set_fn = none;
}

abbrev nothing : Loader ℕ ℕ ℕ
nothing = record { state = LoaderState.unloaded; abi = none; core = none }

-- The surfaces are set too early, and the core runs and stops once more than it may.
abbrev session : List (Call ℕ ℕ ℕ)
session =
    sets_surfaces 1
    ∷ loads (some (some (some counter)))
    ∷ runs
    ∷ creates
    ∷ runs
    ∷ starts
    ∷ runs
    ∷ stops
    ∷ stops
    ∷ asks_size
    ∷ destroys
    ∷ runs
    ∷ []

performs-IsSound_example : (l : Loader ℕ ℕ ℕ) × (performs session nothing ≡ value l) × IsSound l
performs-IsSound_example = performs-IsSound session nothing has_nothing

abbrev idle : Loader ℕ ℕ ℕ
idle = record { state = LoaderState.created; abi = some counter; core = some 3 }

abbrev running : Loader ℕ ℕ ℕ
running = record { state = LoaderState.started; abi = some counter; core = some 3 }

idle-starts : perform starts idle ≡ value running
unfolding perform left start call_core
idle-starts = refl

perform-Moves_example : Moves LoaderState.created LoaderState.started
perform-Moves_example =
    perform-Moves starts idle running (has_core LoaderState.created counter 3 refl refl) idle-starts
