-- ===== src/Loader/CoreLoader/Passes.antt =====
-- A call of src/loader/CoreLoader.cpp on a loader that holds a core goes to the core's own function.
use retro_park.Base.{ℕ, ◌≡◌, some, List}
use retro_park.Abi.{RpResult}
use retro_park.Loader.CoreLoader.{
  LoaderState, CoreAbi, Loader, value, call_core, run_frame, serialize_size, serialize, unserialize,
}

module _ {K Set Av : Type 0} where
  -- A driven core is created and never started.
  abbrev pub live : CoreAbi K Set Av → K → Loader K Set Av
  live abi k = record { state = LoaderState.created; abi = some abi; core = some k }

  pub run_frame-live :
      (abi : CoreAbi K Set Av) (f : K → K) (k : K)
      → abi.run_frame_fn ≡ some f
      → run_frame (live abi k) ≡ value (RpResult.ok, live abi (f k))
  unfolding run_frame call_core
  run_frame-live abi f k e = simp (e)

  pub serialize_size-live :
      (abi : CoreAbi K Set Av) (f : K → ℕ × K) (k : K)
      → abi.serialize_size_fn ≡ some f
      → serialize_size (live abi k) ≡ value ((f k).0, live abi (f k).1)
  unfolding serialize_size call_core
  serialize_size-live abi f k e = simp (e)

  pub serialize-live :
      (abi : CoreAbi K Set Av) (f : K → ℕ → (RpResult × List ℕ) × K) (k : K) (size : ℕ)
      → abi.serialize_fn ≡ some f
      → serialize size (live abi k) ≡ value ((f k size).0, live abi (f k size).1)
  unfolding serialize call_core
  serialize-live abi f k size e = simp (e)

  pub unserialize-live :
      (abi : CoreAbi K Set Av) (f : K → List ℕ → RpResult × K) (k : K) (bytes : List ℕ)
      → abi.unserialize_fn ≡ some f
      → unserialize bytes (live abi k) ≡ value ((f k bytes).0, live abi (f k bytes).1)
  unfolding unserialize call_core
  unserialize-live abi f k bytes e = simp (e)
