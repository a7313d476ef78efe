-- ===== src/Runtime/Frame/Presents.antt =====
-- `Runtime::present` of src/runtime/Runtime.cpp on a driven core that can be saved.
use retro_park.Base.{◌≡◌, ap, ℕ, true, false, not, ◌&&◌}
use retro_park.Abi.{is_ok, InputState}
use retro_park.Loader.CoreLoader.{CoreAbi}
use retro_park.Loader.CoreLoader.Yields.{Yields, yields, Yields-bind, if-Yields}
use retro_park.Runtime.State.{Runtime, Platform, AvInfo, SurfaceSet}
use retro_park.Runtime.Boot.{is_presenting}
use retro_park.Runtime.Frame.{is_driven, present}
use retro_park.Runtime.Frame.Plays.{Saved, Plays}
use retro_park.Runtime.Frame.Driving.{step, advance-Plays, render-Plays}

module _ {K B Au : Type 0} (p : Platform K B Au) (abi : CoreAbi K SurfaceSet AvInfo)
    (c : Saved abi) where
  -- Where nothing is paused, `present` is a frame.
  pub present-Plays :
      (now : ℕ) (k : K) (v w : InputState) (r : Runtime K B Au)
      → Plays abi false k v w r
      → Yields (λ (x, r'). Plays abi false (step p abi c k v w) v w r') (present p now r)
  unfolding present
  present-Plays now k v w r (b, e) =
      if-Yields (is_driven r && not r.paused)
        (λ t. Yields-bind (advance-Plays p abi c true k v w r (b, e)) (λ (res, r1) (good, h1).
          if-Yields (is_ok res)
            (λ t'. yields _ (render-Plays p abi c now (step p abi c k v w) v w r1 h1))
            (λ t'. yields _ h1)))
        (λ t.
          let driven : is_driven r ≡ true =
            ap (λ s. s.core_loaded && not (is_presenting s.core_type)) e in
          let on : r.paused ≡ false = ap (λ s. s.paused) e in cc (t, driven, on))
