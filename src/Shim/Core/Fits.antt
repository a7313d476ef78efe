-- ===== src/Shim/Core/Fits.antt =====
-- cores/libretro_shim/LibretroShim.cpp: calls of the functions of a core that are there.
use retro_park.Base.{true, ◌≡◌, refl, arith, Option, none, some}
use retro_park.Loader.CoreLoader.{Access}
use retro_park.Loader.CoreLoader.Yields.{Yields, yields, Yields-bind}
use retro_park.Shim.Options.{is_some}
use retro_park.Shim.Options.Indexed.{IsSound}
use retro_park.Shim.Callbacks.{Host, Script}
use retro_park.Shim.Callbacks.Keeps.{run_script-Kept}
use retro_park.Shim.Core.{Retro, Instance, call, call_fn, call_if, is_usable}

-- A library that is accepted, and has the four functions that are then called without a check, too
pub record IsComplete {K : Type 0} (f : Retro K) : Type 0 where
  pub usable : is_usable f ≡ true
  pub input_poll : is_some f.set_input_poll ≡ true
  pub input_state : is_some f.set_input_state ≡ true
  pub audio_sample : is_some f.set_audio_sample ≡ true
  pub audio_sample_batch : is_some f.set_audio_sample_batch ≡ true

pub record IsReady {K : Type 0} (i : Instance K) : Type 0 where
  pub complete : IsComplete i.retro
  pub sound : IsSound i.shim.options

-- After a call of the core
pub record Fits {K : Type 0} (i i' : Instance K) : Type 0 where
  pub ready : IsReady i'
  pub retro : i'.retro ≡ i.retro
  pub game : i'.shim.game_loaded ≡ i.shim.game_loaded
  pub render : i'.shim.hw ≡ i.shim.hw

module _ {K : Type 0} (host : Host) where
  abbrev pub Fitting : {R : Type 0} → Instance K → Access (R × Instance K) → Type 0
  Fitting i = Yields (λ r. Fits i r.1)

  pub call-Fits :
      {R : Type 0} (f : K → Script (R × K)) (i : Instance K) → IsReady i → Fitting i (call host f i)
  unfolding call
  call-Fits f i h = Yields-bind (run_script-Kept host (f i.core) i.shim h.sound) (λ r k.
      yields _ (record {
        ready = record { complete = h.complete; sound = k.sound };
        retro = refl;
        game = k.game;
        render = k.render;
      }))

  pub call_fn-Fits :
      {R : Type 0} (f : Option (K → Script (R × K))) (i : Instance K)
      → IsReady i
      → is_some f ≡ true
      → Fitting i (call_fn host f i)
  unfolding call_fn
  call_fn-Fits none i h e = cc
  call_fn-Fits (some f) i h e = call-Fits f i h

  pub call_if-Fits :
      (f : Option (K → Script (Unit {0} × K))) (i : Instance K)
      → IsReady i
      → Fitting i (call_if host f i)
  unfolding call_if
  call_if-Fits none i h = yields _ (record { ready = h; retro = refl; game = refl; render = refl })
  call_if-Fits (some f) i h = call-Fits f i h

-- The functions that are looked for before a library is accepted
module _ {K : Type 0} (f : Retro K) (c : is_usable f ≡ true) where
  pub has_run : is_some f.run ≡ true
  has_run = ground arith

  pub has_load_game : is_some f.load_game ≡ true
  has_load_game = ground arith

  pub has_set_environment : is_some f.set_environment ≡ true
  has_set_environment = ground arith

  pub has_set_video_refresh : is_some f.set_video_refresh ≡ true
  has_set_video_refresh = ground arith

  pub has_init : is_some f.init ≡ true
  has_init = ground arith

  pub has_system_info : is_some f.get_system_info ≡ true
  has_system_info = ground arith

  pub has_system_av_info : is_some f.get_system_av_info ≡ true
  has_system_av_info = ground arith
