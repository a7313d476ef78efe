-- ===== src/Runtime/Unpaused.antt =====
-- A runtime that is not paused, with a driven core that can be saved: what `rp_runtime_present` of
-- src/runtime/Runtime.cpp does to the core, for the lockstep session, which plays its frames by it.
use retro_park.Base.{◌≡◌, ℕ, false}
use retro_park.Abi.{RpResult, InputState}
use retro_park.Loader.CoreLoader.{CoreAbi, value}
use retro_park.Loader.CoreLoader.Yields.{Yields-value}
use retro_park.Net.Machine.{Machine, Emulation}
use retro_park.Runtime.State.{Runtime, Platform, AvInfo, SurfaceSet}
use retro_park.Runtime.Frame.{present}
use retro_park.Runtime.Frame.Plays.{Saved, Plays}
use retro_park.Runtime.Frame.Driving.{step}
use retro_park.Runtime.Frame.Presents.{present-Plays}
use retro_park.Runtime.Machine.{Playing, Observed, machine, input_of, machine-Emulates}

pub record Unpaused (K B Au : Type 0) (abi : CoreAbi K SurfaceSet AvInfo) : Type 0 where
  pub rt : Runtime K B Au
  pub k : K
  pub pad_0 : InputState
  pub pad_1 : InputState
  pub plays : Plays abi false k pad_0 pad_1 rt

module _ {K B Au : Type 0} (p : Platform K B Au) (abi : CoreAbi K SurfaceSet AvInfo) (c : Saved abi)
    (clock : Runtime K B Au → ℕ) where
  abbrev m : Machine (Playing K B Au abi)
  m = machine p abi c clock

  abbrev to_playing : Unpaused K B Au abi → Playing K B Au abi
  to_playing s = record {
    rt = s.rt;
    k = s.k;
    pad_0 = s.pad_0;
    pad_1 = s.pad_1;
    paused = false;
    plays = s.plays;
  }

  -- The runtime as a session drives it; none of these calls pauses it.
  abbrev pub unpaused : Machine (Unpaused K B Au abi)
  unpaused = record {
    serialize_size = λ s. m.serialize_size (to_playing s);
    save_state = λ s n. m.save_state (to_playing s) n;
    load_state = λ s bytes.
        let (r, t) = m.load_state (to_playing s) bytes in
        (r, record { rt = t.rt; k = t.k; pad_0 = t.pad_0; pad_1 = t.pad_1; plays = t.plays });
    set_input = λ s port v.
        let t = m.set_input (to_playing s) port v in
        record { rt = t.rt; k = t.k; pad_0 = t.pad_0; pad_1 = t.pad_1; plays = t.plays };
    advance = λ s e.
        let (r, t) = m.advance (to_playing s) e in
        (r, record { rt = t.rt; k = t.k; pad_0 = t.pad_0; pad_1 = t.pad_1; plays = t.plays });
    render = λ s.
        let t = m.render (to_playing s) in
        record { rt = t.rt; k = t.k; pad_0 = t.pad_0; pad_1 = t.pad_1; plays = t.plays };
  }

  abbrev pub pads : Unpaused K B Au abi → ℕ → InputState
  pads s = input_of p abi c clock (to_playing s)

  abbrev pub game : (o : Observed p abi c) → Emulation (Unpaused K B Au abi) o.C
  game o = record {
    rt = unpaused;
    core = λ s. o.look s.k;
    input = pads;
    step = o.next;
    image = o.picture;
    laws =
        let l = machine-Emulates p abi c clock o in
        record {
          sizes = λ s. l.sizes (to_playing s);
          saves = λ s. l.saves (to_playing s);
          loads = λ s x. l.loads (to_playing s) x;
          loads_core = λ s x. l.loads_core (to_playing s) x;
          sets_core = λ s q v. l.sets_core (to_playing s) q v;
          sets_input = λ s q r v hq hr. l.sets_input (to_playing s) q r v hq hr;
          advances = λ s e. l.advances (to_playing s) e;
          advances_core = λ s e. l.advances_core (to_playing s) e;
          renders_core = λ s. l.renders_core (to_playing s);
        };
  }

  -- What `rp_runtime_present` without a readback leaves
  pub presented :
      (s : Unpaused K B Au abi)
      → (a : RpResult × Runtime K B Au) × (present p (clock s.rt) s.rt ≡ value a)
        × Plays abi false (step p abi c s.k s.pad_0 s.pad_1) s.pad_0 s.pad_1 a.1
  presented s = Yields-value (present-Plays p abi c (clock s.rt) s.k s.pad_0 s.pad_1 s.rt s.plays)

  abbrev pub show : Unpaused K B Au abi → Unpaused K B Au abi
  show s =
      let (a, same, plays) = presented s in
      record {
        rt = a.1;
        k = step p abi c s.k s.pad_0 s.pad_1;
        pad_0 = s.pad_0;
        pad_1 = s.pad_1;
        plays = plays;
      }

  -- Shown without a pause, the saved part of the core has moved by one frame.
  pub look-show :
      (o : Observed p abi c) (s : Unpaused K B Au abi)
      → o.look (show s).k ≡ o.next (o.look s.k) (pads s 0) (pads s 1)
  look-show o s = o.steps s.k s.pad_0 s.pad_1
