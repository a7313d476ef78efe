-- ===== src/Runtime/Machine.antt =====
-- A runtime of src/runtime/Runtime.cpp with a driven core that can be saved, behind the calls that a
-- netplay session makes of it through include/retropark/retropark.h.
use retro_park.Base.{
  ◌≡◌, refl, ap, ◌∙◌, ℕ, ◌≤◌, ◌<◌, ◌%◌, Bool, true, not, some, List, length, ◌==◌, if◌then◌else◌,
  arith, ==_iff, Bool-cases, inl, inr,
}
use retro_park.Abi.{RpResult, InputState}
use retro_park.Loader.CoreLoader.{CoreAbi, value}
use retro_park.Loader.CoreLoader.Yields.{Yields-value}
use retro_park.Net.Machine.{Machine, Emulates, Emulation}
use retro_park.Runtime.State.{Runtime, Platform, AvInfo, SurfaceSet}
use retro_park.Runtime.Host.{set_input}
use retro_park.Runtime.Frame.{serialize_size, save_state, load_state, advance, render}
use retro_park.Runtime.Frame.Plays.{Saved, IsWhole, Plays}
use retro_park.Runtime.Frame.Driving.{
  step, loaded, advance-Plays, render-Plays, serialize_size-Plays, save_state-Plays,
  load_state-Plays, set_input-Plays,
}

-- A runtime whose core `k` plays with the two inputs set, paused or not
pub record Playing (K B Au : Type 0) (abi : CoreAbi K SurfaceSet AvInfo) : Type 0 where
  pub rt : Runtime K B Au
  pub k : K
  pub pad_0 : InputState
  pub pad_1 : InputState
  pub paused : Bool
  pub plays : Plays abi paused k pad_0 pad_1 rt

-- The part of a core that is saved, which decides what is saved and how the part goes on
pub record Observed {K B Au : Type 0} (p : Platform K B Au) (abi : CoreAbi K SurfaceSet AvInfo)
    (c : Saved abi) : Type 1 where
  pub C : Type 0
  pub look : K → C
  pub next : C → InputState → InputState → C
  pub picture : C → List ℕ
  pub picture_pos : (x : C) → 0 < length (picture x)
  pub pictures : (k : K) → c.image k ≡ picture (look k)
  pub restores :
      (k : K) (x : C)
      → ((c.restore k (picture x)).0 ≡ RpResult.ok) × (look (c.restore k (picture x)).1 ≡ x)
  pub steps : (k : K) (v w : InputState) → look (step p abi c k v w) ≡ next (look k) v w

module _ {K B Au : Type 0} (p : Platform K B Au) (abi : CoreAbi K SurfaceSet AvInfo) (c : Saved abi)
    (clock : Runtime K B Au → ℕ) where
  -- What each call comes back with
  pub sized :
      (s : Playing K B Au abi)
      → (a : ℕ × Runtime K B Au) × (serialize_size s.rt ≡ value a)
        × ((a.0 ≡ c.size) × Plays abi s.paused s.k s.pad_0 s.pad_1 a.1)
  sized s = Yields-value (serialize_size-Plays p abi c s.k s.pad_0 s.pad_1 s.rt s.plays)

  pub saved :
      (n : ℕ) (s : Playing K B Au abi)
      → (a : (RpResult × List ℕ) × Runtime K B Au) × (save_state true n s.rt ≡ value a)
        × ((n ≡ c.size → a.0 ≡ (RpResult.ok, c.image s.k))
            × Plays abi s.paused s.k s.pad_0 s.pad_1 a.1)
  saved n s = Yields-value (save_state-Plays p abi c n s.k s.pad_0 s.pad_1 s.rt s.plays)

  pub restored :
      (bytes : List ℕ) (s : Playing K B Au abi)
      → (a : RpResult × Runtime K B Au) × (load_state (some bytes) s.rt ≡ value a)
        × ((a.0 ≡ (loaded p abi c s.k bytes).0)
            × Plays abi s.paused (loaded p abi c s.k bytes).1 s.pad_0 s.pad_1 a.1)
  restored bytes s = Yields-value (load_state-Plays p abi c bytes s.k s.pad_0 s.pad_1 s.rt s.plays)

  pub advanced :
      (e : ℕ) (s : Playing K B Au abi)
      → (a : RpResult × Runtime K B Au) × (advance p (not (e == 0)) s.rt ≡ value a)
        × ((a.0 ≡ RpResult.ok)
            × Plays abi s.paused (step p abi c s.k s.pad_0 s.pad_1) s.pad_0 s.pad_1 a.1)
  advanced e s =
      Yields-value (advance-Plays p abi c (not (e == 0)) s.k s.pad_0 s.pad_1 s.rt s.plays)

  -- The runtime as a session drives it. `clock` is what the steady clock says when a frame is rendered.
  abbrev pub machine : Machine (Playing K B Au abi)
  machine = record {
    serialize_size = λ s. (sized s).0.0;
    save_state = λ s n. (saved n s).0.0;
    load_state = λ s bytes.
        let (a, same, (e, plays)) = restored bytes s in
        (
          a.0,
          record {
            rt = a.1;
            k = (loaded p abi c s.k bytes).1;
            pad_0 = s.pad_0;
            pad_1 = s.pad_1;
            paused = s.paused;
            plays = plays;
          },
        );
    set_input = λ s port v. record {
      rt = set_input port v s.rt;
      k = s.k;
      pad_0 = if port % 2 == 0 then v else s.pad_0;
      pad_1 = if port % 2 == 0 then s.pad_1 else v;
      paused = s.paused;
      plays = set_input-Plays p abi c port v s.k s.pad_0 s.pad_1 s.rt s.plays;
    };
    advance = λ s e.
        let (a, same, (good, plays)) = advanced e s in
        (
          a.0,
          record {
            rt = a.1;
            k = step p abi c s.k s.pad_0 s.pad_1;
            pad_0 = s.pad_0;
            pad_1 = s.pad_1;
            paused = s.paused;
            plays = plays;
          },
        );
    render = λ s. record {
      rt = (render p (clock s.rt) s.rt).1;
      k = s.k;
      pad_0 = s.pad_0;
      pad_1 = s.pad_1;
      paused = s.paused;
      plays = render-Plays p abi c (clock s.rt) s.k s.pad_0 s.pad_1 s.rt s.plays;
    };
  }

  abbrev pub input_of : Playing K B Au abi → ℕ → InputState
  input_of s port = if port == 0 then s.pad_0 else s.pad_1

  sets_input :
      (s : Playing K B Au abi) (q r : ℕ) (v : InputState)
      → q ≤ 1
      → r ≤ 1
      → input_of (machine.set_input s q v) r ≡ (if q == r then v else input_of s r)
  sets_input s q r v hq hr = ground arith

  loaded-picture :
      (o : Observed p abi c) (k : K) (x : o.C)
      → ((loaded p abi c k (o.picture x)).0 ≡ RpResult.ok)
        × (o.look (loaded p abi c k (o.picture x)).1 ≡ x)
  loaded-picture o k x = elim (Bool-cases (length (o.picture x) == 0)) [
    | inl empty ↦ absurd (omega (arith, o.picture_pos x, (==_iff (length (o.picture x)) 0).0 empty))
    | inr full ↦ rw full (o.restores k x)
  ]

  -- A runtime with a driven core of which a part is saved and decides how the core goes on is what a
  -- netplay session takes it for: that part moves only in `advance`, by one frame on the inputs last set
  -- on the two ports, whether the frame is heard or not and whatever the rewind ring captures; the state
  -- saved from it brings any runtime with that core to the same part; and no call of these fails.
  pub machine-Emulates :
      (o : Observed p abi c) → Emulates machine (λ s. o.look s.k) input_of o.next o.picture
  machine-Emulates o = record {
    sizes = λ s. omega (arith, c.size_pos, (sized s).2.0);
    saves = λ s.
        (saved ((sized s).0.0) s).2.0 (sized s).2.0
        ∙ ap (λ bytes. (RpResult.ok, bytes)) (o.pictures s.k);
    loads = λ s x. (restored (o.picture x) s).2.0 ∙ (loaded-picture o s.k x).0;
    loads_core = λ s x. (loaded-picture o s.k x).1;
    sets_core = λ s q v. refl;
    sets_input = sets_input;
    advances = λ s e. (advanced e s).2.0;
    advances_core = λ s e. o.steps s.k s.pad_0 s.pad_1;
    renders_core = λ s. refl;
  }

  abbrev pub game : (o : Observed p abi c) → Emulation (Playing K B Au abi) o.C
  game o = record {
    rt = machine;
    core = λ s. o.look s.k;
    input = input_of;
    step = o.next;
    image = o.picture;
    laws = machine-Emulates o;
  }

  -- All of a core that a saved state brings back whole
  abbrev pub all_of : IsWhole abi c → Observed p abi c
  all_of whole = record {
    C = K;
    look = λ k. k;
    next = step p abi c;
    picture = c.image;
    picture_pos = c.image_pos;
    pictures = λ k. refl;
    restores = λ k k'. (ap (λ x. x.0) (whole k k'), ap (λ x. x.1) (whole k k'));
    steps = λ k v w. refl;
  }
