-- ===== src/Net/Toy.antt =====
-- A small game behind the runtime's calls of include/retropark/retropark.h, for tests of the sessions.
use retro_park.Base.{ℕ, ◌+◌, ◌*◌, ◌≤◌, ◌≡◌, refl, [], ◌∷◌, arith, ◌==◌, if◌then◌else◌}
use retro_park.Abi.{RpResult, InputState, neutral}
use retro_park.Net.Machine.{Machine, Emulation}

pub record Toy : Type 0 where
  pub count : ℕ
  pub pad_0 : InputState
  pub pad_1 : InputState

abbrev pub toy_step : ℕ → InputState → InputState → ℕ
toy_step n a b = n + 1 + a.pad_buttons + 2 * b.pad_buttons

abbrev pub toy : Machine Toy
toy = record {
  serialize_size = λ s. 1;
  save_state = λ s size. (RpResult.ok, s.count ∷ []);
  load_state = λ s bytes. elim bytes [
    | [] ↦ (RpResult.bad_arg, s)
    | n ∷ rest ↦ (RpResult.ok, record s { count = n })
  ];
  set_input = λ s port v. record s {
    pad_0 = if port == 0 then v else s.pad_0;
    pad_1 = if port == 0 then s.pad_1 else v;
  };
  advance = λ s emit_audio. (RpResult.ok, record s { count = toy_step s.count s.pad_0 s.pad_1 });
  render = λ s. s;
}

abbrev pub toy_input : Toy → ℕ → InputState
toy_input s port = if port == 0 then s.pad_0 else s.pad_1

pub toy_sets_input :
    (s : Toy) (p q : ℕ) (v : InputState)
    → p ≤ 1
    → q ≤ 1
    → toy_input (toy.set_input s p v) q ≡ (if p == q then v else toy_input s q)
toy_sets_input s p q v hp hq = ground arith

abbrev pub toy_game : Emulation Toy ℕ
toy_game = record {
  rt = toy;
  core = λ s. s.count;
  input = toy_input;
  step = toy_step;
  image = λ n. n ∷ [];
  laws = record {
    sizes = λ s. omega arith;
    saves = λ s. refl;
    loads = λ s n. refl;
    loads_core = λ s n. refl;
    sets_core = λ s p v. refl;
    sets_input = toy_sets_input;
    advances = λ s e. refl;
    advances_core = λ s e. refl;
    renders_core = λ s. refl;
  };
}

abbrev pub pad : ℕ → InputState
pad b = record neutral { pad_buttons = b }
