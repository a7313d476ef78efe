-- ===== src/Runtime/Host.antt =====
-- What a core may call of its host: the `on_` functions of src/runtime/Runtime.cpp.
pub mod Safe
pub mod Beyond
use retro_park.Base.{
  ℕ, zero, suc, ◌+◌, ◌*◌, ◌%◌, ◌^◌, Bool, true, false, not, ◌&&◌, ◌||◌, Option, none, some, List,
  [], ◌∷◌, ltb, leb, take, ◌==◌, if◌then◌else◌,
}
use retro_park.Abi.{InputState}
use retro_park.Render.SurfaceRing.{accept_submit}
use retro_park.Runtime.State.{
  Runtime, Platform, HostCall, input_state, video_refresh, video_refresh_gl, audio_sample,
  submit_frame,
}

-- `s > 128 || s < -128`, for the bit pattern of an `int16_t`
abbrev pub is_loud : ℕ → Bool
is_loud s = if ltb s 32768 then ltb 128 s else ltb s 65408

pub any_loud : List ℕ → Bool
any_loud [] = false
any_loud (s ∷ samples) = let rest = any_loud samples in is_loud s || rest

module _ {K B Au : Type 0} where
  pub on_submit : ℕ → ℕ → ℕ → Runtime K B Au → Runtime K B Au
  on_submit index generation sync_value r = record r {
    ring = (accept_submit index generation sync_value r.ring).1;
  }

  -- `input_[port & 1u]`
  pub input_at : ℕ → Runtime K B Au → InputState
  input_at port r = if port % 2 == 0 then r.input_0 else r.input_1

  pub on_input : ℕ → Runtime K B Au → InputState × Runtime K B Au
  unfolding input_at
  on_input port r = (input_at port r, record r { input_polls = (r.input_polls + 1) % 2 ^ 64 })

  unfoldable pub set_input : ℕ → InputState → Runtime K B Au → Runtime K B Au
  set_input port v r = record r {
    input_0 = if port % 2 == 0 then v else r.input_0;
    input_1 = if port % 2 == 0 then r.input_1 else v;
  }

  pub on_video_refresh : Option (List ℕ) → ℕ → ℕ → ℕ → Runtime K B Au → Runtime K B Au
  on_video_refresh pixels w h pitch r =
      let absent : Bool = elim pixels [ none ↦ true | some _ ↦ false ] in
      if absent && r.dr_is_gl then record r { dr_have = true } else record r {
        dr_have = true;
        dr_dupe = absent;
        dr_is_gl = false;
        dr_data = pixels;
        dr_w = w;
        dr_h = h;
        dr_pitch = pitch;
      }

  pub on_video_refresh_gl : ℕ → ℕ → ℕ → ℕ → Runtime K B Au → Runtime K B Au
  on_video_refresh_gl tex w h blo r = record r {
    dr_have = true;
    dr_dupe = false;
    dr_is_gl = true;
    dr_gl_tex = tex;
    dr_gl_w = w;
    dr_gl_h = h;
    dr_gl_blo = not (blo == 0);
    gl_frames = (r.gl_frames + 1) % 2 ^ 64;
  }

module _ {K B Au : Type 0} (p : Platform K B Au) where
  pub on_gl_share_context : Runtime K B Au → Option ℕ
  on_gl_share_context r = elim r.backend [ none ↦ none | some b ↦ p.gl_context b ]

  pub on_audio_sample : Option (List ℕ) → ℕ → Runtime K B Au → Runtime K B Au
  unfolding any_loud
  on_audio_sample frames n r = elim frames [
    | none ↦ r
    | some samples ↦ if (r.suppress_audio || r.paused) || n == 0 then r else record r {
      audio_frames = (r.audio_frames + n) % 2 ^ 64;
      audio_nonsilent = r.audio_nonsilent || any_loud (take (n * 2) samples);
      audio = elim r.audio [ none ↦ none | some out ↦ some (p.submit out samples n) ];
    }
  ]

  pub on_audio_want : Runtime K B Au → ℕ × Runtime K B Au
  on_audio_want r =
      let r' = record r { audio_want_calls = (r.audio_want_calls + 1) % 2 ^ 64 } in
      if r.paused then (0, r') else elim r.audio [
        | none ↦ (480, r')
        | some out ↦ let (n, out') = p.want_frames out in (n, record r' { audio = some out' })
      ]

  pub answer : HostCall → Runtime K B Au → Runtime K B Au
  unfolding on_submit on_input on_video_refresh on_video_refresh_gl on_audio_sample
  answer (input_state port) r = (on_input port r).1
  answer (video_refresh pixels w h pitch) r = on_video_refresh pixels w h pitch r
  answer (video_refresh_gl tex w h blo) r = on_video_refresh_gl tex w h blo r
  answer (audio_sample frames n) r = on_audio_sample frames n r
  answer (submit_frame index generation sync_value) r = on_submit index generation sync_value r

  -- The calls of one frame, in their order
  pub answer_all : List HostCall → Runtime K B Au → Runtime K B Au
  answer_all [] r = r
  answer_all (c ∷ cs) r = answer_all cs (answer c r)
