-- ===== src/Runtime/Host/Beyond.antt =====
-- What a core cannot reach through its host, in src/runtime/Runtime.cpp: itself, what is loaded, the
-- backend, the inputs and whether it is paused.
use retro_park.Base.{
  ◌≡◌, refl, ℕ, ◌∙◌, Bool, true, false, not, ◌&&◌, ◌||◌, Option, none, some, List, [], ◌∷◌, ◌==◌,
  if◌then◌else◌,
}
use retro_park.Abi.{CoreType, InputState}
use retro_park.Loader.CoreLoader.{Loader}
use retro_park.Runtime.State.{
  Runtime, Platform, SurfaceSet, AvInfo, HostCall, input_state, video_refresh, video_refresh_gl,
  audio_sample, submit_frame,
}
use retro_park.Runtime.Host.{
  on_submit, on_input, on_video_refresh, on_video_refresh_gl, on_audio_sample, answer, answer_all,
}

pub record Beyond (K B : Type 0) : Type 0 where
  pub loader : Loader K SurfaceSet AvInfo
  pub core_loaded : Bool
  pub core_type : CoreType
  pub waits : Bool
  pub paused : Bool
  pub backend : Option B
  pub input_0 : InputState
  pub input_1 : InputState

module _ {K B Au : Type 0} where
  -- `requires_content_ && !content_loaded_` among them
  abbrev pub beyond : Runtime K B Au → Beyond K B
  beyond r = record {
    loader = r.loader;
    core_loaded = r.core_loaded;
    core_type = r.core_type;
    waits = r.requires_content && not r.content_loaded;
    paused = r.paused;
    backend = r.backend;
    input_0 = r.input_0;
    input_1 = r.input_1;
  }

  pub beyond-if :
      (r : Runtime K B Au) (c : Bool) (a b : Runtime K B Au)
      → beyond a ≡ beyond r
      → beyond b ≡ beyond r
      → beyond (if c then a else b) ≡ beyond r
  beyond-if r true a b h h' = h
  beyond-if r false a b h h' = h'

  beyond-answer :
      (p : Platform K B Au) (c : HostCall) (r : Runtime K B Au) → beyond (answer p c r) ≡ beyond r
  unfolding answer on_submit on_input on_video_refresh on_video_refresh_gl on_audio_sample
  beyond-answer p (input_state port) r = refl
  beyond-answer p (video_refresh none w h pitch) r = beyond-if r (true && r.dr_is_gl) _ _ refl refl
  beyond-answer p (video_refresh (some pixels) w h pitch) r = refl
  beyond-answer p (video_refresh_gl tex w h blo) r = refl
  beyond-answer p (audio_sample none n) r = refl
  beyond-answer p (audio_sample (some samples) n) r =
      beyond-if r ((r.suppress_audio || r.paused) || n == 0) _ _ refl refl
  beyond-answer p (submit_frame index generation sync_value) r = refl

  pub beyond-answer_all :
      (p : Platform K B Au) (cs : List HostCall) (r : Runtime K B Au)
      → beyond (answer_all p cs r) ≡ beyond r
  unfolding answer_all
  beyond-answer_all p [] r = refl
  beyond-answer_all p (c ∷ cs) r = beyond-answer_all p cs (answer p c r) ∙ beyond-answer p c r

  -- The rewind ring is out of the core's reach, too.
  abbrev pub history : Runtime K B Au → List (List ℕ) × Bool × Bool × ℕ
  history r = (r.rewind_ring, r.rewind_enabled, r.rewind_replay, r.rewind_max)

  pub history-if :
      (r : Runtime K B Au) (c : Bool) (a b : Runtime K B Au)
      → history a ≡ history r
      → history b ≡ history r
      → history (if c then a else b) ≡ history r
  history-if r true a b h h' = h
  history-if r false a b h h' = h'

  history-answer :
      (p : Platform K B Au) (c : HostCall) (r : Runtime K B Au) → history (answer p c r) ≡ history r
  unfolding answer on_submit on_input on_video_refresh on_video_refresh_gl on_audio_sample
  history-answer p (input_state port) r = refl
  history-answer p (video_refresh none w h pitch) r =
      history-if r (true && r.dr_is_gl) _ _ refl refl
  history-answer p (video_refresh (some pixels) w h pitch) r = refl
  history-answer p (video_refresh_gl tex w h blo) r = refl
  history-answer p (audio_sample none n) r = refl
  history-answer p (audio_sample (some samples) n) r =
      history-if r ((r.suppress_audio || r.paused) || n == 0) _ _ refl refl
  history-answer p (submit_frame index generation sync_value) r = refl

  pub history-answer_all :
      (p : Platform K B Au) (cs : List HostCall) (r : Runtime K B Au)
      → history (answer_all p cs r) ≡ history r
  unfolding answer_all
  history-answer_all p [] r = refl
  history-answer_all p (c ∷ cs) r = history-answer_all p cs (answer p c r) ∙ history-answer p c r
