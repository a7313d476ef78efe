-- ===== src/Runtime/Host/Safe.antt =====
-- What a core calls of its host, in src/runtime/Runtime.cpp, leaves the runtime sound and the core loaded.
use retro_park.Base.{
  ◌≡◌, refl, ◌∙◌, ℕ, Bool, true, false, ◌&&◌, ◌||◌, none, some, List, [], ◌∷◌, ◌==◌, if◌then◌else◌,
}
use retro_park.Abi.{InputState}
use retro_park.Runtime.State.{
  Runtime, Platform, HostCall, input_state, video_refresh, video_refresh_gl, audio_sample,
  submit_frame,
}
use retro_park.Runtime.Ready.{IsReady}
use retro_park.Runtime.Host.{
  on_submit, on_input, set_input, on_video_refresh, on_video_refresh_gl, on_audio_sample, answer,
  answer_all,
}

module _ {K B Au : Type 0} where
  abbrev pub Same : Runtime K B Au → Runtime K B Au → Type 0
  Same r r' = IsReady r' × (r'.core_loaded ≡ r.core_loaded)

  pub if-Same :
      (r : Runtime K B Au) (c : Bool) (a b : Runtime K B Au)
      → Same r a
      → Same r b
      → Same r (if c then a else b)
  if-Same r true a b h h' = h
  if-Same r false a b h h' = h'

  pub set_input-Same :
      (port : ℕ) (v : InputState) (r : Runtime K B Au) → IsReady r → Same r (set_input port v r)
  unfolding set_input
  set_input-Same port v r i = (i, refl)

  answer-Same :
      (p : Platform K B Au) (c : HostCall) (r : Runtime K B Au) → IsReady r → Same r (answer p c r)
  unfolding answer on_submit on_input on_video_refresh on_video_refresh_gl on_audio_sample
  answer-Same p (input_state port) r i = (i, refl)
  answer-Same p (video_refresh none w h pitch) r i =
      if-Same r (true && r.dr_is_gl) _ _ (i, refl) (i, refl)
  answer-Same p (video_refresh (some pixels) w h pitch) r i = (i, refl)
  answer-Same p (video_refresh_gl tex w h blo) r i = (i, refl)
  answer-Same p (audio_sample none n) r i = (i, refl)
  answer-Same p (audio_sample (some samples) n) r i =
      if-Same r ((r.suppress_audio || r.paused) || n == 0) _ _ (i, refl) (i, refl)
  answer-Same p (submit_frame index generation sync_value) r i = (i, refl)

  pub answer_all-Same :
      (p : Platform K B Au) (cs : List HostCall) (r : Runtime K B Au)
      → IsReady r
      → Same r (answer_all p cs r)
  unfolding answer_all
  answer_all-Same p [] r i = (i, refl)
  answer_all-Same p (c ∷ cs) r i =
      let (i', e) = answer-Same p c r i in
      let (i'', e') = answer_all-Same p cs (answer p c r) i' in (i'', e' ∙ e)
