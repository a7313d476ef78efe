-- ===== src/Runtime/Frame/Safe.antt =====
-- What a frame, a saved state or a step back in src/runtime/Runtime.cpp leaves of the runtime: it is
-- sound, and the core stays loaded.
use retro_park.Base.{
  refl, ◌∙◌, ℕ, Bool, true, not, ◌&&◌, ltb, leb, ◌+◌, ◌-◌, ◌%◌, ◌^◌, Option, none, some, List,
  length, ◌==◌, Option-cases, Bool-cases, inl, inr,
}
use retro_park.Abi.{is_ok}
use retro_park.Loader.CoreLoader
use retro_park.Loader.CoreLoader.{Loader, Access, serialize, unserialize}
use retro_park.Loader.CoreLoader.Safe.{IsSound, has_nothing, has_abi, has_core}
use retro_park.Loader.CoreLoader.Yields.{
  Yields, yields, Yields-bind, Yields-mono, if-Yields, option-Yields, run_frame-Yields,
  serialize_size-Yields, serialize-Yields, unserialize-Yields,
}
use retro_park.Render.SurfaceRing.{latest_ready}
use retro_park.Runtime.State.{Runtime, Platform, AvInfo, SurfaceSet}
use retro_park.Runtime.Ready.{IsReady, Stays, Passed-IsReady}
use retro_park.Runtime.Host.Safe.{Same, if-Same, answer_all-Same}
use retro_park.Runtime.Frame.{
  unsnoc, is_driven, capture, tick_fps, serialize_size, save_state, load_state, set_rewind, rewind,
  pause, resume, answered, run_core, advance, acquire, render_on, render, present,
}

module _ {K B Au : Type 0} where
  capture-IsReady : (r : Runtime K B Au) → IsReady r → Yields (λ r'. Same r r') (capture r)
  unfolding capture
  capture-IsReady r i =
      if-Yields r.rewind_replay (λ h. yields _ (i, refl))
        (λ h.
          if-Yields (not r.rewind_enabled) (λ h'. yields _ (i, refl))
            (λ h'.
              Yields-bind
                (Passed-IsReady CoreLoader.serialize_size r i
                  (serialize_size-Yields r.loader i.sound))
                (λ (size, r1) (i1, same).
                  if-Yields (size == 0) (λ h''. yields _ (i1, same))
                    (λ h''.
                      Yields-bind
                        (Passed-IsReady (serialize size) r1 i1
                          (serialize-Yields size r1.loader i1.sound))
                        (λ ((res, snap), r2) (i2, same2). elim (Bool-cases (is_ok res)) [
                          | inl good ↦ rw good (yields _ (i2, same2 ∙ same))
                          | inr bad ↦ rw bad (yields _ (i2, same2 ∙ same))
                        ])))))

  pub serialize_size-IsReady :
      (r : Runtime K B Au) → IsReady r → Yields (Stays r.core_loaded) (serialize_size r)
  unfolding serialize_size
  serialize_size-IsReady r i =
      Passed-IsReady CoreLoader.serialize_size r i (serialize_size-Yields r.loader i.sound)

  pub save_state-IsReady :
      (buf : Bool) (size : ℕ) (r : Runtime K B Au)
      → IsReady r
      → Yields (Stays r.core_loaded) (save_state buf size r)
  unfolding save_state serialize_size
  save_state-IsReady buf size r i =
      if-Yields (not buf) (λ h. yields _ (i, refl))
        (λ h. Yields-bind (serialize_size-IsReady r i) (λ (needs, r1) (i1, same).
          if-Yields (needs == 0) (λ h'. yields _ (i1, same))
            (λ h'.
              if-Yields (ltb size needs) (λ h''. yields _ (i1, same))
                (λ h''.
                  Yields-mono
                    (Passed-IsReady (serialize needs) r1 i1
                      (serialize-Yields needs r1.loader i1.sound))
                    (λ (x, r2) (i2, same2). (i2, same2 ∙ same))))))

  pub load_state-IsReady :
      (buf : Option (List ℕ)) (r : Runtime K B Au)
      → IsReady r
      → Yields (Stays r.core_loaded) (load_state buf r)
  unfolding load_state
  load_state-IsReady none r i = yields _ (i, refl)
  load_state-IsReady (some bytes) r i =
      if-Yields (length bytes == 0) (λ h. yields _ (i, refl))
        (λ h. Passed-IsReady (unserialize bytes) r i (unserialize-Yields bytes r.loader i.sound))

  pub set_rewind-IsReady :
      (enabled : Bool) (max_snapshots : ℕ) (r : Runtime K B Au)
      → IsReady r
      → Yields (Stays r.core_loaded) (set_rewind enabled max_snapshots r)
  unfolding set_rewind
  set_rewind-IsReady enabled max_snapshots r i =
      Yields-bind
        (Passed-IsReady CoreLoader.serialize_size r i (serialize_size-Yields r.loader i.sound))
        (λ (size, r1) (i1, same).
          if-Yields (size == 0) (λ h. yields _ (i1, same)) (λ h. yields _ (i1, same)))

  pub rewind-IsReady : (r : Runtime K B Au) → IsReady r → Yields (Stays r.core_loaded) (rewind r)
  unfolding rewind
  rewind-IsReady r i =
      if-Yields (not r.rewind_enabled) (λ h. yields _ (i, refl))
        (λ h.
          option-Yields (unsnoc r.rewind_ring) (λ empty. yields _ (i, refl))
            (λ (older, newest) e.
              option-Yields (unsnoc older) (λ single. yields _ (i, refl))
                (λ (oldest, snap) e'.
                  Yields-bind
                    (Passed-IsReady (unserialize snap) _ i
                      (unserialize-Yields snap r.loader i.sound))
                    (λ (x, r1) (i1, same). yields _ (i1, same)))))

  pub pause-Same : (r : Runtime K B Au) → IsReady r → Same r (pause r).1
  unfolding pause
  pause-Same r i = if-Same r r.core_loaded _ _ (i, refl) (i, refl)

  pub resume-Same : (r : Runtime K B Au) → IsReady r → Same r (resume r).1
  unfolding resume
  resume-Same r i = (i, refl)

plugged-IsSound :
    {K : Type 0} (f : K → K) (l : Loader K SurfaceSet AvInfo)
    → IsSound l
    → IsSound (record l { core = elim l.core [ none ↦ none | some k ↦ some (f k) ] })
plugged-IsSound f l has_nothing = has_nothing
plugged-IsSound f l (has_abi abi v) = has_abi abi v
plugged-IsSound f l (has_core s abi k c v) = has_core s abi (f k) c v

module _ {K B Au : Type 0} (p : Platform K B Au) where
  answered-Same : (o : Option K) (r : Runtime K B Au) → IsReady r → Same r (answered p o r)
  unfolding answered
  answered-Same none r i = (i, refl)
  answered-Same (some k) r i = answer_all-Same p (p.calls k) r i

  run_core-IsReady : (r : Runtime K B Au) → IsReady r → Yields (Stays r.core_loaded) (run_core p r)
  unfolding run_core
  run_core-IsReady r i =
      let told : Loader K SurfaceSet AvInfo = record r.loader {
        core = elim r.loader.core [ none ↦ none | some k ↦ some (p.plug r.input_0 r.input_1 k) ];
      } in
      let sound : IsSound told = plugged-IsSound (p.plug r.input_0 r.input_1) r.loader i.sound in
      Yields-bind
        (Passed-IsReady CoreLoader.run_frame (record r { loader = told })
          (record {
            sound = sound;
            in_step = i.in_step;
            started = i.started;
            backed = i.backed;
            kept = i.kept;
          })
          (run_frame-Yields told sound))
        (λ (res, r1) (i1, same).
          let (i2, same2) =
            if-Same r1 (is_ok res) _ _ (answered-Same r1.loader.core r1 i1) (i1, refl) in
          yields _ (i2, same2 ∙ same))

  pub advance-IsReady :
      (emit_audio : Bool) (r : Runtime K B Au)
      → IsReady r
      → Yields (Stays r.core_loaded) (advance p emit_audio r)
  unfolding advance
  advance-IsReady emit_audio r i =
      option-Yields r.backend (λ missing. yields _ (i, refl))
        (λ b there.
          if-Yields (not (is_driven r)) (λ h. yields _ (i, refl))
            (λ h.
              if-Yields (r.requires_content && not r.content_loaded) (λ h'. yields _ (i, refl))
                (λ h'. Yields-bind (capture-IsReady r i) (λ r1 (i1, same).
                  Yields-bind (run_core-IsReady _ i1)
                    (λ (res, r2) (i2, same2). yields _ (i2, same2 ∙ same))))))

  acquire-Same : (r : Runtime K B Au) → IsReady r → Same r (acquire p r)
  unfolding acquire
  acquire-Same r i =
      if-Same r r.paused _ _ (i, refl)
        (elim (Option-cases (latest_ready r.ring)) [
          | inl nothing ↦ rw nothing (i, refl)
          | inr (frame, e) ↦ rw e (i, refl)
        ])

  render_on-Same : (o : Option B) (r : Runtime K B Au) → IsReady r → Same r (render_on p o r).1
  unfolding render_on
  render_on-Same none r i = (i, refl)
  render_on-Same (some b) r i =
      let (i', same) = if-Same r (is_driven r) _ _ (i, refl) (acquire-Same r i) in
      (
        record {
          sound = i'.sound;
          in_step = i'.in_step;
          started = λ h. refl;
          backed = λ h. refl;
          kept = i'.kept;
        },
        same,
      )

  tick_fps-Same : (now : ℕ) (r : Runtime K B Au) → IsReady r → Same r (tick_fps now r)
  unfolding tick_fps
  tick_fps-Same now r i =
      let dt = (now + 2 ^ 64 - r.fps_t0_ns) % 2 ^ 64 in
      if-Same r (r.fps_t0_ns == 0) _ _ (i, refl)
        (if-Same r (leb 500000000 dt) _ _ (i, refl) (i, refl))

  pub render-Same : (now : ℕ) (r : Runtime K B Au) → IsReady r → Same r (render p now r).1
  unfolding render
  render-Same now r i =
      let (i', same) = tick_fps-Same now r i in
      let (i'', same') = render_on-Same (tick_fps now r).backend (tick_fps now r) i' in
      (i'', same' ∙ same)

  pub present-IsReady :
      (now : ℕ) (r : Runtime K B Au) → IsReady r → Yields (Stays r.core_loaded) (present p now r)
  unfolding present
  present-IsReady now r i =
      if-Yields (is_driven r && not r.paused)
        (λ h. Yields-bind (advance-IsReady true r i) (λ (res, r1) (i1, same).
          if-Yields (is_ok res)
            (λ good. let (i2, same2) = render-Same now r1 i1 in yields _ (i2, same2 ∙ same))
            (λ bad. yields _ (i1, same))))
        (λ h. yields _ (render-Same now r i))
