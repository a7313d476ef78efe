-- ===== src/Runtime/Frame/Driving.antt =====
-- The functions of src/runtime/Runtime.cpp on a driven core that can be saved: a frame, what is shown of it
-- and saved states.
use retro_park.Base.{
  ◌≡◌, refl, sym, ap, ◌∙◌, ℕ, ◌+◌, ◌-◌, ◌%◌, ◌^◌, leb, ltb, Bool, true, false, not, ◌&&◌, Option,
  none, some, List, length, ◌==◌, if◌then◌else◌, arith, Option-cases, Bool-cases, inl, inr, ◌*◌,
  ==_iff, ltb→lt,
}
use retro_park.Abi.{RpResult, is_ok, InputState}
use retro_park.Loader.CoreLoader
use retro_park.Loader.CoreLoader.{CoreAbi, Loader, Access, value, ◌>>=◌, serialize, unserialize}
use retro_park.Loader.CoreLoader.Passes.{run_frame-live, unserialize-live}
use retro_park.Loader.CoreLoader.Yields.{
  Yields, yields, Yields-bind, Yields-mono, if-Yields, option-Yields,
}
use retro_park.Render.SurfaceRing.{latest_ready}
use retro_park.Runtime.State.{Runtime, Platform, AvInfo, SurfaceSet}
use retro_park.Runtime.Boot.{is_presenting}
use retro_park.Runtime.Host.{set_input, answer_all}
use retro_park.Runtime.Host.Beyond.{
  Beyond, beyond-answer_all, history, history-if, history-answer_all,
}
use retro_park.Runtime.Frame.{
  is_driven, tick_fps, serialize_size, save_state, load_state, answered, run_core, advance,
  composite_driven, acquire, composite_presenting, render_on, render,
}
use retro_park.Runtime.Frame.Plays.{
  Saved, Plays, Plays-beyond, if-Plays, on_loader-Plays, size-Plays, serialize-Plays, capture-Plays,
}

module _ {K B Au : Type 0} (p : Platform K B Au) (abi : CoreAbi K SurfaceSet AvInfo)
    (c : Saved abi) where
  answered-Plays :
      {z : Bool} (o : Option K) (k : K) (v w : InputState) (r : Runtime K B Au)
      → Plays abi z k v w r
      → Plays abi z k v w (answered p o r)
  unfolding answered
  answered-Plays none k v w r h = h
  answered-Plays (some k') k v w r h =
      Plays-beyond abi k v w r (answer_all p (p.calls k') r) h (beyond-answer_all p (p.calls k') r)

  answered-history : (o : Option K) (r : Runtime K B Au) → history (answered p o r) ≡ history r
  unfolding answered
  answered-history none r = refl
  answered-history (some k') r = history-answer_all p (p.calls k') r

  -- The state of the core after a frame on the two inputs
  abbrev pub step : K → InputState → InputState → K
  step k v w = c.run (p.plug v w k)

  pub run_core-Plays :
      {z : Bool} (k : K) (v w : InputState) (r : Runtime K B Au)
      → Plays abi z k v w r
      → Yields
          (λ (x, r').
            (x ≡ RpResult.ok) × Plays abi z (step k v w) v w r' × (history r' ≡ history r))
          (run_core p r)
  unfolding run_core
  run_core-Plays k v w r (b, e) =
      Yields-bind
        (on_loader-Plays abi CoreLoader.run_frame RpResult.ok (p.plug v w k) (step k v w) v w _
          (
            b,
            ap
                (λ (s : Beyond K B). record s {
                  loader = record s.loader {
                    core = elim s.loader.core [
                      | none ↦ none
                      | some k' ↦ some (p.plug s.input_0 s.input_1 k')
                    ];
                  };
                })
                e,
          )
          (run_frame-live abi c.run (p.plug v w k) c.runs))
        (λ (res, r1) (good, h1, whole). yields _ (
          good,
          if-Plays abi (is_ok res) (step k v w) v w _ _
              (answered-Plays r1.loader.core (step k v w) v w r1 h1) h1,
          history-if r1 (is_ok res) _ _ (answered-history r1.loader.core r1) refl ∙ whole,
        ))

  pub advance-Plays :
      {z : Bool} (emit_audio : Bool) (k : K) (v w : InputState) (r : Runtime K B Au)
      → Plays abi z k v w r
      → Yields
          (λ (x, r'). (x ≡ RpResult.ok) × Plays abi z (step k v w) v w r')
          (advance p emit_audio r)
  unfolding advance
  advance-Plays emit_audio k v w r (b, e) =
      option-Yields r.backend
        (λ missing. let gone : some b ≡ none = sym (ap (λ s. s.backend) e) ∙ missing in cc gone)
        (λ b' there.
          if-Yields (not (is_driven r))
            (λ t.
              let plays : is_driven r ≡ true =
                ap (λ s. s.core_loaded && not (is_presenting s.core_type)) e in
              cc (t, plays))
            (λ t.
              if-Yields (r.requires_content && not r.content_loaded)
                (λ t'.
                  let ready : (r.requires_content && not r.content_loaded) ≡ false =
                    ap (λ s. s.waits) e in
                  cc (t', ready))
                (λ t'. Yields-bind (capture-Plays abi c k v w r (b, e)) (λ r1 h1.
                  Yields-bind (run_core-Plays k v w _ h1)
                    (λ (res, r2) (good, h2, t2). yields _ (good, h2))))))

  acquire-Plays :
      {z : Bool} (k : K) (v w : InputState) (r : Runtime K B Au)
      → Plays abi z k v w r
      → Plays abi z k v w (acquire p r)
  unfolding acquire
  acquire-Plays k v w r h =
      if-Plays abi r.paused k v w r _ h (elim (Option-cases (latest_ready r.ring)) [
        | inl nothing ↦ rw nothing h
        | inr (frame, e) ↦ rw e h
      ])

  render_on-Plays :
      {z : Bool} (o : Option B) (k : K) (v w : InputState) (r : Runtime K B Au)
      → Plays abi z k v w r
      → Plays abi z k v w (render_on p o r).1
  unfolding render_on
  render_on-Plays none k v w r h = h
  render_on-Plays (some b) k v w r h =
      let shown = if is_driven r then composite_driven p r b else composite_presenting p r b in
      let (b', e) = if-Plays abi (is_driven r) k v w r (acquire p r) h (acquire-Plays k v w r h) in
      (shown.1, ap (λ (s : Beyond K B). record s { backend = some shown.1 }) e)

  tick_fps-Plays :
      {z : Bool} (now : ℕ) (k : K) (v w : InputState) (r : Runtime K B Au)
      → Plays abi z k v w r
      → Plays abi z k v w (tick_fps now r)
  unfolding tick_fps
  tick_fps-Plays now k v w r h =
      let dt = (now + 2 ^ 64 - r.fps_t0_ns) % 2 ^ 64 in
      let count = (r.fps_count + 1) % 2 ^ 64 in
      let late = record r { fps = (count * 1000000000, dt); fps_t0_ns = now; fps_count = 0 } in
      let early = record r { fps_count = count } in
      if-Plays abi (r.fps_t0_ns == 0) k v w (record r { fps_t0_ns = now; fps_count = 0 })
        (if leb 500000000 dt then late else early) h
        (if-Plays abi (leb 500000000 dt) k v w late early h h)

  pub render-Plays :
      {z : Bool} (now : ℕ) (k : K) (v w : InputState) (r : Runtime K B Au)
      → Plays abi z k v w r
      → Plays abi z k v w (render p now r).1
  unfolding render
  render-Plays now k v w r h =
      render_on-Plays (tick_fps now r).backend k v w (tick_fps now r) (tick_fps-Plays now k v w r h)

  pub serialize_size-Plays :
      {z : Bool} (k : K) (v w : InputState) (r : Runtime K B Au)
      → Plays abi z k v w r
      → Yields (λ (y, r'). (y ≡ c.size) × Plays abi z k v w r') (serialize_size r)
  unfolding serialize_size
  serialize_size-Plays k v w r h =
      Yields-mono (size-Plays abi c k v w r h) (λ (y, r') (e, h', t). (e, h'))

  pub save_state-Plays :
      {z : Bool} (n : ℕ) (k : K) (v w : InputState) (r : Runtime K B Au)
      → Plays abi z k v w r
      → Yields
          (λ (y, r'). (n ≡ c.size → y ≡ (RpResult.ok, c.image k)) × Plays abi z k v w r')
          (save_state true n r)
  unfolding save_state
  save_state-Plays n k v w r h =
      Yields-bind (size-Plays abi c k v w r h) (λ (needs, r1) (sized, h1, t1).
        if-Yields (needs == 0)
          (λ t. absurd (omega (arith, c.size_pos, (==_iff needs 0).0 t, sized)))
          (λ t.
            if-Yields (ltb n needs)
              (λ t'.
                yields _ ((λ fits. absurd (omega (arith, ltb→lt n needs t', sized, fits))), h1))
              (λ t'.
                Yields-mono (serialize-Plays abi c k v w needs r1 h1 sized)
                  (λ (y, r') (e, h', t2). ((λ fits. e), h')))))

  -- The state of the core after `load_state`, whatever the bytes are
  abbrev pub loaded : K → List ℕ → RpResult × K
  loaded k bytes = if length bytes == 0 then (RpResult.bad_arg, k) else c.restore k bytes

  pub load_state-Plays :
      {z : Bool} (bytes : List ℕ) (k : K) (v w : InputState) (r : Runtime K B Au)
      → Plays abi z k v w r
      → Yields
          (λ (x, r'). (x ≡ (loaded k bytes).0) × Plays abi z (loaded k bytes).1 v w r')
          (load_state (some bytes) r)
  unfolding load_state
  load_state-Plays bytes k v w r h = elim (Bool-cases (length bytes == 0)) [
    | inl empty ↦ rw empty (yields _ (refl, h))
    | inr full ↦ rw full (
        Yields-mono
          (on_loader-Plays abi (unserialize bytes) (c.restore k bytes).0 k (c.restore k bytes).1 v w
            r h (unserialize-live abi c.restore k bytes c.has_restore))
          (λ (y, r') (e, h', whole). (e, h')))
  ]

  pub set_input-Plays :
      {z : Bool} (port : ℕ) (x : InputState) (k : K) (v w : InputState) (r : Runtime K B Au)
      → Plays abi z k v w r
      → Plays abi z k
          (if port % 2 == 0 then x else v)
          (if port % 2 == 0 then w else x)
          (set_input port x r)
  unfolding set_input
  set_input-Plays port x k v w r (b, e) = (
    b,
    ap
        (λ (s : Beyond K B). record s {
          input_0 = if port % 2 == 0 then x else s.input_0;
          input_1 = if port % 2 == 0 then s.input_1 else x;
        })
        e,
  )
