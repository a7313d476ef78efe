-- ===== src/Runtime/Frame/Rewinds.antt =====
-- The rewind ring of src/runtime/Runtime.cpp with a driven core that can be saved: two frames, and a
-- step back.
use retro_park.Base.{
  ◌≡◌, refl, sym, ap, subst, ◌∙◌, ℕ, ◌≤◌, Bool, true, false, not, ◌&&◌, none, some, List, [], ◌∷◌,
  ◌++◌, ◌==◌, if◌then◌else◌, arith, ==_iff,
}
use retro_park.Abi.{RpResult, is_ok, InputState}
use retro_park.Loader.CoreLoader.{CoreAbi, value, ◌>>=◌, unserialize}
use retro_park.Loader.CoreLoader.Yields.{Yields, yields, Yields-bind, if-Yields, option-Yields}
use retro_park.Runtime.State.{Runtime, Platform, AvInfo, SurfaceSet, on_loader}
use retro_park.Runtime.RewindRing.{rewind_ring_push, rewind_ring_push-two}
use retro_park.Runtime.Boot.{is_presenting}
use retro_park.Runtime.Host.Beyond.{history}
use retro_park.Runtime.Frame.{unsnoc, is_driven, capture, advance, rewind}
use retro_park.Runtime.Frame.Plays.{
  Saved, IsWhole, Plays, size-Plays, serialize-Plays, unserialize-Plays,
}
use retro_park.Runtime.Frame.Driving.{step, run_core-Plays}

unsnoc-append : (ring : List (List ℕ)) (s : List ℕ) → unsnoc (ring ++ s ∷ []) ≡ some (ring, s)
unfolding unsnoc
unsnoc-append [] s = refl
unsnoc-append (x ∷ ring) s = rw (unsnoc-append ring s) refl

module _ {K B Au : Type 0} (p : Platform K B Au) (abi : CoreAbi K SurfaceSet AvInfo) (c : Saved abi)
    (whole : IsWhole abi c) where
  -- A forward frame with the ring in use
  capture-pushes :
      {z : Bool} (k : K) (v w : InputState) (ring : List (List ℕ)) (max : ℕ) (r : Runtime K B Au)
      → Plays abi z k v w r
      → history r ≡ (ring, true, false, max)
      → Yields
          (λ r'.
            Plays abi z k v w r'
            × (history r' ≡ (rewind_ring_push ring (c.image k) max, true, false, max)))
          (capture r)
  unfolding capture
  capture-pushes {z = z} k v w ring max r h was =
      if-Yields r.rewind_replay
        (λ t. let no : r.rewind_replay ≡ false = ap (λ x. x.2) was in cc (t, no))
        (λ t.
          if-Yields (not r.rewind_enabled)
            (λ t'. let on : not r.rewind_enabled ≡ false = ap (λ x. not x.1) was in cc (t', on))
            (λ t'. Yields-bind (size-Plays abi c k v w r h) (λ (size, r1) (sized, h1, same1).
              if-Yields (size == 0)
                (λ t''. absurd (omega (arith, c.size_pos, (==_iff size 0).0 t'', sized)))
                (λ t''.
                  Yields-bind (serialize-Plays abi c k v w size r1 h1 sized)
                    (λ ((res, snap), r2) (e, h2, same2).
                      let good : res ≡ RpResult.ok = ap (λ x. x.0) e in
                      let image : snap ≡ c.image k = ap (λ x. x.1) e in
                      let now : history r2 ≡ (ring, true, false, max) = same2 ∙ same1 ∙ was in
                      let r3 = record r2 {
                        rewind_ring = rewind_ring_push r2.rewind_ring snap r2.rewind_max;
                      } in
                      subst
                        (λ x.
                          Yields
                            (λ r'.
                              Plays abi z k v w r'
                              × (history r'
                                  ≡ (rewind_ring_push ring (c.image k) max, true, false, max)))
                            (value (if is_ok x then r3 else r2)))
                        (sym good)
                        (yields _ (
                          h2,
                          ap (λ x. (rewind_ring_push x.0 snap x.3, x.1, x.2, x.3)) now
                              ∙ ap (λ s. (rewind_ring_push ring s max, true, false, max)) image,
                        )))))))

  advance-pushes :
      {z : Bool} (emit_audio : Bool) (k : K) (v w : InputState) (ring : List (List ℕ)) (max : ℕ)
      (r : Runtime K B Au)
      → Plays abi z k v w r
      → history r ≡ (ring, true, false, max)
      → Yields
          (λ (x, r').
            (x ≡ RpResult.ok)
            × Plays abi z (step p abi c k v w) v w r'
            × (history r' ≡ (rewind_ring_push ring (c.image k) max, true, false, max)))
          (advance p emit_audio r)
  unfolding advance
  advance-pushes emit_audio k v w ring max r (b, e) was =
      option-Yields r.backend
        (λ missing. let gone : some b ≡ none = sym (ap (λ s. s.backend) e) ∙ missing in cc gone)
        (λ b' there.
          if-Yields (not (is_driven r))
            (λ t.
              let plays : is_driven r ≡ true =
                ap (λ s. s.core_loaded && not (is_presenting s.core_type)) e in
              cc (t, plays))
            (λ t.
              if-Yields (r.requires_content && not r.content_loaded)
                (λ t'.
                  let ready : (r.requires_content && not r.content_loaded) ≡ false =
                    ap (λ s. s.waits) e in
                  cc (t', ready))
                (λ t'. Yields-bind (capture-pushes k v w ring max r (b, e) was) (λ r1 (h1, now1).
                  Yields-bind (run_core-Plays p abi c k v w _ h1)
                    (λ (res, r2) (good, h2, same2). yields _ (good, h2, same2 ∙ now1))))))

  -- A step back onto a snapshot of the core as it was in `k`
  rewind-Plays :
      {z : Bool} (k k2 : K) (v w : InputState) (older : List (List ℕ)) (newest : List ℕ)
      (r : Runtime K B Au)
      → Plays abi z k2 v w r
      → r.rewind_enabled ≡ true
      → r.rewind_ring ≡ (older ++ c.image k ∷ []) ++ newest ∷ []
      → Yields
          (λ (x, r'). (x ≡ RpResult.ok) × Plays abi z k v w r' × (r'.rewind_replay ≡ true))
          (rewind r)
  unfolding rewind
  rewind-Plays {z = z} k k2 v w older newest r h on holds =
      let popped : unsnoc r.rewind_ring ≡ some (older ++ c.image k ∷ [], newest) =
        ap unsnoc holds ∙ unsnoc-append (older ++ c.image k ∷ []) newest in
      if-Yields (not r.rewind_enabled) (λ t. cc (ap not on, t))
        (λ t.
          option-Yields (unsnoc r.rewind_ring) (λ t'. cc (t', popped))
            (λ (rest, last) e.
              let same : rest ≡ older ++ c.image k ∷ [] =
                ap (λ o. elim o [ none ↦ [] | some x ↦ x.0 ]) (sym e ∙ popped) in
              let back : unsnoc rest ≡ some (older, c.image k) =
                ap unsnoc same ∙ unsnoc-append older (c.image k) in
              option-Yields (unsnoc rest) (λ t'. cc (t', back))
                (λ (oldest, snap) e'.
                  let image : snap ≡ c.image k =
                    ap (λ o. elim o [ none ↦ [] | some x ↦ x.1 ]) (sym e' ∙ back) in
                  Yields-bind
                    (subst
                      (λ bytes.
                        Yields (λ (y, r'). (y ≡ RpResult.ok) × Plays abi z k v w r')
                          (on_loader (unserialize bytes) (record r { rewind_ring = rest })))
                      (sym image)
                      (unserialize-Plays abi c whole k2 k v w (record r { rewind_ring = rest }) h))
                    (λ (res, r1) (good, h1). yields _ (good, h1, refl)))))

  -- With the ring in use and room for two snapshots, two frames and a step back leave the core as it was
  -- before the first of the two, whatever frames went before. The next frame does not capture. A saved
  -- state brings the core back whole.
  pub rewind_undoes :
      {z : Bool} (k : K) (v w : InputState) (ring : List (List ℕ)) (max : ℕ) (r : Runtime K B Au)
      → Plays abi z k v w r
      → history r ≡ (ring, true, false, max)
      → 2 ≤ max
      → Yields
          (λ (x, r'). (x ≡ RpResult.ok) × Plays abi z k v w r' × (r'.rewind_replay ≡ true))
          (advance p true r >>= λ (x, r1). advance p true r1 >>= λ (x', r2). rewind r2)
  rewind_undoes k v w ring max r h was room =
      Yields-bind (advance-pushes true k v w ring max r h was) (λ (x, r1) (good, h1, now1).
        let k1 = step p abi c k v w in
        let ring1 = rewind_ring_push ring (c.image k) max in
        Yields-bind (advance-pushes true k1 v w ring1 max r1 h1 now1) (λ (x', r2) (good', h2, now2).
          let (older, two) = rewind_ring_push-two max ring (c.image k) (c.image k1) room in
          rewind-Plays k (step p abi c k1 v w) v w older (c.image k1) r2 h2 (ap (λ s. s.1) now2)
            (ap (λ s. s.0) now2 ∙ two)))
