-- ===== src/Render/SurfaceRing/Latest.antt =====
-- What `SurfaceRing::latest_ready` of src/render/SurfaceRing.cpp shows after any calls.
use retro_park.Base.{
  ℕ, ◌+◌, ◌%◌, ◌^◌, ◌<◌, ◌≡◌, refl, ap, ◌∙◌, ◌==◌, ◌&&◌, Option, none, some, List, [], ◌∷◌, ltb,
  if◌then◌else◌, arith, length,
}
use retro_park.Render.SurfaceRing.{
  SurfaceRing, reallocate, next_producer_slot, accept_submit, latest_ready, Call, reallocates,
  takes_slot, submits, call, calls,
}

-- The frame to show after the calls, for a ring of `n` slots in generation `g` that shows `shown`:
-- what was last handed over under the newest generation, and nothing right after a reallocation
abbrev pub shown_after : ℕ → ℕ → Option (ℕ × ℕ) → List Call → Option (ℕ × ℕ)
shown_after n g shown [] = shown
shown_after n g shown (reallocates w h ∷ cs) = shown_after n (g + 1) none cs
shown_after n g shown (takes_slot ∷ cs) = shown_after n g shown cs
shown_after n g shown (submits i g' s ∷ cs) =
    shown_after n g (if (g' == g) && ltb i n then some (i, s) else shown) cs

-- A submission is accepted under the current generation and in range, and shown then.
accept_submit_lem :
    (i g s : ℕ) (r : SurfaceRing)
    → ((accept_submit i g s r).1.slot_count ≡ r.slot_count)
      × ((accept_submit i g s r).1.generation ≡ r.generation)
      × (latest_ready (accept_submit i g s r).1
          ≡ (if (g == r.generation) && ltb i r.slot_count then some (i, s) else latest_ready r))
unfolding accept_submit latest_ready
accept_submit_lem i g s r = ground arith

submits-shown_after :
    (i g s : ℕ) (r : SurfaceRing) (cs : List Call)
    → shown_after
        (accept_submit i g s r).1.slot_count
        (accept_submit i g s r).1.generation
        (latest_ready (accept_submit i g s r).1)
        cs
      ≡ shown_after r.slot_count r.generation (latest_ready r) (submits i g s ∷ cs)
submits-shown_after i g s r cs =
    let (n, same, shown) = accept_submit_lem i g s r in
    ap
      (λ m.
        shown_after m (accept_submit i g s r).1.generation (latest_ready (accept_submit i g s r).1)
          cs)
      n
    ∙ ap (λ k. shown_after r.slot_count k (latest_ready (accept_submit i g s r).1) cs) same
    ∙ ap (λ o. shown_after r.slot_count r.generation o cs) shown

-- After any calls `latest_ready` returns the last frame that was handed over under the current
-- generation and in a slot of the ring, and nothing if there was none since the last reallocation:
-- a frame of an older generation is never shown. The generation does not wrap around.
pub latest_ready-shown_after :
    (cs : List Call) (r : SurfaceRing)
    → r.generation + length cs < 2 ^ 64
    → latest_ready (calls cs r) ≡ shown_after r.slot_count r.generation (latest_ready r) cs
unfolding calls call reallocate next_producer_slot latest_ready
latest_ready-shown_after [] r h = refl
latest_ready-shown_after (reallocates w k ∷ cs) r h =
    let e : (r.generation + 1) % 2 ^ 64 ≡ r.generation + 1 = omega arith in
    latest_ready-shown_after cs (reallocate w k r).1 (omega arith)
    ∙ ap (λ g. shown_after r.slot_count g none cs) e
latest_ready-shown_after (takes_slot ∷ cs) r h =
    latest_ready-shown_after cs (next_producer_slot r).1 (omega arith)
latest_ready-shown_after (submits i g s ∷ cs) r h =
    latest_ready-shown_after cs (accept_submit i g s r).1
      (omega (arith, (accept_submit_lem i g s r).1))
    ∙ submits-shown_after i g s r cs
