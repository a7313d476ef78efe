-- ===== src/Runtime/RewindRing.antt =====
-- src/runtime/RewindRing.h: the bounded ring of snapshots. The front is the oldest.
mod Tests
use retro_park.Base.{
  sym, lt→ltb, le→ltb, append-nil, drop-nil, drop-append_le, drop-drop, ℕ, zero, suc, ◌+◌, ◌-◌, ◌≤◌,
  ◌<◌, ◌≡◌, refl, ap, ◌∙◌, List, [], ◌∷◌, ◌++◌, append_assoc, arith, length, drop, length-append,
  length-drop, if◌then◌else◌, ltb,
}
use native.Mathlib.Decide.{dec_lt}

module _ {A : Type 0} where
  -- `while (ring.size() > max) ring.pop_front();`
  drop_oldest : ℕ → List A → List A
  drop_oldest max [] = []
  drop_oldest max (s ∷ ring) =
      let rest = drop_oldest max ring in if ltb max (length (s ∷ ring)) then rest else s ∷ ring

  pub rewind_ring_push : List A → A → ℕ → List A
  unfolding drop_oldest
  rewind_ring_push ring snap max = drop_oldest max (ring ++ snap ∷ [])

  pub push_all : ℕ → List A → List A → List A
  push_all max ring [] = ring
  push_all max ring (s ∷ snaps) = push_all max (rewind_ring_push ring s max) snaps

  drop_oldest-drop :
      (max : ℕ) (ring : List A) → drop_oldest max ring ≡ drop (length ring - max) ring
  unfolding drop_oldest
  drop_oldest-drop max [] = sym (drop-nil (0 - max))
  drop_oldest-drop max (s ∷ ring) = elim (dec_lt max (length (s ∷ ring))) [
    | yes over ↦
        let e : suc (length ring - max) ≡ length (s ∷ ring) - max = omega arith in
        rw (lt→ltb _ _ over) (drop_oldest-drop max ring ∙ ap (λ k. drop k (s ∷ ring)) e)
    | no fits ↦
        let e : 0 ≡ length (s ∷ ring) - max = omega arith in
        rw (le→ltb max (length (s ∷ ring)) (omega arith)) (ap (λ k. drop k (s ∷ ring)) e)
  ]

  push_all-drop :
      (max : ℕ) (ring snaps : List A)
      → length ring ≤ max
      → push_all max ring snaps ≡ drop (length (ring ++ snaps) - max) (ring ++ snaps)
  unfolding push_all rewind_ring_push
  push_all-drop max ring [] h =
      let e : 0 ≡ length ring - max = omega arith in rw (append-nil) (ap (λ k. drop k ring) e)
  push_all-drop max ring (s ∷ snaps) h =
      let all = ring ++ s ∷ snaps in
      let n = length (ring ++ s ∷ []) - max in
      let ring' = drop n (ring ++ s ∷ []) in
      let whole : ring' ++ snaps ≡ drop n all =
        drop-append_le n (ring ++ s ∷ []) snaps (omega arith)
        ∙ ap (λ l. drop n l) (append_assoc ring (s ∷ []) snaps) in
      let many : n + (length (drop n all) - max) ≡ length all - max =
        omega
          (arith, length-drop n all, length-append ring (s ∷ []), length-append ring (s ∷ snaps)) in
      ap (λ r. push_all max r snaps) (drop_oldest-drop max (ring ++ s ∷ []))
      ∙ push_all-drop max ring' snaps (omega (arith, length-drop n (ring ++ s ∷ [])))
      ∙ ap (λ r. drop (length r - max) r) whole
      ∙ drop-drop (length (drop n all) - max) n all
      ∙ ap (λ k. drop k all) many

  -- A ring that starts empty holds, after any pushes, exactly the last `max` snapshots that were
  -- pushed, or all of them if they are fewer, in the order in which they were pushed.
  pub push_all-recent :
      (max : ℕ) (snaps : List A) → push_all max [] snaps ≡ drop (length snaps - max) snaps
  push_all-recent max snaps = push_all-drop max [] snaps (omega arith)

  -- A ring with room for two keeps the last two snapshots, whatever was in it.
  pub rewind_ring_push-two :
      (max : ℕ) (ring : List A) (a b : A)
      → 2 ≤ max
      → (older : List A) × (rewind_ring_push (rewind_ring_push ring a max) b max
          ≡ (older ++ a ∷ []) ++ b ∷ [])
  unfolding rewind_ring_push
  rewind_ring_push-two max ring a b room =
      let n = length (ring ++ a ∷ []) - max in
      let first : drop_oldest max (ring ++ a ∷ []) ≡ drop n ring ++ a ∷ [] =
        drop_oldest-drop max (ring ++ a ∷ [])
        ∙ sym (drop-append_le n ring (a ∷ []) (omega (arith, length-append ring (a ∷ [])))) in
      let kept = drop n ring ++ a ∷ [] in
      let m = length (kept ++ b ∷ []) - max in
      let second : drop_oldest max (kept ++ b ∷ []) ≡ drop m kept ++ b ∷ [] =
        drop_oldest-drop max (kept ++ b ∷ [])
        ∙ sym (drop-append_le m kept (b ∷ []) (omega (arith, length-append kept (b ∷ [])))) in
      let inner : drop m kept ≡ drop m (drop n ring) ++ a ∷ [] = sym (
        drop-append_le m (drop n ring) (a ∷ [])
          (omega (arith, length-append kept (b ∷ []), length-append (drop n ring) (a ∷ [])))) in
      (
        drop m (drop n ring),
        ap (λ l. drop_oldest max (l ++ b ∷ [])) first ∙ second ∙ ap (λ l. l ++ b ∷ []) inner,
      )
