-- ===== src/Render/SurfaceRing/Slots.antt =====
-- The slots that src/render/SurfaceRing.cpp deals out and takes back.
use retro_park.Base.{
  ℕ, zero, suc, ◌+◌, ◌%◌, ◌^◌, ◌<◌, ◌≡◌, refl, ap, ◌∙◌, subst, ◌==◌, true, some, List, [], ◌∷◌,
  if◌then◌else◌, arith,
}
use native.Mathlib.Nat.{mod-lt, mod-eq_of_lt, mod_self}
use native.Mathlib.Decide.{ℕ_discrete}
use retro_park.Render.SurfaceRing.{
  SurfaceRing, surface_ring, reallocate, next_producer_slot, accept_submit, latest_ready, Call,
  reallocates, takes_slot, submits, call, calls,
}

-- The ring has slots, the cursor is on one of them, and so is the frame that is shown.
pub record IsInRange (r : SurfaceRing) : Type 0 where
  pub slots : 0 < r.slot_count
  pub slots_u32 : r.slot_count < 2 ^ 32
  pub cursor : r.producer_cursor < r.slot_count
  pub ready : r.has_ready ≡ true → r.ready_index < r.slot_count

surface_ring-IsInRange : (n : ℕ) → n < 2 ^ 32 → IsInRange (surface_ring n)
unfolding surface_ring
surface_ring-IsInRange n h = ground arith

call-IsInRange : (c : Call) (r : SurfaceRing) → IsInRange r → IsInRange (call c r)
unfolding call reallocate next_producer_slot accept_submit
call-IsInRange (reallocates w h) r i = record {
  slots = i.slots;
  slots_u32 = i.slots_u32;
  cursor = i.slots;
  ready = λ e. cc;
}
call-IsInRange takes_slot r i = record {
  slots = i.slots;
  slots_u32 = i.slots_u32;
  cursor = mod-lt _ i.slots;
  ready = i.ready;
}
call-IsInRange (submits k g s) r i = record {
  slots = ground (arith, i.slots);
  slots_u32 = ground (arith, i.slots_u32);
  cursor = ground (arith, i.cursor);
  ready = λ e. ground (arith, i.ready);
}

calls-IsInRange : (cs : List Call) (r : SurfaceRing) → IsInRange r → IsInRange (calls cs r)
unfolding calls
calls-IsInRange [] r i = i
calls-IsInRange (c ∷ cs) r i = calls-IsInRange cs (call c r) (call-IsInRange c r i)

-- In a ring that was made for any number of slots, after any calls, the slot dealt out next is one of
-- the ring, and so is the slot that is shown, if one is.
slots-in_range :
    (n : ℕ) (cs : List Call)
    → n < 2 ^ 32
    → ((next_producer_slot (calls cs (surface_ring n))).0 < (calls cs (surface_ring n)).slot_count)
      × ((i s : ℕ)
          → latest_ready (calls cs (surface_ring n)) ≡ some (i, s)
          → i < (calls cs (surface_ring n)).slot_count)
unfolding next_producer_slot latest_ready
slots-in_range n cs h =
    let i = calls-IsInRange cs (surface_ring n) (surface_ring-IsInRange n h) in
    (i.cursor, λ k s e. ground (arith, i.ready))

-- The slots dealt out by `k` calls in a row
pub dealt : ℕ → SurfaceRing → List ℕ
unfolding next_producer_slot
dealt zero r = []
dealt (suc k) r = let (s, r') = next_producer_slot r in s ∷ dealt k r'

-- The slots from `s` on, in a circle of `n`
pub round_robin : ℕ → ℕ → ℕ → List ℕ
round_robin zero n s = []
round_robin (suc k) n s = s ∷ round_robin k n (if s + 1 == n then 0 else s + 1)

next_cursor :
    (c n : ℕ) → c < n → n < 2 ^ 32 → (c + 1) % 2 ^ 32 % n ≡ (if c + 1 == n then 0 else c + 1)
next_cursor c n h u =
    let small : (c + 1) % 2 ^ 32 ≡ c + 1 = omega arith in
    ap (λ k. k % n) small ∙ elim (ℕ_discrete (c + 1) n) [
      | yes last ↦
          subst (λ m. (c + 1) % m ≡ (if c + 1 == m then 0 else c + 1)) last
            (mod_self (c + 1) ∙ ground arith)
      | no inner ↦ mod-eq_of_lt (omega arith) ∙ ground arith
    ]

-- In a ring in range, as any calls leave it, slots asked for in a row are dealt out in a circle.
pub dealt-round_robin :
    (k : ℕ) (r : SurfaceRing)
    → IsInRange r
    → dealt k r ≡ round_robin k r.slot_count r.producer_cursor
unfolding dealt round_robin next_producer_slot
dealt-round_robin zero r i = refl
dealt-round_robin (suc k) r i =
    ap (λ l. r.producer_cursor ∷ l)
      (dealt-round_robin k (next_producer_slot r).1 (record {
        slots = i.slots;
        slots_u32 = i.slots_u32;
        cursor = mod-lt _ i.slots;
        ready = i.ready;
      })
        ∙ ap (round_robin k r.slot_count)
            (next_cursor r.producer_cursor r.slot_count i.cursor i.slots_u32))
