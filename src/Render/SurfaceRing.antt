-- ===== src/Render/SurfaceRing.antt =====
-- src/render/SurfaceRing.h and SurfaceRing.cpp: the slots that a presenting core draws into, and the
-- last one that it handed over. The calls run one after the other.
pub mod Latest
pub mod Slots
mod Tests
use retro_park.Base.{
  ℕ, zero, ◌+◌, ◌%◌, ◌^◌, ◌==◌, Bool, true, false, not, ◌&&◌, Option, none, some, List, [], ◌∷◌,
  ltb, if◌then◌else◌,
}

pub record SurfaceRing : Type 0 where
  pub slot_count : ℕ
  pub width : ℕ
  pub height : ℕ
  pub generation : ℕ
  pub producer_cursor : ℕ
  pub has_ready : Bool
  pub ready_index : ℕ
  pub ready_generation : ℕ
  pub ready_sync : ℕ

-- The constructor
pub surface_ring : ℕ → SurfaceRing
surface_ring slot_count = record {
  slot_count = if slot_count == 0 then 1 else slot_count;
  width = 0;
  height = 0;
  generation = 0;
  producer_cursor = 0;
  has_ready = false;
  ready_index = 0;
  ready_generation = 0;
  ready_sync = 0;
}

pub reallocate : ℕ → ℕ → SurfaceRing → ℕ × SurfaceRing
reallocate width height r =
    let generation = (r.generation + 1) % 2 ^ 64 in
    (
      generation,
      record r {
        width = width;
        height = height;
        generation = generation;
        producer_cursor = 0;
        has_ready = false;
      },
    )

pub next_producer_slot : SurfaceRing → ℕ × SurfaceRing
next_producer_slot r = (
  r.producer_cursor,
  record r { producer_cursor = (r.producer_cursor + 1) % 2 ^ 32 % r.slot_count },
)

pub accept_submit : ℕ → ℕ → ℕ → SurfaceRing → Bool × SurfaceRing
accept_submit index generation sync_value r =
    if not (generation == r.generation)
    then (false, r)
    else if not (ltb index r.slot_count)
    then (false, r)
    else (
      true,
      record r {
        ready_index = index;
        ready_generation = generation;
        ready_sync = sync_value;
        has_ready = true;
      },
    )

pub latest_ready : SurfaceRing → Option (ℕ × ℕ)
latest_ready r =
    if not r.has_ready
    then none
    else if not (r.ready_generation == r.generation)
    then none
    else some (r.ready_index, r.ready_sync)

-- One call, and any calls in their order
pub data Call : Type 0 where
  reallocates : ℕ → ℕ → Call
  takes_slot : Call
  submits : ℕ → ℕ → ℕ → Call

pub call : Call → SurfaceRing → SurfaceRing
unfolding reallocate next_producer_slot accept_submit
call (reallocates w h) r = (reallocate w h r).1
call takes_slot r = (next_producer_slot r).1
call (submits i g s) r = (accept_submit i g s r).1

pub calls : List Call → SurfaceRing → SurfaceRing
calls [] r = r
calls (c ∷ cs) r = calls cs (call c r)
