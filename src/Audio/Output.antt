-- ===== src/Audio/Output.antt =====
-- src/audio/XAudio2Output.h and XAudio2Output.cpp, with src/audio/AudioPool.cpp: the pool of buffers
-- and the count of the frames that are queued. Whether the voice takes a buffer is an argument, and
-- each call runs as a whole.
pub mod Balance
use retro_park.Base.{
  ℕ, zero, suc, ◌+◌, ◌-◌, ◌*◌, ◌/◌, ◌%◌, ◌^◌, Bool, true, false, not, ◌&&◌, ◌||◌, Option, none,
  some, List, [], ◌∷◌, length, set, get_or, take, ltb, leb, ◌==◌, if◌then◌else◌,
}

pub record Output : Type 0 where
  pub has_source : Bool
  pub channels : ℕ
  pub bufs : List (List ℕ)
  pub in_use : List Bool
  pub target_frames : ℕ
  pub queued_frames : ℕ
  pub min_queued : ℕ
  pub starvations : ℕ
  pub started : Bool

-- `kPoolSize`
abbrev pub pool_size : ℕ
pool_size = 16

-- `audio_pick_free_slot`, where -1 is `none`; the flags from slot `i` on
pick_from : ℕ → List Bool → Option ℕ
pick_from i [] = none
pick_from i (used ∷ flags) = let rest = pick_from (i + 1) flags in if not used then some i else rest

pub pick_free_slot : List Bool → Option ℕ
unfolding pick_from
pick_free_slot flags = pick_from 0 flags

-- The loop of `compare_exchange_weak` that takes `n` frames off, down to 0
abbrev pub take_off : ℕ → ℕ → ℕ
take_off q n = if ltb n q then q - n else 0

-- `frames` are the samples from the pointer on; `none` is a null pointer.
pub submit : Bool → Option (List ℕ) → ℕ → Output → Output
submit taken frames num_frames o = elim frames [
  | none ↦ o
  | some samples ↦ elim (pick_free_slot o.in_use) [
    | none ↦ o
    | some slot ↦
        let queued = (o.queued_frames + num_frames % 2 ^ 32) % 2 ^ 32 in
        let o' = record o { bufs = set o.bufs slot (take (num_frames * o.channels) samples) } in
        if not o.has_source || num_frames == 0
        then o
        else if not taken
        then record o' {
          in_use = set (set o.in_use slot true) slot false;
          queued_frames = take_off queued num_frames;
        }
        else record o' { in_use = set o.in_use slot true; queued_frames = queued; started = true }
  ]
]

pub on_buffer_end : ℕ → Output → Output
on_buffer_end slot o =
    let size = length (get_or o.bufs slot []) in
    let done = if ltb 0 o.channels then size / o.channels % 2 ^ 32 else 0 in
    if ltb slot pool_size
    then record o {
      in_use = set o.in_use slot false;
      queued_frames = if done == 0 then o.queued_frames else take_off o.queued_frames done;
    }
    else o

pub want_frames : Output → ℕ × Output
want_frames o =
    let q = o.queued_frames in
    let o' =
      if o.started
      then record o {
        min_queued = if ltb q o.min_queued then q else o.min_queued;
        starvations = if q == 0 then (o.starvations + 1) % 2 ^ 32 else o.starvations;
      }
      else o in
    (if leb o.target_frames q then 0 else o.target_frames - q, o')
