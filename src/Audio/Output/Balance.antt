-- ===== src/Audio/Output/Balance.antt =====
-- The count of queued frames of src/audio/XAudio2Output.cpp is that of the buffers that are in use.
mod Tests
use native.Mathlib.Nat.{mul-div_cancel}
use retro_park.Base.{
  length-set, get_elem?-set_self, Bool-cases, ◌||◌, lt→ltb, ℕ, zero, suc, ◌+◌, ◌-◌, ◌*◌, ◌/◌, ◌%◌,
  ◌^◌, ◌≤◌, ◌<◌, ◌≡◌, refl, sym, ap, ◌∙◌, Bool, true, false, not, Option, none, some, List, [], ◌∷◌,
  arith, length, set, get_or, get_elem?, take, if◌then◌else◌, ◌==◌, ltb, inl, inr, Option-cases,
}
use retro_park.Audio.Output.{
  Output, pool_size, pick_from, pick_free_slot, take_off, submit, on_buffer_end, want_frames,
}

-- The frames in the buffers that are in use
pub backlog : ℕ → List Bool → List (List ℕ) → ℕ
backlog c [] bufs = 0
backlog c (u ∷ us) [] = 0
backlog c (u ∷ us) (b ∷ bs) = (if u then length b / c else 0) + backlog c us bs

pick_from-free :
    (i : ℕ) (us : List Bool) (j : ℕ)
    → pick_from i us ≡ some j
    → (n : ℕ) × (j ≡ i + n) × (get_elem? us n ≡ some false)
unfolding pick_from
pick_from-free i [] j h = cc h
pick_from-free i (false ∷ us) j h = let e : i ≡ j = cc h in (0, omega (arith, e), refl)
pick_from-free i (true ∷ us) j h =
    let (n, e, g) = pick_from-free (i + 1) us j h in (suc n, omega (arith, e), g)

pick_free_slot-free :
    (us : List Bool) (j : ℕ) → pick_free_slot us ≡ some j → get_elem? us j ≡ some false
unfolding pick_free_slot
pick_free_slot-free us j h =
    let (n, e, g) = pick_from-free 0 us j h in
    let same : n ≡ j = omega (arith, e) in ap (get_elem? us) (sym same) ∙ g

backlog-claim :
    (c : ℕ) (us : List Bool) (bs : List (List ℕ)) (i : ℕ) (b : List ℕ)
    → get_elem? us i ≡ some false
    → i < length bs
    → backlog c (set us i true) (set bs i b) ≡ length b / c + backlog c us bs
unfolding backlog
backlog-claim c [] bs i b h lt = cc h
backlog-claim c (u ∷ us) [] i b h lt = elim lt [ ]
backlog-claim c (u ∷ us) (x ∷ bs) zero b h lt = ground arith
backlog-claim c (u ∷ us) (x ∷ bs) (suc i) b h lt =
    omega (arith, backlog-claim c us bs i b h (omega arith))

backlog-release :
    (c : ℕ) (us : List Bool) (bs : List (List ℕ)) (i : ℕ)
    → get_elem? us i ≡ some true
    → i < length bs
    → backlog c us bs ≡ length (get_or bs i []) / c + backlog c (set us i false) bs
unfolding backlog
backlog-release c [] bs i h lt = cc h
backlog-release c (u ∷ us) [] i h lt = elim lt [ ]
backlog-release c (u ∷ us) (x ∷ bs) zero h lt = ground arith
backlog-release c (u ∷ us) (x ∷ bs) (suc i) h lt =
    omega (arith, backlog-release c us bs i h (omega arith))

take_all : {A : Type 0} (n : ℕ) (xs : List A) → length xs ≡ n → take n xs ≡ xs
take_all zero [] h = refl
take_all zero (x ∷ xs) h = absurd (omega (arith, h))
take_all (suc n) [] h = refl
take_all (suc n) (x ∷ xs) h = ap (λ l. x ∷ l) (take_all n xs (omega (arith, h)))

get_elem?-lt : {A : Type 0} (xs : List A) (i : ℕ) {v : A} → get_elem? xs i ≡ some v → i < length xs
get_elem?-lt [] i h = cc h
get_elem?-lt (x ∷ xs) zero h = omega arith
get_elem?-lt (x ∷ xs) (suc i) h = omega (arith, get_elem?-lt xs i h)

get_or-set :
    {A : Type 0} (xs : List A) (i : ℕ) (v d : A) → i < length xs → get_or (set xs i v) i d ≡ v
get_or-set [] i v d h = elim h [ ]
get_or-set (x ∷ xs) zero v d h = refl
get_or-set (x ∷ xs) (suc i) v d h = get_or-set xs i v d (omega arith)

-- As many flags as buffers, and the count that belongs to them
pub record IsBalanced (o : Output) : Type 0 where
  pub flags : length o.in_use ≡ pool_size
  pub buffers : length o.bufs ≡ pool_size
  pub sound : 0 < o.channels
  pub queued : o.queued_frames ≡ backlog o.channels o.in_use o.bufs

-- A refused buffer leaves the backlog as it was.
backlog-refuse :
    (c : ℕ) (us : List Bool) (bs : List (List ℕ)) (i : ℕ) (b : List ℕ)
    → get_elem? us i ≡ some false
    → i < length bs
    → backlog c (set (set us i true) i false) (set bs i b) ≡ backlog c us bs
backlog-refuse c us bs i b free lt =
    let claimed = backlog-claim c us bs i b free lt in
    let released =
      backlog-release c (set us i true) (set bs i b) i
        (get_elem?-set_self us i true (get_elem?-lt us i free))
        (omega (arith, length-set bs i b)) in
    let whole : length (get_or (set bs i b) i []) / c ≡ length b / c =
      ap (λ x. length x / c) (get_or-set bs i b [] lt) in
    omega (arith, claimed, released, whole)

-- A submission keeps the count right on every path: no source, no frames, a full pool, a buffer that
-- the voice refuses and one that it takes. The samples are `num_frames` whole frames, and the count
-- stays below 2 ^ 32.
pub submit-IsBalanced :
    (taken : Bool) (samples : List ℕ) (num_frames : ℕ) (o : Output)
    → IsBalanced o
    → length samples ≡ num_frames * o.channels
    → o.queued_frames + num_frames < 2 ^ 32
    → IsBalanced (submit taken (some samples) num_frames o)
unfolding submit
submit-IsBalanced taken samples num_frames o i whole small =
    elim (Option-cases (pick_free_slot o.in_use)) [
      | inl full ↦ rw (full, submit) i
      | inr (slot, e) ↦
          rw (e, submit)
            (elim (Bool-cases (not o.has_source || num_frames == 0)) [
              | inl early ↦ rw early i
              | inr goes ↦ rw goes (on_slot slot (pick_free_slot-free o.in_use slot e) taken)
            ])
    ]
  where
    b : List ℕ
    b = take (num_frames * o.channels) samples

    frames_in : length b / o.channels ≡ num_frames
    frames_in =
        ap (λ x. length x / o.channels) (take_all (num_frames * o.channels) samples whole)
        ∙ ap (λ x. x / o.channels) whole
        ∙ mul-div_cancel num_frames i.sound

    added : (o.queued_frames + num_frames % 2 ^ 32) % 2 ^ 32 ≡ o.queued_frames + num_frames
    added = omega arith

    on_slot :
        (slot : ℕ)
        → get_elem? o.in_use slot ≡ some false
        → (t : Bool)
        → IsBalanced (
            if not t
            then record o {
              bufs = set o.bufs slot b;
              in_use = set (set o.in_use slot true) slot false;
              queued_frames =
                  take_off ((o.queued_frames + num_frames % 2 ^ 32) % 2 ^ 32) num_frames;
            }
            else record o {
              bufs = set o.bufs slot b;
              in_use = set o.in_use slot true;
              queued_frames = (o.queued_frames + num_frames % 2 ^ 32) % 2 ^ 32;
              started = true;
            })
    on_slot slot free false = record {
      flags = omega (
        arith,
        length-set (set o.in_use slot true) slot false,
        length-set o.in_use slot true,
        i.flags,
      );
      buffers = omega (arith, length-set o.bufs slot b, i.buffers);
      sound = i.sound;
      queued =
          rw added (ground (arith, i.queued))
          ∙ sym (
              backlog-refuse o.channels o.in_use o.bufs slot b free
                (omega (arith, get_elem?-lt o.in_use slot free, i.flags, i.buffers)));
    }
    on_slot slot free true = record {
      flags = omega (arith, length-set o.in_use slot true, i.flags);
      buffers = omega (arith, length-set o.bufs slot b, i.buffers);
      sound = i.sound;
      queued = omega (
        arith,
        added,
        i.queued,
        frames_in,
        backlog-claim o.channels o.in_use o.bufs slot b free
            (omega (arith, get_elem?-lt o.in_use slot free, i.flags, i.buffers)),
      );
    }

-- A buffer that was in use and has been played leaves the count right. The count fits 32 bits.
pub on_buffer_end-IsBalanced :
    (slot : ℕ) (o : Output)
    → IsBalanced o
    → get_elem? o.in_use slot ≡ some true
    → o.queued_frames < 2 ^ 32
    → IsBalanced (on_buffer_end slot o)
unfolding on_buffer_end
on_buffer_end-IsBalanced slot o i busy small =
    let lt = get_elem?-lt o.in_use slot busy in
    let released =
      backlog-release o.channels o.in_use o.bufs slot busy (omega (arith, i.flags, i.buffers)) in
    let here : ltb slot pool_size ≡ true = lt→ltb _ _ (omega (arith, lt, i.flags)) in
    let channels : ltb 0 o.channels ≡ true = lt→ltb _ _ i.sound in
    rw (here, channels)
      (record {
        flags = omega (arith, length-set o.in_use slot false, i.flags);
        buffers = i.buffers;
        sound = i.sound;
        queued = ground (arith, i.queued, released);
      })
