-- ===== src/Render/FramebufferCopy/Copied.antt =====
-- What src/render/FramebufferCopy.cpp writes into a buffer, and what it leaves of it.
use native.Mathlib.Nat.{mul-le-mul_right, suc-mul}
use retro_park.Base.{
  Bool, ℕ, zero, suc, ◌+◌, ◌*◌, ◌^◌, ◌≤◌, ◌<◌, ◌≡◌, ◌∙◌, ◌⊎◌, inl, inr, refl, sym, ap, subst, true,
  List, length, get_elem?, ltb, ltb→lt, Bool-cases, if◌then◌else◌, arith,
}
use retro_park.Render.FramebufferCopy.{
  row_bytes, put_row, copy_rows, copy_rgba8_rows, driven_frame_valid,
}
use retro_park.Render.FramebufferCopy.PutRow.{length-put_row, put_row-inside, put_row-outside}

-- A buffer and a frame of some rows, the rows as far apart as their pitches say
record Fits (rounds y n src_pitch dst_pitch src_size dst_size : ℕ) : Type 0 where
  src_row : n ≤ src_pitch
  dst_row : n ≤ dst_pitch
  src_end : (y + rounds) * src_pitch ≤ src_size
  dst_end : (y + rounds) * dst_pitch ≤ dst_size

-- A row before the end is whole.
row-whole : (j rows pitch n : ℕ) → j < rows → n ≤ pitch → j * pitch + n ≤ rows * pitch
row-whole j rows pitch n below fits =
    let next : suc j * pitch ≤ rows * pitch = mul-le-mul_right pitch (omega arith) in
    omega (arith, next, suc-mul j pitch)

module _ (src : List ℕ) (n src_pitch dst_pitch : ℕ) where
  abbrev Room : ℕ → ℕ → List ℕ → Type 0
  Room rounds y dst = Fits rounds y n src_pitch dst_pitch (length src) (length dst)

  abbrev after_row : ℕ → List ℕ → List ℕ
  after_row y dst = put_row dst (y * dst_pitch) src (y * src_pitch) n

  row_dst : (rounds y : ℕ) (dst : List ℕ) → Room (suc rounds) y dst → y * dst_pitch + n ≤ length dst
  row_dst rounds y dst room =
      omega
        (arith, room.dst_end, row-whole y (y + suc rounds) dst_pitch n (omega arith) room.dst_row)

  row_src : (rounds y : ℕ) (dst : List ℕ) → Room (suc rounds) y dst → y * src_pitch + n ≤ length src
  row_src rounds y dst room =
      omega
        (arith, room.src_end, row-whole y (y + suc rounds) src_pitch n (omega arith) room.src_row)

  Room-after_row :
      (rounds y : ℕ) (dst : List ℕ)
      → Room (suc rounds) y dst
      → Room rounds (y + 1) (after_row y dst)
  Room-after_row rounds y dst room = record {
    src_row = room.src_row;
    dst_row = room.dst_row;
    src_end = subst (λ j. j * src_pitch ≤ length src) next room.src_end;
    dst_end =
        subst (λ j. j * dst_pitch ≤ length (after_row y dst)) next
          (omega (arith, room.dst_end, same));
  }
    where
      next : y + suc rounds ≡ y + 1 + rounds
      next = omega arith

      same : length (after_row y dst) ≡ length dst
      same =
          length-put_row dst (y * dst_pitch) src (y * src_pitch) n (row_dst rounds y dst room)
            (row_src rounds y dst room)

  -- What lies beside each of the rows is left.
  copy_rows-outside :
      (rounds y : ℕ) (dst : List ℕ) (i : ℕ)
      → Room rounds y dst
      → ((j : ℕ) → y ≤ j → (i < j * dst_pitch) ⊎ (j * dst_pitch + n ≤ i))
      → get_elem? (copy_rows rounds y src n src_pitch dst dst_pitch) i ≡ get_elem? dst i
  unfolding copy_rows
  copy_rows-outside zero y dst i room beside = refl
  copy_rows-outside (suc rounds) y dst i room beside =
      copy_rows-outside rounds (y + 1) (after_row y dst) i (Room-after_row rounds y dst room)
        (λ j h. beside j (omega arith))
      ∙ put_row-outside dst (y * dst_pitch) src (y * src_pitch) n i (row_dst rounds y dst room)
          (row_src rounds y dst room) (beside y (omega arith))

  -- Each row comes from its row.
  copy_rows-row :
      (rounds y : ℕ) (dst : List ℕ) (d k : ℕ)
      → Room rounds y dst
      → d < rounds
      → k < n
      → get_elem? (copy_rows rounds y src n src_pitch dst dst_pitch) ((y + d) * dst_pitch + k)
        ≡ get_elem? src ((y + d) * src_pitch + k)
  unfolding copy_rows
  copy_rows-row zero y dst d k room hd hk = absurd (omega arith)
  copy_rows-row (suc rounds) y dst zero k room hd hk =
      ap
        (λ a.
          get_elem? (copy_rows rounds (y + 1) src n src_pitch (after_row y dst) dst_pitch)
            (a * dst_pitch + k))
        same
      ∙ copy_rows-outside rounds (y + 1) (after_row y dst) (y * dst_pitch + k)
          (Room-after_row rounds y dst room)
          (λ j h. inl (omega (arith, row-whole y j dst_pitch n (omega arith) room.dst_row)))
      ∙ put_row-inside dst (y * dst_pitch) src (y * src_pitch) n k (row_dst rounds y dst room)
          (row_src rounds y dst room) hk
      ∙ ap (λ j. get_elem? src (j * src_pitch + k)) (sym same)
    where
      same : y + 0 ≡ y
      same = omega arith
  copy_rows-row (suc rounds) y dst (suc d) k room hd hk =
      ap
        (λ j.
          get_elem? (copy_rows rounds (y + 1) src n src_pitch (after_row y dst) dst_pitch)
            (j * dst_pitch + k))
        (omega arith)
      ∙ copy_rows-row rounds (y + 1) (after_row y dst) d k (Room-after_row rounds y dst room)
          (omega arith) hk
      ∙ ap (λ j. get_elem? src (j * src_pitch + k)) (omega arith)

  -- Padding lies beside each row.
  padding-beside :
      (j k i : ℕ)
      → n ≤ k
      → k < dst_pitch
      → (j * dst_pitch + k < i * dst_pitch) ⊎ (i * dst_pitch + n ≤ j * dst_pitch + k)
  padding-beside j k i past within = elim (Bool-cases (ltb j i)) [
    | inl e ↦ inl (omega (arith, row-whole j i dst_pitch (suc k) (ltb→lt j i e) (omega arith)))
    | inr e ↦
        let le : i ≤ j = ground (arith, e) in
        let rows : i * dst_pitch ≤ j * dst_pitch = mul-le-mul_right dst_pitch le in
        inr (omega (arith, rows))
  ]

  copy_rows-byte :
      (rounds : ℕ) (dst : List ℕ) (j k : ℕ)
      → Room rounds 0 dst
      → j < rounds
      → k < dst_pitch
      → get_elem? (copy_rows rounds 0 src n src_pitch dst dst_pitch) (j * dst_pitch + k)
        ≡ (if ltb k n then get_elem? src (j * src_pitch + k) else get_elem? dst (j * dst_pitch + k))
  copy_rows-byte rounds dst j k room hj hk =
      let picks = λ (b : Bool).
        if b then get_elem? src (j * src_pitch + k) else get_elem? dst (j * dst_pitch + k) in
      elim (Bool-cases (ltb k n)) [
        | inl e ↦
            ap
              (λ t.
                get_elem? (copy_rows rounds 0 src n src_pitch dst dst_pitch) (t * dst_pitch + k))
              (sym top)
            ∙ copy_rows-row rounds 0 dst j k room hj (ltb→lt k n e)
            ∙ ap (λ t. get_elem? src (t * src_pitch + k)) top
            ∙ ap picks (sym e)
        | inr e ↦
            copy_rows-outside rounds 0 dst (j * dst_pitch + k) room
              (λ i _. padding-beside j k i (ground (arith, e)) hk)
            ∙ ap picks (sym e)
      ]
    where
      top : 0 + j ≡ j
      top = omega arith

valid-copy_rows :
    (src dst : List ℕ) (width height pitch dst_pitch max_width max_height : ℕ)
    → driven_frame_valid width height pitch max_width max_height ≡ true
    → (row_bytes width ≤ pitch)
      × (copy_rgba8_rows src width height pitch dst dst_pitch
          ≡ copy_rows height 0 src (row_bytes width) pitch dst dst_pitch)
unfolding driven_frame_valid copy_rgba8_rows
valid-copy_rows src dst width height pitch dst_pitch max_width max_height valid =
    (ground (arith, valid), ground (arith, valid))

-- A row is four bytes for each pixel.
row_bytes-exact : (width : ℕ) → width < 2 ^ 30 → row_bytes width ≡ width * 4
row_bytes-exact width small = omega arith

-- Where a frame of less than 2 ^ 30 columns passes the check and is wholly in `src`, and the rows fit into
-- `dst` at its pitch, then byte k of row j of `dst` is after the copy the one at that place in the frame, if
-- it belongs to one of the `width` pixels of four bytes, and what it was past them.
pub copy_rgba8_rows-byte :
    (src dst : List ℕ) (width height pitch dst_pitch max_width max_height j k : ℕ)
    → width < 2 ^ 30
    → driven_frame_valid width height pitch max_width max_height ≡ true
    → height * pitch ≤ length src
    → width * 4 ≤ dst_pitch
    → height * dst_pitch ≤ length dst
    → j < height
    → k < dst_pitch
    → get_elem? (copy_rgba8_rows src width height pitch dst dst_pitch) (j * dst_pitch + k) ≡ (
        if ltb k (width * 4)
        then get_elem? src (j * pitch + k)
        else get_elem? dst (j * dst_pitch + k))
copy_rgba8_rows-byte src dst width height pitch dst_pitch max_width max_height j k small valid
      in_src row in_dst hj hk =
    let n = row_bytes width in
    let exact : n ≡ width * 4 = row_bytes-exact width small in
    let whole = valid-copy_rows src dst width height pitch dst_pitch max_width max_height valid in
    let top : 0 + height ≡ height = omega arith in
    let room : Fits height 0 n pitch dst_pitch (length src) (length dst) = record {
      src_row = whole.0;
      dst_row = subst (λ t. t ≤ dst_pitch) (sym exact) row;
      src_end = subst (λ t. t * pitch ≤ length src) (sym top) in_src;
      dst_end = subst (λ t. t * dst_pitch ≤ length dst) (sym top) in_dst;
    } in
    ap (λ l. get_elem? l (j * dst_pitch + k)) whole.1
    ∙ copy_rows-byte src n pitch dst_pitch height dst j k room hj hk
    ∙ ap (λ t. if ltb k t then get_elem? src (j * pitch + k) else get_elem? dst (j * dst_pitch + k))
        exact
