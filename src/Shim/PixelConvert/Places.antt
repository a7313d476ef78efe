-- ===== src/Shim/PixelConvert/Places.antt =====
-- cores/libretro_shim/PixelConvert.cpp: where the pixels of the frame stand in what is written.
use retro_park.Base.{
  ℕ, zero, suc, ◌+◌, ◌*◌, ◌%◌, ◌^◌, ◌≤◌, ◌<◌, ◌≡◌, ◌∙◌, ◌⊎◌, inl, inr, refl, sym, ap, ap₂, subst,
  some, List, length, get_elem?, get_or, arith,
}
use native.Mathlib.Nat.{mul-le-mul_right, suc-mul}
use retro_park.Shim.PixelConvert.{put_pixel, convert_pixel, convert_row, convert_rows}
use retro_park.Shim.PixelConvert.Puts.{length-put_pixel, put_pixel-outside, put_pixel-inside}

module _ (fmt : ℕ) (src : List ℕ) where
  module _ (row out : ℕ) where
    length-convert_row :
        (n x : ℕ) (dst : List ℕ) → length (convert_row n x fmt src row dst out) ≡ length dst
    unfolding convert_row
    length-convert_row zero x dst = refl
    length-convert_row (suc n) x dst =
        let c = convert_pixel fmt src row x in
        length-convert_row n (x + 1) (put_pixel dst out x c) ∙ length-put_pixel dst out x c

    -- A row writes nothing beside its pixels.
    convert_row-outside :
        (n x : ℕ) (dst : List ℕ) (i : ℕ)
        → x + n ≤ 2 ^ 30
        → (i < out + x * 4) ⊎ (out + (x + n) * 4 ≤ i)
        → get_elem? (convert_row n x fmt src row dst out) i ≡ get_elem? dst i
    unfolding convert_row
    convert_row-outside zero x dst i small beside = refl
    convert_row-outside (suc n) x dst i small (inl before) =
        let c = convert_pixel fmt src row x in
        convert_row-outside n (x + 1) (put_pixel dst out x c) i (omega arith) (inl (omega arith))
        ∙ put_pixel-outside dst out x c i (omega arith) (inl before)
    convert_row-outside (suc n) x dst i small (inr after) =
        let c = convert_pixel fmt src row x in
        convert_row-outside n (x + 1) (put_pixel dst out x c) i (omega arith) (inr (omega arith))
        ∙ put_pixel-outside dst out x c i (omega arith) (inr (omega arith))

    convert_row-inside :
        (n x : ℕ) (dst : List ℕ) (k c : ℕ)
        → x + n ≤ 2 ^ 30
        → out + (x + n) * 4 ≤ length dst
        → k < n
        → c < 4
        → get_elem? (convert_row n x fmt src row dst out) (out + (x + k) * 4 + c)
          ≡ some (get_or (convert_pixel fmt src row (x + k)) c 0)
    unfolding convert_row
    convert_row-inside zero x dst k c small room hk hc = absurd (omega arith)
    convert_row-inside (suc n) x dst zero c small room hk hc =
        let p = convert_pixel fmt src row x in
        let top : x + 0 ≡ x = omega arith in
        convert_row-outside n (x + 1) (put_pixel dst out x p) (out + (x + 0) * 4 + c) (omega arith)
          (inl (omega arith))
        ∙ ap (λ t. get_elem? (put_pixel dst out x p) (out + t * 4 + c)) top
        ∙ put_pixel-inside dst out x p c (omega arith) (omega arith) hc
        ∙ ap (λ t. some (get_or (convert_pixel fmt src row t) c 0)) (sym top)
    convert_row-inside (suc n) x dst (suc k) c small room hk hc =
        let p = convert_pixel fmt src row x in
        let next : x + suc k ≡ x + 1 + k = omega arith in
        ap
          (λ t.
            get_elem? (convert_row n (x + 1) fmt src row (put_pixel dst out x p) out)
              (out + t * 4 + c))
          next
        ∙ convert_row-inside n (x + 1) (put_pixel dst out x p) k c (omega arith)
            (omega (arith, length-put_pixel dst out x p)) (omega arith) hc
        ∙ ap (λ t. some (get_or (convert_pixel fmt src row t) c 0)) (sym next)

  module _ (w pitch : ℕ) (narrow : w ≤ 2 ^ 30) where
    abbrev after_row : ℕ → List ℕ → List ℕ
    after_row y dst = convert_row w 0 fmt src (y * pitch) dst (y * w * 4 % 2 ^ 64)

    -- A row that is within `dst` starts below 2 ^ 64.
    row_start :
        (n y : ℕ) (dst : List ℕ)
        → (y + suc n) * w * 4 ≤ length dst
        → length dst < 2 ^ 64
        → (y * w * 4 % 2 ^ 64 ≡ y * w * 4) × (y * w * 4 + w * 4 ≤ length dst)
    row_start n y dst room small =
        let rows : suc y * w ≤ (y + suc n) * w = mul-le-mul_right w (omega arith) in
        let end : y * w * 4 + w * 4 ≤ length dst = omega (arith, rows, suc-mul y w, room) in
        (omega (arith, end, small), end)

    -- The rows from `y` on write nothing beside them.
    pub convert_rows-outside :
        (n y : ℕ) (dst : List ℕ) (i : ℕ)
        → (y + n) * w * 4 ≤ length dst
        → length dst < 2 ^ 64
        → (i < y * w * 4) ⊎ ((y + n) * w * 4 ≤ i)
        → get_elem? (convert_rows n y w pitch fmt src dst) i ≡ get_elem? dst i
    unfolding convert_rows
    convert_rows-outside zero y dst i room small beside = refl
    convert_rows-outside (suc n) y dst i room small beside =
        let start = row_start n y dst room small in
        let same = length-convert_row (y * pitch) (y * w * 4 % 2 ^ 64) w 0 dst in
        let next : y + suc n ≡ y + 1 + n = omega arith in
        let rows : suc y * w ≤ (y + suc n) * w = mul-le-mul_right w (omega arith) in
        let past : (y + 1) * w ≡ y * w + w = ground arith in
        let away : (i < y * w * 4) ⊎ ((y + suc n) * w * 4 ≤ i) = beside in
        convert_rows-outside n (y + 1) (after_row y dst) i
          (subst (λ t. t * w * 4 ≤ length (after_row y dst)) next (omega (arith, room, same)))
          (omega (arith, small, same))
          (elim away [
            | inl before ↦ inl (omega (arith, before, past))
            | inr after ↦ inr (subst (λ t. t * w * 4 ≤ i) next after)
          ])
        ∙ convert_row-outside (y * pitch) (y * w * 4 % 2 ^ 64) w 0 dst i (omega arith) (elim away [
          | inl before ↦ inl (omega (arith, before, start.0))
          | inr after ↦ inr (omega (arith, after, start.0, rows, suc-mul y w))
        ])

    -- Each row writes its pixels.
    pub convert_rows-inside :
        (n y : ℕ) (dst : List ℕ) (j k c : ℕ)
        → (y + n) * w * 4 ≤ length dst
        → length dst < 2 ^ 64
        → j < n
        → k < w
        → c < 4
        → get_elem? (convert_rows n y w pitch fmt src dst) ((y + j) * w * 4 + k * 4 + c)
          ≡ some (get_or (convert_pixel fmt src ((y + j) * pitch) k) c 0)
    unfolding convert_rows
    convert_rows-inside zero y dst j k c room small hj hk hc = absurd (omega arith)
    convert_rows-inside (suc n) y dst zero k c room small hj hk hc =
        let start = row_start n y dst room small in
        let same = length-convert_row (y * pitch) (y * w * 4 % 2 ^ 64) w 0 dst in
        let next : y + suc n ≡ y + 1 + n = omega arith in
        let past : (y + 1) * w ≡ y * w + w = ground arith in
        let top : y + 0 ≡ y = omega arith in
        ap
          (λ t.
            get_elem? (convert_rows n (y + 1) w pitch fmt src (after_row y dst))
              (t * w * 4 + k * 4 + c))
          top
        ∙ convert_rows-outside n (y + 1) (after_row y dst) (y * w * 4 + k * 4 + c)
            (subst (λ t. t * w * 4 ≤ length (after_row y dst)) next (omega (arith, room, same)))
            (omega (arith, small, same)) (inl (omega (arith, past)))
        ∙ ap (λ t. get_elem? (after_row y dst) t) (omega (arith, start.0))
        ∙ convert_row-inside (y * pitch) (y * w * 4 % 2 ^ 64) w 0 dst k c (omega arith)
            (omega (arith, start.0, start.1)) hk hc
        ∙ ap₂ (λ t x. some (get_or (convert_pixel fmt src (t * pitch) x) c 0)) (sym top)
            (omega arith)
    convert_rows-inside (suc n) y dst (suc j) k c room small hj hk hc =
        let same = length-convert_row (y * pitch) (y * w * 4 % 2 ^ 64) w 0 dst in
        let next : y + suc n ≡ y + 1 + n = omega arith in
        let later : y + suc j ≡ y + 1 + j = omega arith in
        ap
          (λ t.
            get_elem? (convert_rows n (y + 1) w pitch fmt src (after_row y dst))
              (t * w * 4 + k * 4 + c))
          later
        ∙ convert_rows-inside n (y + 1) (after_row y dst) j k c
            (subst (λ t. t * w * 4 ≤ length (after_row y dst)) next (omega (arith, room, same)))
            (omega (arith, small, same)) (omega arith) hk hc
        ∙ ap (λ t. some (get_or (convert_pixel fmt src (t * pitch) k) c 0)) (sym later)
