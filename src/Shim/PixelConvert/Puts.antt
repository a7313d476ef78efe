-- ===== src/Shim/PixelConvert/Puts.antt =====
-- cores/libretro_shim/PixelConvert.cpp: the four bytes that are written for one pixel.
use retro_park.Base.{
  ℕ, zero, suc, ◌+◌, ◌*◌, ◌%◌, ◌^◌, ◌≤◌, ◌<◌, ◌≡◌, ◌∙◌, ◌⊎◌, inl, inr, ap, some, List, length,
  get_elem?, get_or, set, length-set, get_elem?-set_self, get_elem?-set_ne, arith,
}
use retro_park.Shim.PixelConvert.{put_pixel}

set-at : (d : List ℕ) (i j v : ℕ) → i ≡ j → j < length d → get_elem? (set d i v) j ≡ some v
set-at d i j v e h = ap (λ k. get_elem? (set d k v) j) e ∙ get_elem?-set_self d j v h

module _ (dst : List ℕ) (out x : ℕ) (colour : List ℕ) where
  pub length-put_pixel : length (put_pixel dst out x colour) ≡ length dst
  unfolding put_pixel
  length-put_pixel =
      length-set _ _ _ ∙ length-set _ _ _ ∙ length-set _ _ _ ∙ length-set dst _ (get_or colour 0 0)

  -- Where the index does not wrap, what lies beside the four bytes is left.
  pub put_pixel-outside :
      (i : ℕ)
      → x < 2 ^ 30
      → (i < out + x * 4) ⊎ (out + (x + 1) * 4 ≤ i)
      → get_elem? (put_pixel dst out x colour) i ≡ get_elem? dst i
  unfolding put_pixel
  put_pixel-outside i small (inl before) =
      get_elem?-set_ne _ _ i _ (λ e. omega (arith, e))
      ∙ get_elem?-set_ne _ _ i _ (λ e. omega (arith, e))
      ∙ get_elem?-set_ne _ _ i _ (λ e. omega (arith, e))
      ∙ get_elem?-set_ne dst _ i (get_or colour 0 0) (λ e. omega (arith, e))
  put_pixel-outside i small (inr after) =
      get_elem?-set_ne _ _ i _ (λ e. omega (arith, e))
      ∙ get_elem?-set_ne _ _ i _ (λ e. omega (arith, e))
      ∙ get_elem?-set_ne _ _ i _ (λ e. omega (arith, e))
      ∙ get_elem?-set_ne dst _ i (get_or colour 0 0) (λ e. omega (arith, e))

  -- And where the four bytes are within `dst`, they are those of the colour.
  pub put_pixel-inside :
      (c : ℕ)
      → x < 2 ^ 30
      → out + (x + 1) * 4 ≤ length dst
      → c < 4
      → get_elem? (put_pixel dst out x colour) (out + x * 4 + c) ≡ some (get_or colour c 0)
  unfolding put_pixel
  put_pixel-inside zero small room h =
      get_elem?-set_ne _ _ (out + x * 4 + 0) _ (λ e. omega (arith, e))
      ∙ get_elem?-set_ne _ _ (out + x * 4 + 0) _ (λ e. omega (arith, e))
      ∙ get_elem?-set_ne _ _ (out + x * 4 + 0) _ (λ e. omega (arith, e))
      ∙ set-at dst _ (out + x * 4 + 0) (get_or colour 0 0) (omega arith) (omega arith)
  put_pixel-inside (suc zero) small room h =
      get_elem?-set_ne _ _ (out + x * 4 + 1) _ (λ e. omega (arith, e))
      ∙ get_elem?-set_ne _ _ (out + x * 4 + 1) _ (λ e. omega (arith, e))
      ∙ set-at _ _ (out + x * 4 + 1) (get_or colour 1 0) (omega arith)
          (omega (arith, length-set dst (out + x * 4 % 2 ^ 32) (get_or colour 0 0)))
  put_pixel-inside (suc (suc zero)) small room h =
      let d0 = set dst (out + x * 4 % 2 ^ 32) (get_or colour 0 0) in
      get_elem?-set_ne _ _ (out + x * 4 + 2) _ (λ e. omega (arith, e))
      ∙ set-at _ _ (out + x * 4 + 2) (get_or colour 2 0) (omega arith) (
          omega (
            arith,
            length-set dst (out + x * 4 % 2 ^ 32) (get_or colour 0 0),
            length-set d0 (out + (x * 4 + 1) % 2 ^ 32) (get_or colour 1 0),
          ))
  put_pixel-inside (suc (suc (suc zero))) small room h =
      let d0 = set dst (out + x * 4 % 2 ^ 32) (get_or colour 0 0) in
      let d1 = set d0 (out + (x * 4 + 1) % 2 ^ 32) (get_or colour 1 0) in
      set-at _ _ (out + x * 4 + 3) (get_or colour 3 0) (omega arith) (
        omega (
          arith,
          length-set dst (out + x * 4 % 2 ^ 32) (get_or colour 0 0),
          length-set d0 (out + (x * 4 + 1) % 2 ^ 32) (get_or colour 1 0),
          length-set d1 (out + (x * 4 + 2) % 2 ^ 32) (get_or colour 2 0),
        ))
  put_pixel-inside (suc (suc (suc (suc c)))) small room h = absurd (omega arith)
