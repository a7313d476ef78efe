-- ===== src/Render/FramebufferCopy/PutRow.antt =====
-- The bytes of a buffer after one row of src/render/FramebufferCopy.cpp is copied into it.
use retro_park.Base.{
  ℕ, ◌+◌, ◌-◌, ◌≤◌, ◌<◌, ◌≡◌, ◌∙◌, ◌⊎◌, inl, inr, sym, ap, ap₂, List, ◌++◌, append_assoc, take,
  drop, length, get_elem?, get_elem?-append_lt, get_elem?-append_past, get_elem?-take,
  get_elem?-drop, length-append, length-take, length-drop, arith,
}
use retro_park.Render.FramebufferCopy.{put_row}

module _ (dst : List ℕ) (at : ℕ) (src : List ℕ) (from n : ℕ) where
  length-row : from + n ≤ length src → length (take n (drop from src)) ≡ n
  length-row h = length-take n (drop from src) (omega (arith, length-drop from src))

  -- The three parts, from the left
  put_row_parts :
      put_row dst at src from n ≡ take at dst ++ (take n (drop from src) ++ drop (at + n) dst)
  put_row_parts = append_assoc (take at dst) (take n (drop from src)) (drop (at + n) dst)

  pub length-put_row :
      at + n ≤ length dst → from + n ≤ length src → length (put_row dst at src from n) ≡ length dst
  length-put_row hd hs = omega (
    arith,
    ap length put_row_parts,
    length-append (take at dst) (take n (drop from src) ++ drop (at + n) dst),
    length-append (take n (drop from src)) (drop (at + n) dst),
    length-row hs,
    length-take at dst (omega arith),
    length-drop (at + n) dst,
  )

  -- Past the bytes before the row
  put_row-from :
      (k : ℕ)
      → at ≤ length dst
      → get_elem? (put_row dst at src from n) (at + k)
        ≡ get_elem? (take n (drop from src) ++ drop (at + n) dst) k
  put_row-from k hd =
      ap₂ (λ l a. get_elem? l (a + k)) put_row_parts (sym (length-take at dst hd))
      ∙ get_elem?-append_past (take at dst) (take n (drop from src) ++ drop (at + n) dst) k

  pub put_row-inside :
      (k : ℕ)
      → at + n ≤ length dst
      → from + n ≤ length src
      → k < n
      → get_elem? (put_row dst at src from n) (at + k) ≡ get_elem? src (from + k)
  put_row-inside k hd hs hk =
      put_row-from k (omega arith)
      ∙ get_elem?-append_lt (take n (drop from src)) (drop (at + n) dst) k
          (omega (arith, length-row hs))
      ∙ get_elem?-take n k (drop from src) hk
      ∙ get_elem?-drop from k src

  put_row-before :
      (i : ℕ) → at ≤ length dst → i < at → get_elem? (put_row dst at src from n) i ≡ get_elem? dst i
  put_row-before i hd hi =
      ap (λ l. get_elem? l i) put_row_parts
      ∙ get_elem?-append_lt (take at dst) (take n (drop from src) ++ drop (at + n) dst) i
          (omega (arith, length-take at dst hd))
      ∙ get_elem?-take at i dst hi

  put_row-after :
      (k : ℕ)
      → at + n ≤ length dst
      → from + n ≤ length src
      → get_elem? (put_row dst at src from n) (at + (n + k)) ≡ get_elem? dst (at + (n + k))
  put_row-after k hd hs =
      put_row-from (n + k) (omega arith)
      ∙ ap (λ l. get_elem? (take n (drop from src) ++ drop (at + n) dst) (l + k))
          (sym (length-row hs))
      ∙ get_elem?-append_past (take n (drop from src)) (drop (at + n) dst) k
      ∙ get_elem?-drop (at + n) k dst
      ∙ ap (get_elem? dst) (omega arith)

  pub put_row-outside :
      (i : ℕ)
      → at + n ≤ length dst
      → from + n ≤ length src
      → (i < at) ⊎ (at + n ≤ i)
      → get_elem? (put_row dst at src from n) i ≡ get_elem? dst i
  put_row-outside i hd hs (inl before) = put_row-before i (omega arith) before
  put_row-outside i hd hs (inr after) =
      let e : i ≡ at + (n + (i - (at + n))) = omega arith in
      ap (get_elem? (put_row dst at src from n)) e
      ∙ put_row-after (i - (at + n)) hd hs
      ∙ ap (get_elem? dst) (sym e)
