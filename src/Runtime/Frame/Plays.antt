-- ===== src/Runtime/Frame/Plays.antt =====
-- The calls of src/runtime/Runtime.cpp on a driven core that can be saved: what they do to the core.
use retro_park.Base.{
  ◌≡◌, refl, sym, ap, subst, ◌∙◌, ℕ, ◌<◌, Bool, true, false, not, some, List, length, ◌==◌,
  if◌then◌else◌,
}
use retro_park.Abi.{RpResult, is_ok, CoreType, InputState}
use retro_park.Loader.CoreLoader
use retro_park.Loader.CoreLoader.{CoreAbi, Loader, Access, value, ◌>>=◌, serialize, unserialize}
use retro_park.Loader.CoreLoader.Passes.{
  live, serialize_size-live, serialize-live, unserialize-live,
}
use retro_park.Loader.CoreLoader.Yields.{Yields, yields, Yields-bind, Yields-mono, if-Yields}
use retro_park.Runtime.State.{Runtime, AvInfo, SurfaceSet, on_loader}
use retro_park.Runtime.RewindRing.{rewind_ring_push}
use retro_park.Runtime.Host.Beyond.{Beyond, beyond, history}
use retro_park.Runtime.Frame.{capture}

-- A driven core whose state can be saved. The bytes saved are not empty.
pub record Saved {K : Type 0} (abi : CoreAbi K SurfaceSet AvInfo) : Type 0 where
  pub size : ℕ
  pub run : K → K
  pub save : K → ℕ → (RpResult × List ℕ) × K
  pub restore : K → List ℕ → RpResult × K
  pub image : K → List ℕ
  pub size_pos : 0 < size
  pub image_pos : (k : K) → 0 < length (image k)
  pub runs : abi.run_frame_fn ≡ some run
  pub sizes : abi.serialize_size_fn ≡ some (λ k. (size, k))
  pub has_save : abi.serialize_fn ≡ some save
  pub saves : (k : K) → save k size ≡ ((RpResult.ok, image k), k)
  pub has_restore : abi.unserialize_fn ≡ some restore

-- Loading what has been saved brings the core back whole.
abbrev pub IsWhole : {K : Type 0} (abi : CoreAbi K SurfaceSet AvInfo) → Saved abi → Type 0
IsWhole {K} abi c = (k k' : K) → c.restore k (c.image k') ≡ (RpResult.ok, k')

abbrev pub playing :
    {K B : Type 0}
    → CoreAbi K SurfaceSet AvInfo
    → Bool
    → K
    → InputState
    → InputState
    → B
    → Beyond K B
playing abi z k v w b = record {
  loader = live abi k;
  core_loaded = true;
  core_type = CoreType.driven;
  waits = false;
  paused = z;
  backend = some b;
  input_0 = v;
  input_1 = w;
}

module _ {K B Au : Type 0} (abi : CoreAbi K SurfaceSet AvInfo) where
  -- The core `k` plays, with the two inputs set; `z` says whether the runtime is paused.
  abbrev pub Plays : Bool → K → InputState → InputState → Runtime K B Au → Type 0
  Plays z k v w r = (b : B) × (beyond r ≡ playing abi z k v w b)

  pub Plays-beyond :
      {z : Bool} (k : K) (v w : InputState) (r r' : Runtime K B Au)
      → Plays z k v w r
      → beyond r' ≡ beyond r
      → Plays z k v w r'
  Plays-beyond k v w r r' (b, e) same = (b, same ∙ e)

  pub if-Plays :
      {z : Bool} (t : Bool) (k : K) (v w : InputState) (r r' : Runtime K B Au)
      → Plays z k v w r
      → Plays z k v w r'
      → Plays z k v w (if t then r else r')
  if-Plays true k v w r r' h h' = h
  if-Plays false k v w r r' h h' = h'

  pub on_loader-Plays :
      {z : Bool} {R : Type 0}
      (f : Loader K SurfaceSet AvInfo → Access (R × Loader K SurfaceSet AvInfo)) (x : R) (k k' : K)
      (v w : InputState) (r : Runtime K B Au)
      → Plays z k v w r
      → f (live abi k) ≡ value (x, live abi k')
      → Yields (λ (y, r'). (y ≡ x) × Plays z k' v w r' × (history r' ≡ history r)) (on_loader f r)
  on_loader-Plays {z = z} f x k k' v w r (b, e) called =
      let back : f r.loader ≡ value (x, live abi k') = ap (λ s. f s.loader) e ∙ called in
      subst
        (λ m.
          Yields (λ (y, r'). (y ≡ x) × Plays z k' v w r' × (history r' ≡ history r))
            (m >>= λ (y, l). value (y, record r { loader = l })))
        (sym back)
        (yields _ (refl, (b, ap (λ (s : Beyond K B). record s { loader = live abi k' }) e), refl))

module _ {K B Au : Type 0} (abi : CoreAbi K SurfaceSet AvInfo) (c : Saved abi) where
  pub size-Plays :
      {z : Bool} (k : K) (v w : InputState) (r : Runtime K B Au)
      → Plays abi z k v w r
      → Yields
          (λ (y, r'). (y ≡ c.size) × Plays abi z k v w r' × (history r' ≡ history r))
          (on_loader CoreLoader.serialize_size r)
  size-Plays k v w r h =
      on_loader-Plays abi CoreLoader.serialize_size c.size k k v w r h
        (serialize_size-live abi (λ k'. (c.size, k')) k c.sizes)

  pub serialize-Plays :
      {z : Bool} (k : K) (v w : InputState) (n : ℕ) (r : Runtime K B Au)
      → Plays abi z k v w r
      → n ≡ c.size
      → Yields
          (λ (y, r').
            (y ≡ (RpResult.ok, c.image k)) × Plays abi z k v w r' × (history r' ≡ history r))
          (on_loader (serialize n) r)
  serialize-Plays k v w n r h sized =
      on_loader-Plays abi (serialize n) (RpResult.ok, c.image k) k k v w r h
        (ap (λ m. serialize m (live abi k)) sized
          ∙ serialize-live abi c.save k c.size c.has_save
          ∙ ap (λ (s : (RpResult × List ℕ) × K). value (s.0, live abi s.1)) (c.saves k))

  pub unserialize-Plays :
      {z : Bool} (whole : IsWhole abi c) (k c' : K) (v w : InputState) (r : Runtime K B Au)
      → Plays abi z k v w r
      → Yields
          (λ (y, r'). (y ≡ RpResult.ok) × Plays abi z c' v w r')
          (on_loader (unserialize (c.image c')) r)
  unserialize-Plays whole k c' v w r h =
      Yields-mono
        (on_loader-Plays abi (unserialize (c.image c')) RpResult.ok k c' v w r h (
          unserialize-live abi c.restore k (c.image c') c.has_restore
          ∙ ap (λ (s : RpResult × K). value (s.0, live abi s.1)) (whole k c')))
        (λ (y, r') (e, h', whole). (e, h'))

  pub capture-Plays :
      {z : Bool} (k : K) (v w : InputState) (r : Runtime K B Au)
      → Plays abi z k v w r
      → Yields (λ r'. Plays abi z k v w r') (capture r)
  unfolding capture
  capture-Plays k v w r h =
      if-Yields r.rewind_replay (λ t. yields _ h)
        (λ t.
          if-Yields (not r.rewind_enabled) (λ t'. yields _ h)
            (λ t'. Yields-bind (size-Plays k v w r h) (λ (size, r1) (sized, h1, t1).
              if-Yields (size == 0) (λ t''. yields _ h1)
                (λ t''.
                  Yields-bind (serialize-Plays k v w size r1 h1 sized)
                    (λ ((res, snap), r2) (e, h2, t2). yields _ (
                      if-Plays abi (is_ok res) k v w
                        (record r2 {
                          rewind_ring = rewind_ring_push r2.rewind_ring snap r2.rewind_max;
                        })
                        r2 h2 h2))))))
