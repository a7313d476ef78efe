-- ===== src/Shim/Core/Loads.antt =====
-- cores/libretro_shim/LibretroShim.cpp: what `sh_load_content` leaves, by what it returns.
use retro_park.Base.{
  ℕ, ◌+◌, true, false, not, ◌≡◌, refl, ◌∙◌, Option, none, some, List, if◌then◌else◌,
}
use retro_park.Abi.{RpResult}
use retro_park.Loader.CoreLoader.{value}
use retro_park.Loader.CoreLoader.Yields.{
  Yields, yields, Yields-bind, Yields-value, if-Yields, option-Yields,
}
use retro_park.Shim.Options.{is_empty}
use retro_park.Shim.Callbacks.{Host}
use retro_park.Shim.Core.{
  Instance, on_shim, larger, SetUp, unwind, start_hw, make_current, sh_get_av_info, load_game_at,
  sh_load_content,
}
use retro_park.Shim.Core.Fits.{
  IsReady, Fits, Fitting, call-Fits, call_fn-Fits, call_if-Fits, has_system_info,
  has_system_av_info, has_load_game,
}

-- What a load leaves of an instance
abbrev pub Left : {K : Type 0} → Instance K → RpResult → Instance K → Type 0
Left i RpResult.ok i' = i'.shim.game_loaded ≡ true
Left i RpResult.device i' = (i'.shim.game_loaded ≡ false) × (i'.shim.hw ≡ none)
Left i RpResult.unsupported i' = i'.shim.game_loaded ≡ i.shim.game_loaded
Left i RpResult.bad_arg i' = i' ≡ i
Left i RpResult.not_found i' = i' ≡ i
Left i _ i' = ⊥

abbrev pub Outcome : {K : Type 0} → Instance K → RpResult × Instance K → Type 0
Outcome i (r, i') = IsReady i' × Left i r i'

module _ {K : Type 0} (host : Host) (setup : SetUp) where
  unwind-Outcome : (i0 i : Instance K) → IsReady i → Yields (Outcome i0) (unwind host i)
  unfolding unwind
  unwind-Outcome i0 i h = Yields-bind (call_if-Fits host i.retro.unload_game i h) (λ r k.
      yields _ (record { complete = k.ready.complete; sound = k.ready.sound }, (refl, refl)))

  pub sh_get_av_info-Fits : (i : Instance K) → IsReady i → Fitting host i (sh_get_av_info host i)
  unfolding sh_get_av_info
  sh_get_av_info-Fits i h =
      Yields-bind
        (call_fn-Fits host i.retro.get_system_av_info i h
          (has_system_av_info i.retro h.complete.usable))
        (λ r k. yields _ k)

  start_hw-Outcome :
      (i0 i : Instance K)
      → IsReady i
      → i.shim.game_loaded ≡ true
      → Yields (Outcome i0) (start_hw host setup i)
  unfolding start_hw make_current
  start_hw-Outcome i0 i h on = Yields-bind (sh_get_av_info-Fits i h) (λ r k.
      let mw = larger r.0.max_width r.0.base_width in
      let mh = larger r.0.max_height r.0.base_height in
      let made = setup r.1.shim.hw_cb mw mh host.share_context in
      let i' = on_shim (λ s. record s { hw = some made.1 }) r.1 in
      let h' : IsReady i' = record { complete = k.ready.complete; sound = k.ready.sound } in
      let i'' = on_shim (λ s. record s { made_current = s.made_current + 1 }) i' in
      let h'' : IsReady i'' = record { complete = k.ready.complete; sound = k.ready.sound } in
      if-Yields (not made.0) (λ e. unwind-Outcome i0 i' h')
        (λ e.
          Yields-bind
            (call_if-Fits host
              (if i''.shim.hw_cb.has_context_reset then some i''.retro.context_reset else none) i''
              h'')
            (λ q k'. yields _ (k'.ready, k'.game ∙ k.game ∙ on))))

  load_game_at-Outcome :
      (path : List ℕ) (i0 i : Instance K)
      → IsReady i
      → i.shim.game_loaded ≡ i0.shim.game_loaded
      → Yields (Outcome i0) (load_game_at host setup path i)
  unfolding load_game_at
  load_game_at-Outcome path i0 i h same =
      Yields-bind
        (call_fn-Fits host i.retro.get_system_info i h (has_system_info i.retro h.complete.usable))
        (λ r k.
          Yields-bind
            (option-Yields {Q = λ l. Fits r.1 l.1} r.1.retro.load_game
              (λ missing. absurd (cc (missing, has_load_game r.1.retro k.ready.complete.usable)))
              (λ load e.
                call-Fits host (λ c. load c path (if r.0 then none else some r.1.shim.rom)) r.1
                  k.ready))
            (λ l k'.
              if-Yields (not l.0) (λ e. yields _ (k'.ready, k'.game ∙ k.game ∙ same))
                (λ e.
                  let i' = on_shim (λ s. record s { game_loaded = true }) l.1 in
                  let h' : IsReady i' = record {
                    complete = k'.ready.complete;
                    sound = k'.ready.sound;
                  } in
                  if-Yields i'.shim.hw_requested (λ asked. start_hw-Outcome i0 i' h' refl)
                    (λ plain. yields _ (h', refl)))))

  pub sh_load_content-Yields :
      (path file : Option (List ℕ)) (i : Instance K)
      → IsReady i
      → Yields (Outcome i) (sh_load_content host setup path file i)
  unfolding sh_load_content
  sh_load_content-Yields none file i h = yields _ (h, refl)
  sh_load_content-Yields (some path) file i h =
      if-Yields (is_empty path) (λ e. yields _ (h, refl))
        (λ e.
          option-Yields file (λ missing. yields _ (h, refl))
            (λ rom there.
              load_game_at-Outcome path i (on_shim (λ s. record s { rom = rom }) i)
                (record { complete = h.complete; sound = h.sound }) refl))

  -- A load comes back on every path, and leaves a game loaded if it succeeds; none, and no framebuffer,
  -- if OpenGL cannot be set up; the mark of a loaded game as it was if the core refuses the content; and
  -- the whole instance as it was if there is no path or no file. The instance has all functions that it needs.
  pub sh_load_content-Left :
      (path file : Option (List ℕ)) (i : Instance K)
      → IsReady i
      → (r : RpResult × Instance K) × (sh_load_content host setup path file i ≡ value r)
        × IsReady r.1
        × Left i r.0 r.1
  sh_load_content-Left path file i h =
      let (r, e, o) = Yields-value (sh_load_content-Yields path file i h) in (r, e, o.0, o.1)
