-- ===== src/Shim/Core/Safe.antt =====
-- cores/libretro_shim/LibretroShim.cpp: the life of an instance of the shim, from `sh_create` to
-- `sh_destroy`.
use retro_park.Base.{
  ℕ, Bool, true, false, not, ◌&&◌, ◌≡◌, refl, Option, none, some, List, [], ◌∷◌, if◌then◌else◌,
}
use retro_park.Loader.CoreLoader.{Access, value, ◌>>=◌}
use retro_park.Loader.CoreLoader.Yields.{
  Yields, yields, Yields-bind, Yields-mono, Yields-value, if-Yields, option-Yields,
}
use retro_park.Shim.Options.{Options, is_some, sh_core_option_get, sh_core_option_set}
use retro_park.Shim.Options.Indexed.{IsSound}
use retro_park.Shim.Options.Sound.{option_get-Yields, option_set-IsSound}
use retro_park.Shim.Callbacks.{Host, Shim}
use retro_park.Shim.Core.{
  Retro, Instance, on_shim, make_current, SetUp, set_up, sh_create, sh_get_av_info, sh_load_content,
  sh_run_frame, sh_serialize_size, sh_serialize, sh_unserialize, sh_destroy,
}
use retro_park.Shim.Core.Fits.{
  IsComplete, IsReady, call-Fits, call_fn-Fits, call_if-Fits, has_run, has_set_environment,
  has_set_video_refresh, has_init,
}
use retro_park.Shim.Core.Loads.{sh_load_content-Yields, sh_get_av_info-Fits}

-- The calls that `kAbi` offers on a core. The JSON of the options only reads them.
pub data ShimCall : Type 0 where
  load_content : Option (List ℕ) → Option (List ℕ) → ShimCall
  get_av_info run_frame serialize_size : ShimCall
  serialize : ℕ → ShimCall
  unserialize : List ℕ → ShimCall
  option_get : List ℕ → ShimCall
  option_set : Option (List ℕ) → Option (List ℕ) → ShimCall

module _ {K : Type 0} (host : Host) (setup : SetUp) where
  abbrev drop_result : {R : Type 0} → Access (R × Instance K) → Access (Instance K)
  drop_result a = a >>= λ r. value r.1

  pub perform_call : ShimCall → Instance K → Access (Instance K)
  perform_call (load_content path file) i = drop_result (sh_load_content host setup path file i)
  perform_call get_av_info i = drop_result (sh_get_av_info host i)
  perform_call run_frame i = drop_result (sh_run_frame host i)
  perform_call serialize_size i = drop_result (sh_serialize_size host i)
  perform_call (serialize size) i = drop_result (sh_serialize host size i)
  perform_call (unserialize bytes) i = drop_result (sh_unserialize host bytes i)
  perform_call (option_get k) i =
      sh_core_option_get (some k) i.shim.options >>= λ (r : Option (List ℕ) × Options).
      value (on_shim (λ s. record s { options = r.1 }) i)
  perform_call (option_set k v) i =
      value (on_shim (λ s. record s { options = (sh_core_option_set k v s.options).1 }) i)

  pub perform_calls : List ShimCall → Instance K → Access (Instance K)
  unfolding perform_call
  perform_calls [] i = value i
  perform_calls (c ∷ cs) i = perform_call c i >>= λ (i' : Instance K). perform_calls cs i'

  -- An instance that is made, called and destroyed; or the library is refused.
  pub live : Retro K → K → Shim → List ShimCall → Access (Option (Instance K))
  unfolding perform_calls
  live f k new_shim cs = sh_create host (some (f, k)) new_shim >>= λ (made : Option (Instance K)).
      elim made [
        | none ↦ value none
        | some i ↦ perform_calls cs i >>= λ (i' : Instance K).
            sh_destroy host i' >>= λ (i'' : Instance K). value (some i'')
      ]

  set_up-IsReady : (i : Instance K) → IsReady i → Yields IsReady (set_up host i)
  unfolding set_up
  set_up-IsReady i h =
      let c = h.complete in
      Yields-bind
        (call_fn-Fits host i.retro.set_environment i h (has_set_environment i.retro c.usable))
        (λ r1 k1.
          let c1 = k1.ready.complete in
          Yields-bind
            (call_fn-Fits host r1.1.retro.set_video_refresh r1.1 k1.ready
              (has_set_video_refresh r1.1.retro c1.usable))
            (λ r2 k2.
              Yields-bind
                (call_fn-Fits host r2.1.retro.set_input_poll r2.1 k2.ready
                  k2.ready.complete.input_poll)
                (λ r3 k3.
                  Yields-bind
                    (call_fn-Fits host r3.1.retro.set_input_state r3.1 k3.ready
                      k3.ready.complete.input_state)
                    (λ r4 k4.
                      Yields-bind
                        (call_fn-Fits host r4.1.retro.set_audio_sample r4.1 k4.ready
                          k4.ready.complete.audio_sample)
                        (λ r5 k5.
                          Yields-bind
                            (call_fn-Fits host r5.1.retro.set_audio_sample_batch r5.1 k5.ready
                              k5.ready.complete.audio_sample_batch)
                            (λ r6 k6.
                              Yields-bind
                                (call_fn-Fits host r6.1.retro.init r6.1 k6.ready
                                  (has_init r6.1.retro k6.ready.complete.usable))
                                (λ r7 k7. yields _ k7.ready)))))))

  made_current-IsReady : (i : Instance K) → IsReady i → IsReady (make_current i)
  unfolding make_current
  made_current-IsReady i h = record { complete = h.complete; sound = h.sound }

  current_if-IsReady :
      (b : Bool) (i : Instance K) → IsReady i → IsReady (if b then make_current i else i)
  current_if-IsReady true i h = made_current-IsReady i h
  current_if-IsReady false i h = h

  sh_run_frame-Yields :
      (i : Instance K) → IsReady i → Yields (λ r. IsReady r.1) (sh_run_frame host i)
  unfolding sh_run_frame
  sh_run_frame-Yields i h =
      let i' = if is_some i.shim.hw then make_current i else i in
      let h' : IsReady i' = current_if-IsReady (is_some i.shim.hw) i h in
      if-Yields (not i.shim.game_loaded) (λ idle. yields _ h)
        (λ on.
          Yields-mono (call_fn-Fits host i'.retro.run i' h' (has_run i'.retro h'.complete.usable))
            (λ r k. k.ready))

  sh_destroy-Yields : (i : Instance K) → IsReady i → Yields IsReady (sh_destroy host i)
  unfolding sh_destroy
  sh_destroy-Yields i h =
      let i' = if is_some i.shim.hw then make_current i else i in
      let h' : IsReady i' = current_if-IsReady (is_some i.shim.hw) i h in
      let destroys = is_some i.shim.hw && i.shim.hw_cb.has_context_destroy in
      let last = if destroys then some i'.retro.context_destroy else none in
      Yields-bind (call_if-Fits host last i' h') (λ r2 k2.
        let unload = if r2.1.shim.game_loaded then r2.1.retro.unload_game else none in
        Yields-bind (call_if-Fits host unload r2.1 k2.ready) (λ r3 k3.
          Yields-bind (call_if-Fits host r3.1.retro.deinit r3.1 k3.ready)
            (λ r4 k4. yields _ k4.ready)))

  perform_call-Yields :
      (c : ShimCall) (i : Instance K) → IsReady i → Yields IsReady (perform_call c i)
  unfolding perform_call sh_serialize_size sh_serialize sh_unserialize
  perform_call-Yields (load_content path file) i h =
      Yields-bind (sh_load_content-Yields host setup path file i h) (λ r o. yields _ o.0)
  perform_call-Yields get_av_info i h =
      Yields-bind (sh_get_av_info-Fits host setup i h) (λ r k. yields _ k.ready)
  perform_call-Yields run_frame i h = Yields-bind (sh_run_frame-Yields i h) (λ r k. yields _ k)
  perform_call-Yields serialize_size i h =
      Yields-bind {P = λ r. IsReady r.1}
        (option-Yields i.retro.serialize_size (λ missing. yields _ h)
          (λ f e. Yields-mono (call-Fits host f i h) (λ r k. k.ready)))
        (λ r k. yields _ k)
  perform_call-Yields (serialize size) i h =
      Yields-bind {P = λ r. IsReady r.1}
        (option-Yields i.retro.serialize (λ missing. yields _ h)
          (λ f e. Yields-bind (call-Fits host (λ c. f c size) i h) (λ r k. yields _ k.ready)))
        (λ r k. yields _ k)
  perform_call-Yields (unserialize bytes) i h =
      Yields-bind {P = λ r. IsReady r.1}
        (option-Yields i.retro.unserialize (λ missing. yields _ h)
          (λ f e. Yields-bind (call-Fits host (λ c. f c bytes) i h) (λ r k. yields _ k.ready)))
        (λ r k. yields _ k)
  perform_call-Yields (option_get k) i h =
      Yields-bind (option_get-Yields k i.shim.options h.sound)
        (λ r s. yields _ (record { complete = h.complete; sound = s }))
  perform_call-Yields (option_set k v) i h =
      yields _
        (record { complete = h.complete; sound = option_set-IsSound k v i.shim.options h.sound })

  perform_calls-Yields :
      (cs : List ShimCall) (i : Instance K) → IsReady i → Yields IsReady (perform_calls cs i)
  unfolding perform_calls
  perform_calls-Yields [] i h = yields _ h
  perform_calls-Yields (c ∷ cs) i h =
      Yields-bind (perform_call-Yields c i h) (λ i' h'. perform_calls-Yields cs i' h')

  -- An instance on a library with all functions that `sh_create` looks for and the four that it calls
  -- without a look (retro_set_input_poll, retro_set_input_state, retro_set_audio_sample,
  -- retro_set_audio_sample_batch) is made, called in any way and destroyed without a call through a null
  -- pointer, whatever the functions of the library call of the shim in turn. It starts from a sound table
  -- of options.
  pub live-safe :
      (f : Retro K) (k : K) (new_shim : Shim) (cs : List ShimCall)
      → IsComplete f
      → IsSound new_shim.options
      → (i : Instance K) × (live f k new_shim cs ≡ value (some i))
  unfolding live sh_create
  live-safe f k new_shim cs c s =
      let i0 : Instance K = record { retro = f; core = k; shim = new_shim } in
      let (i1, e1, h1) = Yields-value (set_up-IsReady i0 (record { complete = c; sound = s })) in
      let (i2, e2, h2) = Yields-value (perform_calls-Yields cs i1 h1) in
      let (i3, e3, h3) = Yields-value (sh_destroy-Yields i2 h2) in
      (i3, rw (c.usable, e1, e2, e3) refl)
