-- ===== src/Runtime/Load/Content.antt =====
-- The same for content, new surfaces and reboots.
use retro_park.Base.{
  ◌≡◌, refl, sym, ap, ◌∙◌, ℕ, Bool, true, false, not, ◌&&◌, Option, none, some, List, inl, inr,
  Bool-cases,
}
use retro_park.Abi.{RpResult, is_ok}
use retro_park.Loader.CoreLoader
use retro_park.Loader.CoreLoader.{
  LoaderState, Access, is_created, is_unloaded, is_started, is_idle, load, create, start,
  get_av_info,
}
use retro_park.Loader.CoreLoader.Yields.{
  Yields, yields, Yields-bind, Yields-mono, if-Yields, by_result, option-Yields, start-Yields,
  get_av_info-Yields, load_content-Yields,
}
use retro_park.Runtime.State.{Runtime, Platform, AvInfo}
use retro_park.Runtime.Ready.{has, IsReady, IsRunning, Stays, Ended, Passed-IsReady, Kept-IsReady}
use retro_park.Runtime.Boot.{is_presenting, is_bad_av_info, no_av_info, open_audio, take_av_info}
use retro_park.Runtime.Boot.Safe.{
  give_up-Ended, finish_load_core-Ended, destroy-Destroyed, rebuild_surfaces-IsReady,
}
use retro_park.Runtime.Load.{
  open_sound, start_content, content_presenting, content_driven, load_content, resize_core, reload,
  resize, forget, reboot, reset,
}
use retro_park.Runtime.Load.Safe.{load-Half, create-Half}

module _ {K B Au : Type 0} (p : Platform K B Au) where
  open_sound-Stays :
      (told : RpResult) (av : Option AvInfo) (r : Runtime K B Au)
      → IsRunning r
      → Stays true (RpResult.ok, open_sound p told av r)
  unfolding open_sound open_audio
  open_sound-Stays told none r h = h
  open_sound-Stays told (some a) r h = elim (Bool-cases (is_ok told && a.has_sound)) [
    | inl sounds ↦ rw sounds h
    | inr silent ↦ rw silent h
  ]

  start_content-Stays : (r : Runtime K B Au) → IsRunning r → Yields (Stays true) (start_content p r)
  unfolding start_content
  start_content-Stays r (i, on) =
      if-Yields (is_started r.loader.state) (λ h. yields _ (i, on))
        (λ h. Kept-IsReady start r (i, on) (start-Yields r.loader i.sound))

  content_presenting-Stays :
      (path : List ℕ) (r : Runtime K B Au)
      → IsRunning r
      → Yields (Stays true) (content_presenting p path r)
  unfolding content_presenting
  content_presenting-Stays path r (i, on) =
      if-Yields (not r.requires_content) (λ h. yields _ (i, on))
        (λ h.
          Yields-bind
            (Passed-IsReady (CoreLoader.load_content path) r i
              (load_content-Yields path r.loader i.sound))
            (λ (res, r1) (i1, same).
              if-Yields (not (is_ok res)) (λ bad. yields _ (i1, same ∙ on))
                (λ good.
                  Yields-bind
                    (start_content-Stays (record r1 { content_loaded = true }) (i1, same ∙ on))
                    (λ (res', r2) (i2, on2).
                      if-Yields (not (is_ok res')) (λ bad'. yields _ (i2, on2))
                        (λ good'.
                          Yields-bind
                            (Passed-IsReady get_av_info r2 i2
                              (get_av_info-Yields r2.loader i2.sound))
                            (λ ((told, av), r3) (i3, same3).
                              yields _ (open_sound-Stays told av r3 (i3, same3 ∙ on2))))))))

  content_driven-Stays :
      (path : List ℕ) (r : Runtime K B Au)
      → IsRunning r
      → Yields (Stays true) (content_driven p path r)
  unfolding content_driven open_audio take_av_info
  content_driven-Stays path r (i, on) =
      Yields-bind
        (Passed-IsReady (CoreLoader.load_content path) r i
          (load_content-Yields path r.loader i.sound))
        (λ (res, r1) (i1, same).
          if-Yields (not (is_ok res)) (λ bad. yields _ (i1, same ∙ on))
            (λ good.
              Yields-bind (Passed-IsReady get_av_info r1 i1 (get_av_info-Yields r1.loader i1.sound))
                (λ ((told, av), r2) (i2, same2).
                  let a : AvInfo = elim av [ none ↦ no_av_info | some a ↦ a ] in
                  if-Yields (not (is_ok told)) (λ bad'. yields _ (i2, same2 ∙ same ∙ on))
                    (λ good'.
                      if-Yields (is_bad_av_info p a) (λ bad'. yields _ (i2, same2 ∙ same ∙ on))
                        (λ fine. yields _ (i2, same2 ∙ same ∙ on))))))

  -- Content or not, what is loaded stays loaded.
  pub load_content-IsReady :
      (path : Option (List ℕ)) (r : Runtime K B Au)
      → IsReady r
      → Yields (Stays r.core_loaded) (load_content p path r)
  unfolding load_content
  load_content-IsReady path r i = elim (Bool-cases r.core_loaded) [
    | inr off ↦ if-Yields (not r.core_loaded) (λ h. yields _ (i, refl)) (λ h. cc (ap not off, h))
    | inl on ↦
        if-Yields (not r.core_loaded) (λ h. yields _ (i, refl))
          (λ h.
            if-Yields (is_presenting r.core_type)
              (λ h'.
                Yields-mono (content_presenting-Stays _ _ (i, on))
                  (λ (x, r') (i', e). (i', e ∙ sym on)))
              (λ h'.
                Yields-mono (content_driven-Stays _ _ (i, on))
                  (λ (x, r') (i', e). (i', e ∙ sym on))))
  ]

  resize_core-Stays : (r : Runtime K B Au) → IsRunning r → Yields (Stays true) (resize_core p r)
  unfolding resize_core
  resize_core-Stays r (i, on) =
      if-Yields (not r.init_ok) (λ h. yields _ (i, on))
        (λ h. Yields-bind (rebuild_surfaces-IsReady p r (i, on)) (λ (res, r1) (i1, on1).
          if-Yields (not (is_ok res)) (λ bad. yields _ (i1, on1))
            (λ good.
              if-Yields (is_presenting r1.core_type && is_idle r1.loader.state)
                (λ again. Kept-IsReady start r1 (i1, on1) (start-Yields r1.loader i1.sound))
                (λ not_again. yields _ (i1, on1)))))

  pub resize-IsReady :
      (w h : ℕ) (r : Runtime K B Au) → IsReady r → Yields (Stays r.core_loaded) (resize p w h r)
  unfolding resize
  resize-IsReady w h r i =
      option-Yields r.backend (λ missing. yields _ (i, refl))
        (λ b there.
          if-Yields (not r.core_loaded)
            (λ off. yields _ (
              record {
                sound = i.sound;
                in_step = i.in_step;
                started = λ e. refl;
                backed = λ e. refl;
                kept = i.kept;
              },
              refl,
            ))
            (λ on. elim (Bool-cases r.core_loaded) [
              | inl up ↦
                  Yields-mono (resize_core-Stays _ (i, up)) (λ (x, r') (i', e). (i', e ∙ sym up))
              | inr down ↦ cc (ap not down, on)
            ]))

  reboot-Ended : (r : Runtime K B Au) → IsRunning r → Yields Ended (reboot p r)
  unfolding reboot
  reboot-Ended r (i, on) = Yields-bind (destroy-Destroyed r i.sound) (λ (x, r1) d.
      let b1 : has r1.backend ≡ true = d.same_backend ∙ i.backed on in
      let k1 : has r1.module_ ≡ true = d.same_module ∙ i.kept on in
      Yields-bind (load-Half r1.module_ r1 d.sound (ap is_unloaded d.gone) b1 k1)
        (λ (res, r2) ((s2, to2, b2, k2), same, kept).
          by_result res (λ bad. give_up-Ended p RpResult.internal r2 refl s2 (λ up. b2))
            (λ good.
              Yields-bind (create-Half r2 s2 (cc (to2, good)) b2 k2)
                (λ (res', r3) ((s3, to3, b3, k3), same', kept').
                  by_result res' (λ bad. give_up-Ended p RpResult.internal r3 refl s3 (λ up. b3))
                    (λ good'.
                      finish_load_core-Ended p r3.core_type r3 s3
                        (let e : r3.loader.state ≡ LoaderState.created = cc (to3, good') in
                          ap is_created e)
                        b3 k3)))))

  reload-Stays :
      (had : Bool) (path : List ℕ) (r : Runtime K B Au)
      → IsReady r
      → Yields (Stays r.core_loaded) (reload p had path r)
  unfolding reload
  reload-Stays true path r i = load_content-IsReady (some path) (record r { content_path = path }) i
  reload-Stays false path r i = yields _ (i, refl)

  -- A reboot of a runtime in step, with or without content, comes back and leaves it in step. If it
  -- succeeds, a core is loaded exactly if one was before.
  pub reset-IsReady :
      (r : Runtime K B Au)
      → IsReady r
      → Yields
          (λ (x, r'). IsReady r' × (is_ok x ≡ true → r'.core_loaded ≡ r.core_loaded))
          (reset p r)
  unfolding reset forget
  reset-IsReady r i = elim (Bool-cases r.core_loaded) [
    | inr off ↦
        if-Yields (not r.core_loaded) (λ h. yields _ (i, λ good. refl)) (λ h. cc (ap not off, h))
    | inl on ↦
        if-Yields (not r.core_loaded) (λ h. yields _ (i, λ good. refl))
          (λ h. Yields-bind (reboot-Ended (forget p r) (i, on)) (λ (res, r1) (i1, e).
            by_result res (λ bad. yields _ (i1, λ good. e ∙ good ∙ sym on))
              (λ good.
                Yields-mono (reload-Stays r.content_loaded r.content_path r1 i1)
                  (λ (x, r') (i', e'). (i', λ good'. e' ∙ e ∙ good ∙ sym on)))))
  ]
