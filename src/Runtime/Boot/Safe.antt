-- ===== src/Runtime/Boot/Safe.antt =====
-- What src/runtime/Runtime.cpp leaves behind when it sets up surfaces, finishes a load, or takes a core
-- down: the invariant, and whether a core is loaded.
use retro_park.Base.{
  ◌≡◌, refl, sym, ap, ◌∙◌, true, false, not, ◌&&◌, ◌||◌, Option, none, some, Option-cases,
  Bool-cases, inl, inr,
}
use retro_park.Abi.{RpResult, is_ok, CoreType}
use retro_park.Loader.CoreLoader.{
  LoaderState, is_created, is_unloaded, is_started, is_idle, start, stop, destroy, set_surfaces,
  get_av_info,
}
use retro_park.Loader.CoreLoader.Safe.{IsSound}
use retro_park.Loader.CoreLoader.Yields.{
  Yields, yields, Yields-bind, Yields-mono, if-Yields, start-Yields, stop-Yields, destroy-Yields,
  set_surfaces-Yields, get_av_info-Yields,
}
use retro_park.Runtime.State.{Runtime, Platform, AvInfo, on_loader}
use retro_park.Runtime.Ready.{
  has, IsReady, IsRunning, Stays, Ended, Emptied, on_loader-Yields, Passed-IsReady, Kept-IsReady,
}
use retro_park.Runtime.Boot.{
  is_presenting, is_bad_av_info, no_av_info, open_audio, take_av_info, rebuild_surfaces,
  unload_core, give_up, finish_driven, finish_presenting, finish_load_core, clear, drop_module,
}

-- What `loader_.destroy()` leaves of a runtime `r`
pub record Destroyed {K B Au : Type 0} (r r' : Runtime K B Au) : Type 0 where
  pub sound : IsSound r'.loader
  pub gone : r'.loader.state ≡ LoaderState.unloaded
  pub same_init : r'.init_ok ≡ r.init_ok
  pub same_backend : has r'.backend ≡ has r.backend
  pub same_loaded : r'.core_loaded ≡ r.core_loaded
  pub same_module : has r'.module_ ≡ has r.module_

pub destroy-Destroyed :
    {K B Au : Type 0} (r : Runtime K B Au)
    → IsSound r.loader
    → Yields (λ ((x, r') : Option K × Runtime K B Au). Destroyed r r') (on_loader destroy r)
destroy-Destroyed r s = on_loader-Yields destroy r (destroy-Yields r.loader s) (λ x l (sound, gone).
    record {
      sound = sound;
      gone = gone;
      same_init = refl;
      same_backend = refl;
      same_loaded = refl;
      same_module = refl;
    })

module _ {K B Au : Type 0} (p : Platform K B Au) where
  pub unload_core-Emptied :
      (r : Runtime K B Au)
      → IsSound r.loader
      → (r.init_ok ≡ true → has r.backend ≡ true)
      → Yields (Emptied r.init_ok) (unload_core p r)
  unfolding unload_core
  unload_core-Emptied r s b =
      if-Yields (not r.core_loaded && is_unloaded r.loader.state)
        (λ h.
          let off : r.core_loaded ≡ false = elim (Bool-cases r.core_loaded) [
            | inl on ↦ let e : (not true && is_unloaded r.loader.state) ≡ true = cc (h, on) in cc e
            | inr off ↦ off
          ] in
          let empty : is_unloaded r.loader.state ≡ true = cc (h, off) in
          yields _ (
            record {
              sound = s;
              in_step = cc (off, empty);
              started = b;
              backed = λ on. cc (on, off);
              kept = λ on. cc (on, off);
            },
            off,
            refl,
          ))
        (λ h. Yields-bind (destroy-Destroyed r s) (λ (x, r') d. yields _ (
          record {
            sound = d.sound;
            in_step = ap is_unloaded d.gone;
            started = λ on. d.same_backend ∙ b (sym d.same_init ∙ on);
            backed = λ on. cc on;
            kept = λ on. cc on;
          },
          refl,
          d.same_init,
        )))

  pub give_up-Ended :
      (res : RpResult) (r : Runtime K B Au)
      → is_ok res ≡ false
      → IsSound r.loader
      → (r.init_ok ≡ true → has r.backend ≡ true)
      → Yields Ended (give_up p res r)
  give_up-Ended res r bad s b =
      Yields-bind (unload_core-Emptied r s b)
        (λ (x, r') (i, off, same). yields _ (i, off ∙ sym bad))

  -- The same where the core was up until then
  pub fail-Ended :
      (res : RpResult) (r : Runtime K B Au)
      → not (is_ok res) ≡ true
      → IsReady r
      → Yields Ended (give_up p res r)
  fail-Ended res r bad i =
      give_up-Ended res r
        (elim (Bool-cases (is_ok res)) [ inl good ↦ cc (bad, good) | inr bad' ↦ bad' ]) i.sound
        i.started

  pub clear-Emptied : (r : Runtime K B Au) → IsReady r → Yields (Emptied r.init_ok) (clear p r)
  unfolding clear
  clear-Emptied r i =
      if-Yields (r.core_loaded || not (is_unloaded r.loader.state))
        (λ h. unload_core-Emptied r i.sound i.started)
        (λ h. elim (Bool-cases r.core_loaded) [
          | inl on ↦ let e : (true || not (is_unloaded r.loader.state)) ≡ false = cc (h, on) in cc e
          | inr off ↦ yields _ (i, off, refl)
        ])

  pub drop_module-Ended :
      (res : RpResult) (r : Runtime K B Au)
      → is_ok res ≡ false
      → IsSound r.loader
      → r.core_loaded ≡ false
      → has r.backend ≡ true
      → Yields Ended (drop_module p res r)
  drop_module-Ended res r bad s off b = Yields-bind (destroy-Destroyed r s) (λ (x, r') d. yields _ (
    record {
      sound = d.sound;
      in_step = cc (d.same_loaded, off, ap is_unloaded d.gone);
      started = λ on. d.same_backend ∙ b;
      backed = λ on. d.same_backend ∙ b;
      kept = λ on. cc (on, d.same_loaded, off);
    },
    d.same_loaded ∙ off ∙ sym bad,
  ))

  with_backend-IsReady :
      (r : Runtime K B Au) (b : B) → IsReady r → IsReady (record r { backend = some b })
  with_backend-IsReady r b i = record {
    sound = i.sound;
    in_step = i.in_step;
    started = λ h. refl;
    backed = λ h. refl;
    kept = i.kept;
  }

  pub rebuild_surfaces-IsReady :
      (r : Runtime K B Au) → IsRunning r → Yields (Stays true) (rebuild_surfaces p r)
  unfolding rebuild_surfaces
  rebuild_surfaces-IsReady r (i, on) =
      Yields-bind {P = Stays true}
        (if-Yields (is_started r.loader.state)
          (λ h. Kept-IsReady stop r (i, on) (stop-Yields r.loader i.sound)) (λ h. yields _ (i, on)))
        (λ (x, r1) (i1, on1). elim (Option-cases r1.backend) [
          | inl missing ↦ cc (i1.backed on1, ap has missing)
          | inr (b, e) ↦ rw e (
              let made = p.allocate_surfaces b r1.ring.slot_count r1.width r1.height in
              let i2 : IsReady (record r1 { backend = some made.1 }) =
                with_backend-IsReady r1 made.1 i1 in
              if-Yields (not (is_ok made.0.0)) (λ h. yields _ (i2, on1))
                (λ h.
                  if-Yields (is_presenting r1.core_type && is_idle r1.loader.state)
                    (λ h'.
                      Yields-mono
                        (Passed-IsReady (set_surfaces _) _ i2
                          (set_surfaces-Yields _ r1.loader i2.sound))
                        (λ (x, r') (i', same). (i', same ∙ on1)))
                    (λ h'. yields _ (i2, on1))))
        ])

  finish_driven-Ended : (r : Runtime K B Au) → IsRunning r → Yields Ended (finish_driven p r)
  unfolding finish_driven open_audio take_av_info
  finish_driven-Ended r (i, on) =
      if-Yields r.requires_content (λ h. yields _ (i, on))
        (λ h.
          Yields-bind (Passed-IsReady get_av_info r i (get_av_info-Yields r.loader i.sound))
            (λ ((res, told), r1) (i1, same).
              let av : AvInfo = elim told [ none ↦ no_av_info | some av ↦ av ] in
              if-Yields (not (is_ok res)) (λ bad. fail-Ended res r1 bad i1)
                (λ good.
                  if-Yields (is_bad_av_info p av)
                    (λ bad. fail-Ended RpResult.unsupported r1 refl i1)
                    (λ fine. yields _ (i1, same ∙ on)))))

  finish_presenting-Ended :
      (r : Runtime K B Au) → IsRunning r → Yields Ended (finish_presenting p r)
  unfolding finish_presenting
  finish_presenting-Ended r (i, on) =
      Yields-bind (rebuild_surfaces-IsReady r (i, on)) (λ (res, r1) (i1, on1).
        if-Yields (not (is_ok res)) (λ bad. fail-Ended res r1 bad i1)
          (λ good.
            if-Yields r1.requires_content (λ h. yields _ (i1, on1))
              (λ h.
                Yields-bind (Kept-IsReady start r1 (i1, on1) (start-Yields r1.loader i1.sound))
                  (λ (res', r2) (i2, on2). elim (Bool-cases (is_ok res')) [
                    | inl good' ↦ rw good' (yields _ (i2, on2))
                    | inr bad' ↦ rw bad' (give_up-Ended res' r2 bad' i2.sound i2.started)
                  ]))))

  -- From a loader that holds a core, a module and a backend
  pub finish_load_core-Ended :
      (core_type : CoreType) (r : Runtime K B Au)
      → IsSound r.loader
      → is_created r.loader.state ≡ true
      → has r.backend ≡ true
      → has r.module_ ≡ true
      → Yields Ended (finish_load_core p core_type r)
  unfolding finish_load_core
  finish_load_core-Ended CoreType.presenting r s c b m =
      finish_presenting-Ended _
        (record { sound = s; in_step = c; started = λ h. b; backed = λ h. b; kept = λ h. m }, refl)
  finish_load_core-Ended CoreType.driven r s c b m =
      finish_driven-Ended _
        (record { sound = s; in_step = c; started = λ h. b; backed = λ h. b; kept = λ h. m }, refl)
