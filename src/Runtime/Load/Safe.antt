-- ===== src/Runtime/Load/Safe.antt =====
-- What the loads, resizes and reboots of src/runtime/Runtime.cpp leave behind, on every path.
use retro_park.Base.{
  ◌≡◌, refl, sym, ap, ◌∙◌, ℕ, Bool, true, false, not, Option, none, some, List, [], ◌++◌,
  if◌then◌else◌, Bool-cases, inl, inr,
}
use retro_park.Base.Bytes.{codes}
use retro_park.Abi.{RpResult, is_ok, CoreType}
use retro_park.Loader.CoreLoader.{
  LoaderState, CoreAbi, Access, is_created, is_unloaded, load, create,
}
use retro_park.Loader.CoreLoader.Safe.{IsSound}
use retro_park.Loader.CoreLoader.Yields.{
  Yields, yields, Yields-bind, Yields-mono, if-Yields, by_result, load-Yields, create-Yields,
}
use retro_park.Loader.Manifest.{Json, CoreManifest, Parsed, accepted, rejected, parse_manifest}
use retro_park.Runtime.State.{Runtime, Platform, AvInfo, CoreInfo, SurfaceSet, on_loader}
use retro_park.Runtime.Ready.{has, IsReady, Ended, on_loader-Yields}
use retro_park.Runtime.Boot.Safe.{clear-Emptied, drop_module-Ended, finish_load_core-Ended}
use retro_park.Runtime.Load.{
  matches_api, boot_module, open_module, open_manifest, open_file, match_static, open_static,
  load_core, load_static_core,
}

module _ {K B Au : Type 0} where
  -- On the way to a core: the module is there, and the loader is where the last step took it.
  abbrev pub Half : LoaderState → LoaderState → RpResult × Runtime K B Au → Type 0
  Half done failed (x, r) =
      IsSound r.loader
      × (r.loader.state ≡ (if is_ok x then done else failed))
      × (has r.backend ≡ true)
      × (has r.module_ ≡ true)

  pub load-Half :
      (m : Option (Option (Option (CoreAbi K SurfaceSet AvInfo)))) (r : Runtime K B Au)
      → IsSound r.loader
      → is_unloaded r.loader.state ≡ true
      → has r.backend ≡ true
      → has r.module_ ≡ true
      → Yields
          (λ (x, r').
            Half LoaderState.loaded LoaderState.unloaded (x, r')
            × (r'.core_loaded ≡ r.core_loaded)
            × (r'.init_ok ≡ r.init_ok))
          (on_loader (load m) r)
  load-Half m r s u b k =
      on_loader-Yields (load m) r (load-Yields m r.loader s u)
        (λ x l (sound, at). ((sound, at, b, k), refl, refl))

  pub create-Half :
      (r : Runtime K B Au)
      → IsSound r.loader
      → r.loader.state ≡ LoaderState.loaded
      → has r.backend ≡ true
      → has r.module_ ≡ true
      → Yields
          (λ (x, r').
            Half LoaderState.created LoaderState.loaded (x, r')
            × (r'.core_loaded ≡ r.core_loaded)
            × (r'.init_ok ≡ r.init_ok))
          (on_loader create r)
  create-Half r s at b k =
      on_loader-Yields create r (create-Yields r.loader s at)
        (λ x l (sound, to). ((sound, to, b, k), refl, refl))

  -- An empty runtime may lose its module.
  without_module-Ended :
      (x : RpResult) (r : Runtime K B Au)
      → is_ok x ≡ false
      → IsSound r.loader
      → is_unloaded r.loader.state ≡ true
      → r.core_loaded ≡ false
      → has r.backend ≡ true
      → Ended (x, record r { module_ = none })
  without_module-Ended x r bad s u off b = (
    record {
      sound = s;
      in_step = cc (off, u);
      started = λ h. b;
      backed = λ h. b;
      kept = λ on. cc (on, off);
    },
    off ∙ sym bad,
  )

  -- A runtime whose backend did not start refuses to load and stays as it is. Any other ends with a core
  -- exactly when the load succeeded.
  abbrev pub Attempted : Runtime K B Au → RpResult × Runtime K B Au → Type 0
  Attempted r (x, r') =
      IsReady r'
      × (r.init_ok ≡ true → r'.core_loaded ≡ is_ok x)
      × (r.init_ok ≡ false → (x ≡ RpResult.device) × (r' ≡ r))

module _ {K B Au : Type 0} (p : Platform K B Au) where
  boot_module-Ended :
      (core_type : CoreType) (r : Runtime K B Au)
      → IsSound r.loader
      → r.loader.state ≡ LoaderState.loaded
      → r.core_loaded ≡ false
      → has r.backend ≡ true
      → has r.module_ ≡ true
      → Yields Ended (boot_module p core_type r)
  unfolding boot_module
  boot_module-Ended core_type r s at off b k =
      Yields-bind (create-Half r s at b k) (λ (res, r1) ((s1, to, b1, k1), same, kept).
        by_result res (λ bad. drop_module-Ended p RpResult.internal r1 refl s1 (same ∙ off) b1)
          (λ good.
            finish_load_core-Ended p core_type r1 s1
              (let e : r1.loader.state ≡ LoaderState.created = cc (to, good) in ap is_created e) b1
              k1))

  open_module-Ended :
      (m : CoreManifest) (found : Option (Option (Option (CoreAbi K SurfaceSet AvInfo))))
      (r : Runtime K B Au)
      → IsReady r
      → r.core_loaded ≡ false
      → has r.backend ≡ true
      → Yields Ended (open_module p m found r)
  unfolding open_module
  open_module-Ended m none r i off b =
      if-Yields (not (matches_api p m.core_type m.graphics_api r)) (λ h. yields _ (i, off))
        (λ h. yields _ (i, off))
  open_module-Ended m (some resolved) r i off b =
      if-Yields (not (matches_api p m.core_type m.graphics_api r)) (λ h. yields _ (i, off))
        (λ h.
          Yields-bind
            (load-Half (some resolved) (record r { module_ = some resolved }) i.sound
              (cc (off, i.in_step)) b refl)
            (λ (res, r1) ((s1, to, b1, k1), same, kept).
              by_result res
                (λ bad. yields _ (
                  without_module-Ended RpResult.abi_mismatch r1 refl s1
                    (let e : r1.loader.state ≡ LoaderState.unloaded = cc (to, bad) in
                      ap is_unloaded e)
                    (same ∙ off) b1))
                (λ good. boot_module-Ended m.core_type r1 s1 (cc (to, good)) (same ∙ off) b1 k1)))

  attempt :
      (r : Runtime K B Au) {m : Access (RpResult × Runtime K B Au)}
      → IsReady r
      → (r.init_ok ≡ true → Yields Ended m)
      → Yields (Attempted r) (if not r.init_ok then Access.value (RpResult.device, r) else m)
  attempt r i works =
      if-Yields (not r.init_ok)
        (λ down. yields _ (i, (λ up. cc (ap not up, down)), (λ h. (refl, refl))))
        (λ up. elim (Bool-cases r.init_ok) [
          | inl yes_up ↦
              Yields-mono (works yes_up) (λ (x, r') (i', e). (i', (λ h. e), (λ h. cc (h, yes_up))))
          | inr down ↦ cc (ap not down, up)
        ])

  -- After a load that reached its end, the runtime may note what it loaded.
  noted :
      (c : Bool) (res : RpResult) (a b : Runtime K B Au)
      → (Ended (res, b) → Ended (res, a))
      → Ended (res, b)
      → Ended (res, if c then a else b)
  noted true res a b same e = same e
  noted false res a b same e = e

  open_manifest-Ended :
      (parsed : Parsed CoreManifest)
      (modules : List ℕ → Option (Option (Option (CoreAbi K SurfaceSet AvInfo)))) (dir : List ℕ)
      (r : Runtime K B Au)
      → IsReady r
      → r.core_loaded ≡ false
      → has r.backend ≡ true
      → Yields Ended (open_manifest p parsed modules dir r)
  unfolding open_manifest
  open_manifest-Ended (rejected e) modules dir r i off b = yields _ (i, off)
  open_manifest-Ended (accepted m) modules dir r i off b =
      Yields-bind (open_module-Ended m (modules (dir ++ codes "/" ++ m.entry)) r i off b)
        (λ (res, r') e.
          yields _
            (noted (is_ok res) res (record r' { core_dir = dir; core_id = [] }) r' (λ e'. e') e))

  open_file-Ended :
      {J : Type 0} (json : Json J) (text : Option (List ℕ))
      (modules : List ℕ → Option (Option (Option (CoreAbi K SurfaceSet AvInfo)))) (dir : List ℕ)
      (r : Runtime K B Au)
      → IsReady r
      → r.core_loaded ≡ false
      → has r.backend ≡ true
      → Yields Ended (open_file p json text modules dir r)
  unfolding open_file
  open_file-Ended json none modules dir r i off b = yields _ (i, off)
  open_file-Ended json (some t) modules dir r i off b =
      open_manifest-Ended (parse_manifest json t) modules dir r i off b

  -- `load_core` of a runtime in step, whatever stands in core.json and whatever the module and the core
  -- do, comes back and leaves the runtime in step. If the backend has started, a core is loaded
  -- afterwards exactly when the call succeeded: on every error the core that was there is gone, too. If
  -- it has not, the call is refused and changes nothing.
  pub load_core-Attempted :
      {J : Type 0} (json : Json J) (text : Option (List ℕ))
      (modules : List ℕ → Option (Option (Option (CoreAbi K SurfaceSet AvInfo)))) (dir : List ℕ)
      (r : Runtime K B Au)
      → IsReady r
      → Yields (Attempted r) (load_core p json text modules dir r)
  unfolding load_core
  load_core-Attempted json text modules dir r i = attempt r i (λ up.
      Yields-bind (clear-Emptied p r i) (λ (x, r1) (i1, off, same).
        open_file-Ended json text modules dir r1 i1 off (i1.started (same ∙ up))))

  match_static-Ended :
      (info : Option CoreInfo) (id : List ℕ) (r : Runtime K B Au)
      → IsSound r.loader
      → r.loader.state ≡ LoaderState.loaded
      → r.core_loaded ≡ false
      → has r.backend ≡ true
      → has r.module_ ≡ true
      → Yields Ended (match_static p info id r)
  unfolding match_static
  match_static-Ended none id r s at off b k = drop_module-Ended p RpResult.internal r refl s off b
  match_static-Ended (some j) id r s at off b k =
      if-Yields (not (matches_api p j.core_type j.graphics_api r))
        (λ h. drop_module-Ended p RpResult.unsupported r refl s off b)
        (λ h. Yields-bind (boot_module-Ended j.core_type r s at off b k) (λ (res, r') e.
          yields _
            (noted (is_ok res) res (record r' { core_id = id; core_dir = [] }) r' (λ e'. e') e)))

  open_static-Ended :
      (getter : Option (Option (CoreAbi K SurfaceSet AvInfo))) (info : Option CoreInfo)
      (id : List ℕ) (r : Runtime K B Au)
      → IsReady r
      → r.core_loaded ≡ false
      → has r.backend ≡ true
      → Yields Ended (open_static p getter info id r)
  unfolding open_static
  open_static-Ended none info id r i off b = yields _ (i, off)
  open_static-Ended (some abi) info id r i off b =
      Yields-bind
        (load-Half (some (some abi)) (record r { module_ = some (some abi) }) i.sound
          (cc (off, i.in_step)) b refl)
        (λ (res, r1) ((s1, to, b1, k1), same, kept).
          by_result res
            (λ bad. yields _ (
              without_module-Ended RpResult.abi_mismatch r1 refl s1
                (let e : r1.loader.state ≡ LoaderState.unloaded = cc (to, bad) in ap is_unloaded e)
                (same ∙ off) b1))
            (λ good. match_static-Ended info id r1 s1 (cc (to, good)) (same ∙ off) b1 k1))

  -- The same of `load_static_core`, whatever the registry has under the id and whatever the core says of
  -- itself.
  pub load_static_core-Attempted :
      (getter : Option (Option (CoreAbi K SurfaceSet AvInfo))) (info : Option CoreInfo)
      (id : List ℕ) (r : Runtime K B Au)
      → IsReady r
      → Yields (Attempted r) (load_static_core p getter info id r)
  unfolding load_static_core
  load_static_core-Attempted getter info id r i = attempt r i (λ up.
      Yields-bind (clear-Emptied p r i) (λ (x, r1) (i1, off, same).
        open_static-Ended getter info id r1 i1 off (i1.started (same ∙ up))))
