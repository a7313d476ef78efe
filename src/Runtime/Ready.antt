-- ===== src/Runtime/Ready.antt =====
-- The invariant of src/runtime/Runtime.h between two calls, and how a call of the loader keeps it.
use retro_park.Base.{◌≡◌, refl, ap, ◌∙◌, Bool, true, false, Option, none, some, if◌then◌else◌}
use retro_park.Abi.{RpResult, is_ok}
use retro_park.Loader.CoreLoader.{Loader, CoreAbi, Access, is_created, is_unloaded}
use retro_park.Loader.CoreLoader.Safe.{IsSound}
use retro_park.Loader.CoreLoader.Yields.{Yields, yields, Yields-bind, Passed, Kept}
use retro_park.Runtime.State.{Runtime, SurfaceSet, AvInfo, on_loader}

abbrev pub has : {A : Type 0} → Option A → Bool
has none = false
has (some a) = true

-- A sound loader that holds a core exactly when one is loaded, and otherwise nothing; the module of a
-- loaded core, and a backend for it. Where the backend started, there is one.
pub record Ready {K B : Type 0} (l : Loader K SurfaceSet AvInfo) (core_loaded init_ok : Bool)
    (backend : Option B) (module_ : Option (Option (Option (CoreAbi K SurfaceSet AvInfo))))
    : Type 0 where
  pub sound : IsSound l
  pub in_step : (if core_loaded then is_created l.state else is_unloaded l.state) ≡ true
  pub started : init_ok ≡ true → has backend ≡ true
  pub backed : core_loaded ≡ true → has backend ≡ true
  pub kept : core_loaded ≡ true → has module_ ≡ true

module _ {K B Au : Type 0} where
  abbrev pub IsReady : Runtime K B Au → Type 0
  IsReady r = Ready r.loader r.core_loaded r.init_ok r.backend r.module_

  -- As the constructor and `unload_core` leave it
  abbrev pub IsEmpty : Runtime K B Au → Type 0
  IsEmpty r = IsReady r × (r.core_loaded ≡ false)

  abbrev pub IsRunning : Runtime K B Au → Type 0
  IsRunning r = IsReady r × (r.core_loaded ≡ true)

  -- Nothing is loaded; whether the backend started is as it was.
  abbrev pub Emptied : {R : Type 0} → Bool → R × Runtime K B Au → Type 0
  Emptied init (x, r) = IsReady r × (r.core_loaded ≡ false) × (r.init_ok ≡ init)

  -- A core is loaded exactly when the call succeeded.
  abbrev pub Ended : RpResult × Runtime K B Au → Type 0
  Ended (x, r) = IsReady r × (r.core_loaded ≡ is_ok x)

  pub on_loader-Yields :
      {R : Type 0} {P : R × Loader K SurfaceSet AvInfo → Type 0} {Q : R × Runtime K B Au → Type 0}
      (f : Loader K SurfaceSet AvInfo → Access (R × Loader K SurfaceSet AvInfo))
      (r : Runtime K B Au)
      → Yields P (f r.loader)
      → ((x : R) (l : Loader K SurfaceSet AvInfo) → P (x, l) → Q (x, record r { loader = l }))
      → Yields Q (on_loader f r)
  on_loader-Yields f r h next = Yields-bind h (λ (x, l) p. yields _ (next x l p))

  abbrev pub Stays : {R : Type 0} → Bool → R × Runtime K B Au → Type 0
  Stays loaded (x, r) = IsReady r × (r.core_loaded ≡ loaded)

  -- A call that the loader passes on to the core
  pub Passed-IsReady :
      {R : Type 0} (f : Loader K SurfaceSet AvInfo → Access (R × Loader K SurfaceSet AvInfo))
      (r : Runtime K B Au)
      → IsReady r
      → Yields (Passed r.loader) (f r.loader)
      → Yields (Stays r.core_loaded) (on_loader f r)
  Passed-IsReady f r i h = on_loader-Yields f r h (λ x l (s, same). (
    record {
      sound = s;
      in_step = ap (λ st. if r.core_loaded then is_created st else is_unloaded st) same ∙ i.in_step;
      started = i.started;
      backed = i.backed;
      kept = i.kept;
    },
    refl,
  ))

  -- A call that starts or stops the core
  pub Kept-IsReady :
      {R : Type 0} (f : Loader K SurfaceSet AvInfo → Access (R × Loader K SurfaceSet AvInfo))
      (r : Runtime K B Au)
      → IsRunning r
      → Yields (Kept r.loader) (f r.loader)
      → Yields (Stays true) (on_loader f r)
  Kept-IsReady f r (i, on) h = on_loader-Yields f r h (λ x l (s, same). (
    record {
      sound = s;
      in_step = cc (on, same, i.in_step);
      started = i.started;
      backed = i.backed;
      kept = i.kept;
    },
    on,
  ))
