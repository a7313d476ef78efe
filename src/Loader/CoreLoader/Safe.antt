-- ===== src/Loader/CoreLoader/Safe.antt =====
-- Calls of `CoreLoader` (src/loader/CoreLoader.cpp) in any order: what they leave, and that none goes
-- through a null pointer.
mod Tests
use retro_park.Base.{
  ◌∙◌, Option-cases, ap, sym, subst, ℕ, ◌≡◌, refl, Bool, true, false, ◌&&◌, not, Option, none, some,
  List, [], ◌∷◌, arith, ◌==◌, if◌then◌else◌, Bool-cases, inl, inr,
}
use retro_park.Abi.{abi_version, RpResult, is_ok}
use retro_park.Loader.CoreLoader
use retro_park.Loader.CoreLoader.{
  LoaderState, CoreAbi, Loader, Access, fault, value, ◌>>=◌, is_created, is_idle, is_started,
  is_loaded, call_core, load, create, set_surfaces, start, stop, run_frame, get_av_info, serialize,
  unserialize, load_content, serialize_size, core_options_json, core_option_get, core_option_set,
  destroy,
}

-- One call of the loader
pub data Call (K Set Av : Type 0) : Type 0 where
  loads : Option (Option (Option (CoreAbi K Set Av))) → Call K Set Av
  creates starts stops runs asks_av_info asks_size lists_options destroys : Call K Set Av
  sets_surfaces : Set → Call K Set Av
  serializes : ℕ → Call K Set Av
  unserializes loads_content gets_option : List ℕ → Call K Set Av
  sets_option : List ℕ → List ℕ → Call K Set Av

-- How the state can change, in one call
pub data Moves : LoaderState → LoaderState → Type 0 where
  stays : {s : LoaderState} → Moves s s
  becomes_loaded : Moves LoaderState.unloaded LoaderState.loaded
  becomes_created : Moves LoaderState.loaded LoaderState.created
  becomes_started : Moves LoaderState.created LoaderState.started
  is_stopped : Moves LoaderState.started LoaderState.created
  is_unloaded : {s : LoaderState} → Moves s LoaderState.unloaded

pub and_left : (a b : Bool) → (a && b) ≡ true → a ≡ true
and_left true b h = refl
and_left false b h = h

pub idle-is_created : (s : LoaderState) → is_idle s ≡ true → is_created s ≡ true
idle-is_created s h = and_left _ _ h

module _ {K Set Av : Type 0} where
  -- What the loader changes, without what it returns
  left : {R : Type 0} → Access (R × Loader K Set Av) → Access (Loader K Set Av)
  left m = m >>= λ (r, l). value l

  pub perform : Call K Set Av → Loader K Set Av → Access (Loader K Set Av)
  unfolding left
  perform (loads module_) l = left (load module_ l)
  perform creates l = left (create l)
  perform starts l = left (start l)
  perform stops l = left (stop l)
  perform runs l = left (run_frame l)
  perform asks_av_info l = left (get_av_info l)
  perform asks_size l = left (serialize_size l)
  perform lists_options l = left (core_options_json l)
  perform destroys l = left (destroy l)
  perform (sets_surfaces set) l = left (set_surfaces set l)
  perform (serializes size) l = left (serialize size l)
  perform (unserializes bytes) l = left (unserialize bytes l)
  perform (loads_content path) l = left (load_content path l)
  perform (gets_option key) l = left (core_option_get key l)
  perform (sets_option key v) l = left (core_option_set key v l)

  pub performs : List (Call K Set Av) → Loader K Set Av → Access (Loader K Set Av)
  performs [] l = value l
  performs (c ∷ cs) l = perform c l >>= performs cs

  -- A loader of each state, with an abi of the right version from `Loaded` on, and a core from
  -- `Created` on.
  pub data IsSound : Loader K Set Av → Type 0 where
    has_nothing : IsSound (record { state = LoaderState.unloaded; abi = none; core = none })
    has_abi :
        (abi : CoreAbi K Set Av)
        → abi.version ≡ abi_version
        → IsSound (record { state = LoaderState.loaded; abi = some abi; core = none })
    has_core :
        (s : LoaderState) (abi : CoreAbi K Set Av) (k : K)
        → is_created s ≡ true
        → abi.version ≡ abi_version
        → IsSound (record { state = s; abi = some abi; core = some k })

  -- A call comes back, leaves a sound loader, and moves it by a step of the state machine.
  abbrev pub Returns : LoaderState → Access (Loader K Set Av) → Type 0
  Returns s m = (l : Loader K Set Av) × (m ≡ value l) × IsSound l × Moves s l.state

  -- The core's own functions
  pub call_core-Returns :
      {R : Type 0} (allowed : Bool) (refusal missing : R)
      (fn : CoreAbi K Set Av → Option (K → R × K)) (l : Loader K Set Av)
      → IsSound l
      → (allowed ≡ true → is_created l.state ≡ true)
      → (r : R) × (l' : Loader K Set Av) × (call_core allowed refusal missing fn l ≡ value (r, l'))
        × IsSound l'
        × (l'.state ≡ l.state)
  unfolding call_core
  call_core-Returns false refusal missing fn l i h = (refusal, l, refl, i, refl)
  call_core-Returns true refusal missing fn l (has_core s abi k c v) h =
      elim (Option-cases (fn abi)) [
        | inl none_there ↦ rw none_there (missing, _, refl, has_core s abi k c v, refl)
        | inr (f, e) ↦ rw e ((f k).0, _, refl, has_core s abi (f k).1 c v, refl)
      ]
  call_core-Returns true refusal missing fn l has_nothing h = cc (h refl)
  call_core-Returns true refusal missing fn l (has_abi abi v) h = cc (h refl)

  left-Returns :
      {R : Type 0} (s : LoaderState) (m : Access (R × Loader K Set Av))
      → (r : R) × (l : Loader K Set Av) × (m ≡ value (r, l)) × IsSound l × (l.state ≡ s)
      → Returns s (left m)
  unfolding left
  left-Returns s m (r, l, e, i, same) = (l, ap left e, i, subst (λ s'. Moves s s') (sym same) stays)

  load-Returns :
      (module_ : Option (Option (Option (CoreAbi K Set Av)))) (l : Loader K Set Av)
      → IsSound l
      → Returns l.state (left (load module_ l))
  unfolding left load
  load-Returns none l has_nothing = (_, refl, has_nothing, stays)
  load-Returns (some none) l has_nothing = (_, refl, has_nothing, stays)
  load-Returns (some (some none)) l has_nothing = (_, refl, has_nothing, stays)
  load-Returns (some (some (some abi))) l has_nothing =
      elim (Bool-cases (abi.version == abi_version)) [
        | inl fits ↦ rw fits (_, refl, has_abi abi (ground arith), becomes_loaded)
        | inr other ↦ rw other (_, refl, has_nothing, stays)
      ]
  load-Returns module_ l (has_abi abi v) = (_, refl, has_abi abi v, stays)
  load-Returns module_ l (has_core LoaderState.created abi k c v) =
      (_, refl, has_core LoaderState.created abi k c v, stays)
  load-Returns module_ l (has_core LoaderState.started abi k c v) =
      (_, refl, has_core LoaderState.started abi k c v, stays)
  load-Returns module_ l (has_core LoaderState.unloaded abi k c v) = cc c
  load-Returns module_ l (has_core LoaderState.loaded abi k c v) = cc c

  create-Returns : (l : Loader K Set Av) → IsSound l → Returns l.state (left (create l))
  unfolding left create
  create-Returns l has_nothing = (_, refl, has_nothing, stays)
  create-Returns l (has_abi abi v) = elim (Option-cases abi.create_fn) [
    | inl missing ↦ rw missing (_, refl, has_abi abi v, stays)
    | inr (made, e) ↦ rw e (elim (Option-cases made) [
      | inl failed ↦ rw failed (_, refl, has_abi abi v, stays)
      | inr (k, e') ↦ rw e' (_, refl, has_core LoaderState.created abi k refl v, becomes_created)
    ])
  ]
  create-Returns l (has_core LoaderState.created abi k c v) =
      (_, refl, has_core LoaderState.created abi k c v, stays)
  create-Returns l (has_core LoaderState.started abi k c v) =
      (_, refl, has_core LoaderState.started abi k c v, stays)
  create-Returns l (has_core LoaderState.unloaded abi k c v) = cc c
  create-Returns l (has_core LoaderState.loaded abi k c v) = cc c

  start-Returns : (l : Loader K Set Av) → IsSound l → Returns l.state (left (start l))
  unfolding left start call_core
  start-Returns l has_nothing = (_, refl, has_nothing, stays)
  start-Returns l (has_abi abi v) = (_, refl, has_abi abi v, stays)
  start-Returns l (has_core LoaderState.created abi k c v) = elim (Option-cases abi.start_fn) [
    | inl missing ↦ rw missing (_, refl, has_core LoaderState.created abi k c v, stays)
    | inr (f, e) ↦ rw e (elim (Bool-cases (is_ok (f k).0)) [
      | inl begins ↦
          rw begins (_, refl, has_core LoaderState.started abi (f k).1 refl v, becomes_started)
      | inr fails ↦ rw fails (_, refl, has_core LoaderState.created abi (f k).1 c v, stays)
    ])
  ]
  start-Returns l (has_core LoaderState.started abi k c v) =
      (_, refl, has_core LoaderState.started abi k c v, stays)
  start-Returns l (has_core LoaderState.unloaded abi k c v) = cc c
  start-Returns l (has_core LoaderState.loaded abi k c v) = cc c

  stop-Returns : (l : Loader K Set Av) → IsSound l → Returns l.state (left (stop l))
  unfolding left stop call_core
  stop-Returns l has_nothing = (_, refl, has_nothing, stays)
  stop-Returns l (has_abi abi v) = (_, refl, has_abi abi v, stays)
  stop-Returns l (has_core LoaderState.created abi k c v) =
      (_, refl, has_core LoaderState.created abi k c v, stays)
  stop-Returns l (has_core LoaderState.started abi k c v) = elim (Option-cases abi.stop_fn) [
    | inl missing ↦ rw missing (_, refl, has_core LoaderState.created abi k refl v, is_stopped)
    | inr (f, e) ↦ rw e (_, refl, has_core LoaderState.created abi (f k).1 refl v, is_stopped)
  ]
  stop-Returns l (has_core LoaderState.unloaded abi k c v) = cc c
  stop-Returns l (has_core LoaderState.loaded abi k c v) = cc c

  destroy-Returns : (l : Loader K Set Av) → IsSound l → Returns l.state (left (destroy l))
  unfolding left destroy stop call_core
  destroy-Returns l has_nothing = (_, refl, has_nothing, is_unloaded)
  destroy-Returns l (has_abi abi v) = (_, refl, has_nothing, is_unloaded)
  destroy-Returns l (has_core LoaderState.created abi k c v) = (_, refl, has_nothing, is_unloaded)
  destroy-Returns l (has_core LoaderState.started abi k c v) = elim (Option-cases abi.stop_fn) [
    | inl missing ↦ rw missing (_, refl, has_nothing, is_unloaded)
    | inr (f, e) ↦ rw e (_, refl, has_nothing, is_unloaded)
  ]
  destroy-Returns l (has_core LoaderState.unloaded abi k c v) = cc c
  destroy-Returns l (has_core LoaderState.loaded abi k c v) = cc c

  core_options_json-Returns :
      (l : Loader K Set Av) → IsSound l → Returns l.state (left (core_options_json l))
  unfolding left core_options_json
  core_options_json-Returns l i =
      let (json, l', e, i', same) =
        call_core-Returns (is_created l.state && CoreLoader.has_abi l) none none
          (λ abi. abi.options_json_fn) l i (and_left _ _) in
      rw e (l', refl, i', subst (λ s'. Moves l.state s') (sym same) stays)

  perform-Returns :
      (c : Call K Set Av) (l : Loader K Set Av) → IsSound l → Returns l.state (perform c l)
  unfolding perform run_frame get_av_info serialize_size set_surfaces serialize unserialize
      load_content core_option_get core_option_set
  perform-Returns (loads m) l i = load-Returns m l i
  perform-Returns creates l i = create-Returns l i
  perform-Returns starts l i = start-Returns l i
  perform-Returns stops l i = stop-Returns l i
  perform-Returns lists_options l i = core_options_json-Returns l i
  perform-Returns destroys l i = destroy-Returns l i
  perform-Returns runs l i = left-Returns _ _ (call_core-Returns _ _ _ _ l i (λ h. h))
  perform-Returns asks_av_info l i = left-Returns _ _ (call_core-Returns _ _ _ _ l i (λ h. h))
  perform-Returns asks_size l i = left-Returns _ _ (call_core-Returns _ _ _ _ l i (and_left _ _))
  perform-Returns (sets_surfaces set) l i =
      left-Returns _ _ (call_core-Returns _ _ _ _ l i (idle-is_created l.state))
  perform-Returns (serializes n) l i = left-Returns _ _ (call_core-Returns _ _ _ _ l i (λ h. h))
  perform-Returns (unserializes b) l i = left-Returns _ _ (call_core-Returns _ _ _ _ l i (λ h. h))
  perform-Returns (loads_content p) l i = left-Returns _ _ (call_core-Returns _ _ _ _ l i (λ h. h))
  perform-Returns (gets_option k) l i =
      left-Returns _ _ (call_core-Returns _ _ _ _ l i (and_left _ _))
  perform-Returns (sets_option k v) l i =
      left-Returns _ _ (call_core-Returns _ _ _ _ l i (and_left _ _))

  -- Any calls of a sound loader, in any order and on any core, come back without going through a null
  -- pointer, and leave a sound loader: a core from `Created` on, of the right abi version from
  -- `Loaded` on.
  pub performs-IsSound :
      (cs : List (Call K Set Av)) (l : Loader K Set Av)
      → IsSound l
      → (l' : Loader K Set Av) × (performs cs l ≡ value l') × IsSound l'
  unfolding performs
  performs-IsSound [] l i = (l, refl, i)
  performs-IsSound (c ∷ cs) l i =
      let (l', e, i', m) = perform-Returns c l i in
      let (l'', e', i'') = performs-IsSound cs l' i' in
      (l'', ap (λ a. a >>= performs cs) e ∙ e', i'')

  -- A single call moves a sound loader along one edge of `Unloaded`, `Loaded`, `Created`, `Started`
  -- and back by `stop`, or to `Unloaded`, or not at all.
  pub perform-Moves :
      (c : Call K Set Av) (l l' : Loader K Set Av)
      → IsSound l
      → perform c l ≡ value l'
      → Moves l.state l'.state
  perform-Moves c l l' i e =
      let (l'', e', i', m) = perform-Returns c l i in
      let same : l'' ≡ l' = cc (e, e') in subst (λ x. Moves l.state x.state) same m
