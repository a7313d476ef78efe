-- ===== src/Loader/CoreLoader/Yields.antt =====
-- What a call of src/loader/CoreLoader.cpp leaves on a sound loader, in the form its clients chain: the
-- call comes back, and what it returns meets a condition.
use retro_park.Base.{
  Option-cases, ap, sym, subst, ℕ, ◌≡◌, refl, Bool, true, false, not, Option, none, some, List,
  arith, ◌==◌, if◌then◌else◌, Bool-cases, inl, inr,
}
use retro_park.Abi.{abi_version, RpResult, is_ok}
use retro_park.Loader.CoreLoader.{
  LoaderState, CoreAbi, Loader, Access, value, ◌>>=◌, is_created, is_started, is_unloaded,
  call_core, load, create, start, stop, destroy, core_options_json, run_frame, get_av_info,
  set_surfaces, serialize_size, serialize, unserialize, load_content, core_option_get,
  core_option_set,
}
use retro_park.Loader.CoreLoader.Safe.{
  IsSound, has_nothing, has_abi, has_core, call_core-Returns, and_left, idle-is_created,
}

-- A call comes back with a value that meets `P`.
pub data Yields {A : Type 0} (P : A → Type 0) : Access A → Type 0 where
  yields : (a : A) → P a → Yields P (value a)

pub Yields-bind :
    {A C : Type 0} {P : A → Type 0} {Q : C → Type 0} {m : Access A} {f : A → Access C}
    → Yields P m
    → ((a : A) → P a → Yields Q (f a))
    → Yields Q (m >>= f)
Yields-bind (yields a h) next = next a h

-- The value, and that the call came back with it
pub Yields-value :
    {A : Type 0} {P : A → Type 0} {m : Access A} → Yields P m → (a : A) × (m ≡ value a) × P a
Yields-value (yields a h) = (a, refl, h)

pub Yields-mono :
    {A : Type 0} {P Q : A → Type 0} {m : Access A} → Yields P m → ((a : A) → P a → Q a) → Yields Q m
Yields-mono (yields a h) weaker = yields a (weaker a h)

pub if-Yields :
    {A : Type 0} {Q : A → Type 0} (c : Bool) {a b : Access A}
    → (c ≡ true → Yields Q a)
    → (c ≡ false → Yields Q b)
    → Yields Q (if c then a else b)
if-Yields true taken skipped = taken refl
if-Yields false taken skipped = skipped refl

-- A test on a result, with what it says of the result
pub by_result :
    {A : Type 0} {Q : A → Type 0} (x : RpResult) {a b : Access A}
    → (is_ok x ≡ false → Yields Q a)
    → (is_ok x ≡ true → Yields Q b)
    → Yields Q (if not (is_ok x) then a else b)
by_result x failed good = elim (Bool-cases (is_ok x)) [
  | inl e ↦ rw e (good e)
  | inr e ↦ rw e (failed e)
]

-- A null pointer, or what stands behind it
pub option-Yields :
    {A B : Type 0} {Q : A → Type 0} (o : Option B) {a : Access A} {f : B → Access A}
    → (o ≡ none → Yields Q a)
    → ((b : B) → o ≡ some b → Yields Q (f b))
    → Yields Q (elim o [ none ↦ a | some b ↦ f b ])
option-Yields none missing there = missing refl
option-Yields (some b) missing there = there b refl

module _ {K Set Av : Type 0} where
  -- A call that goes through to the core
  abbrev pub Passed : {R : Type 0} → Loader K Set Av → R × Loader K Set Av → Type 0
  Passed l (x, l') = IsSound l' × (l'.state ≡ l.state)

  pub call_core-Yields :
      {R : Type 0} (allowed : Bool) (refusal missing : R)
      (fn : CoreAbi K Set Av → Option (K → R × K)) (l : Loader K Set Av)
      → IsSound l
      → (allowed ≡ true → is_created l.state ≡ true)
      → Yields (Passed l) (call_core allowed refusal missing fn l)
  call_core-Yields allowed refusal missing fn l i h =
      let (x, l', e, i', same) = call_core-Returns allowed refusal missing fn l i h in
      subst (λ m. Yields (Passed l) m) (sym e) (yields (x, l') (i', same))

  -- The state that a loader with an abi is in, by what the call returned
  abbrev pub Reached : LoaderState → LoaderState → RpResult × Loader K Set Av → Type 0
  Reached done failed (x, l) = IsSound l × (l.state ≡ (if is_ok x then done else failed))

  pub load-Yields :
      (module_ : Option (Option (Option (CoreAbi K Set Av)))) (l : Loader K Set Av)
      → IsSound l
      → is_unloaded l.state ≡ true
      → Yields (Reached LoaderState.loaded LoaderState.unloaded) (load module_ l)
  unfolding load
  load-Yields none l has_nothing u = yields _ (has_nothing, refl)
  load-Yields (some none) l has_nothing u = yields _ (has_nothing, refl)
  load-Yields (some (some none)) l has_nothing u = yields _ (has_nothing, refl)
  load-Yields (some (some (some abi))) l has_nothing u =
      elim (Bool-cases (abi.version == abi_version)) [
        | inl fits ↦ rw fits (yields _ (has_abi abi (ground arith), refl))
        | inr other ↦ rw other (yields _ (has_nothing, refl))
      ]
  load-Yields module_ l (has_abi abi v) u = cc u
  load-Yields module_ l (has_core LoaderState.created abi k c v) u = cc u
  load-Yields module_ l (has_core LoaderState.started abi k c v) u = cc u
  load-Yields module_ l (has_core LoaderState.unloaded abi k c v) u = cc c
  load-Yields module_ l (has_core LoaderState.loaded abi k c v) u = cc c

  pub create-Yields :
      (l : Loader K Set Av)
      → IsSound l
      → l.state ≡ LoaderState.loaded
      → Yields (Reached LoaderState.created LoaderState.loaded) (create l)
  unfolding create
  create-Yields l has_nothing at = cc at
  create-Yields l (has_abi abi v) at = elim (Option-cases abi.create_fn) [
    | inl missing ↦ rw missing (yields _ (has_abi abi v, refl))
    | inr (made, e) ↦ rw e (elim (Option-cases made) [
      | inl failed ↦ rw failed (yields _ (has_abi abi v, refl))
      | inr (k, e') ↦ rw e' (yields _ (has_core LoaderState.created abi k refl v, refl))
    ])
  ]
  create-Yields l (has_core s abi k c v) at = cc (c, ap is_created at)

  -- A call that may start or stop the core, and keeps it
  abbrev pub Kept : {R : Type 0} → Loader K Set Av → R × Loader K Set Av → Type 0
  Kept l (x, l') = IsSound l' × (is_created l'.state ≡ is_created l.state)

  pub start-Yields : (l : Loader K Set Av) → IsSound l → Yields (Kept l) (start l)
  unfolding start call_core
  start-Yields l has_nothing = yields _ (has_nothing, refl)
  start-Yields l (has_abi abi v) = yields _ (has_abi abi v, refl)
  start-Yields l (has_core LoaderState.created abi k c v) = elim (Option-cases abi.start_fn) [
    | inl missing ↦ rw missing (yields _ (has_core LoaderState.created abi k c v, refl))
    | inr (f, e) ↦ rw e (elim (Bool-cases (is_ok (f k).0)) [
      | inl begins ↦ rw begins (yields _ (has_core LoaderState.started abi (f k).1 refl v, refl))
      | inr fails ↦ rw fails (yields _ (has_core LoaderState.created abi (f k).1 c v, refl))
    ])
  ]
  start-Yields l (has_core LoaderState.started abi k c v) =
      yields _ (has_core LoaderState.started abi k c v, refl)
  start-Yields l (has_core LoaderState.unloaded abi k c v) = cc c
  start-Yields l (has_core LoaderState.loaded abi k c v) = cc c

  pub stop-Yields : (l : Loader K Set Av) → IsSound l → Yields (Kept l) (stop l)
  unfolding stop call_core
  stop-Yields l has_nothing = yields _ (has_nothing, refl)
  stop-Yields l (has_abi abi v) = yields _ (has_abi abi v, refl)
  stop-Yields l (has_core LoaderState.created abi k c v) =
      yields _ (has_core LoaderState.created abi k c v, refl)
  stop-Yields l (has_core LoaderState.started abi k c v) = elim (Option-cases abi.stop_fn) [
    | inl missing ↦ rw missing (yields _ (has_core LoaderState.created abi k refl v, refl))
    | inr (f, e) ↦ rw e (yields _ (has_core LoaderState.created abi (f k).1 refl v, refl))
  ]
  stop-Yields l (has_core LoaderState.unloaded abi k c v) = cc c
  stop-Yields l (has_core LoaderState.loaded abi k c v) = cc c

  abbrev pub Gone : {R : Type 0} → R × Loader K Set Av → Type 0
  Gone (x, l') = IsSound l' × (l'.state ≡ LoaderState.unloaded)

  pub destroy-Yields : (l : Loader K Set Av) → IsSound l → Yields Gone (destroy l)
  unfolding destroy
  destroy-Yields l i =
      Yields-bind {P = λ a. Unit {0}}
        (if-Yields (is_started l.state) (λ running. Yields-mono (stop-Yields l i) (λ a kept. tt))
          (λ idle. yields _ tt))
        (λ (x, l') h. yields _ (has_nothing, refl))

  pub core_options_json-Yields :
      (l : Loader K Set Av) → IsSound l → Yields (Passed l) (core_options_json l)
  unfolding core_options_json
  core_options_json-Yields l i =
      Yields-bind (call_core-Yields _ none none _ l i (and_left _ _))
        (λ (json, l') kept. yields _ kept)

  pub run_frame-Yields : (l : Loader K Set Av) → IsSound l → Yields (Passed l) (run_frame l)
  unfolding run_frame
  run_frame-Yields l i = call_core-Yields _ _ _ _ l i (λ h. h)

  pub get_av_info-Yields : (l : Loader K Set Av) → IsSound l → Yields (Passed l) (get_av_info l)
  unfolding get_av_info
  get_av_info-Yields l i = call_core-Yields _ _ _ _ l i (λ h. h)

  pub set_surfaces-Yields :
      (set : Set) (l : Loader K Set Av) → IsSound l → Yields (Passed l) (set_surfaces set l)
  unfolding set_surfaces
  set_surfaces-Yields set l i = call_core-Yields _ _ _ _ l i (idle-is_created l.state)

  pub serialize_size-Yields :
      (l : Loader K Set Av) → IsSound l → Yields (Passed l) (serialize_size l)
  unfolding serialize_size
  serialize_size-Yields l i = call_core-Yields _ _ _ _ l i (and_left _ _)

  pub serialize-Yields :
      (size : ℕ) (l : Loader K Set Av) → IsSound l → Yields (Passed l) (serialize size l)
  unfolding serialize
  serialize-Yields size l i = call_core-Yields _ _ _ _ l i (λ h. h)

  pub unserialize-Yields :
      (bytes : List ℕ) (l : Loader K Set Av) → IsSound l → Yields (Passed l) (unserialize bytes l)
  unfolding unserialize
  unserialize-Yields bytes l i = call_core-Yields _ _ _ _ l i (λ h. h)

  pub load_content-Yields :
      (path : List ℕ) (l : Loader K Set Av) → IsSound l → Yields (Passed l) (load_content path l)
  unfolding load_content
  load_content-Yields path l i = call_core-Yields _ _ _ _ l i (λ h. h)

  pub core_option_get-Yields :
      (key : List ℕ) (l : Loader K Set Av) → IsSound l → Yields (Passed l) (core_option_get key l)
  unfolding core_option_get
  core_option_get-Yields key l i = call_core-Yields _ _ _ _ l i (and_left _ _)

  pub core_option_set-Yields :
      (key v : List ℕ) (l : Loader K Set Av)
      → IsSound l
      → Yields (Passed l) (core_option_set key v l)
  unfolding core_option_set
  core_option_set-Yields key v l i = call_core-Yields _ _ _ _ l i (and_left _ _)
