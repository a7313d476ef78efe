-- ===== src/Loader/CoreLoader.antt =====
-- src/loader/CoreLoader.h and CoreLoader.cpp. `K` is the core behind an `rp_core*`, `Set` an
-- `rp_surface_set` and `Av` an `rp_av_info`; paths and strings are lists of bytes. A null pointer is
-- `none`; to read through one, or to pass one to a core, is a `fault`.
pub mod Safe
pub mod Yields
pub mod Passes
use retro_park.Base.{
  ℕ, Bool, true, false, not, ◌&&◌, ◌||◌, Option, none, some, List, [], ◌∷◌, ◌==◌, if◌then◌else◌,
}
use retro_park.Abi.{abi_version, RpResult, is_ok}

pub data LoaderState : Type 0 where
  unloaded loaded created started : LoaderState

-- `rp_core_abi`, without what the loader never calls
pub record CoreAbi (K Set Av : Type 0) : Type 0 where
  pub version : ℕ
  pub create_fn : Option (Option K)
  pub destroys : Bool
  pub set_surfaces_fn : Option (K → Set → RpResult × K)
  pub start_fn : Option (K → RpResult × K)
  pub stop_fn : Option (K → RpResult × K)
  pub get_av_info_fn : Option (K → Av × K)
  pub run_frame_fn : Option (K → K)
  pub serialize_size_fn : Option (K → ℕ × K)
  pub serialize_fn : Option (K → ℕ → (RpResult × List ℕ) × K)
  pub unserialize_fn : Option (K → List ℕ → RpResult × K)
  pub load_content_fn : Option (K → List ℕ → RpResult × K)
  pub options_json_fn : Option (K → Option (List ℕ) × K)
  pub option_get_fn : Option (K → List ℕ → Option (List ℕ) × K)
  pub option_set_fn : Option (K → List ℕ → List ℕ → RpResult × K)

pub record Loader (K Set Av : Type 0) : Type 0 where
  pub state : LoaderState
  pub abi : Option (CoreAbi K Set Av)
  pub core : Option K

-- What a call gives back, unless it goes through a null pointer
pub data Access (A : Type 0) : Type 0 where
  fault : Access A
  value : A → Access A

infixl 5 ◌>>=◌
abbrev pub ◌>>=◌ : {A B : Type 0} → Access A → (A → Access B) → Access B
fault >>= f = fault
value a >>= f = f a

abbrev pub access : {A : Type 0} → Option A → Access A
access none = fault
access (some a) = value a

abbrev pub is_loaded : LoaderState → Bool
is_loaded LoaderState.loaded = true
is_loaded _ = false

abbrev pub is_unloaded : LoaderState → Bool
is_unloaded LoaderState.unloaded = true
is_unloaded _ = false

abbrev pub is_started : LoaderState → Bool
is_started LoaderState.started = true
is_started _ = false

-- `state_ == LoaderState::Created || state_ == LoaderState::Started`
abbrev pub is_created : LoaderState → Bool
is_created LoaderState.created = true
is_created LoaderState.started = true
is_created _ = false

-- The guard `state_ != LoaderState::Created`
abbrev pub is_idle : LoaderState → Bool
is_idle s = is_created s && not (is_started s)

-- The string `[]`, for a core without options
abbrev pub no_options : List ℕ
no_options = 91 ∷ 93 ∷ []

module _ {K Set Av : Type 0} where
  -- What `resolve` finds in a module, and what that returns
  pub load :
      Option (Option (Option (CoreAbi K Set Av)))
      → Loader K Set Av
      → Access (RpResult × Loader K Set Av)
  load module_ l = elim l.state [
    | LoaderState.unloaded ↦ elim module_ [
      | none ↦ value (RpResult.bad_arg, l)
      | some none ↦ value (RpResult.not_found, l)
      | some (some none) ↦ value (RpResult.internal, l)
      | some (some (some abi)) ↦
          if not (abi.version == abi_version)
          then value (RpResult.abi_mismatch, l)
          else value (RpResult.ok, record l { abi = some abi; state = LoaderState.loaded })
    ]
    | _ ↦ value (RpResult.internal, l)
  ]

  pub create : Loader K Set Av → Access (RpResult × Loader K Set Av)
  create l =
      if not (is_loaded l.state)
      then value (RpResult.internal, l)
      else access l.abi >>= λ abi. elim abi.create_fn [
        | none ↦ value (RpResult.internal, l)
        | some none ↦ value (RpResult.internal, record l { core = none })
        | some (some k) ↦
            value (RpResult.ok, record l { core = some k; state = LoaderState.created })
      ]

  -- A function of the core, called where the guard lets it through and the core has it
  pub call_core :
      {R : Type 0}
      → Bool
      → R
      → R
      → (CoreAbi K Set Av → Option (K → R × K))
      → Loader K Set Av
      → Access (R × Loader K Set Av)
  call_core allowed refusal missing fn l =
      if not allowed
      then value (refusal, l)
      else access l.abi >>= λ abi. elim (fn abi) [
        | none ↦ value (missing, l)
        | some f ↦
            access l.core >>= λ k. let (r, k') = f k in value (r, record l { core = some k' })
      ]

  pub set_surfaces : Set → Loader K Set Av → Access (RpResult × Loader K Set Av)
  unfolding call_core
  set_surfaces set l =
      call_core (is_idle l.state) RpResult.internal RpResult.unsupported
        (λ abi. elim abi.set_surfaces_fn [ none ↦ none | some f ↦ some (λ k. f k set) ]) l

  pub start : Loader K Set Av → Access (RpResult × Loader K Set Av)
  unfolding call_core
  start l =
      call_core (is_idle l.state) RpResult.internal RpResult.unsupported (λ abi. abi.start_fn) l
      >>= λ (r, l').
          value (
            r,
            if is_idle l.state && is_ok r then record l' { state = LoaderState.started } else l',
          )

  pub stop : Loader K Set Av → Access (RpResult × Loader K Set Av)
  unfolding call_core
  stop l =
      call_core (is_started l.state) RpResult.internal RpResult.ok (λ abi. abi.stop_fn) l
      >>= λ (r, l').
          value (r, if is_started l.state then record l' { state = LoaderState.created } else l')

  pub run_frame : Loader K Set Av → Access (RpResult × Loader K Set Av)
  unfolding call_core
  run_frame l =
      call_core (is_created l.state) RpResult.internal RpResult.unsupported
        (λ abi. elim abi.run_frame_fn [ none ↦ none | some f ↦ some (λ k. (RpResult.ok, f k)) ]) l

  -- What is written to `out`, if anything is
  pub get_av_info : Loader K Set Av → Access ((RpResult × Option Av) × Loader K Set Av)
  unfolding call_core
  get_av_info l =
      call_core (is_created l.state) (RpResult.internal, none) (RpResult.unsupported, none)
        (λ abi. elim abi.get_av_info_fn [
          | none ↦ none
          | some f ↦ some (λ k. let (av, k') = f k in ((RpResult.ok, some av), k'))
        ])
        l

  pub serialize : ℕ → Loader K Set Av → Access ((RpResult × List ℕ) × Loader K Set Av)
  unfolding call_core
  serialize size l =
      call_core (is_created l.state) (RpResult.internal, []) (RpResult.unsupported, [])
        (λ abi. elim abi.serialize_fn [ none ↦ none | some f ↦ some (λ k. f k size) ]) l

  pub unserialize : List ℕ → Loader K Set Av → Access (RpResult × Loader K Set Av)
  unfolding call_core
  unserialize bytes l =
      call_core (is_created l.state) RpResult.internal RpResult.unsupported
        (λ abi. elim abi.unserialize_fn [ none ↦ none | some f ↦ some (λ k. f k bytes) ]) l

  pub load_content : List ℕ → Loader K Set Av → Access (RpResult × Loader K Set Av)
  unfolding call_core
  load_content path l =
      call_core (is_created l.state) RpResult.internal RpResult.unsupported
        (λ abi. elim abi.load_content_fn [ none ↦ none | some f ↦ some (λ k. f k path) ]) l

  -- These four check the abi as well: `… || !abi_ || …`.
  abbrev pub has_abi : Loader K Set Av → Bool
  has_abi l = elim l.abi [ none ↦ false | some abi ↦ true ]

  pub serialize_size : Loader K Set Av → Access (ℕ × Loader K Set Av)
  unfolding call_core
  serialize_size l =
      call_core (is_created l.state && has_abi l) 0 0 (λ abi. abi.serialize_size_fn) l

  pub core_options_json : Loader K Set Av → Access (List ℕ × Loader K Set Av)
  unfolding call_core
  core_options_json l =
      call_core (is_created l.state && has_abi l) none none (λ abi. abi.options_json_fn) l
      >>= λ (json, l'). value (elim json [ none ↦ no_options | some j ↦ j ], l')

  pub core_option_get : List ℕ → Loader K Set Av → Access (Option (List ℕ) × Loader K Set Av)
  unfolding call_core
  core_option_get key l =
      call_core (is_created l.state && has_abi l) none none
        (λ abi. elim abi.option_get_fn [ none ↦ none | some f ↦ some (λ k. f k key) ]) l

  pub core_option_set : List ℕ → List ℕ → Loader K Set Av → Access (RpResult × Loader K Set Av)
  unfolding call_core
  core_option_set key v l =
      call_core (is_created l.state && has_abi l) RpResult.unsupported RpResult.unsupported
        (λ abi. elim abi.option_set_fn [ none ↦ none | some f ↦ some (λ k. f k key v) ]) l

  -- The core that is handed to the abi's `destroy`, if there is one
  given_away : Option (CoreAbi K Set Av) → Option K → Option K
  given_away none k = none
  given_away (some abi) k = if abi.destroys then k else none

  pub destroy : Loader K Set Av → Access (Option K × Loader K Set Av)
  unfolding stop given_away
  destroy l = (if is_started l.state then stop l else value (RpResult.ok, l)) >>= λ (r, l').
      value (
        given_away l'.abi l'.core,
        record { state = LoaderState.unloaded; abi = none; core = none },
      )
