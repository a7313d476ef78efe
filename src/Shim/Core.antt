-- ===== src/Shim/Core.antt =====
-- cores/libretro_shim/LibretroShim.cpp: the core ABI that the shim gives a libretro core. A function of
-- the core may be missing (`none`), and to call it then is a fault; what it does when it is called is a
-- `Script`. The state `K` of the core is its own affair.
pub mod Fits
pub mod Loads
pub mod Safe
mod Tests
use retro_park.Base.{
  ℕ, Bool, true, false, not, ◌&&◌, ◌||◌, Option, none, some, List, [], ◌∷◌, ◌+◌, ltb, ◌==◌,
  if◌then◌else◌,
}
use retro_park.Abi.{RpResult}
use retro_park.Runtime.State.{AvInfo}
use retro_park.Loader.CoreLoader.{Access, fault, value, access, ◌>>=◌}
use retro_park.Shim.Options.{is_some, is_empty}
use retro_park.Shim.Callbacks.{Host, HwCallback, HwRender, Shim, Script, run_script}

-- The functions that `load_fn` finds in the library
pub record Retro (K : Type 0) : Type 0 where
  pub api_version : Option ℕ
  pub init : Option (K → Script (Unit {0} × K))
  pub deinit : Option (K → Script (Unit {0} × K))
  -- `need_fullpath`
  pub get_system_info : Option (K → Script (Bool × K))
  pub get_system_av_info : Option (K → Script (AvInfo × K))
  pub set_environment : Option (K → Script (Unit {0} × K))
  pub set_video_refresh : Option (K → Script (Unit {0} × K))
  pub set_audio_sample : Option (K → Script (Unit {0} × K))
  pub set_audio_sample_batch : Option (K → Script (Unit {0} × K))
  pub set_input_poll : Option (K → Script (Unit {0} × K))
  pub set_input_state : Option (K → Script (Unit {0} × K))
  pub load_game : Option (K → List ℕ → Option (List ℕ) → Script (Bool × K))
  pub unload_game : Option (K → Script (Unit {0} × K))
  pub run : Option (K → Script (Unit {0} × K))
  pub serialize_size : Option (K → Script (ℕ × K))
  pub serialize : Option (K → ℕ → Script ((Bool × List ℕ) × K))
  pub unserialize : Option (K → List ℕ → Script (Bool × K))
  -- `hw_cb.context_reset` and `hw_cb.context_destroy`
  pub context_reset : K → Script (Unit {0} × K)
  pub context_destroy : K → Script (Unit {0} × K)

-- An instance of the shim with its library
pub record Instance (K : Type 0) : Type 0 where
  pub retro : Retro K
  pub core : K
  pub shim : Shim

-- `av.max_width > av.base_width ? av.max_width : av.base_width`
abbrev pub larger : ℕ → ℕ → ℕ
larger a b = if ltb b a then a else b

-- What `HwRenderGL::setup` answers, and the object after it
abbrev pub SetUp : Type 0
SetUp = HwCallback → ℕ → ℕ → Option ℕ → Bool × HwRender

abbrev pub ok_if : Bool → RpResult
ok_if b = if b then RpResult.ok else RpResult.unsupported

module _ {K : Type 0} where
  abbrev pub on_shim : (Shim → Shim) → Instance K → Instance K
  on_shim f i = record i { shim = f i.shim }

  -- The functions without which a library is refused, and its version
  abbrev pub is_usable : Retro K → Bool
  is_usable f =
      (elim f.api_version [ none ↦ false | some v ↦ v == 1 ])
      && is_some f.run
      && is_some f.load_game
      && is_some f.set_environment
      && is_some f.set_video_refresh
      && is_some f.init
      && is_some f.get_system_info
      && is_some f.get_system_av_info

  pub make_current : Instance K → Instance K
  make_current i = on_shim (λ s. record s { made_current = s.made_current + 1 }) i

module _ {K : Type 0} (host : Host) where
  -- A function of the core that is there
  pub call : {R : Type 0} → (K → Script (R × K)) → Instance K → Access (R × Instance K)
  call f i = run_script host (f i.core) i.shim >>= λ (r : (_ × K) × Shim).
      value (r.0.0, record i { core = r.0.1; shim = r.1 })

  -- A function of the core that may be missing
  pub call_fn : {R : Type 0} → Option (K → Script (R × K)) → Instance K → Access (R × Instance K)
  unfolding call
  call_fn none i = fault
  call_fn (some f) i = call f i

  -- `if (f) f();`
  pub call_if : Option (K → Script (Unit {0} × K)) → Instance K → Access (Unit {0} × Instance K)
  unfolding call
  call_if none i = value (tt, i)
  call_if (some f) i = call f i

  -- From `set_environment` on; `i` holds the new `Shim` with its system directory.
  pub set_up : Instance K → Access (Instance K)
  unfolding call_fn
  set_up i0 = call_fn i0.retro.set_environment i0 >>= λ (r1 : Unit {0} × Instance K).
      call_fn r1.1.retro.set_video_refresh r1.1 >>= λ (r2 : Unit {0} × Instance K).
      call_fn r2.1.retro.set_input_poll r2.1 >>= λ (r3 : Unit {0} × Instance K).
      call_fn r3.1.retro.set_input_state r3.1 >>= λ (r4 : Unit {0} × Instance K).
      call_fn r4.1.retro.set_audio_sample r4.1 >>= λ (r5 : Unit {0} × Instance K).
      call_fn r5.1.retro.set_audio_sample_batch r5.1 >>= λ (r6 : Unit {0} × Instance K).
      call_fn r6.1.retro.init r6.1 >>= λ (r7 : Unit {0} × Instance K). value r7.1

  -- `new Shim()` is the argument; the library is what `LoadLibraryExW` finds, if anything.
  pub sh_create : Option (Retro K × K) → Shim → Access (Option (Instance K))
  unfolding set_up
  sh_create none new_shim = value none
  sh_create (some (f, k)) new_shim =
      if not (is_usable f)
      then value none
      else set_up (record { retro = f; core = k; shim = new_shim }) >>= λ (i : Instance K).
          value (some i)

  pub sh_get_av_info : Instance K → Access (AvInfo × Instance K)
  unfolding call_fn
  sh_get_av_info i = call_fn i.retro.get_system_av_info i >>= λ (r : AvInfo × Instance K).
      value (record r.0 { pixel_format = 0 }, r.1)

  pub unwind : Instance K → Access (RpResult × Instance K)
  unfolding call_if
  unwind i = call_if i.retro.unload_game i >>= λ (r : Unit {0} × Instance K).
      value (RpResult.device, on_shim (λ s. record s { hw = none; game_loaded = false }) r.1)

  pub start_hw : SetUp → Instance K → Access (RpResult × Instance K)
  unfolding sh_get_av_info make_current unwind call_if
  start_hw setup i = sh_get_av_info i >>= λ (r : AvInfo × Instance K).
      let mw = larger r.0.max_width r.0.base_width in
      let mh = larger r.0.max_height r.0.base_height in
      let (ready, hw) = setup r.1.shim.hw_cb mw mh host.share_context in
      let i' = on_shim (λ s. record s { hw = some hw }) r.1 in
      if not ready
      then unwind i'
      else let i'' = make_current i' in
        call_if (if i''.shim.hw_cb.has_context_reset then some i''.retro.context_reset else none)
          i''
        >>= λ (q : Unit {0} × Instance K). value (RpResult.ok, q.1)

  -- `file` is what the file system has at the path.
  pub load_game_at : SetUp → List ℕ → Instance K → Access (RpResult × Instance K)
  unfolding call call_fn start_hw
  load_game_at setup path i = call_fn i.retro.get_system_info i >>= λ (r : Bool × Instance K).
      let content : Option (List ℕ) = if r.0 then none else some r.1.shim.rom in
      (elim r.1.retro.load_game [ none ↦ fault | some load ↦ call (λ k. load k path content) r.1 ])
      >>= λ (l : Bool × Instance K).
          if not l.0
          then value (RpResult.unsupported, l.1)
          else let i' = on_shim (λ s. record s { game_loaded = true }) l.1 in
            if i'.shim.hw_requested then start_hw setup i' else value (RpResult.ok, i')

  pub sh_load_content :
      SetUp → Option (List ℕ) → Option (List ℕ) → Instance K → Access (RpResult × Instance K)
  unfolding load_game_at
  sh_load_content setup none file i = value (RpResult.bad_arg, i)
  sh_load_content setup (some path) file i =
      if is_empty path then value (RpResult.bad_arg, i) else elim file [
        | none ↦ value (RpResult.not_found, i)
        | some rom ↦ load_game_at setup path (on_shim (λ s. record s { rom = rom }) i)
      ]

  pub sh_run_frame : Instance K → Access (Unit {0} × Instance K)
  unfolding call_fn make_current
  sh_run_frame i =
      if not i.shim.game_loaded
      then value (tt, i)
      else let i' = if is_some i.shim.hw then make_current i else i in call_fn i'.retro.run i'

  pub sh_serialize_size : Instance K → Access (ℕ × Instance K)
  unfolding call
  sh_serialize_size i = elim i.retro.serialize_size [ none ↦ value (0, i) | some f ↦ call f i ]

  -- With the bytes that are left in the buffer of the given size
  pub sh_serialize : ℕ → Instance K → Access ((RpResult × List ℕ) × Instance K)
  unfolding call
  sh_serialize size i = elim i.retro.serialize [
    | none ↦ value ((RpResult.unsupported, []), i)
    | some f ↦ call (λ k. f k size) i >>= λ (r : (Bool × List ℕ) × Instance K).
        value ((ok_if r.0.0, r.0.1), r.1)
  ]

  pub sh_unserialize : List ℕ → Instance K → Access (RpResult × Instance K)
  unfolding call
  sh_unserialize bytes i = elim i.retro.unserialize [
    | none ↦ value (RpResult.unsupported, i)
    | some f ↦ call (λ k. f k bytes) i >>= λ (r : Bool × Instance K). value (ok_if r.0, r.1)
  ]

  pub sh_destroy : Instance K → Access (Instance K)
  unfolding make_current call_if
  sh_destroy i0 =
      let i1 = if is_some i0.shim.hw then make_current i0 else i0 in
      let destroys = is_some i0.shim.hw && i0.shim.hw_cb.has_context_destroy in
      call_if (if destroys then some i1.retro.context_destroy else none) i1
      >>= λ (r2 : Unit {0} × Instance K).
          call_if (if r2.1.shim.game_loaded then r2.1.retro.unload_game else none) r2.1
          >>= λ (r3 : Unit {0} × Instance K).
              call_if r3.1.retro.deinit r3.1 >>= λ (r4 : Unit {0} × Instance K). value r4.1
