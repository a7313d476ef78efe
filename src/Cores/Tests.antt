-- ===== src/Cores/Tests.antt =====
-- The reference cores on a backend and an audio output that count.
use retro_park.Base.{ℕ, ◌+◌, ◌≡◌, refl, none, some, [], ◌∷◌, replicate, take, set}
use retro_park.Abi.{RpResult, InputState, neutral}
use retro_park.Net.Machine.{Emulates}
use retro_park.Runtime.State.{Platform}
use retro_park.Runtime.Machine.{machine, input_of}
use retro_park.Cores.Word.{word, word_bytes}
use retro_park.Cores.Rollback.{rc_create, rc_run_frame, rc_unserialize, rc_abi, with_rc}
use retro_park.Cores.Driven.{dc_create, dc_run_frame, dc_abi, with_dc}
use retro_park.Cores.Games.{rc_saved, dc_saved, rc_next, dc_next, reference_cores-Emulate}

abbrev plain : {K : Type 0} → Platform K ℕ ℕ
plain = record {
  initialize = λ b w h. (RpResult.ok, b);
  allocate_surfaces = λ b n w h. ((RpResult.ok, []), b);
  present_sync_handle = λ b. 0;
  present_consume_sync_handle = λ b. 0;
  present_device_uuid = λ b. [];
  gl_context = λ b. none;
  composite = λ b c. (RpResult.ok, b + 1);
  open_output = λ rate channels. some 0;
  submit = λ out samples n. out + n;
  want_frames = λ out. (480, out);
  plug = λ a b k. k;
  calls = λ k. [];
}

reference_cores-Emulate_example :
    Emulates
      (machine (with_rc plain) rc_abi rc_saved (λ r. 5))
      (λ s. s.k.acc)
      (input_of (with_rc plain) rc_abi rc_saved (λ r. 5))
      rc_next
      word_bytes
    × Emulates
        (machine (with_dc plain) dc_abi dc_saved (λ r. 7))
        (λ s. s.k.frame)
        (input_of (with_dc plain) dc_abi dc_saved (λ r. 7))
        dc_next
        word_bytes
reference_cores-Emulate_example =
    reference_cores-Emulate {B = ℕ} {Au = ℕ} plain plain (λ r. 5) (λ r. 7)

abbrev pressing : InputState
pressing = record neutral { keys = set (replicate 256 0) 88 1 }

rc-counts : (rc_run_frame (record (rc_run_frame rc_create) { input = pressing })).acc.0 ≡ 3
unfolding rc_run_frame rc_create
rc-counts = refl

rc-wraps : (rc_run_frame (record rc_create { acc = word 0xFFFFFFFF })).acc.0 ≡ 0
unfolding rc_run_frame rc_create
rc-wraps = refl

rc-short : (rc_unserialize rc_create (1 ∷ 2 ∷ 3 ∷ [])).0 ≡ RpResult.bad_arg
rc-short = refl

dc-shows :
    take 4 (dc_run_frame (record dc_create { frame = word 60 })).fb ≡ 0 ∷ 255 ∷ 127 ∷ 255 ∷ []
unfolding dc_run_frame dc_create
dc-shows = refl
