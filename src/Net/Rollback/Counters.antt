-- ===== src/Net/Rollback/Counters.antt =====
-- The end of a tick in src/net/RollbackSession.cpp leaves the counters of the session alone.
use retro_park.Base.{ℕ, ◌≡◌, refl, List, [], ◌∷◌, ◌⊎◌, inl, inr, arith}
use retro_park.Base.Map.{entries}
use retro_park.Net.Rollback.{
  Session, RbStatus, check_desync, check_desync_over, prune, maybe_send_checksum, close_tick,
}

-- The counters of a session
pub record SameCounters {S : Type 0} (s s' : Session S) : Type 0 where
  pub frame : s'.frame ≡ s.frame
  pub verified : s'.verified ≡ s.verified
  pub confirmed : s'.confirmed ≡ s.confirmed
  pub have_confirmed : s'.have_confirmed ≡ s.have_confirmed
  pub max_prediction : s'.max_prediction ≡ s.max_prediction

-- The same but for the frame
pub record Steady {S : Type 0} (s s' : Session S) : Type 0 where
  pub verified : s'.verified ≡ s.verified
  pub confirmed : s'.confirmed ≡ s.confirmed
  pub have_confirmed : s'.have_confirmed ≡ s.have_confirmed
  pub max_prediction : s'.max_prediction ≡ s.max_prediction

module _ {S : Type 0} where
  pub check_desync_over-status :
      (own : List (ℕ × ℕ)) (s : Session S)
      → (check_desync_over own s ≡ s)
        ⊎ (check_desync_over own s ≡ record s { status = RbStatus.desync })
  unfolding check_desync_over
  check_desync_over-status [] s = inl refl
  check_desync_over-status ((k, crc) ∷ own) s = elim (check_desync_over-status own s) [
    | inl e ↦ ground (arith, e)
    | inr e ↦ ground (arith, e)
  ]

  check_desync-SameCounters : (s : Session S) → SameCounters s (check_desync s)
  unfolding check_desync
  check_desync-SameCounters s = elim (check_desync_over-status (entries s.own_crc) s) [
    | inl e ↦ ground (arith, e)
    | inr e ↦ ground (arith, e)
  ]

  maybe_send_checksum-SameCounters : (s : Session S) → SameCounters s (maybe_send_checksum s)
  unfolding maybe_send_checksum
  maybe_send_checksum-SameCounters s = ground arith

  pub close_tick-SameCounters : (s : Session S) → SameCounters s (close_tick s)
  unfolding close_tick prune
  close_tick-SameCounters s =
      let sent = maybe_send_checksum s in
      ground (arith, maybe_send_checksum-SameCounters s, check_desync-SameCounters sent)
