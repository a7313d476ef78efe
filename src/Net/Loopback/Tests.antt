-- ===== src/Net/Loopback/Tests.antt =====
-- One message on its way, two more, and a transport that is closed.
use retro_park.Base.{◌≡◌, refl, true, [], ◌∷◌}
use retro_park.Net.Loopback.{LoopbackTransport, send_all, recv_all, peer, close, recv_all-send_all}

abbrev side : LoopbackTransport
side = record {
  inbox = record { q = []; is_open = true };
  outbox = record { q = (1 ∷ []) ∷ []; is_open = true };
}

recv_all-send_all_example :
    recv_all 3 (peer (close (send_all ((2 ∷ []) ∷ [] ∷ []) side))) ≡ (1 ∷ []) ∷ (2 ∷ []) ∷ [] ∷ []
recv_all-send_all_example = recv_all-send_all ((2 ∷ []) ∷ [] ∷ []) side refl
