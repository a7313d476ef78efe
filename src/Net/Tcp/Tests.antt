-- ===== src/Net/Tcp/Tests.antt =====
-- Connections that move one byte at a time, or all they can, and one that breaks.
use retro_park.Base.{ℕ, ◌≡◌, ◌≢◌, ◌^◌, refl, arith, true, false, none, some, List, [], ◌∷◌}
use retro_park.Abi.{RpResult, is_ok}
use retro_park.Net.Tcp.{Socket, took, refused, gave, send, recv}
use retro_park.Net.Tcp.Returns.{send_recv-return}
use retro_park.Net.Tcp.Whole.{send_messages, recv_messages, recv_messages-send_messages}
use retro_park.Net.Tcp.Open.{Winsock, Calls, host, join, close, Leaves, host-join-close}

abbrev fresh : Socket
fresh = record { calls = 0; out_stream = []; in_stream = [] }

abbrev half_read : Socket
half_read = record { calls = 0; out_stream = []; in_stream = 3 ∷ 0 ∷ 0 ∷ 0 ∷ 7 ∷ [] }

abbrev messages : List (List ℕ)
messages = (1 ∷ 2 ∷ 3 ∷ []) ∷ [] ∷ (9 ∷ []) ∷ []

recv_messages-send_messages_example :
    (s' : Socket) × (send_messages 4 (λ i. took 0) messages (some fresh)
      ≡ some (RpResult.ok, some s'))
    × (recv_messages 4 (λ i. gave 100) 3 (some (record fresh { in_stream = s'.out_stream }))
        ≡ some messages)
recv_messages-send_messages_example =
    recv_messages-send_messages 4 (λ i. 0) (λ i. 100) messages fresh fresh (omega arith)
      (omega arith) refl

send_recv-return_example :
    (send (2 ^ 32) (λ i. refused) (1 ∷ []) (some half_read) ≢ none)
    × (recv (2 ^ 32) (λ i. gave 0) true true (some half_read) ≢ none)
send_recv-return_example =
    send_recv-return (2 ^ 32) (λ i. refused) (λ i. gave 0) true true (1 ∷ []) half_read
      (omega arith) (omega arith) (omega arith)

-- The header is gone after a message that comes too late.
half_read-lost :
    recv 5 (λ i. gave 0) true true (some half_read)
    ≡ some ((RpResult.timeout, []), some (record { calls = 6; out_stream = []; in_stream = [] }))
unfolding recv
half_read-lost = refl

abbrev no_bind : Calls
no_bind = record {
  startup = true;
  socket = true;
  bind = false;
  listen = true;
  ready = true;
  accept = true;
  address = true;
  connect = true;
}

abbrev idle : Winsock
idle = record { wsa_refs = 0; sockets = 0 }

host-join-close_example :
    Leaves idle (host no_bind idle)
    × Leaves idle (join no_bind idle)
    × (close (is_ok (host no_bind idle).0, (host no_bind idle).1) ≡ (false, idle))
    × (close (close (is_ok (host no_bind idle).0, (host no_bind idle).1)) ≡ (false, idle))
    × (close (close (is_ok (join no_bind idle).0, (join no_bind idle).1)) ≡ (false, idle))
host-join-close_example = host-join-close no_bind idle
