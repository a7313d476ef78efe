-- ===== src/Net/Tcp/Open.antt =====
-- src/net/TcpTransport.cpp: how a transport comes to be and ends. The state is what the process holds of
-- Winsock: the count `g_wsa_refs` and the sockets that are open. What the calls of Winsock answer is an
-- argument; the texts of errors are left out.
use retro_park.Base.{ℕ, ◌+◌, ◌-◌, ◌≡◌, arith, Bool, true, false, not, ◌&&◌, ◌==◌, if◌then◌else◌}
use retro_park.Abi.{RpResult, is_ok}

pub record Winsock : Type 0 where
  pub wsa_refs : ℕ
  pub sockets : ℕ

-- Whether each call succeeds, `ready` for a `select` above 0, and the parts of `join`
pub record Calls : Type 0 where
  pub startup : Bool
  pub socket : Bool
  pub bind : Bool
  pub listen : Bool
  pub ready : Bool
  pub accept : Bool
  pub address : Bool
  pub connect : Bool

pub wsa_startup : Calls → Winsock → Bool × Winsock
wsa_startup c w =
    if w.wsa_refs == 0 && not c.startup
    then (false, w)
    else (true, record w { wsa_refs = w.wsa_refs + 1 })

-- `WSACleanup` follows when the count is 0.
pub wsa_cleanup : Winsock → Winsock
wsa_cleanup w = record w { wsa_refs = w.wsa_refs - 1 }

abbrev pub open_socket : Winsock → Winsock
open_socket w = record w { sockets = w.sockets + 1 }

abbrev pub closesocket : Winsock → Winsock
closesocket w = record w { sockets = w.sockets - 1 }

-- An error after the socket has been made
pub drop_socket : RpResult → Winsock → RpResult × Winsock
unfolding wsa_cleanup
drop_socket err w = (err, wsa_cleanup (closesocket w))

-- From the socket that listens on
pub listen_on : Calls → Winsock → RpResult × Winsock
unfolding drop_socket wsa_cleanup
listen_on c w =
    if not c.bind
    then drop_socket RpResult.device w
    else if not c.listen
    then drop_socket RpResult.device w
    else if not c.ready
    then drop_socket RpResult.timeout w
    else
        -- the peer, if there is one, and then the listener is closed
        let w' = closesocket (if c.accept then open_socket w else w) in
        if not c.accept then (RpResult.device, wsa_cleanup w') else (RpResult.ok, w')

pub host : Calls → Winsock → RpResult × Winsock
unfolding wsa_startup wsa_cleanup listen_on
host c w0 =
    let (started, w) = wsa_startup c w0 in
    if not started
    then (RpResult.device, w)
    else if not c.socket
    then (RpResult.device, wsa_cleanup w)
    else listen_on c (open_socket w)

pub join : Calls → Winsock → RpResult × Winsock
unfolding wsa_startup wsa_cleanup drop_socket
join c w0 =
    let (started, w) = wsa_startup c w0 in
    if not started
    then (RpResult.device, w)
    else if not c.socket
    then (RpResult.device, wsa_cleanup w)
    else if not c.address
    then drop_socket RpResult.bad_arg (open_socket w)
    else if not c.connect
    then drop_socket RpResult.device (open_socket w)
    else (RpResult.ok, open_socket w)

-- Whether the transport still has its socket, and what the process holds
pub close : Bool × Winsock → Bool × Winsock
unfolding wsa_cleanup
close (false, w) = (false, w)
close (true, w) = (false, wsa_cleanup (closesocket w))

-- What a call leaves behind: one reference and one socket more if it succeeds, and all as it was if not.
abbrev pub Leaves : Winsock → RpResult × Winsock → Type 0
Leaves w (r, w') =
    (w'.wsa_refs ≡ (if is_ok r then w.wsa_refs + 1 else w.wsa_refs))
    × (w'.sockets ≡ (if is_ok r then w.sockets + 1 else w.sockets))

host-Leaves : (c : Calls) (w : Winsock) → Leaves w (host c w)
unfolding host
host-Leaves c w = ground arith

join-Leaves : (c : Calls) (w : Winsock) → Leaves w (join c w)
unfolding join
join-Leaves c w = ground arith

-- Whatever Winsock answers, `host` and `join` leave no socket and no reference behind when they fail,
-- and one of each when they succeed, which one or more calls of `close` give back.
pub host-join-close :
    (c : Calls) (w : Winsock)
    → Leaves w (host c w)
      × Leaves w (join c w)
      × (close (is_ok (host c w).0, (host c w).1) ≡ (false, w))
      × (close (close (is_ok (host c w).0, (host c w).1)) ≡ (false, w))
      × (close (close (is_ok (join c w).0, (join c w).1)) ≡ (false, w))
unfolding close host join
host-join-close c w = (host-Leaves c w, join-Leaves c w, ground arith, ground arith, ground arith)
