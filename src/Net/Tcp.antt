-- ===== src/Net/Tcp.antt =====
-- src/net/TcpTransport.h and TcpTransport.cpp. What Winsock answers is an argument: the calls of `send`
-- and `recv` of a socket are numbered, and the answers are a function of the number. As documented, a
-- call that succeeds moves at least one byte and at most as many as it is asked for, so that an answer
-- `r` stands for `r + 1` bytes, or as many as there are. A length is passed as an `int`: a call with a
-- negative length fails, and one with length 0 moves nothing. A loop that runs out of fuel is `none`.
pub mod Returns
pub mod Whole
pub mod Open
mod Tests
use retro_park.Base.{
  ℕ, zero, suc, ◌+◌, ◌-◌, ◌*◌, ◌/◌, ◌%◌, ◌^◌, min, Bool, true, false, not, ◌&&◌, Option, none, some,
  List, [], ◌∷◌, ◌++◌, length, take, drop, get_or, ltb, if◌then◌else◌,
}
use retro_park.Abi.{RpResult}

pub data SendAnswer : Type 0 where
  refused : SendAnswer
  took : ℕ → SendAnswer

pub data RecvAnswer : Type 0 where
  closed timed_out broken : RecvAnswer
  gave : ℕ → RecvAnswer

-- A socket with the bytes on their way out, and on their way in
pub record Socket : Type 0 where
  pub calls : ℕ
  pub out_stream : List ℕ
  pub in_stream : List ℕ

-- Whether `int(n)` of a size is above 0
abbrev pub can_ask : ℕ → Bool
can_ask n = ltb 0 (n % 2 ^ 32) && ltb (n % 2 ^ 32) (2 ^ 31)

-- What comes back of `::send` with the length `int(n)`, where the socket would take what the answer says
abbrev pub send_answer : ℕ → SendAnswer → SendAnswer
send_answer n refused = refused
send_answer n (took r) = if can_ask n then took (min r (n % 2 ^ 32 - 1)) else refused

-- The same of `::recv`. A length 0 reads as if the peer had closed, which the caller takes for the same.
abbrev pub recv_answer : ℕ → RecvAnswer → RecvAnswer
recv_answer n (gave r) = if can_ask n then gave (min r (n % 2 ^ 32 - 1)) else broken
recv_answer n closed = closed
recv_answer n timed_out = if can_ask n then timed_out else broken
recv_answer n broken = broken

-- The lambda `send_all`, on the bytes that are left
pub send_all : ℕ → (ℕ → SendAnswer) → List ℕ → Socket → Option (Bool × Socket)
send_all fuel answers [] s = some (true, s)
send_all zero answers (b ∷ bs) s = none
send_all (suc fuel) answers (b ∷ bs) s = elim (send_answer (length (b ∷ bs)) (answers s.calls)) [
  | refused ↦ some (false, record s { calls = s.calls + 1 })
  | took r ↦
      send_all fuel answers (drop r bs)
        (record s { calls = s.calls + 1; out_stream = s.out_stream ++ b ∷ take r bs })
]

-- `{ uint8_t(len), uint8_t(len>>8), uint8_t(len>>16), uint8_t(len>>24) }`
abbrev pub header : ℕ → List ℕ
header len = len % 256 ∷ len / 2 ^ 8 % 256 ∷ len / 2 ^ 16 % 256 ∷ len / 2 ^ 24 % 256 ∷ []

-- A transport is its socket, or `none` where that is INVALID_SOCKET.
pub send : ℕ → (ℕ → SendAnswer) → List ℕ → Option Socket → Option (RpResult × Option Socket)
unfolding send_all
send fuel answers message none = some (RpResult.device, none)
send fuel answers message (some s) =
    elim (send_all fuel answers (header (length message % 2 ^ 32)) s) [
      | none ↦ none
      | some (false, s1) ↦ some (RpResult.device, some s1)
      | some (true, s1) ↦ elim (send_all fuel answers message s1) [
        | none ↦ none
        | some (false, s2) ↦ some (RpResult.device, some s2)
        | some (true, s2) ↦ some (RpResult.ok, some s2)
      ]
    ]

-- `recv_exact`, with the bytes that are left to read and those that have been read. What is in the
-- buffer after an error is not read.
pub recv_exact : ℕ → (ℕ → RecvAnswer) → ℕ → List ℕ → Socket → Option ((RpResult × List ℕ) × Socket)
recv_exact fuel answers zero got s = some ((RpResult.ok, got), s)
recv_exact zero answers (suc n) got s = none
recv_exact (suc fuel) answers (suc n) got s =
    let s' = record s { calls = s.calls + 1 } in
    elim (recv_answer (suc n) (answers s.calls)) [
      | closed ↦ some ((RpResult.device, []), s')
      | timed_out ↦ some ((RpResult.timeout, []), s')
      | broken ↦ some ((RpResult.device, []), s')
      | gave r ↦ elim s.in_stream [
        | [] ↦ some ((RpResult.timeout, []), s')
        | b ∷ bs ↦
            let more = take (min r n) bs in
            recv_exact fuel answers (n - length more) (got ++ b ∷ more)
              (record s' { in_stream = drop (min r n) bs })
      ]
    ]

-- `uint32_t(hdr[0]) | uint32_t(hdr[1])<<8 | uint32_t(hdr[2])<<16 | uint32_t(hdr[3])<<24`, of bytes
abbrev pub read_length : List ℕ → ℕ
read_length hdr =
    get_or hdr 0 0 + get_or hdr 1 0 * 2 ^ 8 + get_or hdr 2 0 * 2 ^ 16 + get_or hdr 3 0 * 2 ^ 24

-- The rest of `recv` after the header
pub recv_payload :
    ℕ
    → (ℕ → RecvAnswer)
    → (RpResult × List ℕ) × Socket
    → Option ((RpResult × List ℕ) × Option Socket)
unfolding recv_exact
recv_payload fuel answers ((RpResult.ok, hdr), s) =
    elim (recv_exact fuel answers (read_length hdr) [] s) [
      | none ↦ none
      | some (r, s') ↦ some (r, some s')
    ]
recv_payload fuel answers ((err, hdr), s) = some ((err, []), some s)

-- `ready` is what `select` answers, if `recv` is not to block.
pub recv :
    ℕ
    → (ℕ → RecvAnswer)
    → Bool
    → Bool
    → Option Socket
    → Option ((RpResult × List ℕ) × Option Socket)
unfolding recv_exact recv_payload
recv fuel answers block ready none = some ((RpResult.device, []), none)
recv fuel answers block ready (some s) =
    if not block && not ready
    then some ((RpResult.not_found, []), some s)
    else elim (recv_exact fuel answers 4 [] s) [
      | none ↦ none
      | some r ↦ recv_payload fuel answers r
    ]
