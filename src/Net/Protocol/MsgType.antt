-- ===== src/Net/Protocol/MsgType.antt =====
-- `MsgType` of src/net/NetProtocol.h, an enum over `uint8_t`: a received byte of any value is one.
use Prim.Native.Nat.{ℕ}

abbrev pub hello : ℕ
hello = 1

abbrev pub state_sync : ℕ
state_sync = 2

abbrev pub input : ℕ
input = 3

abbrev pub checksum : ℕ
checksum = 4
