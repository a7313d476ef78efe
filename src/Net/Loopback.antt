-- ===== src/Net/Loopback.antt =====
-- src/net/LoopbackTransport.cpp: two sides in one process, a queue of messages for each direction.
mod Tests
use retro_park.Base.{
  ◌≡◌, refl, ap, sym, ◌∙◌, ℕ, zero, suc, Bool, true, false, not, List, [], ◌∷◌, ◌++◌, append_assoc,
  append-nil, length, take, if◌then◌else◌,
}
use retro_park.Abi.{RpResult, is_ok}

pub record Channel : Type 0 where
  pub q : List (List ℕ)
  pub is_open : Bool

-- One side's view: what it reads from, and what it writes to
pub record LoopbackTransport : Type 0 where
  pub inbox : Channel
  pub outbox : Channel

pub send : List ℕ → LoopbackTransport → RpResult × LoopbackTransport
send message t =
    if not t.outbox.is_open
    then (RpResult.device, t)
    else (RpResult.ok, record t { outbox = record t.outbox { q = t.outbox.q ++ message ∷ [] } })

-- `out = std::move(ch->q.front()); ch->q.pop_front();`, or what an empty queue answers
pop : RpResult → Channel → LoopbackTransport → (RpResult × List ℕ) × LoopbackTransport
pop refusal ch t = elim ch.q [
  | [] ↦ ((refusal, []), record t { inbox = ch })
  | message ∷ rest ↦ ((RpResult.ok, message), record t { inbox = record ch { q = rest } })
]

abbrev is_empty : List (List ℕ) → Bool
is_empty [] = true
is_empty (message ∷ q) = false

-- `after` is the channel as the wait on an empty queue leaves it.
pub recv : Bool → Channel → LoopbackTransport → (RpResult × List ℕ) × LoopbackTransport
unfolding pop
recv block after t =
    if not (is_empty t.inbox.q)
    then pop RpResult.internal t.inbox t
    else if not block
    then ((RpResult.not_found, []), t)
    else pop (if after.is_open then RpResult.timeout else RpResult.device) after t

pub connected : LoopbackTransport → Bool
connected t = t.outbox.is_open

pub close : LoopbackTransport → LoopbackTransport
close t = record {
  inbox = record t.inbox { is_open = false };
  outbox = record t.outbox { is_open = false };
}

-- The other side of the same pair of channels
pub peer : LoopbackTransport → LoopbackTransport
peer t = record { inbox = t.outbox; outbox = t.inbox }

pub send_all : List (List ℕ) → LoopbackTransport → LoopbackTransport
send_all [] t = t
send_all (m ∷ ms) t = send_all ms (send m t).1

-- What a number of receives that do not wait bring in
pub recv_all : ℕ → LoopbackTransport → List (List ℕ)
recv_all zero t = []
recv_all (suc n) t =
    let got = recv false t.inbox t in
    let rest = recv_all n got.1 in if is_ok got.0.0 then got.0.1 ∷ rest else []

-- An open channel with this queue
abbrev channel : List (List ℕ) → Channel
channel q = record { q = q; is_open = true }

send_all-outbox :
    (ms : List (List ℕ)) (t : LoopbackTransport)
    → t.outbox.is_open ≡ true
    → (send_all ms t).outbox ≡ record { q = t.outbox.q ++ ms; is_open = true }
unfolding send_all send
send_all-outbox [] t up = cc (append-nil t.outbox.q, up)
send_all-outbox (m ∷ ms) t up =
    let t1 = record t { outbox = record t.outbox { q = t.outbox.q ++ m ∷ [] } } in
    let sent : (send m t).1 ≡ t1 =
      ap
        (λ b.
          let x : RpResult × LoopbackTransport =
            if not b then (RpResult.device, t) else (RpResult.ok, t1) in
          x.1)
        up in
    ap (λ x. (send_all ms x).outbox) sent
    ∙ send_all-outbox ms t1 up
    ∙ ap (λ l. channel l) (append_assoc t.outbox.q (m ∷ []) ms)

recv_all-take :
    (n : ℕ) (q : List (List ℕ)) (o : Bool) (c : Channel)
    → recv_all n (record { inbox = record { q = q; is_open = o }; outbox = c }) ≡ take n q
unfolding recv_all recv pop
recv_all-take zero q o c = refl
recv_all-take (suc n) [] o c = refl
recv_all-take (suc n) (m ∷ q) o c = ap (λ l. m ∷ l) (recv_all-take n q o c)

take-length : (q : List (List ℕ)) → take (length q) q ≡ q
take-length [] = refl
take-length (m ∷ q) = ap (λ l. m ∷ l) (take-length q)

-- All messages that one side sends arrive at the other, whole and in order, after what was already on
-- its way, also if the sender closes the transport in between.
pub recv_all-send_all :
    (ms : List (List ℕ)) (t : LoopbackTransport)
    → t.outbox.is_open ≡ true
    → recv_all (length (t.outbox.q ++ ms)) (peer (close (send_all ms t))) ≡ t.outbox.q ++ ms
unfolding peer close
recv_all-send_all ms t up =
    let all = t.outbox.q ++ ms in
    recv_all-take (length all) (send_all ms t).outbox.q false
      (record { q = (send_all ms t).inbox.q; is_open = false })
    ∙ ap (λ (c : Channel). take (length all) c.q) (send_all-outbox ms t up)
    ∙ take-length all
