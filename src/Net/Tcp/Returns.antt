-- ===== src/Net/Tcp/Returns.antt =====
-- src/net/TcpTransport.cpp: the loops of `send` and `recv` end.
use retro_park.Base.{
  ℕ, zero, suc, ◌+◌, ◌-◌, ◌%◌, ◌^◌, ◌≤◌, ◌<◌, ◌≡◌, ◌≢◌, refl, subst, ◌∙◌, arith, min, Bool, true,
  false, not, ◌&&◌, Option, none, some, List, [], ◌∷◌, ◌++◌, length, take, drop, length-drop,
  Bool-cases, inl, inr, ◌⊎◌, All, All-append, All-take, All-drop,
}
use retro_park.Abi.{RpResult, IsByte}
use retro_park.Net.Tcp.{
  SendAnswer, refused, took, RecvAnswer, closed, timed_out, broken, gave, Socket, send_answer,
  recv_answer, send_all, send, header, recv_exact, read_length, recv_payload, recv,
}

pub List-cases {ℓ} :
    {A : Type ℓ} (xs : List A) → (xs ≡ []) ⊎ ((a : A) × (as' : List A) × (xs ≡ a ∷ as'))
List-cases [] = inl refl
List-cases (a ∷ as') = inr (a, as', refl)

pub SendAnswer-cases : (a : SendAnswer) → (a ≡ refused) ⊎ ((r : ℕ) × (a ≡ took r))
SendAnswer-cases refused = inl refl
SendAnswer-cases (took r) = inr (r, refl)

-- No answer of the network makes a loop run on for more rounds than there are bytes.
send_all-returns :
    (fuel : ℕ) (answers : ℕ → SendAnswer) (bs : List ℕ) (s : Socket)
    → length bs ≤ fuel
    → (r : Bool × Socket) × (send_all fuel answers bs s ≡ some r)
unfolding send_all
send_all-returns zero answers [] s h = ((true, s), refl)
send_all-returns (suc fuel) answers [] s h = ((true, s), refl)
send_all-returns zero answers (b ∷ bs) s h = absurd (omega arith)
send_all-returns (suc fuel) answers (b ∷ bs) s h =
    elim (SendAnswer-cases (send_answer (length (b ∷ bs)) (answers s.calls))) [
      | inl e ↦ ((false, record s { calls = s.calls + 1 }), rw (e, send_all) refl)
      | inr (r, e) ↦
          rw (e, send_all)
            (send_all-returns fuel answers (drop r bs) _ (omega (arith, length-drop {0} r bs)))
    ]

pub RecvAnswer-cases :
    (a : RecvAnswer) → (a ≡ closed) ⊎ (a ≡ timed_out) ⊎ (a ≡ broken) ⊎ ((r : ℕ) × (a ≡ gave r))
RecvAnswer-cases closed = inl refl
RecvAnswer-cases timed_out = inr (inl refl)
RecvAnswer-cases broken = inr (inr (inl refl))
RecvAnswer-cases (gave r) = inr (inr (inr (r, refl)))

abbrev pub called : Socket → Socket
called s = record s { calls = s.calls + 1 }

-- A call of the loop on an empty stream, and on one with a byte
recv_exact-dry :
    (fuel : ℕ) (answers : ℕ → RecvAnswer) (n : ℕ) (got : List ℕ) (s : Socket) (r : ℕ)
    → recv_answer (suc n) (answers s.calls) ≡ gave r
    → s.in_stream ≡ []
    → recv_exact (suc fuel) answers (suc n) got s ≡ some ((RpResult.timeout, []), called s)
unfolding recv_exact
recv_exact-dry fuel answers n got s r e f = ground arith

pub recv_exact-gave :
    (fuel : ℕ) (answers : ℕ → RecvAnswer) (n : ℕ) (got : List ℕ) (s : Socket) (r b : ℕ)
    (bs : List ℕ)
    → recv_answer (suc n) (answers s.calls) ≡ gave r
    → s.in_stream ≡ b ∷ bs
    → recv_exact (suc fuel) answers (suc n) got s
      ≡ recv_exact fuel answers
          (n - length (take (min r n) bs))
          (got ++ b ∷ take (min r n) bs)
          (record (called s) { in_stream = drop (min r n) bs })
unfolding recv_exact
recv_exact-gave fuel answers n got s r b bs e f = ground arith

abbrev pub AreBytes : List ℕ → Type 0
AreBytes = All IsByte

recv_exact-returns :
    (fuel : ℕ) (answers : ℕ → RecvAnswer) (n : ℕ) (got : List ℕ) (s : Socket)
    → n ≤ fuel
    → AreBytes got
    → AreBytes s.in_stream
    → (r : (RpResult × List ℕ) × Socket) × (recv_exact fuel answers n got s ≡ some r)
      × AreBytes r.0.1
      × AreBytes r.1.in_stream
unfolding recv_exact
recv_exact-returns zero answers zero got s h hg hs = (((RpResult.ok, got), s), refl, hg, hs)
recv_exact-returns (suc fuel) answers zero got s h hg hs = (((RpResult.ok, got), s), refl, hg, hs)
recv_exact-returns zero answers (suc n) got s h hg hs = absurd (omega arith)
recv_exact-returns (suc fuel) answers (suc n) got s h hg hs =
    elim (RecvAnswer-cases (recv_answer (suc n) (answers s.calls))) [
      | inl e ↦ (((RpResult.device, []), called s), rw (e, recv_exact) refl, tt, hs)
      | inr (inl e) ↦ (((RpResult.timeout, []), called s), rw (e, recv_exact) refl, tt, hs)
      | inr (inr (inl e)) ↦ (((RpResult.device, []), called s), rw (e, recv_exact) refl, tt, hs)
      | inr (inr (inr (r, e))) ↦ elim (List-cases s.in_stream) [
        | inl f ↦
            (((RpResult.timeout, []), called s), recv_exact-dry fuel answers n got s r e f, tt, hs)
        | inr (b, bs, f) ↦
            let hb : AreBytes (b ∷ bs) = subst AreBytes f hs in
            let (x, i, hx, hy) =
              recv_exact-returns fuel answers (n - length (take (min r n) bs))
                (got ++ b ∷ take (min r n) bs) (record (called s) { in_stream = drop (min r n) bs })
                (omega arith)
                (All-append IsByte got (b ∷ take (min r n) bs) hg
                  (hb.0, All-take IsByte (min r n) bs hb.1))
                (All-drop IsByte (min r n) bs hb.1) in
            (x, recv_exact-gave fuel answers n got s r b bs e f ∙ i, hx, hy)
      ]
    ]

-- The bytes that a header is read from give a length below 2 ^ 32.
read_length-bound : (hdr : List ℕ) → AreBytes hdr → read_length hdr < 2 ^ 32
read_length-bound [] h = omega arith
read_length-bound (a ∷ []) h = omega arith
read_length-bound (a ∷ b ∷ []) h = omega arith
read_length-bound (a ∷ b ∷ c ∷ []) h = omega arith
read_length-bound (a ∷ b ∷ c ∷ d ∷ rest) h = omega arith

recv_payload-returns :
    (fuel : ℕ) (answers : ℕ → RecvAnswer) (r : (RpResult × List ℕ) × Socket)
    → read_length r.0.1 ≤ fuel
    → AreBytes r.1.in_stream
    → recv_payload fuel answers r ≢ none
unfolding recv_payload
recv_payload-returns fuel answers ((RpResult.ok, hdr), s) h hs =
    let (x, e, hx, hy) = recv_exact-returns fuel answers (read_length hdr) [] s h tt hs in
    ground (arith, e)
recv_payload-returns fuel answers ((err, hdr), s) h hs = cc

send-returns :
    (fuel : ℕ) (answers : ℕ → SendAnswer) (message : List ℕ) (t : Option Socket)
    → 4 ≤ fuel
    → length message ≤ fuel
    → send fuel answers message t ≢ none
unfolding send
send-returns fuel answers message none h4 h = cc
send-returns fuel answers message (some s) h4 h =
    let ((done, s1), e) =
      send_all-returns fuel answers (header (length message % 2 ^ 32)) s (omega arith) in
    let ((done', s2), e') = send_all-returns fuel answers message s1 h in
    elim (Bool-cases done) [
      | inl d ↦ elim (Bool-cases done') [
        | inl d' ↦ rw (e, d, e', d') (cc)
        | inr d' ↦ rw (e, d, e', d') (cc)
      ]
      | inr d ↦ rw (e, d) (cc)
    ]

recv-returns :
    (fuel : ℕ) (answers : ℕ → RecvAnswer) (block ready : Bool) (s : Socket)
    → 2 ^ 32 ≤ fuel
    → AreBytes s.in_stream
    → recv fuel answers block ready (some s) ≢ none
unfolding recv
recv-returns fuel answers block ready s h hs =
    let (r, e, hx, hy) = recv_exact-returns fuel answers 4 [] s (omega arith) tt hs in
    let bound : read_length r.0.1 < 2 ^ 32 = read_length-bound r.0.1 hx in
    let back = recv_payload-returns fuel answers r (omega arith) hy in
    elim (Bool-cases (not block && not ready)) [
      | inl idle ↦ rw idle (cc)
      | inr busy ↦ rw (busy, e) back
    ]

-- Whatever the network answers and however it cuts up the stream, a send and a receive come back:
-- the loops of a send run for no more rounds than four and the bytes of the message, and those of a
-- receive for no more than `2 ^ 32`. The stream consists of bytes.
pub send_recv-return :
    (fuel : ℕ) (sends : ℕ → SendAnswer) (recvs : ℕ → RecvAnswer) (block ready : Bool)
    (message : List ℕ) (s : Socket)
    → 2 ^ 32 ≤ fuel
    → length message ≤ fuel
    → AreBytes s.in_stream
    → (send fuel sends message (some s) ≢ none) × (recv fuel recvs block ready (some s) ≢ none)
send_recv-return fuel sends recvs block ready message s h hm hs = (
  send-returns fuel sends message (some s) (omega arith) hm,
  recv-returns fuel recvs block ready s h hs,
)
