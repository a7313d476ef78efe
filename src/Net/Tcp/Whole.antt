-- ===== src/Net/Tcp/Whole.antt =====
-- src/net/TcpTransport.cpp: messages arrive whole, however the stream is cut up.
use retro_park.Base.{
  ℕ, zero, suc, ◌+◌, ◌-◌, ◌%◌, ◌^◌, ◌≤◌, ◌<◌, ◌≡◌, refl, sym, ap, ◌∙◌, arith, min, true, Option,
  none, some, List, [], ◌∷◌, ◌++◌, length, take, drop, append_assoc, append-nil, All, length-drop,
  drop-append_le, take-append_le, take-drop, length-take,
}
use retro_park.Abi.{RpResult}
use retro_park.Net.Tcp.{
  SendAnswer, took, RecvAnswer, gave, Socket, can_ask, send_answer, recv_answer, send_all, send,
  header, recv_exact, read_length, recv_payload, recv,
}
use retro_park.Net.Tcp.Returns.{recv_exact-gave, called}

-- What a message is on the stream
abbrev pub framed : List ℕ → List ℕ
framed m = header (length m % 2 ^ 32) ++ m

can_ask-small : (n : ℕ) → 0 < n → n < 2 ^ 31 → can_ask n ≡ true
can_ask-small n pos small = ground arith

-- Below 2 ^ 31 a length is asked for as it is.
send_answer-small :
    (n r : ℕ) → 0 < n → n < 2 ^ 31 → send_answer n (took r) ≡ took (min r (n % 2 ^ 32 - 1))
send_answer-small n r pos small = rw (can_ask-small n pos small) refl

recv_answer-small : (n r : ℕ) → n < 2 ^ 31 - 1 → recv_answer (suc n) (gave r) ≡ gave (min r n)
recv_answer-small n r small =
    let exact : suc n % 2 ^ 32 - 1 ≡ n = omega arith in
    rw (can_ask-small (suc n) (omega arith) (omega arith)) (ap (λ k. gave (min r k)) exact)

send_all-took :
    (fuel : ℕ) (answers : ℕ → SendAnswer) (b : ℕ) (bs : List ℕ) (s : Socket) (r : ℕ)
    → send_answer (length (b ∷ bs)) (answers s.calls) ≡ took r
    → send_all (suc fuel) answers (b ∷ bs) s
      ≡ send_all fuel answers
          (drop r bs)
          (record s { calls = s.calls + 1; out_stream = s.out_stream ++ b ∷ take r bs })
unfolding send_all
send_all-took fuel answers b bs s r e = rw (e, send_all) refl

send_all-whole :
    (fuel : ℕ) (f : ℕ → ℕ) (bs : List ℕ) (s : Socket)
    → length bs < 2 ^ 31
    → length bs ≤ fuel
    → (s' : Socket) × (send_all fuel (λ i. took (f i)) bs s ≡ some (true, s'))
      × (s'.out_stream ≡ s.out_stream ++ bs)
unfolding send_all
send_all-whole zero f [] s small h = (s, refl, sym (append-nil s.out_stream))
send_all-whole (suc fuel) f [] s small h = (s, refl, sym (append-nil s.out_stream))
send_all-whole zero f (b ∷ bs) s small h = absurd (omega arith)
send_all-whole (suc fuel) f (b ∷ bs) s small h =
    let n = length (b ∷ bs) in
    let r = min (f s.calls) (n % 2 ^ 32 - 1) in
    let s1 : Socket = record s {
      calls = s.calls + 1;
      out_stream = s.out_stream ++ b ∷ take r bs;
    } in
    let (s', e, w) =
      send_all-whole fuel f (drop r bs) s1 (omega (arith, length-drop {0} r bs))
        (omega (arith, length-drop {0} r bs)) in
    (
      s',
      send_all-took fuel (λ i. took (f i)) b bs s r
            (send_answer-small n (f s.calls) (omega arith) small)
          ∙ e,
      w
          ∙ append_assoc s.out_stream (b ∷ take r bs) (drop r bs)
          ∙ ap (λ l. s.out_stream ++ b ∷ l) (take-drop r bs),
    )

send-whole :
    (fuel : ℕ) (f : ℕ → ℕ) (m : List ℕ) (s : Socket)
    → 4 ≤ fuel
    → length m < 2 ^ 31
    → length m ≤ fuel
    → (s' : Socket) × (send fuel (λ i. took (f i)) m (some s) ≡ some (RpResult.ok, some s'))
      × (s'.out_stream ≡ s.out_stream ++ framed m)
unfolding send
send-whole fuel f m s h4 short h =
    let hdr = header (length m % 2 ^ 32) in
    let (s1, e1, w1) = send_all-whole fuel f hdr s (omega arith) (omega arith) in
    let (s2, e2, w2) = send_all-whole fuel f m s1 short h in
    (s2, rw (e1, e2) refl, w2 ∙ ap (λ l. l ++ m) w1 ∙ append_assoc s.out_stream hdr m)

recv_exact-whole :
    (fuel : ℕ) (g : ℕ → ℕ) (xs rest got : List ℕ) (s : Socket)
    → length xs < 2 ^ 31
    → length xs ≤ fuel
    → s.in_stream ≡ xs ++ rest
    → (s' : Socket) × (recv_exact fuel (λ i. gave (g i)) (length xs) got s
        ≡ some ((RpResult.ok, got ++ xs), s'))
      × (s'.in_stream ≡ rest)
unfolding recv_exact
recv_exact-whole zero g [] rest got s small h e =
    (s, ap (λ l. some ((RpResult.ok, l), s)) (sym (append-nil got)), e)
recv_exact-whole (suc fuel) g [] rest got s small h e =
    (s, ap (λ l. some ((RpResult.ok, l), s)) (sym (append-nil got)), e)
recv_exact-whole zero g (x ∷ xs) rest got s small h e = absurd (omega arith)
recv_exact-whole (suc fuel) g (x ∷ xs) rest got s small h e =
    let r = min (g s.calls) (length xs) in
    let k = min r (length xs) in
    let fits : k ≤ length xs = omega arith in
    let chunk : take k (xs ++ rest) ≡ take k xs = take-append_le k xs rest fits in
    let left : length xs - length (take k (xs ++ rest)) ≡ length (drop k xs) =
      omega (arith, ap length chunk, length-take {0} k xs fits, length-drop {0} k xs) in
    let got' = got ++ x ∷ take k (xs ++ rest) in
    let s1 : Socket = record (called s) { in_stream = drop k (xs ++ rest) } in
    let (s', i, w) =
      recv_exact-whole fuel g (drop k xs) rest got' s1 (omega (arith, length-drop {0} k xs))
        (omega (arith, length-drop {0} k xs)) (sym (drop-append_le k xs rest fits)) in
    let all : got' ++ drop k xs ≡ got ++ x ∷ xs =
      append_assoc got (x ∷ take k (xs ++ rest)) (drop k xs)
      ∙ ap (λ l. got ++ x ∷ (l ++ drop k xs)) chunk
      ∙ ap (λ l. got ++ x ∷ l) (take-drop k xs) in
    (
      s',
      recv_exact-gave fuel (λ i. gave (g i)) (length xs) got s r x (xs ++ rest)
            (recv_answer-small (length xs) (g s.calls) (omega arith)) e
          ∙ ap (λ n. recv_exact fuel (λ i. gave (g i)) n got' s1) left
          ∙ i
          ∙ ap (λ l. some ((RpResult.ok, l), s')) all,
      w,
    )

read_length-header : (n : ℕ) → n < 2 ^ 32 → read_length (header (n % 2 ^ 32)) ≡ n
read_length-header n h = omega arith

recv_payload-step :
    (fuel : ℕ) (answers : ℕ → RecvAnswer) (hdr : List ℕ) (r : RpResult × List ℕ) (s s' : Socket)
    → recv_exact fuel answers (read_length hdr) [] s ≡ some (r, s')
    → recv_payload fuel answers ((RpResult.ok, hdr), s) ≡ some (r, some s')
unfolding recv_payload
recv_payload-step fuel answers hdr r s s' e = ground (arith, e)

recv-whole :
    (fuel : ℕ) (g : ℕ → ℕ) (m rest : List ℕ) (s : Socket)
    → length m < 2 ^ 31
    → 4 ≤ fuel
    → length m ≤ fuel
    → s.in_stream ≡ framed m ++ rest
    → (s' : Socket) × (recv fuel (λ i. gave (g i)) true true (some s)
        ≡ some ((RpResult.ok, m), some s'))
      × (s'.in_stream ≡ rest)
unfolding recv
recv-whole fuel g m rest s short h4 h e =
    let hdr = header (length m % 2 ^ 32) in
    let (s1, e1, w1) =
      recv_exact-whole fuel g hdr (m ++ rest) [] s (omega arith) h4 (e ∙ append_assoc hdr m rest) in
    let (s2, e2, w2) = recv_exact-whole fuel g m rest [] s1 short h w1 in
    let at =
      ap (λ n. recv_exact fuel (λ i. gave (g i)) n [] s1)
        (read_length-header (length m) (omega arith))
      ∙ e2 in
    (s2, rw e1 (recv_payload-step fuel (λ i. gave (g i)) hdr (RpResult.ok, m) s1 s2 at), w2)

-- Messages sent one after the other, until a send fails
pub send_messages :
    ℕ → (ℕ → SendAnswer) → List (List ℕ) → Option Socket → Option (RpResult × Option Socket)
send_messages fuel answers [] t = some (RpResult.ok, t)
send_messages fuel answers (m ∷ ms) t = elim (send fuel answers m t) [
  | some (RpResult.ok, t') ↦ send_messages fuel answers ms t'
  | some (err, t') ↦ some (err, t')
  | none ↦ none
]

-- Messages received with waiting, until a receive fails or there are as many as asked for
pub recv_messages : ℕ → (ℕ → RecvAnswer) → ℕ → Option Socket → Option (List (List ℕ))
recv_messages fuel answers zero t = some []
recv_messages fuel answers (suc n) t = elim (recv fuel answers true true t) [
  | some ((RpResult.ok, m), t') ↦ elim (recv_messages fuel answers n t') [
    | some ms ↦ some (m ∷ ms)
    | none ↦ none
  ]
  | some ((err, m), t') ↦ none
  | none ↦ none
]

pub stream_of : List (List ℕ) → List ℕ
stream_of [] = []
stream_of (m ∷ ms) = framed m ++ stream_of ms

-- Each message is shorter than 2 ^ 31 bytes and no longer than the fuel.
abbrev pub IsShort : ℕ → List ℕ → Type 0
IsShort fuel m = (length m < 2 ^ 31) × (length m ≤ fuel)

send_messages-whole :
    (fuel : ℕ) (f : ℕ → ℕ) (ms : List (List ℕ)) (s : Socket)
    → 4 ≤ fuel
    → All (IsShort fuel) ms
    → (s' : Socket) × (send_messages fuel (λ i. took (f i)) ms (some s)
        ≡ some (RpResult.ok, some s'))
      × (s'.out_stream ≡ s.out_stream ++ stream_of ms)
unfolding send_messages stream_of
send_messages-whole fuel f [] s h4 h = (s, refl, sym (append-nil s.out_stream))
send_messages-whole fuel f (m ∷ ms) s h4 h =
    let (s1, e1, w1) = send-whole fuel f m s h4 h.0.0 h.0.1 in
    let (s2, e2, w2) = send_messages-whole fuel f ms s1 h4 h.1 in
    (
      s2,
      rw (e1, send_messages) e2,
      w2 ∙ ap (λ l. l ++ stream_of ms) w1 ∙ append_assoc s.out_stream (framed m) (stream_of ms),
    )

recv_messages-whole :
    (fuel : ℕ) (g : ℕ → ℕ) (ms : List (List ℕ)) (s : Socket)
    → 4 ≤ fuel
    → All (IsShort fuel) ms
    → s.in_stream ≡ stream_of ms
    → recv_messages fuel (λ i. gave (g i)) (length ms) (some s) ≡ some ms
unfolding recv_messages stream_of
recv_messages-whole fuel g [] s h4 h e = refl
recv_messages-whole fuel g (m ∷ ms) s h4 h e =
    let (s1, e1, w1) = recv-whole fuel g m (stream_of ms) s h.0.0 h4 h.0.1 e in
    rw (e1, recv_messages-whole fuel g ms s1 h4 h.1 w1, recv_messages) refl

-- Messages that one side sends on a connection without failures arrive at the other, in order and
-- whole, however the calls of either side cut up the stream. No message has 2 ^ 31 bytes or more.
pub recv_messages-send_messages :
    (fuel : ℕ) (f g : ℕ → ℕ) (ms : List (List ℕ)) (s r : Socket)
    → 4 ≤ fuel
    → All (IsShort fuel) ms
    → s.out_stream ≡ []
    → (s' : Socket) × (send_messages fuel (λ i. took (f i)) ms (some s)
        ≡ some (RpResult.ok, some s'))
      × (recv_messages fuel
            (λ i. gave (g i))
            (length ms)
            (some (record r { in_stream = s'.out_stream }))
          ≡ some ms)
recv_messages-send_messages fuel f g ms s r h4 h empty =
    let (s', e, w) = send_messages-whole fuel f ms s h4 h in
    let sent : s'.out_stream ≡ stream_of ms = w ∙ ap (λ l. l ++ stream_of ms) empty in
    (s', e, recv_messages-whole fuel g ms (record r { in_stream = s'.out_stream }) h4 h sent)
