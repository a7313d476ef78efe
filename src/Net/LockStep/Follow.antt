-- ===== src/Net/LockStep/Follow.antt =====
-- The lockstep session of src/net/NetSession.cpp follows the game as it is played: every frame with the
-- two inputs that belong to it.
use retro_park.Base.{
  ◌≡◌, refl, sym, ap, ◌∙◌, ℕ, ◌+◌, ◌-◌, ◌%◌, ◌^◌, ◌≤◌, ◌<◌, Bool, true, false, Option, none, some,
  List, [], ◌∷◌, ◌==◌, if◌then◌else◌, arith, Bool-cases, inl, inr, ==_iff, ◌≢◌, ◌⊎◌, subst, ◌++◌,
}
use retro_park.Base.Map.{Map, find, insert, find-insert}
use retro_park.Abi.{RpResult, is_ok, InputState, neutral}
use retro_park.Net.Protocol
use retro_park.Net.Protocol.{Read, got, refused, out_of_bounds}
use retro_park.Net.Protocol.MsgType
use retro_park.Net.Machine.{Emulation}
use retro_park.Net.Rollback.{add_u64}
use retro_park.Net.Rollback.Replay.{replay}
use retro_park.Net.LockStep.{
  NetSession, NetStatus, Flow, next, returns, ◌>>=◌, is_disconnected, tick_send, take_input,
  take_checksum, receive, received, await,
}

-- A statement goes on with a session that meets `P`, or returns one that meets `Q`.
pub data Goes {S : Type 0} (P Q : NetSession S → Type 0) : Flow S → Type 0 where
  goes : (s : NetSession S) → P s → Goes P Q (next s)
  stops : (s : NetSession S) → Q s → Goes P Q (returns s)

pub Goes-bind :
    {S : Type 0} {P P' Q : NetSession S → Type 0} {m : Flow S} {f : NetSession S → Flow S}
    → Goes P Q m
    → ((s : NetSession S) → P s → Goes P' Q (f s))
    → Goes P' Q (m >>= f)
Goes-bind (goes s h) then_ = then_ s h
Goes-bind (stops s h) then_ = stops s h

pub if-Goes :
    {S : Type 0} {P Q : NetSession S → Type 0} (c : Bool) {a b : Flow S}
    → (c ≡ true → Goes P Q a)
    → (c ≡ false → Goes P Q b)
    → Goes P Q (if c then a else b)
if-Goes true taken skipped = taken refl
if-Goes false taken skipped = skipped refl

abbrev pub is_cut : NetStatus → Bool
is_cut NetStatus.desync = true
is_cut NetStatus.disconnected = true
is_cut _ = false

-- What comes in is what the other side plays.
abbrev pub Fair : (ℕ → InputState) → List ℕ → Type 0
Fair theirs bytes =
    (i : Protocol.Input) → Protocol.decode_input bytes ≡ got i → theirs i.frame ≡ i.state

abbrev pub AllFair : (ℕ → InputState) → List (RpResult × List ℕ) → Type 0
AllFair theirs [] = Unit {0}
AllFair theirs ((r, bytes) ∷ polls) = Fair theirs bytes × AllFair theirs polls

-- The state before frame `frame` is that of the game from `c` on, and the inputs that are kept are
-- those of the two sides: neutral before `delay`, and from there on, up to `bound`, all of its own.
pub record Follows {S C : Type 0} (em : Emulation S C) (port : ℕ) (c : C)
    (mine theirs : ℕ → InputState) (machine : S) (local_port remote_port delay frame bound : ℕ)
    (local remote : Map InputState) : Type 0 where
  pub two : port ≤ 1
  pub side : local_port ≡ port
  pub other : remote_port ≡ 1 - port
  pub now : em.core machine ≡ replay em.step port c mine theirs frame
  pub own : (k : ℕ) (v : InputState) → find k local ≡ some v → mine k ≡ v
  pub heard : (k : ℕ) (v : InputState) → find k remote ≡ some v → theirs k ≡ v
  pub early_mine : (k : ℕ) → k < delay → mine k ≡ neutral
  pub early_theirs : (k : ℕ) → k < delay → theirs k ≡ neutral
  pub kept : (k : ℕ) → frame ≤ k → delay ≤ k → k < bound → find k local ≡ some (mine k)

module _ {S C : Type 0} (em : Emulation S C) (port : ℕ) (c : C) (mine theirs : ℕ → InputState) where
  abbrev pub FollowsTo : ℕ → NetSession S → Type 0
  FollowsTo bound s =
      Follows em port c mine theirs s.machine s.local_port s.remote_port s.delay s.frame bound
        s.local_pending s.remote_pending

  -- Between two ticks
  abbrev pub InStep : NetSession S → Type 0
  InStep s = FollowsTo (s.frame + s.delay) s

  -- An entry of a map after `m[k] = x`, when all entries met `f`
  insert-meets :
      (f : ℕ → InputState) (a k : ℕ) (x v : InputState) (m : Map InputState)
      → f a ≡ x
      → ((v' : InputState) → find k m ≡ some v' → f k ≡ v')
      → find k (insert a x m) ≡ some v
      → f k ≡ v
  insert-meets f a k x v m new old e = elim (Bool-cases (a == k)) [
    | inl same ↦
        let at : a ≡ k = (==_iff a k).0 same in
        let put : some x ≡ some v =
          (let g : (if a == k then some x else find k m) ≡ some x = rw same refl in
            sym g ∙ sym (find-insert a k x m) ∙ e) in
        let xv : x ≡ v = cc put in ap f (sym at) ∙ new ∙ xv
    | inr other ↦ old v (
        let g : (if a == k then some x else find k m) ≡ find k m = rw other refl in
        sym g ∙ sym (find-insert a k x m) ∙ e)
  ]

  if-holds :
      (P : NetSession S → Type 0) (t : Bool) (a b : NetSession S)
      → P a
      → P b
      → P (if t then a else b)
  if-holds P true a b h h' = h
  if-holds P false a b h h' = h'

  pub tick_send-Follows :
      (local_now : InputState) (sends : RpResult) (s : NetSession S)
      → InStep s
      → mine (s.frame + s.delay) ≡ local_now
      → s.frame + s.delay < 2 ^ 64
      → is_disconnected s.status ≡ false
      → FollowsTo (s.frame + s.delay + 1) (tick_send local_now sends s)
        × ((tick_send local_now sends s).frame ≡ s.frame)
        × ((tick_send local_now sends s).machine ≡ s.machine)
        × ((tick_send local_now sends s).delay ≡ s.delay)
  unfolding tick_send
  tick_send-Follows local_now sends s i says small up =
      let a = add_u64 s.frame s.delay in
      let at : a ≡ s.frame + s.delay = omega arith in
      let new : mine a ≡ local_now = ap mine at ∙ says in
      let message =
        Protocol.encode_input
          (record { frame = a; port = s.local_port % 2 ^ 8; state = local_now }) in
      let s' = record s { local_pending = insert a local_now s.local_pending } in
      let P : NetSession S → Type 0 = λ x.
        FollowsTo (s.frame + s.delay + 1) x
        × (x.frame ≡ s.frame)
        × (x.machine ≡ s.machine)
        × (x.delay ≡ s.delay) in
      let whole : P s' = (
        record {
          two = i.two;
          side = i.side;
          other = i.other;
          now = i.now;
          own = λ k v e. insert-meets mine a k local_now v s.local_pending new (i.own k) e;
          heard = i.heard;
          early_mine = i.early_mine;
          early_theirs = i.early_theirs;
          kept = λ k from late under.
              find-insert a k local_now s.local_pending ∙ (elim (Bool-cases (a == k)) [
                | inl same ↦
                    let k_at : a ≡ k = (==_iff a k).0 same in
                    rw same (ap some (sym new ∙ ap mine k_at))
                | inr differs ↦
                    let ne : k ≢ a =
                      λ q. (let t : (a == k) ≡ true = (==_iff a k).1 (sym q) in cc (t, differs)) in
                    rw differs (i.kept k from late (omega (arith, ne, at, under)))
              ]);
        },
        refl,
        refl,
        refl,
      ) in
      subst
        (λ t. P (
          if t
          then s
          else if is_ok sends
          then record s' { sent = s.sent ++ message ∷ [] }
          else record s' { status = NetStatus.disconnected }))
        (sym up)
        (if-holds P (is_ok sends) (record s' { sent = s.sent ++ message ∷ [] })
          (record s' { status = NetStatus.disconnected }) whole whole)

  -- What comes in may follow, too, and changes neither the frame nor the machine.
  abbrev pub Took : ℕ → NetSession S → NetSession S → Type 0
  Took b s s' =
      FollowsTo b s' × (s'.frame ≡ s.frame) × (s'.machine ≡ s.machine) × (s'.delay ≡ s.delay)

  option_holds :
      {A : Type 0} (P : NetSession S → Type 0) (o : Option A) (a : NetSession S)
      (f : A → NetSession S)
      → P a
      → ((x : A) → P (f x))
      → P (elim o [ none ↦ a | some x ↦ f x ])
  option_holds P none a f h h' = h
  option_holds P (some x) a f h h' = h' x

  take_input-Follows :
      (m : Read Protocol.Input) (b : ℕ) (s : NetSession S)
      → FollowsTo b s
      → ((i : Protocol.Input) → m ≡ got i → theirs i.frame ≡ i.state)
      → Took b s (take_input m s)
  unfolding take_input
  take_input-Follows refused b s i fair = (i, refl, refl, refl)
  take_input-Follows out_of_bounds b s i fair = (i, refl, refl, refl)
  take_input-Follows (got x) b s i fair = (
    record {
      two = i.two;
      side = i.side;
      other = i.other;
      now = i.now;
      own = i.own;
      heard = λ k v e.
          insert-meets theirs x.frame k x.state v s.remote_pending (fair x refl) (i.heard k) e;
      early_mine = i.early_mine;
      early_theirs = i.early_theirs;
      kept = i.kept;
    },
    refl,
    refl,
    refl,
  )

  take_checksum-Follows :
      (m : Read Protocol.Checksum) (b : ℕ) (s : NetSession S)
      → FollowsTo b s
      → Took b s (take_checksum m s)
  unfolding take_checksum
  take_checksum-Follows refused b s i = (i, refl, refl, refl)
  take_checksum-Follows out_of_bounds b s i = (i, refl, refl, refl)
  take_checksum-Follows (got x) b s i = (i, refl, refl, refl)

  receive-Follows :
      (bytes : List ℕ) (b : ℕ) (s : NetSession S)
      → FollowsTo b s
      → Fair theirs bytes
      → Took b s (receive bytes s)
  unfolding receive
  receive-Follows bytes b s i fair =
      option_holds (Took b s) (Protocol.peek_type bytes) s
        (λ t.
          if t == MsgType.input
          then take_input (Protocol.decode_input bytes) s
          else if t == MsgType.checksum
          then take_checksum (Protocol.decode_checksum bytes) s
          else s)
        (i, refl, refl, refl)
        (λ t.
          if-holds (Took b s) (t == MsgType.input) _ _
            (take_input-Follows (Protocol.decode_input bytes) b s i fair)
            (if-holds (Took b s) (t == MsgType.checksum) _ _
              (take_checksum-Follows (Protocol.decode_checksum bytes) b s i) (i, refl, refl, refl)))

  -- The input of the other side for the frame is in.
  abbrev pub Heard : ℕ → NetSession S → NetSession S → Type 0
  Heard b s s' = Took b s s' × (find s'.frame s'.remote_pending ≢ none)

  -- The wait ends without it.
  abbrev pub GaveUp : ℕ → NetSession S → NetSession S → Type 0
  GaveUp b s s' = Took b s s' × ((s'.status ≡ NetStatus.waiting) ⊎ (is_cut s'.status ≡ true))

  received-GaveUp :
      (r : RpResult) (b : ℕ) (rest : Flow S) (s : NetSession S)
      → FollowsTo b s
      → Goes (Heard b s) (GaveUp b s) rest
      → Goes (Heard b s) (GaveUp b s) (received r rest s)
  received-GaveUp RpResult.ok b rest s i h = h
  received-GaveUp RpResult.timeout b rest s i h = stops _ ((i, refl, refl, refl), inl refl)
  received-GaveUp RpResult.abi_mismatch b rest s i h = stops _ ((i, refl, refl, refl), inr refl)
  received-GaveUp RpResult.bad_arg b rest s i h = stops _ ((i, refl, refl, refl), inr refl)
  received-GaveUp RpResult.device b rest s i h = stops _ ((i, refl, refl, refl), inr refl)
  received-GaveUp RpResult.internal b rest s i h = stops _ ((i, refl, refl, refl), inr refl)
  received-GaveUp RpResult.not_found b rest s i h = stops _ ((i, refl, refl, refl), inr refl)
  received-GaveUp RpResult.unsupported b rest s i h = stops _ ((i, refl, refl, refl), inr refl)

  later :
      (b : ℕ) (s s' : NetSession S) (m : Flow S)
      → Took b s s'
      → Goes (Heard b s') (GaveUp b s') m
      → Goes (Heard b s) (GaveUp b s) m
  later b s s' m (i, f, g, d) (goes x ((j, f', g', d'), h)) =
      goes x ((j, f' ∙ f, g' ∙ g, d' ∙ d), h)
  later b s s' m (i, f, g, d) (stops x ((j, f', g', d'), h)) =
      stops x ((j, f' ∙ f, g' ∙ g, d' ∙ d), h)

  pub option-Goes :
      {A : Type 0} {P Q : NetSession S → Type 0} (o : Option A) (a : Flow S) (f : A → Flow S)
      → (o ≡ none → Goes P Q a)
      → ((x : A) → o ≡ some x → Goes P Q (f x))
      → Goes P Q (elim o [ none ↦ a | some x ↦ f x ])
  option-Goes none a f h h' = h refl
  option-Goes (some x) a f h h' = h' x refl

  pub await-Heard :
      (polls : List (RpResult × List ℕ)) (b : ℕ) (s : NetSession S)
      → FollowsTo b s
      → AllFair theirs polls
      → Goes (Heard b s) (GaveUp b s) (await polls s)
  unfolding await
  await-Heard [] b s i fair =
      option-Goes (find s.frame s.remote_pending) _ _
        (λ missing. stops _ ((i, refl, refl, refl), inl refl))
        (λ x there. goes s ((i, refl, refl, refl), λ missing. cc (there, missing)))
  await-Heard ((r, bytes) ∷ polls) b s i (fair, rest) =
      let took = receive-Follows bytes b s i fair in
      option-Goes (find s.frame s.remote_pending) _ _
        (λ missing. received-GaveUp r b (await polls (receive bytes s)) s i (
          later b s (receive bytes s) (await polls (receive bytes s)) took
            (await-Heard polls b (receive bytes s) took.0 rest)))
        (λ x there. goes s ((i, refl, refl, refl), λ missing. cc (there, missing)))
