-- ===== src/Tcpros/Subscription/Interleaved.antt =====
-- The tasks of several publishers of one subscription, whose rounds come in any order:
-- rosrust-async/src/tcpros/subscription.rs.
use rosrust_async.Base.{
  ◌≡◌, refl, ◌∙◌, ap, sym, true, if◌then◌else◌, Bool-cases, inl, inr, List, [], ◌∷◌, ◌++◌, map, Str,
  str_eq, str_eq_refl, str_eq_iff, subst, All, ok, err, arith, append_assoc, append-nil,
}
use rosrust_async.Base.Dict.{insert}
use rosrust_async.Tcpros.Bytes.{read_tcpros_frame, frame, read_tcpros_frame-frame}
use rosrust_async.Tcpros.Header.Defs.{PublisherHeader}
use rosrust_async.Tcpros.Net.{Fits, calls, frames}
use rosrust_async.Tcpros.Subscription.{
  Subscription, TaskEvent, data_ready, latch, send, subscriber_task,
}

-- The bytes to come after a round of the loop.
unfoldable pub left_over : Str → Str
left_over incoming = elim (read_tcpros_frame incoming) [
  | err e ↦ incoming
  | ok (data_, rest) ↦ rest
]

-- A task is its first round, and the same task over what the round leaves.
pub subscriber_task-left_over :
    (events : List TaskEvent) (h : PublisherHeader) (incoming data_ rest : Str) (s : Subscription)
    → read_tcpros_frame incoming ≡ ok (data_, rest)
    → s.listened ≡ true
    → subscriber_task (data_ready ∷ events) h incoming s
      ≡ subscriber_task events h
          (left_over incoming)
          (subscriber_task (data_ready ∷ []) h incoming s).1
unfolding subscriber_task left_over
subscriber_task-left_over events h incoming data_ rest s read on =
    rw (subscriber_task, left_over, read, on) refl

-- The messages that one publisher sends, of those in the order of the rounds.
abbrev pub sent_by : Str → List (Str × Str) → List Str
sent_by p [] = []
sent_by p ((q, msg) ∷ rest) = if str_eq q p then msg ∷ sent_by p rest else sent_by p rest

-- By the addresses of the publishers: what their headers say, and what is to come from them.
module _ (headers : Str → PublisherHeader) where
  abbrev pub Streams : Type 0
  Streams = Str → Str

  -- The task of one publisher reads.
  unfoldable pub round : Str → Streams × Subscription → Streams × Subscription
  round p (incoming, s) = (
    λ q. if str_eq p q then left_over (incoming p) else incoming q,
    (subscriber_task (data_ready ∷ []) (headers p) (incoming p) s).1,
  )

  unfoldable pub run_rounds : List Str → Streams × Subscription → Streams × Subscription
  unfolding round
  run_rounds [] x = x
  run_rounds (p ∷ schedule) x = run_rounds schedule (round p x)

  abbrev pub latched_along : List (Str × Str) → List (Str × Str) → List (Str × Str)
  latched_along [] m = m
  latched_along ((p, msg) ∷ rest) m =
      latched_along rest
        (if (headers p).latching then insert (headers p).caller_id (frame msg) m else m)

  next_frame :
      (p msg : Str) (order : List (Str × Str)) (incoming : Streams) (rest : Str → Str)
      → Fits msg
      → ((q : Str) → incoming q ≡ calls (sent_by q ((p, msg) ∷ order)) ++ rest q)
      → read_tcpros_frame (incoming p) ≡ ok (frame msg, calls (sent_by p order) ++ rest p)
  next_frame p msg order incoming rest fit come =
      let read = read_tcpros_frame-frame msg (calls (sent_by p order) ++ rest p) fit in
      ground (
        arith,
        come p,
        str_eq_refl p,
        append_assoc (frame msg) (calls (sent_by p order)) (rest p),
        read,
      )

  next_left :
      (p msg : Str) (order : List (Str × Str)) (incoming : Streams) (rest : Str → Str)
      → Fits msg
      → ((q : Str) → incoming q ≡ calls (sent_by q ((p, msg) ∷ order)) ++ rest q)
      → left_over (incoming p) ≡ calls (sent_by p order) ++ rest p
  unfolding left_over
  next_left p msg order incoming rest fit come =
      rw (left_over, next_frame p msg order incoming rest fit come) refl

  round-state :
      (p data_ more : Str) (incoming : Streams) (s : Subscription)
      → read_tcpros_frame (incoming p) ≡ ok (data_, more)
      → s.listened ≡ true
      → (round p (incoming, s)).1 ≡ latch (headers p) data_ (send data_ s)
  unfolding round subscriber_task latch
  round-state p data_ more incoming s read on = rw (subscriber_task, read, on) refl

  round-streams :
      (p msg : Str) (order : List (Str × Str)) (incoming : Streams) (rest : Str → Str)
      (s : Subscription)
      → Fits msg
      → ((q : Str) → incoming q ≡ calls (sent_by q ((p, msg) ∷ order)) ++ rest q)
      → (q : Str) → (round p (incoming, s)).0 q ≡ calls (sent_by q order) ++ rest q
  unfolding round
  round-streams p msg order incoming rest s fit come q = elim (Bool-cases (str_eq p q)) [
    | inl same ↦
        let left = next_left p msg order incoming rest fit come in
        rw (same) (
          subst (λ r. left_over (incoming p) ≡ calls (sent_by r order) ++ rest r)
            ((str_eq_iff p q).0 same) left)
    | inr other ↦ ground (arith, come q, other)
  ]

  latch-send :
      (h : PublisherHeader) (data_ : Str) (s : Subscription)
      → ((latch h data_ (send data_ s)).listened ≡ s.listened)
        × ((latch h data_ (send data_ s)).data_sent ≡ s.data_sent ++ (data_ ∷ []))
        × ((latch h data_ (send data_ s)).latched_msgs
            ≡ (if h.latching then insert h.caller_id data_ s.latched_msgs else s.latched_msgs))
  unfolding latch send
  latch-send h data_ s = ground arith

  -- Let the tasks of several publishers read in any order, while somebody listens, and let what comes from
  -- each publisher start with the frames of the messages that this order takes from it, each within 32 bits.
  -- Then the channel gets all these messages framed, in the order of the reads and so in the order of each
  -- publisher, whole and without loss; of each latching publisher the last one is latched; and each stream
  -- is left with what came behind.
  pub run_rounds-merge :
      (order : List (Str × Str)) (incoming : Streams) (rest : Str → Str) (s : Subscription)
      → All Fits (map (λ e. e.1) order)
      → s.listened ≡ true
      → ((p : Str) → incoming p ≡ calls (sent_by p order) ++ rest p)
      → let x = run_rounds (map (λ e. e.0) order) (incoming, s) in
        (x.1.data_sent ≡ s.data_sent ++ frames (map (λ e. e.1) order))
        × (x.1.latched_msgs ≡ latched_along order s.latched_msgs)
        × ((p : Str) → x.0 p ≡ rest p)
  unfolding run_rounds
  run_rounds-merge [] incoming rest s fits on come = (sym (append-nil s.data_sent), refl, come)
  run_rounds-merge ((p, msg) ∷ order) incoming rest s (fit, fits) on come =
      let read = next_frame p msg order incoming rest fit come in
      let state =
        round-state p (frame msg) (calls (sent_by p order) ++ rest p) incoming s read on in
      let more =
        run_rounds-merge order (round p (incoming, s)).0 rest (round p (incoming, s)).1 fits
          (rw (state, (latch-send (headers p) (frame msg) s).0) on)
          (round-streams p msg order incoming rest s fit come) in
      let effect = latch-send (headers p) (frame msg) s in
      let sent = frames (map (λ e. e.1) order) in
      (
        more.0
            ∙ ap (λ x. x.data_sent ++ sent) state
            ∙ ap (λ d. d ++ sent) effect.1
            ∙ append_assoc s.data_sent (frame msg ∷ []) sent,
        more.1
            ∙ ap (λ x. latched_along order x.latched_msgs) state
            ∙ ap (latched_along order) effect.2,
        more.2,
      )
