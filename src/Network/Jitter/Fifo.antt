-- ===== src/Network/Jitter/Fifo.antt =====
-- common/network/WHAJitterBuffer.h: every stream is a first-in first-out queue of its own.
use win_hook_audio.Prelude.{
  ℕ, ◌<◌, ◌≡◌, ◌≢◌, ◌⊎◌, refl, sym, ap, subst, ◌∙◌, inl, inr, Bool, true, false, ◌&&◌, Option, none,
  some, List, [], ◌∷◌, ◌++◌, leb, ◌==◌, if◌then◌else◌, get_or, set, length, length-set, arith,
  get_or-set_self, get_or-set_ne, Bool-cases, append-nil, append_assoc, ==_iff,
}
use win_hook_audio.Network.Packet.{PacketHeader}
use win_hook_audio.Network.Jitter.{JitterPacket, JitterBuffer, admits, packet, push, held, pop}

-- A call of the network thread or of the Worker.
pub data Op : Type 0 where
  push_op : PacketHeader → List ℕ → ℕ → ℕ → Op
  pop_op : ℕ → ℕ → ℕ → Op

-- The packets of stream `s` that the calls queue, and those that they give out.
unfoldable pub accepted : ℕ → Op → List JitterPacket
unfolding admits packet
accepted s (push_op h payload n qpc) =
    if admits h n && (h.stream_id == s) then packet h payload n qpc ∷ [] else []
accepted s (pop_op t now freq) = []

abbrev pub as_list : Option JitterPacket → List JitterPacket
as_list none = []
as_list (some p) = p ∷ []

unfoldable pub delivered : ℕ → JitterBuffer → Op → List JitterPacket
unfolding pop
delivered s b (push_op h payload n qpc) = []
delivered s b (pop_op t now freq) = if t == s then as_list (pop b t now freq).0 else []

unfoldable pub step : JitterBuffer → Op → JitterBuffer
unfolding push pop
step b (push_op h payload n qpc) = push b h payload n qpc
step b (pop_op t now freq) = (pop b t now freq).1

unfoldable pub accepted_by : ℕ → List Op → List JitterPacket
unfolding accepted
accepted_by s [] = []
accepted_by s (op ∷ ops) = accepted s op ++ accepted_by s ops

unfoldable pub delivered_by : ℕ → JitterBuffer → List Op → List JitterPacket
unfolding delivered step
delivered_by s b [] = []
delivered_by s b (op ∷ ops) = delivered s b op ++ delivered_by s (step b op) ops

unfoldable pub run : JitterBuffer → List Op → JitterBuffer
unfolding step
run b [] = b
run b (op ∷ ops) = run (step b op) ops

unfoldable pub queue : JitterBuffer → ℕ → List JitterPacket
queue b s = get_or b.queues s []

not_both : (b : Bool) → b ≡ true → b ≡ false → ⊥
not_both b h k = ground arith

append-at :
    (qs : List (List JitterPacket)) (t s : ℕ) (x : List JitterPacket)
    → s < length qs
    → get_or (set qs t (get_or qs t [] ++ x)) s [] ≡ get_or qs s [] ++ (if t == s then x else [])
append-at qs t s x h = elim (Bool-cases (t == s)) [
  | inl e ↦
      let same = (==_iff t s).0 e in
      rw e (
        subst (λ k. get_or (set qs k (get_or qs k [] ++ x)) s [] ≡ get_or qs s [] ++ x) (sym same)
          (get_or-set_self qs s (get_or qs s [] ++ x) [] h))
  | inr e ↦
      let other : t ≢ s = λ p. not_both (t == s) ((==_iff t s).1 p) e in
      rw e (get_or-set_ne qs (get_or qs t [] ++ x) [] other ∙ sym (append-nil (get_or qs s [])))
]

push-queue :
    (b : JitterBuffer) (h : PacketHeader) (payload : List ℕ) (n qpc s : ℕ)
    → s < length b.queues
    → queue (push b h payload n qpc) s
      ≡ queue b s ++ (if admits h n && (h.stream_id == s) then packet h payload n qpc ∷ [] else [])
unfolding queue push
push-queue b h payload n qpc s inside = elim (Bool-cases (admits h n)) [
  | inl e ↦ rw e (append-at b.queues h.stream_id s (packet h payload n qpc ∷ []) inside)
  | inr e ↦ rw e (sym (append-nil (get_or b.queues s [])))
]

-- A pop gives nothing and changes nothing, or takes the first packet of its stream.
pop-cases :
    (b : JitterBuffer) (t now freq : ℕ)
    → (pop b t now freq ≡ (none, b))
      ⊎ ((p : JitterPacket) × (rest : List JitterPacket) × (get_or b.queues t [] ≡ p ∷ rest)
          × (pop b t now freq ≡ (some p, record b { queues = set b.queues t rest })))
unfolding pop
pop-cases b t now freq = elim (Bool-cases (leb 8 t)) [
  | inl e ↦ rw e (inl refl)
  | inr e ↦ rw e (waiting (get_or b.queues t []) refl)
]
  where
    Answer : List JitterPacket → Option JitterPacket × JitterBuffer
    Answer q = elim q [
      | [] ↦ (none, b)
      | p ∷ rest ↦
          if held b p now freq
          then (none, b)
          else (some p, record b { queues = set b.queues t rest })
    ]

    waiting :
        (q : List JitterPacket)
        → get_or b.queues t [] ≡ q
        → (Answer (get_or b.queues t []) ≡ (none, b))
          ⊎ ((p : JitterPacket) × (rest : List JitterPacket) × (get_or b.queues t [] ≡ p ∷ rest)
              × (Answer (get_or b.queues t [])
                  ≡ (some p, record b { queues = set b.queues t rest })))
    waiting [] e = inl (ap Answer e)
    waiting (p ∷ rest) e = elim (Bool-cases (held b p now freq)) [
      | inl f ↦ inl (ap Answer e ∙ rw f refl)
      | inr f ↦ inr (p, rest, e, ap Answer e ∙ rw f refl)
    ]

pop-queue :
    (b : JitterBuffer) (t now freq s : ℕ)
    → s < length b.queues
    → (if t == s then as_list (pop b t now freq).0 else []) ++ queue (pop b t now freq).1 s
      ≡ queue b s
unfolding queue
pop-queue b t now freq s inside = elim (pop-cases b t now freq) [
  | inl e ↦ rw e (elim (Bool-cases (t == s)) [ inl f ↦ rw f refl | inr f ↦ rw f refl ])
  | inr (p, rest, first, e) ↦ rw e (elim (Bool-cases (t == s)) [
    | inl f ↦
        let same = (==_iff t s).0 f in
        rw f (
          ap (λ q. p ∷ q)
            (subst (λ k. get_or (set b.queues k rest) s [] ≡ rest) (sym same)
              (get_or-set_self b.queues s rest [] inside))
          ∙ sym (subst (λ k. get_or b.queues k [] ≡ p ∷ rest) same first))
    | inr f ↦
        let other : t ≢ s = λ p. not_both (t == s) ((==_iff t s).1 p) f in
        rw f (get_or-set_ne b.queues rest [] other)
  ])
]

-- One call on the queue of a stream: what leaves it and what stays is what was there and what came.
step-queue :
    (b : JitterBuffer) (op : Op) (s : ℕ)
    → length b.queues ≡ 8
    → s < 8
    → delivered s b op ++ queue (step b op) s ≡ queue b s ++ accepted s op
unfolding queue delivered step accepted push pop
step-queue b (push_op h payload n qpc) s shape inside =
    push-queue b h payload n qpc s (subst (λ k. s < k) (sym shape) inside)
step-queue b (pop_op t now freq) s shape inside =
    pop-queue b t now freq s (subst (λ k. s < k) (sym shape) inside) ∙ sym (append-nil (queue b s))

step-shape : (b : JitterBuffer) (op : Op) → length b.queues ≡ 8 → length (step b op).queues ≡ 8
unfolding step push queue
step-shape b (push_op h payload n qpc) shape = elim (Bool-cases (admits h n)) [
  | inl e ↦ subst Sized (sym e) (length-set b.queues h.stream_id queued ∙ shape)
  | inr e ↦ subst Sized (sym e) shape
]
  where
    queued : List JitterPacket
    queued = queue b h.stream_id ++ packet h payload n qpc ∷ []

    Sized : Bool → Type 0
    Sized c =
        length (if c then record b { queues = set b.queues h.stream_id queued } else b).queues ≡ 8
step-shape b (pop_op t now freq) shape = elim (pop-cases b t now freq) [
  | inl e ↦ subst Shaped (sym e) shape
  | inr (p, rest, first, e) ↦ subst Shaped (sym e) (length-set b.queues t rest ∙ shape)
]
  where
    Shaped : Option JitterPacket × JitterBuffer → Type 0
    Shaped r = length r.1.queues ≡ 8

-- Over any sequence of pushes and timed pops, the packets of a stream that were given out and those
-- still queued are, in order, those that were queued before and those accepted since.
pub run-fifo :
    (b : JitterBuffer) (ops : List Op) (s : ℕ)
    → length b.queues ≡ 8
    → s < 8
    → delivered_by s b ops ++ queue (run b ops) s ≡ queue b s ++ accepted_by s ops
unfolding delivered_by accepted_by run
run-fifo b [] s shape inside = sym (append-nil (queue b s))
run-fifo b (op ∷ ops) s shape inside =
    append_assoc (delivered s b op) (delivered_by s (step b op) ops) (queue (run (step b op) ops) s)
    ∙ ap (λ q. delivered s b op ++ q) (run-fifo (step b op) ops s (step-shape b op shape) inside)
    ∙ sym (append_assoc (delivered s b op) (queue (step b op) s) (accepted_by s ops))
    ∙ ap (λ q. q ++ accepted_by s ops) (step-queue b op s shape inside)
    ∙ append_assoc (queue b s) (accepted s op) (accepted_by s ops)
