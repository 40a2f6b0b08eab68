-- ===== src/Cache/Queue/Retransmit/Order.antt =====
-- `Dequeue` hands the packets out in the order of their numbers.
use rtp_http_flv.Prelude.{
  ℕ, ◌+◌, ◌<◌, ◌≡◌, refl, ◌∙◌, ap, sym, subst, ◌⊎◌, inl, inr, Bool, true, false, Bool-cases, Option,
  none, some, List, [], ◌∷◌, arith, length, ltb, ◌==◌, ◌&&◌, if◌then◌else◌, Run, done, >>=-eq-done,
  WhenSome, get_elem?,
}
use rtp_http_flv.Rtp.{RtpPack}
use rtp_http_flv.Utils.Seq.{add16, first_before_second, sub16}
use rtp_http_flv.Cache.Window.{
  Slot, IsWindow, IsWindow-tail, EndsWithPacket, EndsWithPacket-tail, insert, InOrder, length-place,
}
use rtp_http_flv.Cache.Window.Skip.{skip_nils, skip_nils-IsWindow, first_held, first_held-skip_nils}
use rtp_http_flv.Cache.Queue.{Deps, Q, S}
use rtp_http_flv.Cache.Queue.Slots.{enqueue, is_first_ok, remove_head, get_head_nil, remove_first}
use rtp_http_flv.Cache.Queue.Slots.Refine.{window, enqueue_refines}
use rtp_http_flv.Cache.Queue.Slots.Head.{
  IsQueue, enqueue-IsQueue, remove_first-cons, remove_head-skip, look,
}
use rtp_http_flv.Cache.Queue.Retransmit.{
  reshape, grow_buffer, protect_head, run_quic, dequeue, with_jump, first_slot,
}

-- What `reshape` may do to a window that starts with slot `x`: nothing, or give up `x` and the empty
-- slots behind it.
abbrev pub Reshaped : ℕ → Slot → List Slot → ℕ × List Slot → Type 0
Reshaped f x xs w = (w ≡ (f, x ∷ xs)) ⊎ ((0 < length xs) × (w ≡ skip_nils (add16 f 1) xs))

nonempty_of_held : (xs : List Slot) → first_held xs ≡ true → 0 < length xs
nonempty_of_held [] h = cc
nonempty_of_held (x ∷ xs) h = omega arith

-- Either way the window stays a window, and is not empty.
pub Reshaped-IsWindow :
    (f : ℕ) (x : Slot) (xs : List Slot) (w : ℕ × List Slot)
    → IsWindow f (x ∷ xs)
    → Reshaped f x xs w
    → IsWindow w.0 w.1 × (0 < length w.1)
Reshaped-IsWindow f x xs w v (inl e) = rw e (v, omega arith)
Reshaped-IsWindow f x xs w v (inr (h, e)) = rw e (
  skip_nils-IsWindow (add16 f 1) xs (IsWindow-tail f x xs v),
  nonempty_of_held (skip_nils (add16 f 1) xs).1
      (first_held-skip_nils (add16 f 1) xs h (EndsWithPacket-tail x xs v.ends)),
)

-- An insertion leaves something in the window.
insert_nonempty : (f : ℕ) (rp : RtpPack) (xs : List Slot) → 0 < length (insert f rp xs).1
insert_nonempty f rp [] = omega arith
insert_nonempty f rp (x ∷ xs) = elim (Bool-cases (first_before_second rp.sequence_number f)) [
  | inl before ↦ rw before (omega arith)
  | inr inside ↦
      rw inside (omega (arith, (length-place (sub16 rp.sequence_number f) rp (x ∷ xs)).0))
]

numbered_first :
    (f : ℕ) (x : Slot) (xs : List Slot)
    → InOrder f (x ∷ xs)
    → WhenSome (λ rp. add16 rp.sequence_number 1 ≡ add16 f 1) x
numbered_first f none xs o = tt
numbered_first f (some p) xs o = ap (λ n. add16 n 1) o.0

module _ (d : Deps) where
  open d.slots use {get, values}
  open d.node use {Net, get_by_quic}

  reshape-Reshaped :
      (s s' : S d) (r : ℕ) (x : Slot) (xs : List Slot)
      → values s.q.queue ≡ x ∷ xs
      → IsQueue d s.q
      → reshape d s ≡ done (r, s')
      → Reshaped s.q.first_seq x xs (window d s'.q)
  unfolding reshape
  reshape-Reshaped s s' r x [] e v h =
      let g = look d s.q.queue (x ∷ []) [] 1 e refl in
      let same : (r, s') ≡ (0, s) = ground (arith, g) in
      inl (ap (λ (t : ℕ × S d). window d t.1.q) same ∙ ap (λ t. (s.q.first_seq, t)) e)
  reshape-Reshaped s s' r x (some p ∷ xs) e v h =
      let g = look d s.q.queue (x ∷ []) (some p ∷ xs) 1 e refl in
      let same : (r, s') ≡ (0, s) = ground (arith, g) in
      inl (ap (λ (t : ℕ × S d). window d t.1.q) same ∙ ap (λ t. (s.q.first_seq, t)) e)
  reshape-Reshaped s s' r x (none ∷ xs) e v h =
      let g = look d s.q.queue (x ∷ []) (none ∷ xs) 1 e refl in
      let size_eq = d.slots.size_lem s.q.queue in
      let (w, m) =
        remove_head-skip d (d.slots.size s.q.queue) 0 s.q x (none ∷ xs) e
          (omega (arith, size_eq, ap length e)) (omega arith)
          (EndsWithPacket-tail x (none ∷ xs) (subst EndsWithPacket e v.ends)) in
      let (answer, a, b) =
        >>=-eq-done (get_by_quic s.q.ssrc (add16 s.q.first_seq 1) s.net) _ (rw (reshape, g) at h) in
      let same : s'
          ≡ record s { q = (remove_head d (d.slots.size s.q.queue) 0 s.q).1; net = answer.1 } =
        ground (arith, b) in
      inr (omega arith, ap (λ (t : S d). window d t.q) same ∙ w)

  grow_buffer-q : (s : S d) → (grow_buffer d s).1.q ≡ s.q
  unfolding grow_buffer
  grow_buffer-q s = ground arith

  abbrev grown : Bool → S d → Bool × S d
  grown ok s = if ok then (true, with_jump d s) else (false, s)

  after_growth : (ok : Bool) (s : S d) → window d (grown ok s).1.q ≡ window d s.q
  after_growth true s = refl
  after_growth false s = refl

  pub protect_head-Reshaped :
      (s s1 : S d) (seq : ℕ) (more : Bool) (x : Slot) (xs : List Slot)
      → values s.q.queue ≡ x ∷ xs
      → IsQueue d s.q
      → protect_head d s seq ≡ done (more, s1)
      → Reshaped s.q.first_seq x xs (window d s1.q)
  unfolding protect_head
  protect_head-Reshaped s s1 seq more x xs e v h =
      elim (Bool-cases
        (seq == add16 s.q.previous_lost_seq 1 && d.protect && ltb 5 (get_head_nil d s.q))) [
          | inr calm ↦
              let same : (more, s1) ≡ (true, s) = ground (arith, calm) in
              inl (ap (λ (t : Bool × S d). window d t.1.q) same ∙ ap (λ t. (s.q.first_seq, t)) e)
          | inl congested ↦
              let (r, a, b) = >>=-eq-done (reshape d s) _ (rw (protect_head, congested) at h) in
              let (ok, s2) = grow_buffer d r.1 in
              let pair : grown ok s2 ≡ (more, s1) = cc b in
              let same : window d s1.q ≡ window d r.1.q =
                sym (ap (λ (t : Bool × S d). window d t.1.q) pair)
                ∙ after_growth ok s2
                ∙ ap (window d) (grow_buffer-q r.1) in
              subst (Reshaped s.q.first_seq x xs) (sym same) (reshape-Reshaped s r.1 r.0 x xs e v a)
        ]

  -- The answer of the cloud node is a packet: its number has 16 bits.
  abbrev pub Numbered : Type 0
  Numbered =
      (ssrc seq : ℕ) (net net' : Net) (rp : RtpPack)
      → get_by_quic ssrc seq net ≡ done (some rp, net')
      → rp.sequence_number < 65536

  enqueue-window :
      (q : Q d) (o : Option RtpPack)
      → WhenSome (λ rp. rp.sequence_number < 65536) o
      → IsQueue d q
      → 0 < length (values q.queue)
      → IsQueue d (enqueue d q o) × (0 < length (values (enqueue d q o).queue))
  enqueue-window q none n v h = unfold enqueue in (v, h)
  enqueue-window q (some rp) n v h = (
    enqueue-IsQueue d q rp n v,
    subst (λ (w : ℕ × List Slot). 0 < length w.1) (sym (enqueue_refines d q rp n v.first))
        (insert_nonempty q.first_seq rp (values q.queue)),
  )

  numbered :
      {ssrc seq : ℕ} {net net' : Net}
      → Numbered
      → (o : Option RtpPack) → get_by_quic ssrc seq net ≡ done (o, net')
      → WhenSome (λ rp. rp.sequence_number < 65536) o
  numbered n none h = tt
  numbered {ssrc} {seq} {net} {net'} n (some rp) h = n ssrc seq net net' rp h

  pub run_quic-IsQueue :
      (s s' : S d) (seq : ℕ) (x : Slot) (xs : List Slot)
      → Numbered
      → values s.q.queue ≡ x ∷ xs
      → IsQueue d s.q
      → run_quic d s seq ≡ done s'
      → IsQueue d s'.q × (0 < length (values s'.q.queue))
  unfolding run_quic
  run_quic-IsQueue s s' seq x xs n e v h =
      let s0 : S d = record s { q = record s.q { acc_loss = s.q.acc_loss + 1 } } in
      let (r, a, b) = >>=-eq-done (protect_head d s0 seq) _ h in
      let w : IsWindow r.1.q.first_seq (values r.1.q.queue) × (0 < length (values r.1.q.queue)) =
        Reshaped-IsWindow s.q.first_seq x xs (window d r.1.q) (subst (IsWindow s.q.first_seq) e v)
          (protect_head-Reshaped s0 r.1 seq r.0 x xs e v a) in
      elim (Bool-cases r.0) [
        | inr stop ↦
            let same : r.1 ≡ s' = cc (rw stop at b) in
            subst (λ (t : S d). IsQueue d t.q × (0 < length (values t.q.queue))) same w
        | inl go ↦
            let (answer, c, f) = >>=-eq-done (get_by_quic r.1.q.ssrc seq r.1.net) _ (rw go at b) in
            let q1 : Q d = record r.1.q { previous_lost_seq = seq } in
            let same : record r.1 { q = enqueue d q1 answer.0; net = answer.1 } ≡ s' = cc f in
            subst (λ (t : S d). IsQueue d t.q × (0 < length (values t.q.queue))) same
              (enqueue-window q1 answer.0 (numbered n answer.0 c) w.0 w.1)
      ]

  first_slot-cons :
      (q : Q d) (x : Slot) (xs : List Slot) → values q.queue ≡ x ∷ xs → first_slot d q ≡ x
  first_slot-cons q x xs e =
      let g : get q.queue 0 ≡ some x = d.slots.get_lem q.queue 0 ∙ ap (λ t. get_elem? t 0) e in
      ground (arith, g)

  -- A packet in order is followed by the number that the window starts with next.
  abbrev pub HandsOut : Slot × S d → Type 0
  HandsOut (slot, s') =
      IsQueue d s'.q × WhenSome (λ rp. add16 rp.sequence_number 1 ≡ s'.q.first_seq) slot

  take_first :
      (s1 : S d)
      → IsQueue d s1.q
      → 0 < length (values s1.q.queue)
      → HandsOut (first_slot d s1.q, record s1 { q = remove_first d s1.q })
  take_first s1 v h = go (values s1.q.queue) refl h
    where
      go :
          (xs : List Slot)
          → values s1.q.queue ≡ xs
          → 0 < length xs
          → HandsOut (first_slot d s1.q, record s1 { q = remove_first d s1.q })
      go [] e l = absurd (omega arith)
      go (x ∷ xs) e l =
          let w : IsWindow s1.q.first_seq (x ∷ xs) = subst (IsWindow s1.q.first_seq) e v in
          rw (first_slot-cons s1.q x xs e) (
            subst (IsWindow (add16 s1.q.first_seq 1)) (sym (remove_first-cons d s1.q x xs e))
                (IsWindow-tail s1.q.first_seq x xs w),
            numbered_first s1.q.first_seq x xs w.in_order,
          )

  -- What `Dequeue` hands out is either nothing, for a packet that could not be had, or the packet whose
  -- number comes just before the one that the queue starts with afterwards; and the queue stays in
  -- order. That holds whatever the cloud node answers to a request, if its answers are packets with
  -- numbers of 16 bits, and also where the head of the queue is given up.
  pub dequeue_in_order :
      (s s' : S d) (slot : Slot)
      → Numbered
      → IsQueue d s.q
      → 0 < length (values s.q.queue)
      → dequeue d s ≡ done (slot, s')
      → IsQueue d s'.q × WhenSome (λ rp. add16 rp.sequence_number 1 ≡ s'.q.first_seq) slot
  unfolding dequeue
  dequeue_in_order s s' slot n v l h = go (values s.q.queue) refl l
    where
      after :
          (s1 : S d)
          → IsQueue d s1.q
          → 0 < length (values s1.q.queue)
          → ◌≡◌ {A = Run (Slot × S d)}
              (done (first_slot d s1.q, record s1 { q = remove_first d s1.q }))
              (done (slot, s'))
          → HandsOut (slot, s')
      after s1 v1 l1 e =
          let same : (first_slot d s1.q, record s1 { q = remove_first d s1.q }) ≡ (slot, s') =
            cc e in
          subst HandsOut same (take_first s1 v1 l1)

      go : (xs : List Slot) → values s.q.queue ≡ xs → 0 < length xs → HandsOut (slot, s')
      go [] e k = absurd (omega arith)
      go (x ∷ xs) e k = elim (Bool-cases (is_first_ok d s.q)) [
        | inl ready ↦ after s v l (rw ready at h)
        | inr lost ↦
            let (s1, a, b) = >>=-eq-done (run_quic d s s.q.first_seq) _ (rw lost at h) in
            let (v1, l1) = run_quic-IsQueue s s1 s.q.first_seq x xs n e v a in after s1 v1 l1 b
      ]
