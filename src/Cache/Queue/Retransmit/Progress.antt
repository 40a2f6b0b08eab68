-- ===== src/Cache/Queue/Retransmit/Progress.antt =====
-- `Dequeue` makes the queue shorter, where the cloud node answers with the packet that was asked for.
use rtp_http_flv.Prelude.{
  ℕ, suc, ◌+◌, ◌≤◌, ◌<◌, ◌≡◌, refl, ap, subst, ◌⊎◌, inl, inr, true, false, Bool-cases, Option, none,
  some, List, [], ◌∷◌, arith, length, Run, done, >>=-eq-done, WhenSome,
}
use rtp_http_flv.Rtp.{RtpPack}
use rtp_http_flv.Utils.Seq.{add16, sub16, first_before_second, first_before_second_window}
use rtp_http_flv.Cache.Window.{Slot, IsWindow, insert, head_nils, head_nils-lt, EndsWithPacket-tail}
use rtp_http_flv.Cache.Window.Skip.{skip_nils, skip_nils-first, length-skip_nils}
use rtp_http_flv.Cache.Queue.{Deps, Q, S}
use rtp_http_flv.Cache.Queue.Slots.{enqueue, is_first_ok, remove_first}
use rtp_http_flv.Cache.Queue.Slots.Refine.{window, enqueue_refines}
use rtp_http_flv.Cache.Queue.Slots.Head.{IsQueue, remove_first-cons}
use rtp_http_flv.Cache.Queue.Retransmit.{protect_head, run_quic, dequeue, first_slot}
use rtp_http_flv.Cache.Queue.Retransmit.Order.{
  run_quic-IsQueue, Numbered, Reshaped, Reshaped-IsWindow, protect_head-Reshaped,
}

-- Where the queue is this short, a number that has been given up is seen to be before its first one,
-- also where the numbers have wrapped between them.
abbrev pub near : ℕ
near = 5536

-- The packet that was asked for, put into a window that starts with its number or has left it behind.
insert_answer :
    (f g : ℕ) (rp : RtpPack) (xs : List Slot)
    → rp.sequence_number ≡ f
    → f < 65536
    → (g ≡ f) ⊎ (first_before_second f g ≡ true)
    → 0 < length xs
    → length (insert g rp xs).1 ≤ length xs
insert_answer f g rp [] e h c l = absurd (omega arith)
insert_answer f g rp (x ∷ xs) e h (inr before) l = rw (e, before) (omega arith)
insert_answer f g rp (x ∷ xs) e h (inl same) l =
    let not_before : first_before_second f f ≡ false = unfold first_before_second in ground arith in
    let here : sub16 f f ≡ 0 = omega arith in rw (e, same, not_before, here) (omega arith)

-- The start of a window after `protect_head`, as the number `f` that is asked for sees it.
Reshaped-first :
    (f : ℕ) (x : Slot) (xs : List Slot) (w : ℕ × List Slot)
    → IsWindow f (x ∷ xs)
    → suc (length xs) ≤ near
    → Reshaped f x xs w
    → ((w.0 ≡ f) ⊎ (first_before_second f w.0 ≡ true)) × (length w.1 ≤ suc (length xs))
Reshaped-first f x xs w v s (inl e) = rw e (inl refl, omega arith)
Reshaped-first f x xs w v s (inr (l, e)) =
    let k : head_nils xs < length xs = head_nils-lt xs l (EndsWithPacket-tail x xs v.ends) in
    let first : (skip_nils (add16 f 1) xs).0 ≡ add16 f (suc (head_nils xs)) =
      omega (arith, skip_nils-first (add16 f 1) xs (omega arith)) in
    let before =
      first_before_second_window f (suc (head_nils xs)) v.first (omega arith) (omega arith) in
    rw e (inr (rw first before.0), omega (arith, length-skip_nils (add16 f 1) xs))

module _ (d : Deps) where
  open d.slots use {values}
  open d.node use {Net, get_by_quic}

  -- The cloud node answers a request with the packet of the number that was asked for, or with none.
  abbrev pub Answers : Type 0
  Answers =
      (ssrc seq : ℕ) (net net' : Net) (rp : RtpPack)
      → get_by_quic ssrc seq net ≡ done (some rp, net')
      → rp.sequence_number ≡ seq

  enqueue_answer :
      (f : ℕ) (q : Q d) (o : Option RtpPack)
      → WhenSome (λ rp. rp.sequence_number ≡ f) o
      → f < 65536
      → q.first_seq < 65536
      → (q.first_seq ≡ f) ⊎ (first_before_second f q.first_seq ≡ true)
      → 0 < length (values q.queue)
      → length (values (enqueue d q o).queue) ≤ length (values q.queue)
  enqueue_answer f q none a h k c l = unfold enqueue in omega arith
  enqueue_answer f q (some rp) a h k c l =
      let e = enqueue_refines d q rp (omega arith) k in
      let n : length (values (enqueue d q (some rp)).queue)
          ≡ length (insert q.first_seq rp (values q.queue)).1 =
        ap (λ (t : ℕ × List Slot). length t.1) e in
      omega (arith, n, insert_answer f q.first_seq rp (values q.queue) a h c l)

  answered :
      {ssrc seq : ℕ} {net net' : Net}
      → Answers
      → (o : Option RtpPack) → get_by_quic ssrc seq net ≡ done (o, net')
      → WhenSome (λ rp. rp.sequence_number ≡ seq) o
  answered n none h = tt
  answered {ssrc} {seq} {net} {net'} n (some rp) h = n ssrc seq net net' rp h

  run_quic_no_longer :
      (s s' : S d) (x : Slot) (xs : List Slot)
      → Answers
      → values s.q.queue ≡ x ∷ xs
      → IsQueue d s.q
      → suc (length xs) ≤ near
      → run_quic d s s.q.first_seq ≡ done s'
      → length (values s'.q.queue) ≤ suc (length xs)
  unfolding run_quic
  run_quic_no_longer s s' x xs n e v l h =
      let f : ℕ = s.q.first_seq in
      let s0 : S d = record s { q = record s.q { acc_loss = s.q.acc_loss + 1 } } in
      let (r, a, b) = >>=-eq-done (protect_head d s0 f) _ h in
      let shape = protect_head-Reshaped d s0 r.1 f r.0 x xs e v a in
      let w = subst (IsWindow f) e v in
      let (first, shorter) = Reshaped-first f x xs (window d r.1.q) w l shape in
      let (w1, l1) = Reshaped-IsWindow f x xs (window d r.1.q) w shape in
      elim (Bool-cases r.0) [
        | inr stop ↦
            let same : r.1 ≡ s' = cc (rw stop at b) in
            subst (λ (t : S d). length (values t.q.queue) ≤ suc (length xs)) same shorter
        | inl go ↦
            let (answer, c, g) = >>=-eq-done (get_by_quic r.1.q.ssrc f r.1.net) _ (rw go at b) in
            let q1 : Q d = record r.1.q { previous_lost_seq = f } in
            let same : record r.1 { q = enqueue d q1 answer.0; net = answer.1 } ≡ s' = cc g in
            let k =
              enqueue_answer f q1 answer.0 (answered n answer.0 c) v.first w1.first first l1 in
            subst (λ (t : S d). length (values t.q.queue) ≤ suc (length xs)) same (omega arith)
      ]

  removed :
      (s1 : S d) (n : ℕ)
      → 0 < length (values s1.q.queue)
      → length (values s1.q.queue) ≤ n
      → length (values (remove_first d s1.q).queue) < n
  removed s1 n l h = go (values s1.q.queue) refl l h
    where
      go :
          (xs : List Slot)
          → values s1.q.queue ≡ xs
          → 0 < length xs
          → length xs ≤ n
          → length (values (remove_first d s1.q).queue) < n
      go [] e k m = absurd (omega arith)
      go (x ∷ xs) e k m = omega (arith, ap length (remove_first-cons d s1.q x xs e))

  -- `Dequeue` leaves fewer slots than there were, where the cloud node answers with the packet that was
  -- asked for or with none, and the queue has at most 5536 slots.
  pub dequeue_shrinks :
      (s s' : S d) (slot : Slot)
      → Answers
      → Numbered d
      → IsQueue d s.q
      → 0 < length (values s.q.queue)
      → length (values s.q.queue) ≤ near
      → dequeue d s ≡ done (slot, s')
      → length (values s'.q.queue) < length (values s.q.queue)
  unfolding dequeue
  dequeue_shrinks s s' slot n m v l k h = go (values s.q.queue) refl l k
    where
      after :
          (s1 : S d)
          → 0 < length (values s1.q.queue)
          → length (values s1.q.queue) ≤ length (values s.q.queue)
          → ◌≡◌ {A = Run (Slot × S d)}
              (done (first_slot d s1.q, record s1 { q = remove_first d s1.q }))
              (done (slot, s'))
          → length (values s'.q.queue) < length (values s.q.queue)
      after s1 l1 k1 e =
          let same : (first_slot d s1.q, record s1 { q = remove_first d s1.q }) ≡ (slot, s') =
            cc e in
          subst (λ (t : Slot × S d). length (values t.1.q.queue) < length (values s.q.queue)) same
            (removed s1 (length (values s.q.queue)) l1 k1)

      go :
          (xs : List Slot)
          → values s.q.queue ≡ xs
          → 0 < length xs
          → length xs ≤ near
          → length (values s'.q.queue) < length (values s.q.queue)
      go [] e a b = absurd (omega arith)
      go (x ∷ xs) e a b = elim (Bool-cases (is_first_ok d s.q)) [
        | inl ready ↦ after s l (omega arith) (rw ready at h)
        | inr lost ↦
            let (s1, c, g) = >>=-eq-done (run_quic d s s.q.first_seq) _ (rw lost at h) in
            let (v1, l1) = run_quic-IsQueue d s s1 s.q.first_seq x xs m e v c in
            after s1 l1 (omega (arith, ap length e, run_quic_no_longer s s1 x xs n e v b c)) g
      ]
