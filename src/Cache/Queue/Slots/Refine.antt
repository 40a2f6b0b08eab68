-- ===== src/Cache/Queue/Slots/Refine.antt =====
-- `Enqueue` against its description: whatever the array list, the slots of the queue are the window
-- with the packet inserted.
use rtp_http_flv.Prelude.{
  ℕ, zero, suc, ◌+◌, ◌-◌, ◌≤◌, ◌<◌, ◌≡◌, ◌≢◌, refl, ◌∙◌, ap, false, Bool-cases, inl, inr, none,
  some, List, [], ◌∷◌, ◌++◌, leb, ◌==◌, arith, length,
}
use rtp_http_flv.Rtp.{RtpPack}
use rtp_http_flv.Utils.Seq.{sub16, first_before_second, relative, relative-eq-sub16}
use rtp_http_flv.Cache.ArrayList.{set_or_append}
use rtp_http_flv.Cache.Window.{
  Slot, place, insert, set_or_append-place, place-set_or_append, length-set_or_append_end,
}
use rtp_http_flv.Cache.Queue.{Deps, Q}
use rtp_http_flv.Cache.Queue.Slots.{fill, store, enqueue}

module _ (d : Deps) where
  open d.slots use {Carrier, size, get, set, add, remove, values}

  -- What the queue holds.
  abbrev pub window : Q d → ℕ × List Slot
  window q = (q.first_seq, values q.queue)

  fill-place :
      (n i rel : ℕ) (rp : RtpPack) (l : Carrier)
      → n ≡ rel + 1 - i
      → i ≤ rel
      → i ≡ length (values l)
      → values (fill d n i rel rp l) ≡ place rel rp (values l)
  unfolding fill
  fill-place zero i rel rp l e h k = absurd (omega arith)
  fill-place (suc n) i rel rp l e h k = elim (Bool-cases (i == rel)) [
    | inl same ↦
        let eq : i ≡ rel = ground arith in
        let last : n ≡ 0 = omega arith in
        rw (same, last)
          (d.slots.values-set l i (some rp)
            ∙ set_or_append-place i rp (values l) (omega arith)
            ∙ ap (λ j. place j rp (values l)) eq)
    | inr more ↦
        let ne : i ≢ rel = ground arith in
        rw more (
          fill-place n (i + 1) rel rp (set l i none) (omega arith) (omega arith)
            (rw (d.slots.values-set l i none) (one_longer (values l) i k))
          ∙ ap (place rel rp) (d.slots.values-set l i none)
          ∙ one_more (values l) i k (omega arith))
  ]
    where
      one_longer :
          (xs : List Slot) (j : ℕ) → j ≡ length xs → j + 1 ≡ length (set_or_append xs j none)
      one_longer xs j e = rw e (omega (arith, length-set_or_append_end xs none))

      one_more :
          (xs : List Slot) (j : ℕ)
          → j ≡ length xs
          → j < rel
          → place rel rp (set_or_append xs j none) ≡ place rel rp xs
      one_more xs j e lt = rw e (place-set_or_append rel rp xs (omega arith))

  pub store-place :
      (rel : ℕ) (rp : RtpPack) (l : Carrier) → values (store d rel rp l) ≡ place rel rp (values l)
  unfolding store
  store-place rel rp l =
      let n = d.slots.size_lem l in
      elim (Bool-cases (leb rel (size l))) [
        | inl near ↦ rw near (
            d.slots.values-set l rel (some rp)
            ∙ set_or_append-place rel rp (values l) (ground arith))
        | inr far ↦ rw far (fill-place _ (size l) rel rp l refl (ground arith) n)
      ]

  -- `Enqueue` puts a packet where the description of the window says: it opens an empty queue, drops
  -- a packet that is before the first one, and writes any other into the slot to which its number
  -- counts from the first one, modulo 2^16, with empty slots before it where the queue is too short.
  pub enqueue_refines :
      (q : Q d) (rp : RtpPack)
      → rp.sequence_number < 65536
      → q.first_seq < 65536
      → window (enqueue d q (some rp)) ≡ insert q.first_seq rp (values q.queue)
  unfolding enqueue
  enqueue_refines q rp h k = go (values q.queue) refl
    where
      n : size q.queue ≡ length (values q.queue)
      n = d.slots.size_lem q.queue

      go :
          (xs : List Slot)
          → values q.queue ≡ xs
          → window (enqueue d q (some rp)) ≡ insert q.first_seq rp xs
      go [] e =
          let empty : size q.queue ≡ 0 = n ∙ ap length e in
          rw empty (
            ap (λ t. (rp.sequence_number, t))
              (d.slots.values-add q.queue (some rp) ∙ ap (λ t. t ++ some rp ∷ []) e))
      go (x ∷ xs) e =
          let more : (size q.queue == 0) ≡ false = ground (arith, n, ap length e) in
          elim (Bool-cases (first_before_second rp.sequence_number q.first_seq)) [
            | inl before ↦ rw (more, before) (ap (λ t. (q.first_seq, t)) e)
            | inr inside ↦
                rw (more, inside)
                  (ap (λ t. (q.first_seq, t))
                    (store-place (relative rp.sequence_number q.first_seq) rp q.queue
                      ∙ ap (λ j. place j rp (values q.queue))
                          (relative-eq-sub16 rp.sequence_number q.first_seq h k)
                      ∙ ap (place (sub16 rp.sequence_number q.first_seq) rp) e))
          ]
