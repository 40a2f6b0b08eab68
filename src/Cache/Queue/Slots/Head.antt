-- ===== src/Cache/Queue/Slots/Head.antt =====
-- The head of the queue: `isFirstOk`, `getHeadNil`, and the loop of `reshape`, against the window.
use rtp_http_flv.Prelude.{
  ℕ, zero, suc, ◌+◌, ◌-◌, ◌≤◌, ◌<◌, ◌≡◌, refl, ◌∙◌, ap, sym, true, false, none, some, List, [], ◌∷◌,
  ◌++◌, append_assoc, length-append, get_elem?-append_right, ltb, arith, length, get_elem?, subst,
}
use rtp_http_flv.Rtp.{RtpPack}
use rtp_http_flv.Utils.Seq.{add16}
use rtp_http_flv.Cache.ArrayList.{remove_at}
use rtp_http_flv.Cache.Window.{Slot, IsWindow, insert-IsWindow, head_nils, EndsWithPacket}
use rtp_http_flv.Cache.Window.Skip.{first_held, skip_nils}
use rtp_http_flv.Cache.Queue.{Deps, Q}
use rtp_http_flv.Cache.Queue.Slots.{
  enqueue, is_first_ok, get_head_nil, count_nils, remove_first, remove_head,
}
use rtp_http_flv.Cache.Queue.Slots.Refine.{window, enqueue_refines}

held_first :
    (xs : List Slot)
    → (elim (get_elem? xs 0) [ none ↦ false | some x ↦ (elim x [ none ↦ false | some rp ↦ true ]) ])
      ≡ first_held xs
held_first [] = refl
held_first (none ∷ xs) = refl
held_first (some p ∷ xs) = refl

at_zero : (i n : ℕ) → i ≡ n → i - n ≡ 0
at_zero i n h = omega arith

shift : (i n : ℕ) → i + 1 + n ≡ i + suc n
shift i n = omega arith

module _ (d : Deps) where
  open d.slots use {Carrier, size, get, values}

  abbrev pub IsQueue : Q d → Type 0
  IsQueue q = IsWindow q.first_seq (values q.queue)

  -- `Enqueue` keeps every packet in the slot of its number, the last slot filled, and the queue at
  -- most 60001 slots long, whatever packet arrives.
  pub enqueue-IsQueue :
      (q : Q d) (rp : RtpPack)
      → rp.sequence_number < 65536
      → IsQueue q
      → IsQueue (enqueue d q (some rp))
  enqueue-IsQueue q rp h v =
      subst (λ (w : ℕ × List Slot). IsWindow w.0 w.1) (sym (enqueue_refines d q rp h v.first))
        (insert-IsWindow q.first_seq rp (values q.queue) h v)

  pub is_first_ok-first_held : (q : Q d) → is_first_ok d q ≡ first_held (values q.queue)
  unfolding is_first_ok
  is_first_ok-first_held q =
      rw (is_first_ok, d.slots.get_lem q.queue 0) (held_first (values q.queue))

  -- Removing the first slot.
  pub remove_first-cons :
      (q : Q d) (x : Slot) (xs : List Slot)
      → values q.queue ≡ x ∷ xs
      → values (remove_first d q).queue ≡ xs
  remove_first-cons q x xs e = d.slots.values-remove q.queue 0 ∙ ap (λ t. remove_at t 0) e

  pub look :
      (l : Carrier) (ys zs : List Slot) (i : ℕ)
      → values l ≡ ys ++ zs
      → i ≡ length ys
      → get l i ≡ get_elem? zs 0
  look l ys zs i e h =
      d.slots.get_lem l i
      ∙ ap (λ t. get_elem? t i) e
      ∙ get_elem?-append_right ys zs i (omega arith)
      ∙ ap (get_elem? zs) (at_zero i (length ys) h)

  count_nils-head :
      (n i : ℕ) (l : Carrier) (ys zs : List Slot)
      → values l ≡ ys ++ zs
      → i ≡ length ys
      → length zs ≤ n
      → count_nils d n i l ≡ i + head_nils zs
  unfolding count_nils
  count_nils-head zero i l ys [] e h k = omega arith
  count_nils-head zero i l ys (z ∷ zs) e h k = absurd (omega arith)
  count_nils-head (suc n) i l ys [] e h k = rw (count_nils, look l ys [] i e h) (omega arith)
  count_nils-head (suc n) i l ys (none ∷ zs) e h k =
      rw (count_nils, look l ys (none ∷ zs) i e h)
        (count_nils-head n (i + 1) l (ys ++ none ∷ []) zs (e ∙ sym (append_assoc ys (none ∷ []) zs))
            (omega (arith, length-append ys (none ∷ []))) (omega arith)
          ∙ shift i (head_nils zs))
  count_nils-head (suc n) i l ys (some p ∷ zs) e h k =
      rw (count_nils, look l ys (some p ∷ zs) i e h) (omega arith)

  -- `getHeadNil` takes the first slot for empty, and counts it with the empty slots behind it.
  get_head_nil_lem :
      (q : Q d) (x : Slot) (xs : List Slot)
      → values q.queue ≡ x ∷ xs
      → get_head_nil d q ≡ 1 + head_nils xs
  unfolding get_head_nil
  get_head_nil_lem q x xs e =
      count_nils-head (size q.queue) 1 q.queue (x ∷ []) xs e refl
        (omega (arith, d.slots.size_lem q.queue, ap length e))

  -- The queue after one round of the loop.
  abbrev dropped : Q d → Q d
  dropped q = record (remove_first d q) { acc_loss = q.acc_loss + 1 }

  not_empty :
      (q : Q d) (x : Slot) (xs : List Slot) → values q.queue ≡ x ∷ xs → ltb 0 (size q.queue) ≡ true
  not_empty q x xs e = ground (arith, d.slots.size_lem q.queue, ap length e)

  first_after :
      (q : Q d) (x : Slot) (xs : List Slot)
      → values q.queue ≡ x ∷ xs
      → is_first_ok d (dropped q) ≡ first_held xs
  first_after q x xs e =
      is_first_ok-first_held (dropped q) ∙ ap first_held (remove_first-cons q x xs e)

  -- The loop of `reshape` removes the first slot and then the empty ones behind it, counts them, and
  -- stops at the first packet.
  pub remove_head-skip :
      (n removed : ℕ) (q : Q d) (x : Slot) (xs : List Slot)
      → values q.queue ≡ x ∷ xs
      → length xs ≤ n
      → 0 < length xs
      → EndsWithPacket xs
      → (window d (remove_head d n removed q).1 ≡ skip_nils (add16 q.first_seq 1) xs)
        × ((remove_head d n removed q).0 ≡ removed + 1 + head_nils xs)
  unfolding remove_head
  remove_head-skip zero removed q x xs e h k v = absurd (omega arith)
  remove_head-skip (suc n) removed q x [] e h k v = absurd (omega arith)
  remove_head-skip (suc n) removed q x (some p ∷ xs) e h k v =
      rw (not_empty q x (some p ∷ xs) e, first_after q x (some p ∷ xs) e)
        (ap (λ t. (add16 q.first_seq 1, t)) (remove_first-cons q x (some p ∷ xs) e), omega arith)
  remove_head-skip (suc n) removed q x (none ∷ []) e h k v = absurd v
  remove_head-skip (suc n) removed q x (none ∷ y ∷ xs) e h k v =
      let (w, m) =
        remove_head-skip n (removed + 1) (dropped q) none (y ∷ xs)
          (remove_first-cons q x (none ∷ y ∷ xs) e) (omega arith) (omega arith) v in
      rw (not_empty q x (none ∷ y ∷ xs) e, first_after q x (none ∷ y ∷ xs) e) (w, omega (arith, m))
