-- ===== src/Cache/Queue/Print.antt =====
-- `PrintInfo` of cache/RtpQueue.go: what the goroutine that prints the state of a queue reads.
use rtp_http_flv.Prelude.{
  ℕ, zero, suc, ◌-◌, ◌+◌, ◌<◌, ◌≡◌, ◌≢◌, refl, ap, ◌∙◌, false, List, [], ◌∷◌, ◌++◌, replicate,
  length-append, length-replicate, Option, none, some, if◌then◌else◌, ◌==◌, ltb, nat_beq_iff,
  length, get_elem?, arith, Run, done, panics, ◌>>=◌, deref,
}
use rtp_http_flv.Rtp.{RtpPack}
use rtp_http_flv.Utils.Seq.{add16}
use rtp_http_flv.Cache.Window.{Slot, InOrder, EndsWithPacket}
use rtp_http_flv.Cache.Queue.{Deps, Q}
use rtp_http_flv.Cache.Queue.Slots.Head.{IsQueue}

-- The fields of the line.
pub record Info : Type 0 where
  pub length : ℕ
  pub first_seq : ℕ
  pub last_seq : ℕ
  pub acc_rtp_recv : ℕ
  pub acc_flv_recv : ℕ

module _ (d : Deps) where
  open d.slots use {size, get, values}

  -- The number of the last packet: an empty slot there is a failed type assertion. (The index of an
  -- empty queue is -1 in the code, and `Get` finds nothing there, as it does at 0.)
  unfoldable pub last_seq : Q d → Run ℕ
  last_seq q = elim (get q.queue (size q.queue - 1)) [
    | some slot ↦ (do rp ← deref slot; done rp.sequence_number)
    | none ↦ if ltb 0 (size q.queue) then panics else done 0
  ]

  -- A round of `PrintInfo`; `none` where it returns, for a stream that has been closed.
  unfoldable pub print_info : Q d → Run (Option Info)
  unfolding last_seq
  print_info q = if q.ssrc == 0 then done none else (do
    n ← last_seq q
    done (
        some (record {
          length = size q.queue;
          first_seq = q.first_seq;
          last_seq = n;
          acc_rtp_recv = q.acc_packets;
          acc_flv_recv = q.acc_flv_tags;
        })))

last_slot :
    (n f : ℕ) (xs : List Slot)
    → length xs ≡ suc n
    → f < 65536
    → InOrder f xs
    → EndsWithPacket xs
    → (rp : RtpPack) × (get_elem? xs n ≡ some (some rp)) × (rp.sequence_number ≡ add16 f n)
last_slot n f [] l h o e = absurd (omega arith)
last_slot zero f (none ∷ []) l h o e = absurd e
last_slot zero f (some p ∷ []) l h o e = (p, refl, omega (arith, o.0))
last_slot (suc n) f (x ∷ []) l h o e = absurd (omega arith)
last_slot zero f (x ∷ y ∷ xs) l h o e = absurd (omega arith)
last_slot (suc n) f (none ∷ y ∷ xs) l h o e =
    let (rp, g, s) = last_slot n (add16 f 1) (y ∷ xs) (omega arith) (omega arith) o e in
    (rp, g, omega (arith, s))
last_slot (suc n) f (some p ∷ y ∷ xs) l h o e =
    let (rp, g, s) = last_slot n (add16 f 1) (y ∷ xs) (omega arith) (omega arith) o.1 e in
    (rp, g, omega (arith, s))

last_of_padded :
    (xs : List Slot) (n m : ℕ)
    → m ≡ length xs + n
    → get_elem? (xs ++ replicate (suc n) none) m ≡ some none
last_of_padded [] zero zero e = refl
last_of_padded [] zero (suc m) e = absurd (omega arith)
last_of_padded [] (suc n) zero e = absurd (omega arith)
last_of_padded [] (suc n) (suc m) e = last_of_padded [] n m (omega arith)
last_of_padded (x ∷ xs) n zero e = absurd (omega arith)
last_of_padded (x ∷ xs) n (suc m) e = last_of_padded xs n m (omega arith)

module _ (d : Deps) where
  open d.slots use {Carrier, size, values}

  -- `PrintInfo` reads the queue without a lock: where `Enqueue` has just filled it with empty slots, up
  -- to the place of its packet, the last slot is empty, and the type assertion panics.
  pub print_info_padded :
      (q : Q d) (l : Carrier) (n : ℕ)
      → q.ssrc ≢ 0
      → values l ≡ values q.queue ++ replicate (suc n) none
      → print_info d (record q { queue = l }) ≡ panics
  unfolding print_info last_seq
  print_info_padded q l n o e =
      let opened : (q.ssrc == 0) ≡ false = ground (arith, o, nat_beq_iff q.ssrc 0) in
      let empty : Slot = none in
      let long : size l - 1 ≡ length (values q.queue) + n = omega (
        arith,
        d.slots.size_lem l,
        ap (λ (x : List Slot). length x) e,
        length-append (values q.queue) (replicate (suc n) empty),
        length-replicate (suc n) empty,
      ) in
      let last : d.slots.get l (size l - 1) ≡ some none =
        d.slots.get_lem l (size l - 1)
        ∙ ap (λ (x : List Slot). get_elem? x (size l - 1)) e
        ∙ last_of_padded (values q.queue) n (size l - 1) long in
      rw (print_info, opened, last_seq, last) refl

  -- `PrintInfo` does not panic on the queue of a stream that is open and in order: the last slot is never
  -- empty, and the last number that it prints is as many behind the first as there are slots between
  -- them; for an empty queue it is 0.
  pub print_info_prints :
      (q : Q d)
      → q.ssrc ≢ 0
      → IsQueue d q
      → (info : Info) × (print_info d q ≡ done (some info))
        × (info.length ≡ length (values q.queue))
        × (info.last_seq ≡ (if info.length == 0 then 0 else add16 info.first_seq (info.length - 1)))
  unfolding print_info last_seq
  print_info_prints q o v = go (length (values q.queue)) refl
    where
      opened : (q.ssrc == 0) ≡ false
      opened = ground (arith, o, nat_beq_iff q.ssrc 0)

      read :
          (i : ℕ) (r : Option Slot)
          → size q.queue - 1 ≡ i
          → get_elem? (values q.queue) i ≡ r
          → d.slots.get q.queue (size q.queue - 1) ≡ r
      read i r e g =
          d.slots.get_lem q.queue (size q.queue - 1)
          ∙ ap (λ (j : ℕ). get_elem? (values q.queue) j) e
          ∙ g

      none_there : (xs : List Slot) → length xs ≡ 0 → get_elem? xs 0 ≡ none
      none_there [] e = refl
      none_there (x ∷ xs) e = absurd (omega arith)

      printed :
          (n : ℕ)
          → last_seq d q ≡ done n
          → n ≡ (if size q.queue == 0 then 0 else add16 q.first_seq (size q.queue - 1))
          → (info : Info) × (print_info d q ≡ done (some info))
            × (info.length ≡ length (values q.queue))
            × (info.last_seq
                ≡ (if info.length == 0 then 0 else add16 info.first_seq (info.length - 1)))
      printed n e f = (
        record {
          length = size q.queue;
          first_seq = q.first_seq;
          last_seq = n;
          acc_rtp_recv = q.acc_packets;
          acc_flv_recv = q.acc_flv_tags;
        },
        rw (print_info, opened, e) refl,
        d.slots.size_lem q.queue,
        f,
      )

      go :
          (n : ℕ)
          → length (values q.queue) ≡ n
          → (info : Info) × (print_info d q ≡ done (some info))
            × (info.length ≡ length (values q.queue))
            × (info.last_seq
                ≡ (if info.length == 0 then 0 else add16 info.first_seq (info.length - 1)))
      go zero e =
          let s : size q.queue ≡ 0 = d.slots.size_lem q.queue ∙ e in
          let nothing = read 0 none (omega (arith, s)) (none_there (values q.queue) e) in
          let short : ltb 0 (size q.queue) ≡ false = ground (arith, s) in
          printed 0 (rw (last_seq, nothing, short) refl) (ground (arith, s))
      go (suc n) e =
          let s : size q.queue ≡ suc n = d.slots.size_lem q.queue ∙ e in
          let (rp, g, l) = last_slot n q.first_seq (values q.queue) e v.first v.in_order v.ends in
          let there = read n (some (some rp)) (omega (arith, s)) g in
          printed rp.sequence_number (rw (last_seq, there) refl) (ground (arith, s, l))
