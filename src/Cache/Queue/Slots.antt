-- ===== src/Cache/Queue/Slots.antt =====
-- The methods of cache/RtpQueue.go that work on the slots alone: `Enqueue`, `isFirstOk`,
-- `getHeadNil`, and the loop of `reshape`.
pub mod Refine
pub mod Head
use rtp_http_flv.Prelude.{
  ℕ, zero, suc, ◌+◌, ◌-◌, Bool, true, false, Option, none, some, ltb, leb, ◌==◌, if◌then◌else◌,
}
use rtp_http_flv.Rtp.{RtpPack}
use rtp_http_flv.Utils.Seq.{add16, first_before_second, relative}
use rtp_http_flv.Cache.Queue.{Deps, Q}

module _ (d : Deps) where
  open d.slots use {Carrier, size, get, set, add, remove}

  -- `for i := Size(); i <= relative; i++` of `Enqueue`, by the rounds left.
  unfoldable pub fill : ℕ → ℕ → ℕ → RtpPack → Carrier → Carrier
  fill zero i rel rp l = l
  fill (suc n) i rel rp l = fill n (i + 1) rel rp (set l i (if i == rel then some rp else none))

  -- The two ways in which `Enqueue` writes a packet at its offset from the first one.
  unfoldable pub store : ℕ → RtpPack → Carrier → Carrier
  unfolding fill
  store rel rp l =
      if leb rel (size l) then set l rel (some rp) else fill (rel + 1 - size l) (size l) rel rp l

  unfoldable pub enqueue : Q d → Option RtpPack → Q d
  unfolding store
  enqueue q none = q
  enqueue q (some rp) =
      let seq = rp.sequence_number in
      let q1 = record q { acc_packets = q.acc_packets + 1 } in
      if size q.queue == 0
      then record q1 { first_seq = seq; queue = add q.queue (some rp) }
      else if first_before_second seq q.first_seq
      then q1
      else record q1 { queue = store (relative seq q.first_seq) rp q.queue }

  unfoldable pub is_first_ok : Q d → Bool
  is_first_ok q = elim (get q.queue 0) [
    | none ↦ false
    | some x ↦ (elim x [ none ↦ false | some rp ↦ true ])
  ]

  -- The loop of `getHeadNil`, by the rounds left.
  unfoldable pub count_nils : ℕ → ℕ → Carrier → ℕ
  count_nils zero nils l = nils
  count_nils (suc n) nils l = elim (get l nils) [
    | none ↦ nils
    | some x ↦ (elim x [ none ↦ count_nils n (nils + 1) l | some rp ↦ nils ])
  ]

  unfoldable pub get_head_nil : Q d → ℕ
  unfolding count_nils
  get_head_nil q = count_nils (size q.queue) 1 q.queue

  -- `queue.Remove(0)` and `FirstSeq += 1`
  abbrev pub remove_first : Q d → Q d
  remove_first q = record q { queue = remove q.queue 0; first_seq = add16 q.first_seq 1 }

  -- The loop of `reshape`, by the rounds left: the packets removed, or 0 if none is left.
  unfoldable pub remove_head : ℕ → ℕ → Q d → ℕ × Q d
  remove_head zero removed q = (0, q)
  remove_head (suc n) removed q =
      let q' = record (remove_first q) { acc_loss = q.acc_loss + 1 } in
      let rest = remove_head n (removed + 1) q' in
      if ltb 0 (size q.queue) then (if is_first_ok q' then (removed + 1, q') else rest) else (0, q)
