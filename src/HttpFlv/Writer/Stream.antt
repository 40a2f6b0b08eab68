-- ===== src/HttpFlv/Writer/Stream.antt =====
-- The bytes that a client receives.
use rtp_http_flv.Prelude.{
  ℕ, zero, suc, ◌+◌, ◌%◌, ◌^◌, ◌≤◌, ◌<◌, ◌≡◌, refl, sym, ap, ◌∙◌, Bool, true, false, Option, none,
  some, List, [], ◌∷◌, ◌++◌, append_assoc, append-nil, Run, done, Slice, arith, ◌>>=◌, length, take,
  drop, All, if◌then◌else◌, tail_from, reslice, length-append, slice_from-done, take-append_le,
  take-append-drop,
}
use rtp_http_flv.HttpFlv.Writer.{
  Sink, FlvWriter, fresh, write, send_tag, send_packet, new_flv_writer, put_i32_be, flv_header,
  header_len, max_queue_num,
}

-- A tag as it stands in an FLV file: its bytes, and their number in four bytes.
abbrev pub frame : Slice → List ℕ
frame p = p.elems ++ put_i32_be (length p.elems % 2 ^ 32)

abbrev pub frames : List Slice → List ℕ
frames [] = []
frames (p ∷ ps) = frame p ++ frames ps

-- A tag has a header.
abbrev pub HasHeader : Slice → Type 0
HasHeader p = header_len ≤ length p.elems

-- The queue hands the tags of a stream over, one after the other.
unfoldable pub write_all : FlvWriter → List Slice → Run (Option FlvWriter)
write_all w [] = done (some w)
write_all w (p ∷ ps) = write w p >>= λ r. elim r [ none ↦ done none | some w' ↦ write_all w' ps ]

head_of :
    (p : Slice)
    → HasHeader p
    → reslice p 0 header_len
      ≡ done (record { elems = take 11 p.elems; spare = drop 11 (p.elems ++ p.spare) })
head_of p h = ground (arith, length-append p.elems p.spare, take-append_le 11 p.elems p.spare)

tail_of :
    (p : Slice)
    → HasHeader p
    → tail_from p header_len ≡ done (record { elems = drop 11 p.elems; spare = p.spare })
tail_of p h = ground (arith, slice_from-done p.elems 11)

regroup : (c t d s : List ℕ) {e : List ℕ} → t ++ d ≡ e → ((c ++ t) ++ d) ++ s ≡ c ++ (e ++ s)
regroup c t d s h =
    rw (← h, append_assoc (c ++ t) d s, append_assoc c t (d ++ s), append_assoc t d s)

abbrev with_pending : FlvWriter → List Slice → FlvWriter
with_pending w ps = record w { packet_queue = record w.packet_queue { pending = ps } }

write-done :
    (w : FlvWriter) (p : Slice)
    → w.closed ≡ false
    → w.packet_queue.is_closed ≡ false
    → length w.packet_queue.pending < w.packet_queue.capacity
    → write w p ≡ done (some (with_pending w (w.packet_queue.pending ++ p ∷ [])))
unfolding write
write-done w p c d h = ground arith

-- Tags for which the queue has room are queued in order.
write_all-pending :
    (ps : List Slice) (w : FlvWriter)
    → w.closed ≡ false
    → w.packet_queue.is_closed ≡ false
    → length w.packet_queue.pending + length ps ≤ w.packet_queue.capacity
    → write_all w ps ≡ done (some (with_pending w (w.packet_queue.pending ++ ps)))
unfolding write_all
write_all-pending [] w c d h = ground (arith, append-nil w.packet_queue.pending)
write_all-pending (p ∷ ps) w c d h = rw (write-done w p c d (omega arith)) (
    write_all-pending ps (with_pending w (w.packet_queue.pending ++ p ∷ [])) c d
      (omega (arith, length-append w.packet_queue.pending (p ∷ [])))
    ∙ ap (λ t. done (some (with_pending w t))) (append_assoc w.packet_queue.pending (p ∷ []) ps))

module _ (sink : Sink) where
  open sink use {World}

  -- `n` rounds of the loop of `SendPacket`, or fewer if it ends.
  unfoldable pub send_rounds : ℕ → FlvWriter → World → Run (Bool × FlvWriter × World)
  send_rounds zero w ctx = done (true, w, ctx)
  send_rounds (suc n) w ctx = do
    (more, w', ctx') ← send_packet sink w ctx
    let rest = send_rounds n w' ctx'
    if more then rest else done (false, w', ctx')

  module _ (accepts : (b : List ℕ) (ctx : World) → (sink.write b ctx).0 ≡ true) where
    send_tag-frame :
        (p : Slice) (ctx : World)
        → HasHeader p
        → (ctx' : World) × (send_tag sink p ctx ≡ done (true, ctx'))
          × (sink.contents ctx' ≡ sink.contents ctx ++ frame p)
    unfolding send_tag
    send_tag-frame p ctx h =
        let c1 : World = (sink.write (take 11 p.elems) ctx).1 in
        let c2 : World = (sink.write (drop 11 p.elems) c1).1 in
        let size : List ℕ = put_i32_be (length p.elems % 2 ^ 32) in
        let c3 : World = (sink.write size c2).1 in
        (
          c3,
          ground (
            arith,
            head_of p h,
            tail_of p h,
            accepts (take 11 p.elems) ctx,
            accepts (drop 11 p.elems) c1,
            accepts size c2,
          ),
          sink.contents-write size c2 (accepts size c2)
              ∙ ap (λ t. t ++ size) (sink.contents-write (drop 11 p.elems) c1 (accepts _ c1))
              ∙ ap (λ t. (t ++ drop 11 p.elems) ++ size)
                  (sink.contents-write (take 11 p.elems) ctx (accepts _ ctx))
              ∙ regroup (sink.contents ctx) (take 11 p.elems) (drop 11 p.elems) size
                  (take-append-drop 11 p.elems),
        )

    -- One round takes the first tag of the queue.
    send_packet-frame :
        (w : FlvWriter) (p : Slice) (rest : List Slice) (ctx : World)
        → w.packet_queue.pending ≡ p ∷ rest
        → HasHeader p
        → (ctx' : World) × (send_packet sink w ctx ≡ done (true, with_pending w rest, ctx'))
          × (sink.contents ctx' ≡ sink.contents ctx ++ frame p)
    unfolding send_packet
    send_packet-frame w p rest ctx e h =
        let (ctx', sent, bytes) = send_tag-frame p ctx h in (ctx', rw (e, sent), bytes)

    -- As many rounds as there are tags send them all, in order.
    send_rounds-frames :
        (ps rest : List Slice) (w : FlvWriter) (ctx : World)
        → w.packet_queue.pending ≡ ps ++ rest
        → All HasHeader ps
        → (ctx' : World) × (send_rounds (length ps) w ctx ≡ done (true, with_pending w rest, ctx'))
          × (sink.contents ctx' ≡ sink.contents ctx ++ frames ps)
    unfolding send_rounds
    send_rounds-frames [] rest w ctx e h = (ctx, ground arith, sym (append-nil _))
    send_rounds-frames (p ∷ ps) rest w ctx e h =
        let (c1, sent, bytes) = send_packet-frame w p (ps ++ rest) ctx e h.0 in
        let (c2, sent', bytes') =
          send_rounds-frames ps rest (with_pending w (ps ++ rest)) c1 refl h.1 in
        (
          c2,
          rw (sent, sent'),
          bytes'
              ∙ ap (λ t. t ++ frames ps) bytes
              ∙ append_assoc (sink.contents ctx) (frame p) (frames ps),
        )

    -- A client that takes every byte receives an FLV file: the file's header with an empty tag size,
    -- and then each tag that the queue hands over, followed by its size, in their order. That holds
    -- of as many tags as the client's queue has room for, each of them with a header of eleven bytes.
    pub stream_is_flv :
        (tags : List Slice) (ctx : World)
        → All HasHeader tags
        → length tags ≤ max_queue_num
        → let (w, ctx1) = new_flv_writer sink ctx in
          (w' : FlvWriter) × (ctx' : World) × (write_all w tags ≡ done (some w'))
          × (send_rounds (length tags) w' ctx1 ≡ done (true, w, ctx'))
          × (sink.contents ctx'
              ≡ sink.contents ctx ++ (flv_header ++ (put_i32_be 0 ++ frames tags)))
    unfolding new_flv_writer
    stream_is_flv tags ctx h k =
        let c0 : World = (sink.write flv_header ctx).1 in
        let c1 : World = (sink.write (put_i32_be 0) c0).1 in
        let (c2, sent, bytes) =
          send_rounds-frames tags [] (with_pending fresh tags) c1 (sym (append-nil tags)) h in
        (
          with_pending fresh tags,
          c2,
          write_all-pending tags fresh refl refl (omega arith),
          sent,
          bytes
              ∙ ap (λ t. t ++ frames tags)
                  (sink.contents-write (put_i32_be 0) c0 (accepts _ c0)
                    ∙ ap (λ t. t ++ put_i32_be 0)
                        (sink.contents-write flv_header ctx (accepts _ ctx)))
              ∙ regroup (sink.contents ctx) flv_header (put_i32_be 0) (frames tags) refl
              ∙ ap (λ t. sink.contents ctx ++ t)
                  (append_assoc flv_header (put_i32_be 0) (frames tags)),
        )
