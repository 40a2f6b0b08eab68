-- ===== src/HttpFlv/Writer/Drop.antt =====
-- `DropPacket` of protocol/httpflv/writer.go, which makes room in the queue of a client. (Its call in
-- `Write` is commented out.)
use rtp_http_flv.Prelude.{
  ℕ, zero, suc, ◌-◌, ◌≡◌, refl, sym, ap, ◌∙◌, Bool, true, false, if-cases, ◌⊎◌, inl, inr, ◌||◌,
  ◌==◌, List, [], ◌∷◌, ◌++◌, Option, none, some, if◌then◌else◌, ltb, arith, length, drop, get_elem?,
  Run, done, ◌>>=◌, >>=-eq-done, done-inj, Slice, Chan, send, recv, recv_from,
}
use rtp_http_flv.Flv.Tag.{Tag, is_key_frame, is_seq}
use rtp_http_flv.Flv.Packet
use rtp_http_flv.Flv.Packet.{Packet, zero_packet}
use rtp_http_flv.HttpFlv.Writer.{max_queue_num}

-- `videoPkt, ok := p.Header.(flv.VideoPacketHeader)`, and the test behind it: a sequence header or a
-- key frame.
unfoldable pub is_kept : Option Tag → Bool
is_kept none = false
is_kept (some h) = is_seq h || is_key_frame h

-- `<-pktQue`
abbrev pub skip : Chan Slice → Run (Chan Slice)
skip c = do (t, c') ← recv c; done c'

-- A video tag.
unfoldable pub drop_video : Option Tag → Slice → Chan Slice → Run (Chan Slice)
drop_video header tag c = do
  c1 ← (if is_kept header then send c tag else done c)
  c2 ← (if ltb (max_queue_num - 10) (length c1.pending) then skip c1 else done c1)
  skip c2

-- A round of the loop.
unfoldable pub drop_round : Chan Slice → Run (Chan Slice)
unfolding drop_video Packet.parse
drop_round c = do
  (t, c1) ← recv c
  elim t [
    | none ↦ done c1
    | some tag ↦ (do
      p ← Packet.parse (zero_packet tag) tag false
      c2 ← (if p.is_video then drop_video p.header tag c1 else done c1)
      if p.is_audio then send c2 tag else done c2)
  ]

unfoldable pub drop_rounds : ℕ → Chan Slice → Run (Chan Slice)
drop_rounds zero c = done c
drop_rounds (suc n) c = drop_round c >>= drop_rounds n

-- `DropPacket`
unfoldable pub drop_packet : Chan Slice → Run (Chan Slice)
unfolding drop_rounds
drop_packet c = drop_rounds (max_queue_num - 84) c

-- The kind of a tag is its first byte.
abbrev pub has_kind : ℕ → Slice → Bool
has_kind k tag = elim (get_elem? tag.elems 0) [ none ↦ false | some b ↦ b == k ]

-- What a round does to the tags of a queue: a video tag is lost, and with it the next tag, of whatever
-- kind, or the next two where more than 1014 wait; an audio tag goes to the end; any other is lost.
unfoldable pub thin : List Slice → List Slice
thin [] = []
thin (tag ∷ rest) =
    if has_kind 9 tag
    then drop (if ltb 1014 (length rest) then 2 else 1) rest
    else if has_kind 8 tag
    then rest ++ tag ∷ []
    else rest

unfoldable pub thins : ℕ → List Slice → List Slice
thins zero tags = tags
thins (suc n) tags = thins n (thin tags)

-- `Parse` leaves the header unread, and finds out the kind.
parse_kind :
    (tag : Slice) (p : Packet)
    → Packet.parse (zero_packet tag) tag false ≡ done p
    → (p.header ≡ none) × (p.is_video ≡ has_kind 9 tag) × (p.is_audio ≡ has_kind 8 tag)
unfolding Packet.parse
parse_kind tag p h = ground arith

-- What a receive that returns has done to the queue.
recv_pending :
    (c c' : Chan Slice) (t : Option Slice)
    → recv c ≡ done (t, c')
    → ((t ≡ none) × (c.pending ≡ []) × (c'.pending ≡ []))
      ⊎ ((tag : Slice) × (t ≡ some tag) × (c.pending ≡ tag ∷ c'.pending))
recv_pending c c' t h = go c.pending refl h
  where
    go :
        (l : List Slice)
        → c.pending ≡ l
        → recv_from l c ≡ done (t, c')
        → ((t ≡ none) × (c.pending ≡ []) × (c'.pending ≡ []))
          ⊎ ((tag : Slice) × (t ≡ some tag) × (c.pending ≡ tag ∷ c'.pending))
    go [] e k = inl (ground arith, e, ground arith)
    go (x ∷ rest) e k = inr (x, ground arith, e ∙ ground arith)

skip_pending : (c c' : Chan Slice) → skip c ≡ done c' → c'.pending ≡ drop 1 c.pending
skip_pending c c' h =
    let ((t, c1), a, f) = >>=-eq-done (recv c) _ h in
    let same : c1 ≡ c' = done-inj c1 c' f in
    elim (recv_pending c c1 t a) [
      | inl (n, e, e1) ↦ sym (ap (λ (x : Chan Slice). x.pending) same) ∙ rw (e, e1) refl
      | inr (tag, k, e) ↦ sym (ap (λ (x : Chan Slice). x.pending) same) ∙ rw e refl
    ]

drop_twice : (l : List Slice) → drop 1 (drop 1 l) ≡ drop 2 l
drop_twice [] = refl
drop_twice (x ∷ []) = refl
drop_twice (x ∷ y ∷ l) = refl

drop_video_pending :
    (tag : Slice) (c c' : Chan Slice)
    → drop_video none tag c ≡ done c'
    → c'.pending ≡ drop (if ltb 1014 (length c.pending) then 2 else 1) c.pending
unfolding drop_video is_kept
drop_video_pending tag c c' h =
    let (c2, a, f) =
      >>=-eq-done (if ltb (max_queue_num - 10) (length c.pending) then skip c else done c) _ h in
    elim (if-cases (ltb (max_queue_num - 10) (length c.pending)) a) [
      | inl (full, e) ↦
          rw full (skip_pending c2 c' f ∙ ap (drop 1) (skip_pending c c2 e) ∙ drop_twice c.pending)
      | inr (room, e) ↦
          rw room (
            skip_pending c2 c' f
            ∙ ap (λ (x : Chan Slice). drop 1 x.pending) (sym (done-inj c c2 e)))
    ]

sent_pending :
    (c c' : Chan Slice) (tag : Slice) → send c tag ≡ done c' → c'.pending ≡ c.pending ++ tag ∷ []
sent_pending c c' tag h = ground arith

kinds_apart : (tag : Slice) → has_kind 9 tag ≡ true → has_kind 8 tag ≡ true → ⊥
kinds_apart tag v a = ground arith

drop_round_pending : (c c' : Chan Slice) → drop_round c ≡ done c' → c'.pending ≡ thin c.pending
unfolding drop_round thin
drop_round_pending c c' h =
    let ((t, c1), a, f) = >>=-eq-done (recv c) _ h in go c1 t (recv_pending c c1 t a) f
  where
    go :
        (c1 : Chan Slice) (t : Option Slice)
        → ((t ≡ none) × (c.pending ≡ []) × (c1.pending ≡ []))
          ⊎ ((tag : Slice) × (t ≡ some tag) × (c.pending ≡ tag ∷ c1.pending))
        → ◌≡◌ {A = Run (Chan Slice)}
            (elim t [
              | none ↦ done c1
              | some tag ↦ (do
                p ← Packet.parse (zero_packet tag) tag false
                c2 ← (if p.is_video then drop_video p.header tag c1 else done c1)
                if p.is_audio then send c2 tag else done c2)
            ])
            (done c')
        → c'.pending ≡ thin c.pending
    go c1 none (inl (n, e, e1)) k =
        rw e (sym (ap (λ (x : Chan Slice). x.pending) (done-inj c1 c' k)) ∙ e1)
    go c1 none (inr (tag, n, e)) k = absurd (cc n)
    go c1 (some tag) (inl (n, e, e1)) k = absurd (cc n)
    go c1 (some tag) (inr (tag', n, e)) k =
        let is : tag' ≡ tag = cc n in
        let (p, b, g) = >>=-eq-done (Packet.parse (zero_packet tag) tag false) _ k in
        let (unread, video, audio) = parse_kind tag p b in
        let (c2, m, o) =
          >>=-eq-done (if p.is_video then drop_video p.header tag c1 else done c1) _ g in
        rw (e, is)
          (elim (if-cases p.is_video m) [
            | inl (yes', x) ↦
                let c2_is =
                  drop_video_pending tag c1 c2 (sym (ap (λ o. drop_video o tag c1) unread) ∙ x) in
                rw (sym video ∙ yes') (elim (if-cases p.is_audio o) [
                  | inl (both, y) ↦ absurd (kinds_apart tag (sym video ∙ yes') (sym audio ∙ both))
                  | inr (other, y) ↦
                      sym (ap (λ (x : Chan Slice). x.pending) (done-inj c2 c' y)) ∙ c2_is
                ])
            | inr (no', x) ↦
                let same : c1 ≡ c2 = done-inj c1 c2 x in
                rw (sym video ∙ no') (elim (if-cases p.is_audio o) [
                  | inl (yes', y) ↦ rw (sym audio ∙ yes') (
                      sent_pending c2 c' tag y
                      ∙ ap (λ (x : Chan Slice). x.pending ++ tag ∷ []) (sym same))
                  | inr (other, y) ↦
                      rw (sym audio ∙ other)
                        (sym (ap (λ (x : Chan Slice). x.pending) (same ∙ done-inj c2 c' y)))
                ])
          ])

-- What `DropPacket`, which makes 940 rounds, leaves in the queue, when any number of its rounds has
-- returned: each round takes a tag off the front. A video tag is lost, also if it is a key frame or a
-- sequence header, since `Parse` does not read the header by which these would be known; and the tag
-- behind it is lost with it, of whatever kind, or the two tags behind it where more than 1014 wait. An
-- audio tag is put back behind the others, and a tag of another kind is lost.
pub drop_rounds_lem :
    (n : ℕ) (c c' : Chan Slice) → drop_rounds n c ≡ done c' → c'.pending ≡ thins n c.pending
unfolding drop_rounds thins
drop_rounds_lem zero c c' h = sym (ap (λ (x : Chan Slice). x.pending) (done-inj c c' h))
drop_rounds_lem (suc n) c c' h =
    let (c1, a, f) = >>=-eq-done (drop_round c) _ h in
    drop_rounds_lem n c1 c' f ∙ ap (thins n) (drop_round_pending c c1 a)
