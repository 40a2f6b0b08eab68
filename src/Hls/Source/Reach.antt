-- ===== src/Hls/Source/Reach.antt =====
-- The two goroutines that use a source as steps: the queue that writes packets, and `SendPacket`.
use rtp_http_flv.Prelude.{
  ℕ, ◌≡◌, refl, subst, inl, inr, Bool, true, false, not, ◌&&◌, ◌||◌, Bool-cases, if-cases, List, [],
  Option, none, some, ◌==◌, if◌then◌else◌, Text, text_eq, arith, done, ◌>>=◌, >>=-eq-done, done-inj,
  recv, Chan,
}
use rtp_http_flv.Hls.TsCache.{new_ts_cache_item}
use rtp_http_flv.Hls.Status.{update}
use rtp_http_flv.Hls.Livego.{Livego, AvPacket, Demuxed, demuxed, avc_end_seq, failed}
use rtp_http_flv.Hls.Source.{Source, new_source, write, video_h264, sound_aac, aac_seqhdr}
use rtp_http_flv.Hls.Source.Cuts.{cut}
use rtp_http_flv.Hls.Source.Send.{
  Parsed, feed, parse_seq, parse_frame, parse, calc_pts_dts, ts_mux, add_packet, take_packet,
  send_packet, as_video, as_audio, unsupported,
}
use rtp_http_flv.Hls.Source.Segments.{
  IsSource, Same, Same-IsSource, feed-Same, calc_pts_dts-Same, ts_mux-Same, cut-IsSource,
}

module _ (live : Livego) where
  parse_seq-IsSource :
      (key : Text) (time : ℕ) (p : AvPacket) (s : Source live) (t : Parsed live)
      → IsSource live key s
      → parse_seq live time p s ≡ done t
      → IsSource live key t.source
  unfolding parse_seq
  parse_seq-IsSource key time p s t v h =
      let ((ok, s1), a, f) = >>=-eq-done (feed live p s) _ h in
      subst (λ (x : Parsed live). IsSource live key x.source) (done-inj _ _ f)
        (Same-IsSource live key s s1 (feed-Same live p s s1 ok a) v)

  cut_if-IsSource :
      (b : Bool) (key : Text) (now : ℕ) (s s' : Source live)
      → IsSource live key s
      → (if b then cut live now s else done s) ≡ done s'
      → IsSource live key s'
  cut_if-IsSource true key now s s' v h = cut-IsSource live key now s s' v h
  cut_if-IsSource false key now s s' v h = subst (IsSource live key) (done-inj _ _ h) v

  parse_frame-IsSource :
      (key : Text) (now time : ℕ) (is_key : Bool) (p : AvPacket) (s : Source live) (t : Parsed live)
      → IsSource live key s
      → parse_frame live now time is_key p s ≡ done t
      → IsSource live key t.source
  unfolding parse_frame
  parse_frame-IsSource key now time is_key p s t v h =
      let s0 : Source live = record s { bwriter = [] } in
      let ((ok, s1), a, f) = >>=-eq-done (feed live p s0) _ h in
      let k = feed-Same live p s0 s1 ok a in
      let v1 =
        Same-IsSource live key s s1 (record { key = k.key; seq = k.seq; ts_cache = k.ts_cache })
          v in
      elim (Bool-cases (not ok)) [
        | inl bad ↦
            subst (λ (x : Parsed live). IsSource live key x.source) (done-inj _ _ (rw bad at f)) v1
        | inr good ↦
            let (s2, b, g) =
              >>=-eq-done (if p.is_video && is_key then cut live now s1 else done s1) _
                (rw good at f) in
            subst (λ (x : Parsed live). IsSource live key x.source) (done-inj _ _ g)
              (cut_if-IsSource (p.is_video && is_key) key now s1 s2 v1 b)
      ]

  -- The three outcomes of a supported or unsupported header.
  choose-IsSource :
      (bad seq is_key : Bool) (key : Text) (now time : ℕ) (p : AvPacket) (s : Source live)
      (t : Parsed live)
      → IsSource live key s
      → (if bad
          then done (unsupported live p s)
          else if seq
          then parse_seq live time p s
          else parse_frame live now time is_key p s)
        ≡ done t
      → IsSource live key t.source
  choose-IsSource true seq is_key key now time p s t v h =
      subst (λ (x : Parsed live). IsSource live key x.source) (done-inj _ _ h) v
  choose-IsSource false true is_key key now time p s t v h = parse_seq-IsSource key time p s t v h
  choose-IsSource false false is_key key now time p s t v h =
      parse_frame-IsSource key now time is_key p s t v h

  parse-IsSource :
      (key : Text) (now : ℕ) (p : AvPacket) (s : Source live) (t : Parsed live)
      → IsSource live key s
      → parse live now p s ≡ done t
      → IsSource live key t.source
  unfolding parse
  parse-IsSource key now p s t v h = elim (if-cases p.is_video h) [
    | inl (video, k) ↦
        let (vh, a, f) = >>=-eq-done (as_video p.header) _ k in
        choose-IsSource (not (vh.codec_id == video_h264)) (vh.is_key_frame && vh.is_seq)
          vh.is_key_frame key now vh.composition_time p s t v f
    | inr (audio, k) ↦
        let (ah, a, f) = >>=-eq-done (as_audio p.header) _ k in
        choose-IsSource (not (ah.sound_format == sound_aac)) (ah.aac_packet_type == aac_seqhdr)
          false key now 0 p s t v f
  ]

  add_packet-IsSource :
      (key : Text) (time : ℕ) (p : AvPacket) (s s' : Source live)
      → IsSource live key s
      → add_packet live time p s ≡ done s'
      → IsSource live key s'
  unfolding add_packet
  add_packet-IsSource key time p s s' v h = go s.btswriter h
    where
      go :
          (o : Option (List ℕ))
          → elim o [
            | none ↦ done s
            | some b ↦ (do
              s1 ←
                  calc_pts_dts live p.is_video p.time_stamp time
                    (record s { stat = update s.stat p.is_video p.time_stamp })
              (ok, s2) ← ts_mux live p s1
              done s2)
          ]
            ≡ done s'
          → IsSource live key s'
      go none k = subst (IsSource live key) (done-inj _ _ k) v
      go (some b) k =
          let s0 : Source live = record s { stat = update s.stat p.is_video p.time_stamp } in
          let (s1, a, f) = >>=-eq-done (calc_pts_dts live p.is_video p.time_stamp time s0) _ k in
          let ((ok, s2), c, g) = >>=-eq-done (ts_mux live p s1) _ f in
          let w = calc_pts_dts-Same live p.is_video p.time_stamp time s0 s1 a in
          let v1 =
            Same-IsSource live key s s1 (record { key = w.key; seq = w.seq; ts_cache = w.ts_cache })
              v in
          subst (IsSource live key) (done-inj _ _ g)
            (Same-IsSource live key s1 s2 (ts_mux-Same live p s1 s2 ok c) v1)

  take_packet-IsSource :
      (key : Text) (now : ℕ) (p : AvPacket) (s s' : Source live)
      → IsSource live key s
      → take_packet live now p s ≡ done s'
      → IsSource live key s'
  unfolding take_packet
  take_packet-IsSource key now p s s' v h = elim (if-cases p.is_metadata h) [
    | inl (meta, k) ↦ subst (IsSource live key) (done-inj _ _ k) v
    | inr (media, k) ↦ let (r, a, f) = >>=-eq-done (live.demux p) _ k in after r f
  ]
    where
      after :
          (r : Demuxed)
          → elim r [
            | avc_end_seq ↦ done s
            | failed ↦ done (record s { closed = true })
            | demuxed p1 ↦ (do
              t ← parse live now p1 s
              if not t.ok || t.is_seq
                  then done t.source
                  else add_packet live t.composition_time t.packet t.source)
          ]
            ≡ done s'
          → IsSource live key s'
      after avc_end_seq f = subst (IsSource live key) (done-inj _ _ f) v
      after failed f =
          subst (IsSource live key) (done-inj _ _ f) (record { own = v.own; segments = v.segments })
      after (demuxed p1) f =
          let (t, a, g) = >>=-eq-done (parse live now p1 s) _ f in
          let v1 = parse-IsSource key now p1 s t v a in
          elim (Bool-cases (not t.ok || t.is_seq)) [
            | inl stop ↦ subst (IsSource live key) (done-inj _ _ (rw stop at g)) v1
            | inr go ↦
                add_packet-IsSource key t.composition_time t.packet t.source s' v1 (rw go at g)
          ]

  send_packet-IsSource :
      (key : Text) (now : ℕ) (s s' : Source live)
      → IsSource live key s
      → send_packet live now s ≡ done s'
      → IsSource live key s'
  unfolding send_packet
  send_packet-IsSource key now s s' v h = elim (if-cases s.closed h) [
    | inl (over, k) ↦ subst (IsSource live key) (done-inj _ _ k) v
    | inr (going, k) ↦
        let ((p, queue), a, f) = >>=-eq-done (recv s.packet_queue) _ k in taken queue p f
  ]
    where
      taken :
          (queue : Chan AvPacket) (p : Option AvPacket)
          → (let s1 : Source live = record s { packet_queue = queue } in
              elim p [
                | none ↦ done (record s1 { closed = true })
                | some p' ↦ take_packet live now p' s1
              ])
            ≡ done s'
          → IsSource live key s'
      taken queue none f =
          subst (IsSource live key) (done-inj _ _ f) (record { own = v.own; segments = v.segments })
      taken queue (some p) f =
          take_packet-IsSource key now p (record s { packet_queue = queue }) s'
            (record { own = v.own; segments = v.segments }) f

  write-Same :
      (now : ℕ) (p : AvPacket) (s s' : Source live) (ok : Bool)
      → write live now p s ≡ done (ok, s')
      → Same live s s'
  unfolding write
  write-Same now p s s' ok h = ground arith

  -- A step: the queue writes a packet, or a round of `SendPacket` returns, each at some time.
  pub data Step (s s' : Source live) : Type 0 where
    writes : (now : ℕ) (p : AvPacket) (ok : Bool) → write live now p s ≡ done (ok, s') → Step s s'
    sends : (now : ℕ) → send_packet live now s ≡ done s' → Step s s'

  pub data Reach (s : Source live) : Source live → Type 0 where
    here : Reach s s
    next : {t u : Source live} → Reach s t → Step t u → Reach s u

  pub Step-IsSource :
      (key : Text) (s s' : Source live) → Step s s' → IsSource live key s → IsSource live key s'
  Step-IsSource key s s' (writes now p ok h) v =
      Same-IsSource live key s s' (write-Same now p s s' ok h) v
  Step-IsSource key s s' (sends now h) v = send_packet-IsSource key now s s' v h

  pub new_source-IsSource : (key : Text) → IsSource live key (new_source live key)
  unfolding new_source new_ts_cache_item
  new_source-IsSource key = record { own = refl; segments = λ name item h. absurd (cc h) }

  -- Whatever packets are written to a new source, and whenever its rounds run: every segment that its
  -- cache finds lasts at least three seconds, is called after the key of the source and a time, is
  -- found under the name it has, and has one of the numbers that the source has given out.
  pub Reach-IsSource :
      (key : Text) (s : Source live) → Reach (new_source live key) s → IsSource live key s
  Reach-IsSource key s here = new_source-IsSource key
  Reach-IsSource key s (next {t} {u} r st) = Step-IsSource key t s st (Reach-IsSource key t r)
