-- ===== src/Edge/Delivery.antt =====
-- Where a complete tag goes: `extractFlv` of cache/RtpQueue.go over the HLS source and the recording.
use rtp_http_flv.Prelude.{
  ℕ, ◌≡◌, refl, sym, ap, ◌∙◌, subst, Bool, true, false, [], ◌∷◌, ◌++◌, Option, none, some, ◌==◌,
  nat_beq_iff, arith, Run, done, ◌>>=◌, >>=-eq-done, done-inj, Slice,
}
use rtp_http_flv.Cache.ArrayList.{ArrayList}
use rtp_http_flv.Cache.Window.{Slot}
use rtp_http_flv.Cache.Queue.{Deps, S}
use rtp_http_flv.Cache.Queue.Extract.{check_error, record_tag}
use rtp_http_flv.Cache.Queue.Extract.Frame.{check_error-done}
use rtp_http_flv.HttpFlv.Writer.Stream.{frame}
use rtp_http_flv.Hls.Livego.{AvPacket}
use rtp_http_flv.Hls.Source as HlsSource
use rtp_http_flv.Hls.Source.{Source}
use rtp_http_flv.Hls.Server.{Server}
use rtp_http_flv.Recording.Contents.{write_tag_direct-frame}
use rtp_http_flv.Edge.{System, Settings, World, hls_write, write_file}
use rtp_http_flv.Edge.Streams.{dep}

module _ (sys : System) (set : Settings) (slots : ArrayList Slot)
    (clients : ArrayList (Option ℕ)) where
  open sys use {live, os}

  abbrev D : Deps
  D = dep sys set slots clients

  abbrev W : Type 0
  W = World sys set

  -- A packet that a source has taken.
  taken :
      (now : ℕ) (p : AvPacket) (s s' : Source live)
      → HlsSource.write live now p s ≡ done (true, s')
      → (s.closed ≡ false) × (s'.packet_queue.pending ≡ s.packet_queue.pending ++ p ∷ [])
  unfolding HlsSource.write
  taken now p s s' h = ground arith

  -- The same through the pointer; the files stay.
  hls_taken :
      (a : ℕ) (tag : Slice) (p : AvPacket) (w w' : W)
      → sys.parse_tag tag ≡ done p
      → hls_write sys set a tag w ≡ done (true, w')
      → ((w.server.heap a).closed ≡ false)
        × ((w'.server.heap a).packet_queue.pending
            ≡ (w.server.heap a).packet_queue.pending ++ p ∷ [])
        × (w'.files ≡ w.files)
  unfolding hls_write
  hls_taken a tag p w w' e h =
      let (p', b, g) = >>=-eq-done (sys.parse_tag tag) _ h in
      let t = sys.now w.env in
      let ((went, src), c, k) = >>=-eq-done (HlsSource.write live t.0 p' (w.server.heap a)) _ g in
      let fine : went ≡ true = ap (λ (x : Bool × W). x.0) (done-inj _ _ k) in
      let (o, l) = taken t.0 p' (w.server.heap a) src (c ∙ ap (λ (x : Bool). done (x, src)) fine) in
      let here : (a == a) ≡ true = (nat_beq_iff a a).1 refl in
      let is : p' ≡ p = done-inj _ _ (sym b ∙ e) in
      subst
        (λ (x : W).
          ((w.server.heap a).closed ≡ false)
          × ((x.server.heap a).packet_queue.pending
              ≡ (w.server.heap a).packet_queue.pending ++ p ∷ [])
          × (x.files ≡ w.files))
        (ap (λ (x : Bool × W). x.1) (done-inj _ _ k))
        (
          o,
          rw here (l ∙ ap (λ (x : AvPacket). (w.server.heap a).packet_queue.pending ++ x ∷ []) is),
          refl,
        )

  file_taken :
      (f : ℕ) (tag : Slice) (w : W)
      → (write_file sys set f tag w).0 ≡ true
      → (os.contents ((write_file sys set f tag w).1.files f)
          ≡ os.contents (w.files f) ++ frame tag)
        × ((write_file sys set f tag w).1.server ≡ w.server)
  unfolding write_file
  file_taken f tag w h =
      let here : (f == f) ≡ true = (nat_beq_iff f f).1 refl in
      (rw here (write_tag_direct-frame os tag (w.files f) h), refl)

  filed :
      (t s' : S D) (f : ℕ) (tag : Slice)
      → t.q.flv_file ≡ some f
      → ◌≡◌ {A = Run (S D)}
          (elim t.q.flv_file [
            | none ↦ done t
            | some g ↦
                (let (went, net') = write_file sys set g tag t.net in
                  check_error D went (record t { net = net' }))
          ])
          (done s')
      → ((write_file sys set f tag t.net).0 ≡ true)
        × (record t { net = (write_file sys set f tag t.net).1 } ≡ s')
  filed t s' f tag e h =
      check_error-done D (write_file sys set f tag t.net).0
        (record t { net = (write_file sys set f tag t.net).1 }) s' (rw e at h)

  -- A tag that a queue has recorded, with a source and a file: the source was open, the packet that
  -- livego parses from the tag is now the last one in the channel of this source, and the file ends with
  -- the tag and its size.
  pub record_tag_delivers :
      (s s' : S D) (tag : Slice) (a f : ℕ) (p : AvPacket)
      → s.q.hls_writer ≡ some a
      → s.q.flv_file ≡ some f
      → sys.parse_tag tag ≡ done p
      → record_tag D s tag ≡ done s'
      → ((s.net.server.heap a).closed ≡ false)
        × ((s'.net.server.heap a).packet_queue.pending
            ≡ (s.net.server.heap a).packet_queue.pending ++ p ∷ [])
        × (os.contents (s'.net.files f) ≡ os.contents (s.net.files f) ++ frame tag)
  unfolding record_tag
  record_tag_delivers s s' tag a f p ha hf hp h =
      let (s1, x, y) =
        >>=-eq-done
          (elim s.q.hls_writer [
            | none ↦ done s
            | some b ↦ (do
              (went, net') ← hls_write sys set b tag s.net
              check_error D went (record s { net = net' }))
          ])
          _ h in
      let ((went, w1), b, c) = >>=-eq-done (hls_write sys set a tag s.net) _ (rw ha at x) in
      let t : S D = record s { net = w1 } in
      let (fine, same) = check_error-done D went t s1 c in
      let (o, l, m) = hls_taken a tag p s.net w1 hp (b ∙ ap (λ (v : Bool). done (v, w1)) fine) in
      let (good, last) = filed s1 s' f tag (sym (ap (λ (z : S D). z.q.flv_file) same) ∙ hf) y in
      let (bytes, server) = file_taken f tag s1.net good in
      let is : w1 ≡ s1.net = ap (λ (z : S D). z.net) same in
      (
        o,
        sym (ap (λ (z : S D). (z.net.server.heap a).packet_queue.pending) last)
            ∙ ap (λ (z : Server live). (z.heap a).packet_queue.pending) server
            ∙ sym (ap (λ (z : W). (z.server.heap a).packet_queue.pending) is)
            ∙ l,
        sym (ap (λ (z : S D). os.contents (z.net.files f)) last)
            ∙ bytes
            ∙ ap (λ x. x ++ frame tag)
                (sym (ap (λ (z : W). os.contents (z.files f)) is)
                  ∙ ap (λ (z : ℕ → os.World). os.contents (z f)) m),
      )
