-- ===== src/Edge/Grows.antt =====
-- What the calls of the node keep: its sources stay the sources of their keys, and the files that are
-- recorded stay whole.
use rtp_http_flv.Prelude.{
  ℕ, ◌<◌, ◌≤◌, ◌≡◌, refl, sym, ap, ◌∙◌, subst, Bool, true, Bool-cases, if-cases, inl, inr, List, [],
  ◌∷◌, ◌++◌, append_assoc, append-nil, Option, ◌==◌, nat_beq_iff, Text, text_eq, arith, done,
  >>=-eq-done, done-inj, Slice,
}
use rtp_http_flv.Rtp.{RtpPack}
use rtp_http_flv.Publishers
use rtp_http_flv.Publishers.{Json}
use rtp_http_flv.Cache.ArrayList.{ArrayList}
use rtp_http_flv.Cache.Window.{Slot}
use rtp_http_flv.Cache.Queue.Extract.Frame.{IsKept}
use rtp_http_flv.HttpFlv.Writer.Stream.{frame, frames}
use rtp_http_flv.Hls.Source as HlsSource
use rtp_http_flv.Hls.Source.{Source}
use rtp_http_flv.Hls.Livego.{Livego, AvPacket}
use rtp_http_flv.Hls.Source.Send.{send_packet}
use rtp_http_flv.Hls.Source.Segments.{IsSource}
use rtp_http_flv.Hls.Source.Reach.{writes, Step-IsSource}
use rtp_http_flv.Hls.Server.Reach.{IsServer}
use rtp_http_flv.Hls.Server.{Server, store_source}
use rtp_http_flv.Recording.{header_bytes, write_tag_direct}
use rtp_http_flv.Recording.Contents.{write_tag_direct-frame}
use rtp_http_flv.Quic
use rtp_http_flv.Edge.{
  System, Settings, World, store_file, hls_write, write_file, ask, refresh_only, deps,
}

frames-append :
    (tags : List Slice) (tag : Slice) → frames (tags ++ tag ∷ []) ≡ frames tags ++ frame tag
frames-append [] tag = append-nil (frame tag)
frames-append (t ∷ tags) tag =
    ap (λ x. frame t ++ x) (frames-append tags tag)
    ∙ sym (append_assoc (frame t) (frames tags) (frame tag))

-- A source that is closed stays so: it takes no packet, and its goroutine has ended.
module _ (live : Livego) where
  pub write_stays_closed :
      (now : ℕ) (p : AvPacket) (s s' : Source live) (ok : Bool)
      → s.closed ≡ true
      → HlsSource.write live now p s ≡ done (ok, s')
      → s'.closed ≡ true
  unfolding HlsSource.write
  write_stays_closed now p s s' ok c h = ground arith

  pub send_packet_stays_closed :
      (now : ℕ) (s s' : Source live)
      → s.closed ≡ true
      → send_packet live now s ≡ done s'
      → s'.closed ≡ true
  unfolding send_packet
  send_packet_stays_closed now s s' c h = elim (if-cases s.closed h) [
    | inl (ended, e) ↦ subst (λ (x : Source live). x.closed ≡ true) (done-inj s s' e) c
    | inr (runs, e) ↦ absurd (cc (c, runs))
  ]

module _ (sys : System) (set : Settings) where
  open sys use {live, os, lib}

  abbrev W : Type 0
  W = World sys set

  -- A file that holds the header and whole tags, each followed by its size.
  pub record IsRecording (file : os.World) : Type 0 where
    pub tags : List Slice
    pub whole : os.contents file ≡ header_bytes ++ frames tags

  -- A source that was made for a key, and a whole recording.
  abbrev pub IsSourceOf : Text → W → ℕ → Type 0
  IsSourceOf key w a = (a < w.server.next) × IsSource live key (w.server.heap a)

  abbrev pub IsFileOf : W → ℕ → Type 0
  IsFileOf w f = (f < w.next_file) × IsRecording (w.files f)

  -- No source or file is forgotten; a source stays that of its key, and closed if it is; and a recording
  -- stays whole.
  pub record Grows (w w' : W) : Type 0 where
    pub sources : w.server.next ≤ w'.server.next
    pub files : w.next_file ≤ w'.next_file
    pub server : IsServer live w.server → IsServer live w'.server
    pub same_key :
        (a : ℕ) (key : Text)
        → a < w.server.next
        → IsSource live key (w.server.heap a)
        → IsSource live key (w'.server.heap a)
    pub closed :
        (a : ℕ)
        → a < w.server.next
        → (w.server.heap a).closed ≡ true
        → (w'.server.heap a).closed ≡ true
    pub whole : (f : ℕ) → f < w.next_file → IsRecording (w.files f) → IsRecording (w'.files f)

  pub Grows-refl : (w : W) → Grows w w
  Grows-refl w = record {
    sources = omega arith;
    files = omega arith;
    server = λ v. v;
    same_key = λ a key l v. v;
    closed = λ a l c. c;
    whole = λ f l v. v;
  }

  pub Grows-trans : (a b c : W) → Grows a b → Grows b c → Grows a c
  Grows-trans a b c g h = record {
    sources = omega (arith, g.sources, h.sources);
    files = omega (arith, g.files, h.files);
    server = λ v. h.server (g.server v);
    same_key =
        λ x key l v. let m = g.sources in h.same_key x key (omega arith) (g.same_key x key l v);
    closed = λ x l c. let m = g.sources in h.closed x (omega arith) (g.closed x l c);
    whole = λ f l v. let m = g.files in h.whole f (omega arith) (g.whole f l v);
  }

  -- The sources and the files are as they were.
  pub quiet :
      (w w' : W)
      → w'.server ≡ w.server
      → w'.files ≡ w.files
      → w'.next_file ≡ w.next_file
      → Grows w w'
  quiet w w' e f g = record {
    sources = ground (arith, ap (λ (s : Server live). s.next) e);
    files = omega (arith, g);
    server = subst (IsServer live) (sym e);
    same_key = λ a key l v. subst (λ (s : Server live). IsSource live key (s.heap a)) (sym e) v;
    closed = λ a l c. ap (λ (s : Server live). (s.heap a).closed) e ∙ c;
    whole = λ x l v. subst (λ (fs : ℕ → os.World). IsRecording (fs x)) (sym f) v;
  }

  -- A source that changes.
  pub store_source-Grows :
      (w : W) (a : ℕ) (s : Source live)
      → ((key : Text) → IsSource live key (w.server.heap a) → IsSource live key s)
      → ((w.server.heap a).closed ≡ true → s.closed ≡ true)
      → Grows w
          (record w { server = record w.server { heap = store_source live w.server.heap a s } })
  store_source-Grows w a s k m = record {
    sources = omega arith;
    files = omega arith;
    server = λ v. record {
      sources = λ key b e. let (l, v') = v.sources key b e in (l, changed b key v');
    };
    same_key = λ b key l v. changed b key v;
    closed = λ b l c. elim (Bool-cases (a == b)) [
      | inl same ↦
          let at : b ≡ a = sym ((nat_beq_iff a b).0 same) in
          rw same (m (sym (ap (λ (x : ℕ). (w.server.heap x).closed) at) ∙ c))
      | inr apart ↦ rw apart c
    ];
    whole = λ f l v. v;
  }
    where
      changed :
          (b : ℕ) (key : Text)
          → IsSource live key (w.server.heap b)
          → IsSource live key (store_source live w.server.heap a s b)
      changed b key v = elim (Bool-cases (a == b)) [
        | inl same ↦
            let at : b ≡ a = sym ((nat_beq_iff a b).0 same) in
            rw same (k key (subst (λ (x : ℕ). IsSource live key (w.server.heap x)) at v))
        | inr apart ↦ rw apart v
      ]

  -- A file that changes.
  pub store_file-Grows :
      (w : W) (f : ℕ) (file : os.World)
      → (IsRecording (w.files f) → IsRecording file)
      → Grows w (record w { files = store_file sys set w.files f file })
  store_file-Grows w f file k = record {
    sources = omega arith;
    files = omega arith;
    server = λ v. v;
    same_key = λ a key l v. v;
    closed = λ a l c. c;
    whole = λ g l v. elim (Bool-cases (f == g)) [
      | inl same ↦
          let at : g ≡ f = sym ((nat_beq_iff f g).0 same) in
          rw same (k (subst (λ (x : ℕ). IsRecording (w.files x)) at v))
      | inr apart ↦ rw apart v
    ];
  }

  hls_write-Grows :
      (a : ℕ) (tag : Slice) (w w' : W) → hls_write sys set a tag w ≡ done (true, w') → Grows w w'
  unfolding hls_write
  hls_write-Grows a tag w w' h =
      let (p, b, f) = >>=-eq-done (sys.parse_tag tag) _ h in
      let t = sys.now w.env in
      let ((went, s), c, g) = >>=-eq-done (HlsSource.write live t.0 p (w.server.heap a)) _ f in
      let server' : Server live = record w.server { heap = store_source live w.server.heap a s } in
      let w1 : W = record w { server = server' } in
      let w2 : W = record w1 { env = t.1 } in
      let same : w2 ≡ w' = ap (λ (x : Bool × W). x.1) (done-inj _ _ g) in
      subst (Grows w) same (
        Grows-trans w w1 w2
          (store_source-Grows w a s
            (λ key v. Step-IsSource live key (w.server.heap a) s (writes t.0 p went c) v)
            (λ e. write_stays_closed live t.0 p (w.server.heap a) s went e c))
          (quiet w1 w2 refl refl refl))

  -- A tag that has been written makes a recording longer.
  tag-IsRecording :
      (file : os.World) (tag : Slice)
      → (write_tag_direct os tag file).0 ≡ true
      → IsRecording file
      → IsRecording (write_tag_direct os tag file).1
  tag-IsRecording file tag fine v = record {
    tags = v.tags ++ tag ∷ [];
    whole =
        write_tag_direct-frame os tag file fine
        ∙ ap (λ x. x ++ frame tag) v.whole
        ∙ append_assoc header_bytes (frames v.tags) (frame tag)
        ∙ ap (λ x. header_bytes ++ x) (sym (frames-append v.tags tag));
  }

  write_file-Grows :
      (f : ℕ) (tag : Slice) (w : W)
      → (write_file sys set f tag w).0 ≡ true
      → Grows w (write_file sys set f tag w).1
  unfolding write_file
  write_file-Grows f tag w fine =
      store_file-Grows w f (write_tag_direct os tag (w.files f)).1
        (tag-IsRecording (w.files f) tag fine)

  pub edge-IsKept :
      (slots : ArrayList Slot) (clients : ArrayList (Option ℕ))
      → IsKept (deps sys set slots clients) Grows
  edge-IsKept slots clients = record {
    same = Grows-refl;
    after = Grows-trans;
    quic = λ ssrc seq n r e. asks ssrc seq n r e;
    buffer = λ size n. quiet n _ refl refl refl;
    clock = λ n. quiet n _ refl refl refl;
    publishers = λ n n' e. refreshes n n' e;
    hls = hls_write-Grows;
    file = write_file-Grows;
  }
    where
      asks :
          (ssrc seq : ℕ) (n : W) (r : Option RtpPack × W)
          → ask sys set ssrc seq n ≡ done r
          → Grows n r.1
      asks ssrc seq n r e =
          unfold ask in
          let (x, b, f) = >>=-eq-done (Quic.get_by_quic lib set.disable_quic ssrc seq n.quic) _ e in
          let w1 : W = record n { quic = x.1 } in
          subst (λ (y : Option RtpPack × W). Grows n y.1) (done-inj _ _ f)
            (quiet n w1 refl refl refl)

      refreshes : (n n' : W) → refresh_only sys set n ≡ done n' → Grows n n'
      refreshes n n' e =
          unfold refresh_only in
          let (x, b, f) = >>=-eq-done (sys.fetch n.env) _ e in
          let (y, c, g) = >>=-eq-done (Publishers.update_publishers sys.floats x.0) _ f in
          let w1 : W = record n { env = x.1 } in
          subst (Grows n) (done-inj _ _ g) (quiet n w1 refl refl refl)
