-- ===== src/Hls/Source/Segments.antt =====
-- The segments that a source keeps, whatever packets come and whenever they come.
use rtp_http_flv.Prelude.{
  ℕ, ◌+◌, ◌≤◌, ◌≡◌, refl, subst, ◌∙◌, ◌⊎◌, inl, inr, Bool, true, false, Bool-cases, List, [], ◌∷◌,
  Option, none, some, leb, ◌==◌, if◌then◌else◌, length, Text, text_eq, text_beq, text_beq_iff,
  lookup, put, lookup-put, lookup-delete, arith, done, ◌>>=◌, >>=-eq-done, done-inj, deref,
}
use rtp_http_flv.Hls.TsCache.{TsItem, TsCacheItem, new_ts_item, set_item, evict}
use rtp_http_flv.Hls.Status.{duration_ms}
use rtp_http_flv.Hls.AudioCache.{cache}
use rtp_http_flv.Hls.Livego.{Livego, AvPacket}
use rtp_http_flv.Hls.Source.Names.{segment_name}
use rtp_http_flv.Hls.Source.{Source, duration}
use rtp_http_flv.Hls.Source.Cuts.{mux_audio, write_tables, end_segment, cut}
use rtp_http_flv.Hls.Source.Send.{feed, calc_pts_dts, ts_mux}

-- A segment under its name, of a source with this key that has made so many.
pub record IsSegment (key : Text) (seq : ℕ) (name : Text) (item : TsItem) : Type 0 where
  pub named : item.name ≡ name
  pub path : (now : ℕ) × (name ≡ segment_name key now)
  pub long : duration ≤ item.duration
  pub counted : (1 ≤ item.seq_num) × (item.seq_num ≤ seq)

abbrev pub AreSegments : Text → ℕ → TsCacheItem → Type 0
AreSegments key seq c =
    (name : Text) (item : TsItem) → lookup name c.lm ≡ some item → IsSegment key seq name item

evict-lookup :
    (c : TsCacheItem) (ll : List Text) (name : Text) (item : TsItem)
    → lookup name (evict c ll).lm ≡ some item
    → lookup name c.lm ≡ some item
unfolding evict
evict-lookup c [] name item e = e
evict-lookup c (k ∷ ks) name item e = ground (arith, lookup-delete k name c.lm)

-- What is found when a segment has been stored.
set_item-lookup :
    (c : TsCacheItem) (key name : Text) (new item : TsItem)
    → lookup name (set_item c key new).lm ≡ some item
    → ((key ≡ name) × (new ≡ item)) ⊎ (lookup name c.lm ≡ some item)
unfolding set_item
set_item-lookup c key name new item e = go (length c.ll == c.num) e
  where
    go :
        (full : Bool)
        → lookup name (put key new (if full then evict c c.ll else c).lm) ≡ some item
        → ((key ≡ name) × (new ≡ item)) ⊎ (lookup name c.lm ≡ some item)
    go full k = elim (Bool-cases (text_beq key name)) [
      | inl same ↦ inl (
        (text_beq_iff key name).0 same,
        cc (rw (lookup-put key name new (if full then evict c c.ll else c).lm, same) at k),
      )
      | inr other ↦ inr (
          older full
            (rw (lookup-put key name new (if full then evict c c.ll else c).lm, other) at k))
    ]
      where
        older :
            (b : Bool)
            → lookup name (if b then evict c c.ll else c).lm ≡ some item
            → lookup name c.lm ≡ some item
        older true = evict-lookup c c.ll name item
        older false = λ h. h

set_item-AreSegments :
    (key name : Text) (seq now : ℕ) (c : TsCacheItem) (item : TsItem)
    → AreSegments key seq c
    → name ≡ segment_name key now
    → item.name ≡ name
    → duration ≤ item.duration
    → item.seq_num ≡ seq + 1
    → AreSegments key (seq + 1) (set_item c name item)
set_item-AreSegments key name seq now c item v p n l q other found h =
    elim (set_item-lookup c name other item found h) [
      | inl (same, it) ↦
          subst (λ (t : TsItem). IsSegment key (seq + 1) other t) it
            (subst (λ (t : Text). IsSegment key (seq + 1) t item) same
              (record {
                named = n;
                path = (now, p);
                long = l;
                counted = (omega (arith, q), omega (arith, q));
              }))
      | inr old ↦
          let s = v other found old in
          record {
            named = s.named;
            path = s.path;
            long = s.long;
            counted = (s.counted.0, omega (arith, s.counted));
          }
    ]

module _ (live : Livego) where
  pub record IsSource (key : Text) (s : Source live) : Type 0 where
    pub own : s.key ≡ key
    pub segments : AreSegments s.key s.seq s.ts_cache

  -- What an operation that makes no segment leaves.
  pub record Same (s s' : Source live) : Type 0 where
    pub key : s'.key ≡ s.key
    pub seq : s'.seq ≡ s.seq
    pub ts_cache : s'.ts_cache ≡ s.ts_cache

  pub Same-IsSource :
      (key : Text) (s s' : Source live) → Same s s' → IsSource key s → IsSource key s'
  Same-IsSource key s s' k v = record {
    own = k.key ∙ v.own;
    segments = rw (k.key, k.seq, k.ts_cache) v.segments;
  }

  mux_audio-Same :
      (limit : ℕ) (s s' : Source live) (ok : Bool)
      → mux_audio live limit s ≡ done (ok, s')
      → Same s s'
  unfolding mux_audio
  mux_audio-Same limit s s' ok h = ground arith

  mux_audio-stat :
      (limit : ℕ) (s s' : Source live) (ok : Bool)
      → mux_audio live limit s ≡ done (ok, s')
      → s'.stat ≡ s.stat
  unfolding mux_audio
  mux_audio-stat limit s s' ok h = ground arith

  pub feed-Same :
      (p : AvPacket) (s s' : Source live) (ok : Bool) → feed live p s ≡ done (ok, s') → Same s s'
  unfolding feed
  feed-Same p s s' ok h = ground arith

  write_tables-Same : (b : List ℕ) (s : Source live) → Same s (write_tables live b s)
  unfolding write_tables
  write_tables-Same b s = record { key = refl; seq = refl; ts_cache = refl }

  pub calc_pts_dts-Same :
      (is_video : Bool) (ts time : ℕ) (s s' : Source live)
      → calc_pts_dts live is_video ts time s ≡ done s'
      → Same s s'
  unfolding calc_pts_dts
  calc_pts_dts-Same is_video ts time s s' h = ground arith

  pub ts_mux-Same :
      (p : AvPacket) (s s' : Source live) (ok : Bool) → ts_mux live p s ≡ done (ok, s') → Same s s'
  unfolding ts_mux
  ts_mux-Same p s s' ok h = elim (Bool-cases p.is_video) [
    | inl video ↦ ground arith
    | inr audio ↦
        let k =
          mux_audio-Same 6 (record s { cache = cache s.cache p.payload s.pts }) s' ok
            (rw audio at h) in
        record { key = k.key; seq = k.seq; ts_cache = k.ts_cache }
  ]

  end_segment-IsSource :
      (key : Text) (now : ℕ) (s s' : Source live)
      → duration ≤ duration_ms s.stat
      → IsSource key s
      → end_segment live now s ≡ done s'
      → IsSource key s'
  unfolding end_segment new_ts_item
  end_segment-IsSource key now s s' l v h =
      let ((ok, s1), a, f) = >>=-eq-done (mux_audio live 1 s) _ h in
      let (b, c, g) = >>=-eq-done (deref s1.btswriter) _ f in
      let v1 = Same-IsSource key s s1 (mux_audio-Same 1 s s1 ok a) v in
      let long : duration ≤ duration_ms s1.stat = rw (mux_audio-stat 1 s s1 ok a) l in
      let name = segment_name s1.key now in
      let item = new_ts_item name (duration_ms s1.stat) (s1.seq + 1) b in
      subst (IsSource key) (done-inj _ _ g) (record {
        own = v1.own;
        segments =
            set_item-AreSegments s1.key name s1.seq now s1.ts_cache item v1.segments refl refl long
              refl;
      })

  pub cut-IsSource :
      (key : Text) (now : ℕ) (s s' : Source live)
      → IsSource key s
      → cut live now s ≡ done s'
      → IsSource key s'
  unfolding cut
  cut-IsSource key now s s' v h = go s.btswriter h
    where
      go :
          (o : Option (List ℕ))
          → elim o [
            | none ↦ done (write_tables live [] s)
            | some b ↦
                if leb duration (duration_ms s.stat)
                then (do s1 ← end_segment live now s; done (write_tables live [] s1))
                else done s
          ]
            ≡ done s'
          → IsSource key s'
      go none k =
          subst (IsSource key) (done-inj _ _ k) (Same-IsSource key s _ (write_tables-Same [] s) v)
      go (some b) k = elim (Bool-cases (leb duration (duration_ms s.stat))) [
        | inr short ↦ subst (IsSource key) (done-inj _ _ (rw short at k)) v
        | inl long ↦
            let (s1, a, f) = >>=-eq-done (end_segment live now s) _ (rw long at k) in
            let l : duration ≤ duration_ms s.stat = ground (arith, long) in
            subst (IsSource key) (done-inj _ _ f) (
              Same-IsSource key s1 _ (write_tables-Same [] s1)
                (end_segment-IsSource key now s s1 l v a))
      ]
