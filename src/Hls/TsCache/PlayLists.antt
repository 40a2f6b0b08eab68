-- ===== src/Hls/TsCache/PlayLists.antt =====
-- The play list names the segments of the cache.
use rtp_http_flv.Prelude.{
  Text, text_eq, lookup, text_beq_iff, ℕ, ◌+◌, ◌*◌, ◌/◌, ◌≤◌, ◌<◌, ◌≡◌, refl, ap, subst, ◌∙◌, sym,
  true, false, List, [], ◌∷◌, ◌++◌, some, arith, map, All, append-nil, append_assoc,
}
use rtp_http_flv.Hls.TsCache.{TsItem, TsCacheItem, Scan, scan, scan_item, gen_m3u8_play_list}
use rtp_http_flv.Hls.TsCache.Recent.{Entries, keys, Fresh, Distinct, Shows}

-- What the play list says of a segment.
abbrev pub row : Text × TsItem → ℕ × Text
row (k, v) = (v.duration, v.name)

abbrev Finds : List (Text × TsItem) → Text × TsItem → Type 0
Finds lm (k, v) = lookup k lm ≡ some v

abbrev LastsAtMost : ℕ → Text × TsItem → Type 0
LastsAtMost n (k, v) = v.duration ≤ n

All-Finds-cons :
    (j : Text) (w : TsItem) (m e : Entries)
    → Fresh j e
    → All (Finds m) e
    → All (Finds ((j, w) ∷ m)) e
All-Finds-cons j w m [] f a = tt
All-Finds-cons j w m ((k, v) ∷ e) f a =
    (ground (arith, text_beq_iff j k, f.0, a.0), All-Finds-cons j w m e f.1 a.1)

Distinct-Finds : (e : Entries) → Distinct e → All (Finds e) e
Distinct-Finds [] d = tt
Distinct-Finds ((k, v) ∷ e) d =
    (ground (arith, text_beq_iff k k), All-Finds-cons k v e e d.0 (Distinct-Finds e d.1))

Finds-Shows :
    (c : TsCacheItem) (m e : Entries)
    → ((k : Text) → lookup k c.lm ≡ lookup k m)
    → All (Finds m) e
    → All (Finds c.lm) e
Finds-Shows c m [] s a = tt
Finds-Shows c m ((k, v) ∷ e) s a = (s k ∙ a.0, Finds-Shows c m e s a.1)

All-LastsAtMost : (n m : ℕ) (e : Entries) → n ≤ m → All (LastsAtMost n) e → All (LastsAtMost m) e
All-LastsAtMost n m [] h a = tt
All-LastsAtMost n m ((k, v) ∷ e) h a = (omega (arith, a.0), All-LastsAtMost n m e h a.1)

-- What the loop has done when it ends, from a state in which it has seen a segment.
record Scanned (s s' : Scan) (e : Entries) : Type 0 where
  rows : s'.body ≡ s.body ++ map row e
  first : s'.seq ≡ s.seq
  longest : (s.max_duration ≤ s'.max_duration) × All (LastsAtMost s'.max_duration) e

scan-Scanned :
    (lm : List (Text × TsItem)) (s : Scan) (e : Entries)
    → s.get_seq ≡ true
    → All (Finds lm) e
    → Scanned s (scan lm s (keys e)) e
unfolding scan
scan-Scanned lm s [] g a = record {
  rows = sym (append-nil s.body);
  first = refl;
  longest = (omega arith, tt);
}
scan-Scanned lm s ((k, v) ∷ e) g a =
    let s1 : Scan = scan_item s (some v) in
    let r = scan-Scanned lm s1 e refl a.1 in
    let longer : (s.max_duration ≤ s1.max_duration) × (v.duration ≤ s1.max_duration) =
      ground arith in
    rw (scan, a.0)
      (record {
        rows = r.rows ∙ append_assoc s.body ((v.duration, v.name) ∷ []) (map row e);
        first = r.first ∙ ground arith;
        longest =
            (omega (arith, r.longest.0, longer), (omega (arith, r.longest.0, longer), r.longest.1));
      })

-- The target duration is rounded up to the next second.
shorter :
    (m : ℕ) (e : Entries) → All (LastsAtMost m) e → All (λ t. (row t).0 < (m / 1000 + 1) * 1000) e
shorter m [] a = tt
shorter m ((k, v) ∷ e) a = (omega (arith, a.0), shorter m e a.1)

abbrev unseen : Scan
unseen = record { seq = 0; get_seq = false; max_duration = 0; body = [] }

-- The play list of a cache names exactly the segments that the cache holds, oldest first, each with
-- its duration; its media sequence is the number of the oldest one; and no segment lasts as long as
-- its target duration, in seconds, or longer.
pub gen_m3u8_play_list_lem :
    (c : TsCacheItem) (key : Text) (item : TsItem) (e : Entries)
    → Shows c ((key, item) ∷ e)
    → let p = gen_m3u8_play_list c in
      (p.entries ≡ map row ((key, item) ∷ e))
      × (p.media_sequence ≡ item.seq_num)
      × All (λ t. (row t).0 < p.target_duration * 1000) ((key, item) ∷ e)
unfolding gen_m3u8_play_list
gen_m3u8_play_list_lem c key item e s =
    let all =
      Finds-Shows c ((key, item) ∷ e) ((key, item) ∷ e) s.found
        (Distinct-Finds ((key, item) ∷ e) s.distinct) in
    let s1 : Scan = scan_item unseen (some item) in
    let step : scan c.lm unseen c.ll ≡ scan c.lm s1 (keys e) =
      ap (scan c.lm unseen) s.listed ∙ rw (scan, all.0) refl in
    let r = scan-Scanned c.lm s1 e refl all.1 in
    let first_lasts : item.duration ≤ s1.max_duration = ground arith in
    subst
      (λ (t : Scan).
        (t.body ≡ map row ((key, item) ∷ e))
        × (t.seq ≡ item.seq_num)
        × All (λ u. (row u).0 < (t.max_duration / 1000 + 1) * 1000) ((key, item) ∷ e))
      (sym step)
      (
        r.rows,
        r.first,
        shorter (scan c.lm s1 (keys e)).max_duration ((key, item) ∷ e)
            (omega (arith, r.longest.0, first_lasts), r.longest.1),
      )
