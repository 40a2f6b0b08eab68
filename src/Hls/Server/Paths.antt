-- ===== src/Hls/Server/Paths.antt =====
-- What the server reads from the paths of play lists and segments.
use rtp_http_flv.Prelude.{
  ℕ, ◌<◌, ◌≡◌, ◌≢◌, refl, sym, ap, ◌∙◌, false, Bool-cases, inl, inr, [], ◌∷◌, ◌++◌, append_assoc,
  some, Text, codes, text_beq, text_beq_iff, text_eq, arith, slash, dot, base, ext, base-append,
  ext-append, from_last, Without, Without-append, trim_left, trim_left-append, until, until-append,
  split_3-append, from_last-append,
}
use rtp_http_flv.Hls.Source.Names.{digits, digits-AreDigits, AreDigits, segment_name, ts_suffix}
use rtp_http_flv.Hls.Server.{m3u8, ts, crossdomain_xml, parse_m3u8, parse_ts}

-- A key: the name of an application, a slash, and the name of a stream; no dot.
pub record IsStreamKey (key room name : Text) : Type 0 where
  pub parts : key ≡ room ++ slash ∷ name
  pub letter : room ≢ []
  pub first : Without slash room
  pub second : Without slash name
  pub plain : Without dot key

AreDigits-Without : (c : ℕ) (s : Text) → c < 48 → AreDigits s → Without c s
AreDigits-Without c [] h a = tt
AreDigits-Without c (x ∷ s) h a = (λ e. omega (arith, a.0), AreDigits-Without c s h a.1)

-- A path with another extension does not ask for crossdomain.xml.
not_crossdomain :
    (s : Text) (e : Text)
    → from_last dot s ≡ some e
    → e ≢ codes ".xml"
    → text_beq s crossdomain_xml ≡ false
not_crossdomain s e h n = elim (Bool-cases (text_beq s crossdomain_xml)) [
  | inr other ↦ other
  | inl same ↦
      let it : s ≡ crossdomain_xml = (text_beq_iff s crossdomain_xml).0 same in
      let xml : from_last dot crossdomain_xml ≡ some (codes ".xml") = refl in
      absurd (n (cc (h, it, xml)))
]

base_part : (s p : Text) → p ≢ [] → Without slash p → base (s ++ slash ∷ p) ≡ p
base_part s [] n w = absurd (n refl)
base_part s (x ∷ p) n w = base-append s x p w

-- A path whose last part has a name and an extension.
pub record IsFile (url s u e : Text) : Type 0 where
  path : url ≡ s ++ slash ∷ (u ++ dot ∷ e)
  part : Without slash (u ++ dot ∷ e)
  end : Without dot e

pub IsFile-ext : (url s u e : Text) → IsFile url s u e → ext url ≡ dot ∷ e
IsFile-ext url s u e f = rw f.path (ext-append s u e f.part f.end)

not_nil : (u : Text) (x : ℕ) (e : Text) → u ++ x ∷ e ≢ []
not_nil [] x e h = cc
not_nil (y ∷ u) x e h = cc

pub IsFile-base :
    (url s u e : Text)
    → IsFile url s u e
    → dot ∷ e ≢ codes ".xml"
    → text_beq (base url) crossdomain_xml ≡ false
IsFile-base url s u e f n =
    let b : base url ≡ u ++ dot ∷ e =
      rw f.path (base_part s (u ++ dot ∷ e) (not_nil u dot e) f.part) in
    rw b (not_crossdomain (u ++ dot ∷ e) (dot ∷ e) (from_last-append dot u e f.end) n)

m3u8-Without : Without slash m3u8 × Without dot (codes "m3u8")
m3u8-Without = (
  (
    λ e. omega arith,
    (λ e. omega arith, (λ e. omega arith, (λ e. omega arith, (λ e. omega arith, tt)))),
  ),
  (λ e. omega arith, (λ e. omega arith, (λ e. omega arith, (λ e. omega arith, tt)))),
)

ts-Without : Without slash ts × Without dot (codes "ts")
ts-Without = (
  (λ e. omega arith, (λ e. omega arith, (λ e. omega arith, tt))),
  (λ e. omega arith, (λ e. omega arith, tt)),
)

-- The paths of a play list and of a segment.
abbrev pub list_url : Text → Text
list_url key = slash ∷ (key ++ m3u8)

pub list_url-IsFile :
    (key room name : Text)
    → IsStreamKey key room name
    → IsFile (list_url key) (slash ∷ room) name (codes "m3u8")
list_url-IsFile key room name k = record {
  path = rw k.parts (ap (λ t. slash ∷ t) (append_assoc room (slash ∷ name) m3u8));
  part = Without-append slash name m3u8 k.second m3u8-Without.0;
  end = m3u8-Without.1;
}

pub segment_name-IsFile :
    (key : Text) (now : ℕ) → IsFile (segment_name key now) (slash ∷ key) (digits now) (codes "ts")
unfolding segment_name
segment_name-IsFile key now = record {
  path = refl;
  part =
      Without-append slash (digits now) ts
        (AreDigits-Without slash (digits now) (omega arith) (digits-AreDigits now)) ts-Without.0;
  end = ts-Without.1;
}

pub parse_m3u8_url :
    (key room name : Text) → IsStreamKey key room name → parse_m3u8 (list_url key) ≡ key
unfolding parse_m3u8
parse_m3u8_url key room name k =
    let whole : key ++ m3u8 ≡ room ++ (slash ∷ name ++ m3u8) =
      rw k.parts (append_assoc room (slash ∷ name) m3u8) in
    let trimmed : trim_left slash (list_url key) ≡ key ++ m3u8 =
      rw whole (trim_left-append slash room (slash ∷ name ++ m3u8) k.letter k.first) in
    ap (until m3u8) trimmed ∙ until-append dot key (codes "m3u8") k.plain

pub parse_ts_name :
    (key room name : Text) (now : ℕ)
    → IsStreamKey key room name
    → parse_ts (segment_name key now) ≡ key
unfolding parse_ts segment_name
parse_ts_name key room name now k =
    let file : Text = digits now ++ ts_suffix in
    let whole : key ++ slash ∷ file ≡ room ++ slash ∷ (name ++ slash ∷ file) =
      rw k.parts (append_assoc room (slash ∷ name) (slash ∷ file)) in
    let trimmed : trim_left slash (slash ∷ (key ++ slash ∷ file))
        ≡ room ++ slash ∷ (name ++ slash ∷ file) =
      rw whole (trim_left-append slash room (slash ∷ (name ++ slash ∷ file)) k.letter k.first) in
    rw trimmed (rw (split_3-append slash room name file k.first k.second) (sym k.parts))
