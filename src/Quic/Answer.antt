-- ===== src/Quic/Answer.antt =====
-- What the queue may rely on in an answer over QUIC.
use rtp_http_flv.Prelude.{
  ℕ, zero, suc, ◌+◌, ◌*◌, ◌≤◌, ◌<◌, ◌≡◌, refl, ap, subst, ◌∙◌, Bool, true, false, Bool-cases, inl,
  inr, List, ◌∷◌, ◌++◌, Option, none, some, not, ◌==◌, ltb, if◌then◌else◌, length, take, replicate,
  All, All-take, All-append, Run, done, panics, ◌>>=◌, >>=-eq-done, deref, Slice, exact, arith,
  reslice,
}
use rtp_http_flv.Rtp.{RtpPack}
use rtp_http_flv.Rtp.Parse.{
  parse, parse_header, parse_payload, skip_csrc, skip_extension, strip_padding,
}
use rtp_http_flv.Quic.{
  QuicLib, filled, QuicState, Conn, open_data, read_len, read_rtp, read_body, name_stream,
  write_seq, get_by_quic,
}

abbrev IsBytes : List ℕ → Type 0
IsBytes b = All (λ x. x < 256) b

take-filled : (n : ℕ) (b c : List ℕ) → IsBytes b → IsBytes c → IsBytes (take n (b ++ c))
take-filled n b c h k = All-take (λ x. x < 256) n (b ++ c) (All-append (λ x. x < 256) b c h k)

zeros : (n : ℕ) → IsBytes (replicate n 0)
zeros zero = tt
zeros (suc n) = (omega arith, zeros n)

parse_header-sequence_number :
    (b : List ℕ) (h : RtpPack)
    → 12 ≤ length b
    → IsBytes b
    → parse_header b ≡ done h
    → h.sequence_number < 65536
unfolding parse_header
parse_header-sequence_number (b0 ∷ b1 ∷ b2 ∷ b3 ∷ b4 ∷ b5 ∷ b6 ∷ b7 ∷ b8 ∷ b9 ∷ b10 ∷ b11 ∷ rest) h
      l v e =
    let (v0, (v1, (v2, (v3, w)))) = v in
    let bound : b2 * 256 + b3 < 65536 = omega arith in ground (arith, bound)
parse_header-sequence_number _ h l v e = absurd (omega arith)

parse_payload-sequence_number :
    (s : Slice) (h p : RtpPack) (o : ℕ)
    → parse_payload s h o ≡ done (some p)
    → p.sequence_number ≡ h.sequence_number
unfolding parse_payload
parse_payload-sequence_number s h p o e =
    let (stop, a, f) = >>=-eq-done (strip_padding s.elems h.padding o) _ e in
    let (payload, b, g) = >>=-eq-done (reslice s o stop) _ f in ground arith

not_some : (p : RtpPack) → ◌≡◌ {A = Run (Option RtpPack)} (done none) (done (some p)) → ⊥
not_some p e = ground arith

long_enough : (n : ℕ) → ltb n 12 ≡ false → 12 ≤ n
long_enough n h = ground arith

-- The number of a packet that has been parsed has 16 bits.
pub parse-sequence_number :
    (s : Slice) (p : RtpPack)
    → IsBytes s.elems
    → parse s ≡ done (some p)
    → p.sequence_number < 65536
unfolding parse
parse-sequence_number s p v e = elim (Bool-cases (ltb (length s.elems) 12)) [
  | inl short ↦ absurd (not_some p (rw short at e))
  | inr long ↦
      let (h, a, f) = >>=-eq-done (parse_header s.elems) _ (rw long at e) in
      let (o, b, g) =
        >>=-eq-done (skip_extension s.elems h.extension (skip_csrc 12 (length s.elems) h.csrc_cnt))
          _ f in
      let n = parse_header-sequence_number s.elems h (long_enough (length s.elems) long) v a in
      omega (arith, n, parse_payload-sequence_number s h p o g)
]

-- A packet whose number has 16 bits, or none.
abbrev Numbers : Option RtpPack → Type 0
Numbers none = Unit
Numbers (some p) = p.sequence_number < 65536

module _ (lib : QuicLib) where
  open lib use {Net}

  read_body-Numbers :
      (c : Conn lib) (n : ℕ) (net : Net) (r : Option RtpPack × Net)
      → read_body lib c n net ≡ done r
      → Numbers r.0
  unfolding read_body
  read_body-Numbers c n net r h =
      let (s, a, f) = >>=-eq-done (deref c.data_stream) _ h in
      let (t, b, g) = >>=-eq-done (lib.read s n net) _ f in
      go t.0 t.1 (λ x e. lib.read_bytes s n net t.1 x (b ∙ ap (λ y. done (y, t.1)) e)) g
    where
      number :
          (o : Option RtpPack) (b : List ℕ)
          → IsBytes b
          → parse (exact (filled n b)) ≡ done o
          → Numbers o
      number none b v e = tt
      number (some p) b v e =
          parse-sequence_number (exact (filled n b)) p (take-filled n b (replicate n 0) v (zeros n))
            e

      go :
          (x : Option (List ℕ)) (net' : Net)
          → ((b : List ℕ) → x ≡ some b → IsBytes b)
          → (elim x [
            | none ↦ panics
            | some b ↦ (do pkt ← parse (exact (filled n b)); done (pkt, net'))
          ])
            ≡ done r
          → Numbers r.0
      go none net' v e = ground arith
      go (some b) net' v e =
          let (pkt, p, q) = >>=-eq-done (parse (exact (filled n b))) _ e in
          let same : pkt ≡ r.0 = ground arith in subst Numbers same (number pkt b (v b refl) p)

  -- The end of `read_rtp`, by the length that was read.
  read_rtp-Numbers :
      (c : Conn lib) (net : Net) (r : Option RtpPack × Conn lib × Net)
      → read_rtp lib c net ≡ done r
      → Numbers r.0
  unfolding read_rtp
  read_rtp-Numbers c net r h =
      let (x, a, f) = >>=-eq-done (open_data lib c net) _ h in
      elim (Bool-cases (not x.0)) [
        | inl failed ↦ nothing x.1 x.2 (rw failed at f)
        | inr opened ↦
            let (n, b, g) = >>=-eq-done (read_len lib x.1 x.2) _ (rw opened at f) in
            go n.0 n.1 n.2 g
      ]
    where
      nothing :
          (c' : Conn lib) (net' : Net)
          → ◌≡◌ {A = Run (Option RtpPack × Conn lib × Net)} (done (none, c', net')) (done r)
          → Numbers r.0
      nothing c' net' e =
          let same : (none, c', net') ≡ r = cc e in
          subst (λ (t : Option RtpPack × Conn lib × Net). Numbers t.0) same tt

      go :
          (n : Option ℕ) (c2 : Conn lib) (net2 : Net)
          → ◌≡◌ {A = Run (Option RtpPack × Conn lib × Net)}
              (elim n [
                | none ↦ done (none, c2, net2)
                | some len ↦
                    (if len == 0
                      then done (none, c2, net2)
                      else (do (pkt, net3) ← read_body lib c2 len net2; done (pkt, c2, net3)))
              ])
              (done r)
          → Numbers r.0
      go none c2 net2 e = nothing c2 net2 e
      go (some len) c2 net2 e = elim (Bool-cases (len == 0)) [
        | inl empty ↦ nothing c2 net2 (rw empty at e)
        | inr full ↦
            let (t, b, g) = >>=-eq-done (read_body lib c2 len net2) _ (rw full at e) in
            let same : (t.0, c2, t.1) ≡ r = cc g in
            subst (λ (u : Option RtpPack × Conn lib × Net). Numbers u.0) same
              (read_body-Numbers c2 len net2 t b)
      ]

  -- Whatever the cloud node sends, a packet that `GetByQuic` returns has a sequence number of 16 bits:
  -- this is what the order of the queue relies on.
  pub get_by_quic-Numbered :
      (disabled : Bool) (ssrc seq : ℕ) (s s' : QuicState lib) (rp : RtpPack)
      → get_by_quic lib disabled ssrc seq s ≡ done (some rp, s')
      → rp.sequence_number < 65536
  unfolding get_by_quic
  get_by_quic-Numbered true ssrc seq s s' rp h = absurd (ground arith)
  get_by_quic-Numbered false ssrc seq s s' rp h =
      let (c, a, f) = >>=-eq-done (name_stream lib ssrc s) _ h in
      let (w, b, g) = >>=-eq-done (write_seq lib c.0 seq c.1) _ f in
      let (conn, e, k) = >>=-eq-done (deref c.0) _ g in
      let (r, l, m) = >>=-eq-done (read_rtp lib conn w.1) _ k in
      let same : r.0 ≡ some rp = ground arith in subst Numbers same (read_rtp-Numbers conn w.1 r l)
