-- ===== src/Cache/Queue/Extract/Frame.antt =====
-- What `extractFlv` leaves alone: the slots of the queue, and what its calls keep behind the queue.
use rtp_http_flv.Prelude.{
  ℕ, zero, suc, ◌+◌, ◌%◌, ◌≡◌, refl, sym, ap, subst, ◌∙◌, ◌==◌, Bool, true, false, Bool-cases, ◌⊎◌,
  inl, inr, Option, none, some, arith, Run, done, ◌>>=◌, >>=-eq-done, done-inj, Slice, deref,
}
use rtp_http_flv.Rtp.{RtpPack}
use rtp_http_flv.Cache.FlvRecord.{reset}
use rtp_http_flv.Cache.Window.{Slot}
use rtp_http_flv.Cache.Queue.{Deps, S}
use rtp_http_flv.Cache.FlvRecord.Assemble.{assemble}
use rtp_http_flv.Cache.Queue.Extract.{
  tag_time, check_error, get_delay, measure, fill_cache, serve_client, visit, serve_clients,
  record_tag, publish, extract_flv,
}

module _ (d : Deps) where
  -- The slots, their first number, the size of the window, the stream, and what it is written to.
  pub record SameSlots (s s' : S d) : Type 0 where
    pub queue : s'.q.queue ≡ s.q.queue
    pub first_seq : s'.q.first_seq ≡ s.q.first_seq
    pub padding : s'.q.padding_window_size ≡ s.q.padding_window_size
    pub ssrc : s'.q.ssrc ≡ s.q.ssrc
    pub hls_writer : s'.q.hls_writer ≡ s.q.hls_writer
    pub flv_file : s'.q.flv_file ≡ s.q.flv_file

  SameSlots-refl : (s : S d) → SameSlots s s
  SameSlots-refl s = record {
    queue = refl;
    first_seq = refl;
    padding = refl;
    ssrc = refl;
    hls_writer = refl;
    flv_file = refl;
  }

  SameSlots-trans : {s t u : S d} → SameSlots s t → SameSlots t u → SameSlots s u
  SameSlots-trans a b = record {
    queue = b.queue ∙ a.queue;
    first_seq = b.first_seq ∙ a.first_seq;
    padding = b.padding ∙ a.padding;
    ssrc = b.ssrc ∙ a.ssrc;
    hls_writer = b.hls_writer ∙ a.hls_writer;
    flv_file = b.flv_file ∙ a.flv_file;
  }

  -- A relation on the state behind the queue that each call keeps; those of HLS and of the file only
  -- where they succeed.
  pub record IsKept (R : d.node.Net → d.node.Net → Type 0) : Type 0 where
    pub same : (n : d.node.Net) → R n n
    pub after : (a b c : d.node.Net) → R a b → R b c → R a c
    pub quic :
        (ssrc seq : ℕ) (n : d.node.Net) (r : Option RtpPack × d.node.Net)
        → d.node.get_by_quic ssrc seq n ≡ done r
        → R n r.1
    pub buffer : (size : ℕ) (n : d.node.Net) → R n (d.node.set_read_buffer size n).1
    pub clock : (n : d.node.Net) → R n (d.node.now n).1
    pub publishers : (n n' : d.node.Net) → d.node.update_publishers n ≡ done n' → R n n'
    pub hls :
        (a : ℕ) (tag : Slice) (n n' : d.node.Net)
        → d.node.hls_write a tag n ≡ done (true, n')
        → R n n'
    pub file :
        (f : ℕ) (tag : Slice) (n : d.node.Net)
        → (d.node.write_tag_direct f tag n).0 ≡ true
        → R n (d.node.write_tag_direct f tag n).1

  pub check_error-done :
      (went : Bool) (t s' : S d) → check_error d went t ≡ done s' → (went ≡ true) × (t ≡ s')
  check_error-done true t s' h = (refl, done-inj t s' h)
  check_error-done false t s' h = absurd (cc h)

module _ (d : Deps) (R : d.node.Net → d.node.Net → Type 0) (k : IsKept d R) where
  -- The queue keeps its slots, and the state behind it is related.
  pub record Leaves (s s' : S d) : Type 0 where
    pub slots : SameSlots d s s'
    pub net : R s.net s'.net

  Leaves-trans : (s t u : S d) → Leaves s t → Leaves t u → Leaves s u
  Leaves-trans s t u a b = record {
    slots = SameSlots-trans d a.slots b.slots;
    net = k.after s.net t.net u.net a.net b.net;
  }

  -- The same state behind the queue.
  calm : (s s' : S d) → SameSlots d s s' → s'.net ≡ s.net → Leaves s s'
  calm s s' e n = record { slots = e; net = subst (R s.net) (sym n) (k.same s.net) }

  done_Leaves : (s t s' : S d) → Leaves s t → ◌≡◌ {A = Run (S d)} (done t) (done s') → Leaves s s'
  done_Leaves s t s' a e = subst (Leaves s) (done-inj t s' e) a

  get_delay-Leaves : (s s' : S d) (tag : Slice) → get_delay d s tag ≡ done s' → Leaves s s'
  unfolding get_delay
  get_delay-Leaves s s' tag h = record { slots = ground arith; net = go (Bool-cases _) }
    where
      go : (s.q.start_time == 0 ≡ true) ⊎ (s.q.start_time == 0 ≡ false) → R s.net s'.net
      go (inl first) =
          let (ts, a, f) = >>=-eq-done (tag_time tag) _ h in
          let (net', b, g) = >>=-eq-done (d.node.update_publishers s.net) _ (rw first at f) in
          let same : net' ≡ s'.net = ground (arith, g) in
          subst (R s.net) same (k.publishers s.net net' b)
      go (inr later) =
          let (ts, a, f) = >>=-eq-done (tag_time tag) _ h in
          let same : (d.node.now s.net).1 ≡ s'.net = ground (arith, f, later) in
          subst (R s.net) same (k.clock s.net)

  measure-Leaves : (s s' : S d) (tag : Slice) → measure d s tag ≡ done s' → Leaves s s'
  unfolding measure
  measure-Leaves s s' tag h = elim (Bool-cases (s.q.acc_flv_tags % 400 == 0)) [
    | inl due ↦ get_delay-Leaves s s' tag (rw due at h)
    | inr early ↦ done_Leaves s s s' (calm s s (SameSlots-refl d s) refl) (rw early at h)
  ]

  fill_cache-Leaves : (s s' : S d) (tag : Slice) → fill_cache d s tag ≡ done s' → Leaves s s'
  unfolding fill_cache
  fill_cache-Leaves s s' tag h = calm s s' (ground arith) (ground arith)

  serve_client-Leaves :
      (s s' : S d) (i a : ℕ) (tag : Slice) (more : Bool)
      → serve_client d s i a tag ≡ done (more, s')
      → Leaves s s'
  unfolding serve_client
  serve_client-Leaves s s' i a tag more h = calm s s' (ground arith) (ground arith)

  to_hls-Leaves :
      (s s' : S d) (tag : Slice) (o : Option ℕ)
      → elim o [
        | none ↦ done s
        | some a ↦ (do
          (went, net') ← d.node.hls_write a tag s.net
          check_error d went (record s { net = net' }))
      ]
        ≡ done s'
      → Leaves s s'
  to_hls-Leaves s s' tag none h = done_Leaves s s s' (calm s s (SameSlots-refl d s) refl) h
  to_hls-Leaves s s' tag (some a) h =
      let ((went, net'), b, f) = >>=-eq-done (d.node.hls_write a tag s.net) _ h in
      let t : S d = record s { net = net' } in
      let (fine, same) = check_error-done d went t s' f in
      subst (Leaves s) same (record {
        slots = ground arith;
        net = k.hls a tag s.net net' (b ∙ ap (λ w. done (w, net')) fine);
      })

  to_file-Leaves :
      (s s' : S d) (tag : Slice) (o : Option ℕ)
      → elim o [
        | none ↦ done s
        | some f ↦
            (let (went, net') = d.node.write_tag_direct f tag s.net in
              check_error d went (record s { net = net' }))
      ]
        ≡ done s'
      → Leaves s s'
  to_file-Leaves s s' tag none h = done_Leaves s s s' (calm s s (SameSlots-refl d s) refl) h
  to_file-Leaves s s' tag (some f) h =
      let r = d.node.write_tag_direct f tag s.net in
      let t : S d = record s { net = r.1 } in
      let (fine, same) = check_error-done d r.0 t s' h in
      subst (Leaves s) same (record { slots = ground arith; net = k.file f tag s.net fine })

  record_tag-Leaves : (s s' : S d) (tag : Slice) → record_tag d s tag ≡ done s' → Leaves s s'
  unfolding record_tag
  record_tag-Leaves s s' tag h =
      let (s1, a, f) =
        >>=-eq-done
          (elim s.q.hls_writer [
            | none ↦ done s
            | some a ↦ (do
              (went, net') ← d.node.hls_write a tag s.net
              check_error d went (record s { net = net' }))
          ])
          _ h in
      Leaves-trans s s1 s' (to_hls-Leaves s s1 tag s.q.hls_writer a)
        (to_file-Leaves s1 s' tag s1.q.flv_file f)

  visit-Leaves :
      (s s' : S d) (i : ℕ) (tag : Slice) (x : Option (Option ℕ)) (more : Bool)
      → visit d s i tag x ≡ done (more, s')
      → Leaves s s'
  unfolding visit
  visit-Leaves s s' i tag none more h = calm s s' (ground arith) (ground arith)
  visit-Leaves s s' i tag (some none) more h = calm s s' (ground arith) (ground arith)
  visit-Leaves s s' i tag (some (some a)) more h = serve_client-Leaves s s' i a tag more h

  serve_clients-Leaves :
      (n : ℕ) (s s' : S d) (tag : Slice) (more : Bool)
      → serve_clients d n s tag ≡ done (more, s')
      → Leaves s s'
  unfolding serve_clients
  serve_clients-Leaves zero s s' tag more h = calm s s' (ground arith) (ground arith)
  serve_clients-Leaves (suc i) s s' tag more h =
      let (r, a, b) = >>=-eq-done _ _ h in
      let first = visit-Leaves s r.1 i tag (d.clients.get s.q.flv_writers i) r.0 a in
      elim (Bool-cases r.0) [
        | inl go ↦ Leaves-trans s r.1 s' first (serve_clients-Leaves i r.1 s' tag more (rw go at b))
        | inr stop ↦
            let same : r.1 ≡ s' = ap (λ (x : Bool × S d). x.1) (done-inj _ _ (rw stop at b)) in
            subst (Leaves s) same first
      ]

  publish-Leaves : (s s' : S d) (tag : Slice) → publish d s tag ≡ done s' → Leaves s s'
  unfolding publish
  publish-Leaves s s' tag h =
      let s0 : S d = record s { q = record s.q { acc_flv_tags = s.q.acc_flv_tags + 1 } } in
      let (s1, a, b) = >>=-eq-done (measure d s0 tag) _ h in
      let (s2, c, e) = >>=-eq-done (fill_cache d s1 tag) _ b in
      let (r, f, g) = >>=-eq-done (serve_clients d (d.clients.size s2.q.flv_writers) s2 tag) _ e in
      let counted : Leaves s s0 = calm s s0 (ground arith) refl in
      let served : Leaves s r.1 = Leaves-trans s s0 r.1 counted (
        Leaves-trans s0 s1 r.1 (measure-Leaves s0 s1 tag a) (
          Leaves-trans s1 s2 r.1 (fill_cache-Leaves s1 s2 tag c)
            (serve_clients-Leaves (d.clients.size s2.q.flv_writers) s2 r.1 tag r.0 f))) in
      elim (Bool-cases r.0) [
        | inr stop ↦ done_Leaves s r.1 s' served (rw stop at g)
        | inl go ↦
            let (s4, m, n) = >>=-eq-done (record_tag d r.1 tag) _ (rw go at g) in
            let s5 : S d = record s4 { q = record s4.q { flv_record = reset s4.q.flv_record } } in
            done_Leaves s s5 s'
              (Leaves-trans s r.1 s5 served (
                Leaves-trans r.1 s4 s5 (record_tag-Leaves r.1 s4 tag m)
                  (calm s4 s5 (ground arith) refl)))
              n
      ]

  -- What becomes of a packet that leaves the queue.
  pub extract_flv-Leaves : (s s' : S d) (slot : Slot) → extract_flv d s slot ≡ done s' → Leaves s s'
  unfolding extract_flv
  extract_flv-Leaves s s' none h = calm s s' (ground arith) (ground arith)
  extract_flv-Leaves s s' (some rp) h =
      let (r, a, b) = >>=-eq-done (assemble s.q.flv_record rp.marker rp.payload) _ h in
      let s1 : S d = record s { q = record s.q { flv_record = r.1 } } in
      let started : Leaves s s1 = calm s s1 (ground arith) refl in
      elim (Bool-cases r.0) [
        | inr more ↦ done_Leaves s s1 s' started (rw more at b)
        | inl complete ↦
            let (tag, m, n) = >>=-eq-done (deref r.1.flv_tag) _ (rw complete at b) in
            Leaves-trans s s1 s' started (publish-Leaves s1 s' tag n)
      ]

module _ (d : Deps) where
  -- Every call keeps the relation that always holds.
  pub Anything-IsKept : IsKept d (λ a b. Unit {0})
  Anything-IsKept = record {
    same = λ n. tt;
    after = λ a b c l m. tt;
    quic = λ ssrc seq n r e. tt;
    buffer = λ size n. tt;
    clock = λ n. tt;
    publishers = λ n n' e. tt;
    hls = λ a tag n n' e. tt;
    file = λ f tag n e. tt;
  }

  -- Whatever becomes of a packet that leaves the queue, `extractFlv` changes neither the slots that are
  -- left, nor their first number, nor the size of the window, nor the number of the stream, nor the
  -- source and the file that it is written to, if it returns.
  pub extract_flv-SameSlots :
      (s s' : S d) (slot : Slot) → extract_flv d s slot ≡ done s' → SameSlots d s s'
  extract_flv-SameSlots s s' slot h =
      (extract_flv-Leaves d (λ a b. Unit {0}) Anything-IsKept s s' slot h).slots
