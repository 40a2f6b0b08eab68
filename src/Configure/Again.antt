-- ===== src/Configure/Again.antt =====
-- The first start writes conf.yaml, and the next ones read it.
use rtp_http_flv.Prelude.{
  ◌≡◌, refl, sym, ap, ◌∙◌, subst, Bool, true, false, Bool-cases, if-cases, Option-cases, inl, inr,
  List, Option, none, some, if◌then◌else◌, Text, Run, done, ◌>>=◌, >>=-eq-done, done-inj,
}
use rtp_http_flv.Configure.{
  Config, Flag, parse_flags, Level, level_of, Disk, write_to_xml, read_from_xml, make_dir,
  conf_yaml, init_config,
}

module _ (F : Type 0) (disk : Disk F) where
  open disk use {
    World, Bytes, read_file, write_file, not_exists, mkdir, open_log, marshal, unmarshal,
  }

  -- What the documentation of yaml and os promises: a file is read as it was written; asking for a file,
  -- making a directory and opening a log file to append to it (without `O_TRUNC`) leave the bytes of
  -- every file that is there; and a document holds the fields of a record that are exported, which
  -- `h` is not.
  pub record Remembers : Type 0 where
    pub reads :
        (src : Text) (b : Bytes) (w : World)
        → (write_file src b w).0 ≡ true
        → (read_file src (write_file src b w).1).0 ≡ some b
    pub asks :
        (src dir : Text) (b : Bytes) (w : World)
        → (read_file src w).0 ≡ some b
        → (read_file src (not_exists dir w).1).0 ≡ some b
    pub makes :
        (src dir : Text) (b : Bytes) (w : World)
        → (read_file src w).0 ≡ some b
        → (read_file src (mkdir dir w).1).0 ≡ some b
    pub opens :
        (src : Text) (b : Bytes) (w : World)
        → (read_file src w).0 ≡ some b
        → (read_file src (open_log w).1).0 ≡ some b
    pub decodes :
        (c d : Config F) (b : Bytes)
        → marshal c ≡ some b
        → unmarshal b d ≡ some (record c { h = d.h })

  -- The file holds the settings.
  abbrev pub Holds : Config F → World → Type 0
  Holds c w = (b : Bytes) × (marshal c ≡ some b) × ((read_file (conf_yaml F disk) w).0 ≡ some b)

  write_to_xml-Holds :
      (c : Config F) (w w' : World)
      → Remembers
      → write_to_xml F disk (conf_yaml F disk) c w ≡ done w'
      → Holds c w'
  unfolding write_to_xml
  write_to_xml-Holds c w w' r h = elim (Option-cases (marshal c)) [
    | inl e ↦ absurd (cc (rw (write_to_xml, e) at h))
    | inr (b, e) ↦
        let t = write_file (conf_yaml F disk) b w in
        elim (Bool-cases t.0) [
          | inr failed ↦ absurd (cc (rw (write_to_xml, e, failed) at h))
          | inl fine ↦
              let same : t.1 ≡ w' = done-inj _ _ (rw (write_to_xml, e, fine) at h) in
              subst (Holds c) same (b, e, r.reads (conf_yaml F disk) b w fine)
        ]
  ]

  make_dir-Holds :
      (c : Config F) (dir : Text) (w w' : World)
      → Remembers
      → Holds c w
      → make_dir F disk dir w ≡ done w'
      → Holds c w'
  unfolding make_dir
  make_dir-Holds c dir w w' r (b, e, f) h =
      let t = not_exists dir w in
      let g = r.asks (conf_yaml F disk) dir b w f in
      elim (Bool-cases t.0) [
        | inr there ↦
            let same : t.1 ≡ w' = done-inj _ _ (rw there at h) in subst (Holds c) same (b, e, g)
        | inl absent ↦
            let m = mkdir dir t.1 in
            elim (Bool-cases m.0) [
              | inr failed ↦ absurd (cc (rw (absent, failed) at h))
              | inl fine ↦
                  let same : m.1 ≡ w' = done-inj _ _ (rw (absent, fine) at h) in
                  subst (Holds c) same (b, e, r.makes (conf_yaml F disk) dir b t.1 g)
            ]
      ]

  log-Holds :
      (on : Bool) (c : Config F) (w : World)
      → Remembers
      → Holds c w
      → Holds c (if on then open_log w else (true, w)).1
  log-Holds true c w r (b, e, f) = (b, e, r.opens (conf_yaml F disk) b w f)
  log-Holds false c w r v = v

  -- What `InitConfig` does once the file has been read.
  abbrev rest : Config F → World → Run (Bool × Config F × Option Level × World)
  rest c2 w1 = if c2.h then done (false, c2, none, w1) else (do
    let (logged, w2) = if c2.enable_log_file then open_log w1 else (true, w1)
    w3 ← make_dir F disk c2.record_dir w2
    done (true, c2, some (level_of c2.log_level), w3))

  rest-Holds :
      (c c1 c2 : Config F) (l : Option Level) (w1 w' : World)
      → Remembers
      → Holds c w1
      → rest c2 w1 ≡ done (true, c1, l, w')
      → (c2 ≡ c1) × Holds c w'
  rest-Holds c c1 c2 l w1 w' r v h = elim (if-cases c2.h h) [
    | inl (help, e) ↦ absurd (cc e)
    | inr (goes, e) ↦
        let t : Bool × World = if c2.enable_log_file then open_log w1 else (true, w1) in
        let (w3, m, n) = >>=-eq-done (make_dir F disk c2.record_dir t.1) _ e in
        let ends : (true, c2, some (level_of c2.log_level), w3) ≡ (true, c1, l, w') =
          done-inj _ _ n in
        let last : w3 ≡ w' = ap (λ (u : Bool × Config F × Option Level × World). u.3) ends in
        (
          ap (λ (u : Bool × Config F × Option Level × World). u.1) ends,
          subst (Holds c) last
              (make_dir-Holds c c2.record_dir t.1 w3 r (log-Holds c2.enable_log_file c w1 r v) m),
        )
  ]

  -- Where there is no conf.yaml, a start of the node that goes on runs with the settings that it was
  -- given, changed by its flags; it writes the settings without the flags to conf.yaml, and the next
  -- start reads them from there, whatever its own defaults are, except for the flag `h`, which the file
  -- does not hold. That holds of a disk that keeps what is written, and of yaml as it is documented.
  pub init_config_again :
      (flags : List (Flag F)) (c c1 d : Config F) (l : Option Level) (w w' : World)
      → Remembers
      → (read_file (conf_yaml F disk) w).0 ≡ none
      → init_config F disk flags c w ≡ done (true, c1, l, w')
      → (c1 ≡ parse_flags flags c)
        × ((w'' : World) × (read_from_xml F disk (conf_yaml F disk) d w'
              ≡ done (record c { h = d.h }, w'')))
  unfolding init_config read_from_xml
  init_config_again flags c c1 d l w w' r e h =
      let conf = conf_yaml F disk in
      let ((x, w1), a, f) = >>=-eq-done (read_from_xml F disk conf c w) _ h in
      let (w2, b, g) =
        >>=-eq-done (write_to_xml F disk conf c (read_file conf w).1) _
          (rw (read_from_xml, e) at a) in
      let same : (c, w2) ≡ (x, w1) = done-inj _ _ g in
      let written : Holds c w1 =
        subst (Holds c) (ap (λ (t : Config F × World). t.1) same)
          (write_to_xml-Holds c (read_file conf w).1 w2 r b) in
      let (is, (bytes, made, read)) = rest-Holds c c1 (parse_flags flags x) l w1 w' r written f in
      (
        sym is ∙ sym (ap (λ (t : Config F × World). parse_flags flags t.0) same),
        ((read_file conf w').1, rw (read_from_xml, read, r.decodes c d bytes made) refl),
      )
