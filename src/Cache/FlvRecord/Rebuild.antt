-- ===== src/Cache/FlvRecord/Rebuild.antt =====
-- A tag that was cut into fragments is put together again.
use rtp_http_flv.Prelude.{
  ℕ, zero, suc, ◌+◌, ◌≡◌, refl, ◌∙◌, ap, sym, Bool, true, false, none, some, List, [], ◌∷◌, ◌++◌,
  length, drop, replicate, leb, Run, done, ◌>>=◌, Slice, exact, arith, append-nil, append_assoc,
  length-append, length-replicate, take-append_self, drop-append_add, take_all, drop_all,
}
use rtp_http_flv.Utils.TagHead.{tag_size}
use rtp_http_flv.Cache.FlvRecord.{FlvRecord}
use rtp_http_flv.Cache.FlvRecord.Assemble.{
  copy_in, first_fragment, next_fragment, add_fragment, assemble,
}

drop-replicate {ℓ} : {A : Type ℓ} (n k : ℕ) (a : A) → drop n (replicate (n + k) a) ≡ replicate k a
drop-replicate zero k a = ap (λ m. replicate m a) (omega arith)
drop-replicate (suc n) k a =
    let e : suc n + k ≡ suc (n + k) = omega arith in rw e (drop-replicate n k a)

-- Writing behind what is written already.
copy_in-filled :
    (b c : List ℕ) (k : ℕ)
    → copy_in (exact (b ++ replicate (length c + k) 0)) (length b) c
      ≡ done (exact ((b ++ c) ++ replicate k 0))
unfolding copy_in
copy_in-filled b c k =
    let z : List ℕ = replicate (length c + k) 0 in
    let n1 : length (b ++ z) ≡ length b + (length c + k) =
      omega (arith, length-append b z, length-replicate {A = ℕ} (length c + k) 0) in
    let room : leb (length b + length c) (length (b ++ z)) ≡ true = ground (arith, n1) in
    let rest : drop (length b + length c) (b ++ z) ≡ replicate k 0 =
      drop-append_add b z (length c) ∙ drop-replicate (length c) k 0 in
    let n2 : length (b ++ (c ++ replicate k 0)) ≡ length (b ++ z) = omega (
      arith,
      n1,
      length-append b (c ++ replicate k 0),
      length-append c (replicate k 0),
      length-replicate {A = ℕ} k 0,
    ) in
    rw (append-nil (b ++ z), room, take-append_self b z, rest, take_all _ _ n2, drop_all _ _ n2)
      (ap (λ t. done (exact t)) (sym (append_assoc b c (replicate k 0))))

-- The record holds the bytes `b` of a tag, and waits for `k` more.
abbrev IsFilled : FlvRecord → List ℕ → ℕ → Type 0
IsFilled r b k =
    (r.flv_tag ≡ some (exact (b ++ replicate k 0)))
    × (r.tag_size ≡ length b + k)
    × (r.pos ≡ length b)
    × (r.jump_to_next_head ≡ false)

next_fragment-fits :
    (r : FlvRecord) (b : List ℕ) (k : ℕ) (p : Slice)
    → r.pos ≡ length b
    → r.tag_size ≡ length b + (length p.elems + k)
    → next_fragment r (exact (b ++ replicate (length p.elems + k) 0)) p
      ≡ done (true, record r { flv_tag = some (exact ((b ++ p.elems) ++ replicate k 0)) })
unfolding next_fragment
next_fragment-fits r b k p o s = ground (arith, copy_in-filled b p.elems k)

-- A fragment that is not the last one.
middle_fragment :
    (r : FlvRecord) (b : List ℕ) (k : ℕ) (p : Slice)
    → IsFilled r b (length p.elems + k)
    → (r' : FlvRecord) × (assemble r 0 p ≡ done (false, r')) × IsFilled r' (b ++ p.elems) k
unfolding assemble add_fragment
middle_fragment r b k p (t, s, o, j) = (
  record r {
    flv_tag = some (exact ((b ++ p.elems) ++ replicate k 0));
    pos = length b + length p.elems;
    jump_to_next_head = false;
  },
  ground (arith, next_fragment-fits (record r { jump_to_next_head = false }) b k p),
  (refl, omega (arith, length-append b p.elems), omega (arith, length-append b p.elems), refl),
)

-- The last fragment.
last_fragment :
    (r : FlvRecord) (b : List ℕ) (p : Slice)
    → IsFilled r b (length p.elems)
    → (r' : FlvRecord) × (assemble r 1 p ≡ done (true, r'))
      × (r'.flv_tag ≡ some (exact (b ++ p.elems)))
unfolding assemble add_fragment
last_fragment r b p (t, s, o, j) = (
  record r { flv_tag = some (exact ((b ++ p.elems) ++ replicate 0 0)); jump_to_next_head = false },
  ground (arith, next_fragment-fits (record r { jump_to_next_head = false }) b 0 p),
  ap (λ t. some (exact t)) (append-nil (b ++ p.elems)),
)

-- A record that waits for the first fragment of a tag.
pub record IsIdle (r : FlvRecord) : Type 0 where
  pub empty : r.flv_tag ≡ none
  pub start : r.pos ≡ 0
  pub found : r.jump_to_next_head ≡ false

first_fragment-IsFilled :
    (r : FlvRecord) (kind b1 b2 b3 : ℕ) (rest spare : List ℕ) (k : ℕ)
    → IsIdle r
    → tag_size b1 b2 b3 ≡ length rest + 4 + k
    → (r' : FlvRecord) × (assemble r 0
          (record { elems = kind ∷ b1 ∷ b2 ∷ b3 ∷ rest; spare = spare })
        ≡ done (false, r'))
      × IsFilled r' (kind ∷ b1 ∷ b2 ∷ b3 ∷ rest) k
unfolding assemble add_fragment first_fragment
first_fragment-IsFilled r kind b1 b2 b3 rest spare k i s =
    let p : List ℕ = kind ∷ b1 ∷ b2 ∷ b3 ∷ rest in
    let size : tag_size b1 b2 b3 ≡ length p + k = omega arith in
    (
      record r {
        tag_size = tag_size b1 b2 b3;
        flv_tag = some (exact (p ++ replicate k 0));
        pos = length p;
        jump_to_next_head = false;
      },
      ground (arith, copy_in-filled [] p k, i.empty, i.start, i.found),
      (refl, size, refl, refl),
    )

abbrev pub joined : List Slice → List ℕ
joined [] = []
joined (p ∷ ps) = p.elems ++ joined ps

-- Fragments with marker 0, and a last one with marker 1.
unfoldable pub assemble_all : FlvRecord → List Slice → Slice → Run (Bool × FlvRecord)
assemble_all r [] last = assemble r 1 last
assemble_all r (p ∷ ps) last = assemble r 0 p >>= λ t. assemble_all t.1 ps last

assemble_rest :
    (r : FlvRecord) (b : List ℕ) (ps : List Slice) (last : Slice)
    → IsFilled r b (length (joined ps ++ last.elems))
    → (r' : FlvRecord) × (assemble_all r ps last ≡ done (true, r'))
      × (r'.flv_tag ≡ some (exact (b ++ (joined ps ++ last.elems))))
unfolding assemble_all
assemble_rest r b [] last f = last_fragment r b last f
assemble_rest r b (p ∷ ps) last f =
    let n : length ((p.elems ++ joined ps) ++ last.elems)
        ≡ length p.elems + length (joined ps ++ last.elems) =
      omega (
        arith,
        length-append (p.elems ++ joined ps) last.elems,
        length-append p.elems (joined ps),
        length-append (joined ps) last.elems,
      ) in
    let (r1, a, f1) = middle_fragment r b (length (joined ps ++ last.elems)) p (rw n at f) in
    let (r2, c, t) = assemble_rest r1 (b ++ p.elems) ps last f1 in
    (
      r2,
      rw a c,
      t
          ∙ ap (λ t. some (exact t))
              (append_assoc b p.elems (joined ps ++ last.elems)
                ∙ ap (λ t. b ++ t) (sym (append_assoc p.elems (joined ps) last.elems))),
    )

-- A tag that was cut into a first fragment of at least four bytes, any fragments after it and a last
-- one is put together again, byte for byte, by a record that waits for it, if the size that the tag
-- names in its bytes 1 to 3 is its own.
pub rebuild :
    (r : FlvRecord) (kind b1 b2 b3 : ℕ) (rest spare : List ℕ) (ps : List Slice) (last : Slice)
    → IsIdle r
    → tag_size b1 b2 b3 ≡ length rest + 4 + length (joined ps ++ last.elems)
    → (r' : FlvRecord) × (assemble_all r
          (record { elems = kind ∷ b1 ∷ b2 ∷ b3 ∷ rest; spare = spare } ∷ ps)
          last
        ≡ done (true, r'))
      × (r'.flv_tag ≡ some (exact ((kind ∷ b1 ∷ b2 ∷ b3 ∷ rest) ++ (joined ps ++ last.elems))))
unfolding assemble_all
rebuild r kind b1 b2 b3 rest spare ps last i s =
    let (r1, a, f) =
      first_fragment-IsFilled r kind b1 b2 b3 rest spare (length (joined ps ++ last.elems)) i s in
    let (r2, c, t) = assemble_rest r1 (kind ∷ b1 ∷ b2 ∷ b3 ∷ rest) ps last f in (r2, rw a c, t)
