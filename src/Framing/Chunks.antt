-- ===== src/Framing/Chunks.antt =====
-- Where a stream is cut into chunks makes no difference to the frames that
-- `RawFrameStreamParser.feed` (protocol/autoterm_frames.py) returns.
use mathlib.Core.List.{append_assoc}
use native.Mathlib.Nat.{suc-add}
use landy_heater.Prelude.{
  ℕ, zero, suc, ◌+◌, ◌<◌, ◌≡◌, refl, sym, ◌∙◌, inl, inr, ap, true, some, List, [], ◌∷◌, ◌++◌, arith,
  length, length-append, take-append, drop-append, get_or-append, get_or, Bool-cases, Option-cases,
  ok,
}
use landy_heater.Framing.{
  RawParser, discard_first_byte, skip_noise_from, skip_noise, Pass, stop, again, emit, classify,
  pass, Extracted, with_frame, after, extract, extend, all_bytes, feed,
}
use landy_heater.Framing.Loop.{IsAligned, extract_total, extract_more, skip_noise-Skips}

drop_head :
    (b : ℕ) (bs : List ℕ) (p : RawParser) → p.buffer ≡ b ∷ bs → (discard_first_byte p).buffer ≡ bs
unfolding discard_first_byte
drop_head b bs p e = ground arith

pub pass_lem : (p : RawParser) → classify (skip_noise p) ≡ pass p
unfolding pass
pass_lem p = refl

again_nonempty : (p q : RawParser) → classify p ≡ again q → 0 < length p.buffer
unfolding classify
again_nonempty p q e = ground arith

emit_nonempty :
    (p : RawParser) (f : List ℕ) (q : RawParser) → classify p ≡ emit f q → 0 < length p.buffer
unfolding classify
emit_nonempty p f q e = ground arith

stop_same : (p q : RawParser) → classify p ≡ stop q → p ≡ q
unfolding classify
stop_same p q e = ground arith

extract-pass : (m : ℕ) (p q : RawParser) → pass p ≡ pass q → extract (suc m) p ≡ extract (suc m) q
unfolding extract
extract-pass m p q e = ap (after (extract m)) e

pub extract-emit :
    (n : ℕ) (p : RawParser) (f : List ℕ) (q : RawParser)
    → pass p ≡ emit f q
    → extract (suc n) p ≡ with_frame f (extract n q)
unfolding extract
extract-emit n p f q e = ap (after (extract n)) e

module _ (ys : List ℕ) where
  discard_first_byte-extend :
      (b : ℕ) (bs : List ℕ) (p : RawParser)
      → p.buffer ≡ b ∷ bs
      → discard_first_byte (extend p ys) ≡ extend (discard_first_byte p) ys
  unfolding discard_first_byte
  discard_first_byte-extend b bs p e = ground arith

  skip_noise_from-extend :
      (xs : List ℕ) (p : RawParser)
      → p.buffer ≡ xs
      → skip_noise_from (xs ++ ys) (extend p ys) ≡ skip_noise (extend (skip_noise_from xs p) ys)
  unfolding skip_noise
  skip_noise_from-extend [] p e =
      ap (λ (xs : List ℕ). skip_noise_from (xs ++ ys) (extend p ys)) (sym e)
  skip_noise_from-extend (b ∷ bs) p e = ground (
    arith,
    discard_first_byte-extend b bs p e,
    drop_head b bs p e,
    skip_noise_from-extend bs (discard_first_byte p),
  )

  skip_noise-extend :
      (p : RawParser) → skip_noise (extend p ys) ≡ skip_noise (extend (skip_noise p) ys)
  unfolding skip_noise
  skip_noise-extend p = skip_noise_from-extend p.buffer p refl

  pub aligned_noise :
      (p : RawParser)
      → IsAligned p.start p.buffer
      → 0 < length p.buffer
      → skip_noise (extend p ys) ≡ extend p ys
  unfolding skip_noise skip_noise_from
  aligned_noise p a h = ground arith

  classify_again :
      (p q : RawParser) → classify p ≡ again q → classify (extend p ys) ≡ again (extend q ys)
  unfolding classify discard_first_byte
  classify_again p q e = ground (
    arith,
    length-append p.buffer ys,
    get_or-append p.buffer ys 2 0,
    drop-append 1 p.buffer ys,
    take-append (get_or p.buffer 2 0 + 7) p.buffer ys,
  )

  classify-emit :
      (p : RawParser) (f : List ℕ) (q : RawParser)
      → classify p ≡ emit f q
      → classify (extend p ys) ≡ emit f (extend q ys)
  unfolding classify discard_first_byte
  classify-emit p f q e = ground (
    arith,
    length-append p.buffer ys,
    get_or-append p.buffer ys 2 0,
    drop-append (get_or p.buffer 2 0 + 7) p.buffer ys,
    take-append (get_or p.buffer 2 0 + 7) p.buffer ys,
  )

  pass-extend :
      (p : RawParser) → pass (extend p ys) ≡ classify (skip_noise (extend (skip_noise p) ys))
  unfolding pass
  pass-extend p = ap classify (skip_noise-extend p)

  aligned_pass :
      (p : RawParser)
      → 0 < length (skip_noise p).buffer
      → pass (extend p ys) ≡ classify (extend (skip_noise p) ys)
  aligned_pass p h =
      let s = skip_noise-Skips p in
      pass-extend p ∙ ap classify (aligned_noise (skip_noise p) (rw s.config.start s.aligned) h)

  -- A pass that goes on does the same with more bytes behind the buffer.
  pass_again : (p q : RawParser) → pass p ≡ again q → pass (extend p ys) ≡ again (extend q ys)
  pass_again p q e =
      let c = pass_lem p ∙ e in
      aligned_pass p (again_nonempty (skip_noise p) q c) ∙ classify_again (skip_noise p) q c

  pass-emit :
      (p : RawParser) (f : List ℕ) (q : RawParser)
      → pass p ≡ emit f q
      → pass (extend p ys) ≡ emit f (extend q ys)
  pass-emit p f q e =
      let c = pass_lem p ∙ e in
      aligned_pass p (emit_nonempty (skip_noise p) f q c) ∙ classify-emit (skip_noise p) f q c

  pass_stop : (p q : RawParser) → pass p ≡ stop q → pass (extend p ys) ≡ pass (extend q ys)
  pass_stop p q e =
      pass-extend p
      ∙ ap (λ t. classify (skip_noise (extend t ys))) (stop_same (skip_noise p) q (pass_lem p ∙ e))
      ∙ pass_lem (extend q ys)

  after-extend :
      (n m : ℕ)
      → ((p : RawParser) (fs : List (List ℕ)) (q : RawParser) (r : Extracted)
          → extract n p ≡ some (fs, q)
          → extract m (extend q ys) ≡ some r
          → extract (n + m) (extend p ys) ≡ some (fs ++ r.0, r.1))
      → (p : RawParser) (t : Pass) → pass p ≡ t
      → (fs : List (List ℕ)) (q : RawParser) (r : Extracted) → after (extract n) t ≡ some (fs, q)
      → extract m (extend q ys) ≡ some r
      → extract (suc (n + m)) (extend p ys) ≡ some (fs ++ r.0, r.1)
  after-extend n zero ih p (stop s) e fs q r h k = unfold extract in cc
  after-extend n (suc m) ih p (stop s) e fs q r h k =
      extract_more (suc m) (suc (n + suc m)) (extend p ys) (fs ++ r.0, r.1) (omega arith)
        (ground (arith, extract-pass m (extend p ys) (extend s ys) (pass_stop p s e)))
  after-extend n m ih p (again s) e fs q r h k =
      unfold extract in rw (pass_again p s e) (ih s fs q r h k)
  after-extend n m ih p (emit f s) e fs q r h k = elim (Option-cases (extract n s)) [
    | inl z ↦ cc
    | inr (a, z) ↦ ground (
      arith,
      extract-emit (n + m) (extend p ys) f (extend s ys) (pass-emit p f s e),
      ih s a.0 q r,
    )
  ]

  -- What is left after the first chunk goes on with the second.
  extract-extend :
      (n m : ℕ) (p : RawParser) (fs : List (List ℕ)) (q : RawParser) (r : Extracted)
      → extract n p ≡ some (fs, q)
      → extract m (extend q ys) ≡ some r
      → extract (n + m) (extend p ys) ≡ some (fs ++ r.0, r.1)
  extract-extend zero m p fs q r h k = unfold extract in cc
  extract-extend (suc n) m p fs q r h k =
      rw suc-add
        (after-extend n m (extract-extend n m) p (pass p) refl fs q r (unfold extract in h) k)

-- The result does not depend on the fuel, so any that suffices gives it.
pub extract_any :
    (n m : ℕ) (p : RawParser) (r : Extracted)
    → extract n p ≡ some r
    → length p.buffer < m
    → extract m p ≡ some r
extract_any n m p r e h =
    let (s, es) = extract_total m p h in
    cc (es, extract_more n (n + m) p r (omega arith) e, extract_more m (n + m) p s (omega arith) es)

-- What a call of `feed` that returned has done, and the other way round.
pub feed_inv :
    (p : RawParser) (xs : List ℕ) (r : Extracted)
    → feed p xs ≡ ok (some r)
    → (all_bytes xs ≡ true) × (extract (suc (length (p.buffer ++ xs))) (extend p xs) ≡ some r)
unfolding feed
feed_inv p xs r e = elim (Bool-cases (all_bytes xs)) [ inl y ↦ (y, ground arith) | inr n ↦ cc ]

pub feed_intro :
    (p : RawParser) (xs : List ℕ) (n : ℕ) (r : Extracted)
    → all_bytes xs ≡ true
    → extract n (extend p xs) ≡ some r
    → feed p xs ≡ ok (some r)
unfolding feed
feed_intro p xs n r b e =
    rw b (ap ok (extract_any n (suc (length (p.buffer ++ xs))) (extend p xs) r e (omega arith)))

all_bytes-append :
    (xs ys : List ℕ) → all_bytes xs ≡ true → all_bytes ys ≡ true → all_bytes (xs ++ ys) ≡ true
all_bytes-append [] ys p q = q
all_bytes-append (x ∷ xs) ys p q = ground (arith, all_bytes-append xs ys)

-- Two calls of `feed` return, one after the other, the frames that one call on the joined bytes
-- returns, and leave the parser in the same state.
pub feed_chunks :
    (p : RawParser) (xs ys : List ℕ) (fs gs : List (List ℕ)) (q r : RawParser)
    → feed p xs ≡ ok (some (fs, q))
    → feed q ys ≡ ok (some (gs, r))
    → feed p (xs ++ ys) ≡ ok (some (fs ++ gs, r))
feed_chunks p xs ys fs gs q r e1 e2 =
    let (b1, x1) = feed_inv p xs (fs, q) e1 in
    let (b2, x2) = feed_inv q ys (gs, r) e2 in
    let n = suc (length (p.buffer ++ xs)) in
    let m = suc (length (q.buffer ++ ys)) in
    let joined = extract-extend ys n m (extend p xs) fs q (gs, r) x1 x2 in
    feed_intro p (xs ++ ys) (n + m) (fs ++ gs, r) (all_bytes-append xs ys b1 b2)
      (rw append_assoc at joined)
