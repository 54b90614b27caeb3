-- ===== src/Framing/Frames.antt =====
-- What `_extract_frames` (protocol/autoterm_frames.py) returns and leaves, and that it finds
-- every frame of a clean stream.
use mathlib.Core.Path.{subst}
use landy_heater.Prelude.{
  ℕ, zero, suc, ◌+◌, ◌≤◌, ◌<◌, ◌≡◌, ◌⊎◌, refl, sym, ◌∙◌, inl, inr, ap, true, false, some, List, [],
  ◌∷◌, ◌++◌, arith, length, length-append, length-take, length-drop, take_all, drop_all,
  get_or-append, get_or, take, Option-cases, some-eq, flatten, ok, All,
}
use landy_heater.Framing.{
  RawParser, discard_first_byte, skip_noise, Pass, stop, again, emit, is_rejected, classify, pass,
  Extracted, with_frame, after, extract, extract_frames, extend, all_bytes, feed,
  recover_after_timeout,
}
use landy_heater.Framing.Loop.{
  IsAligned, SameConfig, Accounts, pass-Accounts, extract-Balances, held, total_length,
  skip_noise-Skips, extract_total,
}
use landy_heater.Framing.Chunks.{aligned_noise, feed_intro, extract-emit, pass_lem}

-- A raw frame as the parser's configuration wants it.
pub record IsFrame (p : RawParser) (f : List ℕ) : Type 0 where
  pub marker : get_or f 0 0 ≡ p.start
  pub declared : length f ≡ get_or f 2 0 + 7
  pub fits : length f ≤ p.max_frame_length
  pub accepted : is_rejected p.frame_validator f ≡ false

-- What may stay in the buffer: nothing, or a marker with too few bytes behind it.
abbrev pub IsPending : RawParser → Type 0
IsPending p =
    IsAligned p.start p.buffer
    × ((length p.buffer < 3)
        ⊎ ((get_or p.buffer 2 0 + 7 ≤ p.max_frame_length)
            × (length p.buffer < get_or p.buffer 2 0 + 7)))

abbrev Yields : RawParser → Pass → Type 0
Yields p (stop q) = IsPending q
Yields p (again q) = Unit
Yields p (emit f q) = IsFrame p f

get_or-take : (n i : ℕ) (xs : List ℕ) → i < n → get_or (take n xs) i 0 ≡ get_or xs i 0
get_or-take zero i xs h = absurd (omega arith)
get_or-take (suc n) i [] h = refl
get_or-take (suc n) zero (x ∷ xs) h = refl
get_or-take (suc n) (suc i) (x ∷ xs) h = get_or-take n i xs (omega arith)

aligned_head : (s : ℕ) (xs : List ℕ) → IsAligned s xs → 0 < length xs → get_or xs 0 0 ≡ s
aligned_head s [] a h = absurd (omega arith)
aligned_head s (x ∷ xs) a h = a

classify-Yields : (p : RawParser) → IsAligned p.start p.buffer → Yields p (classify p)
unfolding classify
classify-Yields p a = ground (
  arith,
  aligned_head p.start p.buffer a,
  length-take (get_or p.buffer 2 0 + 7) p.buffer,
  get_or-take (get_or p.buffer 2 0 + 7) 0 p.buffer,
  get_or-take (get_or p.buffer 2 0 + 7) 2 p.buffer,
)

IsFrame-config : (p q : RawParser) → SameConfig p q → (f : List ℕ) → IsFrame q f → IsFrame p f
IsFrame-config p q c f h = ground arith

Yields-config : (p q : RawParser) → SameConfig p q → (t : Pass) → Yields q t → Yields p t
Yields-config p q c (stop s) h = h
Yields-config p q c (again s) h = tt
Yields-config p q c (emit f s) h = IsFrame-config p q c f h

pass-Yields : (p : RawParser) → Yields p (pass p)
pass-Yields p =
    let s = skip_noise-Skips p in
    let h = classify-Yields (skip_noise p) (rw s.config.start s.aligned) in
    subst (Yields p) (pass_lem p)
      (Yields-config p (skip_noise p) s.config (classify (skip_noise p)) h)

All-config :
    (p q : RawParser)
    → SameConfig p q
    → (fs : List (List ℕ)) → All (IsFrame q) fs
    → All (IsFrame p) fs
All-config p q c [] h = tt
All-config p q c (f ∷ fs) h = (IsFrame-config p q c f h.0, All-config p q c fs h.1)

abbrev pub IsExtraction : RawParser → Extracted → Type 0
IsExtraction p r = All (IsFrame p) r.0 × IsPending r.1

after-IsExtraction :
    (n : ℕ)
    → ((q : RawParser) (r : Extracted) → extract n q ≡ some r → IsExtraction q r)
    → (p : RawParser) (t : Pass) → Accounts p t
    → Yields p t
    → (r : Extracted) → after (extract n) t ≡ some r
    → IsExtraction p r
after-IsExtraction n ih p (stop s) a y r e = subst (IsExtraction p) (some-eq e) (tt, y)
after-IsExtraction n ih p (again s) a y r e =
    let (all, pending) = ih s r e in (All-config p s a.0 r.0 all, pending)
after-IsExtraction n ih p (emit f s) a y r e = elim (Option-cases (extract n s)) [
  | inl z ↦ cc
  | inr (x, z) ↦
      let (all, pending) = ih s x z in
      subst (IsExtraction p) (some-eq (rw z at e)) ((y, All-config p s a.0 x.0 all), pending)
]

extract-IsExtraction :
    (n : ℕ) (p : RawParser) (r : Extracted) → extract n p ≡ some r → IsExtraction p r
unfolding extract
extract-IsExtraction zero p r e = cc
extract-IsExtraction (suc n) p r e =
    after-IsExtraction n (extract-IsExtraction n) p (pass p) (pass-Accounts p) (pass-Yields p) r e

-- The frames of a clean stream come out as they went in, and nothing is discarded.
classify_frame :
    (p : RawParser) (f rest : List ℕ)
    → IsFrame p f
    → classify (record p { buffer = f ++ rest }) ≡ emit f (record p { buffer = rest })
unfolding classify
classify_frame p f rest h =
    ground (arith, length-append f rest, get_or-append f rest 2 0, take_all f rest, drop_all f rest)

head-IsAligned : (s : ℕ) (xs : List ℕ) → get_or xs 0 0 ≡ s → IsAligned s xs
head-IsAligned s [] h = tt
head-IsAligned s (x ∷ xs) h = h

cut_frame :
    (p : RawParser) (f rest : List ℕ)
    → IsFrame p f
    → pass (record p { buffer = f ++ rest }) ≡ emit f (record p { buffer = rest })
cut_frame p f rest h =
    let t = record p { buffer = f } in
    sym (pass_lem (extend t rest))
    ∙ ap classify
        (aligned_noise rest t (head-IsAligned p.start f h.marker) (omega (arith, h.declared)))
    ∙ classify_frame p f rest h

extract-flatten :
    (p : RawParser) (fs : List (List ℕ))
    → All (IsFrame p) fs
    → extract (suc (length fs)) (record p { buffer = flatten fs })
      ≡ some (fs, record p { buffer = [] })
extract-flatten p [] h = unfold extract pass in refl
extract-flatten p (f ∷ fs) h =
    extract-emit (suc (length fs)) (record p { buffer = f ++ flatten fs }) f
      (record p { buffer = flatten fs }) (cut_frame p f (flatten fs) h.0)
    ∙ ap (with_frame f) (extract-flatten p fs h.1)

-- The frames of a clean stream come out as they went in: a parser with an empty buffer that is
-- fed well-formed frames of bytes, one behind the other, returns exactly these, and it ends with
-- an empty buffer and with its counters as they were.
pub feed_frames :
    (p : RawParser) (fs : List (List ℕ))
    → p.buffer ≡ []
    → all_bytes (flatten fs) ≡ true
    → All (IsFrame p) fs
    → feed p (flatten fs) ≡ ok (some (fs, p))
feed_frames p fs e b h =
    feed_intro p (flatten fs) (suc (length fs)) (fs, p) b (rw e (extract-flatten p fs h))

-- What a call of `feed` on bytes does, whatever the buffer holds: it returns.
pub record Feeds (p : RawParser) (xs : List ℕ) (r : Extracted) : Type 0 where
  pub returned : feed p xs ≡ ok (some r)
  pub frames : All (IsFrame p) r.0
  pub pending : IsPending r.1
  pub config : SameConfig p r.1
  pub balance : held r.1 + total_length r.0 ≡ held p + length xs

-- On bytes `feed` returns. Each frame that it returns begins with the marker, has the length that
-- it declares, is within the limit and is accepted by the validator. What stays in the buffer is
-- nothing or an unfinished candidate, and every byte is in a frame, in the buffer or counted as
-- discarded.
pub feed-Feeds :
    (p : RawParser) (xs : List ℕ) → all_bytes xs ≡ true → (r : Extracted) × Feeds p xs r
feed-Feeds p xs b =
    let n = suc (length (p.buffer ++ xs)) in
    let (r, e) = extract_total n (extend p xs) (omega arith) in
    let (frames, pending) = extract-IsExtraction n (extend p xs) r e in
    let (config, balance, room) = extract-Balances n (extend p xs) r e in
    (
      r,
      record {
        returned = feed_intro p xs n r b e;
        frames = All-config p (extend p xs) (ground arith) r.0 frames;
        pending = pending;
        config = ground arith;
        balance = omega (arith, length-append p.buffer xs);
      },
    )

recovered : RawParser → RawParser
recovered p = skip_noise (discard_first_byte p)

recover_step :
    (p : RawParser) → 0 < length p.buffer → recover_after_timeout p ≡ extract_frames (recovered p)
unfolding recover_after_timeout recovered
recover_step p h = ground arith

recovered-held :
    (p : RawParser)
    → 0 < length p.buffer
    → SameConfig p (recovered p)
      × (held (recovered p) ≡ held p)
      × (length (recovered p).buffer < length p.buffer)
unfolding recovered discard_first_byte
recovered-held p h = ground (arith, skip_noise-Skips (discard_first_byte p), length-drop 1 p.buffer)

-- After a timeout with bytes in the buffer the parser returns, gives up at least the stalled
-- marker, loses no other byte unaccounted, and returns only well-formed frames.
pub recover_progress :
    (p : RawParser)
    → 0 < length p.buffer
    → (r : Extracted) × (recover_after_timeout p ≡ some r)
      × All (IsFrame p) r.0
      × IsPending r.1
      × (held r.1 + total_length r.0 ≡ held p)
      × (length r.1.buffer + total_length r.0 < length p.buffer)
recover_progress p h =
    let q = recovered p in
    let (config, same, shorter) = recovered-held p h in
    let (r, e) = extract_total (suc (length q.buffer)) q (omega arith) in
    let (frames, pending) = extract-IsExtraction (suc (length q.buffer)) q r e in
    let (c, balance, room) = extract-Balances (suc (length q.buffer)) q r e in
    (
      r,
      recover_step p h ∙ (unfold extract_frames in e),
      All-config p q config r.0 frames,
      pending,
      omega arith,
      omega arith,
    )
