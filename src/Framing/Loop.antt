-- ===== src/Framing/Loop.antt =====
-- The loop of `_extract_frames` (protocol/autoterm_frames.py): its fuel is enough, it loses no
-- byte, and what it leaves.
use landy_heater.Prelude.{
  ℕ, zero, suc, ◌+◌, ◌≤◌, ◌<◌, ◌≡◌, refl, inl, inr, ap, some, List, [], ◌∷◌, arith, length,
  length-take, length-drop, get_or, Option-cases,
}
use landy_heater.Framing.{
  RawParser, discard_first_byte, skip_noise_from, skip_noise, Pass, stop, again, emit, classify,
  pass, Extracted, with_frame, after, extract,
}

-- The bytes that the parser holds or has discarded.
abbrev pub held : RawParser → ℕ
held p = length p.buffer + p.discarded_bytes

abbrev pub total_length : List (List ℕ) → ℕ
total_length [] = 0
total_length (f ∷ fs) = length f + total_length fs

-- What an operation leaves alone.
pub record SameConfig (p q : RawParser) : Type 0 where
  pub max_frame_length : q.max_frame_length ≡ p.max_frame_length
  pub start : q.start ≡ p.start
  pub frame_validator : q.frame_validator ≡ p.frame_validator

-- The buffer begins with a marker, or is empty.
abbrev pub IsAligned : ℕ → List ℕ → Type 0
IsAligned s [] = Unit
IsAligned s (b ∷ bs) = b ≡ s

pub record Skips (p q : RawParser) : Type 0 where
  pub config : SameConfig p q
  pub shorter : length q.buffer ≤ length p.buffer
  pub kept : held q ≡ held p
  pub aligned : IsAligned p.start q.buffer

skip_noise_from-Skips :
    (bs : List ℕ) (p : RawParser) → p.buffer ≡ bs → Skips p (skip_noise_from bs p)
unfolding skip_noise_from
skip_noise_from-Skips [] p e = ground arith
skip_noise_from-Skips (b ∷ bs) p e = ground (arith, skip_noise_from-Skips bs (discard_first_byte p))

pub skip_noise-Skips : (p : RawParser) → Skips p (skip_noise p)
unfolding skip_noise
skip_noise-Skips p = skip_noise_from-Skips p.buffer p refl

-- A pass that goes on has removed a byte; the bytes of a frame are those that left the buffer.
abbrev pub Accounts : RawParser → Pass → Type 0
Accounts p (stop q) = SameConfig p q × (held q ≡ held p) × (length q.buffer ≤ length p.buffer)
Accounts p (again q) = SameConfig p q × (held q ≡ held p) × (length q.buffer < length p.buffer)
Accounts p (emit f q) =
    SameConfig p q
    × (held q + length f ≡ held p)
    × (length q.buffer < length p.buffer)
    × (length q.buffer + length f ≤ length p.buffer)

classify-Accounts : (p : RawParser) → Accounts p (classify p)
unfolding classify discard_first_byte
classify-Accounts p = ground (
  arith,
  length-take (get_or p.buffer 2 0 + 7) p.buffer,
  length-drop (get_or p.buffer 2 0 + 7) p.buffer,
  length-drop 1 p.buffer,
)

pub pass-Accounts : (p : RawParser) → Accounts p (pass p)
unfolding pass
pass-Accounts p = ground (arith, skip_noise-Skips p, classify-Accounts (skip_noise p))

abbrev pub Runs : ℕ → RawParser → Type 0
Runs n p = (r : Extracted) × (extract n p ≡ some r)

after_total :
    (n : ℕ)
    → ((q : RawParser) → length q.buffer < n → Runs n q)
    → (p : RawParser) (t : Pass) → Accounts p t
    → length p.buffer < suc n
    → (r : Extracted) × (after (extract n) t ≡ some r)
after_total n ih p (stop q) a h = (([], q), refl)
after_total n ih p (again q) a h = ih q (omega arith)
after_total n ih p (emit f q) a h =
    let (r, e) = ih q (omega arith) in ((f ∷ r.0, r.1), ap (with_frame f) e)

-- Fuel above the buffer's length is enough.
pub extract_total : (n : ℕ) (p : RawParser) → length p.buffer < n → Runs n p
unfolding extract
extract_total zero p h = absurd (omega arith)
extract_total (suc n) p h = after_total n (extract_total n) p (pass p) (pass-Accounts p) h

after_more :
    (n m : ℕ)
    → ((q : RawParser) (r : Extracted) → extract n q ≡ some r → extract m q ≡ some r)
    → (t : Pass) (r : Extracted) → after (extract n) t ≡ some r
    → after (extract m) t ≡ some r
after_more n m ih (stop q) r e = e
after_more n m ih (again q) r e = ih q r e
after_more n m ih (emit f q) r e = elim (Option-cases (extract n q)) [
  | inl z ↦ cc
  | inr (a, z) ↦ cc (ih q a z)
]

-- More fuel changes nothing.
pub extract_more :
    (n m : ℕ) (p : RawParser) (r : Extracted) → n ≤ m → extract n p ≡ some r → extract m p ≡ some r
unfolding extract
extract_more zero m p r h e = cc
extract_more (suc n) zero p r h e = absurd (omega arith)
extract_more (suc n) (suc m) p r h e =
    after_more n m (λ q s. extract_more n m q s (omega arith)) (pass p) r e

abbrev pub Balances : RawParser → Extracted → Type 0
Balances p (fs, q) =
    SameConfig p q
    × (held q + total_length fs ≡ held p)
    × (length q.buffer + total_length fs ≤ length p.buffer)

after-Balances :
    (n : ℕ)
    → ((q : RawParser) (r : Extracted) → extract n q ≡ some r → Balances q r)
    → (p : RawParser) (t : Pass) → Accounts p t
    → (r : Extracted) → after (extract n) t ≡ some r
    → Balances p r
after-Balances n ih p (stop q) a r e = ground arith
after-Balances n ih p (again q) a r e = ground (arith, ih q r e)
after-Balances n ih p (emit f q) a r e = elim (Option-cases (extract n q)) [
  | inl z ↦ cc
  | inr (s, z) ↦ ground (arith, ih q s z)
]

-- Every byte is in a frame, in the buffer or counted as discarded.
pub extract-Balances : (n : ℕ) (p : RawParser) (r : Extracted) → extract n p ≡ some r → Balances p r
unfolding extract
extract-Balances zero p r e = cc
extract-Balances (suc n) p r e =
    after-Balances n (extract-Balances n) p (pass p) (pass-Accounts p) r e
