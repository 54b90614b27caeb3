-- ===== src/RateLimit/Peers.antt =====
-- services/rest_rate_limiter.py: the limits, a peer's state, and the canonical text of its address.
use Prim.Native.Char.{Char, code}
use Prim.Native.String.{◌++◌ as str_append}
use text.Mathlib.Text.{◌==◌ as str_eq}
use landy_heater.Prelude.{
  ℕ, zero, suc, ◌+◌, ◌-◌, ◌*◌, ◌/◌, ◌%◌, Bool, true, false, not, ◌&&◌, ◌||◌, List, [], ◌∷◌, String,
  leb, ltb, ◌==◌, ◌≡◌, refl, if◌then◌else◌, in_range, length, Result, ok, rate_limit_unavailable,
  ◌>>=◌, ◌>>◌, require,
}
use landy_heater.Prelude.Texts.{text_length}

abbrev pub max_peers : ℕ
max_peers = 4

abbrev pub max_requests_per_window : ℕ
max_requests_per_window = 10

abbrev pub request_window_ms : ℕ
request_window_ms = 10000

abbrev pub max_mutations_per_window : ℕ
max_mutations_per_window = 2

abbrev pub mutation_window_ms : ℕ
mutation_window_ms = 1000

abbrev pub config_cooldown_ms : ℕ
config_cooldown_ms = 5000

abbrev pub peer_stale_ms : ℕ
peer_stale_ms = 60000

pub record PeerState : Type 0 where
  pub peer : String
  pub request_started_ms : ℕ
  pub request_count : ℕ
  pub mutation_started_ms : ℕ
  pub mutation_count : ℕ
  pub last_config_ms : ℕ
  pub has_config_commit : Bool
  pub last_seen_ms : ℕ

unfoldable pub new_peer : String → ℕ → PeerState
new_peer peer now_ms = record {
  peer = peer;
  request_started_ms = now_ms;
  request_count = 0;
  mutation_started_ms = now_ms;
  mutation_count = 0;
  last_config_ms = now_ms;
  has_config_commit = false;
  last_seen_ms = now_ms;
}

-- `value.split(".")`
abbrev with_first : Char → List String → List String
with_first c [] = String.◌∷◌ c "" ∷ []
with_first c (part ∷ rest) = String.◌∷◌ c part ∷ rest

unfoldable pub split_dots : String → List String
split_dots String.[] = "" ∷ []
split_dots (String.◌∷◌ c s) =
    let rest = split_dots s in if code c == 46 then "" ∷ rest else with_first c rest

abbrev all_digits : String → Bool
all_digits String.[] = true
all_digits (String.◌∷◌ c s) = in_range 48 57 (code c) && all_digits s

abbrev begins_with_zero : String → Bool
begins_with_zero String.[] = false
begins_with_zero (String.◌∷◌ c s) = code c == 48

-- `int(part)`, of digits, behind a number that is read already
abbrev int_of : ℕ → String → ℕ
int_of n String.[] = n
int_of n (String.◌∷◌ c s) = int_of (n * 10 + (code c - 48)) s

abbrev digit_of : String → ℕ → String
digit_of String.[] n = ""
digit_of (String.◌∷◌ c s) zero = String.◌∷◌ c ""
digit_of (String.◌∷◌ c s) (suc n) = digit_of s n

abbrev digit : ℕ → String
digit n = digit_of "0123456789" n

-- `str(number)`, of a number below 1000
abbrev str_of : ℕ → String
str_of n =
    if ltb n 10
    then digit n
    else if ltb n 100
    then str_append (digit (n / 10)) (digit (n % 10))
    else str_append (digit (n / 100)) (str_append (digit (n / 10 % 10)) (digit (n % 10)))

abbrev require_peer : Bool → Result (Unit {0})
require_peer c = require c (rate_limit_unavailable "REST peer identity is unavailable")

abbrev pub normal_part : String → Result String
normal_part part = do
  require_peer (in_range 1 3 (text_length part))
  require_peer (all_digits part)
  require_peer (not (ltb 1 (text_length part) && begins_with_zero part))
  require_peer (leb (int_of 0 part) 255)
  ok (str_of (int_of 0 part))

abbrev normal_parts : List String → Result (List String)
normal_parts [] = ok []
normal_parts (part ∷ rest) = do
  first ← normal_part part
  others ← normal_parts rest
  ok (first ∷ others)

-- `".".join(normalized)`
abbrev join_dots : List String → String
join_dots [] = ""
join_dots (part ∷ []) = part
join_dots (part ∷ rest) = str_append part (str_append "." (join_dots rest))

-- `_canonical_peer`
unfoldable pub canonical_peer : String → Result String
unfolding split_dots
canonical_peer value = do
  require_peer (in_range 1 15 (text_length value))
  require_peer (length (split_dots value) == 4)
  normalized ← normal_parts (split_dots value)
  require_peer (
      not (
        str_eq (join_dots normalized) "0.0.0.0" || str_eq (join_dots normalized) "255.255.255.255"))
  ok (join_dots normalized)

abbrev pub is_mutation : String → Bool
is_mutation m = str_eq m "POST" || str_eq m "PUT" || str_eq m "PATCH" || str_eq m "DELETE"

abbrev starts_with : String → String → Bool
starts_with String.[] s = true
starts_with (String.◌∷◌ c p) String.[] = false
starts_with (String.◌∷◌ c p) (String.◌∷◌ d s) = code c == code d && starts_with p s

-- `_is_config_mutation`
unfoldable pub is_config_mutation : String → String → Bool
is_config_mutation m path =
    is_mutation m
    && (str_eq path "/api/v1/settings"
        || str_eq path "/api/v1/timers"
        || starts_with "/api/v1/timers/" path)

-- `_retry_seconds`
unfoldable pub retry_seconds : ℕ → ℕ
retry_seconds remaining_ms =
    if remaining_ms == 0
    then 1
    else let value = (remaining_ms + 999) / 1000 in
      if ltb value 1 then 1 else if ltb 60 value then 60 else value

address_kept : canonical_peer "192.168.4.20" ≡ ok "192.168.4.20"
unfolding canonical_peer split_dots
address_kept = refl
