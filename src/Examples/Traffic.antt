-- ===== src/Examples/Traffic.antt =====
-- The rate limiter with one peer that changes the configuration.
use mathlib.Core.Path.{subst}
use landy_heater.Prelude.{
  ℕ, ◌≡◌, refl, sym, ◌∙◌, ◌∷◌, [], List, String, true, false, some, ok, ok-eq,
}
use landy_heater.Prelude.Int.{sub_ℕ}
use landy_heater.RateLimit.Peers.{PeerState, canonical_peer, split_dots, is_config_mutation}
use landy_heater.RateLimit.Limiter.{
  Limiter, Ticket, new, begin_operation, finish, difference, complete,
}
use landy_heater.RateLimit.Calls.{Call, authorize_call}
use landy_heater.RateLimit.Known.{names, has_name}
use landy_heater.RateLimit.Followed.{PeerRequest, IsKnown, ask, after_requests}
use landy_heater.RateLimit.Pause.{change_cools_down}

abbrev phone : PeerState
phone = record {
  peer = "192.168.4.2";
  request_started_ms = 1000;
  request_count = 1;
  mutation_started_ms = 1000;
  mutation_count = 1;
  last_config_ms = 1000;
  has_config_commit = false;
  last_seen_ms = 1000;
}

-- A limiter that has let one change of the settings through.
abbrev busy : Limiter
busy = record new { peers = phone ∷ []; allowed = 1 }

abbrev ticket : Ticket
ticket = record { peer = "192.168.4.2"; config_mutation = true; issued_ms = 1000 }

address_canonical : canonical_peer "192.168.4.2" ≡ ok ticket.peer
unfolding canonical_peer split_dots
address_canonical = refl

timers_mutation : is_config_mutation "POST" "/api/v1/timers" ≡ true
unfolding is_config_mutation
timers_mutation = refl

commit_done : (complete (λ a b. sub_ℕ a b) (some ticket) true (some 1100) busy).0 ≡ ok tt
unfolding new complete begin_operation finish difference
commit_done = refl

abbrev ask_status : ℕ → PeerRequest
ask_status now_ms = record {
  raw_peer = "192.168.4.2";
  request_method = "GET";
  path = "/api/v1/status";
  now_ms = now_ms;
}

abbrev change_settings : ℕ → PeerRequest
change_settings now_ms = record {
  raw_peer = "192.168.4.2";
  request_method = "PUT";
  path = "/api/v1/settings";
  now_ms = now_ms;
}

abbrev change_timers : ℕ → PeerRequest
change_timers now_ms = record {
  raw_peer = "192.168.4.2";
  request_method = "POST";
  path = "/api/v1/timers";
  now_ms = now_ms;
}

-- What has the phone's name knows its requests.
phone-IsKnown :
    (ns : List String) (r : PeerRequest)
    → canonical_peer r.raw_peer ≡ ok "192.168.4.2"
    → has_name "192.168.4.2" ns ≡ true
    → IsKnown ns r
phone-IsKnown ns r e h = λ (q : String) k. subst (λ x. has_name x ns ≡ true) (ok-eq (sym e ∙ k)) h

phone_stays :
    has_name "192.168.4.2"
      (names (complete (λ a b. sub_ℕ a b) (some ticket) true (some 1100) busy).1.peers)
    ≡ true
unfolding new complete begin_operation finish difference
phone_stays = refl

-- 3.9 seconds after the change, with a request that is let through and one that is refused between
change_cools_down_example : ¬ (
    (ask
      (λ a b. sub_ℕ a b)
      (change_timers 5000)
      (after_requests
        (λ a b. sub_ℕ a b)
        (ask_status 1200 ∷ change_settings 2000 ∷ [])
        (complete (λ a b. sub_ℕ a b) (some ticket) true (some 1100) busy).1)).0
    ≡ ok (some (record ticket { issued_ms = 5000 })))
change_cools_down_example =
    change_cools_down (λ a b. sub_ℕ a b) 1100 ticket (ask_status 1200 ∷ change_settings 2000 ∷ [])
      (change_timers 5000) busy (some (record ticket { issued_ms = 5000 })) refl commit_done
      (
        phone-IsKnown
            (names (complete (λ a b. sub_ℕ a b) (some ticket) true (some 1100) busy).1.peers)
            (ask_status 1200) address_canonical phone_stays,
        (
          phone-IsKnown
              (names (complete (λ a b. sub_ℕ a b) (some ticket) true (some 1100) busy).1.peers)
              (change_settings 2000) address_canonical phone_stays,
          tt,
        ),
      )
      address_canonical timers_mutation refl

-- A first request of the phone, whose window then starts.
abbrev first_calls : List Call
first_calls = authorize_call "192.168.4.2" "PUT" "/api/v1/settings" 1000 ∷ []
