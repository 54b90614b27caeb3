-- ===== src/Lib.antt =====
-- LandyHeater: the control of an Autoterm air heater from a microcontroller.
--
-- The program talks to the heater over a serial line. protocol/ turns bytes into frames and back;
-- app/heater_controller.py decides, in cycles that a main loop calls, which request the heater is
-- sent; app/application_state.py keeps what the application asked for and what the heater last
-- reported. This library models these parts and proves what they promise to each other.
--
-- Prelude: Boolean tests, lists and integers over native numbers; `Result` for exceptions and
--   `Exec` for a method that changes an object and may raise, with what was written before a raise;
--   `Keeps` and `Ensures` for what such a method preserves; `strip` and `lower` of ASCII texts.
-- Crc16 (protocol/crc16.py): `crc16`, `crc_bytes`, `append_crc`; Crc16/Laws proves on byte lists
--   what the checksum detects.
-- Framing (protocol/autoterm_frames.py): `RawFrameStreamParser` as the record `RawParser`. One turn
--   of `_extract_frames` is `pass`; `extract` repeats it on fuel. A turn that does not end the loop
--   shortens the buffer, so the fuel of `extract_frames`, the buffer's length and one, is enough
--   (Framing/Loop); more fuel changes nothing (Framing/Chunks).
-- Autoterm (protocol/autoterm_protocol.py): the builders, `parse_frame`, the status fields, and
--   `FrameStreamParser` over Framing. A voltage is in tenths of a volt, a temperature in sixteenths
--   of a degree.
-- Service (protocol/autoterm_service.py): `AutotermProtocolService` over an injected transport, a
--   parameter of the model. `perform` stands for the four request methods.
-- AppState (app/application_state.py): the requested and the actual state, one session, and
--   `validate_start_request`.
-- Heater (app/heater_controller.py): `HeaterController` as the record `Controller`. Heater/Types
--   has its state, Heater/Base the helpers, Heater/Sensors `_apply_sensor_policy`, Heater/Requests
--   the requests of the application, Heater/Link what concerns the line, Heater/Confirm
--   `handle_frame`, Heater/Sessions and Heater/Attempts what their names say, Heater/Control `step`.
--   Heater/Sent, Heater/Orders, Heater/Checks and Heater/Cycle prove what a cycle calls,
--   Heater/Safety, Heater/Policy and Heater/Expiry what makes it stop, Heater/Silent is about the
--   calls of the other operations.
-- Temperature (app/temperature_manager.py): `TemperatureManager` as the record `Manager`, its settings
--   as `Settings`. Temperature/Assignments has `configure_assignments`, Temperature/Snapshots
--   `_health_snapshot` and `_refresh_role`, Temperature/Samples the reports of the adapter.
--   Temperature/Consistent has the invariant, Temperature/Accepted the composition with Heater/Sensors.
-- RateLimit (services/rest_rate_limiter.py): `RestRateLimiter` as the record `Limiter`. RateLimit/Peers
--   has the limits and `_canonical_peer`, RateLimit/Limiter the operations; RateLimit/Tables,
--   RateLimit/Windows, RateLimit/Quotas, RateLimit/Calls and RateLimit/Windowed concern the quotas,
--   RateLimit/Known, RateLimit/Admitted and RateLimit/Followed the requests of peers in the table,
--   RateLimit/Places, RateLimit/Cooldown and RateLimit/Pause the pause after a change.
-- Clock (services/time_service.py): Clock/Calendar has the functions from `_is_leap_year` to
--   `_seconds_to_civil`, Clock/Zone the timezone rules. The loop over the years runs over those that are
--   left up to 2099; the one over the months has fuel for twelve, which a day of a year does not use up
--   (Clock/Months). Clock/RoundTrip and Clock/Occurrences have the round trips. `TimeService` is the record
--   of this name in Clock/State; Clock/Corrections has its corrections and the write and the commit of the
--   time of the chip, Clock/Snapshot its `snapshot`. Clock/Quiet, Clock/Agree, Clock/Coherent, Clock/Calls
--   and Clock/Locks are about what its calls keep.
-- Scheduler (app/scheduler.py): `Scheduler` as the record of this name. Scheduler/Types has the state,
--   Scheduler/Timers the definitions of timers and the operations that arm, Scheduler/Trust
--   `_canonical_clock`, Scheduler/Steps `step`, Scheduler/History the history that survives a restart,
--   and Scheduler/Handoff `authorize_intent`, `complete_intent` and the end of a session. The record that
--   an `AuthorizedStartIntent` shares with the table of occurrences is a cell of a store, under the token
--   of the authorization. Scheduler/Due,
--   Scheduler/Justified, Scheduler/Starts, Scheduler/Marks and Scheduler/Once are about the intents that
--   are made, Scheduler/Allowed and Scheduler/Confirmed about their hand-off,
--   Scheduler/Accepted about the composition with Clock/Snapshot.
-- Examples: concrete inputs, at which the theorems are applied.
--
-- The parts meet as in the program: the service builds and parses with Autoterm, which stands on
-- Crc16 and Framing; the controller takes the frames of Autoterm. The controller's protocol port is
-- a parameter: `accepts` says whether a call succeeds, depending on the calls before it, and the
-- field `sent` of the controller records these calls, the newest first. The clock's `ticks_diff` and
-- `ticks_add` and the answers of the temperature manager are parameters of the controller too, with
-- nothing assumed of them; Temperature/Accepted fills these answers with the manager's. A tick is a
-- natural number, their difference an integer. The scheduler takes the answer of the clock's `snapshot`, a
-- `ClockSnapshot` or what it raised, and the snapshot of the request as arguments. The limiter stands by
-- itself.
--
-- An argument's type takes the place of the tests on types (`isinstance`, `callable`); integers that
-- may not be negative are natural numbers. A text that only a reader sees is a constructor of
-- `Reason`. Not modelled: failures of memory allocation (the counter `event_errors` stays 0), the
-- constructor's checks of the controller's settings, the snapshots for display, the queries whether a
-- start is available, and the `drain_events` of the controller; the `snapshot` of the temperature
-- manager; the checks of the settings of the time service and the scheduler; of the scheduler
-- `next_occurrence` and the snapshots; and the other parts of the program: the network, the
-- configuration, the REST interface, the transports and the adapters of the hardware.
pub mod Prelude
pub mod Crc16
pub mod Framing
pub mod Autoterm
pub mod Service
pub mod AppState
pub mod Heater
pub mod Temperature
pub mod RateLimit
pub mod Clock
pub mod Scheduler
pub mod Examples
