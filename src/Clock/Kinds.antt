-- ===== src/Clock/Kinds.antt =====
-- services/time_service.py: the sources and the health of the clock.
use landy_heater.Prelude.{Bool, true, false}

pub data ClockSource : Type 0 where
  rtc ntp browser : ClockSource

pub data ClockHealth : Type 0 where
  invalid ok holdover : ClockHealth

pub data RtcHealth : Type 0 where
  unknown ok error : RtcHealth

abbrev pub rtc_eq : RtcHealth → RtcHealth → Bool
rtc_eq RtcHealth.unknown RtcHealth.unknown = true
rtc_eq RtcHealth.ok RtcHealth.ok = true
rtc_eq RtcHealth.error RtcHealth.error = true
rtc_eq _ _ = false

abbrev pub source_eq : ClockSource → ClockSource → Bool
source_eq ClockSource.rtc ClockSource.rtc = true
source_eq ClockSource.ntp ClockSource.ntp = true
source_eq ClockSource.browser ClockSource.browser = true
source_eq _ _ = false
