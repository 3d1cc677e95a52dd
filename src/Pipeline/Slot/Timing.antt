-- ===== src/Pipeline/Slot/Timing.antt =====
-- The lag `recv_us` between the codelet and the poll, on 31-bit microsecond clocks.
use e3controller.Common.{ℕ, ◌-◌, ◌/◌, ◌^◌, ◌≤◌, ◌<◌, ◌≡◌, ◌≢◌, arith}
use e3controller.Pipeline.Slot.{recv_us_of, us_of}

-- Where the codelet's clock does not read a multiple of 2^31 microseconds, and the poll is less
-- than 2^31 microseconds after it, `recv_us` is the difference of the two readings in whole
-- microseconds, also when the 31-bit clock wraps between them.
pub recv_us_of-exact :
    (dispatch_ts_ns codelet_ts_ns : ℕ)
    → codelet_ts_ns ≤ dispatch_ts_ns
    → dispatch_ts_ns / 1000 - codelet_ts_ns / 1000 < 2 ^ 31
    → us_of codelet_ts_ns ≢ 0
    → recv_us_of dispatch_ts_ns codelet_ts_ns ≡ dispatch_ts_ns / 1000 - codelet_ts_ns / 1000
unfolding recv_us_of
recv_us_of-exact dispatch_ts_ns codelet_ts_ns le close ne = ground arith

-- The subtraction does not saturate: where the codelet's reading is later than the poll's, by less
-- than 2^31 microseconds on clocks that have not wrapped, `recv_us` is 2^31 less the difference.
pub recv_us_of-wraps :
    (dispatch_ts_ns codelet_ts_ns : ℕ)
    → codelet_ts_ns / 1000 < 2 ^ 31
    → dispatch_ts_ns / 1000 < codelet_ts_ns / 1000
    → recv_us_of dispatch_ts_ns codelet_ts_ns
      ≡ 2 ^ 31 - (codelet_ts_ns / 1000 - dispatch_ts_ns / 1000)
unfolding recv_us_of
recv_us_of-wraps dispatch_ts_ns codelet_ts_ns lt late = ground arith
