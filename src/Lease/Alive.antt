-- ===== src/Lease/Alive.antt =====
-- A lease whose holder sends its heartbeats.
use Prim.Native.Nat.{◌^◌}
use goodgrep.Prelude.{ℕ, ◌+◌, ◌≤◌, ◌<◌, ◌≡◌, some, arith}
use goodgrep.Prelude.Tests.{string_key, nat_key}
use goodgrep.Prelude.Results.{ok, err}
use goodgrep.Lease.{
  WriterLeaseRecord, Writer, is_stale, acquire, heartbeat_once, heartbeat_interval, already_held,
}

-- No writer takes a lease over while its holder's last heartbeat is no further back than the pause
-- between two heartbeats, if the time to live is at least 1500 ms and below 2^63 ms; the heartbeat is written with the
-- time cut to seconds.
pub heartbeat_once-acquire :
    (w : Writer) (lease held : WriterLeaseRecord) (beat now : ℕ)
    → heartbeat_once lease.owner_id lease.lease_epoch beat (some lease) ≡ ok held
    → now ≤ beat + heartbeat_interval lease.lease_ttl_ms
    → 1500 ≤ lease.lease_ttl_ms
    → lease.lease_ttl_ms < 2 ^ 63
    → acquire w now (some held) ≡ err already_held
unfolding heartbeat_once acquire is_stale
heartbeat_once-acquire w lease held beat now h soon long short = ground arith
