-- ===== src/Audit/BestEffort.antt =====
-- src/gateway/pipeline/record-with-timeout.util.ts: when the raced write throws.
use zt_access_gateway.Common.{ℕ, ◌+◌, ◌-◌, ◌*◌, ◌^◌, ◌<◌, ◌≡◌, ◌≢◌, true, arith}
use zt_access_gateway.Audit.{AuditEntry, Inserted, Config, write_blocking, log, race, allow, threw}
use zt_access_gateway.Audit.Retries.{
  AllFail, write_from-fail, log-write_blocking, log-best_effort, time_of, log-elapsed,
}

module _ {Db : Type 0} (insert : AuditEntry → Db → Inserted Db) (cfg : Config) (entry : AuditEntry)
    (timeout_ms : ℕ) (db : Db) where
  -- A raced write of an entry that is not an ALLOW never throws.
  pub race-ne-threw : entry.decision ≢ allow → race timeout_ms (log insert cfg entry db) ≢ threw
  unfolding race
  race-ne-threw other h = ground (arith, log-best_effort insert cfg entry db other)

  -- The raced write is not best-effort for an ALLOW entry, which an authentication-only path
  -- writes: where all attempts fail within the timeout, backoffs included, it throws the
  -- exhaustion at its caller.
  pub race_allow_threw :
      entry.decision ≡ allow
      → 0 < cfg.wal_max_retries
      → AllFail insert cfg entry cfg.wal_max_retries db
      → time_of insert cfg entry cfg.wal_max_retries db
          + cfg.wal_base_delay_ms * 2 ^ (cfg.wal_max_retries - 1)
        < timeout_ms + cfg.wal_base_delay_ms
      → race timeout_ms (log insert cfg entry db) ≡ threw
  unfolding race
  race_allow_threw is_allow some_try all fast =
      let early = log-elapsed insert cfg entry db is_allow some_try all in
      let failed : (log insert cfg entry db).exhausted ≡ true =
        rw (log-write_blocking insert cfg entry db is_allow) (
          unfold write_blocking in
          (write_from-fail insert cfg entry cfg.wal_max_retries 0 0 db all).0) in
      ground (arith, early, failed)
