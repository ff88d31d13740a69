-- ===== src/Audit.antt =====
-- src/audit/audit.service.ts and src/gateway/pipeline/record-with-timeout.util.ts. The repository
-- is a parameter: an insertion takes some milliseconds and succeeds or fails. A write returns what
-- it left in the database, the milliseconds it took, and what it threw.
pub mod Retries
pub mod BestEffort
use zt_access_gateway.Common.{
  ℕ, zero, suc, ◌+◌, ◌-◌, ◌*◌, ◌^◌, String, Bool, true, false, Option, ltb, leb, if◌then◌else◌,
}

pub data AuditDecision : Type 0 where
  allow challenge deny : AuditDecision

pub record AuditEntry : Type 0 where
  pub user_id : String
  pub resource : String
  pub action : String
  pub decision : AuditDecision
  pub trust_score : Option ℕ
  pub ja4h_fingerprint : Option String
  pub ip_address : String
  pub user_agent : Option String
  pub event_type : Option String
  pub request_id : Option String

-- What `repo.insert` did: whether the row was written, and how long it took.
pub record Inserted (Db : Type 0) : Type 0 where
  pub db : Db
  pub written : Bool
  pub took : ℕ

pub record Config : Type 0 where
  pub wal_base_delay_ms : ℕ
  pub wal_max_retries : ℕ

-- The result of `log`: it threw AuditExhaustedException or returned, after so many milliseconds;
-- `record_failed` counts the AUDIT_RECORD_FAILED events emitted.
pub record Logged (Db : Type 0) : Type 0 where
  pub db : Db
  pub exhausted : Bool
  pub elapsed : ℕ
  pub record_failed : ℕ

module _ {Db : Type 0} (insert : AuditEntry → Db → Inserted Db) where
  -- The loop of `writeBlocking`, with the attempts that are left, the attempt's number and the
  -- time so far.
  unfoldable pub write_from : Config → AuditEntry → ℕ → ℕ → ℕ → Db → Logged Db
  write_from cfg entry zero attempt elapsed db = record {
    db = db;
    exhausted = true;
    elapsed = elapsed;
    record_failed = 0;
  }
  write_from cfg entry (suc left) attempt elapsed db =
      let r = insert entry db in
      let delay =
        if ltb attempt (cfg.wal_max_retries - 1) then cfg.wal_base_delay_ms * 2 ^ attempt else 0 in
      let again = write_from cfg entry left (suc attempt) (elapsed + r.took + delay) r.db in
      if r.written
      then record { db = r.db; exhausted = false; elapsed = elapsed + r.took; record_failed = 0 }
      else again

  unfoldable pub write_blocking : Config → AuditEntry → Db → Logged Db
  unfolding write_from
  write_blocking cfg entry db = write_from cfg entry cfg.wal_max_retries 0 0 db

  unfoldable pub record_best_effort : AuditEntry → Db → Logged Db
  record_best_effort entry db =
      let r = insert entry db in
      record {
        db = r.db;
        exhausted = false;
        elapsed = r.took;
        record_failed = if r.written then 0 else 1;
      }

  unfoldable pub log : Config → AuditEntry → Db → Logged Db
  unfolding write_blocking record_best_effort
  log cfg entry db = elim entry.decision [
    | allow ↦ write_blocking cfg entry db
    | challenge ↦ record_best_effort entry db
    | deny ↦ record_best_effort entry db
  ]

-- The outcome of `recordWithTimeoutBestEffort`: the audit write is raced against the timeout, so
-- what it throws before the timeout reaches the caller; a write that is late goes on by itself.
pub data Raced : Type 0 where
  recorded timed_out threw : Raced

unfoldable pub race : {Db : Type 0} → ℕ → Logged Db → Raced
race timeout_ms l =
    if leb timeout_ms l.elapsed then timed_out else if l.exhausted then threw else recorded
