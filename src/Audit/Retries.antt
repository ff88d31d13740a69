-- ===== src/Audit/Retries.antt =====
-- src/audit/audit.service.ts: the retry loop of an ALLOW entry, and the best-effort writes.
use native.Mathlib.Nat.{pow-suc, mul_assoc}
use zt_access_gateway.Common.{
  ℕ, zero, suc, ◌+◌, ◌-◌, ◌*◌, ◌^◌, ◌<◌, ◌≡◌, refl, sym, ◌≢◌, ◌⊎◌, inl, inr, true, false, arith,
  ltb, if◌then◌else◌, Bool-cases,
}
use zt_access_gateway.Audit.{AuditEntry, Inserted, Config, write_from, write_blocking, log, allow}

module _ {Db : Type 0} (insert : AuditEntry → Db → Inserted Db) (cfg : Config)
    (entry : AuditEntry) where
  -- The database after n attempts, all of them made.
  abbrev pub db_after : ℕ → Db → Db
  db_after zero db = db
  db_after (suc n) db = db_after n (insert entry db).db

  -- Every one of n attempts fails.
  abbrev pub AllFail : ℕ → Db → Type 0
  AllFail zero db = Unit
  AllFail (suc n) db = ((insert entry db).written ≡ false) × AllFail n (insert entry db).db

  -- The first i attempts fail, and the next one writes the row.
  abbrev pub FirstSuccess : ℕ → Db → Type 0
  FirstSuccess i db = AllFail i db × ((insert entry (db_after i db)).written ≡ true)

  pub write_from-fail :
      (n attempt elapsed : ℕ) (db : Db)
      → AllFail n db
      → ((write_from insert cfg entry n attempt elapsed db).exhausted ≡ true)
        × ((write_from insert cfg entry n attempt elapsed db).db ≡ db_after n db)
  unfolding write_from
  write_from-fail zero attempt elapsed db h = (refl, refl)
  write_from-fail (suc n) attempt elapsed db h =
      rw h.0 (write_from-fail n (suc attempt) _ (insert entry db).db h.1)

  write_from-success :
      (i n attempt elapsed : ℕ) (db : Db)
      → i < n
      → FirstSuccess i db
      → ((write_from insert cfg entry n attempt elapsed db).exhausted ≡ false)
        × ((write_from insert cfg entry n attempt elapsed db).db ≡ db_after (suc i) db)
  unfolding write_from
  write_from-success i zero attempt elapsed db lt h = absurd (omega arith)
  write_from-success zero (suc n) attempt elapsed db lt h = rw h.1 (refl, refl)
  write_from-success (suc i) (suc n) attempt elapsed db lt h =
      rw h.0.0
        (write_from-success i n (suc attempt) _ (insert entry db).db (omega arith) (h.0.1, h.1))

  write_from-decides : (n : ℕ) (db : Db) → AllFail n db ⊎ ((i : ℕ) × (i < n) × FirstSuccess i db)
  write_from-decides zero db = inl tt
  write_from-decides (suc n) db = elim (Bool-cases (insert entry db).written) [
    | inl ok ↦ inr (0, omega arith, (tt, ok))
    | inr bad ↦ elim (write_from-decides n (insert entry db).db) [
      | inl all ↦ inl (bad, all)
      | inr found ↦ inr (suc found.0, omega (arith, found.1), ((bad, found.2.0), found.2.1))
    ]
  ]

  pub log-write_blocking :
      (db : Db)
      → entry.decision ≡ allow
      → log insert cfg entry db ≡ write_blocking insert cfg entry db
  unfolding log
  log-write_blocking db is_allow = ground arith

  -- The writing of an ALLOW entry is total and fail-closed: either each of the configured attempts
  -- failed, and the caller gets the exhaustion; or some attempt was the first to succeed, and the
  -- call returns with the database that this attempt left, with no further attempt.
  pub log-allow :
      (db : Db)
      → entry.decision ≡ allow
      → let r = log insert cfg entry db in
        (AllFail cfg.wal_max_retries db
          × (r.exhausted ≡ true)
          × (r.db ≡ db_after cfg.wal_max_retries db))
        ⊎ ((i : ℕ) × (i < cfg.wal_max_retries)
            × FirstSuccess i db
            × (r.exhausted ≡ false)
            × (r.db ≡ db_after (suc i) db))
  log-allow db is_allow = elim (write_from-decides cfg.wal_max_retries db) [
    | inl all ↦
        let (failed, left) = write_from-fail cfg.wal_max_retries 0 0 db all in
        rw (log-write_blocking db is_allow) (unfold write_blocking in inl (all, failed, left))
    | inr (i, lt, found) ↦
        let (failed, left) = write_from-success i cfg.wal_max_retries 0 0 db lt found in
        rw (log-write_blocking db is_allow)
          (unfold write_blocking in inr (i, lt, found, failed, left))
  ]

  -- Any other entry is tried once, never throws, and reports a failure as one event.
  pub log-best_effort :
      (db : Db)
      → entry.decision ≢ allow
      → let r = log insert cfg entry db in
        (r.exhausted ≡ false)
        × (r.db ≡ (insert entry db).db)
        × (r.record_failed ≡ (if (insert entry db).written then 0 else 1))
  unfolding log
  log-best_effort db other = ground arith

  -- The time that n attempts take in the repository.
  abbrev pub time_of : ℕ → Db → ℕ
  time_of zero db = 0
  time_of (suc n) db = (insert entry db).took + time_of n (insert entry db).db

  write_from-last :
      (attempt elapsed : ℕ) (db : Db)
      → attempt + 1 ≡ cfg.wal_max_retries
      → (insert entry db).written ≡ false
      → write_from insert cfg entry 1 attempt elapsed db
        ≡ write_from insert cfg entry 0
            (suc attempt)
            (elapsed + (insert entry db).took)
            (insert entry db).db
  unfolding write_from
  write_from-last attempt elapsed db last bad = ground arith

  write_from-again :
      (n attempt elapsed : ℕ) (db : Db)
      → attempt + 1 < cfg.wal_max_retries
      → (insert entry db).written ≡ false
      → write_from insert cfg entry (suc n) attempt elapsed db
        ≡ write_from insert cfg entry n
            (suc attempt)
            (elapsed + (insert entry db).took + cfg.wal_base_delay_ms * 2 ^ attempt)
            (insert entry db).db
  unfolding write_from
  write_from-again n attempt elapsed db more bad =
      let early : ltb attempt (cfg.wal_max_retries - 1) ≡ true = ground arith in
      rw bad (rw early refl)

  doubled :
      (attempt : ℕ)
      → cfg.wal_base_delay_ms * 2 ^ suc attempt ≡ cfg.wal_base_delay_ms * 2 ^ attempt * 2
  doubled attempt = rw pow-suc (sym (mul_assoc cfg.wal_base_delay_ms (2 ^ attempt) 2))

  write_from-elapsed :
      (n attempt elapsed : ℕ) (db : Db)
      → attempt + suc n ≡ cfg.wal_max_retries
      → AllFail (suc n) db
      → (write_from insert cfg entry (suc n) attempt elapsed db).elapsed
          + cfg.wal_base_delay_ms * 2 ^ attempt
        ≡ elapsed + time_of (suc n) db + cfg.wal_base_delay_ms * 2 ^ (attempt + n)
  write_from-elapsed zero attempt elapsed db last h =
      let same : attempt + 0 ≡ attempt = omega arith in
      rw (write_from-last attempt elapsed db last h.0) (rw same (unfold write_from in omega arith))
  write_from-elapsed (suc n) attempt elapsed db last h =
      let same : attempt + suc n ≡ suc attempt + n = omega arith in
      let d = cfg.wal_base_delay_ms * 2 ^ attempt in
      let r = insert entry db in
      let rest =
        write_from-elapsed n (suc attempt) (elapsed + r.took + d) r.db (omega (arith, last)) h.1 in
      rw (write_from-again (suc n) attempt elapsed db (omega (arith, last)) h.0)
        (rw same (omega (arith, rest, doubled attempt)))

  -- An ALLOW write whose attempts all fail returns after the time of the insertions and the
  -- backoffs, `base * (2^(retries - 1) - 1)` in all; it does not sleep after the last attempt.
  pub log-elapsed :
      (db : Db)
      → entry.decision ≡ allow
      → 0 < cfg.wal_max_retries
      → AllFail cfg.wal_max_retries db
      → (log insert cfg entry db).elapsed + cfg.wal_base_delay_ms
        ≡ time_of cfg.wal_max_retries db + cfg.wal_base_delay_ms * 2 ^ (cfg.wal_max_retries - 1)
  log-elapsed db is_allow some_try all =
      rw (log-write_blocking db is_allow)
        (unfold write_blocking in go cfg.wal_max_retries refl all some_try)
    where
      go :
          (n : ℕ)
          → n ≡ cfg.wal_max_retries
          → AllFail n db
          → 0 < n
          → (write_from insert cfg entry n 0 0 db).elapsed + cfg.wal_base_delay_ms
            ≡ time_of n db + cfg.wal_base_delay_ms * 2 ^ (n - 1)
      go zero e all p = absurd (omega arith)
      go (suc n) e all p =
          let same : suc n - 1 ≡ n = omega arith in
          let plain : 0 + n ≡ n = omega arith in
          let sum = rw plain at (write_from-elapsed n 0 0 db (omega (arith, e)) all) in
          rw same (omega (arith, sum))
