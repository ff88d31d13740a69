-- ===== src/Tests/Audit.antt =====
-- Runs of src/audit/audit.service.ts on a database that is a list of scheduled results, each with
-- the time that the insertion takes; beyond them it succeeds at once.
use zt_access_gateway.Common.{
  ℕ, suc, ◌+◌, ◌<◌, ◌≡◌, refl, ◌≢◌, ◌⊎◌, Bool, true, false, none, some, List, [], ◌∷◌,
}
use zt_access_gateway.Audit
use zt_access_gateway.Audit.{
  AuditDecision, AuditEntry, Inserted, write_from, write_blocking, log, allow, deny,
}
use zt_access_gateway.Audit.Retries.{db_after, AllFail, FirstSuccess, log-allow}

abbrev scheduled : AuditEntry → List (Bool × ℕ) → Inserted (List (Bool × ℕ))
scheduled entry [] = record { db = []; written = true; took = 0 }
scheduled entry ((b, t) ∷ rest) = record { db = rest; written = b; took = t }

abbrev config : Audit.Config
config = record { wal_base_delay_ms = 10; wal_max_retries = 3 }

abbrev pub entry_with : AuditDecision → AuditEntry
entry_with d = record {
  user_id = "alice";
  resource = "/api/orders";
  action = "GET";
  decision = d;
  trust_score = some 200000;
  ja4h_fingerprint = none;
  ip_address = "10.0.0.7";
  user_agent = none;
  event_type = none;
  request_id = some "r1";
}

abbrev second_try : List (Bool × ℕ)
second_try = (false, 4) ∷ (true, 5) ∷ (false, 6) ∷ []

abbrev outage : List (Bool × ℕ)
outage = (false, 4) ∷ (false, 5) ∷ (false, 6) ∷ (true, 1) ∷ []

second_try_elapsed : (log scheduled config (entry_with allow) second_try).elapsed ≡ 4 + 10 + 5
unfolding log write_blocking write_from
second_try_elapsed = refl

log-allow_example :
    (AllFail scheduled config (entry_with allow) 3 second_try
      × ((log scheduled config (entry_with allow) second_try).exhausted ≡ true)
      × ((log scheduled config (entry_with allow) second_try).db
          ≡ db_after scheduled config (entry_with allow) 3 second_try))
    ⊎ ((i : ℕ) × (i < 3)
        × FirstSuccess scheduled config (entry_with allow) i second_try
        × ((log scheduled config (entry_with allow) second_try).exhausted ≡ false)
        × ((log scheduled config (entry_with allow) second_try).db
            ≡ db_after scheduled config (entry_with allow) (suc i) second_try))
log-allow_example = log-allow scheduled config (entry_with allow) second_try refl

allow_differs : deny ≢ allow
allow_differs e = cc
