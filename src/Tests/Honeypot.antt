-- ===== src/Tests/Honeypot.antt =====
-- A visit to a decoy, with a hash that keeps its text.
use zt_access_gateway.Common.{
  ℕ, ◌+◌, ◌-◌, ◌*◌, ◌/◌, String, ◌≡◌, refl, true, false, none, some, List, [], ◌∷◌, arith, ltb,
}
use zt_access_gateway.JsMap.{get}
use zt_access_gateway.Request.{Request, lookup, honeypot_paths, contains}
use zt_access_gateway.Audit.{AuditEntry, Inserted, Config}
use zt_access_gateway.Stores.Fingerprints.{is_blacklisted}
use zt_access_gateway.Policy.Evaluator.{TrustContext}
use zt_access_gateway.Trust.{Floats, Telemetry}
use zt_access_gateway.Trust.Score.{evaluate_score}
use zt_access_gateway.Trust.Signals.{TrustConfig}
use zt_access_gateway.Honeypot.{
  RawRequest, header_names, join, compute_ja4h, ja4h_middleware, on_module_init, TrapState,
  trap_and_respond, next, forbidden_after,
}
use zt_access_gateway.Honeypot.Blocked.{Visit, visit_all, trap_and_respond-blocked, tests}

abbrev scanner_request : Request
scanner_request = record {
  method = "GET";
  original_url = "/.env";
  headers = ("accept", "*/*") ∷ [];
  remote_address = some "10.9.9.9";
  ja4h = none;
  user = none;
  gateway_validated = false;
  trust_score = none;
}

abbrev scanner : RawRequest
scanner = record {
  request = scanner_request;
  raw_headers = "Host" ∷ "gw" ∷ "Accept" ∷ "*/*" ∷ [];
  http_version = some "1.1";
}

abbrev scanner_fp : String
scanner_fp = "GET|1.1|Host,Accept|*/*|"

fingerprinted : compute_ja4h (λ s. s) scanner ≡ scanner_fp
unfolding compute_ja4h header_names join lookup
fingerprinted = refl

routes_match : on_module_init honeypot_paths ≡ some tt
unfolding on_module_init contains
routes_match = refl

abbrev insert_row : AuditEntry → ℕ → Inserted ℕ
insert_row entry n = record { db = n + 1; written = true; took = 3 }

abbrev audit_config : Config
audit_config = record { wal_base_delay_ms = 10; wal_max_retries = 2 }

abbrev floats : Floats ℕ
floats = record {
  of_nat = λ n. n;
  add = λ a b. a + b;
  sub = λ a b. a - b;
  mul = λ a b. a * b;
  div = λ a b. a / b;
  sqrt = λ a. a;
  exp = λ a. 1;
  abs = λ a. a;
  less = ltb;
  to_micro = λ a. a * 1000000;
}

abbrev trust_config : TrustConfig
trust_config = record {
  known_threshold = 2;
  decay_half_life_ms = 1000;
  anomaly_warmup_n = 10;
  frequency_window_ms = 60000;
  frequency_normal_max = 30;
}

abbrev no_rows : Telemetry ℕ
no_rows = record { signals = []; activity = [] }

abbrev start_state : TrapState ℕ
start_state = record {
  store = record { blacklist = []; emitted = [] };
  triggers = 0;
  events = [];
  db = 0;
}

abbrev named_request : Request
named_request = record scanner_request { ja4h = some scanner_fp }

admitted :
    ja4h_middleware (λ s. s) scanner 1000 start_state.store
    ≡ (next named_request, start_state.store)
unfolding ja4h_middleware compute_ja4h header_names join lookup is_blacklisted get
admitted = refl

abbrev visits : List Visit
visits = tests "other" 1500 ∷ tests scanner_fp 2000 ∷ []

abbrev scanner_context : TrustContext
scanner_context = record {
  user_id = "alice";
  device_id = "phone";
  ip = "10.9.9.9";
  ja4h = scanner_fp;
}

trap_and_respond-blocked_example :
    let trapped =
      (trap_and_respond insert_row audit_config 5000 false 1000 named_request "/.env"
        start_state).1 in
    let store = visit_all 5000 trapped.store visits in
    ((ja4h_middleware (λ s. s) scanner 3000 store).0 ≡ forbidden_after 2000 5000)
    × ((evaluate_score floats trust_config scanner_context 3000 (λ n. true) no_rows store).score
        ≡ 1000000)
unfolding compute_ja4h header_names join lookup
trap_and_respond-blocked_example =
    trap_and_respond-blocked insert_row audit_config floats trust_config (λ s. s) scanner scanner
      5000 1000 3000 false "/.env" start_state visits scanner_context (λ n. true) no_rows
      {req = named_request} {admitted = start_state.store} admitted refl refl (omega arith)
      ((omega arith, omega arith), ((omega arith, omega arith), tt))
