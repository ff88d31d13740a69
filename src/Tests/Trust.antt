-- ===== src/Tests/Trust.antt =====
-- Runs of src/trust-score with natural numbers for floats, whose exponential is always 1.
use zt_access_gateway.Common.{
  ℕ, suc, ◌+◌, ◌-◌, ◌*◌, ◌/◌, ◌≤◌, ◌≡◌, refl, Bool, true, List, [], ◌∷◌, arith, ltb, if◌then◌else◌,
}
use zt_access_gateway.JsMap.{get}
use zt_access_gateway.Int.{◌+ℤ◌}
use zt_access_gateway.Stores.Fingerprints.{FingerprintStore, is_terminal}
use zt_access_gateway.Policy.Evaluator.{TrustContext}
use zt_access_gateway.Trust.{
  Floats, Telemetry, get_signal_row, sum_allows_for_user_ip, count_allows_for_user_device_ip,
  record_allow_outcome, count_activity_since,
}
use zt_access_gateway.Trust.Score.{clamped, phase1, signals_of, evaluate_score}
use zt_access_gateway.Trust.Signals.{
  TrustConfig, minus, device_reputation, evaluate_rule, ja4h_drift, behavior_anomaly, attenuate,
}
use zt_access_gateway.Trust.Range.{evaluate_score-range}
use zt_access_gateway.Trust.Learning.{
  Outcome, record_all, IsCounted, record_allow_outcome-counts, record_all-device_known,
}

abbrev floats : Floats ℕ
floats = record {
  of_nat = λ n. n;
  add = λ a b. a + b;
  sub = λ a b. a - b;
  mul = λ a b. a * b;
  div = λ a b. a / b;
  sqrt = λ a. a;
  exp = λ a. 1;
  abs = λ a. a;
  less = ltb;
  to_micro = λ a. a * 1000000;
}

abbrev config : TrustConfig
config = record {
  known_threshold = 2;
  decay_half_life_ms = 1000;
  anomaly_warmup_n = 10;
  frequency_window_ms = 60000;
  frequency_normal_max = 30;
}

abbrev phone : TrustContext
phone = record { user_id = "alice"; device_id = "phone"; ip = "10.0.0.7"; ja4h = "fp" }

abbrev no_rows : Telemetry ℕ
no_rows = record { signals = []; activity = [] }

abbrev open_store : FingerprintStore
open_store = record { blacklist = []; emitted = [] }

-- A client without a history scores 0.65.
newcomer : (evaluate_score floats config phone 5000 (λ n. true) no_rows open_store).score ≡ 650000
unfolding evaluate_score signals_of phase1 evaluate_rule ja4h_drift behavior_anomaly attenuate
    clamped is_terminal get get_signal_row sum_allows_for_user_ip count_allows_for_user_device_ip
    count_activity_since ◌+ℤ◌
newcomer = refl

evaluate_score-range_example :
    let score = (evaluate_score floats config phone 5000 (λ n. true) no_rows open_store).score in
    (50000 ≤ score)
    × (score ≤ 1000000)
    × ((is_terminal "fp" 5000 open_store).0 ≡ true → score ≡ 1000000)
evaluate_score-range_example =
    evaluate_score-range floats config phone 5000 (λ n. true) no_rows open_store

record_allow_outcome-counts_example :
    let after = record_allow_outcome floats phone 300000 5000 5001 no_rows in
    let one = λ (b : Bool) (n : ℕ). if b then suc n else n in
    IsCounted floats after.signals
    × (count_allows_for_user_device_ip "alice" "phone" "10.0.0.7" after.signals
        ≡ one true (count_allows_for_user_device_ip {F = ℕ} "alice" "phone" "10.0.0.7" []))
    × (sum_allows_for_user_ip "alice" "10.0.0.7" after.signals
        ≡ one true (sum_allows_for_user_ip {F = ℕ} "alice" "10.0.0.7" []))
    × (count_activity_since "alice" 4000 after.activity
        ≡ one true (count_activity_since "alice" 4000 []))
record_allow_outcome-counts_example =
    record_allow_outcome-counts floats phone 300000 5000 5001 no_rows "alice" "phone" "10.0.0.7"
      4000 (omega arith) tt

abbrev outcomes : List Outcome
outcomes =
    (phone, 300000, 1000, 1001)
    ∷ (record phone { device_id = "laptop" }, 300000, 2000, 2001)
    ∷ (phone, 300000, 3000, 3001)
    ∷ []

record_all-device_known_example :
    (evaluate_rule device_reputation (record_all floats outcomes no_rows) config phone 4000).delta
    ≡ minus 150000
record_all-device_known_example = record_all-device_known floats config outcomes phone 4000
