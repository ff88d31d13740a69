-- ===== src/Trust/Signals.antt =====
-- src/trust-score/signal-rules.ts and providers. Deltas are integers of millionths.
use zt_access_gateway.Common.{
  ℕ, zero, suc, ◌+◌, ◌-◌, ◌*◌, ◌/◌, max, String, Bool, true, false, not, none, some, List, [], ◌∷◌,
  ◌==◌, ltb, leb, if◌then◌else◌, length,
}
use zt_access_gateway.Int.{ℤ, neg_part, sub_ℕ, pos}
use zt_access_gateway.Policy.Evaluator.{TrustContext}
use zt_access_gateway.Trust.{
  Floats, TrustSignalRow, Telemetry, utc_hour, pad, get_signal_row, sum_allows_for_user_ip,
  count_allows_for_user_device_ip, inst_rate, count_activity_since,
}

pub record TrustConfig : Type 0 where
  pub known_threshold : ℕ
  pub decay_half_life_ms : ℕ
  pub anomaly_warmup_n : ℕ
  pub frequency_window_ms : ℕ
  pub frequency_normal_max : ℕ

pub record SignalAdjustment : Type 0 where
  pub source : String
  pub delta : ℤ
  pub reason : String
  pub decayable : Bool

pub data TrustEvent : Type 0 where
  fingerprint_drift_detected : TrustEvent
  trust_provider_fault : String → TrustEvent

-- An adjustment with the events emitted on the way.
abbrev pub Signal : Type 0
Signal = SignalAdjustment × List TrustEvent

pub record SignalRule (F : Type 0) : Type 0 where
  pub name : String
  pub decayable : Bool
  pub query : Telemetry F → TrustContext → TrustConfig → ℕ → ℕ
  pub threshold : TrustConfig → ℕ
  -- `compare: 'gte'`, else `'gt'`.
  pub gte : Bool
  pub when_met : ℤ × String
  pub when_unmet : ℤ × String

-- Minus n millionths, for n above 0.
abbrev pub minus : ℕ → ℤ
minus n = sub_ℕ 0 n

abbrev pub slot : ℕ → List ℕ → ℕ
slot h [] = 0
slot zero (n ∷ hist) = n
slot (suc h) (n ∷ hist) = slot h hist

abbrev pub adjustment : String → ℤ → String → SignalAdjustment
adjustment source delta reason = record {
  source = source;
  delta = delta;
  reason = reason;
  decayable = false;
}

-- The sum of `delta * (k - 1)` over the favourable decayable adjustments, which is not negative.
unfoldable pub correction : ℕ → List SignalAdjustment → ℕ
correction k [] = 0
correction k (a ∷ rest) =
    let more = correction k rest in
    if a.decayable then neg_part a.delta * (1000000 - k) / 1000000 + more else more

module _ {F : Type 0} where
  abbrev pub device_reputation : SignalRule F
  device_reputation = record {
    name = "device_reputation";
    decayable = true;
    query = λ tables ctx cfg now.
        count_allows_for_user_device_ip ctx.user_id ctx.device_id ctx.ip tables.signals;
    threshold = λ cfg. cfg.known_threshold;
    gte = true;
    when_met = (minus 150000, "device_known");
    when_unmet = (pos 150000, "device_unknown");
  }

  abbrev pub ip_reputation : SignalRule F
  ip_reputation = record {
    name = "ip_reputation";
    decayable = true;
    query = λ tables ctx cfg now. sum_allows_for_user_ip ctx.user_id ctx.ip tables.signals;
    threshold = λ cfg. cfg.known_threshold;
    gte = true;
    when_met = (minus 150000, "ip_trusted");
    when_unmet = (pos 150000, "ip_untrusted");
  }

  abbrev pub request_frequency : SignalRule F
  request_frequency = record {
    name = "request_frequency";
    decayable = false;
    query = λ tables ctx cfg now.
        count_activity_since ctx.user_id (now - cfg.frequency_window_ms) tables.activity;
    threshold = λ cfg. cfg.frequency_normal_max;
    gte = false;
    when_met = (pos 200000, "frequency_burst");
    when_unmet = (minus 100000, "frequency_normal");
  }

  unfoldable pub evaluate_rule :
      SignalRule F → Telemetry F → TrustConfig → TrustContext → ℕ → SignalAdjustment
  evaluate_rule rule tables cfg ctx now =
      let value = rule.query tables ctx cfg now in
      let threshold = rule.threshold cfg in
      let matches = if rule.gte then leb threshold value else ltb threshold value in
      let outcome = if matches then rule.when_met else rule.when_unmet in
      record {
        source = rule.name;
        delta = outcome.0;
        reason = outcome.1;
        decayable = rule.decayable;
      }

  -- A row without a fingerprint is stable.
  unfoldable pub ja4h_drift : Telemetry F → TrustContext → Signal
  ja4h_drift tables ctx = elim (get_signal_row ctx.user_id ctx.device_id ctx.ip tables.signals) [
    | none ↦ (adjustment "ja4h_drift" (minus 50000) "ja4h_stable", [])
    | some row ↦ elim row.ja4h [
      | none ↦ (adjustment "ja4h_drift" (minus 50000) "ja4h_stable", [])
      | some fp ↦
          if not (fp == ctx.ja4h)
          then (adjustment "ja4h_drift" (pos 300000) "ja4h_drift", fingerprint_drift_detected ∷ [])
          else (adjustment "ja4h_drift" (minus 50000) "ja4h_stable", [])
    ]
  ]

  unfoldable pub sum_floats : Floats F → (ℕ → F) → List ℕ → F
  sum_floats fl f [] = fl.of_nat 0
  sum_floats fl f (n ∷ ns) = fl.add (f n) (sum_floats fl f ns)

  abbrev pub tiny : Floats F → F
  tiny fl = fl.div (fl.of_nat 1) (fl.of_nat 1000000000)

  -- How many deviations the hour's slot is from the mean of the histogram.
  unfoldable pub z_hour : Floats F → List ℕ → ℕ → F
  unfolding sum_floats
  z_hour fl hist hour =
      let n = fl.of_nat (max 1 (length hist)) in
      let mean = fl.div (sum_floats fl fl.of_nat hist) n in
      let off = λ (v : ℕ). fl.sub (fl.of_nat v) mean in
      let var = fl.div (sum_floats fl (λ v. fl.mul (off v) (off v)) hist) n in
      let std = fl.sqrt (fl.add var (tiny fl)) in
      if fl.less (fl.div (fl.of_nat 1) (fl.of_nat 1000000)) std
      then fl.abs (fl.div (off (slot hour hist)) std)
      else fl.of_nat 0

  -- How many deviations the rate of this request is from the running mean.
  unfoldable pub z_rate : Floats F → TrustSignalRow F → ℕ → F
  unfolding inst_rate
  z_rate fl row now =
      fl.div (fl.abs (fl.sub (inst_rate fl now row.last_seen_at) row.rate_ema))
        (fl.sqrt (fl.add row.rate_ema_var (tiny fl)))

  -- `Math.exp(-idleMs / halfLife)`
  unfoldable pub decay_factor : Floats F → ℕ → ℕ → F
  decay_factor fl idle_ms half_life_ms =
      fl.exp (fl.sub (fl.of_nat 0) (fl.div (fl.of_nat idle_ms) (fl.of_nat half_life_ms)))

  unfoldable pub behavior_anomaly :
      Floats F → Telemetry F → TrustConfig → TrustContext → ℕ → SignalAdjustment
  unfolding pad
  behavior_anomaly fl tables cfg ctx now =
      elim (get_signal_row ctx.user_id ctx.device_id ctx.ip tables.signals) [
        | none ↦ adjustment "behavior_anomaly" (pos 0) "anomaly_warmup"
        | some row ↦
            if ltb row.allow_count cfg.anomaly_warmup_n
            then adjustment "behavior_anomaly" (pos 0) "anomaly_warmup"
            else let raw = fl.to_micro (
                fl.add (z_hour fl (pad 24 row.hour_histogram) (utc_hour now))
                  (z_rate fl row now)) in
              adjustment "behavior_anomaly" (pos (if ltb 400000 raw then 400000 else raw))
                "behavior_anomaly"
      ]

  unfoldable pub attenuate :
      Floats F
      → Telemetry F
      → TrustConfig
      → TrustContext
      → ℕ
      → List SignalAdjustment
      → SignalAdjustment
  unfolding correction
  attenuate fl tables cfg ctx now adjustments =
      elim (get_signal_row ctx.user_id ctx.device_id ctx.ip tables.signals) [
        | none ↦ adjustment "trust_decay" (pos 0) "trust_decay_none"
        | some row ↦
            let k = fl.to_micro (decay_factor fl (now - row.last_seen_at) cfg.decay_half_life_ms) in
            adjustment "trust_decay" (pos (correction k adjustments)) "trust_decay"
      ]
