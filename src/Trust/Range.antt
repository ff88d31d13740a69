-- ===== src/Trust/Range.antt =====
-- src/trust-score: the range of a score, and what the time since the last request takes from it.
use native.Mathlib.Nat.{mul-le-mul_left}
use zt_access_gateway.Common.{
  ℕ, ◌+◌, ◌-◌, ◌*◌, ◌/◌, ◌≤◌, String, ◌≡◌, refl, Bool, true, false, List, [], ◌∷◌, arith,
  if◌then◌else◌,
}
use zt_access_gateway.Int.{neg_part}
use zt_access_gateway.Stores.Fingerprints.{FingerprintStore, is_terminal}
use zt_access_gateway.Policy.Evaluator.{TrustContext}
use zt_access_gateway.Trust.{Floats, Telemetry}
use zt_access_gateway.Trust.Score.{
  fault_adjustment, or_fault, delta_down, clamped, adjustments_of, phase1, signals_of,
  evaluate_score,
}
use zt_access_gateway.Trust.Signals.{
  TrustConfig, SignalAdjustment, Signal, SignalRule, correction, device_reputation, ip_reputation,
  request_frequency, evaluate_rule, ja4h_drift, behavior_anomaly, attenuate,
}

-- What the decayable adjustments of a list take off the score.
abbrev pub favourable : List SignalAdjustment → ℕ
favourable [] = 0
favourable (a ∷ rest) = (if a.decayable then neg_part a.delta else 0) + favourable rest

taken_mono : (n k k' : ℕ) → k ≤ k' → n * (1000000 - k') / 1000000 ≤ n * (1000000 - k) / 1000000
taken_mono n k k' h =
    let le : n * (1000000 - k') ≤ n * (1000000 - k) = mul-le-mul_left n (omega (arith, h)) in
    omega (arith, le)

correction_mono :
    (k k' : ℕ) (adjustments : List SignalAdjustment)
    → k ≤ k'
    → correction k' adjustments ≤ correction k adjustments
unfolding correction
correction_mono k k' [] h = omega arith
correction_mono k k' (a ∷ rest) h =
    let part = taken_mono (neg_part a.delta) k k' h in
    ground (arith, part, correction_mono k k' rest h)

correction-ends :
    (adjustments : List SignalAdjustment)
    → (correction 1000000 adjustments ≡ 0) × (correction 0 adjustments ≡ favourable adjustments)
unfolding correction
correction-ends [] = (refl, refl)
correction-ends (a ∷ rest) =
    let (none_left, all_left) = correction-ends rest in
    (ground (arith, none_left), ground (arith, all_left))

-- The time since the last request only takes from what favourable reputation gave: nothing at no
-- time (a factor of 1), more the smaller the factor, and all of it at a factor of 0. It never
-- gives anything.
pub correction-favourable :
    (k k' : ℕ) (adjustments : List SignalAdjustment)
    → k ≤ k'
    → k' ≤ 1000000
    → (correction k' adjustments ≤ correction k adjustments)
      × (correction k adjustments ≤ favourable adjustments)
      × (correction 1000000 adjustments ≡ 0)
      × (correction 0 adjustments ≡ favourable adjustments)
correction-favourable k k' adjustments h top =
    let (nothing, all) = correction-ends adjustments in
    (
      correction_mono k k' adjustments h,
      omega (arith, all, correction_mono 0 k adjustments (omega arith)),
      nothing,
      all,
    )

module _ {F : Type 0} (fl : Floats F) (cfg : TrustConfig) where
  rule_down :
      (rule : SignalRule F) (tables : Telemetry F) (ctx : TrustContext) (now b : ℕ)
      → neg_part rule.when_met.0 ≤ b
      → neg_part rule.when_unmet.0 ≤ b
      → neg_part (evaluate_rule rule tables cfg ctx now).delta ≤ b
  unfolding evaluate_rule
  rule_down rule tables ctx now b met unmet = ground arith

  drift_down :
      (tables : Telemetry F) (ctx : TrustContext) → neg_part (ja4h_drift tables ctx).0.delta ≤ 50000
  unfolding ja4h_drift
  drift_down tables ctx = ground arith

  anomaly_down :
      (tables : Telemetry F) (ctx : TrustContext) (now : ℕ)
      → neg_part (behavior_anomaly fl tables cfg ctx now).delta ≡ 0
  unfolding behavior_anomaly
  anomaly_down tables ctx now = ground arith

  decay_down :
      (tables : Telemetry F) (ctx : TrustContext) (now : ℕ) (past : List SignalAdjustment)
      → neg_part (attenuate fl tables cfg ctx now past).delta ≡ 0
  unfolding attenuate
  decay_down tables ctx now past = ground arith

  or_fault_down :
      (answered : Bool) (source : String) (signal : Signal) (b : ℕ)
      → neg_part signal.0.delta ≤ b
      → neg_part (or_fault answered source signal).0.delta ≤ b
  unfolding fault_adjustment
  or_fault_down true source signal b h = h
  or_fault_down false source signal b h = omega arith

  phase1_down :
      (tables : Telemetry F) (ctx : TrustContext) (now : ℕ) (up : ℕ → Bool)
      → delta_down (adjustments_of (signals_of fl cfg tables ctx now up)) ≤ 450000
  unfolding signals_of phase1
  phase1_down tables ctx now up = omega (
    arith,
    or_fault_down (up 0) "device_reputation"
        (evaluate_rule device_reputation tables cfg ctx now, []) 150000
        (rule_down device_reputation tables ctx now 150000 (omega arith) (omega arith)),
    or_fault_down (up 1) "ip_reputation" (evaluate_rule ip_reputation tables cfg ctx now, []) 150000
        (rule_down ip_reputation tables ctx now 150000 (omega arith) (omega arith)),
    or_fault_down (up 2) "request_frequency"
        (evaluate_rule request_frequency tables cfg ctx now, []) 100000
        (rule_down request_frequency tables ctx now 100000 (omega arith) (omega arith)),
    or_fault_down (up 3) "ja4h_drift" (ja4h_drift tables ctx) 50000 (drift_down tables ctx),
    or_fault_down (up 4) "behavior_anomaly" (behavior_anomaly fl tables cfg ctx now, []) 0
        (omega (arith, anomaly_down tables ctx now)),
    or_fault_down (up 5) "trust_decay"
        (attenuate fl tables cfg ctx now (adjustments_of (phase1 fl cfg tables ctx now up)), []) 0
        (omega
          (arith, decay_down tables ctx now (adjustments_of (phase1 fl cfg tables ctx now up)))),
  )

  -- A score is between 0.05 and 1, whatever the tables hold and whichever sources fail, and it is
  -- 1 where the fingerprint is blacklisted as terminal.
  pub evaluate_score-range :
      (ctx : TrustContext) (now : ℕ) (up : ℕ → Bool) (tables : Telemetry F)
      (store : FingerprintStore)
      → let score = (evaluate_score fl cfg ctx now up tables store).score in
        (50000 ≤ score)
        × (score ≤ 1000000)
        × ((is_terminal ctx.ja4h now store).0 ≡ true → score ≡ 1000000)
  unfolding evaluate_score clamped
  evaluate_score-range ctx now up tables store =
      let low = phase1_down tables ctx now up in (ground arith, ground arith, λ h. ground arith)
