-- ===== src/Trust/Score.antt =====
-- src/trust-score/trust-score.service.ts. `up` tells which of the queries of a call, counted from 0
-- in the order of their sources, the database answers; one that it does not answer throws.
use zt_access_gateway.Common.{
  ℕ, ◌+◌, ◌-◌, String, Bool, false, List, [], ◌∷◌, ◌++◌, concat, ltb, if◌then◌else◌,
}
use zt_access_gateway.Int.{pos_part, neg_part, pos}
use zt_access_gateway.Policy.Evaluator.{TrustContext}
use zt_access_gateway.Trust.{Floats, Telemetry}
use zt_access_gateway.Stores.Fingerprints.{FingerprintStore, is_terminal}
use zt_access_gateway.Trust.Signals.{
  TrustConfig, SignalAdjustment, TrustEvent, Signal, device_reputation, ip_reputation,
  request_frequency, evaluate_rule, ja4h_drift, behavior_anomaly, attenuate, trust_provider_fault,
}

unfoldable pub fault_adjustment : String → Signal
fault_adjustment source = (
  record {
    source = source;
    delta = pos 100000;
    reason = concat source "_fault";
    decayable = false;
  },
  trust_provider_fault source ∷ [],
)

-- A source whose query threw is replaced by its fault.
abbrev pub or_fault : Bool → String → Signal → Signal
or_fault answered source signal = if answered then signal else fault_adjustment source

abbrev pub delta_up : List SignalAdjustment → ℕ
delta_up [] = 0
delta_up (a ∷ rest) = pos_part a.delta + delta_up rest

abbrev pub delta_down : List SignalAdjustment → ℕ
delta_down [] = 0
delta_down (a ∷ rest) = neg_part a.delta + delta_down rest

-- `Math.min(1, Math.max(0, 0.5 + deltaSum))`
unfoldable pub clamped : List SignalAdjustment → ℕ
clamped adjustments =
    let raw = 500000 + delta_up adjustments - delta_down adjustments in
    if ltb 1000000 raw then 1000000 else raw

abbrev pub adjustments_of : List Signal → List SignalAdjustment
adjustments_of [] = []
adjustments_of (s ∷ rest) = s.0 ∷ adjustments_of rest

abbrev pub events_of : List Signal → List TrustEvent
events_of [] = []
events_of (s ∷ rest) = s.1 ++ events_of rest

pub record Evaluated : Type 0 where
  pub score : ℕ
  pub events : List TrustEvent
  pub store : FingerprintStore

module _ {F : Type 0} (fl : Floats F) (cfg : TrustConfig) where
  unfoldable pub phase1 : Telemetry F → TrustContext → ℕ → (ℕ → Bool) → List Signal
  phase1 tables ctx now up =
      or_fault (up 0) "device_reputation" (evaluate_rule device_reputation tables cfg ctx now, [])
      ∷ or_fault (up 1) "ip_reputation" (evaluate_rule ip_reputation tables cfg ctx now, [])
      ∷ or_fault (up 2) "request_frequency" (evaluate_rule request_frequency tables cfg ctx now, [])
      ∷ or_fault (up 3) "ja4h_drift" (ja4h_drift tables ctx)
      ∷ or_fault (up 4) "behavior_anomaly" (behavior_anomaly fl tables cfg ctx now, [])
      ∷ []

  unfoldable pub signals_of : Telemetry F → TrustContext → ℕ → (ℕ → Bool) → List Signal
  signals_of tables ctx now up =
      let first = phase1 tables ctx now up in
      let decay = attenuate fl tables cfg ctx now (adjustments_of first) in
      first ++ (or_fault (up 5) "trust_decay" (decay, []) ∷ [])

  -- A terminal fingerprint scores 1 without a query.
  unfoldable pub evaluate_score :
      TrustContext → ℕ → (ℕ → Bool) → Telemetry F → FingerprintStore → Evaluated
  evaluate_score ctx now up tables store =
      let (terminal, store') = is_terminal ctx.ja4h now store in
      let signals = signals_of tables ctx now up in
      if terminal then record { score = 1000000; events = []; store = store' } else record {
        score = clamped (adjustments_of signals);
        events = events_of signals;
        store = store';
      }
