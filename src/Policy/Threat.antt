-- ===== src/Policy/Threat.antt =====
-- src/policy/threat-escalation.service.ts, with the gauge and the transition counter of
-- policy-metrics.ts. Times are milliseconds of the injected clock; thresholds are in millionths.
pub mod Window
pub mod Cooldown
pub mod Consistency
use zt_access_gateway.Common.{
  ℕ, zero, suc, ◌+◌, ◌-◌, ◌/◌, Bool, true, false, not, ◌&&◌, Option, none, some, List, [], ◌∷◌,
  ◌++◌, ltb, leb, nat_eq, if◌then◌else◌, length, drop,
}

pub data ThreatLevel : Type 0 where
  normal elevated critical : ThreatLevel

pub data SignalType : Type 0 where
  policy_deny auth_invalid_token honeypot_trigger : SignalType
  mfa_failed mfa_rate_limited audit_signal : SignalType

pub record WindowEvent : Type 0 where
  pub ts : ℕ
  pub type : SignalType

pub record Config : Type 0 where
  pub challenge_threshold : ℕ
  pub deny_threshold : ℕ
  pub elevated_challenge_threshold : ℕ
  pub elevated_deny_threshold : ℕ
  pub critical_challenge_threshold : ℕ
  pub critical_deny_threshold : ℕ
  pub threat_window_ms : ℕ
  pub threat_window_max_events : ℕ
  pub threat_elevated_denies : ℕ
  pub threat_critical_denies : ℕ
  pub threat_elevated_invalid_tokens : ℕ
  pub threat_critical_invalid_tokens : ℕ
  pub threat_elevated_honeypot : ℕ
  pub threat_critical_honeypot : ℕ
  pub threat_elevated_mfa_rate_limited : ℕ
  pub threat_critical_mfa_rate_limited : ℕ
  pub threat_cooldown_ms : ℕ

pub record Threat : Type 0 where
  pub events : List WindowEvent
  pub level : ThreatLevel
  pub last_transition_at : ℕ
  pub last_signal_at : ℕ
  pub manual_override : Option ThreatLevel
  -- `zt_gateway_threat_level`: the level whose gauge is 1.
  pub gauge : ThreatLevel
  -- `zt_gateway_threat_transitions_total`, the latest first.
  pub transitions : List (ThreatLevel × ThreatLevel)

unfoldable pub init : ℕ → Threat
init now = record {
  events = [];
  level = normal;
  last_transition_at = now;
  last_signal_at = now;
  manual_override = none;
  gauge = normal;
  transitions = [];
}

-- `order` of `recomputeLevel`.
abbrev pub order : ThreatLevel → ℕ
order normal = 0
order elevated = 1
order critical = 2

abbrev pub same_type : SignalType → SignalType → Bool
same_type policy_deny policy_deny = true
same_type auth_invalid_token auth_invalid_token = true
same_type honeypot_trigger honeypot_trigger = true
same_type mfa_failed mfa_failed = true
same_type mfa_rate_limited mfa_rate_limited = true
same_type audit_signal audit_signal = true
same_type _ _ = false

-- `countByType()[type] ?? 0`.
unfoldable pub count_type : SignalType → List WindowEvent → ℕ
count_type type [] = 0
count_type type (e ∷ rest) = (if same_type e.type type then 1 else 0) + count_type type rest

abbrev pub effective_level : Threat → ThreatLevel
effective_level st = elim st.manual_override [ none ↦ st.level | some l ↦ l ]

unfoldable pub transition_to : ThreatLevel → ℕ → Bool → Threat → Threat
transition_to next now manual st =
    if nat_eq (order st.level) (order next) && not manual then st else record st {
      level = next;
      last_transition_at = now;
      gauge = next;
      transitions = (st.level, next) ∷ st.transitions;
    }

-- `ts < now - threatWindowMs`, where the right side may be negative.
abbrev pub is_stale : Config → ℕ → WindowEvent → Bool
is_stale cfg now e = ltb (e.ts + cfg.threat_window_ms) now

-- The stale events at the front go.
unfoldable pub evict : Config → ℕ → List WindowEvent → List WindowEvent
evict cfg now [] = []
evict cfg now (e ∷ rest) =
    let later = evict cfg now rest in if is_stale cfg now e then later else e ∷ rest

abbrev pub push_if : Bool → ThreatLevel → List ThreatLevel → List ThreatLevel
push_if true l ls = l ∷ ls
push_if false l ls = ls

unfoldable pub candidates : Config → List WindowEvent → List ThreatLevel
candidates cfg es =
    let denies = count_type policy_deny es in
    let tokens = count_type auth_invalid_token es in
    let honeypot = count_type honeypot_trigger es in
    let limited = count_type mfa_rate_limited es in
    normal
    ∷ push_if (leb cfg.threat_elevated_denies denies) elevated (
        push_if (leb cfg.threat_elevated_invalid_tokens tokens) elevated (
          push_if (leb cfg.threat_elevated_honeypot honeypot) elevated (
            push_if (leb cfg.threat_critical_denies denies) critical (
              push_if (leb cfg.threat_critical_invalid_tokens tokens) critical (
                push_if (leb cfg.threat_critical_honeypot honeypot) critical (
                  push_if (leb cfg.threat_elevated_mfa_rate_limited limited) elevated
                    (push_if (leb cfg.threat_critical_mfa_rate_limited limited) critical [])))))))

unfoldable pub highest : ThreatLevel → List ThreatLevel → ThreatLevel
highest next [] = next
highest next (cand ∷ rest) = highest (if ltb (order next) (order cand) then cand else next) rest

unfoldable pub recompute_level : Config → ℕ → Threat → Threat
unfolding transition_to
recompute_level cfg now st = elim st.manual_override [
  | some l ↦ st
  | none ↦
      let es = evict cfg now st.events in
      let next = highest normal (candidates cfg es) in
      let st' = record st { events = es } in
      if nat_eq (order next) (order st.level) then st' else transition_to next now false st'
]

-- The hard cap: the oldest events above `threatWindowMaxEvents` go.
unfoldable pub capped : Config → List WindowEvent → List WindowEvent
capped cfg es =
    if ltb cfg.threat_window_max_events (length es)
    then drop (length es - cfg.threat_window_max_events) es
    else es

-- `record(type)`, which each of the six event handlers calls.
unfoldable pub record_signal : Config → ℕ → SignalType → Threat → Threat
record_signal cfg now type st = recompute_level cfg now (record st {
  events = evict cfg now (capped cfg (st.events ++ record { ts = now; type = type } ∷ []));
  last_signal_at = now;
})

-- The loop of `maybeCooldown`: one level down for each step, until normal.
unfoldable pub step_down : ℕ → ℕ → Threat → Threat
unfolding transition_to
step_down zero now st = st
step_down (suc steps) now st = elim st.level [
  | critical ↦ step_down steps now (transition_to elevated now false st)
  | elevated ↦ step_down steps now (transition_to normal now false st)
  | normal ↦ st
]

abbrev pub steps_elapsed : Config → ℕ → Threat → ℕ
steps_elapsed cfg now st = (now - st.last_transition_at) / cfg.threat_cooldown_ms

unfoldable pub maybe_cooldown : Config → ℕ → Threat → Threat
unfolding step_down
maybe_cooldown cfg now st = elim st.manual_override [
  | some l ↦ st
  | none ↦
      if ltb now (st.last_signal_at + cfg.threat_cooldown_ms)
      then st
      else step_down (steps_elapsed cfg now st) now st
]

abbrev pub challenge_at : Config → ThreatLevel → ℕ
challenge_at cfg normal = cfg.challenge_threshold
challenge_at cfg elevated = cfg.elevated_challenge_threshold
challenge_at cfg critical = cfg.critical_challenge_threshold

abbrev pub deny_at : Config → ThreatLevel → ℕ
deny_at cfg normal = cfg.deny_threshold
deny_at cfg elevated = cfg.elevated_deny_threshold
deny_at cfg critical = cfg.critical_deny_threshold

unfoldable pub current_challenge_threshold : Config → ℕ → Threat → ℕ × Threat
current_challenge_threshold cfg now st =
    let st' = maybe_cooldown cfg now st in (challenge_at cfg (effective_level st'), st')

unfoldable pub current_deny_threshold : Config → ℕ → Threat → ℕ × Threat
current_deny_threshold cfg now st =
    let st' = maybe_cooldown cfg now st in (deny_at cfg (effective_level st'), st')

unfoldable pub set_manual_level : ThreatLevel → ℕ → Threat → Threat
unfolding transition_to
set_manual_level l now st =
    let st' = record st { manual_override = some l } in
    if nat_eq (order st.level) (order l) then st' else transition_to l now true st'

unfoldable pub clear_manual_level : Config → ℕ → Threat → Threat
clear_manual_level cfg now st =
    recompute_level cfg now (maybe_cooldown cfg now (record st { manual_override = none }))

pub record Snapshot : Type 0 where
  pub level : ThreatLevel
  pub since : ℕ
  pub signal_counts : SignalType → ℕ
  pub challenge : ℕ
  pub deny : ℕ
  pub override : Option ThreatLevel

-- The fields are computed in the order in which they are written: the level before the thresholds.
unfoldable pub snapshot : Config → ℕ → Threat → Snapshot × Threat
unfolding current_challenge_threshold current_deny_threshold
snapshot cfg now st =
    let (challenge, st') = current_challenge_threshold cfg now st in
    let (deny, st'') = current_deny_threshold cfg now st' in
    (
      record {
        level = effective_level st;
        since = st.last_transition_at;
        signal_counts = λ type. count_type type st.events;
        challenge = challenge;
        deny = deny;
        override = st''.manual_override;
      },
      st'',
    )
