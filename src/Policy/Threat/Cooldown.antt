-- ===== src/Policy/Threat/Cooldown.antt =====
-- src/policy/threat-escalation.service.ts: the cooldown that a read of the thresholds applies.
use zt_access_gateway.Common.{
  ℕ, zero, suc, ◌+◌, ◌-◌, ◌/◌, ◌<◌, ◌≡◌, refl, ◌⊎◌, inl, inr, false, none, some, arith, ltb,
  if◌then◌else◌,
}
use zt_access_gateway.Policy.Threat.{
  Config, Threat, order, effective_level, transition_to, step_down, steps_elapsed, maybe_cooldown,
  challenge_at, deny_at, snapshot, normal, elevated,
}

step_down-order : (n now : ℕ) (st : Threat) → order (step_down n now st).level ≡ order st.level - n
unfolding step_down
step_down-order zero now st = omega arith
step_down-order (suc n) now st = ground (
  arith,
  step_down-order n now (transition_to elevated now false st),
  step_down-order n now (transition_to normal now false st),
)

-- A step changes the time of the last transition if it changes anything.
step_down-time :
    (n now : ℕ) (st : Threat)
    → (step_down n now st ≡ st) ⊎ ((step_down n now st).last_transition_at ≡ now)
unfolding step_down
step_down-time zero now st = inl refl
step_down-time (suc n) now st = ground (
  arith,
  step_down-time n now (transition_to elevated now false st),
  step_down-time n now (transition_to normal now false st),
)

step_down-others :
    (n now : ℕ) (st : Threat)
    → ((step_down n now st).events ≡ st.events)
      × ((step_down n now st).last_signal_at ≡ st.last_signal_at)
      × ((step_down n now st).manual_override ≡ st.manual_override)
unfolding step_down
step_down-others zero now st = (refl, refl, refl)
step_down-others (suc n) now st = ground (
  arith,
  step_down-others n now (transition_to elevated now false st),
  step_down-others n now (transition_to normal now false st),
)

-- How many levels a read at `now` may go down: none under an override, or while the last signal
-- is younger than the cooldown; else one for each cooldown since the last transition.
abbrev pub allowed_steps : Config → ℕ → Threat → ℕ
allowed_steps cfg now st = elim st.manual_override [
  | some l ↦ 0
  | none ↦
      if ltb now (st.last_signal_at + cfg.threat_cooldown_ms) then 0 else steps_elapsed cfg now st
]

-- A read of the thresholds lowers the level by exactly the allowed steps, not below normal, and
-- touches neither the events, nor the time of the last signal, nor the override.
pub maybe_cooldown-order :
    (cfg : Config) (now : ℕ) (st : Threat)
    → (order (maybe_cooldown cfg now st).level ≡ order st.level - allowed_steps cfg now st)
      × ((maybe_cooldown cfg now st).events ≡ st.events)
      × ((maybe_cooldown cfg now st).last_signal_at ≡ st.last_signal_at)
      × ((maybe_cooldown cfg now st).manual_override ≡ st.manual_override)
unfolding maybe_cooldown
maybe_cooldown-order cfg now st = ground (
  arith,
  step_down-order (steps_elapsed cfg now st) now st,
  step_down-others (steps_elapsed cfg now st) now st,
)

step_down-zero : (n now : ℕ) (st : Threat) → n ≡ 0 → step_down n now st ≡ st
unfolding step_down
step_down-zero zero now st h = refl
step_down-zero (suc n) now st h = absurd (omega arith)

no_time : (t now d : ℕ) → t ≡ now → (now - t) / d ≡ 0
no_time t now d h = omega arith

step_down_idem :
    (cfg : Config) (now : ℕ) (st : Threat)
    → let st' = step_down (steps_elapsed cfg now st) now st in
      step_down (steps_elapsed cfg now st') now st' ≡ st'
step_down_idem cfg now st = elim (step_down-time (steps_elapsed cfg now st) now st) [
  | inl same ↦ rw same same
  | inr moved ↦ step_down-zero _ now _ (no_time _ now cfg.threat_cooldown_ms moved)
]

-- Reading twice at one time is reading once.
pub maybe_cooldown_idem :
    (cfg : Config) (now : ℕ) (st : Threat)
    → maybe_cooldown cfg now (maybe_cooldown cfg now st) ≡ maybe_cooldown cfg now st
unfolding maybe_cooldown
maybe_cooldown_idem cfg now st =
    ground (arith, step_down-others (steps_elapsed cfg now st) now st, step_down_idem cfg now st)

-- The snapshot answers with the level and its time from before the cooldown, and with thresholds
-- from after it: they are the thresholds of the level that the read has just moved to.
pub snapshot_thresholds :
    (cfg : Config) (now : ℕ) (st : Threat)
    → let (s, st') = snapshot cfg now st in
      (s.level ≡ effective_level st)
      × (s.since ≡ st.last_transition_at)
      × (s.challenge ≡ challenge_at cfg (effective_level st'))
      × (s.deny ≡ deny_at cfg (effective_level st'))
      × (st' ≡ maybe_cooldown cfg now st)
unfolding snapshot
snapshot_thresholds cfg now st = rw (maybe_cooldown_idem cfg now st) (refl, refl, refl, refl, refl)

-- So a snapshot that is taken when a cooldown step is due, above the normal level and with no
-- override, reports a level that is strictly higher than the one whose thresholds it reports.
pub snapshot_lags :
    (cfg : Config) (now : ℕ) (st : Threat)
    → 0 < allowed_steps cfg now st
    → 0 < order st.level
    → let (s, st') = snapshot cfg now st in
      (order (effective_level st') < order s.level)
      × (s.challenge ≡ challenge_at cfg (effective_level st'))
snapshot_lags cfg now st due high =
    let (level, since, challenge, deny, same) = snapshot_thresholds cfg now st in
    let cooled = maybe_cooldown-order cfg now st in (ground (arith, level, same, cooled), challenge)
