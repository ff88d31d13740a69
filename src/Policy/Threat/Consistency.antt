-- ===== src/Policy/Threat/Consistency.antt =====
-- src/policy/threat-escalation.service.ts and policy-metrics.ts: the level, the gauge, the counted
-- transitions and the override agree after any history of calls.
use zt_access_gateway.Common.{
  ℕ, zero, suc, ◌≡◌, refl, ap, subst, ◌∙◌, ◌≢◌, inl, inr, Bool, false, Option, none, some, List, [],
  ◌∷◌, arith, Option-cases,
}
use zt_access_gateway.Policy.Threat.{
  ThreatLevel, SignalType, Config, Threat, init, order, transition_to, recompute_level,
  record_signal, step_down, steps_elapsed, maybe_cooldown, current_challenge_threshold,
  set_manual_level, clear_manual_level, snapshot, normal, elevated,
}
use zt_access_gateway.Policy.Threat.Cooldown.{maybe_cooldown-order, snapshot_thresholds}

-- The counted transitions are one path from normal to the level.
abbrev pub IsPath : ThreatLevel → List (ThreatLevel × ThreatLevel) → Type 0
IsPath l [] = l ≡ normal
IsPath l ((from, to) ∷ older) = (to ≡ l) × (from ≢ to) × IsPath from older

abbrev pub Holds : Option ThreatLevel → ThreatLevel → Type 0
Holds none level = Unit
Holds (some l) level = level ≡ l

pub record IsConsistent (st : Threat) : Type 0 where
  pub gauge : st.gauge ≡ st.level
  pub path : IsPath st.level st.transitions
  pub held : Holds st.manual_override st.level

init-IsConsistent : (now : ℕ) → IsConsistent (init now)
unfolding init
init-IsConsistent now = record { gauge = refl; path = refl; held = tt }

-- What holds without the override's part.
abbrev IsTraced : Threat → Type 0
IsTraced st = (st.gauge ≡ st.level) × IsPath st.level st.transitions

transition_to-IsTraced :
    (next : ThreatLevel) (now : ℕ) (manual : Bool) (st : Threat)
    → order next ≢ order st.level
    → IsTraced st
    → IsTraced (transition_to next now manual st)
      × ((transition_to next now manual st).level ≡ next)
unfolding transition_to
transition_to-IsTraced next now manual st d h = ground arith

step_down-IsTraced : (n now : ℕ) (st : Threat) → IsTraced st → IsTraced (step_down n now st)
unfolding step_down
step_down-IsTraced zero now st h = h
step_down-IsTraced (suc n) now st h = ground (
  arith,
  step_down-IsTraced n now (transition_to elevated now false st),
  step_down-IsTraced n now (transition_to normal now false st),
)

maybe_cooldown-IsTraced :
    (cfg : Config) (now : ℕ) (st : Threat) → IsTraced st → IsTraced (maybe_cooldown cfg now st)
unfolding maybe_cooldown
maybe_cooldown-IsTraced cfg now st h =
    ground (arith, step_down-IsTraced (steps_elapsed cfg now st) now st)

recompute_level-IsTraced :
    (cfg : Config) (now : ℕ) (st : Threat)
    → IsTraced st
    → IsTraced (recompute_level cfg now st)
      × ((recompute_level cfg now st).manual_override ≡ st.manual_override)
unfolding recompute_level
recompute_level-IsTraced cfg now st h = ground arith

recompute_level-level :
    (cfg : Config) (now : ℕ) (st : Threat) {l : ThreatLevel}
    → st.manual_override ≡ some l
    → recompute_level cfg now st ≡ st
unfolding recompute_level
recompute_level-level cfg now st h = ground arith

traced : {st : Threat} → IsConsistent st → IsTraced st
traced h = (h.gauge, h.path)

-- A change that keeps the override, and the level under one, keeps consistency.
kept :
    (st st' : Threat)
    → IsConsistent st
    → IsTraced st'
    → st'.manual_override ≡ st.manual_override
    → ((l : ThreatLevel) → st.manual_override ≡ some l → st'.level ≡ st.level)
    → IsConsistent st'
kept st st' h t same level = record {
  gauge = t.0;
  path = t.1;
  held = elim (Option-cases st.manual_override) [
    | inl e ↦ rw (same, e) tt
    | inr (l, e) ↦
        let was : st.level ≡ l = subst (λ o. Holds o st.level) e h.held in
        rw (same, e) (level l e ∙ was)
  ];
}

-- A call of the service, at the time of the clock when it is made.
pub data Call : Type 0 where
  signals : SignalType → Call
  reads : Call
  sets : ThreatLevel → Call
  clears : Call
  snapshots : Call

unfoldable pub call : Config → Threat → ℕ × Call → Threat
call cfg st (now, signals type) = record_signal cfg now type st
call cfg st (now, reads) = (current_challenge_threshold cfg now st).1
call cfg st (now, sets l) = set_manual_level l now st
call cfg st (now, clears) = clear_manual_level cfg now st
call cfg st (now, snapshots) = (snapshot cfg now st).1

unfoldable pub call_all : Config → Threat → List (ℕ × Call) → Threat
call_all cfg st [] = st
call_all cfg st (c ∷ rest) = call_all cfg (call cfg st c) rest

maybe_cooldown-level :
    (cfg : Config) (now : ℕ) (st : Threat) {l : ThreatLevel}
    → st.manual_override ≡ some l
    → (maybe_cooldown cfg now st).level ≡ st.level
unfolding maybe_cooldown
maybe_cooldown-level cfg now st h = ground arith

maybe_cooldown-IsConsistent :
    (cfg : Config) (now : ℕ) (st : Threat)
    → IsConsistent st
    → IsConsistent (maybe_cooldown cfg now st)
maybe_cooldown-IsConsistent cfg now st h =
    kept st _ h (maybe_cooldown-IsTraced cfg now st (traced h)) (maybe_cooldown-order cfg now st).3
      (λ l e. maybe_cooldown-level cfg now st e)

recompute_level-IsConsistent :
    (cfg : Config) (now : ℕ) (st : Threat)
    → IsConsistent st
    → IsConsistent (recompute_level cfg now st)
recompute_level-IsConsistent cfg now st h =
    let (t, same) = recompute_level-IsTraced cfg now st (traced h) in
    kept st _ h t same (λ l e. ap (λ (s : Threat). s.level) (recompute_level-level cfg now st e))

set_manual_level-IsConsistent :
    (l : ThreatLevel) (now : ℕ) (st : Threat)
    → IsConsistent st
    → IsConsistent (set_manual_level l now st)
unfolding set_manual_level
set_manual_level-IsConsistent l now st h = ground (arith, h.gauge, h.path)

call-IsConsistent :
    (cfg : Config) (st : Threat) (c : ℕ × Call) → IsConsistent st → IsConsistent (call cfg st c)
unfolding call
call-IsConsistent cfg st (now, signals type) h =
    unfold record_signal in
    recompute_level-IsConsistent cfg now _ (kept st _ h (traced h) refl (λ l e. refl))
call-IsConsistent cfg st (now, reads) h =
    unfold current_challenge_threshold in maybe_cooldown-IsConsistent cfg now st h
call-IsConsistent cfg st (now, sets l) h = set_manual_level-IsConsistent l now st h
call-IsConsistent cfg st (now, clears) h =
    unfold clear_manual_level in
    recompute_level-IsConsistent cfg now _ (
      maybe_cooldown-IsConsistent cfg now (record st { manual_override = none })
        (record { gauge = h.gauge; path = h.path; held = tt }))
call-IsConsistent cfg st (now, snapshots) h =
    rw (snapshot_thresholds cfg now st).4 (maybe_cooldown-IsConsistent cfg now st h)

call_all-IsConsistent :
    (cfg : Config) (calls : List (ℕ × Call)) (st : Threat)
    → IsConsistent st
    → IsConsistent (call_all cfg st calls)
unfolding call_all
call_all-IsConsistent cfg [] st h = h
call_all-IsConsistent cfg (c ∷ rest) st h =
    call_all-IsConsistent cfg rest (call cfg st c) (call-IsConsistent cfg st c h)

-- After any history of signals, reads, manual settings, clearings and snapshots, at any times,
-- the gauge shows the level, the counted transitions are one path from normal to the level with
-- no step from a level to itself, and a manual override is the level.
pub history-IsConsistent :
    (cfg : Config) (start : ℕ) (calls : List (ℕ × Call))
    → IsConsistent (call_all cfg (init start) calls)
history-IsConsistent cfg start calls =
    call_all-IsConsistent cfg calls (init start) (init-IsConsistent start)
