-- ===== src/Policy/Threat/Window.antt =====
-- src/policy/threat-escalation.service.ts: the sliding window of signals and the level it gives.
use zt_access_gateway.Common.{
  ℕ, zero, suc, ◌+◌, ◌-◌, ◌≤◌, ◌≡◌, refl, sym, ap, ◌∙◌, inl, inr, Bool, true, false, ◌||◌, none,
  some, List, [], ◌∷◌, ◌++◌, arith, ltb, leb, if◌then◌else◌, Bool-cases, length, drop, length-drop,
  All,
}
use zt_access_gateway.Policy.Threat.{
  ThreatLevel, SignalType, WindowEvent, Config, Threat, count_type, is_stale, evict, push_if,
  candidates, highest, recompute_level, capped, record_signal, normal, elevated, critical,
  policy_deny, auth_invalid_token, honeypot_trigger, mfa_rate_limited,
}

-- The level by the counts, stated at once: critical if some count reaches its critical threshold.
abbrev pub severity : Config → List WindowEvent → ThreatLevel
severity cfg es =
    let denies = count_type policy_deny es in
    let tokens = count_type auth_invalid_token es in
    let honeypot = count_type honeypot_trigger es in
    let limited = count_type mfa_rate_limited es in
    if leb cfg.threat_critical_denies denies
      || (leb cfg.threat_critical_invalid_tokens tokens
          || (leb cfg.threat_critical_honeypot honeypot
              || leb cfg.threat_critical_mfa_rate_limited limited))
    then critical
    else if leb cfg.threat_elevated_denies denies
        || (leb cfg.threat_elevated_invalid_tokens tokens
            || (leb cfg.threat_elevated_honeypot honeypot
                || leb cfg.threat_elevated_mfa_rate_limited limited))
    then elevated
    else normal

abbrev any_critical : List ThreatLevel → Bool
any_critical [] = false
any_critical (critical ∷ ls) = true
any_critical (_ ∷ ls) = any_critical ls

abbrev any_elevated : List ThreatLevel → Bool
any_elevated [] = false
any_elevated (elevated ∷ ls) = true
any_elevated (_ ∷ ls) = any_elevated ls

highest-any :
    (next : ThreatLevel) (ls : List ThreatLevel)
    → highest next ls ≡ (
        if any_critical (next ∷ ls)
        then critical
        else if any_elevated (next ∷ ls)
        then elevated
        else normal)
unfolding highest
highest-any normal [] = refl
highest-any elevated [] = refl
highest-any critical [] = refl
highest-any normal (normal ∷ ls) = highest-any normal ls
highest-any normal (elevated ∷ ls) = highest-any elevated ls
highest-any normal (critical ∷ ls) = highest-any critical ls
highest-any elevated (normal ∷ ls) = highest-any elevated ls
highest-any elevated (elevated ∷ ls) = highest-any elevated ls
highest-any elevated (critical ∷ ls) = highest-any critical ls
highest-any critical (normal ∷ ls) = highest-any critical ls
highest-any critical (elevated ∷ ls) = highest-any critical ls
highest-any critical (critical ∷ ls) = highest-any critical ls

any-push_if_critical :
    (b : Bool) (ls : List ThreatLevel)
    → (any_critical (push_if b critical ls) ≡ b || any_critical ls)
      × (any_elevated (push_if b critical ls) ≡ any_elevated ls)
any-push_if_critical true ls = (refl, refl)
any-push_if_critical false ls = (refl, refl)

any-push_if_elevated :
    (b : Bool) (ls : List ThreatLevel)
    → (any_critical (push_if b elevated ls) ≡ any_critical ls)
      × (any_elevated (push_if b elevated ls) ≡ b || any_elevated ls)
any-push_if_elevated true ls = (refl, refl)
any-push_if_elevated false ls = (refl, refl)

or_false : (b : Bool) → (b || false) ≡ b
or_false true = refl
or_false false = refl

critical_push :
    (b : Bool) (ls : List ThreatLevel) → any_critical (push_if b critical ls) ≡ b || any_critical ls
critical_push b ls = (any-push_if_critical b ls).0

critical_skip :
    (b : Bool) (ls : List ThreatLevel) → any_critical (push_if b elevated ls) ≡ any_critical ls
critical_skip b ls = (any-push_if_elevated b ls).0

elevated_push :
    (b : Bool) (ls : List ThreatLevel) → any_elevated (push_if b elevated ls) ≡ b || any_elevated ls
elevated_push b ls = (any-push_if_elevated b ls).1

elevated_skip :
    (b : Bool) (ls : List ThreatLevel) → any_elevated (push_if b critical ls) ≡ any_elevated ls
elevated_skip b ls = (any-push_if_critical b ls).1

ruleset pushes = (critical_push, critical_skip, elevated_push, elevated_skip, or_false)

pub highest-candidates :
    (cfg : Config) (es : List WindowEvent) → highest normal (candidates cfg es) ≡ severity cfg es
unfolding candidates
highest-candidates cfg es = rw highest-any (simp pushes)

-- Signals stand in the order of their times.
abbrev pub IsSorted : List WindowEvent → Type 0
IsSorted [] = Unit
IsSorted (e ∷ rest) = All (λ f. e.ts ≤ f.ts) rest × IsSorted rest

module _ (P : WindowEvent → Type 0) where
  All-drop : (n : ℕ) (es : List WindowEvent) → All P es → All P (drop n es)
  All-drop zero es h = h
  All-drop (suc n) [] h = h
  All-drop (suc n) (e ∷ es) h = All-drop n es h.1

  All-concat : (es : List WindowEvent) (e : WindowEvent) → All P es → P e → All P (es ++ e ∷ [])
  All-concat [] e h p = (p, tt)
  All-concat (f ∷ es) e h p = (h.0, All-concat es e h.1 p)

  All-map :
      {Q : WindowEvent → Type 0} (imp : (e : WindowEvent) → P e → Q e) (es : List WindowEvent)
      → All P es
      → All Q es
  All-map imp [] h = tt
  All-map imp (e ∷ es) h = (imp e h.0, All-map imp es h.1)

IsSorted-drop : (n : ℕ) (es : List WindowEvent) → IsSorted es → IsSorted (drop n es)
IsSorted-drop zero es h = h
IsSorted-drop (suc n) [] h = h
IsSorted-drop (suc n) (e ∷ es) h = IsSorted-drop n es h.1

IsSorted-concat :
    (es : List WindowEvent) (e : WindowEvent)
    → IsSorted es
    → All (λ f. f.ts ≤ e.ts) es
    → IsSorted (es ++ e ∷ [])
IsSorted-concat [] e h p = (tt, tt)
IsSorted-concat (f ∷ es) e h p =
    (All-concat (λ g. f.ts ≤ g.ts) es e h.0 p.0, IsSorted-concat es e h.1 p.1)

module _ (cfg : Config) (now : ℕ) where
  -- `evict` gives back an end of the list.
  evict-drop : (es : List WindowEvent) → (n : ℕ) × (evict cfg now es ≡ drop n es)
  unfolding evict
  evict-drop [] = (0, refl)
  evict-drop (e ∷ es) = elim (Bool-cases (is_stale cfg now e)) [
    | inl old ↦ let (n, same) = evict-drop es in (suc n, rw old same)
    | inr new ↦ (0, rw new)
  ]

  abbrev pub IsFresh : WindowEvent → Type 0
  IsFresh e = now ≤ e.ts + cfg.threat_window_ms

  evict-IsFresh : (es : List WindowEvent) → IsSorted es → All IsFresh (evict cfg now es)
  unfolding evict
  evict-IsFresh [] h = tt
  evict-IsFresh (e ∷ es) h = elim (Bool-cases (is_stale cfg now e)) [
    | inl old ↦ rw old (evict-IsFresh es h.1)
    | inr new ↦
        let first : IsFresh e = ground arith in
        rw new (
          first,
          All-map (λ f. e.ts ≤ f.ts) {Q = IsFresh} (λ f le. omega (arith, first, le)) es h.0,
        )
  ]

-- The window at a time: in order, past, and within the cap.
pub record IsWindow (cfg : Config) (now : ℕ) (es : List WindowEvent) : Type 0 where
  pub sorted : IsSorted es
  pub past : All (λ e. e.ts ≤ now) es
  pub bounded : length es ≤ cfg.threat_window_max_events

evict-IsWindow :
    (cfg : Config) (t now : ℕ) (es : List WindowEvent)
    → IsWindow cfg t es
    → IsWindow cfg t (evict cfg now es)
evict-IsWindow cfg t now es w =
    let (n, same) = evict-drop cfg now es in
    rw same (record {
      sorted = IsSorted-drop n es w.sorted;
      past = All-drop (λ e. e.ts ≤ t) n es w.past;
      bounded = omega (arith, w.bounded, length-drop {0} n es);
    })

capped-IsWindow :
    (cfg : Config) (now : ℕ) (es : List WindowEvent)
    → IsSorted es
    → All (λ e. e.ts ≤ now) es
    → IsWindow cfg now (capped cfg es)
unfolding capped
capped-IsWindow cfg now es s p = elim (Bool-cases (ltb cfg.threat_window_max_events (length es))) [
  | inl over ↦
      let n = length es - cfg.threat_window_max_events in
      rw over (record {
        sorted = IsSorted-drop n es s;
        past = All-drop (λ e. e.ts ≤ now) n es p;
        bounded = omega (arith, length-drop {0} n es);
      })
  | inr fits ↦ rw fits (record { sorted = s; past = p; bounded = ground arith })
]

pushed-IsWindow :
    (cfg : Config) (t now : ℕ) (type : SignalType) (es : List WindowEvent)
    → IsWindow cfg t es
    → t ≤ now
    → IsWindow cfg now (capped cfg (es ++ record { ts = now; type = type } ∷ []))
pushed-IsWindow cfg t now type es w le =
    let e : WindowEvent = record { ts = now; type = type } in
    let past : All (λ f. f.ts ≤ now) es =
      All-map (λ f. f.ts ≤ t) {Q = λ f. f.ts ≤ now} (λ f h. omega (arith, h, le)) es w.past in
    capped-IsWindow cfg now (es ++ e ∷ []) (IsSorted-concat es e w.sorted past)
      (All-concat (λ f. f.ts ≤ now) es e past (omega arith))

evict_idem :
    (cfg : Config) (now : ℕ) (es : List WindowEvent)
    → evict cfg now (evict cfg now es) ≡ evict cfg now es
unfolding evict
evict_idem cfg now [] = refl
evict_idem cfg now (e ∷ es) = elim (Bool-cases (is_stale cfg now e)) [
  | inl old ↦ rw old (evict_idem cfg now es)
  | inr new ↦ rw new (rw new refl)
]

-- The level after a signal: by the counts, unless an override holds the level.
abbrev pub level_after : Config → Threat → List WindowEvent → ThreatLevel
level_after cfg st es = elim st.manual_override [ none ↦ severity cfg es | some l ↦ st.level ]

events-recompute_level :
    (cfg : Config) (now : ℕ) (st : Threat)
    → evict cfg now st.events ≡ st.events
    → ((recompute_level cfg now st).events ≡ st.events)
      × ((recompute_level cfg now st).level ≡ level_after cfg st st.events)
unfolding recompute_level
events-recompute_level cfg now st same =
    ground (arith, same, highest-candidates cfg (evict cfg now st.events))

-- A signal leaves a window that is in order of time, not in the future, within the hard cap, and
-- holds only events that are not older than the window length; with no manual override the level
-- is the severity of the counts per type in that window, and under one it does not move.
pub record_signal-IsWindow :
    (cfg : Config) (t now : ℕ) (type : SignalType) (st : Threat)
    → IsWindow cfg t st.events
    → t ≤ now
    → let st' = record_signal cfg now type st in
      IsWindow cfg now st'.events
      × All (IsFresh cfg now) st'.events
      × (st'.level ≡ level_after cfg st st'.events)
unfolding record_signal
record_signal-IsWindow cfg t now type st w le =
    let e : WindowEvent = record { ts = now; type = type } in
    let kept = capped cfg (st.events ++ e ∷ []) in
    let window = pushed-IsWindow cfg t now type st.events w le in
    let start : Threat = record st { events = evict cfg now kept; last_signal_at = now } in
    let (same, level) = events-recompute_level cfg now start (evict_idem cfg now kept) in
    (
      rw same (evict-IsWindow cfg now now kept window),
      rw same (evict-IsFresh cfg now kept window.sorted),
      level ∙ ap (level_after cfg st) (sym same),
    )
