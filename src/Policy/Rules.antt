-- ===== src/Policy/Rules.antt =====
-- src/policy/policy-evaluator.service.ts (`getRules`, `addRule`, `removeRule`) and
-- src/policy/policy-admin.controller.ts. Casbin's enforcer is a parameter with its own state. The
-- mutex runs the writers one after another, so each is one step.
use zt_access_gateway.Common.{ℕ, String, ◌≡◌, Bool, true, false, List, arith, if◌then◌else◌}
use zt_access_gateway.Policy.Threat.{
  ThreatLevel, Config, Threat, set_manual_level, clear_manual_level, Snapshot, snapshot,
}

pub record Rule : Type 0 where
  pub sub : String
  pub obj : String
  pub act : String

pub record Enforcer (St : Type 0) : Type 0 where
  pub get_policy : St → List Rule
  pub add_policy : Rule → St → Bool × St
  pub remove_policy : Rule → St → Bool × St
  pub save_policy : St → Bool × St

-- The answer of a writer: whether a rule changed, or the error that the file was not written.
pub data Changed : Type 0 where
  changed : Bool → Changed
  not_saved : Changed

module _ {St : Type 0} (enforcer : Enforcer St) where
  unfoldable pub get_rules : St → List Rule
  get_rules st = enforcer.get_policy st

  -- Saving after a change.
  unfoldable pub save_if : Bool × St → Changed × St
  save_if (b, st) =
      if b
      then (
        if (enforcer.save_policy st).0 then changed true else not_saved,
        (enforcer.save_policy st).1,
      )
      else (changed false, st)

  unfoldable pub add_rule : Rule → St → Changed × St
  add_rule rule st = save_if (enforcer.add_policy rule st)

  unfoldable pub remove_rule : Rule → St → Changed × St
  remove_rule rule st = save_if (enforcer.remove_policy rule st)

  save_if-not_saved :
      (p : Bool × St)
      → ((st' : St) → enforcer.get_policy (enforcer.save_policy st').1 ≡ enforcer.get_policy st')
      → (save_if p).0 ≡ not_saved
      → enforcer.get_policy (save_if p).1 ≡ enforcer.get_policy p.1
  unfolding save_if
  save_if-not_saved (true, st) keeps h = keeps st
  save_if-not_saved (false, st) keeps h = absurd (ground arith)

  -- A file that cannot be written is reported, but the rule stays changed in memory until the next
  -- start: the enforcer answers by it although the caller was told of an error.
  pub add_rule-not_saved :
      (rule : Rule) (st : St)
      → ((st' : St) → enforcer.get_policy (enforcer.save_policy st').1 ≡ enforcer.get_policy st')
      → (add_rule rule st).0 ≡ not_saved
      → get_rules (add_rule rule st).1 ≡ get_rules (enforcer.add_policy rule st).1
  unfolding add_rule get_rules
  add_rule-not_saved rule st keeps h = save_if-not_saved (enforcer.add_policy rule st) keeps h

-- The routes of the administration of the escalation level.
unfoldable pub get_escalation : Config → ℕ → Threat → Snapshot × Threat
unfolding snapshot
get_escalation cfg now t = snapshot cfg now t

unfoldable pub set_escalation : ThreatLevel → ℕ → Threat → ThreatLevel × Threat
unfolding set_manual_level
set_escalation level now t = (level, set_manual_level level now t)

unfoldable pub clear_escalation : Config → ℕ → Threat → Threat
unfolding clear_manual_level
clear_escalation cfg now t = clear_manual_level cfg now t
