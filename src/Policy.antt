-- ===== src/Policy.antt =====
-- src/policy: the threat level (threat-escalation.service.ts), the decision on a request
-- (policy-evaluator.service.ts) and the names it is made on (policy-subject.util.ts).
pub mod Rules
pub mod Threat
pub mod Evaluator
