-- ===== src/Gateway/Stages/Pow.antt =====
-- src/gateway/pipeline/stages/hashcash.stage.ts: the proof-of-work gate.
use zt_access_gateway.Common.{
  ℕ, String, ◌||◌, Option, none, some, [], ◌∷◌, ◌==◌, concat, ltb, leb, if◌then◌else◌,
}
use zt_access_gateway.Request.{UserClaims, lookup, header, or_else}
use zt_access_gateway.Hashcash.Service.{VerifyResult, text_length, verified, rejected}
use zt_access_gateway.Gateway.{
  Runtime, Services, Ctx, World, called, Ran, Stage, returning, raising, other_error,
  challenge_issued, solution_verified, text, number, error_body, continue_on, short_circuit,
}

module _ {Json St : Type 0} (sv : Services Json St) (rt : Runtime Json) where
  -- The closure `issue`.
  unfoldable pub issue : UserClaims → ℕ → String → Ctx Json → World St → Ran Json St
  issue user n err c w =
      let (ch, st) = sv.issue_challenge user.user_id user.device_id n w.services in
      returning
        (short_circuit 429
          (error_body err
            (("nonce", text ch.nonce)
              ∷ ("difficulty", number ch.difficulty)
              ∷ ("expiresAt", number ch.expires_at)
              ∷ [])
            c.request_id)
          (("X-Hashcash-Challenge", concat ch.nonce (concat ":" (rt.show ch.difficulty)))
            ∷ ("Retry-After", "1")
            ∷ []))
        c (called (challenge_issued ch) st w)

  unfoldable pub pow_answer :
      UserClaims → ℕ → String → String → Ctx Json → World St → VerifyResult × St → Ran Json St
  unfolding issue
  pow_answer user n nonce solution c w (verified d, st) =
      returning continue_on c (called (solution_verified nonce solution n (verified d)) st w)
  pow_answer user n nonce solution c w (rejected reason, st) =
      issue user n "proof_of_work_invalid" c
        (called (solution_verified nonce solution n (rejected reason)) st w)

  -- Above the threshold, which is one half where none is set.
  unfoldable pub pow_required : UserClaims → ℕ → Stage Json St
  unfolding pow_answer issue lookup
  pow_required user n c w =
      let nonce = or_else (header "x-hashcash-nonce" c.request) "" in
      let solution = or_else (header "x-hashcash-solution" c.request) "" in
      if nonce == "" || solution == ""
      then issue user n "proof_of_work_required" c w
      else if ltb 256 (text_length solution) || ltb (text_length solution) 1
      then issue user n "proof_of_work_invalid" c w
      else pow_answer user n nonce solution c w
          (sv.verify_solution nonce solution n user.user_id user.device_id w.services)

  unfoldable pub trigger_of : Option ℕ → ℕ
  trigger_of none = 500000
  trigger_of (some n) = n

  unfoldable pub hashcash : Option ℕ → Stage Json St
  unfolding pow_required trigger_of
  hashcash trigger c w = elim c.claims [
    | none ↦ raising (other_error "HashcashStage: ctx.claims missing") c w
    | some user ↦ elim c.trust_score [
      | none ↦ raising (other_error "HashcashStage: ctx.trustScore missing") c w
      | some n ↦
          if leb n (trigger_of trigger) then returning continue_on c w else pow_required user n c w
    ]
  ]
