-- ===== src/Proxy/Retry/Settled.antt =====
-- src/proxy/proxy.service.ts (`executeWithRetry`): which attempt decides.
use zt_access_gateway.Common.{
  ℕ, zero, suc, ◌+◌, ◌≤◌, ◌<◌, ◌≡◌, refl, ap, subst, ◌∙◌, ◌⊎◌, inl, inr, Bool, true, false, List,
  [], ◌∷◌, arith, Bool-cases,
}
use zt_access_gateway.Proxy.Retry.{
  AxiosOutcome, Retried, backoff, is_transient, settle, execute_from, execute_with_retry,
}

-- The waits before n further attempts.
abbrev pub waits : ℕ → ℕ → List ℕ
waits attempt zero = []
waits attempt (suc n) = backoff attempt ∷ waits (suc attempt) n

module _ {Body : Type 0} (axios : ℕ → AxiosOutcome Body) (max_retries : ℕ) where
  -- From an attempt on, the one that decides comes `tries` later, and every earlier one failed
  -- for a passing reason.
  pub record IsSettled (attempt left : ℕ) (r : Retried Body) : Type 0 where
    pub tries : ℕ
    pub bounded : tries ≤ left
    pub passing : (j : ℕ) → j < tries → is_transient (axios (attempt + j)) ≡ true
    pub final : (is_transient (axios (attempt + tries)) ≡ false) ⊎ (tries ≡ left)
    pub decided : r.outcome ≡ settle max_retries (axios (attempt + tries))
    pub counted : r.requests ≡ suc tries
    pub waited : r.sleeps ≡ waits attempt tries

  here :
      (attempt : ℕ) {b : Bool}
      → is_transient (axios attempt) ≡ b
      → is_transient (axios (attempt + 0)) ≡ b
  here attempt {b} h = subst (λ n. is_transient (axios n) ≡ b) (omega arith) h

  later :
      (left attempt : ℕ) (r : Retried Body)
      → is_transient (axios attempt) ≡ true
      → IsSettled (suc attempt) left r
      → IsSettled attempt (suc left) (record {
        outcome = r.outcome;
        sleeps = backoff attempt ∷ r.sleeps;
        requests = suc r.requests;
      })
  later left attempt r again rest =
      let shift : (j : ℕ) → suc attempt + j ≡ attempt + suc j = λ j. omega arith in
      record {
        tries = suc rest.tries;
        bounded = omega (arith, rest.bounded);
        passing = passing;
        final = elim rest.final [
          | inl stops ↦ inl (subst (λ n. is_transient (axios n) ≡ false) (shift rest.tries) stops)
          | inr all ↦ inr (ap suc all)
        ];
        decided = rest.decided ∙ ap (λ n. settle max_retries (axios n)) (shift rest.tries);
        counted = ap suc rest.counted;
        waited = ap (λ s. backoff attempt ∷ s) rest.waited;
      }
    where
      passing : (j : ℕ) → j < suc rest.tries → is_transient (axios (attempt + j)) ≡ true
      passing zero h = here attempt again
      passing (suc j) h =
          subst (λ n. is_transient (axios n) ≡ true) (omega arith)
            (rest.passing j (omega (arith, h)))

  execute_from-IsSettled :
      (left attempt : ℕ) → IsSettled attempt left (execute_from axios max_retries left attempt)
  unfolding execute_from
  execute_from-IsSettled zero attempt = record {
    tries = 0;
    bounded = omega arith;
    passing = λ j h. absurd (omega (arith, h));
    final = inr refl;
    decided = ap (λ n. settle max_retries (axios n)) (omega arith);
    counted = refl;
    waited = refl;
  }
  execute_from-IsSettled (suc left) attempt = elim (Bool-cases (is_transient (axios attempt))) [
    | inl again ↦
        let rest = execute_from-IsSettled left (suc attempt) in
        rw again (later left attempt (execute_from axios max_retries left (suc attempt)) again rest)
    | inr done ↦ rw done (record {
      tries = 0;
      bounded = omega arith;
      passing = λ j h. absurd (omega (arith, h));
      final = inl (here attempt done);
      decided = ap (λ n. settle max_retries (axios n)) (omega arith);
      counted = refl;
      waited = refl;
    })
  ]

  -- The loop returns the answer, or throws the error, of the first attempt that did not fail for a
  -- passing reason (a 502, 503 or 504, or a refused, reset or timed-out connection), or else of the
  -- last attempt that `maxRetries` allows. It makes that many requests and no more, and waits 100,
  -- 200, then 400 milliseconds between them.
  pub execute_with_retry-IsSettled : IsSettled 0 max_retries (execute_with_retry axios max_retries)
  unfolding execute_with_retry
  execute_with_retry-IsSettled = execute_from-IsSettled max_retries 0
