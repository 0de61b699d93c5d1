-- ===== src/Submit/Halted.antt =====
-- Calls on a path that is halted (src/std0_quant/execution/exclusive_submit_path_v1.py).
use polymarket_quant.Common.{
  ℕ, ◌≤◌, ◌≡◌, refl, sym, ap, subst, ◌∙◌, ◌≢◌, ◌⊎◌, inl, inr, Bool, true, false, not, Option, none,
  some, List, [], ◌∷◌, lookup, Eq, same, nat_eq, arith, if◌then◌else◌, length,
}
use polymarket_quant.Numeric.{Result, ok, err, submit_conflict, submit_unavailable}
use polymarket_quant.Portfolio.{PortfolioState}
use polymarket_quant.Contracts.{OrderIntent, normalized, normalized_same}
use polymarket_quant.Ledger.{Digests, Ledger}
use polymarket_quant.Submit.{
  SubmitPolicy, SubmitReason, SubmitStatus, SubmitResult, SubmitPath, SubmitInput, HaltReason,
  Scenario,
}
use polymarket_quant.Submit.Path.{answer, repeated}
use polymarket_quant.Submit.Open.{open_path-cases}
use polymarket_quant.Submit.Call.{
  open_path, attempt, submit_locked, after_failure, submit, submit_all,
}

module _ {H : Type 0} where
  -- A call that does not get as far as the adapter.
  abbrev pub IsIdle : SubmitPath H → Result (SubmitResult H) × SubmitPath H → Type 0
  IsIdle p (r, q) = (q ≡ p) × (elim r [ ok a ↦ a.adapter_called ≡ false | err x ↦ Unit ])

  -- The id is consumed, or the path is halted.
  abbrev pub IsShut : ℕ → SubmitPath H → Type 0
  IsShut intent_id p = (lookup intent_id p.consumed_hashes ≢ none) ⊎ (p.halt_reason ≢ none)

module _ {H : Type 0} ⦃e : Eq H⦄ (digests : Digests H) (policy : SubmitPolicy) where
  -- What `submit` makes of what `_submit_locked` leaves.
  abbrev pub settled :
      Result (SubmitResult H) × SubmitPath H → Result (SubmitResult H) × SubmitPath H
  settled m = elim m.0 [ ok a ↦ (ok a, m.1) | err x ↦ (err x, after_failure digests policy x m.1) ]

  either-IsIdle :
      (b : Bool) (a : SubmitResult H) (p : SubmitPath H)
      → a.adapter_called ≡ false
      → IsIdle p (settled (if not b then (err submit_conflict, p) else (ok a, p)))
  either-IsIdle true a p h = (refl, h)
  either-IsIdle false a p h = (refl, tt)

  repeated-IsIdle :
      (i : OrderIntent) (old : H) (p : SubmitPath H) → IsIdle p (settled (repeated digests i old p))
  repeated-IsIdle i old p = either-IsIdle (same old (digests.of_intent i)) _ p refl

  locked-IsIdle :
      (io : SubmitInput) (i : OrderIntent) (p : SubmitPath H)
      → IsShut i.intent_id p
      → IsIdle p (settled (submit_locked digests policy io i p))
  unfolding submit_locked
  locked-IsIdle io i p shut =
      let none_of : Option H = none in
      let locked : Option H → Option HaltReason → Result (SubmitResult H) × SubmitPath H = λ o h.
        elim o [
          | some old ↦ repeated digests i old p
          | none ↦ elim h [
            | some h ↦
                answer digests i SubmitStatus.reconciliation_required (SubmitReason.halted h ∷ []) p
            | none ↦ attempt digests policy io i p
          ]
        ] in
      elim (lookup i.intent_id p.consumed_hashes)
          as (λ o.
            (o ≢ none) ⊎ (p.halt_reason ≢ none) → IsIdle p (settled (locked o p.halt_reason))) [
              | some old ↦ λ s. repeated-IsIdle i old p
              | none ↦ λ s.
                  elim p.halt_reason
                      as (λ h. (none_of ≢ none) ⊎ (h ≢ none) → IsIdle p (settled (locked none h))) [
                        | some h ↦ λ t. (refl, refl)
                        | none ↦ λ t. elim t [ inl a ↦ absurd (a refl) | inr a ↦ absurd (a refl) ]
                      ]
                    s
            ]
        shut

  -- A call whose id is consumed, or on a path that is halted, changes nothing at all, and its result, where
  -- it has one, says that the adapter was not called.
  pub shut_call-IsIdle :
      (io : SubmitInput) (i : OrderIntent) (p : SubmitPath H)
      → IsShut i.intent_id p
      → IsIdle p (submit digests policy io i p)
  unfolding submit
  shut_call-IsIdle io i p shut =
      elim p.closed
        as (λ b. IsIdle p (
          if b then (err submit_unavailable, p) else elim (normalized i) [
            | err x ↦ (err x, p)
            | ok j ↦ settled (submit_locked digests policy io j p)
          ])) [
            | true ↦ (refl, tt)
            | false ↦
                elim (normalized i)
                    as (λ n.
                      normalized i ≡ n
                      → IsIdle p (elim n [
                        | err x ↦ (err x, p)
                        | ok j ↦ settled (submit_locked digests policy io j p)
                      ])) [
                        | err x ↦ λ h. (refl, tt)
                        | ok j ↦ λ h.
                            locked-IsIdle io j p
                              (subst (λ k. IsShut k.intent_id p) (sym (normalized_same i h)) shut)
                      ]
                  refl
          ]

  halted_all :
      (cs : List (SubmitInput × OrderIntent)) (p : SubmitPath H)
      → p.halt_reason ≢ none
      → submit_all digests policy cs p ≡ p
  halted_all [] p h = refl
  halted_all (c ∷ cs) p h =
      ap (submit_all digests policy cs) (shut_call-IsIdle c.0 c.1 p (inr h)).0 ∙ halted_all cs p h

  abbrev IsHalted : Result (SubmitPath H) → Type 0
  IsHalted (err _) = Unit
  IsHalted (ok p) = (p.halt_reason ≢ none) × (p.requests ≡ [])

  -- A path that is opened on a ledger with records sends nothing: whatever calls follow, it stays as it was
  -- opened, with no request.
  pub recovered_sends_nothing :
      (unchanged : Bool) (l : Ledger H) (portfolio : PortfolioState) (scenario : Scenario)
      (p : SubmitPath H) (cs : List (SubmitInput × OrderIntent))
      → 1 ≤ length l.index.records
      → open_path unchanged l portfolio scenario ≡ ok p
      → (submit_all digests policy cs p ≡ p) × (p.requests ≡ [])
  recovered_sends_nothing unchanged l portfolio scenario p cs n h =
      let found : IsHalted (ok p) =
        subst IsHalted h (
          open_path-cases unchanged l portfolio scenario IsHalted (λ x. tt) (ground arith, refl)) in
      (halted_all cs p found.0, found.1)
