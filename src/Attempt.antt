-- ===== src/Attempt.antt =====
-- Calls that may fail, one after the other: a C function that returns the first failing status.
use ghostcom.Base.{Bool, true, false, ◌≡◌, refl, inl, inr, Bool-cases, if◌then◌else◌}
use ghostcom.Status.{Status, nt_success, success, insufficient_resources}

abbrev pub Attempt : Type 0 → Type 0
Attempt S = S → Status × S

-- A call with its outcome: what a success does to the state, and what is done after a failure
-- before the function returns.
unfoldable pub call_else : {S : Type 0} → Status → (S → S) → (S → S) → Attempt S
call_else st good bad s = elim (nt_success st) [ true ↦ (st, good s) | false ↦ (st, bad s) ]

-- A call whose failure is returned as it is.
abbrev pub call : {S : Type 0} → Status → (S → S) → Attempt S
call st good = call_else st good (λ s. s)

-- The status of an allocation.
abbrev pub given : Bool → Status
given b = if b then success else insufficient_resources

-- The rest is done after a success; a failure is the result.
unfoldable pub go_on : {S : Type 0} → Attempt S → Status × S → Status × S
go_on rest (st, s) = elim (nt_success st) [ true ↦ rest s | false ↦ (st, s) ]

infixr 4 ◌>>◌
abbrev pub ◌>>◌ : {S : Type 0} → Attempt S → Attempt S → Attempt S
◌>>◌ first rest s = go_on rest (first s)

module _ {S : Type 0} where
  call_else_good :
      (st : Status) (good bad : S → S) (s : S)
      → nt_success st ≡ true
      → call_else st good bad s ≡ (st, good s)
  unfolding call_else
  call_else_good st good bad s worked = rw (worked, call_else) refl

  call_else_bad :
      (st : Status) (good bad : S → S) (s : S)
      → nt_success st ≡ false
      → call_else st good bad s ≡ (st, bad s)
  unfolding call_else
  call_else_bad st good bad s failed = rw (failed, call_else) refl

  pub go_on_good :
      (rest : Attempt S) (st : Status) (s : S) → nt_success st ≡ true → go_on rest (st, s) ≡ rest s
  unfolding go_on
  go_on_good rest st s worked = rw (worked, go_on) refl

  pub go_on_bad :
      (rest : Attempt S) (st : Status) (s : S)
      → nt_success st ≡ false
      → go_on rest (st, s) ≡ (st, s)
  unfolding go_on
  go_on_bad rest st s failed = rw (failed, go_on) refl

  -- What holds after the first call fails, and after the rest if it does not, holds of both.
  pub call-then :
      (P : Status × S → Type 0) (st : Status) (good bad : S → S) (rest : Attempt S) (s : S)
      → (nt_success st ≡ false → P (st, bad s))
      → (nt_success st ≡ true → P (rest (good s)))
      → P (go_on rest (call_else st good bad s))
  call-then P st good bad rest s failed worked = elim (Bool-cases (nt_success st)) [
    | inl h ↦ rw (call_else_good st good bad s h, go_on_good rest st (good s) h) (worked h)
    | inr h ↦ rw (call_else_bad st good bad s h, go_on_bad rest st (bad s) h) (failed h)
  ]
