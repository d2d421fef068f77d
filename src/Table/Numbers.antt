-- ===== src/Table/Numbers.antt =====
-- What GcomFindFreePortNumber finds.
use ghostcom.Base.{
  ℕ, zero, suc, ◌+◌, ◌≤◌, ◌<◌, ◌≡◌, refl, arith, ◌⊎◌, inl, inr, Bool, true, false, Bool-cases,
}
use ghostcom.Base.{◌==◌, ==_iff, ◌∙◌, sym, ap}
use ghostcom.Status.{Status}
use ghostcom.Table.{Driver, is_taken, scan, find_free_port_number}

-- The least candidate from `first` on, `left` of them, that is not taken; 0 if all are.
abbrev pub IsLeastFree : (ℕ → Bool) → ℕ → ℕ → ℕ → Type 0
IsLeastFree taken first left n =
    ((n ≡ 0) × ((c : ℕ) → first ≤ c → c < first + left → taken c ≡ true))
    ⊎ ((first ≤ n)
        × (n < first + left)
        × (taken n ≡ false)
        × ((c : ℕ) → first ≤ c → c < n → taken c ≡ true))

-- A range has its first candidate and those from the next on.
from_first :
    (taken : ℕ → Bool) (first stop : ℕ)
    → taken first ≡ true
    → ((c : ℕ) → first + 1 ≤ c → c < stop → taken c ≡ true)
    → (c : ℕ) → first ≤ c
    → c < stop
    → taken c ≡ true
from_first taken first stop here later c low high = elim (Bool-cases (first == c)) [
  | inl e ↦ ap taken (sym ((==_iff first c).0 e)) ∙ here
  | inr e ↦ later c (ground arith) high
]

scan_next :
    (taken : ℕ → Bool) (left first n : ℕ)
    → taken first ≡ true
    → IsLeastFree taken (first + 1) left n
    → IsLeastFree taken first (suc left) n
scan_next taken left first n here (inl (e, all)) =
    inl (e, λ c low high. from_first taken first (first + 1 + left) here all c low (omega arith))
scan_next taken left first n here (inr (low, high, free, all)) =
    inr (omega arith, omega arith, free, from_first taken first n here all)

scan-IsLeastFree :
    (taken : ℕ → Bool) (left first : ℕ) → IsLeastFree taken first left (scan taken left first)
unfolding scan
scan-IsLeastFree taken zero first = inl (refl, λ c low high. absurd (omega arith))
scan-IsLeastFree taken (suc left) first = elim (Bool-cases (taken first)) [
  | inr free ↦
      rw (free, scan) (inr (omega arith, omega arith, free, λ c low high. absurd (omega arith)))
  | inl here ↦
      rw (here, scan) (scan_next taken left first _ here (scan-IsLeastFree taken left (first + 1)))
]

module _ {Queue : Type 0} (com_link comp_link : ℕ → Status) (d : Driver Queue) where
  -- GcomFindFreePortNumber gives the least number from 1 to 255 that no active pair has and no
  -- symbolic link of a COM port or a companion; it gives 0 if there is none.
  pub find_free_port_number-IsLeastFree :
      IsLeastFree (is_taken com_link comp_link d) 1 255 (find_free_port_number com_link comp_link d)
  unfolding find_free_port_number
  find_free_port_number-IsLeastFree = scan-IsLeastFree (is_taken com_link comp_link d) 255 1
