-- ===== src/Entry/PortName.antt =====
-- How often a child's PortName is written.
use ghostcom.Base.{
  ℕ, suc, ◌≡◌, refl, sym, ap, subst, inl, inr, ◌⊎◌, true, false, not, ◌&&◌, either_way,
  if◌then◌else◌, List, [], ◌∷◌, some,
}
use ghostcom.Status.{nt_success}
use ghostcom.Entry.{
  Pdo, KeyCalls, PnpIrp, query_id, other_irp, write_port_name, pdo_pnp_preprocess_irp,
}

-- The routine on one IRP after the other.
unfoldable pub preprocess_all : List (KeyCalls × PnpIrp) → Pdo → Pdo
preprocess_all [] pdo = pdo
preprocess_all ((calls, irp) ∷ irps) pdo =
    preprocess_all irps (pdo_pnp_preprocess_irp calls irp pdo)

-- The flag tells of the one write, and that the name is the port's.
pub record IsOnce (number : ℕ) (pdo : Pdo) : Type 0 where
  pub numbered : pdo.port_number ≡ number
  pub told :
      ((pdo.port_name_written ≡ false) × (pdo.writes ≡ 0))
      ⊎ ((pdo.port_name_written ≡ true) × (pdo.writes ≡ 1) × (pdo.port_name ≡ some number))

write_port_name-IsOnce :
    (number : ℕ) (calls : KeyCalls) (pdo : Pdo)
    → pdo.port_number ≡ number
    → pdo.port_name_written ≡ false
    → pdo.writes ≡ 0
    → IsOnce number (write_port_name calls pdo)
unfolding write_port_name
write_port_name-IsOnce number calls pdo numbered unwritten never =
    let kept : IsOnce number pdo = record { numbered = numbered; told = inl (unwritten, never) } in
    either_way (IsOnce number) (nt_success calls.open_key && calls.has_handle)
      (either_way (IsOnce number) (nt_success calls.format)
        (either_way (IsOnce number) (nt_success calls.set_value)
          (record { numbered = numbered; told = inr (refl, ap suc never, ap some numbered) }) kept)
        kept)
      kept

irp-IsOnce :
    (number : ℕ) (calls : KeyCalls) (irp : PnpIrp) (pdo : Pdo)
    → IsOnce number pdo
    → IsOnce number (pdo_pnp_preprocess_irp calls irp pdo)
unfolding pdo_pnp_preprocess_irp
irp-IsOnce number calls other_irp pdo i = i
irp-IsOnce number calls query_id pdo i = elim i.told [
  | inr (written, once, name) ↦
      subst (λ b. IsOnce number (if not b then write_port_name calls pdo else pdo)) (sym written) i
  | inl (unwritten, never) ↦
      either_way (IsOnce number) (not pdo.port_name_written)
        (write_port_name-IsOnce number calls pdo i.numbered unwritten never) i
]

-- Through any sequence of IRPs to a child GcomPdoPnpPreprocessIrp sets PortName at most once,
-- the flag is set exactly if it has, and the name is then the child's port number.
pub preprocess_all-IsOnce :
    (irps : List (KeyCalls × PnpIrp)) (number : ℕ) (pdo : Pdo)
    → IsOnce number pdo
    → IsOnce number (preprocess_all irps pdo)
unfolding preprocess_all
preprocess_all-IsOnce [] number pdo i = i
preprocess_all-IsOnce ((calls, irp) ∷ irps) number pdo i =
    preprocess_all-IsOnce irps number _ (irp-IsOnce number calls irp pdo i)
