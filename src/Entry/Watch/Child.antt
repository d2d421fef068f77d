-- ===== src/Entry/Watch/Child.antt =====
-- driver/src/driver.c: GcomPdoPnpPreprocessIrp with the values that it writes for diagnosis, and
-- GcomPdoPnpCompletion. A child's PortName does not depend on those values.
use ghostcom.Base.{ℕ, ◌*◌, ◌%◌, ◌^◌, ◌≡◌, refl, Bool, true, false, not, ◌&&◌, bit_or}
use ghostcom.Base.{Bool-cases, inl, inr, if◌then◌else◌, List}
use ghostcom.Status.{Status, nt_success}
use ghostcom.Entry.{
  Pdo, KeyCalls, PnpIrp, query_id, other_irp, write_port_name, pdo_pnp_preprocess_irp,
}

-- Pdo_LastPnpMinor, Pdo_LastQueryIdType, Pdo_IoOpenRegKey_Status, Pdo_PortName_WriteStatus,
-- Pdo_PortName_Written, and Pdo_Query<tag>_Status and _InfoLow.
pub data ChildDiagName : Type 0 where
  last_pnp_minor last_query_id_type open_reg_key write_status written : ChildDiagName
  query_status query_info_low : ℕ → ChildDiagName

abbrev pub ChildDiag : Type 0
ChildDiag = List (ChildDiagName × ℕ)

-- An IRP that is not IRP_MJ_PNP, a PnP IRP by its minor function, or IRP_MN_QUERY_ID with its type.
pub data ChildIrp : Type 0 where
  no_pnp : ChildIrp
  pnp_minor pnp_query_id : ℕ → ChildIrp

-- IRP_MN_QUERY_ID
abbrev pub query_id_minor : ℕ
query_id_minor = 0x13

abbrev pub kind_of : ChildIrp → PnpIrp
kind_of no_pnp = other_irp
kind_of (pnp_minor minor) = other_irp
kind_of (pnp_query_id type) = query_id

-- The end of an IRP as the framework leaves it.
pub record ChildAnswer : Type 0 where
  pub information : ℕ
  pub io_status : Status
  pub dispatched : Status

-- `write` is GcomDiagWriteStatus.
module _ (write : ChildDiagName → ℕ → ChildDiag → ChildDiag) (code : Status → ℕ) where
  -- GcomPdoPnpCompletion
  unfoldable pub pdo_pnp_completion : ℕ → ChildAnswer → ChildDiag → ChildDiag
  pdo_pnp_completion tag answer diag =
      write (query_info_low tag) (answer.information % 2 ^ 32)
        (write (query_status tag) (code answer.io_status) diag)

  -- PortName is set in the device's registry key, with what is written of that.
  unfoldable pub note_port_name : KeyCalls → Pdo → ChildDiag → Pdo × ChildDiag
  note_port_name calls pdo diag =
      let tried = write open_reg_key (code calls.open_key) diag in
      if nt_success calls.open_key && calls.has_handle
      then if nt_success calls.format
        then (let noted = write write_status (code calls.set_value) tried in
            if nt_success calls.set_value
            then (write_port_name calls pdo, write written pdo.port_number noted)
            else (pdo, noted))
        else (pdo, tried)
      else (pdo, tried)

  -- GcomPdoPnpPreprocessIrp
  unfoldable pub note_child_irp :
      KeyCalls → ChildIrp → ChildAnswer → Pdo → ChildDiag → Status × Pdo × ChildDiag
  note_child_irp calls no_pnp answer pdo diag = (answer.dispatched, pdo, diag)
  note_child_irp calls (pnp_minor minor) answer pdo diag =
      (answer.dispatched, pdo, write last_pnp_minor minor diag)
  note_child_irp calls (pnp_query_id type) answer pdo diag =
      let asked = write last_query_id_type type (write last_pnp_minor query_id_minor diag) in
      let (pdo', noted) =
        if not pdo.port_name_written then note_port_name calls pdo asked else (pdo, asked) in
      (
        answer.dispatched,
        pdo',
        pdo_pnp_completion (bit_or (query_id_minor * 2 ^ 16) type) answer noted,
      )

  module _ (calls : KeyCalls) (pdo : Pdo) where
    note_port_name-write_port_name :
        (diag : ChildDiag) → (note_port_name calls pdo diag).0 ≡ write_port_name calls pdo
    unfolding note_port_name write_port_name
    note_port_name-write_port_name diag =
        elim (Bool-cases (nt_success calls.open_key && calls.has_handle)) [
          | inr shut ↦ rw shut refl
          | inl there ↦ elim (Bool-cases (nt_success calls.format)) [
            | inr long ↦ rw (there, long) refl
            | inl fits ↦ elim (Bool-cases (nt_success calls.set_value)) [
              | inr unset ↦ rw (there, fits, unset) refl
              | inl set ↦ rw (there, fits, set) refl
            ]
          ]
        ]

    -- With the values that are written, whatever becomes of them, the routine returns what the
    -- framework's dispatch returns, and the child is as `pdo_pnp_preprocess_irp` leaves it.
    pub note_child_irp-pdo_pnp_preprocess_irp :
        (irp : ChildIrp) (answer : ChildAnswer) (diag : ChildDiag)
        → let (st, pdo', _) = note_child_irp calls irp answer pdo diag in
          (st ≡ answer.dispatched) × (pdo' ≡ pdo_pnp_preprocess_irp calls (kind_of irp) pdo)
    unfolding note_child_irp pdo_pnp_preprocess_irp
    note_child_irp-pdo_pnp_preprocess_irp no_pnp answer diag = (refl, refl)
    note_child_irp-pdo_pnp_preprocess_irp (pnp_minor minor) answer diag = (refl, refl)
    note_child_irp-pdo_pnp_preprocess_irp (pnp_query_id type) answer diag =
        (refl, go pdo.port_name_written)
      where
        asked : ChildDiag
        asked = write last_query_id_type type (write last_pnp_minor query_id_minor diag)

        go :
            (b : Bool)
            → let (pdo', _) = if not b then note_port_name calls pdo asked else (pdo, asked) in
              pdo' ≡ (if not b then write_port_name calls pdo else pdo)
        go true = refl
        go false = note_port_name-write_port_name asked
