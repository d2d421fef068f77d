-- ===== src/Entry/Watch.antt =====
-- driver/src/driver.c: the values that are written under GhostCOMDiag, and the routines that watch the
-- queries of the bus's relations. `code` is a status as a ULONG.
pub mod Seen
pub mod Child
use ghostcom.Base.{ℕ, ◌%◌, ◌^◌, Bool, true, false, not, ◌==◌, if◌then◌else◌, length}
use ghostcom.Base.{List, [], ◌∷◌, Option, none, some}
use ghostcom.Status.{Status, nt_success, success}
use ghostcom.Word.{add32}

-- The values by their names: Pnp_QueryRelType, Pnp_BusRel_SeenCount, _CompCount, _CompStatus, _FirstPdoLow
-- and _DispStatus.
pub data DiagName : Type 0 where
  query_rel_type seen_count comp_count comp_status first_pdo_low disp_status : DiagName

-- The values that are set, with their names, the latest first.
abbrev pub Diag : Type 0
Diag = List (DiagName × ℕ)

-- The outcomes of ZwCreateKey and ZwSetValueKey for a value.
abbrev pub DiagCalls : Type 0
DiagCalls = DiagName → Status × Status

-- GcomDiagWriteStatus
unfoldable pub diag_write_status : DiagCalls → DiagName → ℕ → Diag → Diag
diag_write_status calls name value diag =
    if not (nt_success (calls name).0)
    then diag
    else if nt_success (calls name).1
    then (name, value) ∷ diag
    else diag

-- The end of an IRP as the framework leaves it: the pointers to the children (`none` where there is no
-- DEVICE_RELATIONS), its status, and that of the dispatch.
pub record Answer : Type 0 where
  pub relations : Option (List ℕ)
  pub io_status : Status
  pub dispatched : Status

-- The count of a DEVICE_RELATIONS that is there, or the sentinel.
abbrev pub relations_count : Option (List ℕ) → ℕ
relations_count none = 0xFFFFFFFF
relations_count (some children) = length children

-- An IRP: IRP_MN_QUERY_DEVICE_RELATIONS with the type of the relations, or another one.
pub data WatchedIrp : Type 0 where
  query_relations : ℕ → WatchedIrp
  other_irp : WatchedIrp

-- BusRelations
abbrev pub bus_relations : ℕ
bus_relations = 0

-- The static count of GcomPnpPreprocessIrp, with the values.
pub record Watch : Type 0 where
  pub seen : ℕ
  pub diag : Diag

module _ (calls : DiagCalls) (code : Status → ℕ) where
  -- GcomPnpBusRelationsCompletion
  unfoldable pub bus_relations_completion : Answer → Diag → Diag
  bus_relations_completion answer diag =
      let noted =
        diag_write_status calls comp_status (code answer.io_status)
          (diag_write_status calls comp_count (relations_count answer.relations) diag) in
      elim answer.relations [
        | none ↦ noted
        | some children ↦ elim children [
          | [] ↦ noted
          | pdo ∷ _ ↦ diag_write_status calls first_pdo_low (pdo % 2 ^ 32) noted
        ]
      ]

  -- GcomPnpPreprocessIrp
  unfoldable pub pnp_preprocess_irp : WatchedIrp → Answer → Watch → Status × Watch
  pnp_preprocess_irp other_irp answer w = (answer.dispatched, w)
  pnp_preprocess_irp (query_relations type) answer w =
      let asked = diag_write_status calls query_rel_type type w.diag in
      if not (type == bus_relations)
      then (answer.dispatched, record w { diag = asked })
      else let n = add32 w.seen 1 in
        (
          answer.dispatched,
          record {
            seen = n;
            diag =
                diag_write_status calls disp_status (code answer.dispatched)
                  (bus_relations_completion answer (diag_write_status calls seen_count n asked));
          },
        )

  -- The routine on one IRP after the other, with what it returns.
  unfoldable pub watch_all : List (WatchedIrp × Answer) → Watch → List Status × Watch
  watch_all [] w = ([], w)
  watch_all ((irp, answer) ∷ irps) w =
      let (st, w') = pnp_preprocess_irp irp answer w in
      let (sts, last) = watch_all irps w' in (st ∷ sts, last)

-- GcomEvtDeviceD0Entry and GcomEvtDeviceD0Exit
unfoldable pub device_d0_entry : Status
device_d0_entry = success

unfoldable pub device_d0_exit : Status
device_d0_exit = success
