-- ===== src/Entry.antt =====
-- driver/src/driver.c: DriverEntry, GcomEvtDeviceAdd, and the children of the device. The values that
-- are written for diagnosis meanwhile are left out.
pub mod Owned
pub mod Fine
pub mod Start
pub mod Service
pub mod Served
pub mod PortName
pub mod Watch
use ghostcom.Base.{
  ℕ, suc, Bool, true, false, not, ◌&&◌, if◌then◌else◌, List, [], ◌∷◌, replicate, Option, none, some,
}
use ghostcom.Status.{Status, nt_success, success}
use ghostcom.Attempt.{Attempt, call, ◌>>◌}
use ghostcom.Kernel.{Kernel, DeviceCalls}
use ghostcom.Pair.{PortPair}
use ghostcom.Table.{Driver, Slot, vacant, max_ports}
use ghostcom.Control.{control_device_create}

-- DriverEntry; `created` is the outcome of WdfDriverCreate.
unfoldable pub driver_entry : Status → Status
driver_entry created = if not (nt_success created) then created else success

module _ {Queue : Type 0} where
  -- The device's context after RtlZeroMemory.
  abbrev pub no_pairs : Bool → Kernel → Driver Queue
  no_pairs g_dev_ctx k = record {
    ports = replicate max_ports vacant;
    port_count = 0;
    control_device = none;
    g_dev_ctx = g_dev_ctx;
    heap = λ p. none;
    kernel = k;
  }

  -- GcomEvtDeviceAdd: the status, and the context of the device that is created. `created` and
  -- `lock` are the outcomes of WdfDeviceCreate and WdfWaitLockCreate.
  unfoldable pub device_add :
      Status → Status → DeviceCalls Queue → Bool → Kernel → Status × Option (Driver Queue)
  device_add created lock control g_dev_ctx k =
      if not (nt_success created)
      then (created, none)
      else if not (nt_success lock)
      then (lock, some (no_pairs g_dev_ctx k))
      else let (st, d) = control_device_create control (no_pairs g_dev_ctx k) in
        if not (nt_success st) then (st, some d) else (success, some d)

-- GCOM_PDO_CTX, with the value PortName of the device's registry key and how often GcomPdoPnpPreprocessIrp
-- has set it.
pub record Pdo : Type 0 where
  pub port_number : ℕ
  pub port_name_written : Bool
  pub port_name : Option ℕ
  pub writes : ℕ

-- The outcomes of IoOpenDeviceRegistryKey (with whether the handle is not NULL),
-- RtlStringCbPrintfW and ZwSetValueKey.
pub record KeyCalls : Type 0 where
  pub open_key : Status
  pub has_handle : Bool
  pub format : Status
  pub set_value : Status

-- The IRPs of the preprocess routine: IRP_MJ_PNP with IRP_MN_QUERY_ID, and the others.
pub data PnpIrp : Type 0 where
  query_id other_irp : PnpIrp

-- PortName is set in the device's registry key.
unfoldable pub write_port_name : KeyCalls → Pdo → Pdo
write_port_name calls pdo =
    if nt_success calls.open_key && calls.has_handle
    then if nt_success calls.format
      then if nt_success calls.set_value
        then record pdo {
          port_name_written = true;
          port_name = some pdo.port_number;
          writes = suc pdo.writes;
        }
        else pdo
      else pdo
    else pdo

-- GcomPdoPnpPreprocessIrp; the context is not NULL.
unfoldable pub pdo_pnp_preprocess_irp : KeyCalls → PnpIrp → Pdo → Pdo
pdo_pnp_preprocess_irp calls other_irp pdo = pdo
pdo_pnp_preprocess_irp calls query_id pdo =
    if not pdo.port_name_written then write_port_name calls pdo else pdo

-- The outcomes of the calls that create a child: of the five that configure it and WdfDeviceCreate,
-- and for PortName of WdfDeviceOpenRegistryKey and WdfRegistryAssignUnicodeString.
pub record ChildCalls : Type 0 where
  pub assign_device_id : Status
  pub add_hardware_id : Status
  pub assign_instance_id : Status
  pub add_device_text : Status
  pub assign_sddl : Status
  pub device_create : Status
  pub open_key : Status
  pub has_handle : Bool
  pub assign_port_name : Status

-- GcomEvtChildListCreateDevice, for the port number of the identification description.
unfoldable pub child_list_create_device : ChildCalls → ℕ → Status × Option Pdo
child_list_create_device calls number =
    (call calls.assign_device_id (λ pdo. pdo)
        >> call calls.add_hardware_id (λ pdo. pdo)
        >> call calls.assign_instance_id (λ pdo. pdo)
        >> call calls.add_device_text (λ pdo. pdo)
        >> call calls.assign_sddl (λ pdo. pdo)
        >> call calls.device_create (λ pdo. some (record {
          port_number = number;
          port_name_written = false;
          port_name =
              if nt_success calls.open_key && calls.has_handle
              then if nt_success calls.assign_port_name then some number else none
              else none;
          writes = 0;
        }))
        >> (λ pdo. (success, pdo)))
      none
