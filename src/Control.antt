-- ===== src/Control.antt =====
-- driver/src/control.c: the control device and the dispatch of its IOCTLs.
pub mod Listing
pub mod Claims
pub mod Keeps
pub mod Answers
use ghostcom.Base.{
  ℕ, zero, suc, ◌+◌, ◌-◌, ◌*◌, ◌/◌, Bool, true, false, not, ◌&&◌, ◌==◌, if◌then◌else◌, List, [],
  ◌∷◌, length, Option, none, some,
}
use ghostcom.Status.{
  Status, nt_success, success, invalid_parameter, not_found, buffer_too_small, device_not_connected,
  invalid_device_request,
}
use ghostcom.Word.{sub32, ulong}
use ghostcom.Bytes.{put32, get32}
use ghostcom.Wdf.{Wdf, Completion, complete, complete_bytes}
use ghostcom.Kernel.{Kernel, DeviceCalls}
use ghostcom.Pair.{PortPair}
use ghostcom.Table.{Driver, Slot, vacant, reserved, pointer}
use ghostcom.Create.{PairCalls, port_pair_create}
use ghostcom.Destroy.{DestroyCalls, port_pair_destroy}

-- The IOCTL codes of the control device.
pub data ControlIoctl : Type 0 where
  create_port destroy_port list_ports get_version : ControlIoctl
  other : ℕ → ControlIoctl

module _ {Queue : Type 0} where
  -- The active pair behind a pointer.
  unfoldable pub live : Option (PortPair Queue) → Option (PortPair Queue)
  live none = none
  live (some pp) = if pp.active then some pp else none

  -- The pair that is to be destroyed, taken out of the table.
  unfoldable pub claim :
      ℕ → (ℕ → Option (PortPair Queue)) → List Slot → Option (ℕ × PortPair Queue) × List Slot
  claim index heap [] = (none, [])
  claim index heap (vacant ∷ ports) =
      let (found, rest) = claim index heap ports in (found, vacant ∷ rest)
  claim index heap (reserved ∷ ports) =
      let (found, rest) = claim index heap ports in (found, reserved ∷ rest)
  claim index heap (pointer p ∷ ports) =
      let (found, rest) = claim index heap ports in
      elim (live (heap p)) [
        | none ↦ (found, pointer p ∷ rest)
        | some pp ↦
            if pp.companion_index == index
            then (some (p, pp), vacant ∷ ports)
            else (found, pointer p ∷ rest)
      ]

  -- The pairs that are listed where there is room for so many.
  unfoldable pub listed : (ℕ → Option (PortPair Queue)) → ℕ → List Slot → List (PortPair Queue)
  listed heap zero ports = []
  listed heap (suc room) [] = []
  listed heap (suc room) (vacant ∷ ports) = listed heap (suc room) ports
  listed heap (suc room) (reserved ∷ ports) = listed heap (suc room) ports
  listed heap (suc room) (pointer p ∷ ports) = elim (live (heap p)) [
    | none ↦ listed heap (suc room) ports
    | some pp ↦ pp ∷ listed heap room ports
  ]

  -- GCOM_PORT_INFO, before the bytes that follow.
  abbrev pub put_info : PortPair Queue → List ℕ → List ℕ
  put_info pp rest = put32 pp.port_number (
      put32 pp.companion_index (
        put32 (if pp.com_side_open == 0 then 0 else 1)
          (put32 (if pp.companion_side_open == 0 then 0 else 1) rest)))

  abbrev pub infos : List (PortPair Queue) → List ℕ
  infos [] = []
  infos (pp ∷ pairs) = put_info pp (infos pairs)

  -- GcomControlDeviceCreate
  unfoldable pub control_device_create : DeviceCalls Queue → Driver Queue → Status × Driver Queue
  control_device_create calls d =
      if not calls.init_given
      then (Status.insufficient_resources, d)
      else if not (nt_success calls.assign_name)
      then (calls.assign_name, d)
      else if not (nt_success calls.device_create)
      then (calls.device_create, d)
      else let made = record d {
        control_device = some calls.device;
        kernel = record (d.kernel) { devices = calls.device ∷ d.kernel.devices };
      } in
        if not (nt_success calls.create_link)
        then (calls.create_link, made)
        else if not (nt_success calls.default_queue)
        then (calls.default_queue, made)
        else (success, record made { g_dev_ctx = true })

module _ (wdf : Wdf) where
  open wdf use {Request, Queue, input_buffer, output_buffer}

  -- GcomHandleCreatePort
  unfoldable pub handle_create_port :
      PairCalls Queue → Driver Queue → Request → Driver Queue × Completion Request
  handle_create_port calls d request =
      if not (nt_success (input_buffer request 4).0)
      then (d, complete request invalid_parameter)
      else if not (nt_success (output_buffer request 8).0)
      then (d, complete request invalid_parameter)
      else let (st, pair, d') = port_pair_create calls (get32 (input_buffer request 4).1 0) d in
        if not (nt_success st) then (d', complete request st) else (
          d',
          complete_bytes request success 8 (elim pair [
            | none ↦ []
            | some p ↦ elim (d'.heap p) [
              | none ↦ []
              | some pp ↦ put32 pp.port_number (put32 pp.companion_index [])
            ]
          ]),
        )

  -- GcomHandleDestroyPort
  unfoldable pub handle_destroy_port :
      DestroyCalls → Driver Queue → Request → Driver Queue × Completion Request
  handle_destroy_port calls d request =
      if not (nt_success (input_buffer request 4).0)
      then (d, complete request invalid_parameter)
      else let (found, ports) = claim (get32 (input_buffer request 4).1 0) d.heap d.ports in
        elim found [
          | none ↦ (d, complete request not_found)
          | some (p, pp) ↦ (
            port_pair_destroy calls p (record pp { active = false })
                (record d { ports = ports; port_count = sub32 d.port_count 1 }),
            complete request success,
          )
        ]

  -- GcomHandleListPorts
  unfoldable pub handle_list_ports : Driver Queue → Request → Completion Request
  handle_list_ports d request =
      let (st, length_given) = output_buffer request 4 in
      if not (nt_success st)
      then complete request buffer_too_small
      else let pairs = listed d.heap (ulong ((length_given - 4) / 16)) d.ports in
        complete_bytes request success (4 + length pairs * 16) (put32 (length pairs) (infos pairs))

  -- GcomHandleGetVersion
  unfoldable pub handle_get_version : Request → Completion Request
  handle_get_version request =
      if not (nt_success (output_buffer request 12).0)
      then complete request buffer_too_small
      else complete_bytes request success 12 (0 ∷ 0 ∷ 1 ∷ 0 ∷ 0 ∷ 0 ∷ 1 ∷ 0 ∷ 0 ∷ 0 ∷ 0 ∷ 0 ∷ [])

  -- GcomControlIoDeviceControl
  unfoldable pub control_io_device_control :
      PairCalls Queue
      → DestroyCalls
      → Driver Queue
      → Request
      → ControlIoctl
      → Driver Queue × Completion Request
  control_io_device_control creating destroying d request code =
      if not d.g_dev_ctx then (d, complete request device_not_connected) else elim code [
        | create_port ↦ handle_create_port creating d request
        | destroy_port ↦ handle_destroy_port destroying d request
        | list_ports ↦ (d, handle_list_ports d request)
        | get_version ↦ (d, handle_get_version request)
        | other _ ↦ (d, complete request invalid_device_request)
      ]
