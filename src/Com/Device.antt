-- ===== src/Com/Device.antt =====
-- driver/src/comport.c: GcomComPortCreate and GcomComPortDestroy.
use ghostcom.Base.{ℕ, ◌+◌, ◌-◌, true, false, none, some, if◌then◌else◌, ◌&&◌, ◌∷◌}
use ghostcom.Status.{Status, nt_success, success}
use ghostcom.Attempt.{Attempt, call, call_else, given, ◌>>◌}
use ghostcom.Kernel.{Kernel, Making, DeviceCalls, remove, remove_some, one_if}

module _ {Queue : Type 0} where
  -- The port's number is written under SERIALCOMM and reported to the child list, as far as that works.
  unfoldable pub announce : DeviceCalls Queue → ℕ → Kernel → Kernel
  announce calls number k = record k {
    serial_comm =
        if nt_success calls.create_key && nt_success calls.set_value
        then number ∷ k.serial_comm
        else k.serial_comm;
    children = elim calls.add_child [
      | none ↦ k.children
      | some st ↦ if nt_success st then number ∷ k.children else k.children
    ];
  }

  -- GcomComPortCreate
  unfoldable pub com_port_create : DeviceCalls Queue → ℕ → Attempt (Making Queue)
  com_port_create calls number =
      call (given calls.init_given) (λ s. s)
      >> call calls.assign_name (λ s. s)
      >> call calls.device_create (λ s. record {
        pair = record (s.pair) { com_device = some calls.device };
        kernel = record (s.kernel) { devices = calls.device ∷ s.kernel.devices };
      })
      >> call calls.default_queue (λ s. s)
      >> call calls.first_queue.0
          (λ s. record s { pair = record (s.pair) { com_read_queue = some calls.first_queue.1 } })
      >> call calls.second_queue.0
          (λ s. record s { pair = record (s.pair) { com_write_queue = some calls.second_queue.1 } })
      >> call calls.third_queue.0
          (λ s. record s { pair = record (s.pair) { wait_mask_queue = some calls.third_queue.1 } })
      >> call (given calls.link_given) (λ s. record {
        pair = record (s.pair) { com_sym_link = true };
        kernel = record (s.kernel) { blocks = s.kernel.blocks + 1 };
      })
      >> call_else calls.create_link (λ s. s)
          (λ s. record {
            pair = record (s.pair) { com_sym_link = false };
            kernel = record (s.kernel) { blocks = s.kernel.blocks - 1 };
          })
      >> (λ s. (success, record s { kernel = announce calls number s.kernel }))

  -- GcomComPortDestroy; `key` is the outcome of ZwOpenKey.
  unfoldable pub com_port_destroy : Status → Making Queue → Making Queue
  com_port_destroy key s = record {
    pair = record (s.pair) { com_sym_link = false; com_device = none };
    kernel = record (s.kernel) {
      serial_comm =
          if nt_success key
          then remove s.pair.port_number s.kernel.serial_comm
          else s.kernel.serial_comm;
      blocks = s.kernel.blocks - one_if s.pair.com_sym_link;
      devices = remove_some s.pair.com_device s.kernel.devices;
    };
  }
