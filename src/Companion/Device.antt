-- ===== src/Companion/Device.antt =====
-- driver/src/companion.c: GcomCompanionCreate and GcomCompanionDestroy.
use ghostcom.Base.{◌+◌, ◌-◌, true, false, none, some, ◌∷◌}
use ghostcom.Status.{success}
use ghostcom.Attempt.{Attempt, call, call_else, given, ◌>>◌}
use ghostcom.Kernel.{Making, DeviceCalls, remove_some, one_if}

module _ {Queue : Type 0} where
  -- GcomCompanionCreate
  unfoldable pub companion_create : DeviceCalls Queue → Attempt (Making Queue)
  companion_create calls =
      call (given calls.init_given) (λ s. s)
      >> call calls.assign_name (λ s. s)
      >> call calls.device_create (λ s. record {
        pair = record (s.pair) { companion_device = some calls.device };
        kernel = record (s.kernel) { devices = calls.device ∷ s.kernel.devices };
      })
      >> call calls.default_queue (λ s. s)
      >> call calls.first_queue.0
          (λ s. record s { pair = record (s.pair) { comp_read_queue = some calls.first_queue.1 } })
      >> call calls.second_queue.0 (λ s. record s {
        pair = record (s.pair) { comp_write_queue = some calls.second_queue.1 };
      })
      >> call calls.third_queue.0 (λ s. record s {
        pair = record (s.pair) { signal_wait_queue = some calls.third_queue.1 };
      })
      >> call (given calls.link_given) (λ s. record {
        pair = record (s.pair) { comp_sym_link = true };
        kernel = record (s.kernel) { blocks = s.kernel.blocks + 1 };
      })
      >> call_else calls.create_link (λ s. s)
          (λ s. record {
            pair = record (s.pair) { comp_sym_link = false };
            kernel = record (s.kernel) { blocks = s.kernel.blocks - 1 };
          })
      >> (λ s. (success, s))

  -- GcomCompanionDestroy
  unfoldable pub companion_destroy : Making Queue → Making Queue
  companion_destroy s = record {
    pair = record (s.pair) { comp_sym_link = false; companion_device = none };
    kernel = record (s.kernel) {
      blocks = s.kernel.blocks - one_if s.pair.comp_sym_link;
      devices = remove_some s.pair.companion_device s.kernel.devices;
    };
  }
