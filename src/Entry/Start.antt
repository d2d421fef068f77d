-- ===== src/Entry/Start.antt =====
-- The driver after the addition of its device.
use ghostcom.Base.{either_way, some_injective, ℕ, ◌≡◌, refl, subst, Bool, not, Option, none, some}
use ghostcom.Status.{Status, nt_success, success}
use ghostcom.Kernel.{Kernel, DeviceCalls}
use ghostcom.Table.{Driver}
use ghostcom.Table.Well.{IsWell}
use ghostcom.Control.{control_device_create}
use ghostcom.Entry.{device_add, no_pairs}

module _ {Queue : Type 0} where
  -- A table that is well, and no pair in memory.
  abbrev pub IsUnused : Driver Queue → Type 0
  IsUnused d = IsWell d × ((q : ℕ) → d.heap q ≡ none)

  no_pairs-IsUnused :
      (g_dev_ctx : Bool) (k : Kernel) → IsUnused (no_pairs {Queue = Queue} g_dev_ctx k)
  no_pairs-IsUnused g_dev_ctx k = (record { long = refl; counted = refl; sound = tt }, λ q. refl)

  abbrev AfterUnused : Status × Driver Queue → Type 0
  AfterUnused result = IsUnused result.1

  control_device_create-IsUnused :
      (control : DeviceCalls Queue) (d : Driver Queue)
      → IsUnused d
      → IsUnused (control_device_create control d).1
  unfolding control_device_create
  control_device_create-IsUnused control d w = either_way AfterUnused (not control.init_given) w (
      either_way AfterUnused (not (nt_success control.assign_name)) w (
        either_way AfterUnused (not (nt_success control.device_create)) w (
          either_way AfterUnused (not (nt_success control.create_link)) (aside _ _ _) (
            either_way AfterUnused (not (nt_success control.default_queue)) (aside _ _ _)
              (aside _ _ _)))))
    where
      aside :
          (device : Option ℕ) (there : Bool) (k : Kernel)
          → IsUnused (record d { control_device = device; g_dev_ctx = there; kernel = k })
      aside device there k =
          (record { long = w.0.long; counted = w.0.counted; sound = w.0.sound }, w.1)

  pub record HoldsUnused (result : Status × Option (Driver Queue)) : Type 0 where
    pub unused : (d : Driver Queue) → result.1 ≡ some d → IsUnused d

  pub device_add-HoldsUnused :
      (created lock : Status) (control : DeviceCalls Queue) (g_dev_ctx : Bool) (k : Kernel)
      → HoldsUnused (device_add created lock control g_dev_ctx k)
  unfolding device_add
  device_add-HoldsUnused created lock control g_dev_ctx k =
      either_way HoldsUnused (not (nt_success created)) (no_device created) (
        either_way HoldsUnused (not (nt_success lock))
          (in_device lock (no_pairs-IsUnused g_dev_ctx k))
          (either_way HoldsUnused
            (not (nt_success (control_device_create control (no_pairs g_dev_ctx k)).0))
            (in_device _ created_well) (in_device success created_well)))
    where
      no_device : (st : Status) → HoldsUnused (st, none)
      no_device st = record { unused = λ d e. absurd (cc e) }

      in_device : {d : Driver Queue} → (st : Status) → IsUnused d → HoldsUnused (st, some d)
      in_device st w = record { unused = λ d' e. subst (λ x. IsUnused x) (some_injective e) w }

      created_well : IsUnused (control_device_create control (no_pairs g_dev_ctx k)).1
      created_well = control_device_create-IsUnused control _ (no_pairs-IsUnused g_dev_ctx k)
