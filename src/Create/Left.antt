-- ===== src/Create/Left.antt =====
-- What a failed GcomComPortCreate leaves behind.
use ghostcom.Base.{ℕ, ◌≡◌, refl, Bool, true, false, ◌∷◌}
use ghostcom.Status.{Status, nt_success}
use ghostcom.Attempt.{given, call-then}
use ghostcom.Kernel.{Making, DeviceCalls}
use ghostcom.Com.Device.{com_port_create}
use ghostcom.Create.{free_parts}

given_well : (b : Bool) → b ≡ true → nt_success (given b) ≡ false → ⊥
given_well true h bad = cc bad
given_well false h bad = cc h

module _ {Queue : Type 0} (calls : DeviceCalls Queue) (number : ℕ) (s : Making Queue) where
  -- A GcomComPortCreate that fails once its device has been created leaves the device in
  -- being, also after the clean-up of GcomPortPairCreate has freed the locks, the rings and
  -- the pair.
  pub com_port_create-strands :
      calls.init_given ≡ true
      → nt_success calls.assign_name ≡ true
      → nt_success calls.device_create ≡ true
      → nt_success (com_port_create calls number s).0 ≡ false
      → (free_parts (com_port_create calls number s).1).devices ≡ calls.device ∷ s.kernel.devices
  unfolding com_port_create
  com_port_create-strands init_well name_well device_well =
      let P : Status × Making Queue → Type 0 = λ result.
        nt_success result.0 ≡ false
        → (free_parts result.1).devices ≡ calls.device ∷ s.kernel.devices in
      call-then P (given calls.init_given) _ _ _ _
        (λ bad. absurd (given_well calls.init_given init_well bad))
        (λ _.
          call-then P calls.assign_name _ _ _ _ (λ bad. absurd (cc (bad, name_well)))
            (λ _.
              call-then P calls.device_create _ _ _ _ (λ bad. absurd (cc (bad, device_well)))
                (λ _.
                  call-then P calls.default_queue _ _ _ _ (λ _ _. refl)
                    (λ _.
                      call-then P calls.first_queue.0 _ _ _ _ (λ _ _. refl)
                        (λ _.
                          call-then P calls.second_queue.0 _ _ _ _ (λ _ _. refl)
                            (λ _.
                              call-then P calls.third_queue.0 _ _ _ _ (λ _ _. refl)
                                (λ _.
                                  call-then P (given calls.link_given) _ _ _ _ (λ _ _. refl)
                                    (λ _.
                                      call-then P calls.create_link _ _ _ _ (λ _ _. refl)
                                        (λ _ h. absurd (cc h))))))))))
