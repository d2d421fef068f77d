-- ===== src/Create/Devices.antt =====
-- How GcomComPortCreate and GcomCompanionCreate end: what a failure leaves, and what a success makes.
use ghostcom.Base.{
  ℕ, ◌+◌, ◌-◌, ◌≡◌, refl, ap, ◌∙◌, sym, arith, ◌⊎◌, inl, inr, Bool, true, false, some, ◌∷◌,
}
use ghostcom.Status.{Status, nt_success, success}
use ghostcom.Attempt.{given, call-then}
use ghostcom.Ring.{Ring}
use ghostcom.Kernel.{Making, DeviceCalls}
use ghostcom.Com.Device.{com_port_create, announce}
use ghostcom.Companion.Device.{companion_create}

-- What a failed creation has to give back, and what is needed for it.
pub record Ledger : Type 0 where
  pub blocks : ℕ
  pub locks : ℕ
  pub first_ring : Ring
  pub second_ring : Ring
  pub signal_lock : Bool
  pub data_lock : Bool
  pub com_link : Bool
  pub comp_link : Bool

one_back : (n : ℕ) → n + 1 - 1 ≡ n
one_back n = omega arith

link_failed :
    (l : Ledger)
    → l.com_link ≡ false
    → (record l { blocks = l.blocks + 1 - 1; com_link = false }) ≡ l
link_failed l h =
    ap (λ n. record l { blocks = n; com_link = false }) (one_back l.blocks)
    ∙ ap (λ b. record l { com_link = b }) (sym h)

comp_link_failed :
    (l : Ledger)
    → l.comp_link ≡ false
    → (record l { blocks = l.blocks + 1 - 1; comp_link = false }) ≡ l
comp_link_failed l h =
    ap (λ n. record l { blocks = n; comp_link = false }) (one_back l.blocks)
    ∙ ap (λ b. record l { comp_link = b }) (sym h)

module _ {Queue : Type 0} where
  abbrev pub ledger : Making Queue → Ledger
  ledger s = record {
    blocks = s.kernel.blocks;
    locks = s.kernel.locks;
    first_ring = s.pair.com_to_companion;
    second_ring = s.pair.companion_to_com;
    signal_lock = s.pair.signal_lock;
    data_lock = s.pair.data_lock;
    com_link = s.pair.com_sym_link;
    comp_link = s.pair.comp_sym_link;
  }

  -- The state with all of the COM port, and with all of the companion.
  abbrev pub com_made : DeviceCalls Queue → ℕ → Making Queue → Making Queue
  com_made calls number s = record {
    pair = record (s.pair) {
      com_device = some calls.device;
      com_read_queue = some calls.first_queue.1;
      com_write_queue = some calls.second_queue.1;
      wait_mask_queue = some calls.third_queue.1;
      com_sym_link = true;
    };
    kernel = announce calls number (record (s.kernel) {
      devices = calls.device ∷ s.kernel.devices;
      blocks = s.kernel.blocks + 1;
    });
  }

  abbrev pub companion_made : DeviceCalls Queue → Making Queue → Making Queue
  companion_made calls s = record {
    pair = record (s.pair) {
      companion_device = some calls.device;
      comp_read_queue = some calls.first_queue.1;
      comp_write_queue = some calls.second_queue.1;
      signal_wait_queue = some calls.third_queue.1;
      comp_sym_link = true;
    };
    kernel = record (s.kernel) {
      devices = calls.device ∷ s.kernel.devices;
      blocks = s.kernel.blocks + 1;
    };
  }

  -- A creation that failed left the ledger as it was, or it made what it is to make.
  abbrev pub Ends : Making Queue → Making Queue → Status × Making Queue → Type 0
  Ends before made (st, s) =
      ((nt_success st ≡ false) × (ledger s ≡ ledger before)) ⊎ ((st ≡ success) × (s ≡ made))

  module _ (calls : DeviceCalls Queue) (s : Making Queue) where
    pub com_port_create-Ends :
        (number : ℕ)
        → s.pair.com_sym_link ≡ false
        → Ends s (com_made calls number s) (com_port_create calls number s)
    unfolding com_port_create
    com_port_create-Ends number h =
        let P : Status × Making Queue → Type 0 = Ends s (com_made calls number s) in
        call-then P (given calls.init_given) _ _ _ _ (λ bad. inl (bad, refl))
          (λ _.
            call-then P calls.assign_name _ _ _ _ (λ bad. inl (bad, refl))
              (λ _.
                call-then P calls.device_create _ _ _ _ (λ bad. inl (bad, refl))
                  (λ _.
                    call-then P calls.default_queue _ _ _ _ (λ bad. inl (bad, refl))
                      (λ _.
                        call-then P calls.first_queue.0 _ _ _ _ (λ bad. inl (bad, refl))
                          (λ _.
                            call-then P calls.second_queue.0 _ _ _ _ (λ bad. inl (bad, refl))
                              (λ _.
                                call-then P calls.third_queue.0 _ _ _ _ (λ bad. inl (bad, refl))
                                  (λ _.
                                    call-then P (given calls.link_given) _ _ _ _
                                      (λ bad. inl (bad, refl))
                                      (λ _.
                                        call-then P calls.create_link _ _ _ _
                                          (λ bad. inl (bad, link_failed (ledger s) h))
                                          (λ _. inr (refl, refl))))))))))

    pub companion_create-Ends :
        s.pair.comp_sym_link ≡ false → Ends s (companion_made calls s) (companion_create calls s)
    unfolding companion_create
    companion_create-Ends h =
        let P : Status × Making Queue → Type 0 = Ends s (companion_made calls s) in
        call-then P (given calls.init_given) _ _ _ _ (λ bad. inl (bad, refl))
          (λ _.
            call-then P calls.assign_name _ _ _ _ (λ bad. inl (bad, refl))
              (λ _.
                call-then P calls.device_create _ _ _ _ (λ bad. inl (bad, refl))
                  (λ _.
                    call-then P calls.default_queue _ _ _ _ (λ bad. inl (bad, refl))
                      (λ _.
                        call-then P calls.first_queue.0 _ _ _ _ (λ bad. inl (bad, refl))
                          (λ _.
                            call-then P calls.second_queue.0 _ _ _ _ (λ bad. inl (bad, refl))
                              (λ _.
                                call-then P calls.third_queue.0 _ _ _ _ (λ bad. inl (bad, refl))
                                  (λ _.
                                    call-then P (given calls.link_given) _ _ _ _
                                      (λ bad. inl (bad, refl))
                                      (λ _.
                                        call-then P calls.create_link _ _ _ _
                                          (λ bad. inl (bad, comp_link_failed (ledger s) h))
                                          (λ _. inr (refl, refl))))))))))
