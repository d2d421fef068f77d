-- ===== src/Create/Pairs.antt =====
-- The two devices of a pair: both are made, or what they took is given back.
use ghostcom.Base.{ℕ, ◌-◌, ◌≡◌, refl, sym, subst, ap, arith, ◌⊎◌, inl, inr, true, false}
use ghostcom.Status.{Status, nt_success, success}
use ghostcom.Attempt.{go_on, go_on_good, go_on_bad}
use ghostcom.Kernel.{Making, one_if}
use ghostcom.Com.Device.{announce, com_port_create, com_port_destroy}
use ghostcom.Companion.Device.{companion_create}
use ghostcom.Create.{PairCalls, make_devices, companion_or_back}
use ghostcom.Create.Devices.{
  Ledger, ledger, com_made, companion_made, Ends, com_port_create-Ends, companion_create-Ends,
}
use ghostcom.Create.Rings.{IsBalanced}

module _ {Queue : Type 0} (calls : PairCalls Queue) (number : ℕ) where
  abbrev pub complete_pair : Making Queue → Making Queue
  complete_pair s = companion_made calls.companion_calls (com_made calls.com_calls number s)

  -- How the creation of the two devices ends.
  abbrev pub Devices : ℕ → ℕ → Making Queue → Status × Making Queue → Type 0
  Devices blocks locks s (st, s') =
      ((nt_success st ≡ false) × IsBalanced blocks locks (ledger s'))
      ⊎ ((st ≡ success) × (s' ≡ complete_pair s))

  module _ (blocks locks : ℕ) (s : Making Queue) (b : IsBalanced blocks locks (ledger s)) where
    -- The COM port is taken down after the companion has failed.
    taken_down :
        (after : Making Queue)
        → ledger after ≡ ledger (com_made calls.com_calls number s)
        → IsBalanced blocks locks (ledger (com_port_destroy calls.open_key after))
    unfolding com_port_destroy announce
    taken_down after e =
        let l : Ledger = ledger (com_made calls.com_calls number s) in
        let down : Ledger → Ledger =
          λ l. record l { blocks = l.blocks - one_if l.com_link; com_link = false } in
        subst (λ l. IsBalanced blocks locks (down l)) (sym e)
          (record {
            no_com_link = refl;
            no_comp_link = b.no_comp_link;
            blocks_held = omega (arith, b.blocks_held);
            locks_held = b.locks_held;
          })

    companion_or_back-Devices :
        Devices blocks locks s (companion_or_back calls (com_made calls.com_calls number s))
    unfolding companion_or_back
    companion_or_back-Devices =
        go (companion_create calls.companion_calls (com_made calls.com_calls number s)) (
          companion_create-Ends calls.companion_calls (com_made calls.com_calls number s)
            b.no_comp_link)
      where
        go :
            (result : Status × Making Queue)
            → Ends (com_made calls.com_calls number s) (complete_pair s) result
            → Devices blocks locks s (elim (nt_success result.0) [
              | true ↦ (result.0, result.1)
              | false ↦ (result.0, com_port_destroy calls.open_key result.1)
            ])
        go (st, after) (inl (bad, e)) = rw bad (inl (bad, taken_down after e))
        go (st, after) (inr (good, e)) = rw good (inr (good, e))

    pub make_devices-Devices : Devices blocks locks s (make_devices calls number s)
    unfolding make_devices
    make_devices-Devices =
        go (com_port_create calls.com_calls number s)
          (com_port_create-Ends calls.com_calls s number b.no_com_link)
      where
        go :
            (result : Status × Making Queue)
            → Ends s (com_made calls.com_calls number s) result
            → Devices blocks locks s (go_on (companion_or_back calls) result)
        go (st, after) (inl (bad, e)) =
            subst (λ x. Devices blocks locks s x)
              (sym (go_on_bad (companion_or_back calls) st after bad))
              (inl (bad, subst (λ l. IsBalanced blocks locks l) (sym e) b))
        go (st, after) (inr (good, e)) =
            subst (λ x. Devices blocks locks s x)
              (sym (go_on_good (companion_or_back calls) st after (ap nt_success good)))
              (subst (λ x. Devices blocks locks s (companion_or_back calls x)) (sym e)
                companion_or_back-Devices)
