-- ===== src/Entry/Fine.antt =====
-- All pairs in memory with the files that are open on them, over the requests to the control device.
pub mod Emptied
use ghostcom.Base.{ℕ, ◌+◌, ◌^◌, ◌<◌, ◌≡◌, refl, sym, ap, subst, ◌∙◌, arith, Bool, true, false, not}
use ghostcom.Base.{either_way, Bool-cases, ◌==◌, ==_iff, inl, inr, if◌then◌else◌, length}
use ghostcom.Base.{List, [], ◌∷◌, Option, none, some}
use ghostcom.Status.{Status, nt_success, success, not_found, invalid_device_request}
use ghostcom.Word.{sub32}
use ghostcom.Bytes.{get32}
use ghostcom.Wdf.{Wdf, Completion, complete}
use ghostcom.Kernel.{Kernel, one_if}
use ghostcom.Pair.{PortPair}
use ghostcom.Life.{pair_destroy}
use ghostcom.Table.{Driver, Slot, put}
use ghostcom.Table.Well.{IsWell, few_lt}
use ghostcom.Create.{PairCalls, port_pair_create}
use ghostcom.Create.Added.{new_ring-IsValid}
use ghostcom.Create.Rings.{ready}
use ghostcom.Create.Pairs.{complete_pair}
use ghostcom.Create.Promise.{Creates, create_failed, create_worked, port_pair_create-Creates}
use ghostcom.Destroy.{DestroyCalls, port_pair_destroy}
use ghostcom.Destroy.Table.{heap_after}
use ghostcom.Control.{
  claim, ControlIoctl, create_port, destroy_port, list_ports, get_version, other,
  handle_create_port, handle_destroy_port, handle_list_ports, handle_get_version,
  control_io_device_control,
}
use ghostcom.Control.Claims.{Claims, claimed, claim-Claims}
use ghostcom.Session.Calm.{IsCalm}
use ghostcom.Entry.Owned.{IsOwned, Held, pair_destroy-Held}

-- Whether a file of either side is open on the pair at a pointer.
pub record Files : Type 0 where
  pub com_open : ℕ → Bool
  pub comp_open : ℕ → Bool

abbrev pub mark : (ℕ → Bool) → ℕ → Bool → ℕ → Bool
mark marks p b q = if p == q then b else marks q

-- What holds at one pointer and at all others.
pub at_all : (P : ℕ → Type 0) (p : ℕ) → P p → ((q : ℕ) → (p == q) ≡ false → P q) → (q : ℕ) → P q
at_all P p here others q = elim (Bool-cases (p == q)) [
  | inl same ↦ subst P ((==_iff p q).0 same) here
  | inr apart ↦ others q apart
]

module _ (wdf : Wdf) where
  open wdf use {Request, Queue}

  -- Every pair in memory is owned by its creation and its files, and none is open on free memory.
  abbrev pub IsFine : (ℕ → Option (PortPair Queue)) → Files → Type 0
  IsFine heap files = (q : ℕ) → Held wdf (heap q) (files.com_open q) (files.comp_open q)

  -- A pair is written, and its files stay open.
  pub put-IsFine :
      (heap : ℕ → Option (PortPair Queue)) (files : Files) (p : ℕ) (left : Option (PortPair Queue))
      → Held wdf left (files.com_open p) (files.comp_open p)
      → IsFine heap files
      → IsFine (put heap p left) files
  put-IsFine heap files p left h fine =
      at_all (λ q. Held wdf (put heap p left q) (files.com_open q) (files.comp_open q)) p
        (rw ((==_iff p p).1 refl) h) (λ q apart. rw apart (fine q))

  module _ (calls : PairCalls Queue)
      (block_long : (block : List ℕ) → calls.first_ring 65536 ≡ some block → length block ≡ 65536)
      (block_long' : (block : List ℕ) → calls.second_ring 65536 ≡ some block → length block ≡ 65536)
      (d : Driver Queue) (files : Files) (requested : ℕ)
      (fresh : (p : ℕ) → calls.pair_memory ≡ some p → d.heap p ≡ none) where
    -- A new pair has the creation's reference, and is calm.
    complete_pair-IsOwned :
        (number : ℕ) (k : Kernel) (first second : List ℕ) (com_open comp_open : Bool)
        → length first ≡ 65536
        → length second ≡ 65536
        → com_open ≡ false
        → comp_open ≡ false
        → IsOwned wdf
            (complete_pair calls number (ready calls number k first second)).pair
            com_open
            comp_open
    complete_pair-IsOwned number k first second com_open comp_open long long' no_com no_comp =
        record {
          references = omega (arith, ap one_if no_com, ap one_if no_comp);
          used = omega arith;
          ready = λ _. (
            sym (ap one_if no_com),
            sym (ap one_if no_comp),
            record {
              to_com = record {
                valid = new_ring-IsValid second long';
                readers = inl refl;
                there = refl;
              };
              to_companion = record {
                valid = new_ring-IsValid first long;
                readers = inl refl;
                there = refl;
              };
              com_writes = refl;
              comp_writes = refl;
              signals = refl;
              masks = refl;
            },
          );
        }

    created_IsFine :
        {result : Status × Option ℕ × Driver Queue}
        → Creates calls requested d result
        → IsFine d.heap files
        → IsFine result.2.heap files
    created_IsFine (create_failed bad r) fine = λ q.
        subst (λ o. Held wdf o (files.com_open q) (files.comp_open q)) (sym (r.same_pairs q))
          (fine q)
    created_IsFine
          (create_worked {number = number} {p = p} {first = first} {second = second} e c given_p e1
            e2)
          fine =
        let free =
          subst (λ o. Held wdf o (files.com_open p) (files.comp_open p)) (fresh p given_p)
            (fine p) in
        put-IsFine d.heap files p _
          (complete_pair-IsOwned number d.kernel first second _ _ (block_long first e1)
            (block_long' second e2) free.0 free.1)
          fine

    pub port_pair_create-IsFine :
        IsWell d → IsFine d.heap files → IsFine (port_pair_create calls requested d).2.heap files
    port_pair_create-IsFine w fine =
        created_IsFine (port_pair_create-Creates calls requested d (few_lt d w) fresh) fine

  -- An active pair is destroyed.
  pub port_pair_destroy-IsFine :
      (calls : DestroyCalls) (p : ℕ) (pp : PortPair Queue) (d : Driver Queue) (files : Files)
      → d.heap p ≡ some pp
      → pp.active ≡ true
      → IsFine d.heap files
      → IsFine (port_pair_destroy calls p (record pp { active = false }) d).heap files
  port_pair_destroy-IsFine calls p pp d files there on fine =
      subst (λ heap. IsFine heap files) (sym (heap_after calls p (record pp { active = false }) d))
        (put-IsFine d.heap files p _
          (pair_destroy-Held wdf pp _ _ on
            (subst (λ o. Held wdf o (files.com_open p) (files.comp_open p)) there (fine p)))
          fine)

  module _ (creating : PairCalls Queue) (destroying : DestroyCalls)
      (block_long : (block : List ℕ)
        → creating.first_ring 65536 ≡ some block
        → length block ≡ 65536)
      (block_long' : (block : List ℕ)
        → creating.second_ring 65536 ≡ some block
        → length block ≡ 65536)
      (d : Driver Queue) (files : Files) (w : IsWell d)
      (fresh : (p : ℕ) → creating.pair_memory ≡ some p → d.heap p ≡ none)
      (fine : IsFine d.heap files) (request : Request) where
    abbrev KeptFine : Driver Queue × Completion Request → Type 0
    KeptFine result = IsFine result.0.heap files

    handle_create_port-IsFine : KeptFine (handle_create_port wdf creating d request)
    unfolding handle_create_port
    handle_create_port-IsFine =
        let created =
          port_pair_create-IsFine creating block_long block_long' d files
            (get32 (wdf.input_buffer request 4).1 0) fresh w fine in
        either_way KeptFine (not (nt_success (wdf.input_buffer request 4).0)) fine (
          either_way KeptFine (not (nt_success (wdf.output_buffer request 8).0)) fine
            (either_way KeptFine _ created created))

    claimed_IsFine :
        (index : ℕ) (result : Option (ℕ × PortPair Queue) × List Slot)
        → Claims index d.heap d.ports result
        → KeptFine (elim result.0 [
          | none ↦ (d, complete request not_found)
          | some (p, pp) ↦ (
            port_pair_destroy destroying p
                (record pp { active = false })
                (record d { ports = result.1; port_count = sub32 d.port_count 1 }),
            complete request success,
          )
        ])
    claimed_IsFine index (none, rest) c = fine
    claimed_IsFine index (some (p, pp), rest)
          (claimed there active named in_table out long count sound less) =
        port_pair_destroy-IsFine destroying p pp
          (record d { ports = rest; port_count = sub32 d.port_count 1 }) files there active fine

    handle_destroy_port-IsFine : KeptFine (handle_destroy_port wdf destroying d request)
    unfolding handle_destroy_port
    handle_destroy_port-IsFine =
        let index : ℕ = get32 (wdf.input_buffer request 4).1 0 in
        either_way KeptFine (not (nt_success (wdf.input_buffer request 4).0)) fine (
          claimed_IsFine index (claim index d.heap d.ports)
            (claim-Claims index d.heap d.ports w.sound))

    pub control_io_device_control-IsFine :
        (code : ControlIoctl)
        → KeptFine (control_io_device_control wdf creating destroying d request code)
    unfolding control_io_device_control
    control_io_device_control-IsFine code =
        either_way KeptFine (not d.g_dev_ctx) fine (by_code code)
      where
        by_code :
            (code : ControlIoctl)
            → KeptFine (elim code [
              | create_port ↦ handle_create_port wdf creating d request
              | destroy_port ↦ handle_destroy_port wdf destroying d request
              | list_ports ↦ (d, handle_list_ports wdf d request)
              | get_version ↦ (d, handle_get_version wdf request)
              | other _ ↦ (d, complete request invalid_device_request)
            ])
        by_code create_port = handle_create_port-IsFine
        by_code destroy_port = handle_destroy_port-IsFine
        by_code list_ports = fine
        by_code get_version = fine
        by_code (other _) = fine
