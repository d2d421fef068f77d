-- ===== src/Create.antt =====
-- driver/src/portpair.c: GcomPortPairCreate. `calls` has the outcomes of the kernel's calls that it makes.
pub mod Devices
pub mod Rings
pub mod Pairs
pub mod Outcome
pub mod Promise
pub mod Added
pub mod Progress
pub mod Left
pub mod Opened
use ghostcom.Base.{ℕ, ◌+◌, ◌-◌, Bool, true, false, if◌then◌else◌, List, [], ◌∷◌, Option, none, some}
use ghostcom.Status.{Status, nt_success, success, insufficient_resources}
use ghostcom.Word.{add32, sub32}
use ghostcom.Ring.{Ring, init}
use ghostcom.Attempt.{Attempt, call, ◌>>◌}
use ghostcom.Kernel.{Kernel, Making, DeviceCalls, ring_blocks, one_if}
use ghostcom.Pair.New.{new_pair, no_timeouts}
use ghostcom.Pair.{PortPair, SignalState, Timeouts, PerfStats}
use ghostcom.Com.Device.{com_port_create, com_port_destroy}
use ghostcom.Companion.Device.{companion_create}
use ghostcom.Table.{
  Driver, Slot, vacant, reserved, pointer, free_slot, set_slot, is_reserved, put, choose_number,
}

-- The outcomes of the calls that create a pair: of ExAllocatePool2 (for the pair, a pointer or NULL,
-- and for the two rings), WdfSpinLockCreate, ZwOpenSymbolicLinkObject, those of the two devices, and
-- ZwOpenKey in case the COM port is taken down again.
pub record PairCalls (Queue : Type 0) : Type 0 where
  pub pair_memory : Option ℕ
  pub first_ring : ℕ → Option (List ℕ)
  pub second_ring : ℕ → Option (List ℕ)
  pub signal_lock : Status
  pub data_lock : Status
  pub com_link : ℕ → Status
  pub comp_link : ℕ → Status
  pub com_calls : DeviceCalls Queue
  pub companion_calls : DeviceCalls Queue
  pub open_key : Status

-- GCOM_RING_BUFFER_SIZE
abbrev pub ring_size : ℕ
ring_size = 0x10000

module _ {Queue : Type 0} where
  -- The two rings.
  unfoldable pub first_ring_init : (ℕ → Option (List ℕ)) → Attempt (Making Queue)
  first_ring_init allocate s =
      let (st, ring) = init allocate s.pair.com_to_companion ring_size in
      (
        st,
        record {
          pair = record (s.pair) { com_to_companion = ring };
          kernel = record (s.kernel) { blocks = s.kernel.blocks + ring_blocks ring };
        },
      )

  unfoldable pub second_ring_init : (ℕ → Option (List ℕ)) → Attempt (Making Queue)
  second_ring_init allocate s =
      let (st, ring) = init allocate s.pair.companion_to_com ring_size in
      (
        st,
        record {
          pair = record (s.pair) { companion_to_com = ring };
          kernel = record (s.kernel) { blocks = s.kernel.blocks + ring_blocks ring };
        },
      )

  -- The rings, the locks and the defaults.
  unfoldable pub initialise : PairCalls Queue → Attempt (Making Queue)
  initialise calls =
      first_ring_init calls.first_ring
      >> second_ring_init calls.second_ring
      >> call calls.signal_lock (λ s. record {
        pair = record (s.pair) { signal_lock = true };
        kernel = record (s.kernel) { locks = s.kernel.locks + 1 };
      })
      >> call calls.data_lock (λ s. record {
        pair = record (s.pair) { data_lock = true };
        kernel = record (s.kernel) { locks = s.kernel.locks + 1 };
      })
      >> (λ s. (
        success,
        record s {
          pair = record (s.pair) {
            signal_state = record (s.pair.signal_state) {
              baud_rate = 9600;
              data_bits = 8;
              stop_bits = 0;
              parity = 0;
            };
            comp_dtr = true;
            comp_rts = true;
            timeouts = no_timeouts;
          };
        },
      ))

  -- The companion; the COM port is taken down if it fails.
  unfoldable pub companion_or_back : PairCalls Queue → Attempt (Making Queue)
  companion_or_back calls s =
      let (st, after) = companion_create calls.companion_calls s in
      elim (nt_success st) [
        | true ↦ (st, after)
        | false ↦ (st, com_port_destroy calls.open_key after)
      ]

  -- The COM port and then the companion.
  unfoldable pub make_devices : PairCalls Queue → ℕ → Attempt (Making Queue)
  make_devices calls number = com_port_create calls.com_calls number >> companion_or_back calls

  -- A slot is reserved, or given back.
  unfoldable pub reserve : ℕ → Driver Queue → Driver Queue
  reserve slot d = record d {
    ports = set_slot slot reserved d.ports;
    port_count = add32 d.port_count 1;
  }

  unfoldable pub give_back : ℕ → Driver Queue → Driver Queue
  give_back slot d = record d {
    ports = set_slot slot vacant d.ports;
    port_count = sub32 d.port_count 1;
  }

  -- The kernel's objects after the locks, the rings and the pair are freed.
  abbrev pub free_parts : Making Queue → Kernel
  free_parts s = record (s.kernel) {
    locks = s.kernel.locks - one_if s.pair.data_lock - one_if s.pair.signal_lock;
    blocks =
        s.kernel.blocks
        - ring_blocks s.pair.companion_to_com
        - ring_blocks s.pair.com_to_companion
        - 1;
  }

  -- fail_alloc
  unfoldable pub fail_alloc : ℕ → ℕ → Making Queue → Driver Queue → Driver Queue
  fail_alloc slot p s d =
      let freed = record d { kernel = free_parts s; heap = put d.heap p none } in
      if is_reserved slot d.ports then give_back slot freed else freed

  -- The pair is put in the table and gets its devices.
  unfoldable pub publish :
      PairCalls Queue → ℕ → ℕ → ℕ → Making Queue → Driver Queue → Status × Option ℕ × Driver Queue
  publish calls slot number p s d =
      let published = record d { ports = set_slot slot (pointer p) d.ports } in
      let (st, made) = make_devices calls number s in
      elim (nt_success st) [
        | false ↦ (st, none, fail_alloc slot p made (give_back slot published))
        | true ↦ (
          st,
          some p,
          record published { heap = put d.heap p (some made.pair); kernel = made.kernel },
        )
      ]

  -- The pair that was allocated is started and published.
  unfoldable pub start_pair :
      PairCalls Queue → ℕ → ℕ → ℕ → Driver Queue → Status × Option ℕ × Driver Queue
  start_pair calls slot number p d =
      let (st, s) = initialise calls (record {
        pair = new_pair number;
        kernel = record (d.kernel) { blocks = d.kernel.blocks + 1 };
      }) in
      elim (nt_success st) [
        | false ↦ (st, none, fail_alloc slot p s d)
        | true ↦ publish calls slot number p s d
      ]

  -- What follows once the slot is reserved.
  unfoldable pub fill_slot :
      PairCalls Queue → ℕ → ℕ → Driver Queue → Status × Option ℕ × Driver Queue
  fill_slot calls slot number d = elim calls.pair_memory [
    | none ↦ (insufficient_resources, none, give_back slot d)
    | some p ↦ start_pair calls slot number p d
  ]

  -- GcomPortPairCreate: the status, the pair, and the driver's state.
  unfoldable pub port_pair_create :
      PairCalls Queue → ℕ → Driver Queue → Status × Option ℕ × Driver Queue
  port_pair_create calls requested d = elim (free_slot d.ports) [
    | none ↦ (insufficient_resources, none, d)
    | some slot ↦
        let (st, number) = choose_number calls.com_link calls.comp_link d requested in
        elim (nt_success st) [
          | false ↦ (st, none, d)
          | true ↦ fill_slot calls slot number (reserve slot d)
        ]
  ]
