-- ===== src/Tests/Model.antt =====
-- A framework whose queues are lists, and a port pair on it.
use ghostcom.Base.{ℕ, ◌^◌, ◌<◌, ◌≤◌, ◌≡◌, refl, arith, ltb, length, if◌then◌else◌}
use ghostcom.Base.{List, [], ◌∷◌, ◌++◌, Option, none, some, true, ap, subst, ◌≢◌, ◌||◌}
use mathlib.Core.Bool.{true≢false}
use ghostcom.Status.{Status, success, failure, nt_success}
use ghostcom.Ring.{Ring}
use ghostcom.Ring.Inv.{IsValid}
use ghostcom.Wdf.{Wdf}
use ghostcom.Pair.{PortPair, SignalState}

-- A request with a number, the length of its output buffer and the bytes of its input buffer.
pub record TestRequest : Type 0 where
  pub number : ℕ
  pub space : ℕ
  pub bytes : List ℕ

abbrev pub sample_output : TestRequest → ℕ → Status × ℕ
sample_output r m =
    if ltb r.space m || ltb 4096 r.space then (failure 35, 0) else (success, r.space)

abbrev pub sample_input : TestRequest → ℕ → Status × List ℕ
sample_input r m =
    if ltb (length r.bytes) m || ltb 4096 (length r.bytes)
    then (failure 35, [])
    else (success, r.bytes)

abbrev pub take_first : List TestRequest → Option (TestRequest × List TestRequest)
take_first [] = none
take_first (r ∷ rest) = some (r, rest)

pub output_ok :
    (r : TestRequest) (m : ℕ)
    → nt_success (sample_output r m).0 ≡ true
    → (m ≤ (sample_output r m).1) × ((sample_output r m).1 < 2 ^ 32)
output_ok r m h = ground arith

pub input_ok :
    (r : TestRequest) (m : ℕ)
    → nt_success (sample_input r m).0 ≡ true
    → (m ≤ length (sample_input r m).1) × (length (sample_input r m).1 < 2 ^ 32)
input_ok r m h = ground arith

pub empty_first : (queue : List TestRequest) → queue ≡ [] → take_first queue ≡ none
empty_first [] h = refl
empty_first (r ∷ rest) h = absurd (omega (arith, ap length h))

pub head_first :
    (queue : List TestRequest) (r : TestRequest) (rest : List TestRequest)
    → queue ≡ r ∷ rest
    → (queue' : List TestRequest) × (take_first queue ≡ some (r, queue')) × (queue' ≡ rest)
head_first queue r rest h = (rest, ap take_first h, refl)

abbrev pub list_wdf : Wdf
list_wdf = record {
  Request = TestRequest;
  Queue = List TestRequest;
  pending = λ queue. queue;
  output_buffer = sample_output;
  input_buffer = sample_input;
  retrieve_next = take_first;
  forward = λ r queue. (success, queue ++ (r ∷ []));
  purge = λ _. [];
  start = λ queue. queue;
  output_length = output_ok;
  input_length = input_ok;
  retrieve_empty = empty_first;
  retrieve_first = head_first;
  forward_ok = λ r queue _. refl;
  forward_failed = λ r queue h. absurd (true≢false h);
  purge_empty = λ _. refl;
  start_pending = λ _. refl;
}

-- A ring of four bytes that holds nothing, two bytes, or as much as it can.
abbrev pub empty_ring : Ring
empty_ring = record { buffer = 0 ∷ 0 ∷ 0 ∷ 0 ∷ []; size = 4; mask = 3; write_pos = 3; read_pos = 3 }

abbrev pub two_ring : Ring
two_ring = record { buffer = 8 ∷ 0 ∷ 0 ∷ 7 ∷ []; size = 4; mask = 3; write_pos = 1; read_pos = 3 }

abbrev pub full_ring : Ring
full_ring = record { buffer = 2 ∷ 3 ∷ 0 ∷ 1 ∷ []; size = 4; mask = 3; write_pos = 2; read_pos = 3 }

pub empty_ring-IsValid : IsValid empty_ring
empty_ring-IsValid = record {
  exponent = 2;
  small = omega arith;
  power = refl;
  masks = refl;
  storage = refl;
  write_in = omega arith;
  read_in = omega arith;
}

pub two_ring-IsValid : IsValid two_ring
two_ring-IsValid = record {
  exponent = 2;
  small = omega arith;
  power = refl;
  masks = refl;
  storage = refl;
  write_in = omega arith;
  read_in = omega arith;
}

pub full_ring-IsValid : IsValid full_ring
full_ring-IsValid = record {
  exponent = 2;
  small = omega arith;
  power = refl;
  masks = refl;
  storage = refl;
  write_in = omega arith;
  read_in = omega arith;
}

-- A request for 64 bytes that brings eight, the first of them 1.
abbrev pub request : ℕ → TestRequest
request n = record { number = n; space = 64; bytes = 1 ∷ 0 ∷ 0 ∷ 0 ∷ 0 ∷ 0 ∷ 0 ∷ 0 ∷ [] }

abbrev pub start_state : SignalState
start_state = record {
  sequence_number = 6;
  changed_mask = 0;
  baud_rate = 9600;
  stop_bits = 0;
  parity = 0;
  data_bits = 8;
  dtr_state = 0;
  rts_state = 0;
  break_state = 0;
  control_hand_shake = 0;
  flow_replace = 0;
  xon_limit = 0;
  xoff_limit = 0;
  eof_char = 0;
  error_char = 0;
  break_char = 0;
  event_char = 0;
  xon_char = 0;
  xoff_char = 0;
  wait_mask = 0x39;
}

-- A pair with a full ring to the companion and two bytes for the COM side; a companion waits for
-- a signal, and the COM side for an event.
abbrev pub pair : PortPair (List TestRequest)
pair = record {
  port_number = 5;
  companion_index = 5;
  active = true;
  com_device = some 1;
  companion_device = some 2;
  com_sym_link = true;
  comp_sym_link = true;
  com_side_open = 0;
  companion_side_open = 0;
  com_to_companion = full_ring;
  companion_to_com = two_ring;
  com_read_queue = some [];
  com_write_queue = some [];
  comp_read_queue = some [];
  comp_write_queue = some [];
  signal_state = start_state;
  signal_lock = true;
  data_lock = true;
  comp_dtr = true;
  comp_rts = true;
  signal_wait_queue = some (request 1 ∷ []);
  wait_mask_queue = some (request 2 ∷ []);
  timeouts = record {
    read_interval_timeout = 0;
    read_total_timeout_multiplier = 0;
    read_total_timeout_constant = 0;
    write_total_timeout_multiplier = 0;
    write_total_timeout_constant = 0;
  };
  perf_stats = record {
    received_count = 0;
    transmitted_count = 0;
    frame_error_count = 0;
    serial_overrun_error_count = 0;
    buffer_overrun_error_count = 0;
    parity_error_count = 0;
  };
  ref_count = 1;
}

pub some_ne_none : (queue : List TestRequest) → some queue ≢ none
some_ne_none queue h = some_is h
  where
    is_some : Option (List TestRequest) → Type 0
    is_some none = ⊥
    is_some (some _) = Unit

    some_is : some queue ≡ none → ⊥
    some_is e = subst is_some e tt
