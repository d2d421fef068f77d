-- ===== src/Pair/New.antt =====
-- driver/src/portpair.c: a port pair as GcomPortPairCreate zeroes it.
use ghostcom.Base.{ℕ, true, false, [], none}
use ghostcom.Ring.{Ring}
use ghostcom.Pair.{PortPair, SignalState, Timeouts, PerfStats}

abbrev pub no_ring : Ring
no_ring = record { buffer = []; size = 0; mask = 0; write_pos = 0; read_pos = 0 }

abbrev pub no_signals : SignalState
no_signals = record {
  sequence_number = 0;
  changed_mask = 0;
  baud_rate = 0;
  stop_bits = 0;
  parity = 0;
  data_bits = 0;
  dtr_state = 0;
  rts_state = 0;
  break_state = 0;
  control_hand_shake = 0;
  flow_replace = 0;
  xon_limit = 0;
  xoff_limit = 0;
  eof_char = 0;
  error_char = 0;
  break_char = 0;
  event_char = 0;
  xon_char = 0;
  xoff_char = 0;
  wait_mask = 0;
}

abbrev pub no_timeouts : Timeouts
no_timeouts = record {
  read_interval_timeout = 0;
  read_total_timeout_multiplier = 0;
  read_total_timeout_constant = 0;
  write_total_timeout_multiplier = 0;
  write_total_timeout_constant = 0;
}

abbrev pub no_counts : PerfStats
no_counts = record {
  received_count = 0;
  transmitted_count = 0;
  frame_error_count = 0;
  serial_overrun_error_count = 0;
  buffer_overrun_error_count = 0;
  parity_error_count = 0;
}

module _ {Queue : Type 0} where
  -- The structure after it was zeroed and given its numbers, the active flag and one reference.
  abbrev pub new_pair : ℕ → PortPair Queue
  new_pair number = record {
    port_number = number;
    companion_index = number;
    active = true;
    com_device = none;
    companion_device = none;
    com_sym_link = false;
    comp_sym_link = false;
    com_side_open = 0;
    companion_side_open = 0;
    com_to_companion = no_ring;
    companion_to_com = no_ring;
    com_read_queue = none;
    com_write_queue = none;
    comp_read_queue = none;
    comp_write_queue = none;
    signal_state = no_signals;
    signal_lock = false;
    data_lock = false;
    comp_dtr = false;
    comp_rts = false;
    signal_wait_queue = none;
    wait_mask_queue = none;
    timeouts = no_timeouts;
    perf_stats = no_counts;
    ref_count = 1;
  }
