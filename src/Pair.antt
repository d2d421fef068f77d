-- ===== src/Pair.antt =====
-- driver/src/driver.h and ioctls.h: the port pair and what it holds.
pub mod New
use ghostcom.Base.{ℕ, Bool, Option, List, [], ◌∷◌}
use ghostcom.Bytes.{put32}
use ghostcom.Ring.{Ring}

-- GCOM_SIGNAL_STATE
pub record SignalState : Type 0 where
  pub sequence_number : ℕ
  pub changed_mask : ℕ
  pub baud_rate : ℕ
  pub stop_bits : ℕ
  pub parity : ℕ
  pub data_bits : ℕ
  pub dtr_state : ℕ
  pub rts_state : ℕ
  pub break_state : ℕ
  pub control_hand_shake : ℕ
  pub flow_replace : ℕ
  pub xon_limit : ℕ
  pub xoff_limit : ℕ
  pub eof_char : ℕ
  pub error_char : ℕ
  pub break_char : ℕ
  pub event_char : ℕ
  pub xon_char : ℕ
  pub xoff_char : ℕ
  pub wait_mask : ℕ

-- The structure in memory, with its padding (zero since the pair was zeroed).
abbrev pub signal_bytes : SignalState → List ℕ
signal_bytes s = put32 s.sequence_number (
    put32 s.changed_mask (
      put32 s.baud_rate (
        s.stop_bits
        ∷ s.parity
        ∷ s.data_bits
        ∷ 0
        ∷ put32 s.dtr_state (
            put32 s.rts_state (
              put32 s.break_state (
                put32 s.control_hand_shake (
                  put32 s.flow_replace (
                    put32 s.xon_limit (
                      put32 s.xoff_limit (
                        s.eof_char
                        ∷ s.error_char
                        ∷ s.break_char
                        ∷ s.event_char
                        ∷ s.xon_char
                        ∷ s.xoff_char
                        ∷ 0
                        ∷ 0
                        ∷ put32 s.wait_mask []))))))))))

-- SERIAL_TIMEOUTS
pub record Timeouts : Type 0 where
  pub read_interval_timeout : ℕ
  pub read_total_timeout_multiplier : ℕ
  pub read_total_timeout_constant : ℕ
  pub write_total_timeout_multiplier : ℕ
  pub write_total_timeout_constant : ℕ

-- SERIALPERF_STATS
pub record PerfStats : Type 0 where
  pub received_count : ℕ
  pub transmitted_count : ℕ
  pub frame_error_count : ℕ
  pub serial_overrun_error_count : ℕ
  pub buffer_overrun_error_count : ℕ
  pub parity_error_count : ℕ

-- GCOM_PORT_PAIR, but for its shadow PDO. A handle is NULL (`none`) before creation and from
-- destruction on; of a symbolic link's name and of a lock it is known whether it is there.
pub record PortPair (Queue : Type 0) : Type 0 where
  pub port_number : ℕ
  pub companion_index : ℕ
  pub active : Bool
  pub com_device : Option ℕ
  pub companion_device : Option ℕ
  pub com_sym_link : Bool
  pub comp_sym_link : Bool
  pub com_side_open : ℕ
  pub companion_side_open : ℕ
  pub com_to_companion : Ring
  pub companion_to_com : Ring
  pub com_read_queue : Option Queue
  pub com_write_queue : Option Queue
  pub comp_read_queue : Option Queue
  pub comp_write_queue : Option Queue
  pub signal_state : SignalState
  pub signal_lock : Bool
  pub data_lock : Bool
  pub comp_dtr : Bool
  pub comp_rts : Bool
  pub signal_wait_queue : Option Queue
  pub wait_mask_queue : Option Queue
  pub timeouts : Timeouts
  pub perf_stats : PerfStats
  pub ref_count : ℕ
