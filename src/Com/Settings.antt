-- ===== src/Com/Settings.antt =====
-- driver/src/comport.c, GcomComEvtIoctl: the settings that an application stores and reads back.

pub mod Proper
pub mod RoundTrip
use ghostcom.Base.{ℕ, List, [], ◌∷◌, ◌++◌, get_or}
use ghostcom.Status.{success}
use ghostcom.Bytes.{put32, get32}
use ghostcom.Wdf.{Wdf, Completion, complete}
use ghostcom.Pair.{PortPair, SignalState, Timeouts}
use ghostcom.Changed.{changed_baud, changed_line_ctrl, changed_handflow, changed_chars}
use ghostcom.Signal.{signal_changed}
use ghostcom.Buffers.{with_input, with_output}

module _ (wdf : Wdf) where
  open wdf use {Request, Queue}

  -- The new signal state is told to the companion, and the request completed.
  abbrev pub tell :
      PortPair Queue → SignalState → ℕ → Request → PortPair Queue × List (Completion Request)
  tell pp state bits request =
      let (pp', told) = signal_changed wdf (record pp { signal_state = state }) bits in
      (pp', told ++ (complete request success ∷ []))

  -- IOCTL_SERIAL_SET_BAUD_RATE
  unfoldable pub set_baud_rate :
      PortPair Queue → Request → PortPair Queue × List (Completion Request)
  set_baud_rate pp request =
      with_input wdf 4
        (λ bytes.
          tell pp (record (pp.signal_state) { baud_rate = get32 bytes 0 }) changed_baud request)
        pp request

  -- IOCTL_SERIAL_GET_BAUD_RATE
  unfoldable pub get_baud_rate :
      PortPair Queue → Request → PortPair Queue × List (Completion Request)
  get_baud_rate pp request = with_output wdf (put32 pp.signal_state.baud_rate []) pp request

  -- IOCTL_SERIAL_SET_LINE_CONTROL
  unfoldable pub set_line_control :
      PortPair Queue → Request → PortPair Queue × List (Completion Request)
  set_line_control pp request =
      with_input wdf 3
        (λ bytes.
          tell pp
            (record (pp.signal_state) {
              stop_bits = get_or bytes 0 0;
              parity = get_or bytes 1 0;
              data_bits = get_or bytes 2 0;
            })
            changed_line_ctrl request)
        pp request

  -- IOCTL_SERIAL_GET_LINE_CONTROL
  unfoldable pub get_line_control :
      PortPair Queue → Request → PortPair Queue × List (Completion Request)
  get_line_control pp request =
      let s = pp.signal_state in
      with_output wdf (s.stop_bits ∷ s.parity ∷ s.data_bits ∷ []) pp request

  -- IOCTL_SERIAL_SET_TIMEOUTS
  unfoldable pub set_timeouts :
      PortPair Queue → Request → PortPair Queue × List (Completion Request)
  set_timeouts pp request =
      with_input wdf 20
        (λ bytes. (
          record pp {
            timeouts = record {
              read_interval_timeout = get32 bytes 0;
              read_total_timeout_multiplier = get32 bytes 4;
              read_total_timeout_constant = get32 bytes 8;
              write_total_timeout_multiplier = get32 bytes 12;
              write_total_timeout_constant = get32 bytes 16;
            };
          },
          complete request success ∷ [],
        ))
        pp request

  -- IOCTL_SERIAL_GET_TIMEOUTS
  unfoldable pub get_timeouts :
      PortPair Queue → Request → PortPair Queue × List (Completion Request)
  get_timeouts pp request =
      let t = pp.timeouts in
      with_output wdf
        (put32 t.read_interval_timeout (
          put32 t.read_total_timeout_multiplier (
            put32 t.read_total_timeout_constant
              (put32 t.write_total_timeout_multiplier (put32 t.write_total_timeout_constant [])))))
        pp request

  -- IOCTL_SERIAL_SET_HANDFLOW
  unfoldable pub set_handflow :
      PortPair Queue → Request → PortPair Queue × List (Completion Request)
  set_handflow pp request =
      with_input wdf 16
        (λ bytes.
          tell pp
            (record (pp.signal_state) {
              control_hand_shake = get32 bytes 0;
              flow_replace = get32 bytes 4;
              xon_limit = get32 bytes 8;
              xoff_limit = get32 bytes 12;
            })
            changed_handflow request)
        pp request

  -- IOCTL_SERIAL_GET_HANDFLOW
  unfoldable pub get_handflow :
      PortPair Queue → Request → PortPair Queue × List (Completion Request)
  get_handflow pp request =
      let s = pp.signal_state in
      with_output wdf
        (put32 s.control_hand_shake
          (put32 s.flow_replace (put32 s.xon_limit (put32 s.xoff_limit []))))
        pp request

  -- IOCTL_SERIAL_SET_CHARS
  unfoldable pub set_chars : PortPair Queue → Request → PortPair Queue × List (Completion Request)
  set_chars pp request =
      with_input wdf 6
        (λ bytes.
          tell pp
            (record (pp.signal_state) {
              eof_char = get_or bytes 0 0;
              error_char = get_or bytes 1 0;
              break_char = get_or bytes 2 0;
              event_char = get_or bytes 3 0;
              xon_char = get_or bytes 4 0;
              xoff_char = get_or bytes 5 0;
            })
            changed_chars request)
        pp request

  -- IOCTL_SERIAL_GET_CHARS
  unfoldable pub get_chars : PortPair Queue → Request → PortPair Queue × List (Completion Request)
  get_chars pp request =
      let s = pp.signal_state in
      with_output wdf
        (s.eof_char ∷ s.error_char ∷ s.break_char ∷ s.event_char ∷ s.xon_char ∷ s.xoff_char ∷ []) pp
        request
