-- ===== src/Com/Settings/RoundTrip.antt =====
-- What an application stores with a SET request it reads back with the GET request.
use ghostcom.Base.{ℕ, ◌≡◌, refl, ap, sym, true, ◌∙◌}
use ghostcom.Base.{List, [], ◌∷◌, take, length, get_or}
use ghostcom.Status.{nt_success, success}
use ghostcom.Bytes.{get32}
use ghostcom.Wdf.{Wdf, Completion, complete_bytes}
use ghostcom.Pair.{PortPair}
use ghostcom.Changed.{
  changed_baud, changed_line_ctrl, changed_handflow, changed_chars, changed_wait_mask,
}
use ghostcom.Signal.{signal_changed}
use ghostcom.Signal.Changed.{signal_changed_frame}
use ghostcom.Buffers.{with_input, with_output}
use ghostcom.Com.Settings.{set_baud_rate, get_baud_rate, set_line_control, get_line_control}
use ghostcom.Com.Settings.{
  set_timeouts, get_timeouts, set_handflow, get_handflow, set_chars, get_chars,
}
use ghostcom.Com.Waits.{set_wait_mask, get_wait_mask, purge_queue}
use ghostcom.Com.Settings.Proper.{AreBytes, take-tabulate, one_word, four_words, five_words}

-- The settings that have both a SET and a GET request, and the size of their structure.
pub data Setting : Type 0 where
  baud line_control timeout_values handflow chars wait_mask_value : Setting

abbrev pub setting_size : Setting → ℕ
setting_size baud = 4
setting_size line_control = 3
setting_size timeout_values = 20
setting_size handflow = 16
setting_size chars = 6
setting_size wait_mask_value = 4

module _ (wdf : Wdf) where
  open wdf use {Request, Queue, input_buffer, output_buffer}

  abbrev pub set_setting :
      Setting → PortPair Queue → Request → PortPair Queue × List (Completion Request)
  set_setting baud = set_baud_rate wdf
  set_setting line_control = set_line_control wdf
  set_setting timeout_values = set_timeouts wdf
  set_setting handflow = set_handflow wdf
  set_setting chars = set_chars wdf
  set_setting wait_mask_value = set_wait_mask wdf

  abbrev pub get_setting :
      Setting → PortPair Queue → Request → PortPair Queue × List (Completion Request)
  get_setting baud = get_baud_rate wdf
  get_setting line_control = get_line_control wdf
  get_setting timeout_values = get_timeouts wdf
  get_setting handflow = get_handflow wdf
  get_setting chars = get_chars wdf
  get_setting wait_mask_value = get_wait_mask wdf

  module _ (pp : PortPair Queue) (r q : Request) where
    -- A GET after a SET, once the stored fields are known.
    given :
        (bytes : List ℕ) (pp' : PortPair Queue)
        → nt_success (output_buffer q (length bytes)).0 ≡ true
        → (with_output wdf bytes pp' q).1 ≡ complete_bytes q success (length bytes) bytes ∷ []
    unfolding with_output
    given bytes pp' room = rw (room, with_output) refl

    -- Of each setting: where the input buffer of the SET request `r` is long enough and has
    -- proper bytes, and the output buffer of the GET request `q` has room, `q` after `r`
    -- gives the structure back.
    pub get_setting-set_setting :
        (x : Setting)
        → nt_success (input_buffer r (setting_size x)).0 ≡ true
        → AreBytes (input_buffer r (setting_size x)).1
        → nt_success (output_buffer q (setting_size x)).0 ≡ true
        → (get_setting x (set_setting x pp r).0 q).1
          ≡ complete_bytes q success
              (setting_size x)
              (take (setting_size x) (input_buffer r (setting_size x)).1)
            ∷ []
    unfolding set_baud_rate get_baud_rate set_line_control get_line_control set_timeouts
        get_timeouts set_handflow get_handflow set_chars get_chars set_wait_mask get_wait_mask
        with_input
    get_setting-set_setting baud ok proper room =
        let bytes = (input_buffer r 4).1 in
        let told = record pp {
          signal_state = record (pp.signal_state) { baud_rate = get32 bytes 0 };
        } in
        let e : (signal_changed wdf told changed_baud).0.signal_state.baud_rate ≡ get32 bytes 0 =
          ap (λ p. p.signal_state.baud_rate) (signal_changed_frame wdf told changed_baud) in
        rw (ok, with_input, e)
          (given _ _ room
            ∙ ap (λ b. complete_bytes q success 4 b ∷ [])
                (one_word bytes proper (wdf.input_length r 4 ok).0))
    get_setting-set_setting line_control ok proper room =
        let bytes = (input_buffer r 3).1 in
        let told = record pp {
          signal_state = record (pp.signal_state) {
            stop_bits = get_or bytes 0 0;
            parity = get_or bytes 1 0;
            data_bits = get_or bytes 2 0;
          };
        } in
        let frame = signal_changed_frame wdf told changed_line_ctrl in
        let e0 : (signal_changed wdf told changed_line_ctrl).0.signal_state.stop_bits
            ≡ get_or bytes 0 0 =
          ap (λ p. p.signal_state.stop_bits) frame in
        let e1 : (signal_changed wdf told changed_line_ctrl).0.signal_state.parity
            ≡ get_or bytes 1 0 =
          ap (λ p. p.signal_state.parity) frame in
        let e2 : (signal_changed wdf told changed_line_ctrl).0.signal_state.data_bits
            ≡ get_or bytes 2 0 =
          ap (λ p. p.signal_state.data_bits) frame in
        rw (ok, with_input, e0, e1, e2)
          (given _ _ room
            ∙ ap (λ b. complete_bytes q success 3 b ∷ [])
                (sym (take-tabulate 3 bytes (wdf.input_length r 3 ok).0)))
    get_setting-set_setting timeout_values ok proper room =
        let bytes = (input_buffer r 20).1 in
        rw (ok, with_input)
          (given _ _ room
            ∙ ap (λ b. complete_bytes q success 20 b ∷ [])
                (five_words bytes proper (wdf.input_length r 20 ok).0))
    get_setting-set_setting handflow ok proper room =
        let bytes = (input_buffer r 16).1 in
        let told = record pp {
          signal_state = record (pp.signal_state) {
            control_hand_shake = get32 bytes 0;
            flow_replace = get32 bytes 4;
            xon_limit = get32 bytes 8;
            xoff_limit = get32 bytes 12;
          };
        } in
        let frame = signal_changed_frame wdf told changed_handflow in
        let e0 : (signal_changed wdf told changed_handflow).0.signal_state.control_hand_shake
            ≡ get32 bytes 0 =
          ap (λ p. p.signal_state.control_hand_shake) frame in
        let e1 : (signal_changed wdf told changed_handflow).0.signal_state.flow_replace
            ≡ get32 bytes 4 =
          ap (λ p. p.signal_state.flow_replace) frame in
        let e2 : (signal_changed wdf told changed_handflow).0.signal_state.xon_limit
            ≡ get32 bytes 8 =
          ap (λ p. p.signal_state.xon_limit) frame in
        let e3 : (signal_changed wdf told changed_handflow).0.signal_state.xoff_limit
            ≡ get32 bytes 12 =
          ap (λ p. p.signal_state.xoff_limit) frame in
        rw (ok, with_input, e0, e1, e2, e3)
          (given _ _ room
            ∙ ap (λ b. complete_bytes q success 16 b ∷ [])
                (four_words bytes proper (wdf.input_length r 16 ok).0))
    get_setting-set_setting chars ok proper room =
        let bytes = (input_buffer r 6).1 in
        let told = record pp {
          signal_state = record (pp.signal_state) {
            eof_char = get_or bytes 0 0;
            error_char = get_or bytes 1 0;
            break_char = get_or bytes 2 0;
            event_char = get_or bytes 3 0;
            xon_char = get_or bytes 4 0;
            xoff_char = get_or bytes 5 0;
          };
        } in
        let frame = signal_changed_frame wdf told changed_chars in
        let e0 : (signal_changed wdf told changed_chars).0.signal_state.eof_char
            ≡ get_or bytes 0 0 =
          ap (λ p. p.signal_state.eof_char) frame in
        let e1 : (signal_changed wdf told changed_chars).0.signal_state.error_char
            ≡ get_or bytes 1 0 =
          ap (λ p. p.signal_state.error_char) frame in
        let e2 : (signal_changed wdf told changed_chars).0.signal_state.break_char
            ≡ get_or bytes 2 0 =
          ap (λ p. p.signal_state.break_char) frame in
        let e3 : (signal_changed wdf told changed_chars).0.signal_state.event_char
            ≡ get_or bytes 3 0 =
          ap (λ p. p.signal_state.event_char) frame in
        let e4 : (signal_changed wdf told changed_chars).0.signal_state.xon_char
            ≡ get_or bytes 4 0 =
          ap (λ p. p.signal_state.xon_char) frame in
        let e5 : (signal_changed wdf told changed_chars).0.signal_state.xoff_char
            ≡ get_or bytes 5 0 =
          ap (λ p. p.signal_state.xoff_char) frame in
        rw (ok, with_input, e0, e1, e2, e3, e4, e5)
          (given _ _ room
            ∙ ap (λ b. complete_bytes q success 6 b ∷ [])
                (sym (take-tabulate 6 bytes (wdf.input_length r 6 ok).0)))
    get_setting-set_setting wait_mask_value ok proper room =
        let bytes = (input_buffer r 4).1 in
        let told = record pp {
          signal_state = record (pp.signal_state) { wait_mask = get32 bytes 0 };
          wait_mask_queue = purge_queue wdf pp.wait_mask_queue;
        } in
        let frame = signal_changed_frame wdf told changed_wait_mask in
        let e0 : (signal_changed wdf told changed_wait_mask).0.signal_state.wait_mask
            ≡ get32 bytes 0 =
          ap (λ p. p.signal_state.wait_mask) frame in
        rw (ok, with_input, e0)
          (given _ _ room
            ∙ ap (λ b. complete_bytes q success 4 b ∷ [])
                (one_word bytes proper (wdf.input_length r 4 ok).0))
