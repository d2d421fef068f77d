-- ===== src/Com/Lines/Told.antt =====
-- The requests that change the COM side's lines: what the companion is told, and what the COM side
-- reads back.
use ghostcom.Base.{ℕ, Bool, true, false, ◌≡◌, refl, ap, ap₂, ◌∙◌, bit_and, bit_or, if◌then◌else◌}
use ghostcom.Base.{arith, sym, ◌+◌, ◌==◌, List, [], ◌∷◌, ◌++◌, map}
use Prim.Native.Nat.{bit_and-bitwise}
use ghostcom.Status.{nt_success, success}
use ghostcom.Bytes.{put32, get32}
use ghostcom.Ntddser.{ev_break, mcr_dtr, mcr_rts, dtr_line, rts_line}
use ghostcom.Changed.{changed_dtr, changed_rts, changed_break}
use ghostcom.Wdf.{Wdf, Completion, complete, complete_bytes, held}
use ghostcom.Pair.{PortPair, SignalState, signal_bytes}
use ghostcom.Signal.{noted, signal_changed}
use ghostcom.Signal.Answer.{answer}
use ghostcom.Signal.Changed.{signal_changed_lem, signal_changed_frame, check_wait_mask_lem}
use ghostcom.Buffers.{with_input, with_output}
use ghostcom.Com.Settings.{tell}
use ghostcom.Com.Lines.{is_set, set_dtr, clr_dtr, set_rts, clr_rts, set_break_on, set_break_off}
use ghostcom.Com.Lines.{get_dtrrts, get_modem_control, set_modem_control}

-- The requests that set a line to a state, with the state they ask for (for SET_MODEM_CONTROL by
-- the register value that it brings), the bits they note and the events they make.
pub data LineChange : Type 0 where
  raise_dtr drop_dtr raise_rts drop_rts start_break end_break set_lines : LineChange

abbrev pub asked_state : LineChange → ℕ → SignalState → SignalState
asked_state raise_dtr mcr s = record s { dtr_state = 1 }
asked_state drop_dtr mcr s = record s { dtr_state = 0 }
asked_state raise_rts mcr s = record s { rts_state = 1 }
asked_state drop_rts mcr s = record s { rts_state = 0 }
asked_state start_break mcr s = record s { break_state = 1 }
asked_state end_break mcr s = record s { break_state = 0 }
asked_state set_lines mcr s = record s {
  dtr_state = if is_set (bit_and mcr mcr_dtr) then 1 else 0;
  rts_state = if is_set (bit_and mcr mcr_rts) then 1 else 0;
}

abbrev pub line_bit : LineChange → ℕ
line_bit raise_dtr = changed_dtr
line_bit drop_dtr = changed_dtr
line_bit raise_rts = changed_rts
line_bit drop_rts = changed_rts
line_bit start_break = changed_break
line_bit end_break = changed_break
line_bit set_lines = changed_dtr + changed_rts

abbrev pub break_event : LineChange → ℕ
break_event raise_dtr = 0
break_event drop_dtr = 0
break_event raise_rts = 0
break_event drop_rts = 0
break_event start_break = ev_break
break_event end_break = 0
break_event set_lines = 0

module _ (wdf : Wdf) where
  open wdf use {Request, Queue, input_buffer, output_buffer}

  abbrev pub change_line :
      LineChange → PortPair Queue → Request → PortPair Queue × List (Completion Request)
  change_line raise_dtr = set_dtr wdf
  change_line drop_dtr = clr_dtr wdf
  change_line raise_rts = set_rts wdf
  change_line drop_rts = clr_rts wdf
  change_line start_break = set_break_on wdf
  change_line end_break = set_break_off wdf
  change_line set_lines = set_modem_control wdf

  module _ (pp : PortPair Queue) where
    -- The answers to the waits of the COM side's mask on some events.
    abbrev pub mask_answers : ℕ → List (Completion Request)
    mask_answers events =
        let matched = bit_and events pp.signal_state.wait_mask in
        if matched == 0
        then []
        else map (answer wdf (put32 matched [])) (held wdf pp.wait_mask_queue)

    mask_answers-zero : mask_answers 0 ≡ []
    mask_answers-zero =
        let nothing : bit_and 0 pp.signal_state.wait_mask ≡ 0 =
          omega (arith, bit_and-bitwise 0 pp.signal_state.wait_mask) in
        rw nothing refl

    tell_lem :
        (state : SignalState) (bits : ℕ) (r : Request)
        → pp.active ≡ true
        → let snapshot = noted state bits in
          (bit_and snapshot.changed_mask bits ≡ bits)
          × ((tell wdf pp state bits r).1
              ≡ map (answer wdf (signal_bytes snapshot)) (held wdf pp.signal_wait_queue)
                ++ (mask_answers 0 ++ (complete r success ∷ [])))
    tell_lem state bits r on =
        let waits = held wdf pp.signal_wait_queue in
        let (_, mask, log, _) =
          signal_changed_lem wdf (record pp { signal_state = state }) bits on in
        (
          mask,
          ap₂ (λ told events. told ++ (events ++ (complete r success ∷ []))) log
              (sym mask_answers-zero),
        )

    break_lem :
        (r : Request)
        → pp.active ≡ true
        → let snapshot = noted (record (pp.signal_state) { break_state = 1 }) changed_break in
          (bit_and snapshot.changed_mask changed_break ≡ changed_break)
          × ((set_break_on wdf pp r).1
              ≡ map (answer wdf (signal_bytes snapshot)) (held wdf pp.signal_wait_queue)
                ++ (mask_answers ev_break ++ (complete r success ∷ [])))
    unfolding set_break_on
    break_lem r on =
        let before = record pp { signal_state = record (pp.signal_state) { break_state = 1 } } in
        let told_pp = (signal_changed wdf before changed_break).0 in
        let (_, mask, log, _) = signal_changed_lem wdf before changed_break on in
        let frame = signal_changed_frame wdf before changed_break in
        let events =
          (check_wait_mask_lem wdf told_pp ev_break (ap (λ p. p.active) frame ∙ on)).0
          ∙ ap₂
              (λ mask queue.
                let matched = bit_and ev_break mask in
                if matched == 0 then [] else map (answer wdf (put32 matched [])) (held wdf queue))
              (ap (λ p. p.signal_state.wait_mask) frame) (ap (λ p. p.wait_mask_queue) frame) in
        (mask, ap₂ (λ told events. told ++ (events ++ (complete r success ∷ []))) log events)

    -- On an active pair each of SET_DTR, CLR_DTR, SET_RTS, CLR_RTS, SET_BREAK_ON,
    -- SET_BREAK_OFF and, where its input buffer is long enough, SET_MODEM_CONTROL tells
    -- every pending wait of the companion the state that was asked for, with the bits of
    -- the lines in its changed mask. Then, for SET_BREAK_ON, every pending wait on the COM
    -- side's mask is told a break if the mask selects it; last the request is completed.
    pub change_line_lem :
        (x : LineChange) (r : Request)
        → pp.active ≡ true
        → (x ≡ set_lines → nt_success (input_buffer r 4).0 ≡ true)
        → let state = asked_state x (get32 (input_buffer r 4).1 0) pp.signal_state in
          let snapshot = noted state (line_bit x) in
          (bit_and snapshot.changed_mask (line_bit x) ≡ line_bit x)
          × ((change_line x pp r).1
              ≡ map (answer wdf (signal_bytes snapshot)) (held wdf pp.signal_wait_queue)
                ++ (mask_answers (break_event x) ++ (complete r success ∷ [])))
    unfolding set_dtr clr_dtr set_rts clr_rts set_break_off set_modem_control with_input
    change_line_lem raise_dtr r on readable = tell_lem _ changed_dtr r on
    change_line_lem drop_dtr r on readable = tell_lem _ changed_dtr r on
    change_line_lem raise_rts r on readable = tell_lem _ changed_rts r on
    change_line_lem drop_rts r on readable = tell_lem _ changed_rts r on
    change_line_lem start_break r on readable = break_lem r on
    change_line_lem end_break r on readable = tell_lem _ changed_break r on
    change_line_lem set_lines r on readable =
        rw (readable refl, with_input) (tell_lem _ (bit_or changed_dtr changed_rts) r on)

    module _ (r q : Request) (ok : nt_success (input_buffer r 4).0 ≡ true)
        (room : nt_success (output_buffer q 4).0 ≡ true) where
      abbrev lines_of : ℕ → ℕ → ℕ → ℕ → ℕ
      lines_of dtr_bit rts_bit d r =
          bit_or (if is_set d then dtr_bit else 0) (if is_set r then rts_bit else 0)

      -- A query of the two lines, in the bits that it has for them.
      shown :
          (dtr_bit rts_bit : ℕ) (pp' : PortPair Queue) (d d' r r' lines : ℕ)
          → d ≡ d'
          → r ≡ r'
          → lines_of dtr_bit rts_bit d' r' ≡ lines
          → (with_output wdf (put32 (lines_of dtr_bit rts_bit d r) []) pp' q).1
            ≡ complete_bytes q success 4 (put32 lines []) ∷ []
      unfolding with_output
      shown dtr_bit rts_bit pp' d d' r r' lines same same' e =
          ap₂ (λ d r. (with_output wdf (put32 (lines_of dtr_bit rts_bit d r) []) pp' q).1) same
            same'
          ∙ rw (room, with_output) (ap (λ n. complete_bytes q success 4 (put32 n []) ∷ []) e)

      -- The two queries on a pair whose line states are known.
      queried :
          (dtr rts : Bool) (pp' : PortPair Queue)
          → pp'.signal_state.dtr_state ≡ (if dtr then 1 else 0)
          → pp'.signal_state.rts_state ≡ (if rts then 1 else 0)
          → (lines : ℕ) × ((get_modem_control wdf pp' q).1
              ≡ complete_bytes q success 4 (put32 lines []) ∷ [])
            × ((get_dtrrts wdf pp' q).1 ≡ complete_bytes q success 4 (put32 lines []) ∷ [])
            × (is_set (bit_and lines dtr_line) ≡ dtr)
            × (is_set (bit_and lines rts_line) ≡ rts)
      unfolding get_modem_control get_dtrrts with_output
      queried true true pp' d r = (
        3,
        shown mcr_dtr mcr_rts pp' _ 1 _ 1 3 d r refl,
        shown dtr_line rts_line pp' _ 1 _ 1 3 d r refl,
        refl,
        refl,
      )
      queried true false pp' d r = (
        1,
        shown mcr_dtr mcr_rts pp' _ 1 _ 0 1 d r refl,
        shown dtr_line rts_line pp' _ 1 _ 0 1 d r refl,
        refl,
        refl,
      )
      queried false true pp' d r = (
        2,
        shown mcr_dtr mcr_rts pp' _ 0 _ 1 2 d r refl,
        shown dtr_line rts_line pp' _ 0 _ 1 2 d r refl,
        refl,
        refl,
      )
      queried false false pp' d r = (
        0,
        shown mcr_dtr mcr_rts pp' _ 0 _ 0 0 d r refl,
        shown dtr_line rts_line pp' _ 0 _ 0 0 d r refl,
        refl,
        refl,
      )

      abbrev mcr : ℕ
      mcr = get32 (input_buffer r 4).1 0

      states_kept :
          let s = (set_modem_control wdf pp r).0.signal_state in
          (s.dtr_state ≡ (if is_set (bit_and mcr mcr_dtr) then 1 else 0))
          × (s.rts_state ≡ (if is_set (bit_and mcr mcr_rts) then 1 else 0))
      unfolding set_modem_control with_input
      states_kept =
          let frame =
            signal_changed_frame wdf
              (record pp {
                signal_state = record (pp.signal_state) {
                  dtr_state = if is_set (bit_and mcr mcr_dtr) then 1 else 0;
                  rts_state = if is_set (bit_and mcr mcr_rts) then 1 else 0;
                };
              })
              (bit_or changed_dtr changed_rts) in
          rw (ok, with_input)
            (ap (λ p. p.signal_state.dtr_state) frame, ap (λ p. p.signal_state.rts_state) frame)

      -- After a SET_MODEM_CONTROL request `r` whose input buffer is long enough,
      -- GET_MODEM_CONTROL and GET_DTRRTS give, if the buffer has room, the same value,
      -- which has DTR and RTS where the register value of `r` has them.
      pub modem_control_lem :
          let pp' = (set_modem_control wdf pp r).0 in
          (lines : ℕ) × ((get_modem_control wdf pp' q).1
            ≡ complete_bytes q success 4 (put32 lines []) ∷ [])
          × ((get_dtrrts wdf pp' q).1 ≡ complete_bytes q success 4 (put32 lines []) ∷ [])
          × (is_set (bit_and lines dtr_line) ≡ is_set (bit_and mcr mcr_dtr))
          × (is_set (bit_and lines rts_line) ≡ is_set (bit_and mcr mcr_rts))
      modem_control_lem =
          queried (is_set (bit_and mcr mcr_dtr)) (is_set (bit_and mcr mcr_rts))
            (set_modem_control wdf pp r).0 states_kept.0 states_kept.1
