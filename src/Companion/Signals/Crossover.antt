-- ===== src/Companion/Signals/Crossover.antt =====
-- The companion's lines as the COM side and the companion see them.
use ghostcom.Base.{ℕ, arith, Bool, true, false, ◌≡◌, refl, ap, bit_and, bit_or, if◌then◌else◌, ◌==◌}
use ghostcom.Base.{==_iff, inl, inr, Bool-cases, ap₂, sym, ◌∙◌, ◌+◌, List, [], ◌∷◌, ◌++◌, map}
use Prim.Native.Nat.{bit_and-bitwise}
use ghostcom.Status.{nt_success, success}
use ghostcom.Bytes.{put32, get32}
use ghostcom.Ntddser.{dsr_line, dcd_line, cts_line, ev_cts, ev_dsr, ev_rlsd}
use ghostcom.Wdf.{Wdf, complete, complete_bytes, held}
use ghostcom.Pair.{PortPair, SignalState, signal_bytes}
use ghostcom.Signal.Answer.{answer}
use ghostcom.Signal.Changed.{check_wait_mask_frame, check_wait_mask_lem}
use ghostcom.Buffers.{with_input, with_output}
use ghostcom.Com.Lines.{is_set, modem_status, get_modemstatus}
use ghostcom.Companion.Signals.{set_comp_signals, get_comp_signals, own_lines, line_events}

-- The modem status has DSR and DCD from one line and CTS from the other.
abbrev pub IsCrossed : ℕ → Bool → Bool → Type 0
IsCrossed status dtr rts =
    (is_set (bit_and status dsr_line) ≡ dtr)
    × (is_set (bit_and status dcd_line) ≡ dtr)
    × (is_set (bit_and status cts_line) ≡ rts)

crossed :
    (dtr rts : Bool)
    → IsCrossed
        (bit_or (if dtr then bit_or dsr_line dcd_line else 0) (if rts then cts_line else 0))
        dtr
        rts
crossed true true = (refl, refl, refl)
crossed true false = (refl, refl, refl)
crossed false true = (refl, refl, refl)
crossed false false = (refl, refl, refl)

-- The events of one line: none where it stays as it is.
abbrev line_told : Bool → Bool → ℕ → ℕ
line_told true true events = 0
line_told true false events = events
line_told false true events = events
line_told false false events = 0

-- The events of a change of the two lines: the peer's CTS goes with RTS, its DSR and its RLSD with
-- DTR.
abbrev pub peer_events : Bool → Bool → Bool → Bool → ℕ
peer_events old_dtr old_rts new_dtr new_rts =
    line_told old_rts new_rts ev_cts + line_told old_dtr new_dtr (ev_dsr + ev_rlsd)

line_events_lem :
    (old_dtr old_rts new_dtr new_rts : Bool)
    → line_events old_dtr old_rts new_dtr new_rts ≡ peer_events old_dtr old_rts new_dtr new_rts
unfolding line_events
line_events_lem true true true true = refl
line_events_lem true true true false = refl
line_events_lem true true false true = refl
line_events_lem true true false false = refl
line_events_lem true false true true = refl
line_events_lem true false true false = refl
line_events_lem true false false true = refl
line_events_lem true false false false = refl
line_events_lem false true true true = refl
line_events_lem false true true false = refl
line_events_lem false true false true = refl
line_events_lem false true false false = refl
line_events_lem false false true true = refl
line_events_lem false false true false = refl
line_events_lem false false false true = refl
line_events_lem false false false false = refl

module _ (wdf : Wdf) where
  open wdf use {Request, Queue, input_buffer, output_buffer}

  module _ (pp : PortPair Queue) (r : Request) (ok : nt_success (input_buffer r 8).0 ≡ true) where
    abbrev dtr : Bool
    dtr = is_set (get32 (input_buffer r 8).1 0)

    abbrev rts : Bool
    rts = is_set (get32 (input_buffer r 8).1 4)

    lines_kept :
        ((set_comp_signals wdf pp r).0.comp_dtr ≡ dtr)
        × ((set_comp_signals wdf pp r).0.comp_rts ≡ rts)
        × ((set_comp_signals wdf pp r).0.signal_state ≡ pp.signal_state)
    unfolding set_comp_signals with_input
    lines_kept =
        let events = line_events pp.comp_dtr pp.comp_rts dtr rts in
        let frame =
          check_wait_mask_frame wdf (record pp { comp_dtr = dtr; comp_rts = rts }) events in
        elim (Bool-cases (is_set events)) [
          | inl some_event ↦
              rw (ok, with_input, some_event)
                (
                  ap (λ p. p.comp_dtr) frame,
                  ap (λ p. p.comp_rts) frame,
                  ap (λ p. p.signal_state) frame,
                )
          | inr no_event ↦ rw (ok, with_input, no_event) (refl, refl, refl)
        ]

    -- After a SET_SIGNALS request `r` of the companion whose input buffer is long enough,
    -- GET_MODEMSTATUS on the COM side gives, if its buffer has room, a status whose DSR and
    -- DCD are the DTR of `r` and whose CTS is its RTS.
    pub get_modemstatus-set_comp_signals :
        (q : Request)
        → nt_success (output_buffer q 4).0 ≡ true
        → (status : ℕ) × ((get_modemstatus wdf (set_comp_signals wdf pp r).0 q).1
            ≡ complete_bytes q success 4 (put32 status []) ∷ [])
          × IsCrossed status dtr rts
    unfolding get_modemstatus with_output modem_status
    get_modemstatus-set_comp_signals q room = (
      modem_status wdf (set_comp_signals wdf pp r).0,
      rw (room, with_output) refl,
      rw (lines_kept.0, lines_kept.1) (crossed dtr rts),
    )

    -- After a SET_SIGNALS request `r` of the companion whose input buffer is long enough,
    -- GET_SIGNALS gives, if its buffer has room, the pair's signal state as it was, but
    -- with the DTR and RTS of `r`, the companion's own lines, in place of those that the
    -- COM side sets.
    pub get_comp_signals-set_comp_signals :
        (q : Request)
        → nt_success (output_buffer q 56).0 ≡ true
        → (bytes : List ℕ) × ((get_comp_signals wdf (set_comp_signals wdf pp r).0 q).1
            ≡ complete_bytes q success 56 bytes ∷ [])
          × (bytes
              ≡ signal_bytes (record (pp.signal_state) {
                dtr_state = if dtr then 1 else 0;
                rts_state = if rts then 1 else 0;
              }))
          × (get32 bytes 16 ≡ (if dtr then 1 else 0))
          × (get32 bytes 20 ≡ (if rts then 1 else 0))
    unfolding get_comp_signals with_output
    get_comp_signals-set_comp_signals q room = (
      signal_bytes (own_lines wdf (set_comp_signals wdf pp r).0),
      rw (room, with_output) refl,
      ap (λ s. with_lines s after.comp_dtr after.comp_rts) lines_kept.2
          ∙ ap₂ (with_lines pp.signal_state) lines_kept.0 lines_kept.1,
      rw lines_kept.0 (again dtr),
      rw lines_kept.1 (again rts),
    )
      where
        after : PortPair Queue
        after = (set_comp_signals wdf pp r).0

        with_lines : SignalState → Bool → Bool → List ℕ
        with_lines s d r =
            signal_bytes
              (record s { dtr_state = if d then 1 else 0; rts_state = if r then 1 else 0 })

        again : (b : Bool) → get32 (put32 (if b then 1 else 0) []) 0 ≡ (if b then 1 else 0)
        again true = refl
        again false = refl

    -- On an active pair a SET_SIGNALS request `r` whose input buffer is long enough makes
    -- the event CTS where it changes the companion's RTS, and the events DSR and RLSD where
    -- it changes its DTR. Of these events those that the COM side's wait mask selects go,
    -- if there are any, to every pending wait on the mask, and no wait stays pending; if
    -- there are none, all of them stay. Then `r` is completed.
    pub set_comp_signals_lem :
        pp.active ≡ true
        → let matched =
            bit_and (peer_events pp.comp_dtr pp.comp_rts dtr rts) pp.signal_state.wait_mask in
          let waits = held wdf pp.wait_mask_queue in
          let (pp', log) = set_comp_signals wdf pp r in
          (log
            ≡ (if matched == 0 then [] else map (answer wdf (put32 matched [])) waits)
              ++ (complete r success ∷ []))
          × (held wdf pp'.wait_mask_queue ≡ (if matched == 0 then waits else []))
    unfolding set_comp_signals with_input
    set_comp_signals_lem on =
        let events = line_events pp.comp_dtr pp.comp_rts dtr rts in
        let after = record pp { comp_dtr = dtr; comp_rts = rts } in
        let (told, kept) = check_wait_mask_lem wdf after events on in
        let nothing : bit_and 0 pp.signal_state.wait_mask ≡ 0 =
          omega (arith, bit_and-bitwise 0 pp.signal_state.wait_mask) in
        rw (sym (line_events_lem pp.comp_dtr pp.comp_rts dtr rts))
          (elim (Bool-cases (events == 0)) [
            | inl no_event ↦
                rw
                  (
                    ok,
                    with_input,
                    no_event,
                    ap (λ n. bit_and n pp.signal_state.wait_mask) ((==_iff events 0).0 no_event),
                    nothing,
                  )
                  (refl, refl)
            | inr some_event ↦
                rw (ok, with_input, some_event)
                  (ap (λ done. done ++ (complete r success ∷ [])) told, kept)
          ])
