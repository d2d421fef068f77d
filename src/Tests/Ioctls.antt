-- ===== src/Tests/Ioctls.antt =====
-- Signals and IOCTLs (driver/src/portpair.c, comport.c and companion.c) at work.
use ghostcom.Base.{ℕ, ◌≡◌, ◌≢◌, refl, arith, bit_and, inr, ◌==◌, if◌then◌else◌, map, length, ap}
use ghostcom.Base.{List, [], ◌∷◌, ◌++◌, some, true, false}
use ghostcom.Status.{success}
use ghostcom.Bytes.{put32, get32}
use ghostcom.Wdf.{complete, complete_bytes, held}
use ghostcom.Pair.{PortPair, signal_bytes}
use ghostcom.Ring.Contents.{contents}
use ghostcom.Signal.{noted, signal_changed, check_wait_mask}
use ghostcom.Signal.Answer.{answer}
use ghostcom.Signal.Changed.{signal_changed_lem, signal_changed-forgets, check_wait_mask_lem}
use ghostcom.Transfer.Flow.{IsSettled}
use ghostcom.Com.Settings.RoundTrip.{set_setting, get_setting, handflow, get_setting-set_setting}
use ghostcom.Com.Lines.{is_set, get_modemstatus, get_modem_control, get_dtrrts, set_modem_control}
use ghostcom.Com.Lines.Told.{
  set_lines, mask_answers, asked_state, change_line, change_line_lem, modem_control_lem,
}
use ghostcom.Com.Queues.{purged, immediate_char}
use ghostcom.Com.Queues.Purging.{purged_lem, purged-strands, immediate_char-drops}
use ghostcom.Companion.Signals.{set_comp_signals, get_comp_signals}
use ghostcom.Companion.Signals.Crossover.{IsCrossed, get_modemstatus-set_comp_signals}
use ghostcom.Companion.Signals.Crossover.{
  get_comp_signals-set_comp_signals, set_comp_signals_lem, peer_events,
}
use ghostcom.Ntddser.{dtr_line, rts_line}
use ghostcom.Tests.Model.{TestRequest, list_wdf, request, pair, full_ring, start_state}
use ghostcom.Tests.Model.{two_ring-IsValid, full_ring-IsValid}

signal_changed_lem_example :
    let (pp', done) = signal_changed list_wdf pair 5 in
    let told = noted start_state 5 in
    (pp'.signal_state.sequence_number ≡ 7)
    × (bit_and told.changed_mask 5 ≡ 5)
    × (done ≡ map (answer list_wdf (signal_bytes told)) (request 1 ∷ []))
    × (held list_wdf pp'.signal_wait_queue ≡ [])
signal_changed_lem_example = signal_changed_lem list_wdf pair 5 refl

signal_changed-forgets_example :
    (signal_changed list_wdf
      (record pair { signal_wait_queue = some [] })
      5).0.signal_state.changed_mask
    ≡ 0
signal_changed-forgets_example =
    signal_changed-forgets list_wdf (record pair { signal_wait_queue = some [] }) 5 refl
      (omega arith) (omega arith)

check_wait_mask_lem_example :
    let (pp', done) = check_wait_mask list_wdf pair 9 in
    let matched = bit_and 9 0x39 in
    let waits = request 2 ∷ [] in
    (done ≡ (if matched == 0 then [] else map (answer list_wdf (put32 matched [])) waits))
    × (held list_wdf pp'.wait_mask_queue ≡ (if matched == 0 then waits else []))
check_wait_mask_lem_example = check_wait_mask_lem list_wdf pair 9 refl

-- A request that brings sixteen bytes.
abbrev sixteen : TestRequest
sixteen = record {
  number = 8;
  space = 64;
  bytes = 1 ∷ 2 ∷ 3 ∷ 4 ∷ 5 ∷ 6 ∷ 7 ∷ 8 ∷ 9 ∷ 10 ∷ 11 ∷ 12 ∷ 13 ∷ 14 ∷ 15 ∷ 255 ∷ [];
}

get_setting-set_setting_example :
    (get_setting list_wdf handflow (set_setting list_wdf handflow pair sixteen).0 (request 4)).1
    ≡ complete_bytes (request 4) success 16 sixteen.bytes ∷ []
get_setting-set_setting_example =
    get_setting-set_setting list_wdf pair sixteen (request 4) handflow refl
      (
        omega arith,
        (
          omega arith,
          (
            omega arith,
            (
              omega arith,
              (
                omega arith,
                (
                  omega arith,
                  (
                    omega arith,
                    (
                      omega arith,
                      (
                        omega arith,
                        (
                          omega arith,
                          (
                            omega arith,
                            (
                              omega arith,
                              (omega arith, (omega arith, (omega arith, (omega arith, tt)))),
                            ),
                          ),
                        ),
                      ),
                    ),
                  ),
                ),
              ),
            ),
          ),
        ),
      )
      refl

get_modemstatus-set_comp_signals_example :
    (status : ℕ) × ((get_modemstatus list_wdf
        (set_comp_signals list_wdf pair (request 3)).0
        (request 4)).1
      ≡ complete_bytes (request 4) success 4 (put32 status []) ∷ [])
    × IsCrossed status true false
get_modemstatus-set_comp_signals_example =
    get_modemstatus-set_comp_signals list_wdf pair (request 3) refl (request 4) refl

get_comp_signals-set_comp_signals_example :
    (bytes : List ℕ) × ((get_comp_signals list_wdf
        (set_comp_signals list_wdf pair (request 3)).0
        (request 4)).1
      ≡ complete_bytes (request 4) success 56 bytes ∷ [])
    × (bytes ≡ signal_bytes (record start_state { dtr_state = 1; rts_state = 0 }))
    × (get32 bytes 16 ≡ 1)
    × (get32 bytes 20 ≡ 0)
get_comp_signals-set_comp_signals_example =
    get_comp_signals-set_comp_signals list_wdf pair (request 3) refl (request 4) refl

set_comp_signals_lem_example :
    let matched = bit_and (peer_events true true true false) 0x39 in
    let (pp', log) = set_comp_signals list_wdf pair (request 3) in
    (log
      ≡ (if matched == 0 then [] else map (answer list_wdf (put32 matched [])) (request 2 ∷ []))
        ++ (complete (request 3) success ∷ []))
    × (held list_wdf pp'.wait_mask_queue ≡ (if matched == 0 then request 2 ∷ [] else []))
set_comp_signals_lem_example = set_comp_signals_lem list_wdf pair (request 3) refl refl

change_line_lem_example :
    let snapshot = noted (asked_state set_lines 1 start_state) 12 in
    (bit_and snapshot.changed_mask 12 ≡ 12)
    × ((change_line list_wdf set_lines pair (request 3)).1
        ≡ map (answer list_wdf (signal_bytes snapshot)) (request 1 ∷ [])
          ++ (mask_answers list_wdf pair 0 ++ (complete (request 3) success ∷ [])))
change_line_lem_example = change_line_lem list_wdf pair set_lines (request 3) refl (λ _. refl)

modem_control_lem_example :
    let pp' = (set_modem_control list_wdf pair (request 3)).0 in
    (lines : ℕ) × ((get_modem_control list_wdf pp' (request 4)).1
      ≡ complete_bytes (request 4) success 4 (put32 lines []) ∷ [])
    × ((get_dtrrts list_wdf pp' (request 4)).1
        ≡ complete_bytes (request 4) success 4 (put32 lines []) ∷ [])
    × (is_set (bit_and lines dtr_line) ≡ true)
    × (is_set (bit_and lines rts_line) ≡ false)
modem_control_lem_example = modem_control_lem list_wdf pair (request 3) (request 4) refl refl

purged_lem_example :
    let pp' = purged list_wdf pair 9 in
    (pp' ≡ record pair {
      com_to_companion = pp'.com_to_companion;
      companion_to_com = pp'.companion_to_com;
      com_write_queue = pp'.com_write_queue;
      com_read_queue = pp'.com_read_queue;
    })
    × (contents pp'.com_to_companion ≡ contents full_ring)
    × (contents pp'.companion_to_com ≡ [])
    × (held list_wdf pp'.com_write_queue ≡ [])
    × (held list_wdf pp'.com_read_queue ≡ [])
purged_lem_example = purged_lem list_wdf pair 9 full_ring-IsValid two_ring-IsValid

-- A companion write waits behind a full ring.
abbrev stuck_pair : PortPair (List TestRequest)
stuck_pair = record pair { companion_to_com = full_ring; comp_write_queue = some (request 5 ∷ []) }

cons_ne_nil : (r : TestRequest) → r ∷ [] ≢ []
cons_ne_nil r h = omega (arith, ap length h)

purged-strands_example :
    let pp' = purged list_wdf stuck_pair 8 in
    (contents pp'.companion_to_com ≡ [])
    × ¬ IsSettled list_wdf pp'.companion_to_com
        (held list_wdf pp'.com_read_queue)
        (held list_wdf pp'.comp_write_queue)
purged-strands_example =
    purged-strands list_wdf stuck_pair 8 full_ring-IsValid refl (omega arith)
      (cons_ne_nil (request 5))

full-IsSettled : IsSettled list_wdf full_ring [] []
full-IsSettled = record { valid = full_ring-IsValid; readers = inr refl; writers = inr refl }

immediate_char-drops_example :
    let (pp', done) = immediate_char list_wdf pair (request 3) in
    (contents pp'.com_to_companion ≡ contents full_ring)
    × (done ≡ complete (request 3) success ∷ [])
immediate_char-drops_example =
    immediate_char-drops list_wdf pair (request 3) full-IsSettled refl (omega arith) refl
