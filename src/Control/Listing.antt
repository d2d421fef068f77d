-- ===== src/Control/Listing.antt =====
-- What GcomHandleListPorts writes, against the list of all active pairs.
use ghostcom.Base.{
  ℕ, zero, suc, ◌+◌, ◌-◌, ◌*◌, ◌/◌, ◌≤◌, ◌≡◌, refl, arith, true, Option, none, some, List, [], ◌∷◌,
  length, take, length-take, ◌++◌, ◌==◌, if◌then◌else◌, ap, Bool, false,
}
use ghostcom.Status.{nt_success, success}
use ghostcom.Bytes.{put32}
use ghostcom.Word.{ulong}
use ghostcom.Wdf.{Wdf, complete_bytes, output_bytes}
use ghostcom.Pair.{PortPair}
use ghostcom.Table.{Driver, Slot, vacant, reserved, pointer}
use ghostcom.Control.{live, listed, infos, handle_list_ports}

-- Whether a ULONG that counts or flags opens is set, as a ULONG.
abbrev pub open_word : ℕ → ℕ
open_word zero = 0
open_word (suc _) = 1

-- ULONGs in memory, one after the other.
abbrev pub words_bytes : List ℕ → List ℕ
words_bytes [] = []
words_bytes (n ∷ words) = put32 n (words_bytes words)

flag-open : (n : ℕ) → (if n == 0 then 0 else 1) ≡ open_word n
flag-open zero = refl
flag-open (suc n) = ground arith

module _ {Queue : Type 0} where
  -- The pair at an address, if there is one and it is active.
  abbrev pub if_active : Option (PortPair Queue) → List (PortPair Queue)
  if_active none = []
  if_active (some pp) = if pp.active then pp ∷ [] else []

  -- All active pairs, in the order of the table.
  abbrev pub active_pairs : (ℕ → Option (PortPair Queue)) → List Slot → List (PortPair Queue)
  active_pairs heap [] = []
  active_pairs heap (vacant ∷ ports) = active_pairs heap ports
  active_pairs heap (reserved ∷ ports) = active_pairs heap ports
  active_pairs heap (pointer p ∷ ports) = if_active (heap p) ++ active_pairs heap ports

  -- The four ULONGs of each pair: the number, the companion's number, whether the COM side is
  -- open, and whether the companion is.
  abbrev pub entry_words : List (PortPair Queue) → List ℕ
  entry_words [] = []
  entry_words (pp ∷ pairs) =
      pp.port_number
      ∷ pp.companion_index
      ∷ open_word pp.com_side_open
      ∷ open_word pp.companion_side_open
      ∷ entry_words pairs

  infos_lem : (pairs : List (PortPair Queue)) → infos pairs ≡ words_bytes (entry_words pairs)
  infos_lem [] = refl
  infos_lem (pp ∷ pairs) =
      rw (flag-open pp.com_side_open, flag-open pp.companion_side_open)
        (ap
          (λ rest.
            words_bytes (
              pp.port_number
              ∷ pp.companion_index
              ∷ open_word pp.com_side_open
              ∷ open_word pp.companion_side_open
              ∷ [])
            ++ rest)
          (infos_lem pairs))

  -- One entry of the table more.
  one_more :
      {same less : List (PortPair Queue)}
      → (rest : List (PortPair Queue)) → (found : Option (PortPair Queue)) → (room : ℕ)
      → same ≡ take (suc room) rest
      → less ≡ take room rest
      → (elim (live found) as (λ _. List (PortPair Queue)) [ none ↦ same | some pp ↦ pp ∷ less ])
        ≡ take (suc room) (if_active found ++ rest)
  unfolding live
  one_more rest none room e e' = e
  one_more {same} {less} rest (some pp) room e e' = by_flag pp.active
    where
      by_flag :
          (active : Bool)
          → (elim (if active then some pp else none) as (λ _. List (PortPair Queue)) [
            | none ↦ same
            | some pp ↦ pp ∷ less
          ])
            ≡ take (suc room) ((if active then pp ∷ [] else []) ++ rest)
      by_flag true = ap (λ t. pp ∷ t) e'
      by_flag false = e

  listed-take :
      (heap : ℕ → Option (PortPair Queue)) (room : ℕ) (ports : List Slot)
      → listed heap room ports ≡ take room (active_pairs heap ports)
  unfolding listed
  listed-take heap zero ports = refl
  listed-take heap (suc room) [] = refl
  listed-take heap (suc room) (vacant ∷ ports) = listed-take heap (suc room) ports
  listed-take heap (suc room) (reserved ∷ ports) = listed-take heap (suc room) ports
  listed-take heap (suc room) (pointer p ∷ ports) =
      one_more (active_pairs heap ports) (heap p) room (listed-take heap (suc room) ports)
        (listed-take heap room ports)

  length-words :
      (pairs : List (PortPair Queue)) → length (words_bytes (entry_words pairs)) ≡ length pairs * 16
  length-words [] = refl
  length-words (pp ∷ pairs) = omega (arith, length-words pairs)

module _ (wdf : Wdf) (d : Driver wdf.Queue) (request : wdf.Request) where
  open wdf use {output_buffer}

  -- The entries of 16 bytes that an output buffer holds after the header.
  abbrev pub entries : ℕ
  entries = ((output_buffer request 4).1 - 4) / 16

  ulong-entries : nt_success (output_buffer request 4).0 ≡ true → ulong entries ≡ entries
  ulong-entries h = let (enough, small) = wdf.output_length request 4 h in omega arith

  -- Where the output buffer has room for the header, GcomHandleListPorts writes a number and
  -- so many entries, for the first active pairs of the table, as many as there is room for.
  -- An entry is four ULONGs: the COM number, the companion's number, 1 or 0 for an open COM
  -- side, 1 or 0 for an open companion.
  pub handle_list_ports-take :
      nt_success (output_buffer request 4).0 ≡ true
      → handle_list_ports wdf d request ≡ (
          let pairs = take entries (active_pairs d.heap d.ports) in
          complete_bytes request success
            (4 + length pairs * 16)
            (words_bytes (length pairs ∷ entry_words pairs)))
  unfolding handle_list_ports
  handle_list_ports-take h =
      let pairs = take entries (active_pairs d.heap d.ports) in
      rw (h, ulong-entries h, listed-take d.heap entries d.ports)
        (ap
          (λ bytes.
            complete_bytes request success (4 + length pairs * 16) (put32 (length pairs) bytes))
          (infos_lem pairs))

  list_fits :
      (pairs : List (PortPair wdf.Queue))
      → nt_success (output_buffer request 4).0 ≡ true
      → 4 + length (take entries pairs) * 16 ≤ (output_buffer request 4).1
  list_fits pairs h =
      let (enough, small) = wdf.output_length request 4 h in
      omega (arith, length-take entries pairs)

  -- Where the output buffer has room for the header, GcomHandleListPorts tells a number of
  -- bytes that is at most the length of the buffer, and writes that many.
  pub handle_list_ports-fits :
      nt_success (output_buffer request 4).0 ≡ true
      → ((handle_list_ports wdf d request).info ≤ (output_buffer request 4).1)
        × (length (output_bytes (handle_list_ports wdf d request).output)
            ≡ (handle_list_ports wdf d request).info)
  handle_list_ports-fits h =
      let pairs = active_pairs d.heap d.ports in
      rw (handle_list_ports-take h)
        (list_fits pairs h, omega (arith, length-words (take entries pairs)))
