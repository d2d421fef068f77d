-- ===== src/Life/Handles.antt =====
-- The open and close callbacks and the destruction, in any order: how many files have the pair,
-- and when it is freed.
use ghostcom.Base.{ℕ, suc, Bool, true, false, not, ◌+◌, ◌≤◌, ◌≡◌, refl, ap, sym, subst, ◌∙◌, arith}
use ghostcom.Base.{if◌then◌else◌, ◌==◌, ==_iff, inl, inr, Bool-cases, List, [], ◌∷◌, ◌++◌}
use mathlib.Core.Bool.{true≢false}
use ghostcom.Status.{success, device_not_connected, sharing_violation}
use ghostcom.Word.{add32, sub32}
use ghostcom.Changed.{changed_com_open, changed_com_close}
use ghostcom.Wdf.{Wdf, Completion, complete}
use ghostcom.Pair.{PortPair}
use ghostcom.Signal.{signal_changed}
use ghostcom.Signal.Changed.{signal_changed_frame}
use ghostcom.Life.{add_ref, release, pair_destroy, com_file_create, com_file_close}
use ghostcom.Life.{comp_file_create, comp_file_close}
use ghostcom.Life.World.{World, world, Step, com_open, comp_open, com_close, comp_close, destroy}
use ghostcom.Life.World.{Reachable, start, next, IsHeldBy, IsHeld, one_if}

one_if-le : (b : Bool) → one_if b ≤ 1
one_if-le true = omega arith
one_if-le false = omega arith

one_if-zero : (b : Bool) → one_if b ≡ 0 → b ≡ false
one_if-zero true h = absurd (omega (arith, h))
one_if-zero false h = refl

module _ (wdf : Wdf) where
  open wdf use {Request, Queue}

  -- A reference is dropped.
  release-IsHeld :
      (pp : PortPair Queue) (coms comps : ℕ) (created : Bool)
      → coms ≤ 1
      → comps ≤ 1
      → pp.ref_count ≡ suc (one_if created + coms + comps)
      → (pp.active ≡ true
          → (created ≡ true) × (pp.com_side_open ≡ coms) × (pp.companion_side_open ≡ comps))
      → IsHeld wdf (world (release pp) coms comps created)
  unfolding release
  release-IsHeld pp coms comps created c d count live =
      let n = one_if created + coms + comps in
      let small : one_if created ≤ 1 = one_if-le created in
      let left : sub32 pp.ref_count 1 ≡ n = omega (arith, count, c, d, small) in
      elim (Bool-cases (sub32 pp.ref_count 1 == 0)) [
        | inl none_left ↦
            let zero_left : n ≡ 0 = sym left ∙ (==_iff (sub32 pp.ref_count 1) 0).0 none_left in
            rw (none_left, release)
              (
                omega (arith, zero_left),
                omega (arith, zero_left),
                one_if-zero created (omega (arith, zero_left)),
              )
        | inr some_left ↦
            rw (some_left, release)
              (record {
                coms_once = c;
                comps_once = d;
                count = left;
                positive = ground (arith, some_left);
                live = live;
              })
      ]

  -- What an open does to a pair that is held.
  opened :
      (pp pp' : PortPair Queue) (coms comps coms' comps' : ℕ) (created : Bool)
      → IsHeldBy wdf pp coms comps created
      → pp.active ≡ true
      → pp'.ref_count ≡ add32 pp.ref_count 1
      → coms' + comps' ≡ suc (coms + comps)
      → coms' ≤ 1
      → comps' ≤ 1
      → pp'.com_side_open ≡ coms'
      → pp'.companion_side_open ≡ comps'
      → IsHeldBy wdf pp' coms' comps' created
  opened pp pp' coms comps coms' comps' created h on count sum c d flag flag' =
      let small : one_if created ≤ 1 = one_if-le created in
      let counted : pp'.ref_count ≡ one_if created + coms' + comps' =
        omega (arith, count, sum, h.count, h.coms_once, h.comps_once, small) in
      record {
        coms_once = c;
        comps_once = d;
        count = counted;
        positive = omega (arith, counted, sum);
        live = λ _. ((h.live on).0, flag, flag');
      }

  module _ (pp : PortPair Queue) {coms comps : ℕ} {created : Bool}
      (h : IsHeldBy wdf pp coms comps created) where
    com_open-IsHeld :
        (r : Request)
        → IsHeldBy wdf
            (com_file_create wdf pp r).0
            (coms + one_if (com_file_create wdf pp r).1)
            comps
            created
    unfolding com_file_create add_ref
    com_open-IsHeld r = go pp.active (pp.com_side_open == 0) refl refl
      where
        opening : PortPair Queue
        opening = add_ref (record pp { com_side_open = 1 })

        go :
            (b c : Bool)
            → pp.active ≡ b
            → (pp.com_side_open == 0) ≡ c
            → let out : PortPair Queue × Bool × List (Completion Request) =
                if not b
                then (pp, false, complete r device_not_connected ∷ [])
                else if not c
                then (pp, false, complete r sharing_violation ∷ [])
                else let (pp', told) = signal_changed wdf opening changed_com_open in
                  (pp', true, told ++ (complete r success ∷ [])) in
              IsHeldBy wdf out.0 (coms + one_if out.1) comps created
        go false c off _ = subst (λ n. IsHeldBy wdf pp n comps created) (omega arith) h
        go true false on taken = subst (λ n. IsHeldBy wdf pp n comps created) (omega arith) h
        go true true on free_flag =
            let frame = signal_changed_frame wdf opening changed_com_open in
            let (_, flag, flag') = h.live on in
            let nobody : coms ≡ 0 = sym flag ∙ (==_iff pp.com_side_open 0).0 free_flag in
            opened pp _ coms comps (coms + 1) comps created h on (ap (λ p. p.ref_count) frame)
              (omega arith) (omega (arith, nobody)) h.comps_once
              (ap (λ p. p.com_side_open) frame ∙ omega (arith, nobody))
              (ap (λ p. p.companion_side_open) frame ∙ flag')

    comp_open-IsHeld :
        (r : Request)
        → IsHeldBy wdf
            (comp_file_create wdf pp r).0
            coms
            (comps + one_if (comp_file_create wdf pp r).1)
            created
    unfolding comp_file_create add_ref
    comp_open-IsHeld r = go pp.active (pp.companion_side_open == 0) refl refl
      where
        go :
            (b c : Bool)
            → pp.active ≡ b
            → (pp.companion_side_open == 0) ≡ c
            → let out : PortPair Queue × Bool × List (Completion Request) =
                if not b
                then (pp, false, complete r device_not_connected ∷ [])
                else if not c
                then (pp, false, complete r sharing_violation ∷ [])
                else (
                  add_ref (record pp { companion_side_open = 1 }),
                  true,
                  complete r success ∷ [],
                ) in
              IsHeldBy wdf out.0 coms (comps + one_if out.1) created
        go false c off _ = subst (λ n. IsHeldBy wdf pp coms n created) (omega arith) h
        go true false on taken = subst (λ n. IsHeldBy wdf pp coms n created) (omega arith) h
        go true true on free_flag =
            let (_, flag, flag') = h.live on in
            let nobody : comps ≡ 0 = sym flag' ∙ (==_iff pp.companion_side_open 0).0 free_flag in
            opened pp _ coms comps coms (comps + 1) created h on refl (omega arith) h.coms_once
              (omega (arith, nobody)) flag (omega (arith, nobody))

  -- A pair that is not active asks nothing of its flags.
  not_live : {b : Bool} {P : Type 0} → b ≡ false → b ≡ true → P
  not_live off on = absurd (true≢false (sym on ∙ off))

  com_close-IsHeld :
      (pp : PortPair Queue) {coms comps : ℕ} {created : Bool}
      → IsHeldBy wdf pp (suc coms) comps created
      → IsHeld wdf (world (com_file_close wdf pp).0 coms comps created)
  unfolding com_file_close
  com_close-IsHeld pp {coms} {comps} {created} h = go pp.active refl
    where
      closed : PortPair Queue
      closed = record pp { com_side_open = 0 }

      one : coms ≤ 1
      one = omega (arith, h.coms_once)

      count : pp.ref_count ≡ suc (one_if created + coms + comps)
      count = omega (arith, h.count)

      go :
          (b : Bool)
          → pp.active ≡ b
          → let (pp', told) =
              if b then signal_changed wdf closed changed_com_close else (closed, []) in
            IsHeld wdf (world (release pp') coms comps created)
      go false off = release-IsHeld closed coms comps created one h.comps_once count (not_live off)
      go true on =
          let frame = signal_changed_frame wdf closed changed_com_close in
          release-IsHeld _ coms comps created one h.comps_once (ap (λ p. p.ref_count) frame ∙ count)
            (λ _. (
              (h.live on).0,
              ap (λ p. p.com_side_open) frame ∙ omega (arith, h.coms_once),
              ap (λ p. p.companion_side_open) frame ∙ (h.live on).2,
            ))

  comp_close-IsHeld :
      (pp : PortPair Queue) {coms comps : ℕ} {created : Bool}
      → IsHeldBy wdf pp coms (suc comps) created
      → IsHeld wdf (world (comp_file_close wdf pp) coms comps created)
  unfolding comp_file_close
  comp_close-IsHeld pp {coms} {comps} {created} h = go pp.active refl
    where
      one : comps ≤ 1
      one = omega (arith, h.comps_once)

      count : pp.ref_count ≡ suc (one_if created + coms + comps)
      count = omega (arith, h.count)

      go :
          (b : Bool)
          → pp.active ≡ b
          → IsHeld wdf (
              world
                (release (if b then record pp { companion_side_open = 0 } else pp))
                coms
                comps
                created)
      go false off = release-IsHeld pp coms comps created h.coms_once one count (not_live off)
      go true on =
          release-IsHeld (record pp { companion_side_open = 0 }) coms comps created h.coms_once one
            count (λ _. ((h.live on).0, (h.live on).1, omega (arith, h.comps_once)))

  destroy-IsHeld :
      (pp : PortPair Queue) {coms comps : ℕ}
      → IsHeldBy wdf pp coms comps true
      → IsHeld wdf (world (pair_destroy pp) coms comps false)
  unfolding pair_destroy
  destroy-IsHeld pp {coms} {comps} h =
      release-IsHeld _ coms comps false h.coms_once h.comps_once (omega (arith, h.count))
        (not_live refl)

  Step-IsHeld : {w w' : World Queue} → Step wdf w w' → IsHeld wdf w → IsHeld wdf w'
  Step-IsHeld (com_open {pp} r) h = com_open-IsHeld pp h r
  Step-IsHeld (comp_open {pp} r) h = comp_open-IsHeld pp h r
  Step-IsHeld (com_close {pp}) h = com_close-IsHeld pp h
  Step-IsHeld (comp_close {pp}) h = comp_close-IsHeld pp h
  Step-IsHeld (destroy {pp}) h = destroy-IsHeld pp h

  -- However opens, closes and a destruction follow each other from a pair that was just
  -- created: while the pair is there each side has at most one file that has it, the count is
  -- the number of its holders and not 0, and an active pair's flags say who has it; once the
  -- pair is freed no file has it and it was destroyed.
  pub Reachable-IsHeld : {w : World Queue} → Reachable wdf w → IsHeld wdf w
  Reachable-IsHeld (start pp flag flag' count) = record {
    coms_once = omega arith;
    comps_once = omega arith;
    count = omega (arith, count);
    positive = omega (arith, count);
    live = λ _. (refl, flag, flag');
  }
  Reachable-IsHeld (next before step) = Step-IsHeld step (Reachable-IsHeld before)
