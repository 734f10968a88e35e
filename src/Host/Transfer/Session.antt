-- ===== src/Host/Transfer/Session.antt =====
-- The time that a transfer's queue head is in the async schedule: linked, awaited, unlinked, and
-- released by the doorbell.
use imxrt_usbh.Base.{
  ap, get_or-set_self, get_or-set_ne, get_elem?_of_lt, ℕ, ◌+◌, ◌≤◌, ◌<◌, ◌≡◌, refl, subst, ◌∙◌, ◌⊎◌,
  inl, inr, Option-cases, Bool-cases, true, false, bit_and, ltb, none, some, List, ◌∷◌, length,
  arith,
}
use imxrt_usbh.Base.Bits.{bit, bit_mask, not32, bit-bit_or, bit-bit_mask, eq-bit_and-bit_mask}
use imxrt_usbh.Base.Members.{has, erase-cons_eq}
use imxrt_usbh.Ehci.Td
use imxrt_usbh.Ehci.Token.{qtd_token_bytes_remaining}
use imxrt_usbh.Ehci.Qh
use imxrt_usbh.Host.Error.{Outcome, Poll, ready, pending}
use imxrt_usbh.Host.Futures.{
  TransferComplete, Tokens, pipe_waker, read_tokens, poll_tokens, poll_transfer,
}
use imxrt_usbh.Host.Futures.Laws.{is_running, poll_tokens_pending}
use imxrt_usbh.Host.InterruptPipe.Laws.{qtd_at, ltb-true}
use imxrt_usbh.Host.Regs.{Ral, set_fields}
use imxrt_usbh.Host.Run.{Run, ok, out_of_fuel}
use imxrt_usbh.Host.Schedule.Async.Insert.{linked}
use imxrt_usbh.Host.Schedule.Both.{IsScheduled, link_async, unlink_async}
use imxrt_usbh.Host.Statics.{
  UsbStatics, Layout, IsAligned, num_qh, num_qtd, num_pipe_wakers, qh_addr, qtd_addr,
}
use imxrt_usbh.Host.Statics.Links.{qh_at, link_of, set_link}
use imxrt_usbh.Host.Transfer.{
  Controller, await_transfer, link_and_start_async, unlink_and_stop_async, enable_async_schedule,
  ring_doorbell,
}
use imxrt_usbh.Host.Transfer.Keeps.{Rests, Rests-trans, Keeps, Keeps-IsScheduled}

module _ {Pool : Type 0} where
  -- The bytes that the qTD at `i` has to go.
  abbrev pub to_go : UsbStatics Pool → (i : ℕ) → ℕ
  to_go s i = qtd_token_bytes_remaining (qtd_at s i).token

  -- What EHCI says of the controller: it writes to no horizontal link, to no frame list entry and to
  -- no memory but the structures that it is given, and it only ever counts the bytes of a qTD down.
  pub record IsController (hardware : Controller Pool) : Type 0 where
    pub complete-Keeps :
        (usbcmd : ℕ) (future : TransferComplete) (s : UsbStatics Pool)
        → Keeps s (hardware.complete usbcmd future s).0
    pub complete_counts :
        (usbcmd : ℕ) (future : TransferComplete) (s : UsbStatics Pool) (i : ℕ)
        → to_go (hardware.complete usbcmd future s).0 i ≤ to_go s i
    pub advance-Keeps : (usbcmd : ℕ) (s : UsbStatics Pool) → Keeps s (hardware.advance usbcmd s).1
    pub advance_counts :
        (usbcmd : ℕ) (s : UsbStatics Pool) (i : ℕ)
        → to_go (hardware.advance usbcmd s).1 i ≤ to_go s i

-- The indices of a future lie within the pools and the wakers.
pub record IsWithin (future : TransferComplete) : Type 0 where
  pub waker-lt : future.waker_index < num_pipe_wakers
  pub status-lt : future.status_qtd_index < num_qtd
  pub qh-lt : future.qh_index < num_qh + 1
  pub data-lt : (i : ℕ) → future.data_qtd_index ≡ some i → i < num_qtd

Poll-cases {ℓ} : {A : Type ℓ} (p : Poll A) → (p ≡ pending) ⊎ ((a : A) × (p ≡ ready a))
Poll-cases pending = inl refl
Poll-cases (ready a) = inr (a, refl)

module _ {Pool : Type 0} (future : TransferComplete) (within : IsWithin future)
    (s : UsbStatics Pool) (size : length s.qh_pool ≡ num_qh + 1)
    (qtd_size : length s.qtd_pool ≡ num_qtd) where
  read_tokens_total : (t : Tokens) × (read_tokens future s ≡ some t)
  unfolding read_tokens
  read_tokens_total = elim (Option-cases future.data_qtd_index) [
    | inl no_data ↦ (
      record {
        status = (qtd_at s future.status_qtd_index).token;
        data_token = none;
        overlay = (qh_at s future.qh_index).overlay_token;
      },
      rw (
        get_elem?_of_lt s.qtd_pool future.status_qtd_index Td.new
            (omega (arith, within.status-lt, qtd_size)),
        no_data,
        get_elem?_of_lt s.qh_pool future.qh_index Qh.new (omega (arith, within.qh-lt, size)),
      ),
    )
    | inr (i, has_data) ↦ (
      record {
        status = (qtd_at s future.status_qtd_index).token;
        data_token = some (qtd_at s i).token;
        overlay = (qh_at s future.qh_index).overlay_token;
      },
      rw (
        get_elem?_of_lt s.qtd_pool future.status_qtd_index Td.new
            (omega (arith, within.status-lt, qtd_size)),
        has_data,
        get_elem?_of_lt s.qtd_pool i Td.new (omega (arith, within.data-lt i has_data, qtd_size)),
        get_elem?_of_lt s.qh_pool future.qh_index Qh.new (omega (arith, within.qh-lt, size)),
      ),
    )
  ]

-- A poll of a transfer that is not running any more is ready.
poll_tokens_ready :
    (r : Ral) (t : Tokens) (usbintr : ℕ)
    → is_running t ≡ false
    → (outcome : Outcome (Unit {0})) × ((poll_tokens r t usbintr).0 ≡ ready outcome)
poll_tokens_ready r t usbintr stopped = elim (Poll-cases (poll_tokens r t usbintr).0) [
  | inl waits ↦ absurd (ground (arith, (poll_tokens_pending r t usbintr).0 waits))
  | inr (outcome, e) ↦ (outcome, e)
]

enable_async_schedule_lem :
    (r : Ral) (usbcmd : ℕ) → bit (enable_async_schedule r usbcmd) r.ase ≡ true
unfolding enable_async_schedule set_fields
enable_async_schedule_lem r usbcmd = elim (Bool-cases (bit usbcmd r.ase)) [
  | inl on ↦ rw (eq-bit_and-bit_mask usbcmd r.ase, on) on
  | inr off ↦
      rw (eq-bit_and-bit_mask usbcmd r.ase, off)
        (bit-bit_or (bit_and usbcmd (not32 (bit_mask r.ase))) (bit_mask r.ase) r.ase
          ∙ ground (arith, bit-bit_mask r.ase r.ase))
]

-- A transfer that the controller never retires, as when the device answers each attempt with NAK: the
-- queue head at `q` is the first in the async schedule, with the others as before, it leads to a qTD, and
-- the schedule is enabled, but after all that the controller does the transfer is still running.
pub record Waits {Pool : Type 0} (l : Layout) (r : Ral) (hardware : Controller Pool) (q : ℕ)
    (xs ys : List ℕ) : Type 0 where
  pub usbcmd : ℕ
  pub statics : UsbStatics Pool
  pub future : TransferComplete
  pub tokens : Tokens
  pub enabled : bit usbcmd r.ase ≡ true
  pub scheduled : IsScheduled l statics (q ∷ xs) ys
  pub first : ℕ
  pub first-lt : first < num_qtd
  pub attached : (qh_at statics q).overlay_next ≡ qtd_addr l first
  pub head : future.qh_index ≡ q
  pub reads : read_tokens future (hardware.complete usbcmd future statics).0 ≡ some tokens
  pub running : is_running tokens ≡ true

linked_overlay :
    {Pool : Type 0} (l : Layout) (s : UsbStatics Pool) (q : ℕ)
    → 0 < q
    → q < length s.qh_pool
    → (qh_at (linked l s q) q).overlay_next ≡ (qh_at s q).overlay_next
linked_overlay l s q pos below =
    ap (λ head. head.overlay_next)
      (get_or-set_ne (set_link s q (link_of s 0)).qh_pool 0 q _ Qh.new
        (λ e. absurd (omega (arith, pos, e))))
    ∙ ap (λ head. head.overlay_next) (get_or-set_self s.qh_pool q _ Qh.new below)

-- A call does as `Done` says, or it waits for a transfer that the controller never retires.
abbrev pub Unless {ℓ} :
    {Pool : Type 0} {A : Type ℓ}
    → Layout
    → Ral
    → Controller Pool
    → (q : ℕ) (xs ys : List ℕ) → Run A
    → Type ℓ
    → Type ℓ
Unless l r hardware q xs ys run Done = ((run ≡ out_of_fuel) × Waits l r hardware q xs ys) ⊎ Done

module _ {Pool : Type 0} (r : Ral) {hardware : Controller Pool} (spec : IsController hardware)
    (future : TransferComplete) (within : IsWithin future) (usbcmd : ℕ) (s : UsbStatics Pool)
    (size : length s.qh_pool ≡ num_qh + 1) (qtd_size : length s.qtd_pool ≡ num_qtd) where
  -- The await returns, unless the controller leaves the transfer running.
  await_transfer_returns :
      (t : Tokens) × (read_tokens future (hardware.complete usbcmd future s).0 ≡ some t)
      × (((is_running t ≡ true) × (await_transfer r hardware future usbcmd s ≡ out_of_fuel))
          ⊎ ((outcome : Outcome (Unit {0})) × (await_transfer r hardware future usbcmd s
                ≡ ok (outcome, (hardware.complete usbcmd future s).0))))
  unfolding await_transfer poll_transfer pipe_waker
  await_transfer_returns =
      let after : UsbStatics Pool = (hardware.complete usbcmd future s).0 in
      let kept : Keeps s after = spec.complete-Keeps usbcmd future s in
      let (t, reads) =
        read_tokens_total future within after (kept.size ∙ size) (kept.rests.qtd_size ∙ qtd_size) in
      let below : ltb future.waker_index num_pipe_wakers ≡ true =
        ltb-true future.waker_index num_pipe_wakers within.waker-lt in
      let usbintr : ℕ = (hardware.complete usbcmd future s).1 in
      elim (Bool-cases (is_running t)) [
        | inl running ↦ (
          t,
          reads,
          inl (running, rw (below, reads, (poll_tokens_pending r t usbintr).1 running)),
        )
        | inr stopped ↦
            let (outcome, polled) = poll_tokens_ready r t usbintr stopped in
            (t, reads, inr (outcome, rw (below, reads, polled)))
      ]

module _ {Pool : Type 0} {l : Layout} (aligned : IsAligned l) (r : Ral) {hardware : Controller Pool}
    (spec : IsController hardware) where
  -- Linking, the await, unlinking and the doorbell, from `s` on, with what they leave.
  pub record Session (fuel q usbcmd : ℕ) (future : TransferComplete) (s : UsbStatics Pool)
      (xs ys : List ℕ) : Type 0 where
    pub started : ℕ × UsbStatics Pool
    pub outcome : Outcome (Unit {0})
    pub completed : UsbStatics Pool
    pub stopped : ℕ × UsbStatics Pool
    pub start_run : link_and_start_async l r (qh_addr l q) usbcmd s ≡ ok started
    pub await_run : await_transfer r hardware future started.0 started.1 ≡ ok (outcome, completed)
    pub stop_run :
        unlink_and_stop_async l r hardware fuel (qh_addr l q) started.0 completed ≡ ok stopped
    pub scheduled : IsScheduled l stopped.1 xs ys
    pub slots : stopped.1.qtd_allocated ≡ s.qtd_allocated
    pub rests : Rests s stopped.1
    pub counts : (i : ℕ) → to_go stopped.1 i ≤ to_go s i

  -- A transfer's queue head can be linked, awaited and unlinked again, and both schedules are as before,
  -- unless the await is never ready.
  pub session :
      (fuel q usbcmd : ℕ) (future : TransferComplete) (s : UsbStatics Pool) (xs ys : List ℕ)
      (first : ℕ)
      → IsScheduled l s xs ys
      → length s.qtd_pool ≡ num_qtd
      → IsWithin future
      → future.qh_index ≡ q
      → first < num_qtd
      → (qh_at s q).overlay_next ≡ qtd_addr l first
      → 0 < q
      → q < num_qh + 1
      → has q xs ≡ false
      → has q ys ≡ false
      → num_qh ≤ fuel
      → ((started : ℕ × UsbStatics Pool) × (link_and_start_async l r (qh_addr l q) usbcmd s
            ≡ ok started)
          × (await_transfer r hardware future started.0 started.1 ≡ out_of_fuel)
          × Waits l r hardware q xs ys)
        ⊎ Session fuel q usbcmd future s xs ys
  unfolding link_and_start_async unlink_and_stop_async
  session fuel q usbcmd future s xs ys first both qtd_size within head first-lt attached pos below
        out free enough =
      let (start, both1) = link_async l s q xs ys both pos below out free in
      let s1 : UsbStatics Pool = linked l s q in
      let usbcmd1 : ℕ = enable_async_schedule r usbcmd in
      let (t, reads, awaited) =
        await_transfer_returns r spec future within usbcmd1 s1 both1.ring.size qtd_size in
      elim awaited [
        | inl (running, waits) ↦ inl (
          (usbcmd1, s1),
          rw start,
          waits,
          record {
            usbcmd = usbcmd1;
            statics = s1;
            future = future;
            tokens = t;
            enabled = enable_async_schedule_lem r usbcmd;
            scheduled = both1;
            first = first;
            first-lt = first-lt;
            attached = linked_overlay l s q pos (omega (arith, both.ring.size)) ∙ attached;
            head = head;
            reads = reads;
            running = running;
          },
        )
        | inr (outcome, await) ↦
            let s2 : UsbStatics Pool = (hardware.complete usbcmd1 future s1).0 in
            let kept2 : Keeps s1 s2 = spec.complete-Keeps usbcmd1 future s1 in
            let (p, unlink, both3) =
              unlink_async l aligned s2 fuel q (q ∷ xs) ys
                (Keeps-IsScheduled l s1 (q ∷ xs) ys both1 s2 kept2) below (ground arith) enough in
            let s3 : UsbStatics Pool = set_link s2 p (link_of s2 q) in
            let usbcmd3 : ℕ = ring_doorbell r usbcmd1 in
            let s4 : UsbStatics Pool = (hardware.advance usbcmd3 s3).1 in
            let kept4 : Keeps s3 s4 = spec.advance-Keeps usbcmd3 s3 in
            inr (record {
              started = (usbcmd1, s1);
              outcome = outcome;
              completed = s2;
              stopped = hardware.advance usbcmd3 s3;
              start_run = rw start;
              await_run = await;
              stop_run = rw unlink;
              scheduled =
                  Keeps-IsScheduled l s3 xs ys
                    (subst (λ zs. IsScheduled l s3 zs ys) (erase-cons_eq q q xs refl) both3) s4
                    kept4;
              slots = kept4.slots ∙ kept2.slots;
              rests =
                  Rests-trans s s2 s4
                    (Rests-trans s s1 s2
                      (record { qtd_size = refl; buffers = refl; control = refl; bulk = refl })
                      kept2.rests)
                    (Rests-trans s2 s3 s4
                      (record { qtd_size = refl; buffers = refl; control = refl; bulk = refl })
                      kept4.rests);
              counts = λ i. omega (
                arith,
                spec.advance_counts usbcmd3 s3 i,
                spec.complete_counts usbcmd1 future s1 i,
              );
            })
      ]
