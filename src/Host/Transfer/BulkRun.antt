-- ===== src/Host/Transfer/BulkRun.antt =====
-- A bulk transfer from its chain of qTDs on.
use imxrt_usbh.Base.{
  ap, get_or-set_self, ℕ, ◌+◌, ◌^◌, ◌!=◌, bit_and, not, ◌≤◌, ◌<◌, ◌≡◌, refl, ◌∙◌, inl, inr,
  Option-cases, Bool, true, false, some, List, length, length-set, arith, if◌then◌else◌,
}
use mathlib.Core.Option.{some_inj}
use imxrt_usbh.Base.Members.{has}
use imxrt_usbh.Ehci.Token.{qtd_token}
use imxrt_usbh.Ehci.Qh
use imxrt_usbh.Ehci.Qh.{QueueHead, attach_qtd, set_overlay_toggle}
use imxrt_usbh.Host.Error.Laws.{AtMost}
use imxrt_usbh.Host.Error.{Outcome, ok, err}
use imxrt_usbh.Host.InterruptPipe.{Pipe}
use imxrt_usbh.Host.InterruptPipe.Laws.{qtd_at}
use imxrt_usbh.Host.Regs.{Ral}
use imxrt_usbh.Host.Run.{Run}
use imxrt_usbh.Host.Schedule.Both.{IsScheduled}
use imxrt_usbh.Host.Schedule.Qtd.{drop_slot}
use imxrt_usbh.Host.Statics.{UsbStatics, Layout, IsAligned, num_qh, num_qtd, qh_addr, qtd_addr}
use imxrt_usbh.Host.Statics.Addresses.{load_qh-qh_addr}
use imxrt_usbh.Host.Statics.Links.{qh_at}
use imxrt_usbh.Host.Transfer.{Controller, modify_qh, init_qtd, set_next}
use imxrt_usbh.Host.Transfer.Bulk.{
  BulkRequest, Slots, drop_slots, write_chain, bulk_complete, byte_result, run_chain,
}
use imxrt_usbh.Host.Transfer.Keeps.{
  qtd_ptr-some, Rests, Rests-trans, drop_slot-Rests, Keeps, Keeps-trans, changed, changed-Rests,
  modify_qh-qh_addr, changed-Keeps, Keeps-IsScheduled, changed-IsScheduled,
}
use imxrt_usbh.Host.Transfer.Session.{IsController, IsWithin, Unless, session}

byte_result-AtMost :
    (req : BulkRequest) (token : ℕ) (outcome : Outcome (Unit {0}))
    → AtMost req.data_len (byte_result req token outcome)
unfolding byte_result
byte_result-AtMost req token (ok _) = ground arith
byte_result-AtMost req token (err e) = tt

bulk_complete-IsWithin :
    (slots : Slots) (pipe : Pipe)
    → pipe.which < num_qh
    → slots.data_slot < num_qtd
    → ((z : ℕ) → slots.zlp_slot ≡ some z → z < num_qtd)
    → IsWithin (bulk_complete slots (pipe.which + 1) pipe.which)
unfolding bulk_complete
bulk_complete-IsWithin slots pipe high data-lt zlp-lt = elim (Option-cases slots.zlp_slot) [
  | inl no_zlp ↦ rw no_zlp (record {
    waker-lt = omega arith;
    status-lt = data-lt;
    qh-lt = omega arith;
    data-lt = λ i h. cc;
  })
  | inr (z, has_zlp) ↦ rw has_zlp (record {
    waker-lt = omega arith;
    status-lt = zlp-lt z has_zlp;
    qh-lt = omega arith;
    data-lt = λ i h. omega (arith, data-lt, some_inj.0 h);
  })
]

module _ {Pool : Type 0} where
  pub drop_slots-Rests : (slots : Slots) (s : UsbStatics Pool) → Rests s (drop_slots slots s)
  unfolding drop_slots drop_slot
  drop_slots-Rests slots s = elim (Option-cases slots.zlp_slot) [
    | inl absent ↦ rw absent (drop_slot-Rests slots.data_slot s)
    | inr (z, present) ↦ rw present (
        Rests-trans s (drop_slot z s) _ (drop_slot-Rests z s)
          (drop_slot-Rests slots.data_slot (drop_slot z s)))
  ]

  pub drop_slots_pools :
      (slots : Slots) (s : UsbStatics Pool)
      → ((drop_slots slots s).qh_pool ≡ s.qh_pool)
        × ((drop_slots slots s).frame_list ≡ s.frame_list)
  unfolding drop_slots drop_slot
  drop_slots_pools slots s = elim (Option-cases slots.zlp_slot) [
    | inl no_zlp ↦ rw no_zlp (refl, refl)
    | inr (z, zlp) ↦ rw zlp (refl, refl)
  ]

  pub write_chain_returns :
      (l : Layout) (req : BulkRequest) (zlp : Bool) (slots : Slots) (s : UsbStatics Pool)
      → slots.data_slot < num_qtd
      → ((z : ℕ) → slots.zlp_slot ≡ some z → z < num_qtd)
      → (t : UsbStatics Pool) × (write_chain l req zlp slots s ≡ Run.ok t) × Keeps s t
  unfolding write_chain
  write_chain_returns l req zlp slots s data-lt zlp-lt = elim (Option-cases slots.zlp_slot) [
    | inl no_zlp ↦ (
      written,
      rw (qtd_ptr-some l slots.data_slot data-lt, no_zlp),
      record {
        links = λ x. refl;
        size = refl;
        frames = refl;
        slots = refl;
        rests = record {
          qtd_size = length-set s.qtd_pool slots.data_slot _;
          buffers = refl;
          control = refl;
          bulk = refl;
        };
      },
    )
    | inr (z, has_zlp) ↦ (
      set_next slots.data_slot (qtd_addr l z)
          (init_qtd z (qtd_token req.pid 0 false true) 0 0 written),
      rw (qtd_ptr-some l slots.data_slot data-lt, has_zlp, qtd_ptr-some l z (zlp-lt z has_zlp)),
      record {
        links = λ x. refl;
        size = refl;
        frames = refl;
        slots = refl;
        rests = record {
          qtd_size =
              length-set _ slots.data_slot _
              ∙ length-set _ z _
              ∙ length-set s.qtd_pool slots.data_slot _;
          buffers = refl;
          control = refl;
          bulk = refl;
        };
      },
    )
  ]
    where
      written : UsbStatics Pool
      written =
          init_qtd slots.data_slot (qtd_token req.pid req.data_len false (not zlp)) req.buffer
            req.data_len s

module _ {Pool : Type 0} {l : Layout} (aligned : IsAligned l) (r : Ral) {hardware : Controller Pool}
    (spec : IsController hardware) where
  toggled :
      (toggle : Bool) (q : ℕ) (s : UsbStatics Pool)
      → q < num_qh + 1
      → length s.qh_pool ≡ num_qh + 1
      → (t : UsbStatics Pool) × ((if toggle
            then modify_qh l (qh_addr l q) (λ q. set_overlay_toggle q true) s
            else Run.ok s)
          ≡ Run.ok t)
        × ((qh_at t q).overlay_next ≡ (qh_at s q).overlay_next)
        × Keeps s t
  unfolding set_overlay_toggle
  toggled true q s h size = (
    changed q (λ q. set_overlay_toggle q true) s,
    modify_qh-qh_addr l q (λ q. set_overlay_toggle q true) s h,
    ap (λ head. head.overlay_next) (get_or-set_self s.qh_pool q _ Qh.new (omega (arith, size))),
    changed-Keeps q (λ q. set_overlay_toggle q true) s (omega (arith, size)) refl,
  )
  toggled false q s h size = (
    s,
    refl,
    refl,
    record {
      links = λ x. refl;
      size = refl;
      frames = refl;
      slots = refl;
      rests = record { qtd_size = refl; buffers = refl; control = refl; bulk = refl };
    },
  )

  -- From the attachment of the chain on, with a queue head that is in neither schedule.
  pub run_chain_returns :
      (fuel : ℕ) (pipe : Pipe) (req : BulkRequest) (slots : Slots) (usbcmd : ℕ)
      (s : UsbStatics Pool) (xs ys : List ℕ)
      → IsScheduled l s xs ys
      → length s.qtd_pool ≡ num_qtd
      → pipe.which < num_qh
      → slots.data_slot < num_qtd
      → ((z : ℕ) → slots.zlp_slot ≡ some z → z < num_qtd)
      → has (pipe.which + 1) xs ≡ false
      → has (pipe.which + 1) ys ≡ false
      → num_qh ≤ fuel
      → Unless l r hardware
          (pipe.which + 1)
          xs
          ys
          (run_chain l r hardware fuel (qh_addr l (pipe.which + 1)) pipe req slots usbcmd s)
          ((last : UsbStatics Pool) × (toggle : Bool) × (usbcmd' : ℕ) × (result : Outcome ℕ)
            × (run_chain l r hardware fuel (qh_addr l (pipe.which + 1)) pipe req slots usbcmd s
                ≡ Run.ok (record {
                  result = result;
                  statics = drop_slots slots last;
                  data_toggle = toggle;
                  usbcmd = usbcmd';
                }))
            × IsScheduled l last xs ys
            × (last.qtd_allocated ≡ s.qtd_allocated)
            × Rests s last
            × AtMost req.data_len result)
  unfolding run_chain attach_qtd bulk_complete
  run_chain_returns fuel pipe req slots usbcmd s xs ys both qtd_size high data-lt zlp-lt out free
        enough =
      let q : ℕ = pipe.which + 1 in
      let below : q < num_qh + 1 = omega arith in
      let attach : QueueHead → QueueHead = λ head. attach_qtd head (qtd_addr l slots.data_slot) in
      let s1 : UsbStatics Pool = changed q attach s in
      let kept1 : Keeps s s1 = changed-Keeps q attach s (omega (arith, both.ring.size)) refl in
      let attached : (qh_at s1 q).overlay_next ≡ qtd_addr l slots.data_slot =
        ap (λ head. head.overlay_next)
          (get_or-set_self s.qh_pool q _ Qh.new (omega (arith, both.ring.size))) in
      let (s2, toggle_run, same_next, kept2) =
        toggled req.data_toggle q s1 below (kept1.size ∙ both.ring.size) in
      let both2 : IsScheduled l s2 xs ys =
        Keeps-IsScheduled l s xs ys both s2 (Keeps-trans s s1 s2 kept1 kept2) in
      elim (session aligned r spec fuel q usbcmd (bulk_complete slots q pipe.which) s2 xs ys
        slots.data_slot both2 (kept2.rests.qtd_size ∙ kept1.rests.qtd_size ∙ qtd_size)
        (bulk_complete-IsWithin slots pipe high data-lt zlp-lt) refl data-lt (same_next ∙ attached)
        (omega arith) below out free enough) [
          | inl (started, start_run, await_run, waits) ↦ inl (
            rw (
              qtd_ptr-some l slots.data_slot data-lt,
              modify_qh-qh_addr l q attach s below,
              toggle_run,
              start_run,
              await_run,
            ),
            waits,
          )
          | inr used ↦
              let clear : QueueHead → QueueHead = λ head. record head { sw_flags = 0 } in
              inr (
                changed q clear used.stopped.1,
                bit_and (qh_at used.stopped.1 q).overlay_token (2 ^ 31) != 0,
                used.stopped.0,
                byte_result req (qtd_at used.completed slots.data_slot).token used.outcome,
                rw (
                  qtd_ptr-some l slots.data_slot data-lt,
                  modify_qh-qh_addr l q attach s below,
                  toggle_run,
                  used.start_run,
                  used.await_run,
                  used.stop_run,
                  load_qh-qh_addr l used.stopped.1 q below,
                  modify_qh-qh_addr l q clear used.stopped.1 below,
                ),
                changed-IsScheduled l used.stopped.1 xs ys used.scheduled q clear (omega arith) out
                    free,
                used.slots ∙ kept2.slots,
                Rests-trans s s1 (changed q clear used.stopped.1) kept1.rests (
                    Rests-trans s1 s2 (changed q clear used.stopped.1) kept2.rests (
                      Rests-trans s2 used.stopped.1 (changed q clear used.stopped.1) used.rests
                        (changed-Rests q clear used.stopped.1))),
                byte_result-AtMost req (qtd_at used.completed slots.data_slot).token used.outcome,
              )
        ]
