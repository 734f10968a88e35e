-- ===== src/Host/HostController/Opening.antt =====
-- `alloc_interrupt_pipe` and `try_alloc_interrupt_pipe` keep the driver's invariant.
use imxrt_usbh.Base.{
  ℕ, suc, ◌+◌, ◌-◌, ◌<◌, ◌≡◌, refl, sym, ap, ◌∙◌, true, false, inl, inr, Option-cases, Option, none,
  some, List, [], ◌∷◌, length, length-set, length-map, set, get_elem?, lt_of_get_elem?, subst,
  arith,
}
use imxrt_usbh.Base.Members.{has, length-le_of_Distinct}
use imxrt_usbh.Ehci.Qh.{QueueHead, qh_capabilities, init_endpoint, attach_qtd}
use imxrt_usbh.Host.Error.{UsbError, Outcome, ok, err}
use imxrt_usbh.Host.HostController.{
  PoolOps, InterruptRequest, open_pipe, alloc_on, alloc_interrupt_pipe, try_alloc_on,
  try_alloc_interrupt_pipe,
}
use imxrt_usbh.Host.HostController.Invariant.{IsPool, IsDriver, heads}
use imxrt_usbh.Host.HostController.Placed.{
  get_elem?-set_taken, ArePlaced-set, slot_is_new, get_elem?-replicate,
}
use imxrt_usbh.Host.HostController.Transfers.{given_head_free}
use imxrt_usbh.Host.InterruptPipe as InterruptPipe
use imxrt_usbh.Host.InterruptPipe.{Pipe, ImxrtInterruptPipe, do_alloc_interrupt_pipe}
use imxrt_usbh.Host.InterruptPipe.Preparing.{
  opened_characteristics, opened_pipe, with_qtd, prepared, do_alloc_interrupt_pipe_steps,
}
use imxrt_usbh.Host.Regs.{Ral}
use imxrt_usbh.Host.Run.{Run, ◌>>=◌}
use imxrt_usbh.Host.Schedule.Both.{IsScheduled, link_periodic}
use imxrt_usbh.Host.Schedule.Periodic.Insert.{linked}
use imxrt_usbh.Host.Schedule.Qtd.{alloc_qtd}
use imxrt_usbh.Host.Schedule.Qtd.Laws.{in_use, Allocates, alloc_qtd-Allocates}
use imxrt_usbh.Host.Statics.{UsbStatics, Layout, num_qh, num_qtd, qtd_addr, RecvBuf}
use imxrt_usbh.Host.Transfer.Keeps.{changed, changed-IsScheduled, same_pools-IsScheduled}

module _ {Pool : Type 0} {pool : PoolOps Pool} (l : Layout) (p : IsPool pool) (s : UsbStatics Pool)
    (pipes : List ImxrtInterruptPipe) (d : IsDriver l p s pipes) where
  -- There are fewer open pipes than slots.
  slots_left : in_use s.qtd_allocated < num_qtd
  slots_left = omega (
    arith,
    d.count,
    length-map pipes (λ pipe. pipe.qh_index),
    length-le_of_Distinct (num_qh + 1) (heads pipes) d.scheduled.periodic.in_pool
        d.scheduled.periodic.distinct,
  )

module _ {Pool : Type 0} (s : UsbStatics Pool) (size : length s.qtd_allocated ≡ num_qtd)
    (left : in_use s.qtd_allocated < num_qtd) where
  -- The slot that `alloc_qtd` takes.
  taken_slot :
      (i : ℕ) × (get_elem? s.qtd_allocated i ≡ some false)
      × (alloc_qtd s ≡ some (i, record s { qtd_allocated = set s.qtd_allocated i true }))
      × (in_use (set s.qtd_allocated i true) ≡ suc (in_use s.qtd_allocated))
  taken_slot = elim (Option-cases (alloc_qtd s)) [
    | inl exhausted ↦ absurd (omega (arith, size, left, allocated none exhausted))
    | inr (took, taken) ↦
        let (vacant, _, same, count) = allocated (some (took.0, took.1)) taken in
        (
          took.0,
          vacant,
          taken ∙ ap (λ t. some (took.0, t)) same,
          ap (λ t. in_use t.qtd_allocated) (sym same) ∙ count,
        )
  ]
    where
      allocated : (o : Option (ℕ × UsbStatics Pool)) → alloc_qtd s ≡ o → Allocates s o
      allocated o h = subst (Allocates s) h (alloc_qtd-Allocates s)

abbrev opened : Ral → (portsc1 : ℕ) → Pipe → InterruptRequest → (i : ℕ) → ImxrtInterruptPipe
opened r portsc1 pipe req i =
    opened_pipe r portsc1 pipe req.address req.transfer_extras req.endpoint req.max_packet_size i

module _ {Pool : Type 0} (l : Layout) (r : Ral) (portsc1 : ℕ) (pipe : Pipe)
    (req : InterruptRequest) where
  -- The pools before the queue head is linked, and after.
  abbrev before_link : (i : ℕ) → UsbStatics Pool → UsbStatics Pool
  before_link i s =
      prepared l r portsc1 pipe req.address req.transfer_extras req.endpoint req.max_packet_size i
        (record s { qtd_allocated = set s.qtd_allocated i true })

  abbrev after_link : (i : ℕ) → UsbStatics Pool → UsbStatics Pool
  after_link i s = linked l (before_link i s) (pipe.which + 1)

  before_link-IsScheduled :
      (i : ℕ) (s : UsbStatics Pool) (ys : List ℕ)
      → IsScheduled l s [] ys
      → has (pipe.which + 1) ys ≡ false
      → IsScheduled l (before_link i s) [] ys
  before_link-IsScheduled i s ys both free =
      let q : ℕ = pipe.which + 1 in
      let s1 : UsbStatics Pool = record s { qtd_allocated = set s.qtd_allocated i true } in
      let endpoint : QueueHead → QueueHead = λ head.
        init_endpoint head
          (opened_characteristics r portsc1 pipe req.address req.transfer_extras req.endpoint
            req.max_packet_size)
          (qh_capabilities 1 0 0 0 1) in
      let s2 : UsbStatics Pool = changed q endpoint s1 in
      let s3 : UsbStatics Pool =
        with_qtd l r portsc1 pipe req.address req.transfer_extras req.endpoint req.max_packet_size i
          s2 in
      changed-IsScheduled l s3 [] ys
        (same_pools-IsScheduled l s2 [] ys
          (changed-IsScheduled l s1 [] ys (same_pools-IsScheduled l s [] ys both s1 refl refl) q
            endpoint (omega arith) refl free)
          s3 refl refl)
        q (λ head. attach_qtd head (qtd_addr l i)) (omega arith) refl free

module _ {Pool : Type 0} {pool : PoolOps Pool} (l : Layout) (r : Ral) (p : IsPool pool)
    (portsc1 : ℕ) (req : InterruptRequest) (s : UsbStatics Pool) (pipes : List ImxrtInterruptPipe)
    (d : IsDriver l p s pipes) where
  -- What is new is open, with what was asked for.
  pub record Opened (self : ImxrtInterruptPipe) (t : UsbStatics Pool) : Type 0 where
    pub driver : IsDriver l p t (self ∷ pipes)
    pub address_is : self.address ≡ req.address
    pub endpoint_is : self.endpoint ≡ req.endpoint
    pub size_is : self.max_packet_size ≡ req.max_packet_size

  pub opened_taken :
      (took : ℕ × Pool)
      → pool.try_alloc s.bulk_pipes ≡ some took
      → (self : ImxrtInterruptPipe) × (t : UsbStatics Pool) × (open_pipe pool l r portsc1 req took.0
            (record s { bulk_pipes = took.1 })
          ≡ Run.ok (self, t))
        × Opened self t
  unfolding open_pipe InterruptPipe.new
  opened_taken took given =
      let (below, unused, size, users) = p.gives s.bulk_pipes took given in
      let (i, vacant, taken, count) =
        taken_slot (record s { bulk_pipes = took.1 }) d.slots_size (slots_left l p s pipes d) in
      let pipe : Pipe = InterruptPipe.new took.0 1 in
      let s1 : UsbStatics Pool = record s { bulk_pipes = took.1 } in
      let slot : i < num_qtd =
        omega (arith, d.slots_size, lt_of_get_elem? s.qtd_allocated i vacant) in
      let (buf, recv, _) =
        get_elem?-replicate (λ (buf : RecvBuf). length buf.bytes) 64 (num_qh - 1) (pipe.which - 1)
          s.recv_bufs d.buffers (omega (arith, below, d.bulk_size)) in
      let free : has (pipe.which + 1) (heads pipes) ≡ false =
        given_head_free p s pipes took.0 d unused in
      let (run, both) =
        link_periodic l (before_link l r portsc1 pipe req i s1) (pipe.which + 1) [] (heads pipes)
          (before_link-IsScheduled l r portsc1 pipe req i s1 (heads pipes)
            (same_pools-IsScheduled l s [] (heads pipes) d.scheduled s1 refl refl) free)
          (omega arith) (omega (arith, below, d.bulk_size)) refl free in
      (
        opened r portsc1 pipe req i,
        after_link l r portsc1 pipe req i s1,
        do_alloc_interrupt_pipe_steps l r portsc1 pipe req.address req.transfer_extras req.endpoint
              req.max_packet_size s1 (record s1 { qtd_allocated = set s.qtd_allocated i true }) i
              buf taken (omega arith) (omega (arith, below, d.bulk_size)) slot recv
            ∙ ap (λ run. run >>= λ t. Run.ok (opened r portsc1 pipe req i, t)) run,
        record {
          driver = record {
            scheduled = both;
            qtd_size = length-set s.qtd_pool i _ ∙ d.qtd_size;
            slots_size = length-set s.qtd_allocated i true ∙ d.slots_size;
            control_size = d.control_size;
            control_free = d.control_free;
            bulk_size = size ∙ d.bulk_size;
            bulk_used = λ k. ground (arith, users k, d.bulk_used k);
            buffers = d.buffers;
            placed = (
              record {
                head_is = refl;
                which_pos = omega arith;
                which-lt = omega (arith, below, d.bulk_size);
                buffer_is = refl;
                marked = get_elem?-set_taken s.qtd_allocated i false true vacant;
              },
              ArePlaced-set s.qtd_allocated i pipes d.placed,
            );
            slots_apart = (slot_is_new s.qtd_allocated i pipes vacant d.placed, d.slots_apart);
            count = count ∙ ap suc d.count;
          };
          address_is = refl;
          endpoint_is = refl;
          size_is = refl;
        },
      )

  -- What comes of asking for a pipe: a pipe, as `alloc_interrupt_pipe` gives it too, or the error, if
  -- every number of the bulk pool belongs to an open pipe.
  abbrev pub Opens : Outcome ImxrtInterruptPipe × UsbStatics Pool → Type 0
  Opens (ok self, t) =
      Opened self t × (alloc_interrupt_pipe pool l r portsc1 req s ≡ Run.ok (self, t))
  Opens (err e, t) =
      (e ≡ UsbError.all_pipes_in_use)
      × (t ≡ s)
      × ((k : ℕ) → k < num_qh - 1 → has (k + 2) (heads pipes) ≡ true)
      × (alloc_interrupt_pipe pool l r portsc1 req s ≡ Run.out_of_fuel)

  -- `try_alloc_interrupt_pipe` never panics: there is always a qTD left for a pipe that the bulk pool
  -- gives out. It opens a pipe with the address, endpoint and packet size asked for, first in the
  -- periodic schedule, and the invariant of the driver holds with it, or it fails with
  -- `AllPipesInUse`, changes nothing, and all queue heads of the bulk pool belong to open pipes.
  -- `alloc_interrupt_pipe` gives the same pipe, and waits in the case of the error.
  pub try_alloc_interrupt_pipe-IsDriver :
      (out : Outcome ImxrtInterruptPipe × UsbStatics Pool) × (try_alloc_interrupt_pipe pool l r
          portsc1 req s
        ≡ Run.ok out)
      × Opens out
  unfolding try_alloc_interrupt_pipe alloc_interrupt_pipe try_alloc_on alloc_on
  try_alloc_interrupt_pipe-IsDriver = elim (Option-cases (pool.try_alloc s.bulk_pipes)) [
    | inl none_left ↦ (
      (err UsbError.all_pipes_in_use, s),
      rw none_left,
      (
        refl,
        refl,
        λ k lt. sym (d.bulk_used k) ∙ p.full s.bulk_pipes none_left k (omega (arith, d.bulk_size)),
        rw none_left,
      ),
    )
    | inr (took, given) ↦
        let (self, t, run, new) = opened_taken took given in
        ((ok self, t), rw (given, run), (new, rw (given, run)))
  ]
