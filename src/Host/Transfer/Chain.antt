-- ===== src/Host/Transfer/Chain.antt =====
-- The chain of qTDs of a bulk transfer, and the qTD that its future waits for.
use imxrt_usbh.Base.{
  ℕ, ◌/◌, ◌%◌, ◌^◌, ◌<◌, ◌≡◌, ◌≢◌, refl, sym, ap, ◌∙◌, Bool, true, false, some, none, length,
  length-set, get_or-set_self, get_or-set_ne, arith, if◌then◌else◌,
}
use imxrt_usbh.Ehci.Link.{link_terminate}
use imxrt_usbh.Ehci.Token.{qtd_token, qtd_token_bytes_remaining, is_inactive}
use imxrt_usbh.Ehci.Token.Laws.{qtd_token_decodes}
use imxrt_usbh.Ehci.Td
use imxrt_usbh.Ehci.Td.{TransferDescriptor}
use imxrt_usbh.Host.Run.{ok}
use imxrt_usbh.Host.InterruptPipe.Laws.{qtd_at, ltb-true}
use imxrt_usbh.Host.Statics.{UsbStatics, Layout, num_qtd, qtd_addr, qtd_ptr}
use imxrt_usbh.Host.Transfer.{init_qtd, set_next}
use imxrt_usbh.Host.Transfer.Bulk.{BulkRequest, Slots, write_chain, bulk_complete}

-- A qTD that is active, has `n` bytes to go, raises an interrupt at its end or not, and is followed by
-- `next`.
pub record Describes (qtd : TransferDescriptor) (n next : ℕ) (ioc : Bool) : Type 0 where
  pub active : is_inactive qtd.token ≡ false
  pub bytes : qtd_token_bytes_remaining qtd.token ≡ n % 2 ^ 15
  pub interrupt : qtd.token / 2 ^ 15 % 2 ≡ (if ioc then 1 else 0)
  pub next_is : qtd.next ≡ next

module _ (pid n addr : ℕ) (ioc : Bool) (small : pid < 4) where
  init-Describes :
      (qtd : TransferDescriptor) (next : ℕ)
      → Describes
          (record (Td.init qtd (qtd_token pid n false ioc) addr n) { next = next })
          n
          next
          ioc
  unfolding Td.init
  init-Describes qtd next =
      let (_, _, bytes, interrupt, _, active, _) = qtd_token_decodes pid n false ioc small in
      record { active = active; bytes = bytes; interrupt = interrupt; next_is = refl }

module _ {Pool : Type 0} (l : Layout) (req : BulkRequest) (s : UsbStatics Pool) (d : ℕ)
    (below : d < num_qtd) (size : length s.qtd_pool ≡ num_qtd) (small : req.pid < 4) where
  -- Without a zero-length packet the chain is the data qTD: it raises the interrupt, no qTD follows
  -- it, and the future waits for it. The slot lies within the pool.
  pub write_chain-data :
      (qh_index waker_index : ℕ)
      → let slots : Slots = record { data_slot = d; zlp_slot = none } in
        (s' : UsbStatics Pool) × (write_chain l req false slots s ≡ ok s')
        × Describes
            (qtd_at s' (bulk_complete slots qh_index waker_index).status_qtd_index)
            req.data_len
            link_terminate
            true
  unfolding write_chain qtd_ptr bulk_complete Td.init
  write_chain-data qh_index waker_index = (
    init_qtd d (qtd_token req.pid req.data_len false true) req.buffer req.data_len s,
    rw (ltb-true d num_qtd below),
    rw
        (get_or-set_self s.qtd_pool d
          (Td.init (qtd_at s d) (qtd_token req.pid req.data_len false true) req.buffer req.data_len)
          Td.new (omega (arith, size)))
        (init-Describes req.pid req.data_len req.buffer true small (qtd_at s d) link_terminate),
  )

  module _ (z : ℕ) (below_z : z < num_qtd) (apart : d ≢ z) where
    abbrev with_data : UsbStatics Pool
    with_data = init_qtd d (qtd_token req.pid req.data_len false false) req.buffer req.data_len s

    abbrev chained : UsbStatics Pool
    chained = set_next d (qtd_addr l z) (init_qtd z (qtd_token req.pid 0 false true) 0 0 with_data)

    at_zlp : qtd_at chained z ≡ Td.init (qtd_at with_data z) (qtd_token req.pid 0 false true) 0 0
    at_zlp =
        get_or-set_ne _ d z _ Td.new apart
        ∙ get_or-set_self with_data.qtd_pool z _ Td.new
            (omega (arith, size, length-set s.qtd_pool d _))

    at_data :
        qtd_at chained d
        ≡ record (Td.init
            (qtd_at s d)
            (qtd_token req.pid req.data_len false false)
            req.buffer
            req.data_len) { next = qtd_addr l z }
    at_data =
        get_or-set_self _ d _ Td.new (
          omega (
            arith,
            size,
            length-set s.qtd_pool d (qtd_at with_data d),
            length-set with_data.qtd_pool z
                (Td.init (qtd_at with_data z) (qtd_token req.pid 0 false true) 0 0),
            length-set s.qtd_pool d (
                Td.init (qtd_at s d) (qtd_token req.pid req.data_len false false) req.buffer
                  req.data_len),
          ))
        ∙ ap (λ (qtd : TransferDescriptor). record qtd { next = qtd_addr l z })
            (get_or-set_ne with_data.qtd_pool z d _ Td.new (λ e. apart (sym e))
              ∙ get_or-set_self s.qtd_pool d _ Td.new (omega (arith, size)))

    -- With a zero-length packet the data qTD is followed by its qTD: the data qTD raises no
    -- interrupt, the other one does, has no byte to go and no qTD behind it. The future waits for the
    -- latter and watches the data qTD. The two slots are different and lie within the pool.
    pub write_chain-zlp :
        (qh_index waker_index : ℕ)
        → let slots : Slots = record { data_slot = d; zlp_slot = some z } in
          let future = bulk_complete slots qh_index waker_index in
          (s' : UsbStatics Pool) × (write_chain l req true slots s ≡ ok s')
          × Describes (qtd_at s' d) req.data_len (qtd_addr l z) false
          × Describes (qtd_at s' future.status_qtd_index) 0 link_terminate true
          × (future.data_qtd_index ≡ some d)
    unfolding write_chain qtd_ptr bulk_complete Td.init
    write_chain-zlp qh_index waker_index = (
      chained,
      rw (ltb-true d num_qtd below, ltb-true z num_qtd below_z),
      rw at_data
          (init-Describes req.pid req.data_len req.buffer false small (qtd_at s d) (qtd_addr l z)),
      rw at_zlp (init-Describes req.pid 0 0 true small (qtd_at with_data z) link_terminate),
      refl,
    )
