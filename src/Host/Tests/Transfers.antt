-- ===== src/Host/Tests/Transfers.antt =====
-- The qTDs of a bulk transfer on an empty pool.
use imxrt_usbh.Base.{ℕ, ◌≡◌, ◌≢◌, refl, true, false, some, ◌∷◌, replicate, arith}
use imxrt_usbh.Ehci.FrameList
use imxrt_usbh.Ehci.Link.{link_terminate}
use imxrt_usbh.Ehci.Qh
use imxrt_usbh.Ehci.Td
use imxrt_usbh.Host.InterruptPipe.Laws.{qtd_at}
use imxrt_usbh.Host.Run as Run
use imxrt_usbh.Host.Statics.{UsbStatics, qtd_addr, recv_buf}
use imxrt_usbh.Host.Tests.{layout}
use imxrt_usbh.Host.Transfer.Bulk.{BulkRequest, need_zlp, write_chain, bulk_complete}
use imxrt_usbh.Host.Transfer.Chain.{Describes, write_chain-zlp}
use imxrt_usbh.Midi.Driver.{fixed_size, variable_size}

abbrev pools : UsbStatics ℕ
pools = record {
  control_pipes = 1;
  bulk_pipes = 3;
  qh_pool = replicate 5 Qh.new;
  qtd_pool = replicate 16 Td.new;
  frame_list = FrameList.new;
  qtd_allocated = true ∷ replicate 15 false;
  recv_bufs = replicate 3 recv_buf;
}

-- An OUT transfer of two full packets.
abbrev two_packets : BulkRequest
two_packets = record {
  address = 5;
  endpoint = 2;
  packet_size = 64;
  buffer = 0x2020_4000;
  data_len = 128;
  pid = 0;
  is_in = false;
  transfer_type = variable_size;
  data_toggle = false;
}

write_chain-zlp_example :
    (s' : UsbStatics ℕ) × (write_chain layout two_packets true
        (record { data_slot = 1; zlp_slot = some 2 })
        pools
      ≡ Run.ok s')
    × Describes (qtd_at s' 1) 128 (qtd_addr layout 2) false
    × Describes
        (qtd_at s'
          (bulk_complete (record { data_slot = 1; zlp_slot = some 2 }) 2 1).status_qtd_index)
        0
        link_terminate
        true
    × ((bulk_complete (record { data_slot = 1; zlp_slot = some 2 }) 2 1).data_qtd_index ≡ some 1)
write_chain-zlp_example =
    write_chain-zlp layout two_packets pools 1 (omega arith) refl (omega arith) 2 (omega arith)
      apart 2 1
  where
    apart : ◌≢◌ {A = ℕ} 1 2
    apart e = absurd (omega arith)

two_packets_zlp : need_zlp false variable_size 128 64 ≡ true
unfolding need_zlp
two_packets_zlp = refl

fixed_no_zlp : need_zlp false fixed_size 128 64 ≡ false
unfolding need_zlp
fixed_no_zlp = refl
