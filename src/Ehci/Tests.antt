-- ===== src/Ehci/Tests.antt =====
-- The layout of the EHCI structures on concrete values.
use imxrt_usbh.Base.{◌/◌, ◌%◌, ◌^◌, ◌≡◌, true, false, arith}
use imxrt_usbh.Ehci.Token.{
  pid_in, qtd_token, qtd_token_bytes_remaining, is_inactive, has_error_bits,
}
use imxrt_usbh.Ehci.Token.Laws.{qtd_token_decodes}
use imxrt_usbh.Ehci.Td
use imxrt_usbh.Ehci.Td.{TransferDescriptor}
use imxrt_usbh.Ehci.Td.Laws.{dma_address, dma_address-init}
use imxrt_usbh.Ehci.Qh
use imxrt_usbh.Ehci.Qh.{
  QueueHead, qh_characteristics, qh_capabilities, set_overlay_toggle, speed_full,
}
use imxrt_usbh.Ehci.Qh.Laws.{qh_characteristics_decodes}

qtd_token_decodes_example :
    let t = qtd_token pid_in 64 false true in
    (t / 2 ^ 8 % 4 ≡ 1)
    × (t / 2 ^ 10 % 4 ≡ 3)
    × (qtd_token_bytes_remaining t ≡ 64)
    × (t / 2 ^ 15 % 2 ≡ 1)
    × (t / 2 ^ 31 ≡ 0)
    × (is_inactive t ≡ false)
    × (has_error_bits t ≡ false)
qtd_token_decodes_example = qtd_token_decodes pid_in 64 false true (omega arith)

dma_address-init_example : dma_address (Td.init Td.new 0 0x2024_0ff0 64) 32 ≡ 0x2024_1010
dma_address-init_example = dma_address-init Td.new 0 0x2024_0ff0 64 32 (omega arith) (omega arith)

qh_characteristics_decodes_example :
    let w = qh_characteristics 5 0 speed_full 64 true false in
    (w % 2 ^ 8 ≡ 5)
    × (w / 2 ^ 8 % 2 ^ 4 ≡ 0)
    × (w / 2 ^ 12 % 4 ≡ 0)
    × (w / 2 ^ 14 % 2 ≡ 1)
    × (w / 2 ^ 15 % 2 ≡ 0)
    × (w / 2 ^ 16 % 2 ^ 11 ≡ 64)
    × (w / 2 ^ 27 % 2 ≡ 1)
    × (w / 2 ^ 28 ≡ 15)
qh_characteristics_decodes_example =
    qh_characteristics_decodes 5 0 speed_full 64 true false (omega arith) (omega arith)
      (omega arith) (omega arith)

abbrev halted : QueueHead
halted = record Qh.new { overlay_token = 0x40 }
