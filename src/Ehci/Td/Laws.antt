-- ===== src/Ehci/Td/Laws.antt =====
-- Where the controller finds the bytes of an initialised transfer.
use imxrt_usbh.Base.{ℕ, zero, suc, ◌+◌, ◌*◌, ◌/◌, ◌%◌, ◌^◌, ◌<◌, ◌≡◌, get_or, arith}
use imxrt_usbh.Base.Fields.{bit_and_field}
use imxrt_usbh.Ehci.Td.{TransferDescriptor, page, init}

-- The address of byte `o` of a transfer, as EHCI §3.5.4 has the controller compute it: the low 12
-- bits of the first buffer pointer are the offset in the first page, and a later page is the
-- pointer of that index with its low bits ignored.
unfoldable pub dma_address : TransferDescriptor → (o : ℕ) → ℕ
dma_address qtd o =
    let offset = get_or qtd.buffer 0 0 % 4096 + o in
    get_or qtd.buffer (offset / 4096) 0 / 4096 * 4096 + offset % 4096

page_lem : (addr i : ℕ) → addr / 4096 + i < 2 ^ 20 → page addr i / 4096 ≡ addr / 4096 + i
page_lem addr i h = omega (arith, bit_and_field 20 12 addr)

buffer_page :
    (qtd : TransferDescriptor) (token addr len p : ℕ)
    → p < 5
    → addr / 4096 + p < 2 ^ 20
    → get_or (init qtd token addr len).buffer p 0 / 4096 ≡ addr / 4096 + p
unfolding init
buffer_page qtd token addr len zero h small = omega arith
buffer_page qtd token addr len (suc zero) h small = page_lem addr 1 small
buffer_page qtd token addr len (suc (suc zero)) h small = page_lem addr 2 small
buffer_page qtd token addr len (suc (suc (suc zero))) h small = page_lem addr 3 small
buffer_page qtd token addr len (suc (suc (suc (suc zero)))) h small = page_lem addr 4 small
buffer_page qtd token addr len (suc (suc (suc (suc (suc p))))) h small = absurd (omega arith)

-- After `init`, byte `o` of the transfer stands at `addr + o`, for every byte that lies within the
-- five pages from the page of `addr` on and below the end of the address space.
pub dma_address-init :
    (qtd : TransferDescriptor) (token addr len o : ℕ)
    → addr % 4096 + o < 5 * 4096
    → addr + o < 2 ^ 32
    → dma_address (init qtd token addr len) o ≡ addr + o
unfolding dma_address init
dma_address-init qtd token addr len o within small =
    omega
      (arith, buffer_page qtd token addr len ((addr % 4096 + o) / 4096) (omega arith) (omega arith))
