-- ===== src/Host/Statics.antt =====
-- statics.rs: the pools of DMA structures, and where they stand in memory.
pub mod Addresses
pub mod Links
use imxrt_usbh.Base.{
  ℕ, ◌+◌, ◌-◌, ◌*◌, ◌/◌, ◌%◌, ◌^◌, ◌<◌, ◌≤◌, ◌≡◌, Bool, false, ◌&&◌, List, leb, ltb, ◌==◌,
  replicate, get_or, get_elem?, set, Option, none, some, if◌then◌else◌,
}
use imxrt_usbh.Ehci.Qh
use imxrt_usbh.Ehci.Qh.{QueueHead}
use imxrt_usbh.Ehci.Td
use imxrt_usbh.Ehci.Td.{TransferDescriptor}
use imxrt_usbh.Ehci.FrameList
use imxrt_usbh.Ehci.FrameList.{FrameList}
use imxrt_usbh.Host.Run.{Run, ok, fault}

abbrev pub num_qh : ℕ
num_qh = 4

abbrev pub num_qtd : ℕ
num_qtd = 16

abbrev pub num_pipe_wakers : ℕ
num_pipe_wakers = num_qh + 1

-- `RecvBuf`, 64 bytes.
pub record RecvBuf : Type 0 where
  pub bytes : List ℕ

unfoldable pub recv_buf : RecvBuf
recv_buf = record { bytes = replicate 64 0 }

-- `Pool` is the pool of cotton-usb-host, which hands out the pipe slots.
pub record UsbStatics (Pool : Type 0) : Type 0 where
  pub control_pipes : Pool
  pub bulk_pipes : Pool
  pub qh_pool : List QueueHead
  pub qtd_pool : List TransferDescriptor
  pub frame_list : FrameList
  pub qtd_allocated : List Bool
  pub recv_bufs : List RecvBuf

unfoldable pub new : {Pool : Type 0} → (pool_new : ℕ → Pool) → UsbStatics Pool
unfolding Qh.new Td.new FrameList.new recv_buf
new pool_new = record {
  control_pipes = pool_new 1;
  bulk_pipes = pool_new (num_qh - 1);
  qh_pool = replicate (num_qh + 1) Qh.new;
  qtd_pool = replicate num_qtd Td.new;
  frame_list = FrameList.new;
  qtd_allocated = replicate num_qtd false;
  recv_bufs = replicate (num_qh - 1) recv_buf;
}

-- Where the linker has put the arrays of a `UsbStatics`.
pub record Layout : Type 0 where
  pub qh_base : ℕ
  pub qtd_base : ℕ
  pub recv_base : ℕ

-- What `repr(align)` and the size of an array element give, on a 32-bit target: the queue heads are
-- 64 bytes each and 64-byte aligned, the descriptors 32 bytes, the buffers 64 bytes on 32.
pub record IsAligned (l : Layout) : Type 0 where
  pub qh_aligned : l.qh_base % 64 ≡ 0
  pub qh_not_null : 0 < l.qh_base
  pub qh_fits : l.qh_base + 64 * (num_qh + 1) ≤ 2 ^ 32
  pub qtd_aligned : l.qtd_base % 32 ≡ 0
  pub qtd_not_null : 0 < l.qtd_base
  pub qtd_fits : l.qtd_base + 32 * num_qtd ≤ 2 ^ 32
  pub recv_fits : l.recv_base + 64 * (num_qh - 1) ≤ 2 ^ 32

-- `qh_ptr(index)` as an address; an index from `num_qh + 1` on panics (`none`).
unfoldable pub qh_ptr : Layout → (index : ℕ) → Option ℕ
qh_ptr l index = if ltb index (num_qh + 1) then some (l.qh_base + 64 * index) else none

unfoldable pub qtd_ptr : Layout → (index : ℕ) → Option ℕ
qtd_ptr l index = if ltb index num_qtd then some (l.qtd_base + 32 * index) else none

abbrev pub qh_addr : Layout → ℕ → ℕ
qh_addr l index = l.qh_base + 64 * index

abbrev pub qtd_addr : Layout → ℕ → ℕ
qtd_addr l index = l.qtd_base + 32 * index

-- The index of the queue head at an address, if one starts there.
unfoldable pub qh_index : Layout → (addr : ℕ) → Option ℕ
qh_index l addr =
    let offset = addr - l.qh_base in
    if leb l.qh_base addr && (offset % 64 == 0) && ltb (offset / 64) (num_qh + 1)
    then some (offset / 64)
    else none

module _ {Pool : Type 0} (l : Layout) (s : UsbStatics Pool) where
  -- `*qh` at an address; a fault where no queue head starts.
  unfoldable pub load_qh : (addr : ℕ) → Run QueueHead
  load_qh addr = elim (qh_index l addr) [ none ↦ fault | some i ↦ ok (get_or s.qh_pool i Qh.new) ]

  -- `(*qh).field.write(..)`
  unfoldable pub store_qh : (addr : ℕ) → QueueHead → Run (UsbStatics Pool)
  store_qh addr q = elim (qh_index l addr) [
    | none ↦ fault
    | some i ↦ ok (record s { qh_pool = set s.qh_pool i q })
  ]
