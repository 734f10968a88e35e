-- ===== src/Host/HostController/Invariant.antt =====
-- What holds of the driver's pools between two calls of the trait.
use imxrt_usbh.Base.{
  ℕ, ◌+◌, ◌-◌, ◌<◌, ◌≡◌, Bool, true, false, not, ◌&&◌, ◌||◌, ◌==◌, none, some, List, [], ◌∷◌, map,
  length, get_elem?, replicate,
}
use imxrt_usbh.Base.Members.{has, Distinct}
use imxrt_usbh.Host.HostController.{PoolOps}
use imxrt_usbh.Host.InterruptPipe.{ImxrtInterruptPipe}
use imxrt_usbh.Host.Schedule.Both.{IsScheduled}
use imxrt_usbh.Host.Schedule.Qtd.Laws.{in_use}
use imxrt_usbh.Host.Statics.{UsbStatics, Layout, num_qh, num_qtd}
use imxrt_usbh.Host.Transfer.Keeps.{buffer_sizes}

-- What cotton-usb-host says of its pool: it gives out numbers below its size that are not in use, as
-- long as there is one.
pub record IsPool {Pool : Type 0} (pool : PoolOps Pool) : Type 0 where
  pub size : Pool → ℕ
  pub used : Pool → (which : ℕ) → Bool
  pub size_new : (n : ℕ) → size (pool.new n) ≡ n
  pub used_new : (n k : ℕ) → used (pool.new n) k ≡ false
  pub full : (p : Pool) → pool.try_alloc p ≡ none → (k : ℕ) → k < size p → used p k ≡ true
  pub gives :
      (p : Pool) (took : ℕ × Pool)
      → pool.try_alloc p ≡ some took
      → (took.0 < size p)
        × (used p took.0 ≡ false)
        × (size took.1 ≡ size p)
        × ((k : ℕ) → used took.1 k ≡ ((k == took.0) || used p k))
  pub size_free : (n : ℕ) (p : Pool) → size (pool.free n p) ≡ size p
  pub used_free : (n : ℕ) (p : Pool) (k : ℕ) → used (pool.free n p) k ≡ (not (k == n) && used p k)

-- The queue heads and the qTD slots of open pipes.
abbrev pub heads : List ImxrtInterruptPipe → List ℕ
heads pipes = map (λ pipe. pipe.qh_index) pipes

abbrev pub qtds : List ImxrtInterruptPipe → List ℕ
qtds pipes = map (λ pipe. pipe.qtd_slot) pipes

-- The indices of a pipe belong together, and its slot is marked.
pub record IsPlaced (slots : List Bool) (pipe : ImxrtInterruptPipe) : Type 0 where
  pub head_is : pipe.qh_index ≡ pipe.pipe.which + 1
  pub which_pos : 0 < pipe.pipe.which
  pub which-lt : pipe.pipe.which < num_qh
  pub buffer_is : pipe.recv_buf_idx ≡ pipe.pipe.which - 1
  pub marked : get_elem? slots pipe.qtd_slot ≡ some true

abbrev pub ArePlaced : List Bool → List ImxrtInterruptPipe → Type 0
ArePlaced slots [] = Unit
ArePlaced slots (pipe ∷ pipes) = IsPlaced slots pipe × ArePlaced slots pipes

module _ {Pool : Type 0} {pool : PoolOps Pool} (l : Layout) (p : IsPool pool) where
  -- The async schedule is empty, the periodic schedule holds the queue heads of the open pipes, the
  -- bulk pool has given out their numbers and the bitmap their slots, and the control pool is free.
  pub record IsDriver (s : UsbStatics Pool) (pipes : List ImxrtInterruptPipe) : Type 0 where
    pub scheduled : IsScheduled l s [] (heads pipes)
    pub qtd_size : length s.qtd_pool ≡ num_qtd
    pub slots_size : length s.qtd_allocated ≡ num_qtd
    pub control_size : p.size s.control_pipes ≡ 1
    pub control_free : p.used s.control_pipes 0 ≡ false
    pub bulk_size : p.size s.bulk_pipes ≡ num_qh - 1
    pub bulk_used : (k : ℕ) → p.used s.bulk_pipes k ≡ has (k + 2) (heads pipes)
    pub buffers : buffer_sizes s ≡ replicate (num_qh - 1) 64
    pub placed : ArePlaced s.qtd_allocated pipes
    pub slots_apart : Distinct (qtds pipes)
    pub count : in_use s.qtd_allocated ≡ length pipes
