-- ===== src/Host/Tests/Driver.antt =====
-- The driver over a concrete pool: a call of each kind after `init`.
use imxrt_usbh.Base.{
  ℕ, zero, suc, ◌+◌, ◌-◌, ◌<◌, ◌≡◌, refl, sym, ap, subst, ◌∙◌, ◌==◌, ◌&&◌, ◌||◌, not, Bool, true,
  false, Option, none, some, List, [], ◌∷◌, length, length-set, length-replicate, get_or, get_elem?,
  get_elem?_of_lt, lt_of_get_elem?, set, replicate, arith,
}
use mathlib.Core.Option.{some_inj}
use imxrt_usbh.Host.Controller.{init}
use imxrt_usbh.Host.Error.{Outcome, ok}
use imxrt_usbh.Host.Error.Laws.{AtMost}
use imxrt_usbh.Host.HostController.{
  InterruptRequest, control_transfer, bulk_in_transfer, bulk_out_transfer, open_pipe, try_alloc_on,
  try_alloc_interrupt_pipe, close_pipe,
}
use imxrt_usbh.Host.HostController.Closing.{here, close_pipe-IsDriver}
use imxrt_usbh.Host.HostController.Invariant.{IsDriver}
use imxrt_usbh.Host.HostController.Opening.{
  Opened, Opens, opened_taken, try_alloc_interrupt_pipe-IsDriver,
}
use imxrt_usbh.Host.HostController.Reachable.{
  Driven, opened, started_pools, init-IsDriver, Driven-IsDriver,
}
use imxrt_usbh.Host.HostController.Transfers.{control_transfer-IsDriver, bulk_transfer-IsDriver}
use imxrt_usbh.Host.InterruptPipe.{ImxrtInterruptPipe, normal}
use imxrt_usbh.Host.Run as Run
use imxrt_usbh.Host.Statics
use imxrt_usbh.Host.Statics.{UsbStatics}
use imxrt_usbh.Host.Tests.{ral, layout, layout-IsAligned}
use imxrt_usbh.Host.Tests.Calls.{hardware, hardware-IsController, get_descriptor}
use imxrt_usbh.Host.Transfer.Bulk.{Transferred}
use imxrt_usbh.Host.Transfer.Control.{ControlDone, control_data_len}
use imxrt_usbh.Host.Transfer.Session.{Unless}
use imxrt_usbh.Midi.Driver.{variable_size}
use imxrt_usbh.Host.HostController.{PoolOps}
use imxrt_usbh.Host.HostController.Invariant.{IsPool}
use imxrt_usbh.Host.Schedule.Qtd.{first_free}
use imxrt_usbh.Host.Schedule.Qtd.Laws.{Found, first_free-Found}

-- A pool of marks.
abbrev take_from : List Bool → Option ℕ → Option (ℕ × List Bool)
take_from marks none = none
take_from marks (some i) = some (i, set marks i true)

abbrev pool : PoolOps (List Bool)
pool = record {
  new = λ total. replicate total false;
  try_alloc = λ marks. take_from marks (first_free 0 marks);
  free = λ which marks. set marks which false;
}

none_used : (n k : ℕ) → get_or (replicate n false) k false ≡ false
none_used zero k = refl
none_used (suc n) zero = refl
none_used (suc n) (suc k) = none_used n k

freed :
    (n : ℕ) (marks : List Bool) (k : ℕ)
    → get_or (set marks n false) k false ≡ (not (k == n) && get_or marks k false)
freed n [] k = ground arith
freed zero (x ∷ marks) zero = ground arith
freed zero (x ∷ marks) (suc k) = ground arith
freed (suc n) (x ∷ marks) zero = ground arith
freed (suc n) (x ∷ marks) (suc k) = freed n marks k ∙ ground arith

marked :
    (n : ℕ) (marks : List Bool) (k : ℕ)
    → n < length marks
    → get_or (set marks n true) k false ≡ ((k == n) || get_or marks k false)
marked n [] k h = absurd (omega arith)
marked zero (x ∷ marks) zero h = ground arith
marked zero (x ∷ marks) (suc k) h = ground arith
marked (suc n) (x ∷ marks) zero h = ground arith
marked (suc n) (x ∷ marks) (suc k) h = marked n marks k (omega arith) ∙ ground arith

Takes : List Bool → Option (ℕ × List Bool) → Type 0
Takes marks none = (k : ℕ) → k < length marks → get_or marks k false ≡ true
Takes marks (some took) =
    (took.0 < length marks) × (get_or marks took.0 false ≡ false) × (took.1 ≡ set marks took.0 true)

takes : (marks : List Bool) (o : Option ℕ) → Found 0 marks o → Takes marks (take_from marks o)
unfolding Takes
takes marks none full = λ k lt. some_inj.0 (sym (get_elem?_of_lt marks k false lt) ∙ full k lt)
takes marks (some i) (_, vacant, _) =
    let e : i - 0 ≡ i = omega arith in
    let free : get_elem? marks i ≡ some false = rw e at vacant in
    let lt : i < length marks = lt_of_get_elem? marks i free in
    (lt, some_inj.0 (sym (get_elem?_of_lt marks i false lt) ∙ free), refl)

try_alloc-Takes : (marks : List Bool) → Takes marks (pool.try_alloc marks)
try_alloc-Takes marks = takes marks (first_free 0 marks) (first_free-Found 0 marks)

pool-IsPool : IsPool pool
unfolding Takes
pool-IsPool = record {
  size = λ marks. length marks;
  used = λ marks k. get_or marks k false;
  size_new = λ n. length-replicate n false;
  used_new = none_used;
  full = λ marks h. subst (Takes marks) h (try_alloc-Takes marks);
  gives = λ marks took h.
      let (lt, unused, same) = subst (Takes marks) h (try_alloc-Takes marks) in
      (
        lt,
        unused,
        ap (λ m. length m) same ∙ length-set marks took.0 true,
        λ k. ap (λ m. get_or m k false) same ∙ marked took.0 marks k lt,
      );
  size_free = λ n marks. length-set marks n false;
  used_free = freed;
}

abbrev started : UsbStatics (List Bool)
started = started_pools layout ral pool-IsPool 0x2020_3000 false 0x1000_1803 0

started-IsDriver : IsDriver layout pool-IsPool started []
started-IsDriver = init-IsDriver layout ral pool-IsPool 0x2020_3000 false 0x1000_1803 0

control_transfer-IsDriver_example :
    Unless {Pool = List Bool} layout ral hardware 1 [] []
      (control_transfer pool layout ral hardware 4 0 get_descriptor 0 started)
      ((done : ControlDone (List Bool)) × (control_transfer pool layout ral hardware 4 0
            get_descriptor 0 started
          ≡ Run.ok done)
        × IsDriver layout pool-IsPool done.statics []
        × AtMost (control_data_len get_descriptor.setup get_descriptor.data_phase) done.result)
control_transfer-IsDriver_example =
    control_transfer-IsDriver layout-IsAligned ral pool-IsPool hardware-IsController 4 0
      (omega arith) get_descriptor 0 started [] started-IsDriver

-- A full packet on endpoint 2.
bulk_transfer-IsDriver_example :
    ((which : ℕ) × Unless {Pool = List Bool} layout ral hardware
        (which + 2)
        []
        []
        (bulk_in_transfer pool layout ral hardware 4 0 5 2 64 0x2020_4000 64 variable_size false 0
          started)
        ((done : Transferred (List Bool)) × (bulk_in_transfer pool layout ral hardware 4 0 5 2 64
              0x2020_4000 64 variable_size false 0 started
            ≡ Run.ok done)
          × IsDriver layout pool-IsPool done.statics []
          × AtMost 64 done.result))
    × (which : ℕ) × Unless {Pool = List Bool} layout ral hardware
        (which + 2)
        []
        []
        (bulk_out_transfer pool layout ral hardware 4 0 5 2 64 0x2020_4000 64 variable_size false 0
          started)
        ((done : Transferred (List Bool)) × (bulk_out_transfer pool layout ral hardware 4 0 5 2 64
              0x2020_4000 64 variable_size false 0 started
            ≡ Run.ok done)
          × IsDriver layout pool-IsPool done.statics []
          × AtMost 64 done.result)
unfolding init Statics.new pool-IsPool
bulk_transfer-IsDriver_example =
    bulk_transfer-IsDriver layout-IsAligned ral pool-IsPool hardware-IsController 4 0 (omega arith)
      5 2 64 0x2020_4000 64 variable_size false 0 started [] 0 (omega arith) refl started-IsDriver

-- The status endpoint of a hub.
abbrev status_endpoint : InterruptRequest
status_endpoint = record {
  address = 1;
  transfer_extras = normal;
  endpoint = 1;
  max_packet_size = 1;
}

try_alloc_interrupt_pipe-IsDriver_example :
    (out : Outcome ImxrtInterruptPipe × UsbStatics (List Bool)) × (try_alloc_interrupt_pipe pool
        layout ral 0x1000_1803 status_endpoint started
      ≡ Run.ok out)
    × Opens layout ral pool-IsPool 0x1000_1803 status_endpoint started [] started-IsDriver out
try_alloc_interrupt_pipe-IsDriver_example =
    try_alloc_interrupt_pipe-IsDriver layout ral pool-IsPool 0x1000_1803 status_endpoint started []
      started-IsDriver

first_given : pool.try_alloc started.bulk_pipes ≡ some (0, true ∷ false ∷ false ∷ [])
unfolding init Statics.new first_free
first_given = refl

-- The pipe that is opened first, and the pools with it.
abbrev first_opened :
    (self : ImxrtInterruptPipe) × (t : UsbStatics (List Bool)) × (open_pipe pool layout ral
        0x1000_1803 status_endpoint 0
        (record started { bulk_pipes = true ∷ false ∷ false ∷ [] })
      ≡ Run.ok (self, t))
    × Opened layout ral pool-IsPool 0x1000_1803 status_endpoint started [] started-IsDriver self t
first_opened =
    opened_taken layout ral pool-IsPool 0x1000_1803 status_endpoint started [] started-IsDriver
      (0, true ∷ false ∷ false ∷ []) first_given

opened_run :
    try_alloc_interrupt_pipe pool layout ral 0x1000_1803 status_endpoint started
    ≡ Run.ok (ok first_opened.0, first_opened.1)
unfolding try_alloc_interrupt_pipe try_alloc_on
opened_run = rw (first_given, first_opened.2)

close_pipe-IsDriver_example :
    (t : UsbStatics (List Bool)) × (close_pipe pool layout ral first_opened.0 first_opened.1
      ≡ Run.ok t)
    × IsDriver layout pool-IsPool t []
close_pipe-IsDriver_example =
    close_pipe-IsDriver layout-IsAligned ral pool-IsPool first_opened.0 first_opened.1
      (first_opened.0 ∷ []) [] here first_opened.3.driver

Driven-IsDriver_example : IsDriver layout pool-IsPool first_opened.1 (first_opened.0 ∷ [])
Driven-IsDriver_example =
    Driven-IsDriver layout-IsAligned ral pool-IsPool hardware-IsController 4 (omega arith) started
      first_opened.1 (first_opened.0 ∷ []) started-IsDriver
      (opened 0x1000_1803 status_endpoint first_opened.0 Driven.started opened_run)
