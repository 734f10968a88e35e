-- ===== src/Host/Transfer/Keeps.antt =====
-- What leaves both schedules and the qTD bitmap alone: changes of a queue head that keep its link, and
-- changes of qTDs.
use imxrt_usbh.Base.{
  some, map, Bool, ℕ, ◌+◌, ◌<◌, ◌≡◌, ◌≢◌, refl, sym, ap, ◌∙◌, false, List, ◌∷◌, length, get_or, set,
  length-set, get_or-set_self, get_or-set_ne, arith,
}
use native.Mathlib.Decide.{ℕ_discrete}
use imxrt_usbh.Base.Members.{has, ne_of_has}
use imxrt_usbh.Ehci.Qh
use imxrt_usbh.Ehci.Qh.{QueueHead}
use imxrt_usbh.Host.Run.{ok}
use imxrt_usbh.Host.Schedule.Qtd.{drop_slot}
use imxrt_usbh.Host.Schedule.Both.{IsScheduled, IsRing-frame, IsPeriodic-frame}
use imxrt_usbh.Host.InterruptPipe.Laws.{ltb-true}
use imxrt_usbh.Host.Statics.{
  UsbStatics, Layout, num_qh, num_qtd, qh_addr, qtd_addr, qh_ptr, qtd_ptr,
}
use imxrt_usbh.Host.Statics.Addresses.{load_qh-qh_addr, store_qh-qh_addr}
use imxrt_usbh.Host.Statics.Links.{qh_at, link_of}
use imxrt_usbh.Host.Transfer.{modify_qh}

pub qh_ptr-some : (l : Layout) (i : ℕ) → i < num_qh + 1 → qh_ptr l i ≡ some (qh_addr l i)
unfolding qh_ptr
qh_ptr-some l i h = rw (ltb-true i (num_qh + 1) h)

pub qtd_ptr-some : (l : Layout) (i : ℕ) → i < num_qtd → qtd_ptr l i ≡ some (qtd_addr l i)
unfolding qtd_ptr
qtd_ptr-some l i h = rw (ltb-true i num_qtd h)

module _ {Pool : Type 0} where
  abbrev pub buffer_sizes : UsbStatics Pool → List ℕ
  buffer_sizes s = map (λ buf. length buf.bytes) s.recv_bufs

  -- What no part of a transfer changes: the sizes of the pool of qTDs and of the buffers, and the pools
  -- of pipes.
  pub record Rests (s t : UsbStatics Pool) : Type 0 where
    pub qtd_size : length t.qtd_pool ≡ length s.qtd_pool
    pub buffers : buffer_sizes t ≡ buffer_sizes s
    pub control : t.control_pipes ≡ s.control_pipes
    pub bulk : t.bulk_pipes ≡ s.bulk_pipes

  pub Rests-refl : (s : UsbStatics Pool) → Rests s s
  Rests-refl s = record { qtd_size = refl; buffers = refl; control = refl; bulk = refl }

  pub Rests-trans : (s t u : UsbStatics Pool) → Rests s t → Rests t u → Rests s u
  Rests-trans s t u k m = record {
    qtd_size = m.qtd_size ∙ k.qtd_size;
    buffers = m.buffers ∙ k.buffers;
    control = m.control ∙ k.control;
    bulk = m.bulk ∙ k.bulk;
  }

  pub drop_slot-Rests : (i : ℕ) (s : UsbStatics Pool) → Rests s (drop_slot i s)
  unfolding drop_slot
  drop_slot-Rests i s = record {
    qtd_size = length-set s.qtd_pool i _;
    buffers = refl;
    control = refl;
    bulk = refl;
  }

  -- If only the bitmap is new.
  pub marks-Rests :
      (s t : UsbStatics Pool) (marks : List Bool)
      → t ≡ record s { qtd_allocated = marks }
      → Rests s t
  marks-Rests s t marks h = record {
    qtd_size = ap (λ u. length u.qtd_pool) h;
    buffers = ap (λ (u : UsbStatics Pool). buffer_sizes u) h;
    control = ap (λ u. u.control_pipes) h;
    bulk = ap (λ u. u.bulk_pipes) h;
  }

  -- Both schedules and the bitmap are in `t` as they are in `s`.
  pub record Keeps (s t : UsbStatics Pool) : Type 0 where
    pub links : (x : ℕ) → link_of t x ≡ link_of s x
    pub size : length t.qh_pool ≡ length s.qh_pool
    pub frames : t.frame_list ≡ s.frame_list
    pub slots : t.qtd_allocated ≡ s.qtd_allocated
    pub rests : Rests s t

  pub Keeps-trans : (s t u : UsbStatics Pool) → Keeps s t → Keeps t u → Keeps s u
  Keeps-trans s t u k m = record {
    links = λ x. m.links x ∙ k.links x;
    size = m.size ∙ k.size;
    frames = m.frames ∙ k.frames;
    slots = m.slots ∙ k.slots;
    rests = Rests-trans s t u k.rests m.rests;
  }

  -- The pools after the queue head at `q` is changed.
  abbrev pub changed : (q : ℕ) → (QueueHead → QueueHead) → UsbStatics Pool → UsbStatics Pool
  changed q change s = record s { qh_pool = set s.qh_pool q (change (qh_at s q)) }

  pub changed-Rests :
      (q : ℕ) (change : QueueHead → QueueHead) (s : UsbStatics Pool) → Rests s (changed q change s)
  changed-Rests q change s = record { qtd_size = refl; buffers = refl; control = refl; bulk = refl }

  pub modify_qh-qh_addr :
      (l : Layout) (q : ℕ) (change : QueueHead → QueueHead) (s : UsbStatics Pool)
      → q < num_qh + 1
      → modify_qh l (qh_addr l q) change s ≡ ok (changed q change s)
  unfolding modify_qh
  modify_qh-qh_addr l q change s h = rw (load_qh-qh_addr l s q h, store_qh-qh_addr l s q h)

  changed_link_ne :
      (q x : ℕ) (change : QueueHead → QueueHead) (s : UsbStatics Pool)
      → q ≢ x
      → link_of (changed q change s) x ≡ link_of s x
  changed_link_ne q x change s ne =
      ap (λ head. head.horizontal_link) (get_or-set_ne s.qh_pool q x _ Qh.new ne)

  pub changed-Keeps :
      (q : ℕ) (change : QueueHead → QueueHead) (s : UsbStatics Pool)
      → q < length s.qh_pool
      → (change (qh_at s q)).horizontal_link ≡ link_of s q
      → Keeps s (changed q change s)
  changed-Keeps q change s h same = record {
    links = λ x. elim (ℕ_discrete q x) [
      | yes e ↦
          ap (λ (i : ℕ). link_of (changed q change s) i) (sym e)
          ∙ ap (λ head. head.horizontal_link) (get_or-set_self s.qh_pool q _ Qh.new h)
          ∙ same
          ∙ ap (λ (i : ℕ). link_of s i) e
      | no ne ↦ changed_link_ne q x change s ne
    ];
    size = length-set s.qh_pool q _;
    frames = refl;
    slots = refl;
    rests = record { qtd_size = refl; buffers = refl; control = refl; bulk = refl };
  }

module _ {Pool : Type 0} (l : Layout) (s : UsbStatics Pool) (xs ys : List ℕ)
    (both : IsScheduled l s xs ys) where
  pub Keeps-IsScheduled : (t : UsbStatics Pool) → Keeps s t → IsScheduled l t xs ys
  Keeps-IsScheduled t k = record {
    ring = IsRing-frame l s t xs (λ x _. k.links x) (k.size ∙ both.ring.size) both.ring;
    periodic =
        IsPeriodic-frame l s t ys k.frames (λ x _. k.links x) (k.size ∙ both.ring.size)
          both.periodic;
    apart = both.apart;
  }

  -- Any change of a queue head that is in neither schedule.
  pub changed-IsScheduled :
      (q : ℕ) (change : QueueHead → QueueHead)
      → 0 < q
      → has q xs ≡ false
      → has q ys ≡ false
      → IsScheduled l (changed q change s) xs ys
  changed-IsScheduled q change pos out free = record {
    ring =
        IsRing-frame l s (changed q change s) xs
          (λ x h.
            changed_link_ne q x change s (λ e. ne_of_has x q (0 ∷ xs) h (ground arith) (sym e)))
          (length-set s.qh_pool q _ ∙ both.ring.size) both.ring;
    periodic =
        IsPeriodic-frame l s (changed q change s) ys refl
          (λ x h. changed_link_ne q x change s (λ e. ne_of_has x q ys h free (sym e)))
          (length-set s.qh_pool q _ ∙ both.ring.size) both.periodic;
    apart = both.apart;
  }

  -- Pools of queue heads and frames that are the same.
  pub same_pools-IsScheduled :
      (t : UsbStatics Pool)
      → t.qh_pool ≡ s.qh_pool
      → t.frame_list ≡ s.frame_list
      → IsScheduled l t xs ys
  same_pools-IsScheduled t heads frames = record {
    ring =
        IsRing-frame l s t xs (λ x _. ap (λ pool. (get_or pool x Qh.new).horizontal_link) heads)
          (ap (λ pool. length pool) heads ∙ both.ring.size) both.ring;
    periodic =
        IsPeriodic-frame l s t ys frames
          (λ x _. ap (λ pool. (get_or pool x Qh.new).horizontal_link) heads)
          (ap (λ pool. length pool) heads ∙ both.ring.size) both.periodic;
    apart = both.apart;
  }
