-- ===== src/Host/HostController/Closing.antt =====
-- The drop of an open pipe keeps the driver's invariant.
use imxrt_usbh.Base.{
  ℕ, suc, ◌+◌, ◌-◌, ◌<◌, ◌≡◌, ◌≢◌, refl, sym, ap, ◌∙◌, Bool, true, false, not, ◌&&◌, ◌==◌, List, [],
  ◌∷◌, length, length-set, set, subst, arith,
}
use native.Mathlib.Decide.{ℕ_discrete}
use imxrt_usbh.Base.Members.{
  has, erase, Distinct, has-erase_self, erase-cons_eq, erase-cons_ne, ne_of_has,
}
use imxrt_usbh.Ehci.Qh.{QueueHead}
use imxrt_usbh.Host.HostController.{PoolOps, close_pipe}
use imxrt_usbh.Host.HostController.Invariant.{IsPool, IsPlaced, ArePlaced, IsDriver, heads, qtds}
use imxrt_usbh.Host.HostController.Placed.{get_elem?-set_other, in_use-set_dropped}
use imxrt_usbh.Host.InterruptPipe.{ImxrtInterruptPipe, drop_pipe}
use imxrt_usbh.Host.InterruptPipe.Closing.{released}
use imxrt_usbh.Host.Regs.{Ral}
use imxrt_usbh.Host.Run.{ok}
use imxrt_usbh.Host.Schedule.Both.{IsScheduled, unlink_periodic}
use imxrt_usbh.Host.Schedule.Qtd.{drop_slot}
use imxrt_usbh.Host.Schedule.Qtd.Laws.{in_use}
use imxrt_usbh.Host.Statics.{UsbStatics, Layout, IsAligned, num_qh}
use imxrt_usbh.Host.Statics.Addresses.{load_qh-qh_addr, store_qh-qh_addr}
use imxrt_usbh.Host.Transfer.Keeps.{
  qh_ptr-some, changed, buffer_sizes, changed-IsScheduled, same_pools-IsScheduled,
}

-- `self` is one of the pipes, and `rest` are the others.
pub data Removes (self : ImxrtInterruptPipe)
    : List ImxrtInterruptPipe → List ImxrtInterruptPipe → Type 0 where
  here : {rest : List ImxrtInterruptPipe} → Removes self (self ∷ rest) rest
  there :
      {pipes rest : List ImxrtInterruptPipe} (pipe : ImxrtInterruptPipe)
      → Removes self pipes rest
      → Removes self (pipe ∷ pipes) (pipe ∷ rest)

has_head :
    (self : ImxrtInterruptPipe) {pipes rest : List ImxrtInterruptPipe}
    → Removes self pipes rest
    → has self.qh_index (heads pipes) ≡ true
has_head self here = ground arith
has_head self (there pipe r) = ground (arith, has_head self r)

has_qtd :
    (self : ImxrtInterruptPipe) {pipes rest : List ImxrtInterruptPipe}
    → Removes self pipes rest
    → has self.qtd_slot (qtds pipes) ≡ true
has_qtd self here = ground arith
has_qtd self (there pipe r) = ground (arith, has_qtd self r)

heads-Removes :
    (self : ImxrtInterruptPipe) {pipes rest : List ImxrtInterruptPipe}
    → Removes self pipes rest
    → Distinct (heads pipes)
    → erase self.qh_index (heads pipes) ≡ heads rest
heads-Removes self {rest = rest} here d =
    erase-cons_eq self.qh_index self.qh_index (heads rest) refl
heads-Removes self (there {pipes} {rest} pipe r) d =
    erase-cons_ne self.qh_index pipe.qh_index (heads pipes)
      (λ e. ne_of_has self.qh_index pipe.qh_index (heads pipes) (has_head self r) d.0 (sym e))
    ∙ ap (λ qs. pipe.qh_index ∷ qs) (heads-Removes self r d.1)

pub IsPlaced-Removes :
    (self : ImxrtInterruptPipe) (slots : List Bool) {pipes rest : List ImxrtInterruptPipe}
    → Removes self pipes rest
    → ArePlaced slots pipes
    → IsPlaced slots self
IsPlaced-Removes self slots here placed = placed.0
IsPlaced-Removes self slots (there pipe r) placed = IsPlaced-Removes self slots r placed.1

length-Removes :
    (self : ImxrtInterruptPipe) {pipes rest : List ImxrtInterruptPipe}
    → Removes self pipes rest
    → length pipes ≡ suc (length rest)
length-Removes self here = refl
length-Removes self (there pipe r) = ap suc (length-Removes self r)

has_rest :
    (self : ImxrtInterruptPipe) (i : ℕ) {pipes rest : List ImxrtInterruptPipe}
    → Removes self pipes rest
    → has i (qtds pipes) ≡ false
    → has i (qtds rest) ≡ false
has_rest self i here h = ground arith
has_rest self i (there pipe r) h = ground (arith, has_rest self i r)

Distinct-Removes :
    (self : ImxrtInterruptPipe) {pipes rest : List ImxrtInterruptPipe}
    → Removes self pipes rest
    → Distinct (qtds pipes)
    → Distinct (qtds rest)
Distinct-Removes self here d = d.1
Distinct-Removes self (there pipe r) d =
    (has_rest self pipe.qtd_slot r d.0, Distinct-Removes self r d.1)

still-IsPlaced :
    (slots : List Bool) (i : ℕ) (pipe : ImxrtInterruptPipe)
    → i ≢ pipe.qtd_slot
    → IsPlaced slots pipe
    → IsPlaced (set slots i false) pipe
still-IsPlaced slots i pipe ne placed = record {
  head_is = placed.head_is;
  which_pos = placed.which_pos;
  which-lt = placed.which-lt;
  buffer_is = placed.buffer_is;
  marked = get_elem?-set_other slots i pipe.qtd_slot false ne placed.marked;
}

-- A slot that is none of the pipes' can be dropped.
apart_placed :
    (slots : List Bool) (i : ℕ) (pipes : List ImxrtInterruptPipe)
    → has i (qtds pipes) ≡ false
    → ArePlaced slots pipes
    → ArePlaced (set slots i false) pipes
apart_placed slots i [] out placed = tt
apart_placed slots i (pipe ∷ pipes) out (first, rest) = (
  still-IsPlaced slots i pipe (λ e. ground arith) first,
  apart_placed slots i pipes (ground arith) rest,
)

-- The slots of the others stay marked.
others_placed :
    (self : ImxrtInterruptPipe) (slots : List Bool) {pipes rest : List ImxrtInterruptPipe}
    → Removes self pipes rest
    → Distinct (qtds pipes)
    → ArePlaced slots pipes
    → ArePlaced (set slots self.qtd_slot false) rest
others_placed self slots (here {rest}) d placed = apart_placed slots self.qtd_slot rest d.0 placed.1
others_placed self slots (there {pipes} {rest} pipe r) d placed = (
  still-IsPlaced slots self.qtd_slot pipe
      (ne_of_has self.qtd_slot pipe.qtd_slot (qtds pipes) (has_qtd self r) d.0) placed.0,
  others_placed self slots r d.1 placed.1,
)

has-erase : (x a : ℕ) (xs : List ℕ) → Distinct xs → has x (erase a xs) ≡ (not (x == a) && has x xs)
has-erase x a [] d = ground arith
has-erase x a (y ∷ xs) d = elim (ℕ_discrete y a) [
  | yes e ↦ ground (arith, e, d.0)
  | no ne ↦ ground (arith, has-erase x a xs d.1)
]

module _ {Pool : Type 0} {pool : PoolOps Pool} {l : Layout} (aligned : IsAligned l) (r : Ral)
    (p : IsPool pool) where
  -- The drop of any of the open pipes ends without a fault. The invariant of the driver holds with the
  -- other pipes open, in their order: the queue head is out of the periodic schedule, the qTD slot is
  -- free, and the pool can give out the number of the pipe again.
  pub close_pipe-IsDriver :
      (self : ImxrtInterruptPipe) (s : UsbStatics Pool) (pipes rest : List ImxrtInterruptPipe)
      → Removes self pipes rest
      → IsDriver l p s pipes
      → (t : UsbStatics Pool) × (close_pipe pool l r self s ≡ ok t) × IsDriver l p t rest
  unfolding close_pipe drop_pipe drop_slot
  close_pipe-IsDriver self s pipes rest one d =
      let placed : IsPlaced s.qtd_allocated self =
        IsPlaced-Removes self s.qtd_allocated one d.placed in
      let q : ℕ = self.qh_index in
      let slot : ℕ = self.qtd_slot in
      let ys : List ℕ = heads pipes in
      let below : q < num_qh + 1 = omega (arith, placed.head_is, placed.which-lt) in
      let (t, run, both, same) =
        unlink_periodic l aligned s q [] ys d.scheduled below (has_head self one) in
      let clear : QueueHead → QueueHead = λ head. record head { sw_flags = 0 } in
      let u : UsbStatics Pool = released t q slot in
      let v : UsbStatics Pool = record u {
        bulk_pipes = pool.free (self.pipe.which - 1) u.bulk_pipes;
      } in
      let distinct : Distinct ys = d.scheduled.periodic.distinct in
      (
        v,
        rw (qh_ptr-some l q below, run, load_qh-qh_addr l t q below, store_qh-qh_addr l t q below),
        record {
          scheduled =
              subst (λ zs. IsScheduled l v [] zs) (heads-Removes self one distinct)
                (same_pools-IsScheduled l (changed q clear t) [] (erase q ys)
                  (changed-IsScheduled l t [] (erase q ys) both q clear
                    (omega (arith, placed.head_is)) refl (has-erase_self q ys distinct))
                  v refl refl);
          qtd_size = length-set t.qtd_pool slot _ ∙ ap (λ w. length w.qtd_pool) same ∙ d.qtd_size;
          slots_size =
              length-set t.qtd_allocated slot false
              ∙ ap (λ w. length w.qtd_allocated) same
              ∙ d.slots_size;
          control_size = ap (λ w. p.size w.control_pipes) same ∙ d.control_size;
          control_free = ap (λ w. p.used w.control_pipes 0) same ∙ d.control_free;
          bulk_size =
              p.size_free (self.pipe.which - 1) t.bulk_pipes
              ∙ ap (λ w. p.size w.bulk_pipes) same
              ∙ d.bulk_size;
          bulk_used = λ k. ground (
            arith,
            p.used_free (self.pipe.which - 1) t.bulk_pipes k,
            ap (λ w. p.used w.bulk_pipes k) same,
            d.bulk_used k,
            ap (λ zs. has (k + 2) zs) (heads-Removes self one distinct),
            has-erase (k + 2) q ys distinct,
            placed.head_is,
            placed.which_pos,
          );
          buffers = ap (λ (w : UsbStatics Pool). buffer_sizes w) same ∙ d.buffers;
          placed =
              subst (λ slots. ArePlaced (set slots slot false) rest)
                (sym (ap (λ w. w.qtd_allocated) same))
                (others_placed self s.qtd_allocated one d.slots_apart d.placed);
          slots_apart = Distinct-Removes self one d.slots_apart;
          count =
              ap (λ w. in_use (set w.qtd_allocated slot false)) same
              ∙ omega (
                arith,
                d.count,
                length-Removes self one,
                in_use-set_dropped s.qtd_allocated slot placed.marked,
              );
        },
      )
