-- ===== src/Host/Schedule/Qtd/Apart.antt =====
-- Slots that are allocated one after the other are different.
use imxrt_usbh.Base.{
  List, ℕ, ◌<◌, ◌≡◌, ◌≢◌, sym, ap, subst, ◌∙◌, Bool, true, false, some, length, length-set,
  get_elem?, set, get_elem?_of_lt, lt_of_get_elem?, get_or-set_self, get_or-set_ne, arith,
}
use imxrt_usbh.Host.Statics.{UsbStatics}
use imxrt_usbh.Host.Schedule.Qtd.{alloc_qtd}
use imxrt_usbh.Host.Schedule.Qtd.Laws.{Allocates, alloc_qtd-Allocates}

get_elem?-set_self :
    (slots : List Bool) (i : ℕ) → i < length slots → get_elem? (set slots i true) i ≡ some true
get_elem?-set_self slots i h =
    get_elem?_of_lt (set slots i true) i false (omega (arith, length-set slots i true))
    ∙ ap some (get_or-set_self slots i true false h)

module _ {Pool : Type 0} where
  -- The slot is allocated.
  abbrev pub IsMarked : UsbStatics Pool → ℕ → Type 0
  IsMarked s i = get_elem? s.qtd_allocated i ≡ some true

  module _ (s : UsbStatics Pool) (took : ℕ × UsbStatics Pool) (h : alloc_qtd s ≡ some took) where
    allocated : Allocates s (some (took.0, took.1))
    allocated = subst (Allocates s) h (alloc_qtd-Allocates s)

    marks : took.1.qtd_allocated ≡ set s.qtd_allocated took.0 true
    marks = let (_, _, same, _) = allocated in ap (λ u. u.qtd_allocated) same

    pub alloc_qtd-IsMarked : IsMarked took.1 took.0
    alloc_qtd-IsMarked =
        ap (λ slots. get_elem? slots took.0) marks
        ∙ get_elem?-set_self s.qtd_allocated took.0
            (lt_of_get_elem? s.qtd_allocated took.0 allocated.0)

    pub alloc_qtd_apart : (i : ℕ) → IsMarked s i → i ≢ took.0
    alloc_qtd_apart i marked e =
        ground (arith, allocated.0, ap (λ (j : ℕ). get_elem? s.qtd_allocated j) e)

    pub alloc_qtd_kept : (i : ℕ) → IsMarked s i → IsMarked took.1 i
    alloc_qtd_kept i marked =
        let lt : i < length s.qtd_allocated = lt_of_get_elem? s.qtd_allocated i marked in
        ap (λ slots. get_elem? slots i) marks
        ∙ get_elem?_of_lt (set s.qtd_allocated took.0 true) i false
            (omega (arith, length-set s.qtd_allocated took.0 true))
        ∙ ap some (
            get_or-set_ne s.qtd_allocated took.0 i true false
              (λ e. alloc_qtd_apart i marked (sym e)))
        ∙ sym (get_elem?_of_lt s.qtd_allocated i false lt)
        ∙ marked
