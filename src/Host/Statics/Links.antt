-- ===== src/Host/Statics/Links.antt =====
-- The horizontal links of the queue heads in the pool.
use imxrt_usbh.Base.{
  ℕ, ◌<◌, ◌≡◌, ◌≢◌, ap, get_or, set, length, get_or-set_self, get_or-set_ne, length-set,
}
use imxrt_usbh.Ehci.Qh
use imxrt_usbh.Ehci.Qh.{QueueHead}
use imxrt_usbh.Host.Statics.{UsbStatics}

module _ {Pool : Type 0} where
  abbrev pub qh_at : UsbStatics Pool → ℕ → QueueHead
  qh_at s i = get_or s.qh_pool i Qh.new

  abbrev pub link_of : UsbStatics Pool → ℕ → ℕ
  link_of s i = (qh_at s i).horizontal_link

  -- The pool after `(*qh).horizontal_link.write(link)`.
  abbrev pub set_link : UsbStatics Pool → (i link : ℕ) → UsbStatics Pool
  set_link s i link = record s {
    qh_pool = set s.qh_pool i (record (qh_at s i) { horizontal_link = link });
  }

  -- All but the queue heads and the frames is the same.
  abbrev pub SameRest : UsbStatics Pool → UsbStatics Pool → Type 0
  SameRest s t = t ≡ record s { qh_pool = t.qh_pool; frame_list = t.frame_list }

  module _ (s : UsbStatics Pool) where
    pub length-set_link : (i link : ℕ) → length (set_link s i link).qh_pool ≡ length s.qh_pool
    length-set_link i link = length-set s.qh_pool i _

    pub link_of-set_link_self :
        (i link : ℕ) → i < length s.qh_pool → link_of (set_link s i link) i ≡ link
    link_of-set_link_self i link h =
        ap (λ q. q.horizontal_link) (get_or-set_self s.qh_pool i _ Qh.new h)

    pub link_of-set_link_ne : (i j link : ℕ) → i ≢ j → link_of (set_link s i link) j ≡ link_of s j
    link_of-set_link_ne i j link h =
        ap (λ q. q.horizontal_link) (get_or-set_ne s.qh_pool i j _ Qh.new h)
