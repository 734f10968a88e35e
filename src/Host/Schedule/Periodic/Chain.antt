-- ===== src/Host/Schedule/Periodic/Chain.antt =====
-- The queue heads of the periodic schedule, in the order in which the controller visits them.
use imxrt_usbh.Base.{
  ℕ, zero, suc, ◌+◌, ◌≡◌, refl, ap, subst, sym, true, List, [], ◌∷◌, map, length, arith, replicate,
}
use imxrt_usbh.Base.Members.{has, Distinct, AllBelow}
use imxrt_usbh.Ehci.FrameList.{frame_list_len}
use imxrt_usbh.Ehci.Link.{link_is_terminate}
use imxrt_usbh.Host.Statics.{UsbStatics, Layout, num_qh}
use imxrt_usbh.Host.Statics.Addresses.{qh_link}
use imxrt_usbh.Host.Statics.Links.{link_of}
use imxrt_usbh.Host.Schedule.Periodic.{head_entry}

pub map-replicate {ℓ} :
    {A B : Type ℓ} (f : A → B) (n : ℕ) (a : A) → map f (replicate n a) ≡ replicate n (f a)
map-replicate f zero a = refl
map-replicate f (suc n) a = ap (λ r. f a ∷ r) (map-replicate f n a)

module _ {Pool : Type 0} (l : Layout) where
  -- From `link` the horizontal links lead through `xs` to a link that terminates.
  abbrev pub Chain : UsbStatics Pool → (link : ℕ) → List ℕ → Type 0
  Chain s link [] = link_is_terminate link ≡ true
  Chain s link (x ∷ xs) = (link ≡ qh_link l x) × Chain s (link_of s x) xs

  -- A chain stays if the queue heads on it keep their links.
  pub Chain-frame :
      (s s' : UsbStatics Pool) (link : ℕ) (xs : List ℕ)
      → ((x : ℕ) → has x xs ≡ true → link_of s' x ≡ link_of s x)
      → Chain s link xs
      → Chain s' link xs
  Chain-frame s s' link [] same c = c
  Chain-frame s s' link (x ∷ xs) same c = (
    c.0,
    subst (λ (t : ℕ). Chain s' t xs) (sym (same x (ground arith)))
        (Chain-frame s s' (link_of s x) xs (λ y h. same y (ground arith)) c.1),
  )

  -- All frames start at the same link, and from there on come the queue heads `xs`, each once.
  pub record IsPeriodic (s : UsbStatics Pool) (xs : List ℕ) : Type 0 where
    pub in_sync : s.frame_list.entries ≡ replicate frame_list_len (head_entry s)
    pub chain : Chain s (head_entry s) xs
    pub distinct : Distinct xs
    pub in_pool : AllBelow (num_qh + 1) xs
    pub size : length s.qh_pool ≡ num_qh + 1
