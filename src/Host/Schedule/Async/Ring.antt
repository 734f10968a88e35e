-- ===== src/Host/Schedule/Async/Ring.antt =====
-- The queue heads of the async schedule, in the order in which the controller visits them.
use imxrt_usbh.Base.{ℕ, ◌+◌, ◌≡◌, true, List, [], ◌∷◌, length, arith, ◌∙◌}
use imxrt_usbh.Base.Members.{has, Distinct, AllBelow}
use imxrt_usbh.Host.Statics.{UsbStatics, Layout, num_qh}
use imxrt_usbh.Host.Statics.Addresses.{qh_link}
use imxrt_usbh.Host.Statics.Links.{link_of}

module _ {Pool : Type 0} (l : Layout) where
  -- From the queue head at `i` the links lead through `xs` back to the sentinel.
  abbrev pub Route : UsbStatics Pool → (i : ℕ) → List ℕ → Type 0
  Route s i [] = link_of s i ≡ qh_link l 0
  Route s i (x ∷ xs) = (link_of s i ≡ qh_link l x) × Route s x xs

  -- A path starts anew at a queue head with the same link, if those on it keep theirs.
  pub Route-frame :
      (s s' : UsbStatics Pool) (i j : ℕ) (xs : List ℕ)
      → link_of s' j ≡ link_of s i
      → ((x : ℕ) → has x xs ≡ true → link_of s' x ≡ link_of s x)
      → Route s i xs
      → Route s' j xs
  Route-frame s s' i j [] e same p = e ∙ p
  Route-frame s s' i j (x ∷ xs) e same p =
      (e ∙ p.0, Route-frame s s' x x xs (same x (ground arith)) (λ y h. same y (ground arith)) p.1)

  -- The schedule holds the queue heads `xs`, and each of them once.
  pub record IsRing (s : UsbStatics Pool) (xs : List ℕ) : Type 0 where
    pub path : Route s 0 xs
    pub distinct : Distinct (0 ∷ xs)
    pub in_pool : AllBelow (num_qh + 1) xs
    pub size : length s.qh_pool ≡ num_qh + 1
