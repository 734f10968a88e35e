-- ===== src/Host/Diagnostics/Laws.antt =====
-- The log names the queue heads of the periodic schedule, and no write leaves its buffer.
use imxrt_usbh.Base.{
  ℕ, zero, suc, ◌+◌, ◌*◌, ◌≤◌, ◌<◌, ◌≡◌, refl, sym, ap, subst, ◌∙◌, false, ltb, ==_refl, Option,
  none, some, List, [], ◌∷◌, ◌++◌, length, length-set, length-append, length-replicate, set, take,
  replicate, arith,
}
use mathlib.Core.List.{append_assoc, append-nil}
use native.Mathlib.Decide.{ℕ_discrete}
use imxrt_usbh.Base.Members.{AllBelow, length-le_of_Distinct}
use imxrt_usbh.Host.Diagnostics.{
  ChainText, write_byte, found_idx, digit, append_arrow, append_qh, append_entry, walk_chain,
  log_periodic_chain,
}
use imxrt_usbh.Host.InterruptPipe.Laws.{ltb-true}
use imxrt_usbh.Host.Run.{ok}
use imxrt_usbh.Host.Schedule.Periodic.Chain.{Chain, IsPeriodic}
use imxrt_usbh.Host.Statics.{UsbStatics, Layout, IsAligned, num_qh, qh_addr}
use imxrt_usbh.Host.Statics.Addresses.{
  qh_addr_ne, load_qh-qh_addr, link_address-qh_link, link_is_terminate-qh_link,
}
use imxrt_usbh.Host.Statics.Links.{link_of}

-- A queue head, and a list of them with arrows in between, as `QH2->QH1`.
abbrev pub entry : (x : ℕ) → List ℕ
entry x = 81 ∷ 72 ∷ (48 + x) ∷ []

abbrev pub arrow : List ℕ
arrow = 45 ∷ 62 ∷ []

abbrev pub more : List ℕ → List ℕ
more [] = []
more (x ∷ xs) = (arrow ++ entry x) ++ more xs

abbrev pub text : List ℕ → Option (List ℕ)
text [] = none
text (x ∷ xs) = some (entry x ++ more xs)

take-set :
    (xs : List ℕ) (n v : ℕ) → n < length xs → take (n + 1) (set xs n v) ≡ take n xs ++ (v ∷ [])
take-set [] n v h = absurd (omega arith)
take-set (x ∷ xs) zero v h = refl
take-set (x ∷ xs) (suc n) v h =
    ap (λ (m : ℕ). take m (x ∷ set xs n v)) step ∙ ap (λ r. x ∷ r) (take-set xs n v (omega arith))
  where
    step : suc n + 1 ≡ suc (n + 1)
    step = omega arith

write_byte-ok :
    (i byte : ℕ) (buf : List ℕ) → i < length buf → write_byte i byte buf ≡ ok (set buf i byte)
unfolding write_byte
write_byte-ok i byte buf h = rw (ltb-true i (length buf) h)

-- The text so far.
record IsText (t : ChainText) (written : List ℕ) : Type 0 where
  size : length t.chain_buf ≡ 64
  at : t.pos ≡ length written
  so_far : take t.pos t.chain_buf ≡ written

ltb-false : (m n : ℕ) → n ≤ m → ltb m n ≡ false
ltb-false m n h = ground arith

module _ (t : ChainText) (written : List ℕ) (is : IsText t written) where
  abbrev one_byte : (a : ℕ) → ChainText
  one_byte a = record { chain_buf = set t.chain_buf t.pos a; pos = t.pos + 1 }

  one_byte-IsText : (a : ℕ) → t.pos < 64 → IsText (one_byte a) (written ++ (a ∷ []))
  one_byte-IsText a room = record {
    size = length-set t.chain_buf t.pos a ∙ is.size;
    at = omega (arith, is.at, length-append written (a ∷ []));
    so_far =
        take-set t.chain_buf t.pos a (omega (arith, is.size)) ∙ ap (λ w. w ++ (a ∷ [])) is.so_far;
  }

-- The positions of the source, in bytes one after the other.
module _ (t : ChainText) (written : List ℕ) (is : IsText t written) (room : t.pos + 2 < 64) where
  abbrev two_bytes : (a b : ℕ) → ChainText
  two_bytes a b = record {
    chain_buf = set (set t.chain_buf t.pos a) (t.pos + 1) b;
    pos = t.pos + 2;
  }

  two_bytes-IsText : (a b : ℕ) → IsText (two_bytes a b) (written ++ (a ∷ b ∷ []))
  two_bytes-IsText a b =
      let one : IsText (one_byte t written is a) (written ++ (a ∷ [])) =
        one_byte-IsText t written is a (omega arith) in
      let two : IsText _ ((written ++ (a ∷ [])) ++ (b ∷ [])) =
        one_byte-IsText (one_byte t written is a) (written ++ (a ∷ [])) one b (omega arith) in
      let at : t.pos + 2 ≡ t.pos + 1 + 1 = omega arith in
      record {
        size = two.size;
        at = omega (arith, is.at, length-append written (a ∷ b ∷ []));
        so_far =
            ap (λ (n : ℕ). take n (set (set t.chain_buf t.pos a) (t.pos + 1) b)) at
            ∙ two.so_far
            ∙ append_assoc written (a ∷ []) (b ∷ []);
      }

  append_arrow-IsText :
      0 < t.pos
      → (append_arrow t ≡ ok (two_bytes 45 62)) × IsText (two_bytes 45 62) (written ++ arrow)
  unfolding append_arrow
  append_arrow-IsText pos = (
    rw (
      ltb-true 0 t.pos pos,
      write_byte-ok t.pos 45 t.chain_buf (omega (arith, is.size)),
      write_byte-ok (t.pos + 1) 62 (set t.chain_buf t.pos 45)
          (omega (arith, is.size, length-set t.chain_buf t.pos 45)),
    ),
    two_bytes-IsText 45 62,
  )

  append_qh-IsText :
      (x : ℕ)
      → (u : ChainText) × (append_qh (some x) t ≡ ok u)
        × IsText u (written ++ entry x)
        × (u.pos ≡ t.pos + 3)
  unfolding append_qh digit
  append_qh-IsText x =
      let two : ChainText = two_bytes 81 72 in
      let is2 : IsText two (written ++ (81 ∷ 72 ∷ [])) = two_bytes-IsText 81 72 in
      let three : IsText _ ((written ++ (81 ∷ 72 ∷ [])) ++ ((48 + x) ∷ [])) =
        one_byte-IsText two (written ++ (81 ∷ 72 ∷ [])) is2 (48 + x) room in
      let at : t.pos + 3 ≡ t.pos + 2 + 1 = omega arith in
      (
        record { chain_buf = set two.chain_buf (t.pos + 2) (48 + x); pos = t.pos + 3 },
        rw (
          write_byte-ok t.pos 81 t.chain_buf (omega (arith, is.size)),
          write_byte-ok (t.pos + 1) 72 (set t.chain_buf t.pos 81)
              (omega (arith, is.size, length-set t.chain_buf t.pos 81)),
          write_byte-ok (t.pos + 2) (48 + x) two.chain_buf (omega (arith, is2.size)),
        ),
        record {
          size = three.size;
          at = omega (arith, is.at, length-append written (entry x));
          so_far =
              ap (λ (n : ℕ). take n (set two.chain_buf (t.pos + 2) (48 + x))) at
              ∙ three.so_far
              ∙ append_assoc written (81 ∷ 72 ∷ []) ((48 + x) ∷ []);
        },
        refl,
      )

-- The first entry, and the entries after it.
first_entry :
    (t : ChainText) (x : ℕ)
    → IsText t []
    → (u : ChainText) × (append_entry (some x) t ≡ ok u) × IsText u (entry x) × (u.pos ≡ 3)
unfolding append_entry append_arrow
first_entry t x is =
    let (u, run, made, pos) = append_qh-IsText t [] is (omega (arith, is.at)) x in
    (
      u,
      rw
          (
            ltb-true (t.pos + 8) (length t.chain_buf) (omega (arith, is.at, is.size)),
            ltb-false 0 t.pos (omega (arith, is.at)),
          )
          run,
      made,
      pos ∙ omega (arith, is.at),
    )

next_entry :
    (t : ChainText) (written : List ℕ) (x : ℕ)
    → IsText t written
    → 0 < t.pos
    → t.pos + 8 < 64
    → (u : ChainText) × (append_entry (some x) t ≡ ok u)
      × IsText u (written ++ (arrow ++ entry x))
      × (u.pos ≡ t.pos + 5)
unfolding append_entry
next_entry t written x is pos room =
    let (run1, is1) = append_arrow-IsText t written is (omega arith) pos in
    let t1 : ChainText = two_bytes t written is (omega arith) 45 62 in
    let (u, run2, is2, pos2) = append_qh-IsText t1 (written ++ arrow) is1 (omega arith) x in
    (
      u,
      rw (ltb-true (t.pos + 8) (length t.chain_buf) (omega (arith, is.size)), run1, run2),
      subst (IsText u) (append_assoc written arrow (entry x)) is2,
      pos2 ∙ omega arith,
    )

module _ {l : Layout} (aligned : IsAligned l) where
  found_idx_from :
      (x left qi : ℕ) → qi ≤ x → x < qi + left → found_idx l (qh_addr l x) left qi ≡ some x
  unfolding found_idx
  found_idx_from x zero qi low high = absurd (omega arith)
  found_idx_from x (suc left) qi low high = elim (ℕ_discrete qi x) [
    | yes e ↦ rw (e, ==_refl)
    | no ne ↦ rw (qh_addr_ne l qi x ne) (found_idx_from x left (qi + 1) (omega arith) (omega arith))
  ]

  found_idx-qh_addr : (x : ℕ) → x < num_qh + 1 → found_idx l (qh_addr l x) (num_qh + 1) 0 ≡ some x
  found_idx-qh_addr x h = found_idx_from x (num_qh + 1) 0 (omega arith) (omega arith)

  module _ {Pool : Type 0} (s : UsbStatics Pool) where
    -- The walk behind the first entry.
    walk_more :
        (rounds link : ℕ) (xs : List ℕ) (t : ChainText) (written : List ℕ)
        → Chain l s link xs
        → AllBelow (num_qh + 1) xs
        → length xs ≤ rounds
        → IsText t written
        → 0 < t.pos
        → t.pos + 5 * length xs < 56
        → (u : ChainText) × (walk_chain l rounds link s t ≡ ok u) × IsText u (written ++ more xs)
    unfolding walk_chain
    walk_more zero link [] t written chain below enough is pos room =
        (t, refl, subst (IsText t) (sym (append-nil written)) is)
    walk_more zero link (x ∷ xs) t written chain below enough is pos room = absurd (omega arith)
    walk_more (suc rounds) link [] t written chain below enough is pos room =
        (t, rw chain, subst (IsText t) (sym (append-nil written)) is)
    walk_more (suc rounds) link (x ∷ xs) t written chain below enough is pos room =
        let (t1, run1, is1, pos1) = next_entry t written x is pos (omega arith) in
        let (u, run2, is2) =
          walk_more rounds (link_of s x) xs t1 (written ++ (arrow ++ entry x)) chain.1 below.1
            (omega arith) is1 (omega arith) (omega arith) in
        (
          u,
          rw (
            chain.0,
            link_is_terminate-qh_link aligned x below.0,
            link_address-qh_link aligned x below.0,
            found_idx-qh_addr x below.0,
            run1,
            load_qh-qh_addr l s x below.0,
            run2,
          ),
          subst (IsText u) (append_assoc written (arrow ++ entry x) (more xs)) is2,
        )

    -- The log of the periodic schedule, whatever queue heads it holds, ends, writes to no byte outside
    -- its buffer and reads no address that is not that of a queue head, and it has room and rounds for
    -- all of them: it names each queue head of the schedule, in the schedule's order, by its index.
    pub log_periodic_chain-IsPeriodic :
        (xs : List ℕ) → IsPeriodic l s xs → log_periodic_chain l s ≡ ok (text xs)
    unfolding log_periodic_chain walk_chain
    log_periodic_chain-IsPeriodic [] p = rw p.chain
    log_periodic_chain-IsPeriodic (x ∷ xs) p =
        let start : ChainText = record { chain_buf = replicate 64 0; pos = 0 } in
        let (t, run1, is1, pos) =
          first_entry start x
            (record { size = length-replicate {A = ℕ} 64 0; at = refl; so_far = refl }) in
        let few : length (x ∷ xs) ≤ num_qh + 1 =
          length-le_of_Distinct (num_qh + 1) (x ∷ xs) p.in_pool p.distinct in
        let (u, run2, is2) =
          walk_more num_qh (link_of s x) xs t (entry x) p.chain.1 p.in_pool.1 (omega arith) is1
            (omega arith) (omega arith) in
        rw (
          p.chain.0,
          link_is_terminate-qh_link aligned x p.in_pool.0,
          link_address-qh_link aligned x p.in_pool.0,
          found_idx-qh_addr x p.in_pool.0,
          run1,
          load_qh-qh_addr l s x p.in_pool.0,
          run2,
          is2.so_far,
        )
