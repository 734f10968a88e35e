-- ===== src/Host/Diagnostics.antt =====
-- transfer.rs, `log_periodic_chain`: the text of the log, in a buffer of 64 bytes.
pub mod Laws
use imxrt_usbh.Base.{
  ℕ, zero, suc, ◌+◌, Option, none, some, List, length, set, take, replicate, ltb, ◌==◌,
  if◌then◌else◌,
}
use imxrt_usbh.Ehci.Link.{link_address, link_is_terminate}
use imxrt_usbh.Host.Run.{Run, ok, fault, ◌>>=◌}
use imxrt_usbh.Host.Schedule.Periodic.{head_entry}
use imxrt_usbh.Host.Statics.{UsbStatics, Layout, num_qh, qh_addr, load_qh}

-- `chain_buf` and `pos`.
pub record ChainText : Type 0 where
  pub chain_buf : List ℕ
  pub pos : ℕ

-- `chain_buf[i] = byte`; an index out of bounds panics.
unfoldable pub write_byte : (i byte : ℕ) → List ℕ → Run (List ℕ)
write_byte i byte buf = if ltb i (length buf) then ok (set buf i byte) else fault

-- The loop over `0..=NUM_QH`, from the index `qi` on: the first queue head at the address.
unfoldable pub found_idx : Layout → (addr left qi : ℕ) → Option ℕ
found_idx l addr zero qi = none
found_idx l addr (suc left) qi =
    if qh_addr l qi == addr then some qi else found_idx l addr left (qi + 1)

-- `b'0' + found_idx`, or `b'?'`.
unfoldable pub digit : Option ℕ → ℕ
digit none = 63
digit (some i) = 48 + i

-- `->`, unless the text is empty.
unfoldable pub append_arrow : ChainText → Run ChainText
append_arrow t =
    if ltb 0 t.pos
    then (do
      buf ← write_byte t.pos 45 t.chain_buf
      buf ← write_byte (t.pos + 1) 62 buf
      ok (record { chain_buf = buf; pos = t.pos + 2 }))
    else ok t

unfoldable pub append_qh : (found : Option ℕ) → ChainText → Run ChainText
append_qh found t = do
  buf ← write_byte t.pos 81 t.chain_buf
  buf ← write_byte (t.pos + 1) 72 buf
  buf ← write_byte (t.pos + 2) (digit found) buf
  ok (record { chain_buf = buf; pos = t.pos + 3 })

-- An entry that does not fit is left out.
unfoldable pub append_entry : (found : Option ℕ) → ChainText → Run ChainText
append_entry found t =
    if ltb (t.pos + 8) (length t.chain_buf)
    then (do t ← append_arrow t; append_qh found t)
    else ok t

module _ {Pool : Type 0} (l : Layout) where
  unfoldable pub walk_chain : (rounds link : ℕ) → UsbStatics Pool → ChainText → Run ChainText
  walk_chain zero link s t = ok t
  walk_chain (suc rounds) link s t = if link_is_terminate link then ok t else (do
    let addr = link_address link
    t ← append_entry (found_idx l addr (num_qh + 1) 0) t
    q ← load_qh l s addr
    walk_chain rounds q.horizontal_link s t)

  -- The text, which is ASCII; `none` stands for `[empty]`.
  unfoldable pub log_periodic_chain : UsbStatics Pool → Run (Option (List ℕ))
  log_periodic_chain s =
      let head = head_entry s in
      if link_is_terminate head then ok none else (do
        t ← walk_chain (num_qh + 1) head s (record { chain_buf = replicate 64 0; pos = 0 })
        ok (some (take t.pos t.chain_buf)))
