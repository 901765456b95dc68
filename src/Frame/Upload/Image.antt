-- ===== src/Frame/Upload/Image.antt =====
-- The upload of runner/src/common_rtl.c against the memory that its stream stands for.
use snesrecomp.Base.{
  ℕ, zero, suc, ◌+◌, ◌^◌, ◌<◌, ◌≤◌, ◌≡◌, refl, ap, ◌∙◌, arith, List, [], ◌∷◌, Memory, length, take,
  All, Bool, true, false, some, none, ◌==◌, ==_ne, if◌then◌else◌, Bool-cases, inl, inr,
}
use snesrecomp.Cpu.{CpuState}
use snesrecomp.Apu.{Apu}
use snesrecomp.Bus.Map.{rom_index}
use snesrecomp.Frame.Upload.{
  word_at, block_done, upload_blocks, Host, Spc, stream_address, enter, load_stream, clear_ports,
  leave_ipl, finish_upload, upload_result, upload_internal,
}
use snesrecomp.Frame.Upload.Stream.{
  Block, IsBlock, Holds, Holds-append, word_at-pair_bytes, encode_block, encode_stream, image_at,
  covered, block_done-covered, pair_bytes,
}

length-encode_block : (b : Block) → length (encode_block b) ≡ 4 + length b.payload
unfolding encode_block
length-encode_block b = omega arith

-- The zero that ends a stream.
stream_end :
    (left p entry : ℕ) (rom ram : Memory)
    → entry < 2 ^ 16
    → Holds rom p (encode_stream [] entry)
    → upload_blocks left rom p ram ≡ (ram, some entry)
unfolding encode_stream upload_blocks
stream_end zero p entry rom ram fits held =
    let s = word_at-pair_bytes rom p (p + 2) 0 (pair_bytes entry) (omega arith) refl held in
    let e = word_at-pair_bytes rom (p + 2) (p + 4) entry [] fits (omega arith) s.1 in
    rw (s.0, e.0) refl
stream_end (suc left) p entry rom ram fits held =
    let s = word_at-pair_bytes rom p (p + 2) 0 (pair_bytes entry) (omega arith) refl held in
    let e = word_at-pair_bytes rom (p + 2) (p + 4) entry [] fits (omega arith) s.1 in
    rw (s.0, e.0) refl

-- One block of a stream.
stream_block :
    (b : Block) (bs : List Block) (p entry a : ℕ) (rom ram : Memory)
    → IsBlock b
    → Holds rom p (encode_stream (b ∷ bs) entry)
    → a < 2 ^ 16
    → ((word_at rom p == 0) ≡ false)
      × (Holds rom (p + 4 + word_at rom p) (encode_stream bs entry)
          × (block_done rom p ram a ≡ covered b a (ram a)))
unfolding encode_stream
stream_block b bs p entry a rom ram fits held h =
    let q = p + 4 + length b.payload in
    let s =
      Holds-append rom p q (encode_block b) (encode_stream bs entry)
        (omega (arith, length-encode_block b)) held in
    let d = block_done-covered b p a rom ram fits s.0 h in
    (==_ne (word_at rom p) 0 (λ e. omega (arith, fits.1.0)), (rw (d.0) s.1, d.1))

upload_blocks-image :
    (left : ℕ) (bs : List Block) (p entry a : ℕ) (rom ram : Memory)
    → entry < 2 ^ 16
    → All IsBlock bs
    → length bs ≤ left
    → Holds rom p (encode_stream bs entry)
    → a < 2 ^ 16
    → ((upload_blocks left rom p ram).1 ≡ some entry)
      × ((upload_blocks left rom p ram).0 a ≡ image_at bs a (ram a))
unfolding upload_blocks image_at
upload_blocks-image left [] p entry a rom ram fit all room held h =
    rw (stream_end left p entry rom ram fit held) (refl, refl)
upload_blocks-image zero (b ∷ bs) p entry a rom ram fit all room held h = absurd (omega arith)
upload_blocks-image (suc left) (b ∷ bs) p entry a rom ram fit all room held h =
    let s = stream_block b bs p entry a rom ram all.0 held h in
    let next = block_done rom p ram in
    let r =
      upload_blocks-image left bs (p + 4 + word_at rom p) entry a rom next fit all.1 (omega arith)
        s.1.0 h in
    rw (s.0) (r.0, r.1 ∙ ap (image_at bs a) s.1.1)

-- A stream with more blocks than are allowed stops behind the first one too many.
upload_blocks-overfull :
    (left : ℕ) (bs : List Block) (p entry a : ℕ) (rom ram : Memory)
    → All IsBlock bs
    → left < length bs
    → Holds rom p (encode_stream bs entry)
    → a < 2 ^ 16
    → ((upload_blocks left rom p ram).1 ≡ none)
      × ((upload_blocks left rom p ram).0 a ≡ image_at (take (suc left) bs) a (ram a))
unfolding upload_blocks image_at
upload_blocks-overfull left [] p entry a rom ram all room held h = absurd (omega arith)
upload_blocks-overfull zero (b ∷ bs) p entry a rom ram all room held h =
    let s = stream_block b bs p entry a rom ram all.0 held h in rw (s.0) (refl, s.1.1)
upload_blocks-overfull (suc left) (b ∷ bs) p entry a rom ram all room held h =
    let s = stream_block b bs p entry a rom ram all.0 held h in
    let next = block_done rom p ram in
    let r =
      upload_blocks-overfull left bs (p + 4 + word_at rom p) entry a rom next all.1 (omega arith)
        s.1.0 h in
    rw (s.0) (r.0, r.1 ∙ ap (image_at (take (suc left) bs) a) s.1.1)

-- `p`, the stream that the direct page names.
abbrev pub stream_at : {D : Type 0} → CpuState → Host D → ℕ
stream_at c h = rom_index h.cart_rom (stream_address h.ram c.d)

module _ {D : Type 0} where
  finish_upload-ram :
      (entry : ℕ) (h : Host D) (a : ℕ) → (finish_upload entry h).apu.ram a ≡ h.apu.ram a
  unfolding finish_upload
  finish_upload-ram entry h a = elim (Bool-cases h.apu.rom_readable) [
    | inl b ↦ rw (b) refl
    | inr b ↦ rw (b) refl
  ]

  -- The entry point is taken by the boot program alone, and never where it is zero.
  abbrev pub entered : ℕ → Apu (Spc × D) → ℕ
  entered entry apu =
      if apu.rom_readable then (if entry == 0 then apu.core.0.pc else entry) else apu.core.0.pc

  abbrev pub IsCleared : Apu (Spc × D) → Type 0
  IsCleared apu =
      (apu.q_head ≡ apu.q_tail)
      × ((apu.rom_readable ≡ false) × ((apu.in_ports ≡ (λ i. 0)) × (apu.out_ports ≡ (λ i. 0))))

  finish_upload-IsCleared :
      (entry : ℕ) (h : Host D)
      → IsCleared (finish_upload entry h).apu
        × ((finish_upload entry h).apu.core.0.pc ≡ entered entry h.apu)
  unfolding finish_upload leave_ipl clear_ports enter
  finish_upload-IsCleared entry h = elim (Bool-cases h.apu.rom_readable) [
    | inl b ↦ rw (b) (
      (refl, (refl, (refl, refl))),
      elim (Bool-cases (entry == 0)) [ inl z ↦ rw (z) refl | inr z ↦ rw (z) refl ],
    )
    | inr b ↦ rw (b) ((refl, (refl, (refl, refl))), refl)
  ]

  upload_internal-some :
      (update : Bool) (c : CpuState) (h : Host D) (entry : ℕ)
      → (load_stream c h).1 ≡ some entry
      → upload_internal update c h
        ≡ (true, if update then upload_result c else c, finish_upload entry (load_stream c h).0)
  unfolding upload_internal
  upload_internal-some update c h entry e = rw (e, upload_internal) refl

  upload_internal-none :
      (update : Bool) (c : CpuState) (h : Host D)
      → (load_stream c h).1 ≡ none
      → upload_internal update c h ≡ (false, c, (load_stream c h).0)
  unfolding upload_internal
  upload_internal-none update c h e = rw (e, upload_internal) refl

  -- An upload of at most 512 blocks that lie in the ROM where the direct page says succeeds: the RAM
  -- of the APU then holds at every address the byte of the last block that covers it, or what was
  -- there; the queue and the ports are empty, the boot program is mapped out, and the SPC700 goes on
  -- at the entry point if the boot program was running and the entry point is not zero.
  pub upload_internal-image :
      (update : Bool) (c : CpuState) (h : Host D) (bs : List Block) (entry a : ℕ)
      → entry < 2 ^ 16
      → All IsBlock bs
      → length bs ≤ 512
      → Holds h.rom (stream_at c h) (encode_stream bs entry)
      → a < 2 ^ 16
      → ((upload_internal update c h).0 ≡ true)
        × (((upload_internal update c h).2.apu.ram a ≡ image_at bs a (h.apu.ram a))
            × (IsCleared (upload_internal update c h).2.apu
                × ((upload_internal update c h).2.apu.core.0.pc ≡ entered entry h.apu)))
  unfolding load_stream
  upload_internal-image update c h bs entry a fit all room held inside =
      let u =
        upload_blocks-image 512 bs (stream_at c h) entry a h.rom h.apu.ram fit all room held
          inside in
      let h' = (load_stream c h).0 in
      let f = finish_upload-IsCleared entry h' in
      rw (upload_internal-some update c h entry u.0)
        (refl, (finish_upload-ram entry h' a ∙ u.1, (f.0, f.1)))

  -- An upload of more than 512 blocks fails behind the block with number 513: that many blocks have
  -- reached the RAM of the APU, while its queue, its ports, the SPC700 and the CPU are as before.
  pub upload_internal-overfull :
      (update : Bool) (c : CpuState) (h : Host D) (bs : List Block) (entry a : ℕ)
      → All IsBlock bs
      → 512 < length bs
      → Holds h.rom (stream_at c h) (encode_stream bs entry)
      → a < 2 ^ 16
      → ((upload_internal update c h).0 ≡ false)
        × (((upload_internal update c h).2.apu.ram a ≡ image_at (take 513 bs) a (h.apu.ram a))
            × (((upload_internal update c h).2.apu
                  ≡ record h.apu { ram = (upload_internal update c h).2.apu.ram })
                × ((upload_internal update c h).1 ≡ c)))
  unfolding load_stream
  upload_internal-overfull update c h bs entry a all room held inside =
      let u =
        upload_blocks-overfull 512 bs (stream_at c h) entry a h.rom h.apu.ram all room held
          inside in
      rw (upload_internal-none update c h u.0) (refl, (u.1, (refl, refl)))
