-- ===== src/Frame/Upload.antt =====
-- The upload of a sound program, `RtlUploadSpcImageFromDpInternal` and its two callers in
-- runner/src/common_rtl.c. The lock has no part: the function holds it from the first block on.
pub mod Stream
pub mod Image
use snesrecomp.Base.{
  ℕ, zero, suc, ◌+◌, ◌*◌, ◌/◌, ◌^◌, Bool, true, false, ◌||◌, Option, some, none, Memory, update,
  word, u16, bit_or, bit_and, ◌==◌, if◌then◌else◌,
}
use snesrecomp.Cpu.{CpuState}
use snesrecomp.Apu.{Apu}
use snesrecomp.Bus.Map.{rom_index, rom_invalid}

-- `Spc`
pub record Spc : Type 0 where
  pub a : ℕ
  pub x : ℕ
  pub y : ℕ
  pub sp : ℕ
  pub pc : ℕ
  pub flag_c : Bool
  pub flag_z : Bool
  pub flag_v : Bool
  pub flag_n : Bool
  pub flag_i : Bool
  pub flag_h : Bool
  pub flag_p : Bool
  pub flag_b : Bool
  pub stopped : Bool
  pub cycles_used : ℕ

-- What the upload reads and writes; `D` is the state of the DSP. `cpu_master` is the master clock of
-- the global CPU.
pub record Host (D : Type 0) : Type 0 where
  pub apu : Apu (Spc × D)
  pub ram : Memory
  pub rom : Memory
  pub cart_rom : Option ℕ
  pub fail : Bool
  pub apu_catchup_cycles : ℕ
  pub pace_cycles_estimate : ℕ
  pub last_sync_cycles : ℕ
  pub cpu_master : ℕ
  pub last_sync_master : ℕ

-- Two bytes of the stream.
abbrev pub word_at : Memory → ℕ → ℕ
word_at rom p = word (rom p) (rom (p + 1))

-- `for (i = 0; i < n; i++) ram[(uint16_t)(target + i)] = p[i];`
unfoldable pub copy_block : ℕ → ℕ → Memory → ℕ → Memory → Memory
copy_block zero target rom p ram = ram
copy_block (suc n) target rom p ram =
    copy_block n (target + 1) rom (p + 1) (update ram (u16 target) (rom p))

-- The memory behind a block whose length stands at `p`.
abbrev pub block_done : Memory → ℕ → Memory → Memory
block_done rom p ram = copy_block (word_at rom p) (word_at rom (p + 2)) rom (p + 4) ram

-- `for (;;)`: `left` more blocks are allowed behind this one. The memory, and the entry point that
-- ends the stream, or `none` where it has too many blocks.
unfoldable pub upload_blocks : ℕ → Memory → ℕ → Memory → Memory × Option ℕ
unfolding copy_block
upload_blocks zero rom p ram =
    if word_at rom p == 0 then (ram, some (word_at rom (p + 2))) else (block_done rom p ram, none)
upload_blocks (suc left) rom p ram =
    let rest = upload_blocks left rom (p + 4 + word_at rom p) (block_done rom p ram) in
    if word_at rom p == 0 then (ram, some (word_at rom (p + 2))) else rest

-- The address of the stream in the direct page.
unfoldable pub stream_address : Memory → ℕ → ℕ
stream_address ram dp = word (ram (u16 dp)) (ram (u16 (dp + 1))) + ram (u16 (dp + 2)) * 2 ^ 16

-- The registers of the SPC700 at the entry point.
unfoldable pub enter : ℕ → Spc → Spc
enter pc s = record s { a = 0; x = 0; y = 0; sp = if s.sp == 0 then 0xef else s.sp; pc = pc }

-- The result of the upload routine, `if (update_cpu_result)`.
unfoldable pub upload_result : CpuState → CpuState
upload_result c = record c {
  a = c.a / 2 ^ 8 * 2 ^ 8;
  x = 0;
  y = 0;
  flag_z = 1;
  flag_n = 0;
  p = bit_or (bit_and c.p 0x7d) 0x02;
}

module _ {D : Type 0} where
  -- `apu_clearPortQueue` and the two calls of `memset`.
  unfoldable pub clear_ports : Apu (Spc × D) → Apu (Spc × D)
  clear_ports a = record a { q_head = 0; q_tail = 0; in_ports = λ i. 0; out_ports = λ i. 0 }

  -- `if (ipl_phase)`
  unfoldable pub leave_ipl : ℕ → Host D → Host D
  unfolding enter
  leave_ipl final_pc h =
      let spc = if final_pc == 0 then h.apu.core.0 else enter final_pc h.apu.core.0 in
      record h {
        apu = record h.apu {
          rom_readable = false;
          cpu_cycles_left = 0;
          core = (spc, h.apu.core.1);
        };
        apu_catchup_cycles = 0;
      }

  -- What follows the loop.
  unfoldable pub finish_upload : ℕ → Host D → Host D
  unfolding clear_ports leave_ipl
  finish_upload final_pc h =
      let h1 = record h { apu = clear_ports h.apu } in
      let h2 = if h.apu.rom_readable then leave_ipl final_pc h1 else h1 in
      record h2 { last_sync_cycles = h.pace_cycles_estimate; last_sync_master = h.cpu_master }

  -- The loop, from the stream that the direct page names; `RomPtr` may raise `g_fail`.
  unfoldable pub load_stream : CpuState → Host D → Host D × Option ℕ
  unfolding stream_address upload_blocks
  load_stream c h =
      let at = stream_address h.ram c.d in
      let r = upload_blocks 512 h.rom (rom_index h.cart_rom at) h.apu.ram in
      (record h { apu = record h.apu { ram = r.0 }; fail = h.fail || rom_invalid at }, r.1)

  -- `RtlUploadSpcImageFromDpInternal`
  unfoldable pub upload_internal : Bool → CpuState → Host D → Bool × CpuState × Host D
  unfolding load_stream finish_upload upload_result
  upload_internal update_cpu c h =
      let r = load_stream c h in
      elim r.1 [
        | none ↦ (false, c, r.0)
        | some final_pc ↦
            (true, if update_cpu then upload_result c else c, finish_upload final_pc r.0)
      ]

  -- `RtlUploadSpcImageFromDp`
  unfoldable pub upload_from_dp : CpuState → Host D → Bool × CpuState × Host D
  unfolding upload_internal
  upload_from_dp = upload_internal false

  -- `RtlHandleSpcUpload`
  unfoldable pub handle_spc_upload : CpuState → Host D → Bool × CpuState × Host D
  unfolding upload_internal
  handle_spc_upload = upload_internal true
