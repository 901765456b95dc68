-- ===== src/Tests/Bridge.antt =====
-- Runs of the interpreter tier.
use snesrecomp.Base.{ℕ, ◌≡◌, ◌<◌, none, true, false, refl, arith}
use snesrecomp.Cpu.Flags.{InSync}
use snesrecomp.Bus.Map.{ram_offset, is_hw_reg, sram_offset}
use snesrecomp.Bus.Access.{read8}
use snesrecomp.Dispatch.Table.{mx_index, lookup}
use snesrecomp.Dispatch.Entry.{find_entry, flip_mirror}
use snesrecomp.Dispatch.Calls.{normal, World, cpu_of, dispatch_pc_paired}
use snesrecomp.Bridge.Sync.{
  Interp, sync_cpu_to_interp, sync_interp_to_cpu, sync_cpu_to_interp-sync_interp_to_cpu,
}
use snesrecomp.Bridge.Run.{interp_zero, run_ex, pass, run_loop}
use snesrecomp.Bridge.Run.Exit.{run_ex-InSync, run_ex-above}
use snesrecomp.Bridge.Tier.{tier_note, push_return, dispatch_call_pc}
use snesrecomp.Bridge.Tier.Balance.{called, dispatch_call_pc_miss}
use snesrecomp.Tests.{cpu0, world0, table0, registers0, opcode0, opcode_stuck}

abbrev interp_one : Interp
interp_one = record interp_zero { a = 7; pc = 5; c = true; stopped = true }

sync_cpu_to_interp-sync_interp_to_cpu_example :
    sync_cpu_to_interp (sync_interp_to_cpu interp_zero cpu0) interp_one
    ≡ record interp_zero { pc = 5; stopped = true }
sync_cpu_to_interp-sync_interp_to_cpu_example =
    (sync_cpu_to_interp-sync_interp_to_cpu interp_zero interp_one cpu0).0

run_ex-InSync_example :
    InSync (cpu_of (run_ex registers0 table0 opcode_stuck 3 world0 0x8000 0x1ff).world)
run_ex-InSync_example = run_ex-InSync registers0 table0 opcode_stuck 3 0x8000 0x1ff world0

bodies0 : (w : World ℕ) (pc size : ℕ) → (dispatch_pc_paired table0 w pc size).0 ≡ normal
unfolding dispatch_pc_paired find_entry lookup
bodies0 w pc size = ground arith

returned : (run_ex registers0 table0 opcode0 1000 world0 0x8000 0x1ff).ok ≡ true
unfolding run_ex run_loop pass read8 ram_offset is_hw_reg sram_offset sync_cpu_to_interp
returned = refl

run_ex-above_example :
    0x1ff < (cpu_of (run_ex registers0 table0 opcode0 1000 world0 0x8000 0x1ff).world).s
run_ex-above_example =
    run_ex-above registers0 table0 opcode0 1000 0x8000 0x1ff world0 bodies0 returned

unknown : (find_entry table0 cpu0 0x123456).0 ≡ none
unfolding find_entry lookup mx_index flip_mirror
unknown = refl

stuck_call :
    (run_ex registers0 table0 opcode_stuck 3
      (tier_note (called registers0 table0 opcode_stuck 3 world0 0x123456 0x8010))
      0x123456
      0x1fd).ok
    ≡ false
unfolding run_ex run_loop pass read8 ram_offset is_hw_reg sram_offset tier_note sync_cpu_to_interp
    push_return
stuck_call = refl

dispatch_call_pc_miss_example :
    (cpu_of (dispatch_call_pc registers0 table0 opcode_stuck 3 world0 0x123456 0x8010).1).s
    ≡ (cpu_of world0).s
unfolding push_return snesrecomp.Bus.Access.push8 ram_offset
dispatch_call_pc_miss_example =
    let (n, bail, ok) =
      dispatch_call_pc_miss registers0 table0 opcode_stuck 3 world0 0x123456 0x8010 (omega arith)
        (omega arith) unknown bodies0 in
    bail stuck_call
