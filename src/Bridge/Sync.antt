-- ===== src/Bridge/Sync.antt =====
-- `sync_cpu_to_interp` and `sync_interp_to_cpu`: the registers of the interpreter against those of
-- the compiled code.
use snesrecomp.Base.{ℕ, ◌≤◌, ◌≡◌, Bool, true, false, of_bool, refl, arith}
use snesrecomp.Cpu.{CpuState, truthy, mirrors_to_p}
use snesrecomp.Cpu.Flags.{HasBits, InSync, mirrors_to_p-InSync}

-- `Interp816` (interp816.h), less its bus: the registers and flags, which the bridge copies, and the
-- interrupt lines, the power state and the cycle count, which it leaves to the interpreter.
pub record Interp : Type 0 where
  pub a : ℕ
  pub x : ℕ
  pub y : ℕ
  pub sp : ℕ
  pub pc : ℕ
  pub dp : ℕ
  pub k : ℕ
  pub db : ℕ
  pub c : Bool
  pub z : Bool
  pub v : Bool
  pub n : Bool
  pub i : Bool
  pub d : Bool
  pub xf : Bool
  pub mf : Bool
  pub e : Bool
  pub irq_wanted : Bool
  pub nmi_wanted : Bool
  pub waiting : Bool
  pub stopped : Bool
  pub cycles_used : ℕ

unfoldable pub sync_cpu_to_interp : CpuState → Interp → Interp
sync_cpu_to_interp c t = record t {
  a = c.a;
  x = c.x;
  y = c.y;
  sp = c.s;
  dp = c.d;
  db = c.db;
  k = c.pb;
  c = truthy c.flag_c;
  z = truthy c.flag_z;
  v = truthy c.flag_v;
  n = truthy c.flag_n;
  i = truthy c.flag_i;
  d = truthy c.flag_d;
  mf = truthy c.m_flag;
  xf = truthy c.x_flag;
  e = truthy c.emulation;
}

unfoldable pub sync_interp_to_cpu : Interp → CpuState → CpuState
sync_interp_to_cpu t c = mirrors_to_p (record c {
  a = t.a;
  x = t.x;
  y = t.y;
  s = t.sp;
  d = t.dp;
  db = t.db;
  pb = t.k;
  flag_c = of_bool t.c;
  flag_z = of_bool t.z;
  flag_v = of_bool t.v;
  flag_n = of_bool t.n;
  flag_i = of_bool t.i;
  flag_d = of_bool t.d;
  m_flag = of_bool t.mf;
  x_flag = of_bool t.xf;
  emulation = of_bool t.e;
})

truthy-of_bool : (b : Bool) → truthy (of_bool b) ≡ b
truthy-of_bool true = refl
truthy-of_bool false = refl

of_bool_le : (b : Bool) → of_bool b ≤ 1
of_bool_le b = ground arith

of_bool-truthy : (n : ℕ) → n ≤ 1 → of_bool (truthy n) ≡ n
of_bool-truthy n h = ground arith

pub sync_interp_to_cpu-InSync : (t : Interp) (c : CpuState) → InSync (sync_interp_to_cpu t c)
unfolding sync_interp_to_cpu
sync_interp_to_cpu-InSync t c = mirrors_to_p-InSync _ (record {
  m_le = of_bool_le t.mf;
  x_le = of_bool_le t.xf;
  n_le = of_bool_le t.n;
  v_le = of_bool_le t.v;
  z_le = of_bool_le t.z;
  c_le = of_bool_le t.c;
  i_le = of_bool_le t.i;
  d_le = of_bool_le t.d;
})

-- The registers of one interpreter and the rest of another.
abbrev pub with_registers : Interp → Interp → Interp
with_registers t u = record t {
  pc = u.pc;
  irq_wanted = u.irq_wanted;
  nmi_wanted = u.nmi_wanted;
  waiting = u.waiting;
  stopped = u.stopped;
  cycles_used = u.cycles_used;
}

-- Handing the registers of an interpreter to the compiled code and from there to any other
-- interpreter gives that one all of the registers and flags but PC, and changes nothing else in it;
-- and it leaves the CPU with P and the mirrors saying the same.
pub sync_cpu_to_interp-sync_interp_to_cpu :
    (t u : Interp) (c : CpuState)
    → (sync_cpu_to_interp (sync_interp_to_cpu t c) u ≡ with_registers t u)
      × InSync (sync_interp_to_cpu t c)
sync_cpu_to_interp-sync_interp_to_cpu t u c = (same, sync_interp_to_cpu-InSync t c)
  where
    same : sync_cpu_to_interp (sync_interp_to_cpu t c) u ≡ with_registers t u
    same =
        unfold sync_cpu_to_interp sync_interp_to_cpu mirrors_to_p in
        ground (
          arith,
          truthy-of_bool t.c,
          truthy-of_bool t.z,
          truthy-of_bool t.v,
          truthy-of_bool t.n,
          truthy-of_bool t.i,
          truthy-of_bool t.d,
          truthy-of_bool t.xf,
          truthy-of_bool t.mf,
          truthy-of_bool t.e,
        )

-- Handing the CPU's registers to the interpreter and back changes nothing but P, which then says
-- what the mirrors say, if every flag is 0 or 1.
pub sync_interp_to_cpu-sync_cpu_to_interp :
    (t : Interp) (c : CpuState)
    → HasBits c
    → c.emulation ≤ 1
    → sync_interp_to_cpu (sync_cpu_to_interp c t) c ≡ mirrors_to_p c
unfolding sync_interp_to_cpu sync_cpu_to_interp
sync_interp_to_cpu-sync_cpu_to_interp t c h e = ground (
  arith,
  of_bool-truthy c.flag_c h.c_le,
  of_bool-truthy c.flag_z h.z_le,
  of_bool-truthy c.flag_v h.v_le,
  of_bool-truthy c.flag_n h.n_le,
  of_bool-truthy c.flag_i h.i_le,
  of_bool-truthy c.flag_d h.d_le,
  of_bool-truthy c.m_flag h.m_le,
  of_bool-truthy c.x_flag h.x_le,
  of_bool-truthy c.emulation e,
)
