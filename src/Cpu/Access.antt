-- ===== src/Cpu/Access.antt =====
-- The typed register access of cpu_state.h: what a read sees after a write, at either width.
use snesrecomp.Base.{ℕ, ◌%◌, ◌^◌, ◌<◌, ◌≡◌, ◌≢◌, arith}
use snesrecomp.Cpu.{CpuState, read_b, read_a_m, write_a_m, read_x_x, write_x_x, read_y_x, write_y_x}

-- After a write of A at the width of the M flag, a read at that width gives the value, cut to a
-- byte if M is set; then the high byte B is as it was. A stays a 16-bit word.
pub write_a_m-read_a_m :
    (c : CpuState) (v : ℕ)
    → c.a < 2 ^ 16
    → v < 2 ^ 16
    → (c.m_flag ≢ 0 → (read_a_m (write_a_m c v) ≡ v % 2 ^ 8) × (read_b (write_a_m c v) ≡ read_b c))
      × (c.m_flag ≡ 0 → read_a_m (write_a_m c v) ≡ v)
      × ((write_a_m c v).a < 2 ^ 16)
unfolding read_a_m write_a_m read_b
write_a_m-read_a_m c v ha hv = (λ h. (ground arith, ground arith), λ h. ground arith, ground arith)

-- After a write of X or Y at the width of the X flag, a read at that width gives the value, cut
-- to a byte if the flag is set; then the whole register is that byte, its high byte cleared.
pub write_index-read_index :
    (c : CpuState) (v : ℕ)
    → (c.x_flag ≢ 0
        → (read_x_x (write_x_x c v) ≡ v % 2 ^ 8)
          × ((write_x_x c v).x ≡ v % 2 ^ 8)
          × (read_y_x (write_y_x c v) ≡ v % 2 ^ 8)
          × ((write_y_x c v).y ≡ v % 2 ^ 8))
      × (c.x_flag ≡ 0 → (read_x_x (write_x_x c v) ≡ v) × (read_y_x (write_y_x c v) ≡ v))
unfolding read_x_x write_x_x read_y_x write_y_x
write_index-read_index c v = (
  λ h. (ground arith, ground arith, ground arith, ground arith),
  λ h. (ground arith, ground arith),
)
