-- ===== src/Tests/Cpu.antt =====
-- Runs of the register access and of the status register.
use snesrecomp.Base.{◌≡◌, arith}
use snesrecomp.Cpu.{read_x_x, write_x_x, read_y_x, write_y_x}
use snesrecomp.Cpu.Flags.{HasBits}
use snesrecomp.Cpu.Access.{write_index-read_index}
use snesrecomp.Tests.{cpu0}

bits0 : HasBits cpu0
bits0 = record {
  m_le = omega arith;
  x_le = omega arith;
  n_le = omega arith;
  v_le = omega arith;
  z_le = omega arith;
  c_le = omega arith;
  i_le = omega arith;
  d_le = omega arith;
}

write_index-read_index_example :
    (read_x_x (write_x_x cpu0 0xabcd) ≡ 0xcd)
    × ((write_x_x cpu0 0xabcd).x ≡ 0xcd)
    × (read_y_x (write_y_x cpu0 0xabcd) ≡ 0xcd)
    × ((write_y_x cpu0 0xabcd).y ≡ 0xcd)
write_index-read_index_example = (write_index-read_index cpu0 0xabcd).0 (omega arith)
