-- ===== src/Tests/Hdma.antt =====
-- An entry of an HDMA table in WRAM: three lines in repeat mode, two bytes each.
use snesrecomp.Base.{◌≡◌, refl, arith, some, none, Memory}
use snesrecomp.Frame.Hdma.{in_ram, in_rom, SimpleHdma, offsets}
use snesrecomp.Frame.Hdma.Entry.{do_lines, transfers, do_lines-entry}

-- The byte 0x83 everywhere.
abbrev table_ram : Memory
table_ram = λ i. 0x83

abbrev hdma0 : SimpleHdma
hdma0 = record {
  table = some (in_ram 0x100);
  indir_ptr = in_rom 0;
  rep_count = 0;
  mode = 1;
  ppu_addr = 0x0d;
  indir_bank = 0;
}

do_lines-entry_example : do_lines table_ram (λ i. 0) none 3 hdma0 ≡ (
  record hdma0 { table = some (in_ram 0x107); rep_count = 128 },
  transfers table_ram (λ i. 0) hdma0 3 (in_ram 0x101),
)
unfolding offsets
do_lines-entry_example =
    do_lines-entry table_ram (λ i. 0) none hdma0 (in_ram 0x100) 0x83 2 refl refl refl refl
      (omega arith) refl
