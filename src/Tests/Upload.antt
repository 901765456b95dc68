-- ===== src/Tests/Upload.antt =====
-- Uploads of a sound program: one block, and one block more than is allowed.
use snesrecomp.Base.{
  ℕ, zero, suc, ◌+◌, ◌<◌, ◌≡◌, refl, ap, ◌∙◌, arith, List, [], ◌∷◌, All, Memory, true, false, none,
  length, take, replicate, length-replicate, get_or, ◌==◌, if◌then◌else◌,
}
use snesrecomp.Apu.{port_write}
use snesrecomp.Bus.Map.{rom_index, rom_size_of}
use snesrecomp.Frame.Upload.{Spc, Host, stream_address, upload_internal}
use snesrecomp.Frame.Upload.Stream.{Block, IsBlock, Holds, encode_stream, image_at, covered}
use snesrecomp.Frame.Upload.Image.{
  stream_at, IsCleared, upload_internal-image, upload_internal-overfull,
}
use snesrecomp.Tests.{cpu0}
use snesrecomp.Tests.Apu.{apu0}

abbrev spc0 : Spc
spc0 = record {
  a = 1;
  x = 2;
  y = 3;
  sp = 0;
  pc = 0xffc0;
  flag_c = false;
  flag_z = false;
  flag_v = false;
  flag_n = false;
  flag_i = false;
  flag_h = false;
  flag_p = false;
  flag_b = false;
  stopped = false;
  cycles_used = 0;
}

-- The boot program runs; the direct page names the address 0x8000 and `rom` starts there.
abbrev host : List ℕ → Host ℕ
host bytes = record {
  apu = record {
    core = (spc0, 0);
    produced = 0;
    ram = λ i. 0x55;
    rom_readable = true;
    dsp_adr = 0;
    cycles = 0;
    in_ports = λ i. 1;
    out_ports = λ i. 2;
    timer = apu0.timer;
    cpu_cycles_left = 3;
    port_queue = λ i. port_write 1 5 900;
    q_head = 3;
    q_tail = 5;
  };
  ram = λ i. if i == 1 then 0x80 else 0;
  rom = λ i. get_or bytes i 0;
  cart_rom = none;
  fail = false;
  apu_catchup_cycles = 0;
  pace_cycles_estimate = 0;
  last_sync_cycles = 0;
  cpu_master = 0;
  last_sync_master = 0;
}

abbrev block0 : Block
block0 = record { target = 0x200; payload = 7 ∷ 8 ∷ 9 ∷ [] }

Holds-from :
    (rom : Memory) (p : ℕ) (xs : List ℕ)
    → ((i : ℕ) → i < length xs → rom (p + i) ≡ get_or xs i 0)
    → Holds rom p xs
unfolding Holds
Holds-from rom p [] at = tt
Holds-from rom p (x ∷ xs) at = (
  ap rom {x = p} {y = p + 0} (omega arith) ∙ at 0 (omega arith),
  Holds-from rom (p + 1) xs
      (λ i h. ap rom {x = p + 1 + i} {y = p + suc i} (omega arith) ∙ at (suc i) (omega arith)),
)

host-start : (bytes : List ℕ) → stream_at cpu0 (host bytes) ≡ 0
unfolding stream_address rom_index rom_size_of
host-start bytes = refl

host-Holds : (bytes : List ℕ) → Holds (host bytes).rom (stream_at cpu0 (host bytes)) bytes
host-Holds bytes = rw (host-start bytes) (
    Holds-from (λ i. get_or bytes i 0) 0 bytes
      (λ i h. ap (λ n. get_or bytes n 0) {x = 0 + i} {y = i} (omega arith)))

abbrev one_block : List Block
one_block = block0 ∷ []

upload_internal-image_example :
    ((upload_internal true cpu0 (host (encode_stream one_block 0x200))).0 ≡ true)
    × (((upload_internal true cpu0 (host (encode_stream one_block 0x200))).2.apu.ram 0x201 ≡ 8)
        × (IsCleared (upload_internal true cpu0 (host (encode_stream one_block 0x200))).2.apu
            × ((upload_internal true cpu0 (host (encode_stream one_block 0x200))).2.apu.core.0.pc
                ≡ 0x200)))
unfolding image_at covered
upload_internal-image_example =
    upload_internal-image true cpu0 (host (encode_stream one_block 0x200)) one_block 0x200 0x201
      (omega arith) ((omega arith, (omega arith, omega arith)), tt) (omega arith)
      (host-Holds (encode_stream one_block 0x200)) (omega arith)

many_blocks : List Block
many_blocks = replicate 513 block0

All-replicate : (n : ℕ) (b : Block) → IsBlock b → All IsBlock (replicate n b)
All-replicate zero b h = tt
All-replicate (suc n) b h = (h, All-replicate n b h)

many_blocks-All : All IsBlock many_blocks
unfolding many_blocks
many_blocks-All = All-replicate 513 block0 (omega arith, (omega arith, omega arith))

length-many_blocks : length many_blocks ≡ 513
unfolding many_blocks
length-many_blocks = length-replicate {A = Block} 513 block0

upload_internal-overfull_example :
    ((upload_internal true cpu0 (host (encode_stream many_blocks 0))).0 ≡ false)
    × (((upload_internal true cpu0 (host (encode_stream many_blocks 0))).2.apu.ram 0x201
          ≡ image_at (take 513 many_blocks) 0x201 0x55)
        × (((upload_internal true cpu0 (host (encode_stream many_blocks 0))).2.apu
              ≡ record (host (encode_stream many_blocks 0)).apu {
                ram = (upload_internal true cpu0 (host (encode_stream many_blocks 0))).2.apu.ram;
              })
            × ((upload_internal true cpu0 (host (encode_stream many_blocks 0))).1 ≡ cpu0)))
upload_internal-overfull_example =
    upload_internal-overfull true cpu0 (host (encode_stream many_blocks 0)) many_blocks 0 0x201
      many_blocks-All (omega (arith, length-many_blocks)) (host-Holds (encode_stream many_blocks 0))
      (omega arith)
