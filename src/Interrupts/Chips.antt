-- ===== src/Interrupts/Chips.antt =====
-- kernel/src/interrupts/pic.c and hpet.c: the old interrupt controller, which is switched off, and the
-- timer chip. `regs` gives the timer's 64-bit registers.
use shed_os.Base.{
  ℕ, ◌/◌, ◌%◌, ◌^◌, Option, none, some, ◌==◌, Bool, bit_and, bit_or, ltb, if◌then◌else◌, List, [],
  ◌∷◌, ◌++◌, update,
}
use shed_os.Base.Word.{u32_mod}
use shed_os.Base.Result.{Result, ok, panic}

-- What is done to the ports of the PIC.
pub data PortOp : Type 0 where
  io_outb : (port val : ℕ) → PortOp
  io_inb : (port : ℕ) → PortOp
  io_wait : PortOp

abbrev pub pic1_command : ℕ
pic1_command = 0x20

abbrev pub pic1_data : ℕ
pic1_data = 0x21

abbrev pub pic2_command : ℕ
pic2_command = 0xa0

abbrev pub pic2_data : ℕ
pic2_data = 0xa1

-- A write and the wait behind it.
abbrev pub outb_wait : (port val : ℕ) → List PortOp → List PortOp
outb_wait port val ops = io_outb port val ∷ io_wait ∷ ops

-- `a1` and `a2` are the masks that were read.
unfoldable pub remap_pic : (a1 a2 : ℕ) → List PortOp
remap_pic a1 a2 =
    io_inb pic1_data
    ∷ io_wait
    ∷ io_inb pic2_data
    ∷ io_wait
    ∷ outb_wait pic1_command 0x11 (
        outb_wait pic2_command 0x11 (
          outb_wait pic1_data 0x20 (
            outb_wait pic2_data 0x28 (
              outb_wait pic1_data 4 (
                outb_wait pic2_data 2 (
                  outb_wait pic1_data 1 (
                    outb_wait pic2_data 1
                      (outb_wait pic1_data a1 (outb_wait pic2_data a2 [])))))))))

unfoldable pub mask_irqs : List PortOp
mask_irqs = outb_wait pic1_data 0xff (outb_wait pic2_data 0xff [])

unfoldable pub pic_initialize : (a1 a2 : ℕ) → List PortOp
pic_initialize a1 a2 = remap_pic a1 a2 ++ mask_irqs ++ outb_wait 0xa1 0xff (outb_wait 0x21 0xff [])

unfoldable pub pic_send_eoi : Bool → List PortOp
pic_send_eoi slave =
    let master = io_outb pic1_command 0x20 ∷ [] in
    if slave then io_outb pic2_command 0x20 ∷ master else master

pub record Hpet : Type 0 where
  pub regs : ℕ → ℕ
  pub main_frequency : ℕ

-- The assertion on the legacy mapping compares the capabilities OR 0xf with 0; the one on timer 0 wants
-- a chip that can be periodic. The chip's answers are those of `regs`.
unfoldable pub hpet_initialize : (ℕ → ℕ) → Result Hpet
hpet_initialize regs =
    let main_cap = regs 0 in
    let clock_period = main_cap / 2 ^ 32 % u32_mod in
    let main_frequency = 1000000000000000 / clock_period % u32_mod in
    let timer0 = regs 0x20 in
    let regs1 = update regs 0x20 (bit_or (bit_or (bit_or timer0 4) 8) 64) in
    let regs2 = update regs1 0x21 (main_frequency / 300) in
    let regs3 = update regs2 0x1e 0 in
    let regs4 = update regs3 2 (bit_or (bit_or (regs3 2) 1) 2) in
    if ltb 0 (bit_or main_cap 0x0f)
    then (if ltb 0 (bit_and timer0 16)
        then ok (record { regs = regs4; main_frequency = main_frequency })
        else panic)
    else panic

-- In microseconds; a chip slower than one megahertz divides by 0, which the model answers with 0.
unfoldable pub hpet_read_counter : Hpet → ℕ
hpet_read_counter h = h.regs 0x1e / (h.main_frequency / 1000000)

-- `timer_initialize` of timer.c; `signature0` is the first character of the table of the chip.
unfoldable pub timer_initialize : (signature0 : ℕ) → (ℕ → ℕ) → Result (Option Hpet)
timer_initialize signature0 regs =
    if signature0 == 0
    then ok none
    else (elim (hpet_initialize regs) [ panic ↦ panic | ok hpet ↦ ok (some hpet) ])
