-- ===== src/Interrupts/Apic.antt =====
-- kernel/src/interrupts/apic.c: the records of the MADT, and the redirection of interrupts. `m` gives
-- the byte at each address. What is written to the chip is a list of writes.
pub mod Records
use shed_os.Base.{
  ℕ, zero, suc, ◌+◌, ◌-◌, ◌*◌, ◌/◌, ◌%◌, ◌^◌, bit_or, not, Bool, ◌||◌, leb, ◌==◌, ltb,
  if◌then◌else◌, Option, none, some, List, [], ◌∷◌, ◌++◌, update,
}
use shed_os.Base.Word.{u32_mod, add64}
use shed_os.Base.Bytes.{read16, read32}
use shed_os.Base.Result.{Result, ok, panic}
use shed_os.Libk.Memutil.{Ram}
use shed_os.Memory.Addr.{addr_ensure_higher}

-- `struct madt_entry_ioapic` and `struct madt_entry_iso`, without the header.
pub record IoApic : Type 0 where
  pub ioapic_id : ℕ
  pub ioapic_addr : ℕ
  pub gsib : ℕ

pub record Iso : Type 0 where
  pub bus_source : ℕ
  pub irq_source : ℕ
  pub gsi : ℕ
  pub flags : ℕ

-- The arrays have 8 and 24 elements in the source, which checks no bound: `overrun` says that something
-- was written behind one of them, over other variables, of which the model says nothing.
pub record Found : Type 0 where
  pub core_count : ℕ
  pub ioapic_count : ℕ
  pub ioapics : ℕ → IoApic
  pub iso_count : ℕ
  pub isos : ℕ → Iso
  pub overrun : Bool

-- One 32-bit write to a device register.
pub record MmioWrite : Type 0 where
  pub addr : ℕ
  pub val : ℕ

unfoldable pub load_ioapic : Ram → ℕ → IoApic
load_ioapic m hdr = record {
  ioapic_id = m (hdr + 2);
  ioapic_addr = read32 m (hdr + 4);
  gsib = read32 m (hdr + 8);
}

unfoldable pub load_iso : Ram → ℕ → Iso
load_iso m hdr = record {
  bus_source = m (hdr + 2);
  irq_source = m (hdr + 3);
  gsi = read32 m (hdr + 4);
  flags = read16 m (hdr + 8);
}

-- The length of the record, and what was found so far.
unfoldable pub parse_madt_entry : Ram → (hdr : ℕ) → Found → ℕ × Found
parse_madt_entry m hdr f = (
  m (hdr + 1),
  if m hdr == 0
      then record f { core_count = f.core_count + 1 }
      else if m hdr == 1
      then record f {
        ioapics = update f.ioapics f.ioapic_count (load_ioapic m hdr);
        ioapic_count = f.ioapic_count + 1;
        overrun = f.overrun || leb 8 f.ioapic_count;
      }
      else if m hdr == 2
      then record f {
        isos = update f.isos f.iso_count (load_iso m hdr);
        iso_count = f.iso_count + 1;
        overrun = f.overrun || leb 24 f.iso_count;
      }
      else f,
)

-- The loop over the records, from the address `records` on.
unfoldable pub parse_madt : (fuel offset record_size records : ℕ) → Ram → Found → Option Found
parse_madt zero offset record_size records m f = none
parse_madt (suc fuel) offset record_size records m f =
    let (len, g) = parse_madt_entry m (records + offset) f in
    let rest = parse_madt fuel (offset + len) record_size records m g in
    if ltb offset record_size then rest else some f

-- `ioapic_register_write`: the register's number, then its value, at every chip with that id.
unfoldable pub ioapic_register_write : ℕ → (i ioapic_id offset val : ℕ) → Found → List MmioWrite
ioapic_register_write zero i ioapic_id offset val f = []
ioapic_register_write (suc left) i ioapic_id offset val f =
    let rest = ioapic_register_write left (i + 1) ioapic_id offset val f in
    if (f.ioapics i).ioapic_id == ioapic_id
    then record { addr = addr_ensure_higher (f.ioapics i).ioapic_addr; val = offset }
      ∷ record {
        addr = addr_ensure_higher (((f.ioapics i).ioapic_addr + 0x10) % u32_mod);
        val = val;
      }
      ∷ rest
    else rest

-- `struct ioredtbl` as the compiler lays it out: `pad` is the byte behind `mask`, and `destination`
-- lies behind the first eight bytes.
pub record IoRedTbl : Type 0 where
  pub vector : ℕ
  pub conf : ℕ
  pub mask : ℕ
  pub pad : ℕ
  pub reserved0 : ℕ
  pub destination : ℕ

-- `*((uint64_t*)&tbl)`
unfoldable pub table_word : IoRedTbl → ℕ
table_word tbl =
    tbl.vector + 2 ^ 8 * tbl.conf + 2 ^ 16 * tbl.mask + 2 ^ 24 * tbl.pad + 2 ^ 32 * tbl.reserved0

unfoldable pub ioapic_ioredtbl_write : (ioapic_id irq : ℕ) → IoRedTbl → Found → List MmioWrite
ioapic_ioredtbl_write ioapic_id irq tbl f =
    let table = table_word tbl in
    ioapic_register_write f.ioapic_count 0 ioapic_id ((0x10 + irq * 2) % 256) (table % u32_mod) f
    ++ ioapic_register_write f.ioapic_count 0 ioapic_id ((0x10 + irq * 2 + 1) % 256)
        (table / u32_mod % u32_mod) f

-- The entry for an override: bit 1 of the flags makes the pin active low, bit 3 level triggered.
unfoldable pub redirection : (bsp_lapic_id pad reserved0 : ℕ) → Iso → IoRedTbl
redirection bsp_lapic_id pad reserved0 iso = record {
  vector = (iso.gsi + 32) % 256;
  conf =
      (if iso.flags / 2 % 2 == 0 then 0 else 2 ^ 5) + (if iso.flags / 8 % 2 == 0 then 0 else 2 ^ 7);
  mask = 0;
  pad = pad;
  reserved0 = reserved0;
  destination = bsp_lapic_id % 256;
}

-- The loop over the overrides; what is left of the stack in the padding is the same every time.
unfoldable pub redirect : ℕ → (i bsp_lapic_id pad reserved0 : ℕ) → Found → List MmioWrite
redirect zero i bsp_lapic_id pad reserved0 f = []
redirect (suc left) i bsp_lapic_id pad reserved0 f =
    ioapic_ioredtbl_write (f.ioapics 0).ioapic_id ((f.isos i).gsi % 256)
      (redirection bsp_lapic_id pad reserved0 (f.isos i)) f
    ++ redirect left (i + 1) bsp_lapic_id pad reserved0 f

-- `apic_initialize` behind the parsing: an interrupt controller is needed, the redirections are
-- written, and the local one is switched on. `lapic` gives its registers.
unfoldable pub apic_start :
    (lapic : ℕ → ℕ) → (pad reserved0 : ℕ) → Found → Result (List MmioWrite × (ℕ → ℕ))
apic_start lapic pad reserved0 f =
    if ltb 0 f.ioapic_count
    then ok (
      redirect f.iso_count 0 (lapic 0x08) pad reserved0 f,
      update lapic 0x3c (bit_or (bit_or (lapic 0x3c) 0xff) 0x100),
    )
    else panic

unfoldable pub apic_send_eoi : (ℕ → ℕ) → ℕ → ℕ
apic_send_eoi lapic = update lapic 0x2c 0

-- `ioapic_register_read`: the write of the register's number, and what IOWIN then answers; `iowin` gives
-- the answer of the chip at an address.
unfoldable pub ioapic_register_read :
    ℕ → (i ioapic_id offset : ℕ) → (iowin : ℕ → ℕ) → Found → List MmioWrite × ℕ
ioapic_register_read zero i ioapic_id offset iowin f = ([], 0)
ioapic_register_read (suc left) i ioapic_id offset iowin f =
    let rest = ioapic_register_read left (i + 1) ioapic_id offset iowin f in
    if (f.ioapics i).ioapic_id == ioapic_id
    then (
      record { addr = addr_ensure_higher (f.ioapics i).ioapic_addr; val = offset } ∷ [],
      iowin (addr_ensure_higher (((f.ioapics i).ioapic_addr + 0x10) % u32_mod)),
    )
    else rest
