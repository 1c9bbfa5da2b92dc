-- ===== src/Tasks/Loader.antt =====
-- `task_create` of kernel/src/task/task.c, with the headers of kernel/src/task/elf.h. `m` gives the bytes
-- of the file at `hdr`, which stay as they are while it is loaded. The writes to the new task's pages go
-- through the page tables that are loaded, so they are recorded as effects, in their order: which
-- addresses are cleared, and what is copied from where. What they do to memory is not modelled.
pub mod Segment
use shed_os.Base.{
  ℕ, ◌+◌, ◌*◌, ◌/◌, ◌%◌, bit_or, ◌==◌, if◌then◌else◌, for_range, List, [], ◌∷◌, ◌++◌,
}
use shed_os.Base.Bytes.{read16, read32, read64}
use shed_os.Base.Word.{add64}
use shed_os.Libk.Memutil.{Ram}
use shed_os.Memory.Addr.{addr_page_align_up, addr_page_align_down}
use shed_os.Memory.Paging.{Machine, paging_user, paging_writable, paging_write_cr3}
use shed_os.Memory.Spaces.{paging_copy}
use shed_os.Memory.Vmm.{vmm_request_at}
use shed_os.Tasks.{Task, Registers}

-- The fields of the file's header behind its 16 bytes of identification.
pub record Elf64Ehdr : Type 0 where
  pub e_type : ℕ
  pub e_machine : ℕ
  pub e_version : ℕ
  pub e_entry : ℕ
  pub e_phoff : ℕ
  pub e_shoff : ℕ
  pub e_flags : ℕ
  pub e_ehsize : ℕ
  pub e_phentsize : ℕ
  pub e_phnum : ℕ
  pub e_shentsize : ℕ
  pub e_shnum : ℕ
  pub e_shstrndx : ℕ

unfoldable pub read_ehdr : (hdr : ℕ) → Ram → Elf64Ehdr
read_ehdr hdr m = record {
  e_type = read16 m (hdr + 16);
  e_machine = read16 m (hdr + 18);
  e_version = read32 m (hdr + 20);
  e_entry = read64 m (hdr + 24);
  e_phoff = read64 m (hdr + 32);
  e_shoff = read64 m (hdr + 40);
  e_flags = read32 m (hdr + 48);
  e_ehsize = read16 m (hdr + 52);
  e_phentsize = read16 m (hdr + 54);
  e_phnum = read16 m (hdr + 56);
  e_shentsize = read16 m (hdr + 58);
  e_shnum = read16 m (hdr + 60);
  e_shstrndx = read16 m (hdr + 62);
}

pub record Elf64Phdr : Type 0 where
  pub p_type : ℕ
  pub p_flags : ℕ
  pub p_offset : ℕ
  pub p_vaddr : ℕ
  pub p_paddr : ℕ
  pub p_filesz : ℕ
  pub p_memsz : ℕ
  pub p_align : ℕ

unfoldable pub read_phdr : (phdr : ℕ) → Ram → Elf64Phdr
read_phdr phdr m = record {
  p_type = read32 m phdr;
  p_flags = read32 m (phdr + 4);
  p_offset = read64 m (phdr + 8);
  p_vaddr = read64 m (phdr + 16);
  p_paddr = read64 m (phdr + 24);
  p_filesz = read64 m (phdr + 32);
  p_memsz = read64 m (phdr + 40);
  p_align = read64 m (phdr + 48);
}

abbrev pub pt_load : ℕ
pt_load = 1

-- The pages of a segment.
unfoldable pub segment_pages : Elf64Phdr → ℕ
segment_pages p = addr_page_align_up (add64 p.p_memsz (p.p_vaddr % 0x1000)) / 0x1000

-- `memset(dst, 0, n)` and `memcpy(dst, src, n)`
pub data Write : Type 0 where
  clears : (dst n : ℕ) → Write
  copies : (dst src n : ℕ) → Write

-- The writes for a segment: `p_filesz` bytes are cleared, and then `p_memsz` are copied.
unfoldable pub fill_segment : (hdr : ℕ) → Elf64Phdr → List Write
fill_segment hdr p =
    clears p.p_vaddr p.p_filesz ∷ copies p.p_vaddr (hdr + p.p_offset) p.p_memsz ∷ []

unfoldable pub load_segment :
    (vmap hdr : ℕ) → Elf64Phdr → List Write × Machine → List Write × Machine
load_segment vmap hdr p (writes, s) =
    if p.p_type == pt_load
    then (
      writes ++ fill_segment hdr p,
      vmm_request_at vmap p.p_vaddr (segment_pages p) (bit_or paging_user paging_writable) s,
    )
    else (writes, s)

unfoldable pub load_segments : (vmap hdr : ℕ) → Ram → Machine → List Write × Machine
load_segments vmap hdr m s =
    for_range (read_ehdr hdr m).e_phnum 0
      (λ i. load_segment vmap hdr (read_phdr (hdr + (read_ehdr hdr m).e_phoff + 56 * i) m)) ([], s)

abbrev pub stack_top : ℕ
stack_top = 0x7fff_ffff_fff0

-- `memset(task, 0, sizeof(struct task))`
abbrev pub zero_task : Task
zero_task = record {
  regs = record {
    r15 = 0;
    r14 = 0;
    r13 = 0;
    r12 = 0;
    r11 = 0;
    r10 = 0;
    r9 = 0;
    r8 = 0;
    rbp = 0;
    rdi = 0;
    rsi = 0;
    rdx = 0;
    rcx = 0;
    rbx = 0;
    rax = 0;
  };
  rsp = 0;
  rflags = 0;
  rip = 0;
  next_task = 0;
  vmap = 0;
  deadline = 0;
  id = 0;
}

-- The new task, the writes and the machine.
unfoldable pub task_create :
    (vmap_parent elf_data : ℕ) → Ram → Machine → Task × List Write × Machine
task_create vmap_parent elf_data m s =
    let (vmap, s1) = paging_copy vmap_parent s in
    let (writes, s2) = load_segments vmap elf_data m (paging_write_cr3 vmap s1) in
    (
      record zero_task { vmap = vmap; rsp = stack_top; rip = (read_ehdr elf_data m).e_entry },
      writes,
      vmm_request_at vmap (addr_page_align_down stack_top) 1 (bit_or paging_user paging_writable)
          s2,
    )
