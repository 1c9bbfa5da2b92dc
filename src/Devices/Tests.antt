-- ===== src/Devices/Tests.antt =====
-- The theorems on devices, drives and partitions at concrete inputs.
use shed_os.Base.{
  ℕ, ◌+◌, ◌-◌, ◌*◌, ◌/◌, ◌%◌, ◌<◌, ◌≡◌, inl, inr, refl, ◌==◌, ltb, leb, ◌&&◌, if◌then◌else◌, [],
  ◌∷◌, length, get_elem?, some, arith,
}
use shed_os.Libk.Memutil.{Ram}
use shed_os.Devices.Nvme.{SqEntry, CqEntry, Queue, read_blocks, send_cmd_sync, send_all, max_blocks}
use shed_os.Devices.Nvme.Blocks.{first_block, blocks, read_blocks_covers}
use shed_os.Devices.Nvme.Rings.{InStep, FirstAnswer, cleared, send_cmd_sync_lem, send_all_lem}
use shed_os.Devices.Registry.{Table, device_register}
use shed_os.Devices.Registry.Places.{Registered, device_register_lem}
use shed_os.Devices.Drive.{ReadBlocks, drive_copy}
use shed_os.Devices.Drive.Bytes.{drive_copy_lem}
use shed_os.Devices.Partition.{GptEntry, load_entry, entries_loop, pages_taken, pages_given_back}
use shed_os.Devices.Partition.Entries.{In, entries_complete, pages_lost}

read_blocks_covers_example :
    (c : SqEntry) × (get_elem? (read_blocks 0x4000 32 100 512 1) (20 / max_blocks) ≡ some c)
    × (first_block c + 20 % max_blocks ≡ 100 + 20)
    × (20 % max_blocks < blocks c)
read_blocks_covers_example = read_blocks_covers 20 0x4000 32 100 512 1 (omega arith) (omega arith)

abbrev no_answer : CqEntry
no_answer = record {
  cmd_specific = 0;
  sq_head_ptr = 0;
  sq_identifier = 0;
  cmd_identifier = 0;
  status_field = 0;
}

abbrev answer : CqEntry
answer = record no_answer { status_field = 1 }

abbrev command : SqEntry
command = record {
  cdw0 = 6;
  nsid = 0;
  mptr = 0;
  prp1 = 0x5000;
  prp2 = 0;
  cdw10 = 1;
  cdw11 = 0;
  cdw12 = 0;
}

-- Both rings are at their last place.
abbrev queue : Queue
queue = record {
  id = 0;
  sq_tail = 255;
  cq_head = 255;
  sq = λ i. command;
  cq = λ i. no_answer;
  sq_tail_dbl = 255;
  cq_head_dbl = 255;
}

queue-InStep : InStep queue 255
queue-InStep = record {
  tail = refl;
  head = refl;
  bound = omega arith;
  tail_bell = refl;
  head_bell = refl;
}

send_cmd_sync_lem_example :
    (a : CqEntry) × (q' : Queue) × FirstAnswer (no_answer ∷ answer ∷ []) a
    × (send_cmd_sync command (no_answer ∷ answer ∷ []) queue ≡ some (cleared a, q'))
    × InStep q' ((255 + 1) % 256)
    × (q'.sq 255 ≡ command)
    × (q'.cq 255 ≡ cleared a)
send_cmd_sync_lem_example =
    send_cmd_sync_lem command (no_answer ∷ answer ∷ []) queue 255 (inr (inl refl)) queue-InStep

send_all_lem_example :
    (q' : Queue) × (send_all (command ∷ command ∷ []) ((answer ∷ []) ∷ (answer ∷ []) ∷ []) queue
      ≡ some q')
    × InStep q' ((255 + length (command ∷ command ∷ [])) % 256)
send_all_lem_example =
    send_all_lem (command ∷ command ∷ []) ((answer ∷ []) ∷ (answer ∷ []) ∷ []) queue 255 refl
      (inl refl, (inl refl, tt)) queue-InStep

-- The first place is taken.
abbrev one_taken : Table
one_taken = record { places = λ i. if i == 0 then 0x900 else 0; numbers = λ d. 0 }

device_register_lem_example : Registered 0x700 0 one_taken (device_register 0x700 one_taken)
device_register_lem_example = device_register_lem 0x700 one_taken

-- A drive whose byte `i` is the low byte of `i`.
abbrev disk : ℕ → ℕ
disk i = i % 256

abbrev reader : ReadBlocks
reader buf count first m a =
    if leb buf a && ltb a (buf + count * 512) then disk (first * 512 + (a - buf)) else m a

drive_copy_lem_example :
    drive_copy reader 512 0x100 10 1020 0x4000 (λ a. 0) (0x100 + 7) ≡ disk (1020 + 7)
drive_copy_lem_example =
    drive_copy_lem reader disk 9 0x100 10 1020 0x4000 7 (λ a. 0)
      (λ buf count first i m lt. ground arith) (omega arith) (omega arith) (omega arith)
      (omega arith) (omega arith) (inl (omega arith))

-- A table of two entries of 128 bytes, of which the second one is in use.
abbrev table : Ram
table a = if a == 160 then 40 else 0

abbrev second : GptEntry
second = record { first_lba = 40; last_lba = 0 }

second_run : load_entry table (1 * 128) ≡ second
unfolding load_entry
second_run = refl

entries_complete_example : In (load_entry table (1 * 128)) (entries_loop 2 0 128 table)
entries_complete_example =
    entries_complete 2 0 1 128 table (omega arith) (omega arith) (ground (arith, second_run))

second-In : In second (entries_loop 2 0 128 table)
unfolding entries_loop load_entry
second-In = inl refl

pages_lost_example : pages_given_back 512 < pages_taken 512
pages_lost_example = pages_lost 512 (omega arith)
