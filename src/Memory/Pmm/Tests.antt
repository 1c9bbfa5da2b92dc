-- ===== src/Memory/Pmm/Tests.antt =====
-- Runs of pmm.c, and the theorems at concrete inputs.
use shed_os.Base.{
  ℕ, ◌*◌, ◌≤◌, ◌+◌, ◌-◌, ◌/◌, ◌<◌, ◌≡◌, ◌⊎◌, refl, false, not, ◌||◌, ◌==◌, if◌then◌else◌, arith,
  List, [], ◌∷◌, none, some, min, update,
}
use shed_os.Memory.Bitmap.{bitmap_isset}
use shed_os.Memory.Pmm.{Pmm, null, is_free, request_loop, pmm_request_pages, pmm_release_pages}
use shed_os.Memory.Pmm.Lock.{locked, inside}
use shed_os.Memory.Pmm.Count.{free_pages}
use shed_os.Memory.Pmm.Request.{Outcome, request-Outcome}
use shed_os.Memory.Pmm.Release.{release_lem, released_not_reused}
use shed_os.Memory.Pmm.Owners.{
  Owners, Step, takes, start, then_step, IsOwned, unowned, reached-IsOwned,
}
use shed_os.Memory.Pmm.Valid.{IsValid}
use shed_os.Memory.Pmm.Init.{MmapEntry, larger, scan, pmm_initialize}
use shed_os.Memory.Pmm.Init.Marks.{usable_page, bitmap_len, init_marks}
use shed_os.Memory.Pmm.Init.Books.{init-IsValid}
use shed_os.Memory.Pmm.Init.Tail.{bitmap_tail_free}

-- Sixteen pages, of which the first two are marked.
abbrev sixteen : Pmm
sixteen = record {
  page_bitmap = record { buf = λ i. if i == 0 then 3 else if i == 1 then 0 else 255; len = 3 };
  bitmap_addr = 0x1000;
  last_free = 0;
  free_memory = 0xe000;
  total_memory = 0x10000;
}

sixteen-IsValid : IsValid sixteen
unfolding free_pages bitmap_isset
sixteen-IsValid = record {
  bytes = record { byte = λ i. ground arith };
  counted = record { fits = omega arith; free = refl };
  within = omega arith;
  guard = refl;
}

request_run : (pmm_request_pages 3 sixteen).0 ≡ 0x2000
unfolding pmm_request_pages request_loop is_free bitmap_isset
request_run = refl

request-Outcome_example : Outcome 3 sixteen (pmm_request_pages 3 sixteen)
request-Outcome_example = request-Outcome 3 sixteen sixteen-IsValid.bytes (omega arith)

release_lem_example :
    let t = pmm_release_pages 0x1000 1 sixteen in
    (locked t 1 ≡ (if inside (0x1000 / 0x1000) 1 1 then false else locked sixteen 1))
    × (t.last_free ≡ min 0x1000 0)
    × (t.total_memory ≡ 0x10000)
release_lem_example = release_lem 0x1000 1 sixteen 1 sixteen-IsValid.bytes (omega arith)

-- Four pages were handed out before.
abbrev later : Pmm
later = record sixteen { last_free = 4 }

released_not_reused_example :
    let t = pmm_release_pages 0x1000 1 later in
    let answer = (pmm_request_pages 1 t).0 in
    ((m : ℕ) → 0x1000 / 0x1000 ≤ m → m < 0x1000 / 0x1000 + 1 → locked t m ≡ false)
    × ((answer ≡ null) ⊎ (0x1000 * 4 ≤ answer))
released_not_reused_example =
    released_not_reused 0x1000 1 1 later (record { byte = λ i. ground arith }) (omega arith)
      (omega arith) (omega arith) (omega arith)

-- One megabyte of usable memory behind a reserved one.
abbrev reserved : MmapEntry
reserved = record { base = 0; length = 0x100000; type = 2 }

abbrev free_mb : MmapEntry
free_mb = record { base = 0x100000; length = 0x100000; type = 1 }

abbrev two_mb : List MmapEntry
two_mb = reserved ∷ free_mb ∷ []

scan_run : scan two_mb 0 none ≡ (0x200000, some free_mb)
unfolding scan larger
scan_run = refl

init_marks_example :
    (s : Pmm) × (pmm_initialize (λ a. 0) two_mb ≡ some s)
    × (locked s 300 ≡ (
        inside (0x100000 / 0x1000) (bitmap_len 0x200000 / 0x1000) 300
        || not (usable_page two_mb 300)))
init_marks_example =
    init_marks (λ a. 0) two_mb 0x200000 free_mb 300 (λ i. omega arith) (omega arith) (omega arith)
      scan_run (omega arith)

init-IsValid_example : (s : Pmm) × (pmm_initialize (λ a. 0) two_mb ≡ some s) × IsValid s
init-IsValid_example =
    init-IsValid (λ a. 0) two_mb 0x200000 free_mb (λ i. omega arith) (omega arith) (omega arith)
      (omega arith) scan_run

bitmap_tail_free_example :
    let last_page = (0x100000 + bitmap_len 0x200000 - 1) / 0x1000 in
    (s : Pmm) × (pmm_initialize (λ a. 0) two_mb ≡ some s) × (locked s last_page ≡ false)
bitmap_tail_free_example =
    bitmap_tail_free (λ a. 0) two_mb 0x200000 free_mb (λ i. omega arith) (omega arith) scan_run
      (omega arith) (omega arith) (omega arith) (omega arith) (omega arith)

-- Owner 7 takes three pages.
abbrev taken : Owners
taken = record {
  pmm = (pmm_request_pages 3 sixteen).1;
  holds = update (unowned sixteen).holds 7 (some ((pmm_request_pages 3 sixteen).0 / 0x1000, 3));
}

takes_three : Step (unowned sixteen) taken
takes_three = takes 7 3 (unowned sixteen) refl (omega arith) (λ e. omega (arith, request_run, e))

reached-IsOwned_example : IsOwned taken
reached-IsOwned_example =
    reached-IsOwned sixteen taken sixteen-IsValid (omega arith)
      (then_step (unowned sixteen) (unowned sixteen) taken (start (unowned sixteen)) takes_three)
