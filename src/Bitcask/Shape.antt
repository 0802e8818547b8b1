-- ===== src/Bitcask/Shape.antt =====
-- The invariant of the buffers and files of a bitcask, in and between flushes.
use mathlib.Core.Path.{subst}
use beansdb.Base.{
  ℕ, ◌+◌, ◌%◌, ◌^◌, ◌≤◌, ◌<◌, ◌≡◌, refl, ap, arith, Bool, true, false, ◌⊎◌, inl, inr, Option, none,
  some, List, ◌++◌, length, All, All-append, length-append, Bool-cases, eq→==,
}
use beansdb.Base.Words.{IsByte}
use beansdb.Bitcask.{Index, Flushing, Bitcask, file_bytes, file_exists, is_negative}
use beansdb.Bitcask.Flush.{
  bc_rotate, over_limit, next_wbuf_size, take_buffer, flush_begin, append_file, write_file,
  flush_end,
}

-- The bytes of a flush go to the end of their file.
abbrev pub OnDisk : List ℕ → Flushing → Bool → Type 0
OnDisk bytes f false = length bytes ≡ f.start
OnDisk bytes f true = (old : List ℕ) × (length old ≡ f.start) × (bytes ≡ old ++ f.buf)

module _ {T : Type 0} where
  abbrev pub file : Bitcask T → ℕ → List ℕ
  file bc b = file_bytes (bc.files b)

  -- The write buffer comes behind the flushed bytes in the same file, or starts the next one.
  abbrev pub Follows : Bitcask T → Flushing → Type 0
  Follows bc f =
      ((f.bucket ≡ bc.curr) × (bc.wbuf_start ≡ f.start + length f.buf))
      ⊎ ((bc.curr ≡ f.bucket + 1) × (bc.wbuf_start ≡ 0))

  abbrev pub Disk : Bitcask T → Option Flushing → Type 0
  Disk bc none =
      (length (file bc bc.curr) ≡ bc.wbuf_start) × ((b : ℕ) → bc.curr < b → bc.files b ≡ none)
  Disk bc (some f) =
      All IsByte f.buf
      × ((b : ℕ) → f.bucket < b → bc.files b ≡ none)
      × Follows bc f
      × OnDisk (file bc f.bucket) f f.written

  pub record IsShaped (bc : Bitcask T) : Type 0 where
    pub start_pages : bc.wbuf_start % 256 ≡ 0
    pub wbuf_pages : length bc.wbuf % 256 ≡ 0
    pub wbuf_fits : length bc.wbuf ≤ bc.wbuf_size
    pub wbuf_small : bc.wbuf_size ≤ 2 ^ 28
    pub wbuf_some : 0 < bc.wbuf_size
    pub wbuf_bytes : All IsByte bc.wbuf
    pub files_bytes : (b : ℕ) → All IsByte (file bc b)
    pub table : (b : ℕ) → file_exists (bc.files b) ≡ true → is_negative (bc.buckets b) ≡ false
    pub disk : Disk bc bc.flushing

  -- The positions in the write buffer stay below the limit, except in a file that has just started.
  abbrev pub IsWithin : ℕ → Bitcask T → Type 0
  IsWithin limit bc = (bc.wbuf_start ≡ 0) ⊎ (bc.wbuf_start + bc.wbuf_size ≤ limit)

module _ (idx : Index) (limit : ℕ) (room : limit + 2 ^ 28 < 2 ^ 32) where
  abbrev State : Type 0
  State = Bitcask idx.Tree

  bc_rotate-table :
      (bc : State)
      → IsShaped bc
      → (b : ℕ) → file_exists (bc.files b) ≡ true
      → is_negative ((bc_rotate idx limit bc).buckets b) ≡ false
  unfolding bc_rotate is_negative
  bc_rotate-table bc s b e = ground (arith, s.table b, e)

  -- A bucket is closed while nothing is being flushed, or while its own last bytes are.
  bc_rotate-Disk :
      (bc : State) (fl : Option Flushing)
      → Disk bc fl
      → ((f : Flushing) → fl ≡ some f → f.bucket ≡ bc.curr)
      → Disk (bc_rotate idx limit bc) fl
  unfolding bc_rotate
  bc_rotate-Disk bc none d own =
      (unfold file_bytes in rw (d.1 (bc.curr + 1) (omega arith)), λ b h. d.1 b (omega arith))
  bc_rotate-Disk bc (some f) d own = (d.0, d.1, inr (omega (arith, own f refl), refl), d.3)

  take_buffer-IsShaped :
      (bc : State)
      → bc.flushing ≡ none
      → IsWithin limit bc
      → IsShaped bc
      → IsShaped (take_buffer idx limit bc)
  unfolding take_buffer next_wbuf_size
  take_buffer-IsShaped bc e w s =
      let d : Disk bc none = subst (Disk bc) e s.disk in
      record {
        start_pages = omega arith;
        wbuf_pages = refl;
        wbuf_fits = omega arith;
        wbuf_small = ground (arith, s.wbuf_small);
        wbuf_some = ground (arith, s.wbuf_some);
        wbuf_bytes = tt;
        files_bytes = s.files_bytes;
        table = s.table;
        disk = (
          s.wbuf_bytes,
          d.1,
          inl (refl, ground (arith, s.wbuf_fits, s.wbuf_small, w, room)),
          d.0,
        );
      }

  pub bc_rotate-IsShaped :
      (bc : State)
      → ((f : Flushing) → bc.flushing ≡ some f → f.bucket ≡ bc.curr)
      → IsShaped bc
      → IsShaped (bc_rotate idx limit bc)
  unfolding bc_rotate
  bc_rotate-IsShaped bc own s = record {
    start_pages = refl;
    wbuf_pages = s.wbuf_pages;
    wbuf_fits = s.wbuf_fits;
    wbuf_small = s.wbuf_small;
    wbuf_some = s.wbuf_some;
    wbuf_bytes = s.wbuf_bytes;
    files_bytes = s.files_bytes;
    table = bc_rotate-table bc s;
    disk = bc_rotate-Disk bc bc.flushing s.disk own;
  }

  pub over_limit-IsWithin :
      (bc : State)
      → (bc.wbuf_start ≤ limit) ⊎ (bc.wbuf_start ≤ 2 ^ 28)
      → bc.wbuf_size ≤ 2 ^ 28
      → over_limit idx limit bc ≡ false
      → IsWithin limit bc
  unfolding over_limit
  over_limit-IsWithin bc a b h = inr (ground (arith, room, a, b, h))

  pub flush_begin-IsShaped :
      (bc : State)
      → bc.flushing ≡ none
      → IsWithin limit bc
      → IsShaped bc
      → IsShaped (flush_begin idx limit bc)
  unfolding flush_begin
  flush_begin-IsShaped bc e w s =
      elim (Bool-cases (over_limit idx limit (take_buffer idx limit bc))) [
        | inl over ↦ rw over (
            bc_rotate-IsShaped (take_buffer idx limit bc)
              (λ f h. unfold take_buffer in ground (arith, h)) (take_buffer-IsShaped bc e w s))
        | inr below ↦ rw below (take_buffer-IsShaped bc e w s)
      ]

  pub flush_begin-IsWithin :
      (bc : State)
      → bc.flushing ≡ none
      → IsWithin limit bc
      → IsShaped bc
      → IsWithin limit (flush_begin idx limit bc)
  unfolding flush_begin
  flush_begin-IsWithin bc e w s =
      elim (Bool-cases (over_limit idx limit (take_buffer idx limit bc))) [
        | inl over ↦ rw over (inl (unfold bc_rotate in refl))
        | inr below ↦ rw below (
            over_limit-IsWithin (take_buffer idx limit bc)
              (unfold take_buffer in ground (arith, s.wbuf_fits, s.wbuf_small, w, room))
              (take_buffer-IsShaped bc e w s).wbuf_small below)
      ]

  append_file-IsShaped :
      (now : ℕ) (bc : State) (f : Flushing)
      → Disk bc (some f)
      → length (file bc f.bucket) ≡ f.start
      → IsShaped bc
      → IsShaped (append_file idx limit now f bc)
  unfolding append_file file_bytes is_negative
  append_file-IsShaped now bc f d on s = record {
    start_pages = s.start_pages;
    wbuf_pages = s.wbuf_pages;
    wbuf_fits = s.wbuf_fits;
    wbuf_small = s.wbuf_small;
    wbuf_some = s.wbuf_some;
    wbuf_bytes = s.wbuf_bytes;
    files_bytes = λ b. ground (
      arith,
      s.files_bytes b,
      All-append IsByte (file bc f.bucket) f.buf (s.files_bytes f.bucket) d.0,
    );
    table = λ b h. ground (arith, s.table b, h);
    disk = (
      d.0,
      λ b h. ground (arith, d.1 b h, h),
      d.2,
      (file bc f.bucket, on, rw (eq→== f.bucket f.bucket refl)),
    );
  }

  module _ (now : ℕ) (bc : State) (f : Flushing) (e : bc.flushing ≡ some f) (w : f.written ≡ false)
      (s : IsShaped bc) where
    before_write : length (file bc f.bucket) ≡ f.start
    before_write =
        let d : Disk bc (some f) = subst (Disk bc) e s.disk in
        subst (λ (b : Bool). OnDisk (file bc f.bucket) f b) w d.3

    -- The checks before a write succeed, and the source does not exit.
    pub write_file-eq-append_file :
        write_file idx limit now f bc ≡ some (append_file idx limit now f bc)
    unfolding write_file
    write_file-eq-append_file = ground (arith, s.table f.bucket, before_write)

    pub written-IsShaped : IsShaped (append_file idx limit now f bc)
    written-IsShaped = append_file-IsShaped now bc f (subst (Disk bc) e s.disk) before_write s

  flushed-Disk :
      (bc : State) (f : Flushing)
      → Disk bc (some f)
      → OnDisk (file bc f.bucket) f true
      → Disk bc none
  unfolding file_bytes
  flushed-Disk bc f d on = elim d.2 [
    | inl (same, start) ↦ (
      omega (
        arith,
        on.1,
        ap length on.2,
        length-append on.0 f.buf,
        ap (λ (b : ℕ). length (file bc b)) same,
        start,
      ),
      λ b h. d.1 b (omega arith),
    )
    | inr (next, start) ↦ (
      omega (
        arith,
        start,
        ap (λ (x : Option (List ℕ)). length (file_bytes x)) (d.1 bc.curr (omega arith)),
      ),
      λ b h. d.1 b (omega arith),
    )
  ]

  pub flush_end-IsShaped :
      (bc : State) (f : Flushing)
      → bc.flushing ≡ some f
      → f.written ≡ true
      → IsShaped bc
      → IsShaped (flush_end idx limit bc)
  unfolding flush_end
  flush_end-IsShaped bc f e w s =
      let d : Disk bc (some f) = subst (Disk bc) e s.disk in
      let on : OnDisk (file bc f.bucket) f true =
        subst (λ (b : Bool). OnDisk (file bc f.bucket) f b) w d.3 in
      record {
        start_pages = s.start_pages;
        wbuf_pages = s.wbuf_pages;
        wbuf_fits = s.wbuf_fits;
        wbuf_small = s.wbuf_small;
        wbuf_some = s.wbuf_some;
        wbuf_bytes = s.wbuf_bytes;
        files_bytes = s.files_bytes;
        table = s.table;
        disk = flushed-Disk bc f d on;
      }
