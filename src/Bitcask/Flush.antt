-- ===== src/Bitcask/Flush.antt =====
-- `bc_flush` and `bc_rotate` of src/bitcask.c. A flush has three parts, between which it lets go of
-- `buffer_lock`: it takes the write buffer, writes the bytes to the file, and drops its copy. All
-- writes to a file succeed, since the source exits where one does not.
use beansdb.Base.{
  ℕ, ◌+◌, ◌*◌, ◌%◌, ◌^◌, Bool, true, false, ◌&&◌, ◌||◌, not, Option, none, some, [], ◌++◌, length,
  ltb, leb, ◌==◌, if◌then◌else◌,
}
use beansdb.Base.Int.{pos}
use beansdb.Bitcask.{
  Index, Flushing, Bitcask, max_bucket_count, write_buffer_size, file_bytes, file_exists, update,
  is_negative,
}

module _ (idx : Index) (max_bucket_size : ℕ) where
  -- The hint file of the old bucket is left out.
  unfoldable pub bc_rotate : Bitcask idx.Tree → Bitcask idx.Tree
  bc_rotate bc = record bc {
    buckets = elim (bc.files bc.curr) [
      | none ↦ bc.buckets
      | some b ↦ update bc.buckets bc.curr (pos (length b))
    ];
    curr = bc.curr + 1;
    curr_tree = idx.ht_new;
    wbuf_start = 0;
    curr_bytes = 0;
  }

  -- Whether the buffer with what may still come into it passes the limit of a file.
  unfoldable pub over_limit : Bitcask idx.Tree → Bool
  over_limit bc = ltb max_bucket_size ((bc.wbuf_start + bc.wbuf_size) % 2 ^ 32)

  unfoldable pub must_flush : ℕ → ℕ → ℕ → Bitcask idx.Tree → Bool
  must_flush limit flush_period now bc =
      ltb (limit * 1024 % 2 ^ 32) (length bc.wbuf)
      || (ltb (bc.last_flush_time + flush_period) now && ltb 0 (length bc.wbuf))

  unfoldable pub next_wbuf_size : ℕ → ℕ
  next_wbuf_size size =
      if ltb size write_buffer_size
      then size * 2
      else if ltb (write_buffer_size * 2) size
      then write_buffer_size
      else size

  unfoldable pub take_buffer : Bitcask idx.Tree → Bitcask idx.Tree
  unfolding next_wbuf_size
  take_buffer bc =
      let size = length bc.wbuf in
      record bc {
        flushing =
            some
              (record { bucket = bc.curr; buf = bc.wbuf; start = bc.wbuf_start; written = false });
        bytes = (bc.bytes + size) % 2 ^ 64;
        curr_bytes = (bc.curr_bytes + size) % 2 ^ 64;
        wbuf = [];
        wbuf_size = next_wbuf_size bc.wbuf_size;
        wbuf_start = (bc.wbuf_start + size) % 2 ^ 32;
      }

  -- The part up to the first release of `buffer_lock`.
  unfoldable pub flush_begin : Bitcask idx.Tree → Bitcask idx.Tree
  flush_begin bc = let bc' = take_buffer bc in if over_limit bc' then bc_rotate bc' else bc'

  unfoldable pub append_file : ℕ → Flushing → Bitcask idx.Tree → Bitcask idx.Tree
  append_file now f bc =
      let old = file_bytes (bc.files f.bucket) in
      record bc {
        files = update bc.files f.bucket (some (old ++ f.buf));
        buckets = update bc.buckets f.bucket (pos (length old + length f.buf));
        last_flush_time = now;
        flushing = some (record f { written = true });
      }

  -- The bytes are appended to the file, once `new_data` and the check of its size let them.
  unfoldable pub write_file : ℕ → Flushing → Bitcask idx.Tree → Option (Bitcask idx.Tree)
  write_file now f bc =
      let file = bc.files f.bucket in
      let size = length (file_bytes file) in
      if is_negative (bc.buckets f.bucket) && file_exists file
      then none
      else if ltb 0 f.start && not (f.start == size)
      then none
      else some (append_file now f bc)

  unfoldable pub flush_write : ℕ → Bitcask idx.Tree → Option (Bitcask idx.Tree)
  flush_write now bc = elim bc.flushing [ none ↦ some bc | some f ↦ write_file now f bc ]

  unfoldable pub flush_end : Bitcask idx.Tree → Bitcask idx.Tree
  flush_end bc = record bc { flushing = none }

  -- A flush that nothing interrupts.
  unfoldable pub bc_flush : ℕ → ℕ → ℕ → Bitcask idx.Tree → Option (Bitcask idx.Tree)
  bc_flush limit flush_period now bc =
      if leb max_bucket_count bc.curr
      then none
      else if must_flush limit flush_period now bc
      then elim (flush_write now (flush_begin bc)) [ none ↦ none | some bc' ↦ some (flush_end bc') ]
      else some bc
