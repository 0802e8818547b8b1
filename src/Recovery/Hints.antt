-- ===== src/Recovery/Hints.antt =====
-- Hint files: src/hint.c. A hint is the entry of a key without its bucket; the files are lists of
-- hints. Whether a file is compressed is told by its name, here by `packed`. Reading and writing files
-- succeeds, and `build_hint` visits the items of a tree in the order of `visited`.
use beansdb.Base.{
  ℕ, zero, suc, ◌+◌, ◌*◌, ◌/◌, ◌%◌, ◌^◌, bit_or, Bool, true, ◌&&◌, ◌||◌, not, Option, none, some,
  List, [], ◌∷◌, ◌++◌, length, take, drop, ltb, ◌==◌, if◌then◌else◌,
}
use beansdb.Base.Words.{to_bytes, field_at}
use beansdb.Record.{Env}
use beansdb.Bitcask.{Entry, Index, check_key, is_positive, word_of}
use beansdb.Recovery.{int_of}

-- sizeof(HintRecord) - NAME_IN_RECORD
abbrev pub hint_head : ℕ
hint_head = 10

-- One hint, and the zero behind its key.
unfoldable pub hint_record : List ℕ → Entry → List ℕ
hint_record key e =
    to_bytes 1 (length key)
    ++ (to_bytes 3 (e.place / 2 ^ 8)
        ++ (to_bytes 4 (word_of e.ver) ++ (to_bytes 2 e.hash ++ (key ++ (0 ∷ [])))))

-- collect_items
unfoldable pub collect_items : List ℕ → Entry → List ℕ → List ℕ
unfolding hint_record
collect_items key e buf = buf ++ hint_record key e

-- The calls of the visitor.
unfoldable pub collect_all : List (List ℕ × Entry) → List ℕ → List ℕ
unfolding collect_items
collect_all [] buf = buf
collect_all ((key, e) ∷ visited) buf = collect_all visited (collect_items key e buf)

module _ (env : Env) (packed : Bool) where
  -- The bytes of the file.
  unfoldable pub write_hint_file : List ℕ → List ℕ
  write_hint_file buf = if packed then env.qlz_compress buf else buf

  unfoldable pub build_hint : List (List ℕ × Entry) → List ℕ
  unfolding collect_all write_hint_file
  build_hint visited = write_hint_file (collect_all visited [])

  -- `none` where the source calls `exit`.
  unfoldable pub open_hint : List ℕ → Option (List ℕ)
  open_hint file =
      let buf = env.qlz_decompress file in
      if packed && ltb 0 (length file)
      then (if length buf == env.qlz_size_decompressed file then some buf else none)
      else some file

-- The hint at a pointer, and what is behind it; `none` where it ends past the end of the file.
unfoldable pub next_hint : List ℕ → Option (List ℕ × Entry × List ℕ)
next_hint buf =
    let ksize = field_at 1 0 buf in
    let size = hint_head + ksize + 1 in
    if ltb (length buf) size
    then none
    else some (
      take ksize (drop hint_head buf),
      record {
        place = field_at 3 1 buf * 2 ^ 8;
        hash = field_at 2 8 buf;
        ver = int_of (field_at 4 4 buf);
      },
      drop size buf,
    )

module _ (idx : Index) (env : Env) (is_blank : ℕ → Bool) (bucket : ℕ) where
  open idx use {Tree, ht_get, ht_add, ht_remove}

  abbrev pub in_bucket : Entry → Entry
  in_bucket e = record e { place = bit_or e.place (bucket % 256) }

  unfoldable pub apply_hint : List ℕ → Entry → Tree → Tree
  apply_hint key e t =
      if check_key is_blank key
      then (if is_positive e.ver then ht_add key (in_bucket e) t else ht_remove key t)
      else t

  -- The loop of `scanHintFile`, with fuel for every byte.
  unfoldable pub scan_hints : ℕ → List ℕ → Tree → Tree
  unfolding next_hint apply_hint
  scan_hints zero buf t = t
  scan_hints (suc fuel) [] t = t
  scan_hints (suc fuel) (b ∷ bs) t = elim (next_hint (b ∷ bs)) [
    | none ↦ t
    | some (key, e, rest) ↦ scan_hints fuel rest (apply_hint key e t)
  ]

  unfoldable pub scan_hint_file : Bool → List ℕ → Tree → Option Tree
  unfolding scan_hints open_hint
  scan_hint_file packed file t = elim (open_hint env packed file) [
    | none ↦ none
    | some buf ↦ some (scan_hints (length buf) buf t)
  ]

  -- A record counts as deleted where the tree does not lead to it, or leads to a deletion that is not kept.
  abbrev pub is_deleted : Bool → Entry → Option Entry → Bool
  is_deleted skipped e none = true
  is_deleted skipped e (some it) =
      not (it.place == bit_or e.place bucket) || (not (is_positive it.ver) && not skipped)

  -- The loop of `count_deleted_record`: how many hints there are, and how many count as deleted.
  unfoldable pub count_hints : Bool → ℕ → List ℕ → Tree → ℕ × ℕ
  unfolding next_hint
  count_hints skipped zero buf t = (0, 0)
  count_hints skipped (suc fuel) [] t = (0, 0)
  count_hints skipped (suc fuel) (b ∷ bs) t = elim (next_hint (b ∷ bs)) [
    | none ↦ (0, 0)
    | some (key, e, rest) ↦
        let (total, deleted) = count_hints skipped fuel rest t in
        (total + 1, if is_deleted skipped e (ht_get key t) then deleted + 1 else deleted)
  ]

  unfoldable pub count_deleted_record : Bool → Bool → List ℕ → Tree → Option (ℕ × ℕ)
  unfolding count_hints open_hint
  count_deleted_record packed skipped file t = elim (open_hint env packed file) [
    | none ↦ none
    | some buf ↦ some (count_hints skipped (length buf) buf t)
  ]
