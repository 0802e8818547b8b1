-- ===== src/Bitcask/Stored.antt =====
-- Where the record of an entry stands: in the write buffer, in the buffer of a flush or in a data file.
-- It keeps standing somewhere while a flush goes on, and the reads of `bc_get` find it.
use mathlib.Core.Path.{subst}
use mathlib.Core.List.{append_assoc, append-nil}
use beansdb.Base.{
  ℕ, zero, suc, ◌+◌, ◌-◌, ◌%◌, ◌^◌, ◌≤◌, ◌<◌, ◌≡◌, refl, sym, ap, ◌∙◌, arith, Bool, true, inl, inr,
  none, some, List, [], ◌∷◌, ◌++◌, length, drop, ◌==◌, length-append, length-drop, drop-append,
  Bool-cases,
}
use beansdb.Record.{DataRecord, Env, encode_record}
use beansdb.Record.RoundTrip.{IsFaithful}
use beansdb.Record.Stored.{IsLegal, length-encode_record_pages}
use beansdb.Bitcask.{Index, Flushing, Bitcask, file_bytes}
use beansdb.Bitcask.Flush.{bc_rotate, over_limit, take_buffer, flush_begin, append_file, flush_end}
use beansdb.Bitcask.Shape.{file, OnDisk, Disk, IsShaped, IsWithin}

-- The bytes of a record stand at a place of a buffer.
abbrev pub Holds : Env → List ℕ → ℕ → DataRecord → Type 0
Holds env buf place r = (rest : List ℕ) × (drop place buf ≡ encode_record env r ++ rest)

module _ {T : Type 0} where
  abbrev pub BeforeBuffer : Bitcask T → ℕ → ℕ → Type 0
  BeforeBuffer bc bucket place = bucket ≡ bc.curr → place < bc.wbuf_start

  pub data Stored (env : Env) (bc : Bitcask T) (bucket place : ℕ) (r : DataRecord) : Type 0 where
    in_wbuf :
        bucket ≡ bc.curr
        → bc.wbuf_start ≤ place
        → Holds env bc.wbuf (place - bc.wbuf_start) r
        → Stored env bc bucket place r
    in_fbuf :
        bucket ≤ bc.curr
        → (f : Flushing) → bc.flushing ≡ some f
        → f.bucket ≡ bucket
        → f.start ≤ place
        → BeforeBuffer bc bucket place
        → Holds env f.buf (place - f.start) r
        → Stored env bc bucket place r
    in_file :
        bucket ≤ bc.curr
        → BeforeBuffer bc bucket place
        → ((f : Flushing) → bc.flushing ≡ some f → f.bucket ≡ bucket → place < f.start)
        → Holds env (file bc bucket) place r
        → Stored env bc bucket place r

  pub Stored-bucket :
      (env : Env) (bc : Bitcask T) (bucket place : ℕ) (r : DataRecord)
      → Stored env bc bucket place r
      → bucket ≤ bc.curr
  Stored-bucket env bc bucket place r (in_wbuf same h holds) = omega (arith, same)
  Stored-bucket env bc bucket place r (in_fbuf le f e same h before holds) = le
  Stored-bucket env bc bucket place r (in_file le before first holds) = le

-- What is there stays when bytes are appended.
drop-append_within : (n : ℕ) (xs ys : List ℕ) → n ≤ length xs → drop n (xs ++ ys) ≡ drop n xs ++ ys
drop-append_within zero xs ys h = refl
drop-append_within (suc n) [] ys h = absurd (omega arith)
drop-append_within (suc n) (x ∷ xs) ys h = drop-append_within n xs ys (omega arith)

drop-append_past :
    (n : ℕ) (xs ys : List ℕ) → length xs ≤ n → drop n (xs ++ ys) ≡ drop (n - length xs) ys
drop-append_past n [] ys h = ap (λ (m : ℕ). drop m ys) (omega arith)
drop-append_past zero (x ∷ xs) ys h = absurd (omega arith)
drop-append_past (suc n) (x ∷ xs) ys h =
    drop-append_past n xs ys (omega arith) ∙ ap (λ (m : ℕ). drop m ys) (omega arith)

module _ (env : Env) (faith : IsFaithful env) (r : DataRecord) (l : IsLegal r) where
  -- A record ends within the buffer that holds it.
  pub Holds-room :
      (buf : List ℕ) (place : ℕ)
      → Holds env buf place r
      → place + length (encode_record env r) ≤ length buf
  Holds-room buf place (rest, e) = omega (
    arith,
    ap length e,
    length-drop place buf,
    length-append (encode_record env r) rest,
    (length-encode_record_pages env faith r l).0,
  )

  Holds-lt : (buf : List ℕ) (place : ℕ) → Holds env buf place r → place < length buf
  Holds-lt buf place h =
      omega (arith, Holds-room buf place h, (length-encode_record_pages env faith r l).0)

  pub Holds-append :
      (buf more : List ℕ) (place : ℕ) → Holds env buf place r → Holds env (buf ++ more) place r
  Holds-append buf more place (rest, e) = (
    rest ++ more,
    drop-append_within place buf more (omega (arith, Holds-lt buf place (rest, e)))
        ∙ ap (λ (xs : List ℕ). xs ++ more) e
        ∙ append_assoc (encode_record env r) rest more,
  )

  Holds-behind :
      (old buf : List ℕ) (place : ℕ)
      → length old ≤ place
      → Holds env buf (place - length old) r
      → Holds env (old ++ buf) place r
  Holds-behind old buf place h (rest, e) = (rest, drop-append_past place old buf h ∙ e)

  -- The record that was just appended.
  pub Holds-end : (buf : List ℕ) → Holds env (buf ++ encode_record env r) (length buf) r
  Holds-end buf =
      ([], drop-append buf (encode_record env r) ∙ sym (append-nil (encode_record env r)))

  module _ (idx : Index) (limit : ℕ) (bucket place : ℕ) where
    abbrev State : Type 0
    State = Bitcask idx.Tree

    abbrev Stands : State → Type 0
    Stands bc = Stored env bc bucket place r

    no_wrap :
        (bc : State)
        → IsWithin limit bc
        → IsShaped bc
        → limit + 2 ^ 28 < 2 ^ 32
        → (bc.wbuf_start + length bc.wbuf) % 2 ^ 32 ≡ bc.wbuf_start + length bc.wbuf
    no_wrap bc w s room = ground (arith, w, s.wbuf_fits, s.wbuf_small, room)

    take_buffer-Stored :
        (bc : State)
        → bc.flushing ≡ none
        → IsWithin limit bc
        → IsShaped bc
        → limit + 2 ^ 28 < 2 ^ 32
        → Stands bc
        → Stands (take_buffer idx limit bc)
    unfolding take_buffer
    take_buffer-Stored bc e w s room (in_wbuf same h holds) =
        in_fbuf (omega (arith, same)) _ refl (sym same) h
          (λ q. omega (arith, no_wrap bc w s room, Holds-lt bc.wbuf (place - bc.wbuf_start) holds))
          holds
    take_buffer-Stored bc e w s room (in_fbuf le f e' same h before holds) = cc
    take_buffer-Stored bc e w s room (in_file h before first holds) =
        in_file h (λ q. omega (arith, no_wrap bc w s room, before q))
          (λ f p q. ground (arith, p, q, before (sym (ground (arith, p, q))))) holds

    pub bc_rotate-Stored : (bc : State) → bc.wbuf ≡ [] → Stands bc → Stands (bc_rotate idx limit bc)
    unfolding bc_rotate
    bc_rotate-Stored bc e (in_wbuf same h holds) =
        absurd (omega (arith, ap length e, Holds-lt bc.wbuf (place - bc.wbuf_start) holds))
    bc_rotate-Stored bc e (in_fbuf le f e' same h before holds) =
        in_fbuf (omega arith) f e' same h (λ q. absurd (omega arith)) holds
    bc_rotate-Stored bc e (in_file h before first holds) =
        in_file (omega arith) (λ q. absurd (omega arith)) first holds

    pub flush_begin-Stored :
        (bc : State)
        → bc.flushing ≡ none
        → IsWithin limit bc
        → IsShaped bc
        → limit + 2 ^ 28 < 2 ^ 32
        → Stands bc
        → Stands (flush_begin idx limit bc)
    unfolding flush_begin
    flush_begin-Stored bc e w s room h =
        let h' = take_buffer-Stored bc e w s room h in
        elim (Bool-cases (over_limit idx limit (take_buffer idx limit bc))) [
          | inl over ↦
              rw over (bc_rotate-Stored (take_buffer idx limit bc) (unfold take_buffer in refl) h')
          | inr below ↦ rw below h'
        ]

    appended_file :
        (now : ℕ) (bc : State) (f : Flushing)
        → Holds env (file bc bucket) place r
        → Holds env (file (append_file idx limit now f bc) bucket) place r
    unfolding append_file file_bytes
    appended_file now bc f holds = elim (Bool-cases (bucket == f.bucket)) [
      | inl e ↦
          let here : bucket ≡ f.bucket = ground (arith, e) in
          rw e (
            Holds-append (file bc f.bucket) f.buf place
              (subst (λ (b : ℕ). Holds env (file bc b) place r) here holds))
      | inr e ↦ rw e holds
    ]

    pub append_file-Stored :
        (now : ℕ) (bc : State) (f : Flushing)
        → bc.flushing ≡ some f
        → Stands bc
        → Stands (append_file idx limit now f bc)
    unfolding append_file
    append_file-Stored now bc f e (in_wbuf same h holds) = in_wbuf same h holds
    append_file-Stored now bc f e (in_fbuf le g e' same h before holds) =
        let q : f ≡ g = cc in
        in_fbuf le (record f { written = true }) refl
          (omega (arith, ap (λ (x : Flushing). x.bucket) q, same))
          (omega (arith, ap (λ (x : Flushing). x.start) q, h)) before
          (subst (λ (x : Flushing). Holds env x.buf (place - x.start) r) (sym q) holds)
    append_file-Stored now bc f e (in_file h before first holds) =
        in_file h before (λ g p q. ground (arith, p, q, first f e)) (appended_file now bc f holds)

    pub flush_end-Stored :
        (bc : State) (f : Flushing)
        → bc.flushing ≡ some f
        → f.written ≡ true
        → IsShaped bc
        → Stands bc
        → Stands (flush_end idx limit bc)
    unfolding flush_end
    flush_end-Stored bc f e w s (in_wbuf same h holds) = in_wbuf same h holds
    flush_end-Stored bc f e w s (in_fbuf le g e' same h before holds) =
        let q : f ≡ g = cc in
        let d : Disk bc (some f) = subst (Disk bc) e s.disk in
        let on : OnDisk (file bc f.bucket) f true =
          subst (λ (b : Bool). OnDisk (file bc f.bucket) f b) w d.3 in
        let here : f.bucket ≡ bucket = ap (λ (x : Flushing). x.bucket) q ∙ same in
        let held : Holds env f.buf (place - length on.0) r =
          rw on.1 (subst (λ (x : Flushing). Holds env x.buf (place - x.start) r) (sym q) holds) in
        in_file le before (λ g' p q'. cc)
          (subst (λ (b : ℕ). Holds env (file bc b) place r) here
            (subst (λ (xs : List ℕ). Holds env xs place r) (sym on.2)
              (Holds-behind on.0 f.buf place
                (omega (arith, on.1, h, ap (λ (x : Flushing). x.start) q)) held)))
    flush_end-Stored bc f e w s (in_file h before first holds) =
        in_file h before (λ g p q. cc) holds
