-- ===== src/Codec/Encode.antt =====
-- `dc_encode` of src/codec.c keeps the codec in order, and says which number a format got.
use mathlib.Core.List.{append-nil}
use beansdb.Base.{
  ℕ, zero, suc, ◌+◌, ◌*◌, ◌≤◌, ◌<◌, ◌≡◌, ◌≢◌, refl, sym, ap, ◌∙◌, arith, min, Bool, true, false,
  ◌⊎◌, ◌&&◌, inl, inr, some, List, [], ◌∷◌, ◌++◌, length, get_elem?, length-append, ltb, ◌==◌,
  if◌then◌else◌, Bool-cases, All, All-append,
}
use beansdb.Base.Int.{ℤ, pos, negsuc}
use beansdb.Bitcask.{update}
use beansdb.Codec.{
  Fmt, Codec, max_dict_size, default_dict_size, rdict_size_for, dict_used, is_other, find_slot,
  dc_enlarge, dc_rebuild, dc_new,
}
use beansdb.Codec.Keys.{add_format, encode_by, dc_encode_key_with_fmt}
use beansdb.Codec.Table.{
  get_elem?-append_at, IsTable, IsTable-IsDistinct, find_slot-stops, found-format, pos-injective,
}
use beansdb.Codec.Insert.{with_new-IsTable, skip-IsTable}
use beansdb.Codec.Rebuild.{empty-IsTable, dc_rebuild-IsTable, dc_rebuild-IsFresh}

abbrev pub percents : List ℕ → ℕ
percents [] = 0
percents (c ∷ cs) = (if c == 37 then 1 else 0) + percents cs

abbrev pub IsChar : ℕ → Type 0
IsChar c = (0 < c) × (c < 256)

-- A format of the dictionary.
pub record IsFmt (f : Fmt) : Type 0 where
  pub has_args : 0 < f.nargs
  pub few_args : f.nargs ≤ 2
  pub counted : percents f.fmt ≡ f.nargs
  pub short : length f.fmt < 100
  pub chars : All IsChar f.fmt

pub record IsCodec (dc : Codec) : Type 0 where
  pub table : IsTable dc.rdict_size dc.rdict dc.dict
  pub sizes : dc.rdict_size ≡ rdict_size_for dc.dict_size
  pub bounded : dc.dict_size ≤ max_dict_size
  pub space :
      (dict_used dc < dc.dict_size)
      ⊎ ((dict_used dc ≡ dc.dict_size) × (dc.dict_size ≡ max_dict_size))
  pub skips : (h k : ℕ) → dc.rdict h ≡ negsuc k → dict_used dc ≡ max_dict_size
  pub formats : All IsFmt dc.dict

pub dc_new-IsCodec : IsCodec dc_new
unfolding dc_new
dc_new-IsCodec = record {
  table = empty-IsTable (rdict_size_for default_dict_size) (omega arith);
  sizes = refl;
  bounded = omega arith;
  space = inl (omega arith);
  skips = λ h k e. cc;
  formats = tt;
}

dc_rebuild_sizes :
    (dc : Codec)
    → ((dc_rebuild dc).dict ≡ dc.dict)
      × ((dc_rebuild dc).dict_size ≡ dc.dict_size)
      × ((dc_rebuild dc).rdict_size ≡ rdict_size_for dc.dict_size)
unfolding dc_rebuild
dc_rebuild_sizes dc = (refl, refl, refl)

abbrev pub doubled : Codec → Codec
doubled dc = record dc { dict_size = min (dc.dict_size * 2) max_dict_size }

-- A dictionary that has become full below the limit is enlarged in time.
dc_enlarge-IsCodec :
    (dc : Codec)
    → IsTable dc.rdict_size dc.rdict dc.dict
    → dict_used dc ≡ dc.dict_size
    → dc.dict_size < max_dict_size
    → All IsFmt dc.dict
    → IsCodec (dc_enlarge dc)
unfolding dc_enlarge dc_rebuild
dc_enlarge-IsCodec dc t full small fs = record {
  table =
      dc_rebuild-IsTable (doubled dc) (IsTable-IsDistinct dc.rdict_size dc.rdict dc.dict t)
        (omega (arith, full));
  sizes = refl;
  bounded = omega arith;
  space = inl (omega (arith, full, small));
  skips = λ h k e. absurd (dc_rebuild-IsFresh (doubled dc) h k e);
  formats = fs;
}

abbrev pub Extends : List Fmt → List Fmt → Type 0
Extends dict dict' = (more : List Fmt) × (dict' ≡ dict ++ more)

-- The code of a key by its format, at the number that the format has.
abbrev pub Codes : List Fmt → List ℕ → List ℕ → List ℕ → Type 0
Codes dict fmt args code =
    (i : ℕ) × (f : Fmt) × (get_elem? dict i ≡ some f)
    × (f.fmt ≡ fmt)
    × (code ≡ dc_encode_key_with_fmt (suc i) args)

abbrev pub IsIn : List ℕ → List Fmt → Type 0
IsIn fmt dict = (i : ℕ) × (f : Fmt) × (get_elem? dict i ≡ some f) × (f.fmt ≡ fmt)

-- What an encoding by a format comes to.
pub record Encoded (src fmt args : List ℕ) (dc : Codec) (code : List ℕ) (dc' : Codec) : Type 0 where
  pub codec : IsCodec dc'
  pub extends : Extends dc.dict dc'.dict
  pub result :
      Codes dc'.dict fmt args code
      ⊎ ((code ≡ src) × (dict_used dc' ≡ max_dict_size) × (IsIn fmt dc'.dict → ⊥))

module _ (src fmt args : List ℕ) (dc : Codec) (c : IsCodec dc)
    (ok : IsFmt (record { nargs = length args; fmt = fmt })) where
  abbrev slot : ℕ
  slot = find_slot dc.rdict_size dc.rdict dc.dict fmt

  abbrev Comes : List ℕ × Codec → Type 0
  Comes (code, dc') = Encoded src fmt args dc code dc'

  -- A format that is in the dictionary has its slot.
  absent : ((i : ℕ) → dc.rdict slot ≢ pos (suc i)) → IsIn fmt dc.dict → ⊥
  absent none_there (i, f, e, q) = none_there i (
      ap (λ (x : List ℕ). dc.rdict (find_slot dc.rdict_size dc.rdict dc.dict x)) (sym q)
      ∙ c.table.found i f e)

  encode_taken :
      (i : ℕ) → dc.rdict slot ≡ pos (suc i) → Comes (dc_encode_key_with_fmt (suc i) args, dc)
  encode_taken i e =
      let (f, at_i, q) =
        found-format dc.rdict_size dc.rdict dc.dict c.table fmt i
          (ap (is_other dc.dict fmt) (sym e)
            ∙ find_slot-stops dc.rdict_size dc.rdict dc.dict c.table fmt)
          (c.table.valid slot i e) in
      record {
        codec = c;
        extends = ([], sym (append-nil dc.dict));
        result = inl (i, f, at_i, q, refl);
      }

  encode_skipped : (k : ℕ) → dc.rdict slot ≡ negsuc k → Comes (src, dc)
  encode_skipped k e = record {
    codec = c;
    extends = ([], sym (append-nil dc.dict));
    result = inr (refl, c.skips slot k e, absent (λ i q. pos_negsuc i k (sym q ∙ e)));
  }
    where
      pos_negsuc : (i k : ℕ) → pos (suc i) ≢ negsuc k
      pos_negsuc i k e = cc

  -- The dictionary is full: the format is never taken.
  encode_full :
      dc.rdict slot ≡ pos 0
      → ltb (dict_used dc) dc.dict_size ≡ false
      → Comes (src, record dc { rdict = update dc.rdict slot (negsuc 0) })
  encode_full e h = record {
    codec = record {
      table = skip-IsTable dc.rdict_size dc.rdict dc.dict c.table slot e;
      sizes = c.sizes;
      bounded = c.bounded;
      space = c.space;
      skips = λ s k q. ground (arith, h, c.space);
      formats = c.formats;
    };
    extends = ([], sym (append-nil dc.dict));
    result = inr (refl, ground (arith, h, c.space), absent (λ i q. zero_taken i (sym e ∙ q)));
  }
    where
      zero_taken : (i : ℕ) → pos 0 ≢ pos (suc i)
      zero_taken i q = omega (arith, pos-injective 0 (suc i) q)

  abbrev new_fmt : Fmt
  new_fmt = record { nargs = length args; fmt = fmt }

  abbrev with_format : Codec
  with_format = record dc {
    dict = dc.dict ++ (new_fmt ∷ []);
    rdict = update dc.rdict slot (pos (dict_used dc));
  }

  module _ (e : dc.rdict slot ≡ pos 0) (h : dict_used dc < dc.dict_size) where
    with_format-IsTable : IsTable dc.rdict_size with_format.rdict with_format.dict
    with_format-IsTable =
        with_new-IsTable dc.rdict_size dc.rdict dc.dict c.table new_fmt e
          (omega (arith, c.sizes, h))

    with_format-All : All IsFmt with_format.dict
    with_format-All = All-append IsFmt dc.dict (new_fmt ∷ []) c.formats (ok, tt)

    used : dict_used with_format ≡ suc (dict_used dc)
    used = omega (arith, length-append dc.dict (new_fmt ∷ []))

    with_format-IsCodec :
        (dict_used with_format == dc.dict_size && ltb dc.dict_size max_dict_size) ≡ false
        → IsCodec with_format
    with_format-IsCodec q = record {
      table = with_format-IsTable;
      sizes = c.sizes;
      bounded = c.bounded;
      space = ground (arith, q, h, used, c.bounded);
      skips = λ s k v.
          absurd
            (omega (arith, h, c.bounded, c.skips s k (if_skipped (s == slot) (dc.rdict s) k v)));
      formats = with_format-All;
    }
      where
        if_skipped :
            (b : Bool) (v : ℤ) (k : ℕ)
            → (if b then pos (dict_used dc) else v) ≡ negsuc k
            → v ≡ negsuc k
        if_skipped true v k p = cc
        if_skipped false v k p = p

    new-Codes : Codes with_format.dict fmt args (dc_encode_key_with_fmt (dict_used dc) args)
    new-Codes = (length dc.dict, new_fmt, get_elem?-append_at dc.dict new_fmt [], refl, refl)

  encode_new : dc.rdict slot ≡ pos 0 → Comes (add_format src fmt args slot dc)
  unfolding add_format dc_enlarge dc_rebuild
  encode_new e = elim (Bool-cases (ltb (dict_used dc) dc.dict_size)) [
    | inr full ↦ rw full (encode_full e full)
    | inl room ↦
        let h : dict_used dc < dc.dict_size = ground (arith, room) in
        elim (Bool-cases
          (dict_used with_format == dc.dict_size && ltb dc.dict_size max_dict_size)) [
            | inr q ↦
                rw (room, q)
                  (record {
                    codec = with_format-IsCodec e h q;
                    extends = (new_fmt ∷ [], refl);
                    result = inl (new-Codes e h);
                  })
            | inl q ↦
                rw (room, q)
                  (record {
                    codec =
                        dc_enlarge-IsCodec with_format (with_format-IsTable e h) (ground (arith, q))
                          (ground (arith, q)) (with_format-All e h);
                    extends = (new_fmt ∷ [], refl);
                    result = inl (new-Codes e h);
                  })
          ]
  ]

  pub encode_by-Encoded : (v : ℤ) → dc.rdict slot ≡ v → Comes (encode_by src fmt args slot v dc)
  unfolding encode_by
  encode_by-Encoded (pos zero) e = encode_new e
  encode_by-Encoded (pos (suc i)) e = encode_taken i e
  encode_by-Encoded (negsuc k) e = encode_skipped k e
