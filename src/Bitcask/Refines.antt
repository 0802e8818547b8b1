-- ===== src/Bitcask/Refines.antt =====
-- A bitcask of src/bitcask.c shows a map of cells, which `bc_get` reads.
use beansdb.Base.{
  ℕ, ◌-◌, ◌%◌, ◌≡◌, refl, ◌∙◌, arith, Bool, true, ◌&&◌, not, inl, inr, Option, none, some, List,
  Bool-cases,
}
use beansdb.Record.{Env}
use beansdb.Record.RoundTrip.{IsFaithful}
use beansdb.Record.Stored.{IsLegal}
use beansdb.Bitcask.{Entry, Index, Bitcask, check_key, word_of, is_negative}
use beansdb.Bitcask.Access.{get_entry, bc_get}
use beansdb.Bitcask.Shape.{IsShaped}
use beansdb.Bitcask.Ready.{IsReady}
use beansdb.Bitcask.Stored.{Stored, Stored-bucket}
use beansdb.Bitcask.Reads.{c_string-check_key, read_entry-Stored}
use beansdb.Bitcask.Spec.{Cell, Cells, record_of, visible, answer, get}

module _ (idx : Index) (env : Env) (is_blank : ℕ → Bool) where
  -- The entry of a key and the record that it leads to make up its cell.
  pub record Backs (bc : Bitcask idx.Tree) (key : List ℕ) (e : Entry) (c : Cell) : Type 0 where
    pub same_ver : e.ver ≡ c.ver
    pub same_hash : e.hash ≡ c.hash
    pub version : ℕ
    pub legal : IsLegal (record_of key version c)
    pub stored : Stored env bc (e.place % 256) (e.place - e.place % 256) (record_of key version c)

  pub data Agrees (bc : Bitcask idx.Tree) (key : List ℕ) : Option Cell → Type 0 where
    absent : idx.ht_get key bc.tree ≡ none → Agrees bc key none
    present :
        (e : Entry) (c : Cell)
        → idx.ht_get key bc.tree ≡ some e
        → Backs bc key e c
        → Agrees bc key (some c)

  -- What the entries of the index and the buffers and files are together.
  pub record Shows (bc : Bitcask idx.Tree) (m : Cells) : Type 0 where
    pub shaped : IsShaped bc
    pub indexed : idx.IsOk bc.tree
    pub agrees :
        (key : List ℕ)
        → idx.takes key ≡ true
        → check_key is_blank key ≡ true
        → Agrees bc key (m key)

  -- The bitcask is between two calls, and shows the map.
  pub record Refines (limit : ℕ) (bc : Bitcask idx.Tree) (m : Cells) : Type 0 where
    pub ready : IsReady idx env limit bc
    pub shows : Shows bc m

  module _ (faith : IsFaithful env) (limit : ℕ) (zero_blank : is_blank 0 ≡ true) where
    get_entry-Backs :
        (bc : Bitcask idx.Tree) (key : List ℕ) (e : Entry) (c : Cell)
        → IsShaped bc
        → check_key is_blank key ≡ true
        → Backs bc key e c
        → get_entry idx env limit is_blank key e bc ≡ (some (record_of key (word_of c.ver) c), bc)
    unfolding get_entry
    get_entry-Backs bc key e c s k b =
        let r = record_of key b.version c in
        let found =
          read_entry-Stored idx env faith limit is_blank r b.legal bc (e.place % 256)
            (e.place - e.place % 256) s (c_string-check_key is_blank key zero_blank k) b.stored in
        ground (
          arith,
          found,
          Stored-bucket env bc (e.place % 256) (e.place - e.place % 256) r b.stored,
          b.same_ver,
        )

    bc_get-Agrees :
        (bc : Bitcask idx.Tree) (key : List ℕ) (return_deleted : Bool) (mc : Option Cell)
        → IsShaped bc
        → check_key is_blank key ≡ true
        → Agrees bc key mc
        → bc_get idx env limit is_blank key return_deleted bc
          ≡ (answer key (visible return_deleted mc), bc)
    unfolding bc_get visible get_entry
    bc_get-Agrees bc key return_deleted none s k (absent e) = rw (k, e) refl
    bc_get-Agrees bc key return_deleted (some c) s k (present e c' q b) =
        elim (Bool-cases (not return_deleted && is_negative c.ver)) [
          | inl h ↦ rw (k, q, b.same_ver, h) refl
          | inr h ↦ rw (k, q, b.same_ver, h) (get_entry-Backs bc key e c s k b)
        ]

    -- `bc_get` returns what the map holds for the key, and changes nothing.
    pub bc_get-eq-get :
        (bc : Bitcask idx.Tree) (m : Cells) (key : List ℕ) (return_deleted : Bool)
        → Shows bc m
        → idx.takes key ≡ true
        → bc_get idx env limit is_blank key return_deleted bc
          ≡ (get is_blank key return_deleted m, bc)
    unfolding get
    bc_get-eq-get bc m key return_deleted sh t = elim (Bool-cases (check_key is_blank key)) [
      | inl k ↦
          bc_get-Agrees bc key return_deleted (m key) sh.shaped k (sh.agrees key t k) ∙ rw k refl
      | inr k ↦ unfold bc_get in rw k refl
    ]
