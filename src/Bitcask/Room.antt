-- ===== src/Bitcask/Room.antt =====
-- `make_room` of src/bitcask.c succeeds, and the record fits after it.
use native.Mathlib.Nat.{pow-suc}
use beansdb.Base.{
  ℕ, zero, suc, ◌+◌, ◌*◌, ◌%◌, ◌^◌, ◌≤◌, ◌<◌, ◌≡◌, refl, ap, ◌∙◌, arith, Bool, false, ◌⊎◌, inl, inr,
  none, some, List, [], ◌∷◌, length, ltb, if◌then◌else◌, Bool-cases,
}
use beansdb.Record.{Env}
use beansdb.Record.RoundTrip.{IsFaithful}
use beansdb.Bitcask.{Index, Bitcask, max_bucket_count}
use beansdb.Bitcask.Flush.{bc_rotate, over_limit, must_flush, bc_flush}
use beansdb.Bitcask.Ready.{IsReady, Keeps, Comes, bc_flush-Comes}
use beansdb.Bitcask.Access.{grow, make_room}
use beansdb.Bitcask.Shape.{IsShaped, over_limit-IsWithin, bc_rotate-IsShaped}
use beansdb.Bitcask.Stored.{in_wbuf, in_fbuf, in_file, bc_rotate-Stored}

length-nil : (xs : List ℕ) → length xs ≡ 0 → xs ≡ []
length-nil [] h = refl
length-nil (x ∷ xs) h = absurd (omega arith)

double_pow : (size k : ℕ) → size * 2 ^ suc k ≡ size * 2 * 2 ^ k
double_pow size k = omega (arith, ap (λ (t : ℕ). size * t) (pow-suc 2 k))

-- The loop that enlarges the write buffer ends: from a size above zero and up to 2 ^ 28, with
-- rounds enough to double it to the length of a record of at most 2 ^ 27 bytes, it gives a size
-- that holds the record, is at least the old one and does not pass 2 ^ 28.
pub grow-bounds :
    (fuel rlen size : ℕ)
    → 0 < size
    → size ≤ 2 ^ 28
    → rlen ≤ 2 ^ 27
    → rlen ≤ size * 2 ^ fuel
    → (rlen ≤ grow fuel rlen size) × (grow fuel rlen size ≤ 2 ^ 28) × (size ≤ grow fuel rlen size)
unfolding grow
grow-bounds zero rlen size h a b c = (omega arith, a, omega arith)
grow-bounds (suc fuel) rlen size h a b c = elim (Bool-cases (ltb size rlen)) [
  | inl e ↦
      let small : size < rlen = ground (arith, e) in
      let w : size * 2 % 2 ^ 32 ≡ size * 2 = omega arith in
      let more =
        grow-bounds fuel rlen (size * 2) (omega arith) (omega arith) b
          (omega (arith, double_pow size fuel, c)) in
      rw (e, w) (more.0, more.1, omega (arith, more.2))
  | inr e ↦ rw e (ground (arith, e), a, omega arith)
]

module _ (idx : Index) (env : Env) (faith : IsFaithful env) (limit : ℕ)
    (room : limit + 2 ^ 28 < 2 ^ 32) where
  abbrev State : Type 0
  State = Bitcask idx.Tree

  abbrev enlarged : ℕ → State → State
  enlarged rlen bc = record bc { wbuf_size = grow 32 rlen bc.wbuf_size }

  abbrev started : State → State
  started bc = if over_limit idx limit bc then bc_rotate idx limit bc else bc

  enlarged-IsShaped :
      (rlen : ℕ) (bc : State)
      → bc.wbuf ≡ []
      → rlen ≤ 2 ^ 27
      → IsShaped bc
      → IsShaped (enlarged rlen bc) × (rlen ≤ grow 32 rlen bc.wbuf_size)
  enlarged-IsShaped rlen bc e h s =
      let g =
        grow-bounds 32 rlen bc.wbuf_size s.wbuf_some s.wbuf_small h (omega (arith, s.wbuf_some)) in
      (
        record {
          start_pages = s.start_pages;
          wbuf_pages = s.wbuf_pages;
          wbuf_fits = omega (arith, s.wbuf_fits, g.2);
          wbuf_small = g.1;
          wbuf_some = omega (arith, s.wbuf_some, g.2);
          wbuf_bytes = s.wbuf_bytes;
          files_bytes = s.files_bytes;
          table = s.table;
          disk = s.disk;
        },
        g.0,
      )

  enlarged-Stored : (rlen : ℕ) (bc : State) → Keeps idx env limit bc (enlarged rlen bc)
  enlarged-Stored rlen bc r l bucket place (in_wbuf same h holds) = in_wbuf same h holds
  enlarged-Stored rlen bc r l bucket place (in_fbuf le f e same h before holds) =
      in_fbuf le f e same h before holds
  enlarged-Stored rlen bc r l bucket place (in_file h before first holds) =
      in_file h before first holds

  started-Comes :
      (bc : State)
      → bc.wbuf ≡ []
      → bc.flushing ≡ none
      → (bc.wbuf_start ≤ limit) ⊎ (bc.wbuf_start ≤ 2 ^ 28)
      → IsShaped bc
      → Comes idx env limit 1 bc (started bc)
        × ((started bc).wbuf ≡ [])
        × ((started bc).wbuf_size ≡ bc.wbuf_size)
  started-Comes bc e idle near s = elim (Bool-cases (over_limit idx limit bc)) [
    | inl over ↦ rw over (
      record {
        ready = record {
          idle = unfold bc_rotate in idle;
          within = inl (unfold bc_rotate in refl);
          shaped = bc_rotate-IsShaped idx limit room bc (λ f h. cc) s;
        };
        moves = record {
          same_tree = unfold bc_rotate in refl;
          near = unfold bc_rotate in omega arith;
          keeps = λ r l bucket place. bc_rotate-Stored env faith r l idx limit bucket place bc e;
        };
      },
      unfold bc_rotate in e,
      unfold bc_rotate in refl,
    )
    | inr below ↦ rw below (
      record {
        ready = record {
          idle = idle;
          within = over_limit-IsWithin idx limit room bc near s.wbuf_small below;
          shaped = s;
        };
        moves = record { same_tree = refl; near = omega arith; keeps = λ r l bucket place x. x };
      },
      e,
      refl,
    )
  ]

  module _ (is_blank : ℕ → Bool) (now rlen : ℕ) (bc : State) (p : IsReady idx env limit bc)
      (h : bc.curr < max_bucket_count) (short : rlen ≤ 2 ^ 27) where
    idle_empty : must_flush idx limit 0 0 now bc ≡ false → bc.wbuf ≡ []
    unfolding must_flush
    idle_empty q = length-nil bc.wbuf (ground (arith, q))

    -- A flush with no limit leaves nothing in the buffer.
    flush_all :
        (bc' : State) × (bc_flush idx limit 0 0 now bc ≡ some bc')
        × Comes idx env limit 1 bc bc'
        × (bc'.wbuf ≡ [])
    flush_all =
        let (bc', e, c, w) = bc_flush-Comes idx env faith limit room 0 0 now bc p h in
        elim w [
          | inl w ↦ (bc', e, c, w)
          | inr (idle, same) ↦ (bc', e, c, ap (λ (x : State). x.wbuf) same ∙ idle_empty idle)
        ]

    room_made : State → State
    room_made bc' = started (enlarged rlen bc')

    room_made-Comes :
        (bc' : State)
        → Comes idx env limit 1 bc bc'
        → bc'.wbuf ≡ []
        → Comes idx env limit 2 bc (room_made bc')
          × (length (room_made bc').wbuf + rlen ≤ (room_made bc').wbuf_size)
    unfolding room_made
    room_made-Comes bc' c w =
        let g = enlarged-IsShaped rlen bc' w short c.ready.shaped in
        let t =
          started-Comes (enlarged rlen bc') w c.ready.idle (ground (arith, c.ready.within)) g.0 in
        (
          record {
            ready = t.0.ready;
            moves = record {
              same_tree = t.0.moves.same_tree ∙ c.moves.same_tree;
              near = omega (arith, c.moves.near, t.0.moves.near);
              keeps = λ r l bucket place x.
                  t.0.moves.keeps r l bucket place
                    (enlarged-Stored rlen bc' r l bucket place (c.moves.keeps r l bucket place x));
            };
          },
          omega (arith, t.2, g.1, ap length t.1),
        )

    -- `make_room` does not exit, and the record fits after it.
    pub make_room-Comes :
        (bc' : State) × (make_room idx env limit is_blank now rlen bc ≡ some bc')
        × Comes idx env limit 2 bc bc'
        × (length bc'.wbuf + rlen ≤ bc'.wbuf_size)
    unfolding make_room
    make_room-Comes = elim (Bool-cases (ltb bc.wbuf_size ((length bc.wbuf + rlen) % 2 ^ 32))) [
      | inl e ↦
          let (bc', q, c, w) = flush_all in
          let m = room_made-Comes bc' c w in
          (room_made bc', rw (e, q) (unfold room_made in refl), m.0, m.1)
      | inr e ↦ (
        bc,
        rw e refl,
        record {
          ready = p;
          moves = record { same_tree = refl; near = omega arith; keeps = λ r l bucket place x. x };
        },
        ground (arith, e, p.shaped.wbuf_fits, p.shaped.wbuf_small, short),
      )
    ]
