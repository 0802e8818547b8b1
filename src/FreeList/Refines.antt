-- ===== src/FreeList/Refines.antt =====
-- The array of the free list of src/item.c with its cursor is a stack of buffers.
use mathlib.Core.Path.{subst}
use beansdb.Base.{
  not, ◌&&◌, ℕ, zero, suc, ◌+◌, ◌-◌, ◌*◌, ◌≤◌, ◌≡◌, refl, ap, ◌∙◌, arith, Bool, true, false, Option,
  none, some, List, [], ◌∷◌, length, ltb, leb, inl, inr, if◌then◌else◌, Bool-cases,
}
use beansdb.Bitcask.{update}
use beansdb.FreeList.{
  FreeList, max_item_freelist_length, init_item_freelist_length, item_init, store_item,
  do_item_from_freelist, do_item_add_to_freelist,
}

-- A stack of buffers, the last one first, with the room that it has.
pub record Stack : Type 0 where
  pub items : List ℕ
  pub room : ℕ

abbrev pub empty : Stack
empty = record { items = []; room = init_item_freelist_length }

unfoldable pub pop : Stack → Option ℕ × Stack
pop s = elim s.items [ [] ↦ (none, s) | it ∷ items ↦ (some it, record s { items = items }) ]

-- A full stack gets twice the room where there is memory, up to its limit.
unfoldable pub push : Bool → ℕ → Stack → Bool × Stack
push enlarges it s =
    if ltb (length s.items) s.room
    then (true, record s { items = it ∷ s.items })
    else if not (leb max_item_freelist_length s.room) && enlarges
    then (true, record { items = it ∷ s.items; room = s.room * 2 })
    else (false, s)

pub data Call : Type 0 where
  take_item : Call
  return_item : Bool → ℕ → Call

pub data Reply : Type 0 where
  took : Option ℕ → Reply
  kept : Bool → Reply

-- The replies to calls, the first call first.
unfoldable pub replies : List Call → FreeList → List Reply
replies [] l = []
replies (take_item ∷ calls) l = let (it, l') = do_item_from_freelist l in took it ∷ replies calls l'
replies (return_item enlarges it ∷ calls) l =
    let (ok, l') = do_item_add_to_freelist enlarges it l in kept ok ∷ replies calls l'

unfoldable pub stack_replies : List Call → Stack → List Reply
stack_replies [] s = []
stack_replies (take_item ∷ calls) s = let (it, s') = pop s in took it ∷ stack_replies calls s'
stack_replies (return_item enlarges it ∷ calls) s =
    let (ok, s') = push enlarges it s in kept ok ∷ stack_replies calls s'

-- The places of an array below a cursor, from the cursor down.
unfoldable held : (ℕ → ℕ) → ℕ → List ℕ
held f zero = []
held f (suc n) = f n ∷ held f n

abbrev stack_of : FreeList → Stack
stack_of l = record { items = held l.freeitem l.curr; room = l.total }

length-held : (f : ℕ → ℕ) (n : ℕ) → length (held f n) ≡ n
unfolding held
length-held f zero = refl
length-held f (suc n) = ap suc (length-held f n)

-- What is written at the cursor or above leaves the places below it.
held-update : (f : ℕ → ℕ) (i n it : ℕ) → n ≤ i → held (update f i it) n ≡ held f n
unfolding held
held-update f i zero it h = refl
held-update f i (suc n) it h = rw (held-update f i n it (omega (arith, h))) (ground (arith, h))

held-store : (f : ℕ → ℕ) (n it : ℕ) → held (update f n it) (n + 1) ≡ it ∷ held f n
unfolding held
held-store f n it =
    subst (λ (k : ℕ). held (update f n it) k ≡ it ∷ held f n) {x = suc n} (omega arith)
      (above f n it)
  where
    above : (f : ℕ → ℕ) (n it : ℕ) → held (update f n it) (suc n) ≡ it ∷ held f n
    above f n it = rw (held-update f n n it (omega arith)) (ground arith)

stack_of-store_item :
    (it : ℕ) (l : FreeList)
    → stack_of (store_item it l) ≡ record { items = it ∷ held l.freeitem l.curr; room = l.total }
unfolding store_item
stack_of-store_item it l =
    ap (λ (items : List ℕ). record { items = items; room = l.total })
      (held-store l.freeitem l.curr it)

do_item_from_freelist-pop :
    (l : FreeList)
    → ((do_item_from_freelist l).0, stack_of (do_item_from_freelist l).1) ≡ pop (stack_of l)
unfolding do_item_from_freelist pop held
do_item_from_freelist-pop l = taken l.curr refl
  where
    positive : (n : ℕ) → ltb 0 (suc n) ≡ true
    positive n = ground arith

    less : (n : ℕ) → suc n - 1 ≡ n
    less n = omega arith

    taken :
        (curr : ℕ)
        → l.curr ≡ curr
        → ((do_item_from_freelist l).0, stack_of (do_item_from_freelist l).1) ≡ pop (stack_of l)
    taken zero e = rw e refl
    taken (suc n) e = rw (e, positive n, less n) refl

do_item_add_to_freelist-push :
    (enlarges : Bool) (it : ℕ) (l : FreeList)
    → (
      (do_item_add_to_freelist enlarges it l).0,
      stack_of (do_item_add_to_freelist enlarges it l).1,
    )
      ≡ push enlarges it (stack_of l)
unfolding do_item_add_to_freelist push
do_item_add_to_freelist-push enlarges it l =
    rw (length-held l.freeitem l.curr) (elim (Bool-cases (ltb l.curr l.total)) [
      | inl e ↦ rw e (ap (λ (s : Stack). (true, s)) (stack_of-store_item it l))
      | inr e ↦ elim (Bool-cases (leb max_item_freelist_length l.total)) [
        | inl full ↦ rw (e, full) refl
        | inr more ↦ elim (Bool-cases enlarges) [
          | inl larger ↦
              rw (e, more, larger)
                (ap (λ (s : Stack). (true, s))
                  (stack_of-store_item it (record l { total = l.total * 2 })))
          | inr denied ↦ rw (e, more, denied) refl
        ]
      ]
    ])

replies-stack_of :
    (calls : List Call) (l : FreeList) → replies calls l ≡ stack_replies calls (stack_of l)
unfolding replies stack_replies
replies-stack_of [] l = refl
replies-stack_of (take_item ∷ calls) l =
    ap (λ (rs : List Reply). took (do_item_from_freelist l).0 ∷ rs)
      (replies-stack_of calls (do_item_from_freelist l).1)
    ∙ ap (λ (x : Option ℕ × Stack). took x.0 ∷ stack_replies calls x.1)
        (do_item_from_freelist-pop l)
replies-stack_of (return_item enlarges it ∷ calls) l =
    ap (λ (rs : List Reply). kept (do_item_add_to_freelist enlarges it l).0 ∷ rs)
      (replies-stack_of calls (do_item_add_to_freelist enlarges it l).1)
    ∙ ap (λ (x : Bool × Stack). kept x.0 ∷ stack_replies calls x.1)
        (do_item_add_to_freelist-push enlarges it l)

-- From item_init on, whatever the new array holds, any sequence of do_item_from_freelist and
-- do_item_add_to_freelist gets the replies that a stack gives: the array with its cursor takes the
-- buffers out in the reverse order, refuses one only at its limit or without memory, and keeps all
-- through an enlargement.
pub replies-item_init :
    (calls : List Call) (freeitem : ℕ → ℕ)
    → replies calls (item_init freeitem) ≡ stack_replies calls empty
unfolding item_init held
replies-item_init calls freeitem = replies-stack_of calls (item_init freeitem)
