-- ===== src/HTree/Blocks.antt =====
-- The chain of blocks of a leaf, seen through the first item with a key and the number of items
-- with it.
use mathlib.Core.Path.{ap₂}
use mathlib.Core.Option.{or_else}
use beansdb.Base.{
  ℕ, ◌+◌, ◌≡◌, ◌≢◌, ◌↔◌, refl, arith, Bool, true, false, none, some, List, [], ◌∷◌, ◌++◌,
  if◌then◌else◌,
}
use beansdb.HTree.{
  Item, Data, same_key, find_item, find_data, replace_item, replace_data, append_data, extend_data,
  put_item, items_of,
}

same_key-eq : (a b : List ℕ) → same_key a b ≡ true → a ≡ b
unfolding same_key
same_key-eq [] [] h = refl
same_key-eq [] (y ∷ ys) h = cc
same_key-eq (x ∷ xs) [] h = cc
same_key-eq (x ∷ xs) (y ∷ ys) h = ap₂ ◌∷◌ (ground arith) (same_key-eq xs ys (ground arith))

pub same_key_refl : (a : List ℕ) → same_key a a ≡ true
unfolding same_key
same_key_refl [] = refl
same_key_refl (x ∷ xs) = ground (arith, same_key_refl xs)

pub same_key_iff : (a b : List ℕ) → (same_key a b ≡ true) ↔ (a ≡ b)
same_key_iff a b = (same_key-eq a b, λ e. rw e (same_key_refl b))

abbrev pub one_if : Bool → ℕ
one_if true = 1
one_if false = 0

-- How many items have a key.
unfoldable pub occurs : List ℕ → List Item → ℕ
occurs k [] = 0
occurs k (p ∷ ps) = one_if (same_key k p.key) + occurs k ps

pub occurs-append :
    (k : List ℕ) (ps qs : List Item) → occurs k (ps ++ qs) ≡ occurs k ps + occurs k qs
unfolding occurs
occurs-append k [] qs = omega arith
occurs-append k (p ∷ ps) qs = omega (arith, occurs-append k ps qs)

pub find_item-append :
    (k : List ℕ) (ps qs : List Item)
    → find_item k (ps ++ qs) ≡ or_else (find_item k ps) (find_item k qs)
unfolding find_item or_else
find_item-append k [] qs = refl
find_item-append k (p ∷ ps) qs = rw (find_item-append k ps qs) (ground arith)

pub find_item-eq-none : (k : List ℕ) (ps : List Item) → occurs k ps ≡ 0 → find_item k ps ≡ none
unfolding occurs find_item
find_item-eq-none k [] h = refl
find_item-eq-none k (p ∷ ps) h = ground (arith, find_item-eq-none k ps)

pub occurs-eq-zero : (k : List ℕ) (ps : List Item) → find_item k ps ≡ none → occurs k ps ≡ 0
unfolding occurs find_item
occurs-eq-zero k [] h = refl
occurs-eq-zero k (p ∷ ps) h = ground (arith, occurs-eq-zero k ps)

-- The search through the chain is the search through all of its items.
pub find_data-eq-find_item :
    (k : List ℕ) (ds : List Data) → find_data k ds ≡ find_item k (items_of ds)
unfolding find_data items_of find_item or_else
find_data-eq-find_item k [] = refl
find_data-eq-find_item k (d ∷ ds) =
    rw (find_item-append k d.items (items_of ds), ← find_data-eq-find_item k ds) (ground arith)

module _ (k : List ℕ) (it : Item) where
  find_item-replace_item :
      (ps : List Item) (old : Item)
      → find_item it.key ps ≡ some old
      → find_item k (replace_item it ps) ≡ (if same_key k it.key then some it else find_item k ps)
  unfolding find_item replace_item
  find_item-replace_item [] old h = cc
  find_item-replace_item (p ∷ ps) old h = ground (
    arith,
    find_item-replace_item ps old,
    same_key_iff k it.key,
    same_key_iff k p.key,
    same_key_iff it.key p.key,
  )

  occurs-replace_item : (ps : List Item) → occurs k (replace_item it ps) ≡ occurs k ps
  unfolding occurs replace_item
  occurs-replace_item [] = refl
  occurs-replace_item (p ∷ ps) = ground (
    arith,
    occurs-replace_item ps,
    same_key_iff k it.key,
    same_key_iff k p.key,
    same_key_iff it.key p.key,
  )

  -- The item of the chain with the key of `it` is replaced by `it`.
  pub find_data-replace_data :
      (ds : List Data) (old : Item)
      → find_data it.key ds ≡ some old
      → find_data k (replace_data it ds) ≡ (if same_key k it.key then some it else find_data k ds)
  unfolding find_data replace_data
  find_data-replace_data [] old h = cc
  find_data-replace_data (d ∷ ds) old h = ground (
    arith,
    find_data-replace_data ds old,
    find_item-replace_item d.items old,
    same_key_iff k it.key,
  )

  pub occurs-replace_data :
      (ds : List Data) → occurs k (items_of (replace_data it ds)) ≡ occurs k (items_of ds)
  unfolding items_of replace_data
  occurs-replace_data [] = refl
  occurs-replace_data (d ∷ ds) = ground (
    arith,
    occurs-append k d.items (items_of (replace_data it ds)),
    occurs-append k d.items (items_of ds),
    occurs-append k (replace_item it d.items) (items_of ds),
    occurs-replace_data ds,
    occurs-replace_item d.items,
  )

  -- A new item comes into the chain once, wherever there is room for it.
  pub occurs-append_data :
      (block_size : ℕ) (ds : List Data)
      → ds ≢ []
      → occurs k (items_of (append_data block_size it ds))
        ≡ occurs k (items_of ds) + one_if (same_key k it.key)
  unfolding items_of append_data extend_data put_item occurs
  occurs-append_data block_size [] h = absurd (h refl)
  occurs-append_data block_size (d ∷ []) h = ground (
    arith,
    occurs-append k d.items (it ∷ []),
    occurs-append k d.items [],
    occurs-append k (d.items ++ it ∷ []) [],
  )
  occurs-append_data block_size (d ∷ e ∷ ds) h = ground (
    arith,
    occurs-append k d.items (items_of (append_data block_size it (e ∷ ds))),
    occurs-append k d.items (items_of (e ∷ ds)),
    occurs-append k (d.items ++ it ∷ []) (items_of (e ∷ ds)),
    occurs-append k d.items (it ∷ []),
    occurs-append_data block_size (e ∷ ds) (λ p. cc),
  )

  pub find_data-append_data :
      (block_size : ℕ) (ds : List Data)
      → ds ≢ []
      → find_data it.key ds ≡ none
      → find_data k (append_data block_size it ds)
        ≡ (if same_key k it.key then some it else find_data k ds)
  unfolding find_data append_data extend_data put_item find_item or_else
  find_data-append_data block_size [] h e = absurd (h refl)
  find_data-append_data block_size (d ∷ []) h e =
      ground (arith, find_item-append k d.items (it ∷ []), same_key_iff k it.key)
  find_data-append_data block_size (d ∷ d' ∷ ds) h e = ground (
    arith,
    find_item-append k d.items (it ∷ []),
    same_key_iff k it.key,
    find_data-append_data block_size (d' ∷ ds) (λ p. cc),
  )
