-- ===== src/Epoll/Tree.antt =====
-- The order of the items of an event poll (`sock_cmp` of network/include/xy_epoll.h), and what the
-- red-black tree that is generated over it (`RB_GENERATE_STATIC`) does with the sequence of its items.
use dpdk_tcp.Prelude.{
  ℕ, ◌+◌, ◌%◌, ◌<◌, ◌≡◌, ◌≢◌, refl, ap, arith, Bool, true, false, Bool-cases, inl, inr, ltb, ◌==◌,
  if◌then◌else◌, ℤ, pos, minus_one, Option, none, some, List, [], ◌∷◌, ◌∈◌, ◌∉◌, update,
}
use dpdk_tcp.XyList.{Ptr, null}
use dpdk_tcp.World.{System, XyEpollItem}

-- `<` on the 32-bit integers with these bit patterns
abbrev pub less_int : ℕ → ℕ → Bool
less_int a b = ltb ((a + 2147483648) % 4294967296) ((b + 2147483648) % 4294967296)

unfoldable pub sock_cmp : XyEpollItem → XyEpollItem → ℤ
sock_cmp ep1 ep2 =
    if less_int ep1.sock_id ep2.sock_id
    then minus_one
    else if ep1.sock_id == ep2.sock_id
    then pos 0
    else pos 1

abbrev pub id_of : Option XyEpollItem → ℕ
id_of none = 0
id_of (some i) = i.sock_id

-- The id of the item at an address.
abbrev pub key : (Ptr → Option XyEpollItem) → Ptr → ℕ
key items p = id_of (items p)

abbrev pub find_key : (Ptr → Option XyEpollItem) → List Ptr → ℕ → Ptr
find_key items [] sock = null
find_key items (x ∷ xs) sock = if key items x == sock then x else find_key items xs sock

-- In front of the first item with a greater id.
abbrev pub insert : (Ptr → Option XyEpollItem) → Ptr → List Ptr → List Ptr
insert items p [] = p ∷ []
insert items p (x ∷ xs) =
    if less_int (key items p) (key items x) then p ∷ x ∷ xs else x ∷ insert items p xs

abbrev pub remove : Ptr → List Ptr → List Ptr
remove p [] = []
remove p (x ∷ xs) = if x == p then xs else x ∷ remove p xs

-- An item exists, and its id is not negative.
abbrev pub IsItem : (Ptr → Option XyEpollItem) → Ptr → Type 0
IsItem items x = (x ≢ null) × ((i : XyEpollItem) × (items x ≡ some i) × (i.sock_id < 2147483648))

-- Every item of the list has a greater id.
abbrev pub Above : (Ptr → Option XyEpollItem) → ℕ → List Ptr → Type 0
Above items k [] = Unit
Above items k (x ∷ xs) = (k < key items x) × Above items k xs

abbrev pub IsOrdered : (Ptr → Option XyEpollItem) → List Ptr → Type 0
IsOrdered items [] = Unit
IsOrdered items (x ∷ xs) = IsItem items x × Above items (key items x) xs × IsOrdered items xs

-- What `RB_FIND`, `RB_INSERT`, `RB_REMOVE` and `RB_MIN` do on a tree whose items are in order.
pub record RbTree (sys : System) : Type 0 where
  pub find :
      (items : Ptr → Option XyEpollItem) (t : List Ptr) (sock : ℕ)
      → IsOrdered items t
      → sys.rb_find items t sock ≡ find_key items t sock
  -- an item whose id is in the tree is not put in: the function returns the one that is there
  pub insert_new :
      (items : Ptr → Option XyEpollItem) (t : List Ptr) (p : Ptr)
      → IsOrdered items t
      → IsItem items p
      → find_key items t (key items p) ≡ null
      → sys.rb_insert items t p ≡ (null, insert items p t)
  pub remove_old :
      (items : Ptr → Option XyEpollItem) (t : List Ptr) (p : Ptr)
      → IsOrdered items t
      → p ∈ t
      → sys.rb_remove items t p ≡ (p, remove p t)
  pub min_empty : sys.rb_min [] ≡ null
  pub min_first :
      (items : Ptr → Option XyEpollItem) (x : Ptr) (t : List Ptr)
      → IsOrdered items (x ∷ t)
      → sys.rb_min (x ∷ t) ≡ x

-- An item outside the tree may be written.
key-update :
    (items : Ptr → Option XyEpollItem) (x : Ptr) (v : Option XyEpollItem) (y : Ptr) (t : List Ptr)
    → x ∉ y ∷ t
    → key (update items x v) y ≡ key items y
key-update items x v y t out = let e : update items x v y ≡ items y = ground arith in ap id_of e

Above-update :
    (items : Ptr → Option XyEpollItem) (k : ℕ) (x : Ptr) (v : Option XyEpollItem) (t : List Ptr)
    → x ∉ t
    → Above items k t
    → Above (update items x v) k t
Above-update items k x v [] out above = tt
Above-update items k x v (y ∷ t) out (lt, above) =
    (ground (arith, key-update items x v y t out), Above-update items k x v t (ground arith) above)

pub IsOrdered-update :
    (items : Ptr → Option XyEpollItem) (x : Ptr) (v : Option XyEpollItem) (t : List Ptr)
    → x ∉ t
    → IsOrdered items t
    → IsOrdered (update items x v) t
IsOrdered-update items x v [] out ordered = tt
IsOrdered-update items x v (y ∷ t) out ((not_null, (i, e, small)), above, ordered) = (
  (not_null, (i, ground arith, small)),
  rw (key-update items x v y t out) (Above-update items (key items y) x v t (ground arith) above),
  IsOrdered-update items x v t (ground arith) ordered,
)

pub find_key-update :
    (items : Ptr → Option XyEpollItem) (x : Ptr) (v : Option XyEpollItem) (t : List Ptr) (sock : ℕ)
    → x ∉ t
    → find_key (update items x v) t sock ≡ find_key items t sock
find_key-update items x v [] sock out = refl
find_key-update items x v (y ∷ t) sock out =
    ground (arith, key-update items x v y t out, find_key-update items x v t sock)

pub remove-insert :
    (items : Ptr → Option XyEpollItem) (p : Ptr) (t : List Ptr)
    → p ∉ t
    → remove p (insert items p t) ≡ t
remove-insert items p [] out = ground arith
remove-insert items p (x ∷ t) out = ground (arith, remove-insert items p t)

pub has-insert : (items : Ptr → Option XyEpollItem) (p : Ptr) (t : List Ptr) → p ∈ insert items p t
has-insert items p [] = ground arith
has-insert items p (x ∷ t) = ground (arith, has-insert items p t)

-- The new item is found among the others, whose ids differ.
pub find_key-insert :
    (items : Ptr → Option XyEpollItem) (p : Ptr) (t : List Ptr)
    → IsOrdered items t
    → find_key items t (key items p) ≡ null
    → find_key items (insert items p t) (key items p) ≡ p
find_key-insert items p [] ordered absent = ground arith
find_key-insert items p (x ∷ t) (item, above, ordered) absent =
    ground (arith, find_key-insert items p t ordered)

Above-insert :
    (items : Ptr → Option XyEpollItem) (k : ℕ) (p : Ptr) (t : List Ptr)
    → k < key items p
    → Above items k t
    → Above items k (insert items p t)
Above-insert items k p [] lt above = (lt, tt)
Above-insert items k p (x ∷ t) lt (lt', above) =
    elim (Bool-cases (less_int (key items p) (key items x))) [
      | inl q ↦ ground (arith, q)
      | inr q ↦ ground (arith, q, Above-insert items k p t lt above)
    ]

-- An item whose id is not in the tree and that follows the first one goes after it.
above-absent :
    (items : Ptr → Option XyEpollItem) (p x : Ptr) (t : List Ptr)
    → IsItem items p
    → IsItem items x
    → find_key items (x ∷ t) (key items p) ≡ null
    → less_int (key items p) (key items x) ≡ false
    → key items x < key items p
above-absent items p x t (n, (i, e, lt)) (m, (j, f, lt')) absent q =
    let a : key items p ≡ i.sock_id = ap id_of e in
    let b : key items x ≡ j.sock_id = ap id_of f in ground arith

below-first :
    (items : Ptr → Option XyEpollItem) (p x : Ptr)
    → IsItem items p
    → IsItem items x
    → less_int (key items p) (key items x) ≡ true
    → key items p < key items x
below-first items p x (n, (i, e, lt)) (m, (j, f, lt')) q =
    let a : key items p ≡ i.sock_id = ap id_of e in
    let b : key items x ≡ j.sock_id = ap id_of f in ground arith

absent-rest :
    (items : Ptr → Option XyEpollItem) (p x : Ptr) (t : List Ptr)
    → IsItem items x
    → find_key items (x ∷ t) (key items p) ≡ null
    → find_key items t (key items p) ≡ null
absent-rest items p x t item absent = ground arith

-- Everything above a greater id is above a smaller one.
Above-weaken :
    (items : Ptr → Option XyEpollItem) (j k : ℕ) (t : List Ptr)
    → j < k
    → Above items k t
    → Above items j t
Above-weaken items j k [] lt above = tt
Above-weaken items j k (x ∷ t) lt (lt', above) = (omega arith, Above-weaken items j k t lt above)

-- Putting an item in whose id is not there keeps the order.
pub IsOrdered-insert :
    (items : Ptr → Option XyEpollItem) (p : Ptr) (t : List Ptr)
    → IsItem items p
    → IsOrdered items t
    → find_key items t (key items p) ≡ null
    → IsOrdered items (insert items p t)
IsOrdered-insert items p [] item ordered absent = (item, tt, tt)
IsOrdered-insert items p (x ∷ t) item (first, above, ordered) absent =
    elim (Bool-cases (less_int (key items p) (key items x))) [
      | inl q ↦
          let lt = below-first items p x item first q in
          rw q (
            item,
            (lt, Above-weaken items (key items p) (key items x) t lt above),
            (first, above, ordered),
          )
      | inr q ↦
          let lt = above-absent items p x t item first absent q in
          let rest =
            IsOrdered-insert items p t item ordered (absent-rest items p x t first absent) in
          rw q (first, Above-insert items (key items x) p t lt above, rest)
    ]
