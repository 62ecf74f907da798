-- ===== src/Wnd/Snd.antt =====
-- The send window of network/include/xy_tcp_wnd.h is a queue of the buffers that were sent and are
-- not acknowledged.
use dpdk_tcp.Prelude.{
  drop, ℕ, zero, suc, ◌+◌, ◌%◌, ◌≤◌, ◌<◌, ◌≡◌, refl, List, [], ◌∷◌, ◌++◌, update, arith,
}
use native.Mathlib.Nat.{suc-add}
use dpdk_tcp.XyList.{Ptr}
use dpdk_tcp.Wnd.{
  XyTcpSndWnd, xy_snd_wnd_size, xy_tcp_snd_wnd_erase, xy_tcp_snd_wnd_size, xy_tcp_snd_wnd_add,
}

-- The buffers of `n` slots from slot `i` on, round the ring.
abbrev pub slots : (ℕ → Ptr) → ℕ → ℕ → List Ptr
slots b i zero = []
slots b i (suc n) = b i ∷ slots b ((i + 1) % xy_snd_wnd_size) n

pub record IsSndWnd (w : XyTcpSndWnd) : Type 0 where
  pub head_in : w.head_ < xy_snd_wnd_size
  pub tail_in : w.tail_ < xy_snd_wnd_size

-- The buffers that the window holds, oldest first.
abbrev pub in_flight : XyTcpSndWnd → List Ptr
in_flight w = slots w.buffer w.head_ (xy_tcp_snd_wnd_size w)

-- Writing just behind `n` slots, where there is one more, appends a buffer.
slots-update :
    (b : ℕ → Ptr) (m : Ptr) (n i t : ℕ)
    → i < xy_snd_wnd_size
    → n < xy_snd_wnd_size
    → t ≡ (i + n) % xy_snd_wnd_size
    → slots (update b t m) i (suc n) ≡ slots b i n ++ (m ∷ [])
slots-update b m zero i t hi hn e = ground arith
slots-update b m (suc n) i t hi hn e =
    ground (arith, slots-update b m n ((i + 1) % xy_snd_wnd_size) t)

slots-drop :
    (b : ℕ → Ptr) (k n i : ℕ)
    → i < xy_snd_wnd_size
    → slots b ((i + k) % xy_snd_wnd_size) n ≡ drop k (slots b i (k + n))
slots-drop b zero n i h = ground arith
slots-drop b (suc k) n i h =
    let e : (i + suc k) % xy_snd_wnd_size ≡ ((i + 1) % xy_snd_wnd_size + k) % xy_snd_wnd_size =
      omega arith in
    rw (suc-add, e) (slots-drop b k n ((i + 1) % xy_snd_wnd_size) (omega arith))

size-add :
    (w : XyTcpSndWnd) (m : Ptr)
    → IsSndWnd w
    → xy_tcp_snd_wnd_size w + 1 < xy_snd_wnd_size
    → xy_tcp_snd_wnd_size (xy_tcp_snd_wnd_add w m).1 ≡ suc (xy_tcp_snd_wnd_size w)
unfolding xy_tcp_snd_wnd_add xy_tcp_snd_wnd_size
size-add w m v room = ground arith

pub tail_place :
    (w : XyTcpSndWnd)
    → IsSndWnd w
    → (w.tail_ ≡ (w.head_ + xy_tcp_snd_wnd_size w) % xy_snd_wnd_size)
      × (xy_tcp_snd_wnd_size w < xy_snd_wnd_size)
unfolding xy_tcp_snd_wnd_size
tail_place w v = ground arith

IsSndWnd-add : (w : XyTcpSndWnd) (m : Ptr) → IsSndWnd w → IsSndWnd (xy_tcp_snd_wnd_add w m).1
unfolding xy_tcp_snd_wnd_add
IsSndWnd-add w m v = ground arith

in_flight-add :
    (w : XyTcpSndWnd) (m : Ptr)
    → IsSndWnd w
    → slots
        (xy_tcp_snd_wnd_add w m).1.buffer
        (xy_tcp_snd_wnd_add w m).1.head_
        (suc (xy_tcp_snd_wnd_size w))
      ≡ in_flight w ++ (m ∷ [])
unfolding xy_tcp_snd_wnd_add
in_flight-add w m v =
    let (e, small) = tail_place w v in
    slots-update w.buffer m (xy_tcp_snd_wnd_size w) w.head_ w.tail_ v.head_in small e

-- `xy_tcp_snd_wnd_add` on a window with room for two more puts the buffer behind the others, counts
-- it, and keeps both indices in the array.
pub xy_tcp_snd_wnd_add-in_flight :
    (w : XyTcpSndWnd) (m : Ptr)
    → IsSndWnd w
    → xy_tcp_snd_wnd_size w + 1 < xy_snd_wnd_size
    → let w' = (xy_tcp_snd_wnd_add w m).1 in
      IsSndWnd w'
      × (in_flight w' ≡ in_flight w ++ (m ∷ []))
      × (xy_tcp_snd_wnd_size w' ≡ suc (xy_tcp_snd_wnd_size w))
xy_tcp_snd_wnd_add-in_flight w m v room =
    (IsSndWnd-add w m v, rw (size-add w m v room) (in_flight-add w m v), size-add w m v room)

size-erase :
    (w : XyTcpSndWnd) (n : ℕ)
    → IsSndWnd w
    → n ≤ xy_tcp_snd_wnd_size w
    → let w' = (xy_tcp_snd_wnd_erase w n).1 in
      (xy_tcp_snd_wnd_size w ≡ n + xy_tcp_snd_wnd_size w')
      × (w'.head_ ≡ (w.head_ + n) % xy_snd_wnd_size)
unfolding xy_tcp_snd_wnd_erase xy_tcp_snd_wnd_size
size-erase w n v room = ground arith

buffer-erase : (w : XyTcpSndWnd) (n : ℕ) → (xy_tcp_snd_wnd_erase w n).1.buffer ≡ w.buffer
unfolding xy_tcp_snd_wnd_erase
buffer-erase w n = refl

IsSndWnd-erase :
    (w : XyTcpSndWnd) (n : ℕ)
    → IsSndWnd w
    → n ≤ xy_snd_wnd_size
    → IsSndWnd (xy_tcp_snd_wnd_erase w n).1
unfolding xy_tcp_snd_wnd_erase
IsSndWnd-erase w n v h = ground arith

in_flight-erase :
    (w : XyTcpSndWnd) (n : ℕ)
    → IsSndWnd w
    → n ≤ xy_tcp_snd_wnd_size w
    → in_flight (xy_tcp_snd_wnd_erase w n).1 ≡ drop n (in_flight w)
in_flight-erase w n v room =
    let (total, head) = size-erase w n v room in
    rw (buffer-erase w n, head, total)
      (slots-drop w.buffer n (xy_tcp_snd_wnd_size (xy_tcp_snd_wnd_erase w n).1) w.head_ v.head_in)

-- `xy_tcp_snd_wnd_erase` of no more buffers than the window holds removes that many of the oldest,
-- returns their number, and keeps both indices in the array.
pub xy_tcp_snd_wnd_erase-in_flight :
    (w : XyTcpSndWnd) (n : ℕ)
    → IsSndWnd w
    → n ≤ xy_tcp_snd_wnd_size w
    → let (r, w') = xy_tcp_snd_wnd_erase w n in
      IsSndWnd w' × (in_flight w' ≡ drop n (in_flight w)) × (r ≡ n)
unfolding xy_tcp_snd_wnd_erase
xy_tcp_snd_wnd_erase-in_flight w n v room =
    (IsSndWnd-erase w n v (omega (arith, (tail_place w v).1)), in_flight-erase w n v room, refl)
