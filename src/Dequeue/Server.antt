-- ===== src/Dequeue/Server.antt =====
-- What a server makes of a thread stream's items: three clocks, one of which starts again at each
-- change of the thread.
use angry.Common.{ℕ, ◌+◌, ◌%◌, ◌≡◌, refl, List, [], ◌∷◌, ◌++◌, none, some}
use angry.Common.Bytes.{mem_read}
use angry.Wire.Kind.{QueueType, idx, of_idx}
use angry.Wire.Bounds.{of_idx-idx}
use angry.Memory.{Item, item_idx}
use angry.Serial.{word}
use angry.Dequeue.{Clocks}
use angry.Dequeue.Kinds.{Stamp, no_stamp, new_thread, thread_stamp, ctx_stamp, gpu_stamp, stamp_at}

-- The clocks, and the times that have been told so far.
abbrev pub Told : Type 0
Told = Clocks × List ℕ

unfoldable pub stamp_idx : ℕ → Stamp
stamp_idx i = elim (of_idx i) [ none ↦ no_stamp | some t ↦ stamp_at t ]

abbrev pub stamp_of : List ℕ → Stamp
stamp_of w = stamp_idx (item_idx w)

unfoldable pub tell : Stamp → List ℕ → Told → Told
tell no_stamp w (clocks, ts) = (clocks, ts)
tell new_thread w (clocks, ts) = (record clocks { thread = 0 }, ts)
tell (thread_stamp off) w (clocks, ts) =
    let t = (clocks.thread + mem_read off 8 w) % word in
    (record clocks { thread = t }, ts ++ (t ∷ []))
tell (ctx_stamp off) w (clocks, ts) =
    let t = (clocks.ctx + mem_read off 8 w) % word in (record clocks { ctx = t }, ts ++ (t ∷ []))
tell (gpu_stamp off) w (clocks, ts) =
    let t = (clocks.gpu + mem_read off 8 w) % word in (record clocks { gpu = t }, ts ++ (t ∷ []))

unfoldable pub decode : Told → List (List ℕ) → Told
decode told [] = told
decode told (w ∷ ws) = decode (tell (stamp_of w) w told) ws

-- The times that events have in the queue.
unfoldable pub time_of : Stamp → Item → List ℕ
time_of no_stamp item = []
time_of new_thread item = []
time_of (thread_stamp off) item = mem_read off 8 item ∷ []
time_of (ctx_stamp off) item = mem_read off 8 item ∷ []
time_of (gpu_stamp off) item = mem_read off 8 item ∷ []

unfoldable pub times : List Item → List ℕ
times [] = []
times (item ∷ items) = time_of (stamp_of item) item ++ times items

pub decode-append :
    (told : Told) (ws vs : List (List ℕ)) → decode told (ws ++ vs) ≡ decode (decode told ws) vs
unfolding decode
decode-append told [] vs = refl
decode-append told (w ∷ ws) vs = decode-append (tell (stamp_of w) w told) ws vs

pub stamp_idx_lem : (t : QueueType) → stamp_idx (idx t) ≡ stamp_at t
unfolding stamp_idx
stamp_idx_lem t = rw (of_idx-idx t, stamp_idx) refl
