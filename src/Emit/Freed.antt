-- ===== src/Emit/Freed.antt =====
-- How often an address is given back.
use angry.Common.{
  ℕ, zero, suc, ◌+◌, ◌≡◌, ◌≤◌, true, List, [], ◌∷◌, ◌++◌, arith, if◌then◌else◌, ◌==◌,
}
use angry.Common.Bytes.{mem_read}
use angry.Wire.Layout.{field_at, queue_callstack_frame_size_fat}
use angry.Memory.{Item, Build, Memory, read_ptr, free_entries}
use angry.Sender.{Link}
use angry.Wire.Kind.{QueueType}
use angry.Wire.Size.{data_size}
use angry.Payload.{send_single_string}
use angry.Emit.{
  c_str, Out, free_out, append_item, native_out, frame_out, frames_out, frame_size_out,
}

unfoldable pub one : ℕ → ℕ → ℕ
one a x = if a == x then 1 else 0

unfoldable pub count : ℕ → List ℕ → ℕ
count a [] = 0
count a (x ∷ xs) = one a x + count a xs

pub count-append : (a : ℕ) (xs ys : List ℕ) → count a (xs ++ ys) ≡ count a xs + count a ys
unfolding count
count-append a [] ys = omega arith
count-append a (x ∷ xs) ys = omega (arith, count-append a xs ys)

pub count-snoc : (a : ℕ) (xs : List ℕ) (x : ℕ) → count a (xs ++ (x ∷ [])) ≡ count a xs + one a x
unfolding count
count-snoc a xs x = omega (arith, count-append a xs (x ∷ []))

pub one-null : (a : ℕ) (x : ℕ) → 1 ≤ a → (x == 0) ≡ true → one a x ≡ 0
unfolding one
one-null a x h e = ground arith

module _ (L : Link) (raw : ℕ → ℕ) (b : Build) (mem : Memory) (name : ℕ → List ℕ) where
  pub frames_out_frees :
      (a n e : ℕ) (o : Out L)
      → count a (frames_out L raw b mem name e n o).freed
        ≡ count a o.freed + count a (free_entries mem e n)
  unfolding frames_out frame_out append_item free_out free_entries count
  frames_out_frees a zero e o = omega arith
  frames_out_frees a (suc n) e o =
      let o' = frame_out L raw b mem name e o in
      omega (
        arith,
        frames_out_frees a n (e + 32) o',
        count-snoc a (o.freed ++ (read_ptr mem e ∷ [])) (read_ptr mem (e + 8)),
        count-snoc a o.freed (read_ptr mem e),
      )

  -- What a list of addresses adds, where the null pointer does not count.
  pub native_out_frees :
      (a ptr : ℕ) (o : Out L)
      → 1 ≤ a
      → count a (native_out L raw b mem name ptr o).freed ≡ count a o.freed + one a ptr
  unfolding native_out free_out
  native_out_frees a ptr o h = ground (arith, count-snoc a o.freed ptr, one-null a ptr h)

  pub frame_size_out_frees :
      (a : ℕ) (item : Item) (o : Out L)
      → count a (frame_size_out L raw b mem name item o).freed
        ≡ count a o.freed
          + (count a (
                free_entries mem
                  (mem_read (field_at "data" queue_callstack_frame_size_fat) 8 item)
                  (mem_read (field_at "size" queue_callstack_frame_size_fat) 1 item))
              + one a (mem_read (field_at "data" queue_callstack_frame_size_fat) 8 item))
  unfolding frame_size_out free_out append_item
  frame_size_out_frees a item o =
      let e = mem_read (field_at "data" queue_callstack_frame_size_fat) 8 item in
      let n = mem_read (field_at "size" queue_callstack_frame_size_fat) 1 item in
      let image =
        c_str (mem (mem_read (field_at "imageName" queue_callstack_frame_size_fat) 8 item)) in
      let o' : Out L = record o { sender = send_single_string L raw image o.sender } in
      let o'' =
        (append_item L raw b mem name (data_size QueueType.callstack_frame_size) item o').0 in
      omega (
        arith,
        count-snoc a (frames_out L raw b mem name e n o'').freed e,
        frames_out_frees a n e o'',
      )
