-- ===== src/Sender/Sample.antt =====
-- A concrete link and a buffer at the start of a connection, on which theorems are tried.
use angry.Common.{ℕ, true, List, [], ◌++◌, arith, replicate, length-replicate}
use angry.Sender.{Link, Sender, buffer_size}
use angry.Sender.Inv.{IsValid}

-- A link that records what is sent, and compresses nothing.
abbrev pub recorder : Link
recorder = record {
  State = List ℕ;
  compress = λ l bytes. (l, bytes);
  send = λ l bytes. (l ++ bytes, true);
}

abbrev pub fresh : Sender recorder
fresh = record { buffer = replicate buffer_size 0; offset = 0; start = 0; link = [] }

pub fresh-IsValid : IsValid fresh
fresh-IsValid = record {
  room = length-replicate buffer_size 0;
  order = omega arith;
  start_in = omega arith;
  frame_in = omega arith;
}
