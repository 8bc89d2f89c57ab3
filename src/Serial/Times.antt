-- ===== src/Serial/Times.antt =====
-- The times of the serial stream travel as differences, and a server gets the times back.
use angry.Common.{ℕ, ◌+◌, ◌%◌, ◌≤◌, ◌≡◌, List, ◌∷◌, Option, none, some, get_or}
use angry.Common.Bytes.{mem_read, mem_write}
use angry.Wire.Kind.{QueueType, idx}
use angry.Wire.Size.{queue_data_size}
use angry.Memory.{Item, Build, Memory}
use angry.Sender.{Link}
use angry.Serial.{Progress, word, sub_time, process}
use angry.Serial.Server.{Bytes, decode}

module _ (L : Link) (raw : ℕ → ℕ) (b : Build) (mem : Memory) where
  -- What processing does to the reference and to the time of an item of a kind.
  Timed : QueueType → Item → Progress L → Option ℕ → Type 0
  Timed t item p none = (process L raw b mem t item p).0.ref_serial ≡ p.ref_serial
  Timed t item p (some off) =
      ((process L raw b mem t item p).0.ref_serial ≡ mem_read off 8 item)
      × ((process L raw b mem t item p).1
          ≡ mem_write off 8 (sub_time (mem_read off 8 item) p.ref_serial) item)
      × (off + 8 ≤ get_or queue_data_size (idx t) 0)
      × (1 ≤ off)
      × (off + 8 ≤ 32)

  -- The decoder's step on an item whose time, if any, is known to stand at `o`.
  decode_as : Option ℕ → ℕ → List ℕ → List (List ℕ) → List ℕ
  decode_as none ref w ws = decode ref ws
  decode_as (some off) ref w ws = let t = (ref + mem_read off 8 w) % word in t ∷ decode t ws

  times_as : Option ℕ → Item → List ℕ → List ℕ
  times_as none item ts = ts
  times_as (some off) item ts = mem_read off 8 item ∷ ts
