-- ===== src/IoManager/Pipe/Tests.antt =====
-- A pipe that is the number of bytes in it, and the theorem on the pipe applied to it.
use fiber_async.Prelude.{
  ℕ, ◌+◌, ◌-◌, ◌≡◌, ◌<◌, refl, some, arith, ok, if◌then◌else◌, ltb, ℤ, pos, negsuc,
}
use fiber_async.IoManager.Pipe
use fiber_async.IoManager.Pipe.{tickle, drain, tickle-drain}

abbrev taken : ℕ → ℕ → ℕ
taken k count = if ltb count k then count else k

abbrev read_bytes : ℕ → ℕ → ℕ × ℤ
read_bytes k count = if ltb 0 k then (k - taken k count, pos (taken k count)) else (k, negsuc 0)

read_bytes-empty : (k count : ℕ) → k ≡ 0 → read_bytes k count ≡ (k, negsuc 0)
read_bytes-empty k count h = ground arith

read_bytes-some :
    (k count : ℕ)
    → 0 < k
    → 0 < count
    → (k' : ℕ) × (r : ℕ) × (read_bytes k count ≡ (k', pos r)) × (0 < r) × (k' + r ≡ k)
read_bytes-some k count h c =
    (k - taken k count, taken k count, ground arith, ground arith, ground arith)

abbrev byte_pipe : Pipe.Pipe
byte_pipe = record {
  Kernel = ℕ;
  level = λ k. k;
  capacity = 65536;
  read = read_bytes;
  write = λ k. (k + 1, pos 1);
  read_empty = read_bytes-empty;
  read_some = read_bytes-some;
  write_one = λ k room. (k + 1, refl, refl);
}

-- One thread is idle, and 300 bytes have been left in the pipe.
tickle-drain_example :
    (k' : ℕ) × (k'' : ℕ) × (tickle byte_pipe 1 300 ≡ ok k')
    × (k' ≡ 300 + (if ltb 0 1 then 1 else 0))
    × (drain byte_pipe 302 k' ≡ some k'')
    × (k'' ≡ 0)
tickle-drain_example = tickle-drain byte_pipe 1 302 300 (omega arith) (omega arith)
