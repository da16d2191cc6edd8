-- ===== src/Recording/Stream.antt =====
-- `std::ofstream` and `std::filesystem`, as far as src/recording/log.cpp uses them to write. A stream
-- keeps what it is given in a buffer: a write may pass any part of it on to the file, and a flush
-- passes on the rest. What the device takes, and when, is outside the program, so it is a parameter.
use trace_forge.Common.{
  ℕ, ◌+◌, Bool, true, false, leb, ◌==◌, if◌then◌else◌, Option, Bytes, ◌++◌, length, [],
}
use trace_forge.Common.Int.{ℤ}

-- The arguments are the bytes that the stream was given up to now and how many of them are on the
-- file. `spills`: how many more a write passes on to it; `accepts`: whether that write succeeds;
-- `drains`: how many more a flush passes on, which fails if they are not all that was in the buffer.
pub record Device : Type 0 where
  pub spills : Bytes → ℕ → ℕ
  pub accepts : Bytes → ℕ → Bool
  pub drains : Bytes → ℕ → ℕ

-- `exists`: what `std::filesystem::exists` answers (`none` for an error); `opens`: whether the file
-- can be opened for writing; `now`: the system clock.
pub record Environment : Type 0 where
  pub exists : Option Bool
  pub opens : Bool
  pub now : ℤ

-- A file stream: `contents` are the bytes that it was given while it was good, and the file holds the
-- first `stored` of them. The others are in the buffer; they are lost if the stream fails or the process ends
-- without closing it.
pub record Stream : Type 0 where
  pub is_open : Bool
  pub healthy : Bool
  pub contents : Bytes
  pub stored : ℕ

abbrev pub closed_stream : Stream
closed_stream = record { is_open = false; healthy = true; contents = []; stored = 0 }

-- `open` with `trunc`: a failure sets the failbit.
unfoldable pub open_stream : Environment → Stream
open_stream env = record { is_open = env.opens; healthy = env.opens; contents = []; stored = 0 }

abbrev pub at_most : ℕ → ℕ → ℕ
at_most limit n = if leb n limit then n else limit

-- A stream that is not good ignores a write.
unfoldable pub write : Device → Stream → Bytes → Stream
write d s bytes =
    let given = s.contents ++ bytes in
    if s.healthy
    then record s {
      contents = given;
      stored = at_most (length given) (s.stored + d.spills given s.stored);
      healthy = d.accepts given s.stored;
    }
    else s

-- `flush` of a stream that is good.
unfoldable pub flush_stream : Device → Stream → Stream
flush_stream d s =
    let stored = at_most (length s.contents) (s.stored + d.drains s.contents s.stored) in
    record s { stored = stored; healthy = stored == length s.contents }
