-- ===== src/Log/Runtime.antt =====
-- src/log_retention.c: the bytes that a runtime log writes, up to its limit.
-- The answers of `write` are arguments, one per call; it writes at most what it is given. The prefix is what
-- `snprintf` makes of the clocks and the thread, which is taken not to fail.
pub mod Capped
mod Tests
use frame_pacer.Common.{
  ℕ, zero, suc, ◌+◌, ◌-◌, ◌*◌, ◌^◌, min, Bool, true, false, not, ◌&&◌, ◌||◌, ltb, leb, ◌==◌,
  if◌then◌else◌, Bytes, List, [], ◌∷◌, ◌++◌, length, codes, add64,
}

abbrev pub log_limit : ℕ
log_limit = 67108864

abbrev pub record_size : ℕ
record_size = 1200

abbrev pub cap : Bytes
cap = codes "frame-pacer: log cap reached; pacing continues\n"

-- Bytes written, EINTR, or another failure.
pub data Answer : Type 0 where
  wrote : (count : ℕ) → Answer
  interrupted : Answer
  failed : Answer

-- What `write_locked` reads and changes of the log.
pub record RuntimeLog : Type 0 where
  pub bytes : ℕ
  pub capped : Bool

abbrev pub take : ℕ → Bytes → Bytes
take zero s = []
take (suc n) [] = []
take (suc n) (c ∷ s) = c ∷ take n s

abbrev drop : ℕ → Bytes → Bytes
drop zero s = s
drop (suc n) [] = []
drop (suc n) (c ∷ s) = drop n s

-- What the loop writes of the bytes that are left; without an answer the call has not returned.
pub write_loop : List Answer → Bytes → Bytes
write_loop [] left = []
write_loop (wrote count ∷ answers) left =
    let rest = write_loop answers (drop count left) in
    if length left == 0 || count == 0 then [] else take count left ++ rest
write_loop (interrupted ∷ answers) left = write_loop answers left
write_loop (failed ∷ answers) left = []

-- The log with the bytes that the loop wrote.
pub write_bytes : RuntimeLog → Bytes → List Answer → RuntimeLog × Bytes
write_bytes log buffer answers =
    let written = write_loop answers buffer in
    (record log { bytes = add64 log.bytes (length written) }, written)

-- A record that leaves no room for the notice is written as the notice.
pub write_record : RuntimeLog → Bytes → List Answer → RuntimeLog × Bytes
write_record log buffer answers =
    let remaining = log_limit - log.bytes in
    if ltb remaining (length buffer) || ltb (remaining - length buffer) (length cap)
    then write_bytes (record log { capped = true }) (take (min (length cap) remaining) cap) answers
    else write_bytes log buffer answers

pub write_locked : RuntimeLog → Bytes → Bytes → List Answer → RuntimeLog × Bytes
write_locked log prefix buffer answers =
    if log.capped || leb log_limit log.bytes
    then (record log { capped = true }, [])
    else if leb record_size (length prefix) || ltb (record_size - length prefix) (length buffer)
    then (log, [])
    else write_record log (prefix ++ buffer) answers
