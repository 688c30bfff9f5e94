-- ===== src/Log/Runtime/Capped.antt =====
-- The limit of a runtime log (src/log_retention.c).
use frame_pacer.Common.{
  ℕ, zero, suc, ◌+◌, ◌-◌, ◌≤◌, ◌≡◌, min, true, false, ◌||◌, ltb, ◌==◌, Bool-cases, inl, inr, Bytes,
  List, [], ◌∷◌, ◌++◌, length, length-append, arith,
}
use frame_pacer.Log.Runtime.{
  RuntimeLog, Answer, wrote, interrupted, failed, log_limit, cap, take, drop, write_loop,
  write_bytes, write_record, write_locked,
}

length-take-drop : (n : ℕ) (s : Bytes) → length (take n s) + length (drop n s) ≡ length s
length-take-drop zero s = omega arith
length-take-drop (suc n) [] = omega arith
length-take-drop (suc n) (c ∷ s) = omega (arith, length-take-drop n s)

length-take-le : (n : ℕ) (s : Bytes) → length (take n s) ≤ n
length-take-le zero s = omega arith
length-take-le (suc n) [] = omega arith
length-take-le (suc n) (c ∷ s) = omega (arith, length-take-le n s)

length-write_loop :
    (answers : List Answer) (left : Bytes) → length (write_loop answers left) ≤ length left
unfolding write_loop
length-write_loop [] left = omega arith
length-write_loop (wrote count ∷ answers) left =
    elim (Bool-cases (length left == 0 || count == 0)) [
      | inl e ↦ rw e (omega arith)
      | inr e ↦ rw e (
          omega (
            arith,
            length-append (take count left) (write_loop answers (drop count left)),
            length-take-drop count left,
            length-write_loop answers (drop count left),
          ))
    ]
length-write_loop (interrupted ∷ answers) left = length-write_loop answers left
length-write_loop (failed ∷ answers) left = omega arith

-- The bytes are within the limit, and until the log is capped, the notice still fits.
pub record IsLimited (log : RuntimeLog) : Type 0 where
  pub bytes_le : log.bytes ≤ log_limit
  pub notice_fits : log.capped ≡ false → log.bytes + length cap ≤ log_limit

write_bytes-IsLimited :
    (log : RuntimeLog) (buffer : Bytes) (answers : List Answer)
    → log.bytes + length buffer ≤ log_limit
    → (log.capped ≡ false → log.bytes + length buffer + length cap ≤ log_limit)
    → IsLimited (write_bytes log buffer answers).0
      × ((write_bytes log buffer answers).0.bytes
          ≡ log.bytes + length (write_bytes log buffer answers).1)
unfolding write_bytes
write_bytes-IsLimited log buffer answers fits room =
    ground (arith, length-write_loop answers buffer)

write_record-IsLimited :
    (log : RuntimeLog) (buffer : Bytes) (answers : List Answer)
    → IsLimited log
    → IsLimited (write_record log buffer answers).0
      × ((write_record log buffer answers).0.bytes
          ≡ log.bytes + length (write_record log buffer answers).1)
unfolding write_record
write_record-IsLimited log buffer answers h =
    let remaining = log_limit - log.bytes in
    elim (Bool-cases
      (ltb remaining (length buffer) || ltb (remaining - length buffer) (length cap))) [
        | inl e ↦
            let notice = take (min (length cap) remaining) cap in
            rw e (
              write_bytes-IsLimited (record log { capped = true }) notice answers
                (omega (arith, length-take-le (min (length cap) remaining) cap, h.bytes_le))
                (λ k. absurd cc))
        | inr e ↦ rw e (write_bytes-IsLimited log buffer answers (ground arith) (ground arith))
      ]

-- A message: what `snprintf` puts before it, its bytes, and the answers of its calls of `write`.
pub record LogMessage : Type 0 where
  pub prefix : Bytes
  pub buffer : Bytes
  pub answers : List Answer

-- The messages of a log, one call of `write_locked` each, with all that is written.
abbrev pub write_all : RuntimeLog → List LogMessage → RuntimeLog × Bytes
write_all log [] = (log, [])
write_all log (m ∷ messages) =
    let step = write_locked log m.prefix m.buffer m.answers in
    let rest = write_all step.0 messages in (rest.0, step.1 ++ rest.1)

write_locked-IsLimited :
    (log : RuntimeLog) (prefix buffer : Bytes) (answers : List Answer)
    → IsLimited log
    → IsLimited (write_locked log prefix buffer answers).0
      × ((write_locked log prefix buffer answers).0.bytes
          ≡ log.bytes + length (write_locked log prefix buffer answers).1)
unfolding write_locked
write_locked-IsLimited log prefix buffer answers h =
    ground
      (arith, h.bytes_le, h.notice_fits, write_record-IsLimited log (prefix ++ buffer) answers h)

-- Whatever messages are written and however `write` answers, a log that is capped or has room for the notice
-- stays so and within its limit of 64 MiB, and its count is that of the bytes that were written to it.
pub write_all-IsLimited :
    (log : RuntimeLog) (messages : List LogMessage)
    → IsLimited log
    → IsLimited (write_all log messages).0
      × ((write_all log messages).0.bytes ≡ log.bytes + length (write_all log messages).1)
write_all-IsLimited log [] h = (h, omega arith)
write_all-IsLimited log (m ∷ messages) h =
    let step = write_locked-IsLimited log m.prefix m.buffer m.answers h in
    let next = write_locked log m.prefix m.buffer m.answers in
    let rest = write_all-IsLimited next.0 messages step.0 in
    (rest.0, omega (arith, length-append next.1 (write_all next.0 messages).1, step.1, rest.1))
