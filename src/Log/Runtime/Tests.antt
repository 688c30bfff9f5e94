-- ===== src/Log/Runtime/Tests.antt =====
-- Messages of a runtime log (src/log_retention.c) with concrete answers.
use frame_pacer.Common.{◌+◌, ◌≡◌, true, false, refl, [], ◌∷◌, codes, length, arith}
use frame_pacer.Log.Runtime.{
  RuntimeLog, wrote, interrupted, write_loop, write_bytes, write_record, write_locked,
}
use frame_pacer.Log.Runtime.Capped.{IsLimited, LogMessage, write_all, write_all-IsLimited}

abbrev fresh : RuntimeLog
fresh = record { bytes = 0; capped = false }

abbrev in_parts : LogMessage
in_parts = record {
  prefix = codes "[tid=7] ";
  buffer = codes "start\n";
  answers = wrote 5 ∷ interrupted ∷ wrote 9 ∷ [];
}

writes_parts : (write_all fresh (in_parts ∷ [])).1 ≡ codes "[tid=7] start\n"
unfolding write_loop write_bytes write_record write_locked
writes_parts = refl

writes_notice :
    write_all (record { bytes = 67108810; capped = false }) (in_parts ∷ in_parts ∷ [])
    ≡ (record { bytes = 67108824; capped = true }, codes "frame-pacer: l")
unfolding write_loop write_bytes write_record write_locked
writes_notice = refl

fresh-IsLimited : IsLimited fresh
fresh-IsLimited = record { bytes_le = omega arith; notice_fits = λ open_log. omega arith }

write_all-IsLimited_example :
    IsLimited (write_all fresh (in_parts ∷ in_parts ∷ [])).0
    × ((write_all fresh (in_parts ∷ in_parts ∷ [])).0.bytes
        ≡ fresh.bytes + length (write_all fresh (in_parts ∷ in_parts ∷ [])).1)
write_all-IsLimited_example = write_all-IsLimited fresh (in_parts ∷ in_parts ∷ []) fresh-IsLimited
