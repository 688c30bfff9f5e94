-- ===== src/ThreadCpu/Protocol/Tests.antt =====
-- Lines of src/thread_cpu_protocol.c on concrete texts.
use frame_pacer.Common.{
  behind_prefix, ◌≤◌, ◌≡◌, ◌↔◌, true, refl, none, some, codes, same_bytes, arith,
}
use frame_pacer.ThreadCpu.Protocol.{
  state_text, quota_loop, check_quota, parse_digits, parse_behind, parse_quota, print_digits,
  format_state, parse_state, format_status,
}
use frame_pacer.ThreadCpu.Protocol.RoundTrip.{parse_state_iff, parse_state-format_state}

state_reads : parse_state (codes "on 75\n") ≡ some (true, 75)
unfolding behind_prefix quota_loop check_quota parse_digits parse_behind parse_quota parse_state
    same_bytes
state_reads = refl

state_zero : parse_state (codes "on 075\n") ≡ none
unfolding behind_prefix quota_loop check_quota parse_digits parse_behind parse_quota parse_state
    same_bytes
state_zero = refl

state_large : parse_state (codes "on 101\n") ≡ none
unfolding behind_prefix quota_loop check_quota parse_digits parse_behind parse_quota parse_state
    same_bytes
state_large = refl

status_writes : format_status 14 true 100 ≡ none
unfolding format_status print_digits
status_writes = refl

parse_state_iff_example :
    (parse_state (codes "on 75\n") ≡ some (true, 75))
    ↔ (((1 ≤ 75) × (75 ≤ 100)) × (codes "on 75\n" ≡ state_text true 75))
parse_state_iff_example = parse_state_iff (codes "on 75\n") true 75

parse_state-format_state_example :
    (format_state 8 true 100 ≡ some (state_text true 100))
    × (parse_state (state_text true 100) ≡ some (true, 100))
parse_state-format_state_example =
    parse_state-format_state 8 true 100 (omega arith) (omega arith, omega arith)
