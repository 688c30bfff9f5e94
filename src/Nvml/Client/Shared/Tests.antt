-- ===== src/Nvml/Client/Shared/Tests.antt =====
-- Holders of the client of src/hud_nvml_client.c.
use frame_pacer.Common.{◌≡◌, true, false, refl, codes, same_bytes, arith, [], ◌∷◌}
use frame_pacer.Nvml.Client.{Manager, idle, acquire, begin_release}
use frame_pacer.Nvml.Client.Shared.{Reach, IsShared, created, acquired, released, Reach-IsShared}

abbrev bus : Manager → Manager
bus m = (acquire m 42 (codes "0000:01:00.0") true).0

second_holder : (bus (bus idle)).references ≡ 2
unfolding idle acquire same_bytes
second_holder = refl

other_process : (acquire (bus idle) 43 (codes "0000:01:00.0") true).1 ≡ false
unfolding idle acquire same_bytes
other_process = refl

first_holder : (acquire idle 42 (codes "0000:01:00.0") true).1 ≡ true
unfolding idle acquire
first_holder = refl

one_holder : Reach (bus idle) 1 false (0 ∷ [])
unfolding idle acquire
one_holder = acquired 42 (codes "0000:01:00.0") true (omega arith) created

Reach-IsShared_example :
    IsShared (begin_release (bus idle)).0 0 (begin_release (bus idle)).1 (0 ∷ [])
Reach-IsShared_example = Reach-IsShared (released one_holder)
