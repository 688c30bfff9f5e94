-- ===== src/Nvml/Client/Seqlock/Tests.antt =====
-- Reads of src/hud_nvml_client.c at concrete messages.
use frame_pacer.Common.{◌≡◌, refl, some, List, [], ◌∷◌, Mem, arith}
use frame_pacer.Nvml.Protocol.{Message}
use frame_pacer.Nvml.Client.Seqlock.{Published, Store, count, store, publish, load, returned, start}
use frame_pacer.Nvml.Client.Seqlock.Reads.{Read, started, publishes, stores, loads}
use frame_pacer.Nvml.Client.Seqlock.Coherent.{Read-coherent}

abbrev cool : Message
cool = record { sequence = 7; available = 3; gpu_use_percent = 20; gpu_temp_celsius = 40 }

abbrev published : Published
published = record { generation = 4294967294; message = cool }

abbrev stores_all : List Store → Published → Published
stores_all [] p = p
stores_all (s ∷ w) p = stores_all w (store s p)

generation_wraps : (stores_all (count ∷ publish cool) published).generation ≡ 0
unfolding store
generation_wraps = refl

-- One publication on the way: the first round is given up, the second returns the new message.
abbrev hot : Message
hot = record { sequence = 8; available = 3; gpu_use_percent = 99; gpu_temp_celsius = 80 }

after_hot : Published
after_hot = stores_all (count ∷ publish hot) published

overtaken :
    let half = load published (load published start) in
    let late = load after_hot (load after_hot (load after_hot (load after_hot half))) in
    load after_hot
      (load after_hot (load after_hot (load after_hot (load after_hot (load after_hot late)))))
    ≡ returned (some hot)
unfolding load start store after_hot
overtaken = refl

-- A publication before the first load, then six loads of its message.
hot-Read :
    let p = store count published in
    Read (stores_all (publish hot) p) [] hot (hot ∷ cool ∷ []) 2 (returned (some hot))
unfolding load start store
hot-Read = loads (
    loads (
      loads (
        loads (
          loads (
            loads (
              stores (
                stores (
                  stores (
                    stores (stores (publishes hot (started published (omega arith, refl)))))))))))))

Read-coherent_example : Mem hot (hot ∷ cool ∷ [])
Read-coherent_example = Read-coherent hot hot-Read (omega arith)
