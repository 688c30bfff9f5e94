-- ===== src/Hud/Drm/Sample/Tests.antt =====
-- Samples of src/hud_drm_fdinfo.c from concrete descriptors.
use frame_pacer.Common.{
  ℕ, ◌-◌, ◌<◌, ◌≤◌, ◌≡◌, ◌⊎◌, true, false, refl, none, some, Bytes, [], ◌∷◌, codes, arith, Option,
  behind_prefix, and_then,
}
use frame_pacer.Hud.Drm.Utilisation.{threshold, percent_loop, utilisation}
use frame_pacer.Hud.Drm.Utilisation.Rounded.{IsRounded, utilisation-IsRounded}
use frame_pacer.Hud.Drm.Clients.{Line, Fdinfo}
use frame_pacer.Hud.Drm.Clients
use frame_pacer.Limit.Text.{is_space, is_digit}
use frame_pacer.Hud.Drm.Sample.{
  DrmFdinfo, Directory, Descriptor, sample_from_root, collect_clients, commit_sample,
  commit_clients, commit_client, commit_engine, previous_client, raise_peak, peak_of,
}
use frame_pacer.Hud.Drm.Sample.Followed.{IsTracked, IsSample, sample_from_root-IsSample}

half : utilisation 0 1995 100000 ≡ some 2
unfolding utilisation percent_loop threshold
half = refl

abbrev line : Bytes → Line
line text = record { text = text; complete = true }

abbrev descriptor : Bytes → Descriptor
descriptor counter = record {
  matches = true;
  file = record {
    path_fits = true;
    opens = true;
    lines = line (codes "drm-client-id:\t7\n") ∷ line counter ∷ [];
    read_error = false;
  };
}

abbrev directory : Bytes → Option Directory
directory counter = some (record { descriptors = descriptor counter ∷ []; ends = true })

abbrev no_sample : DrmFdinfo
no_sample = record {
  clients = [];
  previous_sample_ns = 0;
  cached_use_percent = 0;
  started = false;
  available = false;
}

no_sample-IsTracked : IsTracked no_sample
no_sample-IsTracked = record {
  distinct = tt;
  few = omega arith;
  fresh = λ e. refl;
  percent_le = omega arith;
}

quarter :
    let first =
      (sample_from_root no_sample (directory (codes "drm-engine-gfx:\t100 ns\n")) 1000).0 in
    (sample_from_root first (directory (codes "drm-engine-gfx: 350 ns\n")) 2000).1 ≡ some 25
unfolding behind_prefix and_then utilisation percent_loop threshold sample_from_root collect_clients
    commit_sample commit_clients commit_client commit_engine previous_client raise_peak peak_of
    Clients.core_engine Clients.skip_blank Clients.only_space Clients.digits64 Clients.number64
    Clients.parse_unsigned Clients.parse_engine_ns Clients.higher Clients.read_line
    Clients.read_lines Clients.read_fdinfo Clients.merge_engines Clients.merge_into
    Clients.merge_client is_space is_digit
quarter = refl

utilisation-IsRounded_example :
    (((◌≡◌ {A = ℕ} 100000 0) ⊎ (1995 < 0)) × (utilisation 0 1995 100000 ≡ none))
    ⊎ ((percent : ℕ) × (utilisation 0 1995 100000 ≡ some percent)
        × (1 ≤ 100000)
        × (0 ≤ 1995)
        × IsRounded (1995 - 0) 100000 percent)
utilisation-IsRounded_example = utilisation-IsRounded 0 1995 100000 (omega arith) (omega arith)

sample_from_root-IsSample_example :
    IsSample no_sample 1000
      (sample_from_root no_sample (directory (codes "drm-engine-gfx:\t100 ns\n")) 1000)
sample_from_root-IsSample_example =
    sample_from_root-IsSample no_sample (directory (codes "drm-engine-gfx:\t100 ns\n")) 1000
      no_sample-IsTracked
