-- ===== src/Tests/Events.antt =====
-- A burst of denied opens at concrete bytes.
use hwprivacy.Common.{ℕ, ◌≡◌, refl, true, some, List, [], ◌∷◌, nat_eq}
use hwprivacy.KernelEvents.{CoalesceEntry, parse_coalesce}

abbrev camera_burst_key : List ℕ
camera_burst_key = 7 ∷ 1 ∷ 0 ∷ 0 ∷ 0 ∷ 0 ∷ 0 ∷ 0 ∷ 3 ∷ 0 ∷ 0 ∷ 0 ∷ 81 ∷ 0 ∷ 0 ∷ 0 ∷ []

abbrev burst_value : List ℕ
burst_value = 9 ∷ 2 ∷ 0 ∷ 0 ∷ 0 ∷ 0 ∷ 0 ∷ 0 ∷ 12 ∷ 0 ∷ 0 ∷ 0 ∷ 1 ∷ 0 ∷ 0 ∷ 0 ∷ []

abbrev burst : CoalesceEntry
burst = record {
  exe_ino = 263;
  exe_dev = 3;
  dev_major = 81;
  last_ns = 521;
  suppressed = 12;
  denied = true;
}

parse_burst : parse_coalesce camera_burst_key burst_value ≡ some burst
unfolding parse_coalesce nat_eq
parse_burst = refl
