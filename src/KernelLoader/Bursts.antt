-- ===== src/KernelLoader/Bursts.antt =====
-- hwprivacy-lsm/src/main.rs: `flush_stale_bursts`, which reports the opens that the BPF program counted
-- and did not report. What the BPF program does to the map between the reads and the writes is a
-- parameter. Reading a key that the map holds does not fail.
use hwprivacy.Common.{
  ℕ, ◌+◌, Bool, false, not, ◌||◌, Option, none, some, List, [], ◌∷◌, ◌++◌, ◌==◌, nat_eq, list_eq,
  pair_eq, if◌then◌else◌, filter_map, Map, get, insert, contains_key,
}
use hwprivacy.Common.Options.{map_some, unwrap_or, filter_some}
use hwprivacy.Common.Text.{Text, codes}
use hwprivacy.DeviceIndex.{v4l2_major}
use hwprivacy.KernelEvents.{CoalesceEntry, parse_coalesce, cleared_value, is_stale, bytes_of}
use hwprivacy.KernelLoader.{Bytes, BpfMap}
use hwprivacy.Proto.{KernelEvent}

unfoldable pub pending_bursts : ℕ → ℕ → BpfMap → List CoalesceEntry
pending_bursts now_ns window_ns m =
    filter_map
      (λ (key, value). filter_some (parse_coalesce key value) (λ e. is_stale e now_ns window_ns)) m

-- The key of a burst.
unfoldable pub burst_key : CoalesceEntry → Bytes
burst_key e = bytes_of 8 e.exe_ino ++ (bytes_of 4 e.exe_dev ++ bytes_of 4 e.dev_major)

abbrev pub is_camera_burst : CoalesceEntry → Bool
is_camera_burst e = e.dev_major == v4l2_major

-- The map after the writes, the events that are sent, and the count, if no write is refused.
pub record Flushed : Type 0 where
  pub bursts : BpfMap
  pub events : List KernelEvent
  pub total : Option ℕ

abbrev pub opens_told : List KernelEvent → ℕ
opens_told [] = 0
opens_told (ev ∷ events) = ev.additional_opens + opens_told events

abbrev pub opens_counted : List CoalesceEntry → ℕ
opens_counted [] = 0
opens_counted (e ∷ pending) = e.suppressed + opens_counted pending

module _ (show : ℕ → Text) (seen_exe : Map (ℕ × ℕ) Text) where
  -- `<dev={} ino={}>` for an executable that was not seen
  abbrev pub burst_exe : CoalesceEntry → Text
  burst_exe e =
      unwrap_or (get seen_exe (e.exe_dev, e.exe_ino))
        (codes "<dev=" ++ (show e.exe_dev ++ (codes " ino=" ++ (show e.exe_ino ++ codes ">"))))

  abbrev pub burst_event : CoalesceEntry → KernelEvent
  burst_event e = record {
    exe_path = burst_exe e;
    pid = 0;
    device = if is_camera_burst e then codes "/dev/video*" else codes "/dev/snd/*";
    role = if is_camera_burst e then codes "CAMERA" else codes "AUDIO";
    denied = e.denied;
    additional_opens = e.suppressed;
    released = false;
  }

  -- The loop over the pending bursts. An update of a key that is not there any more is refused too.
  unfoldable pub clear_bursts : (Bytes → Bool) → BpfMap → List CoalesceEntry → Flushed
  clear_bursts refused m [] = record { bursts = m; events = []; total = some 0 }
  clear_bursts refused m (e ∷ pending) =
      let rest = clear_bursts refused (insert (burst_key e) (cleared_value e) m) pending in
      if refused (burst_key e) || not (contains_key m (burst_key e))
      then record { bursts = m; events = burst_event e ∷ []; total = none }
      else record rest {
        events = burst_event e ∷ rest.events;
        total = map_some rest.total (λ n. e.suppressed + n);
      }

  unfoldable pub flush_stale_bursts : (Bytes → Bool) → (BpfMap → BpfMap) → ℕ → ℕ → BpfMap → Flushed
  unfolding pending_bursts clear_bursts
  flush_stale_bursts refused meanwhile now_ns window_ns m =
      clear_bursts refused (meanwhile m) (pending_bursts now_ns window_ns m)
