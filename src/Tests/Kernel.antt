-- ===== src/Tests/Kernel.antt =====
-- Announcements, splits and permission words at concrete inputs.
use hwprivacy.KernelPolicy.{
  Policy, PolicyKey, parse, render_cache, before_hash, lines_of, parse_entry, parse_line,
  parse_lines, push_path, split_space,
}
use hwprivacy.KernelPolicy.Merge.{to_map, key_of, bit_or}
use hwprivacy.Common.{
  none, true, false, arith, ℕ, List, refl, ◌≡◌, nat_eq, list_eq, pair_eq, option_eq, some, [], ◌∷◌,
  contains, get, insert,
}
use hwprivacy.Common.Text.{Text, codes, strip_prefix, trim, ends_with}
use hwprivacy.Device.{DeviceCategory, category_eq}
use hwprivacy.Names.Ascii.{ascii_lowercase}
use hwprivacy.NotifyAllow.{AllowedAccess}
use hwprivacy.DeviceIndex.Captures.{capture_name, last_named, video_files, capture_minors-rescan}
use hwprivacy.DeviceIndex.{
  Listing, rescan, capture_minors, classify_node, index_entry, index_node, role_eq, scan_dir,
}
use hwprivacy.History.{
  HistoryKey, Access, record_each, denied_count, denials, saturating_add, denied_count-record_each,
}
use hwprivacy.KernelPerms.{perms_word, parse_perms}
use hwprivacy.RuleMerge.Splits.{RuleSplit}

abbrev cheese_access : AllowedAccess
cheese_access = record { app = codes "cheese"; device = DeviceCategory.camera; pid = 7 }

abbrev some_split : RuleSplit
some_split = ((codes "firefox", codes "cheese"), (codes "/bin/cheese", []))

abbrev key : PolicyKey
key = record { exe_ino = 9; exe_dev = 3 }

-- Two paths of one file: the map has it once, with both bits.
abbrev linked : Policy
linked = record {
  entries =
      record { path = codes "/bin/obs"; key = key; perms = 1 }
      ∷ record { path = codes "/opt/obs"; key = key; perms = 2 }
      ∷ [];
  unresolved = [];
}

merged_test : to_map linked ≡ (key_of key, 3) ∷ []
unfolding to_map nat_eq pair_eq get insert bit_or
merged_test = refl

abbrev cached : List (Text × ℕ)
cached = (codes "/bin/cheese", 1) ∷ (codes "/bin/pipewire", 2) ∷ []

-- A path that holds a `#` is cut.
hash_test : parse (λ _. some key) (render_cache ((codes "/opt/c#/x", 1) ∷ [])) ≡ record {
  entries = record { path = codes "/opt/c"; key = key; perms = 1 } ∷ [];
  unresolved = [];
}
unfolding nat_eq parse parse_lines lines_of render_cache perms_word parse_line trim before_hash
    parse_entry split_space strip_prefix parse_perms list_eq push_path
hash_test = refl

abbrev firefox_key : HistoryKey
firefox_key = ((codes "firefox", codes "camera"), codes "kernel")

abbrev accesses : List Access
accesses =
    record { key = firefox_key; count = 3; was_denied = true; now = codes "1" }
    ∷ record { key = firefox_key; count = 4; was_denied = false; now = codes "2" }
    ∷ record { key = firefox_key; count = 5; was_denied = true; now = codes "3" }
    ∷ []

denied_count_example :
    denied_count (record_each (record { by_key = []; dirty = false }) accesses) firefox_key
    ≡ saturating_add 0 (denials firefox_key accesses)
unfolding get
denied_count_example =
    denied_count-record_each (record { by_key = []; dirty = false }) accesses firefox_key
      (omega arith)

abbrev sound_nodes : Listing
sound_nodes =
    (codes "pcmC0D0c", some (116, 9))
    ∷ (codes "pcmC0D0p", some (116, 8))
    ∷ (codes "controlC0", some (116, 11))
    ∷ []

capture_minors_example :
    contains (capture_minors (rescan [] sound_nodes)) 9
    ≡ capture_name (last_named (last_named none 9 (video_files [])) 9 sound_nodes)
capture_minors_example = capture_minors-rescan [] sound_nodes 9

-- The microphone is denied, and the speaker and the mixer are not.
capture_minors_test : capture_minors (rescan [] sound_nodes) ≡ 9 ∷ []
unfolding nat_eq capture_minors rescan scan_dir index_entry index_node insert pair_eq role_eq
    classify_node strip_prefix ends_with
capture_minors_test = refl
