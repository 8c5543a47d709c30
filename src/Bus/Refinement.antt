-- ===== src/Bus/Refinement.antt =====
-- Whatever the interfaces call over the bus, in any order, and whichever writes fail, the rules in
-- memory and in the file are those that the edits of the library can make.
use hwprivacy.Bus.{
  Called, set_rule_call, set_rule_exe_call, allow_camera_call, remove_rule_call, merge_rules_call,
  import_preset_call, block_all_call, unblock_all_call,
}
use hwprivacy.Bus.Laws.{
  AreEdits, set_rule_call-AreEdits, set_rule_exe_call-AreEdits, allow_camera_call-AreEdits,
  remove_rule_call-AreEdits, merge_rules_call-AreEdits, import_preset_call-AreEdits,
}
use hwprivacy.Common.{Bool, Option, none, some, List, [], ◌∷◌, All}
use hwprivacy.Common.Text.{Text}
use hwprivacy.Config.{Config}
use hwprivacy.Config.Invariant.{IsTidy}
use hwprivacy.Daemon.{DaemonState}
use hwprivacy.Edits.{Edits-IsTidy, AsksNoCameraSession}
use hwprivacy.Names.{Lowercase}
use hwprivacy.Preset.{Preset}

-- A call, with its arguments as they come over the bus. The preset is the one that loads.
pub data BusCall : Type 0 where
  set_rule_request : Text → Text → Text → BusCall
  set_rule_exe_request : Text → Text → BusCall
  allow_camera_request : Text → Text → BusCall
  remove_rule_request : Text → BusCall
  merge_rules_request : Text → Text → Text → Text → Text → Bool → BusCall
  import_preset_request : Text → Option Preset → Bool → BusCall
  block_all_request : BusCall
  unblock_all_request : BusCall

abbrev pub Held : Type 0
Held = DaemonState × Config

abbrev left_by : {A : Type 0} → Called A → Held
left_by c = (c.state, c.saved)

module _ ⦃lc : Lowercase⦄ where
  -- An imported preset asks for no camera session.
  abbrev pub AsksNoSession : BusCall → Type 0
  AsksNoSession (set_rule_request app device perm) = Unit
  AsksNoSession (set_rule_exe_request app exe) = Unit
  AsksNoSession (allow_camera_request app exe) = Unit
  AsksNoSession (remove_rule_request app) = Unit
  AsksNoSession (merge_rules_request from into mic cam mon apply) = Unit
  AsksNoSession (import_preset_request name none apply) = Unit
  AsksNoSession (import_preset_request name (some preset) apply) =
      All AsksNoCameraSession preset.apps
  AsksNoSession block_all_request = Unit
  AsksNoSession unblock_all_request = Unit

  abbrev pub after_request : (Text → Bool) → Bool → Held → BusCall → Held
  after_request exists can_write (s, saved) (set_rule_request app device perm) =
      left_by (set_rule_call exists can_write s saved app device perm)
  after_request exists can_write (s, saved) (set_rule_exe_request app exe) =
      left_by (set_rule_exe_call exists can_write s saved app exe)
  after_request exists can_write (s, saved) (allow_camera_request app exe) =
      left_by (allow_camera_call exists can_write s saved app exe)
  after_request exists can_write (s, saved) (remove_rule_request app) =
      left_by (remove_rule_call exists can_write s saved app)
  after_request exists can_write (s, saved) (merge_rules_request from into mic cam mon apply) =
      left_by (merge_rules_call exists can_write s saved from into mic cam mon apply)
  after_request exists can_write (s, saved) (import_preset_request name preset apply) =
      left_by (import_preset_call exists can_write s saved name preset apply)
  after_request exists can_write (s, saved) block_all_request = left_by (block_all_call s saved)
  after_request exists can_write (s, saved) unblock_all_request = left_by (unblock_all_call s saved)

  -- The calls in order, each with the files that exist then, and whether the configuration can be
  -- written.
  unfoldable pub after_bus_calls : Held → List ((Text → Bool) × Bool × BusCall) → Held
  after_bus_calls held [] = held
  after_bus_calls held ((exists, can_write, call) ∷ calls) =
      after_bus_calls (after_request exists can_write held call) calls

  after_request-AreEdits :
      (exists : Text → Bool) (can_write : Bool) (s : DaemonState) (saved : Config) (call : BusCall)
      → AsksNoSession call
      → AreEdits s saved
      → let (s', saved') = after_request exists can_write (s, saved) call in AreEdits s' saved'
  unfolding import_preset_call
  after_request-AreEdits exists can_write s saved (set_rule_request app device perm) fit h =
      set_rule_call-AreEdits exists can_write s saved app device perm h
  after_request-AreEdits exists can_write s saved (set_rule_exe_request app exe) fit h =
      set_rule_exe_call-AreEdits exists can_write s saved app exe h
  after_request-AreEdits exists can_write s saved (allow_camera_request app exe) fit h =
      allow_camera_call-AreEdits exists can_write s saved app exe h
  after_request-AreEdits exists can_write s saved (remove_rule_request app) fit h =
      remove_rule_call-AreEdits exists can_write s saved app h
  after_request-AreEdits exists can_write s saved (merge_rules_request from into mic cam mon apply)
        fit h =
      merge_rules_call-AreEdits exists can_write s saved from into mic cam mon apply h
  after_request-AreEdits exists can_write s saved (import_preset_request name none apply) fit h = h
  after_request-AreEdits exists can_write s saved (import_preset_request name (some preset) apply)
        fit h =
      import_preset_call-AreEdits exists can_write s saved name preset apply fit h
  after_request-AreEdits exists can_write s saved block_all_request fit h = h
  after_request-AreEdits exists can_write s saved unblock_all_request fit h = h

  -- Where memory and file hold rules that edits of the default configuration make, they do after any
  -- calls, if no imported preset asks for a camera session; so every stored name is its own key, no key
  -- has two rules, and no rule holds `while_in_use` for the camera.
  pub after_bus_calls-AreEdits :
      (s : DaemonState) (saved : Config) (calls : List ((Text → Bool) × Bool × BusCall))
      → All (λ (_, _, call). AsksNoSession call) calls
      → AreEdits s saved
      → let (s', saved') = after_bus_calls (s, saved) calls in
        AreEdits s' saved' × IsTidy s'.config × IsTidy saved'
  unfolding after_bus_calls
  after_bus_calls-AreEdits s saved [] fit (e, f) = ((e, f), Edits-IsTidy e, Edits-IsTidy f)
  after_bus_calls-AreEdits s saved ((exists, can_write, call) ∷ calls) (fit, fits) h =
      let held = after_request exists can_write (s, saved) call in
      after_bus_calls-AreEdits held.0 held.1 calls fits
        (after_request-AreEdits exists can_write s saved call fit h)
