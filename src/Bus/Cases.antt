-- ===== src/Bus/Cases.antt =====
-- A call of the bus goes on where a step succeeds, and stops where it fails.
use hwprivacy.Common.{
  ◌≡◌, refl, Bool, true, false, Option, none, some, List, nat_eq, list_eq, if◌then◌else◌,
}
use hwprivacy.Bus.{Choices, chosen, unreadable}
use hwprivacy.Common.Text.{Text}
use hwprivacy.Config.{Config}
use hwprivacy.Config.Rules.{ExeError, ExeResult, done, failed}
use hwprivacy.Device.{DeviceCategory}
use hwprivacy.Preset.{Preset}
use hwprivacy.RuleMerge.{MergeChoices, MergeError, Line, MergeResult, merged, merge_rules}
use hwprivacy.RuleMerge

pub data BusCall : Type 0 where
  set_rule_request : Text → Text → Text → BusCall
  set_rule_exe_request allow_camera_request : Text → Text → BusCall
  remove_rule_request : Text → BusCall
  merge_rules_request : Text → Text → Text → Text → Text → Bool → BusCall
  import_preset_request : Text → Option Preset → Bool → BusCall
  block_all_request unblock_all_request : BusCall

-- A property of a call that goes on where a step succeeds, from its property on either way.
module _ {A B : Type 0} (P : B → Type 0) where
  pub on_option :
      (o : Option A) (stop : B) (go : A → B)
      → P stop
      → ((a : A) → o ≡ some a → P (go a))
      → P (elim o [ none ↦ stop | some a ↦ go a ])
  on_option none stop go h k = h
  on_option (some a) stop go h k = k a refl

module _ {B : Type 0} (P : B → Type 0) where
  pub on_exe :
      (r : ExeResult) (stop : ExeError → B) (go : Config → B)
      → ((why : ExeError) → r ≡ failed why → P (stop why))
      → ((config : Config) → r ≡ done config → P (go config))
      → P (elim r [ failed why ↦ stop why | done config ↦ go config ])
  on_exe (done config) stop go h k = k config refl
  on_exe (failed why) stop go h k = h why refl

  pub on_merge :
      (r : MergeResult) (stop : MergeError → B) (go : Config → List Line → B)
      → ((why : MergeError) → P (stop why))
      → ((config : Config) (lines : List Line) → r ≡ merged config lines → P (go config lines))
      → P (elim r [ RuleMerge.failed why ↦ stop why | merged config lines ↦ go config lines ])
  on_merge (merged config lines) stop go h k = k config lines refl
  on_merge (RuleMerge.failed why) stop go h k = h why

  pub on_choices :
      (r : Choices) (stop : Text → DeviceCategory → B) (go : MergeChoices → B)
      → ((text : Text) (category : DeviceCategory) → P (stop text category))
      → ((choices : MergeChoices) → P (go choices))
      → P (elim r [ unreadable text category ↦ stop text category | chosen choices ↦ go choices ])
  on_choices (chosen choices) stop go h k = k choices
  on_choices (unreadable text category) stop go h k = h text category

  pub on_test : (b : Bool) (x y : B) → P x → P y → P (if b then x else y)
  on_test true x y h k = h
  on_test false x y h k = k
