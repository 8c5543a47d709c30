-- ===== src/StreamTracker/Prompts.antt =====
-- At most one prompt is out for an application and a device.
use hwprivacy.Common.{
  ◌≡◌, not, ◌&&◌, ◌||◌, arith, ◌==◌, ==→≡, nat_eq, list_eq, pair_eq, contains, contains-retain,
  Bool-cases,
}
use hwprivacy.Common.Text.{Text}
use hwprivacy.Device.{DeviceCategory, category_eq}
use hwprivacy.Names.{Lowercase}
use hwprivacy.StreamTracker.{
  StreamTracker, session_key, try_begin_prompt, end_prompt, prompt_pending,
}

module _ ⦃lc : Lowercase⦄ where
  -- Whether a prompt may begin is whether none is out for the pair. Then one is out for it, and for
  -- every other pair as before; the end of a prompt clears its pair, and no other.
  pub prompt_lem :
      (tracker : StreamTracker) (app_name other : Text) (category device : DeviceCategory)
      → let same = session_key app_name category == session_key other device in
        let (begun, fresh) = try_begin_prompt tracker app_name category in
        (fresh ≡ not (prompt_pending tracker app_name category))
        × (prompt_pending begun other device ≡ (same || prompt_pending tracker other device))
        × (prompt_pending (end_prompt tracker app_name category) other device
            ≡ (not same && prompt_pending tracker other device))
  unfolding try_begin_prompt end_prompt prompt_pending
  prompt_lem tracker app_name other category device = ground (
    arith,
    Bool-cases (contains tracker.pending_prompts (session_key app_name category)),
    ==→≡ (session_key app_name category) (session_key other device),
    contains-retain (λ key. not (key == session_key app_name category)) tracker.pending_prompts
        (session_key other device),
    ==→≡ (session_key other device) (session_key app_name category),
  )
