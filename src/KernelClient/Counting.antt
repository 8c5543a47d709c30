-- ===== src/KernelClient/Counting.antt =====
-- What an event of the kernel layer adds to the two counts of denials: the tracker's, which starts
-- with the daemon, and the table's, which outlives it.
use hwprivacy.Common.{
  ℕ, ◌+◌, ◌-◌, ◌%◌, ◌^◌, ◌<◌, ◌≤◌, ◌≡◌, sym, ap, subst, ◌∙◌, true, false, none, some, [], ◌∷◌,
  arith, ◌==◌, ==_refl, nat_eq, list_eq, pair_eq, if◌then◌else◌, if_holds, if_true, if_false, ltb,
  get, get-remove, contains_key, Bool-cases, Option-cases,
}
use hwprivacy.Common.Text.{Text}
use hwprivacy.Daemon.{DaemonState, Moment, TaskResult, policy_dirty}
use hwprivacy.Device.{DeviceCategory, camera, category_eq}
use hwprivacy.History.{
  History, HistoryKey, denied_count, denied_count-record_access, record_denied, record_allowed,
  saturating_add, saturating_add-le,
}
use hwprivacy.KernelClient.{
  KernelPause, denied_opens, allowed_opens, category_of_role, session_key_for_release, rule_key_for,
  kernel_key, count_allowed, handle_release, handle_summary, log_access, announce_kernel,
  notify_allowed_kernel, prompt_kernel_camera_denial, handle_denial, handle_role, handle_event,
}
use hwprivacy.Names.{Lowercase, short_name}
use hwprivacy.NotifyAllow.{AllowedAccess}
use hwprivacy.Proto.{KernelEvent}
use hwprivacy.Stream.{action_eq}
use hwprivacy.StreamTracker.{StreamTracker, log_event, try_begin_prompt, session_key}

-- No other task changes the state meanwhile.
abbrev pub still : KernelPause → DaemonState → DaemonState
still p s = s

add_summary : (b n : ℕ) → n < 2 ^ 32 → (b + (n + 2 ^ 32 - 0) % 2 ^ 32) % 2 ^ 32 ≡ (b + n) % 2 ^ 32
add_summary b n h = omega arith

add_denial :
    (b n : ℕ)
    → n < 2 ^ 32
    → ((b + 1) % 2 ^ 32 + (n + 2 ^ 32 - 1) % 2 ^ 32) % 2 ^ 32 ≡ (b + n) % 2 ^ 32
add_denial b n h = omega arith

denied_opens-lt : (ev : KernelEvent) → ev.additional_opens < 2 ^ 32 → denied_opens ev < 2 ^ 32
unfolding denied_opens
denied_opens-lt ev h = ground arith

denied_opens-allowed : (ev : KernelEvent) → ev.denied ≡ false → denied_opens ev ≡ 0
unfolding denied_opens
denied_opens-allowed ev h = ground arith

saturating_add_zero : (n : ℕ) → n ≤ 4_294_967_295 → saturating_add n 0 ≡ n
saturating_add_zero n h = ground (arith, Bool-cases (ltb 4_294_967_295 (n + 0)))

module _ (h : History) (key : HistoryKey) (n : ℕ) (stamp : Text)
    (fits : denied_count h key ≤ 4_294_967_295) where
  count-denied :
      denied_count (record_denied h key n stamp) key ≡ saturating_add (denied_count h key) n
  unfolding record_denied
  count-denied =
      denied_count-record_access h key key n 0 stamp fits
      ∙ ap (λ b. saturating_add (denied_count h key) (if b then n else 0)) (==_refl key)

  count-allowed : denied_count (record_allowed h key n stamp) key ≡ denied_count h key
  unfolding record_allowed
  count-allowed =
      denied_count-record_access h key key 0 n stamp fits
      ∙ ap (λ b. saturating_add (denied_count h key) (if b then 0 else 0)) (==_refl key)
      ∙ saturating_add_zero (denied_count h key) fits

module _ ⦃lc : Lowercase⦄ (moment : Moment) where
  -- The two counts after a step, from those before it and the opens that were denied.
  abbrev pub Counts : HistoryKey → ℕ → DaemonState → DaemonState → Type 0
  Counts key n s after =
      (after.tracker.blocked_count % 2 ^ 32 ≡ (s.tracker.blocked_count + n) % 2 ^ 32)
      × (denied_count after.history key ≡ saturating_add (denied_count s.history key) n)

  module _ (s : DaemonState) (ev : KernelEvent) (category : DeviceCategory)
      (small : ev.additional_opens < 2 ^ 32)
      (fits : denied_count s.history (kernel_key ev.exe_path category) ≤ 4_294_967_295) where
    Counts-summary :
        Counts
          (kernel_key ev.exe_path category)
          (denied_opens ev)
          s
          (handle_summary moment s ev category)
    unfolding handle_summary
    Counts-summary = ground (
      arith,
      add_summary s.tracker.blocked_count (denied_opens ev) (denied_opens-lt ev small),
      denied_opens-allowed ev,
      count-denied s.history (kernel_key ev.exe_path category) (denied_opens ev) moment.stamp fits,
      count-allowed s.history (kernel_key ev.exe_path category) (allowed_opens ev) moment.stamp
          fits,
      saturating_add_zero (denied_count s.history (kernel_key ev.exe_path category)) fits,
      Bool-cases ev.denied,
    )

    Counts-access :
        Counts
          (kernel_key ev.exe_path category)
          (denied_opens ev)
          s
          (log_access moment s ev category)
    unfolding log_access log_event action_eq
    Counts-access = ground (
      arith,
      add_denial s.tracker.blocked_count (denied_opens ev) (denied_opens-lt ev small),
      add_summary s.tracker.blocked_count (denied_opens ev) (denied_opens-lt ev small),
      denied_opens-allowed ev,
      count-denied s.history (kernel_key ev.exe_path category) (denied_opens ev) moment.stamp fits,
      saturating_add_zero (denied_count s.history (kernel_key ev.exe_path category)) fits,
      Bool-cases ev.denied,
    )

    blocked-handle_denial :
        (t : DaemonState)
        → (handle_denial moment still t ev category).state.tracker.blocked_count
          ≡ t.tracker.blocked_count
    unfolding handle_denial prompt_kernel_camera_denial try_begin_prompt
    blocked-handle_denial t = ground arith

    history-handle_denial :
        (t : DaemonState) → (handle_denial moment still t ev category).state.history ≡ t.history
    unfolding handle_denial prompt_kernel_camera_denial
    history-handle_denial t = ground arith

    tracker-notify :
        (t : DaemonState) → (notify_allowed_kernel moment t ev category).state.tracker ≡ t.tracker
    unfolding notify_allowed_kernel
    tracker-notify t = ground arith

    history-announce :
        (t : DaemonState) (access : AllowedAccess)
        → (announce_kernel moment t access).state.history ≡ t.history
    history-announce t access = ground arith

    count-notify :
        (t : DaemonState)
        → denied_count t.history (kernel_key ev.exe_path category) ≤ 4_294_967_295
        → denied_count
            (notify_allowed_kernel moment t ev category).state.history
            (kernel_key ev.exe_path category)
          ≡ denied_count t.history (kernel_key ev.exe_path category)
    unfolding notify_allowed_kernel
    count-notify t b = ground (
      arith,
      history-announce (count_allowed moment t ev category),
      count-allowed t.history (kernel_key ev.exe_path category) (allowed_opens ev) moment.stamp b,
      Bool-cases (category == camera),
    )

    Counts-after :
        (t after : DaemonState)
        → Counts (kernel_key ev.exe_path category) (denied_opens ev) s t
        → after.tracker.blocked_count ≡ t.tracker.blocked_count
        → denied_count after.history (kernel_key ev.exe_path category)
          ≡ denied_count t.history (kernel_key ev.exe_path category)
        → Counts (kernel_key ev.exe_path category) (denied_opens ev) s after
    Counts-after t after (b, c) e f = (ap (λ n. n % 2 ^ 32) e ∙ b, f ∙ c)

    Counts-denial :
        Counts
          (kernel_key ev.exe_path category)
          (denied_opens ev)
          s
          (handle_denial moment still (log_access moment s ev category) ev category).state
    Counts-denial =
        let t = log_access moment s ev category in
        Counts-after t (handle_denial moment still t ev category).state Counts-access
          (blocked-handle_denial t)
          (ap (λ h. denied_count h (kernel_key ev.exe_path category)) (history-handle_denial t))

    Counts-allowed :
        Counts
          (kernel_key ev.exe_path category)
          (denied_opens ev)
          s
          (notify_allowed_kernel moment (log_access moment s ev category) ev category).state
    Counts-allowed =
        let t = log_access moment s ev category in
        Counts-after t (notify_allowed_kernel moment t ev category).state Counts-access
          (ap (λ (u : StreamTracker). u.blocked_count) (tracker-notify t))
          (count-notify t (
            subst (λ n. n ≤ 4_294_967_295) (sym Counts-access.1)
              (saturating_add-le (denied_count s.history (kernel_key ev.exe_path category))
                (denied_opens ev))))

  -- An event on a camera or a microphone that is no release adds the opens that it stands for, if
  -- they were denied, to the tracker's count in 32 bits, and as many to the count of its executable
  -- and device in the table, which stays at the largest number once it is there. An allowed event
  -- adds nothing to either. No other task runs meanwhile, and the numbers that come in fit in 32
  -- bits.
  pub handle_event-Counts :
      (s : DaemonState) (ev : KernelEvent) (category : DeviceCategory)
      → ev.additional_opens < 2 ^ 32
      → denied_count s.history (kernel_key ev.exe_path category) ≤ 4_294_967_295
      → category_of_role ev.role ≡ some category
      → ev.released ≡ false
      → Counts
          (kernel_key ev.exe_path category)
          (denied_opens ev)
          s
          (handle_event moment still s ev).state
  unfolding handle_event
  handle_event-Counts s ev category small fits role held =
      let P : TaskResult → Type 0 =
        λ o. Counts (kernel_key ev.exe_path category) (denied_opens ev) s o.state in
      subst P (sym (ap (handle_role moment still s ev) role)) (
        if_false P ev.released _ held (
          if_holds P (ev.pid == 0) (Counts-summary s ev category small fits) (
            if_holds P ev.denied (Counts-denial s ev category small fits)
              (Counts-allowed s ev category small fits))))

  -- What a release does to the session of its owner, to the effects and to the counts.
  abbrev pub Releases : DaemonState → KernelEvent → DeviceCategory → TaskResult → Type 0
  Releases s ev category o =
      let owner =
        session_key (rule_key_for s.config ev.exe_path (short_name ev.exe_path)) category in
      (get o.state.tracker.while_in_use owner ≡ none)
      × (o.effects ≡ (if contains_key s.tracker.while_in_use owner then policy_dirty ∷ [] else []))
      × (o.state.tracker.blocked_count ≡ s.tracker.blocked_count)
      × (o.state.history ≡ s.history)

  Releases-handle_release :
      (s : DaemonState) (ev : KernelEvent) (category : DeviceCategory)
      → Releases s ev category (handle_release moment s ev category)
  unfolding handle_release session_key_for_release log_event action_eq
  Releases-handle_release s ev category =
      let owner =
        session_key (rule_key_for s.config ev.exe_path (short_name ev.exe_path)) category in
      ground (
        arith,
        get-remove s.tracker.while_in_use owner owner,
        ==_refl owner,
        Option-cases (get s.tracker.while_in_use owner),
      )

  -- The end of an access ends the session of the rule that owns the executable, or of the
  -- executable's own name if none does, and asks for the policy to be pushed exactly if there was
  -- such a session. It adds nothing to either count.
  pub handle_event-Releases :
      (s : DaemonState) (ev : KernelEvent) (category : DeviceCategory)
      → category_of_role ev.role ≡ some category
      → ev.released ≡ true
      → Releases s ev category (handle_event moment still s ev)
  unfolding handle_event
  handle_event-Releases s ev category role closed =
      subst (Releases s ev category) (sym (ap (handle_role moment still s ev) role)) (
        if_true (Releases s ev category) ev.released _ closed
          (Releases-handle_release s ev category))
