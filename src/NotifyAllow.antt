-- ===== src/NotifyAllow.antt =====
-- hwprivacy-daemon/src/notify_allow.rs: when an allowed access is announced. An `Instant` is a
-- number of nanoseconds on one clock, and so is a `Duration`.
use hwprivacy.Common.{
  ℕ, ◌≡◌, Bool, true, false, not, ◌&&◌, Option, none, some, [], arith, ◌==◌, nat_eq, list_eq,
  pair_eq, if◌then◌else◌, leb, Map, get, insert, get-insert, Bool-cases,
}
use hwprivacy.Common.Text.{Text}
use hwprivacy.Device.{DeviceCategory, category_eq}
use hwprivacy.Config.{PolicyConfig}
use hwprivacy.StreamTracker.{elapsed, as_secs}

pub record AllowNotifier : Type 0 where
  pub last : Map (Text × DeviceCategory) ℕ

pub record AllowedAccess : Type 0 where
  pub app : Text
  pub device : DeviceCategory
  pub pid : ℕ

-- `(access.app.to_string(), access.device)`
abbrev pub access_key : AllowedAccess → Text × DeviceCategory
access_key access = (access.app, access.device)

-- `now.duration_since(prev).as_secs() >= cooldown`, and true if there is none.
abbrev pub is_cooled_down : Option ℕ → ℕ → ℕ → Bool
is_cooled_down none now cooldown = true
is_cooled_down (some prev) now cooldown = leb cooldown (as_secs (elapsed now prev))

unfoldable pub should_notify : AllowNotifier → AllowedAccess → ℕ → ℕ → PolicyConfig → Bool
should_notify notifier access uptime now cfg =
    if not cfg.notify_on_allow
    then false
    else if access.pid == 0
    then false
    else if leb (as_secs uptime) cfg.notify_allow_grace_secs
    then false
    else is_cooled_down (get notifier.last (access_key access)) now cfg.notify_allow_cooldown_secs

unfoldable pub mark_notified : AllowNotifier → AllowedAccess → ℕ → AllowNotifier
mark_notified notifier access now = record notifier {
  last = insert (access_key access) now notifier.last;
}

-- After an announcement, an access of the same application and device would be announced exactly
-- if it could be by a notifier that announced nothing yet and the cooldown is over, in whole
-- seconds since that announcement. One of another pair is announced as it would have been before.
pub should_notify-mark_notified :
    (notifier : AllowNotifier) (announced access : AllowedAccess) (at uptime now : ℕ)
    (cfg : PolicyConfig)
    → should_notify (mark_notified notifier announced at) access uptime now cfg ≡ (
        if access_key announced == access_key access
        then should_notify (record { last = [] }) access uptime now cfg
          && leb cfg.notify_allow_cooldown_secs (as_secs (elapsed now at))
        else should_notify notifier access uptime now cfg)
unfolding should_notify mark_notified get
should_notify-mark_notified notifier announced access at uptime now cfg = ground (
  arith,
  get-insert notifier.last (access_key announced) (access_key access) at,
  Bool-cases ((access_key announced) == (access_key access)),
)
