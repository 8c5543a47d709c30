-- ===== src/Daemon/Safety.antt =====
-- Which links the daemon destroys: those of a guarded device, unless the policy allows the access.
use mathlib.Core.List.{append-nil, append_assoc}
use hwprivacy.Common.{
  ℕ, ◌≡◌, refl, sym, ap, ◌∙◌, Bool, not, ◌&&◌, ◌||◌, List, [], ◌∷◌, ◌++◌, arith, ◌==◌, nat_eq,
  list_eq, pair_eq, if◌then◌else◌, Map, Bool-cases,
}
use hwprivacy.Config.{is_guarded}
use hwprivacy.Daemon.{DaemonState, Moment, Effect, destroy_links, TaskResult}
use hwprivacy.Daemon.Enforce.{
  Pause, before_cooldown, before_claim, allow_group, claim_prompt, ask_group, announce_allowed,
  decision_of, handle_decision, handle_group,
}
use hwprivacy.Daemon.Groups.{LinkGroup}
use hwprivacy.Device.{category_eq}
use hwprivacy.LinkAudit.{LinkKey}
use hwprivacy.Names.{Lowercase}
use hwprivacy.NotifyAllow.{AllowedAccess}
use hwprivacy.PolicyEngine.{PolicyDecision, allow, deny, decision_eq}

abbrev pub destroyed_by : Effect → List ℕ
destroyed_by effect = elim effect [ destroy_links link_ids ↦ link_ids | _ ↦ [] ]

-- The links that are destroyed, in order.
abbrev pub destroyed : List Effect → List ℕ
destroyed [] = []
destroyed (effect ∷ effects) = destroyed_by effect ++ destroyed effects

pub destroyed-append : (xs ys : List Effect) → destroyed (xs ++ ys) ≡ destroyed xs ++ destroyed ys
destroyed-append [] ys = refl
destroyed-append (x ∷ xs) ys =
    ap (λ ids. destroyed_by x ++ ids) (destroyed-append xs ys)
    ∙ sym (append_assoc (destroyed_by x) (destroyed xs) (destroyed ys))

abbrev pub guards : DaemonState → LinkGroup → Bool
guards s g = is_guarded s.config.devices g.m.device.category

module _ ⦃lc : Lowercase⦄ (moment : Moment) where
  abbrev DestroysNothing : TaskResult → Type 0
  DestroysNothing o = destroyed o.effects ≡ []

  announce-destroys :
      (s : DaemonState) (access : AllowedAccess)
      → DestroysNothing (announce_allowed moment s access)
  announce-destroys s access = ground arith

  abbrev pub must_destroy : DaemonState → LinkGroup → Bool
  must_destroy s g = guards s g && (s.block_all || not (decision_of moment s g == allow))

  module _ (others : Pause → DaemonState → DaemonState) where
    claim-destroys :
        (s : DaemonState) (g : LinkGroup) → DestroysNothing (claim_prompt moment others s g)
    unfolding claim_prompt
    claim-destroys s g = ground arith

    ask-destroys : (s : DaemonState) (g : LinkGroup) → DestroysNothing (ask_group moment others s g)
    unfolding ask_group
    ask-destroys s g = ground (arith, claim-destroys (others before_claim s) g)

    destroyed-handle_decision :
        (decision : PolicyDecision) (s : DaemonState) (keys : Map ℕ LinkKey) (g : LinkGroup)
        → destroyed (handle_decision moment others decision s keys g).effects
          ≡ (if decision == allow then [] else g.link_ids)
    unfolding handle_decision allow_group decision_eq
    destroyed-handle_decision allow s keys g = announce-destroys _ _
    destroyed-handle_decision deny s keys g = append-nil g.link_ids
    destroyed-handle_decision PolicyDecision.ask_user s keys g =
        ap (λ ids. g.link_ids ++ ids) (ask-destroys (others before_cooldown s) g)
        ∙ append-nil g.link_ids

    -- Of a group, either all links are destroyed or none is. They are exactly if the device is
    -- guarded and all is blocked or the policy does not allow the access, whatever other tasks do
    -- to the state afterwards.
    pub destroyed-handle_group :
        (s : DaemonState) (keys : Map ℕ LinkKey) (g : LinkGroup)
        → destroyed (handle_group moment others s keys g).effects
          ≡ (if must_destroy s g then g.link_ids else [])
    unfolding handle_group
    destroyed-handle_group s keys g = ground (
      arith,
      append-nil g.link_ids,
      destroyed-handle_decision (decision_of moment s g) s keys g,
      Bool-cases (guards s g),
      Bool-cases s.block_all,
      Bool-cases (decision_of moment s g == allow),
    )
