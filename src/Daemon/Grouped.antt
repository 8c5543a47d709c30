-- ===== src/Daemon/Grouped.antt =====
-- hwprivacy-daemon/src/main.rs: what the groups of `group_links` hold, by device and stream.
use hwprivacy.Common.{
  ℕ, ◌≡◌, refl, sym, subst, inl, inr, ◌∙◌, Bool, false, ◌&&◌, ◌||◌, ◌≤◌, retain, length, List, [],
  ◌∷◌, ◌++◌, arith, ◌==◌, ==→≡, ==_refl, nat_eq, list_eq, pair_eq, if◌then◌else◌, contains, map,
  Distinct, Bool-cases,
}
use hwprivacy.Common.Text.{Text}
use hwprivacy.Device.{DeviceCategory, category_eq}
use hwprivacy.PolicyEngine.{LinkMatch}
use hwprivacy.Daemon.Groups.{
  LinkGroup, GroupKey, key_of_match, group_key, links_of_key, ids_of_key, group_links,
  group_links_keys,
}

-- A match is about a device, by category and name, and a stream of an application.
abbrev pub is_about : DeviceCategory → Text → ℕ → LinkMatch → Bool
is_about category node_name node_id m =
    m.device.category == category && m.device.node_name == node_name && m.stream.node_id == node_id

-- The links of the groups, and of the matches, that pass a test.
abbrev pub links_about : (LinkMatch → Bool) → List LinkGroup → List ℕ
links_about test [] = []
links_about test (g ∷ groups) = (if test g.m then g.link_ids else []) ++ links_about test groups

abbrev pub ids_about : (LinkMatch → Bool) → List (ℕ × LinkMatch) → List ℕ
ids_about test [] = []
ids_about test ((link_id, m) ∷ matches) =
    let rest = ids_about test matches in if test m then link_id ∷ rest else rest

abbrev pub groups_about : (LinkMatch → Bool) → List LinkGroup → List LinkGroup
groups_about test groups = retain (λ (g : LinkGroup). test g.m) groups

is_about-key :
    (category : DeviceCategory) (node_name : Text) (node_id : ℕ) (m : LinkMatch)
    → is_about category node_name node_id m ≡ (key_of_match m == ((category, node_name), node_id))
is_about-key category node_name node_id m = ground (
  arith,
  ==→≡ m.device.category category,
  ==→≡ {A = Text} m.device.node_name node_name,
  ==→≡ m.stream.node_id node_id,
  ==_refl category,
  ==_refl {A = Text} node_name,
  ==_refl node_id,
  ==→≡ {A = GroupKey} (key_of_match m) ((category, node_name), node_id),
  ==_refl {A = GroupKey} (key_of_match m),
)

-- A test that is for one key.
module _ (test : LinkMatch → Bool) (key : GroupKey)
    (one : (m : LinkMatch) → test m ≡ (key_of_match m == key)) where
  links_about-key :
      (groups : List LinkGroup) → links_about test groups ≡ links_of_key key_of_match key groups
  links_about-key [] = refl
  links_about-key (g ∷ groups) = rw (one g.m, links_about-key groups)

  ids_about-key :
      (matches : List (ℕ × LinkMatch))
      → ids_about test matches ≡ ids_of_key key_of_match key matches
  ids_about-key [] = refl
  ids_about-key ((link_id, m) ∷ matches) = rw (one m, ids_about-key matches)

  groups_about-none :
      (groups : List LinkGroup)
      → contains (map (group_key key_of_match) groups) key ≡ false
      → groups_about test groups ≡ []
  groups_about-none [] h = refl
  groups_about-none (g ∷ groups) h = elim (Bool-cases (test g.m)) [
    | inl e ↦
        let same : key_of_match g.m ≡ key = ==→≡ (key_of_match g.m) key (sym (one g.m) ∙ e) in
        let rest = contains (map (group_key key_of_match) groups) key in
        absurd (
          ground
            (arith, subst (λ k. (key == k || rest) ≡ false) same h, ==_refl {A = GroupKey} key))
    | inr e ↦ rw e (groups_about-none groups (ground (arith, h)))
  ]

  groups_about-one :
      (groups : List LinkGroup)
      → Distinct (map (group_key key_of_match) groups)
      → length (groups_about test groups) ≤ 1
  groups_about-one [] d = ground arith
  groups_about-one (g ∷ groups) (fresh, d) = ground (
    arith,
    groups_about-one groups d,
    groups_about-none groups,
    one g.m,
    ==→≡ {A = GroupKey} (key_of_match g.m) key,
  )

-- Of a device, by category and name, and a stream, group_links makes one group at most, and that group
-- holds all links that were matched to them, each as often as it was matched and in order, and no
-- others.
pub group_links_lem :
    (matches : List (ℕ × LinkMatch)) (category : DeviceCategory) (node_name : Text) (node_id : ℕ)
    → let test = is_about category node_name node_id in
      (length (groups_about test (group_links matches)) ≤ 1)
      × (links_about test (group_links matches) ≡ ids_about test matches)
group_links_lem matches category node_name node_id =
    let key : GroupKey = ((category, node_name), node_id) in
    let test = is_about category node_name node_id in
    let one = is_about-key category node_name node_id in
    let (distinct, same) = group_links_keys matches key in
    (
      groups_about-one test key one (group_links matches) distinct,
      links_about-key test key one (group_links matches)
          ∙ same
          ∙ sym (ids_about-key test key one matches),
    )
