-- ===== src/Daemon/Groups.antt =====
-- hwprivacy-daemon/src/main.rs: `group_links`. The links of one act of access are one group: one
-- device, one application, one question.
use mathlib.Core.List.{append-nil, append_assoc}
use hwprivacy.Common.{
  ℕ, ◌≡◌, refl, sym, ap, ◌∙◌, Bool, true, false, ◌||◌, List, [], ◌∷◌, ◌++◌, arith, Eq, ◌==◌, ==→≡,
  ==_refl, nat_eq, list_eq, pair_eq, if◌then◌else◌, contains, map, Distinct, Bool-cases,
}
use hwprivacy.Common.Text.{Text}
use hwprivacy.Device.{DeviceCategory, category_eq}
use hwprivacy.PolicyEngine.{LinkMatch}

pub record LinkGroup : Type 0 where
  pub link_ids : List ℕ
  pub m : LinkMatch

-- What one question is about: the device's category and name, and the stream.
abbrev pub GroupKey : Type 0
GroupKey = (DeviceCategory × Text) × ℕ

abbrev pub key_of_match : LinkMatch → GroupKey
key_of_match m = ((m.device.category, m.device.node_name), m.stream.node_id)

-- Grouping by any key.
module _ {ℓ} {K : Type ℓ} ⦃e : Eq K⦄ (key_of : LinkMatch → K) where
  -- `groups.iter_mut().find(..)`, and `push` on what is found or on the groups.
  unfoldable pub add_to_groups : List LinkGroup → ℕ → LinkMatch → List LinkGroup
  add_to_groups [] link_id m = record { link_ids = link_id ∷ []; m = m } ∷ []
  add_to_groups (g ∷ groups) link_id m =
      let rest = add_to_groups groups link_id m in
      if key_of g.m == key_of m
      then record g { link_ids = g.link_ids ++ link_id ∷ [] } ∷ groups
      else g ∷ rest

  unfoldable pub group_from : List LinkGroup → List (ℕ × LinkMatch) → List LinkGroup
  unfolding add_to_groups
  group_from groups [] = groups
  group_from groups ((link_id, m) ∷ matches) = group_from (add_to_groups groups link_id m) matches

  abbrev pub group_key : LinkGroup → K
  group_key g = key_of g.m

  -- The links of a key among the groups.
  abbrev pub links_of_key : K → List LinkGroup → List ℕ
  links_of_key key [] = []
  links_of_key key (g ∷ groups) =
      (if group_key g == key then g.link_ids else []) ++ links_of_key key groups

  -- The links of a key among the matches, in order.
  abbrev pub ids_of_key : K → List (ℕ × LinkMatch) → List ℕ
  ids_of_key key [] = []
  ids_of_key key ((link_id, m) ∷ matches) =
      let rest = ids_of_key key matches in if key_of m == key then link_id ∷ rest else rest

  contains-add :
      (groups : List LinkGroup) (link_id : ℕ) (m : LinkMatch) (key : K)
      → contains (map group_key (add_to_groups groups link_id m)) key
        ≡ (contains (map group_key groups) key || key_of m == key)
  unfolding add_to_groups
  contains-add [] link_id m key =
      ground (arith, ==→≡ {A = K} (key_of m) key, ==→≡ {A = K} key (key_of m), ==_refl {A = K} key)
  contains-add (g ∷ groups) link_id m key = ground (
    arith,
    contains-add groups link_id m key,
    ==→≡ {A = K} (key_of m) key,
    ==→≡ {A = K} key (key_of m),
    ==→≡ {A = K} (group_key g) (key_of m),
    ==→≡ {A = K} (group_key g) key,
    ==→≡ {A = K} key (group_key g),
    ==_refl {A = K} key,
  )

  Distinct-add :
      (groups : List LinkGroup) (link_id : ℕ) (m : LinkMatch)
      → Distinct (map group_key groups)
      → Distinct (map group_key (add_to_groups groups link_id m))
  unfolding add_to_groups
  Distinct-add [] link_id m d = (refl, tt)
  Distinct-add (g ∷ groups) link_id m (fresh, d) = ground (
    arith,
    Distinct-add groups link_id m d,
    contains-add groups link_id m (group_key g),
    ==→≡ {A = K} (key_of m) (group_key g),
    ==_refl {A = K} (group_key g),
  )

  links_of_absent :
      (key : K) (groups : List LinkGroup)
      → contains (map group_key groups) key ≡ false
      → links_of_key key groups ≡ []
  links_of_absent key [] h = refl
  links_of_absent key (g ∷ groups) h =
      ground
        (arith, links_of_absent key groups, ==→≡ {A = K} (group_key g) key, ==_refl {A = K} key)

  abbrev id_if : Bool → ℕ → List ℕ
  id_if b link_id = if b then link_id ∷ [] else []

  id_if-append :
      (b : Bool) (link_id : ℕ) (ids : List ℕ)
      → id_if b link_id ++ ids ≡ (if b then link_id ∷ ids else ids)
  id_if-append true link_id ids = refl
  id_if-append false link_id ids = refl

  links-add :
      (groups : List LinkGroup) (link_id : ℕ) (m : LinkMatch) (key : K)
      → Distinct (map group_key groups)
      → links_of_key key (add_to_groups groups link_id m)
        ≡ links_of_key key groups ++ id_if (key_of m == key) link_id
  unfolding add_to_groups
  links-add [] link_id m key d = ground (arith)
  links-add (g ∷ groups) link_id m key (fresh, d) = ground (
    arith,
    links-add groups link_id m key d,
    links_of_absent key groups,
    append-nil g.link_ids,
    append-nil (g.link_ids ++ link_id ∷ []),
    append-nil (links_of_key key groups),
    append-nil (g.link_ids ++ links_of_key key groups),
    append_assoc g.link_ids (links_of_key key groups) (link_id ∷ []),
    ==→≡ {A = K} (group_key g) (key_of m),
    ==→≡ {A = K} (group_key g) key,
    Bool-cases (key_of m == key),
    Bool-cases (group_key g == key),
    Bool-cases (group_key g == key_of m),
  )

  links-group_from :
      (groups : List LinkGroup) (matches : List (ℕ × LinkMatch)) (key : K)
      → Distinct (map group_key groups)
      → links_of_key key (group_from groups matches)
        ≡ links_of_key key groups ++ ids_of_key key matches
  unfolding group_from
  links-group_from groups [] key d = sym (append-nil (links_of_key key groups))
  links-group_from groups ((link_id, m) ∷ matches) key d =
      links-group_from (add_to_groups groups link_id m) matches key
        (Distinct-add groups link_id m d)
      ∙ ap (λ ids. ids ++ ids_of_key key matches) (links-add groups link_id m key d)
      ∙ append_assoc (links_of_key key groups) (id_if (key_of m == key) link_id)
          (ids_of_key key matches)
      ∙ ap (λ ids. links_of_key key groups ++ ids)
          (id_if-append (key_of m == key) link_id (ids_of_key key matches))

  Distinct-group_from :
      (groups : List LinkGroup) (matches : List (ℕ × LinkMatch))
      → Distinct (map group_key groups)
      → Distinct (map group_key (group_from groups matches))
  unfolding group_from
  Distinct-group_from groups [] d = d
  Distinct-group_from groups ((link_id, m) ∷ matches) d =
      Distinct-group_from (add_to_groups groups link_id m) matches (Distinct-add groups link_id m d)

unfoldable pub group_links : List (ℕ × LinkMatch) → List LinkGroup
unfolding group_from
group_links matches = group_from key_of_match [] matches

pub group_links_keys :
    (matches : List (ℕ × LinkMatch)) (key : GroupKey)
    → Distinct (map (group_key key_of_match) (group_links matches))
      × (links_of_key key_of_match key (group_links matches) ≡ ids_of_key key_of_match key matches)
unfolding group_links
group_links_keys matches key = (
  Distinct-group_from key_of_match [] matches tt,
  links-group_from key_of_match [] matches key tt,
)
