-- ===== src/Graph/Sightings.antt =====
-- What a block of the monitor's stream says of the links, and what becomes of them.
use hwprivacy.Common.{
  ℕ, ◌≡◌, refl, sym, ap, ◌∙◌, inl, inr, Bool, true, false, not, Option, none, some, List, arith,
  ◌==◌, ==→≡, ==_refl, nat_eq, option_eq, if◌then◌else◌, contains, Distinct, map, get, Bool-cases,
  Option-cases,
}
use hwprivacy.Common.Options.{or_else}
use hwprivacy.Common.Text.{codes}
use hwprivacy.Graph.{PwLink}
use hwprivacy.Graph.Json.{Json, Proc}
use hwprivacy.Graph.State.{GraphState, object_id, is_removal, apply_block}
use hwprivacy.Graph.Links.{
  link_seen, after_sighting, is_new_sighting, object_of, link_from, reported_from,
  links_from-apply_block,
}

-- What an object says of the link of its id: that it is gone, nothing, or how it was seen.
pub data Said : Type 0 where
  gone nothing : Said
  seen_as : PwLink → Said

abbrev of_link : Option PwLink → Said
of_link none = nothing
of_link (some l) = seen_as l

-- The link of an id after what is said of it, from the link before.
abbrev pub link_told : Option PwLink → Said → Option PwLink
link_told old gone = none
link_told old nothing = old
link_told none (seen_as l) = some l
link_told (some o) (seen_as l) = some (record l { serial = or_else l.serial o.serial })

-- A link is new if none was there, or the one that was has not the serial that is seen.
abbrev pub new_told : Option PwLink → Said → Bool
new_told old gone = false
new_told old nothing = false
new_told none (seen_as l) = true
new_told (some o) (seen_as l) = elim l.serial [
  | none ↦ false
  | some seen ↦ elim o.serial [ none ↦ true | some known ↦ not (known == seen) ]
]

link_told-gone : (old : Option PwLink) → link_told old gone ≡ none
link_told-gone none = refl
link_told-gone (some o) = refl

new_told-gone : (old : Option PwLink) → new_told old gone ≡ false
new_told-gone none = refl
new_told-gone (some o) = refl

keep_known :
    (o l : PwLink) (serial : ℕ)
    → l.serial ≡ some serial
    → (elim l.serial [ none ↦ record l { serial = o.serial } | some _ ↦ l ])
      ≡ record l { serial = or_else l.serial o.serial }
keep_known o l serial e = rw e (ap (λ s. record l { serial = s }) e)

new_serial :
    (known seen : Option ℕ)
    → (elim seen [ none ↦ false | some serial ↦ not (known == some serial) ]) ≡ (elim seen [
      | none ↦ false
      | some serial ↦ elim known [ none ↦ true | some a ↦ not (a == serial) ]
    ])
new_serial known none = refl
new_serial none (some b) = ground (arith, ==→≡ {A = Option ℕ} none (some b))
new_serial (some a) (some b) = ground (
  arith,
  ==→≡ {A = Option ℕ} (some a) (some b),
  ==→≡ a b,
  ==_refl {A = Option ℕ} (some b),
  ==_refl b,
)

module _ ⦃js : Json⦄ ⦃proc : Proc⦄ where
  -- A removal is an object with an `info` that is null.
  abbrev pub said : js.Value → Said
  said obj = elim (js.field obj (codes "info")) [
    | none ↦ of_link (link_seen obj)
    | some info ↦ if js.is_null info then gone else of_link (link_seen obj)
  ]

  abbrev pub said_of_id : List js.Value → ℕ → Said
  said_of_id objects id = elim (object_of objects id) [ none ↦ nothing | some obj ↦ said obj ]

  link_told-seen :
      (old seen : Option PwLink) → after_sighting old seen ≡ link_told old (of_link seen)
  link_told-seen none none = refl
  link_told-seen (some o) none = refl
  link_told-seen none (some l) = refl
  link_told-seen (some o) (some l) = elim (Option-cases l.serial) [
    | inl e ↦ ground (arith, e)
    | inr (serial, e) ↦ ap some (keep_known o l serial e)
  ]

  new_told-seen :
      (old seen : Option PwLink) → is_new_sighting old seen ≡ new_told old (of_link seen)
  new_told-seen none none = refl
  new_told-seen (some o) none = refl
  new_told-seen none (some l) = refl
  new_told-seen (some o) (some l) = new_serial o.serial l.serial

  on_info :
      {R : Type 0} (f : Said → R) (info : Option js.Value) (seen : Said) (removed shown : R)
      → removed ≡ f gone
      → shown ≡ f seen
      → (if elim info [ none ↦ false | some v ↦ js.is_null v ] then removed else shown)
        ≡ f (elim info [ none ↦ seen | some v ↦ if js.is_null v then gone else seen ])
  on_info f none seen removed shown r h = h
  on_info f (some v) seen removed shown r h = elim (Bool-cases (js.is_null v)) [
    | inl e ↦ rw e r
    | inr e ↦ rw e h
  ]

  link_told_lem :
      (old : Option PwLink) (obj : Option js.Value)
      → link_from old obj ≡ link_told old (elim obj [ none ↦ nothing | some obj ↦ said obj ])
  unfolding is_removal
  link_told_lem none none = refl
  link_told_lem (some o) none = refl
  link_told_lem old (some obj) =
      on_info (link_told old) (js.field obj (codes "info")) (of_link (link_seen obj)) none
        (after_sighting old (link_seen obj)) (sym (link_told-gone old))
        (link_told-seen old (link_seen obj))

  new_told_lem :
      (old : Option PwLink) (obj : Option js.Value)
      → reported_from old obj ≡ new_told old (elim obj [ none ↦ nothing | some obj ↦ said obj ])
  unfolding is_removal
  new_told_lem none none = refl
  new_told_lem (some o) none = refl
  new_told_lem old (some obj) =
      on_info (new_told old) (js.field obj (codes "info")) (of_link (link_seen obj)) false
        (is_new_sighting old (link_seen obj)) (sym (new_told-gone old))
        (new_told-seen old (link_seen obj))

  -- After a block in which no two objects have one id, the graph has of each id the link that it
  -- had, unless the block has an object of that id: one with a null `info` leaves none, and a sighting
  -- of a link replaces it, with the old serial where the sighting has none. The id is reported new
  -- exactly if the block holds a sighting of it, and the graph had no such link or one without its
  -- serial, where the sighting has a serial.
  pub links-apply_block :
      (graph : GraphState) (objects : List js.Value) (id : ℕ)
      → Distinct (map object_id objects)
      → (get (apply_block graph objects).graph.links id
          ≡ link_told (get graph.links id) (said_of_id objects id))
        × (contains (apply_block graph objects).new_links id
            ≡ new_told (get graph.links id) (said_of_id objects id))
  links-apply_block graph objects id u =
      let (links, reported) = links_from-apply_block graph objects id u in
      (
        links ∙ link_told_lem (get graph.links id) (object_of objects id),
        reported ∙ new_told_lem (get graph.links id) (object_of objects id),
      )
