-- ===== src/Graph/Links.antt =====
-- What a block of the monitor's stream does to the links of the graph, id by id.
use mathlib.Core.List.{append-nil}
use hwprivacy.Common.{
  ℕ, ◌≡◌, refl, ap, ◌∙◌, Bool, false, ◌&&◌, ◌||◌, Option, none, some, List, [], ◌∷◌, ◌++◌, arith,
  ◌==◌, ==→≡, ==_refl, nat_eq, option_eq, if◌then◌else◌, contains, find, Distinct, map, Map, get,
  get-insert, get-remove, contains-append, Bool-cases, Option-cases,
}
use hwprivacy.Graph.{PwLink}
use hwprivacy.Graph.Json.{Json, Proc}
use hwprivacy.Graph.Parse.{parse_link}
use hwprivacy.Graph.State.{
  GraphState, Applied, link, object_id, object_type, is_removal, is_new_link, keep_serial,
  apply_link, apply_object, apply_objects, apply_clients, apply_block,
}

module _ ⦃js : Json⦄ ⦃proc : Proc⦄ where
  abbrev pub link_seen : js.Value → Option PwLink
  link_seen obj = elim (object_type obj) [ link ↦ parse_link (object_id obj) obj | _ ↦ none ]

  -- The link of an id after an object with that id, from the link before.
  abbrev pub after_sighting : Option PwLink → Option PwLink → Option PwLink
  after_sighting old none = old
  after_sighting old (some seen) = some (keep_serial old seen)

  abbrev pub link_after : Option PwLink → js.Value → Option PwLink
  link_after old obj = if is_removal obj then none else after_sighting old (link_seen obj)

  abbrev pub is_new_sighting : Option PwLink → Option PwLink → Bool
  is_new_sighting old none = false
  is_new_sighting old (some seen) = is_new_link old seen

  abbrev pub is_reported : Option PwLink → js.Value → Bool
  is_reported old obj = if is_removal obj then false else is_new_sighting old (link_seen obj)

  abbrev pub object_of : List js.Value → ℕ → Option js.Value
  object_of objects id = find (λ obj. object_id obj == id) objects

  -- The link of an id, and whether the id was reported, after the objects from a state.
  abbrev pub link_from : Option PwLink → Option js.Value → Option PwLink
  link_from old none = old
  link_from old (some obj) = link_after old obj

  abbrev pub reported_from : Option PwLink → Option js.Value → Bool
  reported_from old none = false
  reported_from old (some obj) = is_reported old obj

  contains-if :
      (id other : ℕ) (b : Bool) → contains (if b then other ∷ [] else []) id ≡ (other == id && b)
  contains-if id other b = ground (arith, ==→≡ other id, ==→≡ id other, ==_refl id)

  module _ (clients : Map ℕ js.Value) where
    get-apply_link :
        (applied : Applied) (other id : ℕ) (seen : Option PwLink)
        → get (apply_link applied other seen).graph.links id ≡ (
            if other == id
            then after_sighting (get applied.graph.links id) seen
            else get applied.graph.links id)
    get-apply_link applied other id none = ground arith
    get-apply_link applied other id (some seen) = ground (
      arith,
      get-insert applied.graph.links other id (keep_serial (get applied.graph.links other) seen),
      ==→≡ other id,
      Bool-cases (other == id),
    )

    get-apply_object :
        (applied : Applied) (obj : js.Value) (id : ℕ)
        → get (apply_object clients applied obj).graph.links id ≡ (
            if object_id obj == id
            then link_after (get applied.graph.links id) obj
            else get applied.graph.links id)
    unfolding apply_object
    get-apply_object applied obj id = ground (
      arith,
      get-remove applied.graph.links (object_id obj) id,
      get-apply_link applied (object_id obj) id (parse_link (object_id obj) obj),
      Bool-cases (object_id obj == id),
      Bool-cases (is_removal obj),
    )

    new_links-apply_object :
        (applied : Applied) (obj : js.Value)
        → (apply_object clients applied obj).new_links
          ≡ applied.new_links
            ++ (if is_reported (get applied.graph.links (object_id obj)) obj
                then object_id obj ∷ []
                else [])
    unfolding apply_object
    new_links-apply_object applied obj = ground (
      arith,
      append-nil applied.new_links,
      Bool-cases (is_removal obj),
      Option-cases (parse_link (object_id obj) obj),
    )

    find-none :
        (objects : List js.Value) (id : ℕ)
        → contains (map object_id objects) id ≡ false
        → object_of objects id ≡ none
    find-none [] id h = refl
    find-none (obj ∷ objects) id h =
        ground (arith, find-none objects id, ==→≡ (object_id obj) id, ==_refl id)

    get-apply_objects :
        (applied : Applied) (objects : List js.Value) (id : ℕ)
        → Distinct (map object_id objects)
        → get (apply_objects clients applied objects).graph.links id
          ≡ link_from (get applied.graph.links id) (object_of objects id)
    unfolding apply_objects
    get-apply_objects applied [] id u = refl
    get-apply_objects applied (obj ∷ objects) id (fresh, u) = ground (
      arith,
      get-apply_objects (apply_object clients applied obj) objects id u,
      get-apply_object applied obj id,
      find-none objects id,
      ==→≡ (object_id obj) id,
      Bool-cases (object_id obj == id),
    )

    contains-apply_object :
        (applied : Applied) (obj : js.Value) (id : ℕ)
        → contains (apply_object clients applied obj).new_links id ≡ (
            contains applied.new_links id
            || object_id obj == id && is_reported (get applied.graph.links (object_id obj)) obj)
    contains-apply_object applied obj id =
        ap (λ ids. contains ids id) (new_links-apply_object applied obj)
        ∙ contains-append applied.new_links
            (if is_reported (get applied.graph.links (object_id obj)) obj
              then object_id obj ∷ []
              else [])
            id
        ∙ ap (λ b. contains applied.new_links id || b) (contains-if id (object_id obj) _)

    contains-apply_objects :
        (applied : Applied) (objects : List js.Value) (id : ℕ)
        → Distinct (map object_id objects)
        → contains (apply_objects clients applied objects).new_links id ≡ (
            contains applied.new_links id
            || reported_from (get applied.graph.links id) (object_of objects id))
    unfolding apply_objects
    contains-apply_objects applied [] id u = ground arith
    contains-apply_objects applied (obj ∷ objects) id (fresh, u) = ground (
      arith,
      contains-apply_objects (apply_object clients applied obj) objects id u,
      contains-apply_object applied obj id,
      get-apply_object applied obj id,
      find-none objects id,
      ==→≡ (object_id obj) id,
      Bool-cases (object_id obj == id),
      Bool-cases (contains applied.new_links id),
    )

  pub links_from-apply_block :
      (graph : GraphState) (objects : List js.Value) (id : ℕ)
      → Distinct (map object_id objects)
      → (get (apply_block graph objects).graph.links id
          ≡ link_from (get graph.links id) (object_of objects id))
        × (contains (apply_block graph objects).new_links id
            ≡ reported_from (get graph.links id) (object_of objects id))
  unfolding apply_block
  links_from-apply_block graph objects id u =
      let clients = apply_clients graph.client_props objects in
      let start : Applied = record {
        graph = record graph { client_props = clients };
        new_links = [];
      } in
      (
        get-apply_objects clients start objects id u,
        contains-apply_objects clients start objects id u,
      )

  not_reported_again :
      (old : Option PwLink) (obj : js.Value) → is_reported (link_after old obj) obj ≡ false
  not_reported_again old obj = ground (
    arith,
    Bool-cases (is_removal obj),
    Option-cases (link_seen obj),
    Option-cases old,
    ==_refl {A = Option ℕ},
  )

  reported_again :
      (old : Option PwLink) (obj : Option js.Value) → reported_from (link_from old obj) obj ≡ false
  reported_again old none = refl
  reported_again old (some obj) = not_reported_again old obj

  -- The same block again reports no link, if no two of its objects have one id.
  pub apply_block_twice :
      (graph : GraphState) (objects : List js.Value) (id : ℕ)
      → Distinct (map object_id objects)
      → contains (apply_block (apply_block graph objects).graph objects).new_links id ≡ false
  apply_block_twice graph objects id u =
      let once = (apply_block graph objects).graph in
      (links_from-apply_block once objects id u).1
      ∙ ap (λ old. reported_from old (object_of objects id))
          (links_from-apply_block graph objects id u).0
      ∙ reported_again (get graph.links id) (object_of objects id)
