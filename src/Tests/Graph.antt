-- ===== src/Tests/Graph.antt =====
-- The monitor's stream and the graph at concrete inputs. A value of JSON is a chain of fields, a
-- number, a text or null.
use hwprivacy.Common.{
  ℕ, ◌≡◌, refl, true, false, Option, none, some, List, [], ◌∷◌, ◌==◌, nat_eq, list_eq, option_eq,
  if◌then◌else◌, All, contains, filter_map, get,
}
use hwprivacy.Common.Text.{Text, codes}
use hwprivacy.Graph.Blocks.{
  Items, done, quoted, nested, literal, escape, string_text, items_text, texts,
}
use hwprivacy.Graph.Blocks.Stream.{feed_chunks, feed_stream_lem}
use hwprivacy.Graph.Invariant.{HasDistinctIds, HasDistinctIds-run_monitor}
use hwprivacy.Graph.Json.{Json, Proc}
use hwprivacy.Graph.Sightings.{links-apply_block, link_told, new_told, said_of_id}
use hwprivacy.Graph.Splitter.{new_splitter, run_monitor}
use hwprivacy.Graph.State.{new_graph, apply_block}

-- A block parses as its own text, if it is not empty.
abbrev keep_text : Text → Option Text
keep_text text = some text

-- `["a]\""]`, and ` []` behind it
abbrev tricky : List (Text × Items)
tricky =
    ([], quoted (literal b'a' ∷ literal b']' ∷ escape b'"' ∷ []) done)
    ∷ (b' ' ∷ [], nested done done)
    ∷ []

abbrev chunks : List Text
chunks = codes "[\"a]" ∷ codes "\\\"\"] [" ∷ codes "[]]" ∷ []

feed_stream_example :
    feed_chunks keep_text new_splitter chunks
    ≡ record { splitter = new_splitter; out = filter_map keep_text (texts tricky) }
unfolding string_text items_text nat_eq
feed_stream_example =
    feed_stream_lem keep_text tricky chunks
      ((tt, ((refl, (refl, (refl, tt))), tt)), (((refl, tt), (tt, tt)), tt)) refl

data SampleValue : Type 0 where
  null end : SampleValue
  number : ℕ → SampleValue
  text : Text → SampleValue
  with_field : Text → SampleValue → SampleValue → SampleValue

abbrev field_of : SampleValue → Text → Option SampleValue
field_of (with_field k v rest) key = if k == key then some v else field_of rest key
field_of null key = none
field_of end key = none
field_of (number n) key = none
field_of (text t) key = none

instance abbrev sample_json : Json
sample_json = record {
  Value = SampleValue;
  field = field_of;
  as_u64 = λ v. elim v [ number n ↦ some n | _ ↦ none ];
  as_str = λ v. elim v [ text t ↦ some t | _ ↦ none ];
  is_null = λ v. elim v [ null ↦ true | _ ↦ false ];
}

instance abbrev no_proc : Proc
no_proc = record { exe_name = λ pid. none; cgroup = λ pid. none }

abbrev ends : SampleValue
ends =
    with_field (codes "output-node-id") (number 40)
      (with_field (codes "input-node-id") (number 70) end)

abbrev link_object : SampleValue
link_object = with_field (codes "id") (number 90) (
    with_field (codes "type") (text (codes "PipeWire:Interface:Link"))
      (with_field (codes "info") ends end))

links-apply_block_example :
    (get (apply_block new_graph (link_object ∷ [])).graph.links 90
      ≡ link_told none (said_of_id (link_object ∷ []) 90))
    × (contains (apply_block new_graph (link_object ∷ [])).new_links 90
        ≡ new_told none (said_of_id (link_object ∷ []) 90))
unfolding get
links-apply_block_example = links-apply_block new_graph (link_object ∷ []) 90 (refl, tt)

abbrev parse_sample : Text → Option (List SampleValue)
parse_sample t = some (link_object ∷ [])

HasDistinctIds-run_monitor_example :
    All HasDistinctIds (run_monitor parse_sample ((codes "[]" ∷ []) ∷ []))
HasDistinctIds-run_monitor_example =
    HasDistinctIds-run_monitor parse_sample ((codes "[]" ∷ []) ∷ [])
