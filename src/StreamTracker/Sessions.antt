-- ===== src/StreamTracker/Sessions.antt =====
-- A sweep ends the sessions that are over, and no live one; a session is opened once.
use hwprivacy.Common.{
  ℕ, ◌≡◌, refl, Bool, true, false, not, Option, none, some, List, [], ◌∷◌, arith, ==_refl, ==→≡,
  nat_eq, list_eq, pair_eq, if◌then◌else◌, contains, retain, map, ltb, Bool-cases, Option-cases,
  Map, get, remove, get-insert, get-remove, NodupKeys, contains_key,
}
use hwprivacy.Common.Text.{Text}
use hwprivacy.Device.{DeviceCategory, category_eq}
use hwprivacy.Names.{Lowercase}
use hwprivacy.StreamTracker.{
  StreamTracker, SessionState, awaiting_first_open, open_since, SessionKey, elapsed, session_key,
  mark_session_opened, has_active_link, state_live, session_live, state_ended, remove_all,
  expire_sessions,
}

keys_where-get :
    (test : SessionKey × SessionState → Bool) (m : Map SessionKey SessionState) (k : SessionKey)
    → NodupKeys m
    → contains (map (λ (key, _). key) (retain test m)) k
      ≡ elim (get m k) [ none ↦ false | some v ↦ test (k, v) ]
unfolding get
keys_where-get test [] k u = refl
keys_where-get test ((i, w) ∷ m) k (fresh, u) = ground (
  arith,
  keys_where-get test m k u,
  keys_where-get test m i u,
  Bool-cases (test (i, w)),
  ==→≡ i k,
)

get-remove_all :
    (ks : List SessionKey) (m : Map SessionKey SessionState) (k : SessionKey)
    → get (remove_all ks m) k ≡ (if contains ks k then none else get m k)
get-remove_all [] m k = refl
get-remove_all (i ∷ ks) m k = ground (arith, get-remove_all ks (remove i m) k, get-remove m i k)

module _ ⦃lc : Lowercase⦄ where
  abbrev pub is_over : StreamTracker → ℕ → ℕ → ℕ → SessionKey → Option SessionState → Bool
  is_over tracker now settle awaiting_open key none = false
  is_over tracker now settle awaiting_open key (some state) =
      state_ended tracker now settle awaiting_open key state

  -- In a tracker whose sessions have distinct keys, a sweep takes away exactly the sessions that are
  -- over, it reports exactly those, and it leaves every other session as it was.
  pub expire_sessions_lem :
      (tracker : StreamTracker) (now settle awaiting_open : ℕ) (key : SessionKey)
      → NodupKeys tracker.while_in_use
      → let over = is_over tracker now settle awaiting_open key (get tracker.while_in_use key) in
        let (after, ended) = expire_sessions tracker now settle awaiting_open in
        (contains ended key ≡ over)
        × (get after.while_in_use key ≡ (if over then none else get tracker.while_in_use key))
  unfolding expire_sessions
  expire_sessions_lem tracker now settle awaiting_open key u =
      let test : SessionKey × SessionState → Bool =
        λ (key, state). state_ended tracker now settle awaiting_open key state in
      let reported = keys_where-get test tracker.while_in_use key u in
      (
        ground (arith, Option-cases (get tracker.while_in_use key), reported),
        ground (
          arith,
          Option-cases (get tracker.while_in_use key),
          reported,
          get-remove_all (map (λ (key, _). key) (retain test tracker.while_in_use))
              tracker.while_in_use key,
        ),
      )

  state_live-expire_sessions :
      (tracker : StreamTracker) (now settle awaiting_open : ℕ) (key : SessionKey)
      (state : SessionState)
      → state_live (expire_sessions tracker now settle awaiting_open).0 now settle key state
        ≡ state_live tracker now settle key state
  unfolding expire_sessions has_active_link
  state_live-expire_sessions tracker now settle awaiting_open key (awaiting_first_open t) = refl
  state_live-expire_sessions tracker now settle awaiting_open key (open_since t) = refl

  live_or_over :
      (tracker : StreamTracker) (now settle : ℕ) (key : SessionKey) (state : SessionState)
      → state_ended tracker now settle 0 key state ≡ not (state_live tracker now settle key state)
  live_or_over tracker now settle key (awaiting_first_open t) = ground arith
  live_or_over tracker now settle (app, category) (open_since t) = ground (
    arith,
    Bool-cases (has_active_link tracker app category),
    Bool-cases (ltb (elapsed now t) settle),
  )

  abbrev found_live : StreamTracker → ℕ → ℕ → SessionKey → Option SessionState → Bool
  found_live tracker now settle key found = elim found [
    | none ↦ false
    | some state ↦ state_live tracker now settle key state
  ]

  found_live-swept :
      (tracker : StreamTracker) (now settle : ℕ) (key : SessionKey)
      (before found : Option SessionState)
      → found ≡ (if is_over tracker now settle 0 key before then none else before)
      → let (after, _) = expire_sessions tracker now settle 0 in
        (found_live after now settle key found ≡ found_live tracker now settle key before)
        × ((elim found [ none ↦ false | some _ ↦ true ]) ≡ found_live after now settle key found)
  found_live-swept tracker now settle key none found h = ground (arith, h)
  found_live-swept tracker now settle key (some state) found h = ground (
    arith,
    h,
    live_or_over tracker now settle key state,
    state_live-expire_sessions tracker now settle 0 key state,
    Bool-cases (state_live tracker now settle key state),
  )

  -- In a tracker whose sessions have distinct keys, after a sweep with no limit on the wait for the
  -- first use, a session is recorded exactly when it is live, and it is live exactly when it was
  -- before the sweep.
  pub session_live-expire_sessions :
      (tracker : StreamTracker) (now settle : ℕ) (app_name : Text) (category : DeviceCategory)
      → NodupKeys tracker.while_in_use
      → let (after, _) = expire_sessions tracker now settle 0 in
        (session_live after now app_name category settle
          ≡ session_live tracker now app_name category settle)
        × (contains_key after.while_in_use (session_key app_name category)
            ≡ session_live after now app_name category settle)
  unfolding session_live
  session_live-expire_sessions tracker now settle app_name category u =
      let (_, remaining) =
        expire_sessions_lem tracker now settle 0 (session_key app_name category) u in
      found_live-swept tracker now settle (session_key app_name category)
        (get tracker.while_in_use (session_key app_name category)) _ remaining

  -- A use that opens a session says so and stores its instant, and any other leaves the session of
  -- the pair as it was. No use creates or ends a session, and a second use in a row changes nothing
  -- and opens nothing.
  pub mark_session_opened_once :
      (tracker : StreamTracker) (now later : ℕ) (app_name : Text) (category : DeviceCategory)
      → let (opened, first) = mark_session_opened tracker now app_name category in
        (mark_session_opened opened later app_name category ≡ (opened, false))
        × (get opened.while_in_use (session_key app_name category) ≡ (
            if first
            then some (open_since now)
            else get tracker.while_in_use (session_key app_name category)))
        × (contains_key opened.while_in_use (session_key app_name category)
            ≡ contains_key tracker.while_in_use (session_key app_name category))
  unfolding mark_session_opened
  mark_session_opened_once tracker now later app_name category = ground (
    arith,
    Option-cases (get tracker.while_in_use (session_key app_name category)),
    get-insert tracker.while_in_use (session_key app_name category) (session_key app_name category)
        (open_since now),
    ==_refl (session_key app_name category),
  )
