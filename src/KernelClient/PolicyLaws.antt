-- ===== src/KernelClient/PolicyLaws.antt =====
-- The policy that the kernel layer is asked for: the bits of each executable, the report of the
-- microphone's guard, and the gaps that are new.
use hwprivacy.Common.{
  ℕ, ◌≡◌, ◌≢◌, refl, ap, ◌∙◌, Bool, true, false, not, ◌&&◌, ◌||◌, Option, none, some, List, [], ◌∷◌,
  arith, Eq, ◌==◌, ==→≡, ==_refl, nat_eq, list_eq, pair_eq, option_eq, if◌then◌else◌, contains,
  contains-retain, is_empty, any, retain, map, Map, get, get-insert, NodupKeys, NodupKeys-insert,
  Bool-cases,
}
use hwprivacy.Common.Options.{unwrap_or}
use hwprivacy.Common.Text.{Text}
use hwprivacy.Config.{Permission}
use hwprivacy.KernelClient.Policy.{
  add_bit, add_bits, bits_by_path, bits_of, listed, gap_delta, audio_backstop_report,
}
use hwprivacy.KernelPerms.{has_camera, has_audio, set_camera, set_audio}

has-set_camera :
    (b : ℕ) → (has_camera (set_camera b) ≡ true) × (has_audio (set_camera b) ≡ has_audio b)
has-set_camera b = ground arith

has-set_audio :
    (b : ℕ) → (has_audio (set_audio b) ≡ true) × (has_camera (set_audio b) ≡ has_camera b)
has-set_audio b = ground arith

bits-add_bit :
    (set : ℕ → ℕ) (p : Text) (by_path : Map Text ℕ) (path : Text)
    → bits_of (add_bit set p by_path) path
      ≡ (if p == path then set (bits_of by_path p) else bits_of by_path path)
bits-add_bit set p by_path path =
    ground (arith, get-insert by_path p path (set (bits_of by_path p)), Bool-cases (p == path))

-- A loop sets its bit for the listed executables, and leaves the other bit.
bits-add_bits :
    (set : ℕ → ℕ) (test other : ℕ → Bool)
    (sets : (b : ℕ) → (test (set b) ≡ true) × (other (set b) ≡ other b))
    (list : List (Text × Permission)) (by_path : Map Text ℕ) (path : Text)
    → (test (bits_of (add_bits set list by_path) path)
        ≡ (test (bits_of by_path path) || listed list path))
      × (other (bits_of (add_bits set list by_path) path) ≡ other (bits_of by_path path))
unfolding add_bits
bits-add_bits set test other sets [] by_path path = (ground arith, refl)
bits-add_bits set test other sets ((p, perm) ∷ list) by_path path =
    let (i, j) = bits-add_bits set test other sets list (add_bit set p by_path) path in
    let (a, b) = sets (bits_of by_path p) in
    let added = bits-add_bit set p by_path path in
    (
      i
          ∙ ap (λ n. test n || listed list path) added
          ∙ ground (arith, a, ==→≡ p path, ==→≡ path p, ==_refl path, Bool-cases (p == path)),
      j ∙ ap other added ∙ ground (arith, b, ==→≡ p path, Bool-cases (p == path)),
    )

NodupKeys-add_bits :
    (set : ℕ → ℕ) (list : List (Text × Permission)) (by_path : Map Text ℕ)
    → NodupKeys by_path
    → NodupKeys (add_bits set list by_path)
unfolding add_bits
NodupKeys-add_bits set [] by_path u = u
NodupKeys-add_bits set ((p, perm) ∷ list) by_path u =
    NodupKeys-add_bits set list (add_bit set p by_path)
      (NodupKeys-insert p (set (unwrap_or (get by_path p) 0)) by_path u)

-- The policy has one entry for an executable, with the camera's bit exactly if the camera's list
-- names it and the microphone's exactly if the other list does, however often and in which order
-- they name it. An executable that neither names has no bit.
pub bits_by_path_lem :
    (camera_list audio_list : List (Text × Permission)) (path : Text)
    → NodupKeys (bits_by_path camera_list audio_list)
      × (has_camera (bits_of (bits_by_path camera_list audio_list) path) ≡ listed camera_list path)
      × (has_audio (bits_of (bits_by_path camera_list audio_list) path) ≡ listed audio_list path)
unfolding bits_by_path nat_eq get
bits_by_path_lem camera_list audio_list path =
    let cameras = add_bits set_camera camera_list [] in
    let (c, a) = bits-add_bits set_camera has_camera has_audio has-set_camera camera_list [] path in
    let (a', c') =
      bits-add_bits set_audio has_audio has_camera has-set_audio audio_list cameras path in
    (
      NodupKeys-add_bits set_audio audio_list cameras
          (NodupKeys-add_bits set_camera camera_list [] tt),
      c' ∙ c,
      a' ∙ ap (λ b. b || listed audio_list path) a,
    )

-- The reason is empty exactly if the microphone's guard is reported as enforced, given that an
-- interlock that holds it back says why. It is reported so exactly if the helper is connected and
-- says that it enforces.
pub audio_backstop_report_lem :
    (connected enforcing mic_guarded : Bool) (blocker : Option Text)
    → blocker ≢ some []
    → let (enforced, why) = audio_backstop_report connected enforcing mic_guarded blocker in
      (enforced ≡ (connected && enforcing)) × (is_empty why ≡ enforced)
unfolding audio_backstop_report
audio_backstop_report_lem false enforcing mic_guarded blocker said = (refl, refl)
audio_backstop_report_lem true true mic_guarded blocker said = (refl, refl)
audio_backstop_report_lem true false mic_guarded (some []) said = absurd (said refl)
audio_backstop_report_lem true false mic_guarded (some (c ∷ why)) said = (refl, refl)
audio_backstop_report_lem true false true none said = (refl, refl)
audio_backstop_report_lem true false false none said = (refl, refl)

module _ {W : Type 0} ⦃e : Eq W⦄ where
  contains-closed :
      (test : Text → Bool) (gaps : List (Text × W)) (app : Text)
      → contains (map (λ (a, _). a) (retain (λ (a, _). test a) gaps)) app
        ≡ (test app && any (λ (a, _). a == app) gaps)
  contains-closed test [] app = ground arith
  contains-closed test ((a, w) ∷ gaps) app = ground (
    arith,
    contains-closed test gaps app,
    ==→≡ a app,
    ==→≡ app a,
    ==_refl app,
    Bool-cases (a == app),
    Bool-cases (test a),
  )

  -- From the gaps that were reported before, the ones that open are those of the new list that were
  -- not there, and the rules whose gaps close are those of the old list that have none in the new.
  pub gap_delta_lem :
      (prev next : List (Text × W)) (gap : Text × W) (app : Text)
      → (contains (gap_delta prev next).0 gap ≡ (not (contains prev gap) && contains next gap))
        × (contains (gap_delta prev next).1 app
            ≡ (not (any (λ (a, _). a == app) next) && any (λ (a, _). a == app) prev))
  unfolding gap_delta
  gap_delta_lem prev next gap app = (
    contains-retain (λ g. not (contains prev g)) next gap,
    contains-closed (λ a. not (any (λ (b, _). b == a) next)) prev app,
  )
