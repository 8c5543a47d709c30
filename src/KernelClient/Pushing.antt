-- ===== src/KernelClient/Pushing.antt =====
-- When the policy is pushed to the helper, and what a session remembers of it.
use hwprivacy.Common.{
  ℕ, ◌≡◌, ◌⊎◌, refl, sym, ap, ◌∙◌, inl, inr, Bool, true, false, ◌&&◌, ◌||◌, Option, List, [], ◌∷◌,
  arith, ◌==◌, ==_refl, ==→≡, nat_eq, list_eq, any, map, contains, sort, any-sort, pair_eq,
  option_eq, bool_eq, if◌then◌else◌, Bool-cases,
}
use hwprivacy.Common.Text.{Text}
use mathlib.Core.Bool.{true≢false}
use hwprivacy.KernelClient.Policy.{
  Intended, FileIdentity, PolicyFingerprint, file_le, dedup_files, take_fingerprint,
  same_fingerprint,
}
use hwprivacy.KernelClient.Session.{
  Session, line, policy_changed, recheck_tick, policy_request, fingerprint_of, push_if_changed,
  tick_session, session_step,
}
use hwprivacy.Proto.{PushedEntry, set_policy, Reply}

and-split : (a b c : Bool) → (a && b && c) ≡ true → (a ≡ true) × ((b ≡ true) × (c ≡ true))
and-split a b c h = ground arith

same_fingerprint→≡ : (a b : PolicyFingerprint) → same_fingerprint a b ≡ true → a ≡ b
same_fingerprint→≡ a b h =
    let (f, (c, m)) =
      and-split (a.files == b.files) (a.enforce_camera == b.enforce_camera)
        (a.enforce_audio == b.enforce_audio) h in
    λ i. record {
      files = ==→≡ {A = List FileIdentity} a.files b.files f i;
      enforce_camera = ==→≡ a.enforce_camera b.enforce_camera c i;
      enforce_audio = ==→≡ a.enforce_audio b.enforce_audio m i;
    }

same_fingerprint_refl : (a : PolicyFingerprint) → same_fingerprint a a ≡ true
same_fingerprint_refl a = ground (
  arith,
  ==_refl {A = List FileIdentity} a.files,
  ==_refl a.enforce_camera,
  ==_refl a.enforce_audio,
)

-- What the file system says.
abbrev pub Files : Type 0
Files = Text → Option (ℕ × ℕ)

-- The executables that a policy names, each with its permissions and its file.
abbrev pub files_of : Files → Intended → List ((Text × ℕ) × Option (ℕ × ℕ))
files_of files intended =
    map (λ (e : PushedEntry). ((e.exe_path, e.perms), files e.exe_path)) intended.entries

-- Two policies have the same flags and name the same files with the same permissions.
abbrev pub IsSamePolicy : Files → Intended → Files → Intended → Type 0
IsSamePolicy now a before b =
    (a.enforce_camera ≡ b.enforce_camera)
    × (a.enforce_audio ≡ b.enforce_audio)
    × ((file : (Text × ℕ) × Option (ℕ × ℕ))
        → contains (files_of now a) file ≡ contains (files_of before b) file)

-- The policies differ in a flag, or in their list of files.
abbrev pub IsChanged : Files → Intended → Files → Intended → Type 0
IsChanged now a before b = ¬ (
    (a.enforce_camera ≡ b.enforce_camera)
    × (a.enforce_audio ≡ b.enforce_audio)
    × (files_of now a ≡ files_of before b))

contains-any :
    (files : List FileIdentity) (file : FileIdentity)
    → contains files file ≡ any (λ x. file == x) files
contains-any [] file = refl
contains-any (x ∷ files) file = ap (λ b. file == x || b) (contains-any files file)

contains-dedup_files :
    (files : List FileIdentity) (file : FileIdentity)
    → contains (dedup_files files) file ≡ contains files file
unfolding dedup_files
contains-dedup_files [] file = refl
contains-dedup_files (x ∷ []) file = refl
contains-dedup_files (x ∷ y ∷ files) file = elim (Bool-cases (x == y)) [
  | inl e ↦ rw e (
      contains-dedup_files (y ∷ files) file
      ∙ twice (file == x) (file == y) (contains files file)
          (ap (λ z. file == z) (==→≡ {A = FileIdentity} x y e)))
  | inr e ↦ rw e (ap (λ b. file == x || b) (contains-dedup_files (y ∷ files) file))
]
  where
    twice : (a b c : Bool) → a ≡ b → (b || c) ≡ (a || (b || c))
    twice a b c h = ground (arith, h)

contains-fingerprint_of :
    (files : Files) (intended : Intended) (file : FileIdentity)
    → contains (fingerprint_of files intended).files file ≡ contains (files_of files intended) file
unfolding take_fingerprint
contains-fingerprint_of files intended file =
    contains-dedup_files (sort file_le (files_of files intended)) file
    ∙ contains-any (sort file_le (files_of files intended)) file
    ∙ any-sort file_le (λ x. file == x) (files_of files intended)
    ∙ sym (contains-any (files_of files intended) file)

fingerprint-IsSamePolicy :
    (now before : Files) (a b : Intended)
    → fingerprint_of now a ≡ fingerprint_of before b
    → IsSamePolicy now a before b
unfolding take_fingerprint
fingerprint-IsSamePolicy now before a b e = (
  ap (λ (f : PolicyFingerprint). f.enforce_camera) e,
  ap (λ (f : PolicyFingerprint). f.enforce_audio) e,
  λ file.
      sym (contains-fingerprint_of now a file)
      ∙ ap (λ (f : PolicyFingerprint). contains f.files file) e
      ∙ contains-fingerprint_of before b file,
)

fingerprint-IsChanged :
    (now before : Files) (a b : Intended)
    → same_fingerprint (fingerprint_of now a) (fingerprint_of before b) ≡ false
    → IsChanged now a before b
unfolding take_fingerprint
fingerprint-IsChanged now before a b differs (camera, audio, same) =
    let e : fingerprint_of now a ≡ fingerprint_of before b = λ i. record {
      files = dedup_files (sort file_le (same i));
      enforce_camera = camera i;
      enforce_audio = audio i;
    } in
    true≢false (
      sym (same_fingerprint_refl (fingerprint_of now a))
      ∙ ap (same_fingerprint (fingerprint_of now a)) e
      ∙ differs)

-- What is remembered after a change of the rules and after a tick, and what is sent.
session_step_parts :
    (now : Files) (session : Session) (intended : Intended) (reply : Option Reply)
    → let fresh = same_fingerprint (fingerprint_of now intended) session.fingerprint in
      let changed = session_step now session intended policy_changed in
      let ticked = session_step now session intended recheck_tick in
      let read = session_step now session intended (line reply) in
      (changed.session.fingerprint ≡ fingerprint_of now intended)
      × (changed.requests ≡ (if fresh then [] else policy_request intended ∷ []))
      × (ticked.session.fingerprint ≡ fingerprint_of now intended)
      × (ticked.requests ≡ changed.requests)
      × (read ≡ record { session = session; requests = [] })
unfolding session_step tick_session push_if_changed
session_step_parts now session intended reply = ground (
  arith,
  same_fingerprint→≡ (fingerprint_of now intended) session.fingerprint,
  Bool-cases (same_fingerprint (fingerprint_of now intended) session.fingerprint),
)

-- A session that remembers the policy that was sent, and the files at that time, sends nothing on a
-- change of the rules only if the intended policy has the same flags and names the same files with the
-- same permissions; and it sends exactly the intended policy, only if a flag, or the list of the
-- executables with their permissions and files, has changed. A tick sends the same. Both remember the
-- intended policy with the files as they are. A line of the helper sends nothing and leaves what is
-- remembered.
pub session_step_lem :
    (now before : Files) (session : Session) (intended sent : Intended) (reply : Option Reply)
    → session.fingerprint ≡ fingerprint_of before sent
    → let changed = session_step now session intended policy_changed in
      let ticked = session_step now session intended recheck_tick in
      let read = session_step now session intended (line reply) in
      (((changed.requests ≡ []) × IsSamePolicy now intended before sent)
        ⊎ ((changed.requests
              ≡ set_policy intended.entries intended.enforce_camera intended.enforce_audio ∷ [])
            × IsChanged now intended before sent))
      × (ticked.requests ≡ changed.requests)
      × (changed.session.fingerprint ≡ fingerprint_of now intended)
      × (ticked.session.fingerprint ≡ fingerprint_of now intended)
      × (read ≡ record { session = session; requests = [] })
session_step_lem now before session intended sent reply remembered =
    let (changed, requests, ticked, same, read) = session_step_parts now session intended reply in
    let next = fingerprint_of now intended in
    let known : same_fingerprint next session.fingerprint
        ≡ same_fingerprint next (fingerprint_of before sent) =
      ap (same_fingerprint next) remembered in
    (
      elim (Bool-cases (same_fingerprint next (fingerprint_of before sent))) [
        | inl e ↦ inl (
          requests ∙ ap (λ b. if b then [] else policy_request intended ∷ []) (known ∙ e),
          fingerprint-IsSamePolicy now before intended sent
              (same_fingerprint→≡ next (fingerprint_of before sent) e),
        )
        | inr e ↦ inr (
          requests ∙ ap (λ b. if b then [] else policy_request intended ∷ []) (known ∙ e),
          fingerprint-IsChanged now before intended sent e,
        )
      ],
      same,
      changed,
      ticked,
      read,
    )
