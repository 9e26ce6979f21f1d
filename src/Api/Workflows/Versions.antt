-- ===== src/Api/Workflows/Versions.antt =====
-- The versions of a workflow are numbered from 1 without a gap.
use vigil_summit_agent.Prelude.{
  ℕ, suc, ◌+◌, ◌≤◌, String, Bool, true, false, some, List, [], ◌∷◌, ◌++◌, ◌≡◌, refl, ap, ◌∙◌, ◌=ₛ◌,
  find, length, length-append, ltb, if◌then◌else◌, arith,
}
use vigil_summit_agent.Json.{Json}
use vigil_summit_agent.Api.Workflows.{
  Version, Workflow, Store, Result, newer, current_version, Response, response_with, to_response,
  find_workflow, update_workflow, Fresh, add_version, append_version, restore_version,
}

-- The numbers `n`, `n + 1` and so on
abbrev pub NumberedFrom : ℕ → List Version → Type 0
NumberedFrom n [] = Unit
NumberedFrom n (v ∷ vs) = (v.version ≡ n) × NumberedFrom (suc n) vs

-- A workflow has a version, and its versions are numbered from 1.
abbrev pub Numbered : Workflow → Type 0
Numbered w = NumberedFrom 1 w.versions × (1 ≤ length w.versions)

NumberedFrom-append :
    (n : ℕ) (vs : List Version) (v : Version)
    → NumberedFrom n vs
    → v.version ≡ n + length vs
    → NumberedFrom n (vs ++ v ∷ [])
NumberedFrom-append n [] v h e = (omega (arith, e), tt)
NumberedFrom-append n (x ∷ xs) v (p, h) e =
    (p, NumberedFrom-append (suc n) xs v h (omega (arith, e)))

current-append :
    (n : ℕ) (vs : List Version) (v : Version)
    → NumberedFrom n vs
    → v.version ≡ n + length vs
    → current_version (vs ++ v ∷ []) ≡ some v
unfolding current_version
current-append n [] v h e = refl
current-append n (x ∷ xs) v (p, h) e =
    rw (current-append (suc n) xs v h (omega (arith, e))) (older (ltb v.version x.version) refl)
  where
    older : (b : Bool) → ltb v.version x.version ≡ b → some (if b then x else v) ≡ some v
    older true less = ground (arith, less, p, e)
    older false less = refl

current-last :
    (n : ℕ) (v : Version) (vs : List Version)
    → NumberedFrom n (v ∷ vs)
    → (u : Version) × (current_version (v ∷ vs) ≡ some u) × (u.version ≡ n + length vs)
unfolding current_version
current-last n v [] (p, h) = (v, refl, omega (arith, p))
current-last n v (x ∷ xs) (p, h) =
    let (u, same, e) = current-last (suc n) x xs h in
    (
      u,
      ap (λ o. some (newer v o)) same ∙ newest u e (ltb u.version v.version) refl,
      omega (arith, e),
    )
  where
    newest :
        (u : Version)
        → u.version ≡ suc n + length xs
        → (b : Bool) → ltb u.version v.version ≡ b
        → some (if b then v else u) ≡ some u
    newest u e true less = ground (arith, less, p, e)
    newest u e false less = refl

-- The current version of a numbered workflow has the number of its versions.
current-Numbered :
    (w : Workflow)
    → Numbered w
    → (u : Version) × (current_version w.versions ≡ some u) × (u.version ≡ length w.versions)
current-Numbered w (h, some_versions) = by_versions w.versions h some_versions
  where
    by_versions :
        (vs : List Version)
        → NumberedFrom 1 vs
        → 1 ≤ length vs
        → (u : Version) × (current_version vs ≡ some u) × (u.version ≡ length vs)
    by_versions [] h' l = absurd (omega (arith, l))
    by_versions (v ∷ vs) h' l =
        let (u, same, e) = current-last 1 v vs h' in (u, same, omega (arith, e))

-- The new version of a workflow: it is the current one, its number is one above the number of the
-- versions before, these stay, and the versions are numbered as before.
abbrev pub Appended : Fresh → Json → Workflow → Store → Result Response × Store → Type 0
Appended fresh definition w before r =
    (v : Version) × (v.version ≡ length w.versions + 1)
    × (v.definition ≡ definition)
    × Numbered (add_version v w)
    × (r ≡ (
      response_with w (some v),
      record before { workflows = update_workflow w.id (add_version v) before.workflows },
    ))

append_version-Appended :
    (fresh : Fresh) (definition : Json) (w : Workflow) (store : Store)
    → Numbered w
    → Appended fresh definition w store
        (append_version fresh definition w (current_version w.versions) store)
unfolding append_version to_response
append_version-Appended fresh definition w store h =
    let (u, same, e) = current-Numbered w h in
    let v : Version = record {
      id = fresh.version_id;
      version = u.version + 1;
      definition = definition;
    } in
    (
      v,
      omega (arith, e),
      refl,
      (
        NumberedFrom-append 1 w.versions v h.0 (omega (arith, e)),
        omega (arith, length-append w.versions (v ∷ [])),
      ),
      rw same (
          ap
            (λ o. (
              response_with w o,
              record store { workflows = update_workflow w.id (add_version v) store.workflows },
            ))
            (current-append 1 w.versions v h.0 (omega (arith, e)))),
    )

-- A restore of an earlier version of a workflow with numbered versions succeeds. It makes a new
-- current version with the definition of the old one and the next number; every other version stays
-- as it was, and the versions are numbered without a gap again.
pub restore_version-appends :
    (fresh : Fresh) (workspace_id id version_id : String) (store : Store) (w : Workflow)
    (source : Version)
    → find_workflow workspace_id id store.workflows ≡ some w
    → find (λ v. v.id =ₛ version_id) w.versions ≡ some source
    → Numbered w
    → Appended fresh source.definition w store
        (restore_version fresh workspace_id id version_id store)
unfolding restore_version
restore_version-appends fresh workspace_id id version_id store w source found old h =
    rw (found, old) (append_version-Appended fresh source.definition w store h)
