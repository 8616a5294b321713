-- ===== src/Backend/Policy/Store.antt =====
-- The policies of backend/internal/policy/engine.go as a map from ids.
use nexus_cloud_identity_acc.Common.{
  String, true, false, Option, none, some, List, [], ◌∷◌, not, ◌≡◌, refl, sym, ap, Option-cases,
  ◌∙◌, ◌==◌, eq_iff, filter, inl, inr, if◌then◌else◌, Bool-cases, is_some,
}
use nexus_cloud_identity_acc.Types.{Policy}
use nexus_cloud_identity_acc.Backend.Policy.{get_policy, replace, update_policy, delete_policy}

get_policy-cons :
    (j : String) (p : Policy) (ps : List Policy)
    → get_policy j (p ∷ ps) ≡ (if p.id == j then some p else get_policy j ps)
unfolding get_policy
get_policy-cons j p ps = refl

same_id : (a b j : String) → (a == b) ≡ true → (a == j) ≡ (b == j)
same_id a b j h = ap (λ x. x == j) ((eq_iff a b).0 h)

both_ids : (a b j : String) → (a == j) ≡ true → (b == j) ≡ true → (a == b) ≡ true
both_ids a b j h k = (eq_iff a b).1 ((eq_iff a j).0 h ∙ sym ((eq_iff b j).0 k))

-- what is found after another policy, by whether the ids agree
module _ (id j : String) (p : Policy) (rest : Option Policy) where
  skip_dropped :
      (p.id == id) ≡ true
      → (if id == j then none else rest)
        ≡ (if id == j then none else (if p.id == j then some p else rest))
  skip_dropped h =
      rw (same_id p.id id j h)
        (elim (Bool-cases (id == j)) [ inl k ↦ rw k refl | inr k ↦ rw k refl ])

  keep_other :
      (found : Option Policy)
      → (p.id == id) ≡ false
      → (if p.id == j then some p else (if id == j then found else rest))
        ≡ (if id == j then found else (if p.id == j then some p else rest))
  keep_other found h = elim (Bool-cases (p.id == j)) [
    | inl k ↦ elim (Bool-cases (id == j)) [
      | inl l ↦ let e = both_ids p.id id j k l in cc
      | inr l ↦ rw (k, l) refl
    ]
    | inr k ↦ rw k refl
  ]

  in_place :
      (q : Policy)
      → (p.id == id) ≡ true
      → (if id == j then some q else rest)
        ≡ (if id == j then some q else (if p.id == j then some p else rest))
  in_place q h =
      rw (same_id p.id id j h)
        (elim (Bool-cases (id == j)) [ inl k ↦ rw k refl | inr k ↦ rw k refl ])

get_policy-filter :
    (id j : String) (ps : List Policy)
    → get_policy j (filter (λ p. not (p.id == id)) ps) ≡ (if id == j then none else get_policy j ps)
unfolding get_policy
get_policy-filter id j [] = elim (Bool-cases (id == j)) [ inl k ↦ rw k refl | inr k ↦ rw k refl ]
get_policy-filter id j (p ∷ ps) = elim (Bool-cases (p.id == id)) [
  | inl h ↦ rw h (get_policy-filter id j ps ∙ skip_dropped id j p (get_policy j ps) h)
  | inr h ↦ rw h (rw (get_policy-filter id j ps) (keep_other id j p (get_policy j ps) none h))
]

get_policy-replace :
    (q : Policy) (j : String) (ps : List Policy)
    → is_some (get_policy q.id ps) ≡ true
    → get_policy j (replace q ps) ≡ (if q.id == j then some q else get_policy j ps)
unfolding get_policy replace
get_policy-replace q j [] h = cc
get_policy-replace q j (p ∷ ps) h = elim (Bool-cases (p.id == q.id)) [
  | inl e ↦ rw e (in_place q.id j p (get_policy j ps) q e)
  | inr e ↦ rw e (
      rw (get_policy-replace q j ps (rw e at h)) (keep_other q.id j p (get_policy j ps) (some q) e))
]

abbrev pub Changed :
    (before : List Policy) (id : String) (new : Option Policy) → Option (List Policy) → Type 0
Changed before id new none = get_policy id before ≡ none
Changed before id new (some after) =
    (is_some (get_policy id before) ≡ true)
    × ((j : String) → get_policy j after ≡ (if id == j then new else get_policy j before))

-- Updating a policy fails exactly when no policy has its id, and else the id alone leads to the new
-- policy afterwards; every other id leads where it led.
pub update_policy-Changed :
    (q : Policy) (policies : List Policy)
    → Changed policies q.id (some q) (update_policy q policies)
unfolding update_policy
update_policy-Changed q policies = elim (Option-cases (get_policy q.id policies)) [
  | inl e ↦ rw e e
  | inr (p, e) ↦ let h = ap is_some e in rw e (h, λ j. get_policy-replace q j policies h)
]

-- Deleting a policy fails exactly when no policy has the id, and else the id alone leads nowhere
-- afterwards; every other id leads where it led.
pub delete_policy-Changed :
    (id : String) (policies : List Policy) → Changed policies id none (delete_policy id policies)
unfolding delete_policy
delete_policy-Changed id policies = elim (Option-cases (get_policy id policies)) [
  | inl e ↦ rw e e
  | inr (p, e) ↦ rw e (ap is_some e, λ j. get_policy-filter id j policies)
]
