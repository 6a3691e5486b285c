-- ===== src/Config/Leaves.antt =====
-- Loading from the environment, against a plain list of the keys of a configuration.
use drive_power.Prelude.{
  String, List, [], ◌∷◌, ◌++◌, true, false, ◌≡◌, refl, sym, ap, ◌∙◌, if◌then◌else◌, Bool-cases, inl,
  inr,
}
use drive_power.Config.Model.{
  Leaf, Fields, no_fields, leaf_field, struct_field, embedded, Outcome, loaded, failed, both,
  on_loaded, Variables, Deps,
}
use drive_power.Config.Loader.{from_env, populate_from_env}
use drive_power.Config.Keys.{
  key_of, takes_part, settled, env_key-key_of, is_read-takes_part, from_env-settled,
}

module _ {R : Type 0} where
  -- The keys that are read, in their order, with what the fields hold.
  unfoldable pub leaves : Fields R → String → List (String × Leaf R)
  leaves no_fields prefix = []
  leaves (leaf_field field leaf rest) prefix =
      (if takes_part field then (key_of prefix field, leaf) ∷ [] else []) ++ leaves rest prefix
  leaves (struct_field field inner rest) prefix =
      let within = leaves inner (key_of prefix field) in
      (if takes_part field then within else []) ++ leaves rest prefix
  leaves (embedded can_set inner rest) prefix =
      let within = leaves inner prefix in (if can_set then within else []) ++ leaves rest prefix

  -- The list with the variables of its keys, up to the first variable that is no value of its field.
  unfoldable pub overridden :
      Deps R → Variables → List (String × Leaf R) → Outcome (List (String × Leaf R))
  overridden deps vars [] = loaded []
  overridden deps vars ((key, leaf) ∷ rest) =
      both (λ new after. (key, new) ∷ after) (settled deps vars key leaf)
        (overridden deps vars rest)

  both-nil : (r : Outcome (List (String × Leaf R))) → r ≡ both (λ a b. a ++ b) (loaded []) r
  both-nil (loaded b) = refl
  both-nil (failed e) = refl

  both_assoc :
      (key : String) (x : Outcome (Leaf R)) (a b : Outcome (List (String × Leaf R)))
      → both (λ new after. (key, new) ∷ after) x (both (λ a b. a ++ b) a b)
        ≡ both (λ a b. a ++ b) (both (λ new after. (key, new) ∷ after) x a) b
  both_assoc key (failed e) a b = refl
  both_assoc key (loaded new) (failed e) b = refl
  both_assoc key (loaded new) (loaded xs) (failed e) = refl
  both_assoc key (loaded new) (loaded xs) (loaded ys) = refl

  overridden-append :
      (deps : Deps R) (vars : Variables) (xs ys : List (String × Leaf R))
      → overridden deps vars (xs ++ ys)
        ≡ both (λ a b. a ++ b) (overridden deps vars xs) (overridden deps vars ys)
  unfolding overridden
  overridden-append deps vars [] ys = both-nil (overridden deps vars ys)
  overridden-append deps vars ((key, leaf) ∷ xs) ys =
      ap (both (λ new after. (key, new) ∷ after) (settled deps vars key leaf))
        (overridden-append deps vars xs ys)
      ∙ both_assoc key (settled deps vars key leaf) (overridden deps vars xs)
          (overridden deps vars ys)

  -- A field that is passed over.
  skipped :
      (f : Fields R → Fields R) (prefix : String) (r : Outcome (Fields R))
      {out : Outcome (List (String × Leaf R))}
      → ((fields : Fields R) → leaves (f fields) prefix ≡ leaves fields prefix)
      → on_loaded (λ filled. leaves filled prefix) r ≡ out
      → on_loaded (λ filled. leaves filled prefix) (on_loaded f r) ≡ out
  skipped f prefix (failed e) h k = k
  skipped f prefix (loaded fields) h k = ap loaded (h fields) ∙ k

  -- A field that is read, before the rest of the fields.
  read_first :
      {A : Type 0} (f : A → Fields R → Fields R) (prefix : String) (x : Outcome A)
      (r : Outcome (Fields R)) (k : A → List (String × Leaf R))
      → ((a : A) (fields : Fields R) → leaves (f a fields) prefix ≡ k a ++ leaves fields prefix)
      → on_loaded (λ filled. leaves filled prefix) (both f x r)
        ≡ both (λ a b. a ++ b) (on_loaded k x) (on_loaded (λ filled. leaves filled prefix) r)
  read_first f prefix (failed e) r k h = refl
  read_first f prefix (loaded a) (failed e) k h = refl
  read_first f prefix (loaded a) (loaded fields) k h = ap loaded (h a fields)

  overridden_one :
      (deps : Deps R) (vars : Variables) (key : String) (leaf : Leaf R)
      → on_loaded (λ new. (key, new) ∷ []) (from_env deps vars key leaf)
        ≡ overridden deps vars ((key, leaf) ∷ [])
  unfolding overridden
  overridden_one deps vars key leaf =
      rw (from_env-settled deps vars key leaf) (go (settled deps vars key leaf))
    where
      go :
          (x : Outcome (Leaf R))
          → on_loaded (λ new. (key, new) ∷ []) x
            ≡ both {B = List (String × Leaf R)} {C = List (String × Leaf R)}
                (λ new after. (key, new) ∷ after)
                x
                (loaded [])
      go (loaded new) = refl
      go (failed e) = refl

  overridden_none : (deps : Deps R) (vars : Variables) → loaded [] ≡ overridden deps vars []
  unfolding overridden
  overridden_none deps vars = refl

  -- A field that is read, where it and the rest agree with their lists.
  joined :
      {A : Type 0} (f : A → Fields R → Fields R) (deps : Deps R) (vars : Variables)
      (prefix : String) (x : Outcome A) (r : Outcome (Fields R)) (k : A → List (String × Leaf R))
      (xs ys : List (String × Leaf R))
      → ((a : A) (fields : Fields R) → leaves (f a fields) prefix ≡ k a ++ leaves fields prefix)
      → on_loaded k x ≡ overridden deps vars xs
      → on_loaded (λ filled. leaves filled prefix) r ≡ overridden deps vars ys
      → on_loaded (λ filled. leaves filled prefix) (both f x r) ≡ overridden deps vars (xs ++ ys)
  joined f deps vars prefix x r k xs ys g h i =
      read_first f prefix x r k g ∙ rw (h, i) (sym (overridden-append deps vars xs ys))

  -- Loading from the environment reads the fields of a configuration, those of its structs among them, like
  -- a plain list of keys: each exported field that is not tagged "-" gets the value of the variable of
  -- its key, parsed by its kind, or keeps its own where there is none; no key changes; and where variables are no values of their fields the first of them in that order is the one
  -- reported.
  pub populate_from_env-overridden :
      (deps : Deps R) (vars : Variables) (target : Fields R) (prefix : String)
      → on_loaded (λ filled. leaves filled prefix) (populate_from_env deps vars target prefix)
        ≡ overridden deps vars (leaves target prefix)
  unfolding leaves populate_from_env
  populate_from_env-overridden deps vars no_fields prefix = overridden_none deps vars
  populate_from_env-overridden deps vars (leaf_field field leaf rest) prefix =
      let key = key_of prefix field in
      let after = populate_from_env-overridden deps vars rest prefix in
      elim (Bool-cases (takes_part field)) [
        | inl h ↦
            rw (env_key-key_of prefix field, is_read-takes_part field, h)
              (joined (leaf_field field) deps vars prefix _ _ (λ new. (key, new) ∷ []) _ _
                (λ new fields. rw (h) refl) (overridden_one deps vars key leaf) after)
        | inr h ↦
            rw (env_key-key_of prefix field, is_read-takes_part field, h)
              (skipped (leaf_field field leaf) prefix _ (λ fields. rw (h) refl) after)
      ]
  populate_from_env-overridden deps vars (struct_field field inner rest) prefix =
      let key = key_of prefix field in
      let after = populate_from_env-overridden deps vars rest prefix in
      elim (Bool-cases (takes_part field)) [
        | inl h ↦
            rw (env_key-key_of prefix field, is_read-takes_part field, h)
              (joined (struct_field field) deps vars prefix _ _ (λ filled. leaves filled key) _ _
                (λ new fields. rw (h) refl) (populate_from_env-overridden deps vars inner key)
                after)
        | inr h ↦
            rw (env_key-key_of prefix field, is_read-takes_part field, h)
              (skipped (struct_field field inner) prefix _ (λ fields. rw (h) refl) after)
      ]
  populate_from_env-overridden deps vars (embedded true inner rest) prefix =
      joined (embedded true) deps vars prefix _ _ (λ filled. leaves filled prefix) _ _
        (λ new fields. refl) (populate_from_env-overridden deps vars inner prefix)
        (populate_from_env-overridden deps vars rest prefix)
  populate_from_env-overridden deps vars (embedded false inner rest) prefix =
      skipped (embedded false inner) prefix _ (λ fields. refl)
        (populate_from_env-overridden deps vars rest prefix)
