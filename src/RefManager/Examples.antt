-- ===== src/RefManager/Examples.antt =====
-- An owner and an object, for the theorems about claims.
use yurt_app_manager.Prelude.{
  Bool, true, false, none, some, List, [], ◌∷◌, ◌++◌, Error, ok, err, ◌≡◌, ◌⊎◌, refl,
}
use yurt_app_manager.RefManager.{
  OwnerReference, Object, Owner, Library, matches, passes, without_owner, claim_object,
  claim_owned_objects, can_adopt,
}
use yurt_app_manager.RefManager.Claims.{
  claim_object_claimed, claim_owned_objects_deleting, claim_object_vanished,
}
use yurt_app_manager.Writes.{Server}

abbrev the_owner : Bool → Owner
the_owner deleting = record { uid = "u"; deleting = deleting }

abbrev reference : OwnerReference
reference = record { uid = "u"; controller = true }

abbrev selecting : Bool → Library
selecting chosen = record {
  controller_of = λ refs. elim refs [ [] ↦ none | r ∷ _ ↦ some r ];
  selector_matches = λ labels. chosen;
  filters = [];
  set_controller_reference = λ owner obj. ok (record obj { owner_references = reference ∷ [] });
  fresh_owner = ok (the_owner false);
}

abbrev owned_object : Object
owned_object = record {
  name = "o";
  labels = none;
  owner_references = reference ∷ [];
  deleting = false;
}

abbrev gone : Server Object
gone log obj = some Error.not_found

claim_object_claimed_example :
    (matches (selecting true) (the_owner false) gone owned_object ≡ true)
    × (((controller : OwnerReference) × ((selecting true).controller_of (reference ∷ [])
            ≡ some controller)
          × (controller.uid ≡ "u")
          × (owned_object ≡ owned_object)
          × (◌≡◌ {A = List Object} [] []))
        ⊎ (((selecting true).controller_of (reference ∷ []) ≡ none)
            × (false ≡ false)
            × (false ≡ false)
            × (can_adopt (selecting true) (the_owner false) gone ≡ ok tt)
            × ((selecting true).set_controller_reference (the_owner false) owned_object
                ≡ ok owned_object)
            × (◌≡◌ {A = List Object} [] ([] ++ owned_object ∷ []))))
unfolding claim_object matches passes
claim_object_claimed_example =
    claim_object_claimed (selecting true) (the_owner false) gone owned_object owned_object [] []
      refl

claim_owned_objects_deleting_example :
    (claim_owned_objects (selecting false) (the_owner true) gone (owned_object ∷ []) []).1 ≡ []
claim_owned_objects_deleting_example =
    claim_owned_objects_deleting (selecting false) (the_owner true) gone (owned_object ∷ []) [] refl

claim_object_vanished_example :
    (claim_object (selecting false) (the_owner false) gone owned_object []).0
    ≡ err (Error.wrapped "can't remove owner reference" Error.not_found)
unfolding matches passes without_owner
claim_object_vanished_example =
    claim_object_vanished (selecting false) (the_owner false) gone owned_object [] reference [] refl
      refl refl refl refl refl
